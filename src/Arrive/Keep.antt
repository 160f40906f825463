-- ===== src/Arrive/Keep.antt =====
-- A message that arrives is handled to the end.
use bsflite_otr.Base.{
  if-holds, choose-holds, choose-OnSome, OnSome, Run, done, fault, unfinished, ◌||◌, ◌&&◌, not,
  ◌++◌, ◌∷◌, [], List, ℕ, suc, ◌+◌, ◌<◌, ◌≡◌, refl, sym, ap, ◌∙◌, Bool, true, false, Option, none,
  some, length, if◌then◌else◌, choose, arith, Bool-cases, inl, inr, ◌⊎◌, append_assoc,
}
use bsflite_otr.Session.{Text}
use bsflite_otr.Names.{simplify_sn, compare_nicks}
use bsflite_otr.Packet.{size_mod}
use bsflite_otr.Names.Laws.{text_eq→eq}
use bsflite_otr.Markup.Bound.{strip_html-le}
use bsflite_otr.Screen.{find_buddy, Buddy}
use bsflite_otr.Desk.{Desk, Call, auto_reply, arrived, logged_message, call, is_nil}
use bsflite_otr.Desk.Server.{is_some, IsTold, call-IsTold}
use bsflite_otr.Desk.Told.{filtered_total}
use bsflite_otr.Arrive.{
  Received, internal, untouched, replaced, text_of, is_refused, Libotr, decrypted, is_waiting,
  wait_for, announce, getmessage,
}

-- The number of answers to a name.
abbrev pub replies : Text → List Call → ℕ
replies nick [] = 0
replies nick (auto_reply who m ∷ cs) =
    if compare_nicks who nick then suc (replies nick cs) else replies nick cs
replies nick (c ∷ cs) = replies nick cs

replies-append :
    (nick : Text) (cs ds : List Call) → replies nick (cs ++ ds) ≡ replies nick cs + replies nick ds
replies-append nick [] ds = omega arith
replies-append nick (auto_reply who m ∷ cs) ds = elim (Bool-cases (compare_nicks who nick)) [
  | inl e ↦ rw e (omega (arith, replies-append nick cs ds))
  | inr e ↦ rw e (replies-append nick cs ds)
]
replies-append nick (c ∷ cs) ds = replies-append nick cs ds

-- The answers so far and who waits: an answer is given to a name only if it was not waiting, and it is
-- waiting then; and a name that waits goes on waiting.
abbrev pub Once : Text → Desk → Desk → Type 0
Once nick d d' =
    ((replies nick d'.calls ≡ replies nick d.calls)
      × ((is_waiting nick d.waiting ≡ false) ⊎ (is_waiting nick d'.waiting ≡ true)))
    ⊎ ((replies nick d'.calls ≡ replies nick d.calls + 1)
        × (is_waiting nick d.waiting ≡ false)
        × (is_waiting nick d'.waiting ≡ true))

abbrev pub Handled : Text → Desk → Run Desk → Type 0
Handled nick d (done d') = IsTold d' × Once nick d d'
Handled nick d fault = ⊥
Handled nick d unfinished = ⊥

pub same-Once : (nick : Text) (d : Desk) → Once nick d d
same-Once nick d = elim (Bool-cases (is_waiting nick d.waiting)) [
  | inl e ↦ inl (refl, inr e)
  | inr e ↦ inl (refl, inl e)
]

is_waiting-append :
    (nick who : Text) (ws : List Text)
    → is_waiting nick (ws ++ (who ∷ [])) ≡ (is_waiting nick ws || compare_nicks who nick)
unfolding is_waiting
is_waiting-append nick who [] = ground arith
is_waiting-append nick who (w ∷ ws) = ground (arith, is_waiting-append nick who ws)

-- Two names that are the same wait alike.
is_waiting_same :
    (who nick : Text) (ws : List Text)
    → compare_nicks who nick ≡ true
    → is_waiting who ws ≡ is_waiting nick ws
unfolding is_waiting compare_nicks
is_waiting_same who nick [] e = refl
is_waiting_same who nick (w ∷ ws) e =
    rw (text_eq→eq (simplify_sn who) (simplify_sn nick) e, is_waiting_same who nick ws e) refl

-- A desk on which an answer may have been given.
abbrev Waited : Desk → Text → Desk → Type 0
Waited d who d' =
    IsTold d'
    × (d'.waiting ≡ d.waiting)
    × ((d'.calls ≡ d.calls) ⊎ ((m : Text) × (d'.calls ≡ d.calls ++ (auto_reply who m ∷ []))))

answered :
    (d : Desk) (who : Text) (away : Bool) (m : Option Text)
    → IsTold d
    → (away ≡ true → is_some m ≡ true)
    → (d' : Desk) × ((if away
          then choose fault (λ (m : Text). done (call d (auto_reply who m ∷ []))) m
          else done d)
        ≡ done d')
      × Waited d who d'
answered d who false m v h = (d, refl, (v, refl, inl refl))
answered d who true none v h = absurd (ground (arith, h refl))
answered d who true (some m) v h =
    let cs = auto_reply who m ∷ [] in
    (call d cs, refl, (call-IsTold d cs ((λ m. refl), (λ b. refl)) v, refl, inr (m, refl)))

wait_for-Waited :
    (d : Desk) (who : Text) (automessage : Bool)
    → IsTold d
    → (d' : Desk) × (wait_for d who automessage ≡ done d')
      × Waited (record d { waiting = d.waiting ++ (who ∷ []) }) who d'
unfolding wait_for
wait_for-Waited d who automessage v =
    answered (record d { waiting = d.waiting ++ (who ∷ []) }) who
      (d.isaway && (not automessage && (not d.respond_idle_only || d.isidle))) d.awaymsg
      (record { flag = v.flag; message = v.message; visibility = v.visibility })
      (λ e. sym v.flag ∙ and_left d.isaway _ e)
  where
    and_left : (a b : Bool) → (a && b) ≡ true → a ≡ true
    and_left true b e = refl
    and_left false b e = e

-- One name more waits, which may have been answered.
waited-Once :
    (nick who : Text) (d d' : Desk) (cs : List Call)
    → is_waiting who d.waiting ≡ false
    → d'.waiting ≡ d.waiting ++ (who ∷ [])
    → d'.calls ≡ d.calls ++ cs
    → ((replies nick cs ≡ 0) ⊎ (replies nick cs ≡ (if compare_nicks who nick then 1 else 0)))
    → Once nick d d'
waited-Once nick who d d' cs new waits calls count =
    let total : replies nick d'.calls ≡ replies nick d.calls + replies nick cs =
      ap (replies nick) calls ∙ replies-append nick d.calls cs in
    let now : is_waiting nick d'.waiting ≡ (is_waiting nick d.waiting || compare_nicks who nick) =
      ap (is_waiting nick) waits ∙ is_waiting-append nick who d.waiting in
    elim (Bool-cases (compare_nicks who nick)) [
      | inl e ↦
          let fresh : is_waiting nick d.waiting ≡ false =
            sym (is_waiting_same who nick d.waiting e) ∙ new in
          let waiting = now ∙ ap (λ b. b || compare_nicks who nick) fresh ∙ e in
          elim count [
            | inl z ↦ inl (omega (arith, total, z), inr waiting)
            | inr z ↦
                let one : replies nick cs ≡ 1 = rw e at z in
                inr (omega (arith, total, one), fresh, waiting)
          ]
      | inr e ↦
          let none_now : replies nick cs ≡ 0 = elim count [ inl z ↦ z | inr z ↦ rw e at z ] in
          inl (
            omega (arith, total, none_now),
            elim (Bool-cases (is_waiting nick d.waiting)) [
              | inl old ↦ inr (now ∙ ap (λ b. b || compare_nicks who nick) old)
              | inr no_wait ↦ inl no_wait
            ],
          )
    ]

announce-Handled :
    (nick : Text) (d : Desk) (who : Text) (automessage otr_message : Bool) (msg : Text)
    → IsTold d
    → Handled nick d (announce d who automessage otr_message msg)
unfolding announce
announce-Handled nick d who automessage otr_message msg v =
    let d1 = record d { lastsn = if d.istyping then d.lastsn else some (simplify_sn who) } in
    let v1 : IsTold d1 = record { flag = v.flag; message = v.message; visibility = v.visibility } in
    let cs =
      arrived who otr_message automessage msg
      ∷ logged_message automessage (simplify_sn who) msg
      ∷ [] in
    elim (Bool-cases (is_waiting who d.waiting)) [
      | inl old ↦ rw old (
        call-IsTold d1 cs ((λ m. refl), (λ b. refl)) v1,
        quiet d1 cs (replies-append nick d.calls cs),
      )
      | inr new ↦
          let (d2, e, (told, waits, calls)) = wait_for-Waited d1 who automessage v1 in
          rw (new, e)
            (
              call-IsTold d2 cs ((λ m. refl), (λ b. refl)) told,
              elim calls [
                | inl same ↦
                    waited-Once nick who d (call d2 cs) cs new waits (ap (λ r. r ++ cs) same)
                      (inl refl)
                | inr (m, more) ↦
                    waited-Once nick who d (call d2 cs) (auto_reply who m ∷ cs) new waits
                      (ap (λ r. r ++ cs) more ∙ append_assoc d.calls (auto_reply who m ∷ []) cs)
                      (inr refl)
              ],
            )
    ]
  where
    quiet :
        (d1 : Desk) (cs : List Call)
        → (replies nick (d1.calls ++ cs) ≡ replies nick d1.calls + 0)
        → Once nick d1 (call d1 cs)
    quiet d1 cs e = elim (Bool-cases (is_waiting nick d1.waiting)) [
      | inl w ↦ inl (omega (arith, e), inr w)
      | inr w ↦ inl (omega (arith, e), inl w)
    ]

-- What libotr hands over is a text whose length is a size_t.
abbrev pub IsSmall : Libotr → Type 0
IsSmall libotr =
    (b : Buddy) (message : Text)
    → OnSome (λ (r : Text × Bool). length r.0 < size_mod) (text_of [] (libotr b message))

decrypted-small :
    (libotr : Libotr) (d : Desk) (who message : Text)
    → IsSmall libotr
    → length message < size_mod
    → OnSome (λ (r : Text × Bool). length r.0 < size_mod) (decrypted libotr d who message)
unfolding decrypted
decrypted-small libotr d who message small fits =
    choose-holds (OnSome (λ (r : Text × Bool). length r.0 < size_mod)) (some (message, false))
      (λ (b : Buddy).
        if is_refused b.otr then some (message, false) else text_of message (libotr b message))
      (if d.otr then find_buddy d.client who else none) fits
      (λ b.
        if-holds (OnSome (λ (r : Text × Bool). length r.0 < size_mod)) (is_refused b.otr)
          (some (message, false)) (text_of message (libotr b message)) fits
          (either (libotr b message) (small b message)))
  where
    either :
        (r : Received)
        → OnSome (λ (r : Text × Bool). length r.0 < size_mod) (text_of [] r)
        → OnSome (λ (r : Text × Bool). length r.0 < size_mod) (text_of message r)
    either internal h = h
    either untouched h = fits
    either (replaced t b) h = h

pub getmessage-Handled :
    (libotr : Libotr) (nick : Text) (d : Desk) (who : Text) (automessage : Bool) (message : Text)
    → IsSmall libotr
    → length message < size_mod
    → IsTold d
    → Handled nick d (getmessage libotr d who automessage message)
unfolding getmessage
getmessage-Handled libotr nick d who automessage message small fits v =
    choose-OnSome (λ (r : Text × Bool). length r.0 < size_mod) (Handled nick d) (done d) _
      (decrypted libotr d who message) (v, same-Once nick d)
      (λ (msgin, otr_message) h.
        let (t, e, le) = strip_html-le msgin in
        let (msg, e') = filtered_total d.netspeak_filter t (omega (arith, h, le)) in
        rw (e, e')
          (if-holds (Handled nick d) (is_nil t) _ _ (v, same-Once nick d)
            (if-holds (Handled nick d) (is_nil msg) _ _ (v, same-Once nick d)
              (announce-Handled nick d who automessage otr_message msg v))))
      (decrypted-small libotr d who message small fits)
