-- ===== src/Screen/Status.antt =====
-- When a change of status is shown.
use bsflite_otr.Base.{
  ℕ, ◌≡◌, refl, Bool, true, false, not, some, List, [], ◌∷◌, ◌++◌, if◌then◌else◌, ltb, sym,
  append-nil,
}
use bsflite_otr.Session.{Text}
use bsflite_otr.Names.{simplify_sn}
use bsflite_otr.Screen.{
  Buddy, Client, Shown, find_buddy, update, buddy_idle, show, now_idle, no_longer_idle,
}

-- What `buddy_idle` shows of a buddy who was idle or not: a line where ten minutes are crossed.
abbrev idle_line : Text → Bool → ℕ → List Shown
idle_line who was idletime =
    if ltb idletime 10
    then (if was then no_longer_idle who ∷ [] else [])
    else (if was then [] else now_idle who ∷ [])

idle_branch :
    (low was squelch : Bool) (c : Client) (who : Text)
    → let d =
        if not (if not low then not was else was)
        then c
        else if squelch
        then c
        else show c ((if not low then now_idle who else no_longer_idle who) ∷ []) in
      (d.buddies ≡ c.buddies)
      × (d.shown
          ≡ c.shown
            ++ (if squelch
                then []
                else if low
                then (if was then no_longer_idle who ∷ [] else [])
                else if was
                then []
                else now_idle who ∷ []))
idle_branch true true true c who = (refl, sym (append-nil c.shown))
idle_branch true true false c who = (refl, refl)
idle_branch true false true c who = (refl, sym (append-nil c.shown))
idle_branch true false false c who = (refl, sym (append-nil c.shown))
idle_branch false true true c who = (refl, sym (append-nil c.shown))
idle_branch false true false c who = (refl, sym (append-nil c.shown))
idle_branch false false true c who = (refl, sym (append-nil c.shown))
idle_branch false false false c who = (refl, refl)

-- `buddy_idle` on a buddy of the list: it sets the idle time of the first entry of the name and
-- marks it idle from ten minutes on; it shows a line exactly where the mark changes and idle
-- messages are not squelched.
buddy_idle_lem :
    (c : Client) (who : Text) (idletime : ℕ) (b : Buddy)
    → find_buddy c who ≡ some b
    → let c' = buddy_idle c who idletime in
      let set = λ (x : Buddy). record x { idletime = idletime; idle = not (ltb idletime 10) } in
      (c'.buddies ≡ update (simplify_sn who) set c.buddies)
      × (c'.shown ≡ c.shown ++ (if c.squelchidle then [] else idle_line who b.idle idletime))
unfolding find_buddy
buddy_idle_lem c who idletime b e =
    let set = λ (x : Buddy). record x { idletime = idletime; idle = not (ltb idletime 10) } in
    let c' = record c { buddies = update (simplify_sn who) set c.buddies } in
    unfold buddy_idle in
    rw (e, buddy_idle) (idle_branch (ltb idletime 10) b.idle c.squelchidle c' who)
