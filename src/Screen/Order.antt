-- ===== src/Screen/Order.antt =====
-- The list stays in the order of `strcmp`, and `buddiesonline` is its length.
use bsflite_otr.Base.{
  ℕ, suc, ◌+◌, ◌-◌, ◌≡◌, refl, Bool, true, false, Option, some, List, [], ◌∷◌, length,
  if◌then◌else◌, arith, Bool-cases, Option-cases, inl, inr, ◌∙◌, not, sym, ltb,
}
use bsflite_otr.Session.{Text}
use bsflite_otr.Names.{text_eq, text_lt, simplify_sn}
use bsflite_otr.Names.Laws.{text_lt_trans, text_lt_total, text_lt_irrefl}
use bsflite_otr.Screen.{
  Buddy, Client, Shown, find_sn, insert, remove, update, buddy_online, buddy_offline,
  remove_from_list, buddy_idle, buddy_away, buddy_unaway, show, Otr, end_otr,
}

-- No entry is below `x`.
abbrev FromOn : Text → List Buddy → Type 0
FromOn x [] = Unit
FromOn x (b ∷ bs) = (text_lt b.sn x ≡ false) × FromOn x bs

-- No entry is below an earlier one.
abbrev IsSorted : List Buddy → Type 0
IsSorted [] = Unit
IsSorted (b ∷ bs) = FromOn b.sn bs × IsSorted bs

pub record IsClient (c : Client) : Type 0 where
  pub sorted : IsSorted c.buddies
  pub counted : c.buddiesonline ≡ length c.buddies

text_lt_asym : (a b : Text) → text_lt a b ≡ true → text_lt b a ≡ false
text_lt_asym a b h = elim (Bool-cases (text_lt b a)) [
  | inl k ↦ cc (text_lt_trans a b a h k, text_lt_irrefl a)
  | inr k ↦ k
]

-- Below or equal is transitive.
text_le_trans : (a b c : Text) → text_lt b a ≡ false → text_lt c b ≡ false → text_lt c a ≡ false
text_le_trans a b c h k = elim (Bool-cases (text_lt c a)) [
  | inr done ↦ done
  | inl below ↦ elim (Bool-cases (text_lt a b)) [
    | inl less ↦ cc (text_lt_trans c a b below less)
    | inr more ↦ let same = text_lt_total a b more h in cc
  ]
]

FromOn-trans : (x y : Text) (bs : List Buddy) → text_lt y x ≡ false → FromOn y bs → FromOn x bs
FromOn-trans x y [] h v = tt
FromOn-trans x y (b ∷ bs) h (v, vs) = (text_le_trans x y b.sn h v, FromOn-trans x y bs h vs)

FromOn-insert :
    (x : Text) (new : Buddy) (bs : List Buddy)
    → text_lt new.sn x ≡ false
    → FromOn x bs
    → FromOn x (insert new bs)
unfolding insert
FromOn-insert x new [] h v = (h, tt)
FromOn-insert x new (b ∷ bs) h (v, vs) = elim (Bool-cases (text_lt new.sn b.sn)) [
  | inl e ↦ rw e (h, (v, vs))
  | inr e ↦ rw e (v, FromOn-insert x new bs h vs)
]

insert-IsSorted : (new : Buddy) (bs : List Buddy) → IsSorted bs → IsSorted (insert new bs)
unfolding insert
insert-IsSorted new [] v = (tt, tt)
insert-IsSorted new (b ∷ bs) (v, vs) = elim (Bool-cases (text_lt new.sn b.sn)) [
  | inl e ↦
      let below = text_lt_asym new.sn b.sn e in
      rw e ((below, FromOn-trans new.sn b.sn bs below v), (v, vs))
  | inr e ↦ rw e (FromOn-insert b.sn new bs e v, insert-IsSorted new bs vs)
]

length-insert : (new : Buddy) (bs : List Buddy) → length (insert new bs) ≡ suc (length bs)
unfolding insert
length-insert new [] = refl
length-insert new (b ∷ bs) = ground (arith, length-insert new bs)

FromOn-remove : (x sn : Text) (bs : List Buddy) → FromOn x bs → FromOn x (remove sn bs)
unfolding remove
FromOn-remove x sn [] v = tt
FromOn-remove x sn (b ∷ bs) (v, vs) = elim (Bool-cases (text_eq b.sn sn)) [
  | inl e ↦ rw e vs
  | inr e ↦ rw e (v, FromOn-remove x sn bs vs)
]

remove-IsSorted : (sn : Text) (bs : List Buddy) → IsSorted bs → IsSorted (remove sn bs)
unfolding remove
remove-IsSorted sn [] v = tt
remove-IsSorted sn (b ∷ bs) (v, vs) = elim (Bool-cases (text_eq b.sn sn)) [
  | inl e ↦ rw e vs
  | inr e ↦ rw e (FromOn-remove b.sn sn bs v, remove-IsSorted sn bs vs)
]

-- An entry that is found is one that `remove` takes off.
length-remove :
    (sn : Text) (bs : List Buddy) {b : Buddy}
    → find_sn sn bs ≡ some b
    → length bs ≡ suc (length (remove sn bs))
unfolding remove find_sn
length-remove sn [] e = cc
length-remove sn (x ∷ bs) {b} e = ground (arith, length-remove sn bs {b = b})

module _ (sn : Text) (f : Buddy → Buddy) (keeps : (b : Buddy) → (f b).sn ≡ b.sn) where
  FromOn-update : (x : Text) (bs : List Buddy) → FromOn x bs → FromOn x (update sn f bs)
  unfolding update
  FromOn-update x [] v = tt
  FromOn-update x (b ∷ bs) (v, vs) = elim (Bool-cases (text_eq b.sn sn)) [
    | inl e ↦ rw e (rw (keeps b) v, vs)
    | inr e ↦ rw e (v, FromOn-update x bs vs)
  ]

  update-IsSorted : (bs : List Buddy) → IsSorted bs → IsSorted (update sn f bs)
  unfolding update
  update-IsSorted [] v = tt
  update-IsSorted (b ∷ bs) (v, vs) = elim (Bool-cases (text_eq b.sn sn)) [
    | inl e ↦ rw e (rw (keeps b) v, vs)
    | inr e ↦ rw e (FromOn-update b.sn bs v, update-IsSorted bs vs)
  ]

  length-update : (bs : List Buddy) → length (update sn f bs) ≡ length bs
  unfolding update
  length-update [] = refl
  length-update (b ∷ bs) = ground (arith, length-update bs)

  update-IsClient :
      (c : Client) → IsClient c → IsClient (record c { buddies = update sn f c.buddies })
  update-IsClient c v = record {
    sorted = update-IsSorted c.buddies v.sorted;
    counted = v.counted ∙ sym (length-update c.buddies);
  }

show-IsClient : (c : Client) (lines : List Shown) → IsClient c → IsClient (show c lines)
show-IsClient c lines v = record { sorted = v.sorted; counted = v.counted }

if-IsClient : (b : Bool) (c d : Client) → IsClient c → IsClient d → IsClient (if b then c else d)
if-IsClient true c d v w = v
if-IsClient false c d v w = w

pub buddy_online-IsClient :
    (context_find : Text → Option ℕ) (c : Client) (who : Text)
    → IsClient c
    → IsClient (buddy_online context_find c who)
unfolding buddy_online
buddy_online-IsClient context_find c who v =
    let sname = simplify_sn who in
    let new : Buddy = record {
      sn = sname;
      formatted = who;
      idle = false;
      away = false;
      otr = Otr.plain;
      otr_context = context_find sname;
      idletime = 0;
    } in
    let kept : IsClient
        (record c { buddies = insert new c.buddies; buddiesonline = c.buddiesonline + 1 }) =
      record {
        sorted = insert-IsSorted new c.buddies v.sorted;
        counted = omega (arith, v.counted, length-insert new c.buddies);
      } in
    if-IsClient c.squelchconnect _ _ kept (show-IsClient _ _ kept)

removed :
    (c d : Client) (sn : Text) {b : Buddy}
    → IsClient c
    → find_sn sn c.buddies ≡ some b
    → IsClient (record d { buddies = remove sn c.buddies; buddiesonline = c.buddiesonline - 1 })
removed c d sn {b} v e = record {
  sorted = remove-IsSorted sn c.buddies v.sorted;
  counted = omega (arith, v.counted, length-remove sn c.buddies e);
}

pub remove_from_list-IsClient :
    (c : Client) (who : Text) → IsClient c → IsClient (remove_from_list c who)
unfolding remove_from_list
remove_from_list-IsClient c who v = elim (Option-cases (find_sn (simplify_sn who) c.buddies)) [
  | inl e ↦ rw (e, remove_from_list) v
  | inr (b, e) ↦ rw (e, remove_from_list) (removed c c (simplify_sn who) v e)
]

pub buddy_offline-IsClient : (c : Client) (who : Text) → IsClient c → IsClient (buddy_offline c who)
unfolding buddy_offline
buddy_offline-IsClient c who v = elim (Option-cases (find_sn (simplify_sn who) c.buddies)) [
  | inl e ↦ rw (e, buddy_offline) v
  | inr (b, e) ↦
      let kept = removed c (end_otr c b) (simplify_sn who) v e in
      rw (e, buddy_offline) (if-IsClient c.squelchconnect _ _ kept (show-IsClient _ _ kept))
]

pub buddy_idle-IsClient :
    (c : Client) (who : Text) (idletime : ℕ) → IsClient c → IsClient (buddy_idle c who idletime)
unfolding buddy_idle
buddy_idle-IsClient c who idletime v = elim (Option-cases (find_sn (simplify_sn who) c.buddies)) [
  | inl e ↦ rw (e, buddy_idle) v
  | inr (b, e) ↦
      let kept =
        update-IsClient (simplify_sn who)
          (λ (x : Buddy). record x { idletime = idletime; idle = not (ltb idletime 10) })
          (λ b. refl) c v in
      rw (e, buddy_idle)
        (if-IsClient _ _ _ kept (if-IsClient c.squelchidle _ _ kept (show-IsClient _ _ kept)))
]

pub buddy_away-IsClient : (c : Client) (who : Text) → IsClient c → IsClient (buddy_away c who)
unfolding buddy_away
buddy_away-IsClient c who v =
    let kept =
      update-IsClient (simplify_sn who) (λ (x : Buddy). record x { away = true }) (λ b. refl) c v in
    if-IsClient c.squelchaway _ _ kept (show-IsClient _ _ kept)

pub buddy_unaway-IsClient : (c : Client) (who : Text) → IsClient c → IsClient (buddy_unaway c who)
unfolding buddy_unaway
buddy_unaway-IsClient c who v =
    let kept =
      update-IsClient (simplify_sn who) (λ (x : Buddy). record x { away = false }) (λ b. refl) c
        v in
    if-IsClient c.squelchaway _ _ kept (show-IsClient _ _ kept)

-- The callbacks that change the list, and a client that only they have touched.
pub data Callback : Type 0 where
  online offline dropped went_away came_back : Text → Callback
  idle_for : Text → ℕ → Callback

run_callback : (Text → Option ℕ) → Client → Callback → Client
run_callback context_find c (online who) = buddy_online context_find c who
run_callback context_find c (offline who) = buddy_offline c who
run_callback context_find c (dropped who) = remove_from_list c who
run_callback context_find c (went_away who) = buddy_away c who
run_callback context_find c (came_back who) = buddy_unaway c who
run_callback context_find c (idle_for who n) = buddy_idle c who n

pub run_callbacks : (Text → Option ℕ) → Client → List Callback → Client
run_callbacks context_find c [] = c
run_callbacks context_find c (e ∷ es) =
    run_callbacks context_find (run_callback context_find c e) es

run_callback-IsClient :
    (context_find : Text → Option ℕ) (c : Client) (e : Callback)
    → IsClient c
    → IsClient (run_callback context_find c e)
unfolding run_callback
run_callback-IsClient context_find c (online who) v = buddy_online-IsClient context_find c who v
run_callback-IsClient context_find c (offline who) v = buddy_offline-IsClient c who v
run_callback-IsClient context_find c (dropped who) v = remove_from_list-IsClient c who v
run_callback-IsClient context_find c (went_away who) v = buddy_away-IsClient c who v
run_callback-IsClient context_find c (came_back who) v = buddy_unaway-IsClient c who v
run_callback-IsClient context_find c (idle_for who n) v = buddy_idle-IsClient c who n v

-- Whatever callbacks come in, in whatever order and for whatever names, the list stays in the order
-- of `strcmp` and `buddiesonline` stays its length.
pub run_callbacks-IsClient :
    (context_find : Text → Option ℕ) (c : Client) (es : List Callback)
    → IsClient c
    → IsClient (run_callbacks context_find c es)
unfolding run_callbacks
run_callbacks-IsClient context_find c [] v = v
run_callbacks-IsClient context_find c (e ∷ es) v =
    run_callbacks-IsClient context_find (run_callback context_find c e) es
      (run_callback-IsClient context_find c e v)
