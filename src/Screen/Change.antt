-- ===== src/Screen/Change.antt =====
-- The list as a map from names, and a sign-on taken back.
use bsflite_otr.Base.{
  ◌-◌, ℕ, ◌+◌, ◌≡◌, refl, Bool, true, false, Option, none, some, List, [], ◌∷◌, if◌then◌else◌,
  arith, Bool-cases, ◌∙◌, inl, inr,
}
use bsflite_otr.Session.{Text}
use bsflite_otr.Names.{text_eq, simplify_sn}
use bsflite_otr.Names.Laws.{text_eq_refl, text_eq→eq}
use bsflite_otr.Screen.{
  Buddy, Client, Otr, find_sn, find_buddy, insert, remove, buddy_online, buddy_offline,
}

find_sn-insert_ne :
    (k : Text) (new : Buddy) (bs : List Buddy)
    → text_eq new.sn k ≡ false
    → find_sn k (insert new bs) ≡ find_sn k bs
unfolding find_sn insert
find_sn-insert_ne k new [] h = rw h
find_sn-insert_ne k new (b ∷ bs) h = ground (arith, find_sn-insert_ne k new bs h)

find_sn-insert_self :
    (new : Buddy) (bs : List Buddy)
    → find_sn new.sn bs ≡ none
    → find_sn new.sn (insert new bs) ≡ some new
unfolding find_sn insert
find_sn-insert_self new [] e = rw (text_eq_refl new.sn)
find_sn-insert_self new (b ∷ bs) e = ground (arith, text_eq_refl new.sn, find_sn-insert_self new bs)

remove-insert :
    (new : Buddy) (bs : List Buddy) → find_sn new.sn bs ≡ none → remove new.sn (insert new bs) ≡ bs
unfolding find_sn insert remove
remove-insert new [] e = ground (arith, text_eq_refl new.sn)
remove-insert new (b ∷ bs) e = ground (arith, text_eq_refl new.sn, remove-insert new bs)

abbrev pub newcomer : (Text → Option ℕ) → Text → Buddy
newcomer context_find who = record {
  sn = simplify_sn who;
  formatted = who;
  idle = false;
  away = false;
  otr = Otr.plain;
  otr_context = context_find (simplify_sn who);
  idletime = 0;
}

if-buddies :
    (b : Bool) (c d : Client) {l : List Buddy}
    → c.buddies ≡ l
    → d.buddies ≡ l
    → (if b then c else d).buddies ≡ l
if-buddies true c d p q = p
if-buddies false c d p q = q

if-count :
    (b : Bool) (c d : Client) {n : ℕ}
    → c.buddiesonline ≡ n
    → d.buddiesonline ≡ n
    → (if b then c else d).buddiesonline ≡ n
if-count true c d p q = p
if-count false c d p q = q

buddies-online :
    (context_find : Text → Option ℕ) (c : Client) (who : Text)
    → (buddy_online context_find c who).buddies ≡ insert (newcomer context_find who) c.buddies
unfolding buddy_online
buddies-online context_find c who = if-buddies c.squelchconnect _ _ refl refl

count-online :
    (context_find : Text → Option ℕ) (c : Client) (who : Text)
    → (buddy_online context_find c who).buddiesonline ≡ c.buddiesonline + 1
unfolding buddy_online
count-online context_find c who = if-count c.squelchconnect _ _ refl refl

-- When a buddy who was not in the list comes online, `find_buddy` finds, under every spelling of the
-- name, an entry that is neither away, idle nor in an encrypted conversation; every other name is
-- found as before.
find_buddy-online :
    (context_find : Text → Option ℕ) (c : Client) (who other : Text)
    → find_buddy c who ≡ none
    → find_buddy (buddy_online context_find c who) other ≡ (
        if text_eq (simplify_sn who) (simplify_sn other)
        then some (newcomer context_find who)
        else find_buddy c other)
unfolding find_buddy
find_buddy-online context_find c who other absent =
    rw (buddies-online context_find c who)
      (elim (Bool-cases (text_eq (simplify_sn who) (simplify_sn other))) [
        | inl e ↦
            rw (e, ← text_eq→eq (simplify_sn who) (simplify_sn other) e)
              (find_sn-insert_self (newcomer context_find who) c.buddies absent)
        | inr e ↦
            rw e (find_sn-insert_ne (simplify_sn other) (newcomer context_find who) c.buddies e)
      ])

offline-found :
    (c : Client) (who : Text) (b : Buddy)
    → find_sn (simplify_sn who) c.buddies ≡ some b
    → ((buddy_offline c who).buddies ≡ remove (simplify_sn who) c.buddies)
      × ((buddy_offline c who).buddiesonline ≡ c.buddiesonline - 1)
unfolding buddy_offline
offline-found c who b e =
    rw (e, buddy_offline)
      (if-buddies c.squelchconnect _ _ refl refl, if-count c.squelchconnect _ _ refl refl)

-- A buddy who comes online and goes offline again, under whatever spelling of the name, leaves the
-- list and the count as they were, if the name was not in the list.
pub buddy_offline-online :
    (context_find : Text → Option ℕ) (c : Client) (who who' : Text)
    → find_buddy c who ≡ none
    → simplify_sn who' ≡ simplify_sn who
    → let c' = buddy_offline (buddy_online context_find c who) who' in
      (c'.buddies ≡ c.buddies) × (c'.buddiesonline ≡ c.buddiesonline)
unfolding find_buddy
buddy_offline-online context_find c who who' absent same =
    let new = newcomer context_find who in
    let d = buddy_online context_find c who in
    let list = buddies-online context_find c who in
    let found : find_sn (simplify_sn who') d.buddies ≡ some new =
      rw (same, list) (find_sn-insert_self new c.buddies absent) in
    let (gone, less) = offline-found d who' new found in
    (
      gone ∙ rw (same, list) (remove-insert new c.buddies absent),
      omega (arith, less, count-online context_find c who),
    )
