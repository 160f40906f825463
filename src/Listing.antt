-- ===== src/Listing.antt =====
-- The buddy list on the screen: `display_buddylist_sorted` of out.c. What is shown is a list of rows of
-- cells; the colours are left out.
pub mod Exact
use bsflite_otr.Base.{
  ◌>>=◌, ◌*◌, ◌/◌, Run, done, fault, unfinished, ◌==◌, ◌||◌, ◌&&◌, not, ◌++◌, ◌∷◌, [], List, ℕ,
  zero, suc, ◌+◌, ◌-◌, ◌≤◌, ◌<◌, ◌≡◌, ◌≢◌, refl, sym, ap, ◌∙◌, subst, Bool, true, false, Option,
  none, some, length, take, drop, All, ltb, leb, if◌then◌else◌, choose, arith, Bool-cases,
  Option-cases, inl, inr, ◌⊎◌, lt→ltb, ge→ltb, le→leb, gt→leb, ltb_false→le, length-append,
  ℕ_discrete, dec_le, dec_lt, append_assoc, append-nil, map, All-append, suc-ne-zero,
}
use bsflite_otr.Session.{Text}
use bsflite_otr.Screen.{Buddy}

-- What is printed before a name: `BUDDYLIST_ONLINE`, `BUDDYLIST_IDLE`, `BUDDYLIST_AWAY` and
-- `BUDDYLIST_GONE`.
pub data Mark : Type 0 where
  online idle away gone : Mark

-- The tests of the four runs, in their order.
abbrev pub shown_in : Mark → Bool → Bool → Bool
shown_in Mark.online asleep absent = not asleep && not absent
shown_in Mark.idle asleep absent = asleep && not absent
shown_in Mark.away asleep absent = not asleep && absent
shown_in Mark.gone asleep absent = asleep && absent

-- `sncopy`: 16 characters, or 13 and three dots.
pub sncopy : Text → Text
sncopy s = if ltb 16 (length s) then take 13 s ++ (b'.' ∷ b'.' ∷ b'.' ∷ []) else s

abbrev pub Cell : Type 0
Cell = Mark × Text

abbrev pub cell : Mark → Buddy → Cell
cell m b = (m, sncopy b.formatted)

-- The inner loop, on the row so far, where `col` is one more than its length; a row that is not empty
-- at the end is ended, too.
pub run_loop : Mark → ℕ → List Cell → List Buddy → List (List Cell)
run_loop m numcols [] [] = []
run_loop m numcols (c ∷ row) [] = (c ∷ row) ∷ []
run_loop m numcols row (b ∷ bs) =
    let skip = run_loop m numcols row bs in
    let row' = row ++ (cell m b ∷ []) in
    let on = run_loop m numcols row' bs in
    let full = row' ∷ run_loop m numcols [] bs in
    if shown_in m b.idle b.away then (if ltb (length row + 1) numcols then on else full) else skip

-- `numcols`
pub columns : ℕ → ℕ
columns screen_cols = if ltb 1 (screen_cols / 24) then screen_cols / 24 - 1 else 1

-- `display_buddylist_sorted`
pub display_buddylist_sorted : ℕ → List Buddy → List (List Cell)
display_buddylist_sorted screen_cols bs =
    let run = λ (m : Mark). run_loop m (columns screen_cols) [] bs in
    run Mark.online ++ (run Mark.idle ++ (run Mark.away ++ run Mark.gone))
