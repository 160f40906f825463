-- ===== src/Listing/Exact.antt =====
-- What the rows of the buddy list hold.
use bsflite_otr.Base.{
  if-holds, ◌++◌, ◌∷◌, [], List, ℕ, ◌+◌, ◌≤◌, ◌<◌, ◌≡◌, refl, sym, ap, ◌∙◌, subst, Bool, true,
  false, length, All, ltb, if◌then◌else◌, arith, Bool-cases, inl, inr, length-append, append_assoc,
  map, All-append,
}
use mathlib.Core.List.{Perm, perm_middle}
use mathlib.Core.List.Perm
use bsflite_otr.Screen.{Buddy}
use bsflite_otr.Listing.{Mark, shown_in, Cell, cell, run_loop, columns, display_buddylist_sorted}

abbrev pub concat : List (List Cell) → List Cell
concat [] = []
concat (r ∷ rs) = r ++ concat rs

concat-append : (rs ss : List (List Cell)) → concat (rs ++ ss) ≡ concat rs ++ concat ss
concat-append [] ss = refl
concat-append (r ∷ rs) ss =
    ap (λ x. r ++ x) (concat-append rs ss) ∙ sym (append_assoc r (concat rs) (concat ss))

-- The cells of one run.
abbrev pub cells : Mark → List Buddy → List Cell
cells m [] = []
cells m (b ∷ bs) = if shown_in m b.idle b.away then cell m b ∷ cells m bs else cells m bs

either :
    (row : List Cell) (t : Bool) (x y : List (List Cell)) (u v : List Cell)
    → concat x ≡ row ++ u
    → concat y ≡ row ++ v
    → concat (if t then x else y) ≡ row ++ (if t then u else v)
either row true x y u v p q = p
either row false x y u v p q = q

-- A row that is printed has a cell, and no more than there are columns.
abbrev pub IsRow : ℕ → List Cell → Type 0
IsRow numcols row = (0 < length row) × (length row ≤ numcols)

module _ (m : Mark) (numcols : ℕ) (some_columns : 0 < numcols) where
  concat-run_loop :
      (row : List Cell) (bs : List Buddy) → concat (run_loop m numcols row bs) ≡ row ++ cells m bs
  unfolding run_loop
  concat-run_loop [] [] = refl
  concat-run_loop (c ∷ row) [] = refl
  concat-run_loop row (b ∷ bs) =
      either row (shown_in m b.idle b.away) _ _ _ _
        (if-holds (λ ls. concat ls ≡ row ++ (cell m b ∷ cells m bs)) (ltb (length row + 1) numcols)
          _ _
          (concat-run_loop (row ++ (cell m b ∷ [])) bs
            ∙ append_assoc row (cell m b ∷ []) (cells m bs))
          (ap (λ r. (row ++ (cell m b ∷ [])) ++ r) (concat-run_loop [] bs)
            ∙ append_assoc row (cell m b ∷ []) (cells m bs)))
        (concat-run_loop row bs)

  run_loop-IsRow :
      (row : List Cell) (bs : List Buddy)
      → length row < numcols
      → All (IsRow numcols) (run_loop m numcols row bs)
  unfolding run_loop
  run_loop-IsRow [] [] h = tt
  run_loop-IsRow (c ∷ row) [] h = ((omega arith, omega arith), tt)
  run_loop-IsRow row (b ∷ bs) h =
      let row' = row ++ (cell m b ∷ []) in
      let longer : length row' ≡ length row + 1 = length-append row (cell m b ∷ []) in
      if-holds (All (IsRow numcols)) (shown_in m b.idle b.away) _ _
        (elim (Bool-cases (ltb (length row + 1) numcols)) [
          | inl e ↦ rw e (run_loop-IsRow row' bs (ground arith))
          | inr e ↦
              rw e (
                (omega (arith, longer), omega (arith, longer, h)),
                run_loop-IsRow [] bs some_columns,
              )
        ])
        (run_loop-IsRow row bs h)

-- The run in which a buddy is shown.
abbrev pub mark_of : Bool → Bool → Mark
mark_of false false = Mark.online
mark_of true false = Mark.idle
mark_of false true = Mark.away
mark_of true true = Mark.gone

one_run :
    (asleep absent : Bool) (f : Mark → Cell) (us vs ws xs cs : List Cell)
    → Perm (us ++ (vs ++ (ws ++ xs))) cs
    → Perm
        ((if shown_in Mark.online asleep absent then f Mark.online ∷ us else us)
          ++ ((if shown_in Mark.idle asleep absent then f Mark.idle ∷ vs else vs)
              ++ ((if shown_in Mark.away asleep absent then f Mark.away ∷ ws else ws)
                  ++ (if shown_in Mark.gone asleep absent then f Mark.gone ∷ xs else xs))))
        (f (mark_of asleep absent) ∷ cs)
one_run false false f us vs ws xs cs p = Perm.cons (f Mark.online) p
one_run true false f us vs ws xs cs p =
    Perm.trans (perm_middle us (vs ++ (ws ++ xs))) (Perm.cons (f Mark.idle) p)
one_run false true f us vs ws xs cs p =
    Perm.trans (Perm.append_left us (perm_middle vs (ws ++ xs)))
      (Perm.trans (perm_middle us (vs ++ (ws ++ xs))) (Perm.cons (f Mark.away) p))
one_run true true f us vs ws xs cs p =
    Perm.trans (Perm.append_left us (Perm.append_left vs (perm_middle ws xs))) (
      Perm.trans (Perm.append_left us (perm_middle vs (ws ++ xs)))
        (Perm.trans (perm_middle us (vs ++ (ws ++ xs))) (Perm.cons (f Mark.gone) p)))

-- The cell of a buddy.
abbrev pub shown_as : Buddy → Cell
shown_as b = cell (mark_of b.idle b.away) b

four_runs :
    (bs : List Buddy)
    → Perm
        (cells Mark.online bs ++ (cells Mark.idle bs ++ (cells Mark.away bs ++ cells Mark.gone bs)))
        (map shown_as bs)
four_runs [] = Perm.nil
four_runs (b ∷ bs) =
    one_run b.idle b.away (λ m. cell m b) (cells Mark.online bs) (cells Mark.idle bs)
      (cells Mark.away bs) (cells Mark.gone bs) (map shown_as bs) (four_runs bs)

columns_pos : (screen_cols : ℕ) → 0 < columns screen_cols
unfolding columns
columns_pos screen_cols = ground arith

-- On a screen of any width, the sorted list shows the buddies in four runs: those who are here, idle,
-- away, and both, each run in the order of the list. Every buddy is shown once, in the run of its
-- state; and each row has one cell at least and no more than there are columns.
pub display_buddylist_sorted_lem :
    (screen_cols : ℕ) (bs : List Buddy)
    → let rows = display_buddylist_sorted screen_cols bs in
      (concat rows
        ≡ cells Mark.online bs
          ++ (cells Mark.idle bs ++ (cells Mark.away bs ++ cells Mark.gone bs)))
      × Perm (concat rows) (map shown_as bs)
      × All (IsRow (columns screen_cols)) rows
unfolding display_buddylist_sorted
display_buddylist_sorted_lem screen_cols bs =
    let n = columns screen_cols in
    let pos = columns_pos screen_cols in
    let run = λ (m : Mark). run_loop m n [] bs in
    let runs = λ (m : Mark). concat-run_loop m n pos [] bs in
    let ok = λ (m : Mark). run_loop-IsRow m n pos [] bs pos in
    let same =
      concat-append (run Mark.online) (run Mark.idle ++ (run Mark.away ++ run Mark.gone))
      ∙ ap (λ r. concat (run Mark.online) ++ r)
          (concat-append (run Mark.idle) (run Mark.away ++ run Mark.gone)
            ∙ ap (λ r. concat (run Mark.idle) ++ r) (concat-append (run Mark.away) (run Mark.gone)))
      ∙ (λ i. runs Mark.online i ++ (runs Mark.idle i ++ (runs Mark.away i ++ runs Mark.gone i))) in
    (
      same,
      subst (λ r. Perm r (map shown_as bs)) (sym same) (four_runs bs),
      All-append (IsRow n) (run Mark.online) _ (ok Mark.online) (
          All-append (IsRow n) (run Mark.idle) _ (ok Mark.idle)
            (All-append (IsRow n) (run Mark.away) _ (ok Mark.away) (ok Mark.gone))),
    )
