-- ===== src/Wrap/Pieces.antt =====
-- The pieces that `prettyprint` wraps one by one.
use bsflite_otr.Base.{
  if-holds, ◌≡◌, ◌==◌, ◌++◌, ◌∷◌, [], List, ℕ, refl, sym, ap, ◌∙◌, false, All, if◌then◌else◌, arith,
  Bool-cases, inl, inr, append_assoc, append-nil, All-append,
}
use bsflite_otr.Session.{Text}
use bsflite_otr.Wrap.{prettyprint, pieces, pretty_pieces}

-- A text without its last line break, if it ends with one.
abbrev pub ended : Text → Text
ended [] = []
ended (c ∷ []) = if c == 10 then [] else c ∷ []
ended (c ∷ d ∷ s) = c ∷ ended (d ∷ s)

abbrev pub join_lines : List Text → Text
join_lines [] = []
join_lines (l ∷ []) = l
join_lines (l ∷ m ∷ ls) = l ++ (10 ∷ join_lines (m ∷ ls))

abbrev pub NoBreak : Text → Type 0
NoBreak = All (λ c. (c == 10) ≡ false)

join_lines_more :
    (l p : Text) (c : ℕ) (s : Text)
    → join_lines (l ∷ pieces p (c ∷ s)) ≡ l ++ (10 ∷ join_lines (pieces p (c ∷ s)))
unfolding pieces
join_lines_more l p c [] = refl
join_lines_more l p c (d ∷ s) =
    if-holds (λ ls. join_lines (l ∷ ls) ≡ l ++ (10 ∷ join_lines ls)) (c == 10)
      (p ∷ pieces [] (d ∷ s)) _ refl (join_lines_more l (p ++ (c ∷ [])) d s)

join_lines-pieces :
    (p : Text) (c : ℕ) (s : Text) → join_lines (pieces p (c ∷ s)) ≡ p ++ ended (c ∷ s)
unfolding pieces
join_lines-pieces p c [] = elim (Bool-cases (c == 10)) [
  | inl e ↦ rw e (sym (append-nil p))
  | inr e ↦ rw e refl
]
join_lines-pieces p c (d ∷ s) = elim (Bool-cases (c == 10)) [
  | inl e ↦
      let newline_c : c ≡ 10 = ground arith in
      rw e (
        join_lines_more p [] d s
        ∙ ap (λ r. p ++ (10 ∷ r)) (join_lines-pieces [] d s)
        ∙ ap (λ k. p ++ (k ∷ ended (d ∷ s))) (sym newline_c))
  | inr e ↦ rw e (join_lines-pieces (p ++ (c ∷ [])) d s ∙ append_assoc p (c ∷ []) (ended (d ∷ s)))
]

pieces-NoBreak : (p s : Text) → NoBreak p → All NoBreak (pieces p s)
unfolding pieces
pieces-NoBreak p [] v = tt
pieces-NoBreak p (c ∷ []) v = elim (Bool-cases (c == 10)) [
  | inl e ↦ rw e (v, tt)
  | inr e ↦ rw e (All-append (λ c. (c == 10) ≡ false) p (c ∷ []) v (e, tt), tt)
]
pieces-NoBreak p (c ∷ d ∷ s) v = elim (Bool-cases (c == 10)) [
  | inl e ↦ rw e (v, pieces-NoBreak [] (d ∷ s) tt)
  | inr e ↦ rw e (
      pieces-NoBreak (p ++ (c ∷ [])) (d ∷ s)
        (All-append (λ c. (c == 10) ≡ false) p (c ∷ []) v (e, tt)))
]

-- `prettyprint` wraps each line of a text by itself: the pieces have no line breaks, and joined by
-- line breaks they are the text, without its last line break if it ends with one.
prettyprint_lem :
    (cols offset c : ℕ) (s : Text)
    → (ps : List Text) × (prettyprint cols (c ∷ s) offset ≡ pretty_pieces cols offset ps)
      × (join_lines ps ≡ ended (c ∷ s))
      × All NoBreak ps
unfolding prettyprint
prettyprint_lem cols offset c s =
    (pieces [] (c ∷ s), refl, join_lines-pieces [] c s, pieces-NoBreak [] (c ∷ s) tt)
