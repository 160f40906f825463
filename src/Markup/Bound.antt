-- ===== src/Markup/Bound.antt =====
-- What `strip_html` writes fits the buffer of the message's length.
use bsflite_otr.Base.{
  OnSome, choose-OnSome, if-holds, ◌<◌, ℕ, zero, suc, ◌+◌, ◌≤◌, ◌≡◌, refl, ap, Bool, true, false,
  ◌&&◌, ◌==◌, Option, none, some, [], ◌∷◌, ◌++◌, length, drop, ltb, done, ◌>>=◌, if◌then◌else◌,
  arith, Bool-cases, inl, inr, length-append, length-drop,
}
use bsflite_otr.Session.{Text}
use bsflite_otr.Markup.{
  address, open_link, reference, plain_round, strip_loop, strip_html, link, break, begins_folded,
  is_newline,
}

-- An address and what is behind it are the text.
length-address :
    (s : Text) → OnSome (λ (r : Text × Text). length r.0 + length r.1 ≡ length s) (address s)
unfolding address
length-address [] = tt
length-address (c ∷ s) =
    if-holds (OnSome (λ (r : Text × Text). length r.0 + length r.1 ≡ suc (length s))) (c == 34)
      (some ([], c ∷ s)) _ (omega arith)
      (choose-OnSome (λ (r : Text × Text). length r.0 + length r.1 ≡ length s)
        (OnSome (λ (r : Text × Text). length r.0 + length r.1 ≡ suc (length s))) none
        (λ (a, rest). some (c ∷ a, rest)) (address s) tt (λ r e. omega (arith, e))
        (length-address s))

-- What a link becomes is shorter than the link.
length-open_link :
    (s : Text) → OnSome (λ (r : Text × Text). length r.0 + length r.1 + 6 ≤ length s) (open_link s)
unfolding open_link
length-open_link s = elim (Bool-cases (ltb 10 (length s) && begins_folded link s)) [
  | inr e ↦ rw e tt
  | inl e ↦
      let long : 10 < length s = ground arith in
      rw e (
        choose-OnSome (λ (r : Text × Text). length r.0 + length r.1 ≡ length (drop 9 s))
          (OnSome (λ (r : Text × Text). length r.0 + length r.1 + 6 ≤ length s)) none
          (λ (a, rest). some (b'[' ∷ (a ++ (b']' ∷ b' ' ∷ [])), rest)) (address (drop 9 s)) tt
          (λ (a, rest) f. omega (arith, f, length-drop 9 s, length-append a (b']' ∷ b' ' ∷ [])))
          (length-address (drop 9 s)))
]

-- What a round writes, and what it leaves, of a text of n characters behind the one that it reads.
abbrev Short : ℕ → Text × (Bool × Text) → Type 0
Short n (out, (inhtml, rest)) = (length out + length rest ≤ suc n) × (length rest ≤ n)

plain_round-Short : (c : ℕ) (s : Text) → Short (length s) (plain_round c s)
unfolding plain_round
plain_round-Short c s =
    let no_link =
      if-holds (Short (length s)) (ltb 3 (length (c ∷ s)) && begins_folded break (c ∷ s))
        (10 ∷ [], (false, drop 3 s)) ([], (true, s))
        (omega (arith, length-drop 3 s), omega (arith, length-drop 3 s))
        (omega arith, omega arith) in
    let copied =
      if-holds (Short (length s)) (is_newline c) ([], (false, s)) (c ∷ [], (false, s))
        (omega arith, omega arith) (omega arith, omega arith) in
    if-holds (Short (length s)) (c == b'<') _ _
      (choose-OnSome (λ (r : Text × Text). length r.0 + length r.1 + 6 ≤ length (c ∷ s))
        (Short (length s)) _ (λ (out, rest). (out, (true, drop 1 rest))) (open_link (c ∷ s)) no_link
        (λ (out, rest) f.
          (omega (arith, f, length-drop 1 rest), omega (arith, f, length-drop 1 rest)))
        (length-open_link (c ∷ s)))
      (choose-OnSome (λ (r : ℕ × ℕ). Unit {0}) (Short (length s)) _
        (λ (n, r). (r ∷ [], (false, drop n s))) (if c == b'&' then reference (c ∷ s) else none)
        copied (λ (n, r) f. (omega (arith, length-drop n s), omega (arith, length-drop n s)))
        (always (if c == b'&' then reference (c ∷ s) else none)))
  where
    always : (o : Option (ℕ × ℕ)) → OnSome (λ (r : ℕ × ℕ). Unit {0}) o
    always none = tt
    always (some r) = tt

strip_loop-le :
    (fuel : ℕ) (inhtml : Bool) (s : Text)
    → length s ≤ fuel
    → (out : Text) × (strip_loop fuel inhtml s ≡ done out) × (length out ≤ length s)
unfolding strip_loop
strip_loop-le zero inhtml [] h = ([], refl, omega arith)
strip_loop-le zero inhtml (c ∷ s) h = absurd (omega arith)
strip_loop-le (suc fuel) true [] h = ([], refl, omega arith)
strip_loop-le (suc fuel) false [] h = ([], refl, omega arith)
strip_loop-le (suc fuel) true (c ∷ s) h =
    let (out, e, le) = strip_loop-le fuel false s (omega arith) in
    let (out', e', le') = strip_loop-le fuel true s (omega arith) in
    elim (Bool-cases (c == b'>')) [
      | inl close ↦ (out, rw close e, omega arith)
      | inr other ↦ (out', rw other e', omega arith)
    ]
strip_loop-le (suc fuel) false (c ∷ s) h =
    let (out, (inhtml, rest)) = plain_round c s in
    let (total, shorter) = plain_round-Short c s in
    let (more, e, le) = strip_loop-le fuel inhtml rest (omega arith) in
    (
      out ++ more,
      ap (λ r. r >>= λ more. done (out ++ more)) e,
      omega (arith, length-append out more),
    )

-- `strip_html` ends, and what it writes is not longer than the message, which is the size of the
-- buffer that it allocates without the NUL.
pub strip_html-le :
    (message : Text)
    → (out : Text) × (strip_html message ≡ done out) × (length out ≤ length message)
unfolding strip_html
strip_html-le message = strip_loop-le (length message) false message (omega arith)
