-- ===== src/Numerals/RoundTrip.antt =====
-- What `%d` prints, `atoi` reads.
use bsflite_otr.Base.{
  ◌^◌, ap, ◌∙◌, [], ◌%◌, refl, zero, suc, ℕ, ◌+◌, ◌-◌, ◌*◌, ◌/◌, ◌≤◌, ◌<◌, ◌≡◌, ◌∷◌, ◌++◌, All,
  All-append, arith, dec_lt, lt→ltb, ge→ltb,
}
use bsflite_otr.Session.{Text}
use bsflite_otr.Numerals.{atoi, signed, decimal, decimal_loop, digits_from}

abbrev IsDigit : ℕ → Type 0
IsDigit c = (48 ≤ c) × (c ≤ 57)

-- The numbers of so many digits.
abbrev bound : ℕ → ℕ
bound zero = 1
bound (suc fuel) = 10 * bound fuel

digits_from-end :
    (v c : ℕ) (xs : Text)
    → All IsDigit xs
    → IsDigit c
    → digits_from v (xs ++ (c ∷ [])) ≡ digits_from v xs * 10 + (c - 48)
unfolding digits_from
digits_from-end v c [] vs (low, high) = ground arith
digits_from-end v c (x ∷ xs) ((low, high), vs) d =
    let more = digits_from-end (v * 10 + (x - 48)) c xs vs d in ground arith

decimal_loop-digits : (fuel n : ℕ) → All IsDigit (decimal_loop fuel n)
unfolding decimal_loop
decimal_loop-digits zero n = tt
decimal_loop-digits (suc fuel) n = elim (dec_lt n 10) [
  | yes small ↦ rw (lt→ltb n 10 small) ((omega arith, omega arith), tt)
  | no large ↦ rw (ge→ltb n 10 (omega arith)) (
      All-append IsDigit (decimal_loop fuel (n / 10)) ((48 + n % 10) ∷ [])
        (decimal_loop-digits fuel (n / 10)) ((omega arith, omega arith), tt))
]

digits_from-decimal : (fuel n : ℕ) → n < bound fuel → digits_from 0 (decimal_loop fuel n) ≡ n
unfolding decimal_loop digits_from
digits_from-decimal zero n h = omega arith
digits_from-decimal (suc fuel) n h = elim (dec_lt n 10) [
  | yes small ↦ rw (lt→ltb n 10 small) (ground arith)
  | no large ↦
      (let less : n / 10 < bound fuel = omega arith in
        rw (ge→ltb n 10 (omega arith)) (
          digits_from-end 0 (48 + n % 10) (decimal_loop fuel (n / 10))
            (decimal_loop-digits fuel (n / 10)) (omega arith, omega arith)
          ∙ (let back = digits_from-decimal fuel (n / 10) less in omega (arith, back))))
]

-- Digits are neither blanks nor signs.
atoi-digits : (c : ℕ) (s : Text) → IsDigit c → atoi (c ∷ s) ≡ digits_from 0 (c ∷ s) % 2 ^ 32
unfolding atoi signed digits_from
atoi-digits c s (low, high) = ground arith

atoi-nonempty :
    (s : Text) (n : ℕ) → All IsDigit s → digits_from 0 s ≡ suc n → atoi s ≡ suc n % 2 ^ 32
unfolding digits_from
atoi-nonempty [] n vs e = absurd (omega (arith, e))
atoi-nonempty (c ∷ s) n (d, vs) e = atoi-digits c s d ∙ ap (λ k. k % 2 ^ 32) e

atoi-zero : atoi (decimal 0) ≡ 0
unfolding decimal atoi decimal_loop signed digits_from
atoi-zero = refl

-- Every number that an int holds is read back as it was printed.
pub atoi-decimal : (n : ℕ) → n < 2 ^ 31 → atoi (decimal n) ≡ n
unfolding decimal
atoi-decimal zero h = atoi-zero
atoi-decimal (suc n) h =
    atoi-nonempty (decimal_loop 10 (suc n)) n (decimal_loop-digits 10 (suc n))
      (digits_from-decimal 10 (suc n) (omega arith))
    ∙ omega arith

-- A printed number is digits only.
decimal-digits : (n : ℕ) → All IsDigit (decimal n)
unfolding decimal
decimal-digits n = decimal_loop-digits 10 n
