-- ===== src/Base/Bits.antt =====
-- Masks and disjoint unions of bits as arithmetic, from the digit recursion of the native
-- operations.
use Prim.Native.Nat.{
  ℕ, zero, suc, ◌+◌, ◌*◌, ◌/◌, ◌%◌, ◌^◌, ◌≤◌, ◌<◌, min, max, bit_and, bit_or, digits, bitwise, ◌-◌,
  bit_and-bitwise, bit_or-bitwise,
}
use mathlib.Core.Path.{◌≡◌, refl, ap, ◌∙◌}
use native.Mathlib.Nat.{pow-suc}
use native.Mathlib.Omega.{arith}

-- Digits that are left over change nothing, for any operation on digits; so a number is split into
-- its half and its lowest digit.
module _ (rest : ℕ → ℕ) (op : ℕ → ℕ → ℕ) where
  one_more : (n a b : ℕ) → a ≤ n → digits rest op (suc n) a b ≡ digits rest op n a b
  one_more zero zero b h = refl
  one_more (suc n) zero b h = refl
  one_more zero (suc a) b h = absurd (omega arith)
  one_more (suc n) (suc a) b h =
      ap (λ (d : ℕ). d * 2 + op (suc a % 2) (b % 2)) (one_more n (suc a / 2) (b / 2) (omega arith))

  spare : (k n a b : ℕ) → n ≡ k + a → digits rest op n a b ≡ bitwise rest op a b
  spare zero n a b e = let same : n ≡ a = omega arith in ap (λ (m : ℕ). digits rest op m a b) same
  spare (suc k) n a b e =
      let more : n ≡ suc (k + a) = omega arith in
      ap (λ (m : ℕ). digits rest op m a b) more
      ∙ (one_more (k + a) a b (omega arith) ∙ spare k (k + a) a b refl)

  bitwise_split :
      (a b : ℕ)
      → bitwise rest op (suc a) b ≡ bitwise rest op (suc a / 2) (b / 2) * 2 + op (suc a % 2) (b % 2)
  bitwise_split a b =
      ap (λ (d : ℕ). d * 2 + op (suc a % 2) (b % 2))
        (spare (a - suc a / 2) a (suc a / 2) (b / 2) (omega arith))

bit_and_step : (a b : ℕ) → bit_and a b ≡ bit_and (a / 2) (b / 2) * 2 + min (a % 2) (b % 2)
bit_and_step zero b = omega (arith, bit_and-bitwise 0 b, bit_and-bitwise 0 (b / 2))
bit_and_step (suc a) b = omega (
  arith,
  bitwise_split (λ c. zero) min a b,
  bit_and-bitwise (suc a) b,
  bit_and-bitwise (suc a / 2) (b / 2),
)

bit_or_step : (a b : ℕ) → bit_or a b ≡ bit_or (a / 2) (b / 2) * 2 + max (a % 2) (b % 2)
bit_or_step zero b = omega (arith, bit_or-bitwise 0 b, bit_or-bitwise 0 (b / 2))
bit_or_step (suc a) b = omega (
  arith,
  bitwise_split (λ c. c) max a b,
  bit_or-bitwise (suc a) b,
  bit_or-bitwise (suc a / 2) (b / 2),
)

or_none : (a m n : ℕ) → n ≡ 2 * m → bit_or a n ≡ bit_or (a / 2) m * 2 + a % 2
or_none a m n e = let half : n / 2 ≡ m = omega arith in rw (← half) (omega (arith, bit_or_step a n))

double_pow : (b k : ℕ) → b * 2 ^ suc k ≡ 2 * (b * 2 ^ k)
double_pow b k = omega (arith, ap (λ (t : ℕ). b * t) (pow-suc 2 k))

-- Bits below 2 ^ k joined to a multiple of 2 ^ k are a sum.
pub bit_or_disjoint : (k a b : ℕ) → a < 2 ^ k → bit_or a (b * 2 ^ k) ≡ a + b * 2 ^ k
bit_or_disjoint zero zero b h = omega (arith, bit_or-bitwise 0 (b * 1))
bit_or_disjoint zero (suc a) b h = absurd (omega arith)
bit_or_disjoint (suc k) a b h = omega (
  arith,
  double_pow b k,
  or_none a (b * 2 ^ k) (b * 2 ^ suc k) (double_pow b k),
  bit_or_disjoint k (a / 2) b (omega (arith, pow-suc 2 k)),
)

and_nothing : (n a : ℕ) → digits (λ c. zero) min n a 0 ≡ 0
and_nothing zero a = refl
and_nothing (suc n) zero = refl
and_nothing (suc n) (suc a) = omega (arith, and_nothing n (suc a / 2))

pub bit_and-zero : (a : ℕ) → bit_and a 0 ≡ 0
bit_and-zero a = bit_and-bitwise a 0 ∙ and_nothing a a

and_one : (a m n : ℕ) → n ≡ 2 * m + 1 → bit_and a n ≡ bit_and (a / 2) m * 2 + a % 2
and_one a m n e =
    let half : n / 2 ≡ m = omega arith in rw (← half) (omega (arith, bit_and_step a n))

and_none : (a m n : ℕ) → n ≡ 2 * m → bit_and a n ≡ bit_and (a / 2) m * 2
and_none a m n e =
    let half : n / 2 ≡ m = omega arith in rw (← half) (omega (arith, bit_and_step a n))

sixteenth : (a : ℕ) → a / 2 / 2 / 2 / 2 ≡ a / 16
sixteenth a = omega arith

-- One hexadecimal digit of a mask: all ones keeps the digit, zero drops it.
pub bit_and_ones : (a m : ℕ) → bit_and a (16 * m + 15) ≡ bit_and (a / 16) m * 16 + a % 16
bit_and_ones a m = rw (← sixteenth a) (
    omega (
      arith,
      and_one a (8 * m + 7) (16 * m + 15) (omega arith),
      and_one (a / 2) (4 * m + 3) (8 * m + 7) (omega arith),
      and_one (a / 2 / 2) (2 * m + 1) (4 * m + 3) (omega arith),
      and_one (a / 2 / 2 / 2) m (2 * m + 1) refl,
    ))

pub bit_and_zeros : (a m : ℕ) → bit_and a (16 * m) ≡ bit_and (a / 16) m * 16
bit_and_zeros a m = rw (← sixteenth a) (
    omega (
      arith,
      and_none a (8 * m) (16 * m) (omega arith),
      and_none (a / 2) (4 * m) (8 * m) (omega arith),
      and_none (a / 2 / 2) (2 * m) (4 * m) (omega arith),
      and_none (a / 2 / 2 / 2) m (2 * m) refl,
    ))
