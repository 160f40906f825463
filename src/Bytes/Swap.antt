-- ===== src/Bytes/Swap.antt =====
-- The byte swaps of imcomm/byteswap.h in plain arithmetic.
use bsflite_otr.Base.{
  ℕ, ◌+◌, ◌*◌, ◌/◌, ◌%◌, ◌^◌, ◌<◌, ◌≡◌, bit_and, bit_or, arith, bit_or_disjoint, bit_and_ones,
  bit_and_zeros, bit_and-zero,
}
use bsflite_otr.Bytes.{IsU16, IsU32, swap16, swap32}

-- A mask that keeps the lowest byte, and one that drops it.
byte_ones : (a m : ℕ) → bit_and a (256 * m + 255) ≡ bit_and (a / 256) m * 256 + a % 256
byte_ones a m =
    let two : a / 16 / 16 ≡ a / 256 = omega arith in
    let mask : 256 * m + 255 ≡ 16 * (16 * m + 15) + 15 = omega arith in
    rw (mask, ← two) (omega (arith, bit_and_ones a (16 * m + 15), bit_and_ones (a / 16) m))

byte_zeros : (a m : ℕ) → bit_and a (256 * m) ≡ bit_and (a / 256) m * 256
byte_zeros a m =
    let two : a / 16 / 16 ≡ a / 256 = omega arith in
    let mask : 256 * m ≡ 16 * (16 * m) = omega arith in
    rw (mask, ← two) (omega (arith, bit_and_zeros a (16 * m), bit_and_zeros (a / 16) m))

mask_0 : (x : ℕ) → bit_and x 0xFF ≡ x % 256
mask_0 x = omega (arith, byte_ones x 0, bit_and-zero (x / 256))

mask_1 : (x : ℕ) → bit_and x 0xFF00 ≡ x / 256 % 256 * 256
mask_1 x = omega (arith, byte_zeros x 0xFF, mask_0 (x / 256))

mask_2 : (x : ℕ) → bit_and x 0xFF0000 ≡ x / 256 / 256 % 256 * 65536
mask_2 x = omega (arith, byte_zeros x 0xFF00, mask_1 (x / 256))

mask_3 : (x : ℕ) → bit_and x 0xFF000000 ≡ x / 256 / 256 / 256 % 256 * 16777216
mask_3 x = omega (arith, byte_zeros x 0xFF0000, mask_2 (x / 256))

-- A swap exchanges the two bytes of a uint16_t.
pub swap16_lem : (x : ℕ) → IsU16 x → swap16 x ≡ x % 256 * 256 + x / 256
unfolding swap16
swap16_lem x h =
    rw (mask_1, mask_0)
      (omega (arith, bit_or_disjoint 8 (x / 256 % 256 * 256 / 256) (x % 256) (omega arith)))

join4 :
    (a b c d : ℕ)
    → a < 256
    → b < 256
    → c < 256
    → bit_or (bit_or (bit_or a (b * 2 ^ 8)) (c * 2 ^ 16)) (d * 2 ^ 24)
      ≡ a + b * 2 ^ 8 + c * 2 ^ 16 + d * 2 ^ 24
join4 a b c d ha hb hc = rw (
  bit_or_disjoint 8 a b (omega arith),
  bit_or_disjoint 16 (a + b * 2 ^ 8) c (omega arith),
  bit_or_disjoint 24 (a + b * 2 ^ 8 + c * 2 ^ 16) d (omega arith),
)

-- A swap reverses the four bytes of a uint32_t.
pub swap32_lem :
    (x : ℕ)
    → IsU32 x
    → swap32 x ≡ x % 256 * 2 ^ 24 + x / 2 ^ 8 % 256 * 2 ^ 16 + x / 2 ^ 16 % 256 * 2 ^ 8 + x / 2 ^ 24
unfolding swap32
swap32_lem x h =
    let byte_3 : x / 256 / 256 / 256 % 256 * 16777216 / 16777216 ≡ x / 2 ^ 24 = omega arith in
    let byte_2 : x / 256 / 256 % 256 * 65536 / 256 ≡ x / 2 ^ 16 % 256 * 2 ^ 8 = omega arith in
    let byte_1 : x / 256 % 256 * 256 * 256 % 2 ^ 32 ≡ x / 256 % 256 * 2 ^ 16 = omega arith in
    let byte_0 : x % 256 * 2 ^ 24 % 2 ^ 32 ≡ x % 256 * 2 ^ 24 = omega arith in
    rw (mask_0, mask_1, mask_2, mask_3, byte_3, byte_2, byte_1, byte_0)
      (omega (
        arith,
        join4 (x / 2 ^ 24) (x / 2 ^ 16 % 256) (x / 256 % 256) (x % 256) (omega arith) (omega arith)
            (omega arith),
      ))
