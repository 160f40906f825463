-- ===== src/Bytes.antt =====
-- Bytes, words and the byte order of the host: imcomm/byteswap.h, imcomm/misc.c, and the two
-- readers of imcomm/snac.c. A byte is a number below 256, and memory is a list of bytes.
pub mod Swap
pub mod Big
use bsflite_otr.Base.{
  ℕ, ◌+◌, ◌*◌, ◌/◌, ◌%◌, ◌^◌, ◌<◌, ◌≡◌, bit_and, bit_or, Bool, true, false, Run, done, fault, List,
  [], ◌∷◌, ◌==◌, if◌then◌else◌,
}

abbrev pub IsByte : ℕ → Type 0
IsByte b = b < 256

abbrev pub IsU16 : ℕ → Type 0
IsU16 v = v < 2 ^ 16

abbrev pub IsU32 : ℕ → Type 0
IsU32 v = v < 2 ^ 32

-- HOST_BIG_ENDIAN and HOST_LITTLE_ENDIAN.
pub data Endian : Type 0 where
  big little : Endian

-- `BYTE_SWAP_16`, stored in a uint16_t.
pub swap16 : ℕ → ℕ
swap16 x = bit_or (bit_and x 0xFF00 / 2 ^ 8) (bit_and x 0x00FF * 2 ^ 8) % 2 ^ 16

-- `BYTE_SWAP_32`, on a uint32_t: the bits that a shift moves out are lost.
pub swap32 : ℕ → ℕ
swap32 x =
    bit_or
      (bit_or (bit_or (bit_and x 0xFF000000 / 2 ^ 24) (bit_and x 0x00FF0000 / 2 ^ 8))
        (bit_and x 0x0000FF00 * 2 ^ 8 % 2 ^ 32))
      (bit_and x 0x000000FF * 2 ^ 24 % 2 ^ 32)

-- The bytes of a word in the memory of a host, as `memcpy` from `&val` sees them.
pub image16 : Endian → ℕ → List ℕ
image16 big v = v / 2 ^ 8 % 256 ∷ v % 256 ∷ []
image16 little v = v % 256 ∷ v / 2 ^ 8 % 256 ∷ []

pub image32 : Endian → ℕ → List ℕ
image32 big v = v / 2 ^ 24 % 256 ∷ v / 2 ^ 16 % 256 ∷ v / 2 ^ 8 % 256 ∷ v % 256 ∷ []
image32 little v = v % 256 ∷ v / 2 ^ 8 % 256 ∷ v / 2 ^ 16 % 256 ∷ v / 2 ^ 24 % 256 ∷ []

-- The word that a host reads from bytes, as `memcpy` to `&val` leaves it.
pub word16 : Endian → ℕ → ℕ → ℕ
word16 big a b = a * 2 ^ 8 + b
word16 little a b = b * 2 ^ 8 + a

pub word32 : Endian → ℕ → ℕ → ℕ → ℕ → ℕ
word32 big a b c d = a * 2 ^ 24 + b * 2 ^ 16 + c * 2 ^ 8 + d
word32 little a b c d = d * 2 ^ 24 + c * 2 ^ 16 + b * 2 ^ 8 + a

first_byte : List ℕ → ℕ
first_byte [] = 0
first_byte (b ∷ bs) = b

-- `getbyteorder`: it looks at the first byte of 0x5533 in the host's memory.
pub get_byte_order : Endian → Endian
unfolding image16 first_byte
get_byte_order host = if first_byte (image16 host 0x5533) == 0x55 then big else little

-- A host, and the global `endianness` of imcomm.c.
pub record Machine : Type 0 where
  pub host : Endian
  pub endianness : Endian

-- What `imcomm_create_handle` establishes: `endianness = getbyteorder()`.
abbrev pub Calibrated : Machine → Type 0
Calibrated m = m.endianness ≡ get_byte_order m.host

is_big : Endian → Bool
is_big big = true
is_big little = false

-- The bytes that `pkt_add16` and `pkt_add32` copy to a packet.
pub store16 : Machine → ℕ → List ℕ
unfolding is_big
store16 m val = image16 m.host (if is_big m.endianness then val else swap16 val)

pub store32 : Machine → ℕ → List ℕ
unfolding is_big
store32 m val = image32 m.host (if is_big m.endianness then val else swap32 val)

-- The word that `pkt_get16`, `pkt_get32`, `two_to_16` and `four_to_32` read from bytes.
pub load16 : Machine → ℕ → ℕ → ℕ
unfolding is_big
load16 m a b = let val = word16 m.host a b in if is_big m.endianness then val else swap16 val

pub load32 : Machine → ℕ → ℕ → ℕ → ℕ → ℕ
unfolding is_big
load32 m a b c d =
    let val = word32 m.host a b c d in if is_big m.endianness then val else swap32 val

-- `two_to_16` and `four_to_32` on the memory from `value` on; short memory is a fault
unfoldable pub two_to_16 : Machine → List ℕ → Run ℕ
two_to_16 m (a ∷ b ∷ rest) = done (load16 m a b)
two_to_16 m _ = fault

unfoldable pub four_to_32 : Machine → List ℕ → Run ℕ
four_to_32 m (a ∷ b ∷ c ∷ d ∷ rest) = done (load32 m a b c d)
four_to_32 m _ = fault
