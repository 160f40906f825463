-- ===== src/Bytes/Big.antt =====
-- Whatever the byte order of the host is, the wire is big-endian once `endianness` holds it.
use bsflite_otr.Base.{
  ℕ, ◌+◌, ◌*◌, ◌/◌, ◌%◌, ◌^◌, ◌≡◌, refl, ap, done, List, [], ◌∷◌, ◌++◌, arith, ◌∙◌,
}
use bsflite_otr.Bytes.{
  IsByte, IsU16, IsU32, Endian, big, little, Machine, Calibrated, get_byte_order, image16, image32,
  word16, word32, store16, store32, load16, load32, two_to_16, four_to_32,
}
use bsflite_otr.Bytes.Swap.{swap16_lem, swap32_lem}

-- The big-endian bytes of a word, and the word of big-endian bytes.
abbrev pub be16 : ℕ → List ℕ
be16 v = v / 256 ∷ v % 256 ∷ []

abbrev pub be32 : ℕ → List ℕ
be32 v = v / 2 ^ 24 ∷ v / 2 ^ 16 % 256 ∷ v / 2 ^ 8 % 256 ∷ v % 256 ∷ []

-- `getbyteorder` finds the byte order of the host.
pub get_byte_order_lem : (host : Endian) → get_byte_order host ≡ host
unfolding get_byte_order
get_byte_order_lem big = refl
get_byte_order_lem little = refl

two_bytes : {a b c d : ℕ} → a ≡ c → b ≡ d → ◌≡◌ {A = List ℕ} (a ∷ b ∷ []) (c ∷ d ∷ [])
two_bytes p q = λ i. p i ∷ q i ∷ []

four_bytes :
    {a b c d a' b' c' d' : ℕ}
    → a ≡ a'
    → b ≡ b'
    → c ≡ c'
    → d ≡ d'
    → ◌≡◌ {A = List ℕ} (a ∷ b ∷ c ∷ d ∷ []) (a' ∷ b' ∷ c' ∷ d' ∷ [])
four_bytes p q r s = λ i. p i ∷ q i ∷ r i ∷ s i ∷ []

-- On every host, a calibrated program stores a word with its highest byte first.
store16_as :
    (host : Endian) (v : ℕ)
    → IsU16 v
    → store16 (record { host = host; endianness = host }) v ≡ be16 v
unfolding store16 image16
store16_as big v h = two_bytes (omega arith) refl
store16_as little v h = two_bytes (omega (arith, swap16_lem v h)) (omega (arith, swap16_lem v h))

store32_as :
    (host : Endian) (v : ℕ)
    → IsU32 v
    → store32 (record { host = host; endianness = host }) v ≡ be32 v
unfolding store32 image32
store32_as big v h = four_bytes (omega arith) refl refl refl
store32_as little v h =
    rw (swap32_lem v h) (four_bytes (omega arith) (omega arith) (omega arith) (omega arith))

load16_as :
    (host : Endian) (a b : ℕ)
    → IsByte a
    → IsByte b
    → load16 (record { host = host; endianness = host }) a b ≡ a * 256 + b
unfolding load16 word16
load16_as big a b ha hb = refl
load16_as little a b ha hb = omega (arith, swap16_lem (b * 256 + a) (omega arith))

load32_as :
    (host : Endian) (a b c d : ℕ)
    → IsByte a
    → IsByte b
    → IsByte c
    → IsByte d
    → load32 (record { host = host; endianness = host }) a b c d
      ≡ a * 2 ^ 24 + b * 2 ^ 16 + c * 2 ^ 8 + d
unfolding load32 word32
load32_as big a b c d ha hb hc hd = refl
load32_as little a b c d ha hb hc hd =
    omega (arith, swap32_lem (d * 2 ^ 24 + c * 2 ^ 16 + b * 2 ^ 8 + a) (omega arith))

module _ (m : Machine) (cal : Calibrated m) where
  agrees : m.endianness ≡ m.host
  agrees = cal ∙ get_byte_order_lem m.host

  same : m ≡ record { host = m.host; endianness = m.host }
  same = λ i. record { host = m.host; endianness = agrees i }

  pub store16-be16 : (v : ℕ) → IsU16 v → store16 m v ≡ be16 v
  store16-be16 v h = ap (λ n. store16 n v) same ∙ store16_as m.host v h

  pub store32-be32 : (v : ℕ) → IsU32 v → store32 m v ≡ be32 v
  store32-be32 v h = ap (λ n. store32 n v) same ∙ store32_as m.host v h

  pub load16_lem : (a b : ℕ) → IsByte a → IsByte b → load16 m a b ≡ a * 256 + b
  load16_lem a b ha hb = ap (λ n. load16 n a b) same ∙ load16_as m.host a b ha hb

  -- On a host whose byte order was found, four bytes from the wire are read as a big-endian word.
  pub load32_lem :
      (a b c d : ℕ)
      → IsByte a
      → IsByte b
      → IsByte c
      → IsByte d
      → load32 m a b c d ≡ a * 2 ^ 24 + b * 2 ^ 16 + c * 2 ^ 8 + d
  load32_lem a b c d ha hb hc hd =
      ap (λ n. load32 n a b c d) same ∙ load32_as m.host a b c d ha hb hc hd

  two_to_16-store16 : (v : ℕ) (rest : List ℕ) → IsU16 v → two_to_16 m (store16 m v ++ rest) ≡ done v
  unfolding two_to_16
  two_to_16-store16 v rest h =
      rw (store16-be16 v h) (ap done (load16_lem _ _ (omega arith) (omega arith) ∙ omega arith))

  -- On a host whose byte order was found, `four_to_32` reads back the 32-bit word that `pkt_add32`
  -- stored, whatever follows it.
  four_to_32-store32 :
      (v : ℕ) (rest : List ℕ) → IsU32 v → four_to_32 m (store32 m v ++ rest) ≡ done v
  unfolding four_to_32
  four_to_32-store32 v rest h = rw (store32-be32 v h) (
      ap done
        (load32_lem _ _ _ _ (omega arith) (omega arith) (omega arith) (omega arith) ∙ omega arith))
