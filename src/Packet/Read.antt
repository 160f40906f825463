-- ===== src/Packet/Read.antt =====
-- Reading a packet takes bytes from the cursor on, and moves it behind them.
use bsflite_otr.Base.{
  ℕ, ◌%◌, ◌^◌, ◌<◌, ◌≡◌, refl, sym, ap, subst, All, append-nil, ◌∙◌, List, [], ◌∷◌, ◌++◌,
  append_assoc, length, length-append, done, arith, read_mem-middle,
}
use bsflite_otr.Bytes.{Machine, Calibrated, two_to_16, four_to_32}
use bsflite_otr.Bytes.Big.{be16, be32, load16_lem, load32_lem}
use bsflite_otr.Packet.{
  Field, u8, u16, u32, raw, get_field, get_fields, get_bytes, pkt_get8, pkt_get16, pkt_get32,
  pkt_get_raw, pkt_get_str, pkt_skip, pkt_init_p,
}
use bsflite_otr.Packet.Write.{at, Fits, packet_path, wire, wire_all, at_path}

module _ (pre bs rest : List ℕ) (h : Fits pre (bs ++ rest)) where
  -- The next `n` bytes.
  get_bytes-at :
      (n step : ℕ)
      → n ≡ length bs
      → step ≡ length bs
      → get_bytes (at pre (bs ++ rest)) n step ≡ done (bs, at (pre ++ bs) rest)
  unfolding get_bytes
  get_bytes-at n step en es = rw (read_mem-middle pre bs rest (length pre) n refl en) (
      ap (λ p. done (bs, p))
        (packet_path (sym (append_assoc pre bs rest))
          (omega (arith, length-append pre bs, length-append bs rest))
          (omega (arith, length-append pre bs, length-append bs rest))))

  get_raw-at :
      (n : ℕ)
      → n ≡ length bs
      → n < 2 ^ 16
      → pkt_get_raw (at pre (bs ++ rest)) n ≡ done (bs, at (pre ++ bs) rest)
  unfolding pkt_get_raw
  get_raw-at n e lt = get_bytes-at n (n % 2 ^ 16) e (omega arith)

  pub get_str-at :
      (n : ℕ)
      → n ≡ length bs
      → n < 2 ^ 16
      → pkt_get_str (at pre (bs ++ rest)) n ≡ done (bs ++ (0 ∷ []), at (pre ++ bs) rest)
  unfolding pkt_get_str
  get_str-at n e lt = rw (get_bytes-at n (n % 2 ^ 16) e (omega arith))

-- The next byte.
pub get8-at :
    (b : ℕ) (pre rest : List ℕ)
    → Fits pre (b ∷ rest)
    → pkt_get8 (at pre (b ∷ rest)) ≡ done (b, at (pre ++ (b ∷ [])) rest)
unfolding pkt_get8
get8-at b pre rest h = rw (get_bytes-at pre (b ∷ []) rest h 1 1 refl refl) refl

-- A value that fits the width of its field; the length of a raw field fits a uint16_t.
abbrev pub InRange : Field → Type 0
InRange (u8 v) = v < 256
InRange (u16 v) = v < 2 ^ 16
InRange (u32 v) = v < 2 ^ 32
InRange (raw bs) = length bs < 2 ^ 16

module _ (m : Machine) (cal : Calibrated m) where
  pub load16-be16 : (v : ℕ) → v < 2 ^ 16 → two_to_16 m (be16 (v % 2 ^ 16)) ≡ done v
  unfolding two_to_16
  load16-be16 v h =
      ap (λ n. done n) (load16_lem m cal _ _ (omega arith) (omega arith) ∙ omega arith)

  load32-be32 : (v : ℕ) → v < 2 ^ 32 → four_to_32 m (be32 (v % 2 ^ 32)) ≡ done v
  unfolding four_to_32
  load32-be32 v h =
      ap (λ n. done n)
        (load32_lem m cal _ _ _ _ (omega arith) (omega arith) (omega arith) (omega arith)
          ∙ omega arith)

  -- Every getter reads back the field at the cursor.
  get_field-at :
      (f : Field) (pre rest : List ℕ)
      → InRange f
      → Fits pre (wire f ++ rest)
      → get_field m (at pre (wire f ++ rest)) f ≡ done (f, at (pre ++ wire f) rest)
  unfolding get_field pkt_get8 pkt_get16 pkt_get32
  get_field-at (u8 v) pre rest hf h =
      let same : v % 256 ≡ v = omega arith in
      rw same (rw (get_bytes-at pre (v ∷ []) rest h 1 1 refl refl))
  get_field-at (u16 v) pre rest hf h =
      rw (get_bytes-at pre (wire (u16 v)) rest h 2 2 refl refl, load16-be16 v hf)
  get_field-at (u32 v) pre rest hf h =
      rw (get_bytes-at pre (wire (u32 v)) rest h 4 4 refl refl, load32-be32 v hf)
  get_field-at (raw bs) pre rest hf h = rw (get_raw-at pre bs rest h (length bs) refl hf)

  -- And the getters of a whole message read back the message.
  pub get_fields-at :
      (fs : List Field) (pre rest : List ℕ)
      → All InRange fs
      → Fits pre (wire_all fs ++ rest)
      → get_fields m (at pre (wire_all fs ++ rest)) fs ≡ done (fs, at (pre ++ wire_all fs) rest)
  unfolding get_fields
  get_fields-at [] pre rest hf h = ap (λ p. done ([], p)) (at_path (sym (append-nil pre)) refl)
  get_fields-at (f ∷ fs) pre rest (hf, hfs) h =
      let tail = wire_all fs ++ rest in
      let split = append_assoc (wire f) (wire_all fs) rest in
      let fits : Fits pre (wire f ++ tail) = subst (λ l. Fits pre l) split h in
      let fits' : Fits (pre ++ wire f) tail =
        omega (arith, length-append pre (wire f), length-append (wire f) tail) in
      rw (split, get_field-at f pre tail hf fits, get_fields-at fs (pre ++ wire f) rest hfs fits')
        (ap (λ p. done (f ∷ fs, p)) (at_path (append_assoc pre (wire f) (wire_all fs)) refl))

  pub get16-at :
      (v : ℕ) (pre rest : List ℕ)
      → v < 2 ^ 16
      → Fits pre (wire (u16 v) ++ rest)
      → pkt_get16 m (at pre (wire (u16 v) ++ rest)) ≡ done (v, at (pre ++ wire (u16 v)) rest)
  unfolding pkt_get16
  get16-at v pre rest hv h =
      rw (get_bytes-at pre (wire (u16 v)) rest h 2 2 refl refl, load16-be16 v hv)

-- Skipping bytes moves the cursor behind them.
pub skip-at :
    (pre bs rest : List ℕ) (n : ℕ)
    → n ≡ length bs
    → Fits pre (bs ++ rest)
    → pkt_skip (at pre (bs ++ rest)) n ≡ at (pre ++ bs) rest
unfolding pkt_skip
skip-at pre bs rest n e h =
    let all = length-append pre bs in
    let tail = length-append bs rest in
    packet_path (sym (append_assoc pre bs rest)) (omega (arith, all, tail))
      (omega (arith, all, tail))

-- A buffer that exists, read from its start.
pub init_p-at : (bs : List ℕ) → length bs < 2 ^ 16 → pkt_init_p bs (length bs) ≡ at [] bs
unfolding pkt_init_p
init_p-at bs h = packet_path refl (omega arith) refl
