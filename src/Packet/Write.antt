-- ===== src/Packet/Write.antt =====
-- Building a packet appends bytes: the cursor stands behind what was written, and the room that is
-- left shrinks by as much.
use bsflite_otr.Base.{
  ℕ, ◌+◌, ◌%◌, ◌^◌, ◌≤◌, ◌<◌, ◌≡◌, refl, sym, ap, ◌∙◌, List, [], ◌∷◌, ◌++◌, append_assoc,
  append-nil, length, length-append, length-drop, drop, done, arith, write_mem-middle,
  read_mem-whole, lt→ltb, ge→ltb, drop-length-append, drop_all,
}
use bsflite_otr.Bytes.{Machine, Calibrated}
use bsflite_otr.Bytes.Big.{be16, be32, store16-be16, store32-be32}
use bsflite_otr.Packet.{
  Packet, ok, error, size_mod, pkt_empty, add_bytes, pkt_add8, pkt_add16, pkt_add32, pkt_add_raw,
  pkt_init, Field, u8, u16, u32, raw, add_field, add_fields,
}

-- The bytes of a field on the wire: a value is cut to its width.
abbrev pub wire : Field → List ℕ
wire (u8 v) = v % 256 ∷ []
wire (u16 v) = be16 (v % 2 ^ 16)
wire (u32 v) = be32 (v % 2 ^ 32)
wire (raw bs) = bs

abbrev pub wire_all : List Field → List ℕ
wire_all [] = []
wire_all (f ∷ fs) = wire f ++ wire_all fs

-- A packet in which `pre` is written, with the cursor behind it and `rest` to come.
abbrev pub at : List ℕ → List ℕ → Packet
at pre rest = record { bytes = pre ++ rest; len = length pre + length rest; offset = length pre }

-- The sizes that a size_t holds.
abbrev pub Fits : List ℕ → List ℕ → Type 0
Fits pre rest = length pre + length rest < size_mod

pkt_empty-at : (pre rest : List ℕ) → Fits pre rest → pkt_empty (at pre rest) ≡ length rest
unfolding pkt_empty
pkt_empty-at pre rest h = omega arith

pub packet_path :
    {bs cs : List ℕ} {l k o n : ℕ}
    → bs ≡ cs
    → l ≡ k
    → o ≡ n
    → ◌≡◌ {A = Packet}
        (record { bytes = bs; len = l; offset = o })
        (record { bytes = cs; len = k; offset = n })
packet_path p q r = λ i. record { bytes = p i; len = q i; offset = r i }

module _ (pre rest : List ℕ) (h : Fits pre rest) where
  -- Bytes that fit are written at the cursor.
  add_bytes-at :
      (bs : List ℕ)
      → length bs ≤ length rest
      → add_bytes (at pre rest) bs ≡ done (ok, at (pre ++ bs) (drop (length bs) rest))
  unfolding add_bytes
  add_bytes-at bs fits =
      rw
        (
          pkt_empty-at pre rest h,
          ge→ltb (length rest) (length bs) fits,
          write_mem-middle pre bs rest (length pre) refl fits,
        )
        (ap (λ p. done (ok, p))
          (packet_path (sym (append_assoc pre bs (drop (length bs) rest)))
            (omega (arith, length-append pre bs, length-drop (length bs) rest))
            (omega (arith, length-append pre bs))))

  -- Bytes that do not fit leave the packet as it was.
  add_bytes_error :
      (bs : List ℕ)
      → length rest < length bs
      → add_bytes (at pre rest) bs ≡ done (error, at pre rest)
  unfolding add_bytes
  add_bytes_error bs large = rw (pkt_empty-at pre rest h, lt→ltb (length rest) (length bs) large)

  -- A raw copy of an object, as long as the object is.
  add_raw-at :
      (bs : List ℕ)
      → length bs ≤ length rest
      → pkt_add_raw (at pre rest) bs (length bs) ≡ done (ok, at (pre ++ bs) (drop (length bs) rest))
  unfolding pkt_add_raw
  add_raw-at bs fits =
      rw (pkt_empty-at pre rest h, ge→ltb (length rest) (length bs) fits, read_mem-whole bs)
        (add_bytes-at bs fits)

  -- Every writer appends the bytes of its field, if they fit.
  pub add_field-at :
      (m : Machine) (f : Field)
      → Calibrated m
      → length (wire f) ≤ length rest
      → add_field m (at pre rest) f ≡ done (ok, at (pre ++ wire f) (drop (length (wire f)) rest))
  unfolding add_field pkt_add8 pkt_add16 pkt_add32
  add_field-at m (u8 v) cal fits = add_bytes-at (v % 256 ∷ []) fits
  add_field-at m (u16 v) cal fits =
      rw (store16-be16 m cal (v % 2 ^ 16) (omega arith)) (add_bytes-at (be16 (v % 2 ^ 16)) fits)
  add_field-at m (u32 v) cal fits =
      rw (store32-be32 m cal (v % 2 ^ 32) (omega arith)) (add_bytes-at (be32 (v % 2 ^ 32)) fits)
  add_field-at m (raw bs) cal fits = add_raw-at bs fits

  -- And no writer touches the packet, if they do not.
  pub add_field_error :
      (m : Machine) (f : Field)
      → Calibrated m
      → length rest < length (wire f)
      → add_field m (at pre rest) f ≡ done (error, at pre rest)
  unfolding add_field pkt_add8 pkt_add16 pkt_add32 pkt_add_raw
  add_field_error m (u8 v) cal large = add_bytes_error (v % 256 ∷ []) large
  add_field_error m (u16 v) cal large =
      rw (store16-be16 m cal (v % 2 ^ 16) (omega arith)) (add_bytes_error (be16 (v % 2 ^ 16)) large)
  add_field_error m (u32 v) cal large =
      rw (store32-be32 m cal (v % 2 ^ 32) (omega arith)) (add_bytes_error (be32 (v % 2 ^ 32)) large)
  add_field_error m (raw bs) cal large =
      rw (pkt_empty-at pre rest h, lt→ltb (length rest) (length bs) large)

-- A new packet has its cursor before the memory that it was given.
pub init-at : (fresh : List ℕ) (len : ℕ) → length fresh ≡ len → pkt_init fresh len ≡ at [] fresh
unfolding pkt_init
init-at fresh len e = packet_path refl (omega arith) refl

pub at_path : {a b c d : List ℕ} → a ≡ b → c ≡ d → at a c ≡ at b d
at_path p q = λ i. at (p i) (q i)

-- A run of writers that fit, one behind the other.
pub add_fields-at :
    (m : Machine) (fs : List Field) (pre rest : List ℕ)
    → Calibrated m
    → Fits pre rest
    → length (wire_all fs) ≤ length rest
    → add_fields m (at pre rest) fs
      ≡ done (at (pre ++ wire_all fs) (drop (length (wire_all fs)) rest))
unfolding add_fields
add_fields-at m [] pre rest cal h fits = ap (λ p. done p) (at_path (sym (append-nil pre)) refl)
add_fields-at m (f ∷ fs) pre rest cal h fits =
    let head = length-append (wire f) (wire_all fs) in
    let left = length-drop (length (wire f)) rest in
    rw (add_field-at pre rest h m f cal (omega (arith, head))) (
      add_fields-at m fs (pre ++ wire f) (drop (length (wire f)) rest) cal
        (omega (arith, head, left, length-append pre (wire f))) (omega (arith, head, left))
      ∙ ap (λ p. done p)
          (at_path (append_assoc pre (wire f) (wire_all fs))
            (drop-length-append (wire f) (wire_all fs) rest)))

-- A packet with no room left.
abbrev pub filled : List ℕ → Packet
filled bs = record { bytes = bs; len = length bs; offset = length bs }

at_nil : (bs : List ℕ) → at bs [] ≡ filled bs
at_nil bs = packet_path (append-nil bs) (omega arith) refl

-- A new packet of the right length is filled exactly.
pub add_fields-init :
    (m : Machine) (fs : List Field) (fresh : List ℕ)
    → Calibrated m
    → length fresh ≡ length (wire_all fs)
    → length fresh < size_mod
    → add_fields m (pkt_init fresh (length (wire_all fs))) fs ≡ done (filled (wire_all fs))
add_fields-init m fs fresh cal e small = rw (init-at fresh (length (wire_all fs)) e) (
    add_fields-at m fs [] fresh cal (omega arith) (omega arith)
    ∙ ap (λ p. done p)
        (at_path refl (drop_all (length (wire_all fs)) fresh (omega arith)) ∙ at_nil (wire_all fs)))
