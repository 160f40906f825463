-- ===== src/Packet/Valid.antt =====
-- The contract of imcomm/packet.c over any packet whose cursor is inside its buffer, and what
-- happens beyond it.
use bsflite_otr.Base.{
  ℕ, ◌-◌, ◌≤◌, ◌<◌, ◌≡◌, refl, sym, subst, List, [], ◌++◌, length, length-append, length-take,
  length-drop, take, drop, take-append, true, take-append-drop, Run, done, fault, All, arith,
  write_mem, le→leb, append-nil,
}
use native.Mathlib.Decide.{dec_le}
use bsflite_otr.Bytes.{Machine, Calibrated}
use bsflite_otr.Packet.{
  Packet, Ret, ok, error, size_mod, pkt_init, pkt_empty, add_bytes, pkt_add8, Field, add_field,
  add_fields, get_fields, pkt_end,
}
use bsflite_otr.Packet.Write.{
  filled, at, Fits, packet_path, add_field-at, add_field_error, add_fields-init, wire, wire_all,
}
use bsflite_otr.Packet.Read.{get_fields-at, InRange}

-- The cursor is inside the buffer, and the buffer is as long as `len` says.
pub record IsValid (p : Packet) : Type 0 where
  pub whole : length p.bytes ≡ p.len
  pub inside : p.offset ≤ p.len
  pub small : p.len < size_mod

-- What stands before the cursor, and the room behind it.
abbrev written : Packet → List ℕ
written p = take p.offset p.bytes

abbrev room : Packet → ℕ
room p = p.len - p.offset

as_at : {p : Packet} → IsValid p → p ≡ at (take p.offset p.bytes) (drop p.offset p.bytes)
as_at {p} v =
    packet_path (sym (take-append-drop p.offset p.bytes))
      (omega (arith, length-take p.offset p.bytes, length-drop p.offset p.bytes))
      (omega (arith, length-take p.offset p.bytes))

at-IsValid : (pre rest : List ℕ) → Fits pre rest → IsValid (at pre rest)
at-IsValid pre rest h = record { whole = length-append pre rest; inside = omega arith; small = h }

-- What a writer may do with bytes `bs`: append them and keep the packet valid, or refuse and leave
-- the packet alone.
pub data Added (p : Packet) (bs : List ℕ) : Run (Ret × Packet) → Type 0 where
  fits :
      (q : Packet)
      → length bs ≤ room p
      → IsValid q
      → written q ≡ written p ++ bs
      → q.len ≡ p.len
      → Added p bs (done (ok, q))
  refused : room p < length bs → Added p bs (done (error, p))

module _ (m : Machine) (f : Field) (cal : Calibrated m) where
  Added-at :
      (pre rest : List ℕ)
      → Fits pre rest
      → Added (at pre rest) (wire f) (add_field m (at pre rest) f)
  Added-at pre rest h = elim (dec_le (length (wire f)) (length rest)) [
    | yes small ↦ rw (add_field-at pre rest h m f cal small) (
        fits _ (omega arith)
          (at-IsValid (pre ++ wire f) (drop (length (wire f)) rest)
            (omega (arith, length-append pre (wire f), length-drop (length (wire f)) rest)))
          (rw (take-append (pre ++ wire f) (drop (length (wire f)) rest), take-append pre rest))
          (omega (arith, length-append pre (wire f), length-drop (length (wire f)) rest)))
    | no large ↦ rw (add_field_error pre rest h m f cal (omega arith)) (refused (omega arith))
  ]

  -- Every `pkt_add` function on a packet whose cursor is inside its buffer: it ends without
  -- touching memory outside the buffer; if the bytes fit it appends them, big-endian, behind what is
  -- written and keeps the packet valid, and else it returns the error and changes nothing.
  add_field_lem : (p : Packet) → IsValid p → Added p (wire f) (add_field m p f)
  add_field_lem p v =
      subst (λ q. Added q (wire f) (add_field m q f)) (sym (as_at v))
        (Added-at (take p.offset p.bytes) (drop p.offset p.bytes)
          (omega (arith, length-take p.offset p.bytes, length-drop p.offset p.bytes)))

-- A message written field by field into a new packet of its length, read from the start by the
-- getters of its fields, comes back, if each value fits its field.
pub get_fields-add_fields :
    (m : Machine) (fs : List Field) (fresh : List ℕ)
    → Calibrated m
    → All InRange fs
    → length fresh ≡ length (wire_all fs)
    → length fresh < size_mod
    → (p : Packet) × (add_fields m (pkt_init fresh (length (wire_all fs))) fs ≡ done p)
      × (get_fields m (record p { offset = 0 }) fs ≡ done (fs, p))
      × (pkt_end p ≡ true)
unfolding pkt_end
get_fields-add_fields m fs fresh cal hfs e small =
    let bytes = wire_all fs in
    let start : record (filled bytes) { offset = 0 } ≡ at [] (bytes ++ []) =
      packet_path (sym (append-nil bytes)) (omega (arith, length-append bytes [])) refl in
    let end : at bytes [] ≡ filled bytes = packet_path (append-nil bytes) (omega arith) refl in
    (
      filled bytes,
      add_fields-init m fs fresh cal e small,
      rw (start, ← end) (get_fields-at m cal fs [] [] hfs (omega (arith, length-append bytes []))),
      le→leb (length bytes) (length bytes) (omega arith),
    )

-- The guard of the writers is no guard once the cursor has passed the end: the room is computed by a
-- size_t subtraction that wraps, and the copy goes outside the buffer.
add8_past_end :
    (p : Packet) (b : ℕ)
    → length p.bytes ≡ p.len
    → p.len < p.offset
    → p.offset < size_mod
    → pkt_add8 p b ≡ fault
unfolding pkt_add8 add_bytes pkt_empty write_mem
add8_past_end p b whole past small = ground arith
