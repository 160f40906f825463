-- ===== src/Tlv/RoundTrip.antt =====
-- `tlv_split` gives back the list that was encoded.
use bsflite_otr.Base.{
  ◌==◌, ℕ, zero, suc, ◌+◌, ◌%◌, ◌^◌, ◌≤◌, ◌<◌, ◌≡◌, sym, ap, ◌∙◌, List, [], ◌∷◌, ◌++◌, length,
  arith, done, length-append, read_mem-middle, drop, append-nil, All, lt→ltb, append_assoc, ltb,
  false, ge→ltb, drop-append_more,
}
use bsflite_otr.Bytes.{Machine, Calibrated, two_to_16}
use bsflite_otr.Bytes.Big.{be16, load16_lem}
use bsflite_otr.Tlv.{Tlv, copy_value, split_loop, tlv_split}
use bsflite_otr.Packet.{u16, raw}
use bsflite_otr.Packet.Write.{wire_all}

-- A TLV on the wire: what `pkt_add16`, `pkt_add16` and `pkt_addraw` write.
abbrev pub encode : Tlv → List ℕ
encode t = wire_all (u16 t.type ∷ u16 t.len ∷ raw t.value ∷ [])

abbrev pub encode_all : List Tlv → List ℕ
encode_all [] = []
encode_all (t ∷ ts) = encode t ++ encode_all ts

pub record IsTlv (t : Tlv) : Type 0 where
  pub type_fits : t.type < 2 ^ 16
  pub len_fits : t.len < 2 ^ 16
  pub len_right : t.len ≡ length t.value

pub length-encode : {t : Tlv} → IsTlv t → length (encode t) ≡ 4 + t.len
length-encode {t} v = omega (arith, length-append t.value [], v.len_right)

-- The word at the front of memory.
pub two_to_16-be16 :
    (m : Machine) (v : ℕ) (rest : List ℕ)
    → Calibrated m
    → v < 2 ^ 16
    → two_to_16 m (be16 (v % 2 ^ 16) ++ rest) ≡ done v
unfolding two_to_16
two_to_16-be16 m v rest cal h =
    ap (λ n. done n) (load16_lem m cal _ _ (omega arith) (omega arith) ∙ omega arith)

-- A value in the middle of memory.
copy_value-middle :
    (pre value rest : List ℕ) (x n : ℕ)
    → x ≡ length pre
    → n ≡ length value
    → copy_value (pre ++ (value ++ rest)) x n ≡ done value
unfolding copy_value
copy_value-middle pre [] rest x n ex en = rw en
copy_value-middle pre (b ∷ bs) rest x n ex en =
    let full : (n == 0) ≡ false = ground arith in
    rw full (read_mem-middle pre (b ∷ bs) rest x n ex en)

-- One round of the loop, where memory holds a type, a length and a value.
split_step :
    (m : Machine) (t : Tlv) (fuel : ℕ) (mem r0 r1 : List ℕ) (len x : ℕ)
    → Calibrated m
    → IsTlv t
    → x < len
    → x + 4 + t.len < 2 ^ 16
    → drop x mem ≡ be16 (t.type % 2 ^ 16) ++ r0
    → drop (x + 2) mem ≡ be16 (t.len % 2 ^ 16) ++ r1
    → copy_value mem (x + 4) t.len ≡ done t.value
    → {ts : List Tlv} → split_loop m fuel mem len (x + 4 + t.len) ≡ done ts
    → split_loop m (suc fuel) mem len x ≡ done (t ∷ ts)
unfolding split_loop
split_step m t fuel mem r0 r1 len x cal v more fits e0 e1 e2 rest =
    let small : (x + 4) % 2 ^ 16 ≡ x + 4 = omega arith in
    let small' : (x + 4 + t.len) % 2 ^ 16 ≡ x + 4 + t.len = omega arith in
    rw (
      lt→ltb x len more,
      e0,
      two_to_16-be16 m t.type r0 cal v.type_fits,
      e1,
      two_to_16-be16 m t.len r1 cal v.len_fits,
      small,
      small',
      e2,
      rest,
    )

abbrev header : Tlv → List ℕ
header t = be16 (t.type % 2 ^ 16) ++ be16 (t.len % 2 ^ 16)

-- Memory with a TLV behind `pre`, cut before the value.
cut :
    (t : Tlv) (pre rest : List ℕ)
    → pre ++ (encode t ++ rest) ≡ (pre ++ header t) ++ (t.value ++ rest)
cut t pre rest =
    ap (λ l. pre ++ (header t ++ (l ++ rest))) (append-nil t.value)
    ∙ sym (append_assoc pre (header t) (t.value ++ rest))

module _ (m : Machine) (cal : Calibrated m) where
  split_loop-encode_all :
      (ts : List Tlv) (fuel : ℕ) (pre more : List ℕ)
      → All IsTlv ts
      → length ts < fuel
      → length pre + length (encode_all ts) < 2 ^ 16
      → split_loop m fuel
          (pre ++ (encode_all ts ++ more))
          (length pre + length (encode_all ts))
          (length pre)
        ≡ done ts
  split_loop-encode_all ts zero pre more v enough fits = absurd (omega arith)
  split_loop-encode_all [] (suc fuel) pre more v enough fits =
      let stop : ltb (length pre) (length pre + 0) ≡ false = ge→ltb _ _ (omega arith) in
      unfold split_loop in rw stop
  split_loop-encode_all (t ∷ ts) (suc fuel) pre more (v, vs) enough fits =
      let rest = encode_all ts ++ more in
      let size = length-encode v in
      let all = length-append (encode t) (encode_all ts) in
      let moved = length-append pre (encode t) in
      let split : pre ++ (encode_all (t ∷ ts) ++ more) ≡ pre ++ (encode t ++ rest) =
        ap (λ l. pre ++ l) (append_assoc (encode t) (encode_all ts) more) in
      let len : length pre + length (encode_all (t ∷ ts))
          ≡ length (pre ++ encode t) + length (encode_all ts) =
        omega (arith, all, moved) in
      let x : length pre + 4 + t.len ≡ length (pre ++ encode t) = omega (arith, moved, size) in
      rw split (
        split_step m t fuel (pre ++ (encode t ++ rest)) _ _ _ (length pre) cal v
          (omega (arith, all, size)) (omega (arith, all, size))
          (drop-append_more pre (encode t ++ rest) 0 (length pre) (omega arith))
          (drop-append_more pre (encode t ++ rest) 2 (length pre + 2) (omega arith))
          (rw (cut t pre rest) (
            copy_value-middle (pre ++ header t) t.value rest (length pre + 4) t.len
              (omega (arith, length-append pre (header t))) v.len_right))
          (rw (len, x, ← append_assoc pre (encode t) rest)
            (split_loop-encode_all ts fuel (pre ++ encode t) more vs (omega arith)
              (omega (arith, all, moved)))))

  pub length-le-encode_all : (ts : List Tlv) → All IsTlv ts → length ts ≤ length (encode_all ts)
  length-le-encode_all [] v = omega arith
  length-le-encode_all (t ∷ ts) (v, vs) =
      omega (
        arith,
        length-append (encode t) (encode_all ts),
        length-encode v,
        length-le-encode_all ts vs,
      )

  -- `tlv_split` gives back every list of TLVs from its encoding, whatever memory follows, if the
  -- encoding is shorter than 64 KiB.
  pub tlv_split-encode_all :
      (ts : List Tlv) (more : List ℕ) (numtlv : ℕ)
      → All IsTlv ts
      → length (encode_all ts) < 2 ^ 16
      → tlv_split m (encode_all ts ++ more) (length (encode_all ts)) numtlv ≡ done ts
  unfolding tlv_split
  tlv_split-encode_all ts more numtlv v fits =
      let start : 0 + length (encode_all ts) ≡ length (encode_all ts) = omega arith in
      rw start at (
        split_loop-encode_all ts (suc (length (encode_all ts ++ more))) [] more v
          (omega (arith, length-append (encode_all ts) more, length-le-encode_all ts v))
          (omega arith))
