-- ===== src/Tlv/Count.antt =====
-- `count_tlv` agrees with `tlv_split`.
use bsflite_otr.Base.{
  ℕ, zero, suc, ◌+◌, ◌%◌, ◌^◌, ◌<◌, ◌≡◌, refl, List, [], ◌∷◌, ◌++◌, length, All, done,
  length-append, arith, ltb, true, false, lt→ltb, ge→ltb, ap, append_assoc, ◌∙◌,
}
use bsflite_otr.Bytes.{Machine, Calibrated}
use bsflite_otr.Packet.{size_mod, u16}
use bsflite_otr.Packet.Write.{at, at_path, wire}
use bsflite_otr.Packet.Read.{get16-at, skip-at, init_p-at}
use bsflite_otr.Tlv.{Tlv, count_loop, count_tlv_pkt, count_tlv}
use bsflite_otr.Tlv.RoundTrip.{encode, encode_all, IsTlv, length-encode, length-le-encode_all}

module _ (m : Machine) (cal : Calibrated m) where
  count_step :
      (t : Tlv) (fuel num : ℕ) (pre rest : List ℕ)
      → IsTlv t
      → length pre + length (encode t ++ rest) < size_mod
      → count_loop m (suc fuel) (at pre (encode t ++ rest)) num
        ≡ count_loop m fuel (at (pre ++ encode t) rest) ((num + 1) % size_mod)
  unfolding count_loop
  count_step t fuel num pre rest v h =
      let ty = wire (u16 t.type) in
      let ln = wire (u16 t.len) in
      let all = length-append (encode t) rest in
      let size = length-encode v in
      let more : ltb (length pre) (length pre + length (encode t ++ rest)) ≡ true =
        lt→ltb _ _ (omega (arith, all, size)) in
      let body = (t.value ++ []) ++ rest in
      let pre1 = pre ++ ty in
      let pre2 = pre1 ++ ln in
      let bl = length-append (t.value ++ []) rest in
      let p1 = length-append pre ty in
      let p2 = length-append pre1 ln in
      rw
        (
          more,
          get16-at m cal t.type pre (ln ++ body) v.type_fits h,
          get16-at m cal t.len pre1 body v.len_fits (omega (arith, p1)),
          skip-at pre2 (t.value ++ []) rest t.len
              (omega (arith, v.len_right, length-append t.value [])) (omega (arith, p1, p2)),
        )
        (ap (λ p. count_loop m fuel p ((num + 1) % size_mod))
          (at_path
            (append_assoc pre1 ln (t.value ++ []) ∙ append_assoc pre ty (ln ++ (t.value ++ [])))
            refl))

  count_loop-encode_all :
      (ts : List Tlv) (fuel num : ℕ) (pre : List ℕ)
      → All IsTlv ts
      → length ts < fuel
      → num + length ts < size_mod
      → length pre + length (encode_all ts) < size_mod
      → count_loop m fuel (at pre (encode_all ts)) num ≡ done (num + length ts)
  count_loop-encode_all ts zero num pre v enough small h = absurd (omega arith)
  count_loop-encode_all [] (suc fuel) num pre v enough small h =
      let stop : ltb (length pre) (length pre + 0) ≡ false = ge→ltb _ _ (omega arith) in
      let sum : num + 0 ≡ num = omega arith in unfold count_loop in rw (stop, sum)
  count_loop-encode_all (t ∷ ts) (suc fuel) num pre (v, vs) enough small h =
      let next : (num + 1) % size_mod ≡ num + 1 = omega arith in
      let sum : num + 1 + length ts ≡ num + suc (length ts) = omega arith in
      let all = length-append (encode t) (encode_all ts) in
      rw (count_step t fuel num pre (encode_all ts) v h, next, ← sum)
        (count_loop-encode_all ts fuel (num + 1) (pre ++ encode t) vs (omega arith) (omega arith)
          (omega (arith, all, length-append pre (encode t))))

  -- On the encoding of a list of TLVs `count_tlv` returns the length of the list, if the encoding is
  -- shorter than 64 KiB.
  count_tlv-encode_all :
      (ts : List Tlv)
      → All IsTlv ts
      → length (encode_all ts) < 2 ^ 16
      → count_tlv m (encode_all ts) (length (encode_all ts)) ≡ done (length ts)
  unfolding count_tlv count_tlv_pkt
  count_tlv-encode_all ts v h =
      let most = length-le-encode_all m cal ts v in
      let start : 0 + length ts ≡ length ts = omega arith in
      rw (init_p-at (encode_all ts) h) (
        rw start at (
          count_loop-encode_all ts (suc (0 + length (encode_all ts))) 0 [] v (omega (arith, most))
            (omega (arith, most)) (omega arith)))
