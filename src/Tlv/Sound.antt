-- ===== src/Tlv/Sound.antt =====
-- What `tlv_split` returns is what the memory holds.
use bsflite_otr.Base.{
  ℕ, zero, suc, ◌+◌, ◌%◌, ◌^◌, ◌≤◌, ◌<◌, ◌≡◌, refl, List, [], ◌∷◌, length, drop, All, read_mem,
  done, ◌++◌, ◌*◌, sym, ◌∙◌, arith, dec_le, take, suc-ne-zero, le→leb, length-take, length-drop,
  All-drop, Bool-cases, drop-add, ap, ltb, take-append-drop, append-nil, inr, Run, append_assoc,
  ltb_false→le, fault, length-append, inl, gt→leb, >>=-eq-done,
}
use bsflite_otr.Bytes.{Machine, Calibrated, IsByte, two_to_16}
use bsflite_otr.Bytes.Big.{be16, load16_lem}
use bsflite_otr.Tlv.{Tlv, copy_value, split_loop, tlv_split}
use bsflite_otr.Tlv.RoundTrip.{encode, encode_all, IsTlv, length-encode}
use bsflite_otr.Tlv.Total.{two_to_16-inside, copy_value-inside}

two_bytes : {a b c d : ℕ} {l : List ℕ} → a ≡ c → b ≡ d → ◌≡◌ {A = List ℕ} (a ∷ b ∷ l) (c ∷ d ∷ l)
two_bytes {l} p q = λ i. p i ∷ q i ∷ l

module _ (m : Machine) (cal : Calibrated m) where
  -- A word that was read is the big-endian word at the front.
  front :
      (mem : List ℕ) (v : ℕ)
      → All IsByte mem
      → two_to_16 m mem ≡ done v
      → (v < 2 ^ 16) × (mem ≡ be16 (v % 2 ^ 16) ++ drop 2 mem)
  unfolding two_to_16
  front [] v h e = cc
  front (a ∷ []) v h e = cc
  front (a ∷ b ∷ mem) v (ha, (hb, h)) e =
      let w : v ≡ a * 256 + b = cc (load16_lem m cal a b ha hb) in
      (omega arith, two_bytes (omega arith) (omega arith))

  copied :
      (mem : List ℕ) (x n : ℕ) (v : List ℕ)
      → x ≤ length mem
      → copy_value mem x n ≡ done v
      → (n ≡ length v) × (drop x mem ≡ v ++ drop (x + n) mem)
  unfolding copy_value read_mem
  copied mem x zero v h e =
      let nil : v ≡ [] = cc in let same : x + 0 ≡ x = omega arith in (rw nil, rw (nil, same))
  copied mem x (suc n) v h e = elim (dec_le (x + suc n) (length mem)) [
    | yes p ↦
        let e' : done (take (suc n) (drop x mem)) ≡ done v =
          rw (suc-ne-zero n, le→leb _ _ p) at e in
        let got : take (suc n) (drop x mem) ≡ v = cc in
        (
          rw (← got) (omega (arith, length-take (suc n) (drop x mem), length-drop x mem)),
          rw (← got, ← drop-add x (suc n) mem, take-append-drop (suc n) (drop x mem)),
        )
    | no p ↦
        let e' : ◌≡◌ {A = Run (List ℕ)} fault (done v) =
          rw (suc-ne-zero n, gt→leb (x + suc n) (length mem) (omega arith)) at e in
        cc
  ]

  -- What is claimed of the list `ts` that was read from `x` on.
  abbrev Reads : List ℕ → ℕ → ℕ → List Tlv → Type 0
  Reads mem len x ts =
      All IsTlv ts
      × (rest : List ℕ) × (drop x mem ≡ encode_all ts ++ rest)
      × (len ≤ x + length (encode_all ts))

  -- One round: a type, a length and a value at `x`, and the rest behind them.
  Reads-cons :
      (mem : List ℕ) (len x type n : ℕ) (value : List ℕ) (ts : List Tlv)
      → All IsByte mem
      → two_to_16 m (drop x mem) ≡ done type
      → two_to_16 m (drop (x + 2) mem) ≡ done n
      → x + 4 ≤ length mem
      → copy_value mem (x + 4) n ≡ done value
      → Reads mem len (x + 4 + n) ts
      → Reads mem len x (record { type = type; len = n; value = value } ∷ ts)
  Reads-cons mem len x type n value ts bytes e0 e1 inside e2 (v, rest, e3, covers) =
      let (type_fits, f0) = front (drop x mem) type (All-drop IsByte x mem bytes) e0 in
      let (len_fits, f1) = front (drop (x + 2) mem) n (All-drop IsByte (x + 2) mem bytes) e1 in
      let (len_right, f2) = copied mem (x + 4) n value inside e2 in
      let t : Tlv = record { type = type; len = n; value = value } in
      let is : IsTlv t = record {
        type_fits = type_fits;
        len_fits = len_fits;
        len_right = len_right;
      } in
      let four : x + 2 + 2 ≡ x + 4 = omega arith in
      let whole : drop x mem ≡ encode t ++ (encode_all ts ++ rest) =
        f0
        ∙ ap (λ l. be16 (type % 2 ^ 16) ++ l) (drop-add x 2 mem ∙ f1)
        ∙ ap (λ l. be16 (type % 2 ^ 16) ++ (be16 (n % 2 ^ 16) ++ l))
            (drop-add (x + 2) 2 mem
              ∙ ap (λ k. drop k mem) four
              ∙ f2
              ∙ ap (λ l. value ++ l) e3
              ∙ ap (λ l. l ++ (encode_all ts ++ rest)) (sym (append-nil value))) in
      (
        (is, v),
        rest,
        whole ∙ sym (append_assoc (encode t) (encode_all ts) rest),
        omega (arith, length-append (encode t) (encode_all ts), length-encode is),
      )

  split_loop-Reads :
      (fuel : ℕ) (mem : List ℕ) (len x : ℕ) (ts : List Tlv)
      → All IsByte mem
      → length mem < 2 ^ 16
      → x ≤ length mem
      → split_loop m fuel mem len x ≡ done ts
      → Reads mem len x ts
  unfolding split_loop
  split_loop-Reads zero mem len x ts bytes small inside = λ e. cc
  split_loop-Reads (suc fuel) mem len x ts bytes small inside = elim (Bool-cases (ltb x len)) [
    | inr stop ↦ rw stop (λ e.
        let nil : ts ≡ [] = cc in
        rw nil (tt, drop x mem, refl, omega (arith, ltb_false→le x len stop)))
    | inl more ↦ rw more (elim (two_to_16-inside m mem x) [
      | inl e ↦ rw e (λ e. cc)
      | inr (type, e0, _) ↦ rw e0 (elim (two_to_16-inside m mem (x + 2)) [
        | inl e ↦ rw e (λ e. cc)
        | inr (n, e1, h) ↦
            let here : (x + 4) % 2 ^ 16 ≡ x + 4 = omega arith in
            rw (e1, here)
              (elim (copy_value-inside mem (x + 4) n (omega arith)) [
                | inl e ↦ rw e (λ e. cc)
                | inr (value, e2, h') ↦
                    let next : (x + 4 + n) % 2 ^ 16 ≡ x + 4 + n = omega arith in
                    rw (e2, next)
                      (λ e.
                        let t : Tlv = record { type = type; len = n; value = value } in
                        let (tail, e3, e4) =
                          >>=-eq-done (split_loop m fuel mem len (x + 4 + n)) (λ l. done (t ∷ l))
                            e in
                        let all : ts ≡ t ∷ tail = cc in
                        rw all (
                          Reads-cons mem len x type n value tail bytes e0 e1 (omega arith) e2
                            (split_loop-Reads fuel mem len (x + 4 + n) tail bytes small h' e3)))
              ])
      ])
    ])
  ]

  -- Whatever list `tlv_split` returns on memory of less than 64 KiB, its TLVs are well formed, the
  -- memory begins with their encoding, and they cover the length that the caller gave.
  pub tlv_split_sound :
      (mem : List ℕ) (len numtlv : ℕ) (ts : List Tlv)
      → All IsByte mem
      → length mem < 2 ^ 16
      → tlv_split m mem len numtlv ≡ done ts
      → All IsTlv ts
        × (rest : List ℕ) × (mem ≡ encode_all ts ++ rest)
        × (len ≤ length (encode_all ts))
  unfolding tlv_split
  tlv_split_sound mem len numtlv ts bytes small e =
      let (v, rest, e', covers) =
        split_loop-Reads (suc (length mem)) mem len 0 ts bytes small (omega arith) e in
      (v, rest, e', omega arith)
