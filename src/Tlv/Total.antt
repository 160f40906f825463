-- ===== src/Tlv/Total.antt =====
-- `tlv_split` ends on memory of less than 64 KiB: with a list, or outside the memory.
use bsflite_otr.Base.{
  ℕ, zero, suc, ◌+◌, ◌%◌, ◌^◌, ◌≤◌, ◌<◌, ◌≡◌, ◌≢◌, refl, List, [], ◌∷◌, length, drop, fault,
  read_mem, unfinished, ◌⊎◌, arith, done, Bool-cases, inl, inr, ltb, dec_le, take, le→leb, gt→leb,
  suc-ne-zero,
}
use bsflite_otr.Bytes.{Machine, two_to_16}
use bsflite_otr.Tlv.{copy_value, split_loop, tlv_split}

-- A word that was read lies inside the memory.
pub two_to_16-inside :
    (m : Machine) (mem : List ℕ) (x : ℕ)
    → (two_to_16 m (drop x mem) ≡ fault)
      ⊎ ((v : ℕ) × (two_to_16 m (drop x mem) ≡ done v) × (x + 2 ≤ length mem))
unfolding two_to_16
two_to_16-inside m [] zero = inl refl
two_to_16-inside m [] (suc x) = inl refl
two_to_16-inside m (a ∷ []) zero = inl refl
two_to_16-inside m (a ∷ b ∷ mem) zero = inr (_, refl, omega arith)
two_to_16-inside m (a ∷ mem) (suc x) = elim (two_to_16-inside m mem x) [
  | inl e ↦ inl e
  | inr (v, e, h) ↦ inr (v, e, omega arith)
]

-- So does a value that was copied.
pub copy_value-inside :
    (mem : List ℕ) (x n : ℕ)
    → x ≤ length mem
    → (copy_value mem x n ≡ fault)
      ⊎ ((v : List ℕ) × (copy_value mem x n ≡ done v) × (x + n ≤ length mem))
unfolding copy_value read_mem
copy_value-inside mem x zero h = inr ([], refl, omega arith)
copy_value-inside mem x (suc n) h = elim (dec_le (x + suc n) (length mem)) [
  | yes p ↦ inr (take (suc n) (drop x mem), rw (suc-ne-zero n, le→leb _ _ p), p)
  | no p ↦ inl (rw (suc-ne-zero n, gt→leb (x + suc n) (length mem) (omega arith)))
]

module _ (m : Machine) where
  split_loop-ne-unfinished :
      (fuel : ℕ) (mem : List ℕ) (len x : ℕ)
      → length mem < 2 ^ 16
      → x ≤ length mem
      → length mem < x + fuel
      → split_loop m fuel mem len x ≢ unfinished
  unfolding split_loop
  split_loop-ne-unfinished zero mem len x small inside enough = absurd (omega arith)
  split_loop-ne-unfinished (suc fuel) mem len x small inside enough =
      elim (Bool-cases (ltb x len)) [
        | inr stop ↦ rw stop (λ e. cc)
        | inl more ↦ rw more (elim (two_to_16-inside m mem x) [
          | inl e ↦ rw e (λ e. cc)
          | inr (type, e, h) ↦ rw e (elim (two_to_16-inside m mem (x + 2)) [
            | inl e ↦ rw e (λ e. cc)
            | inr (n, e, h') ↦
                let here : (x + 4) % 2 ^ 16 ≡ x + 4 = omega arith in
                rw (e, here)
                  (elim (copy_value-inside mem (x + 4) n (omega arith)) [
                    | inl e ↦ rw e (λ e. cc)
                    | inr (v, e, h'') ↦
                        let next : (x + 4 + n) % 2 ^ 16 ≡ x + 4 + n = omega arith in
                        rw (e, next)
                          (ground (
                            arith,
                            split_loop-ne-unfinished fuel mem len (x + 4 + n) small h''
                                (omega arith),
                          ))
                  ])
          ])
        ])
      ]

  -- On memory of less than 64 KiB the loop of `tlv_split` ends, whatever the memory holds and
  -- whatever length the caller claims.
  pub tlv_split-ne-unfinished :
      (mem : List ℕ) (len numtlv : ℕ)
      → length mem < 2 ^ 16
      → tlv_split m mem len numtlv ≢ unfinished
  unfolding tlv_split
  tlv_split-ne-unfinished mem len numtlv small =
      split_loop-ne-unfinished (suc (length mem)) mem len 0 small (omega arith) (omega arith)
