-- ===== src/Contacts/Ids.antt =====
-- `imcomm_get_next_id` finds the least number that is free.
use bsflite_otr.Base.{
  ℕ, zero, suc, ◌+◌, ◌%◌, ◌^◌, ◌≤◌, ◌<◌, ◌≡◌, refl, true, false, List, [], ◌∷◌, length, done, ◌==◌,
  if◌then◌else◌, arith, Bool-cases, ◌∙◌, inr, inl, dec_lt,
}
use bsflite_otr.Session.{Saved, Handle}
use bsflite_otr.Contacts.{id_used, next_id_loop, get_next_id}

-- The list without the entries of a number.
without : ℕ → List Saved → List Saved
without id [] = []
without id (s ∷ rest) = if s.ssi_id == id then without id rest else s ∷ without id rest

length-without-le : (id : ℕ) (list : List Saved) → length (without id list) ≤ length list
unfolding without
length-without-le id [] = omega arith
length-without-le id (s ∷ rest) = ground (arith, length-without-le id rest)

length-without :
    (id : ℕ) (list : List Saved) → id_used id list ≡ true → length (without id list) < length list
unfolding without id_used
length-without id [] h = cc
length-without id (s ∷ rest) h = ground (arith, length-without id rest, length-without-le id rest)

id_used-without :
    (id k : ℕ) (list : List Saved) → k < id → id_used k (without id list) ≡ id_used k list
unfolding without id_used
id_used-without id k [] h = refl
id_used-without id k (s ∷ rest) h = ground (arith, id_used-without id k rest h)

-- If the numbers 1 to n are all used, the list has n entries at least.
pigeonhole :
    (n : ℕ) (list : List Saved)
    → ((k : ℕ) → 1 ≤ k → k ≤ n → id_used k list ≡ true)
    → n ≤ length list
pigeonhole zero list all = omega arith
pigeonhole (suc n) list all =
    let shorter = length-without (suc n) list (all (suc n) (omega arith) (omega arith)) in
    let rest =
      pigeonhole n (without (suc n) list)
        (λ k lo hi. id_used-without (suc n) k list (omega arith) ∙ all k lo (omega arith)) in
    omega (arith, shorter, rest)

-- What the loop finds: a free number below 65536, with every smaller one from 1 on used.
abbrev pub IsLeastFree : List Saved → ℕ → Type 0
IsLeastFree list id =
    (1 ≤ id)
    × (id < 2 ^ 16)
    × (id_used id list ≡ false)
    × ((k : ℕ) → 1 ≤ k → k < id → id_used k list ≡ true)

next_id_loop-IsLeastFree :
    (fuel : ℕ) (list : List Saved) (firstid : ℕ)
    → length list + 1 < 2 ^ 16
    → 1 ≤ firstid
    → firstid ≤ length list + 1
    → length list + 1 < firstid + fuel
    → ((k : ℕ) → 1 ≤ k → k < firstid → id_used k list ≡ true)
    → (id : ℕ) × (next_id_loop fuel list firstid ≡ done id) × IsLeastFree list id
unfolding next_id_loop
next_id_loop-IsLeastFree zero list firstid small lo hi enough below = absurd (omega arith)
next_id_loop-IsLeastFree (suc fuel) list firstid small lo hi enough below =
    elim (Bool-cases (id_used firstid list)) [
      | inr free ↦ (firstid, rw free, (lo, omega arith, free, below))
      | inl used ↦
          let below' : (k : ℕ) → 1 ≤ k → k < firstid + 1 → id_used k list ≡ true = λ k l u.
            elim (dec_lt k firstid) [
              | yes p ↦ below k l p
              | no p ↦ (let same : k ≡ firstid = omega arith in rw same used)
            ] in
          let fits = pigeonhole firstid list (λ k l u. below' k l (omega arith)) in
          let next : (firstid + 1) % 2 ^ 16 ≡ firstid + 1 = omega arith in
          rw (used, next)
            (next_id_loop-IsLeastFree fuel list (firstid + 1) small (omega arith) (omega arith)
              (omega arith) below')
    ]

-- With fewer than 65535 entries `imcomm_get_next_id` ends, with the least number from 1 on that no
-- entry has.
pub get_next_id-IsLeastFree :
    (h : Handle)
    → length h.buddylist + 1 < 2 ^ 16
    → (id : ℕ) × (get_next_id h ≡ done id) × IsLeastFree h.buddylist id
unfolding get_next_id
get_next_id-IsLeastFree h small =
    next_id_loop-IsLeastFree (suc (length h.buddylist)) h.buddylist 1 small (omega arith)
      (omega arith) (omega arith) (λ k lo hi. absurd (omega arith))
