-- ===== src/Base/Effects.antt =====
-- What a piece of C does: it ends with a value, it touches memory outside an object, or it has not
-- ended within the fuel given.
use Prim.Native.Nat.{ℕ, suc, ◌+◌, ◌≤◌}
use mathlib.Core.Path.{◌≡◌, refl, ap, ◌∙◌, subst}
use mathlib.Core.List.{List, [], ◌∷◌, ◌++◌, append-nil}
use native.Mathlib.Omega.{arith}
use bsflite_otr.Base.Bools.{leb, le→leb, if◌then◌else◌}
use bsflite_otr.Base.Lists.{length, take, drop, length-append, take-append}

pub data Run {ℓ} (A : Type ℓ) : Type ℓ where
  done : A → Run A
  fault : Run A
  unfinished : Run A

infixl 5 ◌>>=◌
abbrev pub ◌>>=◌ {ℓ κ} : {A : Type ℓ} {B : Type κ} → Run A → (A → Run B) → Run B
done a >>= f = f a
fault >>= f = fault
unfinished >>= f = unfinished

-- `memcpy(buf, mem + off, n)`: the n bytes, which must lie inside the object.
unfoldable pub read_mem : List ℕ → ℕ → ℕ → Run (List ℕ)
read_mem mem off n = if leb (off + n) (length mem) then done (take n (drop off mem)) else fault

-- `memcpy(mem + off, bytes, n)`: the object afterwards.
unfoldable pub write_mem : List ℕ → ℕ → List ℕ → Run (List ℕ)
write_mem mem off bytes =
    if leb (off + length bytes) (length mem)
    then done (take off mem ++ (bytes ++ drop (off + length bytes) mem))
    else fault

take-append_more : (pre rest : List ℕ) (n : ℕ) → n ≡ length pre → take n (pre ++ rest) ≡ pre
take-append_more pre rest n e = rw e (take-append pre rest)

pub drop-append_more :
    (pre rest : List ℕ) (k n : ℕ) → n ≡ length pre + k → drop n (pre ++ rest) ≡ drop k rest
drop-append_more pre rest k n e = rw e (go pre)
  where
    go : (pre : List ℕ) → drop (length pre + k) (pre ++ rest) ≡ drop k rest
    go [] = ap (λ n. drop n rest) (omega arith)
    go (x ∷ xs) =
        ap (λ n. drop n (x ∷ (xs ++ rest)))
          (let e : suc (length xs) + k ≡ suc (length xs + k) = omega arith in e)
        ∙ go xs

-- A copy out of the middle of an object.
pub read_mem-middle :
    (pre xs rest : List ℕ) (off n : ℕ)
    → off ≡ length pre
    → n ≡ length xs
    → read_mem (pre ++ (xs ++ rest)) off n ≡ done xs
unfolding read_mem
read_mem-middle pre xs rest off n eo en =
    let fits : off + n ≤ length (pre ++ (xs ++ rest)) =
      omega (arith, length-append pre (xs ++ rest), length-append xs rest) in
    rw (le→leb _ _ fits) (
      ap done (
        ap (take n) (drop-append_more pre (xs ++ rest) 0 off (omega arith))
        ∙ take-append_more xs rest n en))

-- A copy into the middle of an object.
pub write_mem-middle :
    (pre xs junk : List ℕ) (off : ℕ)
    → off ≡ length pre
    → length xs ≤ length junk
    → write_mem (pre ++ junk) off xs ≡ done (pre ++ (xs ++ drop (length xs) junk))
unfolding write_mem
write_mem-middle pre xs junk off eo h =
    let fits : off + length xs ≤ length (pre ++ junk) = omega (arith, length-append pre junk) in
    rw (
      le→leb _ _ fits,
      take-append_more pre junk off eo,
      drop-append_more pre junk (length xs) (off + length xs) (omega arith),
    )

pub read_mem-whole : (bs : List ℕ) → read_mem bs 0 (length bs) ≡ done bs
read_mem-whole bs =
    subst (λ s. read_mem s 0 (length bs) ≡ done bs) (append-nil bs)
      (read_mem-middle [] bs [] 0 (length bs) refl refl)

-- Inversion of a step that ended with a value.
pub >>=-eq-done {ℓ κ} :
    {A : Type ℓ} {B : Type κ} (r : Run A) (f : A → Run B) {b : B}
    → (r >>= f) ≡ done b
    → (a : A) × (r ≡ done a) × (f a ≡ done b)
>>=-eq-done (done a) f h = (a, refl, h)
>>=-eq-done fault f h = cc
>>=-eq-done unfinished f h = cc

-- A property of the result of a run that has one.
abbrev pub Always {ℓ κ} : {A : Type ℓ} → (A → Type κ) → Run A → Type κ
Always P (done a) = P a
Always P fault = Unit {κ}
Always P unfinished = Unit {κ}

pub Always-bind {ℓ κ μ} :
    {A : Type ℓ} {B : Type κ} (P : B → Type μ) (r : Run A) (f : A → Run B)
    → ((a : A) → Always P (f a))
    → Always P (r >>= f)
Always-bind P (done a) f h = h a
Always-bind P fault f h = tt
Always-bind P unfinished f h = tt

-- A chain whose first step keeps what the second needs.
pub Always-chain {ℓ κ μ ν} :
    {A : Type ℓ} {B : Type κ} (P : A → Type μ) (Q : B → Type ν) (r : Run A) (f : A → Run B)
    → Always P r
    → ((a : A) → P a → Always Q (f a))
    → Always Q (r >>= f)
Always-chain P Q (done a) f p h = h a p
Always-chain P Q fault f p h = tt
Always-chain P Q unfinished f p h = tt
