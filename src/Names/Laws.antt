-- ===== src/Names/Laws.antt =====
-- `strcmp` is a decision of equality and an order, and simplifying a name is a normal form.
use bsflite_otr.Base.{
  ℕ, ◌≤◌, ◌≡◌, ◌↔◌, refl, true, false, [], ◌∷◌, length, arith, ◌==◌, Bool-cases, inl, inr,
}
use bsflite_otr.Session.{Text}
use bsflite_otr.Names.{text_eq, text_lt, to_lower, simplify_sn, compare_nicks}

pub text_eq→eq : (a b : Text) → text_eq a b ≡ true → a ≡ b
unfolding text_eq
text_eq→eq [] [] h = refl
text_eq→eq [] (b ∷ t) h = cc
text_eq→eq (a ∷ s) [] h = cc
text_eq→eq (a ∷ s) (b ∷ t) h = ground (arith, text_eq→eq s t)

pub text_eq_refl : (a : Text) → text_eq a a ≡ true
unfolding text_eq
text_eq_refl [] = refl
text_eq_refl (a ∷ s) = ground (arith, text_eq_refl s)

pub text_eq_iff : (a b : Text) → (text_eq a b ≡ true) ↔ (a ≡ b)
text_eq_iff a b = (text_eq→eq a b, λ e. rw e (text_eq_refl b))

pub text_eq_comm : (a b : Text) → text_eq a b ≡ text_eq b a
unfolding text_eq
text_eq_comm [] [] = refl
text_eq_comm [] (b ∷ t) = refl
text_eq_comm (a ∷ s) [] = refl
text_eq_comm (a ∷ s) (b ∷ t) = ground (arith, text_eq_comm s t)

pub text_lt_irrefl : (a : Text) → text_lt a a ≡ false
unfolding text_lt
text_lt_irrefl [] = refl
text_lt_irrefl (a ∷ s) = ground (arith, text_lt_irrefl s)

pub text_lt_trans : (a b c : Text) → text_lt a b ≡ true → text_lt b c ≡ true → text_lt a c ≡ true
unfolding text_lt
text_lt_trans [] [] c h k = cc
text_lt_trans [] (b ∷ t) [] h k = cc
text_lt_trans [] (b ∷ t) (c ∷ u) h k = refl
text_lt_trans (a ∷ s) [] c h k = cc
text_lt_trans (a ∷ s) (b ∷ t) [] h k = cc
text_lt_trans (a ∷ s) (b ∷ t) (c ∷ u) h k = ground (arith, text_lt_trans s t u)

-- Of two names that are not below one another, each is the other.
pub text_lt_total : (a b : Text) → text_lt a b ≡ false → text_lt b a ≡ false → a ≡ b
unfolding text_lt
text_lt_total [] [] h k = refl
text_lt_total [] (b ∷ t) h k = cc
text_lt_total (a ∷ s) [] h k = cc
text_lt_total (a ∷ s) (b ∷ t) h k = ground (arith, text_lt_total s t)

to_lower_idem : (c : ℕ) → to_lower (to_lower c) ≡ to_lower c
unfolding to_lower
to_lower_idem c = ground arith

to_lower-ne-blank : (c : ℕ) → (c == b' ') ≡ false → (to_lower c == b' ') ≡ false
unfolding to_lower
to_lower-ne-blank c h = ground arith

-- Simplifying a name twice is simplifying it once.
pub simplify_sn_idem : (s : Text) → simplify_sn (simplify_sn s) ≡ simplify_sn s
unfolding simplify_sn
simplify_sn_idem [] = refl
simplify_sn_idem (c ∷ u) = elim (Bool-cases (c == b' ')) [
  | inl blank ↦ rw blank (simplify_sn_idem u)
  | inr other ↦ rw (other, to_lower-ne-blank c other, to_lower_idem, simplify_sn_idem u)
]

-- A simplified name is not longer than the name, so that it fits the buffer of that size.
length-simplify_sn : (s : Text) → length (simplify_sn s) ≤ length s
unfolding simplify_sn
length-simplify_sn [] = omega arith
length-simplify_sn (c ∷ u) = ground (arith, length-simplify_sn u)

-- `imcomm_compare_nicks` is true exactly of two names that have the same simplified form.
compare_nicks_iff : (a b : Text) → (compare_nicks a b ≡ true) ↔ (simplify_sn a ≡ simplify_sn b)
unfolding compare_nicks
compare_nicks_iff a b = text_eq_iff (simplify_sn a) (simplify_sn b)
