-- ===== src/Netspeak/Exact.antt =====
-- The memory that `undo_netspeak` allocates is exactly as long as the text it writes.
use bsflite_otr.Base.{
  choose, ℕ, zero, suc, ◌+◌, ◌%◌, ◌≤◌, ◌<◌, ◌==◌, ◌≡◌, refl, sym, ap, ◌∙◌, Bool, true, false, not,
  ◌&&◌, ◌||◌, none, some, List, [], ◌∷◌, ◌++◌, length, drop, Run, done, ◌>>=◌, ltb, leb, arith,
  Bool-cases, Option-cases, inl, inr, length-append, length-drop,
}
use bsflite_otr.Packet.{size_mod}
use bsflite_otr.Session.{Text}
use bsflite_otr.Netspeak.{
  Word, table, prefix, count_word, write_word, after_blank, grow, length_loop, ends_blank,
  write_loop, undo_netspeak,
}

prefix-le : (a s : Text) → prefix a s ≡ true → length a ≤ length s
unfolding prefix
prefix-le [] s h = omega arith
prefix-le (a ∷ as') [] h = cc
prefix-le (a ∷ as') (c ∷ s) h = ground (arith, prefix-le as' s)

-- The two loops look for the same entry.
write_word_lem : (ws : List Word) (s : Text) → write_word ws s ≡ count_word ws s
unfolding write_word count_word
write_word_lem [] s = refl
write_word_lem (w ∷ ws) s = ground (arith, prefix-le w.orig s, write_word_lem ws s)

has_blank : Text → Bool
has_blank [] = false
has_blank (c ∷ s) = (c == b' ') || has_blank s

-- An entry is not empty, not long, and has no blank.
entry_ok : Word → Bool
entry_ok w = not (has_blank w.orig) && leb 1 (length w.orig) && ltb (length w.orig) 100

all_ok : List Word → Bool
all_ok [] = true
all_ok (w ∷ ws) = entry_ok w && all_ok ws

table_ok : all_ok table ≡ true
unfolding all_ok entry_ok has_blank table
table_ok = refl

count_word_sound :
    (ws : List Word) (s : Text) (w : Word)
    → all_ok ws ≡ true
    → count_word ws s ≡ some w
    → (entry_ok w ≡ true) × (prefix w.orig s ≡ true)
unfolding count_word all_ok
count_word_sound [] s w h e = cc
count_word_sound (x ∷ ws) s w h e = ground (arith, count_word_sound ws s w)

after_blank-skip :
    (a s : Text)
    → prefix a s ≡ true
    → has_blank a ≡ false
    → after_blank (drop (length a) s) ≡ after_blank s
unfolding prefix has_blank after_blank
after_blank-skip [] s p h = refl
after_blank-skip (a ∷ as') [] p h = cc
after_blank-skip (a ∷ as') (c ∷ s) p h = ground (arith, after_blank-skip as' s)

ends_blank-false : (a : Text) → has_blank a ≡ false → ends_blank a ≡ false
unfolding has_blank
ends_blank-false [] h = refl
ends_blank-false (c ∷ []) h = ground arith
ends_blank-false (c ∷ (d ∷ a)) h = ground (arith, ends_blank-false (d ∷ a))

entry_facts :
    (w : Word)
    → entry_ok w ≡ true
    → (has_blank w.orig ≡ false) × (1 ≤ length w.orig) × (length w.orig < 100)
unfolding entry_ok
entry_facts w h = ground arith

-- The first loop from a place inside a word.
abbrev onward : ℕ → Text → ℕ → Run ℕ
onward f u n = choose (done n) (λ v. length_loop f v n) (after_blank u)

-- Both loops end, and what the first one adds is what the second one writes beyond `len`.
abbrev Agree : Run ℕ → Run Text → ℕ → ℕ → Type 0
Agree counts writes len n =
    (k : ℕ) × (t : Text) × (counts ≡ done k)
    × (writes ≡ done t)
    × ((k + len) % size_mod ≡ (n + length t) % size_mod)
    × (k < size_mod)

-- What the proof for a number of rounds uses of the number before.
abbrev Below : ℕ → Type 0
Below f =
    (g : ℕ) (s : Text) (n : ℕ)
    → length s < f
    → length s ≤ g
    → n < size_mod
    → Agree (length_loop f s n) (write_loop g true s) (length s) n

rest_of_word :
    (f g : ℕ) (u : Text) (n : ℕ)
    → Below f
    → length u ≤ f
    → length u ≤ g
    → n < size_mod
    → Agree (onward f u n) (write_loop g false u) (length u) n
unfolding after_blank write_loop
rest_of_word f zero [] n below hf hg hn = (n, [], refl, refl, refl, hn)
rest_of_word f (suc g) [] n below hf hg hn = (n, [], refl, refl, refl, hn)
rest_of_word f zero (c ∷ u) n below hf hg hn = absurd (omega arith)
rest_of_word f (suc g) (c ∷ u) n below hf hg hn = elim (Bool-cases (c == b' ')) [
  | inl blank ↦
      let (k, t, e, e', sums, fits) = below g u n (omega arith) (omega arith) hn in
      let next : after_blank (c ∷ u) ≡ some u = rw blank refl in
      (
        k,
        c ∷ t,
        ap (choose (done n) (λ v. length_loop f v n)) next ∙ e,
        ap (λ b. write_loop g b u >>= λ out. done (c ∷ out)) blank
            ∙ ap (λ r. r >>= λ out. done (c ∷ out)) e',
        omega arith,
        fits,
      )
  | inr other ↦
      let (k, t, e, e', sums, fits) = rest_of_word f g u n below (omega arith) (omega arith) hn in
      let next : after_blank (c ∷ u) ≡ after_blank u = rw other refl in
      (
        k,
        c ∷ t,
        ap (choose (done n) (λ v. length_loop f v n)) next ∙ e,
        ap (λ b. write_loop g b u >>= λ out. done (c ∷ out)) other
            ∙ ap (λ r. r >>= λ out. done (c ∷ out)) e',
        omega arith,
        fits,
      )
]

write_nil : (g : ℕ) (start : Bool) → write_loop g start [] ≡ done []
unfolding write_loop
write_nil zero start = refl
write_nil (suc g) start = refl

no_word_nil : count_word table [] ≡ none
unfolding count_word table prefix
no_word_nil = refl

loops_agree : (f : ℕ) → Below f
unfolding length_loop write_loop after_blank
loops_agree zero g s n hf hg hn = absurd (omega arith)
loops_agree (suc f) g [] n hf hg hn =
    (n, [], ap (λ o. done (grow o n)) no_word_nil, write_nil g true, refl, hn)
loops_agree (suc f) zero (c ∷ s) n hf hg hn = absurd (omega arith)
loops_agree (suc f) (suc g) (c ∷ s) n hf hg hn = elim (Option-cases (count_word table (c ∷ s))) [
  | inl e ↦
      let w : write_word table (c ∷ s) ≡ none = write_word_lem table (c ∷ s) ∙ e in
      let (k, t, e1, e2, sums, fits) =
        rest_of_word f (suc g) (c ∷ s) n (loops_agree f) (omega arith) hg hn in
      (k, t, ap (λ o. onward f (c ∷ s) (grow o n)) e ∙ e1, ap (choose _ _) w ∙ e2, sums, fits)
  | inr (x, e) ↦
      let w : write_word table (c ∷ s) ≡ some x = write_word_lem table (c ∷ s) ∙ e in
      let (ok, here) = count_word_sound table (c ∷ s) x table_ok e in
      let (no_blank, some_size, bound) = entry_facts x ok in
      let u = drop (length x.orig) (c ∷ s) in
      let shorter = length-drop (length x.orig) (c ∷ s) in
      let inside = prefix-le x.orig (c ∷ s) here in
      let n' = grow (some x) n in
      let (k, t, e1, e2, sums, fits) =
        rest_of_word f g u n' (loops_agree f) (omega (arith, shorter)) (omega (arith, shorter))
          (omega arith) in
      (
        k,
        x.clean ++ t,
        ap (λ o. onward f (c ∷ s) (grow o n)) e
            ∙ (ap (choose (done n') (λ v. length_loop f v n'))
                  (sym (after_blank-skip x.orig (c ∷ s) here no_blank))
                ∙ e1),
        ap (choose _ _) w
            ∙ (ap (λ b. write_loop g b u >>= λ out. done (x.clean ++ out))
                  (ends_blank-false x.orig no_blank)
                ∙ ap (λ r. r >>= λ out. done (x.clean ++ out)) e2),
        omega (arith, sums, shorter, length-append x.clean t),
        fits,
      )
]

-- On a text whose length is a size_t, `undo_netspeak` ends, and the length for which it allocates
-- memory is the length of the text that it writes there, modulo the size of a size_t.
pub undo_netspeak_lem :
    (orig : Text)
    → length orig < size_mod
    → (cleaned : Text) × (undo_netspeak orig ≡ done (length cleaned % size_mod, cleaned))
unfolding undo_netspeak
undo_netspeak_lem orig small =
    let (k, t, e1, e2, sums, fits) =
      loops_agree (suc (length orig)) (length orig) orig (length orig) (omega arith) (omega arith)
        small in
    let exact : k ≡ length t % size_mod = omega arith in (t, rw (e1, e2, exact) refl)
