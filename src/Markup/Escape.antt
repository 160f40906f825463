-- ===== src/Markup/Escape.antt =====
-- What `strip_html` does at a character reference, and at a character that is no markup.
use bsflite_otr.Base.{
  ◌>>=◌, ◌==◌, ◌++◌, ℕ, Run, suc, ◌≡◌, done, false, lt→ltb, arith, length, ◌∷◌, [], refl, zero,
}
use bsflite_otr.Session.{Text}
use bsflite_otr.Markup.{begins, reference, plain_round, strip_loop, is_newline, strip_html}

-- The loop writes this character, and goes on behind.
abbrev pub gives : ℕ → Run Text → Run Text
gives c r = r >>= λ (more : Text). done (c ∷ more)

abbrev pub amp : Text
amp = b'&' ∷ b'a' ∷ b'm' ∷ b'p' ∷ b';' ∷ []

abbrev pub quot : Text
quot = b'&' ∷ b'q' ∷ b'u' ∷ b'o' ∷ b't' ∷ b';' ∷ []

abbrev pub lt : Text
lt = b'&' ∷ b'l' ∷ b't' ∷ b';' ∷ []

abbrev pub gt : Text
gt = b'&' ∷ b'g' ∷ b't' ∷ b';' ∷ []

module _ (fuel : ℕ) (s : Text) where
  pub strip_loop-amp : strip_loop (suc fuel) false (amp ++ s) ≡ gives b'&' (strip_loop fuel false s)
  unfolding strip_loop plain_round reference begins
  strip_loop-amp = rw (lt→ltb 4 (length (amp ++ s)) (omega arith)) refl

  pub strip_loop-quot : strip_loop (suc fuel) false (quot ++ s) ≡ gives 34 (strip_loop fuel false s)
  unfolding strip_loop plain_round reference begins
  strip_loop-quot =
      rw (lt→ltb 4 (length (quot ++ s)) (omega arith), lt→ltb 5 (length (quot ++ s)) (omega arith))
        refl

  pub strip_loop-lt : strip_loop (suc fuel) false (lt ++ s) ≡ gives b'<' (strip_loop fuel false s)
  unfolding strip_loop plain_round reference begins
  strip_loop-lt = ground (arith)

  pub strip_loop-gt : strip_loop (suc fuel) false (gt ++ s) ≡ gives b'>' (strip_loop fuel false s)
  unfolding strip_loop plain_round reference begins
  strip_loop-gt = ground (arith)

  -- A character that is none of `<`, `&` and a line break.
  pub strip_loop-same :
      (c : ℕ)
      → (c == b'<') ≡ false
      → (c == b'&') ≡ false
      → is_newline c ≡ false
      → strip_loop (suc fuel) false (c ∷ s) ≡ gives c (strip_loop fuel false s)
  unfolding strip_loop plain_round
  strip_loop-same c l a n = rw (l, a, n) refl

pub strip_loop-nil : (fuel : ℕ) → strip_loop fuel false [] ≡ done []
unfolding strip_loop
strip_loop-nil zero = refl
strip_loop-nil (suc fuel) = refl

pub strip_html_lem : (s : Text) → strip_html s ≡ strip_loop (length s) false s
unfolding strip_html
strip_html_lem s = refl
