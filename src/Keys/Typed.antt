-- ===== src/Keys/Typed.antt =====
-- What is typed outside of raw input is escaped, and `strip_html` takes the escapes back.
use bsflite_otr.Base.{
  done, ◌==◌, ◌||◌, ◌++◌, ◌∷◌, [], ℕ, zero, suc, ◌+◌, ◌≤◌, ◌≡◌, refl, ap, ◌∙◌, true, false, length,
  All, ltb, choose, arith, ge→ltb, le→leb, length-append, ℕ_discrete, ◌<◌, sym, Bool-cases, inl,
  inr,
}
use bsflite_otr.Session.{Text}
use bsflite_otr.Markup.{strip_loop, strip_html, is_newline}
use bsflite_otr.Markup.Escape.{
  gives, strip_loop-amp, strip_loop-quot, strip_loop-lt, strip_loop-gt, strip_loop-same,
  strip_loop-nil, strip_html_lem,
}
use bsflite_otr.Keys.{Key, key_of, markup_key, act, press, add_to_inputbuf}
use bsflite_otr.Desk.{Desk, is_nil}

-- What a character of a message becomes in the line.
abbrev pub typed : ℕ → Text
typed c = choose (c ∷ []) (λ (most, s). s) (markup_key c)

abbrev pub typed_all : Text → Text
typed_all [] = []
typed_all (c ∷ s) = typed c ++ typed_all s

-- A character that is no control character.
abbrev pub Printable : ℕ → Type 0
Printable c = (ltb c 32 || (c == 127)) ≡ false

-- The four characters of markup, or a character that stays as it is.
data Case (c : ℕ) : Type 0 where
  quote : c ≡ 34 → Case c
  less : c ≡ b'<' → Case c
  greater : c ≡ b'>' → Case c
  ampersand : c ≡ b'&' → Case c
  same :
      (c == 34) ≡ false → (c == b'<') ≡ false → (c == b'>') ≡ false → (c == b'&') ≡ false → Case c

character-Case : (c : ℕ) → Case c
character-Case c = elim (ℕ_discrete c 34) [
  | yes e ↦ quote e
  | no n34 ↦ elim (ℕ_discrete c b'<') [
    | yes e ↦ less e
    | no n60 ↦ elim (ℕ_discrete c b'>') [
      | yes e ↦ greater e
      | no n62 ↦ elim (ℕ_discrete c b'&') [
        | yes e ↦ ampersand e
        | no n38 ↦ same (ground arith) (ground arith) (ground arith) (ground arith)
      ]
    ]
  ]
]

no_break : (c : ℕ) → Printable c → is_newline c ≡ false
no_break c v = ground arith

-- One round of the loop at a character that was typed.
strip_loop-typed :
    (fuel c : ℕ) (s : Text)
    → Printable c
    → strip_loop (suc fuel) false (typed c ++ s) ≡ gives c (strip_loop fuel false s)
unfolding markup_key
strip_loop-typed fuel c s v = elim (character-Case c) [
  | quote e ↦ rw e (strip_loop-quot fuel s)
  | less e ↦ rw e (strip_loop-lt fuel s)
  | greater e ↦ rw e (strip_loop-gt fuel s)
  | ampersand e ↦ rw e (strip_loop-amp fuel s)
  | same q l g a ↦ rw (q, l, g, a) (strip_loop-same fuel s c l a (no_break c v))
]

typed-ne-nil : (c : ℕ) → 1 ≤ length (typed c)
unfolding markup_key
typed-ne-nil c = ground arith

strip_loop-typed_all :
    (fuel : ℕ) (s : Text)
    → All Printable s
    → length (typed_all s) ≤ fuel
    → strip_loop fuel false (typed_all s) ≡ done s
strip_loop-typed_all zero [] v enough = strip_loop-nil zero
strip_loop-typed_all (suc fuel) [] v enough = strip_loop-nil (suc fuel)
strip_loop-typed_all zero (c ∷ s) (v, vs) enough =
    absurd (omega (arith, typed-ne-nil c, length-append (typed c) (typed_all s)))
strip_loop-typed_all (suc fuel) (c ∷ s) (v, vs) enough =
    strip_loop-typed fuel c (typed_all s) v
    ∙ ap (gives c) (
        strip_loop-typed_all fuel s vs
          (omega (arith, typed-ne-nil c, length-append (typed c) (typed_all s))))

-- A message of printable characters, in the form in which the keys leave it in the line: what
-- `strip_html` makes of it is the message again.
pub strip_html-typed_all : (s : Text) → All Printable s → strip_html (typed_all s) ≡ done s
strip_html-typed_all s v =
    strip_html_lem (typed_all s) ∙ strip_loop-typed_all (length (typed_all s)) s v (omega arith)

-- A line that is being typed and has room for what is typed next.
module _ (d : Desk) (cooked : d.rawinput ≡ false) (typing : d.istyping ≡ true) where
  put_replaced :
      (c most : ℕ) (s : Text)
      → length d.inputbuf + length s ≤ 511
      → length d.inputbuf ≤ most
      → key_of c ≡ Key.replaced most s
      → press d c ≡ done (record d { inputbuf = d.inputbuf ++ s })
  unfolding act
  put_replaced c most s room low k =
      rw (k, cooked, ge→ltb most (length d.inputbuf) low, le→leb _ _ room) refl

  put_same :
      (c : ℕ)
      → length d.inputbuf < 511
      → add_to_inputbuf d c ≡ done (record d { inputbuf = d.inputbuf ++ (c ∷ []) })
  unfolding add_to_inputbuf
  put_same c room =
      let short : (length d.inputbuf == 511) ≡ false = ground arith in
      rw (short, le→leb (length d.inputbuf + 1) 511 (omega arith))
        (ap (λ b. done (record d { istyping = b; inputbuf = d.inputbuf ++ (c ∷ []) })) (sym typing))

  -- A printable character behind the first goes into the line as it is escaped.
  pub press-typed :
      (c : ℕ)
      → is_nil d.inputbuf ≡ false
      → Printable c
      → length d.inputbuf + length (typed c) ≤ 511
      → press d c ≡ done (record d { inputbuf = d.inputbuf ++ typed c })
  unfolding key_of markup_key act
  press-typed c more v room = elim (character-Case c) [
    | quote e ↦
        let r : length d.inputbuf + 6 ≤ 511 = rw e at room in
        rw e (put_replaced 34 507 _ r (omega arith) refl)
    | less e ↦
        let r : length d.inputbuf + 4 ≤ 511 = rw e at room in
        rw e (put_replaced b'<' 509 _ r (omega arith) refl)
    | greater e ↦
        let r : length d.inputbuf + 4 ≤ 511 = rw e at room in
        rw e (put_replaced b'>' 509 _ r (omega arith) refl)
    | ampersand e ↦
        let r : length d.inputbuf + 5 ≤ 511 = rw e at room in
        rw e (put_replaced b'&' 508 _ r (omega arith) refl)
    | same q l g a ↦
        let r : length d.inputbuf + 1 ≤ 511 = rw (q, l, g, a) at room in
        rw (v, q, l, g, a)
          (elim (Bool-cases ((c == b'r') || ((c == b'I') || (c == b'L')))) [
            | inl e ↦ rw (e, more) (put_same c (omega arith))
            | inr e ↦ rw e (put_same c (omega arith))
          ])
  ]
