-- ===== src/Wrap.antt =====
-- Breaking text into lines: `wordwrap_print`, `wordwrap_print_echostr` and `prettyprint` of out.c. A
-- comparison with a width that is negative in C is one with 0 here, since what is compared is positive.
pub mod Exact
pub mod Pieces
use bsflite_otr.Base.{
  ◌>>=◌, Run, done, fault, unfinished, ◌==◌, ◌||◌, ◌&&◌, not, ◌++◌, ◌∷◌, [], List, ℕ, zero, suc,
  ◌+◌, ◌-◌, ◌≤◌, ◌<◌, ◌≡◌, ◌≢◌, refl, sym, ap, ◌∙◌, subst, Bool, true, false, Option, none, some,
  length, take, drop, All, ltb, leb, if◌then◌else◌, choose, arith, Bool-cases, Option-cases, inl,
  inr, ◌⊎◌, lt→ltb, ge→ltb, le→leb, gt→leb, ltb_false→le, length-append, ℕ_discrete, dec_le, dec_lt,
  append_assoc, append-nil, map, All-append, suc-ne-zero,
}
use bsflite_otr.Session.{Text}

-- A character that ends a line in any case, and one that ends a word.
abbrev pub newline : ℕ → Bool
newline c = c == 10

abbrev pub no_newline : ℕ → Bool
no_newline c = false

module _ (hard : ℕ → Bool) where
  abbrev pub ends_word : ℕ → Bool
  ends_word c = (c == b' ') || hard c

  -- How far it is to the end of the word, or of the text.
  abbrev pub word : Text → ℕ
  word [] = 0
  word (c ∷ s) = if ends_word c then 0 else suc (word s)

  -- The loop, at `curline + xx`: the text of `curline` before it, and the lines that are printed.
  pub wrap_loop : ℕ → Text → Text → List Text
  wrap_loop room line [] = line ∷ []
  wrap_loop room line (c ∷ s) =
      let cut = line ∷ wrap_loop room [] s in
      let on = wrap_loop room (line ++ (c ∷ [])) s in
      if ends_word c && (hard c || ltb room (length line + 1 + word s)) then cut else on

-- `for (jj = 0; jj < offset; jj++) putchar(' ')`
pub spaces : ℕ → Text
spaces zero = []
spaces (suc n) = b' ' ∷ spaces n

abbrev pub each : Text → List Text → Text
each start [] = []
each start (l ∷ ls) = start ++ (l ++ (10 ∷ each start ls))

-- The first line stands where the cursor is.
abbrev pub indented : ℕ → List Text → Text
indented offset [] = []
indented offset (l ∷ ls) = l ++ (10 ∷ each (spaces offset) ls)

-- `wordwrap_print` on a screen of so many columns.
pub wordwrap_print : ℕ → ℕ → Text → Text
wordwrap_print cols offset s = indented offset (wrap_loop newline (cols - offset - 4) [] s)

-- `wordwrap_print_echostr`
pub wordwrap_print_echostr : ℕ → Text → Text → Text
wordwrap_print_echostr cols echostr s =
    each (echostr ++ (b' ' ∷ [])) (wrap_loop no_newline (cols - (length echostr + 1) - 3) [] s)

-- The pieces that `prettyprint` and `prettyprint_echostr` cut a text into.
pub pieces : Text → Text → List Text
pieces piece [] = []
pieces piece (c ∷ []) = (if c == 10 then piece else piece ++ (c ∷ [])) ∷ []
pieces piece (c ∷ d ∷ s) =
    let cut = piece ∷ pieces [] (d ∷ s) in
    let on = pieces (piece ++ (c ∷ [])) (d ∷ s) in if c == 10 then cut else on

abbrev pub pretty_rest : ℕ → ℕ → List Text → Text
pretty_rest cols offset [] = []
pretty_rest cols offset (p ∷ ps) =
    spaces offset ++ (wordwrap_print cols offset p ++ pretty_rest cols offset ps)

abbrev pub pretty_pieces : ℕ → ℕ → List Text → Text
pretty_pieces cols offset [] = []
pretty_pieces cols offset (p ∷ ps) = wordwrap_print cols offset p ++ pretty_rest cols offset ps

-- `prettyprint`
pub prettyprint : ℕ → Text → ℕ → Text
prettyprint cols s offset = pretty_pieces cols offset (pieces [] s)

abbrev pub pretty_echo : ℕ → Text → List Text → Text
pretty_echo cols echostr [] = []
pretty_echo cols echostr (p ∷ ps) =
    wordwrap_print_echostr cols echostr p ++ pretty_echo cols echostr ps

-- `prettyprint_echostr`
pub prettyprint_echostr : ℕ → Text → Text → Text
prettyprint_echostr cols s echostr = pretty_echo cols echostr (pieces [] s)
