-- ===== src/Markup.antt =====
-- `strip_html` of util.c, which leaves the text of a message: tags are dropped, links and line breaks
-- are spelled out, and character references are replaced.
pub mod Bound
pub mod Escape
use bsflite_otr.Base.{
  choose, ℕ, zero, suc, ◌+◌, Bool, true, false, ◌&&◌, ◌||◌, Option, none, some, List, [], ◌∷◌, ◌++◌,
  length, drop, ltb, ◌==◌, if◌then◌else◌, Run, done, unfinished, ◌>>=◌,
}
use bsflite_otr.Session.{Text}
use bsflite_otr.Names.{to_lower}

-- `strncmp(p, s, strlen(p)) == 0` and `strncasecmp`.
begins : Text → Text → Bool
begins [] s = true
begins (a ∷ p) [] = false
begins (a ∷ p) (c ∷ s) = (a == c) && begins p s

pub begins_folded : Text → Text → Bool
unfolding to_lower
begins_folded [] s = true
begins_folded (a ∷ p) [] = false
begins_folded (a ∷ p) (c ∷ s) = (to_lower a == to_lower c) && begins_folded p s

abbrev pub link : Text
link = b'<' ∷ b'a' ∷ b' ' ∷ b'h' ∷ b'r' ∷ b'e' ∷ b'f' ∷ b'=' ∷ 34 ∷ []

abbrev pub break : Text
break = b'<' ∷ b'b' ∷ b'r' ∷ b'>' ∷ []

-- The address before the next quotation mark, and the text from the mark on.
pub address : Text → Option (Text × Text)
address [] = none
address (c ∷ s) =
    let found = address s in
    if c == 34 then some ([], c ∷ s) else choose none (λ (a, rest). some (c ∷ a, rest)) found

-- What a link becomes, and the text at which the loop goes on; `x + 10 < len` is tested first.
pub open_link : Text → Option (Text × Text)
open_link s =
    let found = address (drop 9 s) in
    if ltb 10 (length s) && begins_folded link s
    then choose none (λ (a, rest). some (b'[' ∷ (a ++ (b']' ∷ b' ' ∷ [])), rest)) found
    else none

-- The character references, each with the number of characters after the `&` and what it becomes.
pub reference : Text → Option (ℕ × ℕ)
reference s =
    if ltb 4 (length s) && begins (b'&' ∷ b'a' ∷ b'm' ∷ b'p' ∷ b';' ∷ []) s
    then some (4, b'&')
    else if ltb 5 (length s) && begins (b'&' ∷ b'q' ∷ b'u' ∷ b'o' ∷ b't' ∷ b';' ∷ []) s
    then some (5, 34)
    else if ltb 5 (length s) && begins (b'&' ∷ b'n' ∷ b'b' ∷ b's' ∷ b'p' ∷ b';' ∷ []) s
    then some (5, b' ')
    else if ltb 3 (length s) && begins (b'&' ∷ b'l' ∷ b't' ∷ b';' ∷ []) s
    then some (3, b'<')
    else if ltb 3 (length s) && begins (b'&' ∷ b'g' ∷ b't' ∷ b';' ∷ []) s
    then some (3, b'>')
    else none

abbrev pub is_newline : ℕ → Bool
is_newline c = (c == 10) || (c == 13)

-- What one round does at a character outside of a tag: the characters it writes, whether a tag is open
-- then, and the text behind. After a link the rest of its tag is passed over.
pub plain_round : ℕ → Text → Text × (Bool × Text)
plain_round c s =
    let no_link =
      if ltb 3 (length (c ∷ s)) && begins_folded break (c ∷ s)
      then (10 ∷ [], (false, drop 3 s))
      else ([], (true, s)) in
    let copied = if is_newline c then ([], (false, s)) else (c ∷ [], (false, s)) in
    if c == b'<'
    then choose no_link (λ (out, rest). (out, (true, drop 1 rest))) (open_link (c ∷ s))
    else choose copied (λ (n, r). (r ∷ [], (false, drop n s)))
        (if c == b'&' then reference (c ∷ s) else none)

-- The loop, from `message + x` on, with `inhtml`.
pub strip_loop : ℕ → Bool → Text → Run Text
strip_loop zero inhtml [] = done []
strip_loop zero inhtml (c ∷ s) = unfinished
strip_loop (suc fuel) inhtml [] = done []
strip_loop (suc fuel) true (c ∷ s) =
    let closed = strip_loop fuel false s in
    let still = strip_loop fuel true s in if c == b'>' then closed else still
strip_loop (suc fuel) false (c ∷ s) =
    let (out, (inhtml, rest)) = plain_round c s in
    (do more ← strip_loop fuel inhtml rest; done (out ++ more))

-- `strip_html`
pub strip_html : Text → Run Text
strip_html message = strip_loop (length message) false message
