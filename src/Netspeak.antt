-- ===== src/Netspeak.antt =====
-- cleaner.c: `undo_netspeak`, which spells abbreviations out. Its first loop computes the length of the
-- result, and its second one writes it into a buffer of that length.
pub mod Exact
use bsflite_otr.Base.{
  choose, ℕ, zero, suc, ◌+◌, ◌-◌, ◌%◌, Bool, true, false, ◌&&◌, ◌||◌, Option, none, some, List, [],
  ◌∷◌, ◌++◌, length, drop, Run, done, unfinished, ◌>>=◌, leb, ◌==◌, if◌then◌else◌,
}
use bsflite_otr.Packet.{size_mod}
use bsflite_otr.Session.{Text}

-- `struct WordTable`
pub record Word : Type 0 where
  pub orig : Text
  pub clean : Text

abbrev entry : Text → Text → Word
entry o c = record { orig = o; clean = c }

-- `table`, without the NULL entry at its end.
pub table : List Word
table =
    entry (b'u' ∷ []) (b'y' ∷ b'o' ∷ b'u' ∷ [])
    ∷ entry (b'r' ∷ []) (b'a' ∷ b'r' ∷ b'e' ∷ [])
    ∷ entry (b'i' ∷ []) (b'I' ∷ [])
    ∷ entry (b'c' ∷ []) (b's' ∷ b'e' ∷ b'e' ∷ [])
    ∷ entry (b'i' ∷ b'c' ∷ []) (b'I' ∷ b' ' ∷ b's' ∷ b'e' ∷ b'e' ∷ [])
    ∷ entry (b'i' ∷ 39 ∷ b'm' ∷ []) (b'I' ∷ 39 ∷ b'm' ∷ [])
    ∷ entry (b'i' ∷ 39 ∷ b'd' ∷ []) (b'I' ∷ 39 ∷ b'd' ∷ [])
    ∷ entry (b'i' ∷ b'v' ∷ b'e' ∷ []) (b'I' ∷ 39 ∷ b'v' ∷ b'e' ∷ [])
    ∷ entry (b'i' ∷ 39 ∷ b'v' ∷ b'e' ∷ []) (b'I' ∷ 39 ∷ b'v' ∷ b'e' ∷ [])
    ∷ entry (b'i' ∷ 39 ∷ b'l' ∷ b'l' ∷ []) (b'I' ∷ 39 ∷ b'l' ∷ b'l' ∷ [])
    ∷ entry (b'i' ∷ b'd' ∷ b'k' ∷ [])
        (b'I' ∷ b' ' ∷ b'd' ∷ b'o' ∷ b'n' ∷ 39 ∷ b't' ∷ b' ' ∷ b'k' ∷ b'n' ∷ b'o' ∷ b'w' ∷ [])
    ∷ entry (b'I' ∷ b'D' ∷ b'K' ∷ [])
        (b'I' ∷ b' ' ∷ b'd' ∷ b'o' ∷ b'n' ∷ 39 ∷ b't' ∷ b' ' ∷ b'k' ∷ b'n' ∷ b'o' ∷ b'w' ∷ [])
    ∷ entry (b'u' ∷ b'r' ∷ []) (b'y' ∷ b'o' ∷ b'u' ∷ 39 ∷ b'r' ∷ b'e' ∷ [])
    ∷ entry (b'n' ∷ b'e' ∷ b'1' ∷ []) (b'a' ∷ b'n' ∷ b'y' ∷ b'o' ∷ b'n' ∷ b'e' ∷ [])
    ∷ entry (b'o' ∷ b'm' ∷ b'g' ∷ [])
        (b'o' ∷ b'h' ∷ b' ' ∷ b'm' ∷ b'y' ∷ b' ' ∷ b'g' ∷ b'o' ∷ b'd' ∷ b',' ∷ [])
    ∷ entry (b't' ∷ b'e' ∷ b'h' ∷ []) (b't' ∷ b'h' ∷ b'e' ∷ [])
    ∷ entry (b'c' ∷ b'u' ∷ b'z' ∷ []) (b'b' ∷ b'e' ∷ b'c' ∷ b'a' ∷ b'u' ∷ b's' ∷ b'e' ∷ [])
    ∷ entry (b'h' ∷ b't' ∷ b'e' ∷ []) (b't' ∷ b'h' ∷ b'e' ∷ [])
    ∷ entry (b't' ∷ b'a' ∷ b'h' ∷ b't' ∷ []) (b't' ∷ b'h' ∷ b'a' ∷ b't' ∷ [])
    ∷ entry (b'f' ∷ b'u' ∷ b'n' ∷ b'n' ∷ b'a' ∷ b'y' ∷ []) (b'f' ∷ b'u' ∷ b'n' ∷ b'n' ∷ b'y' ∷ [])
    ∷ entry (b'd' ∷ b'0' ∷ b'0' ∷ b'd' ∷ []) (b'd' ∷ b'u' ∷ b'd' ∷ b'e' ∷ [])
    ∷ entry (b'd' ∷ b'o' ∷ b'o' ∷ b'd' ∷ []) (b'd' ∷ b'u' ∷ b'd' ∷ b'e' ∷ [])
    ∷ entry (b'l' ∷ b'i' ∷ b'e' ∷ b'k' ∷ []) (b'l' ∷ b'i' ∷ b'k' ∷ b'e' ∷ [])
    ∷ entry (b'o' ∷ b's' ∷ b'm' ∷ b'e' ∷ b't' ∷ b'h' ∷ b'i' ∷ b'n' ∷ b'g' ∷ [])
        (b's' ∷ b'o' ∷ b'm' ∷ b'e' ∷ b't' ∷ b'h' ∷ b'i' ∷ b'n' ∷ b'g' ∷ [])
    ∷ []

-- `strncmp(a, s, strlen(a)) == 0`
pub prefix : Text → Text → Bool
prefix [] s = true
prefix (a ∷ rest) [] = false
prefix (a ∷ rest) (c ∷ s) = (a == c) && prefix rest s

-- The characters that end a word, and the end of the string.
abbrev is_stop : ℕ → Bool
is_stop c = (c == b' ') || (c == 0) || (c == b'.') || (c == b',') || (c == b'?') || (c == b'!')

abbrev at_stop : Text → Bool
at_stop [] = true
at_stop (c ∷ s) = is_stop c

-- The first entry that stands at the start of the text as a word: the tests of the first loop, and
-- those of the second one in their order.
pub count_word : List Word → Text → Option Word
count_word [] s = none
count_word (w ∷ ws) s =
    let rest = count_word ws s in
    if prefix w.orig s then (if at_stop (drop (length w.orig) s) then some w else rest) else rest

pub write_word : List Word → Text → Option Word
write_word [] s = none
write_word (w ∷ ws) s =
    let rest = write_word ws s in
    if leb (length w.orig) (length s)
    then (if at_stop (drop (length w.orig) s)
        then (if prefix w.orig s then some w else rest)
        else rest)
    else rest

-- `strchr(spcptr, ' ') + 1`
pub after_blank : Text → Option Text
after_blank [] = none
after_blank (c ∷ s) = if c == b' ' then some s else after_blank s

-- `newlen += (ssize_t) strlen(clean) - len`
abbrev pub grow : Option Word → ℕ → ℕ
grow none newlen = newlen
grow (some w) newlen = (newlen + length w.clean + (size_mod - length w.orig)) % size_mod

-- The first loop; a text of n characters has n + 1 words at most.
pub length_loop : ℕ → Text → ℕ → Run ℕ
length_loop zero s newlen = unfinished
length_loop (suc fuel) s newlen =
    let newlen' = grow (count_word table s) newlen in
    choose (done newlen') (λ t. length_loop fuel t newlen') (after_blank s)

-- Whether the last character of a word is a blank.
abbrev pub ends_blank : Text → Bool
ends_blank [] = false
ends_blank (c ∷ []) = c == b' '
ends_blank (c ∷ (d ∷ s)) = ends_blank (d ∷ s)

-- The second loop, from `orig + x` on; `start` says that x is 0 or a blank stands before it.
pub write_loop : ℕ → Bool → Text → Run Text
write_loop fuel start [] = done []
write_loop zero start (c ∷ s) = unfinished
write_loop (suc fuel) false (c ∷ s) = do out ← write_loop fuel (c == b' ') s; done (c ∷ out)
write_loop (suc fuel) true (c ∷ s) =
    let keep = (do out ← write_loop fuel (c == b' ') s; done (c ∷ out)) in
    let replace = λ (w : Word). (do
      out ← write_loop fuel (ends_blank w.orig) (drop (length w.orig) (c ∷ s))
      done (w.clean ++ out)) in
    choose keep replace (write_word table (c ∷ s))

-- `undo_netspeak`: the length for which it allocates memory, and the text.
pub undo_netspeak : Text → Run (ℕ × Text)
undo_netspeak orig = do
  newlen ← length_loop (suc (length orig)) orig (length orig)
  cleaned ← write_loop (length orig) true orig
  done (newlen, cleaned)
