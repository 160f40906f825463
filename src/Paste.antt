-- ===== src/Paste.antt =====
-- The command `p` of input.c: `bsf_getline` on the keys that are typed, and `input_paste`. The keys are
-- a list, and where it ends the program waits for more.
pub mod Exact
use bsflite_otr.Base.{
  ◌>>=◌, Run, done, fault, unfinished, ◌==◌, ◌||◌, ◌&&◌, not, ◌++◌, ◌∷◌, [], List, ℕ, zero, suc,
  ◌+◌, ◌-◌, ◌≤◌, ◌<◌, ◌≡◌, ◌≢◌, refl, sym, ap, ◌∙◌, subst, Bool, true, false, Option, none, some,
  length, take, drop, All, ltb, leb, if◌then◌else◌, choose, arith, Bool-cases, Option-cases, inl,
  inr, ◌⊎◌, lt→ltb, ge→ltb, le→leb, gt→leb, ltb_false→le, length-append, ℕ_discrete, dec_le, dec_lt,
  append_assoc, append-nil, map, All-append, suc-ne-zero,
}
use bsflite_otr.Session.{Text}
use bsflite_otr.Keys.{drop_last}
use bsflite_otr.Desk.{is_nil}

-- A line and the keys behind it, or Ctrl-X.
pub data Entry : Type 0 where
  line : Text → List ℕ → Entry
  cancelled : Entry

-- `bsf_getline` with `size - 1` characters of room. A backspace on an empty line counts down from 0 in
-- a size_t: the loop ends, and the NUL is written before the buffer.
pub getline : ℕ → Text → List ℕ → Run Entry
getline room s [] = if ltb (length s) room then unfinished else done (line s [])
getline room s (k ∷ ks) =
    let erased = getline room (drop_last s) ks in
    let longer = getline room (s ++ (k ∷ [])) ks in
    if not (ltb (length s) room)
    then done (line s (k ∷ ks))
    else if (k == 10) || (k == 13)
    then done (line s ks)
    else if k == 24
    then done cancelled
    else if (k == 8) || ((k == 127) || (k == 4))
    then (if is_nil s then fault else erased)
    else longer

abbrev pub br : Text
br = b'<' ∷ b'b' ∷ b'r' ∷ b'>' ∷ []

-- `sendbuf` with one more line, and what is sent before.
pub add_line : ℕ → Text → Text → List Text × Text
add_line most sendbuf s =
    if ltb most (length sendbuf + length s + 4)
    then (sendbuf ∷ [], s)
    else if is_nil sendbuf
    then ([], s)
    else ([], sendbuf ++ (br ++ s))

abbrev pub is_dot : Text → Bool
is_dot (c ∷ []) = c == b'.'
is_dot _ = false

-- The loop of `input_paste`: the messages that are sent, for a limit of `most` characters.
pub paste_loop : ℕ → ℕ → Text → List ℕ → Run (List Text)
paste_loop zero most sendbuf keys = unfinished
paste_loop (suc fuel) most sendbuf keys = do
  entry ← getline (most - 6) [] keys
  elim entry [
    | cancelled ↦ done []
    | line s rest ↦
        (let (out, sendbuf') = add_line most sendbuf s in
          let more = paste_loop fuel most sendbuf' rest in
          if is_dot s
          then done (if is_nil sendbuf then [] else sendbuf ∷ [])
          else (more >>= λ (ms : List Text). done (out ++ ms)))
  ]

-- `input_paste`, for a limit of 6 characters at least, and without NULs among the keys: the messages
-- for the recipient. The limit is read through the connection's pointer before that is tested.
pub input_paste : Bool → ℕ → Text → List ℕ → Run (List Text)
input_paste connected most sn keys =
    if not connected
    then fault
    else if is_nil sn
    then done []
    else paste_loop (suc (length keys)) most [] keys
