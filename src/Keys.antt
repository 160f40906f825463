-- ===== src/Keys.antt =====
-- The keys of the main loop of bsf.c, on the line that is typed. `inputbuf` has 512 bytes: the text in
-- it and zeros behind, so that a text of more than 511 characters is a write outside of it.
pub mod Typed
pub mod Bound
pub mod Message
pub mod Keep
use bsflite_otr.Base.{
  ◌>>=◌, ℕ, Run, ◌∷◌, Bool, List, Option, if◌then◌else◌, true, choose, ◌==◌, false, ◌++◌, done,
  some, ◌||◌, ltb, leb, length, ◌&&◌, [], none, ◌+◌, take, not, fault,
}
use bsflite_otr.Session.{Text}
use bsflite_otr.Dial.{starts}
use bsflite_otr.Screen.{Buddy}
use bsflite_otr.Desk.{Desk, parse_input, is_nil}

-- The cases of the switch.
pub data Key : Type 0 where
  enter toggle_raw clear_line redraw complete erase : Key
  replaced : ℕ → Text → Key
  line_break : Key
  recall plain ignored : Key

-- What a character of markup is replaced by, and the length beyond which it is not taken.
unfoldable pub markup_key : ℕ → Option (ℕ × Text)
markup_key c =
    if c == 34
    then some (507, b'&' ∷ b'q' ∷ b'u' ∷ b'o' ∷ b't' ∷ b';' ∷ [])
    else if c == b'<'
    then some (509, b'&' ∷ b'l' ∷ b't' ∷ b';' ∷ [])
    else if c == b'>'
    then some (509, b'&' ∷ b'g' ∷ b't' ∷ b';' ∷ [])
    else if c == b'&'
    then some (508, b'&' ∷ b'a' ∷ b'm' ∷ b'p' ∷ b';' ∷ [])
    else none

-- The keys below 32, with 127.
unfoldable pub control_key : ℕ → Key
control_key c =
    if (c == 10) || (c == 13)
    then Key.enter
    else if c == 18
    then Key.toggle_raw
    else if c == 21
    then Key.clear_line
    else if c == 12
    then Key.redraw
    else if c == 9
    then Key.complete
    else if (c == 8) || ((c == 127) || (c == 4))
    then Key.erase
    else if c == 2
    then Key.line_break
    else Key.ignored

unfoldable pub key_of : ℕ → Key
key_of c =
    if ltb c 32 || (c == 127)
    then control_key c
    else if (c == b'r') || ((c == b'I') || (c == b'L'))
    then Key.recall
    else choose Key.plain (λ (most, s). Key.replaced most s) (markup_key c)

-- `strcat(inputbuf, s)`
abbrev pub put : Desk → Text → Run Desk
put d s =
    if leb (length d.inputbuf + length s) 511
    then done (record d { inputbuf = d.inputbuf ++ s })
    else fault

-- `addtoinputbuf`
unfoldable pub add_to_inputbuf : Desk → ℕ → Run Desk
add_to_inputbuf d c =
    let d' = record d { istyping = true } in
    if length d.inputbuf == 511 then done d' else put d' (c ∷ [])

-- `if (strlen(inputbuf) > most) break;` and the `strcat` behind it.
abbrev pub put_most : Desk → ℕ → Text → Run Desk
put_most d most s = if ltb most (length d.inputbuf) then done d else put d s

-- `inputbuf[strlen(inputbuf) - 1] = 0`
pub drop_last : Text → Text
drop_last [] = []
drop_last (c ∷ []) = []
drop_last (c ∷ d ∷ s) = c ∷ drop_last (d ∷ s)

-- `r`, `I` and `L` on an empty line; `snprintf` writes 511 characters at most.
pub recall_line : Desk → ℕ → Desk
recall_line d c =
    choose (if d.single_log && (c == b'L') then record d { inputbuf = b'l' ∷ b'g' ∷ [] } else d)
      (λ (sn : Text). record d {
        istyping = true;
        inputbuf = take 511 (
            if c == b'r'
            then b'm' ∷ (sn ++ (b' ' ∷ []))
            else if c == b'I'
            then b'i' ∷ sn
            else b'l' ∷ sn);
      })
      d.lastsn

-- The commands whose argument the tabulator completes.
abbrev pub is_completed : ℕ → Bool
is_completed c =
    (c == b'm')
    || ((c == b'i')
        || ((c == b'l')
            || ((c == b'A')
                || ((c == b'P')
                    || ((c == b'p')
                        || ((c == b's')
                            || ((c == b'O') || ((c == b'S') || ((c == b'M') || (c == b'o'))))))))))

abbrev pub blank_in : Text → Bool
blank_in [] = false
blank_in (c ∷ s) = (c == b' ') || blank_in s

-- The names of the list that begin with what is typed.
pub matches : Text → List Buddy → List Text
matches s [] = []
matches s (b ∷ bs) = if starts s b.sn then b.sn ∷ matches s bs else matches s bs

-- The line with the one name that fits, over what was typed of it.
pub complete_line : Desk → ℕ → Text → List Text → Run Desk
complete_line d c s (sn ∷ []) =
    put (record d { inputbuf = [] }) (c ∷ (sn ++ (if c == b'm' then b' ' ∷ [] else [])))
complete_line d c s found = done d

pub tab : Desk → Text → Run Desk
unfolding matches complete_line
tab d [] = done d
tab d (c ∷ s) =
    if is_completed c && not (blank_in (c ∷ s))
    then complete_line d c s (matches s d.client.buddies)
    else done d

-- The switch of the main loop, for the key that was read.
unfoldable pub act : Desk → ℕ → Key → Run Desk
act d c Key.enter = do
  d' ← parse_input d
  done (record d' { inputbuf = []; istyping = false; rawinput = false; waiting = [] })
act d c Key.toggle_raw = done (record d { rawinput = not d.rawinput })
act d c Key.clear_line = done (record d { inputbuf = []; istyping = false; rawinput = false })
act d c Key.redraw = done d
act d c Key.complete = tab d d.inputbuf
act d c Key.erase = done (
    if is_nil d.inputbuf
    then record d { istyping = false }
    else record d { inputbuf = drop_last d.inputbuf })
act d c (Key.replaced most s) = if d.rawinput then add_to_inputbuf d c else put_most d most s
act d c Key.line_break = put_most d 509 (b'<' ∷ b'b' ∷ b'r' ∷ b'>' ∷ [])
act d c Key.recall = if is_nil d.inputbuf then done (recall_line d c) else add_to_inputbuf d c
act d c Key.plain = add_to_inputbuf d c
act d c Key.ignored = done d

abbrev pub press : Desk → ℕ → Run Desk
press d c = act d c (key_of c)

abbrev pub press_all : Desk → List ℕ → Run Desk
press_all d [] = done d
press_all d (c ∷ cs) = do d' ← press d c; press_all d' cs
