-- ===== src/Desk/Send.antt =====
-- What `parse_input` makes of a line that sends a message.
use bsflite_otr.Base.{done, ◌==◌, ◌++◌, ◌∷◌, [], ℕ, ◌≡◌, refl, true, false, some, All}
use bsflite_otr.Session.{Text}
use bsflite_otr.Dial.{starts}
use bsflite_otr.Markup.{strip_html}
use bsflite_otr.Desk.{
  Desk, send, said, logged, call, split_blank, send_to, filtered, is_nil, input_send_message,
  run_command, command_loop, parse_input, starts,
}

-- No blank.
abbrev pub NoBlank : ℕ → Type 0
NoBlank c = (c == b' ') ≡ false

split_blank-at :
    (sn text : Text) → All NoBlank sn → split_blank (sn ++ (b' ' ∷ text)) ≡ some (sn, text)
unfolding split_blank
split_blank-at [] text v = refl
split_blank-at (c ∷ sn) text (v, vs) = rw (v, split_blank-at sn text vs) refl

-- The line `m`, a name without blanks, a blank and a text.
pub parse_input-message :
    (d : Desk) (c : ℕ) (sn text : Text)
    → d.connected ≡ true
    → All NoBlank (c ∷ sn)
    → is_nil text ≡ false
    → parse_input (record d { inputbuf = b'm' ∷ ((c ∷ sn) ++ (b' ' ∷ text)) })
      ≡ send_to (record d { inputbuf = b'm' ∷ ((c ∷ sn) ++ (b' ' ∷ text)) }) (c ∷ sn) text
unfolding parse_input command_loop starts run_command input_send_message
parse_input-message d c sn text on (v, vs) more =
    rw (v, on, split_blank-at (c ∷ sn) text (v, vs), more) refl

-- Without the filter of abbreviations, the text is sent as it stands, and printed without its markup.
pub send_to-plain :
    (d : Desk) (sn text out : Text)
    → d.netspeak_filter ≡ false
    → strip_html text ≡ done out
    → send_to d sn text
      ≡ done
          (call (record d { lastsn = some sn }) (send sn text ∷ said sn out ∷ logged sn text ∷ []))
unfolding send_to filtered
send_to-plain d sn text out off e = rw (off, e) refl
