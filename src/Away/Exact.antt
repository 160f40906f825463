-- ===== src/Away/Exact.antt =====
-- A file of away messages is read line by line, and `G` takes one by its number.
use bsflite_otr.Base.{
  ◌>>=◌, done, ◌++◌, ◌∷◌, [], List, ℕ, zero, suc, ◌≤◌, ◌<◌, ◌≡◌, refl, ap, ◌∙◌, true, false, some,
  length, All, arith, length-append,
}
use bsflite_otr.Session.{Text}
use bsflite_otr.Numerals.{atoi}
use bsflite_otr.Settings.RoundTrip.{IsPlain, fgets-line, c_string-line, before-break}
use bsflite_otr.Desk.{Desk, is_nil, input_set_predefaway, away}
use bsflite_otr.Desk.Predef.{input_set_predefaway-at}
use bsflite_otr.Away.{away_lines, read_away_messages}

abbrev pub IsMessage : Text → Type 0
IsMessage m = All IsPlain m × (is_nil m ≡ false) × (length m < 1023)

abbrev pub lines : List Text → Text
lines [] = []
lines (m ∷ ms) = m ++ (10 ∷ lines ms)

away_lines-line :
    (fuel : ℕ) (m rest : Text)
    → IsMessage m
    → away_lines (suc fuel) (m ++ (10 ∷ rest))
      ≡ (away_lines fuel rest >>= λ (ms : List Text). done (m ∷ ms))
unfolding away_lines
away_lines-line fuel [] rest (v, more, fits) = absurd (ground arith)
away_lines-line fuel (c ∷ m) rest (v, more, fits) =
    rw (fgets-line 1023 (c ∷ m) rest v fits, c_string-line (c ∷ m) v, before-break (c ∷ m) v) refl

away_lines-lines :
    (fuel : ℕ) (ms : List Text)
    → All IsMessage ms
    → length ms < fuel
    → away_lines fuel (lines ms) ≡ done ms
unfolding away_lines
away_lines-lines zero ms vs enough = absurd (omega arith)
away_lines-lines (suc fuel) [] vs enough = refl
away_lines-lines (suc fuel) (m ∷ ms) (v, vs) enough =
    away_lines-line fuel m (lines ms) v
    ∙ ap (λ r. r >>= λ (ns : List Text). done (m ∷ ns)) (away_lines-lines fuel ms vs (omega arith))

length-lines : (ms : List Text) → length ms ≤ length (lines ms)
length-lines [] = omega arith
length-lines (m ∷ ms) = omega (arith, length-lines ms, length-append m (10 ∷ lines ms))

-- A file of messages, each on a line, that are not empty, have less than 1023 characters and no NUL or
-- break among them, and a desk on a connection: after `read_away_messages`, the number of a message,
-- counted from 0, as the argument of `G` makes that message the away message and sends it.
pub read_away_messages_lem :
    (d : Desk) (ms ns : List Text) (m arg : Text)
    → All IsMessage (ms ++ (m ∷ ns))
    → d.connected ≡ true
    → is_nil arg ≡ false
    → atoi arg ≡ length ms
    → (d' : Desk) × (read_away_messages d (some (lines (ms ++ (m ∷ ns)))) ≡ done d')
      × (d'.awaymsgs ≡ ms ++ (m ∷ ns))
      × (input_set_predefaway d' arg
          ≡ record d' { isaway = true; awaymsg = some m; calls = d.calls ++ (away m ∷ []) })
unfolding read_away_messages
read_away_messages_lem d ms ns m arg vs on given e =
    let all = ms ++ (m ∷ ns) in
    (
      record d { awaymsgs = all },
      ap (λ r. r >>= λ (ms : List Text). done (record d { awaymsgs = ms }))
          (away_lines-lines (suc (length (lines all))) all vs (omega (arith, length-lines all))),
      refl,
      input_set_predefaway-at (record d { awaymsgs = all }) arg m ms ns refl on given e,
    )
