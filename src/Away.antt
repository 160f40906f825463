-- ===== src/Away.antt =====
-- The away messages of a file: `read_away_messages` of away.c.
pub mod Exact
use bsflite_otr.Base.{
  ◌>>=◌, Run, done, fault, unfinished, ◌==◌, ◌||◌, ◌&&◌, not, ◌++◌, ◌∷◌, [], List, ℕ, zero, suc,
  ◌+◌, ◌-◌, ◌≤◌, ◌<◌, ◌≡◌, ◌≢◌, refl, sym, ap, ◌∙◌, subst, Bool, true, false, Option, none, some,
  length, take, drop, All, ltb, leb, if◌then◌else◌, choose, arith, Bool-cases, Option-cases, inl,
  inr, ◌⊎◌, lt→ltb, ge→ltb, le→leb, gt→leb, ltb_false→le, length-append, ℕ_discrete, dec_le, dec_lt,
  append_assoc, append-nil, map, All-append, suc-ne-zero,
}
use bsflite_otr.Session.{Text}
use bsflite_otr.Names.{c_string}
use bsflite_otr.Settings.{fgets, before}
use bsflite_otr.Desk.{Desk, is_nil}

-- The line that was read, up to its line feed.
abbrev pub message_of : Text → Text
message_of s = choose s (λ (t : Text). t) (before 10 s)

-- The loop: it ends at the end of the file or at an empty line.
pub away_lines : ℕ → Text → Run (List Text)
away_lines zero file = unfinished
away_lines (suc fuel) [] = done []
away_lines (suc fuel) (c ∷ s) =
    let (line, rest) = fgets 1023 (c ∷ s) in
    let msg = message_of (c_string line) in
    let more = away_lines fuel rest in
    if is_nil msg then done [] else (more >>= λ (ms : List Text). done (msg ∷ ms))

-- `read_away_messages`, where `file` is what `fopen` finds.
pub read_away_messages : Desk → Option Text → Run Desk
read_away_messages d none = done d
read_away_messages d (some file) = do
  ms ← away_lines (suc (length file)) file
  done (record d { awaymsgs = ms })
