-- ===== src/Tests/Texts.antt =====
-- Texts at one input each.
use bsflite_otr.Base.{List, none, some, true, false, refl, ◌%◌, ◌≡◌, [], ◌∷◌, length, done, arith}
use bsflite_otr.Packet.{size_mod}
use bsflite_otr.Session.{Text, Proxy}
use bsflite_otr.Settings.{Token, Settings, read_conf}
use bsflite_otr.Settings.Total.{Returns, read_conf-Returns}
use bsflite_otr.Settings.Meaning.{outcome_of, settings_of, read_conf-written}
use bsflite_otr.Settings.RoundTrip.{written}
use bsflite_otr.Netspeak.{undo_netspeak}
use bsflite_otr.Netspeak.Exact.{undo_netspeak_lem}

-- "c u"
abbrev see_you : Text
see_you = b'c' ∷ b' ' ∷ b'u' ∷ []

undo_netspeak_lem_example :
    (cleaned : Text) × (undo_netspeak see_you ≡ done (length cleaned % size_mod, cleaned))
undo_netspeak_lem_example = undo_netspeak_lem see_you (omega arith)

-- A line break inside bold type.
abbrev bold : Text
bold = b'<' ∷ b'b' ∷ b'>' ∷ b'h' ∷ b'i' ∷ b'<' ∷ b'b' ∷ b'r' ∷ b'>' ∷ b'<' ∷ b'/' ∷ b'b' ∷ b'>' ∷ []

abbrev pub defaults : Settings
defaults = record {
  username = none;
  password = none;
  proxy = none;
  proxyport = 0;
  proxytype = Proxy.direct;
  oscarport = 5190;
  single_log = false;
  squelchaway = false;
  squelchidle = false;
  squelchconnect = false;
  respond_idle_only = false;
  report_idle = true;
  netspeak_filter = false;
  set_window_title = true;
  timestamps = true;
  bell_on_incoming = false;
  idle_rep_time = 10;
  colors = true;
  auto_reconnect = 0;
  otr = false;
}

-- A user, a port, and one setting in capitals.
abbrev lines : List (Token × Text)
lines =
    (Token.username, b'a' ∷ b'n' ∷ b'n' ∷ [])
    ∷ (Token.port, b'4' ∷ b'4' ∷ b'3' ∷ [])
    ∷ (Token.otr, b'T' ∷ b'R' ∷ b'U' ∷ b'E' ∷ [])
    ∷ []

read_conf-written_example :
    read_conf defaults (some (written lines)) ≡ done (outcome_of lines, settings_of defaults lines)
read_conf-written_example = read_conf-written defaults lines (
  (((refl, refl, refl), ((refl, refl, refl), ((refl, refl, refl), tt))), omega arith),
  (
    (((refl, refl, refl), ((refl, refl, refl), ((refl, refl, refl), tt))), omega arith),
    (
      (
        ((refl, refl, refl), ((refl, refl, refl), ((refl, refl, refl), ((refl, refl, refl), tt)))),
        omega arith,
      ),
      tt,
    ),
  ),
)

read_conf-Returns_example : Returns defaults (read_conf defaults (some (written lines)))
read_conf-Returns_example = read_conf-Returns defaults (some (written lines))
