-- ===== src/Tests/Clients.antt =====
-- The client at work: messages that arrive, calls that are carried out, keys and callbacks.
use bsflite_otr.Base.{
  Always, done, ◌∷◌, [], List, ◌≤◌, ◌≡◌, refl, true, false, none, some, arith, ◌>>=◌, ◌+◌, Bool,
  if◌then◌else◌, ℕ,
}
use bsflite_otr.Session.{Text, Event}
use bsflite_otr.Tests.Samples.{world, session, bob}
use bsflite_otr.Arrive.{Libotr, untouched, is_waiting, getmessages}
use bsflite_otr.Arrive.Keep.{replies, IsSmall}
use bsflite_otr.Arrive.Once.{getmessages_lem}
use bsflite_otr.Perform.{Sending, perform_all}
use bsflite_otr.Perform.Message.{perform_all-press_all}
use bsflite_otr.Flap.{snac_send}
use bsflite_otr.Packet.Write.{wire_all}
use bsflite_otr.Incoming.{message_fields}
use bsflite_otr.Desk.{Desk, away}
use bsflite_otr.Desk.Server.{IsTold}
use bsflite_otr.Keys.{markup_key, key_of, press_all, act, add_to_inputbuf, control_key}
use bsflite_otr.Tests.Typing.{desk, formula, escaped}
use bsflite_otr.Runs.{deliver, key, callback, start, next}
use bsflite_otr.Idle.{Seat, Input, rounds}
use bsflite_otr.Idle.Reports.{IsReported, rounds-IsReported}
use bsflite_otr.Runs.Keep.{IsGood, Reaches-IsGood}
use bsflite_otr.Screen.{buddy_online}

-- libotr leaves every message as it is.
abbrev no_libotr : Libotr
no_libotr b message = untouched

no_libotr-IsSmall : IsSmall no_libotr
no_libotr-IsSmall b message = omega arith

-- Bob writes twice while the user is out.
abbrev knocks : List (Text × Bool × Text)
knocks = (bob, false, b'h' ∷ b'i' ∷ []) ∷ (bob, false, b'?' ∷ []) ∷ []

abbrev out : Desk
out = record desk { isaway = true; awaymsg = some (b'o' ∷ []); calls = away (b'o' ∷ []) ∷ [] }

getmessages_lem_example :
    (d' : Desk) × (getmessages no_libotr out knocks ≡ done d')
    × IsTold d'
    × (replies bob d'.calls ≤ replies bob out.calls + (if is_waiting bob out.waiting then 0 else 1))
getmessages_lem_example =
    getmessages_lem no_libotr bob out knocks no_libotr-IsSmall (omega arith, (omega arith, tt))
      (record { flag = refl; message = refl; visibility = refl })

perform_all-press_all_example :
    (press_all desk (b'm' ∷ b'b' ∷ b' ' ∷ b'a' ∷ b'<' ∷ b'b' ∷ 10 ∷ []) >>= λ (d' : Desk).
    perform_all world (λ b msg. Sending.untouched) 0 d' session d'.calls)
    ≡ (snac_send world session 0x04 0x06 (wire_all (message_fields (b'b' ∷ []) escaped false)) true
        >>= λ (status, h'). done h')
unfolding markup_key
perform_all-press_all_example =
    perform_all-press_all world (λ b msg. Sending.untouched) 0 desk session b'b' [] formula refl
      refl refl refl refl refl ((refl, refl, refl), tt) (refl, (refl, (refl, tt))) refl
      (omega arith)

-- Bob signs on and the user begins a line.
abbrev greeted : Desk
greeted = record desk { client = buddy_online (λ sn. none) desk.client bob }

desk-IsGood : IsGood desk
desk-IsGood = (
  (
    record { flag = refl; message = refl; visibility = refl },
    record { sorted = (tt, tt); counted = refl },
  ),
  omega arith,
)

Reaches-IsGood_example : IsGood (record greeted { istyping = true; inputbuf = b'h' ∷ [] })
unfolding act key_of control_key markup_key add_to_inputbuf deliver
Reaches-IsGood_example =
    Reaches-IsGood (λ sn. none) no_libotr desk
      (record greeted { istyping = true; inputbuf = b'h' ∷ [] })
      (next (next start (callback (Event.signon bob) desk greeted tt refl))
        (key b'h' greeted (record greeted { istyping = true; inputbuf = b'h' ∷ [] }) refl))
      no_libotr-IsSmall desk-IsGood

abbrev seat : Seat
seat = record {
  desk = desk;
  report_idle = true;
  idle_rep_time = 600;
  last_keystroke_time = 0;
  reports = [];
}

-- The memory of `nchr` still holds the 1 of the key before.
abbrev long_pause : List (Input × ℕ × ℕ × ℕ)
long_pause = (Input.key b'h', 10, 10, 10) ∷ (Input.no_key 1, 7000, 7000, 7001) ∷ []

rounds-IsReported_example : Always (IsReported world session) (rounds seat long_pause)
rounds-IsReported_example =
    rounds-IsReported world session seat long_pause
      ((omega arith, omega arith), ((omega arith, omega arith), tt))
      (refl, omega arith, omega arith, refl)
