-- ===== src/Desk.antt =====
-- The command interpreter of input.c on what it keeps in `struct Conn` and the globals of bsf.c. What
-- it asks of the connection, of libotr and of the log is a list of calls; the prompt is left out.
pub mod Send
pub mod Server
pub mod Told
pub mod Predef
pub mod Listed
use bsflite_otr.Base.{
  ◌>>=◌, ℕ, Bool, List, Option, Run, if◌then◌else◌, ◌∷◌, ◌++◌, none, true, not, ◌==◌, [], done,
  choose, some, false, fault, ◌+◌, drop, length,
}
use bsflite_otr.Session.{Text}
use bsflite_otr.Names.{text_eq}
use bsflite_otr.Numerals.{atoi}
use bsflite_otr.Dial.{starts}
use bsflite_otr.Markup.{strip_html}
use bsflite_otr.Netspeak.{undo_netspeak}
use bsflite_otr.Screen.{Client, remove_from_list}

-- The commands of `ic[]`, in the order of the table.
pub data Command : Type 0 where
  send_message get_info get_away get_profile set_predefaway add_buddy delete_buddy set_away :
      Command
  show_help show_log paste quit reconnect set_invisible show_buddies reload_profile question :
      Command
  show_otr stop_otr send_smp_response send_smp_request manual_otr_verify : Command

-- What is asked for: a message to send, to print and to log, a call of imcomm, or a command that is
-- not modelled, with its argument; a new connection, with the argument of `R!`; and for a message that arrives, the answer of a user who is away,
-- what is printed (whether it was encrypted, and whether it is such an answer) and what is logged.
pub data Call : Type 0 where
  send said logged : Text → Text → Call
  add remove : Text → Call
  away : Text → Call
  unaway : Call
  invisible : Bool → Call
  ask_awayprofile ask_awaymsg ask_profile : Text → Call
  log_shown : Text → Call
  profile_reloaded : Call
  connected_again : Text → Call
  other : Command → Text → Call
  auto_reply : Text → Text → Call
  arrived : Text → Bool → Bool → Text → Call
  logged_message : Bool → Text → Text → Call

-- `inputbuf` and what the commands and the keys use of `struct Conn`; `connected` is `conn != NULL`.
pub record Desk : Type 0 where
  pub inputbuf : Text
  pub istyping : Bool
  pub rawinput : Bool
  pub waiting : List Text
  pub lastsn : Option Text
  pub single_log : Bool
  pub netspeak_filter : Bool
  pub connected : Bool
  pub isaway : Bool
  pub awaymsg : Option Text
  pub awaymsgs : List Text
  pub isidle : Bool
  pub respond_idle_only : Bool
  pub otr : Bool
  pub isinvisible : Bool
  pub client : Client
  pub calls : List Call

abbrev pub call : Desk → List Call → Desk
call d cs = record d { calls = d.calls ++ cs }

-- The text before the first blank and the text behind it, by `strchr`.
unfoldable pub split_blank : Text → Option (Text × Text)
split_blank [] = none
split_blank (c ∷ s) =
    let rest = split_blank s in
    if c == b' ' then some ([], s) else choose none (λ (a, b). some (c ∷ a, b)) rest

-- The text that is sent.
pub filtered : Bool → Text → Run Text
filtered true text = undo_netspeak text >>= λ (r : ℕ × Text). done r.1
filtered false text = done text

-- The message as it is sent, and as it is printed, which `input_send_message` computes from it.
pub send_to : Desk → Text → Text → Run Desk
send_to d sn text = do
  msg ← filtered d.netspeak_filter text
  msg_strip ← strip_html msg
  done (call (record d { lastsn = some sn }) (send sn msg ∷ said sn msg_strip ∷ logged sn msg ∷ []))

abbrev pub is_nil : Text → Bool
is_nil [] = true
is_nil (c ∷ s) = false

-- `input_send_message`
pub input_send_message : Desk → Text → Run Desk
input_send_message d arg =
    if not d.connected
    then done d
    else choose (done d) (λ (sn, text). if is_nil text then done d else send_to d sn text)
        (split_blank arg)

-- `input_set_away`
pub input_set_away : Desk → Text → Desk
input_set_away d arg =
    if not d.connected
    then d
    else if d.isaway
    then call (record d { isaway = false; awaymsg = none }) (unaway ∷ [])
    else call (record d { isaway = true; awaymsg = some arg }) (away arg ∷ [])

-- The loop of `input_set_predefaway`.
pub predef_loop : Desk → ℕ → ℕ → List Text → Desk
predef_loop d msgnum count [] = d
predef_loop d msgnum count (m ∷ ms) =
    if count == msgnum
    then call (record d { isaway = true; awaymsg = some m }) (away m ∷ [])
    else predef_loop d msgnum (count + 1) ms

-- `input_set_predefaway`; without an argument the messages are listed.
pub input_set_predefaway : Desk → Text → Desk
input_set_predefaway d arg =
    if not d.connected then d else if is_nil arg then d else predef_loop d (atoi arg) 0 d.awaymsgs

-- `input_set_invisible`, where `imcomm_set_invisible` writes through the connection's pointer.
pub input_set_invisible : Desk → Run Desk
input_set_invisible d =
    if not d.connected
    then fault
    else done
        (call (record d { isinvisible = not d.isinvisible }) (invisible (not d.isinvisible) ∷ []))

-- The commands that only pass their argument on, on a connection.
abbrev ask : Desk → List Call → Desk
ask d cs = if d.connected then call d cs else d

-- `input_delete_buddy`
pub input_delete_buddy : Desk → Text → Desk
input_delete_buddy d arg =
    if d.connected
    then call (record d { client = remove_from_list d.client arg }) (remove arg ∷ [])
    else d

-- `input_show_log`: `ll` is the log of the last buddy.
pub input_show_log : Desk → Text → Desk
input_show_log d arg =
    if text_eq arg (b'l' ∷ [])
    then choose d (λ (sn : Text). call d (log_shown sn ∷ [])) d.lastsn
    else call d (log_shown arg ∷ [])

-- `input_reconnect`, for a client with one connection at most: the old one is deleted with its buddies,
-- and a new one is made and signed on, which is told the away message again, through whose pointer
-- `imcomm_set_away` reads. `isinvisible` stays as it is.
pub connect_again : Desk → Text → Run Desk
connect_again d arg =
    let d' = record d {
      client =
          if d.connected then record d.client { buddies = []; buddiesonline = 0 } else d.client;
      connected = true;
    } in
    if d.isaway
    then choose fault (λ (m : Text). done (call d' (connected_again arg ∷ away m ∷ []))) d.awaymsg
    else done (call d' (connected_again arg ∷ []))

-- The callbacks of the table. `p`, which reads the keyboard and sends what was pasted, `z!`, which reads
-- files, `q!`, those that only print and those of libotr are calls with their argument.
pub run_command : Desk → Command → Text → Run Desk
unfolding input_set_away input_set_predefaway input_set_invisible input_delete_buddy input_show_log
run_command d Command.send_message arg = input_send_message d arg
run_command d Command.get_info arg = done (ask d (ask_awayprofile arg ∷ []))
run_command d Command.get_away arg = done (ask d (ask_awaymsg arg ∷ []))
run_command d Command.get_profile arg = done (ask d (ask_profile arg ∷ []))
run_command d Command.set_predefaway arg = done (input_set_predefaway d arg)
run_command d Command.add_buddy arg = done (ask d (add arg ∷ []))
run_command d Command.delete_buddy arg = done (input_delete_buddy d arg)
run_command d Command.set_away arg = done (input_set_away d arg)
run_command d Command.show_log arg = done (input_show_log d arg)
run_command d Command.set_invisible arg = input_set_invisible d
run_command d Command.reconnect arg = connect_again d arg
run_command d Command.reload_profile arg = done (ask d (profile_reloaded ∷ []))
run_command d c arg = done (call d (other c arg ∷ []))

-- `ic[]`
abbrev pub commands : List (Text × Command)
commands =
    (b'm' ∷ [], Command.send_message)
    ∷ (b'i' ∷ [], Command.get_info)
    ∷ (b'A' ∷ [], Command.get_away)
    ∷ (b'P' ∷ [], Command.get_profile)
    ∷ (b'G' ∷ [], Command.set_predefaway)
    ∷ (b'a' ∷ [], Command.add_buddy)
    ∷ (b'd' ∷ [], Command.delete_buddy)
    ∷ (b'g' ∷ [], Command.set_away)
    ∷ (b'h' ∷ [], Command.show_help)
    ∷ (b'l' ∷ [], Command.show_log)
    ∷ (b'p' ∷ [], Command.paste)
    ∷ (b'q' ∷ b'!' ∷ [], Command.quit)
    ∷ (b'R' ∷ b'!' ∷ [], Command.reconnect)
    ∷ (b'v' ∷ [], Command.set_invisible)
    ∷ (b'w' ∷ [], Command.show_buddies)
    ∷ (b'z' ∷ b'!' ∷ [], Command.reload_profile)
    ∷ (b'?' ∷ [], Command.question)
    ∷ (b'o' ∷ [], Command.show_otr)
    ∷ (b'O' ∷ [], Command.stop_otr)
    ∷ (b's' ∷ [], Command.send_smp_response)
    ∷ (b'S' ∷ [], Command.send_smp_request)
    ∷ (b'M' ∷ [], Command.manual_otr_verify)
    ∷ []

-- The argument of a command: a blank behind its name is passed over.
abbrev pub argument : Text → Text
argument [] = []
argument (c ∷ s) = if c == b' ' then s else c ∷ s

-- The loop of `parse_input`: the first command that the line begins with.
pub command_loop : List (Text × Command) → Text → Option (Command × Text)
command_loop [] line = none
command_loop ((name, c) ∷ cs) line =
    let later = command_loop cs line in
    if starts name line then some (c, argument (drop (length name) line)) else later

-- `parse_input`
pub parse_input : Desk → Run Desk
parse_input d = choose (done d) (λ (c, arg). run_command d c arg) (command_loop commands d.inputbuf)
