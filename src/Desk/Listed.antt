-- ===== src/Desk/Listed.antt =====
-- What the commands do to the buddy list, and that they leave the flag `isidle` alone.
use bsflite_otr.Base.{
  true, fault, if◌then◌else◌, Always, Always-bind, if-holds, choose-holds, done, ◌==◌, not, ◌∷◌, [],
  List, ℕ, ◌+◌, Bool,
}
use bsflite_otr.Session.{Text}
use bsflite_otr.Names.{text_eq}
use bsflite_otr.Markup.{strip_html}
use bsflite_otr.Screen.{Client, remove_from_list}
use bsflite_otr.Desk.{
  Desk, Command, is_nil, filtered, send_to, split_blank, input_send_message, predef_loop,
  run_command, command_loop, commands, parse_input, connect_again,
}

-- A property of the buddy list, of the flag that the user is idle, and of whether there is a connection.
abbrev pub Listed : (Client → Bool → Bool → Type 0) → Desk → Type 0
Listed Q d = Q d.client d.isidle d.connected

module _ (Q : Client → Bool → Bool → Type 0)
    (removed : (c : Client) (idle on : Bool) (who : Text)
      → Q c idle on
      → Q (remove_from_list c who) idle on)
    (renewed : (c : Client) (idle on : Bool)
      → Q c idle on
      → Q (if on then record c { buddies = []; buddiesonline = 0 } else c) idle true) where
  send_to-Listed : (d : Desk) (sn text : Text) → Listed Q d → Always (Listed Q) (send_to d sn text)
  unfolding send_to
  send_to-Listed d sn text v =
      Always-bind (Listed Q) (filtered d.netspeak_filter text) _
        (λ msg. Always-bind (Listed Q) (strip_html msg) _ (λ out. v))

  input_send_message-Listed :
      (d : Desk) (arg : Text) → Listed Q d → Always (Listed Q) (input_send_message d arg)
  unfolding input_send_message
  input_send_message-Listed d arg v = if-holds (Always (Listed Q)) (not d.connected) _ _ v (
      choose-holds (Always (Listed Q)) (done d) _ (split_blank arg) v (λ (sn, text).
        if-holds (Always (Listed Q)) (is_nil text) _ _ v (send_to-Listed d sn text v)))

  predef_loop-Listed :
      (d : Desk) (n count : ℕ) (ms : List Text) → Listed Q d → Listed Q (predef_loop d n count ms)
  unfolding predef_loop
  predef_loop-Listed d n count [] v = v
  predef_loop-Listed d n count (m ∷ ms) v =
      if-holds (Listed Q) (count == n) _ _ v (predef_loop-Listed d n (count + 1) ms v)

  run_command-Listed :
      (d : Desk) (c : Command) (arg : Text) → Listed Q d → Always (Listed Q) (run_command d c arg)
  unfolding run_command connect_again
  run_command-Listed d Command.send_message arg v = input_send_message-Listed d arg v
  run_command-Listed d Command.get_info arg v = if-holds (Listed Q) d.connected _ _ v v
  run_command-Listed d Command.get_away arg v = if-holds (Listed Q) d.connected _ _ v v
  run_command-Listed d Command.get_profile arg v = if-holds (Listed Q) d.connected _ _ v v
  run_command-Listed d Command.set_predefaway arg v =
      if-holds (Listed Q) (not d.connected) _ _ v
        (if-holds (Listed Q) (is_nil arg) _ _ v (predef_loop-Listed d _ 0 d.awaymsgs v))
  run_command-Listed d Command.add_buddy arg v = if-holds (Listed Q) d.connected _ _ v v
  run_command-Listed d Command.delete_buddy arg v =
      if-holds (Listed Q) d.connected _ _ (removed d.client d.isidle d.connected arg v) v
  run_command-Listed d Command.set_away arg v =
      if-holds (Listed Q) (not d.connected) _ _ v (if-holds (Listed Q) d.isaway _ _ v v)
  run_command-Listed d Command.show_log arg v =
      if-holds (Listed Q) (text_eq arg (b'l' ∷ [])) _ _
        (choose-holds (Listed Q) d _ d.lastsn v (λ sn. v)) v
  run_command-Listed d Command.set_invisible arg v =
      if-holds (Always (Listed Q)) (not d.connected) _ _ tt v
  run_command-Listed d Command.reconnect arg v =
      let v' = renewed d.client d.isidle d.connected v in
      if-holds (Always (Listed Q)) d.isaway _ _
        (choose-holds (Always (Listed Q)) fault _ d.awaymsg tt (λ m. v')) v'
  run_command-Listed d Command.reload_profile arg v = if-holds (Listed Q) d.connected _ _ v v
  run_command-Listed d c arg v = v

  pub parse_input-Listed : (d : Desk) → Listed Q d → Always (Listed Q) (parse_input d)
  unfolding parse_input
  parse_input-Listed d v =
      choose-holds (Always (Listed Q)) (done d) _ (command_loop commands d.inputbuf) v
        (λ (c, arg). run_command-Listed d c arg v)
