-- ===== src/Desk/Told.antt =====
-- What the commands leave of what the server has been told.
use bsflite_otr.Base.{
  sym, choose, if-holds, choose-holds, length-drop, choose-OnSome, OnSome, Run, done, fault,
  unfinished, ◌==◌, not, ◌∷◌, [], List, ℕ, suc, ◌+◌, ◌≤◌, ◌<◌, ◌≡◌, refl, ◌∙◌, Bool, true, false,
  Option, none, some, length, drop, if◌then◌else◌, arith,
}
use bsflite_otr.Packet.{size_mod}
use bsflite_otr.Markup.Bound.{strip_html-le}
use bsflite_otr.Netspeak.Exact.{undo_netspeak_lem}
use bsflite_otr.Numerals.{atoi}
use bsflite_otr.Dial.{starts}
use bsflite_otr.Screen.{remove_from_list}
use bsflite_otr.Session.{Text}
use bsflite_otr.Names.{text_eq}
use bsflite_otr.Desk.Server.{
  told_away-append, is_some, IsTold, Silent, Agrees-append, call-IsTold, went_away-IsTold,
  came_back-IsTold,
}
use bsflite_otr.Desk.{
  Desk, Call, Command, away, invisible, call, send_to, split_blank, is_nil, filtered, send, said,
  logged, remove, log_shown, connected_again, connect_again, argument, input_send_message,
  input_set_away, predef_loop, input_set_predefaway, input_delete_buddy, input_show_log, ask,
  run_command, parse_input, commands, command_loop,
}

predef_loop-IsTold :
    (d : Desk) (msgnum count : ℕ) (ms : List Text)
    → IsTold d
    → IsTold (predef_loop d msgnum count ms)
unfolding predef_loop
predef_loop-IsTold d msgnum count [] v = v
predef_loop-IsTold d msgnum count (m ∷ ms) v =
    if-holds IsTold (count == msgnum) _ _ (went_away-IsTold d m v)
      (predef_loop-IsTold d msgnum (count + 1) ms v)

-- After a line: a state in which this holds, or, on no connection, a write through a null pointer.
abbrev pub After : Desk → Run Desk → Type 0
After d (done d') = IsTold d'
After d fault = d.connected ≡ false
After d unfinished = ⊥

pub filtered_total :
    (on : Bool) (text : Text) → length text < size_mod → (t : Text) × (filtered on text ≡ done t)
unfolding filtered
filtered_total true text small = let (t, e) = undo_netspeak_lem text small in (t, rw e refl)
filtered_total false text small = (text, refl)

send_to-After :
    (d e : Desk) (sn text : Text) → length text < size_mod → IsTold d → After e (send_to d sn text)
unfolding send_to
send_to-After d e sn text small v =
    let (msg, e1) = filtered_total d.netspeak_filter text small in
    let (out, e2, h2) = strip_html-le msg in
    rw (e1, e2)
      (call-IsTold (record d { lastsn = some sn }) (send sn msg ∷ said sn out ∷ logged sn msg ∷ [])
        ((λ m. refl), (λ b. refl))
        (record { flag = v.flag; message = v.message; visibility = v.visibility }))

length-split_blank :
    (s : Text) → OnSome (λ (r : Text × Text). length (r.1) ≤ length s) (split_blank s)
unfolding split_blank
length-split_blank [] = tt
length-split_blank (c ∷ s) =
    if-holds (OnSome (λ (r : Text × Text). length (r.1) ≤ suc (length s))) (c == b' ') _ _
      (omega arith)
      (choose-OnSome (λ (r : Text × Text). length (r.1) ≤ length s)
        (OnSome (λ (r : Text × Text). length (r.1) ≤ suc (length s))) none
        (λ (a, b). some (c ∷ a, b)) (split_blank s) tt (λ r e. omega (arith, e))
        (length-split_blank s))

input_send_message-After :
    (d : Desk) (arg : Text) → length arg < size_mod → IsTold d → After d (input_send_message d arg)
unfolding input_send_message
input_send_message-After d arg small v = if-holds (After d) (not d.connected) _ _ v (
    choose-OnSome (λ (r : Text × Text). length (r.1) ≤ length arg) (After d) (done d)
      (λ (sn, text). if is_nil text then done d else send_to d sn text) (split_blank arg) v
      (λ (sn, text) h.
        if-holds (After d) (is_nil text) _ _ v (send_to-After d d sn text (omega (arith, h)) v))
      (length-split_blank arg))

input_set_away-IsTold : (d : Desk) (arg : Text) → IsTold d → IsTold (input_set_away d arg)
unfolding input_set_away
input_set_away-IsTold d arg v =
    if-holds IsTold (not d.connected) _ _ v
      (if-holds IsTold d.isaway _ _ (came_back-IsTold d v) (went_away-IsTold d arg v))

toggled-After :
    (d : Desk) (on : Bool)
    → d.connected ≡ on
    → IsTold d
    → After d (
        if not on
        then fault
        else done (
            call
              (record d { isinvisible = not d.isinvisible })
              (invisible (not d.isinvisible) ∷ [])))
toggled-After d true e v = record {
  flag = v.flag;
  message = told_away-append none d.calls (invisible (not d.isinvisible) ∷ []) ∙ v.message;
  visibility = Agrees-append d.calls (invisible (not d.isinvisible) ∷ []) (not d.isinvisible) refl;
}
toggled-After d false e v = e

-- The new connection and the away message that it is told.
again-After :
    (d d' : Desk) (arg : Text) (away_now : Bool) (m : Option Text)
    → away_now ≡ is_some m
    → d'.isaway ≡ is_some d'.awaymsg
    → d'.awaymsg ≡ m
    → After d (
        if away_now
        then choose fault (λ (m : Text). done (call d' (connected_again arg ∷ away m ∷ []))) m
        else done (call d' (connected_again arg ∷ [])))
again-After d d' arg true (some m) e flag same = record {
  flag = flag;
  message = told_away-append none d'.calls (connected_again arg ∷ away m ∷ []) ∙ sym same;
  visibility = Agrees-append d'.calls (connected_again arg ∷ away m ∷ []) d'.isinvisible tt;
}
again-After d d' arg true none e flag same = absurd cc
again-After d d' arg false none e flag same = record {
  flag = flag;
  message = told_away-append none d'.calls (connected_again arg ∷ []) ∙ sym same;
  visibility = Agrees-append d'.calls (connected_again arg ∷ []) d'.isinvisible tt;
}
again-After d d' arg false (some m) e flag same = absurd cc

connect_again-After : (d : Desk) (arg : Text) → IsTold d → After d (connect_again d arg)
unfolding connect_again
connect_again-After d arg v =
    again-After d
      (record d {
        client =
            if d.connected then record d.client { buddies = []; buddiesonline = 0 } else d.client;
        connected = true;
      })
      arg d.isaway d.awaymsg v.flag v.flag refl

ask-IsTold : (d : Desk) (cs : List Call) → Silent cs → IsTold d → IsTold (ask d cs)
ask-IsTold d cs s v = if-holds IsTold d.connected _ _ (call-IsTold d cs s v) v

input_set_predefaway-IsTold :
    (d : Desk) (arg : Text) → IsTold d → IsTold (input_set_predefaway d arg)
unfolding input_set_predefaway
input_set_predefaway-IsTold d arg v =
    if-holds IsTold (not d.connected) _ _ v
      (if-holds IsTold (is_nil arg) _ _ v (predef_loop-IsTold d (atoi arg) 0 d.awaymsgs v))

input_delete_buddy-IsTold : (d : Desk) (arg : Text) → IsTold d → IsTold (input_delete_buddy d arg)
unfolding input_delete_buddy
input_delete_buddy-IsTold d arg v =
    if-holds IsTold d.connected _ _
      (call-IsTold (record d { client = remove_from_list d.client arg }) (remove arg ∷ [])
        ((λ m. refl), (λ b. refl))
        (record { flag = v.flag; message = v.message; visibility = v.visibility }))
      v

input_show_log-IsTold : (d : Desk) (arg : Text) → IsTold d → IsTold (input_show_log d arg)
unfolding input_show_log
input_show_log-IsTold d arg v =
    if-holds IsTold (text_eq arg (b'l' ∷ [])) _ _
      (choose-holds IsTold d (λ (sn : Text). call d (log_shown sn ∷ [])) d.lastsn v
        (λ sn. call-IsTold d (log_shown sn ∷ []) ((λ m. refl), (λ b. refl)) v))
      (call-IsTold d (log_shown arg ∷ []) ((λ m. refl), (λ b. refl)) v)

run_command-After :
    (d : Desk) (c : Command) (arg : Text)
    → length arg < size_mod
    → IsTold d
    → After d (run_command d c arg)
unfolding run_command
run_command-After d Command.send_message arg small v = input_send_message-After d arg small v
run_command-After d Command.get_info arg small v = ask-IsTold d _ ((λ m. refl), (λ b. refl)) v
run_command-After d Command.get_away arg small v = ask-IsTold d _ ((λ m. refl), (λ b. refl)) v
run_command-After d Command.get_profile arg small v = ask-IsTold d _ ((λ m. refl), (λ b. refl)) v
run_command-After d Command.set_predefaway arg small v = input_set_predefaway-IsTold d arg v
run_command-After d Command.add_buddy arg small v = ask-IsTold d _ ((λ m. refl), (λ b. refl)) v
run_command-After d Command.delete_buddy arg small v = input_delete_buddy-IsTold d arg v
run_command-After d Command.set_away arg small v = input_set_away-IsTold d arg v
run_command-After d Command.show_log arg small v = input_show_log-IsTold d arg v
run_command-After d Command.set_invisible arg small v = toggled-After d d.connected refl v
run_command-After d Command.reconnect arg small v = connect_again-After d arg v
run_command-After d Command.reload_profile arg small v = ask-IsTold d _ ((λ m. refl), (λ b. refl)) v
run_command-After d c arg small v = call-IsTold d _ ((λ m. refl), (λ b. refl)) v

length-argument : (s : Text) → length (argument s) ≤ length s
length-argument [] = omega arith
length-argument (c ∷ s) = ground arith

length-command_loop :
    (cs : List (Text × Command)) (line : Text)
    → OnSome (λ (r : Command × Text). length (r.1) ≤ length line) (command_loop cs line)
unfolding command_loop
length-command_loop [] line = tt
length-command_loop ((name, c) ∷ cs) line =
    if-holds (OnSome (λ (r : Command × Text). length (r.1) ≤ length line)) (starts name line) _ _
      (omega (arith, length-argument (drop (length name) line), length-drop (length name) line))
      (length-command_loop cs line)

-- Every line whose length is a size_t, in a state in which the flag `isaway` says whether there is an
-- away message, in which the message is what the server was told last, and in which so is the
-- visibility, unless the connection was made by `R!` and was told no change of it: the command ends in
-- such a state, or it wrote through a null pointer because there is no connection.
pub parse_input-After :
    (d : Desk) → length d.inputbuf < size_mod → IsTold d → After d (parse_input d)
unfolding parse_input
parse_input-After d small v =
    choose-OnSome (λ (r : Command × Text). length (r.1) ≤ length d.inputbuf) (After d) (done d)
      (λ (c, arg). run_command d c arg) (command_loop commands d.inputbuf) v
      (λ (c, arg) h. run_command-After d c arg (omega (arith, h)) v)
      (length-command_loop commands d.inputbuf)
