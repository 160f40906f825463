-- ===== src/Perform.antt =====
-- The calls of the desk, carried out on a connection: the functions of imcomm that input.c and aim.c
-- call, and `otr_imcomm_im_send_message` of otr.c. `R!`, which makes another connection, is
-- not carried out here. What libotr makes of a message that is sent is a
-- parameter.
pub mod Message
use bsflite_otr.Base.{
  ◌>>=◌, Run, done, fault, unfinished, ◌==◌, ◌||◌, ◌&&◌, not, ◌++◌, ◌∷◌, [], List, ℕ, zero, suc,
  ◌+◌, ◌-◌, ◌≤◌, ◌<◌, ◌≡◌, ◌≢◌, refl, sym, ap, ◌∙◌, subst, Bool, true, false, Option, none, some,
  length, take, drop, All, ltb, leb, if◌then◌else◌, choose, arith, Bool-cases, Option-cases, inl,
  inr, ◌⊎◌, lt→ltb, ge→ltb, le→leb, gt→leb, ltb_false→le, length-append, ℕ_discrete, dec_le, dec_lt,
  append_assoc, append-nil, map, All-append, suc-ne-zero,
}
use bsflite_otr.Session.{Text, Env, Handle}
use bsflite_otr.Screen.{Buddy, find_buddy}
use bsflite_otr.Incoming.{im_send_message}
use bsflite_otr.Contacts.{im_add_buddy, im_remove_buddy}
use bsflite_otr.Requests.{
  request_awayprofile, request_profile, request_awaymsg, set_invisible, set_away, set_unaway,
}
use bsflite_otr.Arrive.{is_refused}
use bsflite_otr.Desk.{Desk, Call}

-- What `otrl_message_sending` says: an error, or the message stays as it is, or another text.
pub data Sending : Type 0 where
  failed untouched : Sending
  replaced : Text → Sending

abbrev pub Sender : Type 0
Sender = Buddy → Text → Sending

abbrev pub sent_text : Text → Sending → Option Text
sent_text msg failed = none
sent_text msg untouched = some msg
sent_text msg (replaced text) = some text

-- The text that `otr_imcomm_im_send_message` hands to `imcomm_im_send_message`, if it does.
pub otr_text : Sender → Desk → Text → Text → Option Text
otr_text sender d sn msg =
    choose (some msg)
      (λ (b : Buddy). if is_refused b.otr then some msg else sent_text msg (sender b msg))
      (if d.otr then find_buddy d.client sn else none)

module _ (env : Env) (sender : Sender) (stale : ℕ) (d : Desk) where
  -- One call; what is printed and logged, and what is not modelled, leaves the connection as it is.
  pub perform : Handle → Call → Run Handle
  perform h (Call.send sn msg) =
      choose (done h) (λ (t : Text). im_send_message env h sn t false) (otr_text sender d sn msg)
  perform h (Call.auto_reply who msg) = im_send_message env h who msg true
  perform h (Call.add sn) = im_add_buddy env stale h sn
  perform h (Call.remove sn) = im_remove_buddy env h sn
  perform h (Call.away msg) = set_away env h msg
  perform h Call.unaway = set_unaway env h
  perform h (Call.invisible b) = set_invisible env h b
  perform h (Call.ask_awayprofile sn) = request_awayprofile env h sn
  perform h (Call.ask_awaymsg sn) = request_awaymsg env h sn
  perform h (Call.ask_profile sn) = request_profile env h sn
  perform h c = done h

  abbrev pub perform_all : Handle → List Call → Run Handle
  perform_all h [] = done h
  perform_all h (c ∷ cs) = do h' ← perform h c; perform_all h' cs
