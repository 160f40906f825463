-- ===== src/Arrive.antt =====
-- `getmessage` of aim.c: a message that arrives, for the desk of the client. What libotr makes of it is
-- a parameter, and what libotr does in its callbacks is left out.
pub mod Keep
pub mod Once
pub mod Others
use bsflite_otr.Base.{
  ◌>>=◌, Run, done, fault, unfinished, ◌==◌, ◌||◌, ◌&&◌, not, ◌++◌, ◌∷◌, [], List, ℕ, zero, suc,
  ◌+◌, ◌-◌, ◌≤◌, ◌<◌, ◌≡◌, ◌≢◌, refl, sym, ap, ◌∙◌, subst, Bool, true, false, Option, none, some,
  length, take, drop, All, ltb, leb, if◌then◌else◌, choose, arith, Bool-cases, Option-cases, inl,
  inr, ◌⊎◌, lt→ltb, ge→ltb, le→leb, gt→leb, ltb_false→le, length-append, ℕ_discrete, dec_le, dec_lt,
  append_assoc, append-nil, map, All-append, suc-ne-zero,
}
use bsflite_otr.Session.{Text}
use bsflite_otr.Names.{simplify_sn, compare_nicks}
use bsflite_otr.Markup.{strip_html}
use bsflite_otr.Screen.{Buddy, Otr, find_buddy}
use bsflite_otr.Desk.{Desk, Call, auto_reply, arrived, logged_message, call, filtered, is_nil}

-- What `otrl_message_receiving` says: a message of its own protocol, one that stays as it is, or
-- another text, from an encrypted conversation or not.
pub data Received : Type 0 where
  internal untouched : Received
  replaced : Text → Bool → Received

abbrev pub Libotr : Type 0
Libotr = Buddy → Text → Received

abbrev pub is_refused : Otr → Bool
is_refused Otr.refused = true
is_refused _ = false

abbrev pub text_of : Text → Received → Option (Text × Bool)
text_of message internal = none
text_of message untouched = some (message, false)
text_of message (replaced text encrypted) = some (text, encrypted)

-- `msgin` and `otr_message`, or nothing for a message of libotr's own.
pub decrypted : Libotr → Desk → Text → Text → Option (Text × Bool)
decrypted libotr d who message =
    choose (some (message, false))
      (λ (b : Buddy).
        if is_refused b.otr then some (message, false) else text_of message (libotr b message))
      (if d.otr then find_buddy d.client who else none)

-- Whether a name is in `waiting`.
pub is_waiting : Text → List Text → Bool
is_waiting who [] = false
is_waiting who (w ∷ ws) = compare_nicks w who || is_waiting who ws

-- A name that is new in `waiting`, and the answer of a user who is away. Without an away message
-- `imcomm_im_send_message` would read through a null pointer.
pub wait_for : Desk → Text → Bool → Run Desk
wait_for d who automessage =
    let d' = record d { waiting = d.waiting ++ (who ∷ []) } in
    if d.isaway && (not automessage && (not d.respond_idle_only || d.isidle))
    then choose fault (λ (m : Text). done (call d' (auto_reply who m ∷ []))) d.awaymsg
    else done d'

-- From the choice of `lastsn` to the end.
pub announce : Desk → Text → Bool → Bool → Text → Run Desk
announce d who automessage otr_message msg = do
  let d' = record d { lastsn = if d.istyping then d.lastsn else some (simplify_sn who) }
  d'' ← if is_waiting who d.waiting then done d' else wait_for d' who automessage
  done (
      call d'' (
        arrived who otr_message automessage msg
        ∷ logged_message automessage (simplify_sn who) msg
        ∷ []))

-- `getmessage`
pub getmessage : Libotr → Desk → Text → Bool → Text → Run Desk
getmessage libotr d who automessage message =
    choose (done d)
      (λ (msgin, otr_message). strip_html msgin >>= λ (tempmsg : Text).
        if is_nil tempmsg
        then done d
        else (filtered d.netspeak_filter tempmsg >>= λ (msg : Text).
            if is_nil msg then done d else announce d who automessage otr_message msg))
      (decrypted libotr d who message)

-- Messages in a row, each with its sender and whether it is an answer of this kind.
abbrev pub getmessages : Libotr → Desk → List (Text × Bool × Text) → Run Desk
getmessages libotr d [] = done d
getmessages libotr d ((who, automessage, message) ∷ ms) = do
  d' ← getmessage libotr d who automessage message
  getmessages libotr d' ms
