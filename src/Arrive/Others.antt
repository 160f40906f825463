-- ===== src/Arrive/Others.antt =====
-- What a message that arrives leaves alone.
use bsflite_otr.Base.{
  Always, Always-bind, Always-chain, if-holds, choose-holds, done, fault, ◌||◌, ◌&&◌, not, ◌≡◌,
  refl, Bool, some, if◌then◌else◌,
}
use bsflite_otr.Session.{Text}
use bsflite_otr.Names.{simplify_sn}
use bsflite_otr.Markup.{strip_html}
use bsflite_otr.Desk.{Desk, filtered, is_nil}
use bsflite_otr.Arrive.{Libotr, decrypted, is_waiting, wait_for, announce, getmessage}

-- The buddy list and the line.
abbrev pub Alike : Desk → Desk → Type 0
Alike d d' = (d'.client ≡ d.client) × (d'.inputbuf ≡ d.inputbuf)

wait_for-Alike :
    (d0 d : Desk) (who : Text) (automessage : Bool)
    → Alike d0 d
    → Always (Alike d0) (wait_for d who automessage)
unfolding wait_for
wait_for-Alike d0 d who automessage v =
    if-holds (Always (Alike d0))
      (d.isaway && (not automessage && (not d.respond_idle_only || d.isidle))) _ _
      (choose-holds (Always (Alike d0)) fault _ d.awaymsg tt (λ m. v)) v

announce-Alike :
    (d : Desk) (who : Text) (automessage otr_message : Bool) (msg : Text)
    → Always (Alike d) (announce d who automessage otr_message msg)
unfolding announce
announce-Alike d who automessage otr_message msg =
    let d' = record d { lastsn = if d.istyping then d.lastsn else some (simplify_sn who) } in
    Always-chain (Alike d) (Alike d)
      (if is_waiting who d.waiting then done d' else wait_for d' who automessage) _
      (if-holds (Always (Alike d)) (is_waiting who d.waiting) _ _ (refl, refl)
        (wait_for-Alike d d' who automessage (refl, refl)))
      (λ d'' v. v)

pub getmessage-Alike :
    (libotr : Libotr) (d : Desk) (who : Text) (automessage : Bool) (message : Text)
    → Always (Alike d) (getmessage libotr d who automessage message)
unfolding getmessage
getmessage-Alike libotr d who automessage message =
    choose-holds (Always (Alike d)) (done d) _ (decrypted libotr d who message) (refl, refl)
      (λ (msgin, otr_message). Always-bind (Alike d) (strip_html msgin) _ (λ tempmsg.
        if-holds (Always (Alike d)) (is_nil tempmsg) _ _ (refl, refl)
          (Always-bind (Alike d) (filtered d.netspeak_filter tempmsg) _ (λ msg.
            if-holds (Always (Alike d)) (is_nil msg) _ _ (refl, refl)
              (announce-Alike d who automessage otr_message msg)))))
