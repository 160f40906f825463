-- ===== src/Perform/Message.antt =====
-- A message from the keyboard to the SNAC that carries it.
use bsflite_otr.Base.{
  ◌>>=◌, Run, done, fault, unfinished, ◌++◌, ◌∷◌, [], ℕ, ◌+◌, ◌≤◌, ◌≡◌, refl, ap, ◌∙◌, true, false,
  some, length, All, choose, arith,
}
use bsflite_otr.Session.{Text, Env, Handle}
use bsflite_otr.Packet.Write.{wire_all}
use bsflite_otr.Flap.{snac_send}
use bsflite_otr.Incoming.{message_fields, im_send_message}
use bsflite_otr.Incoming.Frames.{im_send_message_lem}
use bsflite_otr.Desk.{Desk, send, said, logged, is_nil}
use bsflite_otr.Keys.{press_all}
use bsflite_otr.Keys.Typed.{Printable, typed_all}
use bsflite_otr.Keys.Message.{NameChar, press_all-message}
use bsflite_otr.Perform.{Sender, otr_text, perform, perform_all}

otr_text-off :
    (sender : Sender) (d : Desk) (sn msg : Text)
    → d.otr ≡ false
    → otr_text sender d sn msg ≡ some msg
unfolding otr_text
otr_text-off sender d sn msg off = rw off refl

module _ (env : Env) (sender : Sender) (stale : ℕ) where
  perform-message :
      (d : Desk) (h : Handle) (sn msg out : Text)
      → d.otr ≡ false
      → perform_all env sender stale d h (send sn msg ∷ said sn out ∷ logged sn msg ∷ [])
        ≡ im_send_message env h sn msg false
  unfolding perform
  perform-message d h sn msg out off =
      ap
        (λ o.
          choose (done h) (λ (t : Text). im_send_message env h sn t false) o >>= λ (h' : Handle).
          done h')
        (otr_text-off sender d sn msg off)
      ∙ same (im_send_message env h sn msg false)
    where
      same : (r : Run Handle) → (r >>= λ (h' : Handle). done h') ≡ r
      same (done h') = refl
      same fault = refl
      same unfinished = refl

  -- On a connection, on an empty line, outside of raw input, without the filter of abbreviations and
  -- without libotr, and while nothing has been asked for yet: `m`, a name of characters that are no
  -- blank, no markup and no control characters, a blank, a message of printable characters and the
  -- return key, if the line has room for the message with its escapes. What the desk then asks of the
  -- connection is one SNAC 04/06, with the name and the escaped message in its fields.
  pub perform_all-press_all :
      (d : Desk) (h : Handle) (c : ℕ) (sn msg : Text)
      → d.inputbuf ≡ []
      → d.connected ≡ true
      → d.rawinput ≡ false
      → d.netspeak_filter ≡ false
      → d.otr ≡ false
      → d.calls ≡ []
      → All NameChar (c ∷ sn)
      → All Printable msg
      → is_nil msg ≡ false
      → length (c ∷ sn) + length (typed_all msg) ≤ 509
      → (press_all d (b'm' ∷ ((c ∷ sn) ++ (b' ' ∷ (msg ++ (10 ∷ []))))) >>= λ (d' : Desk).
          perform_all env sender stale d' h d'.calls)
        ≡ (snac_send env h 0x04 0x06 (wire_all (message_fields (c ∷ sn) (typed_all msg) false)) true
            >>= λ (status, h'). done h')
  perform_all-press_all d h c sn msg empty on cooked off no_otr fresh names prints more room =
      let cs =
        send (c ∷ sn) (typed_all msg) ∷ said (c ∷ sn) msg ∷ logged (c ∷ sn) (typed_all msg) ∷ [] in
      let d' = record d {
        inputbuf = [];
        istyping = false;
        rawinput = false;
        waiting = [];
        lastsn = some (c ∷ sn);
        calls = d.calls ++ cs;
      } in
      ap (λ r. r >>= λ (d' : Desk). perform_all env sender stale d' h d'.calls)
        (press_all-message d c sn msg empty on cooked off names prints more room)
      ∙ ap (λ l. perform_all env sender stale d' h (l ++ cs)) fresh
      ∙ perform-message d' h (c ∷ sn) (typed_all msg) msg no_otr
      ∙ im_send_message_lem env h (c ∷ sn) (typed_all msg) false (omega (arith, room))
