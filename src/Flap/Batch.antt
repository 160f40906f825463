-- ===== src/Flap/Batch.antt =====
-- One write of many frames against many writes of one frame, and the user's activity.
use bsflite_otr.Base.{
  fault, unfinished, ◌>>=◌, ℕ, ◌+◌, ◌<◌, ◌≡◌, refl, ap, ◌∙◌, List, [], ◌∷◌, ◌++◌, length, Run, done,
  if◌then◌else◌, sym, All, false, append_assoc, append-nil, length-append, arith,
}
use bsflite_otr.Packet.{ok, error, size_mod}
use bsflite_otr.Session.{Handle, Env, Event, sent, positive, next_seq}
use bsflite_otr.Flap.{
  Part, any_update, flap_transmit, flap_send, flap_send_multi, user_active, snac_send, snac_quiet,
  failed, failed_multi, Ret, after_write, snac_packet, next_req,
}
use bsflite_otr.Flap.Frame.{
  frame, frames, seq_after, flap_transmit_lem, flap_send_multi_lem, length-frame,
}

-- The bytes that the peer receives.
abbrev event_bytes : Event → List ℕ
event_bytes (sent bs) = bs
event_bytes _ = []

abbrev pub stream : List Event → List ℕ
stream [] = []
stream (e ∷ es) = event_bytes e ++ stream es

stream-append : (xs ys : List Event) → stream (xs ++ ys) ≡ stream xs ++ stream ys
stream-append [] ys = refl
stream-append (x ∷ xs) ys =
    ap (λ l. event_bytes x ++ l) (stream-append xs ys)
    ∙ sym (append_assoc (event_bytes x) (stream xs) (stream ys))

-- `flap_send` for each part in turn.
pub send_each : Env → Handle → List Part → Run Handle
send_each env h [] = done h
send_each env h (t ∷ ts) = do
  (r, h') ← flap_send env h t.channel t.packet t.updateidle
  send_each env h' ts

abbrev Silent : List Part → Type 0
Silent ts = All (λ (t : Part). t.updateidle ≡ false) ts

any_update-Silent : (ts : List Part) → Silent ts → any_update ts ≡ false
unfolding any_update
any_update-Silent [] v = refl
any_update-Silent (t ∷ ts) (v, vs) = rw (v, any_update-Silent ts vs)

-- Without an update the quiet copies of the two send functions are the functions themselves.
flap_send_silent :
    (env : Env) (h : Handle) (channel : ℕ) (packet : List ℕ)
    → flap_send env h channel packet false ≡ flap_transmit env h channel packet
unfolding flap_send user_active
flap_send_silent env h channel packet = go (flap_transmit env h channel packet)
  where
    go : (r : Run (Ret × Handle)) → (r >>= (λ s. after_write env false s)) ≡ r
    go (done (ok, h)) = refl
    go (done (error, h)) = refl
    go fault = refl
    go unfinished = refl

-- `snac_send` with `updateidle` 0, which `imcomm_set_idle_time` calls, never comes back to
-- `imcomm_set_idle_time`: it is the copy of it that the model uses there.
snac_send_quiet :
    (env : Env) (h : Handle) (family subtype : ℕ) (body : List ℕ)
    → snac_send env h family subtype body false ≡ snac_quiet env h family subtype body
unfolding snac_send snac_quiet
snac_send_quiet env h family subtype body = λ i.
    if h.srv_pause
    then done (ok, h)
    else (snac_packet env h family subtype body >>= λ p.
        flap_send_silent env (next_req h) 0x02 p.bytes i)

module _ (env : Env) (alive : (tr : List Event) (bs : List ℕ) → env.write tr bs ≡ positive) where
  send_one :
      (h : Handle) (t : Part)
      → t.updateidle ≡ false
      → length t.packet + 6 < size_mod
      → flap_send env h t.channel t.packet t.updateidle
        ≡ done (
          ok,
          record h {
            seqnum = next_seq h.seqnum;
            trace = h.trace ++ (sent (frame t.channel h.seqnum t.packet) ∷ []);
          },
        )
  unfolding failed
  send_one h t v small =
      rw (v, flap_send_silent, flap_transmit_lem env h t.channel t.packet small, alive)

  send_each_lem :
      (ts : List Part) (h : Handle)
      → Silent ts
      → length (frames h.seqnum ts) < size_mod
      → (h' : Handle) × (send_each env h ts ≡ done h')
        × (h'.seqnum ≡ seq_after (length ts) h.seqnum)
        × (stream h'.trace ≡ stream h.trace ++ frames h.seqnum ts)
  unfolding send_each
  send_each_lem [] h v small = (h, refl, refl, sym (append-nil (stream h.trace)))
  send_each_lem (t ∷ ts) h (v, vs) small =
      let f = frame t.channel h.seqnum t.packet in
      let all = length-append f (frames (next_seq h.seqnum) ts) in
      let len = length-frame t.channel h.seqnum t.packet in
      let next : Handle = record h {
        seqnum = next_seq h.seqnum;
        trace = h.trace ++ (sent f ∷ []);
      } in
      let (h', e, s, b) = send_each_lem ts next vs (omega (arith, all)) in
      (
        h',
        rw (send_one h t v (omega (arith, all, len))) e,
        s,
        b
            ∙ ap (λ l. l ++ frames (next_seq h.seqnum) ts)
                (stream-append h.trace (sent f ∷ []) ∙ ap (λ l. stream h.trace ++ l) (append-nil f))
            ∙ append_assoc (stream h.trace) f (frames (next_seq h.seqnum) ts),
      )

  -- While the socket accepts what it is given and no part counts as an operation of the user, a
  -- batch does what sending its parts one by one does: the peer receives the same bytes, and the
  -- sequence number ends the same.
  pub flap_send_multi-send_each :
      (t : Part) (ts : List Part) (h : Handle)
      → Silent (t ∷ ts)
      → length (frames h.seqnum (t ∷ ts)) < size_mod
      → (h1 h2 : Handle) × (flap_send_multi env h (t ∷ ts) ≡ done (ok, h1))
        × (send_each env h (t ∷ ts) ≡ done h2)
        × (h1.seqnum ≡ h2.seqnum)
        × (stream h1.trace ≡ stream h2.trace)
  unfolding user_active failed_multi
  flap_send_multi-send_each t ts h v small =
      let bytes = frames h.seqnum (t ∷ ts) in
      let (h2, e, s, b) = send_each_lem (t ∷ ts) h v small in
      let h1 : Handle = record h {
        seqnum = seq_after (length (t ∷ ts)) h.seqnum;
        trace = h.trace ++ (sent bytes ∷ []);
      } in
      (
        h1,
        h2,
        rw (flap_send_multi_lem env h t ts small, alive, any_update-Silent (t ∷ ts) v),
        e,
        sym s,
        stream-append h.trace (sent bytes ∷ [])
            ∙ ap (λ l. stream h.trace ++ l) (append-nil bytes)
            ∙ sym b,
      )
