-- ===== src/Flap/Keep.antt =====
-- Sending leaves the roster alone.
use bsflite_otr.Base.{
  unfinished, ◌++◌, Always, Always-bind, Always-chain, if-holds, ℕ, ◌%◌, ◌+◌, Bool, List, [], ◌∷◌,
  length, Run, done, fault, ◌>>=◌, ltb, ◌==◌, ◌&&◌, true, false,
}
use bsflite_otr.Packet.{add_fields, pkt_init, u32, size_mod, ok, error, Ret}
use bsflite_otr.Session.{Handle, Env, sent, next_seq, record_event}
use bsflite_otr.Roster.View.{IsRoster}
use bsflite_otr.Flap.{
  frame_fields, total_len, Part, flap_transmit, snac_packet, snac_quiet, set_idle_time, user_active,
  after_write, flap_send, snac_send, snac_add_to_multi, flap_send_multi, multi_loop, failed,
  failed_multi, next_req, any_update,
}

-- The roster of a handle, of a handle behind a result, and before one.
abbrev pub Kept : Handle → Type 0
Kept h = IsRoster h.buddies_online

abbrev pub Kept0 {ℓ} : {A : Type ℓ} → Handle × A → Type 0
Kept0 r = IsRoster r.0.buddies_online

abbrev pub Kept1 {ℓ} : {A : Type ℓ} → A × Handle → Type 0
Kept1 r = IsRoster r.1.buddies_online

-- A call whose result is not looked at.
pub Always-second {ℓ} :
    {A : Type ℓ} (r : Run (A × Handle)) → Always Kept1 r → Always Kept (r >>= λ rh. done rh.1)
Always-second (done r) v = v
Always-second fault v = tt
Always-second unfinished v = tt

module _ (env : Env) where
  flap_transmit-Kept :
      (h : Handle) (channel : ℕ) (packet : List ℕ)
      → Kept h
      → Always Kept1 (flap_transmit env h channel packet)
  unfolding flap_transmit
  flap_transmit-Kept h channel packet v =
      let len = (length packet + 6) % size_mod in
      let built =
        add_fields env.machine (pkt_init (env.fresh len) len)
          (frame_fields channel h.seqnum packet) in
      Always-bind Kept1 built _ (λ p.
        if-holds Kept1 (failed (env.write h.trace p.bytes)) (error, h)
          (ok, record h { seqnum = next_seq h.seqnum; trace = h.trace ++ (sent p.bytes ∷ []) }) v v)

  snac_quiet-Kept :
      (h : Handle) (family subtype : ℕ) (body : List ℕ)
      → Kept h
      → Always Kept1 (snac_quiet env h family subtype body)
  unfolding snac_quiet
  snac_quiet-Kept h family subtype body v = if-holds (Always Kept1) h.srv_pause _ _ v (
      Always-bind Kept1 (snac_packet env h family subtype body) _
        (λ p. flap_transmit-Kept (next_req h) 0x02 p.bytes v))

  pub set_idle_time-Kept : (h : Handle) (n : ℕ) → Kept h → Always Kept (set_idle_time env h n)
  unfolding set_idle_time
  set_idle_time-Kept h n v =
      let built = add_fields env.machine (pkt_init (env.fresh 4) 4) (u32 n ∷ []) in
      Always-bind Kept built _ (λ p.
        let begin =
          Always-second _ (snac_quiet-Kept (record h { isidle = true }) 0x01 0x11 p.bytes v) in
        let end =
          Always-second _ (snac_quiet-Kept (record h { isidle = false }) 0x01 0x11 p.bytes v) in
        if-holds (Always Kept) (ltb 600 n) _ _ (if-holds (Always Kept) h.isidle _ _ v begin)
          (if-holds (Always Kept) (h.isidle && (n == 0)) _ _ end v))

  user_active-Kept :
      (updateidle : Bool) (h : Handle) → Kept h → Always Kept1 (user_active env updateidle h)
  unfolding user_active
  user_active-Kept updateidle h v =
      let awake = record h { last_operation_time = env.now h.trace } in
      if-holds (Always Kept1) updateidle _ _
        (if-holds (Always Kept1) h.isidle _ _
          (Always-chain Kept Kept1 (set_idle_time env awake 0) (λ h'. done (ok, h'))
            (set_idle_time-Kept awake 0 v) (λ h' w. w))
          v)
        v

  after_write-Kept :
      (updateidle : Bool) (r : Ret × Handle) → Kept1 r → Always Kept1 (after_write env updateidle r)
  unfolding after_write
  after_write-Kept updateidle (ok, h) v = user_active-Kept updateidle h v
  after_write-Kept updateidle (error, h) v = v

  pub flap_send-Kept :
      (h : Handle) (channel : ℕ) (packet : List ℕ) (updateidle : Bool)
      → Kept h
      → Always Kept1 (flap_send env h channel packet updateidle)
  unfolding flap_send
  flap_send-Kept h channel packet updateidle v =
      Always-chain Kept1 Kept1 (flap_transmit env h channel packet) (after_write env updateidle)
        (flap_transmit-Kept h channel packet v) (after_write-Kept updateidle)

  pub snac_send-Kept :
      (h : Handle) (family subtype : ℕ) (body : List ℕ) (updateidle : Bool)
      → Kept h
      → Always Kept1 (snac_send env h family subtype body updateidle)
  unfolding snac_send
  snac_send-Kept h family subtype body updateidle v = if-holds (Always Kept1) h.srv_pause _ _ v (
      Always-bind Kept1 (snac_packet env h family subtype body) _
        (λ p. flap_send-Kept (next_req h) 0x02 p.bytes updateidle v))

  pub snac_add_to_multi-Kept :
      (h : Handle) (parts : List Part) (family subtype : ℕ) (body : List ℕ) (updateidle : Bool)
      → Kept h
      → Always Kept1 (snac_add_to_multi env h parts family subtype body updateidle)
  unfolding snac_add_to_multi
  snac_add_to_multi-Kept h parts family subtype body updateidle v =
      Always-bind Kept1 (snac_packet env h family subtype body) _ (λ p. v)

  pub flap_send_multi-Kept :
      (h : Handle) (parts : List Part) → Kept h → Always Kept1 (flap_send_multi env h parts)
  unfolding flap_send_multi
  flap_send_multi-Kept h [] v = tt
  flap_send_multi-Kept h (t ∷ ts) v =
      let len = total_len (t ∷ ts) in
      let built = multi_loop env (pkt_init (env.fresh len) len) h.seqnum (t ∷ ts) in
      Always-bind Kept1 built _ (λ r.
        let moved = record h { seqnum = r.1 } in
        if-holds (Always Kept1) (failed_multi h.use_ssl (env.write h.trace r.0.bytes)) _ _ v
          (user_active-Kept (any_update (t ∷ ts)) (record_event moved (sent r.0.bytes)) v))
