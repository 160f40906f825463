-- ===== src/Flap.antt =====
-- imcomm/flap.c without SEND_QUEUES, and the callers of it that it calls back: `snac_send` of
-- imcomm/snac.c and `imcomm_set_idle_time` of imcomm/imcomm.c.
pub mod Frame
pub mod Batch
pub mod Keep
pub mod Idle
use bsflite_otr.Base.{
  ℕ, zero, suc, ◌+◌, ◌%◌, ◌^◌, Bool, true, false, ◌&&◌, ◌||◌, List, [], ◌∷◌, ◌++◌, length, take,
  Run, done, fault, ◌>>=◌, ltb, ◌==◌, if◌then◌else◌,
}
use bsflite_otr.Packet.{
  Packet, Ret, ok, error, Field, u8, u16, u32, raw, add_fields, pkt_init, size_mod,
}
use bsflite_otr.Session.{
  Handle, Event, sent, Env, Wrote, negative, zero_bytes, positive, record_event, next_seq,
}

-- The fields of a FLAP frame: marker, channel, sequence number, length, data.
abbrev pub frame_fields : ℕ → ℕ → List ℕ → List Field
frame_fields channel seqnum packet =
    u8 0x2A ∷ u8 channel ∷ u16 seqnum ∷ u16 (length packet % 2 ^ 16) ∷ raw packet ∷ []

-- `SSL_write(…) < 0` and `send(…) < 0`.
unfoldable pub failed : Wrote → Bool
failed negative = true
failed zero_bytes = false
failed positive = false

-- `flap_sendMulti` also takes 0 from `SSL_write` for a failure.
unfoldable pub failed_multi : Bool → Wrote → Bool
failed_multi use_ssl negative = true
failed_multi use_ssl zero_bytes = use_ssl
failed_multi use_ssl positive = false

-- An element of `struct MultiPacket`.
pub record Part : Type 0 where
  pub channel : ℕ
  pub packet : List ℕ
  pub updateidle : Bool

-- `flap_addToMulti`. The empty list is a head with `init == -1`, as `MultiPktInit` makes it.
unfoldable pub add_to_multi : List Part → ℕ → List ℕ → Bool → List Part
add_to_multi parts channel packet updateidle =
    parts ++ (record { channel = channel; packet = packet; updateidle = updateidle } ∷ [])

-- The first loop of `flap_sendMulti`: the total length, and whether any part wakes the user.
pub total_len : List Part → ℕ
total_len [] = 0
total_len (t ∷ ts) = (6 + length t.packet + total_len ts) % size_mod

unfoldable pub any_update : List Part → Bool
any_update [] = false
any_update (t ∷ ts) = t.updateidle || any_update ts

-- The fields of a SNAC: family, subtype, flags, request number, data.
abbrev pub snac_fields : Handle → ℕ → ℕ → List ℕ → List Field
snac_fields h family subtype body = u16 family ∷ u16 subtype ∷ u16 0 ∷ u32 h.snacreq ∷ raw body ∷ []

-- `snacreq++`
abbrev pub next_req : Handle → Handle
next_req h = record h { snacreq = (h.snacreq + 1) % 2 ^ 32 }

module _ (env : Env) where
  open env use {machine, fresh, write, now}

  -- `flap_send` as far as the sequence number: the frame is built and handed to the socket.
  pub flap_transmit : Handle → ℕ → List ℕ → Run (Ret × Handle)
  unfolding failed
  flap_transmit h channel packet = do
    let len = (length packet + 6) % size_mod
    p ← add_fields machine (pkt_init (fresh len) len) (frame_fields channel h.seqnum packet)
    done (
        if failed (write h.trace p.bytes)
        then (error, h)
        else (ok, record h { seqnum = next_seq h.seqnum; trace = h.trace ++ (sent p.bytes ∷ []) }))

  -- The packet of `snac_send` and `snac_addToMulti`; the length of the data is a uint16_t.
  pub snac_packet : Handle → ℕ → ℕ → List ℕ → Run Packet
  snac_packet h family subtype contents =
      let body = take (length contents % 2 ^ 16) contents in
      add_fields machine (pkt_init (fresh (length body + 10)) (length body + 10))
        (snac_fields h family subtype body)

  -- `snac_send(…, updateidle = 0)`, where `flap_send` does not come back to the idle time.
  pub snac_quiet : Handle → ℕ → ℕ → List ℕ → Run (Ret × Handle)
  snac_quiet h family subtype body =
      if h.srv_pause
      then done (ok, h)
      else (do p ← snac_packet h family subtype body; flap_transmit (next_req h) 0x02 p.bytes)

  -- `imcomm_set_idle_time`; the result of the SNAC is ignored.
  pub set_idle_time : Handle → ℕ → Run Handle
  set_idle_time h idlesecs = do
    p ← add_fields machine (pkt_init (fresh 4) 4) (u32 idlesecs ∷ [])
    let begin = (do (r, h') ← snac_quiet (record h { isidle = true }) 0x01 0x11 p.bytes; done h')
    let end = (do (r, h') ← snac_quiet (record h { isidle = false }) 0x01 0x11 p.bytes; done h')
    if ltb 600 idlesecs
        then (if h.isidle then done h else begin)
        else (if h.isidle && (idlesecs == 0) then end else done h)

  -- The tail of `flap_send` and `flap_sendMulti`: an operation of the user's ends the idle time.
  unfoldable pub user_active : Bool → Handle → Run (Ret × Handle)
  user_active updateidle h =
      let awake = record h { last_operation_time = now h.trace } in
      if updateidle
      then (if h.isidle then (do h' ← set_idle_time awake 0; done (ok, h')) else done (ok, awake))
      else done (ok, h)

  unfoldable pub after_write : Bool → Ret × Handle → Run (Ret × Handle)
  after_write updateidle (ok, h) = user_active updateidle h
  after_write updateidle (error, h) = done (error, h)

  -- `flap_send`
  unfoldable pub flap_send : Handle → ℕ → List ℕ → Bool → Run (Ret × Handle)
  unfolding after_write
  flap_send h channel packet updateidle = do
    r ← flap_transmit h channel packet
    after_write updateidle r

  -- `snac_send`
  unfoldable pub snac_send : Handle → ℕ → ℕ → List ℕ → Bool → Run (Ret × Handle)
  snac_send h family subtype body updateidle = if h.srv_pause then done (ok, h) else (do
    p ← snac_packet h family subtype body
    flap_send (next_req h) 0x02 p.bytes updateidle)

  -- `snac_addToMulti`
  unfoldable pub snac_add_to_multi :
      Handle → List Part → ℕ → ℕ → List ℕ → Bool → Run (List Part × Handle)
  snac_add_to_multi h parts family subtype body updateidle = do
    p ← snac_packet h family subtype body
    done (add_to_multi parts 0x02 p.bytes updateidle, next_req h)

  -- The second loop of `flap_sendMulti`: each part becomes a frame with the next sequence number.
  pub multi_loop : Packet → ℕ → List Part → Run (Packet × ℕ)
  multi_loop p seqnum [] = done (p, seqnum)
  multi_loop p seqnum (t ∷ ts) = do
    q ← add_fields machine p (frame_fields t.channel seqnum t.packet)
    multi_loop q (next_seq seqnum) ts

  -- `flap_sendMulti`. A list that nothing was added to is read before it is set. The sequence
  -- number has moved also where the write fails.
  pub flap_send_multi : Handle → List Part → Run (Ret × Handle)
  unfolding failed_multi
  flap_send_multi h [] = fault
  flap_send_multi h (t ∷ ts) = do
    let parts = t ∷ ts
    (p, seqnum) ← multi_loop (pkt_init (fresh (total_len parts)) (total_len parts)) h.seqnum parts
    let moved = record h { seqnum = seqnum }
    if failed_multi h.use_ssl (write h.trace p.bytes)
        then done (error, moved)
        else user_active (any_update parts) (record_event moved (sent p.bytes))
