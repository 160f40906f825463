-- ===== src/Flap/Idle.antt =====
-- What `imcomm_set_idle_time` leaves of the flag `isidle` of a connection.
use bsflite_otr.Base.{
  ◌%◌, Always, Always-bind, if-holds, Run, done, fault, unfinished, ◌>>=◌, ◌==◌, ◌&&◌, ◌++◌, ◌∷◌,
  [], List, ℕ, ◌+◌, ◌<◌, ◌≡◌, refl, Bool, true, false, length, if◌then◌else◌, lt→ltb,
}
use bsflite_otr.Packet.{Ret, ok, error, u32, pkt_init, add_fields, size_mod}
use bsflite_otr.Session.{Handle, Env, sent, next_seq}
use bsflite_otr.Flap.{
  failed, frame_fields, next_req, snac_packet, snac_quiet, flap_transmit, set_idle_time,
}

abbrev IdleIs : Bool → Ret × Handle → Type 0
IdleIs b r = r.1.isidle ≡ b

module _ (env : Env) (b : Bool) where
  flap_transmit-IdleIs :
      (h : Handle) (channel : ℕ) (packet : List ℕ)
      → h.isidle ≡ b
      → Always (IdleIs b) (flap_transmit env h channel packet)
  unfolding flap_transmit
  flap_transmit-IdleIs h channel packet v =
      let len = (length packet + 6) % size_mod in
      Always-bind (IdleIs b)
        (add_fields env.machine (pkt_init (env.fresh len) len)
          (frame_fields channel h.seqnum packet))
        _
        (λ p.
          if-holds (IdleIs b) (failed (env.write h.trace p.bytes)) (error, h)
            (ok, record h { seqnum = next_seq h.seqnum; trace = h.trace ++ (sent p.bytes ∷ []) }) v
            v)

  snac_quiet-IdleIs :
      (h : Handle) (family subtype : ℕ) (body : List ℕ)
      → h.isidle ≡ b
      → Always (IdleIs b) (snac_quiet env h family subtype body)
  unfolding snac_quiet
  snac_quiet-IdleIs h family subtype body v = if-holds (Always (IdleIs b)) h.srv_pause _ _ v (
      Always-bind (IdleIs b) (snac_packet env h family subtype body) _
        (λ p. flap_transmit-IdleIs (next_req h) 0x02 p.bytes v))

  second :
      (r : Run (Ret × Handle))
      → Always (IdleIs b) r
      → Always (λ (h : Handle). h.isidle ≡ b) (r >>= λ rh. done rh.1)
  second (done r) v = v
  second fault v = tt
  second unfinished v = tt

-- A time above 600 seconds leaves the connection idle, and 0 leaves it active.
pub set_idle_time-begin :
    (env : Env) (h : Handle) (n : ℕ)
    → 600 < n
    → Always (λ (h' : Handle). h'.isidle ≡ true) (set_idle_time env h n)
unfolding set_idle_time
set_idle_time-begin env h n long =
    Always-bind (λ (h' : Handle). h'.isidle ≡ true)
      (add_fields env.machine (pkt_init (env.fresh 4) 4) (u32 n ∷ [])) _
      (λ p. rw (lt→ltb 600 n long) (one h.isidle refl p.bytes))
  where
    one :
        (b : Bool) (e : h.isidle ≡ b) (bytes : List ℕ)
        → Always
            (λ (h' : Handle). h'.isidle ≡ true)
            (if b
              then done h
              else (snac_quiet env (record h { isidle = true }) 0x01 0x11 bytes >>= λ r. done r.1))
    one true e bytes = e
    one false e bytes =
        second env true _
          (snac_quiet-IdleIs env true (record h { isidle = true }) 0x01 0x11 bytes refl)

pub set_idle_time-end :
    (env : Env) (h : Handle) → Always (λ (h' : Handle). h'.isidle ≡ false) (set_idle_time env h 0)
unfolding set_idle_time
set_idle_time-end env h =
    Always-bind (λ (h' : Handle). h'.isidle ≡ false)
      (add_fields env.machine (pkt_init (env.fresh 4) 4) (u32 0 ∷ [])) _
      (λ p. one h.isidle refl p.bytes)
  where
    one :
        (b : Bool) (e : h.isidle ≡ b) (bytes : List ℕ)
        → Always
            (λ (h' : Handle). h'.isidle ≡ false)
            (if b && (0 == 0)
              then (snac_quiet env (record h { isidle = false }) 0x01 0x11 bytes >>= λ r. done r.1)
              else done h)
    one true e bytes =
        second env false _
          (snac_quiet-IdleIs env false (record h { isidle = false }) 0x01 0x11 bytes refl)
    one false e bytes = e
