-- ===== src/Dial/Keep.antt =====
-- Connecting leaves the roster alone.
use bsflite_otr.Base.{
  Always, Always-bind, Always-chain, if-holds, choose-holds, ℕ, zero, suc, ◌+◌, ◌==◌, Option, none,
  some, List, [], ◌∷◌, ◌++◌, done, fault, ◌>>=◌, length, ltb, drop, if◌then◌else◌,
}
use bsflite_otr.Packet.{add_fields, pkt_init, u8, u16, raw, Ret, ok, error}
use bsflite_otr.Session.{
  Text, Handle, Env, Socket, Read, broken, got, ProxyError, on_error, notice, disconnected,
  proxy_failed,
}
use bsflite_otr.Names.{c_string}
use bsflite_otr.Numerals.{atoi}
use bsflite_otr.Flap.{failed}
use bsflite_otr.Flap.Keep.{Kept, Kept1}
use bsflite_otr.Incoming.Keep.{notify-Kept}
use bsflite_otr.Dial.{
  recv, open_to, send_bytes, refused, socks5_address, socks5_answer, socks5_request, socks5_greet,
  connect_socks5, recv_text, https_loop, https_answer, https_ask, connect_https, https_request,
  ssl_end, connect_ssl, contains, crlf2, after, fill, at_byte,
}

module _ (env : Env) where
  open_to-Kept : (h : Handle) (name : Text) (port : ℕ) → Kept h → Kept1 (open_to env h name port)
  unfolding open_to
  open_to-Kept h name port v =
      choose-holds Kept1 _ _ (env.open_socket h.trace)
        (notify-Kept (record h { socket = Socket.closed }) on_error
          (proxy_failed ProxyError.connect) v)
        (λ n. if-holds Kept1 (env.connect_to h.trace name port) _ _ v (
          notify-Kept (record h { socket = Socket.fd n }) on_error (proxy_failed ProxyError.connect)
            v))

  send_bytes-Kept : (h : Handle) (bytes : List ℕ) → Kept h → Kept1 (send_bytes env h bytes)
  unfolding send_bytes
  send_bytes-Kept h bytes v =
      if-holds Kept1 (failed (env.write h.trace bytes)) _ _
        (notify-Kept h on_error (notice disconnected) v) v

  refused-Kept : (h : Handle) (e : ProxyError) → Kept h → Kept1 (refused env h e)
  refused-Kept h e v = notify-Kept h on_error (proxy_failed e) v

  socks5_address-Kept :
      (h : Handle) (buf : List ℕ) (type : ℕ) → Kept h → Always Kept1 (socks5_address env h buf type)
  unfolding socks5_address recv
  socks5_address-Kept h buf type v =
      let name = Always-bind Kept1 (at_byte (fill (env.fresh 1) (recv env h 1).0) 0) _ (λ len. v) in
      if-holds (Always Kept1) (type == 3) _ _ name
        (if-holds (Always Kept1) (type == 1) _ _ v (refused-Kept h ProxyError.unknown v))

  socks5_answer-Kept :
      (r : Ret × Handle) (buf : List ℕ) → Kept1 r → Always Kept1 (socks5_answer env r buf)
  unfolding socks5_answer recv
  socks5_answer-Kept (error, h) buf v = v
  socks5_answer-Kept (ok, h) buf v =
      let h' = (recv env h 4).1 in
      let buf' = fill buf (recv env h 4).0 in
      Always-bind Kept1 (at_byte buf' 1) _ (λ status. Always-bind Kept1 (at_byte buf' 3) _ (λ type.
        if-holds (Always Kept1) (status == 0) _ _ (socks5_address-Kept h' buf' type v)
          (refused-Kept h' ProxyError.proxy_connect v)))

  socks5_request-Kept :
      (r : Ret × Handle) (buf : List ℕ) (host : Text) (port : ℕ)
      → Kept1 r
      → Always Kept1 (socks5_request env r buf host port)
  unfolding socks5_request recv
  socks5_request-Kept (error, h) buf host port v = v
  socks5_request-Kept (ok, h) buf host port v =
      let h' = (recv env h 2).1 in
      let buf' = fill buf (recv env h 2).0 in
      Always-bind Kept1 (at_byte buf' 1) _ (λ status.
        Always-bind Kept1
          (add_fields env.machine (pkt_init (env.fresh (7 + length host)) (7 + length host))
            (u8 0x05 ∷ u8 0x01 ∷ u8 0x00 ∷ u8 0x03 ∷ u8 (length host) ∷ raw host ∷ u16 port ∷ []))
          _
          (λ p.
            if-holds (Always Kept1) (status == 0) _ _
              (socks5_answer-Kept (send_bytes env h' p.bytes) buf' (send_bytes-Kept h' p.bytes v))
              (notify-Kept h' on_error (proxy_failed ProxyError.auth) v)))

  socks5_greet-Kept :
      (r : Ret × Handle) (host : Text) (port : ℕ)
      → Kept1 r
      → Always Kept1 (socks5_greet env r host port)
  unfolding socks5_greet
  socks5_greet-Kept (error, h) host port v = v
  socks5_greet-Kept (ok, h) host port v =
      Always-bind Kept1
        (add_fields env.machine (pkt_init (env.fresh 3) 3) (u8 0x05 ∷ u8 0x01 ∷ u8 0x00 ∷ [])) _
        (λ p.
          socks5_request-Kept (send_bytes env h p.bytes) (env.fresh 512) host port
            (send_bytes-Kept h p.bytes v))

  pub connect_socks5-Kept :
      (h : Handle) (host : Text) (port : ℕ) → Kept h → Always Kept1 (connect_socks5 env h host port)
  unfolding connect_socks5
  connect_socks5-Kept h host port v = choose-holds (Always Kept1) _ _ h.proxyserver tt (λ server.
      socks5_greet-Kept (open_to env h server h.proxyport) host port
        (open_to-Kept h server h.proxyport v))

  recv_text-Kept : (h : Handle) (buf : List ℕ) → Kept h → Always Kept1 (recv_text env h buf)
  unfolding recv_text recv
  recv_text-Kept h buf v = go (env.receive h.trace 512)
    where
      go :
          (r : Read)
          → Always Kept1 (elim r [
            | broken ↦ fault
            | got bs ↦
                if ltb (length bs) 512
                then done (bs ++ (0 ∷ drop (length bs + 1) buf), (recv env h 512).1)
                else fault
          ])
      go Read.broken = tt
      go (Read.got bs) = if-holds (Always Kept1) (ltb (length bs) 512) _ _ v tt

  https_loop-Kept :
      (fuel : ℕ) (h : Handle) (buf : List ℕ) → Kept h → Always Kept (https_loop env fuel h buf)
  unfolding https_loop
  https_loop-Kept zero h buf v = tt
  https_loop-Kept (suc fuel) h buf v =
      if-holds (Always Kept) (contains crlf2 (c_string buf)) _ _ v (
        Always-chain Kept1 Kept (recv_text env h buf) _ (recv_text-Kept h buf v)
          (λ r w. https_loop-Kept fuel r.1 r.0 w))

  https_answer-Kept :
      (fuel : ℕ) (r : Ret × Handle) → Kept1 r → Always Kept1 (https_answer env fuel r)
  unfolding https_answer
  https_answer-Kept fuel (error, h) v = v
  https_answer-Kept fuel (ok, h) v =
      Always-chain Kept1 Kept1 (recv_text env h (env.fresh 512)) _
        (recv_text-Kept h (env.fresh 512) v) (λ r w. found r w (after b' ' (c_string r.0)))
    where
      found :
          (r : List ℕ × Handle)
          → Kept1 r
          → (o : Option Text)
          → Always Kept1 (elim o [
            | none ↦ fault
            | some s ↦
                if atoi s == 200
                then (https_loop env fuel r.1 r.0 >>= λ h. done (ok, h))
                else done (refused env r.1 ProxyError.proxy_connect)
          ])
      found r w none = tt
      found r w (some s) =
          if-holds (Always Kept1) (atoi s == 200) _ _
            (Always-chain Kept Kept1 (https_loop env fuel r.1 r.0) (λ h. done (ok, h))
              (https_loop-Kept fuel r.1 r.0 w) (λ h u. u))
            (refused-Kept r.1 ProxyError.proxy_connect w)

  https_ask-Kept :
      (fuel : ℕ) (r : Ret × Handle) (host : Text) (port : ℕ)
      → Kept1 r
      → Always Kept1 (https_ask env fuel r host port)
  unfolding https_ask
  https_ask-Kept fuel (error, h) host port v = v
  https_ask-Kept fuel (ok, h) host port v =
      https_answer-Kept fuel (send_bytes env h (https_request host port))
        (send_bytes-Kept h (https_request host port) v)

  pub connect_https-Kept :
      (fuel : ℕ) (h : Handle) (host : Text) (port : ℕ)
      → Kept h
      → Always Kept1 (connect_https env fuel h host port)
  unfolding connect_https
  connect_https-Kept fuel h host port v =
      choose-holds (Always Kept1) _ _ h.proxyserver tt (λ server.
        https_ask-Kept fuel (open_to env h server h.proxyport) host port
          (open_to-Kept h server h.proxyport v))

  ssl_end-Kept : (r : Ret × Handle) → Kept1 r → Kept (ssl_end env r)
  unfolding ssl_end
  ssl_end-Kept (error, h) v = v
  ssl_end-Kept (ok, h) v = v

  pub connect_ssl-Kept :
      (h : Handle) (host : Text) (port : ℕ) → Kept h → Kept (connect_ssl env h host port)
  unfolding connect_ssl
  connect_ssl-Kept h host port v =
      ssl_end-Kept (open_to env h host port) (open_to-Kept h host port v)
