-- ===== src/Login/Keep.antt =====
-- A login leaves the roster alone.
use bsflite_otr.Base.{
  if◌then◌else◌, Always, Always-bind, Always-chain, if-holds, choose-holds, ℕ, ◌==◌, ◌+◌, ◌%◌, ◌^◌,
  Option, none, some, List, [], ◌∷◌, done, ◌>>=◌, length, drop, read_mem, false,
}
use bsflite_otr.Bytes.{two_to_16}
use bsflite_otr.Packet.{Ret, ok, error}
use bsflite_otr.Tlv.{Tlv, tlv_split, count_tlv}
use bsflite_otr.Session.{
  Text, Handle, Env, Proxy, notify, on_error, notice, invalid_login, auth_done,
}
use bsflite_otr.Names.{c_string}
use bsflite_otr.Numerals.{atoi}
use bsflite_otr.Flap.Keep.{Kept, Kept0, Kept1, Always-second, flap_send-Kept}
use bsflite_otr.Incoming.{byte_at, left}
use bsflite_otr.Incoming.Keep.{notify-Kept}
use bsflite_otr.Requests.{build}
use bsflite_otr.Requests.Keep.{Always-ok, request-Kept}
use bsflite_otr.Dial.{connect_socks5, connect_https, connect_ssl, after}
use bsflite_otr.Dial.Keep.{connect_socks5-Kept, connect_https-Kept, connect_ssl-Kept}
use bsflite_otr.Login.{
  Found, found_none, login_loop, login_refused, dial_direct, dial, send_cookie, signon_phase2,
  challenge, answer_challenge, login_end, login_reply, md5snac, cookie_fields, host_of,
  signon_start, im_signon, u32, login_host, Packet, flap_send, name_fields,
}

pub login_refused-Kept : (h : Handle) → Kept h → Kept (login_refused h)
login_refused-Kept h v = notify-Kept h on_error (notice invalid_login) v

login_loop-Kept :
    (h : Handle) (found : Found) (ts : List Tlv) → Kept h → Kept0 (login_loop h found ts)
unfolding login_loop
login_loop-Kept h found [] v = v
login_loop-Kept h found (t ∷ ts) v =
    if-holds Kept0 (t.type == 0x0008) _ _
      (login_loop-Kept (login_refused h) found ts (login_refused-Kept h v))
      (if-holds Kept0 (t.type == 0x0005) _ _
        (login_loop-Kept h
          (record found { server = some (c_string t.value); status = found.status + 1 }) ts v)
        (if-holds Kept0 (t.type == 0x0006) _ _
          (login_loop-Kept h (record found { cookie = t.value; status = found.status + 1 }) ts v)
          (login_loop-Kept h found ts v)))

module _ (env : Env) where
  dial_direct-Kept :
      (h : Handle) (host : Text) (port : ℕ) → Kept h → Kept1 (dial_direct env h host port)
  unfolding dial_direct
  dial_direct-Kept h host port v =
      if-holds Kept1 (env.resolve host) _ _
        (choose-holds Kept1 _ _ (env.open_socket h.trace) v
          (λ n. if-holds Kept1 (env.connect_to h.trace host port) _ _ v v))
        v

  dial-Kept :
      (fuel : ℕ) (h : Handle) (host : Text) (port : ℕ) (ssl_host : Text) (ssl_port : ℕ)
      → Kept h
      → Always Kept1 (dial env fuel h host port ssl_host ssl_port)
  unfolding dial
  dial-Kept fuel h host port ssl_host ssl_port v = go h.proxymode
    where
      go :
          (mode : Proxy)
          → Always Kept1 (elim mode [
            | Proxy.socks5 ↦ (connect_socks5 env h host port >>= λ r. done (ok, r.1))
            | Proxy.https ↦ (connect_https env fuel h host port >>= λ r. done (ok, r.1))
            | Proxy.direct ↦ done (
                if h.use_ssl
                then (ok, connect_ssl env h ssl_host ssl_port)
                else dial_direct env h host port)
          ])
      go Proxy.socks5 = Always-ok _ (connect_socks5-Kept env h host port v)
      go Proxy.https = Always-ok _ (connect_https-Kept env fuel h host port v)
      go Proxy.direct =
          if-holds Kept1 h.use_ssl _ _ (connect_ssl-Kept env h ssl_host ssl_port v)
            (dial_direct-Kept h host port v)

  send_cookie-Kept :
      (cookie : List ℕ) (r : Ret × Handle) → Kept1 r → Always Kept1 (send_cookie env cookie r)
  unfolding send_cookie
  send_cookie-Kept cookie (error, h) v = v
  send_cookie-Kept cookie (ok, h) v =
      Always-bind Kept1 (build env (length cookie + 8) (cookie_fields cookie)) _
        (λ p. flap_send-Kept env h 0x01 p.bytes false v)

  pub signon_phase2-Kept :
      (fuel : ℕ) (h : Handle) (server : Option Text) (cookie : List ℕ)
      → Kept h
      → Always Kept1 (signon_phase2 env fuel h server cookie)
  unfolding signon_phase2
  signon_phase2-Kept fuel h none cookie v = tt
  signon_phase2-Kept fuel h (some server) cookie v =
      choose-holds (Always Kept1) _ _ (after b':' server) tt (λ s.
        let port = atoi s % 2 ^ 16 in
        Always-chain Kept1 Kept1 (dial env fuel h (host_of server) port (host_of server) port)
          (send_cookie env cookie) (dial-Kept fuel h (host_of server) port (host_of server) port v)
          (send_cookie-Kept cookie))

  answer_challenge-Kept :
      (h : Handle) (sn pw : Text) (authkey : List ℕ)
      → Kept h
      → Always Kept (answer_challenge env h sn pw authkey)
  unfolding answer_challenge
  answer_challenge-Kept h sn pw authkey v = Always-second _ (request-Kept env h 0x17 0x02 _ _ v)

  challenge-Kept : (h : Handle) (mem : List ℕ) → Kept h → Always Kept (challenge env h mem)
  unfolding challenge
  challenge-Kept h mem v = Always-bind Kept (two_to_16 env.machine (drop 10 mem)) _ (λ n.
      Always-bind Kept (read_mem mem 12 n) _ (λ authkey.
        choose-holds (Always Kept) _ _ h.pw tt (λ pw.
          choose-holds (Always Kept) _ _ h.sn tt (λ sn. answer_challenge-Kept h sn pw authkey v))))

  login_end-Kept : (fuel : ℕ) (r : Handle × Found) → Kept0 r → Always Kept (login_end env fuel r)
  unfolding login_end
  login_end-Kept fuel (h, found) v =
      if-holds (Always Kept) (found.status == 2) _ _
        (Always-second _ (
          signon_phase2-Kept fuel (notify h on_error (notice auth_done)) found.server found.cookie
            (notify-Kept h on_error (notice auth_done) v)))
        v

  login_reply-Kept :
      (fuel : ℕ) (h : Handle) (mem : List ℕ) (len : ℕ)
      → Kept h
      → Always Kept (login_reply env fuel h mem len)
  unfolding login_reply
  login_reply-Kept fuel h mem len v =
      Always-bind Kept (count_tlv env.machine (drop 10 mem) (left len 10)) _ (λ numtlv.
        Always-bind Kept (tlv_split env.machine (drop 10 mem) (left len 10) numtlv) _ (λ ts.
          login_end-Kept fuel (login_loop h found_none ts) (login_loop-Kept h found_none ts v)))

  pub md5snac-Kept :
      (fuel : ℕ) (h : Handle) (mem : List ℕ) (len : ℕ)
      → Kept h
      → Always Kept (md5snac env fuel h mem len)
  unfolding md5snac
  md5snac-Kept fuel h mem len v = Always-bind Kept (byte_at mem 3) _ (λ b.
      if-holds (Always Kept) (b == 0x07) _ _ (challenge-Kept h mem v)
        (if-holds (Always Kept) (b == 0x03) _ _ (login_reply-Kept fuel h mem len v) v))

  signon_start-Kept :
      (sn pw : Text) (r : Ret × Handle) → Kept1 r → Always Kept1 (signon_start env sn pw r)
  unfolding signon_start
  signon_start-Kept sn pw (error, h) v = v
  signon_start-Kept sn pw (ok, h) v =
      Always-bind Kept1 (build env 4 (u32 0x00000001 ∷ [])) _ (λ (q : Packet).
        Always-chain Kept1 Kept1
          (flap_send env (record h { pw = some pw; sn = some sn }) 0x01 q.bytes false) _
          (flap_send-Kept env (record h { pw = some pw; sn = some sn }) 0x01 q.bytes false v)
          (λ r w. request-Kept env r.1 0x17 0x06 (12 + length sn) (name_fields sn) w))

  pub im_signon-Kept :
      (fuel : ℕ) (h : Handle) (sn pw : Text) → Kept h → Always Kept1 (im_signon env fuel h sn pw)
  unfolding im_signon
  im_signon-Kept fuel h sn pw v =
      Always-chain Kept1 Kept1 (dial env fuel h login_host h.oscarport (b's' ∷ login_host) 443) _
        (dial-Kept fuel h login_host h.oscarport (b's' ∷ login_host) 443 v)
        (signon_start-Kept sn pw)
