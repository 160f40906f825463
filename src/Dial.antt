-- ===== src/Dial.antt =====
-- Connecting: imcomm/proxy.c and `connect_ssl` of imcomm/ssl.c. `ssl_init` is a chain of calls of OpenSSL,
-- and is left out: its result is the SSL handle, which the model does not have.
pub mod Keep
use bsflite_otr.Base.{
  ℕ, zero, suc, ◌+◌, ◌%◌, ◌^◌, Bool, true, false, not, ◌&&◌, Option, none, some, List, [], ◌∷◌,
  ◌++◌, length, take, drop, Run, done, fault, unfinished, ◌>>=◌, ltb, ◌==◌, if◌then◌else◌, choose,
}
use bsflite_otr.Packet.{Packet, Ret, ok, error, Field, u8, u16, raw, add_fields, pkt_init}
use bsflite_otr.Session.{
  Text, Handle, Env, Socket, Read, broken, got, notify, record_event, on_error, notice,
  disconnected, proxy_failed, ProxyError, sent, received, read_failed,
}
use bsflite_otr.Names.{c_string}
use bsflite_otr.Numerals.{decimal, atoi}
use bsflite_otr.Flap.{failed}

-- What a connection attempt does to a handle.
abbrev failed_with : Handle → ProxyError → Ret × Handle
failed_with h e = (error, notify h on_error (proxy_failed e))

-- The buffer after `recv(…, buf, …)`.
pub fill : List ℕ → Read → List ℕ
fill buf broken = buf
fill buf (got bs) = bs ++ drop (length bs) buf

-- `buf[i]`
pub at_byte : List ℕ → ℕ → Run ℕ
at_byte [] i = fault
at_byte (b ∷ bs) zero = done b
at_byte (b ∷ bs) (suc i) = at_byte bs i

-- `strchr(s, c) + 1`
unfoldable pub after : ℕ → Text → Option Text
after c [] = none
after c (d ∷ s) = let rest = after c s in if d == c then some s else rest

abbrev pub crlf2 : Text
crlf2 = 13 ∷ 10 ∷ 13 ∷ 10 ∷ []

unfoldable pub starts : Text → Text → Bool
starts [] s = true
starts (a ∷ p) [] = false
starts (a ∷ p) (c ∷ s) = (a == c) && starts p s

-- `strstr(s, p) != NULL`
pub contains : Text → Text → Bool
contains p [] = starts p []
contains p (c ∷ s) = let later = contains p s in if starts p (c ∷ s) then true else later

abbrev connect_word : Text
connect_word = b'C' ∷ b'O' ∷ b'N' ∷ b'N' ∷ b'E' ∷ b'C' ∷ b'T' ∷ b' ' ∷ []

abbrev http_headers : Text
http_headers =
    b' ' ∷ b'H' ∷ b'T' ∷ b'T' ∷ b'P' ∷ b'/' ∷ b'1' ∷ b'.' ∷ b'0' ∷ 13 ∷ 10 ∷ b'U' ∷ b's' ∷ b'e'
    ∷ b'r' ∷ b'-' ∷ b'a' ∷ b'g' ∷ b'e' ∷ b'n' ∷ b't' ∷ b':' ∷ b' ' ∷ b'M' ∷ b'o' ∷ b'z' ∷ b'i'
    ∷ b'l' ∷ b'l' ∷ b'a' ∷ b'/' ∷ b'5' ∷ b'.' ∷ b'0' ∷ b' ' ∷ b'(' ∷ b'W' ∷ b'i' ∷ b'n' ∷ b'd'
    ∷ b'o' ∷ b'w' ∷ b's' ∷ 59 ∷ b' ' ∷ b'U' ∷ 59 ∷ b' ' ∷ b'W' ∷ b'i' ∷ b'n' ∷ b'd' ∷ b'o' ∷ b'w'
    ∷ b's' ∷ b' ' ∷ b'N' ∷ b'T' ∷ b' ' ∷ b'5' ∷ b'.' ∷ b'1' ∷ 59 ∷ b' ' ∷ b'e' ∷ b'n' ∷ b'-' ∷ b'U'
    ∷ b'S' ∷ 59 ∷ b' ' ∷ b'r' ∷ b'v' ∷ b':' ∷ b'1' ∷ b'.' ∷ b'0' ∷ b'.' ∷ b'2' ∷ b')' ∷ b' ' ∷ b'G'
    ∷ b'e' ∷ b'c' ∷ b'k' ∷ b'o' ∷ b'/' ∷ b'2' ∷ b'0' ∷ b'0' ∷ b'2' ∷ b'1' ∷ b'1' ∷ b'2' ∷ b'0'
    ∷ b' ' ∷ b'N' ∷ b'e' ∷ b't' ∷ b's' ∷ b'c' ∷ b'a' ∷ b'p' ∷ b'e' ∷ b'/' ∷ b'7' ∷ b'.' ∷ b'0'
    ∷ b'1' ∷ 13 ∷ 10 ∷ 13 ∷ 10 ∷ []

-- The request of `connect_https`, cut off at the size of the buffer.
pub https_request : Text → ℕ → Text
https_request host port =
    take 511 (connect_word ++ (host ++ (b':' ∷ (decimal port ++ http_headers))))

module _ (env : Env) where
  open env use {machine, fresh, write, open_socket, connect_to, receive}

  -- `recv`, and what it leaves in the trace.
  unfoldable pub recv : Handle → ℕ → Read × Handle
  recv h n =
      let r = receive h.trace n in
      (r, record_event h (elim r [ broken ↦ read_failed | got bs ↦ received bs ]))

  -- `socket` and `connect`, as all three functions call them.
  pub open_to : Handle → Text → ℕ → Ret × Handle
  open_to h name port =
      choose (failed_with (record h { socket = Socket.closed }) ProxyError.connect)
        (λ (n : ℕ).
          (let h' = record h { socket = Socket.fd n } in
            if connect_to h.trace name port then (ok, h') else failed_with h' ProxyError.connect))
        (open_socket h.trace)

  -- `send(…) < 0`: the handle is closed and the client is told.
  pub send_bytes : Handle → List ℕ → Ret × Handle
  send_bytes h bytes =
      if failed (write h.trace bytes)
      then (error, record (notify h on_error (notice disconnected)) { socket = Socket.closed })
      else (ok, record_event h (sent bytes))

  abbrev pub refused : Handle → ProxyError → Ret × Handle
  refused h e = (error, record (notify h on_error (proxy_failed e)) { socket = Socket.closed })

  -- The rest of `connect_socks5` after the answer to the request, by the type of its address.
  pub socks5_address : Handle → List ℕ → ℕ → Run (Ret × Handle)
  socks5_address h buf type =
      let name = (do
        let (r, h') = recv h 1
        len ← at_byte (fill (fresh 1) r) 0
        let (r', h'') = recv h' (len + 2)
        done (ok, h'')) in
      let number = (let (r, h') = recv h 6 in done (ok, h')) in
      if type == 3 then name else if type == 1 then number else done (refused h ProxyError.unknown)

  -- The answer to the request.
  pub socks5_answer : Ret × Handle → List ℕ → Run (Ret × Handle)
  socks5_answer (error, h) buf = done (error, h)
  socks5_answer (ok, h) buf = do
    let (r, h') = recv h 4
    let buf' = fill buf r
    status ← at_byte buf' 1
    type ← at_byte buf' 3
    if status == 0 then socks5_address h' buf' type else done (refused h' ProxyError.proxy_connect)

  -- The answer to the greeting, and the request.
  pub socks5_request : Ret × Handle → List ℕ → Text → ℕ → Run (Ret × Handle)
  socks5_request (error, h) buf host port = done (error, h)
  socks5_request (ok, h) buf host port = do
    let (r, h') = recv h 2
    let buf' = fill buf r
    status ← at_byte buf' 1
    p ←
        add_fields machine (pkt_init (fresh (7 + length host)) (7 + length host))
          (u8 0x05 ∷ u8 0x01 ∷ u8 0x00 ∷ u8 0x03 ∷ u8 (length host) ∷ raw host ∷ u16 port ∷ [])
    if status == 0
        then socks5_answer (send_bytes h' p.bytes) buf'
        else done (failed_with h' ProxyError.auth)

  pub socks5_greet : Ret × Handle → Text → ℕ → Run (Ret × Handle)
  socks5_greet (error, h) host port = done (error, h)
  socks5_greet (ok, h) host port = do
    p ← add_fields machine (pkt_init (fresh 3) 3) (u8 0x05 ∷ u8 0x01 ∷ u8 0x00 ∷ [])
    socks5_request (send_bytes h p.bytes) (fresh 512) host port

  -- `connect_socks5`; a proxy that is not set is a null pointer.
  pub connect_socks5 : Handle → Text → ℕ → Run (Ret × Handle)
  connect_socks5 h host port =
      choose fault (λ (server : Text). socks5_greet (open_to h server h.proxyport) host port)
        h.proxyserver

  -- `received = recv(…, sizeof(sockbuf), 0); sockbuf[received] = 0`: a failure writes before the buffer,
  -- and a full buffer has no room for the NUL.
  pub recv_text : Handle → List ℕ → Run (List ℕ × Handle)
  recv_text h buf =
      let (r, h') = recv h 512 in
      elim r [
        | broken ↦ fault
        | got bs ↦
            if ltb (length bs) 512 then done (bs ++ (0 ∷ drop (length bs + 1) buf), h') else fault
      ]

  -- The loop that reads on to the end of the headers.
  pub https_loop : ℕ → Handle → List ℕ → Run Handle
  https_loop zero h buf = unfinished
  https_loop (suc fuel) h buf =
      let more = (do (buf', h') ← recv_text h buf; https_loop fuel h' buf') in
      if contains crlf2 (c_string buf) then done h else more

  pub https_answer : ℕ → Ret × Handle → Run (Ret × Handle)
  https_answer fuel (error, h) = done (error, h)
  https_answer fuel (ok, h) = do
    (buf, h') ← recv_text h (fresh 512)
    let rest = (do h'' ← https_loop fuel h' buf; done (ok, h''))
    elim (after b' ' (c_string buf)) [
      | none ↦ fault
      | some s ↦ if atoi s == 200 then rest else done (refused h' ProxyError.proxy_connect)
    ]

  pub https_ask : ℕ → Ret × Handle → Text → ℕ → Run (Ret × Handle)
  https_ask fuel (error, h) host port = done (error, h)
  https_ask fuel (ok, h) host port = https_answer fuel (send_bytes h (https_request host port))

  -- `connect_https`
  pub connect_https : ℕ → Handle → Text → ℕ → Run (Ret × Handle)
  connect_https fuel h host port =
      choose fault (λ (server : Text). https_ask fuel (open_to h server h.proxyport) host port)
        h.proxyserver

  -- `connect_ssl`, whose result no caller looks at.
  pub ssl_end : Ret × Handle → Handle
  ssl_end (error, h) = h
  ssl_end (ok, h) = record h { use_ssl = true }

  pub connect_ssl : Handle → Text → ℕ → Handle
  connect_ssl h host port = ssl_end (open_to h host port)
