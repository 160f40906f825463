-- ===== src/Login.antt =====
-- imcomm/bos_signon.c with MD5_LOGIN, as it is compiled on Unix. A handle's digest is the parameter
-- `md5`; closing the old connection leaves nothing in the model.
pub mod Exact
pub mod Keep
use bsflite_otr.Base.{
  ℕ, zero, suc, ◌+◌, ◌%◌, ◌^◌, ◌*◌, Bool, true, false, not, ◌&&◌, Option, none, some, List, [], ◌∷◌,
  ◌++◌, length, take, drop, Run, done, fault, ◌>>=◌, read_mem, ltb, ◌==◌, if◌then◌else◌, choose,
}
use bsflite_otr.Bytes.{two_to_16}
use bsflite_otr.Packet.{Packet, Ret, ok, error, Field, u8, u16, u32, raw, pkt_init_p, pkt_get16}
use bsflite_otr.Tlv.{Tlv, tlv_split, count_tlv}
use bsflite_otr.Session.{
  Text, Handle, Env, Socket, Proxy, notify, on_error, notice, invalid_login, auth_done,
  migration_done,
}
use bsflite_otr.Names.{c_string}
use bsflite_otr.Incoming.{byte_at, left}
use bsflite_otr.Flap.{flap_send}
use bsflite_otr.Requests.{build, request, ok_of}
use bsflite_otr.Numerals.{atoi}
use bsflite_otr.Dial.{after, connect_socks5, connect_https, connect_ssl}

abbrev pub login_host : Text
login_host =
    b'l' ∷ b'o' ∷ b'g' ∷ b'i' ∷ b'n' ∷ b'.' ∷ b'o' ∷ b's' ∷ b'c' ∷ b'a' ∷ b'r' ∷ b'.' ∷ b'a' ∷ b'o'
    ∷ b'l' ∷ b'.' ∷ b'c' ∷ b'o' ∷ b'm' ∷ []

abbrev client_ident : Text
client_ident = b'A' ∷ b'p' ∷ b'p' ∷ b'l' ∷ b'e' ∷ b' ' ∷ b'i' ∷ b'C' ∷ b'h' ∷ b'a' ∷ b't' ∷ []

-- `AIM_MD5_STRING`
abbrev pub md5_string : Text
md5_string =
    b'A' ∷ b'O' ∷ b'L' ∷ b' ' ∷ b'I' ∷ b'n' ∷ b's' ∷ b't' ∷ b'a' ∷ b'n' ∷ b't' ∷ b' ' ∷ b'M' ∷ b'e'
    ∷ b's' ∷ b's' ∷ b'e' ∷ b'n' ∷ b'g' ∷ b'e' ∷ b'r' ∷ b' ' ∷ b'(' ∷ b'S' ∷ b'M' ∷ b')' ∷ []

-- `for (x = 0; …) if (host[x] == ':') { host[x] = 0; break; }`
pub host_of : Text → Text
host_of [] = []
host_of (c ∷ s) = let rest = host_of s in if c == b':' then [] else c ∷ rest

-- The fields of the three packets of a login: the name, the answer to the challenge, and the cookie.
abbrev pub name_fields : Text → List Field
name_fields sn =
    u16 0x0001 ∷ u16 (length sn) ∷ raw sn ∷ u16 0x004B ∷ u16 0x0000 ∷ u16 0x005A ∷ u16 0x0000 ∷ []

abbrev pub answer_fields : Text → List ℕ → List Field
answer_fields sn auth_hash =
    u16 0x0001
    ∷ u16 (length sn)
    ∷ raw sn
    ∷ u16 0x0025
    ∷ u16 0x0010
    ∷ raw auth_hash
    ∷ u16 0x0003
    ∷ u16 (length client_ident)
    ∷ raw client_ident
    ∷ u16 0x0016
    ∷ u16 0x0002
    ∷ u16 0x311a
    ∷ u16 0x0017
    ∷ u16 0x0002
    ∷ u16 0x0001
    ∷ u16 0x0018
    ∷ u16 0x0002
    ∷ u16 0x0000
    ∷ u16 0x0019
    ∷ u16 0x0002
    ∷ u16 0x0000
    ∷ u16 0x001A
    ∷ u16 0x0002
    ∷ u16 0x003c
    ∷ u16 0x0014
    ∷ u16 0x0004
    ∷ u32 0x00000c6
    ∷ u16 0x000F
    ∷ u16 0x0002
    ∷ raw (b'e' ∷ b'n' ∷ [])
    ∷ u16 0x000E
    ∷ u16 0x0002
    ∷ raw (b'u' ∷ b's' ∷ [])
    ∷ u16 0x004A
    ∷ u16 0x0001
    ∷ u8 0x01
    ∷ []

abbrev pub answer_size : Text → ℕ
answer_size sn = 67 + length client_ident + 16 + length sn

abbrev pub cookie_fields : List ℕ → List Field
cookie_fields cookie = u32 0x00000001 ∷ u16 0x0006 ∷ u16 (length cookie) ∷ raw cookie ∷ []

-- What the loops over the TLVs of a login gather; `server` is null at first.
pub record Found : Type 0 where
  pub server : Option Text
  pub cookie : List ℕ
  pub status : ℕ

abbrev pub found_none : Found
found_none = record { server = none; cookie = []; status = 0 }

-- The loop of `handle_srv_migration`.
migration_loop : Found → List Tlv → Found
migration_loop found [] = found
migration_loop found (t ∷ ts) =
    if t.type == 0x0005
    then migration_loop
        (record found { server = some (c_string t.value); status = found.status + 1 }) ts
    else if t.type == 0x0006
    then migration_loop (record found { cookie = t.value; status = found.status + 1 }) ts
    else migration_loop found ts

-- The loop of `bos_md5snac`, which also ends a login that is refused.
abbrev pub login_refused : Handle → Handle
login_refused h = record (notify h on_error (notice invalid_login)) { socket = Socket.closed }

pub login_loop : Handle → Found → List Tlv → Handle × Found
login_loop h found [] = (h, found)
login_loop h found (t ∷ ts) =
    if t.type == 0x0008
    then login_loop (login_refused h) found ts
    else if t.type == 0x0005
    then login_loop h (record found { server = some (c_string t.value); status = found.status + 1 })
        ts
    else if t.type == 0x0006
    then login_loop h (record found { cookie = t.value; status = found.status + 1 }) ts
    else login_loop h found ts

module _ (env : Env) where
  open env use {machine, resolve, open_socket, connect_to, md5}

  -- The connection without a proxy and without SSL.
  unfoldable pub dial_direct : Handle → Text → ℕ → Ret × Handle
  dial_direct h host port =
      if resolve host
      then choose (error, record h { socket = Socket.closed })
          (λ (n : ℕ).
            (let h' = record h { socket = Socket.fd n } in
              if connect_to h.trace host port then (ok, h') else (error, h')))
          (open_socket h.trace)
      else (error, h)

  -- The connection by the mode of the handle; what a proxy or SSL says is not looked at. The fuel is
  -- for the answer of an HTTPS proxy.
  unfoldable pub dial : ℕ → Handle → Text → ℕ → Text → ℕ → Run (Ret × Handle)
  dial fuel h host port ssl_host ssl_port = elim h.proxymode [
    | Proxy.socks5 ↦ (connect_socks5 env h host port >>= λ r. done (ok_of r))
    | Proxy.https ↦ (connect_https env fuel h host port >>= λ r. done (ok_of r))
    | Proxy.direct ↦
        done
          (if h.use_ssl then (ok, connect_ssl env h ssl_host ssl_port) else dial_direct h host port)
  ]

  -- `imcomm_im_signon` once the connection is made.
  pub signon_start : Text → Text → Ret × Handle → Run (Ret × Handle)
  signon_start sn pw (error, h) = done (error, h)
  signon_start sn pw (ok, h) = do
    q ← build env 4 (u32 0x00000001 ∷ [])
    (status, h) ← flap_send env (record h { pw = some pw; sn = some sn }) 0x01 q.bytes false
    request env h 0x17 0x06 (12 + length sn) (name_fields sn)

  -- `imcomm_im_signon`
  pub im_signon : ℕ → Handle → Text → Text → Run (Ret × Handle)
  im_signon fuel h sn pw = do
    r ← dial fuel h login_host h.oscarport (b's' ∷ login_host) 443
    signon_start sn pw r

  -- `bos_signon_phase2` once the connection is made.
  pub send_cookie : List ℕ → Ret × Handle → Run (Ret × Handle)
  send_cookie cookie (error, h) = done (error, h)
  send_cookie cookie (ok, h) = do
    p ← build env (length cookie + 8) (cookie_fields cookie)
    flap_send env h 0x01 p.bytes false

  -- `bos_signon_phase2`; a null server, or one without a port, is read as a null pointer.
  pub signon_phase2 : ℕ → Handle → Option Text → List ℕ → Run (Ret × Handle)
  signon_phase2 fuel h none cookie = fault
  signon_phase2 fuel h (some server) cookie =
      choose fault
        (λ (s : Text). (do
          let port = atoi s % 2 ^ 16
          r ← dial fuel h (host_of server) port (host_of server) port
          send_cookie cookie r))
        (after b':' server)

  -- `handle_srv_migration`, which nothing calls.
  srv_migration : ℕ → Handle → List ℕ → ℕ → Run Handle
  srv_migration fuel h mem len = do
    (num_family, q) ← pkt_get16 machine (pkt_init_p (drop 10 mem) (left len 10))
    let proceed = (do
      let h = record h { srv_pause = false }
      ts ← tlv_split machine (drop (12 + num_family * 2) mem) (left len (12 + num_family * 2)) 0
      let found = migration_loop found_none ts
      (status, h) ←
          signon_phase2 fuel (notify h on_error (notice migration_done)) found.server found.cookie
      done h)
    if not (num_family == 0) && not (num_family == h.num_families) then done h else proceed

  -- The answer of `bos_md5snac` to the challenge; a password or a name that is not set is a null
  -- pointer.
  pub answer_challenge : Handle → Text → Text → List ℕ → Run Handle
  answer_challenge h sn pw authkey = do
    (status, h) ←
        request env h 0x17 0x02 (answer_size sn)
          (answer_fields sn (md5 (authkey ++ (pw ++ md5_string))))
    done h

  pub challenge : Handle → List ℕ → Run Handle
  challenge h mem = do
    authkeylen ← two_to_16 machine (drop 10 mem)
    authkey ← read_mem mem 12 authkeylen
    choose fault
        (λ (pw : Text). choose fault (λ (sn : Text). answer_challenge h sn pw authkey) h.sn) h.pw

  -- The end of a login: with a server and a cookie, the second phase.
  pub login_end : ℕ → Handle × Found → Run Handle
  login_end fuel (h, found) =
      let go = (do
        (status, h) ←
            signon_phase2 fuel (notify h on_error (notice auth_done)) found.server found.cookie
        done h) in
      if found.status == 2 then go else done h

  pub login_reply : ℕ → Handle → List ℕ → ℕ → Run Handle
  login_reply fuel h mem len = do
    numtlv ← count_tlv machine (drop 10 mem) (left len 10)
    ts ← tlv_split machine (drop 10 mem) (left len 10) numtlv
    login_end fuel (login_loop h found_none ts)

  -- `bos_md5snac`
  pub md5snac : ℕ → Handle → List ℕ → ℕ → Run Handle
  md5snac fuel h mem len = do
    b ← byte_at mem 3
    if b == 0x07 then challenge h mem else if b == 0x03 then login_reply fuel h mem len else done h
