-- ===== src/Receive.antt =====
-- `flap_decode` of imcomm/flap.c, and the part of `imcomm_select` in imcomm/imcomm.c that reads a frame,
-- as it is compiled with FULL_PACKET_AT_ONCE and ENABLE_SSL.
pub mod Stream
pub mod Frame
pub mod Faults
pub mod Signon
pub mod Keep
use bsflite_otr.Base.{
  ℕ, zero, suc, ◌+◌, ◌-◌, ◌%◌, ◌^◌, Bool, true, false, Option, none, some, List, [], ◌∷◌, ◌++◌,
  length, take, drop, Run, done, fault, unfinished, ◌>>=◌, ltb, leb, ◌==◌, if◌then◌else◌, choose,
}
use bsflite_otr.Bytes.{two_to_16}
use bsflite_otr.Packet.{Packet, Ret, ok, error, pkt_init_p, pkt_get16, pkt_get_str}
use bsflite_otr.Session.{
  Handle, Env, Socket, Read, broken, got, notify, on_error, on_formatted_sn, notice, formatted_sn,
  disconnected, other_signon, auth_done,
}
use bsflite_otr.Names.{c_string}
use bsflite_otr.Incoming.{byte_at}
use bsflite_otr.Dial.{recv}
use bsflite_otr.Login.{signon_phase2, login_refused}
use bsflite_otr.Dispatch.{Answer, plain, fine}
use bsflite_otr.Dispatch.Decode.{snac_decode}

-- `buf + pos` after a read of `bs` into it.
abbrev pub store_at : List ℕ → ℕ → List ℕ → List ℕ
store_at buf pos bs = take pos buf ++ (bs ++ drop (pos + length bs) buf)

-- A connection that is lost while a frame is read.
abbrev pub lose : Handle → Handle
lose h =
    notify (record h { socket = Socket.closed; connected = false }) on_error (notice disconnected)

module _ (env : Env) where
  open env use {machine, fresh}

  -- `do … while (bytesread < n)` on a socket: what `recv` returns is added to `bytesread`, and a sum
  -- that is not positive ends the connection. A -1 behind the first byte takes one byte back.
  pub plain_loop : ℕ → Handle → List ℕ → ℕ → ℕ → Run (Option (List ℕ) × Handle)
  plain_loop zero h buf n bytesread = unfinished
  plain_loop (suc fuel) h buf n bytesread =
      let (r, h') = recv env h (n - bytesread) in
      elim r [
        | broken ↦
            (let back = plain_loop fuel h' buf n (bytesread - 1) in
              if leb bytesread 1 then done (none, lose h') else back)
        | got bs ↦
            (let buf' = store_at buf bytesread bs in
              let sum = bytesread + length bs in
              let more = plain_loop fuel h' buf' n sum in
              if sum == 0
              then done (none, lose h')
              else if ltb sum n
              then more
              else done (some buf', h'))
      ]

  -- The same with `SSL_read`, where only a negative result ends the connection.
  pub ssl_loop : ℕ → Handle → List ℕ → ℕ → ℕ → Run (Option (List ℕ) × Handle)
  ssl_loop zero h buf n bytesread = unfinished
  ssl_loop (suc fuel) h buf n bytesread =
      let (r, h') = recv env h (n - bytesread) in
      elim r [
        | broken ↦ done (none, lose h')
        | got bs ↦
            (let buf' = store_at buf bytesread bs in
              let sum = bytesread + length bs in
              let more = ssl_loop fuel h' buf' n sum in
              if ltb sum n then more else done (some buf', h'))
      ]

  pub read_bytes : ℕ → Handle → ℕ → Run (Option (List ℕ) × Handle)
  read_bytes fuel h n =
      if h.use_ssl then ssl_loop fuel h (fresh n) n 0 else plain_loop fuel h (fresh n) n 0

  -- A header of six bytes, and as many bytes of data as it says.
  pub read_data : ℕ → Option (List ℕ) × Handle → Run (Option (List ℕ × List ℕ) × Handle)
  read_data fuel (none, h) = done (none, h)
  read_data fuel (some header, h) = do
    data_len ← two_to_16 machine (drop 4 header)
    (got_data, h) ← read_bytes fuel h data_len
    done (choose none (λ (bs : List ℕ). some (header, bs)) got_data, h)

  pub read_frame : ℕ → Handle → Run (Option (List ℕ × List ℕ) × Handle)
  read_frame fuel h = do r ← read_bytes fuel h 6; read_data fuel r

  -- The answer to a login without MD5, behind the name.
  pub decode_cookie : ℕ → Handle → Packet → Run Answer
  decode_cookie fuel h p = do
    (subfamily, p) ← pkt_get16 machine p
    let signed_on = (do
      (server_len, p) ← pkt_get16 machine p
      (server, p) ← pkt_get_str p server_len
      (next, p) ← pkt_get16 machine p
      (cookie_len, p) ← pkt_get16 machine p
      (cookie, p) ← pkt_get_str p cookie_len
      r ←
          signon_phase2 env fuel (notify h on_error (notice auth_done)) (some (c_string server))
            (take cookie_len cookie)
      done (plain r))
    if subfamily == 0x0005
        then signed_on
        else if subfamily == 0x0008
        then done (fine (login_refused h))
        else if subfamily == 0x0004
        then done (fine (login_refused h))
        else done (fine h)

  -- Channel 4: the end of a connection, or an answer to a login.
  pub decode_close : ℕ → Handle → Packet → Run Answer
  decode_close fuel h p = do
    (family, p) ← pkt_get16 machine p
    let moved = (do
      (subfamily, p) ← pkt_get16 machine p
      done (
          fine (
            if subfamily == 0x0002
            then record (notify h on_error (notice other_signon)) { socket = Socket.closed }
            else h)))
    let named = (do
      (sn_len, p) ← pkt_get16 machine p
      (sn, p) ← pkt_get_str p sn_len
      decode_cookie fuel (notify h on_formatted_sn (formatted_sn (c_string sn))) p)
    if family == 0x0009 then moved else if family == 0x0001 then named else done (fine h)

  -- `flap_decode`
  pub flap_decode : ℕ → Handle → List Handle → Handle → ℕ → List ℕ → List ℕ → Run Answer
  flap_decode fuel h others block id header mem = do
    len ← two_to_16 machine (drop 4 header)
    channel ← byte_at header 1
    if channel == 0x02
        then snac_decode env fuel h others block id mem len
        else if channel == 0x04
        then decode_close fuel h (pkt_init_p mem len)
        else done (fine h)
