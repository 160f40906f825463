-- ===== src/Receive/Keep.antt =====
-- Reading and decoding a frame keep the roster.
use bsflite_otr.Base.{
  Always, Always-bind, Always-chain, if-holds, ℕ, zero, suc, ◌+◌, ◌-◌, ◌==◌, ltb, leb, Option, none,
  some, List, length, drop, take, done, if◌then◌else◌, false,
}
use bsflite_otr.Bytes.{two_to_16}
use bsflite_otr.Packet.{ok, Packet, pkt_init_p, pkt_get16, pkt_get_str}
use bsflite_otr.Session.{
  Handle, Env, Socket, Read, notify, on_error, on_formatted_sn, notice, formatted_sn, disconnected,
  other_signon, auth_done,
}
use bsflite_otr.Names.{c_string}
use bsflite_otr.Flap.Keep.{Kept, Kept1}
use bsflite_otr.Incoming.{byte_at}
use bsflite_otr.Incoming.Keep.{notify-Kept}
use bsflite_otr.Dial.{recv}
use bsflite_otr.Login.{signon_phase2, login_refused}
use bsflite_otr.Login.Keep.{login_refused-Kept, signon_phase2-Kept}
use bsflite_otr.Dispatch.Safe.{Sound, snac_decode-IsRoster}
use bsflite_otr.Dispatch.{plain}
use bsflite_otr.Receive.{
  store_at, lose, plain_loop, ssl_loop, read_bytes, read_data, read_frame, decode_cookie,
  decode_close, flap_decode,
}

lose-Kept : (h : Handle) → Kept h → Kept (lose h)
lose-Kept h v =
    notify-Kept (record h { socket = Socket.closed; connected = false }) on_error
      (notice disconnected) v

module _ (env : Env) where
  plain_loop-Kept :
      (fuel : ℕ) (h : Handle) (buf : List ℕ) (n pos : ℕ)
      → Kept h
      → Always Kept1 (plain_loop env fuel h buf n pos)
  unfolding plain_loop recv
  plain_loop-Kept zero h buf n pos v = tt
  plain_loop-Kept (suc fuel) h buf n pos v =
      go (λ b p. plain_loop-Kept fuel _ b n p v) (env.receive h.trace (n - pos))
    where
      h' : Handle
      h' = (recv env h (n - pos)).1

      go :
          ((b : List ℕ) (p : ℕ) → Always Kept1 (plain_loop env fuel h' b n p))
          → (r : Read)
          → Always Kept1 (elim r [
            | Read.broken ↦
                (if leb pos 1 then done (none, lose h') else plain_loop env fuel h' buf n (pos - 1))
            | Read.got bs ↦
                (if pos + length bs == 0
                  then done (none, lose h')
                  else if ltb (pos + length bs) n
                  then plain_loop env fuel h' (store_at buf pos bs) n (pos + length bs)
                  else done (some (store_at buf pos bs), h'))
          ])
      go again Read.broken =
          if-holds (Always Kept1) (leb pos 1) _ _ (lose-Kept h' v) (again buf (pos - 1))
      go again (Read.got bs) = if-holds (Always Kept1) (pos + length bs == 0) _ _ (lose-Kept h' v) (
          if-holds (Always Kept1) (ltb (pos + length bs) n) _ _
            (again (store_at buf pos bs) (pos + length bs)) v)

  ssl_loop-Kept :
      (fuel : ℕ) (h : Handle) (buf : List ℕ) (n pos : ℕ)
      → Kept h
      → Always Kept1 (ssl_loop env fuel h buf n pos)
  unfolding ssl_loop recv
  ssl_loop-Kept zero h buf n pos v = tt
  ssl_loop-Kept (suc fuel) h buf n pos v =
      go (λ b p. ssl_loop-Kept fuel _ b n p v) (env.receive h.trace (n - pos))
    where
      h' : Handle
      h' = (recv env h (n - pos)).1

      go :
          ((b : List ℕ) (p : ℕ) → Always Kept1 (ssl_loop env fuel h' b n p))
          → (r : Read)
          → Always Kept1 (elim r [
            | Read.broken ↦ done (none, lose h')
            | Read.got bs ↦
                (if ltb (pos + length bs) n
                  then ssl_loop env fuel h' (store_at buf pos bs) n (pos + length bs)
                  else done (some (store_at buf pos bs), h'))
          ])
      go again Read.broken = lose-Kept h' v
      go again (Read.got bs) =
          if-holds (Always Kept1) (ltb (pos + length bs) n) _ _
            (again (store_at buf pos bs) (pos + length bs)) v

  read_bytes-Kept :
      (fuel : ℕ) (h : Handle) (n : ℕ) → Kept h → Always Kept1 (read_bytes env fuel h n)
  unfolding read_bytes
  read_bytes-Kept fuel h n v =
      if-holds (Always Kept1) h.use_ssl _ _ (ssl_loop-Kept fuel h (env.fresh n) n 0 v)
        (plain_loop-Kept fuel h (env.fresh n) n 0 v)

  read_data-Kept :
      (fuel : ℕ) (r : Option (List ℕ) × Handle) → Kept1 r → Always Kept1 (read_data env fuel r)
  unfolding read_data
  read_data-Kept fuel (none, h) v = v
  read_data-Kept fuel (some header, h) v =
      Always-bind Kept1 (two_to_16 env.machine (drop 4 header)) _ (λ n.
        Always-chain Kept1 Kept1 (read_bytes env fuel h n) _ (read_bytes-Kept fuel h n v)
          (λ r w. w))

  pub read_frame-Kept : (fuel : ℕ) (h : Handle) → Kept h → Always Kept1 (read_frame env fuel h)
  unfolding read_frame
  read_frame-Kept fuel h v =
      Always-chain Kept1 Kept1 (read_bytes env fuel h 6) (read_data env fuel)
        (read_bytes-Kept fuel h 6 v) (read_data-Kept fuel)

  decode_cookie-Sound :
      (fuel : ℕ) (h : Handle) (p : Packet) → Kept h → Always Sound (decode_cookie env fuel h p)
  unfolding decode_cookie
  decode_cookie-Sound fuel h p v = Always-bind Sound (pkt_get16 env.machine p) _ (λ sub.
      let told = notify h on_error (notice auth_done) in
      let get = pkt_get16 env.machine in
      let signed_on = Always-bind Sound (get sub.1) _ (λ n.
        Always-bind Sound (pkt_get_str n.1 n.0) _ (λ server.
          Always-bind Sound (get server.1) _ (λ next. Always-bind Sound (get next.1) _ (λ k.
            Always-bind Sound (pkt_get_str k.1 k.0) _ (λ cookie.
              Always-chain Kept1 Sound
                (signon_phase2 env fuel told (some (c_string server.0)) (take k.0 cookie.0))
                (λ r. done (plain r))
                (signon_phase2-Kept env fuel told (some (c_string server.0)) (take k.0 cookie.0)
                  (notify-Kept h on_error (notice auth_done) v))
                (λ r w. (w, tt))))))) in
      let refused : Sound (plain (ok, login_refused h)) = (login_refused-Kept h v, tt) in
      if-holds (Always Sound) (sub.0 == 0x0005) _ _ signed_on (
        if-holds (Always Sound) (sub.0 == 0x0008) _ _ refused
          (if-holds (Always Sound) (sub.0 == 0x0004) _ _ refused (v, tt))))

  decode_close-Sound :
      (fuel : ℕ) (h : Handle) (p : Packet) → Kept h → Always Sound (decode_close env fuel h p)
  unfolding decode_close
  decode_close-Sound fuel h p v = Always-bind Sound (pkt_get16 env.machine p) _ (λ family.
      let moved = Always-bind Sound (pkt_get16 env.machine family.1) _ (λ sub. (
        if-holds Kept (sub.0 == 0x0002) _ _ (notify-Kept h on_error (notice other_signon) v) v,
        tt,
      )) in
      let named = Always-bind Sound (pkt_get16 env.machine family.1) _ (λ n.
        Always-bind Sound (pkt_get_str n.1 n.0) _ (λ sn.
          decode_cookie-Sound fuel (notify h on_formatted_sn (formatted_sn (c_string sn.0))) sn.1
            (notify-Kept h on_formatted_sn (formatted_sn (c_string sn.0)) v))) in
      if-holds (Always Sound) (family.0 == 0x0009) _ _ moved
        (if-holds (Always Sound) (family.0 == 0x0001) _ _ named (v, tt)))

  -- Decoding any frame keeps the rosters.
  pub flap_decode-Sound :
      (fuel : ℕ) (h : Handle) (others : List Handle) (block : Handle) (id : ℕ) (header mem : List ℕ)
      → Kept h
      → Always Sound (flap_decode env fuel h others block id header mem)
  unfolding flap_decode
  flap_decode-Sound fuel h others block id header mem v =
      Always-bind Sound (two_to_16 env.machine (drop 4 header)) _ (λ len.
        Always-bind Sound (byte_at header 1) _ (λ channel.
          if-holds (Always Sound) (channel == 0x02) _ _
            (snac_decode-IsRoster env fuel h others block id mem len v)
            (if-holds (Always Sound) (channel == 0x04) _ _
              (decode_close-Sound fuel h (pkt_init_p mem len) v) (v, tt))))
