-- ===== src/Requests.antt =====
-- What the client asks of the server and tells it: the functions of imcomm/snac.c that send one SNAC or
-- a batch of them, and those of imcomm/imcomm.c that change the profile, the away message and the
-- visibility.
pub mod Exact
pub mod Keep
pub mod Asked
use bsflite_otr.Base.{
  ltb, ◌-◌, if◌then◌else◌, take, ◌%◌, ◌^◌, ℕ, ◌+◌, ◌*◌, Bool, true, false, not, Option, none, some,
  List, [], ◌∷◌, ◌++◌, length, Run, done, ◌>>=◌, ◌==◌, choose,
}
use bsflite_otr.Packet.{Packet, Ret, ok, error, Field, u8, u16, u32, raw, add_fields, pkt_init}
use bsflite_otr.Session.{Text, Handle, Env, Socket, notify, on_error, notice, connected_ok}
use bsflite_otr.Flap.{Part, snac_send, snac_add_to_multi, flap_send_multi}

-- `packet[]` of `snac_send_versions`.
abbrev pub versions : List ℕ
versions =
    0x00 ∷ 0x13 ∷ 0x00 ∷ 0x03 ∷ 0x00 ∷ 0x02 ∷ 0x00 ∷ 0x01 ∷ 0x00 ∷ 0x03 ∷ 0x00 ∷ 0x01 ∷ 0x00 ∷ 0x04
    ∷ 0x00 ∷ 0x01 ∷ 0x00 ∷ 0x06 ∷ 0x00 ∷ 0x01 ∷ 0x00 ∷ 0x08 ∷ 0x00 ∷ 0x01 ∷ 0x00 ∷ 0x09 ∷ 0x00
    ∷ 0x01 ∷ 0x00 ∷ 0x0A ∷ 0x00 ∷ 0x01 ∷ 0x00 ∷ 0x0B ∷ 0x00 ∷ 0x01 ∷ 0x00 ∷ 0x0C ∷ 0x00 ∷ 0x01
    ∷ 0x00 ∷ 0x01 ∷ 0x00 ∷ 0x04 ∷ []

-- `cli_ready_packet[]` of `multi_ssiact_cliready`, and `packet[]` of `snac_send_cli_ready`.
abbrev cli_ready_packet : List ℕ
cli_ready_packet =
    0x00 ∷ 0x13 ∷ 0x00 ∷ 0x03 ∷ 0x01 ∷ 0x10 ∷ 0x08 ∷ 0xE5 ∷ 0x00 ∷ 0x0B ∷ 0x00 ∷ 0x01 ∷ 0x01 ∷ 0x10
    ∷ 0x08 ∷ 0xE5 ∷ 0x00 ∷ 0x0A ∷ 0x00 ∷ 0x01 ∷ 0x01 ∷ 0x10 ∷ 0x08 ∷ 0xE5 ∷ 0x00 ∷ 0x09 ∷ 0x00
    ∷ 0x01 ∷ 0x01 ∷ 0x10 ∷ 0x08 ∷ 0xE5 ∷ 0x00 ∷ 0x08 ∷ 0x00 ∷ 0x01 ∷ 0x01 ∷ 0x04 ∷ 0x00 ∷ 0x01
    ∷ 0x00 ∷ 0x06 ∷ 0x00 ∷ 0x01 ∷ 0x01 ∷ 0x10 ∷ 0x08 ∷ 0xE5 ∷ 0x00 ∷ 0x04 ∷ 0x00 ∷ 0x01 ∷ 0x01
    ∷ 0x10 ∷ 0x08 ∷ 0xE5 ∷ 0x00 ∷ 0x03 ∷ 0x00 ∷ 0x01 ∷ 0x01 ∷ 0x10 ∷ 0x08 ∷ 0xE5 ∷ 0x00 ∷ 0x02
    ∷ 0x00 ∷ 0x01 ∷ 0x01 ∷ 0x10 ∷ 0x08 ∷ 0xE5 ∷ 0x00 ∷ 0x01 ∷ 0x00 ∷ 0x04 ∷ 0x01 ∷ 0x10 ∷ 0x08
    ∷ 0xE5 ∷ []

abbrev cli_ready : List ℕ
cli_ready =
    0x00 ∷ 0x01 ∷ 0x00 ∷ 0x04 ∷ 0x01 ∷ 0x10 ∷ 0x08 ∷ 0xF1 ∷ 0x00 ∷ 0x13 ∷ 0x00 ∷ 0x03 ∷ 0x01 ∷ 0x10
    ∷ 0x08 ∷ 0xF1 ∷ 0x00 ∷ 0x02 ∷ 0x00 ∷ 0x01 ∷ 0x01 ∷ 0x10 ∷ 0x08 ∷ 0xF1 ∷ 0x00 ∷ 0x03 ∷ 0x00
    ∷ 0x01 ∷ 0x01 ∷ 0x10 ∷ 0x08 ∷ 0xF1 ∷ 0x00 ∷ 0x08 ∷ 0x00 ∷ 0x01 ∷ 0x01 ∷ 0x04 ∷ 0x00 ∷ 0x01
    ∷ 0x00 ∷ 0x04 ∷ 0x00 ∷ 0x01 ∷ 0x01 ∷ 0x10 ∷ 0x08 ∷ 0xF1 ∷ 0x00 ∷ 0x06 ∷ 0x00 ∷ 0x01 ∷ 0x01
    ∷ 0x10 ∷ 0x08 ∷ 0xF1 ∷ 0x00 ∷ 0x09 ∷ 0x00 ∷ 0x01 ∷ 0x01 ∷ 0x10 ∷ 0x08 ∷ 0xF1 ∷ 0x00 ∷ 0x0A
    ∷ 0x00 ∷ 0x01 ∷ 0x01 ∷ 0x10 ∷ 0x08 ∷ 0xF1 ∷ 0x00 ∷ 0x0B ∷ 0x00 ∷ 0x01 ∷ 0x01 ∷ 0x10 ∷ 0x08
    ∷ 0xF1 ∷ []

-- `idstr` and `capabilities[]` of `snac_set_location_info`.
abbrev pub idstr : Text
idstr =
    b't' ∷ b'e' ∷ b'x' ∷ b't' ∷ b'/' ∷ b'a' ∷ b'o' ∷ b'l' ∷ b'r' ∷ b't' ∷ b'f' ∷ b';' ∷ b' ' ∷ b'c'
    ∷ b'h' ∷ b'a' ∷ b'r' ∷ b's' ∷ b'e' ∷ b't' ∷ b'=' ∷ 34 ∷ b'i' ∷ b's' ∷ b'o' ∷ b'-' ∷ b'8' ∷ b'8'
    ∷ b'5' ∷ b'9' ∷ b'-' ∷ b'1' ∷ 34 ∷ []

abbrev pub capabilities : List ℕ
capabilities =
    0x09 ∷ 0x46 ∷ 0x13 ∷ 0x46 ∷ 0x4C ∷ 0x7F ∷ 0x11 ∷ 0xD1 ∷ 0x82 ∷ 0x22 ∷ 0x44 ∷ 0x45 ∷ 0x53 ∷ 0x54
    ∷ 0x00 ∷ 0x00 ∷ 0x09 ∷ 0x46 ∷ 0x13 ∷ 0x4D ∷ 0x4C ∷ 0x7F ∷ 0x11 ∷ 0xD1 ∷ 0x82 ∷ 0x22 ∷ 0x44
    ∷ 0x45 ∷ 0x53 ∷ 0x54 ∷ 0x00 ∷ 0x00 ∷ 0x09 ∷ 0x46 ∷ 0x00 ∷ 0x00 ∷ 0x4C ∷ 0x7F ∷ 0x11 ∷ 0xD1
    ∷ 0x82 ∷ 0x22 ∷ 0x44 ∷ 0x45 ∷ 0x53 ∷ 0x54 ∷ 0x00 ∷ 0x00 ∷ []

abbrev pub length_of : Option Text → ℕ
length_of none = 0
length_of (some s) = length s

-- An int of the low 32 bits, as a size_t.
abbrev pub as_int : ℕ → ℕ
as_int n = let low = n % 2 ^ 32 in if ltb low (2 ^ 31) then low else low + (2 ^ 64 - 2 ^ 32)

-- `pktlen`, an int, and the size for which `snac_set_location_info` allocates.
unfoldable pub location_size : Option Text → Option Text → ℕ
location_size profile_str away_msg =
    let pktlen = as_int (choose 0 (λ (p : Text). 8 + length idstr + length p) profile_str) in
    let pktlen' = choose pktlen (λ (a : Text). as_int (pktlen + length a)) away_msg in
    (pktlen' + (10 + 8 + 4 + length idstr + length capabilities)) % 2 ^ 64

-- The fields that it writes.
pub location_fields : Option Text → Option Text → List Field
location_fields profile_str away_msg =
    (u16 0x0001 ∷ u16 (length idstr) ∷ raw idstr ∷ [])
    ++ (choose [] (λ (p : Text). u16 0x0002 ∷ u16 (length p) ∷ raw p ∷ []) profile_str
        ++ (u16 0x0003 ∷ u16 (length idstr) ∷ raw idstr ∷ u16 0x0004 ∷ [])
        ++ (choose (u16 0x0000 ∷ [])
              (λ (a : Text). u16 (length a) ∷ raw (take (length a % 2 ^ 16) a) ∷ []) away_msg
            ++ (u16 0x0005
                ∷ u16 (length capabilities)
                ∷ raw capabilities
                ∷ u16 0x0006
                ∷ u16 0x0006
                ∷ u16 0x0004
                ∷ u32 0x00020002
                ∷ [])))

-- The fields of a request for a profile (1) or an away message (3).
abbrev pub info_size : Text → ℕ
info_size sn = 3 + length sn % 256

abbrev pub info_fields : ℕ → Text → List Field
info_fields what sn = u16 what ∷ u8 (length sn) ∷ raw sn ∷ []

abbrev pub ok_of : Ret × Handle → Ret × Handle
ok_of (r, h) = (ok, h)

-- `socket` is 0 until the handle has been connected.
abbrev pub is_new : Socket → Bool
is_new Socket.closed = false
is_new (Socket.fd n) = n == 0

abbrev pub map_u16 : List ℕ → List Field
map_u16 [] = []
map_u16 (v ∷ vs) = u16 v ∷ map_u16 vs

module _ (env : Env) where
  open env use {machine, fresh}

  -- A packet of the size that the code computes, with the fields that it adds.
  pub build : ℕ → List Field → Run Packet
  build size fields = add_fields machine (pkt_init (fresh size) size) fields

  -- `snac_sendpkt` of a packet that was built.
  pub request : Handle → ℕ → ℕ → ℕ → List Field → Run (Ret × Handle)
  request h family subtype size fields = do
    p ← build size fields
    snac_send env h family subtype p.bytes false

  pub send_versions : Handle → Run (Ret × Handle)
  send_versions h = snac_send env h 0x01 0x17 versions false

  pub request_limits : Handle → Run (Ret × Handle)
  request_limits h = snac_send env h 0x01 0x06 [] false

  -- `snac_ack_srv_pause`; its own request is not sent, since the pause holds it back.
  ack_srv_pause : Handle → Run (Ret × Handle)
  ack_srv_pause h = do
    p ← build (length h.families * 2) (map_u16 h.families)
    r ← snac_send env (record h { srv_pause = true }) 0x01 0x0C p.bytes false
    done (ok_of r)

  -- `snac_addToMulti` of a list of SNACs, in order.
  pub add_all : Handle → List Part → List (ℕ × (ℕ × List ℕ)) → Run (List Part × Handle)
  add_all h parts [] = done (parts, h)
  add_all h parts ((family, (subtype, body)) ∷ rest) = do
    (parts, h) ← snac_add_to_multi env h parts family subtype body false
    add_all h parts rest

  -- A batch of SNACs; what `flap_sendMulti` returns is not looked at.
  pub batch : Handle → List (ℕ × (ℕ × List ℕ)) → Run Handle
  batch h snacs = do
    (parts, h) ← add_all h [] snacs
    (status, h) ← flap_send_multi env h parts
    done h

  -- `snac_multireq`
  pub multireq : Handle → Run (Ret × Handle)
  multireq h = do
    h ← batch h (
        (0x01, (0x0E, []))
        ∷ (0x13, (0x02, []))
        ∷ (0x13, (0x04, []))
        ∷ (0x02, (0x02, []))
        ∷ (0x03, (0x02, []))
        ∷ (0x04, (0x04, []))
        ∷ (0x09, (0x02, []))
        ∷ [])
    done (ok, h)

  -- `snac_send_cli_update`
  unfoldable pub send_cli_update : Handle → Run (Ret × Handle)
  send_cli_update h =
      request h 0x01 0x1E 8
        (u16 0x0006 ∷ u16 0x0004 ∷ u32 (if h.isinvisible then 0x00000100 else 0) ∷ [])

  -- `snac_set_location_info`
  pub set_location_info : Handle → Run (Ret × Handle)
  set_location_info h = do
    (status, h) ← send_cli_update h
    r ←
        request h 0x02 0x04 (location_size h.profile_str h.away_msg)
          (location_fields h.profile_str h.away_msg)
    done (ok_of r)

  -- `snac_send_icbm_params`; the channel and the size are not used.
  pub send_icbm_params : Handle → ℕ → ℕ → Run (Ret × Handle)
  send_icbm_params h channel max_msg_size = request h 0x04 0x02 16 (
      u32 0
      ∷ u16 0x000B
      ∷ u16 0x1F40
      ∷ u16 h.limits.sender_warning
      ∷ u16 h.limits.receiver_warning
      ∷ u32 0
      ∷ [])

  -- `multi_ssiact_cliready`
  pub ssiact_cliready : Handle → Run (Ret × Handle)
  ssiact_cliready h = do
    p ← build 12 (u16 0x001D ∷ u16 0x0008 ∷ u32 0x00020404 ∷ u32 0 ∷ [])
    h ←
        batch h
          ((0x01, (0x1E, p.bytes)) ∷ (0x01, (0x02, cli_ready_packet)) ∷ (0x13, (0x07, [])) ∷ [])
    done (ok, notify h on_error (notice connected_ok))

  -- `snac_ssi_activate`
  pub ssi_activate : Handle → Run (Ret × Handle)
  ssi_activate h =
      if h.connected then done (ok, h) else ssiact_cliready (record h { connected = true })

  -- `snac_send_cli_ready`
  send_cli_ready : Handle → Run (Ret × Handle)
  send_cli_ready h = do
    (status, h) ← snac_send env h 0x01 0x02 cli_ready false
    done (ok, notify h on_error (notice connected_ok))

  -- `imcomm_request_awayprofile`, `imcomm_request_profile` and `imcomm_request_awaymsg`
  pub request_awayprofile : Handle → Text → Run Handle
  request_awayprofile h sn = do
    p ← build (info_size sn) (info_fields 0x0003 sn)
    q ← build (info_size sn) (info_fields 0x0001 sn)
    batch h ((0x02, (0x05, p.bytes)) ∷ (0x02, (0x05, q.bytes)) ∷ [])

  pub request_profile : Handle → Text → Run Handle
  request_profile h sn = do
    (status, h) ← request h 0x02 0x05 (info_size sn) (info_fields 0x0001 sn)
    done h

  pub request_awaymsg : Handle → Text → Run Handle
  request_awaymsg h sn = do
    (status, h) ← request h 0x02 0x05 (info_size sn) (info_fields 0x0003 sn)
    done h

  -- `imcomm_request_massawaymsg`
  info_bodies : List Text → Run (List (ℕ × (ℕ × List ℕ)))
  info_bodies [] = done []
  info_bodies (sn ∷ sns) = do
    p ← build (info_size sn) (info_fields 0x0003 sn)
    rest ← info_bodies sns
    done ((0x02, (0x05, p.bytes)) ∷ rest)

  request_massawaymsg : Handle → List Text → Run Handle
  request_massawaymsg h sns = do snacs ← info_bodies sns; batch h snacs

  -- `snac_request_new_service`
  request_new_service : Handle → ℕ → Run Handle
  request_new_service h service = do (status, h) ← request h 0x01 0x04 2 (u16 service ∷ []); done h

  -- `snac_finish_buddy_icon`, with the icon of the parent.
  pub finish_buddy_icon : Handle → List ℕ → Run Handle
  finish_buddy_icon h icon = do
    (status, h) ←
        request h 0x10 0x02 (4 + length icon) (u16 0x0001 ∷ u16 (length icon) ∷ raw icon ∷ [])
    done h

  -- `if (socket != 0) snac_set_location_info(handle)`
  pub tell_location : Handle → Run Handle
  tell_location h =
      let tell = (do (status, h') ← set_location_info h; done h') in
      if is_new h.socket then done h else tell

  -- `imcomm_set_profile`, `imcomm_set_invisible`, `imcomm_set_away` and `imcomm_set_unaway`
  pub set_profile : Handle → Text → Run Handle
  set_profile h profile_str = tell_location (record h { profile_str = some profile_str })

  pub set_invisible : Handle → Bool → Run Handle
  set_invisible h inv = do (status, h) ← send_cli_update (record h { isinvisible = inv }); done h

  pub set_away : Handle → Text → Run Handle
  set_away h msg = tell_location (record h { isaway = true; away_msg = some msg })

  pub set_unaway : Handle → Run Handle
  set_unaway h =
      let back = tell_location (record h { isaway = false; away_msg = none }) in
      if h.isaway then back else done h
