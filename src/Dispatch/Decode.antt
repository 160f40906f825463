-- ===== src/Dispatch/Decode.antt =====
-- `snac_decode` of imcomm/snac.c.
use bsflite_otr.Base.{
  ◌%◌, ◌^◌, ℕ, true, false, ◌&&◌, List, [], ◌∷◌, drop, Run, done, fault, ◌>>=◌, leb, ◌==◌,
  if◌then◌else◌, choose,
}
use bsflite_otr.Bytes.{two_to_16}
use bsflite_otr.Packet.{Ret, ok}
use bsflite_otr.Tlv.{tlv_split}
use bsflite_otr.Session.{
  Handle, Env, notify, on_error, on_formatted_sn, notice, rate, formatted_sn, user_offline,
}
use bsflite_otr.Incoming.{
  byte_at, name_at, left, get_signoff, get_signon, get_incoming_im, get_user_info,
}
use bsflite_otr.Requests.{
  send_versions, request_limits, set_location_info, send_icbm_params, ssi_activate,
  finish_buddy_icon,
}
use bsflite_otr.Login.{md5snac}
use bsflite_otr.Handles.{find_handle}
use bsflite_otr.Dispatch.{
  Answer, plain, fine, get_srv_families, ack_limits, get_privacy_rights, ssi_get_list, limits_loop,
  new_subconnection,
}

abbrev answer : Run (Ret × Handle) → Run Answer
answer r = r >>= λ rh. done (plain rh)

abbrev quietly : Run Handle → Run Answer
quietly r = r >>= λ h. done (fine h)

module _ (env : Env) where
  open env use {machine}

  -- The icon of the parent, wherever that is; `parent` may be gone.
  pub parents_icon : Handle → List Handle → Run (List ℕ)
  parents_icon h others =
      choose fault (λ (id : ℕ). choose fault (λ (p : Handle). done p.icon) (find_handle id others))
        h.parent

  -- A SNAC for a child.
  unfoldable pub decode_child : Handle → List Handle → List ℕ → ℕ → ℕ → Run Answer
  decode_child h others mem family subfamily =
      let service = (do
        high ← byte_at mem 12
        let send = (do
          icon ← parents_icon h others
          h' ← finish_buddy_icon env h icon
          done (fine h'))
        let second = (do low ← byte_at mem 13; if low == 0x10 then send else done (fine h))
        if high == 0x00 then second else done (fine h)) in
      if (family == 0x0001) && (subfamily == 0x0003)
      then service
      else if (family == 0x0010) && (subfamily == 0x0003)
      then done
          (record { ret = ok; handle = record h { to_delete = true }; spawned = []; trim = true })
      else done (fine h)

  -- Family 1.
  unfoldable pub decode_generic : ℕ → Handle → Handle → ℕ → List ℕ → ℕ → ℕ → ℕ → Run Answer
  decode_generic fuel h block id mem len subfamily flags =
      let families = (do
        (status, h') ← get_srv_families env h (drop 10 mem) (left len 10)
        r ← send_versions env h'
        done (plain r)) in
      let service = (do
        child ← new_subconnection env fuel h block id (drop 18 mem) (left len 18 % 2 ^ 16)
        done (record { ret = ok; handle = h; spawned = child ∷ []; trim = false })) in
      let warn = (do b ← byte_at mem 19; done (fine (notify h on_error (rate b)))) in
      let own_name = (do
        sn_len ← byte_at mem 10
        sn ← name_at mem 11 sn_len
        done (fine (notify h on_formatted_sn (formatted_sn sn)))) in
      if subfamily == 0x0003
      then families
      else if subfamily == 0x0005
      then service
      else if subfamily == 0x0018
      then answer (request_limits env h)
      else if subfamily == 0x0007
      then answer (ack_limits env h (drop 10 mem))
      else if subfamily == 0x000a
      then (if h.registered on_error then warn else done (fine h))
      else if subfamily == 0x000f
      then (if flags == 0x8000 then done (fine h) else own_name)
      else done (fine h)

  -- Families 2, 3 and 4.
  unfoldable pub decode_location : Handle → List ℕ → ℕ → ℕ → Run Answer
  decode_location h mem len subfamily =
      let rights = (do
        profile_len ← two_to_16 machine (drop 14 mem)
        capabilities ← two_to_16 machine (drop 20 mem)
        r ← set_location_info env (record h {
          limits = record h.limits { profile_len = profile_len; capabilities = capabilities };
        })
        done (plain r)) in
      if subfamily == 0x0003
      then rights
      else if subfamily == 0x0006
      then quietly (get_user_info machine h (drop 10 mem) (left len 10 % 2 ^ 16))
      else done (fine h)

  unfoldable pub decode_buddies : Handle → List ℕ → ℕ → ℕ → Run Answer
  decode_buddies h mem len subfamily =
      let rights = (do
        ts ← tlv_split machine (drop 10 mem) (left len 10) 3
        h' ← limits_loop env h ts
        done (fine h')) in
      if subfamily == 0x0003
      then rights
      else if subfamily == 0x0C
      then answer (get_signoff h mem len)
      else if subfamily == 0x0B
      then answer (get_signon machine h mem len)
      else done (fine h)

  unfoldable pub decode_messages : Handle → List ℕ → ℕ → ℕ → Run Answer
  decode_messages h mem len subfamily =
      let failure = (do
        b ← byte_at mem 11
        done (fine (if b == 0x04 then notify h on_error (notice user_offline) else h))) in
      let limits = (do
        size ← two_to_16 machine (drop 16 mem)
        sender ← two_to_16 machine (drop 18 mem)
        receiver ← two_to_16 machine (drop 20 mem)
        interval ← two_to_16 machine (drop 22 mem)
        channel ← two_to_16 machine (drop 10 mem)
        r ←
            send_icbm_params env
              (record h {
                limits = record h.limits {
                  message_size = size;
                  sender_warning = sender;
                  receiver_warning = receiver;
                  message_interval = interval;
                };
              })
              channel 1024
        done (plain r)) in
      if subfamily == 0x0001
      then failure
      else if subfamily == 0x0005
      then limits
      else if subfamily == 0x0007
      then answer (get_incoming_im machine h mem len)
      else done (fine h)

  -- Families 9 and 19.
  unfoldable pub decode_privacy : Handle → List ℕ → ℕ → ℕ → Run Answer
  decode_privacy h mem len subfamily =
      let rights = quietly (get_privacy_rights env h mem len) in
      if subfamily == 0x0003 then rights else done (fine h)

  unfoldable pub decode_stored : Handle → List ℕ → ℕ → ℕ → Run Answer
  decode_stored h mem len subfamily =
      let list = (do h' ← ssi_get_list env h mem len; r ← ssi_activate env h'; done (plain r)) in
      if subfamily == 0x0006 then list else done (fine h)

  -- A SNAC for a handle of its own, by its family.
  unfoldable pub decode_own : ℕ → Handle → Handle → ℕ → List ℕ → ℕ → ℕ → ℕ → ℕ → Run Answer
  decode_own fuel h block id mem len family subfamily flags =
      if family == 0x0017
      then quietly (md5snac env fuel h mem len)
      else if family == 0x0001
      then decode_generic fuel h block id mem len subfamily flags
      else if family == 0x0002
      then decode_location h mem len subfamily
      else if family == 0x0003
      then decode_buddies h mem len subfamily
      else if family == 0x0004
      then decode_messages h mem len subfamily
      else if family == 0x0009
      then decode_privacy h mem len subfamily
      else if family == 0x0013
      then decode_stored h mem len subfamily
      else done (fine h)

  -- `snac_decode`
  unfoldable pub snac_decode : ℕ → Handle → List Handle → Handle → ℕ → List ℕ → ℕ → Run Answer
  snac_decode fuel h others block id mem len =
      let decode = (do
        family ← two_to_16 machine mem
        subfamily ← two_to_16 machine (drop 2 mem)
        flags ← two_to_16 machine (drop 4 mem)
        if h.is_child
            then decode_child h others mem family subfamily
            else decode_own fuel h block id mem len family subfamily flags) in
      if leb len 4 then done (fine h) else decode
