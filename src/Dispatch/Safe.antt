-- ===== src/Dispatch/Safe.antt =====
-- Whatever SNAC arrives, the rosters stay well formed.
use bsflite_otr.Base.{
  ◌%◌, ◌^◌, Always, Always-bind, Always-chain, if-holds, All, ℕ, ◌==◌, ◌&&◌, leb, List, Run, done,
  ◌>>=◌, drop,
}
use bsflite_otr.Bytes.{two_to_16}
use bsflite_otr.Packet.{Ret}
use bsflite_otr.Tlv.{tlv_split}
use bsflite_otr.Session.{
  Handle, Env, on_error, on_formatted_sn, notice, rate, formatted_sn, user_offline,
}
use bsflite_otr.Incoming.{byte_at, name_at, left}
use bsflite_otr.Incoming.Keep.{notify-Kept, get_signon-IsRoster, get_incoming_im-IsRoster}
use bsflite_otr.Incoming.Others.{get_signoff-Kept, get_user_info-Kept}
use bsflite_otr.Flap.Keep.{Kept, Kept1}
use bsflite_otr.Requests.Keep.{
  send_versions-Kept, request_limits-Kept, set_location_info-Kept, send_icbm_params-Kept,
  ssi_activate-Kept, finish_buddy_icon-Kept,
}
use bsflite_otr.Login.Keep.{md5snac-Kept}
use bsflite_otr.Dispatch.{Answer, plain, fine, new_subconnection, get_srv_families, ssi_get_list}
use bsflite_otr.Dispatch.Keep.{
  get_srv_families-Kept, ack_limits-Kept, get_privacy_rights-Kept, ssi_get_list-Kept,
  limits_loop-Kept, new_subconnection-Kept,
}
use bsflite_otr.Dispatch.Decode.{
  parents_icon, decode_child, decode_generic, decode_location, decode_buddies, decode_messages,
  decode_privacy, decode_stored, decode_own, snac_decode,
}

-- The roster of the handle, and those of the children that were made.
abbrev pub Sound : Answer → Type 0
Sound a = Kept a.handle × All Kept a.spawned

plain-Sound : (r : Run (Ret × Handle)) → Always Kept1 r → Always Sound (r >>= λ rh. done (plain rh))
plain-Sound r v = Always-chain Kept1 Sound r (λ rh. done (plain rh)) v (λ rh w. (w, tt))

fine-Sound : (r : Run Handle) → Always Kept r → Always Sound (r >>= λ h. done (fine h))
fine-Sound r v = Always-chain Kept Sound r (λ h. done (fine h)) v (λ h w. (w, tt))

module _ (env : Env) where
  decode_child-Sound :
      (h : Handle) (others : List Handle) (mem : List ℕ) (family subfamily : ℕ)
      → Kept h
      → Always Sound (decode_child env h others mem family subfamily)
  unfolding decode_child
  decode_child-Sound h others mem family subfamily v =
      let service = Always-bind Sound (byte_at mem 12) _ (λ high.
        if-holds (Always Sound) (high == 0x00) _ _
          (Always-bind Sound (byte_at mem 13) _ (λ low.
            if-holds (Always Sound) (low == 0x10) _ _
              (Always-bind Sound (parents_icon env h others) _
                (λ icon. fine-Sound _ (finish_buddy_icon-Kept env h icon v)))
              (v, tt)))
          (v, tt)) in
      if-holds (Always Sound) ((family == 0x0001) && (subfamily == 0x0003)) _ _ service
        (if-holds (Always Sound) ((family == 0x0010) && (subfamily == 0x0003)) _ _ (v, tt) (v, tt))

  decode_generic-Sound :
      (fuel : ℕ) (h block : Handle) (id : ℕ) (mem : List ℕ) (len subfamily flags : ℕ)
      → Kept h
      → Always Sound (decode_generic env fuel h block id mem len subfamily flags)
  unfolding decode_generic
  decode_generic-Sound fuel h block id mem len subfamily flags v =
      let families =
        Always-chain Kept1 Sound (get_srv_families env h (drop 10 mem) (left len 10)) _
          (get_srv_families-Kept env h (drop 10 mem) (left len 10) v)
          (λ r w. plain-Sound _ (send_versions-Kept env r.1 w)) in
      let service =
        Always-chain Kept Sound
          (new_subconnection env fuel h block id (drop 18 mem) (left len 18 % 2 ^ 16)) _
          (new_subconnection-Kept env fuel h block id (drop 18 mem) (left len 18 % 2 ^ 16))
          (λ child w. (v, (w, tt))) in
      let warn =
        Always-bind Sound (byte_at mem 19) _ (λ b. (notify-Kept h on_error (rate b) v, tt)) in
      let own_name = Always-bind Sound (byte_at mem 10) _ (λ sn_len.
        Always-bind Sound (name_at mem 11 sn_len) _
          (λ sn. (notify-Kept h on_formatted_sn (formatted_sn sn) v, tt))) in
      let P = Always Sound in
      if-holds P (subfamily == 0x0003) _ _ families (
        if-holds P (subfamily == 0x0005) _ _ service (
          if-holds P (subfamily == 0x0018) _ _ (plain-Sound _ (request_limits-Kept env h v)) (
            if-holds P (subfamily == 0x0007) _ _
              (plain-Sound _ (ack_limits-Kept env h (drop 10 mem) v))
              (if-holds P (subfamily == 0x000a) _ _
                (if-holds P (h.registered on_error) _ _ warn (v, tt))
                (if-holds P (subfamily == 0x000f) _ _
                  (if-holds P (flags == 0x8000) _ _ (v, tt) own_name) (v, tt))))))

  decode_location-Sound :
      (h : Handle) (mem : List ℕ) (len subfamily : ℕ)
      → Kept h
      → Always Sound (decode_location env h mem len subfamily)
  unfolding decode_location
  decode_location-Sound h mem len subfamily v =
      let rights = Always-bind Sound (two_to_16 env.machine (drop 14 mem)) _ (λ a.
        Always-bind Sound (two_to_16 env.machine (drop 20 mem)) _
          (λ b. plain-Sound _ (set_location_info-Kept env _ v))) in
      if-holds (Always Sound) (subfamily == 0x0003) _ _ rights (
        if-holds (Always Sound) (subfamily == 0x0006) _ _
          (fine-Sound _ (get_user_info-Kept env.machine h (drop 10 mem) (left len 10 % 2 ^ 16) v))
          (v, tt))

  decode_buddies-Sound :
      (h : Handle) (mem : List ℕ) (len subfamily : ℕ)
      → Kept h
      → Always Sound (decode_buddies env h mem len subfamily)
  unfolding decode_buddies
  decode_buddies-Sound h mem len subfamily v =
      let rights =
        Always-bind Sound (tlv_split env.machine (drop 10 mem) (left len 10) 3) _
          (λ ts. fine-Sound _ (limits_loop-Kept env h ts v)) in
      if-holds (Always Sound) (subfamily == 0x0003) _ _ rights (
        if-holds (Always Sound) (subfamily == 0x0C) _ _
          (plain-Sound _ (get_signoff-Kept h mem len v))
          (if-holds (Always Sound) (subfamily == 0x0B) _ _
            (plain-Sound _ (get_signon-IsRoster env.machine h mem len v)) (v, tt)))

  decode_messages-Sound :
      (h : Handle) (mem : List ℕ) (len subfamily : ℕ)
      → Kept h
      → Always Sound (decode_messages env h mem len subfamily)
  unfolding decode_messages
  decode_messages-Sound h mem len subfamily v =
      let failure = Always-bind Sound (byte_at mem 11) _ (λ b.
        (if-holds Kept (b == 0x04) _ _ (notify-Kept h on_error (notice user_offline) v) v, tt)) in
      let field = λ (n : ℕ). two_to_16 env.machine (drop n mem) in
      let limits = Always-bind Sound (field 16) _ (λ a. Always-bind Sound (field 18) _ (λ b.
        Always-bind Sound (field 20) _ (λ c. Always-bind Sound (field 22) _ (λ d.
          Always-bind Sound (field 10) _
            (λ channel. plain-Sound _ (send_icbm_params-Kept env _ channel 1024 v)))))) in
      if-holds (Always Sound) (subfamily == 0x0001) _ _ failure (
        if-holds (Always Sound) (subfamily == 0x0005) _ _ limits (
          if-holds (Always Sound) (subfamily == 0x0007) _ _
            (plain-Sound _ (get_incoming_im-IsRoster env.machine h mem len v)) (v, tt)))

  decode_stored-Sound :
      (h : Handle) (mem : List ℕ) (len subfamily : ℕ)
      → Kept h
      → Always Sound (decode_stored env h mem len subfamily)
  unfolding decode_stored
  decode_stored-Sound h mem len subfamily v =
      let list =
        Always-chain Kept Sound (ssi_get_list env h mem len) _ (ssi_get_list-Kept env h mem len v)
          (λ h' w. plain-Sound _ (ssi_activate-Kept env h' w)) in
      if-holds (Always Sound) (subfamily == 0x0006) _ _ list (v, tt)

  decode_own-Sound :
      (fuel : ℕ) (h block : Handle) (id : ℕ) (mem : List ℕ) (len family subfamily flags : ℕ)
      → Kept h
      → Always Sound (decode_own env fuel h block id mem len family subfamily flags)
  unfolding decode_own decode_privacy
  decode_own-Sound fuel h block id mem len family subfamily flags v =
      let P = Always Sound in
      let privacy =
        if-holds P (subfamily == 0x0003) _ _
          (fine-Sound _ (get_privacy_rights-Kept env h mem len v)) (v, tt) in
      if-holds P (family == 0x0017) _ _ (fine-Sound _ (md5snac-Kept env fuel h mem len v)) (
        if-holds P (family == 0x0001) _ _
          (decode_generic-Sound fuel h block id mem len subfamily flags v)
          (if-holds P (family == 0x0002) _ _ (decode_location-Sound h mem len subfamily v) (
            if-holds P (family == 0x0003) _ _ (decode_buddies-Sound h mem len subfamily v) (
              if-holds P (family == 0x0004) _ _ (decode_messages-Sound h mem len subfamily v) (
                if-holds P (family == 0x0009) _ _ privacy (
                  if-holds P (family == 0x0013) _ _ (decode_stored-Sound h mem len subfamily v)
                    (v, tt)))))))

  -- Whatever SNAC arrives, for a connection of the client's or for a child, each roster is well
  -- formed afterwards, if the one before was: the connection's, and that of a child that was made.
  pub snac_decode-IsRoster :
      (fuel : ℕ) (h : Handle) (others : List Handle) (block : Handle) (id : ℕ) (mem : List ℕ)
      (len : ℕ)
      → Kept h
      → Always Sound (snac_decode env fuel h others block id mem len)
  unfolding snac_decode
  snac_decode-IsRoster fuel h others block id mem len v =
      if-holds (Always Sound) (leb len 4) _ _ (v, tt)
        (Always-bind Sound (two_to_16 env.machine mem) _ (λ family.
          Always-bind Sound (two_to_16 env.machine (drop 2 mem)) _ (λ subfamily.
            Always-bind Sound (two_to_16 env.machine (drop 4 mem)) _ (λ flags.
              if-holds (Always Sound) h.is_child _ _
                (decode_child-Sound h others mem family subfamily v)
                (decode_own-Sound fuel h block id mem len family subfamily flags v)))))
