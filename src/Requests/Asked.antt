-- ===== src/Requests/Asked.antt =====
-- What a client asks for leaves the buddies online well formed.
use bsflite_otr.Base.{Always, Always-bind, if-holds, Bool, true, false, none, some}
use bsflite_otr.Session.{Text, Handle, Env}
use bsflite_otr.Packet.{Packet}
use bsflite_otr.Flap.Keep.{Kept, Always-second}
use bsflite_otr.Requests.{
  build, info_size, info_fields, is_new, request_awayprofile, request_profile, request_awaymsg,
  tell_location, set_profile, set_invisible, set_away, set_unaway,
}
use bsflite_otr.Requests.Keep.{
  request-Kept, batch-Kept, send_cli_update-Kept, set_location_info-Kept,
}

module _ (env : Env) where
  pub request_awayprofile-Kept :
      (h : Handle) (sn : Text) → Kept h → Always Kept (request_awayprofile env h sn)
  unfolding request_awayprofile
  request_awayprofile-Kept h sn v =
      Always-bind Kept (build env (info_size sn) (info_fields 0x0003 sn)) _ (λ (p : Packet).
        Always-bind Kept (build env (info_size sn) (info_fields 0x0001 sn)) _
          (λ (q : Packet). batch-Kept env h _ v))

  pub request_profile-Kept :
      (h : Handle) (sn : Text) → Kept h → Always Kept (request_profile env h sn)
  unfolding request_profile
  request_profile-Kept h sn v = Always-second _ (request-Kept env h 0x02 0x05 _ _ v)

  pub request_awaymsg-Kept :
      (h : Handle) (sn : Text) → Kept h → Always Kept (request_awaymsg env h sn)
  unfolding request_awaymsg
  request_awaymsg-Kept h sn v = Always-second _ (request-Kept env h 0x02 0x05 _ _ v)

  tell_location-Kept : (h : Handle) → Kept h → Always Kept (tell_location env h)
  unfolding tell_location
  tell_location-Kept h v =
      if-holds (Always Kept) (is_new h.socket) _ _ v
        (Always-second _ (set_location_info-Kept env h v))

  pub set_profile-Kept : (h : Handle) (s : Text) → Kept h → Always Kept (set_profile env h s)
  unfolding set_profile
  set_profile-Kept h s v = tell_location-Kept (record h { profile_str = some s }) v

  pub set_invisible-Kept : (h : Handle) (b : Bool) → Kept h → Always Kept (set_invisible env h b)
  unfolding set_invisible
  set_invisible-Kept h b v =
      Always-second _ (send_cli_update-Kept env (record h { isinvisible = b }) v)

  pub set_away-Kept : (h : Handle) (s : Text) → Kept h → Always Kept (set_away env h s)
  unfolding set_away
  set_away-Kept h s v = tell_location-Kept (record h { isaway = true; away_msg = some s }) v

  pub set_unaway-Kept : (h : Handle) → Kept h → Always Kept (set_unaway env h)
  unfolding set_unaway
  set_unaway-Kept h v =
      if-holds (Always Kept) h.isaway _ _
        (tell_location-Kept (record h { isaway = false; away_msg = none }) v) v
