-- ===== src/Requests/Keep.antt =====
-- Requests leave the roster alone.
use bsflite_otr.Base.{
  fault, unfinished, Always, Always-bind, Always-chain, if-holds, ℕ, true, false, List, [], ◌∷◌,
  Run, done, ◌>>=◌,
}
use bsflite_otr.Packet.{Packet, Ret, Field}
use bsflite_otr.Session.{Handle, Env, on_error, notice, connected_ok}
use bsflite_otr.Flap.{Part}
use bsflite_otr.Flap.Keep.{
  Kept, Kept1, Always-second, snac_send-Kept, snac_add_to_multi-Kept, flap_send_multi-Kept,
}
use bsflite_otr.Incoming.Keep.{notify-Kept}
use bsflite_otr.Requests.{
  build, request, send_versions, versions, request_limits, add_all, batch, multireq,
  send_cli_update, set_location_info, send_icbm_params, ssiact_cliready, ssi_activate,
  finish_buddy_icon, ok_of,
}

-- A call of which only the handle is kept.
pub Always-ok :
    (r : Run (Ret × Handle)) → Always Kept1 r → Always Kept1 (r >>= λ rh. done (ok_of rh))
Always-ok (done r) v = v
Always-ok fault v = tt
Always-ok unfinished v = tt

module _ (env : Env) where
  pub request-Kept :
      (h : Handle) (family subtype size : ℕ) (fields : List Field)
      → Kept h
      → Always Kept1 (request env h family subtype size fields)
  unfolding request
  request-Kept h family subtype size fields v =
      Always-bind Kept1 (build env size fields) _
        (λ p. snac_send-Kept env h family subtype p.bytes false v)

  add_all-Kept :
      (h : Handle) (parts : List Part) (snacs : List (ℕ × (ℕ × List ℕ)))
      → Kept h
      → Always Kept1 (add_all env h parts snacs)
  unfolding add_all
  add_all-Kept h parts [] v = v
  add_all-Kept h parts (s ∷ snacs) v =
      Always-chain Kept1 Kept1 _ (λ r. add_all env r.1 r.0 snacs)
        (snac_add_to_multi-Kept env h parts s.0 s.1.0 s.1.1 false v)
        (λ r w. add_all-Kept r.1 r.0 snacs w)

  pub batch-Kept :
      (h : Handle) (snacs : List (ℕ × (ℕ × List ℕ))) → Kept h → Always Kept (batch env h snacs)
  unfolding batch
  batch-Kept h snacs v =
      Always-chain Kept1 Kept (add_all env h [] snacs) _ (add_all-Kept h [] snacs v)
        (λ r w. Always-second _ (flap_send_multi-Kept env r.1 r.0 w))

  pub multireq-Kept : (h : Handle) → Kept h → Always Kept1 (multireq env h)
  unfolding multireq
  multireq-Kept h v = Always-chain Kept Kept1 (batch env h _) _ (batch-Kept h _ v) (λ h' w. w)

  pub send_cli_update-Kept : (h : Handle) → Kept h → Always Kept1 (send_cli_update env h)
  unfolding send_cli_update
  send_cli_update-Kept h v = request-Kept h 0x01 0x1E 8 _ v

  pub set_location_info-Kept : (h : Handle) → Kept h → Always Kept1 (set_location_info env h)
  unfolding set_location_info
  set_location_info-Kept h v =
      Always-chain Kept1 Kept1 (send_cli_update env h) _ (send_cli_update-Kept h v)
        (λ r w. Always-ok _ (request-Kept r.1 0x02 0x04 _ _ w))

  pub send_icbm_params-Kept :
      (h : Handle) (channel size : ℕ) → Kept h → Always Kept1 (send_icbm_params env h channel size)
  unfolding send_icbm_params
  send_icbm_params-Kept h channel size v = request-Kept h 0x04 0x02 16 _ v

  ssiact_cliready-Kept : (h : Handle) → Kept h → Always Kept1 (ssiact_cliready env h)
  unfolding ssiact_cliready
  ssiact_cliready-Kept h v = Always-bind Kept1 (build env 12 _) _ (λ (p : Packet).
      Always-chain Kept Kept1 (batch env h _) _ (batch-Kept h _ v)
        (λ h' w. notify-Kept h' on_error (notice connected_ok) w))

  pub ssi_activate-Kept : (h : Handle) → Kept h → Always Kept1 (ssi_activate env h)
  unfolding ssi_activate
  ssi_activate-Kept h v =
      if-holds (Always Kept1) h.connected _ _ v
        (ssiact_cliready-Kept (record h { connected = true }) v)

  pub send_versions-Kept : (h : Handle) → Kept h → Always Kept1 (send_versions env h)
  unfolding send_versions
  send_versions-Kept h v = snac_send-Kept env h 0x01 0x17 versions false v

  pub request_limits-Kept : (h : Handle) → Kept h → Always Kept1 (request_limits env h)
  unfolding request_limits
  request_limits-Kept h v = snac_send-Kept env h 0x01 0x06 [] false v

  pub finish_buddy_icon-Kept :
      (h : Handle) (icon : List ℕ) → Kept h → Always Kept (finish_buddy_icon env h icon)
  unfolding finish_buddy_icon
  finish_buddy_icon-Kept h icon v = Always-second _ (request-Kept h 0x10 0x02 _ _ v)
