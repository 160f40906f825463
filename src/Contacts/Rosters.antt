-- ===== src/Contacts/Rosters.antt =====
-- What the changes of the stored list do to the buddies online.
use bsflite_otr.Base.{
  Always, Always-bind, Always-chain, if-holds, done, [], List, ℕ, false, Option, none, some,
}
use bsflite_otr.Session.{Text, Handle, Env, Saved}
use bsflite_otr.Packet.{Packet}
use bsflite_otr.Names.{simplify_sn}
use bsflite_otr.Roster.{delete_buddy}
use bsflite_otr.Roster.Keep.{delete_buddy-IsRoster}
use bsflite_otr.Flap.{snac_add_to_multi}
use bsflite_otr.Flap.Keep.{Kept, Kept1, Always-second, snac_add_to_multi-Kept, flap_send_multi-Kept}
use bsflite_otr.Contacts.{
  send_change, is_saved, take_out, get_next_id, im_add_buddy, im_remove_buddy,
}

module _ (env : Env) where
  send_change-Kept :
      (h : Handle) (subtype : ℕ) (name : Text) (group_id id : ℕ)
      → Kept h
      → Always Kept (send_change env h subtype name group_id id)
  unfolding send_change
  send_change-Kept h subtype name group_id id v =
      Always-chain Kept1 Kept (snac_add_to_multi env h [] 0x13 0x11 [] false) _
        (snac_add_to_multi-Kept env h [] 0x13 0x11 [] false v)
        (λ a va. Always-bind Kept _ _ (λ (p : Packet).
          Always-chain Kept1 Kept (snac_add_to_multi env a.1 a.0 0x13 subtype p.bytes false) _
            (snac_add_to_multi-Kept env a.1 a.0 0x13 subtype p.bytes false va)
            (λ b vb.
              Always-chain Kept1 Kept (snac_add_to_multi env b.1 b.0 0x13 0x12 [] false) _
                (snac_add_to_multi-Kept env b.1 b.0 0x13 0x12 [] false vb)
                (λ c vc. Always-second _ (flap_send_multi-Kept env c.1 c.0 vc)))))

  pub im_add_buddy-Kept :
      (garbage : ℕ) (h : Handle) (sn : Text) → Kept h → Always Kept (im_add_buddy env garbage h sn)
  unfolding im_add_buddy
  im_add_buddy-Kept garbage h sn v =
      if-holds (Always Kept) (is_saved (simplify_sn sn) h.buddylist) _ _ v (
        Always-bind Kept (get_next_id h) _
          (λ nextid. send_change-Kept _ 0x08 (simplify_sn sn) 1 nextid v))

  pub im_remove_buddy-Kept :
      (h : Handle) (sn : Text) → Kept h → Always Kept (im_remove_buddy env h sn)
  unfolding im_remove_buddy
  im_remove_buddy-Kept h sn v = each (take_out (simplify_sn sn) h.buddylist)
    where
      each :
          (found : Option (Saved × List Saved))
          → Always Kept (elim found [
            | none ↦ done (delete_buddy h sn)
            | some (s, rest) ↦
                send_change env
                  (delete_buddy (record h { buddylist = rest }) sn)
                  0x0a
                  s.formatted
                  s.group_id
                  s.ssi_id
          ])
      each none = delete_buddy-IsRoster h sn v
      each (some (s, rest)) =
          send_change-Kept (delete_buddy (record h { buddylist = rest }) sn) 0x0a s.formatted
            s.group_id s.ssi_id (delete_buddy-IsRoster (record h { buddylist = rest }) sn v)
