-- ===== src/Dispatch/Keep.antt =====
-- The handlers that `snac_decode` alone calls keep the roster.
use bsflite_otr.Base.{
  Always, Always-bind, Always-chain, if-holds, choose-holds, ℕ, zero, suc, ◌==◌, ◌*◌, leb, Option,
  none, some, List, [], ◌∷◌, drop,
}
use bsflite_otr.Bytes.{two_to_16}
use bsflite_otr.Packet.{Ret, ok, error, Packet, pkt_init_p, pkt_get16, pkt_get8, pkt_end}
use bsflite_otr.Tlv.{Tlv, tlv_split}
use bsflite_otr.Session.{Text, Handle, Env}
use bsflite_otr.Roster.View.{IsRoster}
use bsflite_otr.Contacts.{add_to_buddylist}
use bsflite_otr.Incoming.{left}
use bsflite_otr.Flap.Keep.{Kept, Kept0, Kept1}
use bsflite_otr.Requests.{request, map_u16}
use bsflite_otr.Requests.Keep.{request-Kept, multireq-Kept}
use bsflite_otr.Handles.{child_handle}
use bsflite_otr.Login.{found_none, signon_phase2}
use bsflite_otr.Login.Keep.{signon_phase2-Kept}
use bsflite_otr.Dispatch.{
  families_loop, get_srv_families, class_ids, then_multireq, ack_limits, privacy_loop,
  get_privacy_rights, item_name, keep_item, ssi_item, ssi_loop, ssi_get_list, limits_loop,
  service_loop, new_subconnection, with_port,
}

keep_item-Kept :
    (env : Env) (h : Handle) (name : Option Text) (group_id id type : ℕ)
    → Kept h
    → Kept (keep_item env h name group_id id type)
unfolding keep_item add_to_buddylist
keep_item-Kept env h none group_id id type v = v
keep_item-Kept env h (some name) group_id id type v =
    if-holds Kept (type == 0x0000) _ _ (if-holds Kept _ _ _ v v) v

module _ (env : Env) where
  pub get_srv_families-Kept :
      (h : Handle) (mem : List ℕ) (len : ℕ) → Kept h → Always Kept1 (get_srv_families env h mem len)
  unfolding get_srv_families
  get_srv_families-Kept h mem len v =
      let p = pkt_init_p mem len in
      Always-bind Kept1 (families_loop env (suc p.len) p) _
        (λ families. if-holds Kept1 (pkt_end p) _ _ v v)

  then_multireq-Kept : (r : Ret × Handle) → Kept1 r → Always Kept1 (then_multireq env r)
  unfolding then_multireq
  then_multireq-Kept (error, h) v = v
  then_multireq-Kept (ok, h) v = multireq-Kept env h v

  pub ack_limits-Kept : (h : Handle) (mem : List ℕ) → Kept h → Always Kept1 (ack_limits env h mem)
  unfolding ack_limits
  ack_limits-Kept h mem v = Always-bind Kept1 (two_to_16 env.machine mem) _ (λ n.
      Always-bind Kept1 (class_ids env mem 2 n) _ (λ ids.
        Always-chain Kept1 Kept1 (request env h 0x01 0x08 (n * 2) (map_u16 ids)) (then_multireq env)
          (request-Kept env h 0x01 0x08 (n * 2) (map_u16 ids) v) then_multireq-Kept))

  -- A loop over TLVs that stores numbers in the handle.
  privacy_loop-Kept : (h : Handle) (ts : List Tlv) → Kept h → Always Kept (privacy_loop env h ts)
  unfolding privacy_loop
  privacy_loop-Kept h [] v = v
  privacy_loop-Kept h (t ∷ ts) v =
      if-holds (Always Kept) (t.type == 0x0001) _ _
        (Always-bind Kept (two_to_16 env.machine t.value) _ (λ n. privacy_loop-Kept _ ts v))
        (if-holds (Always Kept) (t.type == 0x0002) _ _
          (Always-bind Kept (two_to_16 env.machine t.value) _ (λ n. privacy_loop-Kept _ ts v))
          (privacy_loop-Kept h ts v))

  pub get_privacy_rights-Kept :
      (h : Handle) (mem : List ℕ) (len : ℕ)
      → Kept h
      → Always Kept (get_privacy_rights env h mem len)
  unfolding get_privacy_rights
  get_privacy_rights-Kept h mem len v =
      Always-bind Kept (tlv_split env.machine (drop 10 mem) (left len 10) 2) _
        (λ ts. privacy_loop-Kept h ts v)

  ssi_item-Kept : (h : Handle) (p : Packet) → Kept h → Always Kept0 (ssi_item env h p)
  unfolding ssi_item
  ssi_item-Kept h p v = Always-bind Kept0 (pkt_get16 env.machine p) _ (λ n.
      Always-bind Kept0 (item_name env n.1 n.0) _ (λ name.
        Always-bind Kept0 (pkt_get16 env.machine name.1) _ (λ group.
          Always-bind Kept0 (pkt_get16 env.machine group.1) _ (λ id.
            Always-bind Kept0 (pkt_get16 env.machine id.1) _ (λ type.
              Always-bind Kept0 (pkt_get16 env.machine type.1) _
                (λ tlvlen. keep_item-Kept env h name.0 group.0 id.0 type.0 v))))))

  ssi_loop-Kept : (n : ℕ) (h : Handle) (p : Packet) → Kept h → Always Kept (ssi_loop env n h p)
  unfolding ssi_loop
  ssi_loop-Kept zero h p v = v
  ssi_loop-Kept (suc n) h p v =
      Always-chain Kept0 Kept (ssi_item env h p) _ (ssi_item-Kept h p v)
        (λ r w. ssi_loop-Kept n r.0 r.1 w)

  pub ssi_get_list-Kept :
      (h : Handle) (mem : List ℕ) (len : ℕ) → Kept h → Always Kept (ssi_get_list env h mem len)
  unfolding ssi_get_list
  ssi_get_list-Kept h mem len v =
      Always-bind Kept (pkt_get8 (pkt_init_p (drop 10 mem) (left len 10))) _ (λ version.
        Always-bind Kept (pkt_get16 env.machine version.1) _
          (λ count. ssi_loop-Kept count.0 h count.1 v))

  pub limits_loop-Kept : (h : Handle) (ts : List Tlv) → Kept h → Always Kept (limits_loop env h ts)
  unfolding limits_loop
  limits_loop-Kept h [] v = v
  limits_loop-Kept h (t ∷ ts) v =
      let skip = limits_loop-Kept h ts v in
      if-holds (Always Kept) (leb 2 t.len) _ _
        (if-holds (Always Kept) (t.type == 0x01) _ _
          (Always-bind Kept (two_to_16 env.machine t.value) _ (λ n. limits_loop-Kept _ ts v))
          (if-holds (Always Kept) (t.type == 0x02) _ _
            (Always-bind Kept (two_to_16 env.machine t.value) _ (λ n. limits_loop-Kept _ ts v))
            (if-holds (Always Kept) (t.type == 0x03) _ _
              (Always-bind Kept (two_to_16 env.machine t.value) _ (λ n. limits_loop-Kept _ ts v))
              skip)))
        skip

  -- A child begins with an empty roster.
  pub new_subconnection-Kept :
      (fuel : ℕ) (h block : Handle) (id : ℕ) (mem : List ℕ) (len : ℕ)
      → Always Kept (new_subconnection env fuel h block id mem len)
  unfolding new_subconnection child_handle IsRoster
  new_subconnection-Kept fuel h block id mem len =
      Always-bind Kept (tlv_split env.machine mem len 3) _ (λ ts.
        Always-bind Kept (service_loop env found_none ts) _ (λ found.
          choose-holds (Always Kept) _ _ found.server tt (λ server.
            Always-chain Kept1 Kept
              (signon_phase2 env fuel (child_handle h block id (env.now h.trace))
                (some (with_port server h.oscarport)) found.cookie)
              _
              (signon_phase2-Kept env fuel (child_handle h block id (env.now h.trace))
                (some (with_port server h.oscarport)) found.cookie tt)
              (λ r w. w))))
