-- ===== src/Dispatch.antt =====
-- `snac_decode` of imcomm/snac.c and the handlers that it alone calls. `others` is the list of all
-- handles, in which a child looks its parent up; `block` and `id` are the memory and the address of a
-- child that is made.
pub mod Families
pub mod Decode
pub mod Keep
pub mod Safe
pub mod Stored
use bsflite_otr.Base.{
  ℕ, zero, suc, ◌+◌, ◌%◌, ◌^◌, ◌*◌, Bool, true, false, ◌&&◌, Option, none, some, List, [], ◌∷◌,
  ◌++◌, length, drop, Run, done, fault, unfinished, ◌>>=◌, ltb, leb, ◌==◌, if◌then◌else◌, choose,
}
use bsflite_otr.Bytes.{two_to_16}
use bsflite_otr.Packet.{
  Packet, Ret, ok, error, pkt_init_p, pkt_end, pkt_get8, pkt_get16, pkt_get_str, pkt_skip,
}
use bsflite_otr.Tlv.{Tlv, tlv_split}
use bsflite_otr.Session.{
  Text, Handle, Env, notify, on_error, on_formatted_sn, notice, rate, formatted_sn, user_offline,
}
use bsflite_otr.Names.{c_string}
use bsflite_otr.Numerals.{decimal}
use bsflite_otr.Contacts.{add_to_buddylist}
use bsflite_otr.Incoming.{
  byte_at, name_at, left, get_signoff, get_signon, get_incoming_im, get_user_info,
}
use bsflite_otr.Requests.{
  map_u16, request, send_versions, request_limits, multireq, set_location_info, send_icbm_params,
  ssi_activate, finish_buddy_icon,
}
use bsflite_otr.Dial.{after}
use bsflite_otr.Login.{Found, found_none, signon_phase2, md5snac}
use bsflite_otr.Handles.{child_handle, find_handle}

-- What a SNAC leads to: the handle afterwards, a child that was made, and whether `nodes_to_delete` is
-- set.
pub record Answer : Type 0 where
  pub ret : Ret
  pub handle : Handle
  pub spawned : List Handle
  pub trim : Bool

abbrev pub plain : Ret × Handle → Answer
plain (r, h) = record { ret = r; handle = h; spawned = []; trim = false }

abbrev pub fine : Handle → Answer
fine h = plain (ok, h)

-- `server:oscarport`, where the server names no port.
pub with_port : Text → ℕ → Text
with_port server port =
    choose (server ++ (b':' ∷ decimal port)) (λ (s : Text). server) (after b':' server)

module _ (env : Env) where
  open env use {machine, now}

  -- The loop of `snac_get_srv_families`; each round reads two bytes, whatever is left.
  pub families_loop : ℕ → Packet → Run (List ℕ)
  families_loop zero p = unfinished
  families_loop (suc fuel) p =
      let more = (do
        (family, q) ← pkt_get16 machine p
        rest ← families_loop fuel q
        done (family ∷ rest)) in
      if pkt_end p then done [] else more

  -- `snac_get_srv_families`
  pub get_srv_families : Handle → List ℕ → ℕ → Run (Ret × Handle)
  get_srv_families h mem len = do
    let p = pkt_init_p mem len
    families ← families_loop (suc p.len) p
    done (
        if pkt_end p
        then (error, h)
        else (ok, record h { families = families; num_families = length families }))

  -- The loop of `snac_ack_limits` over the rate classes; the position is a uint16_t.
  pub class_ids : List ℕ → ℕ → ℕ → Run (List ℕ)
  class_ids mem x zero = done []
  class_ids mem x (suc n) = do
    id ← two_to_16 machine (drop x mem)
    rest ← class_ids mem ((x + 35) % 2 ^ 16) n
    done (id ∷ rest)

  pub then_multireq : Ret × Handle → Run (Ret × Handle)
  then_multireq (error, h) = done (error, h)
  then_multireq (ok, h) = multireq env h

  -- `snac_ack_limits`
  pub ack_limits : Handle → List ℕ → Run (Ret × Handle)
  ack_limits h mem = do
    num_classes ← two_to_16 machine mem
    ids ← class_ids mem 2 num_classes
    r ← request env h 0x01 0x08 (num_classes * 2) (map_u16 ids)
    then_multireq r

  -- `snac_get_privacy_rights`
  pub privacy_loop : Handle → List Tlv → Run Handle
  privacy_loop h [] = done h
  privacy_loop h (t ∷ ts) =
      let visible = (do
        n ← two_to_16 machine t.value
        privacy_loop (record h { limits = record h.limits { visible_list_size = n } }) ts) in
      let invisible = (do
        n ← two_to_16 machine t.value
        privacy_loop (record h { limits = record h.limits { invisible_list_size = n } }) ts) in
      let skip = privacy_loop h ts in
      if t.type == 0x0001 then visible else if t.type == 0x0002 then invisible else skip

  pub get_privacy_rights : Handle → List ℕ → ℕ → Run Handle
  get_privacy_rights h mem len = do
    ts ← tlv_split machine (drop 10 mem) (left len 10) 2
    privacy_loop h ts

  -- One item of `snac_ssi_get_list`; its name is null where it has no length.
  pub item_name : Packet → ℕ → Run (Option Text × Packet)
  item_name p n =
      if ltb 0 n
      then (do (bytes, q) ← pkt_get_str p n; done (some (c_string bytes), q))
      else done (none, p)

  pub keep_item : Handle → Option Text → ℕ → ℕ → ℕ → Handle
  keep_item h none group_id id type = h
  keep_item h (some name) group_id id type =
      if type == 0x0000 then add_to_buddylist h name id group_id else h

  pub ssi_item : Handle → Packet → Run (Handle × Packet)
  ssi_item h p = do
    (n, p) ← pkt_get16 machine p
    (name, p) ← item_name p n
    (group_id, p) ← pkt_get16 machine p
    (id, p) ← pkt_get16 machine p
    (type, p) ← pkt_get16 machine p
    (tlvlen, p) ← pkt_get16 machine p
    done (keep_item h name group_id id type, pkt_skip p tlvlen)

  pub ssi_loop : ℕ → Handle → Packet → Run Handle
  ssi_loop zero h p = done h
  ssi_loop (suc n) h p = do (h', q) ← ssi_item h p; ssi_loop n h' q

  -- `snac_ssi_get_list`
  pub ssi_get_list : Handle → List ℕ → ℕ → Run Handle
  ssi_get_list h mem len = do
    (version, p) ← pkt_get8 (pkt_init_p (drop 10 mem) (left len 10))
    (count, p) ← pkt_get16 machine p
    ssi_loop count h p

  -- The loop of the buddy list limits in `snac_decode`.
  pub limits_loop : Handle → List Tlv → Run Handle
  limits_loop h [] = done h
  limits_loop h (t ∷ ts) =
      let size = (do
        n ← two_to_16 machine t.value
        limits_loop (record h { limits = record h.limits { buddylist_size = n } }) ts) in
      let watchers = (do
        n ← two_to_16 machine t.value
        limits_loop (record h { limits = record h.limits { num_watchers = n } }) ts) in
      let online = (do
        n ← two_to_16 machine t.value
        limits_loop (record h { limits = record h.limits { online_notifications = n } }) ts) in
      let skip = limits_loop h ts in
      if leb 2 t.len
      then (if t.type == 0x01
          then size
          else if t.type == 0x02
          then watchers
          else if t.type == 0x03
          then online
          else skip)
      else skip

  -- The loop of `snac_new_subconnection`; the kind of the service is read and not used.
  pub service_loop : Found → List Tlv → Run Found
  service_loop found [] = done found
  service_loop found (t ∷ ts) =
      let subtype = (do n ← two_to_16 machine t.value; service_loop found ts) in
      let server = service_loop (record found { server = some (c_string t.value) }) ts in
      let cookie = service_loop (record found { cookie = t.value }) ts in
      let skip = service_loop found ts in
      if t.type == 0x000D
      then subtype
      else if t.type == 0x0005
      then server
      else if t.type == 0x0006
      then cookie
      else skip

  -- `snac_new_subconnection`: the child.
  pub new_subconnection : ℕ → Handle → Handle → ℕ → List ℕ → ℕ → Run Handle
  new_subconnection fuel h block id mem len = do
    ts ← tlv_split machine mem len 3
    found ← service_loop found_none ts
    choose fault
        (λ (server : Text). (do
          let child = child_handle h block id (now h.trace)
          (status, child) ←
              signon_phase2 env fuel child (some (with_port server h.oscarport)) found.cookie
          done child))
        found.server
