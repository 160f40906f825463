-- ===== src/Contacts/Keep.antt =====
-- What adding and removing a contact does to the stored list and to the wire.
use bsflite_otr.Base.{
  if◌then◌else◌, none, ℕ, ◌+◌, ◌^◌, ◌<◌, ◌≡◌, false, List, [], ◌∷◌, ◌++◌, length, done, arith,
  length-append, sym, some, ◌∙◌, ap,
}
use bsflite_otr.Packet.{Field, u16, raw, add_fields, pkt_init}
use bsflite_otr.Packet.Write.{wire_all, filled, add_fields-init}
use bsflite_otr.Session.{Text, Handle, Env, Event, sent, positive, next_seq, Online}
use bsflite_otr.Flap.{
  Part, add_to_multi, snac_add_to_multi, next_req, user_active, any_update, failed_multi,
}
use bsflite_otr.Flap.Frame.{
  frame, frames, seq_after, snac, snac_packet_lem, flap_send_multi_lem, length-frame,
}
use bsflite_otr.Contacts.{
  send_change, im_add_buddy, simplify_sn, is_saved, take_out, im_remove_buddy, Saved, delete_buddy,
}
use bsflite_otr.Names.{text_eq}
use bsflite_otr.Roster.View.{IsRoster, find, delete_buddy_lem, delete_buddy_only}
use bsflite_otr.Names.Laws.{text_eq_refl, text_eq_comm}
use bsflite_otr.Contacts.Ids.{IsLeastFree, get_next_id-IsLeastFree}

-- The item that names a buddy, and the batch that changes it.
abbrev item_fields : Text → ℕ → ℕ → List Field
item_fields name group_id id =
    u16 (length name) ∷ raw name ∷ u16 group_id ∷ u16 id ∷ u16 0 ∷ u16 0 ∷ []

abbrev silent_part : List ℕ → Part
silent_part bs = record { channel = 0x02; packet = bs; updateidle = false }

abbrev change_parts : Handle → ℕ → Text → ℕ → ℕ → List Part
change_parts h subtype name group_id id =
    silent_part (snac h 0x13 0x11 [])
    ∷ silent_part (snac (next_req h) 0x13 subtype (wire_all (item_fields name group_id id)))
    ∷ silent_part (snac (next_req (next_req h)) 0x13 0x12 [])
    ∷ []

-- The handle after the batch has gone out.
abbrev pub changed : Handle → ℕ → Text → ℕ → ℕ → Handle
changed h subtype name group_id id = record (next_req (next_req (next_req h))) {
  seqnum = seq_after 3 h.seqnum;
  trace = h.trace ++ (sent (frames h.seqnum (change_parts h subtype name group_id id)) ∷ []);
}

length-item :
    (name : Text) (group_id id : ℕ)
    → length (wire_all (item_fields name group_id id)) ≡ 10 + length name
length-item name group_id id =
    omega (arith, length-append name (wire_all (u16 group_id ∷ u16 id ∷ u16 0 ∷ u16 0 ∷ [])))

length-snac :
    (h : Handle) (family subtype : ℕ) (body : List ℕ)
    → length (snac h family subtype body) ≡ 10 + length body
length-snac h family subtype body = omega (arith, length-append body [])

length-frames3 :
    (seqnum : ℕ) (a b c : Part)
    → length (frames seqnum (a ∷ b ∷ c ∷ []))
      ≡ 18 + length a.packet + length b.packet + length c.packet
length-frames3 seqnum a b c =
    let s1 = next_seq seqnum in
    let s2 = next_seq s1 in
    omega (
      arith,
      length-append (frame a.channel seqnum a.packet) (frames s1 (b ∷ c ∷ [])),
      length-append (frame b.channel s1 b.packet) (frames s2 (c ∷ [])),
      length-append (frame c.channel s2 c.packet) [],
      length-frame a.channel seqnum a.packet,
      length-frame b.channel s1 b.packet,
      length-frame c.channel s2 c.packet,
    )

take_out-split :
    (sname : Text) (before : List Saved) (s : Saved) (after : List Saved)
    → is_saved sname before ≡ false
    → s.sn ≡ sname
    → take_out sname (before ++ (s ∷ after)) ≡ some (s, before ++ after)
unfolding take_out is_saved
take_out-split sname [] s after absent same = rw (same, text_eq_refl sname)
take_out-split sname (b ∷ before) s after absent same =
    ground (arith, text_eq_comm b.sn sname, take_out-split sname before s after)

module _ (env : Env) (alive : (tr : List Event) (bs : List ℕ) → env.write tr bs ≡ positive) where
  open env use {machine, calibrated, fresh, length-fresh}

  add_snac :
      (h : Handle) (parts : List Part) (family subtype : ℕ) (body : List ℕ)
      → length body < 2 ^ 16
      → snac_add_to_multi env h parts family subtype body false
        ≡ done (parts ++ (silent_part (snac h family subtype body) ∷ []), next_req h)
  unfolding snac_add_to_multi add_to_multi
  add_snac h parts family subtype body small = rw (snac_packet_lem env h family subtype body small)

  send_change_lem :
      (h : Handle) (subtype : ℕ) (name : Text) (group_id id : ℕ)
      → 10 + length name < 2 ^ 16
      → send_change env h subtype name group_id id ≡ done (changed h subtype name group_id id)
  unfolding send_change user_active any_update failed_multi
  send_change_lem h subtype name group_id id small =
      let fs = item_fields name group_id id in
      let len = length-item name group_id id in
      let mem = fresh (10 + length name) in
      let start = silent_part (snac h 0x13 0x11 []) in
      let item = silent_part (snac (next_req h) 0x13 subtype (wire_all fs)) in
      let end = silent_part (snac (next_req (next_req h)) 0x13 0x12 []) in
      let total = length-frames3 h.seqnum start item end in
      let len_item = length-snac (next_req h) 0x13 subtype (wire_all fs) in
      let built : add_fields machine (pkt_init mem (10 + length name)) fs
          ≡ done (filled (wire_all fs)) =
        rw (sym len) (
          add_fields-init machine fs (fresh (length (wire_all fs))) calibrated (length-fresh _)
            (omega (arith, len, length-fresh (length (wire_all fs))))) in
      rw (
        add_snac h [] 0x13 0x11 [] (omega arith),
        built,
        add_snac (next_req h) (start ∷ []) 0x13 subtype (wire_all fs) (omega (arith, len)),
        add_snac (next_req (next_req h)) (start ∷ item ∷ []) 0x13 0x12 [] (omega arith),
        flap_send_multi_lem env (next_req (next_req (next_req h))) start (item ∷ end ∷ [])
            (omega (arith, total, len_item, len)),
        alive,
      )

  -- Adding a name that the stored list does not hold, while the socket accepts what it is given and
  -- the numbers do not run out: the entry is appended under the least number from 1 on that no entry
  -- has, and the server gets one batch that adds the item under this number to group 1.
  pub im_add_buddy_lem :
      (garbage : ℕ) (h : Handle) (sn : Text)
      → 10 + length (simplify_sn sn) < 2 ^ 16
      → length h.buddylist + 1 < 2 ^ 16
      → is_saved (simplify_sn sn) h.buddylist ≡ false
      → let sname = simplify_sn sn in
        (id : ℕ) × IsLeastFree h.buddylist id
        × (im_add_buddy env garbage h sn
            ≡ done (
                changed
                  (record h {
                    buddylist =
                        h.buddylist
                        ++ (record {
                          sn = sname;
                          formatted = sname;
                          ssi_id = id;
                          group_id = garbage;
                        }
                            ∷ []);
                  })
                  0x08
                  sname
                  1
                  id))
  unfolding im_add_buddy
  im_add_buddy_lem garbage h sn short few absent =
      let (id, got, least) = get_next_id-IsLeastFree h few in
      (id, least, rw (absent, got, send_change_lem _ 0x08 (simplify_sn sn) 1 id short))

  -- Removing a contact that the stored list holds, while the socket accepts what it is given and the
  -- buddies online are well formed: the first entry of the name leaves the list, the name leaves the
  -- list of buddies online and no other does, and the server gets one batch that takes back the item of
  -- this entry.
  pub im_remove_buddy_lem :
      (h : Handle) (sn : Text) (before : List Saved) (s : Saved) (after : List Saved)
      → h.buddylist ≡ before ++ (s ∷ after)
      → is_saved (simplify_sn sn) before ≡ false
      → s.sn ≡ simplify_sn sn
      → 10 + length s.formatted < 2 ^ 16
      → IsRoster h.buddies_online
      → (online : List Online) × ((k : Text)
          → find k online ≡ (if text_eq k (simplify_sn sn) then none else find k h.buddies_online))
        × (im_remove_buddy env h sn
            ≡ done (
                changed
                  (record h { buddylist = before ++ after; buddies_online = online })
                  0x0a
                  s.formatted
                  s.group_id
                  s.ssi_id))
  unfolding im_remove_buddy
  im_remove_buddy_lem h sn before s after e absent same short roster =
      let g : Handle = record h { buddylist = before ++ after } in
      let found : take_out (simplify_sn sn) h.buddylist ≡ some (s, before ++ after) =
        rw e (take_out-split (simplify_sn sn) before s after absent same) in
      let sends : im_remove_buddy env h sn
          ≡ done (changed (delete_buddy g sn) 0x0a s.formatted s.group_id s.ssi_id) =
        rw (im_remove_buddy, found, send_change_lem _ 0x0a s.formatted s.group_id s.ssi_id short) in
      (
        (delete_buddy g sn).buddies_online,
        (λ k. delete_buddy_lem g sn k roster),
        sends
            ∙ ap (λ (x : Handle). done (changed x 0x0a s.formatted s.group_id s.ssi_id))
                (delete_buddy_only g sn),
      )
