-- ===== src/Contacts.antt =====
-- The server-stored list of imcomm/snac.c: `imcomm_addtobuddylist`, `imcomm_get_next_id`,
-- `imcomm_im_add_buddy` and `imcomm_im_remove_buddy`.
pub mod Ids
pub mod Keep
pub mod Rosters
use bsflite_otr.Base.{
  ℕ, zero, suc, ◌+◌, ◌%◌, ◌^◌, Bool, true, false, Option, none, some, List, [], ◌∷◌, ◌++◌, length,
  Run, done, unfinished, ◌>>=◌, ◌==◌, if◌then◌else◌,
}
use bsflite_otr.Packet.{Field, u16, raw, add_fields, pkt_init, Ret}
use bsflite_otr.Session.{Text, Handle, Saved, Env}
use bsflite_otr.Names.{text_eq, simplify_sn}
use bsflite_otr.Roster.{delete_buddy}
use bsflite_otr.Flap.{Part, snac_add_to_multi, flap_send_multi}

-- `for (trav = buddylist; …) if (strcmp(sname, trav->sn) == 0)`
unfoldable pub is_saved : Text → List Saved → Bool
is_saved sname [] = false
is_saved sname (s ∷ rest) = if text_eq sname s.sn then true else is_saved sname rest

-- `imcomm_addtobuddylist`
unfoldable pub add_to_buddylist : Handle → Text → ℕ → ℕ → Handle
add_to_buddylist h sn id group_id =
    let sname = simplify_sn sn in
    let entry : Saved = record { sn = sname; formatted = sn; ssi_id = id; group_id = group_id } in
    if is_saved sname h.buddylist then h else record h { buddylist = h.buddylist ++ (entry ∷ []) }

-- `if (trav->ssi_id == firstid) found = 1`
pub id_used : ℕ → List Saved → Bool
id_used id [] = false
id_used id (s ∷ rest) = if s.ssi_id == id then true else id_used id rest

-- The loop of `imcomm_get_next_id`; `firstid` is a uint16_t and wraps.
pub next_id_loop : ℕ → List Saved → ℕ → Run ℕ
next_id_loop zero list firstid = unfinished
next_id_loop (suc fuel) list firstid =
    let more = next_id_loop fuel list ((firstid + 1) % 2 ^ 16) in
    if id_used firstid list then more else done firstid

-- `imcomm_get_next_id`. A list of n entries uses n numbers at most, so that n + 1 rounds are enough
-- unless the numbers run out.
pub get_next_id : Handle → Run ℕ
get_next_id h = next_id_loop (suc (length h.buddylist)) h.buddylist 1

-- The first entry of a name, unlinked.
pub take_out : Text → List Saved → Option (Saved × List Saved)
take_out sname [] = none
take_out sname (s ∷ rest) =
    let found = take_out sname rest in
    if text_eq s.sn sname
    then some (s, rest)
    else elim found [ none ↦ none | some (t, rest') ↦ some (t, s ∷ rest') ]

module _ (env : Env) where
  open env use {machine, fresh}

  -- The three SNACs that change one item: start of a change, the item, end of the change.
  pub send_change : Handle → ℕ → Text → ℕ → ℕ → Run Handle
  send_change h subtype name group_id id = do
    (parts, h) ← snac_add_to_multi env h [] 0x13 0x11 [] false
    p ←
        add_fields machine (pkt_init (fresh (10 + length name)) (10 + length name))
          (u16 (length name) ∷ raw name ∷ u16 group_id ∷ u16 id ∷ u16 0 ∷ u16 0 ∷ [])
    (parts, h) ← snac_add_to_multi env h parts 0x13 subtype p.bytes false
    (parts, h) ← snac_add_to_multi env h parts 0x13 0x12 [] false
    (status, h) ← flap_send_multi env h parts
    done h

  -- `imcomm_im_add_buddy`. `group_id` of the new entry is not set: it is what the memory held, and
  -- not the group 1 that the server is told.
  pub im_add_buddy : ℕ → Handle → Text → Run Handle
  im_add_buddy garbage h sn =
      let sname = simplify_sn sn in
      let add = (do
        nextid ← get_next_id h
        let entry : Saved = record {
          sn = sname;
          formatted = sname;
          ssi_id = nextid;
          group_id = garbage;
        }
        send_change (record h { buddylist = h.buddylist ++ (entry ∷ []) }) 0x08 sname 1 nextid) in
      if is_saved sname h.buddylist then done h else add

  -- `imcomm_im_remove_buddy`
  pub im_remove_buddy : Handle → Text → Run Handle
  im_remove_buddy h sn = elim (take_out (simplify_sn sn) h.buddylist) [
    | none ↦ done (delete_buddy h sn)
    | some (s, rest) ↦
        send_change (delete_buddy (record h { buddylist = rest }) sn) 0x0a s.formatted s.group_id
          s.ssi_id
  ]
