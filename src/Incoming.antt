-- ===== src/Incoming.antt =====
-- The handlers of imcomm/snac.c for buddies that sign on and off, for messages and for user
-- information, and `imcomm_im_send_message`. A handler gets the memory from `data` on; the length of a
-- TLV list is a size_t, and wraps where the SNAC is shorter than its fixed part.
pub mod Keep
pub mod Others
pub mod Frames
use bsflite_otr.Base.{
  ℕ, ◌+◌, ◌-◌, ◌%◌, ◌^◌, Bool, true, false, not, ◌||◌, Option, none, some, List, [], ◌∷◌, ◌++◌,
  length, drop, Run, done, fault, ◌>>=◌, read_mem, ltb, ◌==◌, if◌then◌else◌,
}
use bsflite_otr.Bytes.{Machine, two_to_16, four_to_32}
use bsflite_otr.Packet.{Ret, ok, error, size_mod, Field, u8, u16, u32, raw, add_fields, pkt_init}
use bsflite_otr.Tlv.{Tlv, tlv_split}
use bsflite_otr.Session.{
  Text, Handle, Env, notify, on_signon, on_signoff, on_idle, on_away, on_incoming, on_profile,
  on_away_message, signon, signoff, idle_info, away, incoming, profile, away_message,
}
use bsflite_otr.Names.{c_string}
use bsflite_otr.Roster.{add_buddy, delete_buddy, update_buddy_times, update_buddy_away}
use bsflite_otr.Flap.{snac_send}

-- `data[i]`
pub byte_at : List ℕ → ℕ → Run ℕ
byte_at mem i = first (drop i mem)
  where
    first : List ℕ → Run ℕ
    first [] = fault
    first (b ∷ bs) = done b

-- `memcpy(sn, data + i, n); sn[n] = 0`
pub name_at : List ℕ → ℕ → ℕ → Run Text
name_at mem i n = do bytes ← read_mem mem i n; done (c_string bytes)

-- `len - n`, passed as a size_t.
abbrev pub left : ℕ → ℕ → ℕ
left len n = (len + size_mod - n) % size_mod

-- `snac_get_signoff`
pub get_signoff : Handle → List ℕ → ℕ → Run (Ret × Handle)
unfolding name_at
get_signoff h mem len = do
  sn_len ← byte_at mem 10
  sn ← name_at mem 11 sn_len
  done (ok, notify (delete_buddy h sn) on_signoff (signoff sn))

-- What `snac_get_signon` gathers from the TLVs.
pub record Gathered : Type 0 where
  pub idletime : ℕ
  pub onlinetime : ℕ
  pub isaway : Bool

-- `for (trav = list; trav != NULL; trav = trav->next) if (trav->type == type) break;`
pub find_type : ℕ → List Tlv → Option Tlv
find_type type [] = none
find_type type (t ∷ ts) = if t.type == type then some t else find_type type ts

-- The classes that say away.
abbrev pub away_class : ℕ → Bool
away_class b = (b == 0x30) || (b == 0x31) || (b == 0x24)

-- The end of `snac_get_signon`.
pub signon_end : Text → Handle × Gathered → Handle
signon_end sn (h, g) =
    let (added, h') = add_buddy h sn g.idletime g.onlinetime g.isaway in
    let told = notify (notify h' on_signon (signon sn)) on_idle (idle_info sn g.idletime) in
    if added
    then (if g.isaway then notify told on_away (away sn) else told)
    else update_buddy_away (update_buddy_times h' sn 1 g.idletime) sn g.isaway

module _ (m : Machine) where
  -- One round of the loop of `snac_get_signon`.
  pub signon_tlv : Handle → Text → Gathered → Tlv → Run (Handle × Gathered)
  signon_tlv h sn g t =
      let idle = (do idletime ← two_to_16 m t.value; done (h, record g { idletime = idletime })) in
      let class = (do
        b ← byte_at t.value 1
        done (h, if away_class b then record g { isaway = true } else g)) in
      let online = (do
        onlinetime ← four_to_32 m t.value
        done (update_buddy_times h sn 2 onlinetime, record g { onlinetime = onlinetime })) in
      if t.type == 4
      then idle
      else if t.type == 1
      then class
      else if t.type == 3
      then online
      else done (h, g)

  pub signon_loop : Handle → Text → Gathered → List Tlv → Run (Handle × Gathered)
  signon_loop h sn g [] = done (h, g)
  signon_loop h sn g (t ∷ ts) = do (h', g') ← signon_tlv h sn g t; signon_loop h' sn g' ts

  -- `snac_get_signon`
  pub get_signon : Handle → List ℕ → ℕ → Run (Ret × Handle)
  unfolding name_at
  get_signon h mem len = do
    sn_len ← byte_at mem 10
    numtlv ← two_to_16 m (drop (13 + sn_len) mem)
    sn ← name_at mem 11 sn_len
    ts ← tlv_split m (drop (11 + sn_len + 4) mem) (left len (11 + sn_len + 4)) numtlv
    r ← signon_loop h sn (record { idletime = 0; onlinetime = 0; isaway = false }) ts
    done (ok, signon_end sn r)

  -- The first loop of `snac_get_incoming_im`.
  pub incoming_loop : Handle → Text → Bool → List Tlv → Run (Handle × Bool)
  incoming_loop h sn auto_resp [] = done (h, auto_resp)
  incoming_loop h sn auto_resp (t ∷ ts) =
      let auto' = if t.type == 4 then (if t.len == 0 then true else auto_resp) else auto_resp in
      let online = (do
        onlinetime ← four_to_32 m t.value
        incoming_loop (update_buddy_times h sn 2 onlinetime) sn auto' ts) in
      let skip = incoming_loop h sn auto' ts in if t.type == 3 then online else skip

  -- `memcpy(msg, value + 4, len - 4)`; a shorter value makes the length negative.
  pub message_text : Tlv → Run Text
  message_text t = if ltb t.len 4 then fault else name_at t.value 4 (t.len - 4)

  -- The part of `snac_get_incoming_im` from the message block on.
  pub incoming_block : Handle → Text → Bool → Tlv → Run (Ret × Handle)
  unfolding message_text
  incoming_block h sn auto_resp block = do
    sub ← tlv_split m block.value block.len 2
    elim (find_type 0x0101 sub) [
      | none ↦ done (error, h)
      | some t ↦
          (message_text t >>= λ msg. done (ok, notify h on_incoming (incoming sn auto_resp msg)))
    ]

  -- `snac_get_incoming_im`. An answer of the machine's does not end the buddy's idle time.
  pub get_incoming_im : Handle → List ℕ → ℕ → Run (Ret × Handle)
  unfolding name_at
  get_incoming_im h mem len = do
    sn_len ← byte_at mem 20
    numtlv ← two_to_16 m (drop (sn_len + 23) mem)
    sn ← name_at mem 21 sn_len
    ts ← tlv_split m (drop (25 + sn_len) mem) (left len (25 + sn_len)) (numtlv + 1)
    (h', auto_resp) ← incoming_loop h sn false ts
    let awake = if auto_resp then h' else update_buddy_times h' sn 1 0
    elim (find_type 2 ts) [
      | none ↦ done (error, awake)
      | some block ↦ incoming_block awake sn auto_resp block
    ]

  -- `snac_get_user_info`: the loop, from the third TLV on, and the callback.
  info_loop : Option Text → Option Text → List Tlv → Option Text × Option Text
  info_loop profilestr awaymsg [] = (profilestr, awaymsg)
  info_loop profilestr awaymsg (t ∷ ts) =
      if t.type == 2
      then info_loop (some (c_string t.value)) awaymsg ts
      else if t.type == 4
      then (if t.len == 2
          then info_loop profilestr awaymsg ts
          else info_loop profilestr (some (c_string t.value)) ts)
      else info_loop profilestr awaymsg ts

  info_end : Handle → Text → Option Text × Option Text → Handle
  info_end h sn (some p, a) = notify h on_profile (profile sn p)
  info_end h sn (none, some a) = notify h on_away_message (away_message sn a)
  info_end h sn (none, none) = h

  info_tlvs : Handle → Text → List Tlv → Handle
  unfolding info_loop info_end
  info_tlvs h sn (t ∷ u ∷ ts) = info_end h sn (info_loop none none ts)
  info_tlvs h sn _ = h

  pub get_user_info : Handle → List ℕ → ℕ → Run Handle
  unfolding name_at info_tlvs
  get_user_info h mem len = do
    sn_len ← byte_at mem 0
    sn ← name_at mem 1 sn_len
    count ← byte_at mem (sn_len + 4)
    ts ← tlv_split m (drop (5 + sn_len) mem) (left len (5 + sn_len)) (count + 2)
    done (info_tlvs h sn ts)

-- The fields of an outgoing message.
abbrev pub message_fields : Text → Text → Bool → List Field
message_fields whom msg automsg =
    u32 0x01020304
    ∷ u32 0x05060708
    ∷ u16 0x0001
    ∷ u8 (length whom)
    ∷ raw whom
    ∷ u16 0x0002
    ∷ u16 (length msg + 13)
    ∷ u32 0x05010001
    ∷ u8 0x01
    ∷ u16 0x0101
    ∷ u16 (length msg + 4)
    ∷ u32 0
    ∷ raw msg
    ∷ (if automsg then u16 0x0004 ∷ u16 0 ∷ [] else [])

abbrev pub message_size : Text → Text → Bool → ℕ
message_size whom msg automsg = 28 + length whom + length msg + (if automsg then 4 else 0)

-- `imcomm_im_send_message`
pub im_send_message : Env → Handle → Text → Text → Bool → Run Handle
im_send_message env h whom msg automsg = do
  let size = message_size whom msg automsg
  p ← add_fields env.machine (pkt_init (env.fresh size) size) (message_fields whom msg automsg)
  (status, h') ← snac_send env h 0x04 0x06 p.bytes (not automsg)
  done h'
