-- ===== src/Incoming/Keep.antt =====
-- Whatever the server sends, the handlers keep the roster.
use bsflite_otr.Base.{
  Always, Always-bind, Always-chain, if-holds, ℕ, Bool, true, false, ◌==◌, List, [], ◌∷◌, drop,
  done, ◌>>=◌, if◌then◌else◌, Option, none, some, ◌+◌,
}
use bsflite_otr.Bytes.{Machine, two_to_16, four_to_32}
use bsflite_otr.Packet.{ok, error}
use bsflite_otr.Tlv.{Tlv, tlv_split}
use bsflite_otr.Flap.Keep.{Kept, Kept0, Kept1}
use bsflite_otr.Session.{
  on_incoming, incoming, Text, Handle, Kind, Event, notify, record_event, on_signon, signon,
  on_idle, idle_info, on_away, away,
}
use bsflite_otr.Roster.{add_buddy, update_buddy_times, update_buddy_away}
use bsflite_otr.Roster.View.{IsRoster}
use bsflite_otr.Roster.Keep.{add_buddy-IsRoster, update_buddy_times-IsRoster}
use bsflite_otr.Roster.Away.{update_buddy_away-IsRoster}
use bsflite_otr.Incoming.{
  byte_at, name_at, left, Gathered, find_type, away_class, signon_end, signon_tlv, signon_loop,
  get_signon, incoming_loop, message_text, incoming_block, get_incoming_im,
}

pub notify-Kept : (h : Handle) (k : Kind) (e : Event) → Kept h → Kept (notify h k e)
notify-Kept h k e v = if-holds Kept (h.registered k) (record_event h e) h v v

signon_end-Kept : (sn : Text) (h : Handle) (g : Gathered) → Kept h → Kept (signon_end sn (h, g))
unfolding signon_end
signon_end-Kept sn h g v =
    let (added, h') = add_buddy h sn g.idletime g.onlinetime g.isaway in
    let kept : Kept h' = add_buddy-IsRoster h sn g.idletime g.onlinetime g.isaway v in
    let known = notify h' on_signon (signon sn) in
    let told = notify known on_idle (idle_info sn g.idletime) in
    let there = update_buddy_times h' sn 1 g.idletime in
    let telling =
      notify-Kept known on_idle (idle_info sn g.idletime)
        (notify-Kept h' on_signon (signon sn) kept) in
    if-holds Kept added (if g.isaway then notify told on_away (away sn) else told)
      (update_buddy_away there sn g.isaway)
      (if-holds Kept g.isaway (notify told on_away (away sn)) told
        (notify-Kept told on_away (away sn) telling) telling)
      (update_buddy_away-IsRoster there sn g.isaway
        (update_buddy_times-IsRoster h' sn 1 g.idletime kept))

module _ (m : Machine) where
  signon_tlv-Kept :
      (h : Handle) (sn : Text) (g : Gathered) (t : Tlv)
      → Kept h
      → Always Kept0 (signon_tlv m h sn g t)
  unfolding signon_tlv
  signon_tlv-Kept h sn g t v =
      let idle =
        Always-bind Kept0 (two_to_16 m t.value) (λ n. done (h, record g { idletime = n }))
          (λ n. v) in
      let class =
        Always-bind Kept0 (byte_at t.value 1)
          (λ b. done (h, if away_class b then record g { isaway = true } else g)) (λ b. v) in
      let online =
        Always-bind Kept0 (four_to_32 m t.value)
          (λ n. done (update_buddy_times h sn 2 n, record g { onlinetime = n }))
          (λ n. update_buddy_times-IsRoster h sn 2 n v) in
      if-holds (Always Kept0) (t.type == 4) _ _ idle (
        if-holds (Always Kept0) (t.type == 1) _ _ class
          (if-holds (Always Kept0) (t.type == 3) _ _ online v))

  signon_loop-Kept :
      (h : Handle) (sn : Text) (g : Gathered) (ts : List Tlv)
      → Kept h
      → Always Kept0 (signon_loop m h sn g ts)
  unfolding signon_loop
  signon_loop-Kept h sn g [] v = v
  signon_loop-Kept h sn g (t ∷ ts) v =
      Always-chain Kept0 Kept0 (signon_tlv m h sn g t) (λ (h', g'). signon_loop m h' sn g' ts)
        (signon_tlv-Kept h sn g t v) (λ r w. signon_loop-Kept r.0 sn r.1 ts w)

  -- Whatever bytes a sign-on consists of, the handler keeps the roster, if it returns.
  pub get_signon-IsRoster :
      (h : Handle) (mem : List ℕ) (len : ℕ)
      → IsRoster h.buddies_online
      → Always Kept1 (get_signon m h mem len)
  unfolding get_signon
  get_signon-IsRoster h mem len v = Always-bind Kept1 (byte_at mem 10) _ (λ sn_len.
      Always-bind Kept1 (two_to_16 m (drop (13 + sn_len) mem)) _ (λ numtlv.
        Always-bind Kept1 (name_at mem 11 sn_len) _ (λ sn.
          Always-bind Kept1
            (tlv_split m (drop (11 + sn_len + 4) mem) (left len (11 + sn_len + 4)) numtlv) _
            (λ ts.
              Always-chain Kept0 Kept1
                (signon_loop m h sn (record { idletime = 0; onlinetime = 0; isaway = false }) ts) _
                (signon_loop-Kept h sn (record { idletime = 0; onlinetime = 0; isaway = false }) ts
                  v)
                (λ r w. signon_end-Kept sn r.0 r.1 w)))))

  incoming_loop-Kept :
      (h : Handle) (sn : Text) (auto_resp : Bool) (ts : List Tlv)
      → Kept h
      → Always Kept0 (incoming_loop m h sn auto_resp ts)
  unfolding incoming_loop
  incoming_loop-Kept h sn auto_resp [] v = v
  incoming_loop-Kept h sn auto_resp (t ∷ ts) v =
      let auto' = if t.type == 4 then (if t.len == 0 then true else auto_resp) else auto_resp in
      let online =
        Always-bind Kept0 (four_to_32 m t.value)
          (λ n. incoming_loop m (update_buddy_times h sn 2 n) sn auto' ts)
          (λ n.
            incoming_loop-Kept (update_buddy_times h sn 2 n) sn auto' ts
              (update_buddy_times-IsRoster h sn 2 n v)) in
      if-holds (Always Kept0) (t.type == 3) _ _ online (incoming_loop-Kept h sn auto' ts v)

  incoming_block-Kept :
      (h : Handle) (sn : Text) (auto_resp : Bool) (block : Tlv)
      → Kept h
      → Always Kept1 (incoming_block m h sn auto_resp block)
  unfolding incoming_block
  incoming_block-Kept h sn auto_resp block v =
      Always-bind Kept1 (tlv_split m block.value block.len 2) _
        (λ sub. found (find_type 0x0101 sub))
    where
      found :
          (o : Option Tlv)
          → Always Kept1 (elim o [
            | none ↦ done (error, h)
            | some t ↦
                (message_text m t >>= λ msg.
                done (ok, notify h on_incoming (incoming sn auto_resp msg)))
          ])
      found none = v
      found (some t) =
          Always-bind Kept1 (message_text m t)
            (λ msg. done (ok, notify h on_incoming (incoming sn auto_resp msg)))
            (λ msg. notify-Kept h on_incoming (incoming sn auto_resp msg) v)

  -- Whatever bytes a message consists of, the handler keeps the roster, if it returns.
  pub get_incoming_im-IsRoster :
      (h : Handle) (mem : List ℕ) (len : ℕ)
      → IsRoster h.buddies_online
      → Always Kept1 (get_incoming_im m h mem len)
  unfolding get_incoming_im
  get_incoming_im-IsRoster h mem len v = Always-bind Kept1 (byte_at mem 20) _ (λ sn_len.
      Always-bind Kept1 (two_to_16 m (drop (sn_len + 23) mem)) _ (λ numtlv.
        Always-bind Kept1 (name_at mem 21 sn_len) _ (λ sn.
          Always-bind Kept1
            (tlv_split m (drop (25 + sn_len) mem) (left len (25 + sn_len)) (numtlv + 1)) _
            (λ ts.
              Always-chain Kept0 Kept1 (incoming_loop m h sn false ts) _
                (incoming_loop-Kept h sn false ts v)
                (λ r w.
                  found sn (if r.1 then r.0 else update_buddy_times r.0 sn 1 0) r.1
                    (if-holds Kept r.1 r.0 (update_buddy_times r.0 sn 1 0) w
                      (update_buddy_times-IsRoster r.0 sn 1 0 w))
                    (find_type 2 ts))))))
    where
      found :
          (sn : Text) (h' : Handle) (auto_resp : Bool)
          → Kept h'
          → (o : Option Tlv)
          → Always Kept1 (elim o [
            | none ↦ done (error, h')
            | some block ↦ incoming_block m h' sn auto_resp block
          ])
      found sn h' auto_resp w none = w
      found sn h' auto_resp w (some block) = incoming_block-Kept h' sn auto_resp block w
