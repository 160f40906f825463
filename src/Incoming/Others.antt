-- ===== src/Incoming/Others.antt =====
-- The handlers for signing off and for user information, and the sending of a message, keep the roster.
use bsflite_otr.Base.{
  Bool, not, Always, Always-bind, ℕ, ◌+◌, Option, none, some, List, [], ◌∷◌, drop,
}
use bsflite_otr.Bytes.{Machine}
use bsflite_otr.Tlv.{Tlv, tlv_split}
use bsflite_otr.Session.{
  Text, Handle, on_signoff, signoff, on_profile, profile, on_away_message, away_message,
}
use bsflite_otr.Roster.{delete_buddy}
use bsflite_otr.Roster.Keep.{delete_buddy-IsRoster}
use bsflite_otr.Packet.{Packet}
use bsflite_otr.Session.{Env}
use bsflite_otr.Flap.Keep.{Kept, Kept1, Always-second, snac_send-Kept}
use bsflite_otr.Incoming.Keep.{notify-Kept}
use bsflite_otr.Incoming.{
  byte_at, name_at, left, get_signoff, info_loop, info_end, info_tlvs, get_user_info,
  im_send_message,
}

pub get_signoff-Kept :
    (h : Handle) (mem : List ℕ) (len : ℕ) → Kept h → Always Kept1 (get_signoff h mem len)
unfolding get_signoff
get_signoff-Kept h mem len v = Always-bind Kept1 (byte_at mem 10) _ (λ sn_len.
    Always-bind Kept1 (name_at mem 11 sn_len) _ (λ sn.
      notify-Kept (delete_buddy h sn) on_signoff (signoff sn) (delete_buddy-IsRoster h sn v)))

info_end-Kept :
    (m : Machine) (h : Handle) (sn : Text) (r : Option Text × Option Text)
    → Kept h
    → Kept (info_end m h sn r)
unfolding info_end
info_end-Kept m h sn (some p, a) v = notify-Kept h on_profile (profile sn p) v
info_end-Kept m h sn (none, some a) v = notify-Kept h on_away_message (away_message sn a) v
info_end-Kept m h sn (none, none) v = v

info_tlvs-Kept :
    (m : Machine) (h : Handle) (sn : Text) (ts : List Tlv) → Kept h → Kept (info_tlvs m h sn ts)
unfolding info_tlvs
info_tlvs-Kept m h sn [] v = v
info_tlvs-Kept m h sn (t ∷ []) v = v
info_tlvs-Kept m h sn (t ∷ u ∷ ts) v = info_end-Kept m h sn (info_loop m none none ts) v

pub get_user_info-Kept :
    (m : Machine) (h : Handle) (mem : List ℕ) (len : ℕ)
    → Kept h
    → Always Kept (get_user_info m h mem len)
unfolding get_user_info
get_user_info-Kept m h mem len v = Always-bind Kept (byte_at mem 0) _ (λ sn_len.
    Always-bind Kept (name_at mem 1 sn_len) _ (λ sn.
      Always-bind Kept (byte_at mem (sn_len + 4)) _ (λ count.
        Always-bind Kept (tlv_split m (drop (5 + sn_len) mem) (left len (5 + sn_len)) (count + 2)) _
          (λ ts. info_tlvs-Kept m h sn ts v))))

pub im_send_message-Kept :
    (env : Env) (h : Handle) (whom msg : Text) (automsg : Bool)
    → Kept h
    → Always Kept (im_send_message env h whom msg automsg)
unfolding im_send_message
im_send_message-Kept env h whom msg automsg v =
    Always-bind Kept _ _
      (λ (p : Packet). Always-second _ (snac_send-Kept env h 0x04 0x06 p.bytes (not automsg) v))
