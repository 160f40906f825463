-- ===== src/Runs.antt =====
-- The client as a whole: keys of bsf.c and callbacks of imcomm, in the order in which they happen. The
-- callbacks are those that create_new_connection of conn.c registers; those that only print are left
-- out, and a connection that is deleted is made again by `R!` only.
pub mod Keep
use bsflite_otr.Base.{
  ◌>>=◌, Run, done, fault, unfinished, ◌==◌, ◌||◌, ◌&&◌, not, ◌++◌, ◌∷◌, [], List, ℕ, zero, suc,
  ◌+◌, ◌-◌, ◌≤◌, ◌<◌, ◌≡◌, ◌≢◌, refl, sym, ap, ◌∙◌, subst, Bool, true, false, Option, none, some,
  length, take, drop, All, ltb, leb, if◌then◌else◌, choose, arith, Bool-cases, Option-cases, inl,
  inr, ◌⊎◌, lt→ltb, ge→ltb, le→leb, gt→leb, ltb_false→le, length-append, ℕ_discrete, dec_le, dec_lt,
  append_assoc, append-nil, map, All-append, suc-ne-zero,
}
use bsflite_otr.Session.{Text, Event}
use bsflite_otr.Packet.{size_mod}
use bsflite_otr.Screen.{buddy_online, buddy_offline, buddy_away, buddy_unaway, buddy_idle}
use bsflite_otr.Desk.{Desk}
use bsflite_otr.Keys.{press}
use bsflite_otr.Arrive.{Libotr, getmessage}

-- The callback that an event makes; libotr's `otrl_context_find` and what it makes of a message are
-- parameters.
unfoldable pub deliver : (Text → Option ℕ) → Libotr → Desk → Event → Run Desk
deliver context_find libotr d (Event.signon who) =
    done (record d { client = buddy_online context_find d.client who })
deliver context_find libotr d (Event.signoff who) =
    done (record d { client = buddy_offline d.client who })
deliver context_find libotr d (Event.away who) =
    done (record d { client = buddy_away d.client who })
deliver context_find libotr d (Event.unaway who) =
    done (record d { client = buddy_unaway d.client who })
deliver context_find libotr d (Event.idle_info who n) =
    done (record d { client = buddy_idle d.client who n })
deliver context_find libotr d (Event.incoming who automessage message) =
    getmessage libotr d who automessage message
deliver context_find libotr d Event.deleted =
    done
      (record d { connected = false; client = record d.client { buddies = []; buddiesonline = 0 } })
deliver context_find libotr d e = done d

-- A message that arrives has a length that is a size_t.
abbrev pub IsSmallEvent : Event → Type 0
IsSmallEvent (Event.incoming who automessage message) = length message < size_mod
IsSmallEvent _ = Unit {0}

-- What happens to the client, and the states that it reaches.
pub data Step (context_find : Text → Option ℕ) (libotr : Libotr) : Desk → Desk → Type 0 where
  key : (c : ℕ) (d d' : Desk) → press d c ≡ done d' → Step context_find libotr d d'
  callback :
      (e : Event) (d d' : Desk)
      → IsSmallEvent e
      → deliver context_find libotr d e ≡ done d'
      → Step context_find libotr d d'

pub data Reaches (context_find : Text → Option ℕ) (libotr : Libotr) (d : Desk) : Desk → Type 0 where
  start : Reaches context_find libotr d d
  next :
      {d' d'' : Desk}
      → Reaches context_find libotr d d'
      → Step context_find libotr d' d''
      → Reaches context_find libotr d d''
