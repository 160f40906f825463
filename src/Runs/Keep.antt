-- ===== src/Runs/Keep.antt =====
-- What no key and no callback breaks.
use bsflite_otr.Base.{
  if-holds, Always, [], ℕ, refl, done, fault, unfinished, Run, Bool, Option, arith, subst, false,
}
use bsflite_otr.Session.{Text, Event}
use bsflite_otr.Screen.Order.{
  IsClient, buddy_online-IsClient, buddy_offline-IsClient, buddy_away-IsClient,
  buddy_unaway-IsClient, buddy_idle-IsClient, remove_from_list-IsClient,
}
use bsflite_otr.Screen.{Client}
use bsflite_otr.Desk.{Desk, parse_input}
use bsflite_otr.Desk.Server.{IsTold}
use bsflite_otr.Desk.Told.{After, parse_input-After}
use bsflite_otr.Desk.Listed.{Listed, parse_input-Listed}
use bsflite_otr.Keys.Keep.{IsStable, Typed, press-Typed}
use bsflite_otr.Arrive.{Libotr, getmessage}
use bsflite_otr.Arrive.Keep.{IsSmall, Handled, getmessage-Handled}
use bsflite_otr.Arrive.Others.{Alike, getmessage-Alike}
use bsflite_otr.Runs.{deliver, IsSmallEvent, Step, key, callback, Reaches, start, next}

-- The server was told what `IsTold` says, and the buddy list is in order and counted.
abbrev pub Kept : Desk → Type 0
Kept d = IsTold d × Listed (λ c idle on. IsClient c) d

both :
    (r : Run Desk) (d : Desk)
    → After d r
    → Always (Listed (λ c idle on. IsClient c)) r
    → Always Kept r
both (done d') d told listed = (told, listed)
both fault d told listed = tt
both unfinished d told listed = tt

desk-IsStable : IsStable Kept
desk-IsStable = record {
  edit = λ d line typing raw who (v, listed).
      (record { flag = v.flag; message = v.message; visibility = v.visibility }, listed);
  command = λ d fits (v, listed).
      both (parse_input d) d (parse_input-After d (omega (arith, fits)) v) (
        parse_input-Listed (λ c idle on. IsClient c)
          (λ c idle on who. remove_from_list-IsClient c who)
          (λ c idle on v. if-holds IsClient on _ _ (record { sorted = tt; counted = refl }) v) d
          listed);
}

-- The line fits its buffer, too.
abbrev pub IsGood : Desk → Type 0
IsGood d = Typed Kept d

-- Another buddy list that is in order and counted.
client-IsGood :
    (d : Desk) (c : Client) (on : Bool)
    → IsGood d
    → IsClient c
    → IsGood (record d { connected = on; client = c })
client-IsGood d c on ((v, listed), fits) kept =
    ((record { flag = v.flag; message = v.message; visibility = v.visibility }, kept), fits)

outcome-IsGood :
    (nick : Text) (d : Desk) (r : Run Desk)
    → IsGood d
    → Handled nick d r
    → Always (Alike d) r
    → Always IsGood r
outcome-IsGood nick d (done d') ((v, listed), fits) (told, once) (client, line) =
    ((told, rw client listed), rw line fits)
outcome-IsGood nick d fault v h k = tt
outcome-IsGood nick d unfinished v h k = tt

deliver-IsGood :
    (context_find : Text → Option ℕ) (libotr : Libotr) (d : Desk) (e : Event)
    → IsSmall libotr
    → IsSmallEvent e
    → IsGood d
    → Always IsGood (deliver context_find libotr d e)
unfolding deliver
deliver-IsGood context_find libotr d (Event.signon who) small fits v =
    client-IsGood d _ d.connected v (buddy_online-IsClient context_find d.client who v.0.1)
deliver-IsGood context_find libotr d (Event.signoff who) small fits v =
    client-IsGood d _ d.connected v (buddy_offline-IsClient d.client who v.0.1)
deliver-IsGood context_find libotr d (Event.away who) small fits v =
    client-IsGood d _ d.connected v (buddy_away-IsClient d.client who v.0.1)
deliver-IsGood context_find libotr d (Event.unaway who) small fits v =
    client-IsGood d _ d.connected v (buddy_unaway-IsClient d.client who v.0.1)
deliver-IsGood context_find libotr d (Event.idle_info who n) small fits v =
    client-IsGood d _ d.connected v (buddy_idle-IsClient d.client who n v.0.1)
deliver-IsGood context_find libotr d (Event.incoming who automessage message) small fits v =
    outcome-IsGood [] d (getmessage libotr d who automessage message) v
      (getmessage-Handled libotr [] d who automessage message small fits v.0.0)
      (getmessage-Alike libotr d who automessage message)
deliver-IsGood context_find libotr d Event.deleted small fits v =
    client-IsGood d (record d.client { buddies = []; buddiesonline = 0 }) false v
      (record { sorted = tt; counted = refl })
deliver-IsGood context_find libotr d e small fits v = v

step-IsGood :
    (context_find : Text → Option ℕ) (libotr : Libotr) (d d' : Desk)
    → Step context_find libotr d d'
    → IsSmall libotr
    → IsGood d
    → IsGood d'
step-IsGood context_find libotr _ _ (key c d d' e) small v =
    subst (Always IsGood) e (press-Typed Kept desk-IsStable d c v)
step-IsGood context_find libotr _ _ (callback b d d' fits e) small v =
    subst (Always IsGood) e (deliver-IsGood context_find libotr d b small fits v)

-- Whatever keys are pressed and whatever callbacks are made, in any order, of a client that does not
-- connect again by itself, from a state in which the server was told the away message that the client
-- has, and its visibility, unless the connection was made by `R!` and was told no change of it, in which
-- the buddy list is in order and counted and the line fits its buffer, if the messages that arrive and
-- the texts that libotr hands over have lengths that are a size_t: every state that is reached is such a
-- state.
pub Reaches-IsGood :
    (context_find : Text → Option ℕ) (libotr : Libotr) (d d' : Desk)
    → Reaches context_find libotr d d'
    → IsSmall libotr
    → IsGood d
    → IsGood d'
Reaches-IsGood context_find libotr d _ start small v = v
Reaches-IsGood context_find libotr d _ (next {d'} {d''} reached s) small v =
    step-IsGood context_find libotr d' d'' s small
      (Reaches-IsGood context_find libotr d d' reached small v)
