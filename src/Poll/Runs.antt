-- ===== src/Poll/Runs.antt =====
-- The states that the list of connections can be in: a step relation of what the client does with it.
use bsflite_otr.Base.{
  Run, ◌>>=◌, ◌++◌, Always, All, All-append, ◌≡◌, subst, if-holds, ℕ, Bool, false, List, [], ◌∷◌,
  ◌==◌, done,
}
use bsflite_otr.Packet.{Ret}
use bsflite_otr.Session.{Handle, Env, Text}
use bsflite_otr.Roster.View.{IsRoster}
use bsflite_otr.Flap.{set_idle_time}
use bsflite_otr.Flap.Keep.{Kept, Always-second, set_idle_time-Kept}
use bsflite_otr.Incoming.{im_send_message}
use bsflite_otr.Incoming.Others.{im_send_message-Kept}
use bsflite_otr.Contacts.{im_add_buddy, im_remove_buddy}
use bsflite_otr.Contacts.Rosters.{im_add_buddy-Kept, im_remove_buddy-Kept}
use bsflite_otr.Requests.{
  request_awayprofile, request_profile, request_awaymsg, set_profile, set_invisible, set_away,
  set_unaway,
}
use bsflite_otr.Requests.Asked.{
  request_awayprofile-Kept, request_profile-Kept, request_awaymsg-Kept, set_profile-Kept,
  set_invisible-Kept, set_away-Kept, set_unaway-Kept,
}
use bsflite_otr.Login.{im_signon}
use bsflite_otr.Login.Keep.{im_signon-Kept}
use bsflite_otr.Handles.{Imcomm, create_handle, new_handle, delete_handle, mark}
use bsflite_otr.Poll.{poll}
use bsflite_otr.Poll.Keep.{AllRosters, poll-AllRosters}

-- Nothing has been connected yet.
abbrev pub no_handles : Imcomm
no_handles = record { handles = []; nodes_to_delete = false }

-- What the client asks of a connection.
pub data Operation : Type 0 where
  connect_as : ℕ → Text → Text → Operation
  send : Text → Text → Bool → Operation
  add : ℕ → Text → Operation
  take_off : Text → Operation
  away profile : Text → Operation
  unaway : Operation
  invisible : Bool → Operation
  idle_time : ℕ → Operation
  ask_awayprofile ask_profile ask_awaymsg : Text → Operation

pub operate : Env → Operation → Handle → Run Handle
operate env (connect_as fuel sn pw) h = do (status, h') ← im_signon env fuel h sn pw; done h'
operate env (send sn msg automsg) h = im_send_message env h sn msg automsg
operate env (add garbage sn) h = im_add_buddy env garbage h sn
operate env (take_off sn) h = im_remove_buddy env h sn
operate env (away msg) h = set_away env h msg
operate env (profile text) h = set_profile env h text
operate env unaway h = set_unaway env h
operate env (invisible b) h = set_invisible env h b
operate env (idle_time n) h = set_idle_time env h n
operate env (ask_awayprofile sn) h = request_awayprofile env h sn
operate env (ask_profile sn) h = request_profile env h sn
operate env (ask_awaymsg sn) h = request_awaymsg env h sn

-- The states that follow one another: a connection is created, or marked for deletion, or one is asked
-- for something, or all are polled, in a world of its own each time.
pub data Reaches (alloc : List Handle → Handle × ℕ) : Imcomm → Imcomm → Type 1 where
  here : {st : Imcomm} → Reaches alloc st st
  created :
      {st st' : Imcomm} (block : Handle) (id now : ℕ)
      → Reaches alloc (create_handle st block id now) st'
      → Reaches alloc st st'
  marked :
      {st st' : Imcomm} (id : ℕ) → Reaches alloc (delete_handle st id) st' → Reaches alloc st st'
  asked :
      {st st' : Imcomm} (env : Env) (o : Operation) (before after : List Handle) (h h' : Handle)
      → st.handles ≡ before ++ (h ∷ after)
      → operate env o h ≡ done h'
      → Reaches alloc (record st { handles = before ++ (h' ∷ after) }) st'
      → Reaches alloc st st'
  polled :
      {st st' : Imcomm} (env : Env) (readable : Handle → Bool) (rounds fuel : ℕ) (selected : Bool)
      (ret : Ret) (next : Imcomm)
      → poll env alloc readable rounds fuel selected st ≡ done (ret, next)
      → Reaches alloc next st'
      → Reaches alloc st st'

operate-Kept : (env : Env) (o : Operation) (h : Handle) → Kept h → Always Kept (operate env o h)
unfolding operate
operate-Kept env (connect_as fuel sn pw) h v = Always-second _ (im_signon-Kept env fuel h sn pw v)
operate-Kept env (send sn msg automsg) h v = im_send_message-Kept env h sn msg automsg v
operate-Kept env (add garbage sn) h v = im_add_buddy-Kept env garbage h sn v
operate-Kept env (take_off sn) h v = im_remove_buddy-Kept env h sn v
operate-Kept env (away msg) h v = set_away-Kept env h msg v
operate-Kept env (profile text) h v = set_profile-Kept env h text v
operate-Kept env unaway h v = set_unaway-Kept env h v
operate-Kept env (invisible b) h v = set_invisible-Kept env h b v
operate-Kept env (idle_time n) h v = set_idle_time-Kept env h n v
operate-Kept env (ask_awayprofile sn) h v = request_awayprofile-Kept env h sn v
operate-Kept env (ask_profile sn) h v = request_profile-Kept env h sn v
operate-Kept env (ask_awaymsg sn) h v = request_awaymsg-Kept env h sn v

-- One handle of the list becomes another.
replace-Kept :
    (before after : List Handle) (h h' : Handle)
    → (Kept h → Kept h')
    → All Kept (before ++ (h ∷ after))
    → All Kept (before ++ (h' ∷ after))
replace-Kept [] after h h' keep (v, vs) = (keep v, vs)
replace-Kept (b ∷ before) after h h' keep (v, vs) = (v, replace-Kept before after h h' keep vs)

asked-AllRosters :
    (env : Env) (o : Operation) (st : Imcomm) (before after : List Handle) (h h' : Handle)
    → st.handles ≡ before ++ (h ∷ after)
    → operate env o h ≡ done h'
    → AllRosters st
    → AllRosters (record st { handles = before ++ (h' ∷ after) })
unfolding AllRosters
asked-AllRosters env o st before after h h' e made v =
    replace-Kept before after h h' (λ w. subst (Always Kept) made (operate-Kept env o h w))
      (subst (All Kept) e v)

mark-Kept : (id : ℕ) (hs : List Handle) → All Kept hs → All Kept (mark id hs)
unfolding mark
mark-Kept id [] v = v
mark-Kept id (h ∷ hs) (v, w) = (if-holds Kept (h.id == id) _ _ v v, mark-Kept id hs w)

create_handle-AllRosters :
    (st : Imcomm) (block : Handle) (id now : ℕ)
    → AllRosters st
    → AllRosters (create_handle st block id now)
unfolding AllRosters create_handle IsRoster
create_handle-AllRosters st block id now v =
    All-append Kept st.handles (new_handle block id now ∷ []) v (tt, tt)

delete_handle-AllRosters : (st : Imcomm) (id : ℕ) → AllRosters st → AllRosters (delete_handle st id)
unfolding AllRosters delete_handle
delete_handle-AllRosters st id v = mark-Kept id st.handles v

-- Along any run in which connections are created, signed on, marked for deletion and polled, whatever
-- the servers send and whichever connections are spawned, lost and removed, and in which the client
-- sends messages, changes its contacts, its profile and what it is, and asks for that of others: the
-- rosters of all connections stay well formed.
pub Reaches-AllRosters :
    (alloc : List Handle → Handle × ℕ) {st st' : Imcomm}
    → Reaches alloc st st'
    → AllRosters st
    → AllRosters st'
Reaches-AllRosters alloc here v = v
Reaches-AllRosters alloc (created {st = st} block id now r) v =
    Reaches-AllRosters alloc r (create_handle-AllRosters st block id now v)
Reaches-AllRosters alloc (marked {st = st} id r) v =
    Reaches-AllRosters alloc r (delete_handle-AllRosters st id v)
Reaches-AllRosters alloc (asked {st = st} env o before after h h' e made r) v =
    Reaches-AllRosters alloc r (asked-AllRosters env o st before after h h' e made v)
Reaches-AllRosters alloc (polled {st = st} env readable rounds fuel selected ret next e r) v =
    Reaches-AllRosters alloc r (
      subst (Always (λ (q : Ret × Imcomm). AllRosters q.1)) e
        (poll-AllRosters env alloc readable rounds fuel selected st v))
