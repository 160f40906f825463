-- ===== src/Handles.antt =====
-- The list of connections of imcomm/imcomm.c: what makes a handle, what changes its settings, and the
-- removal of those marked. `block` is what the memory of a new handle held: a field that the code does
-- not set keeps that value. The second list of a result holds the handles that are gone, oldest first.
pub mod Sweep
use bsflite_otr.Base.{
  ℕ, zero, suc, Bool, true, false, Option, none, some, List, [], ◌∷◌, ◌++◌, Run, done, fault,
  unfinished, ◌>>=◌, ◌==◌, if◌then◌else◌,
}
use bsflite_otr.Session.{Text, Handle, Kind, Proxy, Socket, notify, on_deleted, deleted}

-- The globals `handles` and `nodes_to_delete`.
pub record Imcomm : Type 0 where
  pub handles : List Handle
  pub nodes_to_delete : Bool

-- What the two functions that make a handle set alike.
abbrev pub blank : Handle → ℕ → ℕ → Handle
blank block id now = record block {
  id = id;
  to_delete = false;
  seqnum = 0x1000;
  snacreq = 0;
  families = [];
  buddylist = [];
  buddies_online = [];
  isidle = false;
  last_operation_time = now;
  profile_str = none;
  away_msg = none;
  icon = [];
  socket = Socket.fd 0;
  connected = false;
  last_keepalive_time = 0;
  trace = [];
}

-- The handle of `imcomm_create_handle`, with ENABLE_SSL.
abbrev pub new_handle : Handle → ℕ → ℕ → Handle
new_handle block id now = record (blank block id now) {
  proxymode = Proxy.direct;
  proxyserver = none;
  proxyport = 0;
  is_child = false;
  num_families = 0;
  isinvisible = false;
  srv_pause = false;
  oscarport = 5190;
  pw = none;
  sn = none;
  use_ssl = true;
  registered = (λ k. false);
}

-- `imcomm_create_handle`
unfoldable pub create_handle : Imcomm → Handle → ℕ → ℕ → Imcomm
create_handle st block id now = record st { handles = st.handles ++ (new_handle block id now ∷ []) }

-- The handle of `imcomm_create_child_handle`.
unfoldable pub child_handle : Handle → Handle → ℕ → ℕ → Handle
child_handle h block id now = record (blank block id now) {
  is_child = true;
  proxymode = h.proxymode;
  proxyserver = h.proxyserver;
  proxyport = h.proxyport;
  parent = some h.id;
  registered = h.registered;
}

-- `imcomm_set_oscar_port`, `imcomm_set_proxy` and `imcomm_register_callback`
set_oscar_port : Handle → ℕ → Handle
set_oscar_port h port = record h { oscarport = port }

set_proxy : Handle → Proxy → Text → ℕ → Handle
set_proxy h type proxyserver proxyport = record h {
  proxymode = type;
  proxyserver = some proxyserver;
  proxyport = proxyport;
}

register_callback : Handle → (Kind → Bool) → Handle
register_callback h event = record h {
  registered = (λ k. if event k then true else h.registered k);
}

-- The handle of an address.
pub find_handle : ℕ → List Handle → Option Handle
find_handle id [] = none
find_handle id (h ∷ hs) = let rest = find_handle id hs in if h.id == id then some h else rest

unfoldable pub mark : ℕ → List Handle → List Handle
mark id [] = []
mark id (h ∷ hs) = (if h.id == id then record h { to_delete = true } else h) ∷ mark id hs

-- `imcomm_delete_handle`
unfoldable pub delete_handle : Imcomm → ℕ → Imcomm
delete_handle st id = record { handles = mark id st.handles; nodes_to_delete = true }

-- What a handle that is about to go says.
abbrev pub farewell : Handle → Handle
farewell h = notify h on_deleted deleted

abbrev pub gone_first : Handle → List Handle × List Handle → List Handle × List Handle
gone_first h (kept, gone) = (kept, farewell h ∷ gone)

abbrev pub kept_first : Handle → List Handle × List Handle → List Handle × List Handle
kept_first h (kept, gone) = (h ∷ kept, gone)

-- The loop of `remove_deleted_handles` behind a head that stays; `trav` is the first of the list, and
-- null where the list is empty. A second handle that stays leaves `trav` where it is.
unfoldable pub sweep : ℕ → List Handle → Run (List Handle × List Handle)
sweep zero hs = unfinished
sweep (suc fuel) [] = fault
sweep (suc fuel) (t ∷ []) = done (t ∷ [], [])
sweep (suc fuel) (t ∷ n ∷ rest) =
    let unlink = (sweep fuel rest >>= λ r. done (kept_first t (gone_first n r))) in
    let again = sweep fuel (t ∷ n ∷ rest) in if n.to_delete then unlink else again

-- `remove_deleted_handles`
unfoldable pub remove_deleted : ℕ → List Handle → Run (List Handle × List Handle)
remove_deleted fuel [] = done ([], [])
remove_deleted fuel (h ∷ hs) =
    let next = (remove_deleted fuel hs >>= λ r. done (gone_first h r)) in
    if h.to_delete then next else sweep fuel (h ∷ hs)
