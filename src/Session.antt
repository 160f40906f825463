-- ===== src/Session.antt =====
-- The connection state of imcomm/imcomm.h (`struct IMComm`), and the world that it acts on.
use bsflite_otr.Base.{
  ℕ, ◌+◌, ◌≡◌, Bool, Option, List, [], ◌∷◌, ◌++◌, length, ltb, if◌then◌else◌, ◌≤◌,
}
use bsflite_otr.Bytes.{Machine, Calibrated}

-- C strings without their NUL.
abbrev pub Text : Type 0
Text = List ℕ

-- The callbacks that a client may register (the `IMCOMM_IM_SIGNON` enumeration).
pub data Kind : Type 0 where
  on_signon on_signoff on_away on_unaway on_idle on_incoming on_profile on_away_message : Kind
  on_error on_formatted_sn on_deleted : Kind

-- The codes that `IMCOMM_ERROR` passes (the `IMCOMM_ERROR_DISCONNECTED` enumeration).
pub data Notice : Type 0 where
  disconnected connected_ok invalid_login other_signon auth_done rate_limit : Notice
  pause unpause migration_done user_offline proxy_error : Notice

-- What `IMCOMM_ERROR_PROXY` passes along (the `PROXY_ERROR_AUTH` enumeration).
pub data ProxyError : Type 0 where
  auth connect proxy_connect unknown : ProxyError

-- `proxymode`
pub data Proxy : Type 0 where
  direct https socks5 : Proxy

-- What a connection does to the world: packets handed to the socket, callbacks
-- made, and what it reads from the socket.
pub data Event : Type 0 where
  sent : List ℕ → Event
  signon signoff away unaway formatted_sn : Text → Event
  idle_info : Text → ℕ → Event
  incoming : Text → Bool → Text → Event
  profile away_message : Text → Text → Event
  notice : Notice → Event
  rate : ℕ → Event
  proxy_failed : ProxyError → Event
  deleted : Event
  received : List ℕ → Event
  read_failed : Event

-- `socket`: -1 is `closed`, and a new handle has 0.
pub data Socket : Type 0 where
  closed : Socket
  fd : ℕ → Socket

-- An entry of `buddylist`, the server-stored list.
pub record Saved : Type 0 where
  pub sn : Text
  pub formatted : Text
  pub ssi_id : ℕ
  pub group_id : ℕ

-- An entry of `buddies_online`.
pub record Online : Type 0 where
  pub sn : Text
  pub idletime : ℕ
  pub onlinetime : ℕ
  pub isaway : Bool

-- The limits that the server announces.
pub record Limits : Type 0 where
  pub profile_len : ℕ
  pub capabilities : ℕ
  pub buddylist_size : ℕ
  pub num_watchers : ℕ
  pub online_notifications : ℕ
  pub message_size : ℕ
  pub sender_warning : ℕ
  pub receiver_warning : ℕ
  pub message_interval : ℕ
  pub visible_list_size : ℕ
  pub invisible_list_size : ℕ

-- `struct IMComm`; `id` and `parent` stand for addresses of handles, and `trace` is what it has done, oldest first.
pub record Handle : Type 0 where
  pub socket : Socket
  pub use_ssl : Bool
  pub is_child : Bool
  pub to_delete : Bool
  pub connected : Bool
  pub srv_pause : Bool
  pub seqnum : ℕ
  pub snacreq : ℕ
  pub limits : Limits
  pub registered : Kind → Bool
  pub families : List ℕ
  pub num_families : ℕ
  pub buddylist : List Saved
  pub buddies_online : List Online
  pub isidle : Bool
  pub isaway : Bool
  pub isinvisible : Bool
  pub last_operation_time : ℕ
  pub profile_str : Option Text
  pub away_msg : Option Text
  pub id : ℕ
  pub parent : Option ℕ
  pub sn : Option Text
  pub pw : Option Text
  pub proxymode : Proxy
  pub proxyserver : Option Text
  pub proxyport : ℕ
  pub oscarport : ℕ
  pub icon : List ℕ
  pub last_keepalive_time : ℕ
  pub trace : List Event

-- What `send` or `SSL_write` returns.
pub data Wrote : Type 0 where
  negative zero_bytes positive : Wrote

-- What `recv` or `SSL_read` returns: -1, or the bytes, none of them at the end of the stream.
pub data Read : Type 0 where
  broken : Read
  got : List ℕ → Read

-- What the code gets from outside: the host, the memory that `malloc` hands out, the resolver, the
-- sockets and the clock, which may answer differently each time. `open_socket` is `socket`, with no
-- value for -1; a read of n bytes never gives more than n. `md5` is imcomm/md5.c, whose digests have
-- 16 bytes.
pub record Env : Type 0 where
  pub machine : Machine
  pub calibrated : Calibrated machine
  pub fresh : ℕ → List ℕ
  pub length-fresh : (n : ℕ) → length (fresh n) ≡ n
  pub write : List Event → List ℕ → Wrote
  pub now : List Event → ℕ
  pub resolve : Text → Bool
  pub open_socket : List Event → Option ℕ
  pub connect_to : List Event → Text → ℕ → Bool
  pub receive : List Event → ℕ → Read
  pub md5 : List ℕ → List ℕ
  pub length-md5 : (bs : List ℕ) → length (md5 bs) ≡ 16
  pub receive-le : (tr : List Event) (n : ℕ) (bs : List ℕ) → receive tr n ≡ got bs → length bs ≤ n

abbrev pub record_event : Handle → Event → Handle
record_event h e = record h { trace = h.trace ++ (e ∷ []) }

-- `if (handle->callbacks[K]) handle->callbacks[K](…)`
abbrev pub notify : Handle → Kind → Event → Handle
notify h k e = if h.registered k then record_event h e else h

-- `if (seqnum < 0xFFFF) seqnum++; else seqnum = 0;`
unfoldable pub next_seq : ℕ → ℕ
next_seq n = if ltb n 0xFFFF then n + 1 else 0
