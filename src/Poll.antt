-- ===== src/Poll.antt =====
-- `imcomm_select` of imcomm/imcomm.c, with FULL_PACKET_AT_ONCE, IMCOMM_KEEPALIVE, ENABLE_SSL and
-- NO_AUTO_IDLE, and without SEND_QUEUES.
pub mod Keep
pub mod Runs
pub mod Signon
use bsflite_otr.Base.{
  ℕ, zero, suc, ◌-◌, Bool, true, false, ◌||◌, Option, none, some, List, [], ◌∷◌, ◌++◌, Run, done,
  unfinished, ◌>>=◌, ltb, if◌then◌else◌,
}
use bsflite_otr.Packet.{Ret, ok, error}
use bsflite_otr.Session.{Handle, Env, Socket}
use bsflite_otr.Flap.{flap_send}
use bsflite_otr.Handles.{Imcomm, remove_deleted}
use bsflite_otr.Dispatch.{Answer, fine}
use bsflite_otr.Receive.{read_frame, flap_decode}

-- `if (nodes_to_delete == 1) { remove_deleted_handles(); nodes_to_delete = 0; }`
unfoldable pub trim_handles : ℕ → Imcomm → Run Imcomm
trim_handles fuel st =
    let removed = (do
      (kept, gone) ← remove_deleted fuel st.handles
      done (record { handles = kept; nodes_to_delete = false })) in
    if st.nodes_to_delete then removed else done st

-- Whether `socket == -1`.
abbrev pub is_closed : Socket → Bool
is_closed Socket.closed = true
is_closed (Socket.fd n) = false

-- What one handle's turn leads to: nothing more is polled where a read has failed.
pub data Turn : Type 0 where
  lost : Handle → Turn
  went : Answer → Turn

-- `alloc` is the memory and the address of a handle that is made while those of a list exist, and
-- `readable` says which sockets `select` has found readable.
module _ (env : Env) (alloc : List Handle → Handle × ℕ) (readable : Handle → Bool) where
  open env use {now}

  pub decode_frame : ℕ → List Handle → Option (List ℕ × List ℕ) × Handle → Run Turn
  decode_frame fuel others (none, h) = done (lost h)
  decode_frame fuel others (some (header, mem), h) = do
    let (block, id) = alloc others
    a ← flap_decode env fuel h others block id header mem
    done (went a)

  -- The keep-alive frame, at most one in five minutes.
  unfoldable pub keep_alive : Handle → Run Handle
  keep_alive h =
      let time = now h.trace in
      let beat = record h { last_keepalive_time = time } in
      let send = (do (status, h') ← flap_send env beat 0x05 [] false; done h') in
      if ltb 300 (time - h.last_keepalive_time)
      then (if h.srv_pause then done beat else send)
      else done h

  unfoldable pub keep_alive_turn : Turn → Run Turn
  keep_alive_turn (lost h) = done (lost h)
  keep_alive_turn (went a) = do h ← keep_alive a.handle; done (went (record a { handle = h }))

  -- One handle whose socket is open.
  unfoldable pub turn : ℕ → Ret → List Handle → Handle → Run Turn
  turn fuel ret others h = do
    let read = (do r ← read_frame env fuel h; decode_frame fuel others r)
    t ← (if readable h then read else done (went (record (fine h) { ret = ret })))
    keep_alive_turn t

  -- The loop over the handles; those made on the way are reached at the end.
  unfoldable pub poll_loop : ℕ → ℕ → Ret → Bool → List Handle → List Handle → Run (Ret × Imcomm)
  poll_loop rounds fuel ret trim before [] =
      done (ret, record { handles = before; nodes_to_delete = trim })
  poll_loop zero fuel ret trim before (h ∷ hs) = unfinished
  poll_loop (suc rounds) fuel ret trim before (h ∷ hs) =
      let skip = poll_loop rounds fuel ret trim (before ++ (h ∷ [])) hs in
      let serve = (do
        t ← turn fuel ret (before ++ (h ∷ hs)) h
        elim t [
          | lost h' ↦ done (error, record { handles = before ++ (h' ∷ hs); nodes_to_delete = trim })
          | went a ↦
              poll_loop rounds fuel a.ret (trim || a.trim) (before ++ (a.handle ∷ []))
                (hs ++ a.spawned)
        ]) in
      if is_closed h.socket then skip else serve

  -- `imcomm_select`; `selected` says whether `select` succeeds.
  unfoldable pub poll : ℕ → ℕ → Bool → Imcomm → Run (Ret × Imcomm)
  poll rounds fuel selected st = do
    st ← trim_handles fuel st
    let go = poll_loop rounds fuel ok st.nodes_to_delete [] st.handles
    if selected then go else done (error, st)
