-- ===== src/Poll/Keep.antt =====
-- Polling keeps the rosters of all connections, from the first one on.
use bsflite_otr.Base.{
  Always, Always-chain, if-holds, All, All-append, ℕ, zero, suc, ◌-◌, ◌||◌, ltb, Bool, false,
  Option, none, some, List, [], ◌∷◌, ◌++◌, done,
}
use bsflite_otr.Packet.{Ret, ok, error}
use bsflite_otr.Session.{Handle, Env}
use bsflite_otr.Flap.Keep.{Kept, Kept1, Always-second, flap_send-Kept}
use bsflite_otr.Handles.{
  sweep, remove_deleted, Imcomm, sweep, remove_deleted, gone_first, kept_first,
}
use bsflite_otr.Dispatch.Safe.{Sound}
use bsflite_otr.Receive.{read_frame, flap_decode}
use bsflite_otr.Receive.Keep.{read_frame-Kept, flap_decode-Sound}
use bsflite_otr.Poll.{
  trim_handles, is_closed, Turn, lost, went, decode_frame, keep_alive, keep_alive_turn, turn,
  poll_loop, poll,
}

-- All rosters are well formed.
unfoldable pub AllRosters : Imcomm → Type 0
AllRosters st = All Kept st.handles

abbrev Left : List Handle × List Handle → Type 0
Left r = All Kept r.0

sweep-Left : (fuel : ℕ) (hs : List Handle) → All Kept hs → Always Left (sweep fuel hs)
unfolding sweep
sweep-Left zero hs v = tt
sweep-Left (suc fuel) [] v = tt
sweep-Left (suc fuel) (t ∷ []) v = v
sweep-Left (suc fuel) (t ∷ n ∷ rest) (v, (w, u)) =
    if-holds (Always Left) n.to_delete _ _
      (Always-chain Left Left (sweep fuel rest) (λ r. done (kept_first t (gone_first n r)))
        (sweep-Left fuel rest u) (λ r x. (v, x)))
      (sweep-Left fuel (t ∷ n ∷ rest) (v, (w, u)))

remove_deleted-Left :
    (fuel : ℕ) (hs : List Handle) → All Kept hs → Always Left (remove_deleted fuel hs)
unfolding remove_deleted
remove_deleted-Left fuel [] v = tt
remove_deleted-Left fuel (h ∷ hs) (v, w) =
    if-holds (Always Left) h.to_delete _ _
      (Always-chain Left Left (remove_deleted fuel hs) (λ r. done (gone_first h r))
        (remove_deleted-Left fuel hs w) (λ r x. x))
      (sweep-Left fuel (h ∷ hs) (v, w))

trim_handles-AllRosters :
    (fuel : ℕ) (st : Imcomm) → AllRosters st → Always AllRosters (trim_handles fuel st)
unfolding trim_handles AllRosters
trim_handles-AllRosters fuel st v =
    if-holds (Always AllRosters) st.nodes_to_delete _ _
      (Always-chain Left AllRosters (remove_deleted fuel st.handles) _
        (remove_deleted-Left fuel st.handles v) (λ r w. w))
      v

-- The rosters after a turn.
abbrev TurnSound : Turn → Type 0
TurnSound (lost h) = Kept h
TurnSound (went a) = Sound a

abbrev Polled : Ret × Imcomm → Type 0
Polled r = AllRosters r.1

module _ (env : Env) (alloc : List Handle → Handle × ℕ) (readable : Handle → Bool) where
  decode_frame-Sound :
      (fuel : ℕ) (others : List Handle) (r : Option (List ℕ × List ℕ) × Handle)
      → Kept1 r
      → Always TurnSound (decode_frame env alloc readable fuel others r)
  unfolding decode_frame
  decode_frame-Sound fuel others (none, h) v = v
  decode_frame-Sound fuel others (some (header, mem), h) v =
      let (block, id) = alloc others in
      Always-chain Sound TurnSound (flap_decode env fuel h others block id header mem)
        (λ a. done (went a)) (flap_decode-Sound env fuel h others block id header mem v) (λ a w. w)

  keep_alive-Kept : (h : Handle) → Kept h → Always Kept (keep_alive env alloc readable h)
  unfolding keep_alive
  keep_alive-Kept h v =
      let beat = record h { last_keepalive_time = env.now h.trace } in
      if-holds (Always Kept) (ltb 300 (env.now h.trace - h.last_keepalive_time)) _ _
        (if-holds (Always Kept) h.srv_pause _ _ v
          (Always-second _ (flap_send-Kept env beat 0x05 [] false v)))
        v

  keep_alive_turn-Sound :
      (t : Turn) → TurnSound t → Always TurnSound (keep_alive_turn env alloc readable t)
  unfolding keep_alive_turn
  keep_alive_turn-Sound (lost h) v = v
  keep_alive_turn-Sound (went a) (v, w) =
      Always-chain Kept TurnSound (keep_alive env alloc readable a.handle) _
        (keep_alive-Kept a.handle v) (λ h u. (u, w))

  turn-Sound :
      (fuel : ℕ) (ret : Ret) (others : List Handle) (h : Handle)
      → Kept h
      → Always TurnSound (turn env alloc readable fuel ret others h)
  unfolding turn
  turn-Sound fuel ret others h v =
      let read =
        Always-chain Kept1 TurnSound (read_frame env fuel h)
          (decode_frame env alloc readable fuel others) (read_frame-Kept env fuel h v)
          (decode_frame-Sound fuel others) in
      Always-chain TurnSound TurnSound _ (keep_alive_turn env alloc readable)
        (if-holds (Always TurnSound) (readable h) _ _ read (v, tt)) keep_alive_turn-Sound

  poll_loop-AllRosters :
      (rounds fuel : ℕ) (ret : Ret) (trim : Bool) (before hs : List Handle)
      → All Kept before
      → All Kept hs
      → Always Polled (poll_loop env alloc readable rounds fuel ret trim before hs)
  unfolding poll_loop AllRosters
  poll_loop-AllRosters rounds fuel ret trim before [] u v = u
  poll_loop-AllRosters zero fuel ret trim before (h ∷ hs) u v = tt
  poll_loop-AllRosters (suc rounds) fuel ret trim before (h ∷ hs) u (v, w) =
      let skip =
        poll_loop-AllRosters rounds fuel ret trim (before ++ (h ∷ [])) hs
          (All-append Kept before (h ∷ []) u (v, tt)) w in
      if-holds (Always Polled) (is_closed h.socket) _ _ skip (
        Always-chain TurnSound Polled (turn env alloc readable fuel ret (before ++ (h ∷ hs)) h) _
          (turn-Sound fuel ret (before ++ (h ∷ hs)) h v)
          (next (λ r t b l x y. poll_loop-AllRosters rounds fuel r t b l x y)))
    where
      next :
          ((r : Ret) (trim' : Bool) (b l : List Handle)
            → All Kept b
            → All Kept l
            → Always Polled (poll_loop env alloc readable rounds fuel r trim' b l))
          → (t : Turn) → TurnSound t
          → Always Polled (elim t [
            | lost h' ↦
                done (error, record { handles = before ++ (h' ∷ hs); nodes_to_delete = trim })
            | went a ↦
                poll_loop env alloc readable rounds fuel a.ret
                  (trim || a.trim)
                  (before ++ (a.handle ∷ []))
                  (hs ++ a.spawned)
          ])
      next again (lost h') x = All-append Kept before (h' ∷ hs) u (x, w)
      next again (went a) (x, y) =
          again a.ret (trim || a.trim) (before ++ (a.handle ∷ [])) (hs ++ a.spawned)
            (All-append Kept before (a.handle ∷ []) u (x, tt)) (All-append Kept hs a.spawned w y)

  pub poll-AllRosters :
      (rounds fuel : ℕ) (selected : Bool) (st : Imcomm)
      → AllRosters st
      → Always Polled (poll env alloc readable rounds fuel selected st)
  unfolding poll AllRosters
  poll-AllRosters rounds fuel selected st v =
      Always-chain AllRosters Polled (trim_handles fuel st) _ (trim_handles-AllRosters fuel st v)
        (λ st' w.
          if-holds (Always Polled) selected _ _
            (poll_loop-AllRosters rounds fuel ok st'.nodes_to_delete [] st'.handles tt w) w)
