-- ===== src/Tests/Running.antt =====
-- Reading, polling and the list of connections at one input each.
use bsflite_otr.Base.{
  ℕ, zero, suc, ◌≤◌, ◌≡◌, refl, subst, false, true, some, List, [], ◌∷◌, ◌++◌, length, take, drop,
  done, unfinished, arith, ◌>>=◌,
}
use bsflite_otr.Packet.{ok}
use bsflite_otr.Session.{Handle, Env, Event, Read}
use bsflite_otr.Flap.Frame.{frame}
use bsflite_otr.Handles.{
  Imcomm, create_handle, delete_handle, new_handle, mark, remove_deleted, sweep, farewell,
}
use bsflite_otr.Handles.Sweep.{remove_deleted_lem, remove_deleted-never_ends}
use bsflite_otr.Receive.{plain_loop, read_frame}
use bsflite_otr.Receive.Stream.{Delivers, heard, reading}
use bsflite_otr.Receive.Frame.{header, read_frame_whole}
use bsflite_otr.Receive.Faults.{plain_loop-never_ends}
use bsflite_otr.Poll.{poll, trim_handles, poll_loop, turn, keep_alive_turn, keep_alive, went}
use bsflite_otr.Poll.Keep.{AllRosters}
use bsflite_otr.Poll.Runs.{no_handles, Reaches, here, created, marked, polled, Reaches-AllRosters}
use bsflite_otr.Tests.Samples.{world, session, bob}
use bsflite_otr.Tests.Serving.{online_tlvs, online_tlvs-IsTlv}
use bsflite_otr.Receive.Signon.{signon_snac, signed_on}
use bsflite_otr.Poll.Signon.{turn-signon}

abbrev bytes_of : Read → List ℕ
bytes_of Read.broken = []
bytes_of (Read.got bs) = bs

-- A network that delivers one byte at a time.
abbrev trickle : List ℕ → List Event → ℕ → Read
trickle stream tr zero = Read.got []
trickle stream tr (suc n) = Read.got (take 1 (drop (heard tr) stream))

length-take1 : (xs : List ℕ) → length (take 1 xs) ≤ 1
length-take1 [] = omega arith
length-take1 (x ∷ xs) = omega arith

trickle-le :
    (stream : List ℕ) (tr : List Event) (n : ℕ) (bs : List ℕ)
    → trickle stream tr n ≡ Read.got bs
    → length bs ≤ n
trickle-le stream tr zero bs e =
    subst (λ r. length (bytes_of r) ≤ 0) e (let z : 0 ≤ 0 = omega arith in z)
trickle-le stream tr (suc n) bs e =
    subst (λ r. length (bytes_of r) ≤ suc n) e
      (omega (arith, length-take1 (drop (heard tr) stream)))

abbrev slow : List ℕ → Env
slow stream = record world { receive = trickle stream; receive-le = trickle-le stream }

slow-Delivers : (stream : List ℕ) → Delivers (slow stream) stream
unfolding Delivers
slow-Delivers stream tr zero pos some_left = absurd (omega arith)
slow-Delivers stream tr (suc n) pos some_left = (1, omega arith, omega arith, omega arith, refl)

abbrev stream : List ℕ
stream = frame 2 7 (1 ∷ 2 ∷ 3 ∷ []) ++ (42 ∷ 2 ∷ [])

read_frame_whole_example :
    (tr : List Event) × (read_frame (slow stream) 9 session
      ≡ done (some (header 2 7 (1 ∷ 2 ∷ 3 ∷ []), 1 ∷ 2 ∷ 3 ∷ []), record session { trace = tr }))
    × (drop (heard tr) stream ≡ 42 ∷ 2 ∷ [])
read_frame_whole_example =
    read_frame_whole (slow stream) stream (slow-Delivers stream) 9 session 2 7 (1 ∷ 2 ∷ 3 ∷ [])
      (42 ∷ 2 ∷ []) (omega arith) (omega arith) (omega arith) refl

-- A peer that has closed.
abbrev silent : Env
silent = record world {
  receive = λ tr n. Read.got [];
  receive-le = λ tr n bs e. subst (λ r. length (bytes_of r) ≤ n) e (omega arith);
}

plain_loop-never_ends_example :
    plain_loop silent 1000 session (42 ∷ 2 ∷ 0 ∷ 7 ∷ 0 ∷ 3 ∷ []) 6 2 ≡ unfinished
plain_loop-never_ends_example =
    plain_loop-never_ends silent (λ tr n. refl) 1000 session (42 ∷ 2 ∷ 0 ∷ 7 ∷ 0 ∷ 3 ∷ []) 6 2
      (omega arith) (omega arith)

abbrev doomed : Handle
doomed = record session { id = 2; to_delete = true }

abbrev other : Handle
other = record session { id = 3 }

remove_deleted_lem_example :
    remove_deleted 1 (doomed ∷ doomed ∷ session ∷ [])
    ≡ done (session ∷ [], farewell doomed ∷ farewell doomed ∷ [])
remove_deleted_lem_example =
    remove_deleted_lem 0 (doomed ∷ doomed ∷ []) session (refl, (refl, tt)) refl

remove_deleted-never_ends_example :
    remove_deleted 1000 (doomed ∷ session ∷ other ∷ doomed ∷ []) ≡ unfinished
remove_deleted-never_ends_example =
    remove_deleted-never_ends 1000 (doomed ∷ []) session other (doomed ∷ []) (refl, tt) refl refl

-- Two connections, of which the first is closed.
abbrev early : Env
early = record world { now = λ tr. 0 }

abbrev second : Handle
second = new_handle session 2 0

abbrev alloc : List Handle → Handle × ℕ
alloc hs = (session, 9)

abbrev last : Imcomm
last = record { handles = second ∷ []; nodes_to_delete = false }

two_then_one : Reaches alloc no_handles last
unfolding create_handle delete_handle mark poll trim_handles remove_deleted sweep poll_loop turn
    keep_alive_turn keep_alive
two_then_one =
    created session 1 0
      (created session 2 0 (marked 1 (polled early (λ h. false) 2 2 true ok last refl here)))

Reaches-AllRosters_example : AllRosters last
unfolding AllRosters
Reaches-AllRosters_example = Reaches-AllRosters alloc two_then_one tt

-- Bob signs on, byte by byte.
abbrev arrival : List ℕ
arrival = frame 2 7 (signon_snac 0 (0 ∷ 0 ∷ 0 ∷ 1 ∷ []) bob 0 0 1 online_tlvs) ++ []

turn-signon_example :
    (tr : List Event) × (turn (slow arrival) (λ hs. (session, 9)) (λ h. true) 40 ok [] session ≡ (
      signed_on (slow arrival) (reading session tr) bob online_tlvs >>= λ a.
      keep_alive_turn (slow arrival) (λ hs. (session, 9)) (λ h. true) (went a)))
    × (drop (heard tr) arrival ≡ [])
turn-signon_example =
    turn-signon (slow arrival) arrival (slow-Delivers arrival) (λ hs. (session, 9)) (λ h. true) 40
      ok [] session 7 0 (0 ∷ 0 ∷ 0 ∷ 1 ∷ []) bob 0 0 1 online_tlvs [] refl refl (omega arith) refl
      (refl, (refl, (refl, tt))) (omega arith) (omega arith) online_tlvs-IsTlv (omega arith)
      (omega arith) refl
