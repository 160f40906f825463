-- ===== src/Receive/Faults.antt =====
-- What reading does with a peer that closes, and with a frame that has no data.
use bsflite_otr.Base.{
  ℕ, zero, suc, ◌+◌, ◌-◌, ◌<◌, ◌≡◌, refl, ap, false, some, List, [], ◌∷◌, ◌++◌, drop, done, arith,
  if◌then◌else◌, lt→ltb, unfinished, none,
}
use bsflite_otr.Incoming.Frames.{two_to_16-be16}
use bsflite_otr.Bytes.{two_to_16}
use bsflite_otr.Session.{broken, Read, read_failed, Handle, Env, Event, got, received, record_event}
use bsflite_otr.Dial.{recv}
use bsflite_otr.Receive.{plain_loop, ssl_loop, read_bytes, read_data, lose, Read}
use bsflite_otr.Receive.Frame.{header}
use bsflite_otr.Receive.Stream.{ne_zero}

-- A peer that closes in the middle of a header, or of data, leaves the loop on a plain socket without
-- an end: `recv` returns 0, and `bytesread` stays positive.
pub plain_loop-never_ends :
    (env : Env) (closed : (tr : List Event) (n : ℕ) → env.receive tr n ≡ got []) (fuel : ℕ)
    (h : Handle) (buf : List ℕ) (n bytesread : ℕ)
    → 0 < bytesread
    → bytesread < n
    → plain_loop env fuel h buf n bytesread ≡ unfinished
unfolding plain_loop recv
plain_loop-never_ends env closed zero h buf n bytesread some_read more = refl
plain_loop-never_ends env closed (suc fuel) h buf n bytesread some_read more =
    rw
      (
        plain_loop,
        closed,
        ne_zero (bytesread + 0) (omega arith),
        lt→ltb (bytesread + 0) n (omega arith),
      )
      (plain_loop-never_ends env closed fuel _ _ n (bytesread + 0) (omega arith) (omega arith))

recv_result :
    (env : Env) (h : Handle) (n : ℕ) (r : Read)
    → env.receive h.trace n ≡ r
    → recv env h n ≡ (r, record_event h (elim r [ broken ↦ read_failed | got bs ↦ received bs ]))
unfolding recv
recv_result env h n r e = rw e refl

-- A read of no bytes ends a connection without SSL.
plain_loop-empty :
    (env : Env) (fuel : ℕ) (h : Handle) (buf : List ℕ)
    → (tr : List Event) × (plain_loop env (suc fuel) h buf 0 0
        ≡ done (none, lose (record h { trace = tr })))
unfolding plain_loop
plain_loop-empty env fuel h buf = go (env.receive h.trace 0) refl
  where
    go :
        (r : Read)
        → env.receive h.trace 0 ≡ r
        → (tr : List Event) × (plain_loop env (suc fuel) h buf 0 0
            ≡ done (none, lose (record h { trace = tr })))
    go broken e =
        let z = recv_result env h (0 - 0) broken e in
        (h.trace ++ (read_failed ∷ []), rw (plain_loop, ap (λ r. r.0) z, ap (λ r. r.1) z) refl)
    go (got []) e =
        let z = recv_result env h (0 - 0) (got []) e in
        (h.trace ++ (received [] ∷ []), rw (plain_loop, ap (λ r. r.0) z, ap (λ r. r.1) z) refl)
    go (got (b ∷ bs)) e =
        let none_read = env.receive-le h.trace 0 (b ∷ bs) e in absurd (omega (arith, none_read))

-- A frame without data ends a connection without SSL, though such frames are well formed (and
-- `imcomm_select` sends them itself): `recv` of no bytes returns 0.
read_data_empty :
    (env : Env) (fuel : ℕ) (h : Handle) (channel seqnum : ℕ)
    → h.use_ssl ≡ false
    → (tr : List Event) × (read_data env (suc fuel) (some (header channel seqnum []), h)
        ≡ done (none, lose (record h { trace = tr })))
unfolding read_data read_bytes
read_data_empty env fuel h channel seqnum plain =
    let (tr, e) = plain_loop-empty env fuel h (env.fresh 0) in
    let size : two_to_16 env.machine (drop 4 (header channel seqnum [])) ≡ done 0 =
      two_to_16-be16 env.machine 0 [] env.calibrated (omega arith) in
    let read : read_bytes env (suc fuel) h 0 ≡ plain_loop env (suc fuel) h (env.fresh 0) 0 0 =
      ap
        (λ b.
          if b
          then ssl_loop env (suc fuel) h (env.fresh 0) 0 0
          else plain_loop env (suc fuel) h (env.fresh 0) 0 0)
        plain in
    (tr, rw (size, read, e) refl)
