-- ===== src/Idle/Reports.antt =====
-- What the library knows of an idle user.
use bsflite_otr.Base.{
  ◌%◌, ◌^◌, Always, Always-bind, Always-chain, if-holds, Run, done, ◌>>=◌, ◌==◌, not, ◌++◌, ◌∷◌, [],
  List, ℕ, ◌-◌, ◌≤◌, ◌<◌, ◌≡◌, sym, subst, Bool, true, false, length, All, if◌then◌else◌, arith,
  ge→ltb, dec_lt,
}
use bsflite_otr.Session.{Env, Handle}
use bsflite_otr.Flap.{set_idle_time}
use bsflite_otr.Flap.Idle.{set_idle_time-begin, set_idle_time-end}
use bsflite_otr.Keys.{press}
use bsflite_otr.Keys.Keep.{Typed}
use bsflite_otr.Idle.{Seat, Input, key, no_key, report, keystroke, watch, round, rounds}
use bsflite_otr.Idle.Watch.{IsSo, press-IsSo, watch_same, and_false}

-- The clock does not go back between its two readings for a report, and its seconds have 32 bits.
abbrev pub Timed : Input × ℕ × ℕ × ℕ → Type 0
Timed (i, now, checked, told) = (checked ≤ told) × (told < 2 ^ 32)

-- The calls of `imcomm_set_idle_time` in their order, carried out on a connection.
abbrev pub carry : Env → Handle → List ℕ → Run Handle
carry env h [] = done h
carry env h (n ∷ ns) = do h' ← set_idle_time env h n; carry env h' ns

-- There is a connection, which the calls so far leave idle if and only if the user is idle for the
-- client; an idle user is one who has typed nothing for ten minutes at least; and the line fits.
abbrev pub IsReported : Env → Handle → Seat → Type 0
IsReported env h s =
    (s.desk.connected ≡ true)
    × (length s.desk.inputbuf ≤ 511)
    × (600 ≤ s.idle_rep_time)
    × Always (λ (h' : Handle). h'.isidle ≡ s.desk.isidle) (carry env h s.reports)

-- A last call that settles the flag.
carry-last :
    (env : Env) (h : Handle) (ns : List ℕ) (n : ℕ) (idle : Bool)
    → ((g : Handle) → Always (λ (h' : Handle). h'.isidle ≡ idle) (set_idle_time env g n))
    → Always (λ (h' : Handle). h'.isidle ≡ idle) (carry env h (ns ++ (n ∷ [])))
carry-last env h [] n idle settles =
    Always-chain (λ (h' : Handle). h'.isidle ≡ idle) (λ (h' : Handle). h'.isidle ≡ idle)
      (set_idle_time env h n) (λ h'. done h') (settles h) (λ h' e. e)
carry-last env h (m ∷ ns) n idle settles =
    Always-bind (λ (h' : Handle). h'.isidle ≡ idle) (set_idle_time env h m) _
      (λ h'. carry-last env h' ns n idle settles)

module _ (env : Env) (h : Handle) where
  report-IsReported :
      (s : Seat) (idle : Bool) (n : ℕ)
      → s.desk.connected ≡ true
      → length s.desk.inputbuf ≤ 511
      → 600 ≤ s.idle_rep_time
      → ((g : Handle) → Always (λ (h' : Handle). h'.isidle ≡ idle) (set_idle_time env g n))
      → IsReported env h (report s idle n)
  unfolding report
  report-IsReported s idle n on fits ten settles = (
    on,
    fits,
    ten,
    subst
        (λ b.
          Always (λ (h' : Handle). h'.isidle ≡ idle)
            (carry env h (if b then s.reports ++ (n ∷ []) else s.reports)))
        (sym on) (carry-last env h s.reports n idle settles),
  )

  keystroke-IsReported :
      (s : Seat) (now : ℕ) → IsReported env h s → IsReported env h (keystroke s now)
  unfolding keystroke
  keystroke-IsReported s now (on, fits, ten, v) =
      if-holds (IsReported env h) s.report_idle _ _
        (if-holds (IsReported env h) s.desk.isidle _ _
          (report-IsReported (record s { last_keystroke_time = now }) false 0 on fits ten
            (set_idle_time-end env))
          (on, fits, ten, v))
        (on, fits, ten, v)

  watch-IsReported :
      (s : Seat) (nchr checked told : ℕ)
      → checked ≤ told
      → told < 2 ^ 32
      → IsReported env h s
      → IsReported env h (watch s nchr checked told)
  unfolding watch
  watch-IsReported s nchr checked told order small (on, fits, ten, v) =
      let n = (told - s.last_keystroke_time) % 2 ^ 32 in
      elim (dec_lt s.idle_rep_time (checked - s.last_keystroke_time)) [
        | yes late ↦
            if-holds (IsReported env h) _ _ _
              (report-IsReported s true n on fits ten
                (λ g. set_idle_time-begin env g n (omega arith)))
              (on, fits, ten, v)
        | no soon ↦
            subst (IsReported env h)
              (sym (
                watch_same s nchr checked told (
                  and_false (nchr == 1) _ (
                    and_false (not s.desk.isidle) _
                      (ge→ltb s.idle_rep_time (checked - s.last_keystroke_time) (omega arith))))))
              (on, fits, ten, v)
      ]

  round-IsReported :
      (s : Seat) (i : Input) (now checked told : ℕ)
      → Timed (i, now, checked, told)
      → IsReported env h s
      → Always (IsReported env h) (round s i now checked told)
  unfolding round
  round-IsReported s (key c) now checked told (order, small) v =
      let s' = keystroke s now in
      let (on, fits, ten, known) = keystroke-IsReported s now v in
      Always-chain (Typed (IsSo s'.desk.isidle)) (IsReported env h) (press s'.desk c) _
        (press-IsSo s'.desk c on fits)
        (λ d ((idle, on'), fits').
          watch-IsReported (record s' { desk = d }) 1 checked told order small
            (
              on',
              fits',
              ten,
              subst (λ b. Always (λ (h' : Handle). h'.isidle ≡ b) (carry env h s'.reports))
                  (sym idle) known,
            ))
  round-IsReported s (no_key nchr) now checked told (order, small) v =
      watch-IsReported s nchr checked told order small v

  -- On a connection, with an `idletime` of 600 seconds or more, whatever is typed and whatever `nchr`
  -- holds in a round without a key, if the clock does not go back between its two readings for a report
  -- and has 32 bits: if the calls of `imcomm_set_idle_time` so far, carried out in their order on a
  -- connection, leave its `isidle` what the client's `isidle` is, and the line fits its buffer, then so
  -- it is at the end of these rounds, if these and the calls end without a write outside an object.
  pub rounds-IsReported :
      (s : Seat) (is : List (Input × ℕ × ℕ × ℕ))
      → All Timed is
      → IsReported env h s
      → Always (IsReported env h) (rounds s is)
  rounds-IsReported s [] timed v = v
  rounds-IsReported s ((i, now, checked, told) ∷ is) (t, timed) v =
      Always-chain (IsReported env h) (IsReported env h) (round s i now checked told) _
        (round-IsReported s i now checked told t v) (λ s' v'. rounds-IsReported s' is timed v')
