-- ===== src/Idle.antt =====
-- A round of the loop of `main` in bsf.c: the key that was read, if one was, and the watch for a user
-- who types nothing. A round that a signal interrupts, and the status that a rate limit leaves in the
-- prompt, are left out.
pub mod Watch
pub mod Reports
use bsflite_otr.Base.{
  ◌%◌, ◌^◌, done, Run, fault, unfinished, ◌>>=◌, ◌==◌, ◌||◌, ◌&&◌, not, ◌++◌, ◌∷◌, [], List, ℕ,
  zero, suc, ◌+◌, ◌-◌, ◌≤◌, ◌<◌, ◌≡◌, ◌≢◌, refl, sym, ap, ◌∙◌, subst, Bool, true, false, Option,
  none, some, length, take, drop, All, ltb, leb, if◌then◌else◌, choose, arith, Bool-cases,
  Option-cases, inl, inr, ◌⊎◌, lt→ltb, ge→ltb, le→leb, gt→leb, ltb_false→le, length-append,
  ℕ_discrete, dec_le, dec_lt, append_assoc, append-nil, map, All-append, suc-ne-zero,
}
use bsflite_otr.Desk.{Desk}
use bsflite_otr.Keys.{press}

-- What a round uses of `struct Conn`, `last_keystroke_time`, and the arguments with which
-- `imcomm_set_idle_time` was called, which sends something for 0 and above 600 only. A connection that
-- `R!` makes is taken for the one before: it is active, and so is the user who has typed this.
pub record Seat : Type 0 where
  pub desk : Desk
  pub report_idle : Bool
  pub idle_rep_time : ℕ
  pub last_keystroke_time : ℕ
  pub reports : List ℕ

-- A key, or no key: then `nchr` is what `read` returned, or, where it was not called, what the memory
-- of that variable held.
pub data Input : Type 0 where
  key : ℕ → Input
  no_key : ℕ → Input

-- `if (conn->conn) imcomm_set_idle_time(conn->conn, n);` and the flag.
pub report : Seat → Bool → ℕ → Seat
report s idle n = record s {
  desk = record s.desk { isidle = idle };
  reports = if s.desk.connected then s.reports ++ (n ∷ []) else s.reports;
}

pub keystroke : Seat → ℕ → Seat
keystroke s now =
    let s' = record s { last_keystroke_time = now } in
    if s.report_idle then (if s.desk.isidle then report s' false 0 else s') else s

-- The clock is read for the test, and again for the argument.
pub watch : Seat → ℕ → ℕ → ℕ → Seat
watch s nchr checked told =
    if s.report_idle
      && ((nchr == 1)
          && (not s.desk.isidle && ltb s.idle_rep_time (checked - s.last_keystroke_time)))
    then report s true ((told - s.last_keystroke_time) % 2 ^ 32)
    else s

-- The key is handled between the first and the second reading of the clock.
pub round : Seat → Input → ℕ → ℕ → ℕ → Run Seat
round s (key c) now checked told = do
  let s' = keystroke s now
  d ← press s'.desk c
  done (watch (record s' { desk = d }) 1 checked told)
round s (no_key nchr) now checked told = done (watch s nchr checked told)

abbrev pub rounds : Seat → List (Input × ℕ × ℕ × ℕ) → Run Seat
rounds s [] = done s
rounds s ((i, now, checked, told) ∷ is) = do s' ← round s i now checked told; rounds s' is
