-- ===== src/Idle/Watch.antt =====
-- What a key and the watch leave alone.
use bsflite_otr.Base.{
  ◌%◌, ◌^◌, Always, ◌==◌, ◌&&◌, not, ℕ, ◌-◌, ◌≤◌, ◌≡◌, refl, ap, Bool, true, false, length, ltb,
  if◌then◌else◌,
}
use bsflite_otr.Desk.{Desk}
use bsflite_otr.Desk.Listed.{Listed, parse_input-Listed}
use bsflite_otr.Keys.{press}
use bsflite_otr.Keys.Keep.{IsStable, Typed, press-Typed}
use bsflite_otr.Idle.{Seat, report, watch}

-- The flag of a desk with a connection.
abbrev pub IsSo : Bool → Desk → Type 0
IsSo idle = Listed (λ c idle' on. (idle' ≡ idle) × (on ≡ true))

IsSo-IsStable : (idle : Bool) → IsStable (IsSo idle)
IsSo-IsStable idle = record {
  edit = λ d line typing raw who v. v;
  command = λ d fits v.
      parse_input-Listed (λ c idle' on. (idle' ≡ idle) × (on ≡ true)) (λ c idle' on who v. v)
        (λ c idle' on v. (v.0, refl)) d v;
}

-- No key changes the flag, and a connection stays one.
pub press-IsSo :
    (d : Desk) (c : ℕ)
    → d.connected ≡ true
    → length d.inputbuf ≤ 511
    → Always (Typed (IsSo d.isidle)) (press d c)
press-IsSo d c on fits = press-Typed (IsSo d.isidle) (IsSo-IsStable d.isidle) d c ((refl, on), fits)

pub and_false : (a b : Bool) → b ≡ false → (a && b) ≡ false
and_false true b e = e
and_false false b e = refl

-- The watch does nothing where one of its conditions fails.
pub watch_same :
    (s : Seat) (nchr checked told : ℕ)
    → ((nchr == 1) && (not s.desk.isidle && ltb s.idle_rep_time (checked - s.last_keystroke_time)))
      ≡ false
    → watch s nchr checked told ≡ s
unfolding watch
watch_same s nchr checked told e =
    ap (λ b. if b then report s true ((told - s.last_keystroke_time) % 2 ^ 32) else s)
      (and_false s.report_idle _ e)
