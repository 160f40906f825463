-- ===== src/Settings/Total.antt =====
-- `read_conf` ends on every file, and its result says what became of the user and the password.
use bsflite_otr.Base.{
  ℕ, zero, suc, ◌<◌, ◌≤◌, ◌-◌, ◌≡◌, refl, Bool, true, false, ◌||◌, ◌==◌, Bool-cases, inl, inr,
  Option, none, some, [], ◌∷◌, length, done, fault, unfinished, arith, Run,
}
use bsflite_otr.Settings.{
  Settings, Token, Progress, Outcome, no_file, no_user, complete, no_password, outcome, note, apply,
  Got, ended, missing, option, fgets, chop, read_line, is_comment, get_confopt, conf_loop,
  read_conf,
}
use bsflite_otr.Session.{Text}
use bsflite_otr.Names.{c_string}

fgets-le : (room : ℕ) (s : Text) → length ((fgets room s).1) ≤ length s
unfolding fgets
fgets-le zero s = omega arith
fgets-le (suc room) [] = omega arith
fgets-le (suc room) (c ∷ s) = elim (Bool-cases (c == 10)) [
  | inl e ↦ rw e (omega arith)
  | inr e ↦ rw e (omega (arith, fgets-le room s))
]

fgets-lt : (room c : ℕ) (s : Text) → length ((fgets (suc room) (c ∷ s)).1) ≤ length s
unfolding fgets
fgets-lt room c s = elim (Bool-cases (c == 10)) [
  | inl e ↦ rw e (omega arith)
  | inr e ↦ rw e (fgets-le room s)
]

-- An answer comes after every text, and what is left of a text that is not empty is shorter.
get_confopt-returns :
    (fuel : ℕ) (file : Text)
    → length file < fuel
    → (r : Got × Text) × (get_confopt fuel file ≡ done r) × (length (r.1) ≤ length file - 1)
unfolding get_confopt
get_confopt-returns zero file enough = absurd (omega arith)
get_confopt-returns (suc fuel) [] enough = ((ended, []), refl, omega arith)
get_confopt-returns (suc fuel) (c ∷ s) enough =
    let r = fgets 1023 (c ∷ s) in
    let shorter : length (r.1) ≤ length s = fgets-lt 1022 c s in
    elim (Bool-cases (is_comment (c_string (r.0)))) [
      | inl e ↦
          let (again, e', h) = get_confopt-returns fuel (r.1) (omega arith) in
          (again, rw (e, e') refl, omega arith)
      | inr e ↦ ((read_line (chop (c_string (r.0))), r.1), rw e refl, omega arith)
    ]

-- Whether a setting was seen, what it was before and what it is: a text if it was seen, and what it
-- was if it was not.
abbrev Seen : Bool → Option Text → Option Text → Type 0
Seen true was is = (s : Text) × (is ≡ some s)
Seen false was is = is ≡ was

Seen-already : (b : Bool) (was is : Option Text) → Seen b was is → Seen (b || false) was is
Seen-already true was is v = v
Seen-already false was is v = v

Seen-now : (b : Bool) (was : Option Text) (s : Text) → Seen (b || true) was (some s)
Seen-now true was s = (s, refl)
Seen-now false was s = (s, refl)

module _ (cfg : Settings) where
  -- The flags say what the settings hold, from the settings that the program starts with.
  abbrev IsKnown : Progress → Type 0
  IsKnown p =
      Seen p.hasuser cfg.username p.settings.username
      × Seen p.haspw cfg.password p.settings.password

  note-IsKnown : (p : Progress) (token : Token) (s : Text) → IsKnown p → IsKnown (note p token s)
  unfolding note apply
  note-IsKnown p Token.username s (u, w) = (Seen-now p.hasuser _ s, Seen-already p.haspw _ _ w)
  note-IsKnown p Token.password s (u, w) = (Seen-already p.hasuser _ _ u, Seen-now p.haspw _ s)
  note-IsKnown p _ s (u, w) = (Seen-already p.hasuser _ _ u, Seen-already p.haspw _ _ w)

  conf_loop_turn :
      (fuel : ℕ) (p : Progress) (file : Text) (got : Got) (rest : Text)
      → get_confopt (suc (length file)) file ≡ done (got, rest)
      → ((p' : Progress)
          → IsKnown p'
          → (q : Progress) × (conf_loop fuel p' rest ≡ done q) × IsKnown q)
      → IsKnown p
      → (q : Progress) × (conf_loop (suc fuel) p file ≡ done q) × IsKnown q
  unfolding conf_loop
  conf_loop_turn fuel p file ended rest e next v = (p, rw e refl, v)
  conf_loop_turn fuel p file missing rest e next v = let (q, e', k) = next p v in (q, rw e e', k)
  conf_loop_turn fuel p file (option token s) rest e next v =
      let (q, e', k) = next (note p token s) (note-IsKnown p token s v) in (q, rw e e', k)

  conf_loop-returns :
      (fuel : ℕ) (p : Progress) (file : Text)
      → length file < fuel
      → IsKnown p
      → (q : Progress) × (conf_loop fuel p file ≡ done q) × IsKnown q
  unfolding conf_loop get_confopt
  conf_loop-returns zero p file enough v = absurd (omega arith)
  conf_loop-returns (suc fuel) p [] enough v = (p, refl, v)
  conf_loop-returns (suc fuel) p (c ∷ s) enough v =
      let ((got, rest), e, h) = get_confopt-returns (suc (length (c ∷ s))) (c ∷ s) (omega arith) in
      conf_loop_turn fuel p (c ∷ s) got rest e
        (λ p' v'. conf_loop-returns fuel p' rest (omega arith) v') v

  -- What a result of `read_conf` says of the settings that come with it.
  abbrev pub Says : Outcome → Settings → Type 0
  Says no_file cfg' = cfg' ≡ cfg
  Says no_user cfg' = cfg'.username ≡ cfg.username
  Says no_password cfg' = Seen true cfg.username cfg'.username × (cfg'.password ≡ cfg.password)
  Says complete cfg' = Seen true cfg.username cfg'.username × Seen true cfg.password cfg'.password

  -- A run that ends with a value, which says this.
  abbrev pub Returns : Run (Outcome × Settings) → Type 0
  Returns (done (r, cfg')) = Says r cfg'
  Returns fault = ⊥
  Returns unfinished = ⊥

  outcome-Says :
      (hasuser haspw : Bool) (s : Settings)
      → Seen hasuser cfg.username s.username
      → Seen haspw cfg.password s.password
      → Says (outcome (record { hasuser = hasuser; haspw = haspw; settings = s })) s
  unfolding outcome
  outcome-Says true true s u w = (u, w)
  outcome-Says true false s u w = (u, w)
  outcome-Says false true s u w = u
  outcome-Says false false s u w = u

  -- Whatever the file holds, `read_conf` returns: where there is no file, the settings are as they
  -- were; where it reports a user and a password, the settings have both; where it reports a user
  -- only, they have one and the password is as it was; and where it reports no user, the user is as
  -- it was.
  pub read_conf-Returns : (file : Option Text) → Returns (read_conf cfg file)
  unfolding read_conf
  read_conf-Returns none = refl
  read_conf-Returns (some file) =
      let p : Progress = record { hasuser = false; haspw = false; settings = cfg } in
      let (q, e, k) = conf_loop-returns (suc (length file)) p file (omega arith) (refl, refl) in
      rw e (outcome-Says q.hasuser q.haspw q.settings (k.0) (k.1))
