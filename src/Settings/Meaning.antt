-- ===== src/Settings/Meaning.antt =====
-- What the settings of a file come to, described setting by setting.
use bsflite_otr.Base.{
  done, ◌||◌, ◌&&◌, ◌∷◌, [], List, ◌≡◌, refl, ap, ◌∙◌, Bool, true, false, some, All, if◌then◌else◌,
  arith,
}
use bsflite_otr.Session.{Text}
use bsflite_otr.Names.{text_eq}
use bsflite_otr.Numerals.{atoi}
use bsflite_otr.Settings.{
  Token, Settings, Progress, Outcome, no_user, complete, no_password, directive, conf_bool,
  proxy_of, apply, note, outcome, read_conf,
}
use bsflite_otr.Settings.RoundTrip.{IsSetting, written, note_all, read_conf-noted}

-- What the lines with one directive make of a value, in their order.
abbrev pub value_of {ℓ} : {A : Type ℓ} → Token → (A → Text → A) → A → List (Token × Text) → A
value_of token parse old [] = old
value_of token parse old ((t, s) ∷ ss) =
    value_of token parse (if text_eq (directive t) (directive token) then parse old s else old) ss

-- Whether there is a line with a directive.
abbrev pub is_given : Token → List (Token × Text) → Bool
is_given token [] = false
is_given token ((t, s) ∷ ss) = text_eq (directive t) (directive token) || is_given token ss

-- A text or a number is that of the last line with its directive, a flag is set if that line says
-- `true`, and the type of the proxy is that of the last line that names a type.
abbrev pub settings_of : Settings → List (Token × Text) → Settings
settings_of cfg ss = record {
  username = value_of Token.username (λ o s. some s) cfg.username ss;
  password = value_of Token.password (λ o s. some s) cfg.password ss;
  proxy = value_of Token.proxy (λ o s. some s) cfg.proxy ss;
  proxyport = value_of Token.proxyport (λ o s. atoi s) cfg.proxyport ss;
  proxytype = value_of Token.proxytype proxy_of cfg.proxytype ss;
  oscarport = value_of Token.port (λ o s. atoi s) cfg.oscarport ss;
  single_log = value_of Token.single_log (λ o s. conf_bool s) cfg.single_log ss;
  squelchaway = value_of Token.squelchaway (λ o s. conf_bool s) cfg.squelchaway ss;
  squelchidle = value_of Token.squelchidle (λ o s. conf_bool s) cfg.squelchidle ss;
  squelchconnect = value_of Token.squelchconnect (λ o s. conf_bool s) cfg.squelchconnect ss;
  respond_idle_only = value_of Token.respond_idle (λ o s. conf_bool s) cfg.respond_idle_only ss;
  report_idle = value_of Token.report_idle (λ o s. conf_bool s) cfg.report_idle ss;
  netspeak_filter = value_of Token.filter (λ o s. conf_bool s) cfg.netspeak_filter ss;
  set_window_title = value_of Token.title (λ o s. conf_bool s) cfg.set_window_title ss;
  timestamps = value_of Token.timestamps (λ o s. conf_bool s) cfg.timestamps ss;
  bell_on_incoming = value_of Token.bell (λ o s. conf_bool s) cfg.bell_on_incoming ss;
  idle_rep_time = value_of Token.idletime (λ o s. atoi s) cfg.idle_rep_time ss;
  colors = value_of Token.colors (λ o s. conf_bool s) cfg.colors ss;
  auto_reconnect = value_of Token.auto_reconnect (λ o s. atoi s) cfg.auto_reconnect ss;
  otr = value_of Token.otr (λ o s. conf_bool s) cfg.otr ss;
}

abbrev pub outcome_of : List (Token × Text) → Outcome
outcome_of ss =
    if is_given Token.username ss
    then (if is_given Token.password ss then complete else no_password)
    else no_user

settings_of-cons :
    (cfg : Settings) (t : Token) (s : Text) (ss : List (Token × Text))
    → settings_of (apply cfg t s) ss ≡ settings_of cfg ((t, s) ∷ ss)
unfolding apply text_eq
settings_of-cons cfg Token.username s ss = refl
settings_of-cons cfg Token.password s ss = refl
settings_of-cons cfg Token.proxyport s ss = refl
settings_of-cons cfg Token.proxytype s ss = refl
settings_of-cons cfg Token.proxy s ss = refl
settings_of-cons cfg Token.single_log s ss = refl
settings_of-cons cfg Token.squelchconnect s ss = refl
settings_of-cons cfg Token.squelchidle s ss = refl
settings_of-cons cfg Token.squelchaway s ss = refl
settings_of-cons cfg Token.respond_idle s ss = refl
settings_of-cons cfg Token.report_idle s ss = refl
settings_of-cons cfg Token.filter s ss = refl
settings_of-cons cfg Token.timestamps s ss = refl
settings_of-cons cfg Token.port s ss = refl
settings_of-cons cfg Token.title s ss = refl
settings_of-cons cfg Token.bell s ss = refl
settings_of-cons cfg Token.idletime s ss = refl
settings_of-cons cfg Token.colors s ss = refl
settings_of-cons cfg Token.auto_reconnect s ss = refl
settings_of-cons cfg Token.otr s ss = refl

-- What is noted of a user and of a password.
noted :
    (p : Progress) (t : Token) (s : Text)
    → ((note p t s).hasuser ≡ (p.hasuser || text_eq (directive t) (directive Token.username)))
      × ((note p t s).haspw ≡ (p.haspw || text_eq (directive t) (directive Token.password)))
      × ((note p t s).settings ≡ apply p.settings t s)
unfolding note text_eq
noted p Token.username s = (refl, refl, refl)
noted p Token.password s = (refl, refl, refl)
noted p Token.proxyport s = (refl, refl, refl)
noted p Token.proxytype s = (refl, refl, refl)
noted p Token.proxy s = (refl, refl, refl)
noted p Token.single_log s = (refl, refl, refl)
noted p Token.squelchconnect s = (refl, refl, refl)
noted p Token.squelchidle s = (refl, refl, refl)
noted p Token.squelchaway s = (refl, refl, refl)
noted p Token.respond_idle s = (refl, refl, refl)
noted p Token.report_idle s = (refl, refl, refl)
noted p Token.filter s = (refl, refl, refl)
noted p Token.timestamps s = (refl, refl, refl)
noted p Token.port s = (refl, refl, refl)
noted p Token.title s = (refl, refl, refl)
noted p Token.bell s = (refl, refl, refl)
noted p Token.idletime s = (refl, refl, refl)
noted p Token.colors s = (refl, refl, refl)
noted p Token.auto_reconnect s = (refl, refl, refl)
noted p Token.otr s = (refl, refl, refl)

or_assoc : (a b c : Bool) → ((a || b) || c) ≡ (a || (b || c))
or_assoc a b c = ground arith

note_all_lem :
    (p : Progress) (ss : List (Token × Text))
    → ((note_all p ss).hasuser ≡ (p.hasuser || is_given Token.username ss))
      × ((note_all p ss).haspw ≡ (p.haspw || is_given Token.password ss))
      × ((note_all p ss).settings ≡ settings_of p.settings ss)
note_all_lem p [] = (ground arith, ground arith, refl)
note_all_lem p ((t, s) ∷ ss) =
    let (user, pw, set) = note_all_lem (note p t s) ss in
    let (user', pw', set') = noted p t s in
    (
      user
          ∙ ap (λ b. b || is_given Token.username ss) user'
          ∙ or_assoc p.hasuser (text_eq (directive t) (directive Token.username))
              (is_given Token.username ss),
      pw
          ∙ ap (λ b. b || is_given Token.password ss) pw'
          ∙ or_assoc p.haspw (text_eq (directive t) (directive Token.password))
              (is_given Token.password ss),
      set ∙ ap (λ c. settings_of c ss) set' ∙ settings_of-cons p.settings t s ss,
    )

outcome_lem :
    (p : Progress) (user pw : Bool)
    → p.hasuser ≡ user
    → p.haspw ≡ pw
    → outcome p ≡ (if user then (if pw then complete else no_password) else no_user)
unfolding outcome
outcome_lem p user pw e e' = rw (e, e') (rows user pw)
  where
    rows :
        (u w : Bool)
        → (if w && u then complete else if u then no_password else no_user)
          ≡ (if u then (if w then complete else no_password) else no_user)
    rows true true = refl
    rows true false = refl
    rows false true = refl
    rows false false = refl

-- A configuration file of any number of settings, each a directive, a blank and a value without a NUL
-- or a break, on a line of at most 1023 characters with its break: all lines are read, none is taken
-- for another setting, a setting is what the last line with its directive says (the type of the proxy
-- what the last line says that names one) and as before if there is none, and the result says whether
-- there is a user and whether there is a password too.
pub read_conf-written :
    (cfg : Settings) (ss : List (Token × Text))
    → All IsSetting ss
    → read_conf cfg (some (written ss)) ≡ done (outcome_of ss, settings_of cfg ss)
read_conf-written cfg ss vs =
    let p = note_all (record { hasuser = false; haspw = false; settings = cfg }) ss in
    let (user, pw, set) =
      note_all_lem (record { hasuser = false; haspw = false; settings = cfg }) ss in
    read_conf-noted cfg ss vs ∙ (λ i. done (outcome_lem p _ _ user pw i, set i))
