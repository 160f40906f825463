-- ===== src/Settings/RoundTrip.antt =====
-- A configuration that is written line by line is read line by line.
use bsflite_otr.Base.{
  Run, All-append, zero, suc, ap, ◌∙◌, ◌>>=◌, ◌≤◌, length-append, done, ℕ, ◌<◌, ◌≡◌, refl, false,
  none, some, List, [], ◌∷◌, ◌++◌, length, All, arith, ◌==◌, Bool, true, ◌||◌, if◌then◌else◌,
}
use bsflite_otr.Settings.{
  Settings, get_confopt, Progress, note, conf_loop, outcome, read_conf, Token, directive, fgets,
  before, chop, find_token, option, read_line, is_comment, Got, ended, missing,
}
use bsflite_otr.Session.{Text}
use bsflite_otr.Names.{c_string}
use bsflite_otr.Dial.{after, starts}

-- A character that does not end a line or a string.
abbrev pub IsPlain : ℕ → Type 0
IsPlain c = ((c == 0) ≡ false) × ((c == 10) ≡ false) × ((c == 13) ≡ false)

-- A line of the file, without and with its break, and the file.
abbrev pub setting : Token × Text → Text
setting (token, value) = directive token ++ (b' ' ∷ value)

abbrev pub written : List (Token × Text) → Text
written [] = []
written (s ∷ ss) = setting s ++ (10 ∷ written ss)

abbrev pub IsSetting : Token × Text → Type 0
IsSetting (token, value) = All IsPlain value × (length (setting (token, value)) < 1023)

-- The settings of the lines, noted in their order.
abbrev pub note_all : Progress → List (Token × Text) → Progress
note_all p [] = p
note_all p ((token, value) ∷ ss) = note_all (note p token value) ss

pub fgets-line :
    (room : ℕ) (line rest : Text)
    → All IsPlain line
    → length line < room
    → fgets room (line ++ (10 ∷ rest)) ≡ (line ++ (10 ∷ []), rest)
unfolding fgets
fgets-line zero line rest v fits = absurd (omega arith)
fgets-line (suc room) [] rest v fits = refl
fgets-line (suc room) (c ∷ line) rest ((z, n, r), v) fits =
    rw (n, fgets-line room line rest v (omega arith)) refl

pub c_string-line :
    (line : Text) → All IsPlain line → c_string (line ++ (10 ∷ [])) ≡ line ++ (10 ∷ [])
unfolding c_string
c_string-line [] v = refl
c_string-line (c ∷ line) ((z, n, r), v) = rw (z, c_string-line line v) refl

pub before-break : (line : Text) → All IsPlain line → before 10 (line ++ (10 ∷ [])) ≡ some line
unfolding before
before-break [] v = refl
before-break (c ∷ line) ((z, n, r), v) = rw (n, before-break line v) refl

before-return : (line : Text) → All IsPlain line → before 13 (line ++ (10 ∷ [])) ≡ none
unfolding before
before-return [] v = refl
before-return (c ∷ line) ((z, n, r), v) = rw (r, before-return line v) refl

chop-line : (line : Text) → All IsPlain line → chop (line ++ (10 ∷ [])) ≡ line
unfolding chop
chop-line line v = rw (before-return line v, before-break line v) refl

-- No directive of the table is taken for another one.
read_line-setting :
    (token : Token) (value : Text) → read_line (setting (token, value)) ≡ option token value
unfolding read_line find_token after starts
read_line-setting Token.username value = refl
read_line-setting Token.password value = refl
read_line-setting Token.proxyport value = refl
read_line-setting Token.proxytype value = refl
read_line-setting Token.proxy value = refl
read_line-setting Token.single_log value = refl
read_line-setting Token.squelchconnect value = refl
read_line-setting Token.squelchidle value = refl
read_line-setting Token.squelchaway value = refl
read_line-setting Token.respond_idle value = refl
read_line-setting Token.report_idle value = refl
read_line-setting Token.filter value = refl
read_line-setting Token.timestamps value = refl
read_line-setting Token.port value = refl
read_line-setting Token.title value = refl
read_line-setting Token.bell value = refl
read_line-setting Token.idletime value = refl
read_line-setting Token.colors value = refl
read_line-setting Token.auto_reconnect value = refl
read_line-setting Token.otr value = refl

-- A test of a text that is known.
all_plain : Text → Bool
all_plain [] = true
all_plain (c ∷ s) = if (c == 0) || ((c == 10) || (c == 13)) then false else all_plain s

none_of :
    (a b c d : Bool)
    → (if a || (b || c) then false else d) ≡ true
    → ((a ≡ false) × (b ≡ false) × (c ≡ false)) × (d ≡ true)
none_of true b c d e = ground arith
none_of false true c d e = ground arith
none_of false false true d e = ground arith
none_of false false false d e = ((refl, refl, refl), e)

all_plain-IsPlain : (s : Text) → all_plain s ≡ true → All IsPlain s
unfolding all_plain
all_plain-IsPlain [] e = tt
all_plain-IsPlain (c ∷ s) e =
    let (plain, e') = none_of (c == 0) (c == 10) (c == 13) (all_plain s) e in
    (plain, all_plain-IsPlain s e')

all_plain-directive : (token : Token) → all_plain (directive token) ≡ true
unfolding all_plain
all_plain-directive Token.username = refl
all_plain-directive Token.password = refl
all_plain-directive Token.proxyport = refl
all_plain-directive Token.proxytype = refl
all_plain-directive Token.proxy = refl
all_plain-directive Token.single_log = refl
all_plain-directive Token.squelchconnect = refl
all_plain-directive Token.squelchidle = refl
all_plain-directive Token.squelchaway = refl
all_plain-directive Token.respond_idle = refl
all_plain-directive Token.report_idle = refl
all_plain-directive Token.filter = refl
all_plain-directive Token.timestamps = refl
all_plain-directive Token.port = refl
all_plain-directive Token.title = refl
all_plain-directive Token.bell = refl
all_plain-directive Token.idletime = refl
all_plain-directive Token.colors = refl
all_plain-directive Token.auto_reconnect = refl
all_plain-directive Token.otr = refl

directive-IsPlain : (token : Token) → All IsPlain (directive token)
directive-IsPlain token = all_plain-IsPlain (directive token) (all_plain-directive token)

setting_no_comment :
    (token : Token) (value : Text) → is_comment (setting (token, value) ++ (10 ∷ [])) ≡ false
setting_no_comment Token.username value = refl
setting_no_comment Token.password value = refl
setting_no_comment Token.proxyport value = refl
setting_no_comment Token.proxytype value = refl
setting_no_comment Token.proxy value = refl
setting_no_comment Token.single_log value = refl
setting_no_comment Token.squelchconnect value = refl
setting_no_comment Token.squelchidle value = refl
setting_no_comment Token.squelchaway value = refl
setting_no_comment Token.respond_idle value = refl
setting_no_comment Token.report_idle value = refl
setting_no_comment Token.filter value = refl
setting_no_comment Token.timestamps value = refl
setting_no_comment Token.port value = refl
setting_no_comment Token.title value = refl
setting_no_comment Token.bell value = refl
setting_no_comment Token.idletime value = refl
setting_no_comment Token.colors value = refl
setting_no_comment Token.auto_reconnect value = refl
setting_no_comment Token.otr value = refl

get_confopt-line :
    (fuel : ℕ) (line rest : Text)
    → All IsPlain line
    → length line < 1023
    → is_comment (line ++ (10 ∷ [])) ≡ false
    → get_confopt (suc fuel) (line ++ (10 ∷ rest)) ≡ done (read_line line, rest)
unfolding get_confopt
get_confopt-line fuel [] rest v fits plain =
    rw (fgets-line 1023 [] rest tt (omega arith), c_string-line [] tt, chop-line [] tt) refl
get_confopt-line fuel (c ∷ line) rest v fits plain =
    rw
      (
        fgets-line 1023 (c ∷ line) rest v fits,
        c_string-line (c ∷ line) v,
        plain,
        chop-line (c ∷ line) v,
      )
      refl

get_confopt-setting :
    (fuel : ℕ) (token : Token) (value rest : Text)
    → IsSetting (token, value)
    → get_confopt (suc fuel) (setting (token, value) ++ (10 ∷ rest))
      ≡ done (option token value, rest)
get_confopt-setting fuel token value rest (v, fits) =
    get_confopt-line fuel (setting (token, value)) rest
      (All-append IsPlain (directive token) (b' ' ∷ value) (directive-IsPlain token)
        ((refl, refl, refl), v))
      fits (setting_no_comment token value)
    ∙ ap (λ r. done (r, rest)) (read_line-setting token value)

conf_loop-written :
    (ss : List (Token × Text)) (fuel : ℕ) (p : Progress)
    → All IsSetting ss
    → length ss < fuel
    → conf_loop fuel p (written ss) ≡ done (note_all p ss)
unfolding conf_loop get_confopt
conf_loop-written ss zero p vs enough = absurd (omega arith)
conf_loop-written [] (suc fuel) p vs enough = refl
conf_loop-written ((token, value) ∷ ss) (suc fuel) p (v, vs) enough =
    let rest = written ss in
    let file = setting (token, value) ++ (10 ∷ rest) in
    let read = get_confopt-setting (length file) token value rest v in
    ap
      (λ r. r >>= λ (q : Got × Text). elim q.0 as (λ g. Run Progress) [
        | ended ↦ done p
        | missing ↦ conf_loop fuel p q.1
        | option t s ↦ conf_loop fuel (note p t s) q.1
      ])
      read
    ∙ conf_loop-written ss fuel (note p token value) vs (omega arith)

length-written : (ss : List (Token × Text)) → length ss ≤ length (written ss)
length-written [] = omega arith
length-written (s ∷ ss) =
    omega (arith, length-written ss, length-append (setting s) (10 ∷ written ss))

-- The file is read setting by setting, in the order of its lines.
pub read_conf-noted :
    (cfg : Settings) (ss : List (Token × Text))
    → All IsSetting ss
    → let p = note_all (record { hasuser = false; haspw = false; settings = cfg }) ss in
      read_conf cfg (some (written ss)) ≡ done (outcome p, p.settings)
unfolding read_conf
read_conf-noted cfg ss vs =
    ap (λ r. r >>= λ p. done (outcome p, p.settings))
      (conf_loop-written ss (suc (length (written ss)))
        (record { hasuser = false; haspw = false; settings = cfg }) vs
        (omega (arith, length-written ss)))
