-- ===== src/Settings.antt =====
-- The configuration file of the client: config.c and the settings of `struct Conn` in bsf.h. A file is
-- its text, and what the parser prints of a line that it does not know is left out.
pub mod RoundTrip
pub mod Meaning
pub mod Total
use bsflite_otr.Base.{
  ℕ, zero, suc, ◌+◌, ◌%◌, ◌^◌, Bool, true, false, ◌&&◌, ◌||◌, Option, none, some, List, [], ◌∷◌,
  ◌++◌, length, Run, done, unfinished, ◌>>=◌, ltb, ◌==◌, if◌then◌else◌, choose,
}
use bsflite_otr.Session.{Text, Proxy}
use bsflite_otr.Names.{c_string, to_lower}
use bsflite_otr.Numerals.{atoi}
use bsflite_otr.Dial.{after, starts}

-- The tokens of the `CONFIG_USERNAME` enumeration that the table has.
pub data Token : Type 0 where
  username password proxyport proxytype proxy single_log squelchconnect squelchidle squelchaway
        respond_idle :
      Token
  report_idle filter timestamps port title bell idletime colors auto_reconnect otr : Token

-- The word of each.
abbrev pub directive : Token → Text
directive Token.username = b'u' ∷ b's' ∷ b'e' ∷ b'r' ∷ b'n' ∷ b'a' ∷ b'm' ∷ b'e' ∷ []
directive Token.password = b'p' ∷ b'a' ∷ b's' ∷ b's' ∷ b'w' ∷ b'o' ∷ b'r' ∷ b'd' ∷ []
directive Token.proxyport = b'p' ∷ b'r' ∷ b'o' ∷ b'x' ∷ b'y' ∷ b'p' ∷ b'o' ∷ b'r' ∷ b't' ∷ []
directive Token.proxytype = b'p' ∷ b'r' ∷ b'o' ∷ b'x' ∷ b'y' ∷ b't' ∷ b'y' ∷ b'p' ∷ b'e' ∷ []
directive Token.proxy = b'p' ∷ b'r' ∷ b'o' ∷ b'x' ∷ b'y' ∷ []
directive Token.single_log =
    b's' ∷ b'i' ∷ b'n' ∷ b'g' ∷ b'l' ∷ b'e' ∷ b'_' ∷ b'l' ∷ b'o' ∷ b'g' ∷ []
directive Token.squelchconnect =
    b's' ∷ b'q' ∷ b'u' ∷ b'e' ∷ b'l' ∷ b'c' ∷ b'h' ∷ b'c' ∷ b'o' ∷ b'n' ∷ b'n' ∷ b'e' ∷ b'c' ∷ b't'
    ∷ []
directive Token.squelchidle =
    b's' ∷ b'q' ∷ b'u' ∷ b'e' ∷ b'l' ∷ b'c' ∷ b'h' ∷ b'i' ∷ b'd' ∷ b'l' ∷ b'e' ∷ []
directive Token.squelchaway =
    b's' ∷ b'q' ∷ b'u' ∷ b'e' ∷ b'l' ∷ b'c' ∷ b'h' ∷ b'a' ∷ b'w' ∷ b'a' ∷ b'y' ∷ []
directive Token.respond_idle =
    b'r' ∷ b'e' ∷ b's' ∷ b'p' ∷ b'o' ∷ b'n' ∷ b'd' ∷ b'_' ∷ b'i' ∷ b'd' ∷ b'l' ∷ b'e' ∷ b'_' ∷ b'o'
    ∷ b'n' ∷ b'l' ∷ b'y' ∷ []
directive Token.report_idle =
    b'r' ∷ b'e' ∷ b'p' ∷ b'o' ∷ b'r' ∷ b't' ∷ b'_' ∷ b'i' ∷ b'd' ∷ b'l' ∷ b'e' ∷ []
directive Token.filter =
    b'n' ∷ b'e' ∷ b't' ∷ b's' ∷ b'p' ∷ b'e' ∷ b'a' ∷ b'k' ∷ b'_' ∷ b'f' ∷ b'i' ∷ b'l' ∷ b't' ∷ b'e'
    ∷ b'r' ∷ []
directive Token.timestamps =
    b't' ∷ b'i' ∷ b'm' ∷ b'e' ∷ b's' ∷ b't' ∷ b'a' ∷ b'm' ∷ b'p' ∷ b's' ∷ []
directive Token.port = b'o' ∷ b's' ∷ b'c' ∷ b'a' ∷ b'r' ∷ b'p' ∷ b'o' ∷ b'r' ∷ b't' ∷ []
directive Token.title =
    b's' ∷ b'e' ∷ b't' ∷ b'_' ∷ b'w' ∷ b'i' ∷ b'n' ∷ b'd' ∷ b'o' ∷ b'w' ∷ b'_' ∷ b't' ∷ b'i' ∷ b't'
    ∷ b'l' ∷ b'e' ∷ []
directive Token.bell =
    b'b' ∷ b'e' ∷ b'l' ∷ b'l' ∷ b'_' ∷ b'o' ∷ b'n' ∷ b'_' ∷ b'i' ∷ b'n' ∷ b'c' ∷ b'o' ∷ b'm' ∷ b'i'
    ∷ b'n' ∷ b'g' ∷ []
directive Token.idletime = b'i' ∷ b'd' ∷ b'l' ∷ b'e' ∷ b't' ∷ b'i' ∷ b'm' ∷ b'e' ∷ []
directive Token.colors = b'c' ∷ b'o' ∷ b'l' ∷ b'o' ∷ b'r' ∷ b's' ∷ []
directive Token.auto_reconnect =
    b'a' ∷ b'u' ∷ b't' ∷ b'o' ∷ b'_' ∷ b'r' ∷ b'e' ∷ b'c' ∷ b'o' ∷ b'n' ∷ b'n' ∷ b'e' ∷ b'c' ∷ b't'
    ∷ []
directive Token.otr = b'o' ∷ b't' ∷ b'r' ∷ []

-- `ic[]` without its end.
abbrev pub directives : List Token
directives =
    Token.username ∷ Token.password ∷ Token.proxyport ∷ Token.proxytype ∷ Token.proxy
    ∷ Token.single_log ∷ Token.squelchconnect ∷ Token.squelchidle ∷ Token.squelchaway
    ∷ Token.respond_idle ∷ Token.report_idle ∷ Token.filter ∷ Token.timestamps ∷ Token.port
    ∷ Token.title ∷ Token.bell ∷ Token.idletime ∷ Token.colors ∷ Token.auto_reconnect ∷ Token.otr
    ∷ []

-- What the file can set of `struct Conn`; a number is an int modulo 2 ^ 32.
pub record Settings : Type 0 where
  pub username : Option Text
  pub password : Option Text
  pub proxy : Option Text
  pub proxyport : ℕ
  pub proxytype : Proxy
  pub oscarport : ℕ
  pub single_log : Bool
  pub squelchaway : Bool
  pub squelchidle : Bool
  pub squelchconnect : Bool
  pub respond_idle_only : Bool
  pub report_idle : Bool
  pub netspeak_filter : Bool
  pub set_window_title : Bool
  pub timestamps : Bool
  pub bell_on_incoming : Bool
  pub idle_rep_time : ℕ
  pub colors : Bool
  pub auto_reconnect : ℕ
  pub otr : Bool

-- `bl_conf_bool`: the first four letters, in either case.
pub conf_bool : Text → Bool
conf_bool (a ∷ b ∷ c ∷ d ∷ s) =
    (to_lower a == b't') && ((to_lower b == b'r') && ((to_lower c == b'u') && (to_lower d == b'e')))
conf_bool _ = false

-- `CONFIG_PROXYTYPE`: another word leaves the type as it is.
pub proxy_of : Proxy → Text → Proxy
proxy_of before s =
    if starts (b's' ∷ b'o' ∷ b'c' ∷ b'k' ∷ b's' ∷ b'5' ∷ []) s
    then Proxy.socks5
    else if starts (b'h' ∷ b't' ∷ b't' ∷ b'p' ∷ b's' ∷ []) s
    then Proxy.https
    else before

-- The switch of `read_conf`.
pub apply : Settings → Token → Text → Settings
apply cfg Token.username s = record cfg { username = some s }
apply cfg Token.password s = record cfg { password = some s }
apply cfg Token.proxyport s = record cfg { proxyport = atoi s }
apply cfg Token.proxytype s = record cfg { proxytype = proxy_of cfg.proxytype s }
apply cfg Token.proxy s = record cfg { proxy = some s }
apply cfg Token.single_log s = record cfg { single_log = conf_bool s }
apply cfg Token.squelchconnect s = record cfg { squelchconnect = conf_bool s }
apply cfg Token.squelchidle s = record cfg { squelchidle = conf_bool s }
apply cfg Token.squelchaway s = record cfg { squelchaway = conf_bool s }
apply cfg Token.respond_idle s = record cfg { respond_idle_only = conf_bool s }
apply cfg Token.report_idle s = record cfg { report_idle = conf_bool s }
apply cfg Token.filter s = record cfg { netspeak_filter = conf_bool s }
apply cfg Token.timestamps s = record cfg { timestamps = conf_bool s }
apply cfg Token.port s = record cfg { oscarport = atoi s }
apply cfg Token.title s = record cfg { set_window_title = conf_bool s }
apply cfg Token.bell s = record cfg { bell_on_incoming = conf_bool s }
apply cfg Token.idletime s = record cfg { idle_rep_time = atoi s }
apply cfg Token.colors s = record cfg { colors = conf_bool s }
apply cfg Token.auto_reconnect s = record cfg { auto_reconnect = atoi s }
apply cfg Token.otr s = record cfg { otr = conf_bool s }

-- `fgets`: the characters up to a line break, or as many as there is room for; and what is left.
pub fgets : ℕ → Text → Text × Text
fgets zero s = ([], s)
fgets (suc room) [] = ([], [])
fgets (suc room) (c ∷ s) =
    let (line, rest) = fgets room s in if c == 10 then (c ∷ [], s) else (c ∷ line, rest)

-- `if ((tptr = strchr(buf, c)) != NULL) tptr[0] = 0`
pub before : ℕ → Text → Option Text
before c [] = none
before c (d ∷ s) =
    let rest = before c s in
    if d == c then some [] else choose none (λ (t : Text). some (d ∷ t)) rest

-- A line without its break: the first carriage return, or else the line feed.
pub chop : Text → Text
chop s = choose (choose s (λ (t : Text). t) (before 10 s)) (λ (t : Text). t) (before 13 s)

-- The first directive that the line begins with.
pub find_token : List Token → Text → Option Token
find_token [] s = none
find_token (t ∷ ts) s =
    let rest = find_token ts s in if starts (directive t) s then some t else rest

-- What `bl_get_confopt` returns: -1, -2, or a token and its argument.
pub data Got : Type 0 where
  ended missing : Got
  option : Token → Text → Got

-- The answer to a line that is no comment.
pub read_line : Text → Got
read_line s =
    choose missing
      (λ (value : Text).
        choose missing (λ (token : Token). option token value) (find_token directives s))
      (after b' ' s)

abbrev pub is_comment : Text → Bool
is_comment [] = false
is_comment (c ∷ s) = c == b'#'

-- `bl_get_confopt` on an open file, and what is left of it. A round takes a character at least.
pub get_confopt : ℕ → Text → Run (Got × Text)
get_confopt zero file = unfinished
get_confopt (suc fuel) [] = done (ended, [])
get_confopt (suc fuel) (c ∷ s) =
    let (line, rest) = fgets 1023 (c ∷ s) in
    let again = get_confopt fuel rest in
    let buf = c_string line in if is_comment buf then again else done (read_line (chop buf), rest)

-- Whether a user and a password have been seen, and the settings.
pub record Progress : Type 0 where
  pub hasuser : Bool
  pub haspw : Bool
  pub settings : Settings

pub note : Progress → Token → Text → Progress
note p token s = record {
  hasuser = p.hasuser || (elim token [ Token.username ↦ true | _ ↦ false ]);
  haspw = p.haspw || (elim token [ Token.password ↦ true | _ ↦ false ]);
  settings = apply p.settings token s;
}

-- The loop of `read_conf`, and what it returns: 1, 2 or 0.
pub conf_loop : ℕ → Progress → Text → Run Progress
conf_loop zero p file = unfinished
conf_loop (suc fuel) p file = do
  (r, rest) ← get_confopt (suc (length file)) file
  let skip = conf_loop fuel p rest
  elim r [ ended ↦ done p | missing ↦ skip | option token s ↦ conf_loop fuel (note p token s) rest ]

pub data Outcome : Type 0 where
  no_file no_user complete no_password : Outcome

pub outcome : Progress → Outcome
outcome p = if p.haspw && p.hasuser then complete else if p.hasuser then no_password else no_user

-- `read_conf`, where `file` is what `fopen` finds.
pub read_conf : Settings → Option Text → Run (Outcome × Settings)
read_conf cfg none = done (no_file, cfg)
read_conf cfg (some file) = do
  p ← conf_loop (suc (length file)) (record { hasuser = false; haspw = false; settings = cfg }) file
  done (outcome p, p.settings)
