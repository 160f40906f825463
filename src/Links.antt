-- ===== src/Links.antt =====
-- The connections of the client: `clist` of conn.c, and what bsf.c and input.c do with it when a
-- connection ends or the user connects again. Handles are their addresses; `sleep` and what is printed
-- are left out, and the password that the user types is an argument.
pub mod Exact
use bsflite_otr.Base.{
  ◌%◌, ◌^◌, ◌>>=◌, Run, done, fault, unfinished, ◌==◌, ◌||◌, ◌&&◌, not, ◌++◌, ◌∷◌, [], List, ℕ,
  zero, suc, ◌+◌, ◌-◌, ◌≤◌, ◌<◌, ◌≡◌, ◌≢◌, refl, sym, ap, ◌∙◌, subst, Bool, true, false, Option,
  none, some, length, take, drop, All, ltb, leb, if◌then◌else◌, choose, arith, Bool-cases,
  Option-cases, inl, inr, ◌⊎◌, lt→ltb, ge→ltb, le→leb, gt→leb, ltb_false→le, length-append,
  ℕ_discrete, dec_le, dec_lt, append_assoc, append-nil, map, All-append, suc-ne-zero,
}
use bsflite_otr.Session.{Text, Proxy}
use bsflite_otr.Screen.{Client}
use bsflite_otr.Settings.{Settings}

-- `struct ConnPtr`
pub record Link : Type 0 where
  pub conn : ℕ
  pub username : Option Text

-- The calls of imcomm, each with its handle; `profile_set` is `set_profile` of bsf.c, which reads the
-- profile from a file.
pub data LinkCall : Type 0 where
  create profile_set : ℕ → LinkCall
  proxy_set : ℕ → Proxy → Option Text → ℕ → LinkCall
  port_set : ℕ → ℕ → LinkCall
  signon : ℕ → Option Text → Option Text → LinkCall
  away_set : ℕ → Option Text → LinkCall
  delete_now : ℕ → LinkCall

-- `clist`, `conn` and what connecting uses of `struct Conn`.
pub record Links : Type 0 where
  pub clist : List Link
  pub conn : Option ℕ
  pub settings : Settings
  pub isaway : Bool
  pub awaymsg : Option Text
  pub client : Client
  pub calls : List LinkCall

abbrev pub ask : Links → List LinkCall → Links
ask l cs = record l { calls = l.calls ++ cs }

-- `create_new_connection`, where `imcomm_create_handle` returns this handle; the callbacks that it
-- registers are those of Runs.
pub create_new_connection : Links → ℕ → Links
create_new_connection l h =
    ask (record l { clist = l.clist ++ (record { conn = h; username = none } ∷ []) })
      (create h ∷ profile_set h ∷ [])

-- The loop of `receive_formatted_sn`.
pub name_links : ℕ → Text → List Link → List Link
name_links h sn [] = []
name_links h sn (c ∷ cs) =
    (if c.conn == h then record c { username = some sn } else c) ∷ name_links h sn cs

-- The loop behind the first link: `trav` stays where it is.
pub unlink_loop : ℕ → ℕ → List Link → Run (List Link)
unlink_loop zero h cs = unfinished
unlink_loop (suc fuel) h [] = done []
unlink_loop (suc fuel) h (c ∷ cs) =
    let next = unlink_loop fuel h cs in
    let same = unlink_loop fuel h (c ∷ cs) in if c.conn == h then next else same

-- The unlinking in `handle_deleted`, `input_reconnect` and `input_quit`.
pub unlink : ℕ → ℕ → List Link → Run (List Link)
unlink fuel h [] = fault
unlink fuel h (c ∷ cs) =
    if c.conn == h then done cs else (unlink_loop fuel h cs >>= λ (r : List Link). done (c ∷ r))

abbrev pub is_direct : Proxy → Bool
is_direct Proxy.direct = true
is_direct _ = false

-- From the call of `create_new_connection` to the end: the calls go to the first link.
abbrev pub sign_on : Links → ℕ → Links
sign_on l first =
    let s = l.settings in
    let away_calls : List LinkCall = if l.isaway then away_set first l.awaymsg ∷ [] else [] in
    record (ask l (
      (if is_direct s.proxytype
        then []
        else proxy_set first s.proxytype s.proxy (s.proxyport % 2 ^ 16) ∷ [])
      ++ ((if s.oscarport == 0 then [] else port_set first (s.oscarport % 2 ^ 16) ∷ [])
          ++ (signon first s.username s.password ∷ away_calls)))) { conn = some first }

abbrev first_link : List Link → Option Link
first_link [] = none
first_link (c ∷ cs) = some c

pub connect : Links → Run Links
connect l = choose fault (λ (first : Link). done (sign_on l first.conn)) (first_link l.clist)

-- `delete_buddylist`, and what is reset with it.
abbrev pub reset : Links → Links
reset l = record l { client = record l.client { buddies = []; buddiesonline = 0 }; conn = none }

-- `handle_deleted`
pub handle_deleted : ℕ → Links → ℕ → ℕ → Run Links
handle_deleted fuel l h new = do
  cs ← unlink fuel h l.clist
  let l' = record (reset l) { clist = cs }
  if l.settings.auto_reconnect == 0 then done l' else connect (create_new_connection l' new)

-- `R!name`
pub rename : Links → Text → Text → Links
rename l [] password = l
rename l (c ∷ s) password = record l {
  settings = record l.settings { username = some (c ∷ s); password = some password };
}

-- `input_reconnect`
pub input_reconnect : ℕ → Links → Text → Text → ℕ → Run Links
input_reconnect fuel l arg password new = do
  let named = rename l arg password
  l' ←
      choose (done named)
        (λ (h : ℕ). unlink fuel h l.clist >>= λ (cs : List Link).
          done (ask (record (reset named) { clist = cs }) (delete_now h ∷ [])))
        l.conn
  connect (create_new_connection l' new)
