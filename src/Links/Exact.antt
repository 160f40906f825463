-- ===== src/Links/Exact.antt =====
-- What becomes of the list of connections when one ends.
use bsflite_otr.Base.{
  ◌%◌, ◌^◌, not, fault, Run, Option, Bool, ◌>>=◌, done, unfinished, ◌==◌, ◌++◌, ◌∷◌, [], List, ℕ,
  zero, suc, ◌≡◌, refl, ap, ◌∙◌, true, false, none, some, if◌then◌else◌,
}
use bsflite_otr.Session.{Text}
use bsflite_otr.Links.{
  Link, Links, LinkCall, create, profile_set, proxy_set, port_set, signon, away_set, is_direct,
  unlink_loop, unlink, sign_on,
}

unlink_loop-stuck :
    (fuel h : ℕ) (n : Link) (cs : List Link)
    → (n.conn == h) ≡ false
    → unlink_loop fuel h (n ∷ cs) ≡ unfinished
unfolding unlink_loop
unlink_loop-stuck zero h n cs e = refl
unlink_loop-stuck (suc fuel) h n cs e = rw (e, unlink_loop-stuck fuel h n cs e) refl

-- The unlinking of a connection that is neither the first nor the second of the list never ends:
-- whatever the number of rounds, the loop looks at the second one again.
pub unlink-never_ends :
    (fuel h : ℕ) (c n : Link) (cs : List Link)
    → (c.conn == h) ≡ false
    → (n.conn == h) ≡ false
    → unlink fuel h (c ∷ n ∷ cs) ≡ unfinished
unfolding unlink
unlink-never_ends fuel h c n cs first second =
    ap (λ b. if b then done (n ∷ cs) else (unlink_loop fuel h (n ∷ cs) >>= λ r. done (c ∷ r))) first
    ∙ ap (λ r. r >>= λ (r : List Link). done (c ∷ r)) (unlink_loop-stuck fuel h n cs second)

-- The handle of the first connection, where a new one is the last.
abbrev pub first_of : List Link → ℕ → ℕ
first_of [] new = new
first_of (c ∷ cs) new = c.conn

-- A list with one call, if there is a reason for it.
abbrev pub given : Bool → LinkCall → List LinkCall
given true call = call ∷ []
given false call = []

-- What is asked of imcomm for the first connection, with the settings of a user.
abbrev pub signing_on : Links → Option Text → Option Text → ℕ → List LinkCall
signing_on l username password first =
    given (not (is_direct l.settings.proxytype))
      (proxy_set first l.settings.proxytype l.settings.proxy (l.settings.proxyport % 2 ^ 16))
    ++ (given (not (l.settings.oscarport == 0)) (port_set first (l.settings.oscarport % 2 ^ 16))
        ++ ((signon first username password ∷ []) ++ given l.isaway (away_set first l.awaymsg)))

-- The user and the password of `R!`: those that are typed, or those of before.
abbrev pub user_of : Links → Text → Option Text
user_of l [] = l.settings.username
user_of l (c ∷ s) = some (c ∷ s)

abbrev pub password_of : Links → Text → Text → Option Text
password_of l [] password = l.settings.password
password_of l (c ∷ s) password = some password

-- A state after a connection went and a new one was made: the new one is the last of the list, the
-- first one is in use, no buddy is listed, and these calls were made since.
abbrev pub Reconnected : Links → List Link → ℕ → List LinkCall → Run Links → Type 0
Reconnected l cs new calls (done l') =
    (l'.clist ≡ cs ++ (record { conn = new; username = none } ∷ []))
    × (l'.conn ≡ some (first_of cs new))
    × (l'.client.buddies ≡ [])
    × (l'.client.buddiesonline ≡ 0)
    × (l'.calls ≡ l.calls ++ calls)
Reconnected l cs new calls fault = ⊥
Reconnected l cs new calls unfinished = ⊥

-- The calls for a new connection, which is the last of the list.
abbrev pub calls_again : Links → Option Text → Option Text → List Link → ℕ → List LinkCall
calls_again l username password cs new =
    create new ∷ profile_set new ∷ signing_on l username password (first_of cs new)

-- The state in the words of the code.
abbrev reconnected : Links → List LinkCall → List Link → ℕ → Links
reconnected l before cs new =
    sign_on
      (record l {
        clist = cs ++ (record { conn = new; username = none } ∷ []);
        client = record l.client { buddies = []; buddiesonline = 0 };
        conn = none;
        calls = before ++ (create new ∷ profile_set new ∷ []);
      })
      (first_of cs new)
