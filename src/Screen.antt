-- ===== src/Screen.antt =====
-- aim.c: the client's own buddy list, and what it shows when a callback comes in. The list is doubly
-- linked in C; here its order stands for both links. Colours, time stamps and the prompt are left out.
pub mod Order
pub mod Change
pub mod Status
use bsflite_otr.Base.{
  ℕ, suc, ◌+◌, ◌-◌, Bool, true, false, not, ◌&&◌, Option, none, some, List, [], ◌∷◌, ◌++◌, ltb,
  if◌then◌else◌,
}
use bsflite_otr.Session.{Text}
use bsflite_otr.Names.{text_eq, text_lt, simplify_sn}

-- `otr` of `struct BuddyList`: -1, 0 and 1.
pub data Otr : Type 0 where
  refused plain secure : Otr

-- `struct BuddyList`; the context is libotr's.
pub record Buddy : Type 0 where
  pub sn : Text
  pub formatted : Text
  pub idle : Bool
  pub away : Bool
  pub otr : Otr
  pub otr_context : Option ℕ
  pub idletime : ℕ

-- A line on the screen, an entry of the log, or a call of libotr.
pub data Shown : Type 0 where
  now_online signed_off is_away no_longer_away : Text → Shown
  now_idle no_longer_idle : Text → Shown
  logged_signon logged_signoff : Text → Shown
  otr_disconnect otr_ending : Text → Shown

-- `buddylist`, and what the callbacks of aim.c use of `struct Conn`. `buddiesonline` is an int that
-- is counted down only where an entry was found.
pub record Client : Type 0 where
  pub buddies : List Buddy
  pub buddiesonline : ℕ
  pub squelchconnect : Bool
  pub squelchidle : Bool
  pub squelchaway : Bool
  pub shown : List Shown

abbrev pub show : Client → List Shown → Client
show c lines = record c { shown = c.shown ++ lines }

-- `find_buddy`, on the simplified name.
unfoldable pub find_sn : Text → List Buddy → Option Buddy
find_sn sn [] = none
find_sn sn (b ∷ bs) = if text_eq b.sn sn then some b else find_sn sn bs

unfoldable pub find_buddy : Client → Text → Option Buddy
find_buddy c who = find_sn (simplify_sn who) c.buddies

-- The insertion of `buddy_online`: before the first entry that the name is below, else at the end.
pub insert : Buddy → List Buddy → List Buddy
insert new [] = new ∷ []
insert new (b ∷ bs) = if text_lt new.sn b.sn then new ∷ (b ∷ bs) else b ∷ insert new bs

-- `buddy_online`; libotr's `otrl_context_find` is a parameter.
pub buddy_online : (Text → Option ℕ) → Client → Text → Client
buddy_online context_find c who =
    let sname = simplify_sn who in
    let new : Buddy = record {
      sn = sname;
      formatted = who;
      idle = false;
      away = false;
      otr = Otr.plain;
      otr_context = context_find sname;
      idletime = 0;
    } in
    let c' = record c { buddies = insert new c.buddies; buddiesonline = c.buddiesonline + 1 } in
    if c.squelchconnect then c' else show c' (now_online who ∷ logged_signon sname ∷ [])

-- The unlinking of `remove_from_list` and `buddy_offline`: the first entry of the name.
pub remove : Text → List Buddy → List Buddy
remove sn [] = []
remove sn (b ∷ bs) = if text_eq b.sn sn then bs else b ∷ remove sn bs

-- `remove_from_list`
pub remove_from_list : Client → Text → Client
remove_from_list c who =
    let sname = simplify_sn who in
    elim (find_sn sname c.buddies) [
      | none ↦ c
      | some b ↦ record c { buddies = remove sname c.buddies; buddiesonline = c.buddiesonline - 1 }
    ]

is_secure : Otr → Bool
is_secure Otr.secure = true
is_secure _ = false

-- What `buddy_offline` does for a conversation that is encrypted.
pub end_otr : Client → Buddy → Client
unfolding is_secure
end_otr c b = if is_secure b.otr then show c (otr_disconnect b.sn ∷ otr_ending b.sn ∷ []) else c

-- `buddy_offline`
pub buddy_offline : Client → Text → Client
unfolding end_otr
buddy_offline c who =
    let sname = simplify_sn who in
    elim (find_sn sname c.buddies) [
      | none ↦ c
      | some b ↦
          (let c' = record (end_otr c b) {
            buddies = remove sname c.buddies;
            buddiesonline = c.buddiesonline - 1;
          } in
            if c.squelchconnect then c' else show c' (signed_off who ∷ logged_signoff sname ∷ []))
    ]

-- The loops of `buddy_idle`, `buddy_away` and `buddy_unaway`: the first entry of the name is set.
pub update : Text → (Buddy → Buddy) → List Buddy → List Buddy
update sn f [] = []
update sn f (b ∷ bs) = if text_eq b.sn sn then f b ∷ bs else b ∷ update sn f bs

-- `buddy_idle`: ten minutes make a buddy idle, and only a change is shown.
pub buddy_idle : Client → Text → ℕ → Client
buddy_idle c who idletime =
    let sname = simplify_sn who in
    let now = not (ltb idletime 10) in
    elim (find_sn sname c.buddies) [
      | none ↦ c
      | some b ↦
          (let set = λ (x : Buddy). record x { idletime = idletime; idle = now } in
            let c' = record c { buddies = update sname set c.buddies } in
            let changed = if now then not b.idle else b.idle in
            if not changed
            then c'
            else if c.squelchidle
            then c'
            else show c' ((if now then now_idle who else no_longer_idle who) ∷ []))
    ]

-- `buddy_away` and `buddy_unaway`. The line is shown whether the buddy was found or not.
pub buddy_away : Client → Text → Client
buddy_away c who =
    let set = λ (x : Buddy). record x { away = true } in
    let c' = record c { buddies = update (simplify_sn who) set c.buddies } in
    if c.squelchaway then c' else show c' (is_away who ∷ [])

pub buddy_unaway : Client → Text → Client
buddy_unaway c who =
    let set = λ (x : Buddy). record x { away = false } in
    let c' = record c { buddies = update (simplify_sn who) set c.buddies } in
    if c.squelchaway then c' else show c' (no_longer_away who ∷ [])
