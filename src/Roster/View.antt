-- ===== src/Roster/View.antt =====
-- The roster as a map from simplified names: what each operation does to every lookup.
use bsflite_otr.Base.{
  ◌==◌, ℕ, Bool, true, false, not, ◌&&◌, List, [], ◌∷◌, ◌++◌, Option, none, some, ◌≡◌, refl,
  if◌then◌else◌, arith,
}
use mathlib.Core.Option
use bsflite_otr.Session.{Text, Handle, Online, notify, on_idle, idle_info}
use bsflite_otr.Names.{text_eq, simplify_sn}
use bsflite_otr.Names.Laws.{text_eq_iff}
use bsflite_otr.Roster.{
  is_online, add_buddy, set_time, times_loop, update_buddy_times, remove_first, delete_buddy,
}

-- The first entry of a name.
unfoldable pub find : Text → List Online → Option Online
find k [] = none
find k (o ∷ os) = if text_eq k o.sn then some o else find k os

abbrev pub is_some : Option Online → Bool
is_some none = false
is_some (some o) = true

-- No two entries have one name, and every name is simplified.
unfoldable pub IsRoster : List Online → Type 0
IsRoster [] = Unit
IsRoster (o ∷ os) = (simplify_sn o.sn ≡ o.sn) × (find o.sn os ≡ none) × IsRoster os

pub is_online-find : (k : Text) (os : List Online) → is_online k os ≡ is_some (find k os)
unfolding is_online find
is_online-find k [] = refl
is_online-find k (o ∷ os) = ground (arith, is_online-find k os)

pub find-append :
    (k : Text) (os : List Online) (o : Online)
    → find k (os ++ (o ∷ []))
      ≡ (if is_some (find k os) then find k os else if text_eq k o.sn then some o else none)
unfolding find
find-append k [] o = refl
find-append k (x ∷ os) o = ground (arith, find-append k os o)

-- `imcomm_internal_add_buddy` returns 1 exactly for a name that is not online, and then that name,
-- and no other, has a new entry with the values given; else nothing changes.
add_buddy_lem :
    (h : Handle) (sn : Text) (idletime onlinetime : ℕ) (isaway : Bool) (k : Text)
    → let (added, h') = add_buddy h sn idletime onlinetime isaway in
      let entry : Online = record {
        sn = simplify_sn sn;
        idletime = idletime;
        onlinetime = onlinetime;
        isaway = isaway;
      } in
      (added ≡ not (is_some (find (simplify_sn sn) h.buddies_online)))
      × (find k h'.buddies_online
          ≡ (if added && text_eq k (simplify_sn sn) then some entry else find k h.buddies_online))
unfolding add_buddy
add_buddy_lem h sn idletime onlinetime isaway k = ground (
  arith,
  is_online-find (simplify_sn sn) h.buddies_online,
  find-append k h.buddies_online (record {
    sn = simplify_sn sn;
    idletime = idletime;
    onlinetime = onlinetime;
    isaway = isaway;
  }),
  text_eq_iff k (simplify_sn sn),
)

pub sn-set_time : (type value : ℕ) (o : Online) → (set_time type value o).sn ≡ o.sn
unfolding set_time
sn-set_time type value o = ground arith

pub times_loop-find :
    (h : Handle) (sname sn : Text) (type value : ℕ) (os : List Online) (k : Text)
    → find k (times_loop h sname sn type value os).1
      ≡ (if text_eq k sname then Option.map (set_time type value) (find k os) else find k os)
unfolding times_loop find
times_loop-find h sname sn type value [] k = ground arith
times_loop-find h sname sn type value (o ∷ os) k = ground (
  arith,
  text_eq_iff sname o.sn,
  text_eq_iff k o.sn,
  text_eq_iff k sname,
  sn-set_time type value o,
  times_loop-find
      (if text_eq sname o.sn && (type == 1) then notify h on_idle (idle_info sn value) else h) sname
      sn type value os k,
)

-- `imcomm_update_buddy_times` sets the one time that `type` names, in the first entry of the name,
-- and no other name's entry changes.
update_buddy_times_lem :
    (h : Handle) (sn : Text) (type value : ℕ) (k : Text)
    → find k (update_buddy_times h sn type value).buddies_online ≡ (
        if text_eq k (simplify_sn sn)
        then Option.map (set_time type value) (find k h.buddies_online)
        else find k h.buddies_online)
unfolding update_buddy_times
update_buddy_times_lem h sn type value k =
    times_loop-find h (simplify_sn sn) sn type value h.buddies_online k

pub remove_first-find :
    (sname : Text) (os : List Online) (k : Text)
    → IsRoster os
    → find k (remove_first sname os) ≡ (if text_eq k sname then none else find k os)
unfolding remove_first find IsRoster
remove_first-find sname [] k v = ground arith
remove_first-find sname (o ∷ os) k v = ground (
  arith,
  text_eq_iff sname o.sn,
  text_eq_iff k o.sn,
  text_eq_iff k sname,
  remove_first-find sname os k v.2,
)

-- On a roster `imcomm_internal_delete_buddy` takes the name off, and no other.
pub delete_buddy_lem :
    (h : Handle) (sn k : Text)
    → IsRoster h.buddies_online
    → find k (delete_buddy h sn).buddies_online
      ≡ (if text_eq k (simplify_sn sn) then none else find k h.buddies_online)
unfolding delete_buddy
delete_buddy_lem h sn k v = remove_first-find (simplify_sn sn) h.buddies_online k v

-- It changes nothing else.
pub delete_buddy_only :
    (h : Handle) (sn : Text)
    → delete_buddy h sn ≡ record h { buddies_online = (delete_buddy h sn).buddies_online }
unfolding delete_buddy
delete_buddy_only h sn = refl
