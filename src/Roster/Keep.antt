-- ===== src/Roster/Keep.antt =====
-- Every operation keeps the roster: one entry a name, and every name simplified.
use bsflite_otr.Base.{
  ℕ, Bool, List, [], ◌∷◌, ◌++◌, none, ◌≡◌, refl, if◌then◌else◌, ◌&&◌, ◌==◌, arith,
}
use bsflite_otr.Session.{Text, Handle, Online, notify, on_idle, idle_info}
use bsflite_otr.Names.{text_eq, simplify_sn}
use bsflite_otr.Names.Laws.{text_eq_iff, simplify_sn_idem}
use bsflite_otr.Roster.{add_buddy, times_loop, update_buddy_times, remove_first, delete_buddy}
use bsflite_otr.Roster.View.{
  find, IsRoster, is_online-find, find-append, sn-set_time, times_loop-find, remove_first-find,
}

append-IsRoster :
    (os : List Online) (o : Online)
    → IsRoster os
    → simplify_sn o.sn ≡ o.sn
    → find o.sn os ≡ none
    → IsRoster (os ++ (o ∷ []))
unfolding IsRoster find
append-IsRoster [] o v s f = (s, refl, tt)
append-IsRoster (x ∷ os) o (xs, xf, v) s f = ground (
  arith,
  append-IsRoster os o v s,
  find-append x.sn os o,
  text_eq_iff x.sn o.sn,
  text_eq_iff o.sn x.sn,
)

-- `imcomm_internal_add_buddy` keeps the roster, whatever the spelling of the name.
pub add_buddy-IsRoster :
    (h : Handle) (sn : Text) (idletime onlinetime : ℕ) (isaway : Bool)
    → IsRoster h.buddies_online
    → IsRoster (add_buddy h sn idletime onlinetime isaway).1.buddies_online
unfolding add_buddy
add_buddy-IsRoster h sn idletime onlinetime isaway v =
    let entry : Online = record {
      sn = simplify_sn sn;
      idletime = idletime;
      onlinetime = onlinetime;
      isaway = isaway;
    } in
    ground (
      arith,
      is_online-find (simplify_sn sn) h.buddies_online,
      simplify_sn_idem sn,
      append-IsRoster h.buddies_online entry v,
    )

times_loop-IsRoster :
    (h : Handle) (sname sn : Text) (type value : ℕ) (os : List Online)
    → IsRoster os
    → IsRoster (times_loop h sname sn type value os).1
unfolding times_loop IsRoster
times_loop-IsRoster h sname sn type value [] v = tt
times_loop-IsRoster h sname sn type value (o ∷ os) (s, f, v) =
    let h' =
      if text_eq sname o.sn && (type == 1) then notify h on_idle (idle_info sn value) else h in
    ground (
      arith,
      sn-set_time type value o,
      times_loop-find h' sname sn type value os o.sn,
      times_loop-IsRoster h' sname sn type value os v,
    )

-- `imcomm_update_buddy_times` keeps the roster.
pub update_buddy_times-IsRoster :
    (h : Handle) (sn : Text) (type value : ℕ)
    → IsRoster h.buddies_online
    → IsRoster (update_buddy_times h sn type value).buddies_online
unfolding update_buddy_times
update_buddy_times-IsRoster h sn type value v =
    times_loop-IsRoster h (simplify_sn sn) sn type value h.buddies_online v

remove_first-IsRoster :
    (sname : Text) (os : List Online) → IsRoster os → IsRoster (remove_first sname os)
unfolding remove_first IsRoster
remove_first-IsRoster sname [] v = tt
remove_first-IsRoster sname (o ∷ os) (s, f, v) =
    ground (arith, remove_first-find sname os o.sn v, remove_first-IsRoster sname os v)

-- `imcomm_internal_delete_buddy` keeps the roster.
pub delete_buddy-IsRoster :
    (h : Handle) (sn : Text)
    → IsRoster h.buddies_online
    → IsRoster (delete_buddy h sn).buddies_online
unfolding delete_buddy
delete_buddy-IsRoster h sn v = remove_first-IsRoster (simplify_sn sn) h.buddies_online v
