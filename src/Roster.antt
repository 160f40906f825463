-- ===== src/Roster.antt =====
-- The buddies that are online, as imcomm/imcomm.c keeps them in `buddies_online`.
pub mod View
pub mod Keep
pub mod Away
use bsflite_otr.Base.{ℕ, Bool, true, false, not, ◌&&◌, List, [], ◌∷◌, ◌++◌, ◌==◌, if◌then◌else◌}
use bsflite_otr.Session.{
  Text, Handle, Online, notify, on_idle, on_away, on_unaway, idle_info, away, unaway,
}
use bsflite_otr.Names.{text_eq, simplify_sn}

-- `for (trav = list; trav != NULL; trav = trav->next) if (strcmp(sname, trav->sn) == 0)`
pub is_online : Text → List Online → Bool
is_online sname [] = false
is_online sname (o ∷ os) = if text_eq sname o.sn then true else is_online sname os

-- `imcomm_internal_add_buddy`: true is its result 1, a buddy that was not there.
pub add_buddy : Handle → Text → ℕ → ℕ → Bool → Bool × Handle
add_buddy h sn idletime onlinetime isaway =
    let sname = simplify_sn sn in
    let entry : Online = record {
      sn = sname;
      idletime = idletime;
      onlinetime = onlinetime;
      isaway = isaway;
    } in
    if is_online sname h.buddies_online
    then (false, h)
    else (true, record h { buddies_online = h.buddies_online ++ (entry ∷ []) })

-- The `switch (type)` of `imcomm_update_buddy_times`, on an entry of the right name.
pub set_time : ℕ → ℕ → Online → Online
set_time type value o =
    if type == 1
    then record o { idletime = value }
    else if type == 2
    then record o { onlinetime = value }
    else o

-- Its loop does not stop at the first entry of the name.
pub times_loop : Handle → Text → Text → ℕ → ℕ → List Online → Handle × List Online
times_loop h sname sn type value [] = (h, [])
times_loop h sname sn type value (o ∷ os) =
    let found = text_eq sname o.sn in
    let (h', os') =
      times_loop (if found && (type == 1) then notify h on_idle (idle_info sn value) else h) sname
        sn type value os in
    (h', (if found then set_time type value o else o) ∷ os')

-- `imcomm_update_buddy_times`
pub update_buddy_times : Handle → Text → ℕ → ℕ → Handle
unfolding set_time times_loop
update_buddy_times h sn type value =
    let (h', os) = times_loop h (simplify_sn sn) sn type value h.buddies_online in
    record h' { buddies_online = os }

-- The loop of `imcomm_update_buddy_away`: it stops at the first entry that changes.
pub away_loop : Handle → Text → Text → Bool → List Online → Handle × List Online
away_loop h sname sn isaway [] = (h, [])
away_loop h sname sn isaway (o ∷ os) =
    let (h', os') = away_loop h sname sn isaway os in
    if text_eq sname o.sn && isaway && not o.isaway
    then (notify h on_away (away sn), record o { isaway = true } ∷ os)
    else if text_eq sname o.sn && not isaway && o.isaway
    then (notify h on_unaway (unaway sn), record o { isaway = false } ∷ os)
    else (h', o ∷ os')

-- `imcomm_update_buddy_away`
pub update_buddy_away : Handle → Text → Bool → Handle
unfolding away_loop
update_buddy_away h sn isaway =
    let (h', os) = away_loop h (simplify_sn sn) sn isaway h.buddies_online in
    record h' { buddies_online = os }

pub remove_first : Text → List Online → List Online
remove_first sname [] = []
remove_first sname (o ∷ os) = if text_eq sname o.sn then os else o ∷ remove_first sname os

-- `imcomm_internal_delete_buddy`: the first entry of the name is unlinked.
pub delete_buddy : Handle → Text → Handle
unfolding remove_first
delete_buddy h sn = record h { buddies_online = remove_first (simplify_sn sn) h.buddies_online }
