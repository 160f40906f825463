-- ===== src/Roster/Away.antt =====
-- `imcomm_update_buddy_away`: the flag, and the callback that is made exactly when it changes.
use bsflite_otr.Base.{
  Bool, true, false, List, [], ◌∷◌, Option, none, some, ◌≡◌, refl, if◌then◌else◌, ◌&&◌, arith, not,
  ap, Bool-cases, inl, inr, ◌∙◌,
}
use mathlib.Core.Option
use bsflite_otr.Session.{Text, Handle, Online, notify, on_away, on_unaway, away, unaway}
use bsflite_otr.Names.{text_eq, simplify_sn}
use bsflite_otr.Names.Laws.{text_eq→eq, text_eq_iff}
use bsflite_otr.Roster.{away_loop, update_buddy_away}
use bsflite_otr.Roster.View.{find, IsRoster}

abbrev set_away : Bool → Online → Online
set_away b o = record o { isaway = b }

away_loop-find :
    (h : Handle) (sname sn : Text) (b : Bool) (os : List Online) (k : Text)
    → find k (away_loop h sname sn b os).1
      ≡ (if text_eq k sname then Option.map (set_away b) (find k os) else find k os)
unfolding away_loop find
away_loop-find h sname sn b [] k = ground arith
away_loop-find h sname sn b (o ∷ os) k = ground (
  arith,
  text_eq_iff sname o.sn,
  text_eq_iff k o.sn,
  text_eq_iff k sname,
  away_loop-find h sname sn b os k,
)

-- The callback for a change from `o.isaway` to `b`.
abbrev pub announce : Handle → Text → Bool → Option Online → Handle
announce h sn b none = h
announce h sn b (some o) =
    if b && not o.isaway
    then notify h on_away (away sn)
    else if not b && o.isaway
    then notify h on_unaway (unaway sn)
    else h

away_loop_absent :
    (h : Handle) (sname sn : Text) (b : Bool) (os : List Online)
    → find sname os ≡ none
    → (away_loop h sname sn b os).0 ≡ h
unfolding away_loop find
away_loop_absent h sname sn b [] f = refl
away_loop_absent h sname sn b (o ∷ os) f = ground (arith, away_loop_absent h sname sn b os)

-- An entry of another name is passed over, and one of the name is announced.
away_loop_skip :
    (h : Handle) (sname sn : Text) (b : Bool) (o : Online) (os : List Online)
    → text_eq sname o.sn ≡ false
    → (away_loop h sname sn b (o ∷ os)).0 ≡ (away_loop h sname sn b os).0
unfolding away_loop
away_loop_skip h sname sn b o os other = rw other

away_loop_hit :
    (h : Handle) (sname sn : Text) (b : Bool) (o : Online) (os : List Online)
    → text_eq sname o.sn ≡ true
    → (away_loop h sname sn b os).0 ≡ h
    → (away_loop h sname sn b (o ∷ os)).0 ≡ announce h sn b (some o)
unfolding away_loop
away_loop_hit h sname sn true o os same rest = elim (Bool-cases o.isaway) [
  | inl e ↦ rw (same, e) rest
  | inr e ↦ rw (same, e)
]
away_loop_hit h sname sn false o os same rest = elim (Bool-cases o.isaway) [
  | inl e ↦ rw (same, e)
  | inr e ↦ rw (same, e) rest
]

away_loop-announce :
    (h : Handle) (sname sn : Text) (b : Bool) (os : List Online)
    → IsRoster os
    → (away_loop h sname sn b os).0 ≡ announce h sn b (find sname os)
unfolding find IsRoster
away_loop-announce h sname sn b [] v = unfold away_loop in refl
away_loop-announce h sname sn b (o ∷ os) (s, f, v) = elim (Bool-cases (text_eq sname o.sn)) [
  | inl same ↦
      let name = text_eq→eq sname o.sn same in
      rw same (away_loop_hit h sname sn b o os same (away_loop_absent h sname sn b os (rw name f)))
  | inr other ↦
      rw other (away_loop_skip h sname sn b o os other ∙ away_loop-announce h sname sn b os v)
]

-- On a roster `imcomm_update_buddy_away` sets the flag of the name and of no other, and makes the
-- one callback that tells of the change exactly where the name is online and its flag was different.
update_buddy_away_lem :
    (h : Handle) (sn k : Text) (b : Bool)
    → IsRoster h.buddies_online
    → let h' = update_buddy_away h sn b in
      let old = find (simplify_sn sn) h.buddies_online in
      (find k h'.buddies_online ≡ (
        if text_eq k (simplify_sn sn)
        then Option.map (set_away b) (find k h.buddies_online)
        else find k h.buddies_online))
      × (h'.trace ≡ (announce h sn b old).trace)
unfolding update_buddy_away
update_buddy_away_lem h sn k b v = (
  away_loop-find h (simplify_sn sn) sn b h.buddies_online k,
  ap (λ (g : Handle). g.trace) (away_loop-announce h (simplify_sn sn) sn b h.buddies_online v),
)

away_loop-IsRoster :
    (h : Handle) (sname sn : Text) (b : Bool) (os : List Online)
    → IsRoster os
    → IsRoster (away_loop h sname sn b os).1
unfolding away_loop IsRoster
away_loop-IsRoster h sname sn b [] v = tt
away_loop-IsRoster h sname sn b (o ∷ os) (s, f, v) =
    ground (arith, away_loop-find h sname sn b os o.sn, away_loop-IsRoster h sname sn b os v)

-- `imcomm_update_buddy_away` keeps the roster.
pub update_buddy_away-IsRoster :
    (h : Handle) (sn : Text) (b : Bool)
    → IsRoster h.buddies_online
    → IsRoster (update_buddy_away h sn b).buddies_online
unfolding update_buddy_away
update_buddy_away-IsRoster h sn b v = away_loop-IsRoster h (simplify_sn sn) sn b h.buddies_online v
