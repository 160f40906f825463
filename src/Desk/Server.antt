-- ===== src/Desk/Server.antt =====
-- What the server has been told of the user, from the calls so far.
use bsflite_otr.Base.{
  sym, subst, ◌++◌, ◌∷◌, [], List, ◌≡◌, refl, ◌∙◌, Bool, true, false, Option, none, some,
}
use bsflite_otr.Session.{Text}
use bsflite_otr.Desk.{Desk, Call, away, unaway, invisible, call, connected_again}

-- The away message and the visibility that the calls so far leave at the server. A new connection is
-- told nothing of either.
abbrev pub told_away : Option Text → List Call → Option Text
told_away m [] = m
told_away m (away s ∷ cs) = told_away (some s) cs
told_away m (unaway ∷ cs) = told_away none cs
told_away m (connected_again arg ∷ cs) = told_away none cs
told_away m (c ∷ cs) = told_away m cs

abbrev pub told_invisible : Option Bool → List Call → Option Bool
told_invisible b [] = b
told_invisible b (invisible b' ∷ cs) = told_invisible (some b') cs
told_invisible b (connected_again arg ∷ cs) = told_invisible none cs
told_invisible b (c ∷ cs) = told_invisible b cs

pub told_away-append :
    (m : Option Text) (cs ds : List Call) → told_away m (cs ++ ds) ≡ told_away (told_away m cs) ds
told_away-append m [] ds = refl
told_away-append m (away s ∷ cs) ds = told_away-append (some s) cs ds
told_away-append m (unaway ∷ cs) ds = told_away-append none cs ds
told_away-append m (connected_again arg ∷ cs) ds = told_away-append none cs ds
told_away-append m (c ∷ cs) ds = told_away-append m cs ds

told_invisible-append :
    (b : Option Bool) (cs ds : List Call)
    → told_invisible b (cs ++ ds) ≡ told_invisible (told_invisible b cs) ds
told_invisible-append b [] ds = refl
told_invisible-append b (invisible b' ∷ cs) ds = told_invisible-append (some b') cs ds
told_invisible-append b (connected_again arg ∷ cs) ds = told_invisible-append none cs ds
told_invisible-append b (c ∷ cs) ds = told_invisible-append b cs ds

abbrev pub is_some : Option Text → Bool
is_some none = false
is_some (some s) = true

-- What was told, if anything was, is so.
abbrev pub Agrees : Option Bool → Bool → Type 0
Agrees none b = Unit {0}
Agrees (some b') b = b' ≡ b

-- The flag `isaway` says whether there is an away message, the message is what the server was told
-- last, and so is the visibility, where a change of it was told to this connection or it is the first.
pub record IsTold (d : Desk) : Type 0 where
  pub flag : d.isaway ≡ is_some d.awaymsg
  pub message : told_away none d.calls ≡ d.awaymsg
  pub visibility : Agrees (told_invisible (some false) d.calls) d.isinvisible

-- Calls that tell the server nothing of this.
abbrev pub Silent : List Call → Type 0
Silent cs = ((m : Option Text) → told_away m cs ≡ m) × ((b : Option Bool) → told_invisible b cs ≡ b)

-- The visibility after some more calls.
pub Agrees-append :
    (old cs : List Call) (inv : Bool)
    → Agrees (told_invisible (told_invisible (some false) old) cs) inv
    → Agrees (told_invisible (some false) (old ++ cs)) inv
Agrees-append old cs inv v =
    subst (λ o. Agrees o inv) (sym (told_invisible-append (some false) old cs)) v

pub call-IsTold : (d : Desk) (cs : List Call) → Silent cs → IsTold d → IsTold (call d cs)
call-IsTold d cs (sa, si) v = record {
  flag = v.flag;
  message = told_away-append none d.calls cs ∙ sa (told_away none d.calls) ∙ v.message;
  visibility = Agrees-append d.calls cs d.isinvisible (
      subst (λ o. Agrees o d.isinvisible) (sym (si (told_invisible (some false) d.calls)))
        v.visibility);
}

pub went_away-IsTold :
    (d : Desk) (s : Text)
    → IsTold d
    → IsTold (call (record d { isaway = true; awaymsg = some s }) (away s ∷ []))
went_away-IsTold d s v = record {
  flag = refl;
  message = told_away-append none d.calls (away s ∷ []);
  visibility = Agrees-append d.calls (away s ∷ []) d.isinvisible v.visibility;
}

pub came_back-IsTold :
    (d : Desk)
    → IsTold d
    → IsTold (call (record d { isaway = false; awaymsg = none }) (unaway ∷ []))
came_back-IsTold d v = record {
  flag = refl;
  message = told_away-append none d.calls (unaway ∷ []);
  visibility = Agrees-append d.calls (unaway ∷ []) d.isinvisible v.visibility;
}
