-- ===== src/Handles/Sweep.antt =====
-- What `remove_deleted_handles` does to the list of connections.
use bsflite_otr.Base.{
  ℕ, zero, suc, ◌≡◌, refl, ap, ◌∙◌, true, false, List, [], ◌∷◌, ◌++◌, map, Run, done, fault,
  unfinished, ◌>>=◌, if◌then◌else◌, All,
}
use bsflite_otr.Session.{Handle}
use bsflite_otr.Handles.{farewell, gone_first, kept_first, sweep, remove_deleted}

-- Handles that are to go, and handles that stay.
abbrev Marked : Handle → Type 0
Marked h = h.to_delete ≡ true

abbrev pub Staying : Handle → Type 0
Staying h = h.to_delete ≡ false

-- Two results in a row that only put handles before the ones that are gone.
abbrev before_gone : List Handle → List Handle × List Handle → Run (List Handle × List Handle)
before_gone hs (kept, gone) = done (kept, hs ++ gone)

before_none : (r : Run (List Handle × List Handle)) → r ≡ (r >>= before_gone [])
before_none (done r) = refl
before_none fault = refl
before_none unfinished = refl

before_more :
    (d : Handle) (hs : List Handle) (r : Run (List Handle × List Handle))
    → ((r >>= before_gone hs) >>= λ r. done (gone_first d r))
      ≡ (r >>= before_gone (farewell d ∷ hs))
before_more d hs (done r) = refl
before_more d hs fault = refl
before_more d hs unfinished = refl

remove_head :
    (fuel : ℕ) (d : Handle) (hs : List Handle)
    → Marked d
    → remove_deleted fuel (d ∷ hs) ≡ (remove_deleted fuel hs >>= λ r. done (gone_first d r))
unfolding remove_deleted
remove_head fuel d hs v =
    ap
      (λ b.
        if b then (remove_deleted fuel hs >>= λ r. done (gone_first d r)) else sweep fuel (d ∷ hs))
      v

remove_deleted-Staying :
    (fuel : ℕ) (h : Handle) (hs : List Handle)
    → Staying h
    → remove_deleted fuel (h ∷ hs) ≡ sweep fuel (h ∷ hs)
unfolding remove_deleted
remove_deleted-Staying fuel h hs v =
    ap
      (λ b.
        if b then (remove_deleted fuel hs >>= λ r. done (gone_first h r)) else sweep fuel (h ∷ hs))
      v

-- The marked handles at the head of the list go one by one, and what follows decides.
remove_deleted-Marked :
    (fuel : ℕ) (dead hs : List Handle)
    → All Marked dead
    → remove_deleted fuel (dead ++ hs)
      ≡ (remove_deleted fuel hs >>= before_gone (map farewell dead))
remove_deleted-Marked fuel [] hs all = before_none (remove_deleted fuel hs)
remove_deleted-Marked fuel (d ∷ dead) hs (v, vs) =
    remove_head fuel d (dead ++ hs) v
    ∙ ap (λ r. r >>= λ r. done (gone_first d r)) (remove_deleted-Marked fuel dead hs vs)
    ∙ before_more d (map farewell dead) (remove_deleted fuel hs)

-- With marked handles first and one handle that stays behind them, which is the list of a client
-- without children: exactly the marked ones go, each after it has told its client, in their order.
pub remove_deleted_lem :
    (fuel : ℕ) (dead : List Handle) (h : Handle)
    → All Marked dead
    → Staying h
    → remove_deleted (suc fuel) (dead ++ (h ∷ [])) ≡ done (h ∷ [], map farewell dead ++ [])
unfolding sweep
remove_deleted_lem fuel dead h vs v =
    remove_deleted-Marked (suc fuel) dead (h ∷ []) vs
    ∙ ap (λ r. r >>= before_gone (map farewell dead)) (remove_deleted-Staying (suc fuel) h [] v)

sweep-Staying :
    (fuel : ℕ) (a b : Handle) (hs : List Handle) → Staying b → sweep fuel (a ∷ b ∷ hs) ≡ unfinished
unfolding sweep
sweep-Staying zero a b hs v = refl
sweep-Staying (suc fuel) a b hs v =
    ap
      (λ c.
        if c
        then (sweep fuel hs >>= λ r. done (kept_first a (gone_first b r)))
        else sweep fuel (a ∷ b ∷ hs))
      v
    ∙ sweep-Staying fuel a b hs v

-- Two neighbours that stay: behind the marked handles at the head, the removal reaches the first of
-- them and does not end, however long it runs.
pub remove_deleted-never_ends :
    (fuel : ℕ) (dead : List Handle) (a b : Handle) (hs : List Handle)
    → All Marked dead
    → Staying a
    → Staying b
    → remove_deleted fuel (dead ++ (a ∷ b ∷ hs)) ≡ unfinished
remove_deleted-never_ends fuel dead a b hs vs va vb =
    remove_deleted-Marked fuel dead (a ∷ b ∷ hs) vs
    ∙ ap (λ r. r >>= before_gone (map farewell dead))
        (remove_deleted-Staying fuel a (b ∷ hs) va ∙ sweep-Staying fuel a b hs vb)

-- A marked handle at the end of the list, behind one that stays, such as a child whose upload is
-- over behind its parent: the removal reads the successor of a null pointer.
remove_deleted_null :
    (fuel : ℕ) (dead : List Handle) (a d : Handle)
    → All Marked dead
    → Staying a
    → Marked d
    → remove_deleted (suc (suc fuel)) (dead ++ (a ∷ d ∷ [])) ≡ fault
unfolding sweep
remove_deleted_null fuel dead a d vs va vd =
    remove_deleted-Marked (suc (suc fuel)) dead (a ∷ d ∷ []) vs
    ∙ ap (λ r. r >>= before_gone (map farewell dead))
        (remove_deleted-Staying (suc (suc fuel)) a (d ∷ []) va
          ∙ ap (λ c. if c then fault else sweep (suc fuel) (a ∷ d ∷ [])) vd)
