-- ===== src/Dispatch/Stored.antt =====
-- The stored list as a server sends it, read item by item.
use bsflite_otr.Base.{
  Bool, ◌==◌, ◌&&◌, not, if◌then◌else◌, false, Bool-cases, inl, inr, drop, drop-append_more,
  append-nil, sym, lt→ltb, true, refl, length-append, arith, ◌>>=◌, ◌+◌, ap, ◌∙◌, ◌<◌, ◌%◌, ltb,
  ◌^◌, All, ℕ, ◌≡◌, Option, none, some, List, [], ◌∷◌, ◌++◌, length, done,
}
use bsflite_otr.Bytes.Big.{be16}
use bsflite_otr.Packet.{pkt_init_p}
use bsflite_otr.Packet.Write.{at, Fits, at_path}
use bsflite_otr.Packet.Read.{get8-at, get16-at, get_str-at, skip-at, init_p-at}
use bsflite_otr.Dispatch.{ssi_item, ssi_loop, ssi_get_list, keep_item, item_name}
use bsflite_otr.Session.{Text, Handle, Env, Saved}
use bsflite_otr.Names.{c_string, simplify_sn}
use bsflite_otr.Contacts.{is_saved, add_to_buddylist}
use bsflite_otr.Incoming.{left}
use bsflite_otr.Incoming.Frames.{IsText}

-- An item: a contact has the type 0, and groups and settings have others.
pub record Item : Type 0 where
  pub name : Text
  pub group_id : ℕ
  pub id : ℕ
  pub type : ℕ
  pub tlvs : List ℕ

abbrev IsItem : Item → Type 0
IsItem i =
    IsText i.name
    × (length i.name < 2 ^ 16)
    × (i.group_id < 2 ^ 16)
    × (i.id < 2 ^ 16)
    × (i.type < 2 ^ 16)
    × (length i.tlvs < 2 ^ 16)

abbrev pub u16_bytes : ℕ → List ℕ
u16_bytes v = be16 (v % 2 ^ 16)

-- The items on the wire, before what follows them.
abbrev item_bytes : Item → List ℕ → List ℕ
item_bytes i rest =
    u16_bytes (length i.name)
    ++ (i.name
        ++ (u16_bytes i.group_id
            ++ (u16_bytes i.id
                ++ (u16_bytes i.type ++ (u16_bytes (length i.tlvs) ++ (i.tlvs ++ rest))))))

abbrev pub items_bytes : List Item → List ℕ → List ℕ
items_bytes [] rest = rest
items_bytes (i ∷ is) rest = item_bytes i (items_bytes is rest)

next-Fits : (pre bs rest : List ℕ) → Fits pre (bs ++ rest) → Fits (pre ++ bs) rest
next-Fits pre bs rest f = omega (arith, length-append pre bs, length-append bs rest)

abbrev name_of : Text → Option Text
name_of [] = none
name_of (c ∷ s) = some (c ∷ s)

c_string-end : (s : Text) → IsText s → c_string (s ++ (0 ∷ [])) ≡ s
unfolding c_string
c_string-end [] v = refl
c_string-end (b ∷ s) (v, vs) = rw (v, c_string-end s vs)

abbrev pub is_named : Text → Bool
is_named [] = false
is_named (c ∷ s) = true

-- A list and behind it a contact, an item of type 0 with a name, unless the list has that name already.
abbrev pub with_contact : List Saved → Text → ℕ → ℕ → ℕ → List Saved
with_contact saved name group_id id type =
    if (type == 0) && (is_named name && not (is_saved (simplify_sn name) saved))
    then saved
      ++ (record { sn = simplify_sn name; formatted = name; ssi_id = id; group_id = group_id } ∷ [])
    else saved

abbrev pub with_contacts : List Saved → List Item → List Saved
with_contacts saved [] = saved
with_contacts saved (i ∷ is) = with_contacts (with_contact saved i.name i.group_id i.id i.type) is

module _ (env : Env) where
  -- What the items make of the stored list.
  store_items : Handle → List Item → Handle
  store_items h [] = h
  store_items h (i ∷ is) = store_items (keep_item env h (name_of i.name) i.group_id i.id i.type) is

  item_name-at :
      (name : Text) (pre rest : List ℕ)
      → IsText name
      → length name < 2 ^ 16
      → Fits pre (name ++ rest)
      → item_name env (at pre (name ++ rest)) (length name)
        ≡ done (name_of name, at (pre ++ name) rest)
  unfolding item_name
  item_name-at [] pre rest v short fits =
      ap (λ p. done (none, p)) (at_path (sym (append-nil pre)) refl)
  item_name-at (c ∷ s) pre rest v short fits =
      let more : ltb 0 (length (c ∷ s)) ≡ true = lt→ltb 0 (length (c ∷ s)) (omega arith) in
      rw
        (
          item_name,
          more,
          get_str-at pre (c ∷ s) rest fits (length (c ∷ s)) refl short,
          c_string-end (c ∷ s) v,
        )
        refl

  ssi_item-at :
      (h : Handle) (i : Item) (pre rest : List ℕ)
      → IsItem i
      → Fits pre (item_bytes i rest)
      → (pre' : List ℕ) × Fits pre' rest
        × (ssi_item env h (at pre (item_bytes i rest))
            ≡ done (keep_item env h (name_of i.name) i.group_id i.id i.type, at pre' rest))
  unfolding ssi_item
  ssi_item-at h i pre rest (v, short, group, id, type, tail) f0 =
      let m = env.machine in
      let r5 = i.tlvs ++ rest in
      let r4 = u16_bytes (length i.tlvs) ++ r5 in
      let r3 = u16_bytes i.type ++ r4 in
      let r2 = u16_bytes i.id ++ r3 in
      let r1 = u16_bytes i.group_id ++ r2 in
      let p1 = pre ++ u16_bytes (length i.name) in
      let f1 = next-Fits pre (u16_bytes (length i.name)) (i.name ++ r1) f0 in
      let p2 = p1 ++ i.name in
      let f2 = next-Fits p1 i.name r1 f1 in
      let p3 = p2 ++ u16_bytes i.group_id in
      let f3 = next-Fits p2 (u16_bytes i.group_id) r2 f2 in
      let p4 = p3 ++ u16_bytes i.id in
      let f4 = next-Fits p3 (u16_bytes i.id) r3 f3 in
      let p5 = p4 ++ u16_bytes i.type in
      let f5 = next-Fits p4 (u16_bytes i.type) r4 f4 in
      let p6 = p5 ++ u16_bytes (length i.tlvs) in
      let f6 = next-Fits p5 (u16_bytes (length i.tlvs)) r5 f5 in
      (
        p6 ++ i.tlvs,
        next-Fits p6 i.tlvs rest f6,
        rw
            (
              get16-at m env.calibrated (length i.name) pre (i.name ++ r1) short f0,
              item_name-at i.name p1 r1 v short f1,
              get16-at m env.calibrated i.group_id p2 r2 group f2,
              get16-at m env.calibrated i.id p3 r3 id f3,
              get16-at m env.calibrated i.type p4 r4 type f4,
              get16-at m env.calibrated (length i.tlvs) p5 r5 tail f5,
              skip-at p6 i.tlvs rest (length i.tlvs) refl f6,
            )
            refl,
      )

  ssi_loop-at :
      (is : List Item) (h : Handle) (pre rest : List ℕ)
      → All IsItem is
      → Fits pre (items_bytes is rest)
      → ssi_loop env (length is) h (at pre (items_bytes is rest)) ≡ done (store_items h is)
  unfolding ssi_loop store_items
  ssi_loop-at [] h pre rest vs fits = refl
  ssi_loop-at (i ∷ is) h pre rest (v, vs) fits =
      let (pre', fits', e) = ssi_item-at h i pre (items_bytes is rest) v fits in
      ap (λ r. r >>= λ (h', q). ssi_loop env (length is) h' q) e
      ∙ ssi_loop-at is (keep_item env h (name_of i.name) i.group_id i.id i.type) pre' rest vs fits'

  keep_item_lem :
      (h : Handle) (name : Text) (group_id id type : ℕ)
      → keep_item env h (name_of name) group_id id type
        ≡ record h { buddylist = with_contact h.buddylist name group_id id type }
  unfolding keep_item add_to_buddylist
  keep_item_lem h [] group_id id type = elim (Bool-cases (type == 0)) [
    | inl e ↦ rw e refl
    | inr e ↦ rw e refl
  ]
  keep_item_lem h (c ∷ s) group_id id type = elim (Bool-cases (type == 0)) [
    | inl e ↦ elim (Bool-cases (is_saved (simplify_sn (c ∷ s)) h.buddylist)) [
      | inl old ↦ rw (e, old) refl
      | inr new ↦ rw (e, new) refl
    ]
    | inr e ↦ rw e refl
  ]

  store_items_lem :
      (is : List Item) (h : Handle)
      → store_items h is ≡ record h { buddylist = with_contacts h.buddylist is }
  unfolding store_items
  store_items_lem [] h = refl
  store_items_lem (i ∷ is) h =
      store_items_lem is (keep_item env h (name_of i.name) i.group_id i.id i.type)
      ∙ ap (λ (g : Handle). record g { buddylist = with_contacts g.buddylist is })
          (keep_item_lem h i.name i.group_id i.id i.type)

  -- A stored list that is well formed, whatever follows its last item: every item is read whole, and
  -- exactly the contacts among them, those of type 0 that have a name, are put at the end of the list,
  -- in their order and with their numbers, each unless the list has its name already.
  pub ssi_get_list_lem :
      (h : Handle) (head : List ℕ) (version : ℕ) (is : List Item) (rest : List ℕ)
      → length head ≡ 10
      → All IsItem is
      → length is < 2 ^ 16
      → 13 + length (items_bytes is rest) < 2 ^ 16
      → ssi_get_list env h
          (head ++ (version ∷ (u16_bytes (length is) ++ items_bytes is rest)))
          (13 + length (items_bytes is rest))
        ≡ done (record h { buddylist = with_contacts h.buddylist is })
  unfolding ssi_get_list
  ssi_get_list_lem h head version is rest ten vs few small =
      let m = env.machine in
      let items = items_bytes is rest in
      let body = version ∷ (u16_bytes (length is) ++ items) in
      let size : left (13 + length items) 10 ≡ length body = omega arith in
      let start : pkt_init_p (drop 10 (head ++ body)) (left (13 + length items) 10) ≡ at [] body =
        (λ i. pkt_init_p (drop-append_more head body 0 10 (omega (arith, ten)) i) (size i))
        ∙ init_p-at body (omega arith) in
      rw
        (
          start,
          get8-at version [] (u16_bytes (length is) ++ items) (omega arith),
          get16-at m env.calibrated (length is) (version ∷ []) items few (omega arith),
        )
        (ssi_loop-at is h (version ∷ u16_bytes (length is)) rest vs (omega arith)
          ∙ ap (λ g. done g) (store_items_lem is h))
