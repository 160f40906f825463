-- ===== src/Dispatch/Families.antt =====
-- The lists of numbers that a server sends, as the handlers read and answer them.
use bsflite_otr.Base.{
  suc, sym, append_assoc, drop, drop-append_more, ◌*◌, ◌∙◌, ◌%◌, ℕ, zero, ◌+◌, ◌^◌, ◌<◌, ◌≡◌, refl,
  ap, true, false, List, [], ◌∷◌, ◌++◌, length, All, done, ◌>>=◌, arith, le→leb, gt→leb,
  length-append, if◌then◌else◌, ◌/◌,
}
use bsflite_otr.Packet.{ok, Packet, pkt_end, pkt_init_p, size_mod, u16}
use bsflite_otr.Packet.Write.{at, wire, wire_all}
use bsflite_otr.Packet.Read.{get16-at, init_p-at}
use bsflite_otr.Bytes.{two_to_16}
use bsflite_otr.Bytes.Big.{be16}
use bsflite_otr.Flap.{snac_send}
use bsflite_otr.Incoming.Frames.{two_to_16-be16}
use bsflite_otr.Requests.{request, map_u16}
use bsflite_otr.Requests.Exact.{request-exact}
use bsflite_otr.Dispatch.{
  class_ids, then_multireq, ack_limits, families_loop, get_srv_families, error,
}
use bsflite_otr.Session.{Handle, Env}

abbrev pub IsU16 : ℕ → Type 0
IsU16 v = v < 2 ^ 16

length-map_u16 : (vs : List ℕ) → length (wire_all (map_u16 vs)) ≡ 2 * length vs
length-map_u16 [] = refl
length-map_u16 (v ∷ vs) = omega (arith, length-map_u16 vs)

pkt_end-more : (pre rest : List ℕ) (b : ℕ) → pkt_end (at pre (b ∷ rest)) ≡ false
unfolding pkt_end
pkt_end-more pre rest b = gt→leb _ _ (omega arith)

pkt_end-none : (pre : List ℕ) → pkt_end (at pre []) ≡ true
unfolding pkt_end
pkt_end-none pre = le→leb _ _ (omega arith)

module _ (env : Env) where
  families_loop-at :
      (fuel : ℕ) (pre vs : List ℕ)
      → length vs < fuel
      → All IsU16 vs
      → length pre + 2 * length vs < size_mod
      → families_loop env fuel (at pre (wire_all (map_u16 vs))) ≡ done vs
  unfolding families_loop
  families_loop-at zero pre vs enough us small = absurd (omega arith)
  families_loop-at (suc fuel) pre [] enough us small = rw (families_loop, pkt_end-none pre) refl
  families_loop-at (suc fuel) pre (v ∷ vs) enough (u, us) small =
      let tail = wire_all (map_u16 vs) in
      let get =
        get16-at env.machine env.calibrated v pre tail u (omega (arith, length-map_u16 vs)) in
      let rest =
        families_loop-at fuel (pre ++ wire (u16 v)) vs (omega arith) us
          (omega (arith, length-append pre (wire (u16 v)))) in
      rw (families_loop, pkt_end-more pre _ (v % 2 ^ 16 / 256), get, rest) refl

  -- The families that a server supports are stored in their order, with their number.
  get_srv_families_lem :
      (h : Handle) (v : ℕ) (vs : List ℕ)
      → All IsU16 (v ∷ vs)
      → 2 * length (v ∷ vs) < 2 ^ 16
      → get_srv_families env h (wire_all (map_u16 (v ∷ vs))) (2 * length (v ∷ vs))
        ≡ done (ok, record h { families = v ∷ vs; num_families = length (v ∷ vs) })
  unfolding get_srv_families
  get_srv_families_lem h v vs us small =
      let bytes = wire_all (map_u16 (v ∷ vs)) in
      let len = length-map_u16 (v ∷ vs) in
      let start : pkt_init_p bytes (2 * length (v ∷ vs)) ≡ at [] bytes =
        ap (pkt_init_p bytes) (sym len) ∙ init_p-at bytes (omega (arith, len)) in
      let all =
        families_loop-at (suc (0 + length bytes)) [] (v ∷ vs) (omega (arith, len)) us
          (omega arith) in
      ap
        (λ (p : Packet). families_loop env (suc p.len) p >>= λ families. done (
          if pkt_end p
          then (error, h)
          else (ok, record h { families = families; num_families = length families })))
        start
      ∙ rw (all, pkt_end-more [] (v % 2 ^ 16 % 256 ∷ wire_all (map_u16 vs)) (v % 2 ^ 16 / 256)) refl

-- The rate classes of a server: the number of each, and 33 bytes that are not looked at.
abbrev IsClass : ℕ × List ℕ → Type 0
IsClass c = (c.0 < 2 ^ 16) × (length c.1 ≡ 33)

abbrev pub class_bytes : List (ℕ × List ℕ) → List ℕ
class_bytes [] = []
class_bytes ((id, limits) ∷ cs) = be16 (id % 2 ^ 16) ++ (limits ++ class_bytes cs)

abbrev pub ids_of : List (ℕ × List ℕ) → List ℕ
ids_of [] = []
ids_of ((id, limits) ∷ cs) = id ∷ ids_of cs

length-ids_of : (cs : List (ℕ × List ℕ)) → length (ids_of cs) ≡ length cs
length-ids_of [] = refl
length-ids_of ((id, limits) ∷ cs) = ap suc (length-ids_of cs)

module _ (env : Env) where
  class_ids-at :
      (cs : List (ℕ × List ℕ)) (pre rest : List ℕ) (x : ℕ)
      → All IsClass cs
      → x ≡ length pre
      → length pre + 35 * length cs < 2 ^ 16
      → class_ids env (pre ++ (class_bytes cs ++ rest)) x (length cs) ≡ done (ids_of cs)
  unfolding class_ids
  class_ids-at [] pre rest x vs e small = refl
  class_ids-at ((id, limits) ∷ cs) pre rest x ((v, len), vs) e small =
      let this = be16 (id % 2 ^ 16) in
      let tail = class_bytes cs ++ rest in
      let mem = pre ++ (class_bytes ((id, limits) ∷ cs) ++ rest) in
      let split : mem ≡ pre ++ (this ++ (limits ++ tail)) =
        ap (λ l. pre ++ (this ++ l)) (append_assoc limits (class_bytes cs) rest) in
      let regroup : pre ++ (this ++ (limits ++ tail)) ≡ (pre ++ (this ++ limits)) ++ tail =
        ap (λ l. pre ++ l) (sym (append_assoc this limits tail))
        ∙ sym (append_assoc pre (this ++ limits) tail) in
      let read : two_to_16 env.machine (drop x mem) ≡ done id =
        ap (λ m. two_to_16 env.machine (drop x m)) split
        ∙ ap (two_to_16 env.machine)
            (drop-append_more pre (this ++ (limits ++ tail)) 0 x (omega (arith, e)))
        ∙ two_to_16-be16 env.machine id (limits ++ tail) env.calibrated v in
      let all = length-append pre (this ++ limits) in
      let more : class_ids env mem ((x + 35) % 2 ^ 16) (length cs) ≡ done (ids_of cs) =
        ap (λ m. class_ids env m ((x + 35) % 2 ^ 16) (length cs)) (split ∙ regroup)
        ∙ class_ids-at cs (pre ++ (this ++ limits)) rest ((x + 35) % 2 ^ 16) vs
            (omega (arith, e, all, len)) (omega (arith, all, len)) in
      ap
        (λ r.
          r >>= λ id. class_ids env mem ((x + 35) % 2 ^ 16) (length cs) >>= λ ids. done (id ∷ ids))
        read
      ∙ ap (λ r. r >>= λ ids. done (id ∷ ids)) more

  -- The rate classes that a server announces, as many as a 16-bit position reaches: the numbers of
  -- all of them go back in their order, and the requests that follow are made where that succeeds.
  pub ack_limits_lem :
      (h : Handle) (cs : List (ℕ × List ℕ)) (rest : List ℕ)
      → All IsClass cs
      → 2 + 35 * length cs < 2 ^ 16
      → ack_limits env h (be16 (length cs % 2 ^ 16) ++ (class_bytes cs ++ rest))
        ≡ (snac_send env h 0x01 0x08 (wire_all (map_u16 (ids_of cs))) false >>= then_multireq env)
  unfolding ack_limits
  ack_limits_lem h cs rest vs small =
      let n = length cs in
      let head = be16 (n % 2 ^ 16) in
      let mem = head ++ (class_bytes cs ++ rest) in
      let count =
        two_to_16-be16 env.machine n (class_bytes cs ++ rest) env.calibrated (omega arith) in
      let ids = class_ids-at cs head rest 2 vs refl small in
      let len : n * 2 ≡ length (wire_all (map_u16 (ids_of cs))) =
        omega (arith, length-map_u16 (ids_of cs), length-ids_of cs) in
      let sent = request-exact env h 0x01 0x08 (n * 2) (map_u16 (ids_of cs)) len (omega arith) in
      ap
        (λ r. r >>= λ n. class_ids env mem 2 n >>= λ ids.
          request env h 0x01 0x08 (n * 2) (map_u16 ids) >>= then_multireq env)
        count
      ∙ ap (λ r. r >>= λ ids. request env h 0x01 0x08 (n * 2) (map_u16 ids) >>= then_multireq env)
          ids
      ∙ ap (λ r. r >>= then_multireq env) sent
