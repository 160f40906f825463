-- ===== src/Requests/Exact.antt =====
-- The sizes that the requests compute, against the fields that they add.
use bsflite_otr.Base.{
  drop-add, true, ltb, lt→ltb, take, ◌%◌, ◌^◌, length-take, ◌++◌, ◌∷◌, [], Run, fault, unfinished,
  drop, length-drop, none, choose, ◌+◌, ◌<◌, ◌≤◌, ◌-◌, ◌>>=◌, ℕ, ◌≡◌, refl, false, Option, some,
  List, length, done, arith, length-append, ap, ◌∙◌,
}
use bsflite_otr.Bytes.{Machine}
use bsflite_otr.Packet.{u16, u32, raw, add_field, Packet, Field, size_mod, add_fields, Ret}
use bsflite_otr.Packet.Write.{
  wire, at, add_fields-at, add_field_error, init-at, wire_all, filled, add_fields-init,
}
use bsflite_otr.Session.{Text, Handle, Env}
use bsflite_otr.Flap.{snac_send}
use bsflite_otr.Requests.{
  as_int, idstr, capabilities, length_of, build, request, location_size, location_fields,
  set_location_info, send_cli_update, ok_of,
}

-- A packet of the size of its fields holds them and nothing else.
pub build-exact :
    (env : Env) (size : ℕ) (fs : List Field)
    → size ≡ length (wire_all fs)
    → size < size_mod
    → build env size fs ≡ done (filled (wire_all fs))
unfolding build
build-exact env size fs e small = rw e (
    add_fields-init env.machine fs (env.fresh (length (wire_all fs))) env.calibrated
      (env.length-fresh _) (omega (arith, e, env.length-fresh (length (wire_all fs)))))

-- A request of the size of its fields sends them and nothing else.
pub request-exact :
    (env : Env) (h : Handle) (family subtype size : ℕ) (fs : List Field)
    → size ≡ length (wire_all fs)
    → size < size_mod
    → request env h family subtype size fs ≡ snac_send env h family subtype (wire_all fs) false
unfolding request
request-exact env h family subtype size fs e small = rw (build-exact env size fs e small) refl

length-cut : (a : Text) → length a < 2 ^ 16 → length (take (length a % 2 ^ 16) a) ≡ length a
length-cut a short = omega (arith, length-take (length a % 2 ^ 16) a)

as_int_small : (n : ℕ) → n < 2 ^ 31 → as_int n ≡ n
as_int_small n small =
    let low : n % 2 ^ 32 ≡ n = omega arith in
    let less : ltb (n % 2 ^ 32) (2 ^ 31) ≡ true =
      lt→ltb (n % 2 ^ 32) (2 ^ 31) (omega (arith, low)) in
    rw less low

-- The size of a packet that is small.
location_size_small :
    (profile_str away_msg : Option Text)
    → choose 0 (λ (p : Text). 8 + length idstr + length p) profile_str < 2 ^ 30
    → length_of away_msg < 2 ^ 16
    → location_size profile_str away_msg
      ≡ choose 0 (λ (p : Text). 8 + length idstr + length p) profile_str + length_of away_msg + 103
unfolding location_size
location_size_small profile_str away_msg small short =
    let n = choose 0 (λ (p : Text). 8 + length idstr + length p) profile_str in
    each n away_msg small short
  where
    each :
        (n : ℕ) (m : Option Text)
        → n < 2 ^ 30
        → length_of m < 2 ^ 16
        → (choose (as_int n) (λ (a : Text). as_int (as_int n + length a)) m + 103) % 2 ^ 64
          ≡ n + length_of m + 103
    each n none small short = omega (arith, as_int_small n (omega arith))
    each n (some a) small short =
        rw (as_int_small n (omega arith), as_int_small (n + length a) (omega arith)) (omega arith)

length-fields :
    (p : Text) (away_msg : Option Text)
    → length_of away_msg < 2 ^ 16
    → 8 + length idstr + length p + length_of away_msg + 103
      ≡ length (wire_all (location_fields (some p) away_msg))
unfolding location_fields
length-fields p none short =
    omega (arith, length-append p (wire_all (drop 6 (location_fields (some p) none))))
length-fields p (some a) short = omega (
  arith,
  length-cut a short,
  length-append p (wire_all (drop 6 (location_fields (some p) (some a)))),
  length-append (take (length a % 2 ^ 16) a)
      (wire_all (drop 12 (location_fields (some p) (some a)))),
)

length-location :
    (p : Text) (away_msg : Option Text)
    → 144 + length p + length_of away_msg < 2 ^ 16
    → location_size (some p) away_msg ≡ length (wire_all (location_fields (some p) away_msg))
length-location p away_msg small =
    location_size_small (some p) away_msg (omega arith) (omega arith)
    ∙ length-fields p away_msg (omega arith)

-- With a profile, and while profile and away message leave the body of the SNAC below 64 KiB: after the
-- update of the client's state, the user's information is handed over as one SNAC 02/04 whose body is
-- all its fields and nothing else.
pub set_location_info_lem :
    (env : Env) (h h' : Handle) (status : Ret) (p : Text)
    → send_cli_update env h ≡ done (status, h')
    → h'.profile_str ≡ some p
    → 144 + length p + length_of h'.away_msg < 2 ^ 16
    → set_location_info env h ≡ (
        snac_send env h' 0x02 0x04 (wire_all (location_fields (some p) h'.away_msg)) false >>= λ r.
        done (ok_of r))
unfolding set_location_info
set_location_info_lem env h h' status p updated profile small =
    let sent =
      request-exact env h' 0x02 0x04 (location_size (some p) h'.away_msg)
        (location_fields (some p) h'.away_msg) (length-location p h'.away_msg small)
        (omega (arith, location_size_small (some p) h'.away_msg (omega arith) (omega arith))) in
    let same =
      ap
        (λ (o : Option Text).
          request env h' 0x02 0x04 (location_size o h'.away_msg) (location_fields o h'.away_msg)
          >>= λ r. done (ok_of r))
        profile in
    ap
      (λ r. r >>= λ (s, g).
        request env g 0x02 0x04 (location_size g.profile_str g.away_msg)
          (location_fields g.profile_str g.away_msg)
        >>= λ r. done (ok_of r))
      updated
    ∙ same
    ∙ ap (λ r. r >>= λ r. done (ok_of r)) sent

add_fields-append :
    (m : Machine) (p : Packet) (fs gs : List Field)
    → add_fields m p (fs ++ gs) ≡ (add_fields m p fs >>= λ q. add_fields m q gs)
unfolding add_fields
add_fields-append m p [] gs = refl
add_fields-append m p (f ∷ fs) gs = go (λ q. add_fields-append m q fs gs) (add_field m p f)
  where
    go :
        ((q : Packet) → add_fields m q (fs ++ gs) ≡ (add_fields m q fs >>= λ q. add_fields m q gs))
        → (r : Run (Ret × Packet))
        → (r >>= λ (s, q). add_fields m q (fs ++ gs))
          ≡ ((r >>= λ (s, q). add_fields m q fs) >>= λ q. add_fields m q gs)
    go each (done (s, q)) = each q
    go each fault = refl
    go each unfinished = refl

-- A field that is refused is left out, and those behind it are not.
add_fields-refused :
    (env : Env) (size : ℕ) (before after : List Field) (f : Field)
    → size < size_mod
    → length (wire_all before) + length (wire_all after) ≤ size
    → size < length (wire_all before) + length (wire f)
    → build env size (before ++ (f ∷ after))
      ≡ done (
          at
            (wire_all before ++ wire_all after)
            (drop (length (wire_all before) + length (wire_all after)) (env.fresh size)))
unfolding build add_fields
add_fields-refused env size before after f small fits refused =
    let m = env.machine in
    let mem = env.fresh size in
    let len : length mem ≡ size = env.length-fresh size in
    let head = wire_all before in
    let rest = drop (length head) mem in
    let room = length-drop (length head) mem in
    let tail = wire_all after in
    rw (init-at mem size len) (
      add_fields-append m (at [] mem) before (f ∷ after)
      ∙ ap (λ r. r >>= λ q. add_fields m q (f ∷ after))
          (add_fields-at m before [] mem env.calibrated (omega (arith, len)) (omega (arith, len)))
      ∙ ap (λ r. r >>= λ (s, q). add_fields m q after)
          (add_field_error head rest (omega (arith, room, len)) m f env.calibrated
            (omega (arith, room, len)))
      ∙ add_fields-at m after head rest env.calibrated (omega (arith, room, len))
          (omega (arith, room, len)))
    ∙ ap (λ l. done (at (head ++ tail) l)) (drop-add (length head) (length tail) mem)

-- What is before and behind the capabilities, where there is no profile.
abbrev pub location_head : Option Text → List Field
location_head away_msg =
    u16 0x0001
    ∷ u16 (length idstr)
    ∷ raw idstr
    ∷ u16 0x0003
    ∷ u16 (length idstr)
    ∷ raw idstr
    ∷ u16 0x0004
    ∷ (choose (u16 0x0000 ∷ [])
          (λ (a : Text). u16 (length a) ∷ raw (take (length a % 2 ^ 16) a) ∷ []) away_msg
        ++ (u16 0x0005 ∷ u16 (length capabilities) ∷ []))

abbrev pub location_tail : List Field
location_tail = u16 0x0006 ∷ u16 0x0006 ∷ u16 0x0004 ∷ u32 0x00020002 ∷ []

length-head :
    (away_msg : Option Text)
    → length_of away_msg < 2 ^ 16
    → length (wire_all (location_head away_msg)) ≡ 82 + length_of away_msg
length-head none short = refl
length-head (some a) short = omega (
  arith,
  length-cut a short,
  length-append (take (length a % 2 ^ 16) a)
      (wire_all (u16 0x0005 ∷ u16 (length capabilities) ∷ [])),
)

location_fields-parts :
    (away_msg : Option Text)
    → location_fields none away_msg ≡ location_head away_msg ++ (raw capabilities ∷ location_tail)
unfolding location_fields
location_fields-parts none = refl
location_fields-parts (some a) = refl

-- Without a profile, the size of the user's information does not count the 37 bytes of the first
-- field: the capabilities are refused, the fields behind them take their place, and the last eleven
-- bytes of the packet are what the memory held.
pub location_short :
    (env : Env) (away_msg : Option Text)
    → length_of away_msg < 2 ^ 16
    → let size = location_size none away_msg in
      let junk = drop (size - 11) (env.fresh size) in
      (length junk ≡ 11)
      × (build env size (location_fields none away_msg)
          ≡ done (at (wire_all (location_head away_msg) ++ wire_all location_tail) junk))
location_short env away_msg short =
    let size = location_size none away_msg in
    let total = location_size_small none away_msg (omega arith) short in
    let len = length-head away_msg short in
    let before : length (wire_all (location_head away_msg)) + length (wire_all location_tail)
        ≡ size - 11 =
      omega (arith, len, total) in
    (
      omega (arith, length-drop (size - 11) (env.fresh size), env.length-fresh size, total),
      ap (λ fs. build env size fs) (location_fields-parts away_msg)
          ∙ add_fields-refused env size (location_head away_msg) location_tail (raw capabilities)
              (omega (arith, total)) (omega (arith, len, total)) (omega (arith, len, total))
          ∙ ap
              (λ n. done (
                at (wire_all (location_head away_msg) ++ wire_all location_tail)
                  (drop n (env.fresh size))))
              before,
    )
