-- ===== src/Incoming/Frames.antt =====
-- Well-formed SNACs as the handlers read them, and the message that is sent.
use bsflite_otr.Base.{
  ℕ, ◌%◌, ◌+◌, ◌^◌, ◌<◌, ◌==◌, ◌≡◌, refl, sym, ap, ◌∙◌, Bool, true, false, not, List, [], ◌∷◌, ◌++◌,
  length, drop, done, ◌>>=◌, arith, All, length-append, append_assoc, read_mem-middle,
  drop-append_more,
}
use bsflite_otr.Bytes.{Machine, Calibrated, two_to_16}
use bsflite_otr.Bytes.Big.{be16}
use bsflite_otr.Packet.{Field, u8, u16, u32, raw, size_mod, ok}
use bsflite_otr.Packet.Write.{wire_all, add_fields-init}
use bsflite_otr.Packet.Read.{load16-be16}
use bsflite_otr.Tlv.{Tlv}
use bsflite_otr.Tlv.RoundTrip.{encode_all, IsTlv, tlv_split-encode_all}
use bsflite_otr.Session.{Text, Handle, Env, notify, on_signoff, signoff}
use bsflite_otr.Names.{c_string}
use bsflite_otr.Roster.{delete_buddy}
use bsflite_otr.Flap.{snac_send}
use bsflite_otr.Incoming.{
  byte_at, name_at, left, get_signoff, signon_end, signon_loop, get_signon, message_fields,
  message_size, im_send_message,
}

abbrev pub IsText : Text → Type 0
IsText s = All (λ (b : ℕ). (b == 0) ≡ false) s

c_string-IsText : (s : Text) → IsText s → c_string s ≡ s
unfolding c_string
c_string-IsText [] v = refl
c_string-IsText (b ∷ s) (v, vs) = rw (v, c_string-IsText s vs)

pub byte_at-middle :
    (pre rest : List ℕ) (i b : ℕ) → i ≡ length pre → byte_at (pre ++ (b ∷ rest)) i ≡ done b
unfolding byte_at
byte_at-middle pre rest i b e = rw (drop-append_more pre (b ∷ rest) 0 i (omega arith)) refl

name_at-middle :
    (pre : List ℕ) (sn : Text) (rest : List ℕ) (i : ℕ)
    → IsText sn
    → i ≡ length pre
    → name_at (pre ++ (sn ++ rest)) i (length sn) ≡ done sn
unfolding name_at
name_at-middle pre sn rest i v e =
    rw (read_mem-middle pre sn rest i (length sn) e refl, c_string-IsText sn v)

-- A counted name behind a head.
head_assoc :
    (head : List ℕ) (n : ℕ) (sn rest : List ℕ)
    → head ++ (n ∷ (sn ++ rest)) ≡ (head ++ (n ∷ [])) ++ (sn ++ rest)
head_assoc head n sn rest = sym (append_assoc head (n ∷ []) (sn ++ rest))

-- A sign-off whose body is ten bytes, the counted name and whatever follows: the name leaves the
-- roster and the client is told.
get_signoff_lem :
    (h : Handle) (head : List ℕ) (sn : Text) (rest : List ℕ) (len : ℕ)
    → length head ≡ 10
    → IsText sn
    → get_signoff h (head ++ (length sn ∷ (sn ++ rest))) len
      ≡ done (ok, notify (delete_buddy h sn) on_signoff (signoff sn))
unfolding get_signoff
get_signoff_lem h head sn rest len e v =
    rw
      (
        byte_at-middle head (sn ++ rest) 10 (length sn) (sym e),
        head_assoc head (length sn) sn rest,
        name_at-middle (head ++ (length sn ∷ [])) sn rest 11 v
            (omega (arith, length-append head (length sn ∷ []))),
      )
      refl

-- The fields behind the name.
abbrev after_whom : Text → List Field → List Field
after_whom msg end =
    u16 0x0002
    ∷ u16 (length msg + 13)
    ∷ u32 0x05010001
    ∷ u8 0x01
    ∷ u16 0x0101
    ∷ u16 (length msg + 4)
    ∷ u32 0
    ∷ raw msg
    ∷ end

length-message :
    (whom msg : Text) (automsg : Bool)
    → message_size whom msg automsg ≡ length (wire_all (message_fields whom msg automsg))
length-message whom msg true = omega (
  arith,
  length-append whom (wire_all (after_whom msg (u16 0x0004 ∷ u16 0 ∷ []))),
  length-append msg (wire_all (u16 0x0004 ∷ u16 0 ∷ [])),
)
length-message whom msg false =
    omega (arith, length-append whom (wire_all (after_whom msg [])), length-append msg [])

-- While memory can hold it, an outgoing message is handed to `snac_send` with all its fields, and the
-- packet that holds them is exactly as long as they are.
pub im_send_message_lem :
    (env : Env) (h : Handle) (whom msg : Text) (automsg : Bool)
    → message_size whom msg automsg < size_mod
    → im_send_message env h whom msg automsg ≡ (
        snac_send env h 0x04 0x06 (wire_all (message_fields whom msg automsg)) (not automsg)
        >>= λ (status, h'). done h')
unfolding im_send_message
im_send_message_lem env h whom msg automsg small =
    let fs = message_fields whom msg automsg in
    let len : message_size whom msg automsg ≡ length (wire_all fs) =
      length-message whom msg automsg in
    rw len (
      rw
        (add_fields-init env.machine fs (env.fresh (length (wire_all fs))) env.calibrated
          (env.length-fresh _) (omega (arith, len, env.length-fresh (length (wire_all fs)))))
        refl)

-- A sign-on: ten bytes, the counted name, the warning level, the number of TLVs and the TLVs.
abbrev pub signon_body : List ℕ → Text → ℕ → ℕ → ℕ → List ℕ → List ℕ
signon_body head sn warn_high warn_low numtlv tlvs =
    head ++ (length sn ∷ (sn ++ (warn_high ∷ warn_low ∷ (be16 (numtlv % 2 ^ 16) ++ tlvs))))

behind_name :
    (head : List ℕ) (sn rest : List ℕ) (k n : ℕ)
    → length head ≡ 10
    → n ≡ 11 + length sn + k
    → drop n (head ++ (length sn ∷ (sn ++ rest))) ≡ drop k rest
behind_name head sn rest k n e en =
    let pre = head ++ (length sn ∷ []) in
    ap (λ (l : List ℕ). drop n l)
      (head_assoc head (length sn) sn rest ∙ sym (append_assoc pre sn rest))
    ∙ drop-append_more (pre ++ sn) rest k n
        (omega (arith, length-append pre sn, length-append head (length sn ∷ [])))

pub two_to_16-be16 :
    (m : Machine) (v : ℕ) (rest : List ℕ)
    → Calibrated m
    → v < 2 ^ 16
    → two_to_16 m (be16 (v % 2 ^ 16) ++ rest) ≡ done v
unfolding two_to_16
two_to_16-be16 m v rest cal h = load16-be16 m cal v h

-- A sign-on that is well formed, whatever follows it in memory: its TLVs are worked off in their
-- order for the name that it carries, and the handler reports success.
pub get_signon_lem :
    (m : Machine) (h : Handle) (head : List ℕ) (sn : Text) (warn_high warn_low numtlv : ℕ)
    (ts : List Tlv) (more : List ℕ)
    → Calibrated m
    → length head ≡ 10
    → IsText sn
    → numtlv < 2 ^ 16
    → All IsTlv ts
    → length (encode_all ts) < 2 ^ 16
    → length sn < 256
    → get_signon m h
        (signon_body head sn warn_high warn_low numtlv (encode_all ts ++ more))
        (15 + length sn + length (encode_all ts))
      ≡ (signon_loop m h sn (record { idletime = 0; onlinetime = 0; isaway = false }) ts >>= λ r.
          done (ok, signon_end sn r))
unfolding get_signon
get_signon_lem m h head sn warn_high warn_low numtlv ts more cal e v small vs short name_short =
    let tail = warn_high ∷ warn_low ∷ (be16 (numtlv % 2 ^ 16) ++ (encode_all ts ++ more)) in
    let mem = head ++ (length sn ∷ (sn ++ tail)) in
    let len : left (15 + length sn + length (encode_all ts)) (11 + length sn + 4)
        ≡ length (encode_all ts) =
      omega arith in
    let count : two_to_16 m (drop 2 tail) ≡ done numtlv =
      two_to_16-be16 m numtlv (encode_all ts ++ more) cal small in
    let name : name_at mem 11 (length sn) ≡ done sn = rw (head_assoc head (length sn) sn tail) (
      name_at-middle (head ++ (length sn ∷ [])) sn tail 11 v
        (omega (arith, length-append head (length sn ∷ [])))) in
    rw
      (
        byte_at-middle head (sn ++ tail) 10 (length sn) (sym e),
        behind_name head sn tail 2 (13 + length sn) e (omega arith),
        count,
        name,
        behind_name head sn tail 4 (11 + length sn + 4) e (omega arith),
        len,
        tlv_split-encode_all m cal ts more numtlv vs short,
      )
      refl
