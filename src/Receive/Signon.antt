-- ===== src/Receive/Signon.antt =====
-- A user signs on: the frame, the SNAC and its handler.
use bsflite_otr.Base.{
  ◌%◌, ◌^◌, done, Run, fault, unfinished, ◌>>=◌, ◌++◌, ◌∷◌, [], List, ℕ, ◌+◌, ◌<◌, ◌≡◌, refl, sym,
  ap, ◌∙◌, Bool, false, length, drop, All, leb, if◌then◌else◌, arith, gt→leb, length-append,
  append-nil,
}
use bsflite_otr.Bytes.Big.{be16}
use bsflite_otr.Packet.{Ret, ok}
use bsflite_otr.Session.{Text, Handle, Env}
use bsflite_otr.Tlv.{Tlv}
use bsflite_otr.Tlv.RoundTrip.{encode_all, IsTlv}
use bsflite_otr.Incoming.{get_signon, signon_loop, signon_end, byte_at, Gathered}
use bsflite_otr.Incoming.Frames.{
  IsText, signon_body, two_to_16-be16, byte_at-middle, get_signon_lem,
}
use bsflite_otr.Dispatch.{Answer, plain}
use bsflite_otr.Dispatch.Decode.{snac_decode, decode_own, decode_buddies}
use bsflite_otr.Receive.{flap_decode}
use bsflite_otr.Receive.Frame.{header, length_of-header}

-- A SNAC 03/0B.
abbrev pub signon_snac : ℕ → List ℕ → Text → ℕ → ℕ → ℕ → List Tlv → List ℕ
signon_snac flags request sn warn_high warn_low numtlv ts =
    signon_body (0x00 ∷ 0x03 ∷ 0x00 ∷ 0x0B ∷ (be16 (flags % 2 ^ 16) ++ request)) sn warn_high
      warn_low numtlv (encode_all ts)

-- What the handler makes of the TLVs of the name.
abbrev pub signed_on : Env → Handle → Text → List Tlv → Run Answer
signed_on env h sn ts =
    signon_loop env.machine h sn (record { idletime = 0; onlinetime = 0; isaway = false }) ts
    >>= λ r. done (plain (ok, signon_end sn r))

pub length-signon_snac :
    (flags : ℕ) (request : List ℕ) (sn : Text) (warn_high warn_low numtlv : ℕ) (ts : List Tlv)
    → length request ≡ 4
    → length (signon_snac flags request sn warn_high warn_low numtlv ts)
      ≡ 15 + length sn + length (encode_all ts)
length-signon_snac flags request sn warn_high warn_low numtlv ts e = omega (
  arith,
  e,
  length-append request
      (length sn ∷ (sn ++ (warn_high ∷ warn_low ∷ (be16 (numtlv % 2 ^ 16) ++ encode_all ts)))),
  length-append sn (warn_high ∷ warn_low ∷ (be16 (numtlv % 2 ^ 16) ++ encode_all ts)),
)

module _ (env : Env) (fuel : ℕ) (h : Handle) (others : List Handle) (block : Handle) (id : ℕ) where
  open env use {machine}

  pub snac_decode-signon :
      (flags : ℕ) (request : List ℕ) (sn : Text) (warn_high warn_low numtlv : ℕ) (ts : List Tlv)
      → h.is_child ≡ false
      → flags < 2 ^ 16
      → length request ≡ 4
      → IsText sn
      → length sn < 256
      → numtlv < 2 ^ 16
      → All IsTlv ts
      → length (encode_all ts) < 2 ^ 16
      → snac_decode env fuel h others block id
          (signon_snac flags request sn warn_high warn_low numtlv ts)
          (15 + length sn + length (encode_all ts))
        ≡ signed_on env h sn ts
  unfolding snac_decode decode_own decode_buddies
  snac_decode-signon flags request sn warn_high warn_low numtlv ts own small four v short few vs
        fits =
      let head = 0x00 ∷ 0x03 ∷ 0x00 ∷ 0x0B ∷ (be16 (flags % 2 ^ 16) ++ request) in
      let rest =
        length sn ∷ (sn ++ (warn_high ∷ warn_low ∷ (be16 (numtlv % 2 ^ 16) ++ encode_all ts))) in
      let len = 15 + length sn + length (encode_all ts) in
      let handled : get_signon machine h
            (signon_body head sn warn_high warn_low numtlv (encode_all ts)) len
          ≡ (signon_loop machine h sn (record { idletime = 0; onlinetime = 0; isaway = false }) ts
              >>= λ r. done (ok, signon_end sn r)) =
        ap (λ l. get_signon machine h (signon_body head sn warn_high warn_low numtlv l) len)
          (sym (append-nil (encode_all ts)))
        ∙ get_signon_lem machine h head sn warn_high warn_low numtlv ts [] env.calibrated
            (omega (arith, four)) v few vs fits short in
      let not_short : leb len 4 ≡ false = gt→leb len 4 (omega arith) in
      rw
        (
          not_short,
          two_to_16-be16 machine 0x03 (0x00 ∷ 0x0B ∷ ((be16 (flags % 2 ^ 16) ++ request) ++ rest))
              env.calibrated (omega arith),
          two_to_16-be16 machine 0x0B ((be16 (flags % 2 ^ 16) ++ request) ++ rest) env.calibrated
              (omega arith),
          two_to_16-be16 machine flags (request ++ rest) env.calibrated small,
          handled,
        )
        (for_own h.is_child _ _ own
          ∙ again (
              signon_loop machine h sn (record { idletime = 0; onlinetime = 0; isaway = false })
                ts))
    where
      for_own : (b : Bool) (x y : Run Answer) → b ≡ false → (if b then x else y) ≡ y
      for_own b x y e = rw e refl

      again :
          (r : Run (Handle × Gathered))
          → ((r >>= λ r. done (ok, signon_end sn r)) >>= λ (rh : Ret × Handle). done (plain rh))
            ≡ (r >>= λ r. done (plain (ok, signon_end sn r)))
      again (done r) = refl
      again fault = refl
      again unfinished = refl

  -- A frame of the channel 2 whose header is as it was read.
  pub flap_decode-signon :
      (seqnum flags : ℕ) (request : List ℕ) (sn : Text) (warn_high warn_low numtlv : ℕ)
      (ts : List Tlv)
      → h.is_child ≡ false
      → flags < 2 ^ 16
      → length request ≡ 4
      → IsText sn
      → length sn < 256
      → numtlv < 2 ^ 16
      → All IsTlv ts
      → 15 + length sn + length (encode_all ts) < 2 ^ 16
      → (let packet = signon_snac flags request sn warn_high warn_low numtlv ts in
          flap_decode env fuel h others block id (header 0x02 seqnum packet) packet)
        ≡ signed_on env h sn ts
  unfolding flap_decode
  flap_decode-signon seqnum flags request sn warn_high warn_low numtlv ts own small four v short few
        vs fits =
      let packet = signon_snac flags request sn warn_high warn_low numtlv ts in
      let size = length-signon_snac flags request sn warn_high warn_low numtlv ts four in
      let channel : byte_at (header 0x02 seqnum packet) 1 ≡ done 0x02 =
        byte_at-middle (0x2A ∷ []) (drop 2 (header 0x02 seqnum packet)) 1 0x02 refl in
      rw
        (
          length_of-header env 0x02 seqnum packet (omega (arith, size, fits)),
          channel,
          size,
          snac_decode-signon flags request sn warn_high warn_low numtlv ts own small four v short
              few vs (omega (arith, fits)),
        )
        refl
