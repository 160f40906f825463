-- ===== src/Poll/Signon.antt =====
-- A user signs on: from the bytes of the network to the roster.
use bsflite_otr.Base.{
  ◌^◌, done, Run, fault, unfinished, ◌>>=◌, ◌++◌, List, ℕ, ◌+◌, ◌≤◌, ◌<◌, ◌≡◌, refl, Bool, true,
  false, length, drop, All, arith,
}
use bsflite_otr.Packet.{Ret}
use bsflite_otr.Session.{Text, Handle, Env, Event}
use bsflite_otr.Tlv.{Tlv}
use bsflite_otr.Tlv.RoundTrip.{encode_all, IsTlv}
use bsflite_otr.Incoming.Frames.{IsText}
use bsflite_otr.Dispatch.{Answer}
use bsflite_otr.Flap.Frame.{frame}
use bsflite_otr.Receive.Stream.{heard, Delivers, reading}
use bsflite_otr.Receive.Frame.{read_frame_whole}
use bsflite_otr.Receive.Signon.{signon_snac, signed_on, length-signon_snac, flap_decode-signon}
use bsflite_otr.Poll.{went, turn, decode_frame, keep_alive_turn}

module _ (env : Env) (stream : List ℕ) (delivers : Delivers env stream)
    (alloc : List Handle → Handle × ℕ) (readable : Handle → Bool) where
  -- A connection that is no child and that is readable carries, however it is cut into pieces, a frame
  -- of channel 2 with a SNAC 03/0B for a name and TLVs that are well formed, and fuel is not below the
  -- length of the frame: the turn of the connection reads that frame and no byte beyond, works off its
  -- TLVs in their order for that name, ends the handler of sign-ons with what they gave, and ends as a
  -- turn does, with the keep-alive frame if it is time.
  pub turn-signon :
      (fuel : ℕ) (ret : Ret) (others : List Handle) (h : Handle) (seqnum flags : ℕ)
      (request : List ℕ) (sn : Text) (warn_high warn_low numtlv : ℕ) (ts : List Tlv) (rest : List ℕ)
      → readable h ≡ true
      → h.is_child ≡ false
      → flags < 2 ^ 16
      → length request ≡ 4
      → IsText sn
      → length sn < 256
      → numtlv < 2 ^ 16
      → All IsTlv ts
      → 15 + length sn + length (encode_all ts) < 2 ^ 16
      → 21 + length sn + length (encode_all ts) ≤ fuel
      → drop (heard h.trace) stream
        ≡ frame 0x02 seqnum (signon_snac flags request sn warn_high warn_low numtlv ts) ++ rest
      → (tr : List Event) × (turn env alloc readable fuel ret others h ≡ (
          signed_on env (reading h tr) sn ts >>= λ a. keep_alive_turn env alloc readable (went a)))
        × (drop (heard tr) stream ≡ rest)
  unfolding turn decode_frame
  turn-signon fuel ret others h seqnum flags request sn warn_high warn_low numtlv ts rest ready own
        small four v short few vs fits enough at =
      let packet = signon_snac flags request sn warn_high warn_low numtlv ts in
      let size = length-signon_snac flags request sn warn_high warn_low numtlv ts four in
      let (tr, e, at') =
        read_frame_whole env stream delivers fuel h 0x02 seqnum packet rest
          (omega (arith, size, enough)) (omega (arith, size)) (omega (arith, size, fits)) at in
      (
        tr,
        rw
            (
              ready,
              e,
              flap_decode-signon env fuel (reading h tr) others (alloc others).0 (alloc others).1
                  seqnum flags request sn warn_high warn_low numtlv ts own small four v short few vs
                  fits,
            )
            (again (signed_on env (reading h tr) sn ts)),
        at',
      )
    where
      again :
          (r : Run Answer)
          → ((r >>= λ a. done (went a)) >>= keep_alive_turn env alloc readable)
            ≡ (r >>= λ a. keep_alive_turn env alloc readable (went a))
      again (done r) = refl
      again fault = refl
      again unfinished = refl
