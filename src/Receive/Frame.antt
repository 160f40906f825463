-- ===== src/Receive/Frame.antt =====
-- A frame is read whole, however the network cuts the stream.
use bsflite_otr.Base.{
  ℕ, ◌+◌, ◌≤◌, ◌<◌, ◌≡◌, refl, ap, ◌∙◌, some, List, [], ◌∷◌, ◌++◌, length, drop, done, arith,
  append-nil, ◌^◌, ◌%◌,
}
use bsflite_otr.Packet.{u8, u16}
use bsflite_otr.Packet.Write.{wire_all}
use bsflite_otr.Incoming.Frames.{two_to_16-be16}
use bsflite_otr.Bytes.{two_to_16}
use bsflite_otr.Flap.Frame.{frame}
use bsflite_otr.Session.{Handle, Env, Event}
use bsflite_otr.Receive.{read_frame, read_data}
use bsflite_otr.Receive.Stream.{heard, Delivers, reading, read_bytes_whole}

-- The header of a frame.
abbrev pub header : ℕ → ℕ → List ℕ → List ℕ
header channel seqnum packet =
    wire_all (u8 0x2A ∷ u8 channel ∷ u16 seqnum ∷ u16 (length packet % 2 ^ 16) ∷ [])

-- The header gives the length of the packet.
pub length_of-header :
    (env : Env) (channel seqnum : ℕ) (packet : List ℕ)
    → length packet < 2 ^ 16
    → two_to_16 env.machine (drop 4 (header channel seqnum packet)) ≡ done (length packet)
length_of-header env channel seqnum packet small =
    two_to_16-be16 env.machine (length packet % 2 ^ 16) [] env.calibrated (omega arith)
    ∙ ap (λ n. done n) (let z : length packet % 2 ^ 16 ≡ length packet = omega arith in z)

module _ (env : Env) (stream : List ℕ) (delivers : Delivers env stream) where
  -- A frame that the connection carries, however it is cut into pieces: `imcomm_select` reads its
  -- header and its data, which is not empty, ends, and has taken no byte beyond. The fuel that is
  -- enough is the length of the frame.
  pub read_frame_whole :
      (fuel : ℕ) (h : Handle) (channel seqnum : ℕ) (packet rest : List ℕ)
      → 6 + length packet ≤ fuel
      → 0 < length packet
      → length packet < 2 ^ 16
      → drop (heard h.trace) stream ≡ frame channel seqnum packet ++ rest
      → (tr : List Event) × (read_frame env fuel h
          ≡ done (some (header channel seqnum packet, packet), record h { trace = tr }))
        × (drop (heard tr) stream ≡ rest)
  unfolding read_frame read_data
  read_frame_whole fuel h channel seqnum packet rest enough some_data small at =
      let (tr, e, at') =
        read_bytes_whole env stream delivers fuel h (header channel seqnum packet) (packet ++ rest)
          (omega arith) (omega arith)
          (at ∙ ap (λ l. header channel seqnum packet ++ (l ++ rest)) (append-nil packet)) in
      let (tr', e', at'') =
        read_bytes_whole env stream delivers fuel (reading h tr) packet rest (omega arith) some_data
          at' in
      (tr', rw (e, length_of-header env channel seqnum packet small, e') refl, at'')
