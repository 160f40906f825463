-- ===== src/Flap/Frame.antt =====
-- The frames that reach the socket.
use bsflite_otr.Base.{
  take, take_all, ℕ, zero, suc, ◌+◌, ◌%◌, ◌^◌, ◌<◌, ◌≡◌, refl, ap, ◌∙◌, List, [], ◌∷◌, ◌++◌, length,
  done, if◌then◌else◌, arith, length-append, append-nil, ◌≤◌, drop, sym, drop_all, length-drop,
  append_assoc, drop-length-append,
}
use bsflite_otr.Packet.{ok, error, size_mod}
use bsflite_otr.Packet.Write.{
  filled, wire_all, at, at_path, add_fields-init, add_fields-at, init-at,
}
use bsflite_otr.Session.{Handle, Env, sent, next_seq, record_event}
use bsflite_otr.Flap.{
  frame_fields, failed, failed_multi, Part, total_len, any_update, flap_transmit, multi_loop,
  flap_send_multi, user_active, snac_fields, snac_packet,
}

-- A frame, and the frames of a batch under consecutive sequence numbers.
abbrev pub frame : ℕ → ℕ → List ℕ → List ℕ
frame channel seqnum packet = wire_all (frame_fields channel seqnum packet)

abbrev pub frames : ℕ → List Part → List ℕ
frames seqnum [] = []
frames seqnum (t ∷ ts) = frame t.channel seqnum t.packet ++ frames (next_seq seqnum) ts

-- The sequence number after `n` frames.
abbrev pub seq_after : ℕ → ℕ → ℕ
seq_after zero seqnum = seqnum
seq_after (suc n) seqnum = seq_after n (next_seq seqnum)

-- A SNAC.
abbrev pub snac : Handle → ℕ → ℕ → List ℕ → List ℕ
snac h family subtype body = wire_all (snac_fields h family subtype body)

pub length-frame :
    (channel seqnum : ℕ) (packet : List ℕ)
    → length (frame channel seqnum packet) ≡ 6 + length packet
length-frame channel seqnum packet = omega (arith, length-append packet [])

next_seq_lem : (n : ℕ) → n < 2 ^ 16 → next_seq n ≡ (n + 1) % 2 ^ 16
unfolding next_seq
next_seq_lem n h = ground arith

-- From a 16-bit sequence number, n steps of the code's increment are addition of n modulo 65536: the
-- numbers stay 16 bits wide and come round after 65536 frames.
seq_after_lem : (n seqnum : ℕ) → seqnum < 2 ^ 16 → seq_after n seqnum ≡ (seqnum + n) % 2 ^ 16
seq_after_lem zero seqnum h = omega arith
seq_after_lem (suc n) seqnum h = omega (
  arith,
  next_seq_lem seqnum h,
  seq_after_lem n (next_seq seqnum) (omega (arith, next_seq_lem seqnum h)),
)

module _ (env : Env) where
  open env use {machine, calibrated, fresh, length-fresh, write}

  -- `flap_send` hands one frame to the socket and moves the sequence number on; where the write
  -- fails nothing has changed.
  pub flap_transmit_lem :
      (h : Handle) (channel : ℕ) (packet : List ℕ)
      → length packet + 6 < size_mod
      → flap_transmit env h channel packet
        ≡ done (
            if failed (write h.trace (frame channel h.seqnum packet)) then (error, h) else (
              ok,
              record h {
                seqnum = next_seq h.seqnum;
                trace = h.trace ++ (sent (frame channel h.seqnum packet) ∷ []);
              },
            ))
  unfolding flap_transmit
  flap_transmit_lem h channel packet small =
      let len = length-frame channel h.seqnum packet in
      let same : (length packet + 6) % size_mod ≡ length (frame channel h.seqnum packet) =
        omega (arith, len) in
      let mem = fresh (length (frame channel h.seqnum packet)) in
      rw (
        same,
        add_fields-init machine (frame_fields channel h.seqnum packet) mem calibrated
            (length-fresh _)
            (omega (arith, len, length-fresh (length (frame channel h.seqnum packet)))),
      )

  -- A SNAC fills its packet exactly.
  pub snac_packet_lem :
      (h : Handle) (family subtype : ℕ) (body : List ℕ)
      → length body < 2 ^ 16
      → snac_packet env h family subtype body ≡ done (filled (snac h family subtype body))
  unfolding snac_packet
  snac_packet_lem h family subtype body small =
      let fs = snac_fields h family subtype body in
      let whole : take (length body % 2 ^ 16) body ≡ body =
        take_all (length body % 2 ^ 16) body (omega arith) in
      let len : length body + 10 ≡ length (wire_all fs) = omega (arith, length-append body []) in
      rw whole (
        rw len (
          add_fields-init machine fs (fresh (length (wire_all fs))) calibrated (length-fresh _)
            (omega (arith, len, length-fresh (length (wire_all fs))))))

  multi_loop-at :
      (ts : List Part) (pre rest : List ℕ) (seqnum : ℕ)
      → length pre + length rest < size_mod
      → length (frames seqnum ts) ≤ length rest
      → multi_loop env (at pre rest) seqnum ts
        ≡ done (
          at (pre ++ frames seqnum ts) (drop (length (frames seqnum ts)) rest),
          seq_after (length ts) seqnum,
        )
  unfolding multi_loop
  multi_loop-at [] pre rest seqnum small fits =
      ap (λ p. done (p, seqnum)) (at_path (sym (append-nil pre)) refl)
  multi_loop-at (t ∷ ts) pre rest seqnum small fits =
      let f = frame t.channel seqnum t.packet in
      let more = frames (next_seq seqnum) ts in
      let all = length-append f more in
      let left = length-drop (length f) rest in
      rw
        (add_fields-at machine (frame_fields t.channel seqnum t.packet) pre rest calibrated small
          (omega (arith, all)))
        (multi_loop-at ts (pre ++ f) (drop (length f) rest) (next_seq seqnum)
            (omega (arith, all, left, length-append pre f)) (omega (arith, all, left))
          ∙ ap (λ p. done (p, seq_after (length ts) (next_seq seqnum)))
              (at_path (append_assoc pre f more) (drop-length-append f more rest)))

  total_len_lem :
      (ts : List Part) (seqnum : ℕ)
      → length (frames seqnum ts) < size_mod
      → total_len ts ≡ length (frames seqnum ts)
  unfolding total_len
  total_len_lem [] seqnum small = refl
  total_len_lem (t ∷ ts) seqnum small =
      let f = frame t.channel seqnum t.packet in
      let all = length-append f (frames (next_seq seqnum) ts) in
      omega (
        arith,
        all,
        length-frame t.channel seqnum t.packet,
        total_len_lem ts (next_seq seqnum) (omega (arith, all)),
      )

  -- `flap_sendMulti` hands all parts to the socket in one write, as frames under consecutive
  -- sequence numbers. The sequence number moves on by the number of parts, also where the write
  -- fails; what follows a write that succeeds is the same as after `flap_send`.
  pub flap_send_multi_lem :
      (h : Handle) (t : Part) (ts : List Part)
      → length (frames h.seqnum (t ∷ ts)) < size_mod
      → let bytes = frames h.seqnum (t ∷ ts) in
        let moved = record h { seqnum = seq_after (length (t ∷ ts)) h.seqnum } in
        flap_send_multi env h (t ∷ ts) ≡ (
          if failed_multi h.use_ssl (write h.trace bytes)
          then done (error, moved)
          else user_active env (any_update (t ∷ ts)) (record_event moved (sent bytes)))
  unfolding flap_send_multi
  flap_send_multi_lem h t ts small =
      let bytes = frames h.seqnum (t ∷ ts) in
      let mem = fresh (length bytes) in
      let len = length-fresh (length bytes) in
      let none_left : drop (length bytes) mem ≡ [] =
        drop_all (length bytes) mem (omega (arith, len)) in
      rw (
        total_len_lem (t ∷ ts) h.seqnum small,
        init-at mem (length bytes) len,
        multi_loop-at (t ∷ ts) [] mem h.seqnum (omega (arith, len)) (omega (arith, len)),
        none_left,
        append-nil bytes,
      )
