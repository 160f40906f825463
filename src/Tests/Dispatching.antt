-- ===== src/Tests/Dispatching.antt =====
-- Logins, requests and the handlers of `snac_decode` at one input each.
use bsflite_otr.Base.{
  drop, ◌-◌, ℕ, ◌+◌, ◌%◌, ◌^◌, ◌≡◌, refl, ◌∙◌, false, none, some, List, [], ◌∷◌, ◌++◌, length,
  Always, done, ◌>>=◌, arith,
}
use bsflite_otr.Bytes.Big.{be16}
use bsflite_otr.Packet.{ok, u16, u32}
use bsflite_otr.Packet.Write.{at, wire_all}
use bsflite_otr.Session.{Text, Handle, Socket, sent, next_seq}
use bsflite_otr.Flap.{snac_send, flap_send, after_write, user_active, failed, next_req}
use bsflite_otr.Flap.Frame.{frame, snac, snac_packet_lem, flap_transmit_lem}
use bsflite_otr.Requests.{
  map_u16, location_size, location_fields, build, send_cli_update, set_location_info, ok_of,
}
use bsflite_otr.Requests.Exact.{
  request-exact, set_location_info_lem, location_head, location_tail, location_short,
}
use bsflite_otr.Numerals.{decimal}
use bsflite_otr.Login.{
  dial, dial_direct, login_host, im_signon, signon_phase2, md5snac, name_fields, answer_fields,
  cookie_fields, md5_string,
}
use bsflite_otr.Login.Exact.{im_signon_lem, signon_phase2_lem, md5snac_lem}
use bsflite_otr.Dispatch.{ack_limits, then_multireq, ssi_get_list}
use bsflite_otr.Dispatch.Families.{class_bytes, ids_of, ack_limits_lem}
use bsflite_otr.Dispatch.Stored.{Item, items_bytes, u16_bytes, with_contacts, ssi_get_list_lem}
use bsflite_otr.Dispatch.Decode.{snac_decode}
use bsflite_otr.Dispatch.Safe.{Sound, snac_decode-IsRoster}
use bsflite_otr.Tests.Samples.{world, session, ann, bob}
use bsflite_otr.Tests.Lists.{session-IsRoster}

abbrev families : List ℕ
families = 2 ∷ 3 ∷ 4 ∷ []

abbrev classes : List (ℕ × List ℕ)
classes = (1, world.fresh 33) ∷ (7, world.fresh 33) ∷ []

ack_limits_lem_example :
    ack_limits world session (be16 (length classes % 2 ^ 16) ++ (class_bytes classes ++ [])) ≡ (
      snac_send world session 0x01 0x08 (wire_all (map_u16 (ids_of classes))) false
      >>= then_multireq world)
ack_limits_lem_example =
    ack_limits_lem world session classes [] ((omega arith, refl), ((omega arith, refl), tt))
      (omega arith)

-- A contact and the group that holds it.
abbrev items : List Item
items =
    record { name = bob; group_id = 1; id = 2; type = 0; tlvs = [] }
    ∷ record { name = []; group_id = 0; id = 0; type = 1; tlvs = 0 ∷ 200 ∷ [] }
    ∷ []

abbrev head : List ℕ
head = 0 ∷ 19 ∷ 0 ∷ 6 ∷ 0 ∷ 0 ∷ 0 ∷ 0 ∷ 0 ∷ 1 ∷ []

ssi_get_list_lem_example :
    ssi_get_list world session
      (head ++ (0 ∷ (u16_bytes (length items) ++ items_bytes items [])))
      (13 + length (items_bytes items []))
    ≡ done (record session { buddylist = with_contacts session.buddylist items })
ssi_get_list_lem_example =
    ssi_get_list_lem world session head 0 items [] refl
      (
        (
          (refl, (refl, (refl, tt))),
          omega arith,
          omega arith,
          omega arith,
          omega arith,
          omega arith,
        ),
        ((tt, omega arith, omega arith, omega arith, omega arith, omega arith), tt),
      )
      (omega arith) (omega arith)

-- bob signs off.
snac_decode-IsRoster_example :
    Always Sound (
      snac_decode world 9 session [] session 5
        (0 ∷ 3 ∷ 0 ∷ 12 ∷ 0 ∷ 0 ∷ 0 ∷ 0 ∷ 0 ∷ 1 ∷ 3 ∷ bob)
        14)
snac_decode-IsRoster_example =
    snac_decode-IsRoster world 9 session [] session 5
      (0 ∷ 3 ∷ 0 ∷ 12 ∷ 0 ∷ 0 ∷ 0 ∷ 0 ∷ 0 ∷ 1 ∷ 3 ∷ bob) 14 session-IsRoster

-- Connected to the address that the world's resolver gives.
abbrev connected : Handle
connected = record session { socket = Socket.fd 5 }

dialled :
    (host : Text) (port : ℕ) (ssl_host : Text) (ssl_port : ℕ)
    → dial world 9 session host port ssl_host ssl_port ≡ done (ok, connected)
unfolding dial dial_direct
dialled host port ssl_host ssl_port = refl

im_signon_lem_example : im_signon world 9 session ann bob ≡ (
    flap_send world
      (record connected { pw = some bob; sn = some ann })
      0x01
      (0 ∷ 0 ∷ 0 ∷ 1 ∷ [])
      false
    >>= λ (status, g). snac_send world g 0x17 0x06 (wire_all (name_fields ann)) false)
im_signon_lem_example =
    im_signon_lem world 9 session connected ann bob
      (dialled login_host 5190 (b's' ∷ login_host) 443) (omega arith)

signon_phase2_lem_example :
    signon_phase2 world 9 session (some (ann ++ (b':' ∷ decimal 5190))) (1 ∷ 2 ∷ 3 ∷ [])
    ≡ flap_send world connected 0x01 (wire_all (cookie_fields (1 ∷ 2 ∷ 3 ∷ []))) false
signon_phase2_lem_example =
    signon_phase2_lem world 9 session connected ann 5190 (1 ∷ 2 ∷ 3 ∷ []) (refl, (refl, (refl, tt)))
      (omega arith) (dialled ann 5190 ann 5190) (omega arith)

abbrev key : List ℕ
key = 9 ∷ 8 ∷ []

abbrev asking : Handle
asking = record session { sn = some ann; pw = some bob }

md5snac_lem_example :
    md5snac world 9 asking
      (0
        ∷ 0x17
        ∷ 0
        ∷ 7
        ∷ ((0 ∷ 0 ∷ 0 ∷ 0 ∷ 0 ∷ 1 ∷ []) ++ (be16 (length key % 2 ^ 16) ++ (key ++ []))))
      14
    ≡ (snac_send world asking 0x17 0x02
          (wire_all (answer_fields ann (world.md5 (key ++ (bob ++ md5_string)))))
          false
        >>= λ (status, g). done g)
md5snac_lem_example =
    md5snac_lem world 9 asking 0 0x17 0 (0 ∷ 0 ∷ 0 ∷ 0 ∷ 0 ∷ 1 ∷ []) ann bob key [] 14 refl refl
      refl (omega arith) (omega arith)

abbrev described : Handle
described = record session { profile_str = some bob; away_msg = some ann }

-- The update of the client's status is sent first.
abbrev status_body : List ℕ
status_body = wire_all (u16 0x0006 ∷ u16 0x0004 ∷ u32 0 ∷ [])

abbrev told : Handle
told = record (next_req described) {
  seqnum = next_seq 0xFFFF;
  trace = sent (frame 0x02 0xFFFF (snac described 0x01 0x1E status_body)) ∷ [];
}

updated : send_cli_update world described ≡ done (ok, told)
unfolding send_cli_update snac_send flap_send after_write user_active failed
updated =
    request-exact world described 0x01 0x1E 8 (u16 0x0006 ∷ u16 0x0004 ∷ u32 0 ∷ []) refl
      (omega arith)
    ∙ rw
        (
          snac_packet_lem world described 0x01 0x1E status_body (omega arith),
          flap_transmit_lem world (next_req described) 0x02 (snac described 0x01 0x1E status_body)
              (omega arith),
        )
        refl

set_location_info_lem_example : set_location_info world described ≡ (
    snac_send world told 0x02 0x04 (wire_all (location_fields (some bob) (some ann))) false >>= λ r.
    done (ok_of r))
unfolding location_size
set_location_info_lem_example =
    set_location_info_lem world described told ok bob updated refl (omega arith)

location_short_example :
    let size = location_size none (some ann) in
    let junk = drop (size - 11) (world.fresh size) in
    (length junk ≡ 11)
    × (build world size (location_fields none (some ann))
        ≡ done (at (wire_all (location_head (some ann)) ++ wire_all location_tail) junk))
location_short_example = location_short world (some ann) (omega arith)
