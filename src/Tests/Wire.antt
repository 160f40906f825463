-- ===== src/Tests/Wire.antt =====
-- Packets and TLV lists at one input each.
use bsflite_otr.Base.{
  ℕ, ◌≤◌, ◌≡◌, ◌≢◌, refl, List, [], ◌∷◌, ◌++◌, length, All, done, unfinished, arith, true,
}
use bsflite_otr.Packet.{Packet, Field, u8, u16, u32, raw, add_fields, get_fields, pkt_init, pkt_end}
use bsflite_otr.Packet.Valid.{get_fields-add_fields}
use bsflite_otr.Tlv.{Tlv, tlv_split}
use bsflite_otr.Tlv.RoundTrip.{encode_all, IsTlv, tlv_split-encode_all}
use bsflite_otr.Tlv.Total.{tlv_split-ne-unfinished}
use bsflite_otr.Tlv.Sound.{tlv_split_sound}
use bsflite_otr.Tests.Samples.{host, host-Calibrated}

-- A class and an empty TLV.
abbrev tlvs : List Tlv
tlvs =
    record { type = 1; len = 2; value = 0x00 ∷ 0x10 ∷ [] }
    ∷ record { type = 4; len = 0; value = [] }
    ∷ []

tlvs-IsTlv : All IsTlv tlvs
tlvs-IsTlv = (
  record { type_fits = omega arith; len_fits = omega arith; len_right = refl },
  (record { type_fits = omega arith; len_fits = omega arith; len_right = refl }, tt),
)

tlv_split-encode_all_example :
    tlv_split host (encode_all tlvs ++ (0xAA ∷ [])) (length (encode_all tlvs)) 2 ≡ done tlvs
tlv_split-encode_all_example =
    tlv_split-encode_all host host-Calibrated tlvs (0xAA ∷ []) 2 tlvs-IsTlv (omega arith)

-- A TLV that claims more than there is.
abbrev cut_short : List ℕ
cut_short = 0 ∷ 1 ∷ 0 ∷ 9 ∷ 5 ∷ []

tlv_split-ne-unfinished_example : tlv_split host cut_short 5 1 ≢ unfinished
tlv_split-ne-unfinished_example = tlv_split-ne-unfinished host cut_short 5 1 (omega arith)

abbrev message : List Field
message = u8 0x2A ∷ u16 0xFFFE ∷ u32 0x01020304 ∷ raw (9 ∷ 8 ∷ []) ∷ []

abbrev message_bytes : List ℕ
message_bytes = 0x2A ∷ 0xFF ∷ 0xFE ∷ 1 ∷ 2 ∷ 3 ∷ 4 ∷ 9 ∷ 8 ∷ []

abbrev nine : List ℕ
nine = 7 ∷ 7 ∷ 7 ∷ 7 ∷ 7 ∷ 7 ∷ 7 ∷ 7 ∷ 7 ∷ []

get_fields-add_fields_example :
    (p : Packet) × (add_fields host (pkt_init nine 9) message ≡ done p)
    × (get_fields host (record p { offset = 0 }) message ≡ done (message, p))
    × (pkt_end p ≡ true)
get_fields-add_fields_example =
    get_fields-add_fields host message nine host-Calibrated
      (omega arith, (omega arith, (omega arith, (omega arith, tt)))) refl (omega arith)

-- One byte is written, two are free.
abbrev open_packet : Packet
open_packet = record { bytes = 5 ∷ 0 ∷ 0 ∷ []; offset = 1; len = 3 }

tlv_split_sound_example :
    All IsTlv tlvs
    × (rest : List ℕ) × (encode_all tlvs ≡ encode_all tlvs ++ rest)
    × (10 ≤ length (encode_all tlvs))
tlv_split_sound_example =
    tlv_split_sound host host-Calibrated (encode_all tlvs) 10 2 tlvs
      (
        omega arith,
        (
          omega arith,
          (
            omega arith,
            (
              omega arith,
              (
                omega arith,
                (omega arith, (omega arith, (omega arith, (omega arith, (omega arith, tt))))),
              ),
            ),
          ),
        ),
      )
      (omega arith) (tlv_split-encode_all host host-Calibrated tlvs [] 2 tlvs-IsTlv (omega arith))
