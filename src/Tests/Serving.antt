-- ===== src/Tests/Serving.antt =====
-- A user who signs on.
use bsflite_otr.Base.{refl, List, [], ◌∷◌, All, arith}
use bsflite_otr.Tlv.{Tlv}
use bsflite_otr.Tlv.RoundTrip.{IsTlv}

-- Online since a minute.
abbrev pub online_tlvs : List Tlv
online_tlvs = record { type = 3; len = 4; value = 0 ∷ 0 ∷ 0 ∷ 60 ∷ [] } ∷ []

pub online_tlvs-IsTlv : All IsTlv online_tlvs
online_tlvs-IsTlv =
    (record { type_fits = omega arith; len_fits = omega arith; len_right = refl }, tt)
