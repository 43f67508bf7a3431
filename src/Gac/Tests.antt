-- ===== src/Gac/Tests.antt =====
-- Runs of src/gac.rs and src/cid.rs, and their theorems at concrete inputs.
use hyperion_x_emv.Base.{ℕ, ◌≡◌, refl, List, [], ◌∷◌, okay, arith, ◌=s=◌}
use hyperion_x_emv.Tlv.Spec.{encode}
use hyperion_x_emv.Dol.Store.{DataStore, get}
use hyperion_x_emv.Gac.{
  CryptogramType, cryptogram_type, parse_generate_ac_response, build_online_authorization_package,
}
use hyperion_x_emv.Gac.Bounds.{IsSized, parse_generate_ac_response-IsSized}
use hyperion_x_emv.Gac.Formats.{plain, format_1, format_2, parse_generate_ac_response_complete}

abbrev cryptogram : List ℕ
cryptogram = 0x11 ∷ 0x22 ∷ 0x33 ∷ 0x44 ∷ 0x55 ∷ 0x66 ∷ 0x77 ∷ 0x88 ∷ []

abbrev iad : List ℕ
iad = 0x06 ∷ 0x01 ∷ 0x0a ∷ []

parse_generate_ac_response_complete_example :
    (parse_generate_ac_response (encode (format_1 0x80 0x00 0x2a cryptogram iad))
      ≡ okay (plain 0x80 0x00 0x2a cryptogram iad))
    × (parse_generate_ac_response (encode (format_2 0x80 0x00 0x2a cryptogram iad))
        ≡ okay (plain 0x80 0x00 0x2a cryptogram iad))
parse_generate_ac_response_complete_example =
    parse_generate_ac_response_complete 0x80 0x00 0x2a cryptogram iad refl (omega arith)

accepted :
    parse_generate_ac_response (encode (format_1 0x80 0x00 0x2a cryptogram iad))
    ≡ okay (plain 0x80 0x00 0x2a cryptogram iad)
accepted = (parse_generate_ac_response_complete 0x80 0x00 0x2a cryptogram iad refl (omega arith)).0

parse_generate_ac_response-IsSized_example : IsSized (plain 0x80 0x00 0x2a cryptogram iad)
parse_generate_ac_response-IsSized_example =
    parse_generate_ac_response-IsSized (encode (format_1 0x80 0x00 0x2a cryptogram iad))
      (plain 0x80 0x00 0x2a cryptogram iad) accepted

arqc_type : cryptogram_type (record { raw = 0x88 }) ≡ CryptogramType.arqc
unfolding cryptogram_type
arqc_type = refl

abbrev store : DataStore
store = record { entries = (0x95 ∷ [], 0 ∷ 0 ∷ 0 ∷ 0x80 ∷ 0 ∷ []) ∷ [] }

online_objects :
    build_online_authorization_package (plain 0x80 0x00 0x2a cryptogram []) store
    ≡ record { tag = 0x9f ∷ 0x26 ∷ []; value = cryptogram }
      ∷ record { tag = 0x9f ∷ 0x27 ∷ []; value = 0x80 ∷ [] }
      ∷ record { tag = 0x9f ∷ 0x36 ∷ []; value = 0x00 ∷ 0x2a ∷ [] }
      ∷ record { tag = 0x95 ∷ []; value = 0 ∷ 0 ∷ 0 ∷ 0x80 ∷ 0 ∷ [] }
      ∷ []
unfolding build_online_authorization_package get ◌=s=◌
online_objects = refl
