-- ===== src/Gpo/Tests.antt =====
-- Runs of src/gpo.rs, and its theorem at a concrete input.
use hyperion_x_emv.Base.{◌≡◌, refl, List, [], ◌∷◌, okay, arith, ◌=s=◌}
use hyperion_x_emv.Tlv.{parse_many, read_tag, read_length, find_unique_direct}
use hyperion_x_emv.Tlv.Spec.{encode}
use hyperion_x_emv.Dol.{parse_dol, read_dol_tag}
use hyperion_x_emv.Afl.{AflEntry}
use hyperion_x_emv.Gpo.{GpoResponseFormat, parse_gpo_response, parse_pdol_from_fci}
use hyperion_x_emv.Gpo.Formats.{format_77, format_80, parse_gpo_response_complete}

abbrev entries : List AflEntry
entries = record { sfi = 1; first_record = 1; last_record = 2; offline_auth_record_count = 1 } ∷ []

parse_gpo_response_complete_example :
    (parse_gpo_response (encode (format_80 0x19 0x80 entries))
      ≡ okay
          (record { format = GpoResponseFormat.template80; aip = 0x19 ∷ 0x80 ∷ []; afl = entries }))
    × (parse_gpo_response (encode (format_77 0x19 0x80 entries))
        ≡ okay (record {
          format = GpoResponseFormat.template77;
          aip = 0x19 ∷ 0x80 ∷ [];
          afl = entries;
        }))
parse_gpo_response_complete_example =
    parse_gpo_response_complete 0x19 0x80 entries
      (
        record {
          sfi_low = omega arith;
          sfi_high = omega arith;
          first_low = omega arith;
          first_high = omega arith;
          last_high = omega arith;
          count_high = omega arith;
        },
        tt,
      )
      (omega arith) (omega arith)

-- The PDOL of an FCI.
fci_pdol :
    parse_pdol_from_fci (0x6f ∷ 0x08 ∷ 0xa5 ∷ 0x06 ∷ 0x9f ∷ 0x38 ∷ 0x03 ∷ 0x9f ∷ 0x37 ∷ 0x04 ∷ [])
    ≡ okay (record { tag = 0x9f ∷ 0x37 ∷ []; len = 4 } ∷ [])
unfolding parse_pdol_from_fci parse_many read_tag read_length find_unique_direct parse_dol
    read_dol_tag ◌=s=◌
fci_pdol = refl
