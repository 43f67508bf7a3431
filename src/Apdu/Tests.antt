-- ===== src/Apdu/Tests.antt =====
-- Runs of src/apdu.rs, and its theorems at concrete inputs.
use hyperion_x_emv.Base.{◌≡◌, ◌≤◌, refl, List, [], ◌∷◌, some, length, okay, arith}
use hyperion_x_emv.Tlv.{parse_many}
use hyperion_x_emv.Dol.{DolEntry}
use hyperion_x_emv.Dol.Store.{new}
use hyperion_x_emv.Dol.Build.{fill}
use hyperion_x_emv.Apdu.{
  CommandApdu, CryptogramRequest, CdaRequestControl, Interface, select_environment, generate_ac,
  get_processing_options, max_short_apdu_data_len,
}
use hyperion_x_emv.Apdu.Commands.{command_template, get_processing_options_lem}

abbrev select_pse : CommandApdu
select_pse = select_environment Interface.contact

abbrev pdol : List DolEntry
pdol = record { tag = 0x9f ∷ 0x37 ∷ []; len = 4 } ∷ []

get_processing_options_lem_example :
    (c : CommandApdu) × (get_processing_options pdol new ≡ okay c)
    × (parse_many c.data_field ≡ okay (command_template (fill new pdol)))
    × (length c.data_field ≤ max_short_apdu_data_len)
get_processing_options_lem_example = get_processing_options_lem pdol new (omega arith)

abbrev first_gac : CommandApdu
first_gac = record {
  cla = 0x80;
  ins = 0xae;
  p1 = 0x90;
  p2 = 0x00;
  data_field = 0x01 ∷ 0x02 ∷ [];
  le = some 0x00;
}

first_gac_built :
    generate_ac CryptogramRequest.arqc (0x01 ∷ 0x02 ∷ []) (CdaRequestControl.p1_low_bits 0x10)
    ≡ okay first_gac
unfolding generate_ac
first_gac_built = refl
