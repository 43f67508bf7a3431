-- ===== src/Apdu/Commands.antt =====
-- What the card reads in the commands of src/apdu.rs.
use hyperion_x_emv.Base.{
  ℕ, ◌<◌, ◌≡◌, ◌≤◌, refl, Bool, true, false, List, [], ◌∷◌, ◌++◌, ◌==◌, length, bit_and, bit_or,
  all_below, all_below_sound, okay, arith, ◌∙◌, ap, sym, if◌then◌else◌, length-append, some,
}
use mathlib.Core.List.{append-nil}
use hyperion_x_emv.Tlv.{Tlvs, node, nil, cons, parse_many}
use hyperion_x_emv.Tlv.Tags.{is_constructed}
use hyperion_x_emv.Tlv.Lengths.{encode_length}
use hyperion_x_emv.Tlv.Spec.{WellFormed, encode}
use hyperion_x_emv.Tlv.Complete.{parse_many_complete}
use hyperion_x_emv.Dol.{
  DolEntry, build_dol_with_policy, zero_pad_missing_and_short, max_dol_output, is_exact,
}
use hyperion_x_emv.Dol.Store.{DataStore, validate_data_tag}
use hyperion_x_emv.Dol.Build.{fill, sum_lengths, build_dol_with_policy_lem, length-fill}
use hyperion_x_emv.Apdu.{
  CommandApdu, CryptogramRequest, CdaRequestControl, request_p1, with_cda, generate_ac,
  append_ber_length, get_processing_options, max_short_apdu_data_len,
}

-- The command template with the values.
abbrev pub command_template : List ℕ → Tlvs
command_template values = cons (node (0x83 ∷ []) values false nil) nil

template-WellFormed :
    (values : List ℕ) → length values ≤ 252 → WellFormed 0 (command_template values)
unfolding validate_data_tag is_constructed
template-WellFormed values h = ((refl, refl, omega arith, (λ e. cc), (λ e. refl), tt), tt)

append_ber_length_lem :
    (out : List ℕ) (n : ℕ) → n ≤ 252 → append_ber_length out n ≡ okay (out ++ encode_length n)
unfolding append_ber_length encode_length
append_ber_length_lem out n h = ground arith

length-encode_length : (n : ℕ) → n ≤ 255 → length (encode_length n) ≤ 2
unfolding encode_length
length-encode_length n h = ground arith

read_template :
    (values : List ℕ)
    → (0x83 ∷ encode_length (length values)) ++ values ≡ encode (command_template values)
read_template values = sym (append-nil _)

values_lem :
    (pdol : List DolEntry) (store : DataStore)
    → sum_lengths pdol ≤ max_dol_output
    → build_dol_with_policy pdol store zero_pad_missing_and_short ≡ okay (fill store pdol)
unfolding is_exact
values_lem pdol store h =
    ground (arith, build_dol_with_policy_lem pdol store zero_pad_missing_and_short)

-- Unless the PDOL asks for more than 252 bytes, GET PROCESSING OPTIONS is built: its data fit a short
-- command, and the card's TLV parser reads in them one command template with the values that the
-- PDOL asks for, each cut or padded with zeroes to its length.
pub get_processing_options_lem :
    (pdol : List DolEntry) (store : DataStore)
    → sum_lengths pdol ≤ max_dol_output
    → (c : CommandApdu) × (get_processing_options pdol store ≡ okay c)
      × (parse_many c.data_field ≡ okay (command_template (fill store pdol)))
      × (length c.data_field ≤ max_short_apdu_data_len)
unfolding get_processing_options
get_processing_options_lem pdol store h =
    let values = fill store pdol in
    let short : length values ≤ 252 = omega (arith, length-fill store pdol) in
    let small : length values ≤ 255 = omega (arith, short) in
    (
      record {
        cla = 0x80;
        ins = 0xa8;
        p1 = 0x00;
        p2 = 0x00;
        data_field = (0x83 ∷ encode_length (length values)) ++ values;
        le = some 0x00;
      },
      rw (values_lem pdol store h, append_ber_length_lem (0x83 ∷ []) (length values) short) refl,
      ap parse_many (read_template values)
          ∙ parse_many_complete (command_template values) (template-WellFormed values short)
              (omega arith),
      omega (
        arith,
        short,
        length-append (encode_length (length values)) values,
        length-encode_length (length values) small,
      ),
    )

-- What `with_cda` accepts keeps the two bits of the request.
abbrev keeps_request : ℕ → ℕ → Bool
keeps_request p bits = if bit_and bits 0xc0 == 0 then bit_and (bit_or p bits) 0xc0 == p else true

aac_table : all_below 256 (keeps_request 0x00) ≡ true
unfolding all_below
aac_table = refl

tc_table : all_below 256 (keeps_request 0x40) ≡ true
unfolding all_below
tc_table = refl

arqc_table : all_below 256 (keeps_request 0x80) ≡ true
unfolding all_below
arqc_table = refl

keeps : (r : CryptogramRequest) (bits : ℕ) → bits < 256 → keeps_request (request_p1 r) bits ≡ true
keeps CryptogramRequest.aac bits h = all_below_sound 256 (keeps_request 0x00) bits aac_table h
keeps CryptogramRequest.tc bits h = all_below_sound 256 (keeps_request 0x40) bits tc_table h
keeps CryptogramRequest.arqc bits h = all_below_sound 256 (keeps_request 0x80) bits arqc_table h

-- The bits of a control are one byte.
abbrev pub IsControl : CdaRequestControl → Type 0
IsControl (CdaRequestControl.p1_low_bits bits) = bits < 256
IsControl _ = Unit {0}

-- A GENERATE AC that is built asks for the cryptogram requested: the two top bits of its P1 are
-- those of the request, whatever CDA bits are added; and its data fit a short command.
pub generate_ac_p1 :
    (r : CryptogramRequest) (values : List ℕ) (control : CdaRequestControl) (c : CommandApdu)
    → IsControl control
    → generate_ac r values control ≡ okay c
    → (bit_and c.p1 0xc0 ≡ request_p1 r)
      × (c.data_field ≡ values)
      × (length c.data_field ≤ max_short_apdu_data_len)
unfolding generate_ac with_cda
generate_ac_p1 r values (CdaRequestControl.p1_low_bits bits) c h e =
    (ground (arith, keeps r bits h), ground arith, ground arith)
generate_ac_p1 CryptogramRequest.aac values CdaRequestControl.not_requested c h e =
    (ground arith, ground arith, ground arith)
generate_ac_p1 CryptogramRequest.tc values CdaRequestControl.not_requested c h e =
    (ground arith, ground arith, ground arith)
generate_ac_p1 CryptogramRequest.arqc values CdaRequestControl.not_requested c h e =
    (ground arith, ground arith, ground arith)
generate_ac_p1 CryptogramRequest.aac values CdaRequestControl.in_cdol_data c h e =
    (ground arith, ground arith, ground arith)
generate_ac_p1 CryptogramRequest.tc values CdaRequestControl.in_cdol_data c h e =
    (ground arith, ground arith, ground arith)
generate_ac_p1 CryptogramRequest.arqc values CdaRequestControl.in_cdol_data c h e =
    (ground arith, ground arith, ground arith)
