-- ===== src/Apdu.antt =====
-- src/apdu.rs: the command APDUs of the kernel and their short encoding.
pub mod Codec
pub mod Commands
mod Tests
use hyperion_x_emv.Base.{
  ℕ, ◌+◌, ◌*◌, ◌%◌, ◌^◌, bit_and, bit_or, Bool, true, false, not, ◌&&◌, ◌||◌, List, [], ◌∷◌, ◌++◌,
  Option, some, none, ltb, leb, ◌==◌, if◌then◌else◌, length, is_empty, KernelError, KernelResult,
  okay, err, ◌>>=◌, ◌>>◌, fail_if,
}
use hyperion_x_emv.Base.Bits.{meets}
use hyperion_x_emv.Dol.{
  DolEntry, DolPaddingPolicy, build_dol_with_policy, zero_pad_missing_and_short,
}
use hyperion_x_emv.Dol.Store.{DataStore}

-- "1PAY.SYS.DDF01" and "2PAY.SYS.DDF01"
abbrev pub pay_sys_ddf01 : List ℕ
pay_sys_ddf01 =
    0x50 ∷ 0x41 ∷ 0x59 ∷ 0x2e ∷ 0x53 ∷ 0x59 ∷ 0x53 ∷ 0x2e ∷ 0x44 ∷ 0x44 ∷ 0x46 ∷ 0x30 ∷ 0x31 ∷ []

abbrev pub contact_pse : List ℕ
contact_pse = 0x31 ∷ pay_sys_ddf01

abbrev pub contactless_ppse : List ℕ
contactless_ppse = 0x32 ∷ pay_sys_ddf01

abbrev pub min_aid_len : ℕ
min_aid_len = 5

abbrev pub max_aid_len : ℕ
max_aid_len = 16

abbrev pub max_short_apdu_data_len : ℕ
max_short_apdu_data_len = 255

abbrev pub max_gpo_pdol_value_len : ℕ
max_gpo_pdol_value_len = 252

abbrev pub min_issuer_authentication_data_len : ℕ
min_issuer_authentication_data_len = 8

abbrev pub max_issuer_authentication_data_len : ℕ
max_issuer_authentication_data_len = 16

pub data Interface : Type 0 where
  contact contactless : Interface

pub record CommandApdu : Type 0 where
  pub cla : ℕ
  pub ins : ℕ
  pub p1 : ℕ
  pub p2 : ℕ
  pub data_field : List ℕ
  pub le : Option ℕ

-- What `encode` appends after the header.
unfoldable pub encode_data : List ℕ → List ℕ
encode_data [] = []
encode_data (b ∷ bs) = (length (b ∷ bs) % 2 ^ 8) ∷ b ∷ bs

unfoldable pub encode_le : Option ℕ → List ℕ
encode_le none = []
encode_le (some n) = n ∷ []

unfoldable pub encode : CommandApdu → KernelResult (List ℕ)
unfolding encode_data encode_le
encode c =
    if ltb max_short_apdu_data_len (length c.data_field)
    then err KernelError.length_overflow
    else okay ((c.cla ∷ c.ins ∷ c.p1 ∷ c.p2 ∷ []) ++ encode_data c.data_field ++ encode_le c.le)

pub data CryptogramRequest : Type 0 where
  aac tc arqc : CryptogramRequest

abbrev pub request_p1 : CryptogramRequest → ℕ
request_p1 CryptogramRequest.aac = 0x00
request_p1 CryptogramRequest.tc = 0x40
request_p1 CryptogramRequest.arqc = 0x80

pub data CdaRequestControl : Type 0 where
  not_requested in_cdol_data : CdaRequestControl
  p1_low_bits : ℕ → CdaRequestControl

abbrev pub select_by_name : List ℕ → ℕ → CommandApdu
select_by_name name parameter = record {
  cla = 0x00;
  ins = 0xa4;
  p1 = 0x04;
  p2 = parameter;
  data_field = name;
  le = some 0x00;
}

abbrev pub select_environment : Interface → CommandApdu
select_environment Interface.contact = select_by_name contact_pse 0x00
select_environment Interface.contactless = select_by_name contactless_ppse 0x00

unfoldable pub select_aid : List ℕ → ℕ → KernelResult CommandApdu
select_aid aid parameter =
    if not (leb min_aid_len (length aid) && leb (length aid) max_aid_len)
      || not (parameter == 0x00 || parameter == 0x02)
    then err KernelError.invalid_argument
    else okay (select_by_name aid parameter)

unfoldable pub append_ber_length : List ℕ → ℕ → KernelResult (List ℕ)
append_ber_length out n =
    if leb n 0x7f
    then okay (out ++ (n ∷ []))
    else if leb n 0xff
    then okay (out ++ (0x81 ∷ n ∷ []))
    else err KernelError.length_overflow

unfoldable pub get_processing_options : List DolEntry → DataStore → KernelResult CommandApdu
unfolding append_ber_length
get_processing_options pdol store = do
  pdol_values ← build_dol_with_policy pdol store zero_pad_missing_and_short
  template ← append_ber_length (0x83 ∷ []) (length pdol_values)
  okay (record {
    cla = 0x80;
    ins = 0xa8;
    p1 = 0x00;
    p2 = 0x00;
    data_field = template ++ pdol_values;
    le = some 0x00;
  })

unfoldable pub read_record : ℕ → ℕ → KernelResult CommandApdu
read_record number sfi =
    if number == 0 || sfi == 0 || ltb 30 sfi
    then err KernelError.invalid_argument
    else okay (record {
      cla = 0x00;
      ins = 0xb2;
      p1 = number;
      p2 = bit_or (sfi * 2 ^ 3 % 2 ^ 8) 0x04;
      data_field = [];
      le = some 0x00;
    })

unfoldable pub internal_authenticate : List ℕ → KernelResult CommandApdu
internal_authenticate ddol_values =
    if ltb max_short_apdu_data_len (length ddol_values)
    then err KernelError.length_overflow
    else okay (record {
      cla = 0x00;
      ins = 0x88;
      p1 = 0x00;
      p2 = 0x00;
      data_field = ddol_values;
      le = some 0x00;
    })

unfoldable pub internal_authenticate_from_ddol :
    List DolEntry → DataStore → KernelResult CommandApdu
unfolding internal_authenticate
internal_authenticate_from_ddol ddol store = do
  ddol_values ← build_dol_with_policy ddol store zero_pad_missing_and_short
  internal_authenticate ddol_values

unfoldable pub external_authenticate : List ℕ → KernelResult CommandApdu
external_authenticate iad =
    if ltb max_short_apdu_data_len (length iad)
    then err KernelError.length_overflow
    else if not (
        leb min_issuer_authentication_data_len (length iad)
        && leb (length iad) max_issuer_authentication_data_len)
    then err KernelError.invalid_argument
    else okay (record { cla = 0x00; ins = 0x82; p1 = 0x00; p2 = 0x00; data_field = iad; le = none })

abbrev pub get_response : ℕ → CommandApdu
get_response n = record {
  cla = 0x00;
  ins = 0xc0;
  p1 = 0x00;
  p2 = 0x00;
  data_field = [];
  le = some n;
}

-- `p1` with the bits that ask for CDA.
unfoldable pub with_cda : ℕ → CdaRequestControl → KernelResult ℕ
with_cda p (CdaRequestControl.p1_low_bits bits) =
    if meets bits 0xc0 then err KernelError.invalid_profile else okay (bit_or p bits)
with_cda p _ = okay p

unfoldable pub generate_ac :
    CryptogramRequest → List ℕ → CdaRequestControl → KernelResult CommandApdu
unfolding with_cda
generate_ac request cdol_values cda_control = do
  fail_if (ltb max_short_apdu_data_len (length cdol_values)) KernelError.length_overflow
  p ← with_cda (request_p1 request) cda_control
  okay (record {
    cla = 0x80;
    ins = 0xae;
    p1 = p;
    p2 = 0x00;
    data_field = cdol_values;
    le = some 0x00;
  })
