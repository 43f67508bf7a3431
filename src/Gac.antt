-- ===== src/Gac.antt =====
-- src/gac.rs with src/cid.rs: the answer to GENERATE AC in its two formats, and what is sent online.
pub mod Formats
pub mod Bounds
mod Tests
use hyperion_x_emv.Base.{
  ℕ, zero, suc, ◌+◌, bit_and, Bool, true, false, not, ◌&&◌, ◌||◌, List, [], ◌∷◌, ◌++◌, Option, some,
  none, ltb, leb, ◌==◌, ◌=s=◌, if◌then◌else◌, length, take, drop, get_or, is_empty, KernelError,
  KernelResult, okay, err, ◌>>=◌, ◌>>◌, fail_if, ok_or,
}
use hyperion_x_emv.Base.Bits.{meets}
use hyperion_x_emv.Tlv.{Tlv, Tlvs, node, nil, cons, parse_many, find_unique_direct, any_constructed}
use hyperion_x_emv.Dol.Store.{DataStore, get}

abbrev pub max_issuer_application_data_len : ℕ
max_issuer_application_data_len = 32

abbrev pub min_oda_signature_bytes : ℕ
min_oda_signature_bytes = 8

pub data CryptogramType : Type 0 where
  aac tc arqc application_authentication_referral : CryptogramType

-- The raw byte of the cryptogram information data.
pub record Cid : Type 0 where
  pub raw : ℕ

unfoldable pub cryptogram_type : Cid → CryptogramType
cryptogram_type cid =
    if bit_and cid.raw 0xc0 == 0x00
    then CryptogramType.aac
    else if bit_and cid.raw 0xc0 == 0x40
    then CryptogramType.tc
    else if bit_and cid.raw 0xc0 == 0x80
    then CryptogramType.arqc
    else CryptogramType.application_authentication_referral

abbrev pub advice_required : Cid → Bool
advice_required cid = meets cid.raw 0x08

abbrev pub reason_advice_code : Cid → ℕ
reason_advice_code cid = bit_and cid.raw 0x07

pub record GenerateAcResponse : Type 0 where
  pub cid : Cid
  pub application_cryptogram : List ℕ
  pub atc : List ℕ
  pub iad : List ℕ
  pub icc_dynamic_number : Option (List ℕ)
  pub signed_dynamic_application_data : Option (List ℕ)

unfoldable pub issuer_application_data : List ℕ → KernelResult (List ℕ)
issuer_application_data value =
    if ltb max_issuer_application_data_len (length value)
    then err KernelError.parse_error
    else okay value

unfoldable pub parse_format_1 : List ℕ → KernelResult GenerateAcResponse
unfolding issuer_application_data
parse_format_1 value = do
  fail_if (not (leb 11 (length value) && leb (length value) (11 + max_issuer_application_data_len)))
      KernelError.parse_error
  data_of_issuer ← issuer_application_data (drop 11 value)
  okay (record {
    cid = record { raw = get_or value 0 0 };
    application_cryptogram = take 8 (drop 3 value);
    atc = get_or value 1 0 ∷ get_or value 2 0 ∷ [];
    iad = data_of_issuer;
    icc_dynamic_number = none;
    signed_dynamic_application_data = none;
  })

unfoldable pub fixed : ℕ → Tlvs → List ℕ → KernelResult (List ℕ)
fixed n kids t = do
  found ← find_unique_direct kids t
  value ← ok_or found KernelError.missing_mandatory_tag
  fail_if (not (length value == n)) KernelError.parse_error
  okay value

unfoldable pub optional_issuer_application_data : Option (List ℕ) → KernelResult (List ℕ)
unfolding issuer_application_data
optional_issuer_application_data none = okay []
optional_issuer_application_data (some value) = issuer_application_data value

unfoldable pub optional_non_empty : Tlvs → List ℕ → KernelResult (Option (List ℕ))
optional_non_empty kids t = do
  found ← find_unique_direct kids t
  elim found [
    | none ↦ okay none
    | some value ↦ if is_empty value then err KernelError.parse_error else okay (some value)
  ]

unfoldable pub optional_signed_dynamic_application_data :
    Tlvs → List ℕ → KernelResult (Option (List ℕ))
optional_signed_dynamic_application_data kids t = do
  found ← find_unique_direct kids t
  elim found [
    | none ↦ okay none
    | some value ↦
        if ltb (length value) min_oda_signature_bytes
        then err KernelError.invalid_profile
        else okay (some value)
  ]

unfoldable pub parse_format_2 : Tlvs → KernelResult GenerateAcResponse
unfolding fixed optional_issuer_application_data optional_non_empty
    optional_signed_dynamic_application_data
parse_format_2 kids = do
  fail_if (any_constructed kids) KernelError.parse_error
  information ← fixed 1 kids (0x9f ∷ 0x27 ∷ [])
  cryptogram ← fixed 8 kids (0x9f ∷ 0x26 ∷ [])
  counter ← fixed 2 kids (0x9f ∷ 0x36 ∷ [])
  found ← find_unique_direct kids (0x9f ∷ 0x10 ∷ [])
  data_of_issuer ← optional_issuer_application_data found
  number ← optional_non_empty kids (0x9f ∷ 0x4c ∷ [])
  signed ← optional_signed_dynamic_application_data kids (0x9f ∷ 0x4b ∷ [])
  okay (record {
    cid = record { raw = get_or information 0 0 };
    application_cryptogram = cryptogram;
    atc = counter;
    iad = data_of_issuer;
    icc_dynamic_number = number;
    signed_dynamic_application_data = signed;
  })

-- The `match` on the one template.
unfoldable pub from_templates : Tlvs → KernelResult GenerateAcResponse
unfolding parse_format_1 parse_format_2
from_templates (cons (node t v c kids) nil) =
    if t =s= (0x80 ∷ [])
    then parse_format_1 v
    else if t =s= (0x77 ∷ [])
    then parse_format_2 kids
    else err KernelError.missing_mandatory_tag
from_templates _ = err KernelError.missing_mandatory_tag

unfoldable pub parse_generate_ac_response : List ℕ → KernelResult GenerateAcResponse
unfolding from_templates
parse_generate_ac_response input = do tlvs ← parse_many input; from_templates tlvs

pub record TagValue : Type 0 where
  pub tag : List ℕ
  pub value : List ℕ

-- The tags taken from the store, in order.
abbrev pub online_tags : List (List ℕ)
online_tags =
    (0x9f ∷ 0x37 ∷ [])
    ∷ (0x95 ∷ [])
    ∷ (0x9a ∷ [])
    ∷ (0x9c ∷ [])
    ∷ (0x9f ∷ 0x02 ∷ [])
    ∷ (0x5f ∷ 0x2a ∷ [])
    ∷ (0x82 ∷ [])
    ∷ (0x9f ∷ 0x1a ∷ [])
    ∷ (0x9f ∷ 0x33 ∷ [])
    ∷ (0x9f ∷ 0x40 ∷ [])
    ∷ (0x9f ∷ 0x34 ∷ [])
    ∷ (0x9f ∷ 0x66 ∷ [])
    ∷ (0x5a ∷ [])
    ∷ (0x57 ∷ [])
    ∷ []

unfoldable pub stored_objects : List (List ℕ) → DataStore → List TagValue
stored_objects [] store = []
stored_objects (t ∷ ts) store =
    let rest = stored_objects ts store in
    elim (get store t) [ none ↦ rest | some v ↦ record { tag = t; value = v } ∷ rest ]

unfoldable pub build_online_authorization_package : GenerateAcResponse → DataStore → List TagValue
unfolding stored_objects
build_online_authorization_package response store =
    (record { tag = 0x9f ∷ 0x26 ∷ []; value = response.application_cryptogram }
      ∷ record { tag = 0x9f ∷ 0x27 ∷ []; value = response.cid.raw ∷ [] }
      ∷ record { tag = 0x9f ∷ 0x36 ∷ []; value = response.atc }
      ∷ [])
    ++ (if is_empty response.iad
        then []
        else record { tag = 0x9f ∷ 0x10 ∷ []; value = response.iad } ∷ [])
    ++ stored_objects online_tags store
