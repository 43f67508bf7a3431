-- ===== src/Config.antt =====
-- The data of src/config.rs, with the checks between the schemes; src/aip.rs and src/transaction.rs.
-- Texts are lists of their bytes.
mod Tests
pub mod Scope
use hyperion_x_emv.Base.{
  ℕ, ◌+◌, bit_and, Bool, true, false, not, ◌&&◌, ◌||◌, List, [], ◌∷◌, Option, some, none, leb, ◌==◌,
  ◌=s=◌, if◌then◌else◌, length, any, is_some, get_or, KernelError, KernelResult, okay, err, ◌>>=◌,
  ◌>>◌, fail_if,
}
use hyperion_x_emv.Base.Bits.{meets}
use hyperion_x_emv.Contactless.{RelayResistanceProfile}
use hyperion_x_emv.Restrictions.{EmvDate}
use hyperion_x_emv.Taa.{ActionCodes, TaaProfile}
use hyperion_x_emv.Trm.{TransactionTypeFloorLimit, TrmProfile, with_transaction_type_floor_limits}

pub data BuildMode : Type 0 where
  test certification production : BuildMode

pub data SignatureStatus : Type 0 where
  not_present invalid verified : SignatureStatus

pub data ProfileClass : Type 0 where
  certification example_only : ProfileClass

pub record ProfileSource : Type 0 where
  pub owner : List ℕ
  pub document : List ℕ
  pub version : List ℕ
  pub retrieved : Option EmvDate
  pub verification : List ℕ

pub data CdaRequestEncoding : Type 0 where
  in_cdol_data : CdaRequestEncoding
  p1_low_bits : ℕ → CdaRequestEncoding

pub data CdaAuthenticationData : Type 0 where
  application_cryptogram application_cryptogram_and_icc_dynamic_number : CdaAuthenticationData

pub record Capk : Type 0 where
  pub rid : List ℕ
  pub key_index : ℕ
  pub modulus : List ℕ
  pub exponent : List ℕ
  pub expiry : EmvDate
  pub checksum : List ℕ
  pub source : ProfileSource

pub record AidProfile : Type 0 where
  pub aid : List ℕ
  pub priority : ℕ
  pub partial_selection : Bool
  pub interfaces : List (List ℕ)
  pub action_codes : ActionCodes
  pub issuer_action_codes : ActionCodes
  pub floor_limit : ℕ
  pub transaction_type_floor_limits : List TransactionTypeFloorLimit
  pub cvm_limit_contact : ℕ
  pub random_selection_percent : ℕ
  pub lower_consecutive_offline_limit : Option ℕ
  pub upper_consecutive_offline_limit : Option ℕ
  pub contactless_transaction_limit : ℕ
  pub contactless_cvm_limit : ℕ
  pub cdcvm_supported : Bool
  pub cda_supported : Bool
  pub cda_request_encoding : Option CdaRequestEncoding
  pub cda_authentication_data : CdaAuthenticationData
  pub default_cdol1 : Option (List ℕ)
  pub critical_issuer_script_ins : List ℕ
  pub relay_resistance : Option RelayResistanceProfile

pub record SchemeProfile : Type 0 where
  pub scheme_name : List ℕ
  pub rid : List ℕ
  pub kernel_type : List ℕ
  pub contact_kernel_type : Option (List ℕ)
  pub taa : TaaProfile
  pub aids : List AidProfile
  pub capks : List Capk

pub record ProfileSet : Type 0 where
  pub version : ℕ
  pub profile_class : ProfileClass
  pub profile_source : ProfileSource
  pub schemes : List SchemeProfile

pub record ConfigLoadPolicy : Type 0 where
  pub mode : BuildMode
  pub signature_status : SignatureStatus
  pub installed_version : ℕ
  pub candidate_version : ℕ
  pub evaluation_date : EmvDate

unfoldable pub trm_profile : AidProfile → Option TrmProfile
trm_profile profile =
    with_transaction_type_floor_limits profile.floor_limit profile.transaction_type_floor_limits
      profile.random_selection_percent profile.lower_consecutive_offline_limit
      profile.upper_consecutive_offline_limit

unfoldable pub cda_allowed_by_profile : AidProfile → Bool
cda_allowed_by_profile profile = profile.cda_supported && is_some profile.cda_request_encoding

-- `matches!(policy.mode, BuildMode::Certification | BuildMode::Production)`
abbrev pub is_signed_mode : BuildMode → Bool
is_signed_mode BuildMode.test = false
is_signed_mode BuildMode.certification = true
is_signed_mode BuildMode.production = true

abbrev pub is_verified : SignatureStatus → Bool
is_verified SignatureStatus.verified = true
is_verified _ = false

-- The guards of `load_profile_set`, before it reads the file.
unfoldable pub check_policy : ConfigLoadPolicy → KernelResult (Unit {0})
check_policy policy = do
  fail_if (is_signed_mode policy.mode && not (is_verified policy.signature_status))
      KernelError.invalid_profile
  fail_if (leb policy.candidate_version policy.installed_version) KernelError.invalid_profile

-- The loop of `reject_duplicate_scheme_rids`, with the schemes before the rest.
unfoldable pub reject_duplicate_from :
    List SchemeProfile → List SchemeProfile → KernelResult (Unit {0})
reject_duplicate_from before [] = okay tt
reject_duplicate_from before (scheme ∷ schemes) = do
  fail_if (any (λ (prior : SchemeProfile). prior.rid =s= scheme.rid) before)
      KernelError.invalid_profile
  reject_duplicate_from (scheme ∷ before) schemes

unfoldable pub reject_duplicate_scheme_rids : List SchemeProfile → KernelResult (Unit {0})
unfolding reject_duplicate_from
reject_duplicate_scheme_rids schemes = reject_duplicate_from [] schemes

unfoldable pub validate_certification_scope_scheme_profiles :
    Option (List (List ℕ)) → List SchemeProfile → KernelResult (Unit {0})
validate_certification_scope_scheme_profiles none schemes = okay tt
validate_certification_scope_scheme_profiles (some bundled) schemes = do
  fail_if (not (length bundled == length schemes)) KernelError.invalid_profile
  fail_if
      (any (λ (scheme : SchemeProfile). not (any (λ name. name =s= scheme.scheme_name) bundled))
          schemes
        || any (λ name. not (any (λ (scheme : SchemeProfile). scheme.scheme_name =s= name) schemes))
            bundled)
      KernelError.invalid_profile

-- src/aip.rs
pub record ApplicationInterchangeProfile : Type 0 where
  pub raw : List ℕ

unfoldable pub parse_aip : List ℕ → KernelResult ApplicationInterchangeProfile
parse_aip bytes = do
  fail_if (not (length bytes == 2)) KernelError.missing_mandatory_tag
  okay (record { raw = bytes })

unfoldable pub sda_supported : ApplicationInterchangeProfile → Bool
sda_supported aip = meets (get_or aip.raw 0 0) 0x80

unfoldable pub dda_supported : ApplicationInterchangeProfile → Bool
dda_supported aip = meets (get_or aip.raw 0 0) 0x40

unfoldable pub cda_supported : ApplicationInterchangeProfile → Bool
cda_supported aip = meets (get_or aip.raw 1 0) 0x80

unfoldable pub oda_required : ApplicationInterchangeProfile → Bool
unfolding sda_supported dda_supported cda_supported
oda_required aip = sda_supported aip || dda_supported aip || cda_supported aip

-- src/transaction.rs; a currency exponent and a transaction type are their byte.
pub data RuntimeService : Type 0 where
  goods_or_services cash cashback : RuntimeService

pub data CvmTransactionClass : Type 0 where
  non_cash unattended_cash manual_cash purchase_with_cashback : CvmTransactionClass

unfoldable pub currency_exponent_from_value : ℕ → KernelResult ℕ
currency_exponent_from_value value =
    if leb value 9 then okay value else err KernelError.invalid_argument

unfoldable pub parse_currency_exponent : List ℕ → KernelResult ℕ
unfolding currency_exponent_from_value
parse_currency_exponent raw = do
  fail_if (not (length raw == 1)) KernelError.parse_error
  currency_exponent_from_value (get_or raw 0 0)

unfoldable pub parse_transaction_type : List ℕ → KernelResult ℕ
parse_transaction_type raw = do
  fail_if (not (length raw == 1)) KernelError.parse_error
  okay (get_or raw 0 0)

unfoldable pub runtime_service : ℕ → RuntimeService
runtime_service value =
    if value == 0x01
    then RuntimeService.cash
    else if value == 0x09 || value == 0x17
    then RuntimeService.cashback
    else RuntimeService.goods_or_services

unfoldable pub cvm_transaction_class : ℕ → Bool → CvmTransactionClass
cvm_transaction_class value terminal_type_is_atm =
    if terminal_type_is_atm
    then CvmTransactionClass.unattended_cash
    else if value == 0x01
    then CvmTransactionClass.manual_cash
    else if value == 0x09 || value == 0x17
    then CvmTransactionClass.purchase_with_cashback
    else CvmTransactionClass.non_cash
