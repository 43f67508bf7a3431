-- ===== src/Cvm.antt =====
-- src/cvm.rs: the cardholder verification.
pub mod Lists
pub mod Rules
mod Tests
use hyperion_x_emv.Base.{
  ℕ, ◌+◌, ◌-◌, ◌*◌, ◌/◌, ◌%◌, ◌^◌, bit_and, Bool, true, false, not, ◌&&◌, ◌||◌, List, [], ◌∷◌,
  Option, some, none, ltb, leb, ◌==◌, if◌then◌else◌, length, drop, get_or, is_some, KernelError,
  KernelResult, okay, err, ◌>>=◌, ◌>>◌, fail_if,
}
use hyperion_x_emv.Base.Bits.{meets}
use hyperion_x_emv.State.Bitmap.{Bit}
use hyperion_x_emv.State.Tvr
use hyperion_x_emv.Sw.{StatusWord, ApduContext, StatusAction, classify}

abbrev pub max_cvm_rules : ℕ
max_cvm_rules = 64

abbrev pub cvm_list_amount_bytes : ℕ
cvm_list_amount_bytes = 8

abbrev pub cvm_rule_bytes : ℕ
cvm_rule_bytes = 2

-- `PedPinHandle(u64)`
abbrev pub PedPinHandle : Type 0
PedPinHandle = ℕ

pub data CvmMethod : Type 0 where
  offline_plaintext_pin online_pin offline_plaintext_pin_and_signature : CvmMethod
  offline_enciphered_pin offline_enciphered_pin_and_signature signature : CvmMethod
  fail_cvm_processing no_cvm_required : CvmMethod
  scheme_specific unknown : ℕ → CvmMethod

unfoldable pub from_code : ℕ → CvmMethod
from_code code =
    let method = bit_and code 0x3f in
    if method == 0x01
    then CvmMethod.offline_plaintext_pin
    else if method == 0x02
    then CvmMethod.online_pin
    else if method == 0x03
    then CvmMethod.offline_plaintext_pin_and_signature
    else if method == 0x04
    then CvmMethod.offline_enciphered_pin
    else if method == 0x05
    then CvmMethod.offline_enciphered_pin_and_signature
    else if method == 0x06
    then CvmMethod.signature
    else if method == 0x1e
    then CvmMethod.fail_cvm_processing
    else if method == 0x1f
    then CvmMethod.no_cvm_required
    else if leb 0x20 method && leb method 0x3f
    then CvmMethod.scheme_specific method
    else CvmMethod.unknown method

unfoldable pub requires_offline_pin : CvmMethod → Bool
requires_offline_pin CvmMethod.offline_plaintext_pin = true
requires_offline_pin CvmMethod.offline_plaintext_pin_and_signature = true
requires_offline_pin CvmMethod.offline_enciphered_pin = true
requires_offline_pin CvmMethod.offline_enciphered_pin_and_signature = true
requires_offline_pin _ = false

pub record CvmRule : Type 0 where
  pub raw_code : ℕ
  pub method : CvmMethod
  pub condition_code : ℕ

abbrev pub continue_on_failure : CvmRule → Bool
continue_on_failure rule = meets rule.raw_code 0x40

pub record CvmList : Type 0 where
  pub amount_x : ℕ
  pub amount_y : ℕ
  pub rules : List CvmRule

pub data Interface : Type 0 where
  contact contactless : Interface

pub data CvmTransactionType : Type 0 where
  non_cash unattended_cash manual_cash purchase_with_cashback : CvmTransactionType

pub record CvmContext : Type 0 where
  pub amount_authorized : ℕ
  pub transaction_currency_matches_application : Bool
  pub transaction_type : CvmTransactionType
  pub interface : Interface
  pub offline_pin_supported : Bool
  pub online_pin_supported : Bool
  pub signature_supported : Bool
  pub cdcvm_performed : Bool

-- Those with a handle take it as their argument.
pub data CvmAction : Type 0 where
  no_cvm do_online_pin do_signature cdcvm : CvmAction
  do_offline_plaintext_pin do_offline_enciphered_pin : PedPinHandle → CvmAction
  do_offline_plaintext_pin_and_signature : PedPinHandle → CvmAction
  do_offline_enciphered_pin_and_signature : PedPinHandle → CvmAction

pub record CvmPinHandles : Type 0 where
  pub offline_plaintext : Option PedPinHandle
  pub offline_enciphered : Option PedPinHandle

pub data CvmOutcome : Type 0 where
  -- `action`, `cvm_results`, `tvr_bit`
  selected : CvmAction → List ℕ → Option Bit → CvmOutcome
  -- `cvm_results`, `tvr_bit`
  failed : List ℕ → Bit → CvmOutcome

pub record OfflinePinVerifyOutcome : Type 0 where
  pub cvm_results : List ℕ
  pub tries_remaining : Option ℕ
  pub tvr_bit : Option Bit

-- `u32::from_be_bytes`
abbrev pub from_be_bytes : ℕ → ℕ → ℕ → ℕ → ℕ
from_be_bytes b0 b1 b2 b3 = b0 * 2 ^ 24 + b1 * 2 ^ 16 + b2 * 2 ^ 8 + b3

-- The loop over `input[8..].chunks_exact(2)`.
unfoldable pub parse_rules : List ℕ → List CvmRule
unfolding from_code
parse_rules (raw_code ∷ condition_code ∷ rest) =
    record { raw_code = raw_code; method = from_code raw_code; condition_code = condition_code }
    ∷ parse_rules rest
parse_rules _ = []

unfoldable pub parse_cvm_list : List ℕ → KernelResult CvmList
unfolding parse_rules
parse_cvm_list input =
    if ltb (length input) cvm_list_amount_bytes
      || not ((length input - cvm_list_amount_bytes) % cvm_rule_bytes == 0)
    then err KernelError.parse_error
    else if ltb max_cvm_rules ((length input - cvm_list_amount_bytes) / cvm_rule_bytes)
    then err KernelError.length_overflow
    else okay (record {
      amount_x =
          from_be_bytes (get_or input 0 0) (get_or input 1 0) (get_or input 2 0) (get_or input 3 0);
      amount_y =
          from_be_bytes (get_or input 4 0) (get_or input 5 0) (get_or input 6 0) (get_or input 7 0);
      rules = parse_rules (drop 8 input);
    })

abbrev pub cvm_results : CvmRule → ℕ → List ℕ
cvm_results rule result = bit_and rule.raw_code 0x3f ∷ rule.condition_code ∷ result ∷ []

-- The `match` on the class of the status word.
unfoldable pub verify_outcome : CvmRule → StatusAction → KernelResult OfflinePinVerifyOutcome
verify_outcome rule StatusAction.success =
    okay (record { cvm_results = cvm_results rule 0x02; tries_remaining = none; tvr_bit = none })
verify_outcome rule (StatusAction.pin_failed tries) = okay (record {
  cvm_results = cvm_results rule 0x01;
  tries_remaining = some tries;
  tvr_bit = some (
      if tries == 0
      then Tvr.b3_pin_try_limit_exceeded
      else Tvr.b3_cardholder_verification_not_successful);
})
verify_outcome rule (StatusAction.fail e) = err e
verify_outcome rule _ = err KernelError.invalid_argument

unfoldable pub apply_offline_pin_verify_status :
    CvmRule → StatusWord → KernelResult OfflinePinVerifyOutcome
unfolding verify_outcome requires_offline_pin
apply_offline_pin_verify_status rule sw =
    if not (requires_offline_pin rule.method)
    then err KernelError.invalid_argument
    else verify_outcome rule (classify ApduContext.verify sw)

-- `handle.map(action)` under a guard
abbrev pub with_handle : Bool → Option PedPinHandle → (PedPinHandle → CvmAction) → Option CvmAction
with_handle true (some handle) action = some (action handle)
with_handle _ _ action = none

abbrev pub then_action : Bool → CvmAction → Option CvmAction
then_action true action = some action
then_action false action = none

abbrev pub is_contactless : Interface → Bool
is_contactless Interface.contactless = true
is_contactless Interface.contact = false

unfoldable pub action_for_method : CvmMethod → CvmContext → CvmPinHandles → Option CvmAction
action_for_method CvmMethod.no_cvm_required context handles = some CvmAction.no_cvm
action_for_method CvmMethod.online_pin context handles =
    then_action context.online_pin_supported CvmAction.do_online_pin
action_for_method CvmMethod.signature context handles =
    then_action context.signature_supported CvmAction.do_signature
action_for_method CvmMethod.offline_plaintext_pin context handles =
    with_handle context.offline_pin_supported handles.offline_plaintext
      CvmAction.do_offline_plaintext_pin
action_for_method CvmMethod.offline_enciphered_pin context handles =
    with_handle context.offline_pin_supported handles.offline_enciphered
      CvmAction.do_offline_enciphered_pin
action_for_method CvmMethod.offline_plaintext_pin_and_signature context handles =
    with_handle (context.offline_pin_supported && context.signature_supported)
      handles.offline_plaintext CvmAction.do_offline_plaintext_pin_and_signature
action_for_method CvmMethod.offline_enciphered_pin_and_signature context handles =
    with_handle (context.offline_pin_supported && context.signature_supported)
      handles.offline_enciphered CvmAction.do_offline_enciphered_pin_and_signature
action_for_method (CvmMethod.scheme_specific code) context handles =
    then_action (is_contactless context.interface && context.cdcvm_performed) CvmAction.cdcvm
action_for_method CvmMethod.fail_cvm_processing context handles = none
action_for_method (CvmMethod.unknown code) context handles = none

unfoldable pub pin_cvm_unavailable_bit : Bool → Option PedPinHandle → Option Bit
pin_cvm_unavailable_bit false handle = some Tvr.b3_pin_pad_not_present_or_not_working
pin_cvm_unavailable_bit true none = some Tvr.b3_pin_not_entered
pin_cvm_unavailable_bit true (some handle) = none

unfoldable pub cvm_unavailable_bit : CvmMethod → CvmContext → CvmPinHandles → Option Bit
unfolding pin_cvm_unavailable_bit
cvm_unavailable_bit (CvmMethod.unknown code) context handles = some Tvr.b3_unrecognized_cvm
cvm_unavailable_bit CvmMethod.online_pin context handles =
    if not context.online_pin_supported
    then some Tvr.b3_pin_pad_not_present_or_not_working
    else none
cvm_unavailable_bit CvmMethod.offline_plaintext_pin context handles =
    pin_cvm_unavailable_bit context.offline_pin_supported handles.offline_plaintext
cvm_unavailable_bit CvmMethod.offline_plaintext_pin_and_signature context handles =
    pin_cvm_unavailable_bit context.offline_pin_supported handles.offline_plaintext
cvm_unavailable_bit CvmMethod.offline_enciphered_pin context handles =
    pin_cvm_unavailable_bit context.offline_pin_supported handles.offline_enciphered
cvm_unavailable_bit CvmMethod.offline_enciphered_pin_and_signature context handles =
    pin_cvm_unavailable_bit context.offline_pin_supported handles.offline_enciphered
cvm_unavailable_bit _ context handles = none

-- `observed_tvr_bit.or_else(…).unwrap_or(…)`
abbrev pub first_bit : Option Bit → Option Bit → Bit
first_bit (some bit) other = bit
first_bit none (some bit) = bit
first_bit none none = Tvr.b3_cardholder_verification_not_successful

unfoldable pub cvm_failed : CvmRule → CvmContext → CvmPinHandles → Option Bit → CvmOutcome
unfolding cvm_unavailable_bit
cvm_failed rule context handles observed =
    CvmOutcome.failed (cvm_results rule 0x01)
      (first_bit observed (cvm_unavailable_bit rule.method context handles))

unfoldable pub terminal_supports_method : CvmMethod → CvmContext → Bool
terminal_supports_method CvmMethod.online_pin context = context.online_pin_supported
terminal_supports_method CvmMethod.signature context = context.signature_supported
terminal_supports_method CvmMethod.no_cvm_required context = true
terminal_supports_method CvmMethod.fail_cvm_processing context = true
terminal_supports_method (CvmMethod.scheme_specific code) context = is_contactless context.interface
terminal_supports_method (CvmMethod.unknown code) context = false
terminal_supports_method _ context = context.offline_pin_supported

-- The derived equality of `CvmTransactionType`.
abbrev pub is_type : CvmTransactionType → CvmTransactionType → Bool
is_type CvmTransactionType.non_cash CvmTransactionType.non_cash = true
is_type CvmTransactionType.unattended_cash CvmTransactionType.unattended_cash = true
is_type CvmTransactionType.manual_cash CvmTransactionType.manual_cash = true
is_type CvmTransactionType.purchase_with_cashback CvmTransactionType.purchase_with_cashback = true
is_type _ _ = false

unfoldable pub condition_matches : CvmRule → CvmList → CvmContext → Bool
unfolding terminal_supports_method
condition_matches rule list context =
    let code = rule.condition_code in
    if code == 0x00
    then true
    else if code == 0x01
    then is_type context.transaction_type CvmTransactionType.unattended_cash
    else if code == 0x02
    then is_type context.transaction_type CvmTransactionType.non_cash
    else if code == 0x03
    then terminal_supports_method rule.method context
    else if code == 0x04
    then is_type context.transaction_type CvmTransactionType.manual_cash
    else if code == 0x05
    then is_type context.transaction_type CvmTransactionType.purchase_with_cashback
    else if code == 0x06
    then context.transaction_currency_matches_application
      && ltb context.amount_authorized list.amount_x
    else if code == 0x07
    then context.transaction_currency_matches_application
      && ltb list.amount_x context.amount_authorized
    else if code == 0x08
    then context.transaction_currency_matches_application
      && ltb context.amount_authorized list.amount_y
    else if code == 0x09
    then context.transaction_currency_matches_application
      && ltb list.amount_y context.amount_authorized
    else false

-- `if let Some(tvr_bit) = … { selected_tvr_bit = Some(tvr_bit); }`
abbrev pub latest : Option Bit → Option Bit → Option Bit
latest (some bit) observed = some bit
latest none observed = observed

-- The loop of `evaluate` over the rules left, with the bit observed so far.
unfoldable pub evaluate_from :
    List CvmRule → CvmList → CvmContext → CvmPinHandles → Option Bit → CvmOutcome
unfolding condition_matches action_for_method cvm_failed cvm_unavailable_bit
evaluate_from [] list context handles observed =
    CvmOutcome.failed (0x3f ∷ 0x00 ∷ 0x01 ∷ []) Tvr.b3_cardholder_verification_not_successful
evaluate_from (rule ∷ rules) list context handles observed =
    let observed' = latest (cvm_unavailable_bit rule.method context handles) observed in
    let skip = evaluate_from rules list context handles observed in
    let next = evaluate_from rules list context handles observed' in
    if not (condition_matches rule list context)
    then skip
    else elim (action_for_method rule.method context handles) [
      | some action ↦ CvmOutcome.selected action (cvm_results rule 0x02) observed
      | none ↦ if continue_on_failure rule then next else cvm_failed rule context handles observed'
    ]

unfoldable pub evaluate : CvmList → CvmContext → CvmPinHandles → CvmOutcome
unfolding evaluate_from
evaluate list context handles = evaluate_from list.rules list context handles none
