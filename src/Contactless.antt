-- ===== src/Contactless.antt =====
-- src/c8.rs: the outcomes of the contactless kernel, its limits, and relay resistance.
pub mod Outcomes
mod Tests
use hyperion_x_emv.Base.{
  ℕ, zero, suc, ◌+◌, ◌^◌, bit_and, Bool, true, false, not, ◌&&◌, ◌||◌, List, [], ◌∷◌, ltb, leb,
  ◌==◌, ◌=s=◌, if◌then◌else◌, length, get_or, KernelError, KernelResult, okay, err, ◌>>=◌, ◌>>◌,
  fail_if,
}

abbrev pub max_c8_data_record_len : ℕ
max_c8_data_record_len = 252

abbrev pub max_c8_discretionary_data_len : ℕ
max_c8_discretionary_data_len = 252

abbrev pub max_relay_resistance_apdu_len : ℕ
max_relay_resistance_apdu_len = 261

abbrev pub max_relay_resistance_response_len : ℕ
max_relay_resistance_response_len = 258

pub data ContactlessOutcomeCode : Type 0 where
  approved declined online_required try_again select_next alternate_interface :
      ContactlessOutcomeCode
  terminate cvm_required profile_defined : ContactlessOutcomeCode

pub data StartSignal : Type 0 where
  none start restart prompt : StartSignal

pub data UiStatus : Type 0 where
  none ready_to_read processing approved declined error try_again : UiStatus

pub data AlternateInterface : Type 0 where
  none contact magstripe other_card : AlternateInterface

-- The discriminants, which `as u8` and the derived equality read.
abbrev pub outcome_value : ContactlessOutcomeCode → ℕ
outcome_value ContactlessOutcomeCode.approved = 1
outcome_value ContactlessOutcomeCode.declined = 2
outcome_value ContactlessOutcomeCode.online_required = 3
outcome_value ContactlessOutcomeCode.try_again = 4
outcome_value ContactlessOutcomeCode.select_next = 5
outcome_value ContactlessOutcomeCode.alternate_interface = 6
outcome_value ContactlessOutcomeCode.terminate = 7
outcome_value ContactlessOutcomeCode.cvm_required = 8
outcome_value ContactlessOutcomeCode.profile_defined = 255

abbrev pub start_value : StartSignal → ℕ
start_value StartSignal.none = 0
start_value StartSignal.start = 1
start_value StartSignal.restart = 2
start_value StartSignal.prompt = 3

abbrev pub status_value : UiStatus → ℕ
status_value UiStatus.none = 0
status_value UiStatus.ready_to_read = 1
status_value UiStatus.processing = 2
status_value UiStatus.approved = 3
status_value UiStatus.declined = 4
status_value UiStatus.error = 5
status_value UiStatus.try_again = 6

abbrev pub interface_value : AlternateInterface → ℕ
interface_value AlternateInterface.none = 0
interface_value AlternateInterface.contact = 1
interface_value AlternateInterface.magstripe = 2
interface_value AlternateInterface.other_card = 3

pub record UiRequest : Type 0 where
  pub message_id : ℕ
  pub status : UiStatus
  pub hold_time_ms : ℕ

abbrev pub no_request : UiRequest
no_request = record { message_id = 0; status = UiStatus.none; hold_time_ms = 0 }

pub record ContactlessOutcome : Type 0 where
  pub outcome_code : ContactlessOutcomeCode
  pub start_signal : StartSignal
  pub ui : UiRequest
  pub restart_required : Bool
  pub data_record : List ℕ
  pub discretionary_data : List ℕ
  pub alternate_interface : AlternateInterface

-- `!=` on `AlternateInterface` and the code of that name, as both checks have it.
unfoldable pub interface_agrees :
    ContactlessOutcomeCode → AlternateInterface → KernelResult (Unit {0})
interface_agrees code alternate = do
  fail_if (not (outcome_value code == 6) && not (interface_value alternate == 0))
      KernelError.invalid_argument
  fail_if (outcome_value code == 6 && interface_value alternate == 0) KernelError.invalid_argument

-- The match on the code at the end of `ContactlessOutcome::new`.
unfoldable pub restart_agrees :
    ContactlessOutcomeCode → StartSignal → UiRequest → Bool → KernelResult (Unit {0})
restart_agrees ContactlessOutcomeCode.try_again signal request again =
    fail_if (not again || not (status_value request.status == 6)) KernelError.invalid_argument
restart_agrees ContactlessOutcomeCode.cvm_required signal request again =
    fail_if (not again || start_value signal == 0) KernelError.invalid_argument
restart_agrees ContactlessOutcomeCode.select_next signal request again = okay tt
restart_agrees ContactlessOutcomeCode.profile_defined signal request again = okay tt
restart_agrees _ signal request again = fail_if again KernelError.invalid_argument

unfoldable pub new_outcome :
    ContactlessOutcomeCode
    → StartSignal
    → UiRequest
    → Bool
    → List ℕ
    → List ℕ
    → AlternateInterface
    → KernelResult ContactlessOutcome
unfolding interface_agrees restart_agrees
new_outcome code signal request again bytes more alternate = do
  fail_if
      (ltb max_c8_data_record_len (length bytes) || ltb max_c8_discretionary_data_len (length more))
      KernelError.length_overflow
  interface_agrees code alternate
  fail_if
      (status_value request.status == 0
        && (not (request.message_id == 0) || not (request.hold_time_ms == 0)))
      KernelError.invalid_argument
  fail_if (again && start_value signal == 0) KernelError.invalid_argument
  fail_if (start_value signal == 2 && not again) KernelError.invalid_argument
  restart_agrees code signal request again
  okay (record {
    outcome_code = code;
    start_signal = signal;
    ui = request;
    restart_required = again;
    data_record = bytes;
    discretionary_data = more;
    alternate_interface = alternate;
  })

pub record ContactlessLimitInput : Type 0 where
  pub amount_authorised_minor : ℕ
  pub contactless_transaction_limit : ℕ
  pub contactless_cvm_limit : ℕ
  pub floor_limit : ℕ
  pub cvm_satisfied : Bool

pub record TerminalTransactionQualifiers : Type 0 where
  pub raw : List ℕ

unfoldable pub parse_ttq : List ℕ → KernelResult TerminalTransactionQualifiers
parse_ttq bytes = do
  fail_if (not (length bytes == 4)) KernelError.parse_error
  okay (record { raw = bytes })

-- A byte out of range has no bit set.
unfoldable pub bit_is_set : TerminalTransactionQualifiers → ℕ → ℕ → Bool
bit_is_set ttq byte_index mask = not (bit_and (get_or ttq.raw byte_index 0) mask == 0)

pub data ContactlessLimitDecision : Type 0 where
  allowed cvm_required online_required alternate_interface : ContactlessLimitDecision

pub data RelayResistanceFailureOutcome : Type 0 where
  try_again alternate_interface terminate : RelayResistanceFailureOutcome

pub record RelayResistanceProfile : Type 0 where
  pub command_apdu : List ℕ
  pub max_round_trip_ms : ℕ
  pub success_response : List ℕ
  pub failure_outcome : RelayResistanceFailureOutcome

-- `5usize.checked_add(lc)` cannot overflow, since `lc` is a byte.
unfoldable pub validate_relay_resistance_command_apdu : List ℕ → KernelResult (Unit {0})
validate_relay_resistance_command_apdu command =
    let lc = get_or command 4 0 in
    if leb (length command) 5
    then okay tt
    else if lc == 0
    then err KernelError.invalid_profile
    else fail_if (not (length command == 5 + lc || length command == 5 + lc + 1))
        KernelError.invalid_profile

unfoldable pub new_relay_profile :
    List ℕ → ℕ → List ℕ → RelayResistanceFailureOutcome → KernelResult RelayResistanceProfile
unfolding validate_relay_resistance_command_apdu
new_relay_profile command max_ms success failure = do
  fail_if
      (not (leb 4 (length command) && leb (length command) max_relay_resistance_apdu_len)
        || not (leb 2 (length success) && leb (length success) max_relay_resistance_response_len)
        || max_ms == 0)
      KernelError.invalid_profile
  validate_relay_resistance_command_apdu command
  okay (record {
    command_apdu = command;
    max_round_trip_ms = max_ms;
    success_response = success;
    failure_outcome = failure;
  })

pub data RelayResistanceDecision : Type 0 where
  passed : RelayResistanceDecision
  failed : RelayResistanceFailureOutcome → RelayResistanceDecision

unfoldable pub evaluate_relay_resistance :
    RelayResistanceProfile → List ℕ → ℕ → RelayResistanceDecision
evaluate_relay_resistance profile response round_trip_ms =
    if leb round_trip_ms profile.max_round_trip_ms && response =s= profile.success_response
    then passed
    else failed profile.failure_outcome

unfoldable pub evaluate_contactless_limits : ContactlessLimitInput → ContactlessLimitDecision
evaluate_contactless_limits input =
    if not (input.contactless_transaction_limit == 0)
      && ltb input.contactless_transaction_limit input.amount_authorised_minor
    then ContactlessLimitDecision.alternate_interface
    else if not (input.contactless_cvm_limit == 0)
        && ltb input.contactless_cvm_limit input.amount_authorised_minor
        && not input.cvm_satisfied
    then ContactlessLimitDecision.cvm_required
    else if not (input.floor_limit == 0) && ltb input.floor_limit input.amount_authorised_minor
    then ContactlessLimitDecision.online_required
    else ContactlessLimitDecision.allowed

unfoldable pub outcome_from_limit_decision :
    ContactlessLimitDecision → KernelResult ContactlessOutcome
unfolding new_outcome
outcome_from_limit_decision ContactlessLimitDecision.allowed =
    new_outcome ContactlessOutcomeCode.approved StartSignal.none
      (record { message_id = 1; status = UiStatus.approved; hold_time_ms = 0 }) false [] []
      AlternateInterface.none
outcome_from_limit_decision ContactlessLimitDecision.cvm_required =
    new_outcome ContactlessOutcomeCode.cvm_required StartSignal.prompt
      (record { message_id = 2; status = UiStatus.processing; hold_time_ms = 0 }) true [] []
      AlternateInterface.none
outcome_from_limit_decision ContactlessLimitDecision.online_required =
    new_outcome ContactlessOutcomeCode.online_required StartSignal.none no_request false [] []
      AlternateInterface.none
outcome_from_limit_decision ContactlessLimitDecision.alternate_interface =
    new_outcome ContactlessOutcomeCode.alternate_interface StartSignal.prompt
      (record { message_id = 3; status = UiStatus.error; hold_time_ms = 0 }) false [] []
      AlternateInterface.contact

unfoldable pub outcome_from_relay_resistance_failure :
    RelayResistanceFailureOutcome → KernelResult ContactlessOutcome
unfolding new_outcome
outcome_from_relay_resistance_failure RelayResistanceFailureOutcome.try_again =
    new_outcome ContactlessOutcomeCode.try_again StartSignal.prompt
      (record { message_id = 4; status = UiStatus.try_again; hold_time_ms = 0 }) true [] []
      AlternateInterface.none
outcome_from_relay_resistance_failure RelayResistanceFailureOutcome.alternate_interface =
    new_outcome ContactlessOutcomeCode.alternate_interface StartSignal.prompt
      (record { message_id = 3; status = UiStatus.error; hold_time_ms = 0 }) false [] []
      AlternateInterface.contact
outcome_from_relay_resistance_failure RelayResistanceFailureOutcome.terminate =
    new_outcome ContactlessOutcomeCode.terminate StartSignal.none
      (record { message_id = 5; status = UiStatus.error; hold_time_ms = 0 }) false [] []
      AlternateInterface.none
