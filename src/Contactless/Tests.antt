-- ===== src/Contactless/Tests.antt =====
-- Runs of src/c8.rs, and its theorems at concrete inputs.
use hyperion_x_emv.Base.{◌≡◌, ◌↔◌, refl, true, false, [], ◌∷◌, KernelError, okay, err, ◌=s=◌}
use hyperion_x_emv.Contactless.{
  ContactlessOutcomeCode, StartSignal, UiStatus, AlternateInterface, ContactlessOutcome,
  new_outcome, ContactlessLimitInput, evaluate_contactless_limits, outcome_from_limit_decision,
  RelayResistanceFailureOutcome, RelayResistanceProfile, new_relay_profile, failed,
  evaluate_relay_resistance, outcome_from_relay_resistance_failure, parse_ttq, bit_is_set,
}
use hyperion_x_emv.Contactless.Outcomes.{
  IsConsistent, new_outcome_lem, Returns, expected_code,
  outcome_from_limit_decision-evaluate_contactless_limits,
}

abbrev above_cvm_limit : ContactlessLimitInput
above_cvm_limit = record {
  amount_authorised_minor = 6000;
  contactless_transaction_limit = 10000;
  contactless_cvm_limit = 5000;
  floor_limit = 0;
  cvm_satisfied = false;
}

outcome_from_limit_decision-evaluate_contactless_limits_example :
    Returns
      (outcome_from_limit_decision (evaluate_contactless_limits above_cvm_limit))
      (expected_code above_cvm_limit)
outcome_from_limit_decision-evaluate_contactless_limits_example =
    outcome_from_limit_decision-evaluate_contactless_limits above_cvm_limit

abbrev again : ContactlessOutcome
again = record {
  outcome_code = ContactlessOutcomeCode.try_again;
  start_signal = StartSignal.prompt;
  ui = record { message_id = 4; status = UiStatus.try_again; hold_time_ms = 0 };
  restart_required = true;
  data_record = [];
  discretionary_data = [];
  alternate_interface = AlternateInterface.none;
}

try_again_made :
    outcome_from_relay_resistance_failure RelayResistanceFailureOutcome.try_again ≡ okay again
unfolding outcome_from_relay_resistance_failure
try_again_made = refl

new_outcome_lem_example :
    (new_outcome again.outcome_code again.start_signal again.ui again.restart_required
        again.data_record again.discretionary_data again.alternate_interface
      ≡ okay again)
    ↔ IsConsistent again
new_outcome_lem_example = new_outcome_lem again

abbrev relay : RelayResistanceProfile
relay = record {
  command_apdu = 0x80 ∷ 0xea ∷ 0x00 ∷ 0x00 ∷ [];
  max_round_trip_ms = 10;
  success_response = 0x90 ∷ 0x00 ∷ [];
  failure_outcome = RelayResistanceFailureOutcome.terminate;
}

relay_profile :
    new_relay_profile relay.command_apdu 10 relay.success_response relay.failure_outcome
    ≡ okay relay
unfolding new_relay_profile
relay_profile = refl

too_slow : evaluate_relay_resistance relay (0x90 ∷ 0x00 ∷ []) 11 ≡ failed relay.failure_outcome
unfolding evaluate_relay_resistance ◌=s=◌
too_slow = refl

short_ttq : parse_ttq (0x20 ∷ []) ≡ err KernelError.parse_error
unfolding parse_ttq
short_ttq = refl

ttq_bit : bit_is_set (record { raw = 0x20 ∷ 0x00 ∷ 0x40 ∷ 0x00 ∷ [] }) 2 0x40 ≡ true
unfolding bit_is_set
ttq_bit = refl
