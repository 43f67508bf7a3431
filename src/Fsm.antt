-- ===== src/Fsm.antt =====
-- src/fsm.rs: the transaction state machine, with the transitions of its one `match`.
pub mod Enumerate
pub mod Edges
pub mod Traces
pub mod Gates
pub mod Progress
mod Tests
use hyperion_x_emv.Base.{ℕ, KernelError, KernelResult, okay, err, ◌>>=◌}

pub data FsmState : Type 0 where
  s0 s1 s2 s2_aid_list s2_select_aid s3 s4 s4_next s5 s5_cda s6 s7 s7_retry s8 s9 : FsmState
  s10 s11 s12 s13 s13_script s14 s15 s15_script s16 se : FsmState

pub data FsmEvent : Type 0 where
  set_transaction_params card_detected card_detection_timeout pse_selected : FsmEvent
  pse_not_found candidate_aid_available no_candidate_left aid_selected : FsmEvent
  aid_not_supported gpo_template77 gpo_template80 gpo_failed record_read : FsmEvent
  end_of_records record_read_failed more_afl_entries afl_complete oda_success : FsmEvent
  oda_failure restrictions_evaluated cvm_success cvm_retry_possible : FsmEvent
  cvm_failure_no_retry cvm_retry_available cvm_retry_exceeded trm_evaluated taa_arqc : FsmEvent
  taa_tc taa_aac gac_arqc gac_tc gac_aac gac_cda gac_failed cda_success cda_failure : FsmEvent
  host_arpc host_approval_no_arpc host_timeout issuer_authentication_success : FsmEvent
  issuer_authentication_failure gac2_tc gac2_aac gac2_failed script_available : FsmEvent
  no_more_scripts script_success script_non_critical_failure script_critical_failure : FsmEvent
  final_generate_ac_skipped final_outcome_complete error_reset card_removed : FsmEvent
  apdu_timeout callback_failure : FsmEvent

pub data FsmAction : Type 0 where
  store_transaction_params start_selection retry_detection build_candidate_list : FsmAction
  select_next_aid set_no_common_aid build_gpo read_records start_oda : FsmAction
  set_icc_data_missing continue_afl record_oda_result evaluate_restrictions : FsmAction
  evaluate_cvm retry_cvm evaluate_trm run_taa request_first_generate_ac : FsmAction
  build_host_request offline_approve offline_decline verify_cda process_arpc : FsmAction
  process_issuer_scripts request_final_generate_ac : FsmAction
  process_post_final_issuer_scripts final_outcome reset error : FsmAction

pub record Transition : Type 0 where
  pub from : FsmState
  pub event : FsmEvent
  pub to : FsmState
  pub action : FsmAction
  pub error : KernelError

pub record TransactionFsm : Type 0 where
  pub state : FsmState

unfoldable pub code : FsmState → ℕ
code s0 = 0
code s1 = 1
code s2 = 2
code s2_aid_list = 3
code s2_select_aid = 4
code s3 = 5
code s4 = 6
code s4_next = 7
code s5 = 8
code s5_cda = 9
code s6 = 10
code s7 = 11
code s7_retry = 12
code s8 = 13
code s9 = 14
code s10 = 15
code s11 = 16
code s12 = 17
code s13 = 18
code s13_script = 19
code s14 = 20
code s15 = 21
code s16 = 22
code s15_script = 23
code se = 255

-- The `match` on the state and the event.
unfoldable pub target : FsmState → FsmEvent → KernelResult (FsmState × FsmAction × KernelError)
target s0 set_transaction_params = okay (s1, FsmAction.store_transaction_params, KernelError.ok)
target s1 card_detected = okay (s2, FsmAction.start_selection, KernelError.ok)
target s1 card_detection_timeout = okay (s1, FsmAction.retry_detection, KernelError.ok)
target s2 pse_selected = okay (s2_aid_list, FsmAction.build_candidate_list, KernelError.ok)
target s2 pse_not_found = okay (s2_aid_list, FsmAction.build_candidate_list, KernelError.ok)
target s2_aid_list candidate_aid_available =
    okay (s2_select_aid, FsmAction.select_next_aid, KernelError.ok)
target s2_aid_list no_candidate_left =
    okay (se, FsmAction.set_no_common_aid, KernelError.no_common_aid)
target s2_select_aid aid_selected = okay (s3, FsmAction.build_gpo, KernelError.ok)
target s2_select_aid aid_not_supported =
    okay (s2_aid_list, FsmAction.build_candidate_list, KernelError.ok)
target s3 gpo_template77 = okay (s4, FsmAction.read_records, KernelError.ok)
target s3 gpo_template80 = okay (s5, FsmAction.start_oda, KernelError.ok)
target s3 gpo_failed = okay (se, FsmAction.error, KernelError.missing_mandatory_tag)
target s4 record_read = okay (s4_next, FsmAction.continue_afl, KernelError.ok)
target s4 end_of_records = okay (s5, FsmAction.start_oda, KernelError.ok)
target s4 record_read_failed = okay (s5, FsmAction.set_icc_data_missing, KernelError.ok)
target s4_next more_afl_entries = okay (s4, FsmAction.read_records, KernelError.ok)
target s4_next afl_complete = okay (s5, FsmAction.start_oda, KernelError.ok)
target s5 oda_success = okay (s6, FsmAction.record_oda_result, KernelError.ok)
target s5 oda_failure = okay (s6, FsmAction.record_oda_result, KernelError.ok)
target s6 restrictions_evaluated = okay (s7, FsmAction.evaluate_cvm, KernelError.ok)
target s7 cvm_success = okay (s8, FsmAction.evaluate_trm, KernelError.ok)
target s7 cvm_failure_no_retry = okay (s8, FsmAction.evaluate_trm, KernelError.ok)
target s7 cvm_retry_possible = okay (s7_retry, FsmAction.retry_cvm, KernelError.ok)
target s7_retry cvm_retry_available = okay (s7, FsmAction.evaluate_cvm, KernelError.ok)
target s7_retry cvm_retry_exceeded = okay (s8, FsmAction.evaluate_trm, KernelError.ok)
target s8 trm_evaluated = okay (s9, FsmAction.run_taa, KernelError.ok)
target s9 taa_arqc = okay (s10, FsmAction.request_first_generate_ac, KernelError.ok)
target s9 taa_tc = okay (s16, FsmAction.offline_approve, KernelError.ok)
target s9 taa_aac = okay (s16, FsmAction.offline_decline, KernelError.ok)
target s10 gac_arqc = okay (s11, FsmAction.build_host_request, KernelError.ok)
target s10 gac_tc = okay (s16, FsmAction.offline_approve, KernelError.ok)
target s10 gac_aac = okay (s16, FsmAction.offline_decline, KernelError.ok)
target s10 gac_cda = okay (s5_cda, FsmAction.verify_cda, KernelError.ok)
target s10 cda_failure = okay (s9, FsmAction.run_taa, KernelError.ok)
target s10 gac_failed = okay (se, FsmAction.error, KernelError.card_removed)
target s5_cda cda_success = okay (s6, FsmAction.record_oda_result, KernelError.ok)
target s5_cda cda_failure = okay (s6, FsmAction.record_oda_result, KernelError.ok)
target s11 host_arpc = okay (s12, FsmAction.process_arpc, KernelError.ok)
target s11 host_approval_no_arpc = okay (s13, FsmAction.process_issuer_scripts, KernelError.ok)
target s11 host_timeout = okay (se, FsmAction.error, KernelError.host_timeout)
target s12 issuer_authentication_success =
    okay (s13, FsmAction.process_issuer_scripts, KernelError.ok)
target s12 issuer_authentication_failure =
    okay (s13, FsmAction.process_issuer_scripts, KernelError.ok)
target s13 script_available = okay (s13_script, FsmAction.process_issuer_scripts, KernelError.ok)
target s13 no_more_scripts = okay (s14, FsmAction.request_final_generate_ac, KernelError.ok)
target s14 gac2_tc = okay (s15, FsmAction.process_post_final_issuer_scripts, KernelError.ok)
target s14 gac2_aac = okay (s15, FsmAction.process_post_final_issuer_scripts, KernelError.ok)
target s14 final_generate_ac_skipped =
    okay (s15, FsmAction.process_post_final_issuer_scripts, KernelError.ok)
target s14 gac2_failed = okay (se, FsmAction.error, KernelError.card_removed)
target s13_script script_success = okay (s13, FsmAction.process_issuer_scripts, KernelError.ok)
target s13_script script_non_critical_failure =
    okay (s13, FsmAction.process_issuer_scripts, KernelError.ok)
target s13_script script_critical_failure = okay (se, FsmAction.error, KernelError.script_failed)
target s15 script_available =
    okay (s15_script, FsmAction.process_post_final_issuer_scripts, KernelError.ok)
target s15 no_more_scripts = okay (s16, FsmAction.final_outcome, KernelError.ok)
target s15_script script_success =
    okay (s15, FsmAction.process_post_final_issuer_scripts, KernelError.ok)
target s15_script script_non_critical_failure =
    okay (s15, FsmAction.process_post_final_issuer_scripts, KernelError.ok)
target s15_script script_critical_failure = okay (se, FsmAction.error, KernelError.script_failed)
target s16 final_outcome_complete = okay (s0, FsmAction.reset, KernelError.ok)
target se error_reset = okay (s0, FsmAction.reset, KernelError.ok)
target _ card_removed = okay (se, FsmAction.error, KernelError.card_removed)
target _ apdu_timeout = okay (se, FsmAction.error, KernelError.card_removed)
target _ callback_failure = okay (se, FsmAction.error, KernelError.internal_error)
target _ _ = err KernelError.invalid_argument

unfoldable pub transition : FsmState → FsmEvent → KernelResult Transition
unfolding target
transition state event = do
  (next, act, code) ← target state event
  okay (record { from = state; event = event; to = next; action = act; error = code })

unfoldable pub new : TransactionFsm
new = record { state = s0 }

-- The machine after an event, with the transition taken or the error.
unfoldable pub apply : TransactionFsm → FsmEvent → TransactionFsm × KernelResult Transition
unfolding transition
apply fsm event = elim (transition fsm.state event) [
  | okay taken ↦ (record { state = taken.to }, okay taken)
  | err e ↦ (fsm, err e)
]
