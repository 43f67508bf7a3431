-- ===== src/Fsm/Progress.antt =====
-- The way of the machine of src/fsm.rs to the final outcome, from any of its states.
use hyperion_x_emv.Base.{
  ◌≡◌, ◌≤◌, refl, Bool, true, false, not, ◌&&◌, any, List, [], ◌∷◌, length, leb, ◌==◌, arith,
}
use hyperion_x_emv.Fsm.{FsmState, FsmEvent, TransactionFsm, target, transition, apply, code, s16}
use hyperion_x_emv.Fsm.Enumerate.{for_states, every_state_lem}
use hyperion_x_emv.Fsm.Edges.{code_injective, is_interruption}
use hyperion_x_emv.Fsm.Traces.{run}

-- From the start of a transaction, and from the states in its course.
abbrev after_selection : List FsmEvent
after_selection =
    FsmEvent.gpo_template80 ∷ FsmEvent.oda_success ∷ FsmEvent.restrictions_evaluated
    ∷ FsmEvent.cvm_success ∷ FsmEvent.trm_evaluated ∷ FsmEvent.taa_tc ∷ []

abbrev after_oda : List FsmEvent
after_oda =
    FsmEvent.restrictions_evaluated ∷ FsmEvent.cvm_success ∷ FsmEvent.trm_evaluated
    ∷ FsmEvent.taa_tc ∷ []

abbrev after_scripts : List FsmEvent
after_scripts =
    FsmEvent.no_more_scripts ∷ FsmEvent.final_generate_ac_skipped ∷ FsmEvent.no_more_scripts ∷ []

abbrev from_start : List FsmEvent
from_start =
    FsmEvent.set_transaction_params ∷ FsmEvent.card_detected ∷ FsmEvent.pse_selected
    ∷ FsmEvent.candidate_aid_available ∷ FsmEvent.aid_selected ∷ after_selection

abbrev way : FsmState → List FsmEvent
way FsmState.s0 = from_start
way FsmState.s1 =
    FsmEvent.card_detected ∷ FsmEvent.pse_selected ∷ FsmEvent.candidate_aid_available
    ∷ FsmEvent.aid_selected ∷ after_selection
way FsmState.s2 =
    FsmEvent.pse_selected ∷ FsmEvent.candidate_aid_available ∷ FsmEvent.aid_selected
    ∷ after_selection
way FsmState.s2_aid_list =
    FsmEvent.candidate_aid_available ∷ FsmEvent.aid_selected ∷ after_selection
way FsmState.s2_select_aid = FsmEvent.aid_selected ∷ after_selection
way FsmState.s3 = after_selection
way FsmState.s4 = FsmEvent.end_of_records ∷ FsmEvent.oda_success ∷ after_oda
way FsmState.s4_next = FsmEvent.afl_complete ∷ FsmEvent.oda_success ∷ after_oda
way FsmState.s5 = FsmEvent.oda_success ∷ after_oda
way FsmState.s5_cda = FsmEvent.cda_success ∷ after_oda
way FsmState.s6 = after_oda
way FsmState.s7 = FsmEvent.cvm_success ∷ FsmEvent.trm_evaluated ∷ FsmEvent.taa_tc ∷ []
way FsmState.s7_retry = FsmEvent.cvm_retry_exceeded ∷ FsmEvent.trm_evaluated ∷ FsmEvent.taa_tc ∷ []
way FsmState.s8 = FsmEvent.trm_evaluated ∷ FsmEvent.taa_tc ∷ []
way FsmState.s9 = FsmEvent.taa_tc ∷ []
way FsmState.s10 = FsmEvent.gac_tc ∷ []
way FsmState.s11 = FsmEvent.host_approval_no_arpc ∷ after_scripts
way FsmState.s12 = FsmEvent.issuer_authentication_success ∷ after_scripts
way FsmState.s13 = after_scripts
way FsmState.s13_script = FsmEvent.script_success ∷ after_scripts
way FsmState.s14 = FsmEvent.final_generate_ac_skipped ∷ FsmEvent.no_more_scripts ∷ []
way FsmState.s15 = FsmEvent.no_more_scripts ∷ []
way FsmState.s15_script = FsmEvent.script_success ∷ FsmEvent.no_more_scripts ∷ []
way FsmState.s16 = []
way FsmState.se = FsmEvent.error_reset ∷ from_start

abbrev arrives : FsmState → Bool
arrives s =
    code (run (record { state = s }) (way s)).state == code s16
    && leb (length (way s)) 12
    && not (any is_interruption (way s))

ways_table : for_states arrives ≡ true
unfolding run apply transition target code
ways_table = refl

-- From any state the machine can reach the final outcome, by at most twelve events none of which is an
-- interruption.
pub run_reaches :
    (f : TransactionFsm)
    → (events : List FsmEvent) × ((run f events).state ≡ s16)
      × (length events ≤ 12)
      × (any is_interruption events ≡ false)
run_reaches f =
    let arrived = every_state_lem arrives ways_table f.state in
    (
      way f.state,
      code_injective (run f (way f.state)).state s16 (ground (arith, arrived)),
      ground (arith, arrived),
      ground (arith, arrived),
    )
