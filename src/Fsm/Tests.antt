-- ===== src/Fsm/Tests.antt =====
-- Runs of src/fsm.rs, and its theorems at concrete inputs.
use hyperion_x_emv.Base.{
  ◌≡◌, ◌≤◌, refl, true, false, length, List, [], ◌∷◌, KernelError, okay, any, ◌++◌, ◌||◌,
}
use hyperion_x_emv.Fsm.{FsmState, FsmEvent, FsmAction, Transition, transition, apply, new}
use hyperion_x_emv.Fsm.Traces.{run}
use hyperion_x_emv.Fsm.Progress.{run_reaches}
use hyperion_x_emv.Fsm.Edges.{is_interruption}
use hyperion_x_emv.Fsm.Gates.{
  sets_params, detects_card, selects_aid, gets_options, ends_records, skips_records, ends_oda,
  ends_restrictions, ends_cvm, ends_trm, decides_taa, gets_arqc, hears_host, ends_final_gac,
  final_outcome_needs_stages, online_needs_host, online_past, post_final_needs_gac,
}

abbrev timeout : Transition
timeout = record {
  from = FsmState.s11;
  event = FsmEvent.host_timeout;
  to = FsmState.se;
  action = FsmAction.error;
  error = KernelError.host_timeout;
}

timeout_taken : transition FsmState.s11 FsmEvent.host_timeout ≡ okay timeout
unfolding transition
timeout_taken = refl

abbrev approval : Transition
approval = record {
  from = FsmState.s9;
  event = FsmEvent.taa_tc;
  to = FsmState.s16;
  action = FsmAction.offline_approve;
  error = KernelError.ok;
}

approval_taken : transition FsmState.s9 FsmEvent.taa_tc ≡ okay approval
unfolding transition
approval_taken = refl

-- A purchase approved offline, and one that goes online.
abbrev to_taa : List FsmEvent → List FsmEvent
to_taa rest =
    FsmEvent.set_transaction_params ∷ FsmEvent.card_detected ∷ FsmEvent.pse_selected
    ∷ FsmEvent.candidate_aid_available ∷ FsmEvent.aid_selected ∷ FsmEvent.gpo_template77
    ∷ FsmEvent.record_read ∷ FsmEvent.afl_complete ∷ FsmEvent.oda_success
    ∷ FsmEvent.restrictions_evaluated ∷ FsmEvent.cvm_success ∷ FsmEvent.trm_evaluated ∷ rest

abbrev offline : List FsmEvent
offline = to_taa (FsmEvent.taa_tc ∷ [])

offline_ends : (run new offline).state ≡ FsmState.s16
unfolding run new apply transition
offline_ends = refl

final_outcome_needs_stages_example :
    (any sets_params offline ≡ true)
    × (any detects_card offline ≡ true)
    × (any selects_aid offline ≡ true)
    × (any gets_options offline ≡ true)
    × ((any ends_records offline || any skips_records offline) ≡ true)
    × (any ends_oda offline ≡ true)
    × (any ends_restrictions offline ≡ true)
    × (any ends_cvm offline ≡ true)
    × (any ends_trm offline ≡ true)
    × (any decides_taa offline ≡ true)
final_outcome_needs_stages_example = final_outcome_needs_stages offline offline_ends

abbrev online : List FsmEvent
online = to_taa (
    FsmEvent.taa_arqc ∷ FsmEvent.gac_arqc ∷ FsmEvent.host_arpc
    ∷ FsmEvent.issuer_authentication_success ∷ [])

online_at_scripts : online_past 12 (run new online).state ≡ true
unfolding run new apply transition
online_at_scripts = refl

online_needs_host_example : (any gets_arqc online ≡ true) × (any hears_host online ≡ true)
online_needs_host_example = online_needs_host online online_at_scripts

-- The same, up to the scripts after the second GENERATE AC.
abbrev final : List FsmEvent
final = online ++ (FsmEvent.no_more_scripts ∷ FsmEvent.gac2_tc ∷ [])

final_past_gac : online_past 14 (run new final).state ≡ true
unfolding run new apply transition
final_past_gac = refl

post_final_needs_gac_example : any ends_final_gac final ≡ true
post_final_needs_gac_example = post_final_needs_gac final final_past_gac

run_reaches_example :
    (events : List FsmEvent) × ((run (record { state = FsmState.s4 }) events).state ≡ FsmState.s16)
    × (length events ≤ 12)
    × (any is_interruption events ≡ false)
run_reaches_example = run_reaches (record { state = FsmState.s4 })
