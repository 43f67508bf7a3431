-- ===== src/Fsm/Gates.antt =====
-- The stages of a transaction in src/fsm.rs, and the events that complete them.
use hyperion_x_emv.Base.{
  ℕ, ◌≡◌, refl, sym, ◌∙◌, Bool, true, false, ◌&&◌, ◌||◌, any, List, [], ◌∷◌, ltb, arith,
}
use hyperion_x_emv.Fsm.{FsmState, FsmEvent, target, new, s16}
use hyperion_x_emv.Fsm.Enumerate.{all_pairs}
use hyperion_x_emv.Fsm.Traces.{run, gate, guards}

-- How far a state stands along the flow of a transaction; the error state is at the start.
abbrev pub stage : FsmState → ℕ
stage FsmState.s0 = 0
stage FsmState.s1 = 1
stage FsmState.s2 = 2
stage FsmState.s2_aid_list = 2
stage FsmState.s2_select_aid = 2
stage FsmState.s3 = 3
stage FsmState.s4 = 4
stage FsmState.s4_next = 4
stage FsmState.s5 = 5
stage FsmState.s5_cda = 10
stage FsmState.s6 = 6
stage FsmState.s7 = 7
stage FsmState.s7_retry = 7
stage FsmState.s8 = 8
stage FsmState.s9 = 9
stage FsmState.s10 = 10
stage FsmState.s11 = 11
stage FsmState.s12 = 12
stage FsmState.s13 = 13
stage FsmState.s13_script = 13
stage FsmState.s14 = 14
stage FsmState.s15 = 15
stage FsmState.s15_script = 15
stage FsmState.s16 = 16
stage FsmState.se = 0

abbrev past : ℕ → FsmState → Bool
past k s = ltb k (stage s)

-- Past stage `k`, but not at the final outcome.
abbrev pub online_past : ℕ → FsmState → Bool
online_past k s = ltb k (stage s) && ltb (stage s) 16

abbrev pub sets_params : FsmEvent → Bool
sets_params FsmEvent.set_transaction_params = true
sets_params _ = false

abbrev pub detects_card : FsmEvent → Bool
detects_card FsmEvent.card_detected = true
detects_card _ = false

abbrev pub selects_aid : FsmEvent → Bool
selects_aid FsmEvent.aid_selected = true
selects_aid _ = false

abbrev pub gets_options : FsmEvent → Bool
gets_options FsmEvent.gpo_template77 = true
gets_options FsmEvent.gpo_template80 = true
gets_options _ = false

abbrev pub ends_records : FsmEvent → Bool
ends_records FsmEvent.end_of_records = true
ends_records FsmEvent.record_read_failed = true
ends_records FsmEvent.afl_complete = true
ends_records _ = false

-- An answer in format 80, which the machine takes past the records.
abbrev pub skips_records : FsmEvent → Bool
skips_records FsmEvent.gpo_template80 = true
skips_records _ = false

abbrev passes_records : FsmEvent → Bool
passes_records v = ends_records v || skips_records v

any-passes_records :
    (vs : List FsmEvent) → any passes_records vs ≡ (any ends_records vs || any skips_records vs)
any-passes_records [] = refl
any-passes_records (v ∷ vs) = ground (arith, any-passes_records vs)

abbrev pub ends_oda : FsmEvent → Bool
ends_oda FsmEvent.oda_success = true
ends_oda FsmEvent.oda_failure = true
ends_oda _ = false

abbrev pub ends_restrictions : FsmEvent → Bool
ends_restrictions FsmEvent.restrictions_evaluated = true
ends_restrictions _ = false

abbrev pub ends_cvm : FsmEvent → Bool
ends_cvm FsmEvent.cvm_success = true
ends_cvm FsmEvent.cvm_failure_no_retry = true
ends_cvm FsmEvent.cvm_retry_exceeded = true
ends_cvm _ = false

abbrev pub ends_trm : FsmEvent → Bool
ends_trm FsmEvent.trm_evaluated = true
ends_trm _ = false

abbrev pub decides_taa : FsmEvent → Bool
decides_taa FsmEvent.taa_arqc = true
decides_taa FsmEvent.taa_tc = true
decides_taa FsmEvent.taa_aac = true
decides_taa _ = false

abbrev pub gets_arqc : FsmEvent → Bool
gets_arqc FsmEvent.gac_arqc = true
gets_arqc _ = false

abbrev pub hears_host : FsmEvent → Bool
hears_host FsmEvent.host_arpc = true
hears_host FsmEvent.host_approval_no_arpc = true
hears_host _ = false

abbrev pub ends_final_gac : FsmEvent → Bool
ends_final_gac FsmEvent.gac2_tc = true
ends_final_gac FsmEvent.gac2_aac = true
ends_final_gac FsmEvent.final_generate_ac_skipped = true
ends_final_gac _ = false

sets_params_table : all_pairs (guards (past 0) sets_params) ≡ true
unfolding target
sets_params_table = refl

detects_card_table : all_pairs (guards (past 1) detects_card) ≡ true
unfolding target
detects_card_table = refl

selects_aid_table : all_pairs (guards (past 2) selects_aid) ≡ true
unfolding target
selects_aid_table = refl

gets_options_table : all_pairs (guards (past 3) gets_options) ≡ true
unfolding target
gets_options_table = refl

passes_records_table : all_pairs (guards (past 4) passes_records) ≡ true
unfolding target
passes_records_table = refl

ends_oda_table : all_pairs (guards (past 5) ends_oda) ≡ true
unfolding target
ends_oda_table = refl

ends_restrictions_table : all_pairs (guards (past 6) ends_restrictions) ≡ true
unfolding target
ends_restrictions_table = refl

ends_cvm_table : all_pairs (guards (past 7) ends_cvm) ≡ true
unfolding target
ends_cvm_table = refl

ends_trm_table : all_pairs (guards (past 8) ends_trm) ≡ true
unfolding target
ends_trm_table = refl

decides_taa_table : all_pairs (guards (past 9) decides_taa) ≡ true
unfolding target
decides_taa_table = refl

gets_arqc_table : all_pairs (guards (online_past 10) gets_arqc) ≡ true
unfolding target
gets_arqc_table = refl

hears_host_table : all_pairs (guards (online_past 11) hears_host) ≡ true
unfolding target
hears_host_table = refl

ends_final_gac_table : all_pairs (guards (online_past 14) ends_final_gac) ≡ true
unfolding target
ends_final_gac_table = refl

-- A run from the start that ends in the final-outcome state holds the event that completes each of
-- the stages: parameters, card detection, application selection, processing options, offline data
-- authentication, processing restrictions, cardholder verification, terminal risk management and
-- terminal action analysis; and the one that completes the reading of records, unless the run has an
-- answer in format 80, after which the machine reads no records.
pub final_outcome_needs_stages :
    (vs : List FsmEvent)
    → (run new vs).state ≡ s16
    → (any sets_params vs ≡ true)
      × (any detects_card vs ≡ true)
      × (any selects_aid vs ≡ true)
      × (any gets_options vs ≡ true)
      × ((any ends_records vs || any skips_records vs) ≡ true)
      × (any ends_oda vs ≡ true)
      × (any ends_restrictions vs ≡ true)
      × (any ends_cvm vs ≡ true)
      × (any ends_trm vs ≡ true)
      × (any decides_taa vs ≡ true)
unfolding new
final_outcome_needs_stages vs e = (
  gate (past 0) sets_params sets_params_table vs new refl (rw e),
  gate (past 1) detects_card detects_card_table vs new refl (rw e),
  gate (past 2) selects_aid selects_aid_table vs new refl (rw e),
  gate (past 3) gets_options gets_options_table vs new refl (rw e),
  sym (any-passes_records vs)
      ∙ gate (past 4) passes_records passes_records_table vs new refl (rw e),
  gate (past 5) ends_oda ends_oda_table vs new refl (rw e),
  gate (past 6) ends_restrictions ends_restrictions_table vs new refl (rw e),
  gate (past 7) ends_cvm ends_cvm_table vs new refl (rw e),
  gate (past 8) ends_trm ends_trm_table vs new refl (rw e),
  gate (past 9) decides_taa decides_taa_table vs new refl (rw e),
)

-- A run from the start that ends in the issuer-script stages or later, short of the final outcome,
-- holds an ARQC from the card and an answer of the host.
pub online_needs_host :
    (vs : List FsmEvent)
    → online_past 12 (run new vs).state ≡ true
    → (any gets_arqc vs ≡ true) × (any hears_host vs ≡ true)
unfolding new
online_needs_host vs e = (
  gate (online_past 10) gets_arqc gets_arqc_table vs new refl (ground arith),
  gate (online_past 11) hears_host hears_host_table vs new refl (ground arith),
)

-- A run from the start that ends in the stages after the second GENERATE AC, short of the final
-- outcome, holds the end of that command.
pub post_final_needs_gac :
    (vs : List FsmEvent) → online_past 14 (run new vs).state ≡ true → any ends_final_gac vs ≡ true
unfolding new
post_final_needs_gac vs e = gate (online_past 14) ends_final_gac ends_final_gac_table vs new refl e
