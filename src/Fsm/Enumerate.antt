-- ===== src/Fsm/Enumerate.antt =====
-- All states and all events of src/fsm.rs, for tests of every pair.
use hyperion_x_emv.Base.{
  ℕ, ◌≡◌, refl, Bool, true, List, [], ◌∷◌, arith, all, get_elem?, some, zero, suc, ==_iff, ◌==◌,
}
use hyperion_x_emv.Fsm.{FsmState, FsmEvent}

abbrev all_states : List FsmState
all_states =
    FsmState.s0 ∷ FsmState.s1 ∷ FsmState.s2 ∷ FsmState.s2_aid_list ∷ FsmState.s2_select_aid
    ∷ FsmState.s3 ∷ FsmState.s4 ∷ FsmState.s4_next ∷ FsmState.s5 ∷ FsmState.s5_cda ∷ FsmState.s6
    ∷ FsmState.s7 ∷ FsmState.s7_retry ∷ FsmState.s8 ∷ FsmState.s9 ∷ FsmState.s10 ∷ FsmState.s11
    ∷ FsmState.s12 ∷ FsmState.s13 ∷ FsmState.s13_script ∷ FsmState.s14 ∷ FsmState.s15
    ∷ FsmState.s15_script ∷ FsmState.s16 ∷ FsmState.se ∷ []

abbrev all_events : List FsmEvent
all_events =
    FsmEvent.set_transaction_params ∷ FsmEvent.card_detected ∷ FsmEvent.card_detection_timeout
    ∷ FsmEvent.pse_selected ∷ FsmEvent.pse_not_found ∷ FsmEvent.candidate_aid_available
    ∷ FsmEvent.no_candidate_left ∷ FsmEvent.aid_selected ∷ FsmEvent.aid_not_supported
    ∷ FsmEvent.gpo_template77 ∷ FsmEvent.gpo_template80 ∷ FsmEvent.gpo_failed ∷ FsmEvent.record_read
    ∷ FsmEvent.end_of_records ∷ FsmEvent.record_read_failed ∷ FsmEvent.more_afl_entries
    ∷ FsmEvent.afl_complete ∷ FsmEvent.oda_success ∷ FsmEvent.oda_failure
    ∷ FsmEvent.restrictions_evaluated ∷ FsmEvent.cvm_success ∷ FsmEvent.cvm_retry_possible
    ∷ FsmEvent.cvm_failure_no_retry ∷ FsmEvent.cvm_retry_available ∷ FsmEvent.cvm_retry_exceeded
    ∷ FsmEvent.trm_evaluated ∷ FsmEvent.taa_arqc ∷ FsmEvent.taa_tc ∷ FsmEvent.taa_aac
    ∷ FsmEvent.gac_arqc ∷ FsmEvent.gac_tc ∷ FsmEvent.gac_aac ∷ FsmEvent.gac_cda
    ∷ FsmEvent.gac_failed ∷ FsmEvent.cda_success ∷ FsmEvent.cda_failure ∷ FsmEvent.host_arpc
    ∷ FsmEvent.host_approval_no_arpc ∷ FsmEvent.host_timeout
    ∷ FsmEvent.issuer_authentication_success ∷ FsmEvent.issuer_authentication_failure
    ∷ FsmEvent.gac2_tc ∷ FsmEvent.gac2_aac ∷ FsmEvent.gac2_failed ∷ FsmEvent.script_available
    ∷ FsmEvent.no_more_scripts ∷ FsmEvent.script_success ∷ FsmEvent.script_non_critical_failure
    ∷ FsmEvent.script_critical_failure ∷ FsmEvent.final_generate_ac_skipped
    ∷ FsmEvent.final_outcome_complete ∷ FsmEvent.error_reset ∷ FsmEvent.card_removed
    ∷ FsmEvent.apdu_timeout ∷ FsmEvent.callback_failure ∷ []

abbrev pub state_place : FsmState → ℕ
state_place FsmState.s0 = 0
state_place FsmState.s1 = 1
state_place FsmState.s2 = 2
state_place FsmState.s2_aid_list = 3
state_place FsmState.s2_select_aid = 4
state_place FsmState.s3 = 5
state_place FsmState.s4 = 6
state_place FsmState.s4_next = 7
state_place FsmState.s5 = 8
state_place FsmState.s5_cda = 9
state_place FsmState.s6 = 10
state_place FsmState.s7 = 11
state_place FsmState.s7_retry = 12
state_place FsmState.s8 = 13
state_place FsmState.s9 = 14
state_place FsmState.s10 = 15
state_place FsmState.s11 = 16
state_place FsmState.s12 = 17
state_place FsmState.s13 = 18
state_place FsmState.s13_script = 19
state_place FsmState.s14 = 20
state_place FsmState.s15 = 21
state_place FsmState.s15_script = 22
state_place FsmState.s16 = 23
state_place FsmState.se = 24

state_at_place : (x : FsmState) → get_elem? all_states (state_place x) ≡ some x
state_at_place FsmState.s0 = refl
state_at_place _ = refl

abbrev pub event_place : FsmEvent → ℕ
event_place FsmEvent.set_transaction_params = 0
event_place FsmEvent.card_detected = 1
event_place FsmEvent.card_detection_timeout = 2
event_place FsmEvent.pse_selected = 3
event_place FsmEvent.pse_not_found = 4
event_place FsmEvent.candidate_aid_available = 5
event_place FsmEvent.no_candidate_left = 6
event_place FsmEvent.aid_selected = 7
event_place FsmEvent.aid_not_supported = 8
event_place FsmEvent.gpo_template77 = 9
event_place FsmEvent.gpo_template80 = 10
event_place FsmEvent.gpo_failed = 11
event_place FsmEvent.record_read = 12
event_place FsmEvent.end_of_records = 13
event_place FsmEvent.record_read_failed = 14
event_place FsmEvent.more_afl_entries = 15
event_place FsmEvent.afl_complete = 16
event_place FsmEvent.oda_success = 17
event_place FsmEvent.oda_failure = 18
event_place FsmEvent.restrictions_evaluated = 19
event_place FsmEvent.cvm_success = 20
event_place FsmEvent.cvm_retry_possible = 21
event_place FsmEvent.cvm_failure_no_retry = 22
event_place FsmEvent.cvm_retry_available = 23
event_place FsmEvent.cvm_retry_exceeded = 24
event_place FsmEvent.trm_evaluated = 25
event_place FsmEvent.taa_arqc = 26
event_place FsmEvent.taa_tc = 27
event_place FsmEvent.taa_aac = 28
event_place FsmEvent.gac_arqc = 29
event_place FsmEvent.gac_tc = 30
event_place FsmEvent.gac_aac = 31
event_place FsmEvent.gac_cda = 32
event_place FsmEvent.gac_failed = 33
event_place FsmEvent.cda_success = 34
event_place FsmEvent.cda_failure = 35
event_place FsmEvent.host_arpc = 36
event_place FsmEvent.host_approval_no_arpc = 37
event_place FsmEvent.host_timeout = 38
event_place FsmEvent.issuer_authentication_success = 39
event_place FsmEvent.issuer_authentication_failure = 40
event_place FsmEvent.gac2_tc = 41
event_place FsmEvent.gac2_aac = 42
event_place FsmEvent.gac2_failed = 43
event_place FsmEvent.script_available = 44
event_place FsmEvent.no_more_scripts = 45
event_place FsmEvent.script_success = 46
event_place FsmEvent.script_non_critical_failure = 47
event_place FsmEvent.script_critical_failure = 48
event_place FsmEvent.final_generate_ac_skipped = 49
event_place FsmEvent.final_outcome_complete = 50
event_place FsmEvent.error_reset = 51
event_place FsmEvent.card_removed = 52
event_place FsmEvent.apdu_timeout = 53
event_place FsmEvent.callback_failure = 54

event_at_place : (x : FsmEvent) → get_elem? all_events (event_place x) ≡ some x
event_at_place FsmEvent.set_transaction_params = refl
event_at_place _ = refl

-- A state is determined by its place, and so is an event.
pub state_of_place : (a b : FsmState) → (state_place a == state_place b) ≡ true → a ≡ b
state_of_place a b h =
    cc (state_at_place a, state_at_place b, (==_iff (state_place a) (state_place b)).0 h)

pub event_of_place : (a b : FsmEvent) → (event_place a == event_place b) ≡ true → a ≡ b
event_of_place a b h =
    cc (event_at_place a, event_at_place b, (==_iff (event_place a) (event_place b)).0 h)

all_at {ℓ} :
    {A : Type ℓ} (p : A → Bool) (xs : List A) (i : ℕ) (x : A)
    → all p xs ≡ true
    → get_elem? xs i ≡ some x
    → p x ≡ true
all_at p [] i x h e = cc
all_at p (y ∷ ys) zero x h e = ground arith
all_at p (y ∷ ys) (suc i) x h e = all_at p ys i x (ground arith) e

every_state : (p : FsmState → Bool) → all p all_states ≡ true → (s : FsmState) → p s ≡ true
every_state p h s = all_at p all_states (state_place s) s h (state_at_place s)

every_event : (p : FsmEvent → Bool) → all p all_events ≡ true → (v : FsmEvent) → p v ≡ true
every_event p h v = all_at p all_events (event_place v) v h (event_at_place v)

-- Every pair of a state and an event passes the test.
abbrev pub all_pairs : (FsmState → FsmEvent → Bool) → Bool
all_pairs p = all (λ s. all (p s) all_events) all_states

pub every_pair :
    (p : FsmState → FsmEvent → Bool)
    → all_pairs p ≡ true
    → (s : FsmState) (v : FsmEvent) → p s v ≡ true
every_pair p h s v = every_event (p s) (every_state (λ z. all (p z) all_events) h s) v

-- Every state passes the test.
abbrev pub for_states : (FsmState → Bool) → Bool
for_states p = all p all_states

pub every_state_lem : (p : FsmState → Bool) → for_states p ≡ true → (s : FsmState) → p s ≡ true
every_state_lem p h s = every_state p h s

-- Every pair of states passes the test.
pub every_two :
    (p : FsmState → FsmState → Bool)
    → for_states (λ a. for_states (p a)) ≡ true
    → (a b : FsmState) → p a b ≡ true
every_two p h a b = every_state (p a) (every_state (λ z. for_states (p z)) h a) b
