-- ===== src/Contactless/Outcomes.antt =====
-- When a contactless outcome of src/c8.rs is consistent, and which outcome the limits give.
use hyperion_x_emv.Base.{
  ℕ, ◌≤◌, ◌≡◌, ◌≢◌, ◌↔◌, ◌⊎◌, inl, inr, refl, Bool, true, false, not, ◌&&◌, ◌||◌, List, ltb, ◌==◌,
  if◌then◌else◌, length, arith, KernelError, KernelResult, okay, fail_if, >>=-eq-okay, Bool-cases,
}
use mathlib.Core.Path.{subst}
use hyperion_x_emv.Contactless.{
  ContactlessOutcomeCode, StartSignal, AlternateInterface, outcome_value, start_value, status_value,
  interface_value, UiRequest, ContactlessOutcome, interface_agrees, restart_agrees, new_outcome,
  ContactlessLimitInput, ContactlessLimitDecision, evaluate_contactless_limits,
  outcome_from_limit_decision, max_c8_data_record_len, max_c8_discretionary_data_len,
}

-- What each code asks of the restart, the signal and the status.
abbrev pub SuitsCode : ContactlessOutcome → ContactlessOutcomeCode → Type 0
SuitsCode o ContactlessOutcomeCode.try_again =
    (o.restart_required ≡ true) × (status_value o.ui.status ≡ 6)
SuitsCode o ContactlessOutcomeCode.cvm_required =
    (o.restart_required ≡ true) × (start_value o.start_signal ≢ 0)
SuitsCode o ContactlessOutcomeCode.select_next = Unit {0}
SuitsCode o ContactlessOutcomeCode.profile_defined = Unit {0}
SuitsCode o _ = o.restart_required ≡ false

pub record IsConsistent (o : ContactlessOutcome) : Type 0 where
  pub record_fits : length o.data_record ≤ 252
  pub data_fits : length o.discretionary_data ≤ 252
  pub one_interface :
      (outcome_value o.outcome_code == 6) ≡ not (interface_value o.alternate_interface == 0)
  pub quiet : (status_value o.ui.status ≢ 0) ⊎ ((o.ui.message_id ≡ 0) × (o.ui.hold_time_ms ≡ 0))
  pub signalled : (o.restart_required ≡ false) ⊎ (start_value o.start_signal ≢ 0)
  pub restarted : (start_value o.start_signal ≢ 2) ⊎ (o.restart_required ≡ true)
  pub suits : SuitsCode o o.outcome_code

suits_sound :
    (o : ContactlessOutcome) (code : ContactlessOutcomeCode)
    → restart_agrees code o.start_signal o.ui o.restart_required ≡ okay tt
    → SuitsCode o code
unfolding restart_agrees
suits_sound o ContactlessOutcomeCode.try_again h = (ground arith, ground arith)
suits_sound o ContactlessOutcomeCode.cvm_required h = (ground arith, ground arith)
suits_sound o ContactlessOutcomeCode.select_next h = tt
suits_sound o ContactlessOutcomeCode.profile_defined h = tt
suits_sound o ContactlessOutcomeCode.approved h = ground arith
suits_sound o ContactlessOutcomeCode.declined h = ground arith
suits_sound o ContactlessOutcomeCode.online_required h = ground arith
suits_sound o ContactlessOutcomeCode.alternate_interface h = ground arith
suits_sound o ContactlessOutcomeCode.terminate h = ground arith

suits_complete :
    (o : ContactlessOutcome) (code : ContactlessOutcomeCode)
    → SuitsCode o code
    → restart_agrees code o.start_signal o.ui o.restart_required ≡ okay tt
unfolding restart_agrees
suits_complete o ContactlessOutcomeCode.try_again h = ground (arith, h.0, h.1)
suits_complete o ContactlessOutcomeCode.cvm_required h = ground (arith, h.0, h.1)
suits_complete o ContactlessOutcomeCode.select_next h = refl
suits_complete o ContactlessOutcomeCode.profile_defined h = refl
suits_complete o ContactlessOutcomeCode.approved h = ground (arith, h)
suits_complete o ContactlessOutcomeCode.declined h = ground (arith, h)
suits_complete o ContactlessOutcomeCode.online_required h = ground (arith, h)
suits_complete o ContactlessOutcomeCode.alternate_interface h = ground (arith, h)
suits_complete o ContactlessOutcomeCode.terminate h = ground (arith, h)

-- The guards of `new` on the fields of an outcome.
module _ (o : ContactlessOutcome) where
  abbrev run : KernelResult ContactlessOutcome
  run =
      new_outcome o.outcome_code o.start_signal o.ui o.restart_required o.data_record
        o.discretionary_data o.alternate_interface

  new_outcome_complete : IsConsistent o → run ≡ okay o
  unfolding new_outcome interface_agrees
  new_outcome_complete c =
      let agrees = suits_complete o o.outcome_code c.suits in
      ground (
        arith, c.record_fits, c.data_fits, c.one_interface, c.quiet, c.signalled, c.restarted,
        agrees,
      )

quiet_of :
    (u : UiRequest)
    → (status_value u.status == 0 && (not (u.message_id == 0) || not (u.hold_time_ms == 0))) ≡ false
    → (status_value u.status ≢ 0) ⊎ ((u.message_id ≡ 0) × (u.hold_time_ms ≡ 0))
quiet_of u h = elim (Bool-cases (status_value u.status == 0)) [
  | inl e ↦ inr (ground (arith, e), ground (arith, e))
  | inr e ↦ inl (ground (arith, e))
]

either : (again : Bool) {n : ℕ} → (again && n == 0) ≡ false → (again ≡ false) ⊎ (n ≢ 0)
either true h = inr (ground arith)
either false h = inl refl

new_outcome_sound :
    (code : ContactlessOutcomeCode) (signal : StartSignal) (request : UiRequest) (again : Bool)
    (bytes more : List ℕ) (alternate : AlternateInterface) (o : ContactlessOutcome)
    → new_outcome code signal request again bytes more alternate ≡ okay o
    → IsConsistent o
unfolding new_outcome interface_agrees
new_outcome_sound code signal request again bytes more alternate o h =
    let (u1, p1, h1) =
      >>=-eq-okay
        (fail_if
          (ltb max_c8_data_record_len (length bytes)
            || ltb max_c8_discretionary_data_len (length more))
          KernelError.length_overflow)
        _ h in
    let (u2, p2, h2) = >>=-eq-okay (interface_agrees code alternate) _ h1 in
    let (u3, p3, h3) =
      >>=-eq-okay
        (fail_if
          (status_value request.status == 0
            && (not (request.message_id == 0) || not (request.hold_time_ms == 0)))
          KernelError.invalid_argument)
        _ h2 in
    let (u4, p4, h4) =
      >>=-eq-okay (fail_if (again && start_value signal == 0) KernelError.invalid_argument) _ h3 in
    let (u5, p5, h5) =
      >>=-eq-okay (fail_if (start_value signal == 2 && not again) KernelError.invalid_argument) _
        h4 in
    let (u6, p6, h6) = >>=-eq-okay (restart_agrees code signal request again) _ h5 in
    let made : ContactlessOutcome = record {
      outcome_code = code;
      start_signal = signal;
      ui = request;
      restart_required = again;
      data_record = bytes;
      discretionary_data = more;
      alternate_interface = alternate;
    } in
    let same : made ≡ o = ground (arith, h6) in
    subst IsConsistent (same) (record {
      record_fits = ground (arith, p1);
      data_fits = ground (arith, p1);
      one_interface = ground (arith, p2);
      quiet = quiet_of request (ground (arith, p3));
      signalled = either again (ground (arith, p4));
      restarted = elim (Bool-cases again) [ inl e ↦ inr e | inr e ↦ inl (ground (arith, p5, e)) ];
      suits = suits_sound made code p6;
    })

-- `ContactlessOutcome::new` accepts exactly the consistent outcomes, and returns them unchanged.
pub new_outcome_lem :
    (o : ContactlessOutcome)
    → (new_outcome o.outcome_code o.start_signal o.ui o.restart_required o.data_record
          o.discretionary_data o.alternate_interface
        ≡ okay o)
      ↔ IsConsistent o
new_outcome_lem o = (
  new_outcome_sound o.outcome_code o.start_signal o.ui o.restart_required o.data_record
      o.discretionary_data o.alternate_interface o,
  new_outcome_complete o,
)

-- An amount above a limit that is in force.
abbrev pub exceeds : ℕ → ℕ → Bool
exceeds amount limit = not (limit == 0) && ltb limit amount

-- The code that the limits ask for.
abbrev pub expected_code : ContactlessLimitInput → ℕ
expected_code i =
    if exceeds i.amount_authorised_minor i.contactless_transaction_limit
    then 6
    else if exceeds i.amount_authorised_minor i.contactless_cvm_limit && not i.cvm_satisfied
    then 8
    else if exceeds i.amount_authorised_minor i.floor_limit
    then 3
    else 1

abbrev decision_code : ContactlessLimitDecision → ℕ
decision_code ContactlessLimitDecision.allowed = 1
decision_code ContactlessLimitDecision.cvm_required = 8
decision_code ContactlessLimitDecision.online_required = 3
decision_code ContactlessLimitDecision.alternate_interface = 6

-- An outcome that is returned, with its code.
abbrev pub Returns : KernelResult ContactlessOutcome → ℕ → Type 0
Returns r code =
    (o : ContactlessOutcome) × (r ≡ okay o) × IsConsistent o × (outcome_value o.outcome_code ≡ code)

decided : (d : ContactlessLimitDecision) → Returns (outcome_from_limit_decision d) (decision_code d)
unfolding outcome_from_limit_decision new_outcome interface_agrees restart_agrees
decided ContactlessLimitDecision.allowed = (_, refl, (new_outcome_lem _).0 refl, refl)
decided ContactlessLimitDecision.cvm_required = (_, refl, (new_outcome_lem _).0 refl, refl)
decided ContactlessLimitDecision.online_required = (_, refl, (new_outcome_lem _).0 refl, refl)
decided ContactlessLimitDecision.alternate_interface = (_, refl, (new_outcome_lem _).0 refl, refl)

-- Every limit decision becomes a consistent outcome, never an error; its code asks for another
-- interface above the transaction limit, else for a CVM above the CVM limit without one, else for an
-- online authorization above the floor limit, and else approves. A limit of zero is not in force.
pub outcome_from_limit_decision-evaluate_contactless_limits :
    (i : ContactlessLimitInput)
    → Returns (outcome_from_limit_decision (evaluate_contactless_limits i)) (expected_code i)
outcome_from_limit_decision-evaluate_contactless_limits i =
    subst (Returns (outcome_from_limit_decision (evaluate_contactless_limits i))) (code)
      (decided (evaluate_contactless_limits i))
  where
    code : decision_code (evaluate_contactless_limits i) ≡ expected_code i
    code = unfold evaluate_contactless_limits in ground arith
