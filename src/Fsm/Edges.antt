-- ===== src/Fsm/Edges.antt =====
-- Single transitions of src/fsm.rs.
use hyperion_x_emv.Base.{
  ◌≡◌, ◌≢◌, ◌↔◌, ◌⊎◌, refl, ◌∙◌, Bool, true, false, not, ◌&&◌, ◌||◌, arith, inl, inr, KernelError,
  okay, err, ◌==◌, if◌then◌else◌, Bool-cases, and_true, KernelResult-cases,
}
use hyperion_x_emv.Fsm.{
  FsmState, FsmEvent, FsmAction, Transition, TransactionFsm, code, target, transition, apply, se,
  s0, s9, s10, card_removed, apdu_timeout, callback_failure, error_reset, taa_tc, gac_tc,
}
use hyperion_x_emv.Fsm.Enumerate.{
  all_pairs, every_pair, every_two, for_states, state_place, state_of_place, event_place,
  event_of_place,
}

-- The codes of the C interface tell all states apart.
codes_table :
    for_states (λ a. for_states (λ b. not (code a == code b) || state_place a == state_place b))
    ≡ true
unfolding code
codes_table = refl

-- Two states with the same code are the same state.
pub code_injective : (a b : FsmState) → code a ≡ code b → a ≡ b
code_injective a b h =
    let p : FsmState → FsmState → Bool =
      λ x y. not (code x == code y) || state_place x == state_place y in
    state_of_place a b (ground (arith, every_two p codes_table a b))

abbrev is_ok : KernelError → Bool
is_ok KernelError.ok = true
is_ok _ = false

abbrev is_se : FsmState → Bool
is_se s = state_place s == state_place se

-- A test of the transition from a state on an event, if there is one.
abbrev pub on_taken : (FsmState → FsmAction → KernelError → Bool) → FsmState → FsmEvent → Bool
on_taken p s v = elim (target s v) [ okay (to, act, code) ↦ p to act code | err e ↦ true ]

-- A test that every transition of the table passes is passed by each that is taken.
pub taken_passes :
    (p : FsmState → FsmAction → KernelError → Bool) (s : FsmState) (v : FsmEvent) (t : Transition)
    → on_taken p s v ≡ true
    → transition s v ≡ okay t
    → p t.to t.action t.error ≡ true
unfolding transition
taken_passes p s v t h e = elim (KernelResult-cases (target s v)) [
  | inl ((to, act, code), q) ↦ ground (arith, q)
  | inr (x, q) ↦ absurd (ground (arith, q))
]

abbrev reports : FsmState → FsmAction → KernelError → Bool
reports to act code = if is_ok code then not (is_se to) else is_se to

errors_table : all_pairs (on_taken reports) ≡ true
unfolding target
errors_table = refl

is_ok_iff : (e : KernelError) → (is_ok e ≡ true) ↔ (e ≡ KernelError.ok)
is_ok_iff KernelError.ok = (λ h. refl, λ h. refl)
is_ok_iff _ = (λ h. cc, λ h. cc)

-- A transition names the state and the event that it was taken from, and reports an error exactly
-- when it leads to the error state.
pub transition_error :
    (s : FsmState) (v : FsmEvent) (t : Transition)
    → transition s v ≡ okay t
    → (t.from ≡ s) × (t.event ≡ v) × (t.error ≢ KernelError.ok ↔ t.to ≡ se)
transition_error s v t e =
    let passed = taken_passes reports s v t (every_pair (on_taken reports) errors_table s v) e in
    let (from_s, on_v) = names s v t e in
    (
      from_s,
      on_v,
      (
        λ bad. state_of_place t.to se (ground (arith, passed, is_ok_iff t.error)),
        λ at_se. λ fine. cc (passed, at_se),
      ),
    )
  where
    names :
        (s : FsmState) (v : FsmEvent) (t : Transition)
        → transition s v ≡ okay t
        → (t.from ≡ s) × (t.event ≡ v)
    names s v t e = elim (KernelResult-cases (target s v)) [
      | inl ((to, act, code), q) ↦ unfold transition in (ground (arith, q), ground (arith, q))
      | inr (x, q) ↦ unfold transition in absurd (ground (arith, q))
    ]

abbrev is_invalid : KernelError → Bool
is_invalid KernelError.invalid_argument = true
is_invalid _ = false

is_invalid_eq : (e : KernelError) → is_invalid e ≡ true → e ≡ KernelError.invalid_argument
is_invalid_eq KernelError.invalid_argument h = refl
is_invalid_eq _ h = cc

abbrev refuses_well : FsmState → FsmEvent → Bool
refuses_well s v = elim (target s v) [ okay r ↦ true | err e ↦ is_invalid e ]

refusals_table : all_pairs refuses_well ≡ true
unfolding target
refusals_table = refl

transition_refusal :
    (s : FsmState) (v : FsmEvent) (e : KernelError)
    → transition s v ≡ err e
    → e ≡ KernelError.invalid_argument
unfolding transition
transition_refusal s v e h = elim (KernelResult-cases (target s v)) [
  | inl (r, q) ↦ absurd (ground (arith, q))
  | inr (x, q) ↦ is_invalid_eq e (ground (arith, q, every_pair refuses_well refusals_table s v))
]

-- An event with no transition leaves the machine as it is, with an invalid argument as the error, and
-- one with a transition takes it to that transition's target.
pub apply_lem :
    (f : TransactionFsm) (v : FsmEvent)
    → (apply f v ≡ (f, err KernelError.invalid_argument))
      ⊎ ((t : Transition) × (transition f.state v ≡ okay t)
          × (apply f v ≡ (record { state = t.to }, okay t)))
unfolding apply
apply_lem f v = elim (KernelResult-cases (transition f.state v)) [
  | inl (t, q) ↦ inr (t, q, ground (arith, q))
  | inr (x, q) ↦ inl (ground (arith, q, transition_refusal f.state v x q))
]

-- The state that an event leads to, the same if the event is refused.
pub state-apply :
    (f : TransactionFsm) (v : FsmEvent)
    → (apply f v).0.state ≡ (elim (target f.state v) [ okay (to, act, why) ↦ to | err e ↦ f.state ])
unfolding apply transition
state-apply f v = elim (KernelResult-cases (target f.state v)) [
  | inl ((to, act, why), q) ↦ ground (arith, q)
  | inr (x, q) ↦ ground (arith, q)
]

abbrev pub is_interruption : FsmEvent → Bool
is_interruption card_removed = true
is_interruption apdu_timeout = true
is_interruption callback_failure = true
is_interruption _ = false

abbrev lands_in : FsmState → FsmState → FsmEvent → Bool
lands_in goal s v = elim (target s v) [
  | okay (to, act, why) ↦ state_place to == state_place goal
  | err e ↦ false
]

abbrev breaks_off : FsmState → FsmEvent → Bool
breaks_off s v = not (is_interruption v) || lands_in se s v

interruptions_table : all_pairs breaks_off ≡ true
unfolding target
interruptions_table = refl

lands :
    (goal : FsmState) (f : TransactionFsm) (v : FsmEvent)
    → lands_in goal f.state v ≡ true
    → (apply f v).0.state ≡ goal
lands goal f v h = elim (KernelResult-cases (target f.state v)) [
  | inl ((to, act, why), q) ↦ state-apply f v ∙ rw q (state_of_place to goal (ground (arith, q)))
  | inr (x, q) ↦ absurd (ground (arith, q))
]

-- A removed card, an APDU timeout and a failed callback take the machine to the error state from any
-- state, and the reset event takes it from there to its start.
pub interruption_then_reset :
    (f : TransactionFsm) (v : FsmEvent)
    → is_interruption v ≡ true
    → ((apply f v).0.state ≡ se) × ((apply (apply f v).0 error_reset).0.state ≡ s0)
interruption_then_reset f v h =
    let at_se : (apply f v).0.state ≡ se =
      lands se f v (ground (arith, every_pair breaks_off interruptions_table f.state v)) in
    (at_se, state-apply (apply f v).0 error_reset ∙ rw at_se (unfold target in refl))

abbrev approves : FsmAction → Bool
approves FsmAction.offline_approve = true
approves _ = false

abbrev is_pair : FsmState → FsmEvent → FsmState → FsmEvent → Bool
is_pair s v s' v' = state_place s == state_place s' && event_place v == event_place v'

-- Either the action is no approval, or the transition is one of the two that approve.
abbrev approves_there : FsmState → FsmEvent → FsmState → FsmAction → KernelError → Bool
approves_there s v to act why =
    not (approves act) || (is_pair s v s9 taa_tc || is_pair s v s10 gac_tc)

approvals_table : all_pairs (λ s v. on_taken (approves_there s v) s v) ≡ true
unfolding target
approvals_table = refl

pair_of :
    (s : FsmState) (v : FsmEvent) (s' : FsmState) (v' : FsmEvent)
    → is_pair s v s' v' ≡ true
    → (s ≡ s') × (v ≡ v')
pair_of s v s' v' h =
    let (same_s, same_v) =
      and_true (state_place s == state_place s') (event_place v == event_place v') h in
    (state_of_place s s' same_s, event_of_place v v' same_v)

-- The offline approval of a transaction is the action of two transitions only: a TC decided by the
-- terminal action analysis, or a TC from the card for the first GENERATE AC.
pub offline_approval :
    (s : FsmState) (v : FsmEvent) (t : Transition)
    → transition s v ≡ okay t
    → t.action ≡ FsmAction.offline_approve
    → ((s ≡ s9) × (v ≡ taa_tc)) ⊎ ((s ≡ s10) × (v ≡ gac_tc))
offline_approval s v t e a =
    let table = every_pair (λ x y. on_taken (approves_there x y) x y) approvals_table s v in
    let either : (is_pair s v s9 taa_tc || is_pair s v s10 gac_tc) ≡ true =
      ground (arith, taken_passes (approves_there s v) s v t table e) in
    elim (Bool-cases (is_pair s v s9 taa_tc)) [
      | inl yes_first ↦ inl (pair_of s v s9 taa_tc yes_first)
      | inr not_first ↦ inr (pair_of s v s10 gac_tc (ground (arith, not_first, either)))
    ]
