-- ===== src/Cvm/Rules.antt =====
-- Which rule of a CVM list decides (src/cvm.rs), and what its action needs.
use hyperion_x_emv.Base.{
  ℕ, suc, ◌≡◌, ◌⊎◌, inl, inr, refl, Bool, true, false, not, ◌&&◌, ◌||◌, List, [], ◌∷◌, Option, some,
  none, take, get_elem?, and_true, if◌then◌else◌, All, is_some, arith, Bool-cases, Option-cases,
  ◌∙◌, sym, ap,
}
use mathlib.Core.Path.{subst}
use mathlib.Core.Option.{some-injective}
use hyperion_x_emv.State.Bitmap.{Bit}
use hyperion_x_emv.State.Tvr
use hyperion_x_emv.Cvm.{
  CvmMethod, CvmRule, CvmList, CvmContext, CvmAction, CvmPinHandles, CvmOutcome,
  continue_on_failure, condition_matches, action_for_method, cvm_unavailable_bit, cvm_failed,
  cvm_results, latest, first_bit, evaluate_from, evaluate, with_handle, then_action, is_contactless,
}

-- The rule does not apply, or it gives no action and lets the next rule follow.
abbrev pub passed_over : CvmList → CvmContext → CvmPinHandles → CvmRule → Bool
passed_over list context handles rule =
    not (condition_matches rule list context)
    || (not (is_some (action_for_method rule.method context handles)) && continue_on_failure rule)

abbrev pub IsPassed : CvmList → CvmContext → CvmPinHandles → CvmRule → Type 0
IsPassed list context handles rule = passed_over list context handles rule ≡ true

-- The bit of the last rule that applied and whose method was not available.
abbrev pub observed_from :
    Option Bit → List CvmRule → CvmList → CvmContext → CvmPinHandles → Option Bit
observed_from observed [] list context handles = observed
observed_from observed (rule ∷ rules) list context handles =
    observed_from
      (if condition_matches rule list context
        then latest (cvm_unavailable_bit rule.method context handles) observed
        else observed)
      rules list context handles

-- The outcome of a rule that is not passed over, after the rules before it.
abbrev pub decided : CvmRule → CvmContext → CvmPinHandles → Option Bit → CvmOutcome
decided rule context handles observed = elim (action_for_method rule.method context handles) [
  | some action ↦ CvmOutcome.selected action (cvm_results rule 0x02) observed
  | none ↦
      CvmOutcome.failed (cvm_results rule 0x01)
        (first_bit (cvm_unavailable_bit rule.method context handles) observed)
]

first_bit-latest :
    (bit observed : Option Bit) → first_bit (latest bit observed) bit ≡ first_bit bit observed
first_bit-latest none none = refl
first_bit-latest none (some b) = refl
first_bit-latest (some b) none = refl
first_bit-latest (some b) (some c) = refl

abbrev Decision : List CvmRule → CvmList → CvmContext → CvmPinHandles → Option Bit → Type 0
Decision rules list context handles observed =
    (All (IsPassed list context handles) rules
      × (evaluate_from rules list context handles observed
          ≡ CvmOutcome.failed (0x3f ∷ 0x00 ∷ 0x01 ∷ [])
              Tvr.b3_cardholder_verification_not_successful))
    ⊎ ((i : ℕ) × (rule : CvmRule) × (get_elem? rules i ≡ some rule)
        × All (IsPassed list context handles) (take i rules)
        × (passed_over list context handles rule ≡ false)
        × (evaluate_from rules list context handles observed
            ≡ decided rule context handles
                (observed_from observed (take i rules) list context handles)))

abbrev after : CvmRule → CvmList → CvmContext → CvmPinHandles → Option Bit → Option Bit
after rule list context handles observed =
    if condition_matches rule list context
    then latest (cvm_unavailable_bit rule.method context handles) observed
    else observed

-- A rule that is passed over leaves the decision to the rules after it.
pass :
    (rule : CvmRule) (rules : List CvmRule) (list : CvmList) (context : CvmContext)
    (handles : CvmPinHandles) (observed : Option Bit)
    → passed_over list context handles rule ≡ true
    → evaluate_from (rule ∷ rules) list context handles observed
      ≡ evaluate_from rules list context handles (after rule list context handles observed)
unfolding evaluate_from
pass rule rules list context handles observed h =
    elim (Option-cases (action_for_method rule.method context handles)) [
      | inl e ↦ ground (arith, e)
      | inr (action, e) ↦ ground (arith, e)
    ]

-- A rule that is not passed over decides.
stop :
    (rule : CvmRule) (rules : List CvmRule) (list : CvmList) (context : CvmContext)
    (handles : CvmPinHandles) (observed : Option Bit)
    → passed_over list context handles rule ≡ false
    → evaluate_from (rule ∷ rules) list context handles observed
      ≡ decided rule context handles observed
unfolding evaluate_from cvm_failed
stop rule rules list context handles observed h =
    elim (Option-cases (action_for_method rule.method context handles)) [
      | inl e ↦
          ground
            (arith, e, first_bit-latest (cvm_unavailable_bit rule.method context handles) observed)
      | inr (action, e) ↦ ground (arith, e)
    ]

decision :
    (rules : List CvmRule) (list : CvmList) (context : CvmContext) (handles : CvmPinHandles)
    (observed : Option Bit)
    → Decision rules list context handles observed
unfolding evaluate_from
decision [] list context handles observed = inl (tt, refl)
decision (rule ∷ rules) list context handles observed =
    elim (Bool-cases (passed_over list context handles rule)) [
      | inr here ↦ inr (0, rule, refl, tt, here, stop rule rules list context handles observed here)
      | inl over ↦
          let step = pass rule rules list context handles observed over in
          elim (decision rules list context handles (after rule list context handles observed)) [
            | inl (all_over, e) ↦ inl ((over, all_over), step ∙ e)
            | inr (i, found, at, before, stops, e) ↦
                inr (suc i, found, at, (over, before), stops, step ∙ e)
          ]
    ]

-- Cardholder verification is decided by the first rule that is not passed over, that is, whose
-- condition holds and that gives an action or does not let the next rule follow: its action is
-- selected, or verification fails with its code; the TVR bit is the last one that an unavailable
-- method called for. If all rules are passed over, verification fails as a whole.
pub evaluate-decided :
    (list : CvmList) (context : CvmContext) (handles : CvmPinHandles)
    → (All (IsPassed list context handles) list.rules
        × (evaluate list context handles
            ≡ CvmOutcome.failed
                (0x3f ∷ 0x00 ∷ 0x01 ∷ [])
                Tvr.b3_cardholder_verification_not_successful))
      ⊎ ((i : ℕ) × (rule : CvmRule) × (get_elem? list.rules i ≡ some rule)
          × All (IsPassed list context handles) (take i list.rules)
          × (passed_over list context handles rule ≡ false)
          × (evaluate list context handles
              ≡ decided rule context handles
                  (observed_from none (take i list.rules) list context handles)))
unfolding evaluate
evaluate-decided list context handles = decision list.rules list context handles none

-- What the terminal and the PIN pad must have for an action.
abbrev pub IsBacked : CvmContext → CvmPinHandles → CvmAction → Type 0
IsBacked context handles CvmAction.no_cvm = Unit {0}
IsBacked context handles CvmAction.do_online_pin = context.online_pin_supported ≡ true
IsBacked context handles CvmAction.do_signature = context.signature_supported ≡ true
IsBacked context handles CvmAction.cdcvm =
    (is_contactless context.interface ≡ true) × (context.cdcvm_performed ≡ true)
IsBacked context handles (CvmAction.do_offline_plaintext_pin h) =
    (context.offline_pin_supported ≡ true) × (handles.offline_plaintext ≡ some h)
IsBacked context handles (CvmAction.do_offline_enciphered_pin h) =
    (context.offline_pin_supported ≡ true) × (handles.offline_enciphered ≡ some h)
IsBacked context handles (CvmAction.do_offline_plaintext_pin_and_signature h) =
    (context.offline_pin_supported ≡ true)
    × (context.signature_supported ≡ true)
    × (handles.offline_plaintext ≡ some h)
IsBacked context handles (CvmAction.do_offline_enciphered_pin_and_signature h) =
    (context.offline_pin_supported ≡ true)
    × (context.signature_supported ≡ true)
    × (handles.offline_enciphered ≡ some h)

then_action-some :
    (ok : Bool) (made action : CvmAction)
    → then_action ok made ≡ some action
    → (ok ≡ true) × (action ≡ made)
then_action-some true made action e = (refl, ground arith)
then_action-some false made action e = cc

with_handle-some :
    (ok : Bool) (handle : Option ℕ) (make : ℕ → CvmAction) (action : CvmAction)
    → with_handle ok handle make ≡ some action
    → (h : ℕ) × (ok ≡ true) × (handle ≡ some h) × (action ≡ make h)
with_handle-some true (some h) make action e = (h, refl, refl, ground arith)
with_handle-some true none make action e = cc
with_handle-some false (some h) make action e = cc
with_handle-some false none make action e = cc

action-IsBacked :
    (method : CvmMethod) (context : CvmContext) (handles : CvmPinHandles) (action : CvmAction)
    → action_for_method method context handles ≡ some action
    → IsBacked context handles action
unfolding action_for_method
action-IsBacked CvmMethod.no_cvm_required context handles action e =
    subst (IsBacked context handles) (some-injective _ _ e) tt
action-IsBacked CvmMethod.online_pin context handles action e =
    let (ok, made) = then_action-some _ _ action e in rw made ok
action-IsBacked CvmMethod.signature context handles action e =
    let (ok, made) = then_action-some _ _ action e in rw made ok
action-IsBacked CvmMethod.offline_plaintext_pin context handles action e =
    let (h, ok, has, made) = with_handle-some _ _ _ action e in rw made (ok, has)
action-IsBacked CvmMethod.offline_enciphered_pin context handles action e =
    let (h, ok, has, made) = with_handle-some _ _ _ action e in rw made (ok, has)
action-IsBacked CvmMethod.offline_plaintext_pin_and_signature context handles action e =
    let (h, ok, has, made) = with_handle-some _ _ _ action e in
    let both = and_true context.offline_pin_supported context.signature_supported ok in
    rw made (both.0, both.1, has)
action-IsBacked CvmMethod.offline_enciphered_pin_and_signature context handles action e =
    let (h, ok, has, made) = with_handle-some _ _ _ action e in
    let both = and_true context.offline_pin_supported context.signature_supported ok in
    rw made (both.0, both.1, has)
action-IsBacked (CvmMethod.scheme_specific code) context handles action e =
    let (ok, made) = then_action-some _ _ action e in rw made (and_true _ _ ok)
action-IsBacked CvmMethod.fail_cvm_processing context handles action e = absurd (ground arith)
action-IsBacked (CvmMethod.unknown code) context handles action e = absurd (ground arith)

-- The action selected, if any.
abbrev pub action_of : CvmOutcome → Option CvmAction
action_of (CvmOutcome.selected action results bit) = some action
action_of (CvmOutcome.failed results bit) = none

action_of-decided :
    (rule : CvmRule) (context : CvmContext) (handles : CvmPinHandles) (observed : Option Bit)
    → action_of (decided rule context handles observed)
      ≡ action_for_method rule.method context handles
action_of-decided rule context handles observed =
    elim (Option-cases (action_for_method rule.method context handles)) [
      | inl e ↦ rw (decided, e) refl
      | inr (action, e) ↦ rw (decided, e) refl
    ]

-- Whatever action cardholder verification selects, the terminal supports it: online PIN and
-- signature only if the terminal has them, an offline PIN only with the handle of the PIN pad that
-- it carries, CDCVM only on a contactless interface where it was performed.
pub evaluate-IsBacked :
    (list : CvmList) (context : CvmContext) (handles : CvmPinHandles) (action : CvmAction)
    → action_of (evaluate list context handles) ≡ some action
    → IsBacked context handles action
evaluate-IsBacked list context handles action e = elim (evaluate-decided list context handles) [
  | inl (over, f) ↦ absurd (ground (arith, f))
  | inr (i, rule, at, before, stops, f) ↦ action-IsBacked rule.method context handles action (
      sym (
        action_of-decided rule context handles
          (observed_from none (take i list.rules) list context handles))
      ∙ ap action_of (sym f)
      ∙ e)
]
