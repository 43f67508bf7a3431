-- ===== src/Ffi/Resolved.antt =====
-- What the rounds of src/ffi.rs from the terminal's decision return, and where they leave the transaction.
use hyperion_x_emv.Base.{
  ◌≡◌, ◌⊎◌, refl, sym, Bool, ◌&&◌, Option, some, none, if◌then◌else◌, ◌==◌, inl, inr, arith,
  KernelError, okay, err,
}
use mathlib.Core.Path.{subst}
use hyperion_x_emv.State.{KernelState}
use hyperion_x_emv.State.Tvr
use hyperion_x_emv.Fsm.{code, s9, s10, s11, s16}
use hyperion_x_emv.Apdu.{CryptogramRequest}
use hyperion_x_emv.Gac.{CryptogramType, cryptogram_type, GenerateAcResponse}
use hyperion_x_emv.Config.{ProfileSet}
use hyperion_x_emv.Ffi.{KrnOutcome, KrnContext, Card, Session, Kernel, ◌>>◌, pure, lift, modify}
use hyperion_x_emv.Ffi.Online.{with_outcome}
use hyperion_x_emv.Ffi.Keeps.{Keeps-asks}
use hyperion_x_emv.Ffi.Control.{
  Control, control_of, After, Quiet-modify, Ends, Ends-bind, Ends-quiet, Ends-asks, Ends-lift,
  Ends-pure, Ends-err, Ends-if, with_fsm, modify-then,
}
use hyperion_x_emv.Ffi.Flow.{at_stage}
use hyperion_x_emv.Ffi.Decision.{outcome_is}
use hyperion_x_emv.Ffi.FirstGac.{
  run_first_generate_ac, finish_with, outcome_of_request, outcome_of_response, outcome_of_type,
  finish_offline_outcome_from_taa, finish_offline_outcome_from_first_gac, is_final_outcome,
  is_s14_or_s16, is_final_outcome_state, first_gac_transaction_outcome, advance_from_s9,
}
use hyperion_x_emv.Ffi.Offline.{
  IsActed, IsGenerated, run_terminal_action_analysis_ends, run_first_generate_ac_ends,
}

-- The result goes with the state that the transaction is left in.
abbrev pub IsResolved : Option KrnOutcome → KrnOutcome → Control → Type 0
IsResolved before outcome k' =
    ((outcome ≡ KrnOutcome.online_required)
      × (k'.fsm ≡ s11)
      × (k'.stage ≡ KernelState.online_authorization)
      × (k'.outcome ≡ before))
    ⊎ (((outcome ≡ KrnOutcome.approved_offline) ⊎ (outcome ≡ KrnOutcome.declined_offline))
        × (k'.fsm ≡ s16)
        × (k'.stage ≡ KernelState.final_outcome)
        × (k'.outcome ≡ some outcome))

abbrev IsOffline : KrnOutcome → Type 0
IsOffline outcome =
    (outcome ≡ KrnOutcome.approved_offline) ⊎ (outcome ≡ KrnOutcome.declined_offline)

outcome_of_request-IsOffline :
    (r : Option CryptogramRequest) (o : KrnOutcome) → outcome_of_request r ≡ okay o → IsOffline o
outcome_of_request-IsOffline none o h = cc
outcome_of_request-IsOffline (some CryptogramRequest.arqc) o h = cc
outcome_of_request-IsOffline (some CryptogramRequest.tc) o h = inl (ground (arith, h))
outcome_of_request-IsOffline (some CryptogramRequest.aac) o h = inr (ground (arith, h))

outcome_of_type-IsOffline :
    (t : CryptogramType) (o : KrnOutcome) → outcome_of_type t ≡ okay o → IsOffline o
outcome_of_type-IsOffline CryptogramType.tc o h = inl (ground (arith, h))
outcome_of_type-IsOffline CryptogramType.aac o h = inr (ground (arith, h))
outcome_of_type-IsOffline CryptogramType.arqc o h = cc
outcome_of_type-IsOffline CryptogramType.application_authentication_referral o h = cc

outcome_of_response-IsOffline :
    (r : Option GenerateAcResponse) (o : KrnOutcome) → outcome_of_response r ≡ okay o → IsOffline o
outcome_of_response-IsOffline none o h = cc
outcome_of_response-IsOffline (some r) o h = outcome_of_type-IsOffline (cryptogram_type r.cid) o h

-- The end of a transaction without the host.
abbrev over : Control → Control
over k = at_stage KernelState.final_outcome (with_fsm s16 k)

module _ (before : Option KrnOutcome) (k : Control) where
  finish_with_ends :
      (outcome : KrnOutcome)
      → IsOffline outcome
      → Ends (over k) (finish_with outcome) (IsResolved before)
  finish_with_ends outcome offline =
      modify-then (λ ctx. record (with_outcome outcome ctx) { last_error = KernelError.ok })
        (outcome_is outcome) (λ c. refl) (Ends-pure (inr (offline, refl, refl, refl)))

  finish_offline_outcome_from_taa_ends :
      Ends (over k) finish_offline_outcome_from_taa (IsResolved before)
  unfolding finish_offline_outcome_from_taa
  finish_offline_outcome_from_taa_ends =
      Ends-quiet (λ k. Keeps-asks (λ ctx. ctx.requested_cryptogram))
        (λ request.
          Ends-lift (outcome_of_request request) (λ outcome e.
            finish_with_ends outcome (outcome_of_request-IsOffline request outcome e)))

  finish_offline_outcome_from_first_gac_ends :
      Ends (over k) finish_offline_outcome_from_first_gac (IsResolved before)
  unfolding finish_offline_outcome_from_first_gac
  finish_offline_outcome_from_first_gac_ends =
      Ends-quiet (λ k. Keeps-asks (λ ctx. ctx.first_gac_response))
        (λ response. Ends-lift (outcome_of_response response) (λ outcome e.
          finish_with_ends outcome (outcome_of_response-IsOffline response outcome e)))

abbrev final_of : Control → Bool
final_of k = is_final_outcome k.stage && is_s14_or_s16 k.fsm

-- The tests of the outcome on the control.
abbrev resolve_at : Control → Bool → Kernel KrnOutcome
resolve_at k failed =
    if code k.fsm == code s11
    then modify (λ ctx. record ctx { last_error = KernelError.ok })
      >> pure KrnOutcome.online_required
    else if final_of k && failed
    then finish_offline_outcome_from_taa
    else if final_of k
    then finish_offline_outcome_from_first_gac
    else lift (err KernelError.invalid_argument)

first_gac_transaction_outcome_ends :
    (k k' : Control)
    → IsGenerated k tt k'
    → Ends k' first_gac_transaction_outcome (IsResolved k.outcome)
unfolding first_gac_transaction_outcome code
first_gac_transaction_outcome_ends k k' generated =
    Ends-asks (λ ctx. ctx.fsm_state) (λ (c : Control). c.fsm) (λ c. refl)
      (λ fsm_state known.
        Ends-asks is_final_outcome_state final_of (λ c. refl)
          (λ final is_final.
            Ends-quiet (λ k. Keeps-asks (λ ctx. Tvr.is_set ctx.tvr Tvr.b1_cda_failed))
              (λ failed. rw (known, is_final) (go generated failed))))
  where
    go :
        IsGenerated k tt k'
        → (failed : Bool) → Ends k' (resolve_at k' failed) (IsResolved k.outcome)
    go (inl e) failed =
        subst (λ x. Ends x (resolve_at x failed) (IsResolved k.outcome)) (sym e)
          (Ends-quiet (Quiet-modify _ (λ c. refl)) (λ u. Ends-pure (inl (refl, refl, refl, refl))))
    go (inr (inl e)) failed =
        subst (λ x. Ends x (resolve_at x failed) (IsResolved k.outcome)) (sym e)
          (Ends-if failed (finish_offline_outcome_from_taa_ends k.outcome k)
            (finish_offline_outcome_from_first_gac_ends k.outcome k))
    go (inr (inr e)) failed =
        subst (λ x. Ends x (resolve_at x failed) (IsResolved k.outcome)) (sym e) Ends-err

advance_from_s9_ends :
    (profiles : ProfileSet) (cda_fails : KrnContext → GenerateAcResponse → Bool) (card : Card)
    (k : Control)
    → k.fsm ≡ s9
    → Ends k (advance_from_s9 profiles cda_fails card) (IsResolved k.outcome)
unfolding advance_from_s9 code
advance_from_s9_ends profiles cda_fails card k at_s9 =
    Ends-bind (IsActed k) (run_terminal_action_analysis_ends profiles k at_s9) (λ u k' acted.
      Ends-asks (λ ctx. ctx.fsm_state) (λ (c : Control). c.fsm) (λ c. refl)
        (λ fsm_state known.
          Ends-asks is_final_outcome_state final_of (λ c. refl)
            (λ final is_final. rw (known, is_final) (go k' acted))))
  where
    next : Control → Kernel KrnOutcome
    next x =
        if final_of x
        then finish_offline_outcome_from_taa
        else if code x.fsm == code s10
        then (do run_first_generate_ac cda_fails card; first_gac_transaction_outcome)
        else lift (err KernelError.invalid_argument)

    waiting : Control
    waiting = at_stage KernelState.first_generate_ac (with_fsm s10 k)

    go : (k' : Control) → IsActed k tt k' → Ends k' (next k') (IsResolved k.outcome)
    go k' (inl e) =
        subst (λ x. Ends x (next x) (IsResolved k.outcome)) (sym e)
          (Ends-bind (IsGenerated waiting) (run_first_generate_ac_ends cda_fails card waiting refl)
            (λ u k2 generated. first_gac_transaction_outcome_ends waiting k2 generated))
    go k' (inr e) =
        subst (λ x. Ends x (next x) (IsResolved k.outcome)) (sym e)
          (finish_offline_outcome_from_taa_ends k.outcome k)

-- When the rounds from S9 return an outcome, the transaction goes online, with the machine at S11 and the
-- outcome of the context as it was, or it is over, with the machine at S16 and the offline approval or
-- refusal that is returned as its outcome; whatever the card answers and the check of a CDA signature finds.
pub advance_from_s9_resolves :
    (profiles : ProfileSet) (cda_fails : KrnContext → GenerateAcResponse → Bool) (card : Card)
    (s s' : Session) (outcome : KrnOutcome)
    → s.ctx.fsm_state ≡ s9
    → advance_from_s9 profiles cda_fails card s ≡ (s', okay outcome)
    → IsResolved s.ctx.final_outcome outcome (control_of s'.ctx)
advance_from_s9_resolves profiles cda_fails card s s' outcome at_s9 run =
    subst (After (IsResolved s.ctx.final_outcome)) (run)
      ((advance_from_s9_ends profiles cda_fails card (control_of s.ctx) at_s9).ends s refl)
