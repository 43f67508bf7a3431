-- ===== src/Ffi/HostFlow.antt =====
-- The host's response and issuer authentication of src/ffi.rs as moves of the state machine.
use hyperion_x_emv.Base.{
  ℕ, ◌≡◌, ◌⊎◌, refl, ◌∙◌, sym, ap, true, false, List, [], ◌∷◌, Option, some, none, if◌then◌else◌,
  ◌==◌, ==_iff, Bool-cases, inl, inr, KernelError, okay, is_some,
}
use mathlib.Core.Path.{subst}
use hyperion_x_emv.State.{KernelState}
use hyperion_x_emv.State.Tsi
use hyperion_x_emv.Sw.{ApduContext, StatusAction, classify}
use hyperion_x_emv.Fsm.{FsmState, FsmEvent, FsmAction, target, code, s11, s12, s13}
use hyperion_x_emv.Fsm.Edges.{code_injective}
use hyperion_x_emv.Issuer.{HostResponse, parse_host_response}
use hyperion_x_emv.Ffi.{Card, Kernel, ◌>>◌, modify, apply_transition}
use hyperion_x_emv.Ffi.Transport.{apdu_timeout}
use hyperion_x_emv.Ffi.Records.{set_tvr}
use hyperion_x_emv.Ffi.Scripts.{put_bitmaps}
use hyperion_x_emv.Ffi.Online.{
  require_state, put_optional, apply_host_response, host_event, state_after_host_response_fsm,
  issuer_authentication_event_from_status, run_issuer_authentication,
}
use hyperion_x_emv.Ffi.Keeps.{
  Keeps-bind, Keeps-lift, Keeps-asks, Keeps-transmit_apdu_with_followups,
}
use hyperion_x_emv.Ffi.Control.{
  Control, After, Quiet, Quiet-modify, Quiet-put_card, Ends, Ends-bind, Ends-quiet, Ends-lift,
  Ends-pure, Ends-err, transition-then, modify-then,
}
use hyperion_x_emv.Ffi.Flow.{at_stage}

module _ {B : Type 0} {k : Control} {Q : B → Control → Type 0} where
  -- Past the test of the state.
  pub require-then :
      (state : FsmState) {n : Kernel B}
      → (k.fsm ≡ state → Ends k n Q)
      → Ends k (require_state state >> n) Q
  require-then state {n} p =
      Ends-bind (λ _ k'. (k' ≡ k) × (k.fsm ≡ state)) tested
        (λ u k' h. subst (λ x. Ends x n Q) (sym h.0) (p h.1))
    where
      tested : Ends k (require_state state) (λ _ k'. (k' ≡ k) × (k.fsm ≡ state))
      tested = record {
        ends = λ s i. elim (Bool-cases (code s.ctx.fsm_state == code state)) [
          | inl e ↦
              rw (After, e)
                (
                  i,
                  sym (ap (λ (c : Control). c.fsm) i)
                      ∙ code_injective s.ctx.fsm_state state
                          ((==_iff (code s.ctx.fsm_state) (code state)).0 e),
                )
          | inr e ↦ rw (After, e) tt
        ];
      }

pub Quiet-put_bitmaps : Quiet put_bitmaps
unfolding put_bitmaps
Quiet-put_bitmaps k = Keeps-bind (Keeps-asks (λ ctx. ctx.tvr)) (λ tvr.
    Keeps-bind (Quiet-put_card (0x95 ∷ []) tvr.bytes k) (λ u.
      Keeps-bind (Keeps-asks (λ ctx. ctx.tsi)) (λ tsi. Quiet-put_card (0x9b ∷ []) tsi.bytes k)))

pub Quiet-put_optional : (tag : List ℕ) (value : Option (List ℕ)) → Quiet (put_optional tag value)
Quiet-put_optional tag none k = record { kept = λ s i. i }
Quiet-put_optional tag (some value) k = record {
  kept = λ s i. (Quiet-put_card tag value k).kept s i;
}

-- What the host's response leads to: issuer authentication when it has the data, else the scripts.
abbrev pub IsAnswered : List ℕ → Control → Unit {0} → Control → Type 0
IsAnswered bytes k u k' =
    (response : HostResponse) × (parse_host_response bytes ≡ okay response)
    × (k.fsm ≡ s11)
    × (k' ≡ record {
      fsm = if is_some response.issuer_authentication_data then s12 else s13;
      stage =
          if is_some response.issuer_authentication_data
          then KernelState.issuer_authentication
          else KernelState.issuer_scripts;
      outcome = k.outcome;
      host = some response;
    })

abbrev with_host : HostResponse → Control → Control
with_host response k = record k { host = some response }

abbrev stage_of_fsm : Control → Control
stage_of_fsm k = record k { stage = state_after_host_response_fsm k.fsm }

pub apply_host_response_ends :
    (bytes : List ℕ) (k : Control) → Ends k (apply_host_response bytes) (IsAnswered bytes k)
unfolding apply_host_response state_after_host_response_fsm target
apply_host_response_ends bytes k = require-then s11 (λ at_s11.
    Ends-lift (parse_host_response bytes) (λ r parsed.
      Ends-quiet (Quiet-put_card (0x8a ∷ []) r.authorization_response_code) (λ u1.
        Ends-quiet (Quiet-put_optional (0x89 ∷ []) r.authorization_code) (λ u2.
          Ends-quiet (Quiet-put_optional (0x91 ∷ []) r.issuer_authentication_data) (λ u3.
            modify-then (λ ctx. record ctx { host_response = some r }) (with_host r) (λ c. refl)
              (go r at_s11 parsed (Bool-cases (is_some r.issuer_authentication_data))))))))
  where
    go :
        (r : HostResponse)
        → k.fsm ≡ s11
        → parse_host_response bytes ≡ okay r
        → (is_some r.issuer_authentication_data ≡ true)
          ⊎ (is_some r.issuer_authentication_data ≡ false)
        → Ends
            (with_host r k)
            (apply_transition (host_event r)
              >> modify (λ ctx. record ctx { state = state_after_host_response_fsm ctx.fsm_state }))
            (IsAnswered bytes k)
    go r at_s11 p (inl e) =
        rw (host_event, e)
          (transition-then FsmEvent.host_arpc {to = s12}
            (ap (λ t. target t FsmEvent.host_arpc) at_s11)
            (record { ends = λ s i. (r, p, at_s11, ap stage_of_fsm i ∙ rw e refl) }))
    go r at_s11 p (inr e) =
        rw (host_event, e)
          (transition-then FsmEvent.host_approval_no_arpc {to = s13}
            (ap (λ t. target t FsmEvent.host_approval_no_arpc) at_s11)
            (record { ends = λ s i. (r, p, at_s11, ap stage_of_fsm i ∙ rw e refl) }))

-- Issuer authentication leaves S12 for the scripts, whatever the card says.
abbrev pub IsAuthenticated : Control → Unit {0} → Control → Type 0
IsAuthenticated k u k' =
    (k.fsm ≡ s12) × (k' ≡ record k { fsm = s13; stage = KernelState.issuer_scripts })

abbrev IsAuthenticationEvent : FsmEvent → Type 0
IsAuthenticationEvent event =
    target s12 event ≡ okay (s13, FsmAction.process_issuer_scripts, KernelError.ok)

authentication_event :
    (k : Control) (action : StatusAction)
    → Ends k
        (issuer_authentication_event_from_status action)
        (λ event k'. IsAuthenticationEvent event × (k' ≡ k))
unfolding issuer_authentication_event_from_status target
authentication_event k StatusAction.success = Ends-pure (refl, refl)
authentication_event k (StatusAction.continue_with_tvr bit) =
    Ends-quiet (Quiet-modify (set_tvr bit) (λ c. refl)) (λ u. Ends-pure (refl, refl))
authentication_event k (StatusAction.fail e) = Ends-err
authentication_event k StatusAction.fallback_to_direct_aid = Ends-err
authentication_event k StatusAction.try_next_aid = Ends-err
authentication_event k StatusAction.end_of_records = Ends-err
authentication_event k StatusAction.continue_after_script_warning = Ends-err
authentication_event k StatusAction.continue_after_non_critical_script_failure = Ends-err
authentication_event k (StatusAction.get_response n) = Ends-err
authentication_event k (StatusAction.retry_with_le n) = Ends-err
authentication_event k (StatusAction.pin_failed n) = Ends-err

finish_authentication :
    (k : Control) (event : FsmEvent)
    → k.fsm ≡ s12
    → IsAuthenticationEvent event
    → Ends k
        (put_bitmaps
          >> (apply_transition event
              >> modify (λ ctx. record ctx { state = KernelState.issuer_scripts })))
        (IsAuthenticated k)
finish_authentication k event at_s12 h = Ends-quiet Quiet-put_bitmaps (λ u.
    transition-then event {to = s13} (ap (λ t. target t event) at_s12 ∙ h)
      (record { ends = λ s i. (at_s12, ap (at_stage KernelState.issuer_scripts) i) }))

pub run_issuer_authentication_ends :
    (card : Card) (k : Control) → Ends k (run_issuer_authentication card) (IsAuthenticated k)
unfolding run_issuer_authentication
run_issuer_authentication_ends card k = require-then s12 (λ at_s12.
    Ends-quiet (λ k. Keeps-asks (λ ctx. ctx.host_response))
      (λ response.
        Ends-quiet (λ k. Keeps-lift)
          (λ authentication_data.
            Ends-quiet (λ k. Keeps-lift)
              (λ apdu.
                Ends-quiet (λ k. Keeps-lift)
                  (λ command.
                    Ends-quiet (λ k. Keeps-asks apdu_timeout)
                      (λ timeout_ms.
                        Ends-quiet
                          (λ k.
                            Keeps-transmit_apdu_with_followups card command timeout_ms
                              ApduContext.external_authenticate)
                          (λ answer.
                            Ends-quiet (λ k. Keeps-lift)
                              (λ (body, sw).
                                Ends-quiet
                                  (Quiet-modify
                                    (λ ctx. record ctx {
                                      tsi = Tsi.set ctx.tsi Tsi.issuer_authentication_performed;
                                    })
                                    (λ c. refl))
                                  (λ u1.
                                    Ends-bind (λ event k'. IsAuthenticationEvent event × (k' ≡ k))
                                      (authentication_event k
                                        (classify ApduContext.external_authenticate sw))
                                      (λ event k' h.
                                        subst
                                          (λ x.
                                            Ends x
                                              (put_bitmaps
                                                >> (apply_transition event
                                                    >> modify (λ ctx. record ctx {
                                                      state = KernelState.issuer_scripts;
                                                    })))
                                              (IsAuthenticated k))
                                          (sym h.1)
                                          (finish_authentication k event at_s12 h.0)))))))))))
