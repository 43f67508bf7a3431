-- ===== src/Ffi/Offline.antt =====
-- From the terminal's decision to an outcome without the host, or to the host, in src/ffi.rs.
use hyperion_x_emv.Base.{ℕ, ◌≡◌, ◌⊎◌, refl, sym, ap, Bool, ◌&&◌, List, [], ◌∷◌, some, inl, inr}
use mathlib.Core.Path.{subst}
use hyperion_x_emv.State.{KernelState}
use hyperion_x_emv.State.Tvr
use hyperion_x_emv.Sw.{ApduContext, StatusWord}
use hyperion_x_emv.Fsm.{FsmEvent, target, s9, s10, s11, s16}
use hyperion_x_emv.Gac.{
  CryptogramType, cryptogram_type, GenerateAcResponse, parse_generate_ac_response,
}
use hyperion_x_emv.Taa.{TerminalAction, decide}
use hyperion_x_emv.Config.{ProfileSet}
use hyperion_x_emv.Ffi.{
  KrnContext, Card, Kernel, ◌>>=◌, ◌>>◌, lift, asks, modify, apply_transition, put_card,
}
use hyperion_x_emv.Ffi.Transport.{apdu_timeout, require_generate_ac_success}
use hyperion_x_emv.Ffi.Records.{set_tvr}
use hyperion_x_emv.Ffi.Online.{put_optional, put_cryptogram}
use hyperion_x_emv.Ffi.Keeps.{
  Keeps-bind, Keeps-pure, Keeps-lift, Keeps-asks, Keeps-if, Keeps-transmit_apdu_with_followups,
}
use hyperion_x_emv.Ffi.Control.{
  Control, Quiet, Quiet-modify, Quiet-put_card, Ends, Ends-bind, Ends-quiet, Ends-pure, Ends-err,
  Ends-if, with_fsm, transition-then, modify-then,
}
use hyperion_x_emv.Ffi.Flow.{at_stage}
use hyperion_x_emv.Ffi.HostFlow.{Quiet-put_bitmaps, Quiet-put_optional}
use hyperion_x_emv.Ffi.Decision.{only_success, Quiet-put_cryptogram}
use hyperion_x_emv.Ffi.Actions.{terminal_action_target, run_terminal_action_analysis}
use hyperion_x_emv.Ffi.FirstGac.{
  reroute_cda_failed_offline_cryptogram_through_taa, is_arqc, with_first, end_first, after_cda,
  is_offline_type, run_first_generate_ac, is_cda, cdol1_definition_for_first_gac,
  cda_request_control_for_first_gac,
}

-- The machine waits for the card's cryptogram, or the terminal's decision is final.
abbrev pub IsActed : Control → Unit {0} → Control → Type 0
IsActed k u k' =
    (k' ≡ at_stage KernelState.first_generate_ac (with_fsm s10 k))
    ⊎ (k' ≡ at_stage KernelState.final_outcome (with_fsm s16 k))

pub run_terminal_action_analysis_ends :
    (profiles : ProfileSet) (k : Control)
    → k.fsm ≡ s9
    → Ends k (run_terminal_action_analysis profiles) (IsActed k)
unfolding run_terminal_action_analysis target
run_terminal_action_analysis_ends profiles k at_s9 =
    Ends-quiet (λ k. Keeps-asks (λ ctx. ctx.selected_application))
      (λ selected.
        Ends-quiet (λ k. Keeps-lift)
          (λ (scheme, profile).
            Ends-quiet (λ k. Keeps-asks (λ ctx. ctx.card_data))
              (λ store.
                Ends-quiet (λ k. Keeps-lift)
                  (λ codes.
                    Ends-quiet (λ k. Keeps-asks (λ ctx. ctx.txn_params))
                      (λ params.
                        Ends-quiet (λ k. Keeps-lift)
                          (λ online.
                            Ends-quiet (λ k. Keeps-asks (λ ctx. ctx.tvr))
                              (λ tvr.
                                go
                                  (decide (record {
                                    tvr = tvr;
                                    tac = profile.action_codes;
                                    iac = codes;
                                    terminal_online_capable = online;
                                    profile = scheme.taa;
                                  })).action)))))))
  where
    go :
        (action : TerminalAction)
        → Ends k
            (do
              modify (λ ctx. record ctx {
                requested_cryptogram = some (terminal_action_target action).0;
              })
              apply_transition (terminal_action_target action).1
              modify (λ ctx. record ctx { state = (terminal_action_target action).2 }))
            (IsActed k)
    go TerminalAction.aac = Ends-quiet (Quiet-modify _ (λ c. refl)) (λ u.
        transition-then FsmEvent.taa_aac (ap (λ t. target t FsmEvent.taa_aac) at_s9)
          (record { ends = λ s i. inr (ap (at_stage KernelState.final_outcome) i) }))
    go TerminalAction.tc = Ends-quiet (Quiet-modify _ (λ c. refl)) (λ u.
        transition-then FsmEvent.taa_tc (ap (λ t. target t FsmEvent.taa_tc) at_s9)
          (record { ends = λ s i. inr (ap (at_stage KernelState.final_outcome) i) }))
    go TerminalAction.arqc = Ends-quiet (Quiet-modify _ (λ c. refl)) (λ u.
        transition-then FsmEvent.taa_arqc (ap (λ t. target t FsmEvent.taa_arqc) at_s9)
          (record { ends = λ s i. inl (ap (at_stage KernelState.first_generate_ac) i) }))

-- The card's cryptogram goes to the host, the transaction is over, or the terminal asks the card again.
abbrev pub IsGenerated : Control → Unit {0} → Control → Type 0
IsGenerated k u k' =
    (k' ≡ at_stage KernelState.online_authorization (with_fsm s11 k))
    ⊎ ((k' ≡ at_stage KernelState.final_outcome (with_fsm s16 k))
        ⊎ (k' ≡ at_stage KernelState.first_generate_ac (with_fsm s10 k)))

reroute_ends :
    (k : Control)
    → k.fsm ≡ s10
    → Ends k reroute_cda_failed_offline_cryptogram_through_taa (IsGenerated k)
unfolding reroute_cda_failed_offline_cryptogram_through_taa target
reroute_ends k at_s10 =
    Ends-quiet (λ k. Keeps-asks (λ ctx. ctx.profiles))
      (λ known.
        Ends-quiet (λ k. Keeps-lift)
          (λ profiles.
            transition-then FsmEvent.cda_failure (ap (λ t. target t FsmEvent.cda_failure) at_s10) (
              modify-then (λ ctx. record ctx { state = KernelState.terminal_action_analysis })
                (at_stage KernelState.terminal_action_analysis) (λ c. refl)
                (Ends-bind (IsActed before) (run_terminal_action_analysis_ends profiles before refl)
                  (λ u k' acted.
                    Ends-quiet (λ k. Keeps-asks (λ ctx. ctx.requested_cryptogram))
                      (λ request.
                        Ends-if (is_arqc request) Ends-err (
                          Ends-pure
                            (elim acted [ inl e ↦ inr (inr e) | inr e ↦ inr (inl e) ]))))))))
  where
    before : Control
    before = at_stage KernelState.terminal_action_analysis (with_fsm s9 k)

end_first_ends :
    (k : Control) (parsed : GenerateAcResponse) (type : CryptogramType)
    → k.fsm ≡ s10
    → Ends k (end_first parsed type) (IsGenerated k)
unfolding end_first target
end_first_ends k parsed CryptogramType.arqc at_s10 =
    Ends-quiet (λ k. Keeps-asks (λ ctx. ctx.card_data))
      (λ store.
        Ends-quiet (λ k. Keeps-lift)
          (λ bytes. Ends-quiet (Quiet-modify _ (λ c. refl)) (λ u.
            transition-then FsmEvent.gac_arqc (ap (λ t. target t FsmEvent.gac_arqc) at_s10)
              (record { ends = λ s i. inl (ap (at_stage KernelState.online_authorization) i) }))))
end_first_ends k parsed CryptogramType.tc at_s10 = Ends-quiet (Quiet-modify _ (λ c. refl)) (λ u.
    transition-then FsmEvent.gac_tc (ap (λ t. target t FsmEvent.gac_tc) at_s10)
      (record { ends = λ s i. inr (inl (ap (at_stage KernelState.final_outcome) i)) }))
end_first_ends k parsed CryptogramType.aac at_s10 = Ends-quiet (Quiet-modify _ (λ c. refl)) (λ u.
    transition-then FsmEvent.gac_aac (ap (λ t. target t FsmEvent.gac_aac) at_s10)
      (record { ends = λ s i. inr (inl (ap (at_stage KernelState.final_outcome) i)) }))
end_first_ends k parsed CryptogramType.application_authentication_referral at_s10 = Ends-err

after_cda_ends :
    (k : Control) (parsed : GenerateAcResponse) (failed : Bool)
    → k.fsm ≡ s10
    → Ends k (after_cda parsed failed) (IsGenerated k)
unfolding after_cda
after_cda_ends k parsed failed at_s10 =
    Ends-quiet (λ k. Keeps-if failed (marked k) Keeps-pure)
      (λ u.
        Ends-if (failed && is_offline_type (cryptogram_type parsed.cid))
          (Ends-quiet (Quiet-modify (with_first parsed) (λ c. refl)) (λ u1. reroute_ends k at_s10))
          (end_first_ends k parsed (cryptogram_type parsed.cid) at_s10))
  where
    marked : Quiet (do
      modify (set_tvr Tvr.b1_cda_failed)
      tvr ← asks (λ ctx. ctx.tvr)
      put_card (0x95 ∷ []) tvr.bytes)
    marked k = Keeps-bind (Quiet-modify (set_tvr Tvr.b1_cda_failed) (λ c. refl) k) (λ u.
        Keeps-bind (Keeps-asks (λ ctx. ctx.tvr)) (λ tvr. Quiet-put_card (0x95 ∷ []) tvr.bytes k))

pub run_first_generate_ac_ends :
    (cda_fails : KrnContext → GenerateAcResponse → Bool) (card : Card) (k : Control)
    → k.fsm ≡ s10
    → Ends k (run_first_generate_ac cda_fails card) (IsGenerated k)
unfolding run_first_generate_ac
run_first_generate_ac_ends cda_fails card k at_s10 =
    Ends-quiet (λ k. Keeps-asks (λ ctx. ctx.requested_cryptogram))
      (λ known.
        Ends-quiet (λ k. Keeps-lift)
          (λ request.
            Ends-quiet (λ k. Keeps-asks cdol1_definition_for_first_gac)
              (λ definition.
                Ends-quiet (λ k. Keeps-lift)
                  (λ cdol. Ends-quiet Quiet-put_bitmaps (λ u.
                    Ends-quiet (λ k. Keeps-asks (λ ctx. ctx.card_data))
                      (λ store.
                        Ends-quiet (λ k. Keeps-lift)
                          (λ values.
                            Ends-quiet (λ k. Keeps-asks cda_request_control_for_first_gac)
                              (λ control.
                                Ends-quiet (λ k. Keeps-lift)
                                  (λ cda_control.
                                    Ends-quiet (λ k. Keeps-lift)
                                      (λ apdu.
                                        Ends-quiet (λ k. Keeps-lift)
                                          (λ command.
                                            Ends-quiet (λ k. Keeps-asks apdu_timeout)
                                              (λ timeout_ms.
                                                Ends-quiet
                                                  (λ k.
                                                    Keeps-transmit_apdu_with_followups card command
                                                      timeout_ms ApduContext.generate_ac)
                                                  (λ response.
                                                    Ends-quiet (λ k. Keeps-lift)
                                                      (λ (body, sw). answered body sw))))))))))))))
  where
    stored : List ℕ → Kernel (Unit {0})
    stored body = do
      parsed ← lift (parse_generate_ac_response body)
      put_cryptogram parsed
      put_optional (0x9f ∷ 0x4b ∷ []) parsed.signed_dynamic_application_data
      failed ← asks (λ ctx. is_cda ctx.selected_oda_method && cda_fails ctx parsed)
      after_cda parsed failed

    stored_ends : (body : List ℕ) → Ends k (stored body) (IsGenerated k)
    stored_ends body =
        Ends-quiet (λ k. Keeps-lift)
          (λ parsed. Ends-quiet (Quiet-put_cryptogram parsed) (λ u.
            Ends-quiet
              (Quiet-put_optional (0x9f ∷ 0x4b ∷ []) parsed.signed_dynamic_application_data)
              (λ u1.
                Ends-quiet
                  (λ k. Keeps-asks (λ ctx. is_cda ctx.selected_oda_method && cda_fails ctx parsed))
                  (λ failed. after_cda_ends k parsed failed at_s10))))

    answered :
        (body : List ℕ) (sw : StatusWord)
        → Ends k (require_generate_ac_success sw FsmEvent.gac_failed >> stored body) (IsGenerated k)
    answered body sw =
        Ends-bind (λ u k'. k' ≡ k) (only_success k sw FsmEvent.gac_failed)
          (λ u k' h. subst (λ x. Ends x (stored body) (IsGenerated k)) (sym h) (stored_ends body))
