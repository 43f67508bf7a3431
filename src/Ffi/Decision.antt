-- ===== src/Ffi/Decision.antt =====
-- The final GENERATE AC of src/ffi.rs, and the online completion as a whole.
use hyperion_x_emv.Base.{
  ℕ, ◌≡◌, ◌⊎◌, refl, ◌∙◌, sym, ap, List, [], ◌∷◌, Option, some, none, if◌then◌else◌, is_empty, ◌==◌,
  Bool-cases, inl, inr, KernelError, KernelResult, okay, err,
}
use mathlib.Core.Path.{subst}
use hyperion_x_emv.State.{KernelState}
use hyperion_x_emv.Sw.{StatusWord, ApduContext}
use hyperion_x_emv.Fsm.{FsmEvent, target, code, s12, s14, s15, s16}
use hyperion_x_emv.Dol.Store.{get}
use hyperion_x_emv.Gac.{
  CryptogramType, cryptogram_type, GenerateAcResponse, parse_generate_ac_response,
}
use hyperion_x_emv.Issuer.{before_final_generate_ac, after_final_generate_ac}
use hyperion_x_emv.Ffi.{
  KrnOutcome, Card, Session, Kernel, ◌>>=◌, ◌>>◌, pure, lift, asks, modify, ignore,
  apply_transition,
}
use hyperion_x_emv.Ffi.Transport.{apdu_timeout, require_apdu_success, require_generate_ac_success}
use hyperion_x_emv.Ffi.Scripts.{state_after_script_phase, run_issuer_scripts_for_phase}
use hyperion_x_emv.Ffi.Online.{
  apply_host_response, run_issuer_authentication, put_cryptogram, conclude, final_generate_ac,
  skip_final_generate_ac, run_final_generate_ac, with_outcome, after_final,
  final_outcome_for_host_arc, approves,
}
use hyperion_x_emv.Ffi.Keeps.{
  Keeps-bind, Keeps-pure, Keeps-lift, Keeps-asks, Keeps-if, Keeps-transmit_apdu_with_followups,
}
use hyperion_x_emv.Ffi.Control.{
  Control, control_of, After, Quiet, Quiet-put_card, Ends, Ends-bind, Ends-quiet, Ends-pure,
  Ends-err, with_fsm, Ends-apply_transition, transition-then, modify-then,
}
use hyperion_x_emv.Ffi.HostFlow.{
  require-then, Quiet-put_bitmaps, Quiet-put_optional, apply_host_response_ends, IsAnswered,
}
use hyperion_x_emv.Ffi.Final.{IsScripted, run_issuer_scripts_ends}

-- The final decision: the machine at S15, and an online outcome.
abbrev pub IsDecided : Control → Unit {0} → Control → Type 0
IsDecided k u k' =
    (k.fsm ≡ s14)
    × (k'.fsm ≡ s15)
    × (k'.stage ≡ KernelState.post_final_issuer_scripts)
    × ((k'.outcome ≡ some KrnOutcome.approved_online)
        ⊎ (k'.outcome ≡ some KrnOutcome.declined_online))

-- A failure's transition does not return.
pub only_success :
    (k : Control) (sw : StatusWord) (event : FsmEvent)
    → Ends k (require_generate_ac_success sw event) (λ u k'. k' ≡ k)
unfolding require_generate_ac_success
only_success k sw event = go (require_apdu_success ApduContext.generate_ac sw)
  where
    go :
        (r : KernelResult (Unit {0}))
        → Ends k
            (elim r as (λ _. Kernel (Unit {0})) [
              | okay u ↦ pure tt
              | err e ↦ elim e [
                | KernelError.card_removed ↦
                    ignore (apply_transition event) >> lift (err KernelError.card_removed)
                | other ↦ lift (err other)
              ]
            ])
            (λ u k'. k' ≡ k)
    go (okay u) = Ends-pure refl
    go (err KernelError.card_removed) =
        Ends-bind (λ u k'. Unit {0}) (record { ends = λ s i. tt })
          (λ u k' h. Ends-err {e = KernelError.card_removed})
    go (err KernelError.ok) = Ends-err {e = KernelError.ok}
    go (err KernelError.invalid_argument) = Ends-err {e = KernelError.invalid_argument}
    go (err KernelError.buffer_too_small) = Ends-err {e = KernelError.buffer_too_small}
    go (err KernelError.parse_error) = Ends-err {e = KernelError.parse_error}
    go (err KernelError.length_overflow) = Ends-err {e = KernelError.length_overflow}
    go (err KernelError.unsupported_cda_request) =
        Ends-err {e = KernelError.unsupported_cda_request}
    go (err KernelError.invalid_profile) = Ends-err {e = KernelError.invalid_profile}
    go (err KernelError.missing_mandatory_tag) = Ends-err {e = KernelError.missing_mandatory_tag}
    go (err KernelError.no_common_aid) = Ends-err {e = KernelError.no_common_aid}
    go (err KernelError.host_timeout) = Ends-err {e = KernelError.host_timeout}
    go (err KernelError.script_failed) = Ends-err {e = KernelError.script_failed}
    go (err KernelError.busy) = Ends-err {e = KernelError.busy}
    go (err KernelError.rng_failure) = Ends-err {e = KernelError.rng_failure}
    go (err KernelError.internal_error) = Ends-err {e = KernelError.internal_error}

pub Quiet-put_cryptogram : (parsed : GenerateAcResponse) → Quiet (put_cryptogram parsed)
unfolding put_cryptogram
Quiet-put_cryptogram parsed k =
    Keeps-bind (Quiet-put_card (0x9f ∷ 0x27 ∷ []) (parsed.cid.raw ∷ []) k) (λ u.
      Keeps-bind (Quiet-put_card (0x9f ∷ 0x26 ∷ []) parsed.application_cryptogram k) (λ u1.
        Keeps-bind (Quiet-put_card (0x9f ∷ 0x36 ∷ []) parsed.atc k) (λ u2.
          Keeps-bind
            (Keeps-if (is_empty parsed.iad) Keeps-pure
              (Quiet-put_card (0x9f ∷ 0x10 ∷ []) parsed.iad k))
            (λ u3. Quiet-put_optional (0x9f ∷ 0x4c ∷ []) parsed.icc_dynamic_number k))))

abbrev after_response : List ℕ → Kernel (Unit {0})
after_response body = do
  parsed ← lift (parse_generate_ac_response body)
  put_cryptogram parsed
  conclude (cryptogram_type parsed.cid)
  modify (λ ctx. after_final (record ctx { final_gac_response = some parsed }))

abbrev pub outcome_is : KrnOutcome → Control → Control
outcome_is o k = record k { outcome = some o }

refused :
    (k : Control)
    → Ends {A = Unit {0}} k
        (ignore (apply_transition FsmEvent.gac2_failed) >> lift (err KernelError.invalid_argument))
        (λ u k'. ⊥)
refused k = Ends-bind (λ u k'. Unit {0}) (record { ends = λ s i. tt }) (λ u k' h. Ends-err)

-- The cryptogram decides: TC approves, AAC declines, and no other type returns.
concluded :
    (k : Control) (parsed : GenerateAcResponse) (type : CryptogramType)
    → k.fsm ≡ s14
    → Ends k
        (conclude type
          >> modify (λ ctx. after_final (record ctx { final_gac_response = some parsed })))
        (IsDecided k)
unfolding conclude target
concluded k parsed CryptogramType.tc at_s14 =
    Ends-bind (λ u k'. k' ≡ with_fsm s15 (outcome_is KrnOutcome.approved_online k))
      (modify-then (with_outcome KrnOutcome.approved_online) (outcome_is KrnOutcome.approved_online)
        (λ c. refl)
        (Ends-apply_transition FsmEvent.gac2_tc (ap (λ t. target t FsmEvent.gac2_tc) at_s14)))
      (λ u k' h. record {
        ends = λ s i. (
          at_s14,
          ap (λ (c : Control). c.fsm) (i ∙ h),
          refl,
          inl (ap (λ (c : Control). c.outcome) (i ∙ h)),
        );
      })
concluded k parsed CryptogramType.aac at_s14 =
    Ends-bind (λ u k'. k' ≡ with_fsm s15 (outcome_is KrnOutcome.declined_online k))
      (modify-then (with_outcome KrnOutcome.declined_online) (outcome_is KrnOutcome.declined_online)
        (λ c. refl)
        (Ends-apply_transition FsmEvent.gac2_aac (ap (λ t. target t FsmEvent.gac2_aac) at_s14)))
      (λ u k' h. record {
        ends = λ s i. (
          at_s14,
          ap (λ (c : Control). c.fsm) (i ∙ h),
          refl,
          inr (ap (λ (c : Control). c.outcome) (i ∙ h)),
        );
      })
concluded k parsed CryptogramType.arqc at_s14 =
    Ends-bind (λ u k'. ⊥) (refused k) (λ u k' h. elim h [ ])
concluded k parsed CryptogramType.application_authentication_referral at_s14 =
    Ends-bind (λ u k'. ⊥) (refused k) (λ u k' h. elim h [ ])

final_generate_ac_ends :
    (card : Card) (host_arc cdol2 : List ℕ) (k : Control)
    → k.fsm ≡ s14
    → Ends k (final_generate_ac card host_arc cdol2) (IsDecided k)
unfolding final_generate_ac
final_generate_ac_ends card host_arc cdol2 k at_s14 = Ends-quiet Quiet-put_bitmaps (λ u.
    Ends-quiet (λ k. Keeps-lift)
      (λ cdol.
        Ends-quiet (λ k. Keeps-asks (λ ctx. ctx.card_data))
          (λ store.
            Ends-quiet (λ k. Keeps-lift)
              (λ values.
                Ends-quiet (λ k. Keeps-lift)
                  (λ apdu.
                    Ends-quiet (λ k. Keeps-lift)
                      (λ command.
                        Ends-quiet (λ k. Keeps-asks apdu_timeout)
                          (λ timeout_ms.
                            Ends-quiet
                              (λ k.
                                Keeps-transmit_apdu_with_followups card command timeout_ms
                                  ApduContext.generate_ac)
                              (λ response.
                                Ends-quiet (λ k. Keeps-lift)
                                  (λ (body, sw).
                                    Ends-bind (λ u k'. k' ≡ k)
                                      (only_success k sw FsmEvent.gac2_failed)
                                      (λ u1 k' h.
                                        subst (λ x. Ends x (after_response body) (IsDecided k))
                                          (sym h) (parsed_ends body)))))))))))
  where
    parsed_ends : (body : List ℕ) → Ends k (after_response body) (IsDecided k)
    parsed_ends body =
        Ends-quiet (λ k. Keeps-lift)
          (λ parsed.
            Ends-quiet (Quiet-put_cryptogram parsed)
              (λ u. concluded k parsed (cryptogram_type parsed.cid) at_s14))

run_final_generate_ac_ends :
    (card : Card) (k : Control) → Ends k (run_final_generate_ac card) (IsDecided k)
unfolding run_final_generate_ac skip_final_generate_ac target
run_final_generate_ac_ends card k = require-then s14 (λ at_s14.
    Ends-quiet (λ k. Keeps-asks (λ ctx. ctx.host_response))
      (λ response.
        Ends-quiet (λ k. Keeps-lift)
          (λ host_arc.
            Ends-quiet (λ k. Keeps-asks (λ ctx. get ctx.card_data (0x8d ∷ [])))
              (λ cdol2. go at_s14 host_arc cdol2))))
  where
    skipped :
        (host_arc : List ℕ)
        → (final_outcome_for_host_arc host_arc ≡ KrnOutcome.approved_online)
          ⊎ (final_outcome_for_host_arc host_arc ≡ KrnOutcome.declined_online)
    skipped host_arc = elim (Bool-cases (approves host_arc)) [
      | inl e ↦ inl (rw (final_outcome_for_host_arc, e) refl)
      | inr e ↦ inr (rw (final_outcome_for_host_arc, e) refl)
    ]

    go :
        k.fsm ≡ s14
        → (host_arc : List ℕ) (cdol2 : Option (List ℕ))
        → Ends k
            (elim cdol2 as (λ _. Kernel (Unit {0})) [
              | none ↦ skip_final_generate_ac host_arc
              | some value ↦ final_generate_ac card host_arc value
            ])
            (IsDecided k)
    go at_s14 host_arc none =
        transition-then FsmEvent.final_generate_ac_skipped {to = s15}
          (ap (λ t. target t FsmEvent.final_generate_ac_skipped) at_s14)
          (record {
            ends = λ s i. (
              at_s14,
              ap (λ (c : Control). c.fsm) i,
              refl,
              elim (skipped host_arc) [ inl e ↦ inl (ap some e) | inr e ↦ inr (ap some e) ],
            );
          })
    go at_s14 host_arc (some value) = final_generate_ac_ends card host_arc value k at_s14

-- The calls that complete a transaction online, in the order of the C interface.
abbrev pub online_completion : Card → List ℕ → Kernel (Unit {0})
online_completion card bytes = do
  apply_host_response bytes
  fsm_state ← asks (λ ctx. ctx.fsm_state)
  if code fsm_state == code s12 then run_issuer_authentication card else pure tt
  run_issuer_scripts_for_phase card before_final_generate_ac
  run_final_generate_ac card
  run_issuer_scripts_for_phase card after_final_generate_ac

abbrev IsCompleted : Unit {0} → Control → Type 0
IsCompleted u k' =
    (k'.fsm ≡ s16)
    × (k'.stage ≡ KernelState.final_outcome)
    × ((k'.outcome ≡ some KrnOutcome.approved_online)
        ⊎ (k'.outcome ≡ some KrnOutcome.declined_online))

last_scripts :
    (card : Card) (k k' : Control)
    → IsDecided k tt k'
    → Ends k' (run_issuer_scripts_for_phase card after_final_generate_ac) IsCompleted
unfolding state_after_script_phase
last_scripts card k k' decided = record {
  ends = λ s i.
      weaken (run_issuer_scripts_for_phase card after_final_generate_ac s)
        ((run_issuer_scripts_ends card after_final_generate_ac k').ends s i);
}
  where
    weaken :
        (r : Session × KernelResult (Unit {0}))
        → After (IsScripted after_final_generate_ac k') r
        → After IsCompleted r
    weaken (s, okay u) h =
        let outcome = ap (λ (c : Control). c.outcome) h.1 in
        (
          ap (λ (c : Control). c.fsm) h.1,
          ap (λ (c : Control). c.stage) h.1,
          elim decided.3 [ inl e ↦ inl (outcome ∙ e) | inr e ↦ inr (outcome ∙ e) ],
        )
    weaken (s, err e) h = tt

online_completion_ends :
    (card : Card) (bytes : List ℕ) (k : Control) → Ends k (online_completion card bytes) IsCompleted
online_completion_ends card bytes k =
    Ends-bind (IsAnswered bytes k) (apply_host_response_ends bytes k) (λ u k1 answered.
      Ends-quiet (λ k. Keeps-asks (λ ctx. ctx.fsm_state))
        (λ fsm_state.
          Ends-bind (λ u k'. Unit {0})
            (record {
              ends = λ s i. anything (
                  (if code fsm_state == code s12 then run_issuer_authentication card else pure tt)
                    s);
            })
            (λ u k2 h.
              Ends-bind (IsScripted before_final_generate_ac k2)
                (run_issuer_scripts_ends card before_final_generate_ac k2)
                (λ u k3 scripted.
                  Ends-bind (IsDecided k3) (run_final_generate_ac_ends card k3)
                    (λ u k4 decided. last_scripts card k3 k4 decided)))))
  where
    anything : (r : Session × KernelResult (Unit {0})) → After (λ u k'. Unit {0}) r
    anything (s, okay u) = tt
    anything (s, err e) = tt

-- A transaction that is completed online ends in the final outcome, approved or declined online; the
-- calls are the host's response, issuer authentication when the response has its data, the scripts, the
-- final GENERATE AC, and the later scripts, each of which returned well.
pub online_completion_lem :
    (card : Card) (bytes : List ℕ) (s s' : Session)
    → online_completion card bytes s ≡ (s', okay tt)
    → (s'.ctx.fsm_state ≡ s16)
      × (s'.ctx.state ≡ KernelState.final_outcome)
      × ((s'.ctx.final_outcome ≡ some KrnOutcome.approved_online)
          ⊎ (s'.ctx.final_outcome ≡ some KrnOutcome.declined_online))
online_completion_lem card bytes s s' run =
    subst (After IsCompleted) (run)
      ((online_completion_ends card bytes (control_of s.ctx)).ends s refl)
