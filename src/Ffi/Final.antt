-- ===== src/Ffi/Final.antt =====
-- Issuer scripts and the final GENERATE AC of src/ffi.rs as moves of the state machine.
use hyperion_x_emv.Base.{
  ℕ, ◌+◌, ◌≡◌, refl, sym, ap, Bool, true, List, [], ◌∷◌, ◌++◌, Option, some, none, all, All, ◌&&◌,
  ◌==◌, ==_iff, Bool-cases, inl, inr, arith, KernelError, KernelResult, okay, err,
}
use mathlib.Core.Path.{subst}
use hyperion_x_emv.State.{KernelState}
use hyperion_x_emv.Sw.{ApduContext}
use hyperion_x_emv.Fsm.{FsmState, FsmEvent, target, code, s13_script, s14, s15_script, s16}
use hyperion_x_emv.Fsm.Edges.{code_injective}
use hyperion_x_emv.Issuer.{
  ScriptPhase, before_final_generate_ac, after_final_generate_ac, IssuerScript, ScriptCommandResult,
  HostResponse,
}
use hyperion_x_emv.Ffi.{Card, Session, Kernel, ◌>>=◌, ◌>>◌, lift, asks, modify, apply_transition}
use hyperion_x_emv.Ffi.Transport.{apdu_timeout}
use hyperion_x_emv.Ffi.Scripts.{
  capture, run_commands, with_summary, script_event, finish_script, run_scripts, end_scripts,
  same_phase, scripts_for, host_scripts, expected_state, state_after_script_phase,
  run_issuer_scripts_for_phase, issuer_script_command_is_critical,
}
use hyperion_x_emv.Ffi.Keeps.{
  next_command, Keeps-bind, Keeps-pure, Keeps-lift, Keeps-asks, Keeps-transmit_apdu_with_followups,
}
use hyperion_x_emv.Ffi.Control.{
  Control, After, Quiet, Quiet-modify, Ends, Ends-bind, Ends-quiet, Ends-asks, Ends-lift, Ends-pure,
  Ends-err, Ends-if, with_fsm, Ends-apply_transition, transition-then,
}
use hyperion_x_emv.Ffi.Flow.{at_stage}
use hyperion_x_emv.Ffi.HostFlow.{Quiet-put_bitmaps}

-- The states of a phase of scripts: waiting, in a script, and past all scripts.
abbrev script_state : ScriptPhase → FsmState
script_state before_final_generate_ac = s13_script
script_state after_final_generate_ac = s15_script

abbrev pub state_past : ScriptPhase → FsmState
state_past before_final_generate_ac = s14
state_past after_final_generate_ac = s16

abbrev pub IsScripted : ScriptPhase → Control → Unit {0} → Control → Type 0
IsScripted phase k u k' =
    (k.fsm ≡ expected_state phase)
    × (k' ≡ record k { fsm = state_past phase; stage = state_after_script_phase phase })

Quiet-run_commands :
    (card : Card) (phase : ScriptPhase) (si : ℕ) (id : Option (List ℕ)) (index : ℕ)
    (commands : List (List ℕ)) (results : List ScriptCommandResult)
    → Quiet (run_commands card phase si id index commands results)
unfolding run_commands
Quiet-run_commands card phase si id index [] results k = Keeps-pure
Quiet-run_commands card phase si id index (command ∷ commands) results k =
    Keeps-bind Keeps-lift (λ ci.
      Keeps-bind (Keeps-asks (λ ctx. issuer_script_command_is_critical ctx command)) (λ decision.
        Keeps-bind Keeps-lift (λ critical. Keeps-bind (Keeps-asks apdu_timeout) (λ timeout_ms.
          Keeps-bind
            (Keeps-transmit_apdu_with_followups card command timeout_ms
              (ApduContext.issuer_script critical))
            (λ response. Keeps-bind Keeps-lift (λ (body, sw).
              Keeps-bind
                (Quiet-modify (capture phase si ci id (record { sw1 = sw.sw1; sw2 = sw.sw2 }))
                  (λ c. refl) k)
                (λ u. Keeps-bind Keeps-lift (λ status.
                  next_command card phase si id index commands
                    (results ++ (record { sw1 = sw.sw1; sw2 = sw.sw2 } ∷ [])) status
                    (Quiet-run_commands card phase si id (index + 1) commands
                      (results ++ (record { sw1 = sw.sw1; sw2 = sw.sw2 } ∷ [])) k)))))))))

-- The end of a script, from its state back to the phase's.
finish_script_ends :
    (phase : ScriptPhase) (k : Control) (results : List ScriptCommandResult) (critical : Bool)
    → k.fsm ≡ script_state phase
    → Ends k (finish_script phase results critical) (λ u k'. k' ≡ with_fsm (expected_state phase) k)
unfolding finish_script target
finish_script_ends phase k results critical in_script =
    Ends-quiet (Quiet-modify (with_summary phase results) (λ c. refl))
      (λ u. Ends-quiet Quiet-put_bitmaps (λ u1. Ends-if critical fails (goes_on phase in_script)))
  where
    fails :
        Ends {A = Unit {0}} k
          (do
            apply_transition FsmEvent.script_critical_failure
            modify (λ ctx. record ctx { state = KernelState.error })
            lift (err KernelError.script_failed))
          (λ u k'. k' ≡ with_fsm (expected_state phase) k)
    fails =
        Ends-bind (λ u k'. Unit {0})
          (record { ends = λ s i. any_end (apply_transition FsmEvent.script_critical_failure s) })
          (λ u k' h.
            Ends-bind (λ u k'. Unit {0}) (record { ends = λ s i. tt }) (λ u k' h. Ends-err))
      where
        any_end : (r : Session × KernelResult (Unit {0})) → After (λ u k'. Unit {0}) r
        any_end (s, okay u) = tt
        any_end (s, err e) = tt

    goes_on :
        (phase : ScriptPhase)
        → k.fsm ≡ script_state phase
        → Ends k
            (apply_transition (script_event results))
            (λ u k'. k' ≡ with_fsm (expected_state phase) k)
    goes_on before_final_generate_ac e =
        elim (Bool-cases
          (all (λ (r : ScriptCommandResult). r.sw1 == 0x90 && r.sw2 == 0x00) results)) [
            | inl f ↦ rw f (
                Ends-apply_transition FsmEvent.script_success
                  (ap (λ t. target t FsmEvent.script_success) e))
            | inr f ↦ rw f (
                Ends-apply_transition FsmEvent.script_non_critical_failure
                  (ap (λ t. target t FsmEvent.script_non_critical_failure) e))
          ]
    goes_on after_final_generate_ac e =
        elim (Bool-cases
          (all (λ (r : ScriptCommandResult). r.sw1 == 0x90 && r.sw2 == 0x00) results)) [
            | inl f ↦ rw f (
                Ends-apply_transition FsmEvent.script_success
                  (ap (λ t. target t FsmEvent.script_success) e))
            | inr f ↦ rw f (
                Ends-apply_transition FsmEvent.script_non_critical_failure
                  (ap (λ t. target t FsmEvent.script_non_critical_failure) e))
          ]

run_scripts_ends :
    (phase : ScriptPhase) (k : Control) (card : Card) (index : ℕ) (scripts : List IssuerScript)
    → k.fsm ≡ expected_state phase
    → All (λ (s : IssuerScript). s.phase ≡ phase) scripts
    → Ends k (run_scripts card index scripts) (λ u k'. k' ≡ with_fsm (expected_state phase) k)
unfolding run_scripts target
run_scripts_ends phase k card index [] waiting same = Ends-pure (ap (λ f. with_fsm f k) waiting)
run_scripts_ends phase k card index (script ∷ scripts) waiting same =
    let next =
      run_scripts_ends phase (with_fsm (expected_state phase) k) card (index + 1) scripts refl
        same.1 in
    Ends-quiet (λ k. Keeps-lift)
      (λ si.
        Ends-quiet (λ k. Keeps-lift)
          (λ id. enter phase waiting (
            Ends-quiet (Quiet-run_commands card script.phase si id 0 script.commands [])
              (λ (results, critical).
                subst
                  (λ p.
                    Ends (with_fsm (script_state phase) k)
                      (finish_script p results critical >> run_scripts card (index + 1) scripts)
                      (λ u k'. k' ≡ with_fsm (expected_state phase) k))
                  (sym same.0)
                  (Ends-bind (λ u k'. k' ≡ with_fsm (expected_state phase) k)
                    (finish_script_ends phase (with_fsm (script_state phase) k) results critical
                      refl)
                    (λ u k' h.
                      subst
                        (λ x.
                          Ends x (run_scripts card (index + 1) scripts)
                            (λ u k'. k' ≡ with_fsm (expected_state phase) k))
                        (sym h) next))))))
  where
    enter :
        {n : Kernel (Unit {0})} {Q : Unit {0} → Control → Type 0} (phase : ScriptPhase)
        → k.fsm ≡ expected_state phase
        → Ends (with_fsm (script_state phase) k) n Q
        → Ends k (apply_transition FsmEvent.script_available >> n) Q
    enter before_final_generate_ac e p =
        transition-then FsmEvent.script_available (ap (λ t. target t FsmEvent.script_available) e) p
    enter after_final_generate_ac e p =
        transition-then FsmEvent.script_available (ap (λ t. target t FsmEvent.script_available) e) p

same_phase_lem : (p q : ScriptPhase) → same_phase p q ≡ true → p ≡ q
same_phase_lem before_final_generate_ac before_final_generate_ac h = refl
same_phase_lem before_final_generate_ac after_final_generate_ac h = cc
same_phase_lem after_final_generate_ac before_final_generate_ac h = cc
same_phase_lem after_final_generate_ac after_final_generate_ac h = refl

scripts_for-phase :
    (phase : ScriptPhase) (scripts : List IssuerScript)
    → All (λ (s : IssuerScript). s.phase ≡ phase) (scripts_for phase scripts)
scripts_for-phase phase [] = tt
scripts_for-phase phase (s ∷ scripts) = elim (Bool-cases (same_phase s.phase phase)) [
  | inl e ↦ rw e (same_phase_lem s.phase phase e, scripts_for-phase phase scripts)
  | inr e ↦ rw e (scripts_for-phase phase scripts)
]

host_scripts-phase :
    (phase : ScriptPhase) (h : Option HostResponse) (scripts : List IssuerScript)
    → host_scripts phase h ≡ okay scripts
    → All (λ (s : IssuerScript). s.phase ≡ phase) scripts
host_scripts-phase phase none scripts h = cc
host_scripts-phase phase (some r) scripts h =
    let same : scripts_for phase r.scripts ≡ scripts = ground (arith, h) in
    subst (All (λ (s : IssuerScript). s.phase ≡ phase)) (same) (scripts_for-phase phase r.scripts)

pub run_issuer_scripts_ends :
    (card : Card) (phase : ScriptPhase) (k : Control)
    → Ends k (run_issuer_scripts_for_phase card phase) (IsScripted phase k)
unfolding run_issuer_scripts_for_phase target
run_issuer_scripts_ends card phase k =
    Ends-asks (λ ctx. ctx.fsm_state) (λ (c : Control). c.fsm) (λ c. refl)
      (λ fsm known. elim (Bool-cases (code k.fsm == code (expected_state phase))) [
        | inl e ↦
            rw (known, e)
              (from_state (
                code_injective k.fsm (expected_state phase)
                  ((==_iff (code k.fsm) (code (expected_state phase))).0 e)))
        | inr e ↦ rw (known, e) Ends-err
      ])
  where
    finish :
        (phase : ScriptPhase)
        → k.fsm ≡ expected_state phase
        → Ends (with_fsm (expected_state phase) k) (end_scripts phase) (IsScripted phase k)
    finish before_final_generate_ac e =
        transition-then FsmEvent.no_more_scripts {to = s14} refl (record {
          ends = λ s i. (e, ap (at_stage (state_after_script_phase before_final_generate_ac)) i);
        })
    finish after_final_generate_ac e =
        transition-then FsmEvent.no_more_scripts {to = s16} refl (record {
          ends = λ s i. (e, ap (at_stage (state_after_script_phase after_final_generate_ac)) i);
        })

    from_state :
        k.fsm ≡ expected_state phase
        → Ends {A = Unit {0}} k
            (do
              response ← asks (λ ctx. ctx.host_response)
              scripts ← lift (host_scripts phase response)
              run_scripts card 0 scripts
              end_scripts phase)
            (IsScripted phase k)
    from_state e =
        Ends-quiet (λ k. Keeps-asks (λ ctx. ctx.host_response))
          (λ response. Ends-lift (host_scripts phase response) (λ scripts found.
            Ends-bind (λ u k'. k' ≡ with_fsm (expected_state phase) k)
              (run_scripts_ends phase k card 0 scripts e
                (host_scripts-phase phase response scripts found))
              (λ u k' h.
                subst (λ x. Ends x (end_scripts phase) (IsScripted phase k)) (sym h)
                  (finish phase e))))
