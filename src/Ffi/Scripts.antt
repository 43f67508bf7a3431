-- ===== src/Ffi/Scripts.antt =====
-- Issuer scripts in src/ffi.rs, run against the card.
use hyperion_x_emv.Base.{
  ℕ, ◌+◌, ◌^◌, Bool, true, false, not, ◌&&◌, List, [], ◌∷◌, ◌++◌, Option, some, none, ltb, ◌==◌,
  if◌then◌else◌, length, any, all, get_elem?, KernelError, KernelResult, okay, err, ok_or,
}
use hyperion_x_emv.State.{KernelState}
use hyperion_x_emv.Sw.{ApduContext, StatusAction, classify}
use hyperion_x_emv.Fsm.{FsmState, FsmEvent, code, s13, s15}
use hyperion_x_emv.Issuer.{
  ScriptPhase, before_final_generate_ac, after_final_generate_ac, IssuerScript, HostResponse,
  ScriptCommandResult, issuer_script_identifier_len, apply_script_results,
}
use hyperion_x_emv.Config.{AidProfile, SchemeProfile, ProfileSet}
use hyperion_x_emv.Ffi.{
  SelectedApplication, KrnContext, Card, Kernel, ◌>>=◌, ◌>>◌, pure, lift, asks, modify,
  apply_transition, put_card,
}
use hyperion_x_emv.Ffi.Transport.{
  apdu_timeout, transmit_apdu_with_followups, response_body_and_status,
}

pub data IssuerScriptStatus : Type 0 where
  continue critical_failure : IssuerScriptStatus

unfoldable pub issuer_script_status : StatusAction → KernelResult IssuerScriptStatus
issuer_script_status StatusAction.success = okay IssuerScriptStatus.continue
issuer_script_status StatusAction.continue_after_script_warning = okay IssuerScriptStatus.continue
issuer_script_status StatusAction.continue_after_non_critical_script_failure =
    okay IssuerScriptStatus.continue
issuer_script_status (StatusAction.fail KernelError.script_failed) =
    okay IssuerScriptStatus.critical_failure
issuer_script_status (StatusAction.fail e) = err e
issuer_script_status _ = err KernelError.invalid_argument

abbrev pub expected_state : ScriptPhase → FsmState
expected_state before_final_generate_ac = s13
expected_state after_final_generate_ac = s15

unfoldable pub state_after_script_phase : ScriptPhase → KernelState
state_after_script_phase before_final_generate_ac = KernelState.second_generate_ac
state_after_script_phase after_final_generate_ac = KernelState.final_outcome

-- The derived equality of `ScriptPhase`.
abbrev pub same_phase : ScriptPhase → ScriptPhase → Bool
same_phase before_final_generate_ac before_final_generate_ac = true
same_phase after_final_generate_ac after_final_generate_ac = true
same_phase _ _ = false

abbrev pub scripts_for : ScriptPhase → List IssuerScript → List IssuerScript
scripts_for phase [] = []
scripts_for phase (script ∷ scripts) =
    if same_phase script.phase phase
    then script ∷ scripts_for phase scripts
    else scripts_for phase scripts

-- `scheme.aids.get(aid_index)` of `schemes.get(scheme_index)`
abbrev pub aid_at : Option SchemeProfile → ℕ → Option AidProfile
aid_at none index = none
aid_at (some scheme) index = get_elem? scheme.aids index

abbrev pub profile_of : Option SelectedApplication → Option ProfileSet → KernelResult AidProfile
profile_of none profiles = err KernelError.invalid_argument
profile_of (some selected) none = err KernelError.invalid_profile
profile_of (some selected) (some profiles) =
    ok_or (aid_at (get_elem? profiles.schemes selected.scheme_index) selected.aid_index)
      KernelError.invalid_profile

unfoldable pub selected_aid_profile : KrnContext → KernelResult AidProfile
selected_aid_profile ctx = profile_of ctx.selected_application ctx.profiles

abbrev pub is_critical_ins : KernelResult AidProfile → ℕ → KernelResult Bool
is_critical_ins (err e) ins = err e
is_critical_ins (okay profile) ins =
    okay (any (λ critical. critical == ins) profile.critical_issuer_script_ins)

unfoldable pub issuer_script_command_is_critical : KrnContext → List ℕ → KernelResult Bool
unfolding selected_aid_profile
issuer_script_command_is_critical ctx command = elim (get_elem? command 1) [
  | none ↦ err KernelError.parse_error
  | some ins ↦ is_critical_ins (selected_aid_profile ctx) ins
]

unfoldable pub issuer_script_identifier_array : Option (List ℕ) → KernelResult (Option (List ℕ))
issuer_script_identifier_array none = okay none
issuer_script_identifier_array (some identifier) =
    if not (length identifier == issuer_script_identifier_len)
    then err KernelError.parse_error
    else okay (some identifier)

-- `u16::try_from(index)`
abbrev pub u16_index : ℕ → KernelResult ℕ
u16_index index = if ltb index (2 ^ 16) then okay index else err KernelError.length_overflow

-- What is captured of one command.
abbrev pub capture :
    ScriptPhase → ℕ → ℕ → Option (List ℕ) → ScriptCommandResult → KrnContext → KrnContext
capture p si ci id r ctx = record ctx {
  issuer_script_results =
      ctx.issuer_script_results
      ++ (record {
        phase = p;
        script_index = si;
        command_index = ci;
        script_identifier = id;
        result = r;
      }
          ∷ []);
}

-- The loop over the commands of a script, with the results so far; whether it met a critical failure.
unfoldable pub run_commands :
    Card
    → ScriptPhase
    → ℕ
    → Option (List ℕ)
    → ℕ
    → List (List ℕ)
    → List ScriptCommandResult
    → Kernel (List ScriptCommandResult × Bool)
unfolding issuer_script_command_is_critical issuer_script_status
run_commands card phase script_index identifier index [] results = pure (results, false)
run_commands card phase script_index identifier index (command ∷ commands) results = do
  command_index ← lift (u16_index index)
  decision ← asks (λ ctx. issuer_script_command_is_critical ctx command)
  critical ← lift decision
  timeout_ms ← asks apdu_timeout
  response ←
      transmit_apdu_with_followups card command timeout_ms (ApduContext.issuer_script critical)
  (body, sw) ← lift (response_body_and_status response)
  modify
      (capture phase script_index command_index identifier (record { sw1 = sw.sw1; sw2 = sw.sw2 }))
  status ← lift (issuer_script_status (classify (ApduContext.issuer_script critical) sw))
  elim status [
    | IssuerScriptStatus.continue ↦
        run_commands card phase script_index identifier (index + 1) commands
          (results ++ (record { sw1 = sw.sw1; sw2 = sw.sw2 } ∷ []))
    | IssuerScriptStatus.critical_failure ↦
        pure (results ++ (record { sw1 = sw.sw1; sw2 = sw.sw2 } ∷ []), true)
  ]

-- The bitmaps after a script, and their copies in the card data.
abbrev pub with_summary : ScriptPhase → List ScriptCommandResult → KrnContext → KrnContext
with_summary phase results ctx = record ctx {
  tvr = (apply_script_results phase results ctx.tvr ctx.tsi).tvr;
  tsi = (apply_script_results phase results ctx.tvr ctx.tsi).tsi;
}

unfoldable pub put_bitmaps : Kernel (Unit {0})
put_bitmaps = do
  tvr ← asks (λ ctx. ctx.tvr)
  put_card (0x95 ∷ []) tvr.bytes
  tsi ← asks (λ ctx. ctx.tsi)
  put_card (0x9b ∷ []) tsi.bytes

abbrev pub script_event : List ScriptCommandResult → FsmEvent
script_event results =
    if all (λ (r : ScriptCommandResult). r.sw1 == 0x90 && r.sw2 == 0x00) results
    then FsmEvent.script_success
    else FsmEvent.script_non_critical_failure

-- What follows the commands of a script.
unfoldable pub finish_script : ScriptPhase → List ScriptCommandResult → Bool → Kernel (Unit {0})
unfolding put_bitmaps
finish_script phase results critical = do
  modify (with_summary phase results)
  put_bitmaps
  if critical
      then (do
        apply_transition FsmEvent.script_critical_failure
        modify (λ ctx. record ctx { state = KernelState.error })
        lift (err KernelError.script_failed))
      else apply_transition (script_event results)

-- The loop over the scripts.
unfoldable pub run_scripts : Card → ℕ → List IssuerScript → Kernel (Unit {0})
unfolding run_commands finish_script issuer_script_identifier_array
run_scripts card index [] = pure tt
run_scripts card index (script ∷ scripts) = do
  script_index ← lift (u16_index index)
  identifier ← lift (issuer_script_identifier_array script.identifier)
  apply_transition FsmEvent.script_available
  (results, critical) ← run_commands card script.phase script_index identifier 0 script.commands []
  finish_script script.phase results critical
  run_scripts card (index + 1) scripts

abbrev pub end_scripts : ScriptPhase → Kernel (Unit {0})
end_scripts phase =
    apply_transition FsmEvent.no_more_scripts
    >> modify (λ ctx. record ctx { state = state_after_script_phase phase })

abbrev pub host_scripts : ScriptPhase → Option HostResponse → KernelResult (List IssuerScript)
host_scripts phase none = err KernelError.invalid_argument
host_scripts phase (some response) = okay (scripts_for phase response.scripts)

-- Without scripts the loop is empty, as the early return of the source has it.
unfoldable pub run_issuer_scripts_for_phase : Card → ScriptPhase → Kernel (Unit {0})
unfolding run_scripts
run_issuer_scripts_for_phase card phase = do
  fsm_state ← asks (λ ctx. ctx.fsm_state)
  if not (code fsm_state == code (expected_state phase))
      then lift (err KernelError.invalid_argument)
      else (do
        response ← asks (λ ctx. ctx.host_response)
        scripts ← lift (host_scripts phase response)
        run_scripts card 0 scripts
        end_scripts phase)
