-- ===== src/Ffi/Online.antt =====
-- The online phases of src/ffi.rs: the host's response, issuer authentication and the final GENERATE AC.
use hyperion_x_emv.Base.{
  ℕ, Bool, List, [], ◌∷◌, Option, some, none, ◌==◌, ◌=s=◌, if◌then◌else◌, is_some, is_empty,
  KernelError, KernelResult, okay, err, ok_or,
}
use hyperion_x_emv.State.{KernelState}
use hyperion_x_emv.State.Tsi
use hyperion_x_emv.Sw.{ApduContext, StatusAction, classify}
use hyperion_x_emv.Fsm.{FsmState, FsmEvent, code, s11, s12, s13, s14}
use hyperion_x_emv.Dol.{require_exact_values, parse_dol, build_dol_with_policy}
use hyperion_x_emv.Dol.Store.{get}
use hyperion_x_emv.Apdu.{
  CryptogramRequest, CdaRequestControl, external_authenticate, generate_ac, encode,
}
use hyperion_x_emv.Gac.{
  CryptogramType, cryptogram_type, GenerateAcResponse, parse_generate_ac_response,
}
use hyperion_x_emv.Issuer.{HostResponse, parse_host_response}
use hyperion_x_emv.Ffi.{
  KrnOutcome, KrnContext, Card, Kernel, ◌>>=◌, ◌>>◌, pure, lift, asks, modify, ignore,
  apply_transition, put_card,
}
use hyperion_x_emv.Ffi.Transport.{
  apdu_timeout, transmit_apdu_with_followups, response_body_and_status, require_generate_ac_success,
}
use hyperion_x_emv.Ffi.Records.{set_tvr}
use hyperion_x_emv.Ffi.Scripts.{put_bitmaps}

-- `if ctx.fsm_state != state { return Err(KernelError::InvalidArgument); }`
abbrev pub require_state : FsmState → Kernel (Unit {0})
require_state state s =
    (s, if code s.ctx.fsm_state == code state then okay tt else err KernelError.invalid_argument)

-- `if let Some(value) = option { ctx.card_data.put(tag, value)?; }`
abbrev pub put_optional : List ℕ → Option (List ℕ) → Kernel (Unit {0})
put_optional tag none = pure tt
put_optional tag (some value) = put_card tag value

unfoldable pub state_after_host_response_fsm : FsmState → KernelState
state_after_host_response_fsm s12 = KernelState.issuer_authentication
state_after_host_response_fsm s13 = KernelState.issuer_scripts
state_after_host_response_fsm _ = KernelState.error

abbrev pub host_event : HostResponse → FsmEvent
host_event response =
    if is_some response.issuer_authentication_data
    then FsmEvent.host_arpc
    else FsmEvent.host_approval_no_arpc

unfoldable pub apply_host_response : List ℕ → Kernel (Unit {0})
unfolding state_after_host_response_fsm
apply_host_response bytes = do
  require_state s11
  response ← lift (parse_host_response bytes)
  put_card (0x8a ∷ []) response.authorization_response_code
  put_optional (0x89 ∷ []) response.authorization_code
  put_optional (0x91 ∷ []) response.issuer_authentication_data
  modify (λ ctx. record ctx { host_response = some response })
  apply_transition (host_event response)
  modify (λ ctx. record ctx { state = state_after_host_response_fsm ctx.fsm_state })

-- The event, and the bit that is set in the TVR.
unfoldable pub issuer_authentication_event_from_status : StatusAction → Kernel FsmEvent
issuer_authentication_event_from_status StatusAction.success =
    pure FsmEvent.issuer_authentication_success
issuer_authentication_event_from_status (StatusAction.continue_with_tvr bit) =
    modify (set_tvr bit) >> pure FsmEvent.issuer_authentication_failure
issuer_authentication_event_from_status (StatusAction.fail e) = lift (err e)
issuer_authentication_event_from_status _ = lift (err KernelError.internal_error)

abbrev pub host_authentication_data : Option HostResponse → KernelResult (List ℕ)
host_authentication_data none = err KernelError.invalid_argument
host_authentication_data (some response) =
    ok_or response.issuer_authentication_data KernelError.invalid_argument

unfoldable pub run_issuer_authentication : Card → Kernel (Unit {0})
unfolding issuer_authentication_event_from_status
run_issuer_authentication card = do
  require_state s12
  response ← asks (λ ctx. ctx.host_response)
  authentication_data ← lift (host_authentication_data response)
  apdu ← lift (external_authenticate authentication_data)
  command ← lift (encode apdu)
  timeout_ms ← asks apdu_timeout
  answer ← transmit_apdu_with_followups card command timeout_ms ApduContext.external_authenticate
  (body, sw) ← lift (response_body_and_status answer)
  modify (λ ctx. record ctx { tsi = Tsi.set ctx.tsi Tsi.issuer_authentication_performed })
  event ← issuer_authentication_event_from_status (classify ApduContext.external_authenticate sw)
  put_bitmaps
  apply_transition event
  modify (λ ctx. record ctx { state = KernelState.issuer_scripts })

abbrev pub approves : List ℕ → Bool
approves host_arc = host_arc =s= (b'0' ∷ b'0' ∷ [])

unfoldable pub final_outcome_for_host_arc : List ℕ → KrnOutcome
final_outcome_for_host_arc host_arc =
    if approves host_arc then KrnOutcome.approved_online else KrnOutcome.declined_online

abbrev pub host_arc_of : Option HostResponse → KernelResult (List ℕ)
host_arc_of none = err KernelError.missing_mandatory_tag
host_arc_of (some response) = okay response.authorization_response_code

abbrev pub with_outcome : KrnOutcome → KrnContext → KrnContext
with_outcome outcome ctx = record ctx { final_outcome = some outcome }

-- The cryptogram of an answer, put into the card data.
unfoldable pub put_cryptogram : GenerateAcResponse → Kernel (Unit {0})
put_cryptogram parsed = do
  put_card (0x9f ∷ 0x27 ∷ []) (parsed.cid.raw ∷ [])
  put_card (0x9f ∷ 0x26 ∷ []) parsed.application_cryptogram
  put_card (0x9f ∷ 0x36 ∷ []) parsed.atc
  if is_empty parsed.iad then pure tt else put_card (0x9f ∷ 0x10 ∷ []) parsed.iad
  put_optional (0x9f ∷ 0x4c ∷ []) parsed.icc_dynamic_number

-- The `match` on the type of the final cryptogram.
unfoldable pub conclude : CryptogramType → Kernel (Unit {0})
conclude CryptogramType.tc =
    modify (with_outcome KrnOutcome.approved_online) >> apply_transition FsmEvent.gac2_tc
conclude CryptogramType.aac =
    modify (with_outcome KrnOutcome.declined_online) >> apply_transition FsmEvent.gac2_aac
conclude _ =
    ignore (apply_transition FsmEvent.gac2_failed) >> lift (err KernelError.invalid_argument)

abbrev pub after_final : KrnContext → KrnContext
after_final ctx = record ctx { state = KernelState.post_final_issuer_scripts }

-- The final GENERATE AC with the card's CDOL2.
unfoldable pub final_generate_ac : Card → List ℕ → List ℕ → Kernel (Unit {0})
unfolding put_cryptogram conclude
final_generate_ac card host_arc cdol2 = do
  put_bitmaps
  cdol ← lift (parse_dol cdol2)
  store ← asks (λ ctx. ctx.card_data)
  values ← lift (build_dol_with_policy cdol store require_exact_values)
  apdu ← lift (
      generate_ac (if approves host_arc then CryptogramRequest.tc else CryptogramRequest.aac) values
        CdaRequestControl.not_requested)
  command ← lift (encode apdu)
  timeout_ms ← asks apdu_timeout
  response ← transmit_apdu_with_followups card command timeout_ms ApduContext.generate_ac
  (body, sw) ← lift (response_body_and_status response)
  require_generate_ac_success sw FsmEvent.gac2_failed
  parsed ← lift (parse_generate_ac_response body)
  put_cryptogram parsed
  conclude (cryptogram_type parsed.cid)
  modify (λ ctx. after_final (record ctx { final_gac_response = some parsed }))

-- Without a CDOL2 the host's response code decides.
unfoldable pub skip_final_generate_ac : List ℕ → Kernel (Unit {0})
unfolding final_outcome_for_host_arc
skip_final_generate_ac host_arc =
    apply_transition FsmEvent.final_generate_ac_skipped
    >> modify (λ ctx. after_final (with_outcome (final_outcome_for_host_arc host_arc) ctx))

unfoldable pub run_final_generate_ac : Card → Kernel (Unit {0})
unfolding final_generate_ac skip_final_generate_ac
run_final_generate_ac card = do
  require_state s14
  response ← asks (λ ctx. ctx.host_response)
  host_arc ← lift (host_arc_of response)
  cdol2 ← asks (λ ctx. get ctx.card_data (0x8d ∷ []))
  elim cdol2 [
    | none ↦ skip_final_generate_ac host_arc
    | some value ↦ final_generate_ac card host_arc value
  ]
