-- ===== src/Ffi/FirstGac.antt =====
-- The first GENERATE AC of src/ffi.rs, and the outcomes without the host. The check of a CDA signature is
-- a parameter, whatever it answers.
use hyperion_x_emv.Base.{
  ℕ, Bool, true, false, ◌&&◌, List, [], ◌∷◌, Option, some, none, if◌then◌else◌, ◌==◌, KernelError,
  KernelResult, okay, err, ok_or,
}
use hyperion_x_emv.State.{KernelState}
use hyperion_x_emv.State.Tvr
use hyperion_x_emv.Sw.{ApduContext}
use hyperion_x_emv.Fsm.{FsmState, FsmEvent, code, s10, s11}
use hyperion_x_emv.Dol.{DolEntry, require_exact_values, parse_dol, build_dol_with_policy}
use hyperion_x_emv.Dol.Store.{get}
use hyperion_x_emv.Apdu.{CryptogramRequest, CdaRequestControl, generate_ac, encode}
use hyperion_x_emv.Gac.{
  CryptogramType, cryptogram_type, GenerateAcResponse, parse_generate_ac_response,
  build_online_authorization_package,
}
use hyperion_x_emv.Config.{AidProfile, ProfileSet, CdaRequestEncoding}
use hyperion_x_emv.Ffi.{
  OdaMethod, KrnOutcome, KrnContext, Card, Kernel, ◌>>=◌, ◌>>◌, pure, lift, asks, modify,
  apply_transition, put_card,
}
use hyperion_x_emv.Ffi.Transport.{
  apdu_timeout, transmit_apdu_with_followups, response_body_and_status, require_generate_ac_success,
}
use hyperion_x_emv.Ffi.Records.{set_tvr}
use hyperion_x_emv.Ffi.Scripts.{selected_aid_profile, put_bitmaps}
use hyperion_x_emv.Ffi.Online.{put_optional, put_cryptogram, with_outcome}
use hyperion_x_emv.Ffi.Package.{encode_online_authorization_package}
use hyperion_x_emv.Ffi.Actions.{run_terminal_action_analysis}

abbrev pub default_cdol1_of : KernelResult AidProfile → KernelResult (List DolEntry)
default_cdol1_of (err e) = err e
default_cdol1_of (okay profile) = elim profile.default_cdol1 [
  | none ↦ err KernelError.missing_mandatory_tag
  | some value ↦ parse_dol value
]

unfoldable pub cdol1_definition_for_first_gac : KrnContext → KernelResult (List DolEntry)
cdol1_definition_for_first_gac ctx = elim (get ctx.card_data (0x8c ∷ [])) [
  | some card_cdol1 ↦ parse_dol card_cdol1
  | none ↦ default_cdol1_of (selected_aid_profile ctx)
]

-- `ctx.selected_oda_method == Some(OdaMethod::Cda)`
abbrev pub is_cda : Option OdaMethod → Bool
is_cda (some OdaMethod.cda) = true
is_cda _ = false

abbrev pub control_of_encoding : Option CdaRequestEncoding → KernelResult CdaRequestControl
control_of_encoding none = err KernelError.unsupported_cda_request
control_of_encoding (some CdaRequestEncoding.in_cdol_data) = okay CdaRequestControl.in_cdol_data
control_of_encoding (some (CdaRequestEncoding.p1_low_bits bits)) =
    okay (CdaRequestControl.p1_low_bits bits)

abbrev pub control_of_profile : KernelResult AidProfile → KernelResult CdaRequestControl
control_of_profile (err e) = err e
control_of_profile (okay profile) = control_of_encoding profile.cda_request_encoding

unfoldable pub cda_request_control_for_first_gac : KrnContext → KernelResult CdaRequestControl
cda_request_control_for_first_gac ctx =
    if is_cda ctx.selected_oda_method
    then control_of_profile (selected_aid_profile ctx)
    else okay CdaRequestControl.not_requested

-- `ctx.requested_cryptogram == Some(CryptogramRequest::Arqc)`
abbrev pub is_arqc : Option CryptogramRequest → Bool
is_arqc (some CryptogramRequest.arqc) = true
is_arqc _ = false

unfoldable pub reroute_cda_failed_offline_cryptogram_through_taa : Kernel (Unit {0})
unfolding run_terminal_action_analysis
reroute_cda_failed_offline_cryptogram_through_taa = do
  known ← asks (λ ctx. ctx.profiles)
  profiles ← lift (ok_or known KernelError.invalid_profile)
  apply_transition FsmEvent.cda_failure
  modify (λ ctx. record ctx { state = KernelState.terminal_action_analysis })
  run_terminal_action_analysis profiles
  request ← asks (λ ctx. ctx.requested_cryptogram)
  if is_arqc request then lift (err KernelError.invalid_argument) else pure tt

abbrev pub with_first : GenerateAcResponse → KrnContext → KrnContext
with_first parsed ctx = record ctx { first_gac_response = some parsed }

abbrev pub online_data : Option (List ℕ) → KrnContext → KrnContext
online_data bytes ctx = record ctx { online_authorization_data = bytes }

-- The end of the first GENERATE AC by the type of the cryptogram.
unfoldable pub end_first : GenerateAcResponse → CryptogramType → Kernel (Unit {0})
end_first parsed CryptogramType.arqc = do
  store ← asks (λ ctx. ctx.card_data)
  bytes ←
      lift (encode_online_authorization_package (build_online_authorization_package parsed store))
  modify (λ ctx. with_first parsed (online_data (some bytes) ctx))
  apply_transition FsmEvent.gac_arqc
  modify (λ ctx. record ctx { state = KernelState.online_authorization })
end_first parsed CryptogramType.tc = do
  modify (λ ctx. with_first parsed (online_data none ctx))
  apply_transition FsmEvent.gac_tc
  modify (λ ctx. record ctx { state = KernelState.final_outcome })
end_first parsed CryptogramType.aac = do
  modify (λ ctx. with_first parsed (online_data none ctx))
  apply_transition FsmEvent.gac_aac
  modify (λ ctx. record ctx { state = KernelState.final_outcome })
end_first parsed _ = lift (err KernelError.invalid_argument)

-- A cryptogram of the card's own decision.
abbrev pub is_offline_type : CryptogramType → Bool
is_offline_type CryptogramType.tc = true
is_offline_type CryptogramType.aac = true
is_offline_type _ = false

-- What follows the check of the CDA signature.
unfoldable pub after_cda : GenerateAcResponse → Bool → Kernel (Unit {0})
unfolding reroute_cda_failed_offline_cryptogram_through_taa end_first
after_cda parsed failed = do
  if failed
      then (do
        modify (set_tvr Tvr.b1_cda_failed)
        tvr ← asks (λ ctx. ctx.tvr)
        put_card (0x95 ∷ []) tvr.bytes)
      else pure tt
  if failed && is_offline_type (cryptogram_type parsed.cid)
      then modify (with_first parsed) >> reroute_cda_failed_offline_cryptogram_through_taa
      else end_first parsed (cryptogram_type parsed.cid)

unfoldable pub run_first_generate_ac :
    (KrnContext → GenerateAcResponse → Bool) → Card → Kernel (Unit {0})
unfolding cdol1_definition_for_first_gac cda_request_control_for_first_gac after_cda
run_first_generate_ac cda_fails card = do
  known ← asks (λ ctx. ctx.requested_cryptogram)
  request ← lift (ok_or known KernelError.invalid_argument)
  definition ← asks cdol1_definition_for_first_gac
  cdol ← lift definition
  put_bitmaps
  store ← asks (λ ctx. ctx.card_data)
  values ← lift (build_dol_with_policy cdol store require_exact_values)
  control ← asks cda_request_control_for_first_gac
  cda_control ← lift control
  apdu ← lift (generate_ac request values cda_control)
  command ← lift (encode apdu)
  timeout_ms ← asks apdu_timeout
  response ← transmit_apdu_with_followups card command timeout_ms ApduContext.generate_ac
  (body, sw) ← lift (response_body_and_status response)
  require_generate_ac_success sw FsmEvent.gac_failed
  parsed ← lift (parse_generate_ac_response body)
  put_cryptogram parsed
  put_optional (0x9f ∷ 0x4b ∷ []) parsed.signed_dynamic_application_data
  failed ← asks (λ ctx. is_cda ctx.selected_oda_method && cda_fails ctx parsed)
  after_cda parsed failed

-- The outcomes without the host, by what was requested and by the card's cryptogram.
abbrev pub outcome_of_request : Option CryptogramRequest → KernelResult KrnOutcome
outcome_of_request (some CryptogramRequest.tc) = okay KrnOutcome.approved_offline
outcome_of_request (some CryptogramRequest.aac) = okay KrnOutcome.declined_offline
outcome_of_request _ = err KernelError.invalid_argument

abbrev pub outcome_of_type : CryptogramType → KernelResult KrnOutcome
outcome_of_type CryptogramType.tc = okay KrnOutcome.approved_offline
outcome_of_type CryptogramType.aac = okay KrnOutcome.declined_offline
outcome_of_type _ = err KernelError.invalid_argument

abbrev pub outcome_of_response : Option GenerateAcResponse → KernelResult KrnOutcome
outcome_of_response none = err KernelError.invalid_argument
outcome_of_response (some response) = outcome_of_type (cryptogram_type response.cid)

abbrev pub finish_with : KrnOutcome → Kernel KrnOutcome
finish_with outcome =
    modify (λ ctx. record (with_outcome outcome ctx) { last_error = KernelError.ok })
    >> pure outcome

unfoldable pub finish_offline_outcome_from_taa : Kernel KrnOutcome
finish_offline_outcome_from_taa = do
  request ← asks (λ ctx. ctx.requested_cryptogram)
  outcome ← lift (outcome_of_request request)
  finish_with outcome

unfoldable pub finish_offline_outcome_from_first_gac : Kernel KrnOutcome
finish_offline_outcome_from_first_gac = do
  response ← asks (λ ctx. ctx.first_gac_response)
  outcome ← lift (outcome_of_response response)
  finish_with outcome

-- `state == KernelState::FinalOutcome`
abbrev pub is_final_outcome : KernelState → Bool
is_final_outcome KernelState.final_outcome = true
is_final_outcome _ = false

-- `matches!(state, FsmState::S14 | FsmState::S16)`
abbrev pub is_s14_or_s16 : FsmState → Bool
is_s14_or_s16 FsmState.s14 = true
is_s14_or_s16 FsmState.s16 = true
is_s14_or_s16 _ = false

abbrev pub is_final_outcome_state : KrnContext → Bool
is_final_outcome_state ctx = is_final_outcome ctx.state && is_s14_or_s16 ctx.fsm_state

unfoldable pub first_gac_transaction_outcome : Kernel KrnOutcome
unfolding finish_offline_outcome_from_taa finish_offline_outcome_from_first_gac
first_gac_transaction_outcome = do
  fsm_state ← asks (λ ctx. ctx.fsm_state)
  final ← asks is_final_outcome_state
  failed ← asks (λ ctx. Tvr.is_set ctx.tvr Tvr.b1_cda_failed)
  if code fsm_state == code s11
      then modify (λ ctx. record ctx { last_error = KernelError.ok })
        >> pure KrnOutcome.online_required
      else if final && failed
      then finish_offline_outcome_from_taa
      else if final
      then finish_offline_outcome_from_first_gac
      else lift (err KernelError.invalid_argument)

-- The rounds of `advance_transaction_after_gpo` from S9: the terminal's decision, and the first GENERATE AC
-- unless that decision is final. From S9 the machine is
-- then at S10, and no other round follows.
unfoldable pub advance_from_s9 :
    ProfileSet → (KrnContext → GenerateAcResponse → Bool) → Card → Kernel KrnOutcome
unfolding run_first_generate_ac first_gac_transaction_outcome
advance_from_s9 profiles cda_fails card = do
  run_terminal_action_analysis profiles
  fsm_state ← asks (λ ctx. ctx.fsm_state)
  final ← asks is_final_outcome_state
  if final
      then finish_offline_outcome_from_taa
      else if code fsm_state == code s10
      then (do run_first_generate_ac cda_fails card; first_gac_transaction_outcome)
      else lift (err KernelError.invalid_argument)
