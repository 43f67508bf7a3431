-- ===== src/Ffi/Actions.antt =====
-- Terminal action analysis and the first GENERATE AC of src/ffi.rs. The check of a CDA signature is a
-- parameter, whatever it answers.
use hyperion_x_emv.Base.{
  Bool, true, Option, some, none, get_elem?, KernelError, KernelResult, okay, err,
}
use hyperion_x_emv.State.{KernelState}
use hyperion_x_emv.Fsm.{FsmEvent}
use hyperion_x_emv.Apdu.{CryptogramRequest}
use hyperion_x_emv.Taa.{TerminalAction, decide}
use hyperion_x_emv.Config.{AidProfile, SchemeProfile, ProfileSet}
use hyperion_x_emv.Ffi.{
  StoredTxnParams, SelectedApplication, Kernel, ◌>>=◌, ◌>>◌, lift, asks, modify, apply_transition,
}
use hyperion_x_emv.Ffi.Package.{terminal_type_online_capable, issuer_action_codes}

abbrev pub terminal_action_target : TerminalAction → CryptogramRequest × FsmEvent × KernelState
terminal_action_target TerminalAction.aac =
    (CryptogramRequest.aac, FsmEvent.taa_aac, KernelState.final_outcome)
terminal_action_target TerminalAction.tc =
    (CryptogramRequest.tc, FsmEvent.taa_tc, KernelState.final_outcome)
terminal_action_target TerminalAction.arqc =
    (CryptogramRequest.arqc, FsmEvent.taa_arqc, KernelState.first_generate_ac)

-- The scheme and the profile of the selected application.
abbrev pub selected_scheme :
    Option SelectedApplication → ProfileSet → KernelResult (SchemeProfile × AidProfile)
selected_scheme none profiles = err KernelError.invalid_argument
selected_scheme (some selected) profiles = elim (get_elem? profiles.schemes selected.scheme_index) [
  | none ↦ err KernelError.invalid_profile
  | some scheme ↦ elim (get_elem? scheme.aids selected.aid_index) [
    | none ↦ err KernelError.invalid_profile
    | some profile ↦ okay (scheme, profile)
  ]
]

-- `.map(..).transpose()?.unwrap_or(true)`
abbrev pub online_capable_or_true : Option StoredTxnParams → KernelResult Bool
online_capable_or_true none = okay true
online_capable_or_true (some params) = terminal_type_online_capable params.terminal_type

unfoldable pub run_terminal_action_analysis : ProfileSet → Kernel (Unit {0})
run_terminal_action_analysis profiles = do
  selected ← asks (λ ctx. ctx.selected_application)
  (scheme, profile) ← lift (selected_scheme selected profiles)
  store ← asks (λ ctx. ctx.card_data)
  codes ← lift (issuer_action_codes store profile.issuer_action_codes)
  params ← asks (λ ctx. ctx.txn_params)
  online ← lift (online_capable_or_true params)
  tvr ← asks (λ ctx. ctx.tvr)
  let decision = decide (record {
    tvr = tvr;
    tac = profile.action_codes;
    iac = codes;
    terminal_online_capable = online;
    profile = scheme.taa;
  })
  modify
      (λ ctx. record ctx { requested_cryptogram = some (terminal_action_target decision.action).0 })
  apply_transition (terminal_action_target decision.action).1
  modify (λ ctx. record ctx { state = (terminal_action_target decision.action).2 })
