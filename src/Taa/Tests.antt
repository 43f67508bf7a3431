-- ===== src/Taa/Tests.antt =====
-- Runs of src/taa.rs, and its theorems at concrete inputs.
use hyperion_x_emv.Base.{◌≡◌, ◌≢◌, refl, true, false, [], ◌∷◌, okay}
use hyperion_x_emv.State.Tvr
use hyperion_x_emv.State.Tvr.{Tvr}
use hyperion_x_emv.Taa.{
  TerminalAction, ActionCodes, TaaInput, new_profile, spec_defaults, zeroed, zeroes, decide,
}
use hyperion_x_emv.Taa.Spec.{expected_action, matched, decide_lem, decide_offline_only}

abbrev sda_failed : Tvr
sda_failed = record { bytes = 0x40 ∷ 0 ∷ 0 ∷ 0 ∷ 0 ∷ [] }

abbrev iac_denial : ActionCodes
iac_denial = record { denial = 0x40 ∷ 0 ∷ 0 ∷ 0 ∷ 0 ∷ []; online = zeroes; default = zeroes }

abbrev denied : TaaInput
denied = record {
  tvr = sda_failed;
  tac = zeroed;
  iac = iac_denial;
  terminal_online_capable = true;
  profile = spec_defaults;
}

abbrev offline : TaaInput
offline = record {
  tvr = sda_failed;
  tac = zeroed;
  iac = zeroed;
  terminal_online_capable = false;
  profile = spec_defaults;
}

decide_lem_example : (decide denied).action ≡ expected_action denied
decide_lem_example = decide_lem denied refl

defaults_accepted :
    new_profile TerminalAction.aac TerminalAction.arqc TerminalAction.aac ≡ okay spec_defaults
unfolding new_profile
defaults_accepted = refl

decide_offline_only_example : (decide offline).action ≢ TerminalAction.arqc
decide_offline_only_example =
    decide_offline_only offline TerminalAction.aac TerminalAction.arqc TerminalAction.aac refl
      defaults_accepted refl

denied-aac : (decide denied).action ≡ TerminalAction.aac
unfolding decide
denied-aac = refl

denied-matched : matched sda_failed (zeroed.denial) (iac_denial.denial) ≡ true
unfolding Tvr.is_set
denied-matched = refl
