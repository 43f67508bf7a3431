-- ===== src/Sw.antt =====
-- src/sw.rs: what a status word of the card means in the context of a command.
mod Tests
pub mod Contexts
use hyperion_x_emv.Base.{
  ℕ, bit_and, Bool, true, false, ◌&&◌, ◌||◌, ◌==◌, if◌then◌else◌, KernelError,
}
use hyperion_x_emv.State.Bitmap.{Bit}
use hyperion_x_emv.State.Tvr

pub record StatusWord : Type 0 where
  pub sw1 : ℕ
  pub sw2 : ℕ

abbrev pub is_success : StatusWord → Bool
is_success sw = sw.sw1 == 0x90 && sw.sw2 == 0x00

pub data ApduContext : Type 0 where
  select_pse select_aid gpo read_record verify generate_ac : ApduContext
  internal_authenticate external_authenticate : ApduContext
  -- `critical`
  issuer_script : Bool → ApduContext

pub data StatusAction : Type 0 where
  success fallback_to_direct_aid try_next_aid end_of_records : StatusAction
  continue_after_script_warning continue_after_non_critical_script_failure : StatusAction
  -- `length`
  get_response retry_with_le : ℕ → StatusAction
  -- `bit`
  continue_with_tvr : Bit → StatusAction
  -- `tries_remaining`
  pin_failed : ℕ → StatusAction
  -- `error`
  fail : KernelError → StatusAction

-- The `match` on the context and the status word.
unfoldable pub in_context : ApduContext → ℕ → ℕ → StatusAction
in_context ApduContext.select_pse sw1 sw2 =
    if (sw1 == 0x6a && sw2 == 0x82) || (sw1 == 0x62 && sw2 == 0x83)
    then StatusAction.fallback_to_direct_aid
    else StatusAction.fail KernelError.no_common_aid
in_context ApduContext.select_aid sw1 sw2 = StatusAction.try_next_aid
in_context ApduContext.gpo sw1 sw2 = StatusAction.fail KernelError.missing_mandatory_tag
in_context ApduContext.read_record sw1 sw2 =
    if sw1 == 0x6a && sw2 == 0x83
    then StatusAction.end_of_records
    else StatusAction.continue_with_tvr Tvr.b1_icc_data_missing
in_context ApduContext.verify sw1 sw2 =
    if sw1 == 0x63 && bit_and sw2 0xf0 == 0xc0
    then StatusAction.pin_failed (bit_and sw2 0x0f)
    else StatusAction.fail KernelError.invalid_argument
in_context ApduContext.generate_ac sw1 sw2 = StatusAction.fail KernelError.card_removed
in_context ApduContext.internal_authenticate sw1 sw2 = StatusAction.fail KernelError.invalid_profile
in_context ApduContext.external_authenticate sw1 sw2 =
    StatusAction.continue_with_tvr Tvr.b5_issuer_authentication_failed
in_context (ApduContext.issuer_script critical) sw1 sw2 =
    if sw1 == 0x62 || sw1 == 0x63
    then StatusAction.continue_after_script_warning
    else if critical
    then StatusAction.fail KernelError.script_failed
    else StatusAction.continue_after_non_critical_script_failure

unfoldable pub classify : ApduContext → StatusWord → StatusAction
unfolding in_context
classify context sw =
    if is_success sw
    then StatusAction.success
    else if sw.sw1 == 0x61
    then StatusAction.get_response sw.sw2
    else if sw.sw1 == 0x6c
    then StatusAction.retry_with_le sw.sw2
    else in_context context sw.sw1 sw.sw2
