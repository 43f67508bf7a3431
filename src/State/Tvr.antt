-- ===== src/State/Tvr.antt =====
-- `Tvr` of src/state.rs: the terminal verification results, five bytes of bits.
use hyperion_x_emv.Base.{
  ℕ, ◌-◌, bit_and, bit_or, Bool, false, List, [], ◌∷◌, none, some, get_elem?, set as set_elem,
  get_or,
}
use hyperion_x_emv.Base.Bits.{meets}
use hyperion_x_emv.State.Bitmap.{Bit, any_rfu}

pub record Tvr : Type 0 where
  pub bytes : List ℕ

-- The bits in use, byte by byte; all others are reserved for future use.
abbrev pub allowed_masks : List ℕ
allowed_masks = 0xfc ∷ 0xf8 ∷ 0xfc ∷ 0xf8 ∷ 0xf0 ∷ []

abbrev pub b1_offline_data_auth_not_performed : Bit
b1_offline_data_auth_not_performed = (0, 0x80)

abbrev pub b1_sda_failed : Bit
b1_sda_failed = (0, 0x40)

abbrev pub b1_icc_data_missing : Bit
b1_icc_data_missing = (0, 0x20)

abbrev pub b1_card_on_exception_file : Bit
b1_card_on_exception_file = (0, 0x10)

abbrev pub b1_dda_failed : Bit
b1_dda_failed = (0, 0x08)

abbrev pub b1_cda_failed : Bit
b1_cda_failed = (0, 0x04)

abbrev pub b2_different_application_versions : Bit
b2_different_application_versions = (1, 0x80)

abbrev pub b2_expired_application : Bit
b2_expired_application = (1, 0x40)

abbrev pub b2_application_not_yet_effective : Bit
b2_application_not_yet_effective = (1, 0x20)

abbrev pub b2_requested_service_not_allowed : Bit
b2_requested_service_not_allowed = (1, 0x10)

abbrev pub b2_new_card : Bit
b2_new_card = (1, 0x08)

abbrev pub b3_cardholder_verification_not_successful : Bit
b3_cardholder_verification_not_successful = (2, 0x80)

abbrev pub b3_unrecognized_cvm : Bit
b3_unrecognized_cvm = (2, 0x40)

abbrev pub b3_pin_try_limit_exceeded : Bit
b3_pin_try_limit_exceeded = (2, 0x20)

abbrev pub b3_pin_pad_not_present_or_not_working : Bit
b3_pin_pad_not_present_or_not_working = (2, 0x10)

abbrev pub b3_pin_not_entered : Bit
b3_pin_not_entered = (2, 0x08)

abbrev pub b3_online_pin_entered : Bit
b3_online_pin_entered = (2, 0x04)

abbrev pub b4_floor_limit_exceeded : Bit
b4_floor_limit_exceeded = (3, 0x80)

abbrev pub b4_lower_consecutive_offline_limit_exceeded : Bit
b4_lower_consecutive_offline_limit_exceeded = (3, 0x40)

abbrev pub b4_upper_consecutive_offline_limit_exceeded : Bit
b4_upper_consecutive_offline_limit_exceeded = (3, 0x20)

abbrev pub b4_random_transaction_selection_performed : Bit
b4_random_transaction_selection_performed = (3, 0x10)

abbrev pub b4_merchant_forced_transaction_online : Bit
b4_merchant_forced_transaction_online = (3, 0x08)

abbrev pub b5_default_tdol_used : Bit
b5_default_tdol_used = (4, 0x80)

abbrev pub b5_issuer_authentication_failed : Bit
b5_issuer_authentication_failed = (4, 0x40)

abbrev pub b5_script_processing_failed_before_final_gac : Bit
b5_script_processing_failed_before_final_gac = (4, 0x20)

abbrev pub b5_script_processing_failed_after_final_gac : Bit
b5_script_processing_failed_after_final_gac = (4, 0x10)

abbrev pub cleared : Tvr
cleared = record { bytes = 0 ∷ 0 ∷ 0 ∷ 0 ∷ 0 ∷ [] }

-- A bit of a byte out of range changes nothing, and a reserved bit is masked off.
unfoldable pub set : Tvr → Bit → Tvr
set t (index, mask) = elim (get_elem? t.bytes index) [
  | none ↦ t
  | some byte ↦ record {
    bytes = set_elem t.bytes index (bit_or byte (bit_and mask (get_or allowed_masks index 0)));
  }
]

-- `*byte &= !bit.1`
unfoldable pub clear : Tvr → Bit → Tvr
clear t (index, mask) = elim (get_elem? t.bytes index) [
  | none ↦ t
  | some byte ↦ record { bytes = set_elem t.bytes index (bit_and byte (255 - mask)) }
]

unfoldable pub is_set : Tvr → Bit → Bool
is_set t (index, mask) = elim (get_elem? t.bytes index) [
  | none ↦ false
  | some byte ↦ meets byte mask
]

unfoldable pub has_rfu_bits : Tvr → Bool
unfolding any_rfu
has_rfu_bits t = any_rfu t.bytes allowed_masks
