-- ===== src/State/Tsi.antt =====
-- `Tsi` of src/state.rs: the transaction status information, two bytes of bits.
use hyperion_x_emv.Base.{
  ℕ, bit_and, bit_or, Bool, false, List, [], ◌∷◌, none, some, get_elem?, set as set_elem, get_or,
}
use hyperion_x_emv.Base.Bits.{meets}
use hyperion_x_emv.State.Bitmap.{Bit, any_rfu}

pub record Tsi : Type 0 where
  pub bytes : List ℕ

-- The bits in use, byte by byte; all others are reserved for future use.
abbrev pub allowed_masks : List ℕ
allowed_masks = 0xfc ∷ 0x00 ∷ []

abbrev pub offline_data_authentication_performed : Bit
offline_data_authentication_performed = (0, 0x80)

abbrev pub cardholder_verification_performed : Bit
cardholder_verification_performed = (0, 0x40)

abbrev pub card_risk_management_performed : Bit
card_risk_management_performed = (0, 0x20)

abbrev pub issuer_authentication_performed : Bit
issuer_authentication_performed = (0, 0x10)

abbrev pub terminal_risk_management_performed : Bit
terminal_risk_management_performed = (0, 0x08)

abbrev pub script_processing_performed : Bit
script_processing_performed = (0, 0x04)

abbrev pub cleared : Tsi
cleared = record { bytes = 0 ∷ 0 ∷ [] }

-- A bit of a byte out of range changes nothing, and a reserved bit is masked off.
unfoldable pub set : Tsi → Bit → Tsi
set t (index, mask) = elim (get_elem? t.bytes index) [
  | none ↦ t
  | some byte ↦ record {
    bytes = set_elem t.bytes index (bit_or byte (bit_and mask (get_or allowed_masks index 0)));
  }
]

unfoldable pub is_set : Tsi → Bit → Bool
is_set t (index, mask) = elim (get_elem? t.bytes index) [
  | none ↦ false
  | some byte ↦ meets byte mask
]

unfoldable pub has_rfu_bits : Tsi → Bool
unfolding any_rfu
has_rfu_bits t = any_rfu t.bytes allowed_masks
