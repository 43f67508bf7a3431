-- ===== src/State/Bitmap.antt =====
-- What the two bitmaps of src/state.rs share: a bit's place, and the test for reserved bits.
use hyperion_x_emv.Base.{ℕ, ◌-◌, Bool, ◌||◌, false, List, ◌∷◌}
use hyperion_x_emv.Base.Bits.{meets}

-- `(usize, u8)`: a byte's index and a mask in it.
abbrev pub Bit : Type 0
Bit = ℕ × ℕ

-- `bytes.iter().zip(masks).any(|(byte, allowed)| byte & !allowed != 0)`
unfoldable pub any_rfu : List ℕ → List ℕ → Bool
any_rfu (byte ∷ bytes) (allowed ∷ masks) = meets byte (255 - allowed) || any_rfu bytes masks
any_rfu _ _ = false
