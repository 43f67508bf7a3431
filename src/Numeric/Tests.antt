-- ===== src/Numeric/Tests.antt =====
-- Runs of src/numeric.rs, and its theorem at a concrete input.
use hyperion_x_emv.Base.{length, ℕ, ◌≡◌, refl, List, [], ◌∷◌, KernelError, okay, err, arith}
use hyperion_x_emv.Numeric.{encode_numeric_bcd_fixed, decode_numeric_bcd_fixed}
use hyperion_x_emv.Numeric.Round.{decode_numeric_bcd_fixed-encode_numeric_bcd_fixed}

-- An amount of 123.45 in six bytes.
abbrev amount : List ℕ
amount = 0 ∷ 0 ∷ 0 ∷ 0x01 ∷ 0x23 ∷ 0x45 ∷ []

amount_encoded : encode_numeric_bcd_fixed 12345 6 ≡ okay amount
unfolding encode_numeric_bcd_fixed
amount_encoded = refl

decode_numeric_bcd_fixed-encode_numeric_bcd_fixed_example :
    (out : List ℕ) × (encode_numeric_bcd_fixed 12345 6 ≡ okay out)
    × (length out ≡ 6)
    × (decode_numeric_bcd_fixed out ≡ okay 12345)
decode_numeric_bcd_fixed-encode_numeric_bcd_fixed_example =
    decode_numeric_bcd_fixed-encode_numeric_bcd_fixed 12345 6 (omega arith) (omega arith)

-- Too many digits for the bytes, and too many bytes for 64 bits.
too_large : encode_numeric_bcd_fixed 100 1 ≡ err KernelError.invalid_argument
unfolding encode_numeric_bcd_fixed
too_large = refl

too_long : encode_numeric_bcd_fixed 0 10 ≡ err KernelError.length_overflow
unfolding encode_numeric_bcd_fixed
too_long = refl

not_decimal : decode_numeric_bcd_fixed (0x1a ∷ []) ≡ err KernelError.parse_error
unfolding decode_numeric_bcd_fixed
not_decimal = refl
