-- ===== src/Numeric.antt =====
-- src/numeric.rs: numeric fields in BCD, two digits a byte.
pub mod Round
mod Tests
use hyperion_x_emv.Base.{
  ℕ, zero, suc, ◌+◌, ◌*◌, ◌/◌, ◌%◌, ◌^◌, bit_and, bit_or, Bool, true, false, List, [], ◌∷◌, ltb,
  leb, ◌==◌, if◌then◌else◌, set, get_or, replicate, all, KernelError, KernelResult, okay, err,
  ◌>>=◌, ◌>>◌, fail_if,
}

-- The loop over the digits' indices, from the last one down.
unfoldable pub encode_from : ℕ → List ℕ → ℕ → List ℕ
encode_from zero out remaining = out
encode_from (suc index) out remaining =
    let digit = remaining % 10 in
    let shifted = if index % 2 == 0 then digit * 2 ^ 4 else digit in
    encode_from index (set out (index / 2) (bit_or (get_or out (index / 2) 0) shifted))
      (remaining / 10)

-- `checked_mul` on `usize`, the cast to `u32`, and `checked_pow` on `u64` are written out.
unfoldable pub encode_numeric_bcd_fixed : ℕ → ℕ → KernelResult (List ℕ)
unfolding encode_from
encode_numeric_bcd_fixed value bytes = do
  fail_if (leb (2 ^ 64) (bytes * 2)) KernelError.length_overflow
  fail_if (leb (2 ^ 64) (10 ^ (bytes * 2 % 2 ^ 32))) KernelError.length_overflow
  fail_if (leb (10 ^ (bytes * 2 % 2 ^ 32)) value) KernelError.invalid_argument
  okay (encode_from (bytes * 2) (replicate bytes 0) value)

-- `flat_map(|byte| [byte >> 4, byte & 0x0f])`
unfoldable pub nibbles : List ℕ → List ℕ
nibbles [] = []
nibbles (byte ∷ bytes) = byte / 2 ^ 4 ∷ bit_and byte 0x0f ∷ nibbles bytes

unfoldable pub bcd_digits : List ℕ → KernelResult (List ℕ)
unfolding nibbles
bcd_digits bytes =
    if all (λ digit. leb digit 9) (nibbles bytes)
    then okay (nibbles bytes)
    else err KernelError.parse_error

-- `checked_mul` and `checked_add` on `u64`, folded over the digits.
unfoldable pub fold_digits : ℕ → List ℕ → KernelResult ℕ
fold_digits value [] = okay value
fold_digits value (digit ∷ digits) =
    let rest = fold_digits (value * 10 + digit) digits in
    if leb (2 ^ 64) (value * 10)
    then err KernelError.length_overflow
    else if leb (2 ^ 64) (value * 10 + digit)
    then err KernelError.length_overflow
    else rest

unfoldable pub decode_numeric_bcd_fixed : List ℕ → KernelResult ℕ
unfolding bcd_digits fold_digits
decode_numeric_bcd_fixed bytes = do digits ← bcd_digits bytes; fold_digits 0 digits
