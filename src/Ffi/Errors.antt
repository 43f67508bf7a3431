-- ===== src/Ffi/Errors.antt =====
-- The codes of src/error.rs, as callbacks report them.
use hyperion_x_emv.Base.{
  ℕ, ◌≡◌, ◌↔◌, refl, List, [], ◌∷◌, Option, some, none, ◌==◌, if◌then◌else◌, arith, KernelError,
  ◌∙◌, ap, sym, Bool-cases, inl, inr,
}

abbrev pub error_code : KernelError → ℕ
error_code KernelError.ok = 0
error_code KernelError.invalid_argument = 1
error_code KernelError.buffer_too_small = 2
error_code KernelError.parse_error = 3
error_code KernelError.length_overflow = 4
error_code KernelError.unsupported_cda_request = 5
error_code KernelError.invalid_profile = 6
error_code KernelError.missing_mandatory_tag = 7
error_code KernelError.no_common_aid = 8
error_code KernelError.card_removed = 9
error_code KernelError.host_timeout = 10
error_code KernelError.script_failed = 11
error_code KernelError.busy = 12
error_code KernelError.rng_failure = 13
error_code KernelError.internal_error = 255

abbrev pub error_table : List KernelError
error_table =
    KernelError.ok ∷ KernelError.invalid_argument ∷ KernelError.buffer_too_small
    ∷ KernelError.parse_error ∷ KernelError.length_overflow ∷ KernelError.unsupported_cda_request
    ∷ KernelError.invalid_profile ∷ KernelError.missing_mandatory_tag ∷ KernelError.no_common_aid
    ∷ KernelError.card_removed ∷ KernelError.host_timeout ∷ KernelError.script_failed
    ∷ KernelError.busy ∷ KernelError.rng_failure ∷ KernelError.internal_error ∷ []

unfoldable pub find_code : List KernelError → ℕ → Option KernelError
find_code [] n = none
find_code (e ∷ es) n = if error_code e == n then some e else find_code es n

unfoldable pub from_code : ℕ → Option KernelError
unfolding find_code
from_code n = find_code error_table n

find_code_sound :
    (es : List KernelError) (n : ℕ) (e : KernelError) → find_code es n ≡ some e → error_code e ≡ n
unfolding find_code
find_code_sound [] n e h = cc
find_code_sound (x ∷ es) n e h = elim (Bool-cases (error_code x == n)) [
  | inl p ↦ let same : x ≡ e = ground (arith, p) in sym (ap error_code same) ∙ ground (arith, p)
  | inr p ↦ find_code_sound es n e (ground (arith, p))
]

-- A code stands for an error exactly when it is the error's code.
pub from_code-error_code : (n : ℕ) (e : KernelError) → (from_code n ≡ some e) ↔ (error_code e ≡ n)
from_code-error_code n e =
    (unfold from_code in find_code_sound error_table n e, λ h. ap from_code (sym h) ∙ own e)
  where
    own : (e : KernelError) → from_code (error_code e) ≡ some e
    own KernelError.ok = unfold from_code find_code in refl
    own KernelError.invalid_argument = unfold from_code find_code in refl
    own KernelError.buffer_too_small = unfold from_code find_code in refl
    own KernelError.parse_error = unfold from_code find_code in refl
    own KernelError.length_overflow = unfold from_code find_code in refl
    own KernelError.unsupported_cda_request = unfold from_code find_code in refl
    own KernelError.invalid_profile = unfold from_code find_code in refl
    own KernelError.missing_mandatory_tag = unfold from_code find_code in refl
    own KernelError.no_common_aid = unfold from_code find_code in refl
    own KernelError.card_removed = unfold from_code find_code in refl
    own KernelError.host_timeout = unfold from_code find_code in refl
    own KernelError.script_failed = unfold from_code find_code in refl
    own KernelError.busy = unfold from_code find_code in refl
    own KernelError.rng_failure = unfold from_code find_code in refl
    own KernelError.internal_error = unfold from_code find_code in refl
