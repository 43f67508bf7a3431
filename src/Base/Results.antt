-- ===== src/Base/Results.antt =====
-- src/error.rs: the kernel's error codes and its `KernelResult`, with `?` as the monad's bind.
use mathlib.Core.Path.{◌≡◌, refl}
use mathlib.Core.Bool.{Bool, true, false}
use mathlib.Core.Logic.{◌⊎◌, inl, inr}
use mathlib.Core.Option.{Option, none, some}

pub data KernelError : Type 0 where
  ok invalid_argument buffer_too_small parse_error length_overflow : KernelError
  unsupported_cda_request invalid_profile missing_mandatory_tag no_common_aid : KernelError
  card_removed host_timeout script_failed busy rng_failure internal_error : KernelError

pub data KernelResult {ℓ} (A : Type ℓ) : Type ℓ where
  okay : A → KernelResult A
  err : KernelError → KernelResult A

infixl 5 ◌>>=◌ ◌>>◌
abbrev pub ◌>>=◌ {ℓ κ} :
    {A : Type ℓ} {B : Type κ} → KernelResult A → (A → KernelResult B) → KernelResult B
okay a >>= f = f a
err e >>= f = err e

abbrev pub ◌>>◌ {ℓ} : {B : Type ℓ} → KernelResult (Unit {0}) → KernelResult B → KernelResult B
m >> k = m >>= λ _. k

-- `if bad { return Err(e); }`
abbrev pub fail_if : Bool → KernelError → KernelResult (Unit {0})
fail_if true e = err e
fail_if false e = okay tt

-- `option.ok_or(e)`
abbrev pub ok_or {ℓ} : {A : Type ℓ} → Option A → KernelError → KernelResult A
ok_or (some a) e = okay a
ok_or none e = err e

pub >>=-eq-okay {ℓ κ} :
    {A : Type ℓ} {B : Type κ} (m : KernelResult A) (f : A → KernelResult B) {b : B}
    → (m >>= f) ≡ okay b
    → (a : A) × (m ≡ okay a) × (f a ≡ okay b)
>>=-eq-okay (okay a) f h = (a, refl, h)
>>=-eq-okay (err e) f h = cc

pub KernelResult-cases {ℓ} :
    {A : Type ℓ} (r : KernelResult A) → ((a : A) × (r ≡ okay a)) ⊎ ((e : KernelError) × (r ≡ err e))
KernelResult-cases (okay a) = inl (a, refl)
KernelResult-cases (err e) = inr (e, refl)
