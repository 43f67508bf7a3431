-- ===== src/Sw/Contexts.antt =====
-- The status words that end a transaction, by the command (src/sw.rs).
use hyperion_x_emv.Base.{
  ℕ, ◌≡◌, ◌↔◌, refl, Bool, true, false, KernelError, arith, Bool-cases, inl, inr,
}
use hyperion_x_emv.Sw.{StatusWord, is_success, ApduContext, StatusAction, in_context, classify}

-- The error of a command that ends the transaction when it fails; the other commands go on.
abbrev pub fatal : ApduContext → KernelError
fatal ApduContext.select_pse = KernelError.no_common_aid
fatal ApduContext.gpo = KernelError.missing_mandatory_tag
fatal ApduContext.verify = KernelError.invalid_argument
fatal ApduContext.generate_ac = KernelError.card_removed
fatal ApduContext.internal_authenticate = KernelError.invalid_profile
fatal (ApduContext.issuer_script true) = KernelError.script_failed
fatal _ = KernelError.ok

abbrev pub ends : StatusAction → KernelError
ends (StatusAction.fail e) = e
ends _ = KernelError.ok

abbrev pub is_ok : KernelError → Bool
is_ok KernelError.ok = true
is_ok _ = false

abbrev is_success_action : StatusAction → Bool
is_success_action StatusAction.success = true
is_success_action _ = false

-- The action for a status word in a context is no success.
in_context_fails : (c : ApduContext) (a b : ℕ) → is_success_action (in_context c a b) ≡ false
unfolding in_context
in_context_fails ApduContext.select_pse a b = ground arith
in_context_fails ApduContext.select_aid a b = refl
in_context_fails ApduContext.gpo a b = refl
in_context_fails ApduContext.read_record a b = ground arith
in_context_fails ApduContext.verify a b = ground arith
in_context_fails ApduContext.generate_ac a b = refl
in_context_fails ApduContext.internal_authenticate a b = refl
in_context_fails ApduContext.external_authenticate a b = refl
in_context_fails (ApduContext.issuer_script true) a b = ground arith
in_context_fails (ApduContext.issuer_script false) a b = ground arith

-- A command succeeds exactly with the status word 9000, whatever its context.
pub classify-success :
    (c : ApduContext) (sw : StatusWord)
    → (classify c sw ≡ StatusAction.success) ↔ (is_success sw ≡ true)
unfolding classify
classify-success c sw = elim (Bool-cases (is_success sw)) [
  | inl yes_sw ↦ (λ e. yes_sw, λ e. ground (arith, yes_sw))
  | inr no_sw ↦ (
    λ e. absurd (ground (arith, no_sw, in_context_fails c sw.sw1 sw.sw2)),
    λ e. absurd (ground (arith, no_sw)),
  )
]

ends-in_context :
    (c : ApduContext) (a b : ℕ)
    → (is_ok (ends (in_context c a b)) ≡ false)
    → ends (in_context c a b) ≡ fatal c
unfolding in_context
ends-in_context ApduContext.select_pse a b h = ground arith
ends-in_context ApduContext.select_aid a b h = cc
ends-in_context ApduContext.gpo a b h = refl
ends-in_context ApduContext.read_record a b h = ground arith
ends-in_context ApduContext.verify a b h = ground arith
ends-in_context ApduContext.generate_ac a b h = refl
ends-in_context ApduContext.internal_authenticate a b h = refl
ends-in_context ApduContext.external_authenticate a b h = cc
ends-in_context (ApduContext.issuer_script true) a b h = ground arith
ends-in_context (ApduContext.issuer_script false) a b h = ground arith

-- If a status word ends the transaction, it is with the error of its command; so SELECT of an
-- application, READ RECORD, EXTERNAL AUTHENTICATE and non-critical issuer scripts never end it.
pub classify-fatal :
    (c : ApduContext) (sw : StatusWord)
    → is_ok (ends (classify c sw)) ≡ false
    → ends (classify c sw) ≡ fatal c
unfolding classify
classify-fatal c sw h = ground (arith, ends-in_context c sw.sw1 sw.sw2)
