-- ===== src/Config/Tests.antt =====
-- Runs of src/config.rs, src/aip.rs and src/transaction.rs, and their theorems at concrete inputs.
use hyperion_x_emv.Base.{ℕ, ◌≡◌, refl, true, [], ◌∷◌, none, KernelError, okay, err, ◌=s=◌}
use hyperion_x_emv.Taa.{spec_defaults}
use hyperion_x_emv.Config.{
  SchemeProfile, reject_duplicate_scheme_rids, oda_required, parse_currency_exponent,
  runtime_service, RuntimeService, cvm_transaction_class, CvmTransactionClass,
}

abbrev scheme : ℕ → SchemeProfile
scheme last = record {
  scheme_name = [];
  rid = 0xa0 ∷ 0 ∷ 0 ∷ 0 ∷ last ∷ [];
  kernel_type = [];
  contact_kernel_type = none;
  taa = spec_defaults;
  aids = [];
  capks = [];
}

two_schemes_pass : reject_duplicate_scheme_rids (scheme 3 ∷ scheme 4 ∷ []) ≡ okay tt
unfolding reject_duplicate_scheme_rids ◌=s=◌
two_schemes_pass = refl

twice_refused :
    reject_duplicate_scheme_rids (scheme 3 ∷ scheme 3 ∷ []) ≡ err KernelError.invalid_profile
unfolding reject_duplicate_scheme_rids ◌=s=◌
twice_refused = refl

long_exponent : parse_currency_exponent (10 ∷ []) ≡ err KernelError.invalid_argument
unfolding parse_currency_exponent
long_exponent = refl

cash_type : runtime_service 0x01 ≡ RuntimeService.cash
unfolding runtime_service
cash_type = refl

atm_class : cvm_transaction_class 0x09 true ≡ CvmTransactionClass.unattended_cash
unfolding cvm_transaction_class
atm_class = refl

cda_only : oda_required (record { raw = 0x00 ∷ 0x80 ∷ [] }) ≡ true
unfolding oda_required
cda_only = refl
