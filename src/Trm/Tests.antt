-- ===== src/Trm/Tests.antt =====
-- Runs of src/trm.rs, and its theorems at concrete inputs.
use hyperion_x_emv.Base.{
  ◌≡◌, ◌⊎◌, refl, true, false, ◌||◌, [], ◌∷◌, some, length, KernelError, okay, err,
}
use hyperion_x_emv.State.Tvr
use hyperion_x_emv.State.Tvr.{Tvr}
use hyperion_x_emv.State.Tsi
use hyperion_x_emv.State.Marks.{any_condition, reaches}
use hyperion_x_emv.Trm.{
  TransactionTypeFloorLimit, TrmProfile, OfflineCounterSource, TrmInput, TrmResult,
  with_transaction_type_floor_limits, evaluate, repeats_type, exceeds,
}
use hyperion_x_emv.Trm.Spec.{
  conditions, lacks_counter, lacks_sample, evaluate-force_online, is_set-evaluate,
}

abbrev cash : TransactionTypeFloorLimit
cash = record { transaction_type = 1; floor_limit = 500 }

abbrev refund : TransactionTypeFloorLimit
refund = record { transaction_type = 0x20; floor_limit = 0 }

abbrev profile : TrmProfile
profile = record {
  floor_limit = 10000;
  transaction_type_floor_limits = cash ∷ refund ∷ [];
  random_selection_percent = 25;
  lower_consecutive_offline_limit = some 3;
  upper_consecutive_offline_limit = some 5;
}

profile_accepted :
    with_transaction_type_floor_limits 10000 (cash ∷ refund ∷ []) 25 (some 3) (some 5)
    ≡ some profile
unfolding with_transaction_type_floor_limits repeats_type exceeds
profile_accepted = refl

abbrev input : TrmInput
input = record {
  amount_authorized = 20000;
  transaction_type = 0;
  exception_file_match = false;
  merchant_forced_online = false;
  offline_counter = some (record { count = 4; source = OfflineCounterSource.non_volatile });
  random_sample_basis_points = some 9000;
  profile = profile;
}

abbrev result : TrmResult
result = record {
  tvr = record { bytes = 0 ∷ 0 ∷ 0 ∷ 0xc0 ∷ 0 ∷ [] };
  tsi = record { bytes = 0x08 ∷ 0 ∷ [] };
  force_online = true;
}

evaluated : evaluate input Tvr.cleared Tsi.cleared ≡ okay result
unfolding evaluate Tvr.set Tsi.set
evaluated = refl

evaluate-force_online_example :
    ((lacks_counter input || lacks_sample input ≡ true)
      × (evaluate input Tvr.cleared Tsi.cleared ≡ err KernelError.invalid_profile))
    ⊎ ((lacks_counter input || lacks_sample input ≡ false)
        × (r : TrmResult) × (evaluate input Tvr.cleared Tsi.cleared ≡ okay r)
        × (r.force_online ≡ any_condition (conditions input))
        × (r.tsi ≡ Tsi.set Tsi.cleared Tsi.terminal_risk_management_performed))
evaluate-force_online_example = evaluate-force_online input Tvr.cleared Tsi.cleared

is_set-evaluate_example :
    (Tvr.is_set result.tvr (3, 0x80)
      ≡ Tvr.is_set Tvr.cleared (3, 0x80) || reaches (conditions input) (3, 0x80))
    × (length result.tvr.bytes ≡ 5)
is_set-evaluate_example =
    is_set-evaluate input Tvr.cleared Tsi.cleared result (3, 0x80) refl evaluated
