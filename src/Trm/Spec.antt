-- ===== src/Trm/Spec.antt =====
-- What the terminal risk management of src/trm.rs marks and when it refuses.
use hyperion_x_emv.Base.{
  ℕ, ◌*◌, ◌≡◌, refl, ap, Bool, true, false, not, ◌&&◌, ◌||◌, List, [], ◌∷◌, Option, some, none, ltb,
  ◌==◌, if◌then◌else◌, length, is_some, KernelError, okay, err, arith, All, Option-cases,
  Bool-cases, ◌⊎◌, inl, inr, ◌∙◌, sym,
}
use hyperion_x_emv.State.Bitmap.{Bit}
use hyperion_x_emv.State.Tvr
use hyperion_x_emv.State.Tvr.{Tvr}
use hyperion_x_emv.State.Tsi
use hyperion_x_emv.State.Tsi.{Tsi}
use hyperion_x_emv.State.Marks.{
  mark_all, any_condition, reaches, IsUsedMark, flag-mark_all, length-mark_all, is_set-mark_all,
}
use hyperion_x_emv.Trm.{
  TrmProfile, TrmInput, TrmResult, is_volatile, exceeds, floor_limit_for_transaction_type,
  requires_terminal_offline_counter, offline_count_for_profile, random_selection_triggered,
  evaluate,
}

-- A limit is set and there is no counter, or only a volatile one.
abbrev pub lacks_counter : TrmInput → Bool
lacks_counter input =
    requires_terminal_offline_counter input.profile
    && elim input.offline_counter [ none ↦ true | some counter ↦ is_volatile counter.source ]

-- A sample is out of range, or there is none although some transactions are to be selected.
abbrev pub lacks_sample : TrmInput → Bool
lacks_sample input = elim input.random_sample_basis_points [
  | none ↦ not (input.profile.random_selection_percent == 0)
  | some sample ↦ ltb 9999 sample
]

-- The counter is above the limit, if that is set.
abbrev pub counts_above : TrmInput → Option ℕ → Bool
counts_above input none = false
counts_above input (some limit) = elim input.offline_counter [
  | none ↦ false
  | some counter ↦ ltb limit counter.count
]

abbrev pub is_selected : TrmInput → Bool
is_selected input = elim input.random_sample_basis_points [
  | none ↦ false
  | some sample ↦ ltb sample (input.profile.random_selection_percent * 100)
]

-- The conditions in the order of the source, each with the bit that it sets.
abbrev pub conditions : TrmInput → List (Bool × Bit)
conditions input =
    (input.exception_file_match, Tvr.b1_card_on_exception_file)
    ∷ (
      ltb (floor_limit_for_transaction_type input.profile input.transaction_type)
          input.amount_authorized,
      Tvr.b4_floor_limit_exceeded,
    )
    ∷ (
      counts_above input input.profile.lower_consecutive_offline_limit,
      Tvr.b4_lower_consecutive_offline_limit_exceeded,
    )
    ∷ (
      counts_above input input.profile.upper_consecutive_offline_limit,
      Tvr.b4_upper_consecutive_offline_limit_exceeded,
    )
    ∷ (is_selected input, Tvr.b4_random_transaction_selection_performed)
    ∷ (input.merchant_forced_online, Tvr.b4_merchant_forced_transaction_online)
    ∷ []

conditions-IsUsed : (input : TrmInput) → All IsUsedMark (conditions input)
conditions-IsUsed input = (
  (refl, refl),
  ((refl, refl), ((refl, refl), ((refl, refl), ((refl, refl), ((refl, refl), tt))))),
)

offline_count_lem :
    (input : TrmInput)
    → offline_count_for_profile input.profile input.offline_counter ≡ (
        if lacks_counter input
        then err KernelError.invalid_profile
        else okay (
            if requires_terminal_offline_counter input.profile
            then elim input.offline_counter [ none ↦ none | some counter ↦ some counter.count ]
            else none))
unfolding offline_count_for_profile
offline_count_lem input = elim (Option-cases input.offline_counter) [
  | inl e ↦ ground (arith, e)
  | inr (counter, e) ↦ ground (arith, e)
]

random_selection_lem :
    (input : TrmInput)
    → random_selection_triggered input.profile.random_selection_percent
        input.random_sample_basis_points
      ≡ (if lacks_sample input then err KernelError.invalid_profile else okay (is_selected input))
unfolding random_selection_triggered exceeds
random_selection_lem input = elim (Option-cases input.random_sample_basis_points) [
  | inl e ↦ ground (arith, e)
  | inr (sample, e) ↦ ground (arith, e)
]

-- The count that the source compares with the limits.
abbrev count_used : TrmInput → Option ℕ
count_used input =
    if requires_terminal_offline_counter input.profile
    then elim input.offline_counter [ none ↦ none | some counter ↦ some counter.count ]
    else none

counts_lem :
    (input : TrmInput) (limit : Option ℕ)
    → (is_some limit ≡ true → requires_terminal_offline_counter input.profile ≡ true)
    → exceeds (count_used input) limit ≡ counts_above input limit
unfolding exceeds
counts_lem input none h = elim (Option-cases (count_used input)) [
  | inl e ↦ ground (arith, e)
  | inr (n, e) ↦ ground (arith, e)
]
counts_lem input (some limit) h = elim (Option-cases input.offline_counter) [
  | inl e ↦ ground (arith, e, h refl)
  | inr (counter, e) ↦ ground (arith, e, h refl)
]

lower_requires :
    (profile : TrmProfile)
    → is_some profile.lower_consecutive_offline_limit ≡ true
    → requires_terminal_offline_counter profile ≡ true
unfolding requires_terminal_offline_counter
lower_requires profile h = ground arith

upper_requires :
    (profile : TrmProfile)
    → is_some profile.upper_consecutive_offline_limit ≡ true
    → requires_terminal_offline_counter profile ≡ true
unfolding requires_terminal_offline_counter
upper_requires profile h = ground arith

abbrev expected : TrmInput → Tvr → Tsi → TrmResult
expected input tvr tsi = record {
  tvr = (mark_all (conditions input) (tvr, false)).0;
  tsi = Tsi.set tsi Tsi.terminal_risk_management_performed;
  force_online = (mark_all (conditions input) (tvr, false)).1;
}

evaluate-expected :
    (input : TrmInput) (tvr : Tvr) (tsi : Tsi)
    → evaluate input tvr tsi ≡ (
        if lacks_counter input || lacks_sample input
        then err KernelError.invalid_profile
        else okay (expected input tvr tsi))
unfolding evaluate
evaluate-expected input tvr tsi =
    let by_count = offline_count_lem input in
    let by_sample = random_selection_lem input in
    let by_lower =
      counts_lem input input.profile.lower_consecutive_offline_limit
        (lower_requires input.profile) in
    let by_upper =
      counts_lem input input.profile.upper_consecutive_offline_limit
        (upper_requires input.profile) in
    elim (Bool-cases (lacks_counter input)) [
      | inl bad ↦ rw (by_count, bad) refl
      | inr good ↦ elim (Bool-cases (lacks_sample input)) [
        | inl bad ↦ rw (by_count, good, by_sample, bad) refl
        | inr fine ↦ rw (by_count, good, by_sample, fine, by_lower, by_upper) refl
      ]
    ]

-- Terminal risk management fails, with an invalid profile, exactly when a consecutive-offline limit
-- is set and there is no non-volatile counter, or the random sample is out of range or missing.
-- Otherwise the transaction is forced online exactly when one of the six conditions holds.
pub evaluate-force_online :
    (input : TrmInput) (tvr : Tvr) (tsi : Tsi)
    → ((lacks_counter input || lacks_sample input ≡ true)
        × (evaluate input tvr tsi ≡ err KernelError.invalid_profile))
      ⊎ ((lacks_counter input || lacks_sample input ≡ false)
          × (r : TrmResult) × (evaluate input tvr tsi ≡ okay r)
          × (r.force_online ≡ any_condition (conditions input))
          × (r.tsi ≡ Tsi.set tsi Tsi.terminal_risk_management_performed))
evaluate-force_online input tvr tsi =
    elim (Bool-cases (lacks_counter input || lacks_sample input)) [
      | inl bad ↦ inl (bad, evaluate-expected input tvr tsi ∙ rw bad refl)
      | inr good ↦ inr (
        good,
        expected input tvr tsi,
        evaluate-expected input tvr tsi ∙ rw good refl,
        flag-mark_all (conditions input) (tvr, false),
        refl,
      )
    ]

-- After terminal risk management a TVR of five bytes reads, at any place, as before or as the bits
-- of the conditions that hold: exception file, floor limit, lower and upper consecutive-offline
-- limit, random selection, merchant. It still has five bytes.
pub is_set-evaluate :
    (input : TrmInput) (tvr : Tvr) (tsi : Tsi) (r : TrmResult) (place : Bit)
    → length tvr.bytes ≡ 5
    → evaluate input tvr tsi ≡ okay r
    → (Tvr.is_set r.tvr place ≡ Tvr.is_set tvr place || reaches (conditions input) place)
      × (length r.tvr.bytes ≡ 5)
is_set-evaluate input tvr tsi r place five e =
    elim (Bool-cases (lacks_counter input || lacks_sample input)) [
      | inl bad ↦ absurd (ground (arith, evaluate-expected input tvr tsi))
      | inr good ↦
          let same : expected input tvr tsi ≡ r = ground (arith, evaluate-expected input tvr tsi) in
          (
            ap (λ x. Tvr.is_set x.tvr place) (sym same)
                ∙ is_set-mark_all (conditions input) (tvr, false) place five
                    (conditions-IsUsed input),
            ap (λ x. length x.tvr.bytes) (sym same)
                ∙ length-mark_all (conditions input) (tvr, false)
                ∙ five,
          )
    ]
