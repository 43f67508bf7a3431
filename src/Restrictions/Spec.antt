-- ===== src/Restrictions/Spec.antt =====
-- What the processing restrictions of src/restrictions.rs mark.
use hyperion_x_emv.Base.{
  ◌≡◌, refl, ap, Bool, true, false, not, ◌||◌, List, [], ◌∷◌, some, none, length, All, ◌∙◌,
}
use hyperion_x_emv.State.Bitmap.{Bit}
use hyperion_x_emv.State.Tvr
use hyperion_x_emv.State.Tvr.{Tvr}
use hyperion_x_emv.State.Marks.{
  mark, mark_all, any_condition, reaches, IsUsedMark, flag-mark_all, length-mark_all,
  is_set-mark_all,
}
use hyperion_x_emv.Restrictions.{
  RestrictionInput, restriction_check_order, before, allows, precedes, versions_differ, then_some,
  tvr_bit, run_checks, evaluate,
}

-- The conditions in the order of the source, each with the bit that it sets.
abbrev pub conditions : RestrictionInput → List (Bool × Bit)
conditions input =
    (
      versions_differ input.card_application_version input.terminal_application_version,
      Tvr.b2_different_application_versions,
    )
    ∷ (before input.application_expiration_date input.transaction_date, Tvr.b2_expired_application)
    ∷ (
      precedes input.transaction_date input.application_effective_date,
      Tvr.b2_application_not_yet_effective,
    )
    ∷ (
      not (allows input.auc input.region input.service input.terminal_channel),
      Tvr.b2_requested_service_not_allowed,
    )
    ∷ (input.new_card, Tvr.b2_new_card)
    ∷ []

conditions-IsUsed : (input : RestrictionInput) → All IsUsedMark (conditions input)
conditions-IsUsed input =
    ((refl, refl), ((refl, refl), ((refl, refl), ((refl, refl), ((refl, refl), tt)))))

set_if :
    (c : Bool) (bit : Bit) (s : Tvr × Bool)
    → elim (then_some c bit) [ none ↦ s | some b ↦ (Tvr.set s.0 b, true) ] ≡ mark c bit s
unfolding mark
set_if true bit s = refl
set_if false bit s = refl

run_checks_all :
    (input : RestrictionInput) (s : Tvr × Bool)
    → run_checks restriction_check_order input s ≡ mark_all (conditions input) s
unfolding run_checks tvr_bit
run_checks_all input s = rw (set_if, set_if, set_if, set_if, set_if) refl

-- The processing restrictions fail exactly when the application versions differ, the application
-- has expired or is not yet effective, the service is not allowed, or the card is new; a TVR of five
-- bytes then reads, at any place, as before or as the bits of the conditions that hold.
pub evaluate-any_condition :
    (input : RestrictionInput) (tvr : Tvr) (place : Bit)
    → length tvr.bytes ≡ 5
    → ((evaluate input tvr).failed ≡ any_condition (conditions input))
      × (Tvr.is_set (evaluate input tvr).tvr place
          ≡ Tvr.is_set tvr place || reaches (conditions input) place)
      × (length (evaluate input tvr).tvr.bytes ≡ 5)
unfolding evaluate
evaluate-any_condition input tvr place five =
    let run = run_checks_all input (tvr, false) in
    (
      ap (λ s. s.1) run ∙ flag-mark_all (conditions input) (tvr, false),
      ap (λ s. Tvr.is_set s.0 place) run
          ∙ is_set-mark_all (conditions input) (tvr, false) place five (conditions-IsUsed input),
      ap (λ s. length s.0.bytes) run ∙ length-mark_all (conditions input) (tvr, false) ∙ five,
    )
