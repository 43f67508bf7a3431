-- ===== src/Issuer/Outcome.antt =====
-- `apply_script_results` of src/issuer.rs, by the bits it sets.
use hyperion_x_emv.Base.{
  ◌≡◌, refl, Bool, false, not, ◌&&◌, ◌||◌, List, [], ◌∷◌, ◌==◌, length, is_empty, any, arith,
  Bool-cases, inl, inr,
}
use hyperion_x_emv.State.Bitmap.{Bit}
use hyperion_x_emv.State.Tvr
use hyperion_x_emv.State.Tsi
use hyperion_x_emv.State.Reads.{is_set-set_tsi}
use hyperion_x_emv.State.Marks.{touches, is_set-set_used}
use hyperion_x_emv.Issuer.{
  ScriptPhase, before_final_generate_ac, after_final_generate_ac, ScriptCommandResult, failed_bit,
  apply_script_results,
}

-- One of the commands was not answered with 9000.
abbrev pub any_failed : List ScriptCommandResult → Bool
any_failed [] = false
any_failed (r ∷ rs) = not (r.sw1 == 0x90 && r.sw2 == 0x00) || any_failed rs

any-any_failed :
    (rs : List ScriptCommandResult)
    → any (λ r. not (r.sw1 == 0x90) || not (r.sw2 == 0x00)) rs ≡ any_failed rs
any-any_failed [] = refl
any-any_failed (r ∷ rs) = ground (arith, any-any_failed rs)

-- The bit of the phase: byte 5, 20 before the final GENERATE AC and 10 after it.
abbrev pub bit_of : ScriptPhase → Bit
bit_of before_final_generate_ac = (4, 0x20)
bit_of after_final_generate_ac = (4, 0x10)

failed_bit-bit_of :
    (phase : ScriptPhase) (t : Tvr.Tvr) (place : Bit)
    → length t.bytes ≡ 5
    → Tvr.is_set (Tvr.set t (failed_bit phase)) place
      ≡ Tvr.is_set t place || touches (bit_of phase) place
unfolding failed_bit
failed_bit-bit_of before_final_generate_ac t place five =
    is_set-set_used t (4, 0x20) place five (refl, refl)
failed_bit-bit_of after_final_generate_ac t place five =
    is_set-set_used t (4, 0x10) place five (refl, refl)

-- The results are kept; the TVR gets the bit of the phase exactly when a command was not answered
-- with 9000, the TSI gets script processing performed exactly when there was a command, and no other bit
-- changes.
pub apply_script_results_lem :
    (phase : ScriptPhase) (rs : List ScriptCommandResult) (t : Tvr.Tvr) (i : Tsi.Tsi) (place : Bit)
    → length t.bytes ≡ 5
    → length i.bytes ≡ 2
    → (Tvr.is_set (apply_script_results phase rs t i).tvr place
        ≡ Tvr.is_set t place || (any_failed rs && touches (bit_of phase) place))
      × (Tsi.is_set (apply_script_results phase rs t i).tsi place
          ≡ Tsi.is_set i place || (not (is_empty rs) && touches (0, 0x04) place))
      × ((apply_script_results phase rs t i).results ≡ rs)
unfolding apply_script_results
apply_script_results_lem phase rs t i place five two = (
  elim (Bool-cases (any_failed rs)) [
    | inl e ↦ ground (arith, any-any_failed rs, e, failed_bit-bit_of phase t place five)
    | inr e ↦ ground (arith, any-any_failed rs, e)
  ],
  elim (Bool-cases (is_empty rs)) [
    | inl e ↦ ground (arith, e)
    | inr e ↦ ground (arith, e, two, is_set-set_tsi i 0 0x04 place.0 place.1)
  ],
  refl,
)
