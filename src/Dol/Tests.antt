-- ===== src/Dol/Tests.antt =====
-- Runs of src/dol.rs, and its theorems at concrete inputs.
use hyperion_x_emv.Base.{
  ℕ, ◌≡◌, refl, not, ◌&&◌, List, [], ◌∷◌, KernelError, okay, err, arith, ltb, if◌then◌else◌, ◌=s=◌,
  all,
}
use hyperion_x_emv.Dol.{
  DolEntry, zero_pad_missing_and_short, require_exact_values, is_exact, parse_dol, read_dol_tag,
  build_dol_with_policy, max_dol_output,
}
use hyperion_x_emv.Dol.Store.{DataStore, get, put, new}
use hyperion_x_emv.Dol.Puts.{IsStore, put-IsStore}
use hyperion_x_emv.Dol.Build.{fill, sum_lengths, is_covered, build_dol_with_policy_lem}

abbrev unpredictable_number : List ℕ
unpredictable_number = 0x9f ∷ 0x37 ∷ []

abbrev store : DataStore
store = record { entries = (unpredictable_number, 0xaa ∷ 0xbb ∷ []) ∷ [] }

stored : put new unpredictable_number (0xaa ∷ 0xbb ∷ []) ≡ okay store
unfolding put ◌=s=◌
stored = refl

new-IsStore : IsStore new
new-IsStore = omega arith

put-IsStore_example : IsStore store
put-IsStore_example =
    put-IsStore new store unpredictable_number (0xaa ∷ 0xbb ∷ []) new-IsStore stored

abbrev pdol : List ℕ
pdol = 0x9f ∷ 0x37 ∷ 0x04 ∷ 0x5f ∷ 0x2a ∷ 0x02 ∷ []

abbrev entries : List DolEntry
entries =
    record { tag = unpredictable_number; len = 4 } ∷ record { tag = 0x5f ∷ 0x2a ∷ []; len = 2 } ∷ []

pdol_parses : parse_dol pdol ≡ okay entries
unfolding parse_dol read_dol_tag
pdol_parses = refl

pdol_built :
    build_dol_with_policy entries store zero_pad_missing_and_short
    ≡ okay (0xaa ∷ 0xbb ∷ 0 ∷ 0 ∷ 0 ∷ 0 ∷ [])
unfolding build_dol_with_policy get ◌=s=◌
pdol_built = refl

build_dol_with_policy_lem_example : build_dol_with_policy entries store require_exact_values ≡ (
    if ltb max_dol_output (sum_lengths entries)
    then err KernelError.length_overflow
    else if is_exact require_exact_values && not (all (is_covered store) entries)
    then err KernelError.missing_mandatory_tag
    else okay (fill store entries))
build_dol_with_policy_lem_example = build_dol_with_policy_lem entries store require_exact_values
