-- ===== src/Afl/Tests.antt =====
-- Runs of src/afl.rs, and its theorems at concrete inputs.
use hyperion_x_emv.Base.{
  ℕ, ◌≡◌, ◌≤◌, refl, List, [], ◌∷◌, length, KernelError, okay, err, All, arith, true, false,
}
use hyperion_x_emv.Afl.{AflEntry, RecordLocator, parse_afl, record_plan}
use hyperion_x_emv.Afl.Entries.{IsEntry, encode_afl, parse_afl_sound, parse_afl_complete}
use hyperion_x_emv.Afl.Plan.{all_records, EachOnce, record_plan_sound}

abbrev input : List ℕ
input = 0x08 ∷ 1 ∷ 2 ∷ 1 ∷ 0x10 ∷ 1 ∷ 1 ∷ 0 ∷ []

abbrev entries : List AflEntry
entries =
    record { sfi = 1; first_record = 1; last_record = 2; offline_auth_record_count = 1 }
    ∷ record { sfi = 2; first_record = 1; last_record = 1; offline_auth_record_count = 0 }
    ∷ []

parsed : parse_afl input ≡ okay entries
unfolding parse_afl
parsed = refl

entries-IsEntry : All IsEntry entries
entries-IsEntry = (parse_afl_sound input entries (omega arith) parsed).1

parse_afl_complete_example : parse_afl (encode_afl entries) ≡ okay entries
parse_afl_complete_example = parse_afl_complete entries entries-IsEntry (omega arith) (omega arith)

abbrev plan : List RecordLocator
plan =
    record { sfi = 1; number = 1; contributes_to_offline_auth = true }
    ∷ record { sfi = 1; number = 2; contributes_to_offline_auth = false }
    ∷ record { sfi = 2; number = 1; contributes_to_offline_auth = false }
    ∷ []

planned : record_plan entries ≡ okay plan
unfolding record_plan
planned = refl

-- Two entries with a common record are refused.
overlap_refused :
    record_plan (
      record { sfi = 1; first_record = 1; last_record = 3; offline_auth_record_count = 0 }
      ∷ record { sfi = 1; first_record = 3; last_record = 4; offline_auth_record_count = 0 }
      ∷ [])
    ≡ err KernelError.parse_error
unfolding record_plan
overlap_refused = refl

record_plan_sound_example : (plan ≡ all_records entries) × EachOnce [] plan × (length plan ≤ 256)
record_plan_sound_example = record_plan_sound entries plan entries-IsEntry planned
