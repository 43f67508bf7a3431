-- ===== src/Record/Tests.antt =====
-- Runs of src/record.rs, and its theorems at concrete inputs.
use hyperion_x_emv.Base.{
  ℕ, ◌≡◌, ◌↔◌, refl, true, List, [], ◌∷◌, ◌++◌, some, KernelError, okay, err, arith, ◌=s=◌,
}
use hyperion_x_emv.Tlv.{parse_many, read_tag, read_length}
use hyperion_x_emv.Dol.Store.{DataStore, get, put, new}
use hyperion_x_emv.Dol.Puts.{IsStore}
use hyperion_x_emv.Numeric.{nibbles}
use hyperion_x_emv.Record.{
  is_non_card_record_tag, pan_digits_from_5a, pan_digits_from_track2, parse_track2_equivalent_data,
  parse_read_record_body,
}
use hyperion_x_emv.Record.Track2.{IsLaidOut, summary_of, parse_track2_equivalent_data_lem}
use hyperion_x_emv.Record.Pan.{parse_read_record_body-pans}
use hyperion_x_emv.Record.Effects.{
  Taken, parse_read_record_body_keeps, parse_read_record_body-Taken,
}

abbrev pan_value : List ℕ
pan_value = 0x12 ∷ 0x34 ∷ 0x5f ∷ []

abbrev track2_value : List ℕ
track2_value = 0x12 ∷ 0x34 ∷ 0x5d ∷ 0x31 ∷ 0x12 ∷ 0x20 ∷ 0x1f ∷ []

abbrev body : List ℕ
body = 0x70 ∷ 0x0e ∷ 0x5a ∷ 0x03 ∷ (pan_value ++ (0x57 ∷ 0x07 ∷ track2_value))

abbrev stored : DataStore
stored = record { entries = (0x5a ∷ [], pan_value) ∷ (0x57 ∷ [], track2_value) ∷ [] }

body_taken : parse_read_record_body body new ≡ (stored, okay 2)
unfolding parse_read_record_body parse_many read_tag read_length ◌=s=◌ put pan_digits_from_5a
    pan_digits_from_track2 nibbles
body_taken = refl

abbrev conflicting : DataStore
conflicting = record { entries = (0x5a ∷ [], 0x99 ∷ []) ∷ [] }

body_conflicts :
    parse_read_record_body body conflicting ≡ (conflicting, err KernelError.parse_error)
unfolding parse_read_record_body parse_many read_tag read_length ◌=s=◌ put
body_conflicts = refl

new-IsStore : IsStore new
new-IsStore = omega arith

conflicting_pan : get conflicting (0x5a ∷ []) ≡ some (0x99 ∷ [])
unfolding get ◌=s=◌
conflicting_pan = refl

parse_read_record_body_keeps_example :
    get (parse_read_record_body body conflicting).0 (0x5a ∷ []) ≡ some (0x99 ∷ [])
parse_read_record_body_keeps_example =
    parse_read_record_body_keeps body conflicting (0x5a ∷ []) (0x99 ∷ []) conflicting_pan

tvr_not_card : is_non_card_record_tag (0x95 ∷ []) ≡ true
unfolding is_non_card_record_tag ◌=s=◌
tvr_not_card = refl

parse_read_record_body-Taken_example : Taken body new stored 2
parse_read_record_body-Taken_example = parse_read_record_body-Taken body new stored 2 body_taken

parse_read_record_body-pans_example :
    (ds : List ℕ) × (pan_digits_from_5a pan_value ≡ okay ds)
    × (pan_digits_from_track2 track2_value ≡ okay ds)
parse_read_record_body-pans_example =
    parse_read_record_body-pans body new stored 2 pan_value track2_value body_taken read_pan
      read_track2
  where
    read_pan : get stored (0x5a ∷ []) ≡ some pan_value
    read_pan = unfold get ◌=s=◌ in refl

    read_track2 : get stored (0x57 ∷ []) ≡ some track2_value
    read_track2 = unfold get ◌=s=◌ in refl

abbrev pan : List ℕ
pan = 1 ∷ 2 ∷ 3 ∷ 4 ∷ 5 ∷ []

abbrev digits : List ℕ
digits = 3 ∷ 1 ∷ 1 ∷ 2 ∷ 2 ∷ 0 ∷ 1 ∷ []

parse_track2_equivalent_data_lem_example :
    (parse_track2_equivalent_data track2_value ≡ okay (summary_of pan digits 1)) ↔ (
      (p ds : List ℕ) × (k : ℕ) × IsLaidOut (nibbles track2_value) p ds k
      × (summary_of pan digits 1 ≡ summary_of p ds k))
parse_track2_equivalent_data_lem_example =
    parse_track2_equivalent_data_lem track2_value (summary_of pan digits 1)

track2_accepted : parse_track2_equivalent_data track2_value ≡ okay (summary_of pan digits 1)
unfolding parse_track2_equivalent_data nibbles
track2_accepted = refl
