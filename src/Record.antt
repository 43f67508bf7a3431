-- ===== src/Record.antt =====
-- src/record.rs: the body of READ RECORD, written to the data store, with track 2 data and the PAN.
pub mod Track2
pub mod Store
pub mod Children
pub mod Effects
pub mod Pan
mod Tests
use hyperion_x_emv.Base.{
  ℕ, zero, suc, ◌+◌, ◌-◌, ◌/◌, ◌^◌, Bool, true, false, not, ◌&&◌, ◌||◌, List, [], ◌∷◌, ◌++◌, Option,
  some, none, ltb, leb, ◌==◌, ◌=s=◌, if◌then◌else◌, length, is_empty, any, is_some, KernelError,
  KernelResult, okay, err, ◌>>=◌, ◌>>◌, fail_if,
}
use hyperion_x_emv.Tlv.{Tlv, Tlvs, node, nil, cons, parse_many}
use hyperion_x_emv.Dol.Store.{DataStore, get, get_from, put}
use hyperion_x_emv.Numeric.{nibbles}

abbrev pub terminal_or_kernel_record_tags : List (List ℕ)
terminal_or_kernel_record_tags =
    (0x5f ∷ 0x2a ∷ [])
    ∷ (0x5f ∷ 0x36 ∷ [])
    ∷ (0x95 ∷ [])
    ∷ (0x9a ∷ [])
    ∷ (0x9b ∷ [])
    ∷ (0x9c ∷ [])
    ∷ (0x9f ∷ 0x02 ∷ [])
    ∷ (0x9f ∷ 0x03 ∷ [])
    ∷ (0x9f ∷ 0x15 ∷ [])
    ∷ (0x9f ∷ 0x1a ∷ [])
    ∷ (0x9f ∷ 0x1e ∷ [])
    ∷ (0x9f ∷ 0x33 ∷ [])
    ∷ (0x9f ∷ 0x34 ∷ [])
    ∷ (0x9f ∷ 0x35 ∷ [])
    ∷ (0x9f ∷ 0x37 ∷ [])
    ∷ (0x9f ∷ 0x40 ∷ [])
    ∷ (0x9f ∷ 0x4e ∷ [])
    ∷ (0x9f ∷ 0x66 ∷ [])
    ∷ []

abbrev pub host_or_issuer_response_record_tags : List (List ℕ)
host_or_issuer_response_record_tags =
    (0x89 ∷ []) ∷ (0x8a ∷ []) ∷ (0x86 ∷ []) ∷ (0x91 ∷ []) ∷ (0x9f ∷ 0x18 ∷ []) ∷ []

abbrev pub generate_ac_or_dynamic_auth_record_tags : List (List ℕ)
generate_ac_or_dynamic_auth_record_tags =
    (0x9f ∷ 0x26 ∷ [])
    ∷ (0x9f ∷ 0x27 ∷ [])
    ∷ (0x9f ∷ 0x36 ∷ [])
    ∷ (0x9f ∷ 0x4b ∷ [])
    ∷ (0x9f ∷ 0x4c ∷ [])
    ∷ []

unfoldable pub is_non_card_record_tag : List ℕ → Bool
is_non_card_record_tag tag =
    any (λ t. t =s= tag) terminal_or_kernel_record_tags
    || any (λ t. t =s= tag) host_or_issuer_response_record_tags
    || any (λ t. t =s= tag) generate_ac_or_dynamic_auth_record_tags

pub record Track2EquivalentDataSummary : Type 0 where
  pub pan_digit_count : ℕ
  pub post_separator_digit_count : ℕ
  pub discretionary_digit_count : ℕ
  pub padded : Bool

pub record ParsedTrack2EquivalentData : Type 0 where
  pub pan_digits : List ℕ
  pub summary : Track2EquivalentDataSummary

-- The variables of the loop of `parse_track2_equivalent_data`.
pub record Track2State : Type 0 where
  pub pan : List ℕ
  pub saw_separator : Bool
  pub post_separator_digits : ℕ
  pub saw_padding : Bool

unfoldable pub track2_step : ℕ → Track2State → KernelResult Track2State
track2_step nibble s =
    if s.saw_padding
    then if not (nibble == 0x0f) then err KernelError.parse_error else okay s
    else if leb nibble 9 && s.saw_separator
    then okay (record s { post_separator_digits = s.post_separator_digits + 1 })
    else if leb nibble 9
    then okay (record s { pan = s.pan ++ (nibble ∷ []) })
    else if nibble == 0x0d && not s.saw_separator && not (is_empty s.pan)
    then okay (record s { saw_separator = true })
    else if nibble == 0x0f && s.saw_separator
    then okay (record s { saw_padding = true })
    else err KernelError.parse_error

unfoldable pub track2_loop : List ℕ → Track2State → KernelResult Track2State
unfolding track2_step
track2_loop [] s = okay s
track2_loop (nibble ∷ rest) s = do s' ← track2_step nibble s; track2_loop rest s'

unfoldable pub validate_pan_length : List ℕ → KernelResult (Unit {0})
validate_pan_length digits =
    fail_if (is_empty digits || ltb 19 (length digits)) KernelError.parse_error

unfoldable pub parse_track2_equivalent_data : List ℕ → KernelResult ParsedTrack2EquivalentData
unfolding track2_loop validate_pan_length
parse_track2_equivalent_data value = do
  fail_if (is_empty value) KernelError.parse_error
  s ←
      track2_loop (nibbles value)
        (record { pan = []; saw_separator = false; post_separator_digits = 0; saw_padding = false })
  fail_if (not s.saw_separator || ltb s.post_separator_digits 7) KernelError.parse_error
  validate_pan_length s.pan
  okay (record {
    pan_digits = s.pan;
    summary = record {
      pan_digit_count = length s.pan;
      post_separator_digit_count = s.post_separator_digits;
      discretionary_digit_count = s.post_separator_digits - 7;
      padded = s.saw_padding;
    };
  })

unfoldable pub summarize_track2_equivalent_data : List ℕ → KernelResult Track2EquivalentDataSummary
unfolding parse_track2_equivalent_data
summarize_track2_equivalent_data value = do
  parsed ← parse_track2_equivalent_data value
  okay parsed.summary

-- The loops of `pan_digits_from_5a`, over all nibbles; the final nibble may be padding.
unfoldable pub pan_loop : List ℕ → KernelResult (List ℕ)
pan_loop [] = okay []
pan_loop (nibble ∷ rest) =
    let digits = do ds ← pan_loop rest; okay (nibble ∷ ds)
    in if leb nibble 9
      then digits
      else if nibble == 0x0f && is_empty rest
      then okay []
      else err KernelError.parse_error

unfoldable pub pan_digits_from_5a : List ℕ → KernelResult (List ℕ)
unfolding pan_loop validate_pan_length
pan_digits_from_5a value = do
  fail_if (is_empty value) KernelError.parse_error
  digits ← pan_loop (nibbles value)
  validate_pan_length digits
  okay digits

unfoldable pub pan_digits_from_track2 : List ℕ → KernelResult (List ℕ)
unfolding parse_track2_equivalent_data
pan_digits_from_track2 value = do
  parsed ← parse_track2_equivalent_data value
  okay parsed.pan_digits

-- A record's entries, as the store has them.
abbrev pub Entries : Type 0
Entries = List (List ℕ × List ℕ)

-- The loop over the children of the template, with the entries so far.
unfoldable pub collect : Tlvs → Entries → KernelResult Entries
unfolding is_non_card_record_tag
collect nil entries = okay entries
collect (cons (node tag value constructed kids) items) entries = do
  fail_if constructed KernelError.parse_error
  fail_if (is_non_card_record_tag tag) KernelError.parse_error
  fail_if (any (λ e. e.0 =s= tag) entries) KernelError.parse_error
  collect items (entries ++ ((tag, value) ∷ []))

-- `data.get(tag).is_some_and(|stored_value| stored_value != *record_value)`
abbrev pub conflicts : Option (List ℕ) → List ℕ → Bool
conflicts (some stored) value = not (stored =s= value)
conflicts none value = false

unfoldable pub reject_conflicting_record_values : Entries → DataStore → KernelResult (Unit {0})
reject_conflicting_record_values [] store = okay tt
reject_conflicting_record_values ((tag, value) ∷ entries) store = do
  fail_if (conflicts (get store tag) value) KernelError.parse_error
  reject_conflicting_record_values entries store

abbrev pub or_else : Option (List ℕ) → Option (List ℕ) → Option (List ℕ)
or_else (some value) other = some value
or_else none other = other

unfoldable pub record_or_store_value : Entries → DataStore → List ℕ → Option (List ℕ)
record_or_store_value entries store tag = or_else (get_from entries tag) (get store tag)

-- `option.map(f).transpose()?`
abbrev pub traverse :
    (List ℕ → KernelResult (List ℕ)) → Option (List ℕ) → KernelResult (Option (List ℕ))
traverse f none = okay none
traverse f (some value) = do digits ← f value; okay (some digits)

abbrev pub pans_differ : Option (List ℕ) → Option (List ℕ) → Bool
pans_differ (some pan) (some track2) = not (pan =s= track2)
pans_differ _ _ = false

unfoldable pub validate_cardholder_data_consistency : Entries → DataStore → KernelResult (Unit {0})
unfolding record_or_store_value
validate_cardholder_data_consistency entries store = do
  pan_digits ← traverse pan_digits_from_5a (record_or_store_value entries store (0x5a ∷ []))
  track2_digits ← traverse pan_digits_from_track2 (record_or_store_value entries store (0x57 ∷ []))
  fail_if (pans_differ pan_digits track2_digits) KernelError.parse_error

-- The loop that puts the entries; it stops at the first failure, with what is stored by then.
unfoldable pub put_all : Entries → DataStore → DataStore × KernelResult (Unit {0})
put_all [] store = (store, okay tt)
put_all ((tag, value) ∷ entries) store = elim (put store tag value) [
  | err e ↦ (store, err e)
  | okay store' ↦ put_all entries store'
]

-- The children of the one template 70.
unfoldable pub record_children : Tlvs → KernelResult Tlvs
record_children (cons (node tag value constructed kids) nil) = do
  fail_if (not (tag =s= (0x70 ∷ [])) || not constructed) KernelError.missing_mandatory_tag
  okay kids
record_children _ = err KernelError.missing_mandatory_tag

-- The entries of a body that pass all checks against the store.
unfoldable pub checked_entries : List ℕ → DataStore → KernelResult Entries
unfolding record_children collect reject_conflicting_record_values
    validate_cardholder_data_consistency
checked_entries body store = do
  parsed ← parse_many body
  kids ← record_children parsed
  entries ← collect kids []
  fail_if (is_empty entries) KernelError.missing_mandatory_tag
  reject_conflicting_record_values entries store
  validate_cardholder_data_consistency entries store
  okay entries

-- The result of `put_all` with the number of entries.
abbrev pub with_count : ℕ → DataStore × KernelResult (Unit {0}) → DataStore × KernelResult ℕ
with_count n (store, okay u) = (store, okay n)
with_count n (store, err e) = (store, err e)

-- The store is changed only after all checks.
unfoldable pub parse_read_record_body : List ℕ → DataStore → DataStore × KernelResult ℕ
unfolding checked_entries put_all
parse_read_record_body body store = elim (checked_entries body store) [
  | err e ↦ (store, err e)
  | okay entries ↦ with_count (length entries) (put_all entries store)
]
