-- ===== src/Dol.antt =====
-- src/dol.rs: data object lists, parsed and filled from a store. A slice with an offset is the list
-- of bytes from the offset on.
pub mod Store
pub mod Puts
pub mod Entries
pub mod Build
mod Tests
use hyperion_x_emv.Base.{
  ℕ, zero, suc, ◌+◌, ◌-◌, ◌^◌, bit_and, Bool, true, false, ◌&&◌, ◌||◌, List, [], ◌∷◌, ◌++◌, Option,
  some, none, ltb, leb, ◌==◌, if◌then◌else◌, length, take, replicate, KernelError, KernelResult,
  okay, err, ◌>>=◌, ◌>>◌, fail_if,
}
use hyperion_x_emv.Tlv.{read_continuation}
use Store.{DataStore, get}

abbrev pub max_dol_entries : ℕ
max_dol_entries = 128

abbrev pub max_dol_output : ℕ
max_dol_output = 252

pub record DolEntry : Type 0 where
  pub tag : List ℕ
  pub len : ℕ

pub data DolPaddingPolicy : Type 0 where
  zero_pad_missing_and_short require_exact_values : DolPaddingPolicy

-- The tag and the rest. The loop over the continuation bytes is the one of `read_tag` in tlv.rs.
unfoldable pub read_dol_tag : List ℕ → KernelResult (List ℕ × List ℕ)
unfolding read_continuation
read_dol_tag [] = err KernelError.parse_error
read_dol_tag (first ∷ rest) =
    let long = do (more, rest') ← read_continuation 0 rest; okay (first ∷ more, rest')
    in if first == 0x00 || first == 0xff
      then err KernelError.parse_error
      else if bit_and first 0x1f == 0x1f
      then long
      else okay (first ∷ [], rest)

-- `let length = *input.get(offset).ok_or(ParseError)?`
unfoldable pub read_entry_length : List ℕ → KernelResult (ℕ × List ℕ)
read_entry_length [] = err KernelError.parse_error
read_entry_length (byte ∷ rest) = okay (byte, rest)

-- The loop of `parse_dol`, with the entries read so far. A round takes two bytes at least, so the
-- length of the input is fuel enough (Dol/Entries); `internal_error` marks that it ran out.
unfoldable pub parse_dol_from : ℕ → List ℕ → List DolEntry → KernelResult (List DolEntry)
unfolding read_entry_length
parse_dol_from fuel [] out = okay out
parse_dol_from zero (b ∷ bs) out = err KernelError.internal_error
parse_dol_from (suc fuel) (b ∷ bs) out =
    let entry = do
      (t, after_tag) ← read_dol_tag (b ∷ bs)
      (n, rest) ← read_entry_length after_tag
      parse_dol_from fuel rest (out ++ (record { tag = t; len = n } ∷ []))
    in if leb max_dol_entries (length out) then err KernelError.length_overflow else entry

unfoldable pub parse_dol : List ℕ → KernelResult (List DolEntry)
unfolding parse_dol_from
parse_dol input = parse_dol_from (length input) input []

-- `entries.iter().try_fold(0usize, |acc, entry| acc.checked_add(entry.length))`
unfoldable pub total_length : ℕ → List DolEntry → KernelResult ℕ
total_length acc [] = okay acc
total_length acc (entry ∷ entries) =
    let later = total_length (acc + entry.len) entries in
    if leb (2 ^ 64) (acc + entry.len) then err KernelError.length_overflow else later

unfoldable pub is_exact : DolPaddingPolicy → Bool
is_exact require_exact_values = true
is_exact zero_pad_missing_and_short = false

-- What one entry adds to the output; a short value is padded by `append_zero_padded`.
unfoldable pub field_of : DolPaddingPolicy → ℕ → Option (List ℕ) → KernelResult (List ℕ)
unfolding is_exact
field_of policy n (some value) =
    if leb n (length value)
    then okay (take n value)
    else if is_exact policy
    then err KernelError.missing_mandatory_tag
    else okay (value ++ replicate (n - length value) 0)
field_of policy n none =
    if n == 0
    then okay []
    else if is_exact policy
    then err KernelError.missing_mandatory_tag
    else okay (replicate n 0)

unfoldable pub build_from :
    List DolEntry → DataStore → DolPaddingPolicy → List ℕ → KernelResult (List ℕ)
unfolding field_of
build_from [] store policy out = okay out
build_from (entry ∷ entries) store policy out = do
  bytes ← field_of policy entry.len (get store entry.tag)
  build_from entries store policy (out ++ bytes)

unfoldable pub build_dol_with_policy :
    List DolEntry → DataStore → DolPaddingPolicy → KernelResult (List ℕ)
unfolding total_length build_from
build_dol_with_policy entries store policy = do
  total ← total_length 0 entries
  fail_if (ltb max_dol_output total) KernelError.length_overflow
  build_from entries store policy []

unfoldable pub build_dol : List DolEntry → DataStore → KernelResult (List ℕ)
unfolding build_dol_with_policy
build_dol entries store = build_dol_with_policy entries store zero_pad_missing_and_short
