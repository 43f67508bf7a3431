-- ===== src/Dol/Store.antt =====
-- `DataStore` of src/dol.rs: the tag-value store of a transaction, with its check of tags.
use hyperion_x_emv.Base.{
  ℕ, bit_and, ◌||◌, not, List, [], ◌∷◌, ◌++◌, Option, some, none, ltb, leb, ◌==◌, ◌=s=◌,
  if◌then◌else◌, length, is_empty, is_some, KernelError, KernelResult, okay, err, ◌>>◌, fail_if,
}
use hyperion_x_emv.Base.Bits.{meets}

abbrev pub max_datastore_entries : ℕ
max_datastore_entries = 512

abbrev pub max_datastore_value_len : ℕ
max_datastore_value_len = 4096

pub record DataStore : Type 0 where
  pub entries : List (List ℕ × List ℕ)

-- The loop over `tag[1..]`: every byte but the last has its top bit set, and the last has not.
unfoldable pub validate_continuation : List ℕ → KernelResult (Unit {0})
validate_continuation [] = okay tt
validate_continuation (byte ∷ rest) =
    let later = validate_continuation rest in
    if is_empty rest
    then fail_if (meets byte 0x80) KernelError.parse_error
    else if bit_and byte 0x80 == 0
    then err KernelError.parse_error
    else later

-- What follows the first byte of a tag whose low five bits are all set.
unfoldable pub validate_long : List ℕ → KernelResult (Unit {0})
unfolding validate_continuation
validate_long [] = err KernelError.parse_error
validate_long (second ∷ more) =
    if bit_and second 0x7f == 0
    then err KernelError.parse_error
    else validate_continuation (second ∷ more)

unfoldable pub validate_data_tag : List ℕ → KernelResult (Unit {0})
unfolding validate_long
validate_data_tag [] = err KernelError.invalid_argument
validate_data_tag (first ∷ rest) =
    if ltb 4 (length (first ∷ rest))
    then err KernelError.invalid_argument
    else if first == 0x00 || first == 0xff
    then err KernelError.parse_error
    else if not (bit_and first 0x1f == 0x1f)
    then fail_if (not (is_empty rest)) KernelError.parse_error
    else validate_long rest

abbrev pub new : DataStore
new = record { entries = [] }

unfoldable pub get_from : List (List ℕ × List ℕ) → List ℕ → Option (List ℕ)
get_from [] tag = none
get_from ((stored, value) ∷ rest) tag = if stored =s= tag then some value else get_from rest tag

unfoldable pub get : DataStore → List ℕ → Option (List ℕ)
unfolding get_from
get store tag = get_from store.entries tag

-- Overwriting the first entry of the tag, in place.
unfoldable pub overwrite : List (List ℕ × List ℕ) → List ℕ → List ℕ → List (List ℕ × List ℕ)
overwrite [] tag value = []
overwrite ((stored, old) ∷ rest) tag value =
    if stored =s= tag then (stored, value) ∷ rest else (stored, old) ∷ overwrite rest tag value

-- `put` past its checks of the tag and of the value.
unfoldable pub put_checked : DataStore → List ℕ → List ℕ → KernelResult DataStore
unfolding get overwrite
put_checked store tag value =
    if is_some (get store tag)
    then okay (record { entries = overwrite store.entries tag value })
    else if leb max_datastore_entries (length store.entries)
    then err KernelError.length_overflow
    else okay (record { entries = store.entries ++ ((tag, value) ∷ []) })

unfoldable pub put : DataStore → List ℕ → List ℕ → KernelResult DataStore
unfolding put_checked validate_data_tag
put store tag value = do
  validate_data_tag tag
  fail_if (ltb max_datastore_value_len (length value)) KernelError.length_overflow
  put_checked store tag value
