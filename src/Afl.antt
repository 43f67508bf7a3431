-- ===== src/Afl.antt =====
-- src/afl.rs: the application file locator and the plan of the records to read.
pub mod Entries
pub mod Plan
mod Tests
use hyperion_x_emv.Base.{
  ℕ, zero, suc, ◌+◌, ◌-◌, ◌*◌, ◌/◌, ◌%◌, ◌^◌, bit_and, Bool, true, false, not, ◌&&◌, ◌||◌, List, [],
  ◌∷◌, ◌++◌, ltb, leb, ◌==◌, if◌then◌else◌, length, is_empty, any, KernelError, KernelResult, okay,
  err, ◌>>=◌, ◌>>◌, fail_if,
}
use hyperion_x_emv.Base.Bits.{meets}
use hyperion_x_emv.Apdu.{CommandApdu, read_record}

abbrev pub max_afl_entries : ℕ
max_afl_entries = 63

abbrev pub max_record_locators : ℕ
max_record_locators = 256

pub record AflEntry : Type 0 where
  pub sfi : ℕ
  pub first_record : ℕ
  pub last_record : ℕ
  pub offline_auth_record_count : ℕ

-- `last - first + 1` on `u8`
abbrev pub record_count : AflEntry → ℕ
record_count entry = (entry.last_record + 2 ^ 8 - entry.first_record + 1) % 2 ^ 8

pub record RecordLocator : Type 0 where
  pub sfi : ℕ
  pub number : ℕ
  pub contributes_to_offline_auth : Bool

-- One chunk of four bytes.
unfoldable pub parse_entry : ℕ → ℕ → ℕ → ℕ → KernelResult AflEntry
parse_entry b0 first last count =
    if meets b0 0x07 || b0 / 2 ^ 3 == 0 || ltb 30 (b0 / 2 ^ 3) || first == 0 || ltb last first
    then err KernelError.parse_error
    else if ltb (last - first + 1) count
    then err KernelError.parse_error
    else okay (record {
      sfi = b0 / 2 ^ 3;
      first_record = first;
      last_record = last;
      offline_auth_record_count = count;
    })

-- The loop over `input.chunks_exact(4)`, which leaves out an incomplete chunk.
unfoldable pub parse_chunks : List ℕ → KernelResult (List AflEntry)
unfolding parse_entry
parse_chunks (b0 ∷ b1 ∷ b2 ∷ b3 ∷ rest) = do
  entry ← parse_entry b0 b1 b2 b3
  entries ← parse_chunks rest
  okay (entry ∷ entries)
parse_chunks _ = okay []

unfoldable pub parse_afl : List ℕ → KernelResult (List AflEntry)
unfolding parse_chunks
parse_afl input =
    if is_empty input || not (length input % 4 == 0)
    then err KernelError.parse_error
    else if ltb max_afl_entries (length input / 4)
    then err KernelError.length_overflow
    else parse_chunks input

-- `locator.sfi == entry.sfi && locator.record == record`
abbrev pub is_at : ℕ → ℕ → RecordLocator → Bool
is_at sfi number locator = locator.sfi == sfi && locator.number == number

abbrev pub locator_of : AflEntry → ℕ → RecordLocator
locator_of entry index = record {
  sfi = entry.sfi;
  number = (entry.first_record + index) % 2 ^ 8;
  contributes_to_offline_auth = ltb index entry.offline_auth_record_count;
}

-- The inner loop of `record_plan`, with the rounds left, the index and the plan so far.
unfoldable pub plan_entry :
    AflEntry → ℕ → ℕ → List RecordLocator → KernelResult (List RecordLocator)
plan_entry entry zero index out = okay out
plan_entry entry (suc rounds) index out =
    let rest = plan_entry entry rounds (index + 1) (out ++ (locator_of entry index ∷ [])) in
    if leb max_record_locators (length out)
    then err KernelError.length_overflow
    else if any (is_at entry.sfi ((entry.first_record + index) % 2 ^ 8)) out
    then err KernelError.parse_error
    else rest

unfoldable pub plan_from : List AflEntry → List RecordLocator → KernelResult (List RecordLocator)
unfolding plan_entry
plan_from [] out = okay out
plan_from (entry ∷ entries) out = do
  out' ← plan_entry entry (record_count entry) 0 out
  plan_from entries out'

unfoldable pub record_plan : List AflEntry → KernelResult (List RecordLocator)
unfolding plan_from
record_plan entries = plan_from entries []

-- `locators.iter().map(|locator| read_record(locator.record, locator.sfi)).collect()`
unfoldable pub read_all : List RecordLocator → KernelResult (List CommandApdu)
read_all [] = okay []
read_all (locator ∷ locators) = do
  command ← read_record locator.number locator.sfi
  commands ← read_all locators
  okay (command ∷ commands)

unfoldable pub read_record_commands : List AflEntry → KernelResult (List CommandApdu)
unfolding record_plan read_all
read_record_commands entries = do locators ← record_plan entries; read_all locators
