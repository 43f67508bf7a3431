-- ===== src/Afl/Entries.antt =====
-- The entries that src/afl.rs parses, and their bytes.
use hyperion_x_emv.Base.{
  ℕ, ◌+◌, ◌-◌, ◌*◌, ◌/◌, ◌%◌, ◌<◌, ◌≡◌, ◌≤◌, refl, true, not, List, [], ◌∷◌, ltb, ◌==◌, ==_iff,
  if◌then◌else◌, length, bit_and, all_below, all_below_sound, All, KernelError, KernelResult, okay,
  err, arith, KernelResult-cases, ◌∙◌, inl, inr,
}
use hyperion_x_emv.Tlv.Lengths.{IsByte}
use hyperion_x_emv.Afl.{AflEntry, parse_entry, parse_chunks, parse_afl, max_afl_entries}

-- A short file identifier from 1 to 30, a range of record numbers from 1 on, and no more records
-- for offline data authentication than the range has.
pub record IsEntry (entry : AflEntry) : Type 0 where
  pub sfi_low : 1 ≤ entry.sfi
  pub sfi_high : entry.sfi ≤ 30
  pub first_low : 1 ≤ entry.first_record
  pub first_high : entry.first_record ≤ entry.last_record
  pub last_high : entry.last_record ≤ 255
  pub count_high : entry.offline_auth_record_count ≤ entry.last_record - entry.first_record + 1

abbrev pub encode_afl : List AflEntry → List ℕ
encode_afl [] = []
encode_afl (entry ∷ entries) =
    (entry.sfi * 8)
    ∷ entry.first_record
    ∷ entry.last_record
    ∷ entry.offline_auth_record_count
    ∷ encode_afl entries

low_table : all_below 256 (λ b. bit_and b 0x07 == b % 8) ≡ true
unfolding all_below
low_table = refl

low_three_bits : (b : ℕ) → b < 256 → bit_and b 0x07 ≡ b % 8
low_three_bits b h = (==_iff _ _).0 (all_below_sound 256 _ b low_table h)

parse_entry_sound :
    (b0 b1 b2 b3 : ℕ) (entry : AflEntry)
    → b0 < 256
    → b2 < 256
    → parse_entry b0 b1 b2 b3 ≡ okay entry
    → (encode_afl (entry ∷ []) ≡ b0 ∷ b1 ∷ b2 ∷ b3 ∷ []) × IsEntry entry
unfolding parse_entry
parse_entry_sound b0 b1 b2 b3 entry h h' e = (
  ground (arith, low_three_bits b0 h),
  record {
    sfi_low = ground arith;
    sfi_high = ground arith;
    first_low = ground arith;
    first_high = ground arith;
    last_high = ground arith;
    count_high = ground arith;
  },
)

parse_entry_complete :
    (entry : AflEntry)
    → IsEntry entry
    → parse_entry
        (entry.sfi * 8)
        entry.first_record
        entry.last_record
        entry.offline_auth_record_count
      ≡ okay entry
unfolding parse_entry
parse_entry_complete entry i = ground (
  arith,
  low_three_bits (entry.sfi * 8),
  i.sfi_low,
  i.sfi_high,
  i.first_low,
  i.first_high,
  i.count_high,
)

parse_chunks_sound :
    (input : List ℕ) (entries : List AflEntry)
    → All IsByte input
    → length input % 4 ≡ 0
    → parse_chunks input ≡ okay entries
    → (encode_afl entries ≡ input) × All IsEntry entries × (length input ≡ length entries * 4)
unfolding parse_chunks
parse_chunks_sound [] entries b h e = (ground arith, ground arith, ground arith)
parse_chunks_sound (b0 ∷ []) entries b h e = absurd (omega arith)
parse_chunks_sound (b0 ∷ b1 ∷ []) entries b h e = absurd (omega arith)
parse_chunks_sound (b0 ∷ b1 ∷ b2 ∷ []) entries b h e = absurd (omega arith)
parse_chunks_sound (b0 ∷ b1 ∷ b2 ∷ b3 ∷ rest) entries b h e =
    elim (KernelResult-cases (parse_entry b0 b1 b2 b3)) [
      | inr (x, q) ↦ absurd (ground (arith, q))
      | inl (entry, q) ↦ elim (KernelResult-cases (parse_chunks rest)) [
        | inr (x, r) ↦ absurd (ground (arith, q, r))
        | inl (later, r) ↦
            let one = parse_entry_sound b0 b1 b2 b3 entry b.0 b.1.1.0 q in
            let others = parse_chunks_sound rest later b.1.1.1.1 (omega arith) r in
            let same : entries ≡ entry ∷ later = ground (arith, q, r) in
            rw same (cc (one.0, others.0), (one.1, others.1), omega (arith, others.2))
      ]
    ]

parse_chunks_complete :
    (entries : List AflEntry)
    → All IsEntry entries
    → parse_chunks (encode_afl entries) ≡ okay entries
unfolding parse_chunks
parse_chunks_complete [] i = refl
parse_chunks_complete (entry ∷ entries) i =
    rw (parse_entry_complete entry i.0, parse_chunks_complete entries i.1) refl

pub length-encode_afl : (entries : List AflEntry) → length (encode_afl entries) ≡ length entries * 4
length-encode_afl [] = omega arith
length-encode_afl (entry ∷ entries) = omega (arith, length-encode_afl entries)

-- The checks before the chunks, for any length.
checked :
    (n : ℕ) (r : KernelResult (List AflEntry)) (entries : List AflEntry)
    → (if not (n % 4 == 0)
        then err KernelError.parse_error
        else if ltb max_afl_entries (n / 4)
        then err KernelError.length_overflow
        else r)
      ≡ okay entries
    → (n % 4 ≡ 0) × (n / 4 ≤ 63) × (r ≡ okay entries)
checked n r entries e = (ground arith, ground arith, ground arith)

passes :
    (n k : ℕ) (r : KernelResult (List AflEntry))
    → n ≡ k * 4
    → k ≤ 63
    → (if not (n % 4 == 0)
        then err KernelError.parse_error
        else if ltb max_afl_entries (n / 4)
        then err KernelError.length_overflow
        else r)
      ≡ r
passes n k r h few = ground arith

-- A locator that is accepted is a list of 1 to 63 valid entries, and the input is their encoding.
pub parse_afl_sound :
    (input : List ℕ) (entries : List AflEntry)
    → All IsByte input
    → parse_afl input ≡ okay entries
    → (encode_afl entries ≡ input)
      × All IsEntry entries
      × (1 ≤ length entries)
      × (length entries ≤ max_afl_entries)
unfolding parse_afl
parse_afl_sound [] entries b e = absurd (ground arith)
parse_afl_sound (x ∷ xs) entries b e =
    let c = checked (length (x ∷ xs)) (parse_chunks (x ∷ xs)) entries e in
    let r = parse_chunks_sound (x ∷ xs) entries b c.0 c.2 in
    (r.0, r.1, omega (arith, r.2), omega (arith, r.2, c.1))

-- Every list of 1 to 63 valid entries is parsed back from its encoding.
pub parse_afl_complete :
    (entries : List AflEntry)
    → All IsEntry entries
    → 1 ≤ length entries
    → length entries ≤ max_afl_entries
    → parse_afl (encode_afl entries) ≡ okay entries
unfolding parse_afl
parse_afl_complete [] i low high = absurd (omega arith)
parse_afl_complete (entry ∷ entries) i low high =
    passes (length (encode_afl (entry ∷ entries))) (length (entry ∷ entries))
      (parse_chunks (encode_afl (entry ∷ entries))) (length-encode_afl (entry ∷ entries)) high
    ∙ parse_chunks_complete (entry ∷ entries) i
