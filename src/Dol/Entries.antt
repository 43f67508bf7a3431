-- ===== src/Dol/Entries.antt =====
-- `parse_dol` of src/dol.rs against the encoding of a list of entries.
use hyperion_x_emv.Base.{
  ℕ, zero, suc, ◌+◌, ◌<◌, ◌≤◌, ◌≡◌, refl, ap, sym, ◌∙◌, Bool, List, [], ◌∷◌, ◌++◌, length, okay,
  err, arith, All, length-append, KernelError, KernelResult-cases, inl, inr,
}
use mathlib.Core.List.{append_assoc, append-nil}
use hyperion_x_emv.Base.Bits.{meets}
use hyperion_x_emv.Tlv.{read_continuation, read_tag}
use hyperion_x_emv.Tlv.Tags.{read_tag_sound, read_tag_complete, is_constructed}
use hyperion_x_emv.Tlv.Complete.{valid_tag_cons}
use hyperion_x_emv.Tlv.Total.{read_tag_refusal}
use hyperion_x_emv.Dol.{DolEntry, read_dol_tag, parse_dol_from, parse_dol, max_dol_entries}
use hyperion_x_emv.Dol.Store.{validate_data_tag}

-- A data object list spells each tag, followed by one byte for its length.
abbrev pub encode_dol : List DolEntry → List ℕ
encode_dol [] = []
encode_dol (entry ∷ entries) = entry.tag ++ (entry.len ∷ encode_dol entries)

abbrev pub HasValidTag : DolEntry → Type 0
HasValidTag entry = validate_data_tag entry.tag ≡ okay tt

-- The reader of tags here and the one of tlv.rs agree.
read_dol_tag_of :
    (input t rest : List ℕ)
    → read_dol_tag input ≡ okay (t, rest)
    → (c : Bool) × (read_tag input ≡ okay (c, t, rest))
unfolding read_dol_tag read_tag
read_dol_tag_of [] t rest e = cc
read_dol_tag_of (first ∷ input) t rest e = elim (KernelResult-cases (read_continuation 0 input)) [
  | inl ((bs, r), q) ↦ (meets first 0x20, ground (arith, q))
  | inr (x, q) ↦ (meets first 0x20, ground (arith, q))
]

read_dol_tag_complete :
    (input t rest : List ℕ) (c : Bool)
    → read_tag input ≡ okay (c, t, rest)
    → read_dol_tag input ≡ okay (t, rest)
unfolding read_dol_tag read_tag
read_dol_tag_complete [] t rest c e = cc
read_dol_tag_complete (first ∷ input) t rest c e =
    elim (KernelResult-cases (read_continuation 0 input)) [
      | inl ((bs, r), q) ↦ ground (arith, q)
      | inr (x, q) ↦ ground (arith, q)
    ]

read_dol_tag_refusal :
    (input : List ℕ) (e : KernelError) → read_dol_tag input ≡ err e → e ≡ KernelError.parse_error
unfolding read_dol_tag read_tag
read_dol_tag_refusal [] e h = cc
read_dol_tag_refusal (first ∷ input) e h = elim (KernelResult-cases (read_continuation 0 input)) [
  | inl ((bs, r), q) ↦ ground (arith, q)
  | inr (x, q) ↦ ground (arith, q, read_tag_refusal (first ∷ input) x)
]

pub record EntriesRead (input : List ℕ) (before entries : List DolEntry) : Type 0 where
  pub added : List DolEntry
  pub all_entries : entries ≡ before ++ added
  pub spelled : encode_dol added ≡ input
  pub valid : All HasValidTag added
  pub few : length before ≤ max_dol_entries → length entries ≤ max_dol_entries

parse_dol_from_sound :
    (fuel : ℕ) (input : List ℕ) (before entries : List DolEntry)
    → parse_dol_from fuel input before ≡ okay entries
    → EntriesRead input before entries
unfolding parse_dol_from
parse_dol_from_sound fuel [] before entries e =
    let same : before ≡ entries = cc in
    record {
      added = [];
      all_entries = sym same ∙ sym (append-nil before);
      spelled = refl;
      valid = tt;
      few = λ h. omega (arith, ap length same);
    }
parse_dol_from_sound zero (b ∷ bs) before entries e = cc
parse_dol_from_sound (suc fuel) (b ∷ bs) before entries e =
    elim (KernelResult-cases (read_dol_tag (b ∷ bs))) [
      | inr (x, p) ↦ absurd (ground (arith, p))
      | inl ((t, []), p) ↦ absurd (ground (arith, p))
      | inl ((t, n ∷ rest), p) ↦
          let (c, q) = read_dol_tag_of (b ∷ bs) t (n ∷ rest) p in
          let (split_tag, valid, flag) = read_tag_sound (b ∷ bs) t (n ∷ rest) c q in
          let entry : DolEntry = record { tag = t; len = n } in
          let room : length before < max_dol_entries = ground (arith, p) in
          let r =
            parse_dol_from_sound fuel rest (before ++ (entry ∷ [])) entries (ground (arith, p)) in
          record {
            added = entry ∷ r.added;
            all_entries = r.all_entries ∙ append_assoc before (entry ∷ []) r.added;
            spelled = ap (λ z. t ++ (n ∷ z)) r.spelled ∙ sym split_tag;
            valid = (valid, r.valid);
            few = λ h. r.few (omega (arith, length-append before (entry ∷ []), room));
          }
    ]

-- A list that is accepted spells the input, has at most 128 entries, and each tag in it is one that
-- the store accepts.
pub parse_dol_sound :
    (input : List ℕ) (entries : List DolEntry)
    → parse_dol input ≡ okay entries
    → (encode_dol entries ≡ input) × All HasValidTag entries × (length entries ≤ max_dol_entries)
unfolding parse_dol
parse_dol_sound input entries e =
    let r = parse_dol_from_sound (length input) input [] entries e in
    rw r.all_entries
      (r.spelled, r.valid, omega (arith, r.few (omega arith), ap length r.all_entries))

parse_dol_step :
    (fuel : ℕ) (input t rest : List ℕ) (n : ℕ) (before : List DolEntry)
    → 0 < length input
    → length before < max_dol_entries
    → read_dol_tag input ≡ okay (t, n ∷ rest)
    → parse_dol_from (suc fuel) input before
      ≡ parse_dol_from fuel rest (before ++ (record { tag = t; len = n } ∷ []))
unfolding parse_dol_from
parse_dol_step fuel [] t rest n before ne h p = absurd (omega arith)
parse_dol_step fuel (b ∷ bs) t rest n before ne h p = ground (arith, p)

parse_dol_from_complete :
    (fuel : ℕ) (entries before : List DolEntry)
    → All HasValidTag entries
    → length before + length entries ≤ max_dol_entries
    → length (encode_dol entries) ≤ fuel
    → parse_dol_from fuel (encode_dol entries) before ≡ okay (before ++ entries)
parse_dol_from_complete fuel [] before v h f = unfold parse_dol_from in rw append-nil
parse_dol_from_complete zero (entry ∷ entries) before v h f =
    absurd (omega (arith, length-append entry.tag (entry.len ∷ encode_dol entries)))
parse_dol_from_complete (suc fuel) (entry ∷ entries) before (v, vs) h f =
    let more = entry.len ∷ encode_dol entries in
    let total = length-append entry.tag more in
    parse_dol_step fuel (entry.tag ++ more) entry.tag (encode_dol entries) entry.len before
      (omega (arith, total)) (omega arith)
      (read_dol_tag_complete _ entry.tag more (is_constructed entry.tag)
        (read_tag_complete entry.tag more v))
    ∙ parse_dol_from_complete fuel entries (before ++ (entry ∷ [])) vs
        (omega (arith, length-append before (entry ∷ [])))
        (omega (arith, f, total, valid_tag_cons entry.tag v))
    ∙ ap okay (append_assoc before (entry ∷ []) entries)

-- At most 128 entries with valid tags are parsed back from their encoding.
pub parse_dol_complete :
    (entries : List DolEntry)
    → All HasValidTag entries
    → length entries ≤ max_dol_entries
    → parse_dol (encode_dol entries) ≡ okay entries
unfolding parse_dol
parse_dol_complete entries v h = parse_dol_from_complete _ entries [] v (omega arith) (omega arith)
