-- ===== src/Gpo/Formats.antt =====
-- The two formats of the answer to GET PROCESSING OPTIONS (src/gpo.rs), encoded from the same data.
use hyperion_x_emv.Base.{
  ℕ, ◌≡◌, ◌≤◌, refl, true, false, List, [], ◌∷◌, ◌++◌, length, All, okay, arith, ◌=s=◌,
  length-append,
}
use hyperion_x_emv.Tlv.{Tlvs, node, nil, cons, find_unique_direct, any_constructed}
use hyperion_x_emv.Tlv.Tags.{is_constructed}
use hyperion_x_emv.Tlv.Lengths.{encode_length}
use hyperion_x_emv.Tlv.Spec.{WellFormed, encode}
use hyperion_x_emv.Tlv.Complete.{parse_many_complete}
use hyperion_x_emv.Dol.Store.{validate_data_tag}
use hyperion_x_emv.Afl.{AflEntry, parse_afl, max_afl_entries}
use hyperion_x_emv.Afl.Entries.{IsEntry, encode_afl, length-encode_afl, parse_afl_complete}
use hyperion_x_emv.Gpo.{GpoResponseFormat, from_templates, parse_gpo_response}

-- The profile and the locator side by side in a primitive template.
abbrev pub format_80 : ℕ → ℕ → List AflEntry → Tlvs
format_80 b0 b1 entries = cons (node (0x80 ∷ []) (b0 ∷ b1 ∷ encode_afl entries) false nil) nil

-- The profile and the locator as the children of a constructed template.
abbrev children_77 : ℕ → ℕ → List AflEntry → Tlvs
children_77 b0 b1 entries =
    cons (node (0x82 ∷ []) (b0 ∷ b1 ∷ []) false nil)
      (cons (node (0x94 ∷ []) (encode_afl entries) false nil) nil)

abbrev pub format_77 : ℕ → ℕ → List AflEntry → Tlvs
format_77 b0 b1 entries =
    cons (node (0x77 ∷ []) (encode (children_77 b0 b1 entries)) true (children_77 b0 b1 entries))
      nil

format_80-WellFormed :
    (b0 b1 : ℕ) (entries : List AflEntry)
    → length entries ≤ max_afl_entries
    → WellFormed 0 (format_80 b0 b1 entries)
unfolding validate_data_tag is_constructed
format_80-WellFormed b0 b1 entries few =
    ((refl, refl, omega (arith, few, length-encode_afl entries), (λ e. cc), (λ e. refl), tt), tt)

length-encode_length : (n : ℕ) → n ≤ 255 → length (encode_length n) ≤ 2
unfolding encode_length
length-encode_length n h = ground arith

length-children_77 :
    (b0 b1 : ℕ) (entries : List AflEntry)
    → length (encode_afl entries) ≤ 252
    → length (encode (children_77 b0 b1 entries)) ≤ 300
length-children_77 b0 b1 entries size =
    let value = encode_afl entries in
    let second = 0x94 ∷ ((encode_length (length value) ++ value) ++ []) in
    omega (
      arith,
      size,
      length-encode_length 2 (omega arith),
      length-encode_length (length value) (omega (arith, size)),
      length-append (encode_length 2) (b0 ∷ b1 ∷ []),
      length-append (encode_length 2 ++ (b0 ∷ b1 ∷ [])) second,
      length-append (encode_length (length value)) value,
      length-append (encode_length (length value) ++ value) [],
    )

format_77-WellFormed :
    (b0 b1 : ℕ) (entries : List AflEntry)
    → length entries ≤ max_afl_entries
    → WellFormed 0 (format_77 b0 b1 entries)
unfolding validate_data_tag is_constructed
format_77-WellFormed b0 b1 entries few =
    let size : length (encode_afl entries) ≤ 252 = omega (arith, few, length-encode_afl entries) in
    (
      (
        refl,
        refl,
        omega (arith, length-children_77 b0 b1 entries size),
        (λ e. (refl, omega arith)),
        (λ e. cc),
        (
          (refl, refl, omega arith, (λ e. cc), (λ e. refl), tt),
          ((refl, refl, omega (arith, size), (λ e. cc), (λ e. refl), tt), tt),
        ),
      ),
      tt,
    )

from_format_80 :
    (b0 b1 : ℕ) (entries : List AflEntry)
    → parse_afl (encode_afl entries) ≡ okay entries
    → 1 ≤ length entries
    → from_templates (format_80 b0 b1 entries)
      ≡ okay (record { format = GpoResponseFormat.template80; aip = b0 ∷ b1 ∷ []; afl = entries })
unfolding from_templates ◌=s=◌
from_format_80 b0 b1 entries e some_entry = ground (arith, e, length-encode_afl entries)

from_format_77 :
    (b0 b1 : ℕ) (entries : List AflEntry)
    → parse_afl (encode_afl entries) ≡ okay entries
    → from_templates (format_77 b0 b1 entries)
      ≡ okay (record { format = GpoResponseFormat.template77; aip = b0 ∷ b1 ∷ []; afl = entries })
unfolding from_templates ◌=s=◌ find_unique_direct any_constructed
from_format_77 b0 b1 entries e = rw e refl

-- For any two bytes of profile and any 1 to 63 valid entries of a locator, both formats of the answer
-- are read back with that profile and that locator.
pub parse_gpo_response_complete :
    (b0 b1 : ℕ) (entries : List AflEntry)
    → All IsEntry entries
    → 1 ≤ length entries
    → length entries ≤ max_afl_entries
    → (parse_gpo_response (encode (format_80 b0 b1 entries))
        ≡ okay
            (record { format = GpoResponseFormat.template80; aip = b0 ∷ b1 ∷ []; afl = entries }))
      × (parse_gpo_response (encode (format_77 b0 b1 entries))
          ≡ okay
              (record { format = GpoResponseFormat.template77; aip = b0 ∷ b1 ∷ []; afl = entries }))
unfolding parse_gpo_response
parse_gpo_response_complete b0 b1 entries valid low high =
    let e = parse_afl_complete entries valid low high in
    let p80 =
      parse_many_complete (format_80 b0 b1 entries) (format_80-WellFormed b0 b1 entries high)
        (omega arith) in
    let p77 =
      parse_many_complete (format_77 b0 b1 entries) (format_77-WellFormed b0 b1 entries high)
        (omega arith) in
    (rw p80 (from_format_80 b0 b1 entries e low), rw p77 (from_format_77 b0 b1 entries e))
