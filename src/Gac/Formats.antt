-- ===== src/Gac/Formats.antt =====
-- The two formats of the answer to GENERATE AC (src/gac.rs), encoded from the same data.
use hyperion_x_emv.Base.{
  ℕ, ◌+◌, ◌≡◌, ◌≤◌, refl, ap, ◌∙◌, sym, true, false, List, [], ◌∷◌, ◌++◌, none, length, take, drop,
  take_prefix, drop_prefix, okay, arith, ◌=s=◌, length-append,
}
use hyperion_x_emv.Tlv.{Tlvs, node, nil, cons, find_unique_direct, any_constructed}
use hyperion_x_emv.Tlv.Tags.{is_constructed}
use hyperion_x_emv.Tlv.Lengths.{encode_length}
use hyperion_x_emv.Tlv.Spec.{WellFormed, encode}
use hyperion_x_emv.Tlv.Complete.{parse_many_complete}
use hyperion_x_emv.Dol.Store.{validate_data_tag}
use hyperion_x_emv.Gac.{
  GenerateAcResponse, issuer_application_data, from_templates, parse_generate_ac_response,
  max_issuer_application_data_len,
}

-- A response without dynamic data for a raw CID, a counter of two bytes, a cryptogram and the
-- issuer's data.
abbrev pub plain : ℕ → ℕ → ℕ → List ℕ → List ℕ → GenerateAcResponse
plain cid a0 a1 cryptogram iad = record {
  cid = record { raw = cid };
  application_cryptogram = cryptogram;
  atc = a0 ∷ a1 ∷ [];
  iad = iad;
  icc_dynamic_number = none;
  signed_dynamic_application_data = none;
}

abbrev pub format_1 : ℕ → ℕ → ℕ → List ℕ → List ℕ → Tlvs
format_1 cid a0 a1 cryptogram iad =
    cons (node (0x80 ∷ []) (cid ∷ a0 ∷ a1 ∷ (cryptogram ++ iad)) false nil) nil

abbrev children_2 : ℕ → ℕ → ℕ → List ℕ → List ℕ → Tlvs
children_2 cid a0 a1 cryptogram iad = cons (node (0x9f ∷ 0x27 ∷ []) (cid ∷ []) false nil) (
    cons (node (0x9f ∷ 0x36 ∷ []) (a0 ∷ a1 ∷ []) false nil) (
      cons (node (0x9f ∷ 0x26 ∷ []) cryptogram false nil)
        (cons (node (0x9f ∷ 0x10 ∷ []) iad false nil) nil)))

abbrev pub format_2 : ℕ → ℕ → ℕ → List ℕ → List ℕ → Tlvs
format_2 cid a0 a1 cryptogram iad =
    cons
      (node (0x77 ∷ []) (encode (children_2 cid a0 a1 cryptogram iad)) true
        (children_2 cid a0 a1 cryptogram iad))
      nil

format_1-WellFormed :
    (cid a0 a1 : ℕ) (cryptogram iad : List ℕ)
    → length cryptogram ≡ 8
    → length iad ≤ 32
    → WellFormed 0 (format_1 cid a0 a1 cryptogram iad)
unfolding validate_data_tag is_constructed
format_1-WellFormed cid a0 a1 cryptogram iad eight few = (
  (refl, refl, omega (arith, eight, few, length-append cryptogram iad), (λ e. cc), (λ e. refl), tt),
  tt,
)

-- An encoded primitive node with a tag of two bytes has at most 36 more bytes than its value.
length-child :
    (t0 t1 : ℕ) (v rest : List ℕ)
    → length v ≤ 32
    → length ((t0 ∷ t1 ∷ (encode_length (length v) ++ v)) ++ rest) ≤ 36 + length rest
unfolding encode_length
length-child t0 t1 v rest few =
    let short : length (encode_length (length v)) ≤ 2 = ground (arith, few) in
    omega (
      arith,
      few,
      short,
      length-append (encode_length (length v)) v,
      length-append (encode_length (length v) ++ v) rest,
    )

length-children_2 :
    (cid a0 a1 : ℕ) (cryptogram iad : List ℕ)
    → length cryptogram ≡ 8
    → length iad ≤ 32
    → length (encode (children_2 cid a0 a1 cryptogram iad)) ≤ 144
length-children_2 cid a0 a1 cryptogram iad eight few =
    let r3 = encode (cons (node (0x9f ∷ 0x10 ∷ []) iad false nil) nil) in
    let r2 = (0x9f ∷ 0x26 ∷ (encode_length (length cryptogram) ++ cryptogram)) ++ r3 in
    let r1 = (0x9f ∷ 0x36 ∷ (encode_length 2 ++ (a0 ∷ a1 ∷ []))) ++ r2 in
    omega (
      arith,
      length-child 0x9f 0x27 (cid ∷ []) r1 (omega arith),
      length-child 0x9f 0x36 (a0 ∷ a1 ∷ []) r2 (omega arith),
      length-child 0x9f 0x26 cryptogram r3 (omega (arith, eight)),
      length-child 0x9f 0x10 iad [] few,
    )

format_2-WellFormed :
    (cid a0 a1 : ℕ) (cryptogram iad : List ℕ)
    → length cryptogram ≡ 8
    → length iad ≤ 32
    → WellFormed 0 (format_2 cid a0 a1 cryptogram iad)
unfolding validate_data_tag is_constructed
format_2-WellFormed cid a0 a1 cryptogram iad eight few = (
  (
    refl,
    refl,
    omega (arith, length-children_2 cid a0 a1 cryptogram iad eight few),
    (λ e. (refl, omega arith)),
    (λ e. cc),
    (
      (refl, refl, omega arith, (λ e. cc), (λ e. refl), tt),
      (
        (refl, refl, omega arith, (λ e. cc), (λ e. refl), tt),
        (
          (refl, refl, omega (arith, eight), (λ e. cc), (λ e. refl), tt),
          ((refl, refl, omega (arith, few), (λ e. cc), (λ e. refl), tt), tt),
        ),
      ),
    ),
  ),
  tt,
)

issuer_application_data_fits :
    (iad : List ℕ) → length iad ≤ 32 → issuer_application_data iad ≡ okay iad
unfolding issuer_application_data
issuer_application_data_fits iad few = ground (arith, few)

from_format_1 :
    (cid a0 a1 : ℕ) (cryptogram iad : List ℕ)
    → length cryptogram ≡ 8
    → length iad ≤ 32
    → from_templates (format_1 cid a0 a1 cryptogram iad) ≡ okay (plain cid a0 a1 cryptogram iad)
unfolding from_templates ◌=s=◌
from_format_1 cid a0 a1 cryptogram iad eight few =
    let first : take 8 (cryptogram ++ iad) ≡ cryptogram =
      ap (λ n. take n (cryptogram ++ iad)) (sym eight) ∙ take_prefix cryptogram iad in
    let rest : drop 8 (cryptogram ++ iad) ≡ iad =
      ap (λ n. drop n (cryptogram ++ iad)) (sym eight) ∙ drop_prefix cryptogram iad in
    ground (
      arith,
      eight,
      few,
      first,
      rest,
      length-append cryptogram iad,
      issuer_application_data_fits iad few,
    )

from_format_2 :
    (cid a0 a1 : ℕ) (cryptogram iad : List ℕ)
    → length cryptogram ≡ 8
    → length iad ≤ 32
    → from_templates (format_2 cid a0 a1 cryptogram iad) ≡ okay (plain cid a0 a1 cryptogram iad)
unfolding from_templates ◌=s=◌ find_unique_direct any_constructed
from_format_2 cid a0 a1 cryptogram iad eight few =
    rw (eight, issuer_application_data_fits iad few) refl

-- For any CID, transaction counter, cryptogram of eight bytes and at most 32 bytes of issuer
-- application data, both formats of the answer are read back as the same response.
pub parse_generate_ac_response_complete :
    (cid a0 a1 : ℕ) (cryptogram iad : List ℕ)
    → length cryptogram ≡ 8
    → length iad ≤ max_issuer_application_data_len
    → (parse_generate_ac_response (encode (format_1 cid a0 a1 cryptogram iad))
        ≡ okay (plain cid a0 a1 cryptogram iad))
      × (parse_generate_ac_response (encode (format_2 cid a0 a1 cryptogram iad))
          ≡ okay (plain cid a0 a1 cryptogram iad))
unfolding parse_generate_ac_response
parse_generate_ac_response_complete cid a0 a1 cryptogram iad eight few =
    let p1 =
      parse_many_complete (format_1 cid a0 a1 cryptogram iad)
        (format_1-WellFormed cid a0 a1 cryptogram iad eight few) (omega arith) in
    let p2 =
      parse_many_complete (format_2 cid a0 a1 cryptogram iad)
        (format_2-WellFormed cid a0 a1 cryptogram iad eight few) (omega arith) in
    (
      rw p1 (from_format_1 cid a0 a1 cryptogram iad eight few),
      rw p2 (from_format_2 cid a0 a1 cryptogram iad eight few),
    )
