-- ===== src/Gac/Bounds.antt =====
-- The lengths in an answer to GENERATE AC (src/gac.rs).
use hyperion_x_emv.Base.{
  ℕ, ◌+◌, ◌≡◌, ◌≤◌, not, List, [], ◌∷◌, Option, some, none, length, drop, length-take, length-drop,
  KernelError, okay, >>=-eq-okay, ok_or, fail_if, leb, ◌&&◌, ◌=s=◌, arith, Bool-cases, inl, inr,
}
use hyperion_x_emv.Tlv.{Tlvs, node, nil, cons, parse_many, find_unique_direct, any_constructed}
use hyperion_x_emv.Gac.{
  GenerateAcResponse, issuer_application_data, parse_format_1, fixed,
  optional_issuer_application_data, optional_non_empty, optional_signed_dynamic_application_data,
  parse_format_2, from_templates, parse_generate_ac_response, max_issuer_application_data_len,
}

-- A cryptogram of eight bytes, a counter of two, and at most 32 bytes of the issuer.
pub record IsSized (r : GenerateAcResponse) : Type 0 where
  pub cryptogram_size : length r.application_cryptogram ≡ 8
  pub counter_size : length r.atc ≡ 2
  pub issuer_size : length r.iad ≤ max_issuer_application_data_len

issuer_application_data_bound : (v w : List ℕ) → issuer_application_data v ≡ okay w → length w ≤ 32
unfolding issuer_application_data
issuer_application_data_bound v w e = ground arith

optional_bound :
    (found : Option (List ℕ)) (w : List ℕ)
    → optional_issuer_application_data found ≡ okay w
    → length w ≤ 32
unfolding optional_issuer_application_data
optional_bound none w e = ground arith
optional_bound (some v) w e = issuer_application_data_bound v w e

length-fixed : (n : ℕ) (kids : Tlvs) (t v : List ℕ) → fixed n kids t ≡ okay v → length v ≡ n
unfolding fixed
length-fixed n kids t v e =
    let (found, e1, e2) = >>=-eq-okay (find_unique_direct kids t) _ e in
    let (value, e3, e4) = >>=-eq-okay (ok_or found KernelError.missing_mandatory_tag) _ e2 in
    ground (arith, e4)

parse_format_1-IsSized :
    (value : List ℕ) (r : GenerateAcResponse) → parse_format_1 value ≡ okay r → IsSized r
unfolding parse_format_1
parse_format_1-IsSized value r e =
    let bad =
      not (leb 11 (length value) && leb (length value) (11 + max_issuer_application_data_len)) in
    let (u, e1, e2) = >>=-eq-okay (fail_if bad KernelError.parse_error) _ e in
    let (iad, e3, e4) = >>=-eq-okay (issuer_application_data (drop 11 value)) _ e2 in
    let long : 11 ≤ length value = ground (arith, e1) in
    record {
      cryptogram_size = ground (arith, e4, long, length-take 8 (drop 3 value), length-drop 3 value);
      counter_size = ground (arith, e4);
      issuer_size = ground (arith, e4, issuer_application_data_bound (drop 11 value) iad e3);
    }

parse_format_2-IsSized :
    (kids : Tlvs) (r : GenerateAcResponse) → parse_format_2 kids ≡ okay r → IsSized r
unfolding parse_format_2
parse_format_2-IsSized kids r e =
    let (u, e1, f1) = >>=-eq-okay (fail_if (any_constructed kids) KernelError.parse_error) _ e in
    let (information, e2, f2) = >>=-eq-okay (fixed 1 kids (0x9f ∷ 0x27 ∷ [])) _ f1 in
    let (cryptogram, e3, f3) = >>=-eq-okay (fixed 8 kids (0x9f ∷ 0x26 ∷ [])) _ f2 in
    let (counter, e4, f4) = >>=-eq-okay (fixed 2 kids (0x9f ∷ 0x36 ∷ [])) _ f3 in
    let (found, e5, f5) = >>=-eq-okay (find_unique_direct kids (0x9f ∷ 0x10 ∷ [])) _ f4 in
    let (iad, e6, f6) = >>=-eq-okay (optional_issuer_application_data found) _ f5 in
    let (number, e7, f7) = >>=-eq-okay (optional_non_empty kids (0x9f ∷ 0x4c ∷ [])) _ f6 in
    let (signed, e8, f8) =
      >>=-eq-okay (optional_signed_dynamic_application_data kids (0x9f ∷ 0x4b ∷ [])) _ f7 in
    record {
      cryptogram_size = ground (arith, f8, length-fixed 8 kids (0x9f ∷ 0x26 ∷ []) cryptogram e3);
      counter_size = ground (arith, f8, length-fixed 2 kids (0x9f ∷ 0x36 ∷ []) counter e4);
      issuer_size = ground (arith, f8, optional_bound found iad e6);
    }

from_templates-IsSized :
    (ts : Tlvs) (r : GenerateAcResponse) → from_templates ts ≡ okay r → IsSized r
unfolding from_templates
from_templates-IsSized nil r e = cc
from_templates-IsSized (cons (node t v c kids) (cons other more)) r e = cc
from_templates-IsSized (cons (node t v c kids) nil) r e = elim (Bool-cases (t =s= (0x80 ∷ []))) [
  | inl first ↦ parse_format_1-IsSized v r (ground (arith, first))
  | inr not_first ↦ elim (Bool-cases (t =s= (0x77 ∷ []))) [
    | inl second ↦ parse_format_2-IsSized kids r (ground (arith, not_first, second))
    | inr neither ↦ absurd (ground (arith, not_first, neither))
  ]
]

-- Every answer that is accepted, in either format, has a cryptogram of eight bytes, a transaction
-- counter of two, and at most 32 bytes of issuer application data.
pub parse_generate_ac_response-IsSized :
    (input : List ℕ) (r : GenerateAcResponse)
    → parse_generate_ac_response input ≡ okay r
    → IsSized r
unfolding parse_generate_ac_response
parse_generate_ac_response-IsSized input r e =
    let (ts, e1, e2) = >>=-eq-okay (parse_many input) _ e in from_templates-IsSized ts r e2
