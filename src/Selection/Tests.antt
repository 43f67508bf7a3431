-- ===== src/Selection/Tests.antt =====
-- Runs of src/selection.rs, and its theorems at concrete inputs.
use hyperion_x_emv.Base.{
  ℕ, ◌≡◌, refl, true, false, List, [], ◌∷◌, ◌++◌, none, KernelError, okay, err, ◌=s=◌, ltb,
  if◌then◌else◌, length,
}
use mathlib.Core.List.{Permᴰ}
use hyperion_x_emv.Tlv.{
  Tlvs, cons, node, nil, parse_many, read_tag, read_length, find_unique_direct,
}
use hyperion_x_emv.Apdu.{contact, contactless}
use hyperion_x_emv.Taa.{spec_defaults, zeroed}
use hyperion_x_emv.Config.{AidProfile, ProfileSet, ProfileClass, CdaAuthenticationData}
use hyperion_x_emv.Selection.{
  SelectionCandidate, max_candidate_aids, interface_name, candidate_of, supports, aid_matches,
  precedes, insert_candidate, sort_candidates, match_profile_candidates, parse_fci_candidate_aids,
}
use hyperion_x_emv.Selection.Order.{IsSorted, sort_candidates-IsSorted}
use hyperion_x_emv.Selection.Candidates.{
  repeats, scheme_matches, expected_candidates, match_profile_candidates_lem,
}
use hyperion_x_emv.Selection.Directory.{
  AreNames, fci_values, one_each, parse_fci_candidate_aids_sound,
}

abbrev aid : List ℕ
aid = 0xa0 ∷ 0 ∷ 0 ∷ 0 ∷ 3 ∷ []

abbrev profile : List ℕ → ℕ → AidProfile
profile name priority = record {
  aid = name;
  priority = priority;
  partial_selection = true;
  interfaces = interface_name contact ∷ [];
  action_codes = zeroed;
  issuer_action_codes = zeroed;
  floor_limit = 0;
  transaction_type_floor_limits = [];
  cvm_limit_contact = 0;
  random_selection_percent = 0;
  lower_consecutive_offline_limit = none;
  upper_consecutive_offline_limit = none;
  contactless_transaction_limit = 0;
  contactless_cvm_limit = 0;
  cdcvm_supported = false;
  cda_supported = false;
  cda_request_encoding = none;
  cda_authentication_data = CdaAuthenticationData.application_cryptogram;
  default_cdol1 = none;
  critical_issuer_script_ins = [];
  relay_resistance = none;
}

-- The first profile comes after the second.
abbrev profiles : ProfileSet
profiles = record {
  version = 1;
  profile_class = ProfileClass.certification;
  profile_source = record {
    owner = [];
    document = [];
    version = [];
    retrieved = none;
    verification = [];
  };
  schemes =
      record {
        scheme_name = [];
        rid = aid;
        kernel_type = [];
        contact_kernel_type = none;
        taa = spec_defaults;
        aids = profile (aid ++ (0x20 ∷ [])) 2 ∷ profile (aid ++ (0x10 ∷ [])) 1 ∷ [];
        capks = [];
      }
      ∷ [];
}

abbrev names : List (List ℕ)
names = (aid ++ (0x20 ∷ 1 ∷ [])) ∷ (aid ++ (0x10 ∷ [])) ∷ []

abbrev first_choice : SelectionCandidate
first_choice = candidate_of (profile (aid ++ (0x10 ∷ [])) 1) (aid ++ (0x10 ∷ [])) 0 1

abbrev second_choice : SelectionCandidate
second_choice = candidate_of (profile (aid ++ (0x20 ∷ [])) 2) (aid ++ (0x20 ∷ 1 ∷ [])) 0 0

by_priority :
    match_profile_candidates profiles contact names ≡ okay (first_choice ∷ second_choice ∷ [])
unfolding match_profile_candidates insert_candidate precedes aid_matches supports ◌=s=◌
by_priority = refl

no_contactless_name :
    match_profile_candidates profiles contactless names ≡ err KernelError.no_common_aid
unfolding match_profile_candidates supports ◌=s=◌
no_contactless_name = refl

repeated_name :
    match_profile_candidates profiles contact (aid ∷ aid ∷ []) ≡ err KernelError.parse_error
unfolding match_profile_candidates ◌=s=◌
repeated_name = refl

match_profile_candidates_lem_example : match_profile_candidates profiles contact names ≡ (
    if ltb max_candidate_aids (length names)
    then err KernelError.length_overflow
    else if repeats names
    then err KernelError.parse_error
    else expected_candidates (scheme_matches contact names 0 profiles.schemes))
match_profile_candidates_lem_example = match_profile_candidates_lem profiles contact names

sort_candidates-IsSorted_example :
    IsSorted (sort_candidates (second_choice ∷ first_choice ∷ []))
    × Permᴰ
        (sort_candidates (second_choice ∷ first_choice ∷ []))
        (second_choice ∷ first_choice ∷ [])
sort_candidates-IsSorted_example = sort_candidates-IsSorted (second_choice ∷ first_choice ∷ [])

-- 6F, with A5, BF0C and one entry 61.
abbrev fci : List ℕ
fci = 0x6f ∷ 0x0e ∷ 0xa5 ∷ 0x0c ∷ 0xbf ∷ 0x0c ∷ 0x09 ∷ 0x61 ∷ 0x07 ∷ 0x4f ∷ 0x05 ∷ aid

fci_accepted : parse_fci_candidate_aids fci ≡ okay (aid ∷ [])
unfolding parse_fci_candidate_aids parse_many read_tag read_length find_unique_direct ◌=s=◌
fci_accepted = refl

parse_fci_candidate_aids_sound_example :
    (inside : List ℕ) × (kids : Tlvs) × (parse_many fci
      ≡ okay (cons (node (0x6f ∷ []) inside true kids) nil))
    × (fci_values kids ≡ one_each (aid ∷ []))
    × AreNames (aid ∷ [])
parse_fci_candidate_aids_sound_example = parse_fci_candidate_aids_sound fci (aid ∷ []) fci_accepted
