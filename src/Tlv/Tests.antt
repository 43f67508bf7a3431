-- ===== src/Tlv/Tests.antt =====
-- Runs of src/tlv.rs, and its theorems at concrete inputs.
use hyperion_x_emv.Base.{
  ℕ, ◌≤◌, ◌≡◌, refl, true, false, List, [], ◌∷◌, KernelError, okay, err, ◌=s=◌, arith,
}
use hyperion_x_emv.Tlv.{
  Tlvs, node, read_tag, read_length, nil, cons, parse_many, max_tlv_nodes,
  parse_unique_primitive_tag_list,
}
use hyperion_x_emv.Tlv.Spec.{encode, size, WellFormed}
use hyperion_x_emv.Tlv.Sound.{parse_many_sound}
use hyperion_x_emv.Tlv.Complete.{parse_many_complete}
use hyperion_x_emv.Tlv.Total.{Refusal, parse_many-Refusal}

-- A template with two primitive children.
abbrev template : List ℕ
template = 0x77 ∷ 0x08 ∷ 0x82 ∷ 0x02 ∷ 0x19 ∷ 0x80 ∷ 0x9f ∷ 0x36 ∷ 0x01 ∷ 0x07 ∷ []

abbrev inner : Tlvs
inner =
    cons (node (0x82 ∷ []) (0x19 ∷ 0x80 ∷ []) false nil)
      (cons (node (0x9f ∷ 0x36 ∷ []) (0x07 ∷ []) false nil) nil)

abbrev parsed : Tlvs
parsed =
    cons (node (0x77 ∷ []) (0x82 ∷ 0x02 ∷ 0x19 ∷ 0x80 ∷ 0x9f ∷ 0x36 ∷ 0x01 ∷ 0x07 ∷ []) true inner)
      nil

template_parses : parse_many template ≡ okay parsed
unfolding parse_many read_tag read_length
template_parses = refl

parse_many_sound_example :
    (encode parsed ≡ template) × WellFormed 0 parsed × (size parsed ≤ max_tlv_nodes)
parse_many_sound_example = parse_many_sound template parsed (omega arith) template_parses

parsed-WellFormed : WellFormed 0 parsed
parsed-WellFormed = (parse_many_sound template parsed (omega arith) template_parses).1

parse_many_complete_example : parse_many (encode parsed) ≡ okay parsed
parse_many_complete_example = parse_many_complete parsed parsed-WellFormed (omega arith)

-- An indefinite length is refused.
abbrev indefinite : List ℕ
indefinite = 0x5a ∷ 0x80 ∷ 0 ∷ 0 ∷ []

indefinite_fails : parse_many indefinite ≡ err KernelError.parse_error
unfolding parse_many read_tag read_length
indefinite_fails = refl

parse_many-Refusal_example : Refusal KernelError.parse_error
parse_many-Refusal_example =
    parse_many-Refusal indefinite KernelError.parse_error (omega arith) indefinite_fails

abbrev tag_list : List ℕ
tag_list = 0x82 ∷ 0x9f ∷ 0x37 ∷ []

abbrev listed : List (List ℕ)
listed = (0x82 ∷ []) ∷ (0x9f ∷ 0x37 ∷ []) ∷ []

tag_list_parses : parse_unique_primitive_tag_list tag_list 8 ≡ okay listed
unfolding parse_unique_primitive_tag_list read_tag ◌=s=◌
tag_list_parses = refl
