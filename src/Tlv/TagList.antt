-- ===== src/Tlv/TagList.antt =====
-- `parse_unique_primitive_tag_list` of src/tlv.rs.
use hyperion_x_emv.Base.{
  ℕ, zero, suc, ◌<◌, ◌≤◌, ◌≡◌, ◌≢◌, refl, ap, sym, ◌∙◌, Bool, true, false, List, [], ◌∷◌, ◌++◌,
  length, okay, KernelResult-cases, inl, inr, arith, All, any, ◌=s=◌, length-append, if◌then◌else◌,
}
use mathlib.Core.List.{append_assoc, append-nil}
use hyperion_x_emv.Tlv.{read_tag, tag_list_from, parse_unique_primitive_tag_list}
use hyperion_x_emv.Tlv.Tags.{read_tag_sound, is_constructed}
use hyperion_x_emv.Dol.Store.{validate_data_tag}

abbrev pub concat : List (List ℕ) → List ℕ
concat [] = []
concat (t ∷ ts) = t ++ concat ts

-- No tag occurs twice: each is new against those before it.
abbrev pub is_new : List ℕ → List (List ℕ) → Bool
is_new t [] = true
is_new t (u ∷ us) = if u =s= t then false else is_new t us

abbrev pub AllNew : List (List ℕ) → List (List ℕ) → Type 0
AllNew before [] = Unit {0}
AllNew before (t ∷ ts) = (is_new t before ≡ true) × AllNew (before ++ (t ∷ [])) ts

abbrev pub IsPrimitiveTag : List ℕ → Type 0
IsPrimitiveTag t = (validate_data_tag t ≡ okay tt) × (is_constructed t ≡ false)

is_new-any : (t : List ℕ) (us : List (List ℕ)) → any (λ u. u =s= t) us ≡ false → is_new t us ≡ true
is_new-any t [] h = refl
is_new-any t (u ∷ us) h = ground (arith, is_new-any t us)

-- The tags that the loop adds to those that it starts with.
pub record TagsRead (input : List ℕ) (max_tags : ℕ) (before tags : List (List ℕ)) : Type 0 where
  pub added : List (List ℕ)
  pub all_tags : tags ≡ before ++ added
  pub spelled : concat added ≡ input
  pub primitive : All IsPrimitiveTag added
  pub new : AllNew before added
  pub few : length before ≤ max_tags → length tags ≤ max_tags

tag_list_from_sound :
    (fuel : ℕ) (input : List ℕ) (max_tags : ℕ) (before tags : List (List ℕ))
    → tag_list_from fuel input max_tags before ≡ okay tags
    → TagsRead input max_tags before tags
unfolding tag_list_from
tag_list_from_sound fuel [] max_tags before tags e =
    let same : before ≡ tags = cc in
    record {
      added = [];
      all_tags = sym same ∙ sym (append-nil before);
      spelled = refl;
      primitive = tt;
      new = tt;
      few = λ h. omega (arith, ap length same);
    }
tag_list_from_sound zero (b ∷ bs) max_tags before tags e = cc
tag_list_from_sound (suc fuel) (b ∷ bs) max_tags before tags e =
    elim (KernelResult-cases (read_tag (b ∷ bs))) [
      | inr (x, p) ↦ absurd (ground (arith, p))
      | inl ((c, t, rest), p) ↦
          let (split_tag, valid, flag) = read_tag_sound (b ∷ bs) t rest c p in
          let plain : c ≡ false = ground (arith, p) in
          let fresh : any (λ u. u =s= t) before ≡ false = ground (arith, p) in
          let room : length before < max_tags = ground (arith, p) in
          let r =
            tag_list_from_sound fuel rest max_tags (before ++ (t ∷ [])) tags (ground (arith, p)) in
          record {
            added = t ∷ r.added;
            all_tags = r.all_tags ∙ append_assoc before (t ∷ []) r.added;
            spelled = ap (λ z. t ++ z) r.spelled ∙ sym split_tag;
            primitive = ((valid, sym flag ∙ plain), r.primitive);
            new = (is_new-any t before fresh, r.new);
            few = λ h. r.few (omega (arith, length-append before (t ∷ []), room));
          }
    ]

-- A list that is accepted spells the input, is not empty, has at most `max_tags` tags, and they are
-- valid, primitive and pairwise distinct.
pub parse_unique_primitive_tag_list_sound :
    (input : List ℕ) (max_tags : ℕ) (tags : List (List ℕ))
    → parse_unique_primitive_tag_list input max_tags ≡ okay tags
    → (concat tags ≡ input)
      × (input ≢ [])
      × (length tags ≤ max_tags)
      × All IsPrimitiveTag tags
      × AllNew [] tags
unfolding parse_unique_primitive_tag_list
parse_unique_primitive_tag_list_sound [] max_tags tags e = cc
parse_unique_primitive_tag_list_sound (b ∷ bs) max_tags tags e =
    let r = tag_list_from_sound (length (b ∷ bs)) (b ∷ bs) max_tags [] tags (ground arith) in
    rw r.all_tags (
      r.spelled,
      λ z. cc,
      omega (arith, r.few (omega arith), ap length r.all_tags),
      r.primitive,
      r.new,
    )
