-- ===== src/Record/Children.antt =====
-- The children of the template of src/record.rs, as entries.
use hyperion_x_emv.Base.{
  ℕ, suc, ◌≡◌, refl, sym, ap, ◌∙◌, Bool, true, false, List, [], ◌∷◌, ◌++◌, none, arith, inl, inr,
  All, ◌=s=◌, =s=_iff, =s=_refl, Bool-cases, length, any, KernelError, okay, >>=-eq-okay, fail_if,
  is_empty,
}
use mathlib.Core.List.{append_assoc, append-nil}
use hyperion_x_emv.Tlv.{Tlvs, node, nil, cons, parse_many, length_tlvs}
use hyperion_x_emv.Dol.Store.{DataStore, get_from}
use hyperion_x_emv.Dol.Puts.{DistinctTags}
use hyperion_x_emv.Record.{
  Entries, is_non_card_record_tag, collect, reject_conflicting_record_values,
  validate_cardholder_data_consistency, record_children, checked_entries,
}

-- Children as entries.
abbrev pub pairs_of : Tlvs → Entries
pairs_of nil = []
pairs_of (cons (node t v c kids) items) = (t, v) ∷ pairs_of items

pub length-pairs_of : (items : Tlvs) → length (pairs_of items) ≡ length_tlvs items
length-pairs_of nil = refl
length-pairs_of (cons (node t v c kids) items) = ap suc (length-pairs_of items)

-- What a round of `collect` has tested.
pub collect_step :
    (t v : List ℕ) (c : Bool) (kids items : Tlvs) (es out : Entries)
    → collect (cons (node t v c kids) items) es ≡ okay out
    → (is_non_card_record_tag t ≡ false)
      × (any (λ e. e.0 =s= t) es ≡ false)
      × (collect items (es ++ ((t, v) ∷ [])) ≡ okay out)
unfolding collect
collect_step t v true kids items es out h = cc
collect_step t v false kids items es out h = elim (Bool-cases (is_non_card_record_tag t)) [
  | inl p ↦ ground (arith, p)
  | inr p ↦ elim (Bool-cases (any (λ e. e.0 =s= t) es)) [
    | inl q ↦ ground (arith, p, q)
    | inr q ↦ (p, q, ground (arith, p, q))
  ]
]

pub collect_pairs :
    (items : Tlvs) (es out : Entries) → collect items es ≡ okay out → out ≡ es ++ pairs_of items
unfolding collect
collect_pairs nil es out h = ground (arith, append-nil es)
collect_pairs (cons (node t v c kids) items) es out h =
    let step = collect_step t v c kids items es out h in
    collect_pairs items (es ++ ((t, v) ∷ [])) out step.2
    ∙ append_assoc es ((t, v) ∷ []) (pairs_of items)

abbrev pub IsCardTag : List ℕ × List ℕ → Type 0
IsCardTag (t, v) = is_non_card_record_tag t ≡ false

pub collect-IsCardTag :
    (items : Tlvs) (es out : Entries) → collect items es ≡ okay out → All IsCardTag (pairs_of items)
collect-IsCardTag nil es out h = tt
collect-IsCardTag (cons (node t v c kids) items) es out h =
    let step = collect_step t v c kids items es out h in
    (step.0, collect-IsCardTag items (es ++ ((t, v) ∷ [])) out step.2)

pub any-append_true :
    (es fs : Entries) (u : List ℕ)
    → any (λ e. e.0 =s= u) es ≡ true
    → any (λ e. e.0 =s= u) (es ++ fs) ≡ true
any-append_true [] fs u h = cc
any-append_true ((t, v) ∷ es) fs u h = ground (arith, any-append_true es fs u)

pub any-append_last :
    (es : Entries) (t v : List ℕ) → any (λ e. e.0 =s= t) (es ++ ((t, v) ∷ [])) ≡ true
any-append_last [] t v = ground (arith, =s=_refl t)
any-append_last ((s, w) ∷ es) t v = ground (arith, any-append_last es t v)

-- A tag that occurs in front is refused behind.
pub collect_absent :
    (items : Tlvs) (es out : Entries) (u : List ℕ)
    → any (λ e. e.0 =s= u) es ≡ true
    → collect items es ≡ okay out
    → get_from (pairs_of items) u ≡ none
unfolding get_from
collect_absent nil es out u a h = refl
collect_absent (cons (node t v c kids) items) es out u a h =
    let step = collect_step t v c kids items es out h in
    elim (Bool-cases (t =s= u)) [
      | inl p ↦
          let same : (any (λ e. e.0 =s= u) es) ≡ false =
            sym (ap (λ (x : List ℕ). any (λ e. e.0 =s= x) es) ((=s=_iff t u).0 p)) ∙ step.1 in
          ground (arith, same, a)
      | inr p ↦ rw p (
          collect_absent items (es ++ ((t, v) ∷ [])) out u (any-append_true es ((t, v) ∷ []) u a)
            step.2)
    ]

pub collect-DistinctTags :
    (items : Tlvs) (es out : Entries) → collect items es ≡ okay out → DistinctTags (pairs_of items)
collect-DistinctTags nil es out h = tt
collect-DistinctTags (cons (node t v c kids) items) es out h =
    let step = collect_step t v c kids items es out h in
    (
      collect_absent items (es ++ ((t, v) ∷ [])) out t (any-append_last es t v) step.2,
      collect-DistinctTags items (es ++ ((t, v) ∷ [])) out step.2,
    )

-- The template 70 with the entries that were checked.
pub record IsChecked (body : List ℕ) (s : DataStore) (es : Entries) : Type 0 where
  pub inside : List ℕ
  pub kids : Tlvs
  pub parsed : parse_many body ≡ okay (cons (node (0x70 ∷ []) inside true kids) nil)
  pub collected : collect kids [] ≡ okay es
  pub agrees : reject_conflicting_record_values es s ≡ okay tt
  pub consistent : validate_cardholder_data_consistency es s ≡ okay tt

pub record_children_lem :
    (tlvs kids : Tlvs)
    → record_children tlvs ≡ okay kids
    → (inside : List ℕ) × (tlvs ≡ cons (node (0x70 ∷ []) inside true kids) nil)
unfolding record_children
record_children_lem nil kids h = cc
record_children_lem (cons (node t v true ks) nil) kids h =
    (v, ground (arith, =s=_iff t (0x70 ∷ [])))
record_children_lem (cons (node t v false ks) nil) kids h = ground (arith)
record_children_lem (cons item (cons next items)) kids h = ground arith

pub checked_entries_lem :
    (body : List ℕ) (s : DataStore) (es : Entries)
    → checked_entries body s ≡ okay es
    → IsChecked body s es
unfolding checked_entries
checked_entries_lem body s es h =
    let (tlvs, parsed, h1) = >>=-eq-okay (parse_many body) _ h in
    let (kids, children, h2) = >>=-eq-okay (record_children tlvs) _ h1 in
    let (out, collected, h3) = >>=-eq-okay (collect kids []) _ h2 in
    let (inside, shape) = record_children_lem tlvs kids children in
    let (u, nonempty, h4) =
      >>=-eq-okay (fail_if (is_empty out) KernelError.missing_mandatory_tag) _ h3 in
    let (u1, agrees, h5) = >>=-eq-okay (reject_conflicting_record_values out s) _ h4 in
    let (u2, consistent, h6) = >>=-eq-okay (validate_cardholder_data_consistency out s) _ h5 in
    let same : out ≡ es = cc in
    record {
      inside = inside;
      kids = kids;
      parsed = parsed ∙ ap okay shape;
      collected = rw (← same) collected;
      agrees = rw (← same) agrees;
      consistent = rw (← same) consistent;
    }
