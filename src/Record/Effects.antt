-- ===== src/Record/Effects.antt =====
-- What `parse_read_record_body` of src/record.rs does to the data store, on each outcome.
use hyperion_x_emv.Base.{
  ℕ, ◌≡◌, ◌⊎◌, refl, sym, ap, ◌∙◌, true, false, List, [], ◌∷◌, some, arith, inl, inr, All, ◌=s=◌,
  =s=_iff, Bool-cases, length, KernelError, KernelResult, okay, err, >>=-eq-okay,
  KernelResult-cases, fail_if,
}
use mathlib.Core.Path.{subst}
use hyperion_x_emv.Tlv.{Tlvs, node, nil, cons, parse_many, length_tlvs}
use hyperion_x_emv.Dol.Store.{DataStore, get, get_from}
use hyperion_x_emv.Dol.Puts.{DistinctTags}
use hyperion_x_emv.Record.{
  Entries, is_non_card_record_tag, collect, conflicts, reject_conflicting_record_values, or_else,
  validate_cardholder_data_consistency, put_all, checked_entries, with_count,
  parse_read_record_body,
}
use hyperion_x_emv.Record.Store.{put_all_keeps, put_all_elsewhere, put_all_reads}
use hyperion_x_emv.Record.Children.{
  pairs_of, length-pairs_of, collect_pairs, collect-IsCardTag, IsCardTag, collect-DistinctTags,
  IsChecked, checked_entries_lem,
}

-- The two ends of a run.
parse_read_record_body_cases :
    (body : List ℕ) (s : DataStore)
    → ((es : Entries) × IsChecked body s es
        × (parse_read_record_body body s ≡ with_count (length es) (put_all es s)))
      ⊎ ((x : KernelError) × (parse_read_record_body body s ≡ (s, err x)))
unfolding parse_read_record_body
parse_read_record_body_cases body s = elim (KernelResult-cases (checked_entries body s)) [
  | inl (es, e) ↦ inl (es, checked_entries_lem body s es e, ground (arith, e))
  | inr (x, e) ↦ inr (x, ground (arith, e))
]

with_count-store : (n : ℕ) (r : DataStore × KernelResult (Unit {0})) → (with_count n r).0 ≡ r.0
with_count-store n (s, okay u) = refl
with_count-store n (s, err e) = refl

agrees_with :
    (es : Entries) (s : DataStore) (u v : List ℕ)
    → get s u ≡ some v
    → reject_conflicting_record_values es s ≡ okay tt
    → All (λ e. (e.0 =s= u) ≡ true → e.1 ≡ v) es
unfolding reject_conflicting_record_values
agrees_with [] s u v g h = tt
agrees_with ((t, w) ∷ es) s u v g h =
    let (r, first, rest) =
      >>=-eq-okay (fail_if (conflicts (get s t) w) KernelError.parse_error) _ h in
    (
      (λ e.
          let stored : get s t ≡ some v = ap (get s) ((=s=_iff t u).0 e) ∙ g in
          ground (arith, first, stored, =s=_iff v w)),
      agrees_with es s u v g rest,
    )

-- A record never changes a value that is stored already, on any outcome.
pub parse_read_record_body_keeps :
    (body : List ℕ) (s : DataStore) (u v : List ℕ)
    → get s u ≡ some v
    → get (parse_read_record_body body s).0 u ≡ some v
parse_read_record_body_keeps body s u v g = elim (parse_read_record_body_cases body s) [
  | inl (es, checked, e) ↦
      rw (e, with_count-store (length es) (put_all es s))
        (put_all_keeps es s u v (agrees_with es s u v g checked.agrees) g)
  | inr (x, e) ↦ rw e g
]

apart :
    (es : Entries) (u : List ℕ)
    → is_non_card_record_tag u ≡ true
    → All IsCardTag es
    → All (λ e. (e.0 =s= u) ≡ false) es
apart [] u h a = tt
apart ((t, v) ∷ es) u h a = (
  elim (Bool-cases (t =s= u)) [
    | inl p ↦ let same = ap is_non_card_record_tag ((=s=_iff t u).0 p) in cc
    | inr p ↦ p
  ],
  apart es u h a.1,
)

collected_pairs : (kids : Tlvs) (es : Entries) → collect kids [] ≡ okay es → pairs_of kids ≡ es
collected_pairs kids es h = sym (collect_pairs kids [] es h)

-- No record writes a tag that the terminal, the host or the GENERATE AC response owns, on any outcome.
pub parse_read_record_body-non_card :
    (body : List ℕ) (s : DataStore) (u : List ℕ)
    → is_non_card_record_tag u ≡ true
    → get (parse_read_record_body body s).0 u ≡ get s u
parse_read_record_body-non_card body s u h = elim (parse_read_record_body_cases body s) [
  | inl (es, checked, e) ↦
      rw (e, with_count-store (length es) (put_all es s))
        (put_all_elsewhere es s u (
          apart es u h (
            subst (All IsCardTag) (collected_pairs checked.kids es checked.collected)
              (collect-IsCardTag checked.kids [] es checked.collected))))
  | inr (x, e) ↦ rw e refl
]

-- What a run that returns a count has seen and done.
pub record Taken (body : List ℕ) (s s' : DataStore) (n : ℕ) : Type 0 where
  pub inside : List ℕ
  pub kids : Tlvs
  pub parsed : parse_many body ≡ okay (cons (node (0x70 ∷ []) inside true kids) nil)
  pub counted : n ≡ length_tlvs kids
  pub reads : (u : List ℕ) → get s' u ≡ or_else (get_from (pairs_of kids) u) (get s u)
  pub consistent : validate_cardholder_data_consistency (pairs_of kids) s ≡ okay tt

with_count_okay :
    (n m : ℕ) (r : DataStore × KernelResult (Unit {0})) (s' : DataStore)
    → with_count n r ≡ (s', okay m)
    → (r ≡ (s', okay tt)) × (m ≡ n)
with_count_okay n m (s, okay tt) s' h = (ground (arith, h), ground (arith, h))
with_count_okay n m (s, err e) s' h = cc

-- A record that is taken is one template 70; the store reads each of its children in front of what
-- it had, and the count is the number of the children.
pub parse_read_record_body-Taken :
    (body : List ℕ) (s s' : DataStore) (n : ℕ)
    → parse_read_record_body body s ≡ (s', okay n)
    → Taken body s s' n
parse_read_record_body-Taken body s s' n h = elim (parse_read_record_body_cases body s) [
  | inl (es, checked, e) ↦
      let (run, count) = with_count_okay (length es) n (put_all es s) s' (sym e ∙ h) in
      let same = collected_pairs checked.kids es checked.collected in
      record {
        inside = checked.inside;
        kids = checked.kids;
        parsed = checked.parsed;
        counted = count ∙ ap length (sym same) ∙ length-pairs_of checked.kids;
        reads = λ u.
            put_all_reads es s s' u
              (subst DistinctTags (same)
                (collect-DistinctTags checked.kids [] es checked.collected))
              run
            ∙ ap (λ x. or_else (get_from x u) (get s u)) (sym same);
        consistent =
            subst (λ x. validate_cardholder_data_consistency x s ≡ okay tt) (sym same)
              checked.consistent;
      }
  | inr (x, e) ↦ let bad = sym e ∙ h in cc
]
