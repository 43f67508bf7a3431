-- ===== src/Dol/Puts.antt =====
-- `put` and `get` of the store of src/dol.rs, and when a store is well formed.
use hyperion_x_emv.Base.{
  ℕ, suc, ◌≤◌, ◌≡◌, refl, ap, ◌∙◌, true, false, List, [], ◌∷◌, ◌++◌, length, okay, some, none,
  arith, All, ◌=s=◌, =s=_iff, length-append, Bool-cases, is_some, if◌then◌else◌, inl, inr,
  Option-cases, All-append,
}
use hyperion_x_emv.Dol.Store.{
  DataStore, validate_data_tag, get_from, get, overwrite, put_checked, put, max_datastore_entries,
  max_datastore_value_len,
}

abbrev pub IsEntry : List ℕ × List ℕ → Type 0
IsEntry (t, v) = (validate_data_tag t ≡ okay tt) × (length v ≤ max_datastore_value_len)

-- Each tag is new against the entries behind it.
abbrev pub DistinctTags : List (List ℕ × List ℕ) → Type 0
DistinctTags [] = Unit {0}
DistinctTags ((t, v) ∷ rest) = (get_from rest t ≡ none) × DistinctTags rest

pub record IsStore (s : DataStore) : Type 0 where
  pub entries_ok : All IsEntry s.entries
  pub distinct : DistinctTags s.entries
  pub few : length s.entries ≤ max_datastore_entries

get_from-overwrite :
    (es : List (List ℕ × List ℕ)) (t v u : List ℕ)
    → is_some (get_from es t) ≡ true
    → get_from (overwrite es t v) u ≡ (if t =s= u then some v else get_from es u)
unfolding get_from overwrite
get_from-overwrite [] t v u h = cc
get_from-overwrite ((s, w) ∷ es) t v u h =
    ground (arith, =s=_iff s t, =s=_iff s u, =s=_iff t u, get_from-overwrite es t v u)

get_from-append :
    (es : List (List ℕ × List ℕ)) (t v u : List ℕ)
    → get_from es t ≡ none
    → get_from (es ++ ((t, v) ∷ [])) u ≡ (if t =s= u then some v else get_from es u)
unfolding get_from
get_from-append [] t v u h = refl
get_from-append ((s, w) ∷ es) t v u h =
    ground (arith, =s=_iff s t, =s=_iff s u, =s=_iff t u, get_from-append es t v u)

-- After a successful `put` the store has the value under its tag, and every other tag reads as before.
pub get-put :
    (s s' : DataStore) (t v u : List ℕ)
    → put s t v ≡ okay s'
    → get s' u ≡ (if t =s= u then some v else get s u)
unfolding put put_checked get
get-put s s' t v u e = ground (
  arith,
  get_from-overwrite s.entries t v u,
  get_from-append s.entries t v u,
  Option-cases (get_from s.entries t),
)

overwrite-IsStore :
    (es : List (List ℕ × List ℕ)) (t v : List ℕ)
    → length v ≤ max_datastore_value_len
    → All IsEntry es
    → All IsEntry (overwrite es t v) × (length (overwrite es t v) ≡ length es)
unfolding overwrite
overwrite-IsStore [] t v h a = (tt, refl)
overwrite-IsStore ((s, w) ∷ es) t v h a =
    let (rest, same) = overwrite-IsStore es t v h a.1 in
    elim (Bool-cases (s =s= t)) [
      | inl e ↦ rw e (((a.0.0, h), a.1), refl)
      | inr e ↦ rw e ((a.0, rest), ap suc same)
    ]

get_from-overwrite-none :
    (es : List (List ℕ × List ℕ)) (t v u : List ℕ)
    → get_from es u ≡ none
    → get_from (overwrite es t v) u ≡ none
unfolding get_from overwrite
get_from-overwrite-none [] t v u h = refl
get_from-overwrite-none ((s, w) ∷ es) t v u h = ground (arith, get_from-overwrite-none es t v u)

overwrite-DistinctTags :
    (es : List (List ℕ × List ℕ)) (t v : List ℕ) → DistinctTags es → DistinctTags (overwrite es t v)
unfolding overwrite
overwrite-DistinctTags [] t v d = tt
overwrite-DistinctTags ((s, w) ∷ es) t v d = elim (Bool-cases (s =s= t)) [
  | inl e ↦ rw e d
  | inr e ↦ rw e (get_from-overwrite-none es t v s d.0, overwrite-DistinctTags es t v d.1)
]

append-DistinctTags :
    (es : List (List ℕ × List ℕ)) (t v : List ℕ)
    → get_from es t ≡ none
    → DistinctTags es
    → DistinctTags (es ++ ((t, v) ∷ []))
append-DistinctTags [] t v h d = (unfold get_from in refl, tt)
append-DistinctTags ((s, w) ∷ es) t v h d = (absent, append-DistinctTags es t v rest_absent d.1)
  where
    rest_absent : get_from es t ≡ none
    rest_absent = unfold get_from in ground arith

    absent : get_from (es ++ ((t, v) ∷ [])) s ≡ none
    absent =
        let apart : (t =s= s) ≡ false =
          unfold get_from in ground (arith, =s=_iff s t, =s=_iff t s) in
        get_from-append es t v s rest_absent ∙ rw apart d.0

-- A successful `put` keeps the store well formed: valid tags, bounded values, one entry for each tag,
-- and at most 512 entries.
pub put-IsStore : (s s' : DataStore) (t v : List ℕ) → IsStore s → put s t v ≡ okay s' → IsStore s'
unfolding put put_checked get
put-IsStore s s' t v i e = elim (Option-cases (get_from s.entries t)) [
  | inl none_stored ↦
      let same : s' ≡ record { entries = s.entries ++ ((t, v) ∷ []) } =
        ground (arith, none_stored) in
      let ok : IsEntry (t, v) = (ground (arith, none_stored), ground (arith, none_stored)) in
      rw same (record {
        entries_ok = All-append IsEntry s.entries ((t, v) ∷ []) i.entries_ok (ok, tt);
        distinct = append-DistinctTags s.entries t v none_stored i.distinct;
        few = ground (arith, none_stored, length-append s.entries ((t, v) ∷ []));
      })
  | inr (w, stored) ↦
      let same : s' ≡ record { entries = overwrite s.entries t v } = ground (arith, stored) in
      let kept = overwrite-IsStore s.entries t v (ground (arith, stored)) i.entries_ok in
      rw same (record {
        entries_ok = kept.0;
        distinct = overwrite-DistinctTags s.entries t v i.distinct;
        few = omega (arith, kept.1, i.few);
      })
]
