-- ===== src/Record/Store.antt =====
-- What `parse_read_record_body` of src/record.rs does to the data store.
use hyperion_x_emv.Base.{
  ℕ, ◌≡◌, refl, sym, ap, ◌∙◌, true, false, List, [], ◌∷◌, some, none, arith, inl, inr, All, ◌=s=◌,
  =s=_iff, Bool-cases, KernelError, KernelResult, okay, err, KernelResult-cases,
}
use hyperion_x_emv.Dol.Store.{DataStore, get, get_from, put}
use hyperion_x_emv.Dol.Puts.{DistinctTags, get-put}
use hyperion_x_emv.Record.{Entries, or_else, put_all}

pub put_all_stored :
    (es : Entries) (s s' : DataStore) (t v : List ℕ)
    → put s t v ≡ okay s'
    → put_all ((t, v) ∷ es) s ≡ put_all es s'
unfolding put_all
put_all_stored es s s' t v e = ground (arith, e)

pub put_all_refused :
    (es : Entries) (s : DataStore) (t v : List ℕ) {x : KernelError}
    → put s t v ≡ err x
    → put_all ((t, v) ∷ es) s ≡ (s, err x)
unfolding put_all
put_all_refused es s t v e = ground (arith, e)

-- An entry that is not read, or has the value already read, changes nothing.
pub put_all_keeps :
    (es : Entries) (s : DataStore) (u v : List ℕ)
    → All (λ e. (e.0 =s= u) ≡ true → e.1 ≡ v) es
    → get s u ≡ some v
    → get (put_all es s).0 u ≡ some v
unfolding put_all
put_all_keeps [] s u v h g = g
put_all_keeps ((t, w) ∷ es) s u v h g = elim (KernelResult-cases (put s t w)) [
  | inl (s', e) ↦ rw (put_all_stored es s s' t w e) (put_all_keeps es s' u v h.1 (same s' e))
  | inr (x, e) ↦ rw (put_all_refused es s t w e) g
]
  where
    same : (s' : DataStore) → put s t w ≡ okay s' → get s' u ≡ some v
    same s' e = elim (Bool-cases (t =s= u)) [
      | inl p ↦ get-put s s' t w u e ∙ rw p (ap (λ x. some x) (h.0 p))
      | inr p ↦ get-put s s' t w u e ∙ rw p g
    ]

pub put_all_elsewhere :
    (es : Entries) (s : DataStore) (u : List ℕ)
    → All (λ e. (e.0 =s= u) ≡ false) es
    → get (put_all es s).0 u ≡ get s u
unfolding put_all
put_all_elsewhere [] s u h = refl
put_all_elsewhere ((t, w) ∷ es) s u h = elim (KernelResult-cases (put s t w)) [
  | inl (s', e) ↦
      rw (put_all_stored es s s' t w e)
        (put_all_elsewhere es s' u h.1 ∙ get-put s s' t w u e ∙ rw h.0 refl)
  | inr (x, e) ↦ rw (put_all_refused es s t w e) refl
]

pub absurd_result :
    {x : KernelError} {A : Type 0} → ◌≡◌ {A = KernelResult (Unit {0})} (err x) (okay tt) → A
absurd_result h = cc

-- Distinct entries in front of the store.
pub put_all_reads :
    (es : Entries) (s s' : DataStore) (u : List ℕ)
    → DistinctTags es
    → put_all es s ≡ (s', okay tt)
    → get s' u ≡ or_else (get_from es u) (get s u)
unfolding put_all get_from
put_all_reads [] s s' u d e = ap (λ x. get x u) (sym (ap (λ x. x.0) e))
put_all_reads ((t, w) ∷ es) s s' u d e = elim (KernelResult-cases (put s t w)) [
  | inl (s1, p) ↦
      let rest : put_all es s1 ≡ (s', okay tt) = sym (put_all_stored es s s1 t w p) ∙ e in
      let later = put_all_reads es s1 s' u d.1 rest in
      let first = get-put s s1 t w u p in
      elim (Bool-cases (t =s= u)) [
        | inl q ↦
            let absent : get_from es u ≡ none = ap (get_from es) (sym ((=s=_iff t u).0 q)) ∙ d.0 in
            later ∙ rw absent (first ∙ rw q refl)
        | inr q ↦ later ∙ rw first (rw q refl)
      ]
  | inr (x, p) ↦ absurd_result (ap (λ r. r.1) (sym (put_all_refused es s t w p) ∙ e))
]
