-- ===== src/Selection/Order.antt =====
-- The order of candidates of src/selection.rs.
use hyperion_x_emv.Base.{refl, [], ◌∷◌, All, Bool-cases, inl, inr}
use mathlib.Core.List.{Permᴰ}
use mathlib.Core.List.Permᴰ
use hyperion_x_emv.Selection.{
  SelectionCandidate, Candidates, precedes, insert_candidate, sort_candidates,
}
use hyperion_x_emv.Selection.Keys.{Comes, Comes-trans, precedes-Comes, not_precedes}

-- Each candidate may stand in front of all that follow it.
abbrev pub IsSorted : Candidates → Type 0
IsSorted [] = Unit {0}
IsSorted (c ∷ cs) = All (Comes c) cs × IsSorted cs

All-Comes :
    (c d : SelectionCandidate) (cs : Candidates) → Comes c d → All (Comes d) cs → All (Comes c) cs
All-Comes c d [] h k = tt
All-Comes c d (e ∷ es) h k = (Comes-trans c d e h k.0, All-Comes c d es h k.1)

All-insert_candidate :
    (c d : SelectionCandidate) (cs : Candidates)
    → Comes c d
    → All (Comes c) cs
    → All (Comes c) (insert_candidate d cs)
unfolding insert_candidate
All-insert_candidate c d [] h k = (h, tt)
All-insert_candidate c d (e ∷ es) h k = elim (Bool-cases (precedes e d)) [
  | inl p ↦ rw p (k.0, All-insert_candidate c d es h k.1)
  | inr p ↦ rw p (h, k)
]

insert_candidate-IsSorted :
    (c : SelectionCandidate) (cs : Candidates) → IsSorted cs → IsSorted (insert_candidate c cs)
unfolding insert_candidate
insert_candidate-IsSorted c [] h = (tt, tt)
insert_candidate-IsSorted c (d ∷ ds) h = elim (Bool-cases (precedes d c)) [
  | inl e ↦
      rw e
        (All-insert_candidate d c ds (precedes-Comes d c e) h.0, insert_candidate-IsSorted c ds h.1)
  | inr e ↦ let first = not_precedes d c e in rw e ((first, All-Comes c d ds first h.0), h)
]

insert_candidate-Perm :
    (c : SelectionCandidate) (cs : Candidates) → Permᴰ (insert_candidate c cs) (c ∷ cs)
unfolding insert_candidate
insert_candidate-Perm c [] = Permᴰ.refl (c ∷ [])
insert_candidate-Perm c (d ∷ ds) = elim (Bool-cases (precedes d c)) [
  | inl e ↦ rw e (Permᴰ.trans (Permᴰ.cons refl (insert_candidate-Perm c ds)) (Permᴰ.swap refl refl))
  | inr e ↦ rw e (Permᴰ.refl (c ∷ d ∷ ds))
]

-- Sorting keeps the candidates, and each of them stands in front of those that it comes before: by
-- lower priority, then by the smaller AID of the profile, the smaller name of the card, and the earlier
-- place of the profile.
pub sort_candidates-IsSorted :
    (cs : Candidates) → IsSorted (sort_candidates cs) × Permᴰ (sort_candidates cs) cs
unfolding sort_candidates
sort_candidates-IsSorted [] = (tt, Permᴰ.refl [])
sort_candidates-IsSorted (c ∷ cs) =
    let (sorted, perm) = sort_candidates-IsSorted cs in
    (
      insert_candidate-IsSorted c (sort_candidates cs) sorted,
      Permᴰ.trans (insert_candidate-Perm c (sort_candidates cs)) (Permᴰ.cons refl perm),
    )
