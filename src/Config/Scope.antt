-- ===== src/Config/Scope.antt =====
-- The schemes of a profile set of src/config.rs: distinct identifiers, and the bundle they come from.
use hyperion_x_emv.Base.{
  ℕ, ◌≡◌, inl, inr, ap, true, false, List, [], ◌∷◌, ◌=s=◌, =s=_iff, =s=_refl, any, All, arith,
  KernelError, okay, fail_if, >>=-eq-okay, Bool-cases,
}
use hyperion_x_emv.Config.{SchemeProfile, reject_duplicate_from, reject_duplicate_scheme_rids}

-- No scheme has the identifier.
abbrev pub IsFresh : List ℕ → List SchemeProfile → Type 0
IsFresh rid schemes = All (λ (s : SchemeProfile). (s.rid =s= rid) ≡ false) schemes

abbrev pub DistinctRids : List SchemeProfile → Type 0
DistinctRids [] = Unit {0}
DistinctRids (s ∷ schemes) = IsFresh s.rid schemes × DistinctRids schemes

-- A scheme that stands in front has no namesake behind.
later-IsFresh :
    (before schemes : List SchemeProfile) (rid : List ℕ)
    → any (λ (prior : SchemeProfile). prior.rid =s= rid) before ≡ true
    → reject_duplicate_from before schemes ≡ okay tt
    → IsFresh rid schemes
unfolding reject_duplicate_from
later-IsFresh before [] rid a h = tt
later-IsFresh before (s ∷ schemes) rid a h =
    let (u, p, h1) =
      >>=-eq-okay
        (fail_if (any (λ (prior : SchemeProfile). prior.rid =s= s.rid) before)
          KernelError.invalid_profile)
        _ h in
    (
      elim (Bool-cases (s.rid =s= rid)) [
        | inl e ↦
            let same =
              ap (λ (r : List ℕ). any (λ (prior : SchemeProfile). prior.rid =s= r) before)
                ((=s=_iff s.rid rid).0 e) in
            ground (arith, p, same, a)
        | inr e ↦ e
      ],
      later-IsFresh (s ∷ before) schemes rid (ground (arith, a)) h1,
    )

reject_duplicate_from_sound :
    (before schemes : List SchemeProfile)
    → reject_duplicate_from before schemes ≡ okay tt
    → DistinctRids schemes
unfolding reject_duplicate_from
reject_duplicate_from_sound before [] h = tt
reject_duplicate_from_sound before (s ∷ schemes) h =
    let (u, p, h1) =
      >>=-eq-okay
        (fail_if (any (λ (prior : SchemeProfile). prior.rid =s= s.rid) before)
          KernelError.invalid_profile)
        _ h in
    (
      later-IsFresh (s ∷ before) schemes s.rid (ground (arith, =s=_refl s.rid)) h1,
      reject_duplicate_from_sound (s ∷ before) schemes h1,
    )

-- The schemes of a set that passes have pairwise different identifiers.
pub reject_duplicate_scheme_rids_sound :
    (schemes : List SchemeProfile)
    → reject_duplicate_scheme_rids schemes ≡ okay tt
    → DistinctRids schemes
unfolding reject_duplicate_scheme_rids
reject_duplicate_scheme_rids_sound schemes h = reject_duplicate_from_sound [] schemes h
