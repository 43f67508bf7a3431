-- ===== src/Selection/Keys.antt =====
-- The keys of a candidate of src/selection.rs as an order, apart from the comparator of the code.
use hyperion_x_emv.Base.{
  ℕ, ◌<◌, ◌≤◌, ◌≡◌, ◌⊎◌, refl, sym, ◌∙◌, Bool, true, false, ◌&&◌, ◌||◌, List, [], ◌∷◌, ltb, ◌==◌,
  ◌=s=◌, =s=_iff, arith, Bool-cases, inl, inr,
}
use mathlib.Core.Path.{subst}
use hyperion_x_emv.Selection.{SelectionCandidate, bytes_less, precedes}

-- A byte string is smaller by its first byte that differs, or as the beginning of the other.
abbrev pub IsLess : List ℕ → List ℕ → Type 0
IsLess xs [] = ⊥
IsLess [] (y ∷ ys) = Unit {0}
IsLess (x ∷ xs) (y ∷ ys) = (x < y) ⊎ ((x ≡ y) × IsLess xs ys)

abbrev pub IsBelow : ℕ → ℕ → Type 0
IsBelow n m = n < m

-- One key decides, or it is the same and the rest decides.
abbrev pub Keyed : {A : Type 0} → (A → A → Type 0) → A → A → Type 0 → Type 0
Keyed Less x y Rest = Less x y ⊎ ((x ≡ y) × Rest)

-- The candidate may stand in front of the other: by priority, then by the profile's AID, the card's
-- name, and the place of the profile.
abbrev pub Comes : SelectionCandidate → SelectionCandidate → Type 0
Comes c d = Keyed IsBelow c.priority d.priority (
    Keyed IsLess c.aid d.aid (
      Keyed IsLess c.select_aid d.select_aid
        (Keyed IsBelow c.scheme_index d.scheme_index (c.aid_index ≤ d.aid_index))))

module _ {A : Type 0} (Less : A → A → Type 0) where
  Keyed-trans :
      {P Q R : Type 0} (x y z : A)
      → (Less x y → Less y z → Less x z)
      → (P → Q → R)
      → Keyed Less x y P
      → Keyed Less y z Q
      → Keyed Less x z R
  Keyed-trans x y z t k (inl a) (inl b) = inl (t a b)
  Keyed-trans x y z t k (inl a) (inr (e, q)) = inl (subst (Less x) e a)
  Keyed-trans x y z t k (inr (e, p)) (inl b) = inl (subst (λ w. Less w z) (sym e) b)
  Keyed-trans x y z t k (inr (e, p)) (inr (f, q)) = inr (e ∙ f, k p q)

-- The rest under the same key.
Keyed-map : {L E P Q : Type 0} → (P → Q) → L ⊎ (E × P) → L ⊎ (E × Q)
Keyed-map k (inl a) = inl a
Keyed-map k (inr (e, p)) = inr (e, k p)

IsLess-trans : (xs ys zs : List ℕ) → IsLess xs ys → IsLess ys zs → IsLess xs zs
IsLess-trans xs ys [] h k = k
IsLess-trans xs [] (z ∷ zs) h k = elim h [ ]
IsLess-trans [] (y ∷ ys) (z ∷ zs) h k = tt
IsLess-trans (x ∷ xs) (y ∷ ys) (z ∷ zs) h k =
    Keyed-trans IsBelow x y z (λ a b. omega (arith, a, b)) (IsLess-trans xs ys zs) h k

pub Comes-trans : (a b c : SelectionCandidate) → Comes a b → Comes b c → Comes a c
Comes-trans a b c =
    Keyed-trans IsBelow a.priority b.priority c.priority (λ h k. omega (arith, h, k))
      (Keyed-trans IsLess a.aid b.aid c.aid (IsLess-trans a.aid b.aid c.aid) (
        Keyed-trans IsLess a.select_aid b.select_aid c.select_aid
          (IsLess-trans a.select_aid b.select_aid c.select_aid)
          (Keyed-trans IsBelow a.scheme_index b.scheme_index c.scheme_index
            (λ h k. omega (arith, h, k)) (λ h k. omega (arith, h, k)))))

-- What a step of the comparator says of one key.
module _ (n m : ℕ) (r : Bool) where
  number_first : (ltb n m || (n == m && r)) ≡ true → Keyed IsBelow n m (r ≡ true)
  number_first h = elim (Bool-cases (ltb n m)) [
    | inl e ↦ inl (ground (arith, e))
    | inr e ↦ inr (ground (arith, e, h), ground (arith, e, h))
  ]

  number_not_first : (ltb n m || (n == m && r)) ≡ false → Keyed IsBelow m n (r ≡ false)
  number_not_first h = elim (Bool-cases (ltb m n)) [
    | inl e ↦ inl (ground (arith, e))
    | inr e ↦ inr (ground (arith, e, h), ground (arith, e, h))
  ]

bytes_less-IsLess : (xs ys : List ℕ) → bytes_less xs ys ≡ true → IsLess xs ys
unfolding bytes_less
bytes_less-IsLess xs [] h = cc
bytes_less-IsLess [] (y ∷ ys) h = tt
bytes_less-IsLess (x ∷ xs) (y ∷ ys) h =
    Keyed-map (bytes_less-IsLess xs ys) (number_first x y (bytes_less xs ys) h)

not-IsLess : (xs ys : List ℕ) → bytes_less xs ys ≡ false → IsLess ys xs ⊎ (ys ≡ xs)
unfolding bytes_less
not-IsLess [] [] h = inr refl
not-IsLess (x ∷ xs) [] h = inl tt
not-IsLess [] (y ∷ ys) h = cc
not-IsLess (x ∷ xs) (y ∷ ys) h = elim (number_not_first x y (bytes_less xs ys) h) [
  | inl a ↦ inl (inl a)
  | inr (e, k) ↦ elim (not-IsLess xs ys k) [
    | inl l ↦ inl (inr (e, l))
    | inr same ↦ inr (rw (e, same) refl)
  ]
]

module _ (xs ys : List ℕ) (r : Bool) where
  bytes_first : (bytes_less xs ys || (xs =s= ys && r)) ≡ true → Keyed IsLess xs ys (r ≡ true)
  bytes_first h = elim (Bool-cases (bytes_less xs ys)) [
    | inl e ↦ inl (bytes_less-IsLess xs ys e)
    | inr e ↦ inr ((=s=_iff xs ys).0 (ground (arith, e, h)), ground (arith, e, h))
  ]

  bytes_not_first : (bytes_less xs ys || (xs =s= ys && r)) ≡ false → Keyed IsLess ys xs (r ≡ false)
  bytes_not_first h = elim (not-IsLess xs ys (ground (arith, h))) [
    | inl l ↦ inl l
    | inr same ↦
        let eq : (xs =s= ys) ≡ true = (=s=_iff xs ys).1 (sym same) in
        inr (same, ground (arith, eq, h))
  ]

-- The comparator of the code decides the order.
pub precedes-Comes : (c d : SelectionCandidate) → precedes c d ≡ true → Comes c d
unfolding precedes
precedes-Comes c d h =
    Keyed-map
      (λ h1.
        Keyed-map
          (λ h2.
            Keyed-map
              (λ h3.
                Keyed-map (λ h4. ground (arith, h4))
                  (number_first c.scheme_index d.scheme_index _ h3))
              (bytes_first c.select_aid d.select_aid _ h2))
          (bytes_first c.aid d.aid _ h1))
      (number_first c.priority d.priority _ h)

pub not_precedes : (c d : SelectionCandidate) → precedes c d ≡ false → Comes d c
unfolding precedes
not_precedes c d h =
    Keyed-map
      (λ h1.
        Keyed-map
          (λ h2.
            Keyed-map
              (λ h3.
                Keyed-map (λ h4. ground (arith, h4))
                  (number_not_first c.scheme_index d.scheme_index _ h3))
              (bytes_not_first c.select_aid d.select_aid _ h2))
          (bytes_not_first c.aid d.aid _ h1))
      (number_not_first c.priority d.priority _ h)
