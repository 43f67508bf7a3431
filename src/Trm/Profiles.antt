-- ===== src/Trm/Profiles.antt =====
-- The floor limits by transaction type of src/trm.rs.
use hyperion_x_emv.Base.{
  ℕ, zero, suc, ◌≡◌, ◌≤◌, refl, Bool, false, ◌||◌, List, [], ◌∷◌, ◌++◌, Option, some, ◌==◌, length,
  any, get_elem?, arith, Bool-cases, inl, inr,
}
use hyperion_x_emv.Trm.{
  TransactionTypeFloorLimit, TrmProfile, repeats_type, with_transaction_type_floor_limits,
  floor_limit_from, floor_limit_for_transaction_type, max_transaction_type_floor_limits,
}

abbrev has_type : ℕ → TransactionTypeFloorLimit → Bool
has_type t limit = limit.transaction_type == t

any-append :
    (t : ℕ) (xs ys : List TransactionTypeFloorLimit)
    → any (has_type t) (xs ++ ys) ≡ any (has_type t) xs || any (has_type t) ys
any-append t [] ys = refl
any-append t (x ∷ xs) ys = ground (arith, any-append t xs ys)

-- A later limit has none of the types before it.
repeats_type-any :
    (prior limits : List TransactionTypeFloorLimit) (i : ℕ) (l : TransactionTypeFloorLimit)
    → repeats_type prior limits ≡ false
    → get_elem? limits i ≡ some l
    → any (has_type l.transaction_type) prior ≡ false
unfolding repeats_type
repeats_type-any prior [] i l h e = cc
repeats_type-any prior (x ∷ xs) zero l h e = ground arith
repeats_type-any prior (x ∷ xs) (suc i) l h e = ground (
  arith,
  repeats_type-any (prior ++ (x ∷ [])) xs i l (ground arith) e,
  any-append l.transaction_type prior (x ∷ []),
)

floor_limit_from-listed :
    (prior limits : List TransactionTypeFloorLimit) (i otherwise : ℕ)
    (l : TransactionTypeFloorLimit)
    → repeats_type prior limits ≡ false
    → get_elem? limits i ≡ some l
    → floor_limit_from otherwise limits l.transaction_type ≡ l.floor_limit
unfolding repeats_type floor_limit_from
floor_limit_from-listed prior [] i otherwise l h e = cc
floor_limit_from-listed prior (x ∷ xs) zero otherwise l h e = ground arith
floor_limit_from-listed prior (x ∷ xs) (suc i) otherwise l h e = ground (
  arith,
  floor_limit_from-listed (prior ++ (x ∷ [])) xs i otherwise l (ground arith) e,
  repeats_type-any (prior ++ (x ∷ [])) xs i l (ground arith) e,
  any-append l.transaction_type prior (x ∷ []),
)

floor_limit_from-unlisted :
    (limits : List TransactionTypeFloorLimit) (otherwise t : ℕ)
    → any (has_type t) limits ≡ false
    → floor_limit_from otherwise limits t ≡ otherwise
unfolding floor_limit_from
floor_limit_from-unlisted [] otherwise t h = refl
floor_limit_from-unlisted (x ∷ xs) otherwise t h =
    ground (arith, floor_limit_from-unlisted xs otherwise t)

-- In an accepted profile the selection percentage is at most 100, at most 16 types have a limit of
-- their own, and wherever in the list a limit stands, its transaction type gets that limit.
pub floor_limit-listed :
    (limit percent i : ℕ) (limits : List TransactionTypeFloorLimit) (lower upper : Option ℕ)
    (p : TrmProfile) (l : TransactionTypeFloorLimit)
    → with_transaction_type_floor_limits limit limits percent lower upper ≡ some p
    → get_elem? limits i ≡ some l
    → (floor_limit_for_transaction_type p l.transaction_type ≡ l.floor_limit)
      × (p.random_selection_percent ≤ 100)
      × (length p.transaction_type_floor_limits ≤ max_transaction_type_floor_limits)
unfolding with_transaction_type_floor_limits floor_limit_for_transaction_type
floor_limit-listed limit percent i limits lower upper p l h e =
    elim (Bool-cases (repeats_type [] limits)) [
      | inl bad ↦ absurd (ground arith)
      | inr fine ↦ (
        ground (arith, floor_limit_from-listed [] limits i limit l fine e),
        ground arith,
        ground arith,
      )
    ]
