-- ===== src/Base/Tests.antt =====
-- Boolean tests on native numbers and on byte strings, and the conditional.
use Prim.Native.Nat.{ℕ, zero, suc, ◌≤◌, ◌<◌, compare, Ordering}
use mathlib.Core.Path.{◌≡◌, refl}
use mathlib.Core.Logic.{◌↔◌, ◌⊎◌, inl, inr}
use mathlib.Core.Bool.{Bool, true, false, ◌&&◌}
use mathlib.Core.List.{List, [], ◌∷◌}
use mathlib.Core.Option.{Option, none, some}
use native.Mathlib.Omega.{arith}

abbrev pub ltb : ℕ → ℕ → Bool
ltb a b = elim (compare a b) [ Ordering.lt ↦ true | _ ↦ false ]

abbrev pub leb : ℕ → ℕ → Bool
leb a b = elim (compare a b) [ Ordering.gt ↦ false | _ ↦ true ]

infix 50 ◌==◌
abbrev pub ◌==◌ : ℕ → ℕ → Bool
a == b = elim (compare a b) [ Ordering.eq ↦ true | _ ↦ false ]

infix 1 if◌then◌else◌
abbrev pub if◌then◌else◌ {ℓ} : {A : Type ℓ} → Bool → A → A → A
if true then x else y = x
if false then x else y = y

pub ==_iff : (a b : ℕ) → ((a == b) ≡ true) ↔ (a ≡ b)
==_iff a b = ground arith

pub ==_refl : (a : ℕ) → (a == a) ≡ true
==_refl a = ground arith

pub ltb→lt : (a b : ℕ) → ltb a b ≡ true → a < b
ltb→lt a b h = ground arith

pub lt→ltb : (a b : ℕ) → a < b → ltb a b ≡ true
lt→ltb a b h = ground arith

pub leb→le : (a b : ℕ) → leb a b ≡ true → a ≤ b
leb→le a b h = ground arith

pub Bool-cases : (b : Bool) → (b ≡ true) ⊎ (b ≡ false)
Bool-cases true = inl refl
Bool-cases false = inr refl

pub Option-cases {ℓ} : {A : Type ℓ} (o : Option A) → (o ≡ none) ⊎ ((a : A) × (o ≡ some a))
Option-cases none = inl refl
Option-cases (some a) = inr (a, refl)

abbrev pub is_some {ℓ} : {A : Type ℓ} → Option A → Bool
is_some none = false
is_some (some a) = true

pub and_true : (a b : Bool) → (a && b) ≡ true → (a ≡ true) × (b ≡ true)
and_true true b h = (refl, h)
and_true false b h = cc

-- Equality of byte strings (`&[u8]`), as Rust compares slices.
infix 50 ◌=s=◌
unfoldable pub ◌=s=◌ : List ℕ → List ℕ → Bool
[] =s= [] = true
[] =s= (y ∷ ys) = false
(x ∷ xs) =s= [] = false
(x ∷ xs) =s= (y ∷ ys) = (x == y) && (xs =s= ys)

pub =s=→eq : (xs ys : List ℕ) → (xs =s= ys) ≡ true → xs ≡ ys
unfolding ◌=s=◌
=s=→eq [] [] h = refl
=s=→eq [] (y ∷ ys) h = cc
=s=→eq (x ∷ xs) [] h = cc
=s=→eq (x ∷ xs) (y ∷ ys) h = ground (arith, =s=→eq xs ys)

pub =s=_refl : (xs : List ℕ) → (xs =s= xs) ≡ true
unfolding ◌=s=◌
=s=_refl [] = refl
=s=_refl (x ∷ xs) = ground (arith, =s=_refl xs)

pub =s=_iff : (xs ys : List ℕ) → ((xs =s= ys) ≡ true) ↔ (xs ≡ ys)
=s=_iff xs ys = (=s=→eq xs ys, λ e. cc (=s=_refl xs, e))

-- A test of every number below a bound, from the bound down.
unfoldable pub all_below : ℕ → (ℕ → Bool) → Bool
all_below (suc bound) test = all_below bound test && test bound
all_below zero test = true

pub all_below_sound :
    (bound : ℕ) (test : ℕ → Bool) (k : ℕ) → all_below bound test ≡ true → k < bound → test k ≡ true
unfolding all_below
all_below_sound (suc bound) test k passed below =
    let earlier = all_below_sound bound test k in ground (arith, earlier)
all_below_sound zero test k passed below = absurd (omega arith)
