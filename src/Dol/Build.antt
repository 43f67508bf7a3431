-- ===== src/Dol/Build.antt =====
-- What `build_dol_with_policy` of src/dol.rs writes, entry by entry.
use hyperion_x_emv.Base.{
  ℕ, zero, suc, ◌+◌, ◌-◌, ◌^◌, ◌≤◌, ◌≡◌, refl, ap, Bool, not, ◌&&◌, List, [], ◌∷◌, ◌++◌, length,
  okay, err, arith, Option, some, none, take, replicate, all, KernelError, leb, ltb, if◌then◌else◌,
  length-append, length-take, length-replicate,
}
use mathlib.Core.List.{append_assoc, append-nil}
use hyperion_x_emv.Dol.{
  DolEntry, DolPaddingPolicy, is_exact, total_length, field_of, build_from, build_dol_with_policy,
  max_dol_output,
}
use hyperion_x_emv.Dol.Store.{DataStore, get}

-- A missing value counts as an empty one.
abbrev pub stored_or_empty : Option (List ℕ) → List ℕ
stored_or_empty none = []
stored_or_empty (some value) = value

-- The value under the entry's tag, cut or padded with zeroes to the entry's length.
abbrev pub fill_one : DataStore → DolEntry → List ℕ
fill_one store entry =
    take entry.len (stored_or_empty (get store entry.tag) ++ replicate entry.len 0)

abbrev pub fill : DataStore → List DolEntry → List ℕ
fill store [] = []
fill store (entry ∷ entries) = fill_one store entry ++ fill store entries

abbrev pub sum_lengths : List DolEntry → ℕ
sum_lengths [] = 0
sum_lengths (entry ∷ entries) = entry.len + sum_lengths entries

-- The store holds at least as many bytes as the entry asks for.
abbrev pub is_covered : DataStore → DolEntry → Bool
is_covered store entry = leb entry.len (length (stored_or_empty (get store entry.tag)))

take-long {ℓ} :
    {A : Type ℓ} (n : ℕ) (xs ys : List A) → n ≤ length xs → take n (xs ++ ys) ≡ take n xs
take-long zero xs ys h = refl
take-long (suc n) [] ys h = absurd (omega arith)
take-long (suc n) (x ∷ xs) ys h = ap (λ z. x ∷ z) (take-long n xs ys (omega arith))

take-replicate : (n m : ℕ) → n ≤ m → take {A = ℕ} n (replicate m 0) ≡ replicate n 0
take-replicate zero m h = refl
take-replicate (suc n) zero h = absurd (omega arith)
take-replicate (suc n) (suc m) h = ap (λ z. 0 ∷ z) (take-replicate n m (omega arith))

take-short :
    (n m : ℕ) (xs : List ℕ)
    → length xs ≤ n
    → n ≤ length xs + m
    → take n (xs ++ replicate m 0) ≡ xs ++ replicate (n - length xs) 0
take-short n m [] h k = let e : n - 0 ≡ n = omega arith in rw e (take-replicate n m (omega arith))
take-short zero m (x ∷ xs) h k = absurd (omega arith)
take-short (suc n) m (x ∷ xs) h k =
    let e : suc n - suc (length xs) ≡ n - length xs = omega arith in
    rw e (ap (λ z. x ∷ z) (take-short n m xs (omega arith) (omega arith)))

field_of_lem :
    (policy : DolPaddingPolicy) (n : ℕ) (stored : Option (List ℕ))
    → field_of policy n stored ≡ (
        if is_exact policy && not (leb n (length (stored_or_empty stored)))
        then err KernelError.missing_mandatory_tag
        else okay (take n (stored_or_empty stored ++ replicate n 0)))
unfolding field_of
field_of_lem policy n none = ground (arith, take-replicate n n, nothing n)
  where
    nothing : (k : ℕ) → k ≡ 0 → replicate {A = ℕ} k 0 ≡ []
    nothing zero e = refl
    nothing (suc k) e = absurd (omega arith)
field_of_lem policy n (some value) =
    ground (arith, take-long n value (replicate n 0), take-short n n value)

build_from_lem :
    (entries : List DolEntry) (store : DataStore) (policy : DolPaddingPolicy) (out : List ℕ)
    → build_from entries store policy out ≡ (
        if is_exact policy && not (all (is_covered store) entries)
        then err KernelError.missing_mandatory_tag
        else okay (out ++ fill store entries))
unfolding build_from
build_from_lem [] store policy out = ground (arith, append-nil out)
build_from_lem (entry ∷ entries) store policy out = ground (
  arith,
  field_of_lem policy entry.len (get store entry.tag),
  build_from_lem entries store policy (out ++ fill_one store entry),
  append_assoc out (fill_one store entry) (fill store entries),
)

total_length_lem :
    (acc : ℕ) (entries : List DolEntry)
    → total_length acc entries ≡ (
        if leb (2 ^ 64) (acc + sum_lengths entries) && ltb 0 (length entries)
        then err KernelError.length_overflow
        else okay (acc + sum_lengths entries))
unfolding total_length
total_length_lem acc [] = ground arith
total_length_lem acc (entry ∷ []) = ground arith
total_length_lem acc (entry ∷ e ∷ entries) =
    ground (arith, total_length_lem (acc + entry.len) (e ∷ entries))

-- Both policies refuse more than 252 bytes in all with a length overflow. Otherwise the exact policy
-- refuses a value that is missing or shorter than asked for, unless no byte is asked for, and in
-- every other case the output is each stored value, cut or padded with zeroes to its entry's length.
pub build_dol_with_policy_lem :
    (entries : List DolEntry) (store : DataStore) (policy : DolPaddingPolicy)
    → build_dol_with_policy entries store policy ≡ (
        if ltb max_dol_output (sum_lengths entries)
        then err KernelError.length_overflow
        else if is_exact policy && not (all (is_covered store) entries)
        then err KernelError.missing_mandatory_tag
        else okay (fill store entries))
unfolding build_dol_with_policy
build_dol_with_policy_lem entries store policy =
    ground (arith, total_length_lem 0 entries, build_from_lem entries store policy [])

pub length-fill :
    (store : DataStore) (entries : List DolEntry)
    → length (fill store entries) ≡ sum_lengths entries
length-fill store [] = refl
length-fill store (entry ∷ entries) =
    let value = stored_or_empty (get store entry.tag) in
    omega (
      arith,
      length-append (fill_one store entry) (fill store entries),
      length-take entry.len (value ++ replicate entry.len 0),
      length-append value (replicate entry.len 0),
      length-replicate entry.len (let z : ℕ = 0 in z),
      length-fill store entries,
    )

-- What is built has exactly the length that the list asks for, and at most 252 bytes.
pub length-build_dol_with_policy :
    (entries : List DolEntry) (store : DataStore) (policy : DolPaddingPolicy) (out : List ℕ)
    → build_dol_with_policy entries store policy ≡ okay out
    → (length out ≡ sum_lengths entries) × (length out ≤ max_dol_output)
length-build_dol_with_policy entries store policy out e =
    ground (arith, build_dol_with_policy_lem entries store policy, length-fill store entries)
