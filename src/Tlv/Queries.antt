-- ===== src/Tlv/Queries.antt =====
-- The searches of src/tlv.rs against what they look for: a list of the values under a tag.
use hyperion_x_emv.Base.{
  ℕ, ◌≡◌, refl, sym, ap, ◌∙◌, List, [], ◌∷◌, ◌++◌, Option, some, none, ◌=s=◌, if◌then◌else◌,
  KernelError, KernelResult, okay, err, arith,
}
use hyperion_x_emv.Tlv.{
  Tlv, Tlvs, node, nil, cons, tag, value, find_unique_from, find_unique_direct, find_first,
  first_of_node, FlatTlv, flatten, walk,
}

-- The values of the direct children under a tag, in order.
abbrev pub values_of : Tlvs → List ℕ → List (List ℕ)
values_of nil t = []
values_of (cons item items) t =
    if tag item =s= t then value item ∷ values_of items t else values_of items t

-- At most one of a list.
abbrev pub at_most_one {ℓ} : {A : Type ℓ} → List A → KernelResult (Option A)
at_most_one [] = okay none
at_most_one (a ∷ []) = okay (some a)
at_most_one (a ∷ b ∷ rest) = err KernelError.parse_error

abbrev pub found_list {ℓ} : {A : Type ℓ} → Option A → List A
found_list none = []
found_list (some a) = a ∷ []

find_unique_from_lem :
    (found : Option (List ℕ)) (ts : Tlvs) (t : List ℕ)
    → find_unique_from found ts t ≡ at_most_one (found_list found ++ values_of ts t)
unfolding find_unique_from
find_unique_from_lem none nil t = refl
find_unique_from_lem (some v) nil t = refl
find_unique_from_lem none (cons item items) t =
    ground
      (arith, find_unique_from_lem none items t, find_unique_from_lem (some (value item)) items t)
find_unique_from_lem (some v) (cons item items) t =
    ground (arith, find_unique_from_lem (some v) items t)

-- `find_unique_direct` returns the one value that a direct child has under the tag, nothing if no
-- child has the tag, and a parse error if two or more have it; it never looks below the children.
pub find_unique_direct_lem :
    (ts : Tlvs) (t : List ℕ) → find_unique_direct ts t ≡ at_most_one (values_of ts t)
unfolding find_unique_direct
find_unique_direct_lem ts t = find_unique_from_lem none ts t

-- The first entry of a flattened tree under a tag.
abbrev pub first_flat : List FlatTlv → List ℕ → Option (List ℕ)
first_flat [] t = none
first_flat (entry ∷ rest) t =
    if entry.flat_tag =s= t then some entry.flat_value else first_flat rest t

or_else : Option (List ℕ) → Option (List ℕ) → Option (List ℕ)
or_else (some a) later = some a
or_else none later = later

first_flat-append :
    (xs ys : List FlatTlv) (t : List ℕ)
    → first_flat (xs ++ ys) t ≡ or_else (first_flat xs t) (first_flat ys t)
unfolding or_else
first_flat-append [] ys t = refl
first_flat-append (x ∷ xs) ys t = ground (arith, first_flat-append xs ys t)

mutual
  unfolding find_first flatten or_else

  find_first_flat : (ts : Tlvs) (t : List ℕ) → find_first ts t ≡ first_flat (flatten ts) t
  find_first_flat nil t = refl
  find_first_flat (cons item items) t =
      first_of_node_flat item t (find_first items t)
      ∙ ap (or_else (first_flat (walk item) t)) (find_first_flat items t)
      ∙ sym (first_flat-append (walk item) (flatten items) t)

  first_of_node_flat :
      (item : Tlv) (t : List ℕ) (later : Option (List ℕ))
      → first_of_node item t later ≡ or_else (first_flat (walk item) t) later
  first_of_node_flat (node t' v c kids) t later = ground (arith, find_first_flat kids t)

-- `find_first` finds the first node in the order of `flatten` that has the tag.
pub find_first-flatten : (ts : Tlvs) (t : List ℕ) → find_first ts t ≡ first_flat (flatten ts) t
find_first-flatten ts t = find_first_flat ts t
