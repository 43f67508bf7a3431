-- ===== src/Selection/Directory.antt =====
-- The names of a directory of src/selection.rs, and the name of a selected application.
use hyperion_x_emv.Base.{
  ℕ, ◌≤◌, ◌≡◌, refl, sym, ap, ◌∙◌, true, false, not, ◌&&◌, ◌||◌, List, [], ◌∷◌, ◌++◌, Option, some,
  none, leb, ◌=s=◌, =s=_iff, if◌then◌else◌, length, length-append, any, All, All-append, arith,
  KernelError, okay, ◌>>=◌, fail_if, ok_or, >>=-eq-okay, Bool-cases, inl, inr,
}
use mathlib.Core.Path.{subst}
use mathlib.Core.List.{append_assoc, append-nil}
use hyperion_x_emv.Apdu.{min_aid_len, max_aid_len}
use hyperion_x_emv.Tlv.{Tlvs, node, nil, cons, parse_many, find_unique_direct}
use hyperion_x_emv.Tlv.Queries.{values_of, at_most_one, find_unique_direct_lem}
use hyperion_x_emv.Selection.{
  max_candidate_aids, fci_children, push_unique_aid, directory_entries, proprietary_entries,
  fci_entries, parse_fci_candidate_aids,
}
use hyperion_x_emv.Selection.Candidates.{repeats}

abbrev pub IsName : List ℕ → Type 0
IsName aid = (min_aid_len ≤ length aid) × (length aid ≤ max_aid_len)

-- Names of 5 to 16 bytes, none twice, 32 at most.
pub record AreNames (names : List (List ℕ)) : Type 0 where
  pub sized : All IsName names
  pub distinct : repeats names ≡ false
  pub few : length names ≤ max_candidate_aids

any_last :
    (names : List (List ℕ)) (c a : List ℕ)
    → any (λ d. c =s= d) (names ++ (a ∷ [])) ≡ (any (λ d. c =s= d) names || c =s= a)
any_last [] c a = ground arith
any_last (n ∷ names) c a = ground (arith, any_last names c a)

repeats-append :
    (names : List (List ℕ)) (a : List ℕ)
    → repeats (names ++ (a ∷ [])) ≡ (repeats names || any (λ stored. stored =s= a) names)
repeats-append [] a = refl
repeats-append (n ∷ names) a = ground (arith, any_last names n a, repeats-append names a)

push_unique_aid-AreNames :
    (out out' : List (List ℕ)) (aid : List ℕ)
    → AreNames out
    → push_unique_aid out aid ≡ okay out'
    → (out' ≡ out ++ (aid ∷ [])) × AreNames out'
unfolding push_unique_aid
push_unique_aid-AreNames out out' aid n h =
    let (u1, p1, h1) =
      >>=-eq-okay
        (fail_if (not (leb min_aid_len (length aid) && leb (length aid) max_aid_len))
          KernelError.invalid_profile)
        _ h in
    let (u2, p2, h2) =
      >>=-eq-okay (fail_if (leb max_candidate_aids (length out)) KernelError.length_overflow) _
        h1 in
    let (u3, p3, h3) =
      >>=-eq-okay (fail_if (any (λ stored. stored =s= aid) out) KernelError.parse_error) _ h2 in
    let same : out ++ (aid ∷ []) ≡ out' = ground (arith, h3) in
    (
      sym same,
      subst AreNames (same) (record {
        sized =
            All-append IsName out (aid ∷ []) n.sized ((ground (arith, p1), ground (arith, p1)), tt);
        distinct = ground (arith, repeats-append out aid, p3, n.distinct);
        few = ground (arith, p2, length-append out (aid ∷ []));
      }),
    )

-- For each template 61 in the three levels of templates, in order, all its values under 4F.
abbrev pub entry_values : Tlvs → List (List (List ℕ))
entry_values nil = []
entry_values (cons (node t v c kids) items) =
    if not (t =s= (0x61 ∷ [])) || not c
    then entry_values items
    else values_of kids (0x4f ∷ []) ∷ entry_values items

abbrev pub proprietary_values : Tlvs → List (List (List ℕ))
proprietary_values nil = []
proprietary_values (cons (node t v c kids) items) =
    if not (t =s= (0xbf ∷ 0x0c ∷ [])) || not c
    then proprietary_values items
    else entry_values kids ++ proprietary_values items

abbrev pub fci_values : Tlvs → List (List (List ℕ))
fci_values nil = []
fci_values (cons (node t v c kids) items) =
    if not (t =s= (0xa5 ∷ [])) || not c
    then fci_values items
    else proprietary_values kids ++ fci_values items

-- One name for each of the templates.
abbrev pub one_each : List (List ℕ) → List (List (List ℕ))
one_each [] = []
one_each (name ∷ names) = (name ∷ []) ∷ one_each names

one_each-append : (xs ys : List (List ℕ)) → one_each (xs ++ ys) ≡ one_each xs ++ one_each ys
one_each-append [] ys = refl
one_each-append (x ∷ xs) ys = rw (one_each-append xs ys) refl

-- Names that are added behind those so far, the only values of the templates.
record Adds (out : List (List ℕ)) (values : List (List (List ℕ))) (out' : List (List ℕ))
    : Type 0 where
  names : List (List ℕ)
  appended : out' ≡ out ++ names
  only : values ≡ one_each names
  named : AreNames out'

Adds-none : (out out' : List (List ℕ)) → AreNames out → okay out ≡ okay out' → Adds out [] out'
Adds-none out out' n h =
    let same : out ≡ out' = ground (arith, h) in
    record {
      names = [];
      appended = sym same ∙ sym (append-nil out);
      only = refl;
      named = subst AreNames (same) n;
    }

then-Adds :
    (out mid out' : List (List ℕ)) (first second : List (List (List ℕ)))
    → Adds out first mid
    → Adds mid second out'
    → Adds out (first ++ second) out'
then-Adds out mid out' first second a b = record {
  names = a.names ++ b.names;
  appended = b.appended ∙ ap (λ m. m ++ b.names) a.appended ∙ append_assoc out a.names b.names;
  only = rw (a.only, b.only, one_each-append a.names b.names) refl;
  named = b.named;
}

-- The one value under 4F.
only_value :
    (kids : Tlvs) (u : List ℕ) (o : Option (List ℕ)) (v : List ℕ) (e : KernelError)
    → find_unique_direct kids u ≡ okay o
    → ok_or o e ≡ okay v
    → values_of kids u ≡ v ∷ []
only_value kids u o v e h k = go (values_of kids u) o (sym (find_unique_direct_lem kids u) ∙ h) k
  where
    go :
        (vs : List (List ℕ)) (o : Option (List ℕ))
        → at_most_one vs ≡ okay o
        → ok_or o e ≡ okay v
        → vs ≡ v ∷ []
    go [] none a b = cc
    go [] (some x) a b = cc
    go (x ∷ []) none a b = cc
    go (x ∷ []) (some y) a b = ground (arith, a, b)
    go (x ∷ y ∷ vs) o a b = cc

directory_entries_sound :
    (items : Tlvs) (out out' : List (List ℕ))
    → AreNames out
    → directory_entries items out ≡ okay out'
    → Adds out (entry_values items) out'
unfolding directory_entries
directory_entries_sound nil out out' n h = Adds-none out out' n h
directory_entries_sound (cons (node t v c kids) items) out out' n h =
    elim (Bool-cases (not (t =s= (0x61 ∷ [])) || not c)) [
      | inl e ↦ rw e (directory_entries_sound items out out' n (ground (arith, e)))
      | inr e ↦
          let body : (do
            found ← find_unique_direct kids (0x4f ∷ [])
            aid ← ok_or found KernelError.missing_mandatory_tag
            mid ← push_unique_aid out aid
            directory_entries items mid)
              ≡ okay out' =
            ground (arith, e) in
          let (o, p1, h1) = >>=-eq-okay (find_unique_direct kids (0x4f ∷ [])) _ body in
          let (aid, p2, h2) = >>=-eq-okay (ok_or o KernelError.missing_mandatory_tag) _ h1 in
          let (mid, p3, h3) = >>=-eq-okay (push_unique_aid out aid) _ h2 in
          let pushed = push_unique_aid-AreNames out mid aid n p3 in
          let value = only_value kids (0x4f ∷ []) o aid KernelError.missing_mandatory_tag p1 p2 in
          rw (e, value)
            (then-Adds out mid out' ((aid ∷ []) ∷ []) (entry_values items)
              (record { names = aid ∷ []; appended = pushed.0; only = refl; named = pushed.1 })
              (directory_entries_sound items mid out' pushed.1 h3))
    ]

proprietary_entries_sound :
    (items : Tlvs) (out out' : List (List ℕ))
    → AreNames out
    → proprietary_entries items out ≡ okay out'
    → Adds out (proprietary_values items) out'
unfolding proprietary_entries
proprietary_entries_sound nil out out' n h = Adds-none out out' n h
proprietary_entries_sound (cons (node t v c kids) items) out out' n h =
    elim (Bool-cases (not (t =s= (0xbf ∷ 0x0c ∷ [])) || not c)) [
      | inl e ↦ rw e (proprietary_entries_sound items out out' n (ground (arith, e)))
      | inr e ↦
          let body : (directory_entries kids out >>= proprietary_entries items) ≡ okay out' =
            ground (arith, e) in
          let (mid, p1, h1) = >>=-eq-okay (directory_entries kids out) _ body in
          let first = directory_entries_sound kids out mid n p1 in
          rw e (
            then-Adds out mid out' (entry_values kids) (proprietary_values items) first
              (proprietary_entries_sound items mid out' first.named h1))
    ]

fci_entries_sound :
    (items : Tlvs) (out out' : List (List ℕ))
    → AreNames out
    → fci_entries items out ≡ okay out'
    → Adds out (fci_values items) out'
unfolding fci_entries
fci_entries_sound nil out out' n h = Adds-none out out' n h
fci_entries_sound (cons (node t v c kids) items) out out' n h =
    elim (Bool-cases (not (t =s= (0xa5 ∷ [])) || not c)) [
      | inl e ↦ rw e (fci_entries_sound items out out' n (ground (arith, e)))
      | inr e ↦
          let body : (proprietary_entries kids out >>= fci_entries items) ≡ okay out' =
            ground (arith, e) in
          let (mid, p1, h1) = >>=-eq-okay (proprietary_entries kids out) _ body in
          let first = proprietary_entries_sound kids out mid n p1 in
          rw e (
            then-Adds out mid out' (proprietary_values kids) (fci_values items) first
              (fci_entries_sound items mid out' first.named h1))
    ]

fci_children_lem :
    (tlvs kids : Tlvs)
    → fci_children tlvs ≡ okay kids
    → (inside : List ℕ) × (tlvs ≡ cons (node (0x6f ∷ []) inside true kids) nil)
unfolding fci_children
fci_children_lem nil kids h = cc
fci_children_lem (cons (node t v true ks) nil) kids h = (v, ground (arith, =s=_iff t (0x6f ∷ [])))
fci_children_lem (cons (node t v false ks) nil) kids h = ground arith
fci_children_lem (cons item (cons next items)) kids h = ground arith

-- An accepted directory is one template 6F. Each template 61 in a BF0C in an A5 of it has exactly one
-- value 4F, and the names are these values in order; they have 5 to 16 bytes, none occurs twice, and
-- they are 32 at most.
pub parse_fci_candidate_aids_sound :
    (fci : List ℕ) (names : List (List ℕ))
    → parse_fci_candidate_aids fci ≡ okay names
    → (inside : List ℕ) × (kids : Tlvs) × (parse_many fci
        ≡ okay (cons (node (0x6f ∷ []) inside true kids) nil))
      × (fci_values kids ≡ one_each names)
      × AreNames names
unfolding parse_fci_candidate_aids
parse_fci_candidate_aids_sound fci names h =
    let (tlvs, parsed, h1) = >>=-eq-okay (parse_many fci) _ h in
    let (kids, p, h2) = >>=-eq-okay (fci_children tlvs) _ h1 in
    let (inside, shape) = fci_children_lem tlvs kids p in
    let none_yet : AreNames [] = record { sized = tt; distinct = refl; few = omega arith } in
    let adds = fci_entries_sound kids [] names none_yet h2 in
    (inside, kids, parsed ∙ ap okay shape, adds.only ∙ ap one_each (sym adds.appended), adds.named)
