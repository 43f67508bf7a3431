-- ===== src/Selection/Candidates.antt =====
-- The candidate lists of src/selection.rs, against a plain list of all matches.
use hyperion_x_emv.Base.{
  ℕ, ◌+◌, ◌≤◌, ◌≡◌, refl, ap, ◌∙◌, Bool, false, ◌||◌, List, [], ◌∷◌, ◌++◌, ltb, leb, ◌=s=◌,
  if◌then◌else◌, length, length-append, is_empty, any, arith, KernelError, KernelResult, okay, err,
  ◌>>=◌, fail_if, Bool-cases, inl, inr,
}
use mathlib.Core.List.{append_assoc, append-nil}
use hyperion_x_emv.Apdu.{Interface}
use hyperion_x_emv.Config.{AidProfile, SchemeProfile, ProfileSet}
use hyperion_x_emv.Selection.{
  SelectionCandidate, Candidates, max_candidate_aids, aid_matches, supports, candidate_of,
  push_candidate, sort_candidates, finish, match_cards, match_aids, match_schemes,
  reject_duplicate_card_from, match_profile_candidates,
}

-- Adding all of a list, or failing when they are too many.
abbrev add_all : Candidates → Candidates → KernelResult Candidates
add_all out new =
    if leb (length out + length new) max_candidate_aids
    then okay (out ++ new)
    else err KernelError.length_overflow

-- A step that adds some candidates, and a step that adds others.
add_all-then :
    (out first second : Candidates) (k : Candidates → KernelResult Candidates)
    → length out ≤ max_candidate_aids
    → ((o : Candidates) → length o ≤ max_candidate_aids → k o ≡ add_all o second)
    → (add_all out first >>= k) ≡ add_all out (first ++ second)
add_all-then out first second k small next =
    elim (Bool-cases (leb (length out + length first) max_candidate_aids)) [
      | inl e ↦
          let fits : length (out ++ first) ≤ max_candidate_aids =
            ground (arith, e, length-append out first) in
          ground (
            arith,
            e,
            next (out ++ first) fits,
            append_assoc out first second,
            length-append out first,
            length-append first second,
          )
      | inr e ↦ ground (arith, e, length-append first second)
    ]

push-then :
    (out second : Candidates) (c : SelectionCandidate) (k : Candidates → KernelResult Candidates)
    → length out ≤ max_candidate_aids
    → ((o : Candidates) → length o ≤ max_candidate_aids → k o ≡ add_all o second)
    → (push_candidate out c >>= k) ≡ add_all out (c ∷ second)
unfolding push_candidate
push-then out second c k small next =
    let one : push_candidate out c ≡ add_all out (c ∷ []) = ground arith in
    ap (λ r. r >>= k) one ∙ add_all-then out (c ∷ []) second k small next

add_none : (out : Candidates) → length out ≤ max_candidate_aids → okay out ≡ add_all out []
add_none out small = ground (arith, append-nil out)

-- All matches, in the order of the profiles and of the card's names.
abbrev pub card_matches : AidProfile → ℕ → ℕ → List (List ℕ) → Candidates
card_matches p si ai [] = []
card_matches p si ai (card ∷ cards) =
    if aid_matches card p.aid p.partial_selection
    then candidate_of p card si ai ∷ card_matches p si ai cards
    else card_matches p si ai cards

abbrev pub aid_list_matches : Interface → List (List ℕ) → ℕ → ℕ → List AidProfile → Candidates
aid_list_matches i cards si ai [] = []
aid_list_matches i cards si ai (p ∷ ps) =
    if supports p i
    then card_matches p si ai cards ++ aid_list_matches i cards si (ai + 1) ps
    else aid_list_matches i cards si (ai + 1) ps

abbrev pub scheme_matches : Interface → List (List ℕ) → ℕ → List SchemeProfile → Candidates
scheme_matches i cards si [] = []
scheme_matches i cards si (s ∷ ss) =
    aid_list_matches i cards si 0 s.aids ++ scheme_matches i cards (si + 1) ss

match_cards_lem :
    (p : AidProfile) (si ai : ℕ) (cards : List (List ℕ)) (out : Candidates)
    → length out ≤ max_candidate_aids
    → match_cards p si ai cards out ≡ add_all out (card_matches p si ai cards)
unfolding match_cards
match_cards_lem p si ai [] out small = add_none out small
match_cards_lem p si ai (card ∷ cards) out small =
    let step =
      push-then out (card_matches p si ai cards) (candidate_of p card si ai)
        (match_cards p si ai cards) small (match_cards_lem p si ai cards) in
    elim (Bool-cases (aid_matches card p.aid p.partial_selection)) [
      | inl e ↦ rw e step
      | inr e ↦ rw e (match_cards_lem p si ai cards out small)
    ]

match_aids_lem :
    (i : Interface) (cards : List (List ℕ)) (si ai : ℕ) (ps : List AidProfile) (out : Candidates)
    → length out ≤ max_candidate_aids
    → match_aids i cards si ai ps out ≡ add_all out (aid_list_matches i cards si ai ps)
unfolding match_aids
match_aids_lem i cards si ai [] out small = add_none out small
match_aids_lem i cards si ai (p ∷ ps) out small =
    let step =
      ap (λ r. r >>= match_aids i cards si (ai + 1) ps) (match_cards_lem p si ai cards out small)
      ∙ add_all-then out (card_matches p si ai cards) (aid_list_matches i cards si (ai + 1) ps)
          (match_aids i cards si (ai + 1) ps) small (match_aids_lem i cards si (ai + 1) ps) in
    elim (Bool-cases (supports p i)) [
      | inl e ↦ rw e step
      | inr e ↦ rw e (match_aids_lem i cards si (ai + 1) ps out small)
    ]

match_schemes_lem :
    (i : Interface) (cards : List (List ℕ)) (si : ℕ) (ss : List SchemeProfile) (out : Candidates)
    → length out ≤ max_candidate_aids
    → match_schemes i cards si ss out ≡ add_all out (scheme_matches i cards si ss)
unfolding match_schemes
match_schemes_lem i cards si [] out small = add_none out small
match_schemes_lem i cards si (s ∷ ss) out small =
    ap (λ r. r >>= match_schemes i cards (si + 1) ss) (match_aids_lem i cards si 0 s.aids out small)
    ∙ add_all-then out (aid_list_matches i cards si 0 s.aids) (scheme_matches i cards (si + 1) ss)
        (match_schemes i cards (si + 1) ss) small (match_schemes_lem i cards (si + 1) ss)

-- A name that occurs twice.
abbrev pub repeats : List (List ℕ) → Bool
repeats [] = false
repeats (c ∷ cs) = any (λ d. c =s= d) cs || repeats cs

abbrev any_known : List (List ℕ) → List (List ℕ) → Bool
any_known before [] = false
any_known before (c ∷ cs) = any (λ prior. prior =s= c) before || any_known before cs

any-append :
    (c : List ℕ) (before : List (List ℕ)) (d : List ℕ)
    → any (λ prior. prior =s= c) (before ++ (d ∷ []))
      ≡ (any (λ prior. prior =s= c) before || d =s= c)
any-append c [] d = ground arith
any-append c (b ∷ before) d = ground (arith, any-append c before d)

any_known-append :
    (before cs : List (List ℕ)) (d : List ℕ)
    → any_known (before ++ (d ∷ [])) cs ≡ (any_known before cs || any (λ c. d =s= c) cs)
any_known-append before [] d = refl
any_known-append before (c ∷ cs) d =
    ground (arith, any-append c before d, any_known-append before cs d)

reject_duplicate_card_from_lem :
    (before cs : List (List ℕ))
    → reject_duplicate_card_from before cs
      ≡ fail_if (any_known before cs || repeats cs) KernelError.parse_error
unfolding reject_duplicate_card_from
reject_duplicate_card_from_lem before [] = refl
reject_duplicate_card_from_lem before (c ∷ cs) =
    ground
      (arith, reject_duplicate_card_from_lem (before ++ (c ∷ [])) cs, any_known-append before cs c)

none_known : (cs : List (List ℕ)) → any_known [] cs ≡ false
none_known [] = refl
none_known (c ∷ cs) = none_known cs

-- The plain definition: refusals, and the sorted list of all matches.
abbrev pub expected_candidates : Candidates → KernelResult Candidates
expected_candidates matches =
    if ltb max_candidate_aids (length matches)
    then err KernelError.length_overflow
    else if is_empty (sort_candidates matches)
    then err KernelError.no_common_aid
    else okay (sort_candidates matches)

add_all-finish :
    (matches : Candidates) → (add_all [] matches >>= finish) ≡ expected_candidates matches
unfolding finish
add_all-finish matches = ground arith

-- The candidates for a card's names are the sorted list of all matches of a profile for the interface
-- and a name; it refuses more than 32 names, a repeated name, more than 32 matches, and no match.
pub match_profile_candidates_lem :
    (profiles : ProfileSet) (i : Interface) (cards : List (List ℕ))
    → match_profile_candidates profiles i cards ≡ (
        if ltb max_candidate_aids (length cards)
        then err KernelError.length_overflow
        else if repeats cards
        then err KernelError.parse_error
        else expected_candidates (scheme_matches i cards 0 profiles.schemes))
unfolding match_profile_candidates
match_profile_candidates_lem profiles i cards =
    let found =
      ap (λ r. r >>= finish) (match_schemes_lem i cards 0 profiles.schemes [] (omega arith))
      ∙ add_all-finish (scheme_matches i cards 0 profiles.schemes) in
    let unique : reject_duplicate_card_from [] cards
        ≡ fail_if (repeats cards) KernelError.parse_error =
      reject_duplicate_card_from_lem [] cards ∙ rw (none_known cards) refl in
    elim (Bool-cases (ltb max_candidate_aids (length cards))) [
      | inl e ↦ rw e refl
      | inr e ↦
          rw (e, unique)
            (elim (Bool-cases (repeats cards)) [ inl f ↦ rw f refl | inr f ↦ rw f found ])
    ]
