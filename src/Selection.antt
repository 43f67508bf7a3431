-- ===== src/Selection.antt =====
-- src/selection.rs: candidate applications of the card and of the profiles.
pub mod Keys
pub mod Order
pub mod Candidates
pub mod Directory
mod Tests
use hyperion_x_emv.Base.{
  ℕ, zero, suc, ◌+◌, Bool, true, false, not, ◌&&◌, ◌||◌, List, [], ◌∷◌, ◌++◌, Option, some, none,
  ltb, leb, ◌==◌, ◌=s=◌, if◌then◌else◌, length, is_empty, any, KernelError, KernelResult, okay, err,
  ◌>>=◌, ◌>>◌, fail_if, ok_or,
}
use hyperion_x_emv.Apdu.{Interface, contact, contactless, min_aid_len, max_aid_len}
use hyperion_x_emv.Config.{AidProfile, SchemeProfile, ProfileSet}
use hyperion_x_emv.Tlv.{Tlv, Tlvs, node, nil, cons, parse_many, find_unique_direct}

abbrev pub max_candidate_aids : ℕ
max_candidate_aids = 32

pub record SelectionCandidate : Type 0 where
  pub aid : List ℕ
  pub select_aid : List ℕ
  pub scheme_index : ℕ
  pub aid_index : ℕ
  pub priority : ℕ
  pub partial_selection : Bool

-- The children of the one template 6F.
unfoldable pub fci_children : Tlvs → KernelResult Tlvs
fci_children (cons (node tag value constructed kids) nil) = do
  fail_if (not (tag =s= (0x6f ∷ [])) || not constructed) KernelError.missing_mandatory_tag
  okay kids
fci_children _ = err KernelError.missing_mandatory_tag

unfoldable pub push_unique_aid : List (List ℕ) → List ℕ → KernelResult (List (List ℕ))
push_unique_aid out aid = do
  fail_if (not (leb min_aid_len (length aid) && leb (length aid) max_aid_len))
      KernelError.invalid_profile
  fail_if (leb max_candidate_aids (length out)) KernelError.length_overflow
  fail_if (any (λ stored. stored =s= aid) out) KernelError.parse_error
  okay (out ++ (aid ∷ []))

-- The three nested loops of `parse_fci_candidate_aids`, from the inside out.
unfoldable pub directory_entries : Tlvs → List (List ℕ) → KernelResult (List (List ℕ))
unfolding push_unique_aid
directory_entries nil out = okay out
directory_entries (cons (node tag value constructed kids) items) out =
    let entry = do
      found ← find_unique_direct kids (0x4f ∷ [])
      aid ← ok_or found KernelError.missing_mandatory_tag
      out' ← push_unique_aid out aid
      directory_entries items out'
    in let skip = directory_entries items out in
      if not (tag =s= (0x61 ∷ [])) || not constructed then skip else entry

unfoldable pub proprietary_entries : Tlvs → List (List ℕ) → KernelResult (List (List ℕ))
unfolding directory_entries
proprietary_entries nil out = okay out
proprietary_entries (cons (node tag value constructed kids) items) out =
    let inner = do out' ← directory_entries kids out; proprietary_entries items out'
    in let skip = proprietary_entries items out in
      if not (tag =s= (0xbf ∷ 0x0c ∷ [])) || not constructed then skip else inner

unfoldable pub fci_entries : Tlvs → List (List ℕ) → KernelResult (List (List ℕ))
unfolding proprietary_entries
fci_entries nil out = okay out
fci_entries (cons (node tag value constructed kids) items) out =
    let inner = do out' ← proprietary_entries kids out; fci_entries items out'
    in let skip = fci_entries items out in
      if not (tag =s= (0xa5 ∷ [])) || not constructed then skip else inner

unfoldable pub parse_fci_candidate_aids : List ℕ → KernelResult (List (List ℕ))
unfolding fci_children fci_entries
parse_fci_candidate_aids fci = do
  parsed ← parse_many fci
  kids ← fci_children parsed
  fci_entries kids []

unfoldable pub selected_adf_name : List ℕ → KernelResult (List ℕ)
unfolding fci_children
selected_adf_name fci = do
  parsed ← parse_many fci
  kids ← fci_children parsed
  found ← find_unique_direct kids (0x84 ∷ [])
  adf_name ← ok_or found KernelError.missing_mandatory_tag
  fail_if (not (leb min_aid_len (length adf_name) && leb (length adf_name) max_aid_len))
      KernelError.invalid_profile
  okay adf_name

-- `card.starts_with(terminal)`
unfoldable pub starts_with : List ℕ → List ℕ → Bool
starts_with card [] = true
starts_with [] (t ∷ terminal) = false
starts_with (c ∷ card) (t ∷ terminal) = c == t && starts_with card terminal

unfoldable pub aid_matches : List ℕ → List ℕ → Bool → Bool
unfolding starts_with
aid_matches card terminal partial_selection =
    card =s= terminal || (partial_selection && starts_with card terminal)

unfoldable pub validate_selected_adf_name : List ℕ → SelectionCandidate → KernelResult (Unit {0})
unfolding selected_adf_name aid_matches
validate_selected_adf_name selected_fci candidate = do
  selected_name ← selected_adf_name selected_fci
  fail_if (not (selected_name =s= candidate.select_aid)) KernelError.no_common_aid
  fail_if (not (aid_matches selected_name candidate.aid candidate.partial_selection))
      KernelError.no_common_aid

-- "contact" and "contactless"
abbrev pub interface_name : Interface → List ℕ
interface_name contact = b'c' ∷ b'o' ∷ b'n' ∷ b't' ∷ b'a' ∷ b'c' ∷ b't' ∷ []
interface_name contactless =
    b'c' ∷ b'o' ∷ b'n' ∷ b't' ∷ b'a' ∷ b'c' ∷ b't' ∷ b'l' ∷ b'e' ∷ b's' ∷ b's' ∷ []

unfoldable pub supports : AidProfile → Interface → Bool
supports profile interface = any (λ item. item =s= interface_name interface) profile.interfaces

-- The candidate of a profile for an ADF name.
abbrev pub candidate_of : AidProfile → List ℕ → ℕ → ℕ → SelectionCandidate
candidate_of profile name scheme_index aid_index = record {
  aid = profile.aid;
  select_aid = name;
  scheme_index = scheme_index;
  aid_index = aid_index;
  priority = profile.priority;
  partial_selection = profile.partial_selection;
}

abbrev pub Candidates : Type 0
Candidates = List SelectionCandidate

-- `if out.len() >= MAX_CANDIDATE_AIDS { return Err(..) } out.push(..)`
unfoldable pub push_candidate : Candidates → SelectionCandidate → KernelResult Candidates
push_candidate out candidate = do
  fail_if (leb max_candidate_aids (length out)) KernelError.length_overflow
  okay (out ++ (candidate ∷ []))

-- The lexicographic order of byte strings.
unfoldable pub bytes_less : List ℕ → List ℕ → Bool
bytes_less xs [] = false
bytes_less [] (y ∷ ys) = true
bytes_less (x ∷ xs) (y ∷ ys) = ltb x y || (x == y && bytes_less xs ys)

-- The comparator of `sort_candidates` gives `Less`.
unfoldable pub precedes : SelectionCandidate → SelectionCandidate → Bool
unfolding bytes_less
precedes left right =
    ltb left.priority right.priority
    || (left.priority == right.priority
        && (bytes_less left.aid right.aid
            || (left.aid =s= right.aid
                && (bytes_less left.select_aid right.select_aid
                    || (left.select_aid =s= right.select_aid
                        && (ltb left.scheme_index right.scheme_index
                            || (left.scheme_index == right.scheme_index
                                && ltb left.aid_index right.aid_index)))))))

-- `sort_by` is stable: an element goes behind those in front that precede it, and no further.
unfoldable pub insert_candidate : SelectionCandidate → Candidates → Candidates
unfolding precedes
insert_candidate c [] = c ∷ []
insert_candidate c (d ∷ ds) =
    let rest = insert_candidate c ds in if precedes d c then d ∷ rest else c ∷ d ∷ ds

unfoldable pub sort_candidates : Candidates → Candidates
unfolding insert_candidate
sort_candidates [] = []
sort_candidates (c ∷ cs) = insert_candidate c (sort_candidates cs)

-- The end of both candidate functions.
unfoldable pub finish : Candidates → KernelResult Candidates
unfolding sort_candidates
finish out = do
  fail_if (is_empty (sort_candidates out)) KernelError.no_common_aid
  okay (sort_candidates out)

unfoldable pub direct_aids :
    Interface → ℕ → ℕ → List AidProfile → Candidates → KernelResult Candidates
unfolding supports push_candidate
direct_aids interface scheme_index aid_index [] out = okay out
direct_aids interface scheme_index aid_index (profile ∷ profiles) out =
    let taken = do
      out' ← push_candidate out (candidate_of profile profile.aid scheme_index aid_index)
      direct_aids interface scheme_index (aid_index + 1) profiles out'
    in let skip = direct_aids interface scheme_index (aid_index + 1) profiles out in
      if supports profile interface then taken else skip

unfoldable pub direct_schemes :
    Interface → ℕ → List SchemeProfile → Candidates → KernelResult Candidates
unfolding direct_aids
direct_schemes interface scheme_index [] out = okay out
direct_schemes interface scheme_index (scheme ∷ schemes) out = do
  out' ← direct_aids interface scheme_index 0 scheme.aids out
  direct_schemes interface (scheme_index + 1) schemes out'

unfoldable pub direct_profile_candidates : ProfileSet → Interface → KernelResult Candidates
unfolding direct_schemes finish
direct_profile_candidates profiles interface = do
  out ← direct_schemes interface 0 profiles.schemes []
  finish out

-- The loop over the card's names that match a profile.
unfoldable pub match_cards :
    AidProfile → ℕ → ℕ → List (List ℕ) → Candidates → KernelResult Candidates
unfolding push_candidate
match_cards profile scheme_index aid_index [] out = okay out
match_cards profile scheme_index aid_index (card ∷ cards) out =
    let taken = do
      out' ← push_candidate out (candidate_of profile card scheme_index aid_index)
      match_cards profile scheme_index aid_index cards out'
    in let skip = match_cards profile scheme_index aid_index cards out in
      if aid_matches card profile.aid profile.partial_selection then taken else skip

unfoldable pub match_aids :
    Interface → List (List ℕ) → ℕ → ℕ → List AidProfile → Candidates → KernelResult Candidates
unfolding match_cards
match_aids interface cards scheme_index aid_index [] out = okay out
match_aids interface cards scheme_index aid_index (profile ∷ profiles) out =
    let taken = do
      out' ← match_cards profile scheme_index aid_index cards out
      match_aids interface cards scheme_index (aid_index + 1) profiles out'
    in let skip = match_aids interface cards scheme_index (aid_index + 1) profiles out in
      if not (supports profile interface) then skip else taken

unfoldable pub match_schemes :
    Interface → List (List ℕ) → ℕ → List SchemeProfile → Candidates → KernelResult Candidates
unfolding match_aids
match_schemes interface cards scheme_index [] out = okay out
match_schemes interface cards scheme_index (scheme ∷ schemes) out = do
  out' ← match_aids interface cards scheme_index 0 scheme.aids out
  match_schemes interface cards (scheme_index + 1) schemes out'

-- The loop of `reject_duplicate_card_candidates`, with the candidates before the rest.
unfoldable pub reject_duplicate_card_from : List (List ℕ) → List (List ℕ) → KernelResult (Unit {0})
reject_duplicate_card_from before [] = okay tt
reject_duplicate_card_from before (candidate ∷ rest) = do
  fail_if (any (λ prior. prior =s= candidate) before) KernelError.parse_error
  reject_duplicate_card_from (before ++ (candidate ∷ [])) rest

unfoldable pub match_profile_candidates :
    ProfileSet → Interface → List (List ℕ) → KernelResult Candidates
unfolding reject_duplicate_card_from match_schemes finish
match_profile_candidates profiles interface card_candidates = do
  fail_if (ltb max_candidate_aids (length card_candidates)) KernelError.length_overflow
  reject_duplicate_card_from [] card_candidates
  out ← match_schemes interface card_candidates 0 profiles.schemes []
  finish out
