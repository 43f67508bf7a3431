-- ===== src/Issuer/Host.antt =====
-- The host's answer of src/issuer.rs: its objects, and the scripts of its templates.
use hyperion_x_emv.Base.{
  ℕ, ◌+◌, ◌^◌, ◌≤◌, ◌≡◌, inl, inr, refl, sym, ap, ◌∙◌, Bool, true, not, ◌&&◌, List, [], ◌∷◌, ◌++◌,
  Option, some, none, ltb, leb, ◌==◌, length, all, All, arith, KernelError, KernelResult, okay,
  ◌>>=◌, ◌>>◌, fail_if, ok_or, >>=-eq-okay, Bool-cases, Option-cases,
}
use mathlib.Core.List.{append_assoc, append-nil}
use mathlib.Core.Path.{subst}
use hyperion_x_emv.Tlv.{
  Tlvs, node, nil, cons, FlatTlv, flatten, walk, parse_many, find_unique_direct,
}
use hyperion_x_emv.Tlv.Queries.{values_of, found_list, at_most_one, find_unique_direct_lem}
use hyperion_x_emv.Issuer.{
  ScriptPhase, IssuerScript, HostResponse, max_script_commands, authorization_code_len,
  issuer_authentication_data_min_len, issuer_authentication_data_max_len,
  authorization_text_is_valid, parse_authorization_response_code, parse_authorization_code,
  parse_issuer_authentication_data, parse_script_template, phase_of, collect_scripts_from,
  collect_scripts, is_response_object, reject_nested_response_objects,
  reject_unsupported_host_response_objects, traverse, parse_host_response,
}
use hyperion_x_emv.Issuer.Scripts.{IsScript, parse_script_template_sound}

-- The templates of scripts, with their phases, in order.
abbrev pub templates_of : Tlvs → List (ScriptPhase × Tlvs)
templates_of nil = []
templates_of (cons (node t v c kids) items) = elim (phase_of t) [
  | none ↦ templates_of items
  | some p ↦ (p, kids) ∷ templates_of items
]

-- Each script is the one of the template at its place.
abbrev pub AreScripts : List (ScriptPhase × Tlvs) → List IssuerScript → Type 0
AreScripts [] [] = Unit {0}
AreScripts ((p, kids) ∷ templates) (s ∷ scripts) =
    IsScript kids s × (s.phase ≡ p) × AreScripts templates scripts
AreScripts _ _ = ⊥

abbrev pub count_commands : List IssuerScript → ℕ
count_commands [] = 0
count_commands (s ∷ scripts) = length s.commands + count_commands scripts

-- The scripts that the loop adds.
record Added (total : ℕ) (items : Tlvs) (before after : List IssuerScript) : Type 0 where
  new_scripts : List IssuerScript
  appended : after ≡ before ++ new_scripts
  are_scripts : AreScripts (templates_of items) new_scripts
  few : total + count_commands new_scripts ≤ max_script_commands

template_step :
    (total : ℕ) (t v : List ℕ) (c : Bool) (kids items : Tlvs) (before after : List IssuerScript)
    (p : ScriptPhase)
    → phase_of t ≡ some p
    → collect_scripts_from total (cons (node t v c kids) items) before ≡ okay after
    → (s : IssuerScript) × (parse_script_template kids p ≡ okay s)
      × (total + length s.commands ≤ max_script_commands)
      × (collect_scripts_from (total + length s.commands) items (before ++ (s ∷ [])) ≡ okay after)
unfolding collect_scripts_from
template_step total t v c kids items before after p e h =
    let body : (do
      script ← parse_script_template kids p
      fail_if (leb (2 ^ 64) (total + length script.commands)) KernelError.length_overflow
      fail_if (ltb max_script_commands (total + length script.commands)) KernelError.length_overflow
      collect_scripts_from (total + length script.commands) items (before ++ (script ∷ [])))
        ≡ okay after =
      ground (arith, e) in
    let (s, parsed, h1) = >>=-eq-okay (parse_script_template kids p) _ body in
    let (u1, p1, h2) =
      >>=-eq-okay (fail_if (leb (2 ^ 64) (total + length s.commands)) KernelError.length_overflow) _
        h1 in
    let (u2, p2, h3) =
      >>=-eq-okay
        (fail_if (ltb max_script_commands (total + length s.commands)) KernelError.length_overflow)
        _ h2 in
    (s, parsed, ground (arith, p2), h3)

collect_scripts_from_sound :
    (total : ℕ) (items : Tlvs) (before after : List IssuerScript)
    → total ≤ max_script_commands
    → collect_scripts_from total items before ≡ okay after
    → Added total items before after
unfolding collect_scripts_from
collect_scripts_from_sound total nil before after small h = record {
  new_scripts = [];
  appended = ground (arith, append-nil before);
  are_scripts = tt;
  few = omega (arith, small);
}
collect_scripts_from_sound total (cons (node t v c kids) items) before after small h =
    elim (Option-cases (phase_of t)) [
      | inl e ↦
          let rest =
            collect_scripts_from_sound total items before after small (ground (arith, e)) in
          record {
            new_scripts = rest.new_scripts;
            appended = rest.appended;
            are_scripts = rw (e, templates_of) rest.are_scripts;
            few = rest.few;
          }
      | inr (p, e) ↦
          let (s, parsed, small1, h1) = template_step total t v c kids items before after p e h in
          let rest =
            collect_scripts_from_sound (total + length s.commands) items (before ++ (s ∷ [])) after
              small1 h1 in
          let (is_script, same_phase) = parse_script_template_sound kids p s parsed in
          record {
            new_scripts = s ∷ rest.new_scripts;
            appended = rest.appended ∙ append_assoc before (s ∷ []) rest.new_scripts;
            are_scripts = rw (e, templates_of) (is_script, same_phase, rest.are_scripts);
            few = omega (arith, rest.few);
          }
    ]

-- No object of the answer stands inside another one.
abbrev pub NoneInside : Tlvs → Type 0
NoneInside kids = all (λ (f : FlatTlv). not (is_response_object f.flat_tag)) (flatten kids) ≡ true

all-append : (p : FlatTlv → Bool) (xs ys : List FlatTlv) → all p (xs ++ ys) ≡ (all p xs && all p ys)
all-append p [] ys = refl
all-append p (x ∷ xs) ys = ground (arith, all-append p xs ys)

reject_nested_response_objects_sound :
    (kids : Tlvs) → reject_nested_response_objects kids ≡ okay tt → NoneInside kids
unfolding reject_nested_response_objects flatten walk
reject_nested_response_objects_sound nil h = refl
reject_nested_response_objects_sound (cons (node t v c kids) items) h =
    let (u, p, h1) = >>=-eq-okay (fail_if (is_response_object t) KernelError.parse_error) _ h in
    let (u1, inside, h2) = >>=-eq-okay (reject_nested_response_objects kids) _ h1 in
    ground (
      arith,
      p,
      all-append (λ (f : FlatTlv). not (is_response_object f.flat_tag)) (flatten kids)
          (flatten items),
      reject_nested_response_objects_sound kids inside,
      reject_nested_response_objects_sound items h2,
    )

-- The direct objects are those of an answer, with no such object inside them.
abbrev pub AreObjects : Tlvs → Type 0
AreObjects nil = Unit {0}
AreObjects (cons (node t v c kids) items) =
    (is_response_object t ≡ true) × NoneInside kids × AreObjects items

reject_unsupported_host_response_objects_sound :
    (items : Tlvs) → reject_unsupported_host_response_objects items ≡ okay tt → AreObjects items
unfolding reject_unsupported_host_response_objects
reject_unsupported_host_response_objects_sound nil h = tt
reject_unsupported_host_response_objects_sound (cons (node t v c kids) items) h =
    let (u, p, h1) =
      >>=-eq-okay (fail_if (not (is_response_object t)) KernelError.parse_error) _ h in
    let (u1, inside, h2) = >>=-eq-okay (reject_nested_response_objects kids) _ h1 in
    (
      ground (arith, p),
      reject_nested_response_objects_sound kids inside,
      reject_unsupported_host_response_objects_sound items h2,
    )

-- The optional object under a tag: its only value, as the check of the value lets it through.
found_and_checked :
    (tlvs : Tlvs) (u : List ℕ) (f : List ℕ → KernelResult (List ℕ)) (P : List ℕ → Type 0)
    (o o' : Option (List ℕ))
    → ((v w : List ℕ) → f v ≡ okay w → (w ≡ v) × P v)
    → find_unique_direct tlvs u ≡ okay o
    → traverse f o ≡ okay o'
    → (values_of tlvs u ≡ found_list o') × All P (found_list o')
found_and_checked tlvs u f P o o' check found checked =
    go (values_of tlvs u) o (sym (find_unique_direct_lem tlvs u) ∙ found) checked
  where
    go :
        (vs : List (List ℕ)) (o : Option (List ℕ))
        → at_most_one vs ≡ okay o
        → traverse f o ≡ okay o'
        → (vs ≡ found_list o') × All P (found_list o')
    go [] none a b = let e : none ≡ o' = ground (arith, b) in rw (← e) (refl, tt)
    go [] (some x) a b = cc
    go (x ∷ []) none a b = cc
    go (x ∷ []) (some y) a b =
        let same : y ≡ x = ground (arith, a) in
        let (w, run, e) = >>=-eq-okay (f y) _ b in
        let (kept, ok) = check y w run in
        let e1 : some w ≡ o' = ground (arith, e) in
        rw (← e1) (ap (λ z. z ∷ []) (sym (kept ∙ same)), (subst P (sym kept) ok, tt))
    go (x ∷ y ∷ vs) o a b = cc

-- A text of letters, digits and spaces of a given length.
abbrev pub IsText : ℕ → List ℕ → Type 0
IsText n v = (length v ≡ n) × (authorization_text_is_valid v ≡ true)

abbrev pub IsAuthenticationData : List ℕ → Type 0
IsAuthenticationData v =
    (issuer_authentication_data_min_len ≤ length v)
    × (length v ≤ issuer_authentication_data_max_len)

arc_checked : (v w : List ℕ) → parse_authorization_response_code v ≡ okay w → (w ≡ v) × IsText 2 v
unfolding parse_authorization_response_code
arc_checked v w h = elim (Bool-cases (length v == 2)) [
  | inl e ↦ elim (Bool-cases (authorization_text_is_valid v)) [
    | inl f ↦ (ground (arith, e, f), (ground (arith, e), f))
    | inr f ↦ ground (arith, e, f)
  ]
  | inr e ↦ ground (arith, e)
]

code_checked :
    (v w : List ℕ) → parse_authorization_code v ≡ okay w → (w ≡ v) × IsText authorization_code_len v
unfolding parse_authorization_code
code_checked v w h = elim (Bool-cases (length v == authorization_code_len)) [
  | inl e ↦ elim (Bool-cases (authorization_text_is_valid v)) [
    | inl f ↦ (ground (arith, e, f), (ground (arith, e), f))
    | inr f ↦ ground (arith, e, f)
  ]
  | inr e ↦ ground (arith, e)
]

data_checked :
    (v w : List ℕ) → parse_issuer_authentication_data v ≡ okay w → (w ≡ v) × IsAuthenticationData v
unfolding parse_issuer_authentication_data
data_checked v w h = (ground arith, (ground arith, ground arith))

-- An answer as the host sent it.
pub record IsAnswer (input : List ℕ) (r : HostResponse) : Type 0 where
  pub tlvs : Tlvs
  pub parsed : parse_many input ≡ okay tlvs
  pub objects : AreObjects tlvs
  pub response_code : values_of tlvs (0x8a ∷ []) ≡ r.authorization_response_code ∷ []
  pub response_code_ok : IsText 2 r.authorization_response_code
  pub code : values_of tlvs (0x89 ∷ []) ≡ found_list r.authorization_code
  pub code_ok : All (IsText authorization_code_len) (found_list r.authorization_code)
  pub authentication : values_of tlvs (0x91 ∷ []) ≡ found_list r.issuer_authentication_data
  pub authentication_ok : All IsAuthenticationData (found_list r.issuer_authentication_data)
  pub are_scripts : AreScripts (templates_of tlvs) r.scripts
  pub few_commands : count_commands r.scripts ≤ max_script_commands

-- An answer that is accepted has no foreign or nested object, one response code, at most one
-- authorization code and authentication data, of their formats, and the scripts of its templates in
-- order, with well-formed commands, 32 in all at most.
pub parse_host_response_sound :
    (input : List ℕ) (r : HostResponse) → parse_host_response input ≡ okay r → IsAnswer input r
unfolding parse_host_response collect_scripts
parse_host_response_sound input r h =
    let (tlvs, parsed, h1) = >>=-eq-okay (parse_many input) _ h in
    let (u, objects, h2) = >>=-eq-okay (reject_unsupported_host_response_objects tlvs) _ h1 in
    let (av, a1, h3) = >>=-eq-okay (find_unique_direct tlvs (0x8a ∷ [])) _ h2 in
    let (a, a2, h4) = >>=-eq-okay (traverse parse_authorization_response_code av) _ h3 in
    let (cv, c1, h5) = >>=-eq-okay (find_unique_direct tlvs (0x89 ∷ [])) _ h4 in
    let (c, c2, h6) = >>=-eq-okay (traverse parse_authorization_code cv) _ h5 in
    let (dv, d1, h7) = >>=-eq-okay (find_unique_direct tlvs (0x91 ∷ [])) _ h6 in
    let (d, d2, h8) = >>=-eq-okay (traverse parse_issuer_authentication_data dv) _ h7 in
    let (ss, s1, h9) = >>=-eq-okay (collect_scripts_from 0 tlvs []) _ h8 in
    let (x, x1, h10) = >>=-eq-okay (ok_or a KernelError.missing_mandatory_tag) _ h9 in
    let (ar, arok) =
      found_and_checked tlvs (0x8a ∷ []) parse_authorization_response_code (IsText 2) av a
        arc_checked a1 a2 in
    let (cr, crok) =
      found_and_checked tlvs (0x89 ∷ []) parse_authorization_code (IsText authorization_code_len) cv
        c code_checked c1 c2 in
    let (dr, drok) =
      found_and_checked tlvs (0x91 ∷ []) parse_issuer_authentication_data IsAuthenticationData dv d
        data_checked d1 d2 in
    let added = collect_scripts_from_sound 0 tlvs [] ss (omega arith) s1 in
    let present : a ≡ some x = required a x x1 in
    let same : record {
      authorization_response_code = x;
      authorization_code = c;
      issuer_authentication_data = d;
      scripts = ss;
    }
        ≡ r =
      ground (arith, h10) in
    subst (IsAnswer input) (same) (record {
      tlvs = tlvs;
      parsed = parsed;
      objects = reject_unsupported_host_response_objects_sound tlvs objects;
      response_code = ar ∙ ap found_list present;
      response_code_ok = (subst (λ o. All (IsText 2) (found_list o)) (present) arok).0;
      code = cr;
      code_ok = crok;
      authentication = dr;
      authentication_ok = drok;
      are_scripts = subst (AreScripts (templates_of tlvs)) (sym added.appended) added.are_scripts;
      few_commands = omega (arith, added.few, ap count_commands added.appended);
    })
  where
    required :
        (a : Option (List ℕ)) (x : List ℕ)
        → ok_or a KernelError.missing_mandatory_tag ≡ okay x
        → a ≡ some x
    required none x e = cc
    required (some y) x e = ground (arith, e)
