-- ===== src/Issuer/Scripts.antt =====
-- Issuer scripts of src/issuer.rs: what the templates hold, and the bounds on their commands.
use hyperion_x_emv.Base.{
  ℕ, suc, ◌+◌, ◌≤◌, ◌≢◌, ◌≡◌, ◌⊎◌, inl, inr, refl, sym, ap, ◌∙◌, Bool, true, false, List, [], ◌∷◌,
  ◌++◌, Option, some, none, ltb, leb, ◌==◌, ◌=s=◌, =s=_iff, length, length-append, is_empty, get_or,
  All, arith, KernelError, okay, ◌>>◌, fail_if, >>=-eq-okay, Bool-cases,
}
use mathlib.Core.List.{append_assoc, append-nil}
use mathlib.Core.Path.{subst}
use hyperion_x_emv.Tlv.{Tlvs, node, nil, cons}
use hyperion_x_emv.Tlv.Queries.{values_of, found_list}
use hyperion_x_emv.Issuer.{
  ScriptPhase, IssuerScript, max_script_commands, max_script_command_len,
  issuer_script_identifier_len, validate_script_command_apdu, parse_script_children,
  parse_script_template,
}

-- A command APDU: a header, then a response length at most, or data of the given length.
abbrev pub IsCommand : List ℕ → Type 0
IsCommand c =
    (4 ≤ length c)
    × (length c ≤ max_script_command_len)
    × ((length c ≤ 5)
        ⊎ ((get_or c 4 0 ≢ 0) × ((length c ≡ 5 + get_or c 4 0) ⊎ (length c ≡ 6 + get_or c 4 0))))

validate_script_command_apdu_sound :
    (c : List ℕ)
    → length c ≤ max_script_command_len
    → validate_script_command_apdu c ≡ okay tt
    → IsCommand c
unfolding validate_script_command_apdu
validate_script_command_apdu_sound c small h = elim (Bool-cases (leb (length c) 5)) [
  | inl e ↦ (ground (arith, e), small, inl (ground (arith, e)))
  | inr e ↦ elim (Bool-cases (length c == 5 + get_or c 4 0)) [
    | inl f ↦ (ground (arith, e), small, inr (ground (arith, e), inl (ground (arith, f))))
    | inr f ↦ (ground (arith, e), small, inr (ground (arith, e), inr (ground (arith, e, f))))
  ]
]

abbrev pub command_tag : List ℕ
command_tag = 0x86 ∷ []

abbrev pub identifier_tag : List ℕ
identifier_tag = 0x9f ∷ 0x18 ∷ []

abbrev pub IsIdentifier : List ℕ → Type 0
IsIdentifier v = length v ≡ issuer_script_identifier_len

-- What the loop over the children returns.
record Collected (kids : Tlvs) (id : Option (List ℕ)) (cs : List (List ℕ))
    (r : Option (List ℕ) × List (List ℕ)) : Type 0 where
  ids : found_list r.0 ≡ found_list id ++ values_of kids identifier_tag
  all_commands : r.1 ≡ cs ++ values_of kids command_tag
  id_sized : All IsIdentifier (values_of kids identifier_tag)
  commands_ok : All IsCommand (values_of kids command_tag)
  few : length r.1 ≤ max_script_commands

identifier_not_command : (t : List ℕ) → (t =s= identifier_tag) ≡ true → (t =s= command_tag) ≡ false
identifier_not_command t e =
    let apart : (identifier_tag =s= command_tag) ≡ false = unfold ◌=s=◌ in refl in
    ap (λ x. x =s= command_tag) ((=s=_iff t identifier_tag).0 e) ∙ apart

-- One more identifier, or one more command, in front.
IsIdentifier-step :
    (t v : List ℕ) (c : Bool) (ks items : Tlvs) (id : Option (List ℕ)) (cs : List (List ℕ))
    {r : Option (List ℕ) × List (List ℕ)}
    → (t =s= identifier_tag) ≡ true
    → parse_script_children (cons (node t v c ks) items) id cs ≡ okay r
    → (id ≡ none) × IsIdentifier v × (parse_script_children items (some v) cs ≡ okay r)
unfolding parse_script_children
IsIdentifier-step t v c ks items none cs e h =
    elim (Bool-cases (length v == issuer_script_identifier_len)) [
      | inl f ↦ (refl, ground (arith, f), ground (arith, e, f))
      | inr f ↦ ground (arith, e, f)
    ]
IsIdentifier-step t v c ks items (some x) cs e h = ground (arith, e)

IsCommand-step :
    (t v : List ℕ) (c : Bool) (ks items : Tlvs) (id : Option (List ℕ)) (cs : List (List ℕ))
    {r : Option (List ℕ) × List (List ℕ)}
    → (t =s= identifier_tag) ≡ false
    → (t =s= command_tag) ≡ true
    → parse_script_children (cons (node t v c ks) items) id cs ≡ okay r
    → IsCommand v
      × (suc (length cs) ≤ max_script_commands)
      × (parse_script_children items id (cs ++ (v ∷ [])) ≡ okay r)
unfolding parse_script_children
IsCommand-step t v c ks items id cs {r} e f h =
    let body : (do
      fail_if (is_empty v) KernelError.parse_error
      fail_if (ltb max_script_command_len (length v)) KernelError.length_overflow
      validate_script_command_apdu v
      fail_if (leb max_script_commands (length cs)) KernelError.length_overflow
      parse_script_children items id (cs ++ (v ∷ [])))
        ≡ okay r =
      ground (arith, e, f) in
    let (u1, p1, h1) = >>=-eq-okay (fail_if (is_empty v) KernelError.parse_error) _ body in
    let (u2, p2, h2) =
      >>=-eq-okay (fail_if (ltb max_script_command_len (length v)) KernelError.length_overflow) _
        h1 in
    let (u3, p3, h3) = >>=-eq-okay (validate_script_command_apdu v) _ h2 in
    let (u4, p4, h4) =
      >>=-eq-okay (fail_if (leb max_script_commands (length cs)) KernelError.length_overflow) _
        h3 in
    (validate_script_command_apdu_sound v (ground (arith, p2)) p3, ground (arith, p4), h4)

children_sound :
    (kids : Tlvs) (id : Option (List ℕ)) (cs : List (List ℕ)) (r : Option (List ℕ) × List (List ℕ))
    → length cs ≤ max_script_commands
    → parse_script_children kids id cs ≡ okay r
    → Collected kids id cs r
unfolding parse_script_children
children_sound nil id cs r few h =
    let same : (id, cs) ≡ r = ground (arith, h) in
    subst (Collected nil id cs) (same) (record {
      ids = sym (append-nil (found_list id));
      all_commands = sym (append-nil cs);
      id_sized = tt;
      commands_ok = tt;
      few = few;
    })
children_sound (cons (node t v c ks) items) id cs r few h =
    elim (Bool-cases (t =s= identifier_tag)) [
      | inl e ↦
          let (fresh, sized, h1) = IsIdentifier-step t v c ks items id cs e h in
          let rest = children_sound items (some v) cs r few h1 in
          let other = identifier_not_command t e in
          record {
            ids = rest.ids ∙ rw (e, fresh) refl;
            all_commands = rest.all_commands ∙ rw other refl;
            id_sized = rw e (sized, rest.id_sized);
            commands_ok = rw other rest.commands_ok;
            few = rest.few;
          }
      | inr e ↦ elim (Bool-cases (t =s= command_tag)) [
        | inl f ↦
            let (ok, more, h1) = IsCommand-step t v c ks items id cs e f h in
            let rest =
              children_sound items id (cs ++ (v ∷ [])) r (omega (arith, length-append cs (v ∷ [])))
                h1 in
            record {
              ids = rest.ids ∙ rw e refl;
              all_commands =
                  rest.all_commands
                  ∙ append_assoc cs (v ∷ []) (values_of items command_tag)
                  ∙ rw f refl;
              id_sized = rw e rest.id_sized;
              commands_ok = rw f (ok, rest.commands_ok);
              few = rest.few;
            }
        | inr f ↦ ground (arith, e, f)
      ]
    ]

-- A script as its template has it: the commands in order, and the one identifier, if any.
pub record IsScript (kids : Tlvs) (s : IssuerScript) : Type 0 where
  pub all_commands : s.commands ≡ values_of kids command_tag
  pub one_identifier : found_list s.identifier ≡ values_of kids identifier_tag
  pub id_sized : All IsIdentifier (values_of kids identifier_tag)
  pub commands_ok : All IsCommand s.commands
  pub some_commands : 1 ≤ length s.commands

some_length : {A : Type 0} (xs : List A) → is_empty xs ≡ false → 1 ≤ length xs
some_length [] h = cc
some_length (x ∷ xs) h = omega arith

pub parse_script_template_sound :
    (kids : Tlvs) (p : ScriptPhase) (s : IssuerScript)
    → parse_script_template kids p ≡ okay s
    → IsScript kids s × (s.phase ≡ p)
unfolding parse_script_template
parse_script_template_sound kids p s h =
    let (r, run, h1) = >>=-eq-okay (parse_script_children kids none []) _ h in
    let (u, nonempty, h2) = >>=-eq-okay (fail_if (is_empty r.1) KernelError.parse_error) _ h1 in
    let c = children_sound kids none [] r (omega arith) run in
    let same : record { phase = p; identifier = r.0; commands = r.1 } ≡ s = ground (arith, h2) in
    subst (λ s. IsScript kids s × (s.phase ≡ p)) (same)
      (
        record {
          all_commands = c.all_commands;
          one_identifier = c.ids;
          id_sized = c.id_sized;
          commands_ok = subst (All IsCommand) (sym c.all_commands) c.commands_ok;
          some_commands = some_length r.1 (ground (arith, nonempty));
        },
        refl,
      )
