-- ===== src/Tlv/Sound.antt =====
-- The nodes that `parse_many` of src/tlv.rs returns.
use hyperion_x_emv.Base.{
  ℕ, zero, suc, ◌+◌, ◌≤◌, ◌≡◌, refl, Bool, true, false, List, [], ◌∷◌, ◌++◌, length, take, drop,
  okay, KernelResult-cases, inl, inr, arith, All, All-take, All-drop, take-append-drop, ap, ◌∙◌,
  length-take, ltb,
}
use mathlib.Core.List.{append_assoc}
use mathlib.Core.Path.{subst}
use hyperion_x_emv.Tlv.{Tlvs, nil, descend, parse_items, parse_many, max_tlv_nodes, max_tlv_depth}
use hyperion_x_emv.Tlv.Tags.{read_tag_sound}
use hyperion_x_emv.Tlv.Lengths.{IsByte, encode_length, read_length_sound}
use hyperion_x_emv.Tlv.Spec.{encode, size, WellFormed}
use hyperion_x_emv.Tlv.Round.{Round-of}

-- What a parse of `input` at depth `d` with `n` nodes behind it says of its result.
pub record Parsed (input : List ℕ) (d n : ℕ) (ts : Tlvs) (n' : ℕ) : Type 0 where
  pub encodes : encode ts ≡ input
  pub formed : WellFormed d ts
  pub counted : n' ≡ n + size ts
  pub bounded : n ≤ max_tlv_nodes → n' ≤ max_tlv_nodes

IsByte-rest : (xs ys : List ℕ) → All IsByte (xs ++ ys) → All IsByte ys
IsByte-rest [] ys h = h
IsByte-rest (x ∷ xs) ys h = IsByte-rest xs ys h.1

-- What follows a part of a byte string is a byte string.
pub IsByte-of : (input xs ys : List ℕ) → input ≡ xs ++ ys → All IsByte input → All IsByte ys
IsByte-of input xs ys e b = IsByte-rest xs ys (subst (All IsByte) e b)

-- The pieces of a round put the input together again.
join_round :
    (t e v r input after_tag after : List ℕ)
    → input ≡ t ++ after_tag
    → after_tag ≡ e ++ after
    → v ++ r ≡ after
    → (t ++ (e ++ v)) ++ r ≡ input
join_round t e v r input after_tag after p q h =
    simp append_assoc (cc (p, ap (λ z. t ++ z) q, ap (λ z. t ++ (e ++ z)) h))

-- The children of a node, by the parser of the level below.
record Inside (v : List ℕ) (c : Bool) (d m : ℕ) (kids : Tlvs) (n1 : ℕ) : Type 0 where
  below : c ≡ true → (encode kids ≡ v) × (d ≤ max_tlv_depth)
  leaf : c ≡ false → kids ≡ nil
  formed : WellFormed d kids
  counted : n1 ≡ m + size kids
  bounded : m ≤ max_tlv_nodes → n1 ≤ max_tlv_nodes

descend_sound :
    (fuel : ℕ) (c : Bool) (v : List ℕ) (d m : ℕ) (kids : Tlvs) (n1 : ℕ)
    → (parse_items fuel v d m ≡ okay (kids, n1) → Parsed v d m kids n1)
    → descend (parse_items fuel) c v d m ≡ okay (kids, n1)
    → Inside v c d m kids n1
unfolding descend
descend_sound fuel true v d m kids n1 ih e =
    let low : ltb max_tlv_depth d ≡ false = ground arith in
    let p = ih (ground (arith, low)) in
    record {
      below = λ t. (p.encodes, ground (arith, low));
      leaf = λ f. cc;
      formed = p.formed;
      counted = p.counted;
      bounded = p.bounded;
    }
descend_sound fuel false v d m kids n1 ih e =
    let none_read : (kids ≡ nil) × (n1 ≡ m) = ground arith in
    rw (none_read.0, none_read.1)
      (record {
        below = λ t. cc;
        leaf = λ f. refl;
        formed = tt;
        counted = omega arith;
        bounded = λ h. h;
      })

parse_items_sound :
    (fuel : ℕ) (input : List ℕ) (d n : ℕ) (ts : Tlvs) (n' : ℕ)
    → All IsByte input
    → parse_items fuel input d n ≡ okay (ts, n')
    → Parsed input d n ts n'
parse_items_sound fuel [] d n ts n' b e = unfold parse_items in empty (cc e) (cc e)
  where
    empty : ts ≡ nil → n' ≡ n → Parsed [] d n ts n'
    empty p q =
        rw (p, q) (record { encodes = refl; formed = tt; counted = omega arith; bounded = λ h. h })
parse_items_sound zero (x ∷ xs) d n ts n' b e = absurd (unfold parse_items in cc e)
parse_items_sound (suc fuel) (x ∷ xs) d n ts n' b e =
    let r = Round-of fuel x xs d n ts n' e in
    let (split_tag, valid, flag) = read_tag_sound _ r.t r.after_tag r.c r.has_tag in
    let after_tag_bytes : All IsByte r.after_tag = IsByte-of _ r.t r.after_tag split_tag b in
    let (split_length, small) =
      read_length_sound _ r.after_length r.len after_tag_bytes r.has_length in
    let bytes : All IsByte r.after_length =
      IsByte-of _ (encode_length r.len) r.after_length split_length after_tag_bytes in
    let inside =
      descend_sound fuel r.c (take r.len r.after_length) (d + 1) (n + 1) r.kids r.n1
        (λ k.
          parse_items_sound fuel _ (d + 1) (n + 1) r.kids r.n1
            (All-take IsByte r.len r.after_length bytes) k)
        r.has_kids in
    let after =
      parse_items_sound fuel (drop r.len r.after_length) d r.n1 r.siblings n'
        (All-drop IsByte r.len r.after_length bytes) r.has_siblings in
    let len_eq : length (take r.len r.after_length) ≡ r.len =
      omega (arith, length-take r.len r.after_length, r.fits) in
    rw r.shape (record {
      encodes =
          join_round r.t (encode_length (length (take r.len r.after_length)))
            (take r.len r.after_length) (encode r.siblings) _ r.after_tag r.after_length split_tag
            (rw len_eq split_length)
            (ap (λ z. take r.len r.after_length ++ z) after.encodes
              ∙ take-append-drop r.len r.after_length);
      formed = (
        (valid, flag, omega (arith, len_eq, small), inside.below, inside.leaf, inside.formed),
        after.formed,
      );
      counted = omega (arith, inside.counted, after.counted);
      bounded = λ h. after.bounded (inside.bounded (omega (arith, r.room)));
    })

-- On bytes, a successful parse returns well-formed nodes, at most 512 of them, whose encoding is the
-- whole input.
pub parse_many_sound :
    (input : List ℕ) (ts : Tlvs)
    → All IsByte input
    → parse_many input ≡ okay ts
    → (encode ts ≡ input) × WellFormed 0 ts × (size ts ≤ max_tlv_nodes)
unfolding parse_many
parse_many_sound input ts b e = elim (KernelResult-cases (parse_items (length input) input 0 0)) [
  | inl ((us, n'), q) ↦
      let p = parse_items_sound (length input) input 0 0 us n' b q in
      let same : us ≡ ts = ground (arith, q) in
      subst (λ x. (encode x ≡ input) × WellFormed 0 x × (size x ≤ max_tlv_nodes)) same
        (p.encodes, p.formed, omega (arith, p.counted, p.bounded (omega arith)))
  | inr (x, q) ↦ absurd (ground (arith, q))
]
