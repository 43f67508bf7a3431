-- ===== src/Tlv/Total.antt =====
-- The refusals of the parser of src/tlv.rs.
use hyperion_x_emv.Base.{
  ℕ, zero, suc, ◌+◌, ◌<◌, ◌≤◌, ◌≡◌, ◌⊎◌, ap, Bool, true, false, List, [], ◌∷◌, length, take, drop,
  okay, err, KernelError, KernelResult-cases, inl, inr, arith, All, All-take, All-drop,
  length-append, length-take, length-drop, Bool-cases, ltb, bit_and,
}
use hyperion_x_emv.Tlv.{
  read_continuation, read_tag, read_octets, read_length, descend, parse_items, parse_many,
  max_tlv_depth,
}
use hyperion_x_emv.Tlv.Tags.{read_tag_sound}
use hyperion_x_emv.Tlv.Lengths.{IsByte, encode_length, read_length_sound}
use hyperion_x_emv.Tlv.Complete.{valid_tag_cons}
use hyperion_x_emv.Tlv.Sound.{IsByte-of}

-- The errors of the parser.
abbrev pub Refusal : KernelError → Type 0
Refusal e = (e ≡ KernelError.parse_error) ⊎ (e ≡ KernelError.length_overflow)

read_continuation_refusal :
    (n : ℕ) (input : List ℕ) (e : KernelError)
    → read_continuation n input ≡ err e
    → e ≡ KernelError.parse_error
unfolding read_continuation
read_continuation_refusal n [] e h = cc
read_continuation_refusal n (b ∷ input) e h =
    elim (KernelResult-cases (read_continuation (n + 1) input)) [
      | inl (r, q) ↦ ground (arith, q)
      | inr (x, q) ↦ ground (arith, q, read_continuation_refusal (n + 1) input x)
    ]

pub read_tag_refusal :
    (input : List ℕ) (e : KernelError) → read_tag input ≡ err e → e ≡ KernelError.parse_error
unfolding read_tag
read_tag_refusal [] e h = cc
read_tag_refusal (b ∷ input) e h = elim (KernelResult-cases (read_continuation 0 input)) [
  | inl (r, q) ↦ ground (arith, q)
  | inr (x, q) ↦ ground (arith, q, read_continuation_refusal 0 input x)
]

read_octets_refusal :
    (k len : ℕ) (input : List ℕ) (e : KernelError)
    → read_octets k len input ≡ err e
    → e ≡ KernelError.parse_error
unfolding read_octets
read_octets_refusal zero len input e h = cc
read_octets_refusal (suc k) len [] e h = cc
read_octets_refusal (suc k) len (b ∷ input) e h = read_octets_refusal k _ input e h

read_length-Refusal : (input : List ℕ) (e : KernelError) → read_length input ≡ err e → Refusal e
unfolding read_length
read_length-Refusal [] e h = ground arith
read_length-Refusal (b ∷ input) e h =
    elim (KernelResult-cases (read_octets (bit_and b 0x7f) 0 input)) [
      | inl ((len, r), q) ↦ ground (arith, q)
      | inr (x, q) ↦ ground (arith, q, read_octets_refusal (bit_and b 0x7f) 0 input x)
    ]

descend-Refusal :
    (fuel : ℕ) (c : Bool) (v : List ℕ) (d m : ℕ) (e : KernelError)
    → (parse_items fuel v d m ≡ err e → Refusal e)
    → descend (parse_items fuel) c v d m ≡ err e
    → Refusal e
unfolding descend
descend-Refusal fuel true v d m e ih h = elim (Bool-cases (ltb max_tlv_depth d)) [
  | inl deep ↦ ground (arith, deep)
  | inr shallow ↦ ih (ground (arith, shallow))
]
descend-Refusal fuel false v d m e ih h = cc

-- What a round leaves for its children and its siblings is shorter than its input.
shorter :
    (input t after_tag after : List ℕ) (c : Bool) (len : ℕ)
    → All IsByte input
    → read_tag input ≡ okay (c, t, after_tag)
    → read_length after_tag ≡ okay (len, after)
    → All IsByte after × (length after < length input)
shorter input t after_tag after c len b p q =
    let (split_tag, valid, flag) = read_tag_sound input t after_tag c p in
    let tag_bytes = IsByte-of input t after_tag split_tag b in
    let (split_length, small) = read_length_sound after_tag after len tag_bytes q in
    (
      IsByte-of after_tag (encode_length len) after split_length tag_bytes,
      omega (
        arith,
        ap length split_tag,
        length-append t after_tag,
        ap length split_length,
        length-append (encode_length len) after,
        valid_tag_cons t valid,
      ),
    )

-- A round that fails at its tag, at its length, or past them.
module _ (fuel x : ℕ) (xs : List ℕ) (d n : ℕ) (e : KernelError) where
  Refusal-at_tag :
      (y : KernelError)
      → read_tag (x ∷ xs) ≡ err y
      → parse_items (suc fuel) (x ∷ xs) d n ≡ err e
      → Refusal e
  unfolding parse_items
  Refusal-at_tag y p h = ground (arith, p, read_tag_refusal (x ∷ xs) y)

  module _ (c : Bool) (t after_tag : List ℕ) where
    Refusal-at_length :
        (y : KernelError)
        → read_tag (x ∷ xs) ≡ okay (c, t, after_tag)
        → read_length after_tag ≡ err y
        → parse_items (suc fuel) (x ∷ xs) d n ≡ err e
        → Refusal e
    unfolding parse_items
    Refusal-at_length y p q h = ground (arith, p, q, read_length-Refusal after_tag y)

    Refusal-past_length :
        (len : ℕ) (after : List ℕ)
        → read_tag (x ∷ xs) ≡ okay (c, t, after_tag)
        → read_length after_tag ≡ okay (len, after)
        → parse_items (suc fuel) (x ∷ xs) d n ≡ err e
        → ((m : ℕ) → descend (parse_items fuel) c (take len after) (d + 1) m ≡ err e → Refusal e)
        → ((m : ℕ) → parse_items fuel (drop len after) d m ≡ err e → Refusal e)
        → Refusal e
    unfolding parse_items
    Refusal-past_length len after p q h kids_refusal siblings_refusal =
        elim (KernelResult-cases (descend (parse_items fuel) c (take len after) (d + 1) (n + 1))) [
          | inl ((kids, m), r) ↦ ground (arith, p, q, r, siblings_refusal m)
          | inr (y, r) ↦ ground (arith, p, q, r, kids_refusal (n + 1))
        ]

parse_items-Refusal :
    (fuel : ℕ) (input : List ℕ) (d n : ℕ) (e : KernelError)
    → All IsByte input
    → length input ≤ fuel
    → parse_items fuel input d n ≡ err e
    → Refusal e
parse_items-Refusal fuel [] d n e b f h = absurd (unfold parse_items in cc h)
parse_items-Refusal zero (x ∷ xs) d n e b f h = absurd (omega arith)
parse_items-Refusal (suc fuel) (x ∷ xs) d n e b f h =
    elim (KernelResult-cases (read_tag (x ∷ xs))) [
      | inl ((c, t, after_tag), p) ↦ elim (KernelResult-cases (read_length after_tag)) [
        | inl ((len, after), q) ↦
            let (bytes, short) = shorter (x ∷ xs) t after_tag after c len b p q in
            Refusal-past_length fuel x xs d n e c t after_tag len after p q h
              (λ m. descend-Refusal fuel c (take len after) (d + 1) m e (λ k.
                parse_items-Refusal fuel (take len after) (d + 1) m e
                  (All-take IsByte len after bytes) (omega (arith, length-take len after)) k))
              (λ m.
                parse_items-Refusal fuel (drop len after) d m e (All-drop IsByte len after bytes)
                  (omega (arith, length-drop len after)))
        | inr (y, q) ↦ Refusal-at_length fuel x xs d n e c t after_tag y p q h
      ]
      | inr (y, p) ↦ Refusal-at_tag fuel x xs d n e y p h
    ]

-- On bytes, a failing parse fails with a parse error or a length overflow, so that the fuel of the
-- model never runs out.
pub parse_many-Refusal :
    (input : List ℕ) (e : KernelError) → All IsByte input → parse_many input ≡ err e → Refusal e
unfolding parse_many
parse_many-Refusal input e b h = elim (KernelResult-cases (parse_items (length input) input 0 0)) [
  | inl (r, q) ↦ absurd (ground (arith, q))
  | inr (x, q) ↦ parse_items-Refusal (length input) input 0 0 e b (omega arith) (ground (arith, q))
]
