-- ===== src/Tlv/Tags.antt =====
-- `read_tag` of src/tlv.rs against `validate_data_tag` of src/dol.rs.
use hyperion_x_emv.Base.{
  ℕ, ◌+◌, ◌≤◌, ◌≡◌, Bool, false, List, [], ◌∷◌, ◌++◌, length, okay, arith, KernelResult-cases, inl,
  inr, is_empty,
}
use hyperion_x_emv.Base.Bits.{meets}
use hyperion_x_emv.Tlv.{read_continuation, read_tag}
use hyperion_x_emv.Dol.Store.{validate_continuation, validate_long, validate_data_tag}

-- The constructed flag that a tag carries: bit 6 of its first byte.
unfoldable pub is_constructed : List ℕ → Bool
is_constructed [] = false
is_constructed (first ∷ rest) = meets first 0x20

-- `n` bytes are read already; at most three may be.
read_continuation_sound :
    (n : ℕ) (input bytes rest : List ℕ)
    → read_continuation n input ≡ okay (bytes, rest)
    → (input ≡ bytes ++ rest)
      × (validate_continuation bytes ≡ okay tt)
      × (n + length bytes ≤ 3)
      × (is_empty bytes ≡ false)
unfolding read_continuation validate_continuation
read_continuation_sound n [] bytes rest e = cc
read_continuation_sound n (byte ∷ input) bytes rest e =
    elim (KernelResult-cases (read_continuation (n + 1) input)) [
      | inl ((bs, r), q) ↦ ground (arith, q, read_continuation_sound (n + 1) input bs r q)
      | inr (x, q) ↦ ground (arith, q)
    ]

-- The first continuation byte has some of its low seven bits set.
read_continuation_first :
    (input bytes rest : List ℕ)
    → read_continuation 0 input ≡ okay (bytes, rest)
    → validate_long bytes ≡ validate_continuation bytes
unfolding read_continuation validate_long
read_continuation_first [] bytes rest e = cc
read_continuation_first (b ∷ input) bytes rest e =
    elim (KernelResult-cases (read_continuation 1 input)) [
      | inl ((bs, r), q) ↦ ground (arith, q)
      | inr (x, q) ↦ ground (arith, q)
    ]

-- What `read_tag` reads is a tag that `validate_data_tag` accepts, followed by the rest.
pub read_tag_sound :
    (input t rest : List ℕ) (c : Bool)
    → read_tag input ≡ okay (c, t, rest)
    → (input ≡ t ++ rest) × (validate_data_tag t ≡ okay tt) × (c ≡ is_constructed t)
unfolding read_tag is_constructed validate_data_tag
read_tag_sound [] t rest c e = cc
read_tag_sound (first ∷ input) t rest c e = elim (KernelResult-cases (read_continuation 0 input)) [
  | inl ((bs, r), q) ↦
      ground
        (arith, q, read_continuation_sound 0 input bs r q, read_continuation_first input bs r q)
  | inr (x, q) ↦ ground (arith, q)
]

read_continuation_complete :
    (n : ℕ) (bytes rest : List ℕ)
    → validate_continuation bytes ≡ okay tt
    → (n ≡ 0 → validate_long bytes ≡ okay tt)
    → is_empty bytes ≡ false
    → n + length bytes ≤ 3
    → read_continuation n (bytes ++ rest) ≡ okay (bytes, rest)
unfolding read_continuation validate_continuation validate_long
read_continuation_complete n [] rest v l e h = cc
read_continuation_complete n (b ∷ []) rest v l e h = ground (arith, l)
read_continuation_complete n (b ∷ b' ∷ bs) rest v l e h = ground (
  arith,
  l,
  read_continuation_complete (n + 1) (b' ∷ bs) rest (ground arith) (λ z. absurd (omega arith)),
)

-- A tag that `validate_data_tag` accepts is read back whole, whatever follows it.
pub read_tag_complete :
    (t rest : List ℕ)
    → validate_data_tag t ≡ okay tt
    → read_tag (t ++ rest) ≡ okay (is_constructed t, t, rest)
unfolding read_tag is_constructed validate_data_tag
read_tag_complete [] rest v = cc
read_tag_complete (first ∷ []) rest v = ground arith
read_tag_complete (first ∷ b ∷ bs) rest v =
    ground (arith, read_continuation_complete 0 (b ∷ bs) rest (ground arith) (λ z. ground arith))
