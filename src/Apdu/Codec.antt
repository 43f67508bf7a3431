-- ===== src/Apdu/Codec.antt =====
-- The short encoding of the command APDUs of src/apdu.rs, with a reader for it.
use hyperion_x_emv.Base.{
  ℕ, ◌+◌, ◌%◌, ◌^◌, ◌≡◌, ◌≤◌, refl, ap, List, [], ◌∷◌, ◌++◌, Option, some, none, ltb, length, take,
  drop, length-append, take_prefix, drop_prefix, KernelError, okay, err, arith, ◌<◌, ◌⊎◌, inl, inr,
  Bool-cases, ◌∙◌,
}
use hyperion_x_emv.Apdu.{CommandApdu, encode, encode_data, encode_le, max_short_apdu_data_len}

-- The response length that stands after the data, if one byte is left.
abbrev decode_le : List ℕ → Option (Option ℕ)
decode_le [] = some none
decode_le (n ∷ []) = some (some n)
decode_le (n ∷ m ∷ rest) = none

-- The data and the response length of the bytes after the header: nothing, a response length, or
-- data with its length before it.
abbrev decode_body : List ℕ → Option (List ℕ × Option ℕ)
decode_body [] = some ([], none)
decode_body (n ∷ []) = some ([], some n)
decode_body (lc ∷ b ∷ rest) = elim (decode_le (drop lc (b ∷ rest))) [
  | none ↦ none
  | some le ↦ some (take lc (b ∷ rest), le)
]

-- A reader of short command APDUs, as the card has it.
abbrev pub decode : List ℕ → Option CommandApdu
decode (cla ∷ ins ∷ p1 ∷ p2 ∷ body) = elim (decode_body body) [
  | none ↦ none
  | some (bytes, le) ↦
      some (record { cla = cla; ins = ins; p1 = p1; p2 = p2; data_field = bytes; le = le })
]
decode _ = none

decode_le-encode_le : (le : Option ℕ) → decode_le (encode_le le) ≡ some le
unfolding encode_le
decode_le-encode_le none = refl
decode_le-encode_le (some n) = refl

decode_body_data :
    (b lc : ℕ) (bs : List ℕ) (le : Option ℕ)
    → lc ≡ length (b ∷ bs)
    → decode_body (lc ∷ b ∷ (bs ++ encode_le le)) ≡ some (b ∷ bs, le)
decode_body_data b lc bs le h =
    let taken : take lc (b ∷ (bs ++ encode_le le)) ≡ b ∷ bs =
      ap (λ n. take n (b ∷ (bs ++ encode_le le))) h ∙ take_prefix (b ∷ bs) (encode_le le) in
    let left : drop lc (b ∷ (bs ++ encode_le le)) ≡ encode_le le =
      ap (λ n. drop n (b ∷ (bs ++ encode_le le))) h ∙ drop_prefix (b ∷ bs) (encode_le le) in
    rw (decode_body, left, decode_le-encode_le le, taken) refl

decode_body-encode :
    (bytes : List ℕ) (le : Option ℕ)
    → length bytes ≤ 255
    → decode_body (encode_data bytes ++ encode_le le) ≡ some (bytes, le)
unfolding encode_data encode_le
decode_body-encode [] none h = refl
decode_body-encode [] (some n) h = refl
decode_body-encode (b ∷ bs) le h = decode_body_data b (length (b ∷ bs) % 2 ^ 8) bs le (omega arith)

length-body :
    (bytes : List ℕ) (le : Option ℕ) → length (encode_data bytes ++ encode_le le) ≤ length bytes + 2
unfolding encode_data encode_le
length-body [] none = omega arith
length-body [] (some n) = omega arith
length-body (b ∷ bs) none = omega (arith, length-append bs [])
length-body (b ∷ bs) (some n) = omega (arith, length-append bs (n ∷ []))

-- A command with at most 255 bytes of data is encoded in at most 261 bytes, and the card reads the
-- same command back; one with more is refused with a length overflow.
pub decode-encode :
    (c : CommandApdu)
    → (length c.data_field ≤ max_short_apdu_data_len
        × (out : List ℕ) × (encode c ≡ okay out)
        × (decode out ≡ some c)
        × (length out ≤ 261))
      ⊎ (max_short_apdu_data_len < length c.data_field
          × (encode c ≡ err KernelError.length_overflow))
unfolding encode
decode-encode c = elim (Bool-cases (ltb 255 (length c.data_field))) [
  | inl long ↦ inr (ground (arith, long), ground (arith, long))
  | inr short ↦
      let h : length c.data_field ≤ 255 = ground (arith, short) in
      inl (
        h,
        c.cla ∷ c.ins ∷ c.p1 ∷ c.p2 ∷ (encode_data c.data_field ++ encode_le c.le),
        ground (arith, short),
        rw (decode, decode_body-encode c.data_field c.le h) refl,
        omega (arith, h, length-body c.data_field c.le),
      )
]
