-- ===== src/Tlv/Lengths.antt =====
-- `read_length` of src/tlv.rs against the minimal encoding of a length.
use hyperion_x_emv.Base.{
  ℕ, zero, suc, ◌+◌, ◌*◌, ◌/◌, ◌%◌, ◌^◌, ◌<◌, ◌≤◌, ◌≡◌, bit_and, bit_or, List, [], ◌∷◌, ◌++◌, okay,
  arith, All, true, false, ◌==◌, ltb, if◌then◌else◌, KernelResult-cases, inl, inr,
}
use hyperion_x_emv.Base.Bits.{bit_or-shift, low_seven_bits, top_bit}
use hyperion_x_emv.Tlv.{read_octets, check_length, read_length, max_tlv_value_length}

abbrev pub IsByte : ℕ → Type 0
IsByte b = b < 256

-- The minimal encoding of a length below 65536.
unfoldable pub encode_length : ℕ → List ℕ
encode_length len =
    if ltb len 0x80
    then len ∷ []
    else if ltb len 0x100
    then 0x81 ∷ len ∷ []
    else 0x82 ∷ len / 256 ∷ len % 256 ∷ []

-- One round of the loop: a byte comes in at the low end.
octet_step :
    (len byte : ℕ)
    → len < 65536
    → byte < 256
    → bit_or (len * 2 ^ 8 % 2 ^ 64) byte ≡ len * 256 + byte
octet_step len byte h k = ground (arith, bit_or-shift 8 len byte)

-- The long form of one to three octets, read on its own.
long_form_sound :
    (octets len : ℕ) (input mid rest : List ℕ)
    → All IsByte input
    → 0 < octets
    → octets ≤ 3
    → read_octets octets 0 input ≡ okay (len, mid)
    → check_length octets len mid ≡ okay (len, rest)
    → ((0x80 + octets) ∷ input ≡ encode_length len ++ rest) × (len ≤ max_tlv_value_length)
unfolding read_octets check_length encode_length
long_form_sound zero len input mid rest b p q e c = absurd (omega arith)
long_form_sound (suc zero) len [] mid rest b p q e c = cc
long_form_sound (suc zero) len (x ∷ xs) mid rest b p q e c = ground (arith, octet_step 0 x)
long_form_sound (suc (suc zero)) len [] mid rest b p q e c = cc
long_form_sound (suc (suc zero)) len (x ∷ []) mid rest b p q e c = cc
long_form_sound (suc (suc zero)) len (x ∷ y ∷ xs) mid rest b p q e c =
    ground (arith, octet_step 0 x, octet_step x y)
long_form_sound (suc (suc (suc zero))) len [] mid rest b p q e c = cc
long_form_sound (suc (suc (suc zero))) len (x ∷ []) mid rest b p q e c = cc
long_form_sound (suc (suc (suc zero))) len (x ∷ y ∷ []) mid rest b p q e c = cc
long_form_sound (suc (suc (suc zero))) len (x ∷ y ∷ z ∷ xs) mid rest b p q e c = ground arith
long_form_sound (suc (suc (suc (suc k)))) len input mid rest b p q e c = absurd (omega arith)

-- The first byte of a long form is 0x80 plus its count of octets.
first_of_long :
    (first : ℕ)
    → first < 256
    → (bit_and first 0x80 == 0) ≡ false
    → 0x80 + bit_and first 0x7f ≡ first
first_of_long first h e = ground (arith, low_seven_bits first h, top_bit first h)

-- What `read_length` accepts is a minimal encoding, followed by the rest.
pub read_length_sound :
    (input rest : List ℕ) (len : ℕ)
    → All IsByte input
    → read_length input ≡ okay (len, rest)
    → (input ≡ encode_length len ++ rest) × (len ≤ max_tlv_value_length)
unfolding read_length
read_length_sound [] rest len b e = cc
read_length_sound (first ∷ input) rest len b e =
    elim (KernelResult-cases (read_octets (bit_and first 0x7f) 0 input)) [
      | inl ((n, mid), q) ↦ ground (
        arith,
        q,
        short_form,
        first_of_long first b.0,
        n_eq n mid,
        long_form_sound (bit_and first 0x7f) n input mid rest b.1,
      )
      | inr (x, q) ↦ ground (arith, q, short_form)
    ]
  where
    short_form :
        (bit_and first 0x80 == 0) ≡ true
        → (first ∷ input ≡ encode_length first ++ input) × (first ≤ max_tlv_value_length)
    short_form t = unfold encode_length in ground (arith, top_bit first b.0)

    n_eq :
        (n : ℕ) (mid : List ℕ)
        → check_length (bit_and first 0x7f) n mid ≡ okay (len, rest)
        → n ≡ len
    n_eq n mid c = unfold check_length in ground arith

-- Every minimal encoding is read back, whatever follows it.
pub read_length_complete :
    (len : ℕ) (rest : List ℕ)
    → len ≤ max_tlv_value_length
    → read_length (encode_length len ++ rest) ≡ okay (len, rest)
unfolding read_length encode_length read_octets check_length
read_length_complete len rest h = ground (
  arith,
  top_bit len,
  octet_step 0 len,
  octet_step 0 (len / 256),
  octet_step (len / 256) (len % 256),
)
