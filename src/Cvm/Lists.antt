-- ===== src/Cvm/Lists.antt =====
-- The bytes of a CVM list, and the outcome of an offline PIN (src/cvm.rs).
use hyperion_x_emv.Base.{
  ℕ, ◌+◌, ◌-◌, ◌*◌, ◌/◌, ◌%◌, ◌^◌, ◌<◌, ◌≡◌, ◌≤◌, ◌⊎◌, inl, inr, refl, ap, true, not, ◌&&◌, ◌||◌,
  List, [], ◌∷◌, ◌++◌, ltb, ◌==◌, if◌then◌else◌, length, bit_and, All, KernelError, KernelResult,
  okay, err, arith, some, none, Bool-cases, ◌∙◌,
}
use hyperion_x_emv.State.Tvr
use hyperion_x_emv.Tlv.Lengths.{IsByte}
use hyperion_x_emv.Sw.{StatusWord, ApduContext, classify, in_context, is_success}
use hyperion_x_emv.Cvm.{
  CvmRule, CvmList, OfflinePinVerifyOutcome, from_code, from_be_bytes, parse_rules, parse_cvm_list,
  cvm_results, requires_offline_pin, verify_outcome, apply_offline_pin_verify_status, max_cvm_rules,
}

-- Four bytes, the most significant one first.
abbrev to_be_bytes : ℕ → List ℕ
to_be_bytes n = n / 2 ^ 24 ∷ n / 2 ^ 16 % 256 ∷ n / 2 ^ 8 % 256 ∷ n % 256 ∷ []

abbrev encode_rules : List CvmRule → List ℕ
encode_rules [] = []
encode_rules (rule ∷ rules) = rule.raw_code ∷ rule.condition_code ∷ encode_rules rules

abbrev pub encode_cvm_list : CvmList → List ℕ
encode_cvm_list list =
    to_be_bytes list.amount_x ++ to_be_bytes list.amount_y ++ encode_rules list.rules

-- The method of a rule is the one that its code names.
abbrev pub IsNamed : CvmRule → Type 0
IsNamed rule = rule.method ≡ from_code rule.raw_code

parse_rules_sound :
    (input : List ℕ)
    → length input % 2 ≡ 0
    → (encode_rules (parse_rules input) ≡ input)
      × All IsNamed (parse_rules input)
      × (length input ≡ length (parse_rules input) * 2)
unfolding parse_rules
parse_rules_sound [] h = (refl, tt, omega arith)
parse_rules_sound (b ∷ []) h = absurd (omega arith)
parse_rules_sound (b ∷ c ∷ rest) h =
    let r = parse_rules_sound rest (omega arith) in
    (ap (λ t. b ∷ c ∷ t) r.0, (refl, r.1), omega (arith, r.2))

parse_rules_complete :
    (rules : List CvmRule) → All IsNamed rules → parse_rules (encode_rules rules) ≡ rules
unfolding parse_rules
parse_rules_complete [] n = refl
parse_rules_complete (rule ∷ rules) n = rw (parse_rules_complete rules n.1) (rw (← n.0) refl)

to_be_bytes-from_be_bytes :
    (b0 b1 b2 b3 : ℕ)
    → b1 < 256
    → b2 < 256
    → b3 < 256
    → to_be_bytes (from_be_bytes b0 b1 b2 b3) ≡ b0 ∷ b1 ∷ b2 ∷ b3 ∷ []
to_be_bytes-from_be_bytes b0 b1 b2 b3 h1 h2 h3 = ground arith

from_be_bytes-to_be_bytes :
    (n : ℕ) → from_be_bytes (n / 2 ^ 24) (n / 2 ^ 16 % 256) (n / 2 ^ 8 % 256) (n % 256) ≡ n
from_be_bytes-to_be_bytes n = omega arith

length-encode_rules : (rules : List CvmRule) → length (encode_rules rules) ≡ length rules * 2
length-encode_rules [] = omega arith
length-encode_rules (rule ∷ rules) = omega (arith, length-encode_rules rules)

joined :
    (b0 b1 b2 b3 b4 b5 b6 b7 : ℕ) (rest : List ℕ)
    → to_be_bytes (from_be_bytes b0 b1 b2 b3) ≡ b0 ∷ b1 ∷ b2 ∷ b3 ∷ []
    → to_be_bytes (from_be_bytes b4 b5 b6 b7) ≡ b4 ∷ b5 ∷ b6 ∷ b7 ∷ []
    → encode_rules (parse_rules rest) ≡ rest
    → to_be_bytes (from_be_bytes b0 b1 b2 b3)
        ++ to_be_bytes (from_be_bytes b4 b5 b6 b7)
        ++ encode_rules (parse_rules rest)
      ≡ b0 ∷ b1 ∷ b2 ∷ b3 ∷ b4 ∷ b5 ∷ b6 ∷ b7 ∷ rest
joined b0 b1 b2 b3 b4 b5 b6 b7 rest x y r =
    ap (λ t. t ++ to_be_bytes (from_be_bytes b4 b5 b6 b7) ++ encode_rules (parse_rules rest)) x
    ∙ ap (λ t. b0 ∷ b1 ∷ b2 ∷ b3 ∷ (t ++ encode_rules (parse_rules rest))) y
    ∙ ap (λ t. b0 ∷ b1 ∷ b2 ∷ b3 ∷ b4 ∷ b5 ∷ b6 ∷ b7 ∷ t) r

-- The list that is read from the encoding of a list.
abbrev reread : CvmList → CvmList
reread list = record {
  amount_x =
      from_be_bytes (list.amount_x / 2 ^ 24) (list.amount_x / 2 ^ 16 % 256)
        (list.amount_x / 2 ^ 8 % 256) (list.amount_x % 256);
  amount_y =
      from_be_bytes (list.amount_y / 2 ^ 24) (list.amount_y / 2 ^ 16 % 256)
        (list.amount_y / 2 ^ 8 % 256) (list.amount_y % 256);
  rules = parse_rules (encode_rules list.rules);
}

rebuilt :
    (list : CvmList)
    → All IsNamed list.rules
    → ◌≡◌ {A = KernelResult CvmList} (okay (reread list)) (okay list)
rebuilt list named = ap okay (
    ground (
      arith,
      from_be_bytes-to_be_bytes list.amount_x,
      from_be_bytes-to_be_bytes list.amount_y,
      parse_rules_complete list.rules named,
    ))

-- The checks before the rules, for any length.
checked :
    (n : ℕ) (l list : CvmList)
    → (if ltb n 8 || not ((n - 8) % 2 == 0)
        then err KernelError.parse_error
        else if ltb max_cvm_rules ((n - 8) / 2)
        then err KernelError.length_overflow
        else okay l)
      ≡ okay list
    → (8 ≤ n) × ((n - 8) % 2 ≡ 0) × ((n - 8) / 2 ≤ 64) × (list ≡ l)
checked n l list e = (ground arith, ground arith, ground arith, ground arith)

passes :
    (n k : ℕ) (l : CvmList)
    → n ≡ 8 + k * 2
    → k ≤ 64
    → (if ltb n 8 || not ((n - 8) % 2 == 0)
        then err KernelError.parse_error
        else if ltb max_cvm_rules ((n - 8) / 2)
        then err KernelError.length_overflow
        else okay l)
      ≡ okay l
passes n k l h few = ground arith

-- A CVM list that is accepted is the encoding of its two amounts and its rules, at most 64 of them;
-- the amounts have 32 bits and each rule has the method that its code names.
pub parse_cvm_list_sound :
    (input : List ℕ) (list : CvmList)
    → All IsByte input
    → parse_cvm_list input ≡ okay list
    → (encode_cvm_list list ≡ input)
      × All IsNamed list.rules
      × (length list.rules ≤ max_cvm_rules)
      × (list.amount_x < 2 ^ 32)
      × (list.amount_y < 2 ^ 32)
unfolding parse_cvm_list
parse_cvm_list_sound [] list b e = absurd (omega (arith, (checked 0 _ list e).0))
parse_cvm_list_sound (b0 ∷ []) list b e = absurd (omega (arith, (checked 1 _ list e).0))
parse_cvm_list_sound (b0 ∷ b1 ∷ []) list b e = absurd (omega (arith, (checked 2 _ list e).0))
parse_cvm_list_sound (b0 ∷ b1 ∷ b2 ∷ []) list b e = absurd (omega (arith, (checked 3 _ list e).0))
parse_cvm_list_sound (b0 ∷ b1 ∷ b2 ∷ b3 ∷ []) list b e =
    absurd (omega (arith, (checked 4 _ list e).0))
parse_cvm_list_sound (b0 ∷ b1 ∷ b2 ∷ b3 ∷ b4 ∷ []) list b e =
    absurd (omega (arith, (checked 5 _ list e).0))
parse_cvm_list_sound (b0 ∷ b1 ∷ b2 ∷ b3 ∷ b4 ∷ b5 ∷ []) list b e =
    absurd (omega (arith, (checked 6 _ list e).0))
parse_cvm_list_sound (b0 ∷ b1 ∷ b2 ∷ b3 ∷ b4 ∷ b5 ∷ b6 ∷ []) list b e =
    absurd (omega (arith, (checked 7 _ list e).0))
parse_cvm_list_sound (b0 ∷ b1 ∷ b2 ∷ b3 ∷ b4 ∷ b5 ∷ b6 ∷ b7 ∷ rest) list b e =
    let c = checked (length (b0 ∷ b1 ∷ b2 ∷ b3 ∷ b4 ∷ b5 ∷ b6 ∷ b7 ∷ rest)) _ list e in
    let r = parse_rules_sound rest (omega (arith, c.1)) in
    let x = to_be_bytes-from_be_bytes b0 b1 b2 b3 b.1.0 b.1.1.0 b.1.1.1.0 in
    let y = to_be_bytes-from_be_bytes b4 b5 b6 b7 b.1.1.1.1.1.0 b.1.1.1.1.1.1.0 b.1.1.1.1.1.1.1.0 in
    rw c.3 (
      joined b0 b1 b2 b3 b4 b5 b6 b7 rest x y r.0,
      r.1,
      omega (arith, r.2, c.2),
      omega (arith, b.0, b.1.0, b.1.1.0, b.1.1.1.0),
      omega (arith, b.1.1.1.1.0, b.1.1.1.1.1.0, b.1.1.1.1.1.1.0, b.1.1.1.1.1.1.1.0),
    )

-- Every list of at most 64 rules, each with the method that its code names, and amounts of 32 bits
-- is parsed back from its encoding.
pub parse_cvm_list_complete :
    (list : CvmList)
    → All IsNamed list.rules
    → length list.rules ≤ max_cvm_rules
    → list.amount_x < 2 ^ 32
    → list.amount_y < 2 ^ 32
    → parse_cvm_list (encode_cvm_list list) ≡ okay list
unfolding parse_cvm_list
parse_cvm_list_complete list named few x y =
    passes (length (encode_cvm_list list)) (length list.rules) _
      (omega (arith, length-encode_rules list.rules)) few
    ∙ rebuilt list named

abbrev Verified : CvmRule → StatusWord → OfflinePinVerifyOutcome → Type 0
Verified rule sw o =
    ((sw.sw1 ≡ 0x90)
      × (sw.sw2 ≡ 0x00)
      × (o
          ≡ record { cvm_results = cvm_results rule 0x02; tries_remaining = none; tvr_bit = none }))
    ⊎ ((sw.sw1 ≡ 0x63)
        × (bit_and sw.sw2 0xf0 ≡ 0xc0)
        × (o.tries_remaining ≡ some (bit_and sw.sw2 0x0f))
        × (o.cvm_results ≡ cvm_results rule 0x01)
        × (o.tvr_bit
            ≡ some (
                if bit_and sw.sw2 0x0f == 0
                then Tvr.b3_pin_try_limit_exceeded
                else Tvr.b3_cardholder_verification_not_successful)))

verified :
    (rule : CvmRule) (sw : StatusWord) (o : OfflinePinVerifyOutcome)
    → verify_outcome rule (classify ApduContext.verify sw) ≡ okay o
    → Verified rule sw o
unfolding verify_outcome classify in_context
verified rule sw o e = elim (Bool-cases (is_success sw)) [
  | inl yes_success ↦
      inl (ground (arith, yes_success), ground (arith, yes_success), ground (arith, yes_success))
  | inr no_success ↦ elim (Bool-cases (sw.sw1 == 0x63 && bit_and sw.sw2 0xf0 == 0xc0)) [
    | inl yes_tries ↦ inr (
      ground (arith, yes_tries),
      ground (arith, yes_tries),
      ground (arith, no_success, yes_tries),
      ground (arith, no_success, yes_tries),
      ground (arith, no_success, yes_tries),
    )
    | inr no_tries ↦ absurd (ground (arith, no_success, no_tries))
  ]
]

-- The outcome of an offline PIN: success without a TVR bit exactly for the status word 9000, and for
-- 63Cx a failure with x tries left and the bit for the try limit exactly if x is zero. No other status
-- word has an outcome, and no method but those with an offline PIN.
pub apply_offline_pin_verify_status_lem :
    (rule : CvmRule) (sw : StatusWord) (o : OfflinePinVerifyOutcome)
    → apply_offline_pin_verify_status rule sw ≡ okay o
    → (requires_offline_pin rule.method ≡ true)
      × (((sw.sw1 ≡ 0x90)
            × (sw.sw2 ≡ 0x00)
            × (o ≡ record {
              cvm_results = cvm_results rule 0x02;
              tries_remaining = none;
              tvr_bit = none;
            }))
          ⊎ ((sw.sw1 ≡ 0x63)
              × (bit_and sw.sw2 0xf0 ≡ 0xc0)
              × (o.tries_remaining ≡ some (bit_and sw.sw2 0x0f))
              × (o.cvm_results ≡ cvm_results rule 0x01)
              × (o.tvr_bit
                  ≡ some (
                      if bit_and sw.sw2 0x0f == 0
                      then Tvr.b3_pin_try_limit_exceeded
                      else Tvr.b3_cardholder_verification_not_successful))))
unfolding apply_offline_pin_verify_status
apply_offline_pin_verify_status_lem rule sw o e =
    elim (Bool-cases (requires_offline_pin rule.method)) [
      | inr other ↦ absurd (ground (arith, other))
      | inl has_pin ↦ (has_pin, verified rule sw o (ground (arith, has_pin)))
    ]
