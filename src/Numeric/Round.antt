-- ===== src/Numeric/Round.antt =====
-- Numbers of src/numeric.rs to BCD and back.
use hyperion_x_emv.Base.{
  ℕ, zero, suc, ◌+◌, ◌*◌, ◌/◌, ◌%◌, ◌^◌, ◌<◌, ◌≡◌, refl, sym, ap, ◌∙◌, bit_and, bit_or, Bool, true,
  ◌&&◌, List, [], ◌∷◌, ◌++◌, leb, ◌==◌, if◌then◌else◌, set, get_or, replicate, all, all_below,
  all_below_sound, KernelError, okay, arith, ◌>>◌, fail_if, ltb→lt, length, ltb, ◌≤◌,
}
use mathlib.Core.List.{append-nil}
use native.Mathlib.Nat.{pow-suc, mul_assoc}
use hyperion_x_emv.Base.Bits.{zero-bit_or}
use hyperion_x_emv.Numeric.{
  encode_from, encode_numeric_bcd_fixed, nibbles, bcd_digits, fold_digits, decode_numeric_bcd_fixed,
}

-- Two digits in one byte.
abbrev pair_byte : ℕ → ℕ
pair_byte q = bit_or (q % 10) (q / 10 * 16)

abbrev splits : ℕ → Bool
splits q = (pair_byte q / 16 == q / 10) && (bit_and (pair_byte q) 0x0f == q % 10)

splits_table : all_below 100 splits ≡ true
unfolding all_below
splits_table = refl

pair_high : (q : ℕ) → q < 100 → pair_byte q / 16 ≡ q / 10
pair_high q h = ground (arith, all_below_sound 100 splits q splits_table h)

pair_low : (q : ℕ) → q < 100 → bit_and (pair_byte q) 0x0f ≡ q % 10
pair_low q h = ground (arith, all_below_sound 100 splits q splits_table h)

-- The bytes of the lowest pairs of digits, in front of others.
abbrev pairs : ℕ → ℕ → List ℕ → List ℕ
pairs zero v tail = tail
pairs (suc n) v tail = pairs n (v / 100) (pair_byte (v % 100) ∷ tail)

-- Zeroes and a byte, read and written at its place.
zeroes-get : (n x : ℕ) (tail : List ℕ) → get_or (replicate n 0 ++ (x ∷ tail)) n 0 ≡ x
zeroes-get zero x tail = refl
zeroes-get (suc n) x tail = zeroes-get n x tail

zeroes-set :
    (n x y : ℕ) (tail : List ℕ)
    → set (replicate n 0 ++ (x ∷ tail)) n y ≡ replicate n 0 ++ (y ∷ tail)
zeroes-set zero x y tail = refl
zeroes-set (suc n) x y tail = ap (λ t. 0 ∷ t) (zeroes-set n x y tail)

zeroes_next : (n : ℕ) (tail : List ℕ) → replicate (suc n) 0 ++ tail ≡ replicate n 0 ++ (0 ∷ tail)
zeroes_next zero tail = refl
zeroes_next (suc n) tail = ap (λ t. 0 ∷ t) (zeroes_next n tail)

-- One round of the loop, at the byte after the zeroes.
round :
    (index n x v : ℕ) (tail : List ℕ)
    → index / 2 ≡ n
    → encode_from (suc index) (replicate n 0 ++ (x ∷ tail)) v
      ≡ encode_from index
          (replicate n 0 ++ (bit_or x (if index % 2 == 0 then v % 10 * 2 ^ 4 else v % 10) ∷ tail))
          (v / 10)
unfolding encode_from
round index n x v tail h =
    let out = replicate n 0 ++ (x ∷ tail) in
    let shifted = if index % 2 == 0 then v % 10 * 2 ^ 4 else v % 10 in
    ap (λ i. encode_from index (set out i (bit_or (get_or out i 0) shifted)) (v / 10)) h
    ∙ ap (λ b. encode_from index (set out n (bit_or b shifted)) (v / 10)) (zeroes-get n x tail)
    ∙ ap (λ o. encode_from index o (v / 10)) (zeroes-set n x (bit_or x shifted) tail)

-- Two rounds write one pair of digits.
two_rounds :
    (n k v : ℕ) (tail : List ℕ)
    → k ≡ n * 2
    → encode_from (suc (suc k)) (replicate n 0 ++ (0 ∷ tail)) v
      ≡ encode_from k (replicate n 0 ++ (pair_byte (v % 100) ∷ tail)) (v / 100)
two_rounds n k v tail h =
    let low : bit_or 0 (if suc k % 2 == 0 then v % 10 * 2 ^ 4 else v % 10) ≡ v % 10 =
      ground (arith, h, zero-bit_or (v % 10)) in
    let high : (if k % 2 == 0 then v / 10 % 10 * 2 ^ 4 else v / 10 % 10) ≡ v / 10 % 10 * 16 =
      ground (arith, h) in
    let one : v % 10 ≡ v % 100 % 10 = omega arith in
    let two : v / 10 % 10 * 16 ≡ v % 100 / 10 * 16 = omega arith in
    let rest : v / 10 / 10 ≡ v / 100 = omega arith in
    round (suc k) n 0 v tail (omega (arith, h))
    ∙ ap (λ b. encode_from (suc k) (replicate n 0 ++ (b ∷ tail)) (v / 10)) low
    ∙ round k n (v % 10) (v / 10) tail (omega (arith, h))
    ∙ ap (λ s. encode_from k (replicate n 0 ++ (bit_or (v % 10) s ∷ tail)) (v / 10 / 10))
        (high ∙ two)
    ∙ ap (λ s. encode_from k (replicate n 0 ++ (bit_or s (v % 100 / 10 * 16) ∷ tail)) (v / 10 / 10))
        one
    ∙ ap (λ r. encode_from k (replicate n 0 ++ (pair_byte (v % 100) ∷ tail)) r) rest

encode_from-pairs :
    (n k v : ℕ) (tail : List ℕ)
    → k ≡ n * 2
    → encode_from k (replicate n 0 ++ tail) v ≡ pairs n v tail
unfolding encode_from
encode_from-pairs zero zero v tail h = refl
encode_from-pairs zero (suc k) v tail h = absurd (omega arith)
encode_from-pairs (suc n) zero v tail h = absurd (omega arith)
encode_from-pairs (suc n) (suc zero) v tail h = absurd (omega arith)
encode_from-pairs (suc n) (suc (suc k)) v tail h =
    ap (λ o. encode_from (suc (suc k)) o v) (zeroes_next n tail)
    ∙ two_rounds n k v tail (omega (arith, h))
    ∙ encode_from-pairs n k (v / 100) (pair_byte (v % 100) ∷ tail) (omega (arith, h))

all_digits :
    (n v : ℕ) (tail : List ℕ)
    → all (λ d. leb d 9) (nibbles (pairs n v tail)) ≡ all (λ d. leb d 9) (nibbles tail)
unfolding nibbles
all_digits zero v tail = refl
all_digits (suc n) v tail =
    all_digits n (v / 100) (pair_byte (v % 100) ∷ tail)
    ∙ ground (arith, pair_high (v % 100) (omega arith), pair_low (v % 100) (omega arith))

fold_step :
    (a d : ℕ) (ds : List ℕ)
    → a * 10 + d < 2 ^ 64
    → fold_digits a (d ∷ ds) ≡ fold_digits (a * 10 + d) ds
unfolding fold_digits
fold_step a d ds h = ground (arith, h)

-- Folding the digits of one pair.
fold_pair :
    (a v : ℕ) (tail : List ℕ)
    → a * 100 + v % 100 < 2 ^ 64
    → fold_digits a (nibbles (pair_byte (v % 100) ∷ tail))
      ≡ fold_digits (a * 100 + v % 100) (nibbles tail)
unfolding nibbles
fold_pair a v tail h =
    let b = pair_byte (v % 100) in
    let high = pair_high (v % 100) (omega arith) in
    let low = pair_low (v % 100) (omega arith) in
    let total : (a * 10 + b / 16) * 10 + bit_and b 0x0f ≡ a * 100 + v % 100 =
      omega (arith, high, low) in
    fold_step a (b / 16) (bit_and b 0x0f ∷ nibbles tail) (omega (arith, h, high))
    ∙ fold_step (a * 10 + b / 16) (bit_and b 0x0f) (nibbles tail) (omega (arith, h, total))
    ∙ ap (λ t. fold_digits t (nibbles tail)) total

scaled : (a n : ℕ) → a * 100 ^ suc n ≡ a * 100 ^ n * 100
scaled a n = ap (λ p. a * p) (pow-suc 100 n) ∙ sym (mul_assoc a (100 ^ n) 100)

fold_pairs :
    (n a v : ℕ) (tail : List ℕ)
    → v < 100 ^ n
    → a * 100 ^ n + v < 2 ^ 64
    → fold_digits a (nibbles (pairs n v tail)) ≡ fold_digits (a * 100 ^ n + v) (nibbles tail)
fold_pairs zero a v tail below fits = ap (λ m. fold_digits m (nibbles tail)) (omega (arith, below))
fold_pairs (suc n) a v tail below fits =
    let s = scaled a n in
    let p = pow-suc 100 n in
    fold_pairs n a (v / 100) (pair_byte (v % 100) ∷ tail) (omega (arith, below, p))
      (omega (arith, fits, s))
    ∙ fold_pair (a * 100 ^ n + v / 100) v tail (omega (arith, fits, s))
    ∙ ap (λ m. fold_digits m (nibbles tail)) (omega (arith, s))

hundreds : (n : ℕ) → 10 ^ (n * 2) ≡ 100 ^ n
hundreds zero = refl
hundreds (suc n) =
    let two : suc n * 2 ≡ suc (suc (n * 2)) = omega arith in
    ap (λ k. 10 ^ k) two
    ∙ omega (arith, pow-suc 10 (suc (n * 2)), pow-suc 10 (n * 2), pow-suc 100 n, hundreds n)

abbrev fits_64 : ℕ → Bool
fits_64 n = ltb (10 ^ (n * 2)) (2 ^ 64)

fits_table : all_below 10 fits_64 ≡ true
unfolding all_below
fits_table = refl

power_fits : (n : ℕ) → n ≤ 9 → 10 ^ (n * 2) < 2 ^ 64
power_fits n h =
    ltb→lt (10 ^ (n * 2)) (2 ^ 64) (all_below_sound 10 fits_64 n fits_table (omega arith))

-- The checks before the loop, for any number of digits and any power.
passes :
    (n p v : ℕ) (o : List ℕ)
    → n < 2 ^ 64
    → p < 2 ^ 64
    → v < p
    → (fail_if (leb (2 ^ 64) n) KernelError.length_overflow
        >> (fail_if (leb (2 ^ 64) p) KernelError.length_overflow
            >> (fail_if (leb p v) KernelError.invalid_argument >> okay o)))
      ≡ okay o
passes n p v o small fits below = ground arith

length-pairs : (n v : ℕ) (tail : List ℕ) → length (pairs n v tail) ≡ n + length tail
length-pairs zero v tail = omega arith
length-pairs (suc n) v tail = omega (arith, length-pairs n (v / 100) (pair_byte (v % 100) ∷ tail))

decode_pairs :
    (n v : ℕ) → v < 100 ^ n → v < 2 ^ 64 → decode_numeric_bcd_fixed (pairs n v []) ≡ okay v
unfolding decode_numeric_bcd_fixed bcd_digits nibbles fold_digits
decode_pairs n v below fits =
    rw (all_digits n v []) (fold_pairs n 0 v [] below (omega (arith, fits)) ∙ ap okay (omega arith))

-- A number of at most two digits for each of up to nine bytes is encoded in that many bytes, and
-- decoded to the same number.
pub decode_numeric_bcd_fixed-encode_numeric_bcd_fixed :
    (value bytes : ℕ)
    → bytes ≤ 9
    → value < 10 ^ (bytes * 2)
    → (out : List ℕ) × (encode_numeric_bcd_fixed value bytes ≡ okay out)
      × (length out ≡ bytes)
      × (decode_numeric_bcd_fixed out ≡ okay value)
unfolding encode_numeric_bcd_fixed
decode_numeric_bcd_fixed-encode_numeric_bcd_fixed value bytes few below =
    let fits = power_fits bytes few in
    let digits : bytes * 2 % 2 ^ 32 ≡ bytes * 2 = omega (arith, few) in
    let power = ap (λ k. 10 ^ k) digits in
    let written : encode_from (bytes * 2) (replicate bytes 0) value ≡ pairs bytes value [] =
      ap (λ o. encode_from (bytes * 2) o value) (sym (append-nil (replicate bytes 0)))
      ∙ encode_from-pairs bytes (bytes * 2) value [] refl in
    (
      pairs bytes value [],
      passes (bytes * 2) (10 ^ (bytes * 2 % 2 ^ 32)) value _ (omega (arith, few))
            (omega (arith, fits, power)) (omega (arith, below, power))
          ∙ ap okay written,
      omega (arith, length-pairs bytes value []),
      decode_pairs bytes value (omega (arith, below, hundreds bytes)) (omega (arith, fits, below)),
    )
