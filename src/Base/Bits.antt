-- ===== src/Base/Bits.antt =====
-- Laws of `&` and `|` on numbers of any width, from their binary digits.
use Prim.Native.Nat.{
  ℕ, zero, suc, ◌+◌, ◌-◌, ◌*◌, ◌/◌, ◌%◌, ◌^◌, ◌≤◌, ◌<◌, min, max, bit_and, bit_or, digits,
  bit_and-bitwise, bit_or-bitwise,
}
use mathlib.Core.Path.{◌≡◌, refl, ap}
use mathlib.Core.Bool.{Bool, true, false, not, ◌||◌}
use mathlib.Core.Logic.{◌↔◌}
use native.Mathlib.Nat.{pow-suc}
use native.Mathlib.Omega.{arith}
use hyperion_x_emv.Base.Tests.{all_below, all_below_sound, ◌==◌, ==_iff}

pub zero-bit_or : (y : ℕ) → bit_or 0 y ≡ y
zero-bit_or y = bit_or-bitwise 0 y

pub zero-bit_and : (y : ℕ) → bit_and 0 y ≡ 0
zero-bit_and y = bit_and-bitwise 0 y

-- The digit recursion does not depend on its fuel.
digits_fuel :
    (z : ℕ → ℕ) (op : ℕ → ℕ → ℕ) (k l x y : ℕ)
    → x ≤ k
    → x ≤ l
    → digits z op k x y ≡ digits z op l x y
digits_fuel z op (suc k) (suc l) (suc x) y under_k under_l =
    let halved = digits_fuel z op k l (suc x / 2) (y / 2) (omega arith) (omega arith) in
    omega (arith, halved)
digits_fuel z op (suc k) (suc l) zero y under_k under_l = refl
digits_fuel z op (suc k) zero (suc x) y under_k under_l = absurd (omega arith)
digits_fuel z op (suc k) zero zero y under_k under_l = refl
digits_fuel z op zero l (suc x) y under_k under_l = absurd (omega arith)
digits_fuel z op zero (suc l) zero y under_k under_l = refl
digits_fuel z op zero zero zero y under_k under_l = refl

pub bit_or_step : (x y : ℕ) → bit_or x y ≡ max (x % 2) (y % 2) + bit_or (x / 2) (y / 2) * 2
bit_or_step (suc x) y =
    let same_fuel = digits_fuel (λ y. y) max x (suc x / 2) (suc x / 2) (y / 2) in
    omega (
      arith,
      same_fuel (omega arith) (omega arith),
      bit_or-bitwise (suc x / 2) (y / 2),
      bit_or-bitwise (suc x) y,
    )
bit_or_step zero y = omega (arith, zero-bit_or (y / 2), zero-bit_or y)

pub bit_and_step : (x y : ℕ) → bit_and x y ≡ min (x % 2) (y % 2) + bit_and (x / 2) (y / 2) * 2
bit_and_step (suc x) y =
    let same_fuel = digits_fuel (λ y. zero) min x (suc x / 2) (suc x / 2) (y / 2) in
    omega (
      arith,
      same_fuel (omega arith) (omega arith),
      bit_and-bitwise (suc x / 2) (y / 2),
      bit_and-bitwise (suc x) y,
    )
bit_and_step zero y = omega (arith, zero-bit_and (y / 2), zero-bit_and y)

bit_and_half : (a b : ℕ) → bit_and a b / 2 ≡ bit_and (a / 2) (b / 2)
bit_and_half a b = omega (arith, bit_and_step a b)

bit_and_low : (a b : ℕ) → bit_and a b % 2 ≡ min (a % 2) (b % 2)
bit_and_low a b = omega (arith, bit_and_step a b)

bit_or_half : (a b : ℕ) → bit_or a b / 2 ≡ bit_or (a / 2) (b / 2)
bit_or_half a b = omega (arith, bit_or_step a b)

bit_or_low : (a b : ℕ) → bit_or a b % 2 ≡ max (a % 2) (b % 2)
bit_or_low a b = omega (arith, bit_or_step a b)

ruleset halves = (bit_and_half, bit_or_half)

ruleset lows = (bit_and_low, bit_or_low)

eq_of_digits : (a b : ℕ) → a / 2 ≡ b / 2 → a % 2 ≡ b % 2 → a ≡ b
eq_of_digits a b p q = omega arith

-- Each law goes from the halves to the whole, with a bound on the operands as fuel.
bit_and_comm_fuel : (n a b : ℕ) → a ≤ n → b ≤ n → bit_and a b ≡ bit_and b a
bit_and_comm_fuel zero zero zero p q = refl
bit_and_comm_fuel zero (suc a) b p q = absurd (omega arith)
bit_and_comm_fuel zero zero (suc b) p q = absurd (omega arith)
bit_and_comm_fuel (suc n) a b p q =
    eq_of_digits _ _ (simp halves (bit_and_comm_fuel n (a / 2) (b / 2) (omega arith) (omega arith)))
      (simp lows (omega arith))

bit_or_comm_fuel : (n a b : ℕ) → a ≤ n → b ≤ n → bit_or a b ≡ bit_or b a
bit_or_comm_fuel zero zero zero p q = refl
bit_or_comm_fuel zero (suc a) b p q = absurd (omega arith)
bit_or_comm_fuel zero zero (suc b) p q = absurd (omega arith)
bit_or_comm_fuel (suc n) a b p q =
    eq_of_digits _ _ (simp halves (bit_or_comm_fuel n (a / 2) (b / 2) (omega arith) (omega arith)))
      (simp lows (omega arith))

bit_and_assoc_fuel :
    (n a b c : ℕ) → a ≤ n → b ≤ n → c ≤ n → bit_and (bit_and a b) c ≡ bit_and a (bit_and b c)
bit_and_assoc_fuel zero zero zero zero p q r = refl
bit_and_assoc_fuel zero (suc a) b c p q r = absurd (omega arith)
bit_and_assoc_fuel zero zero (suc b) c p q r = absurd (omega arith)
bit_and_assoc_fuel zero zero zero (suc c) p q r = absurd (omega arith)
bit_and_assoc_fuel (suc n) a b c p q r =
    eq_of_digits _ _
      (simp halves
        (bit_and_assoc_fuel n (a / 2) (b / 2) (c / 2) (omega arith) (omega arith) (omega arith)))
      (simp lows (omega arith))

bit_or_assoc_fuel :
    (n a b c : ℕ) → a ≤ n → b ≤ n → c ≤ n → bit_or (bit_or a b) c ≡ bit_or a (bit_or b c)
bit_or_assoc_fuel zero zero zero zero p q r = refl
bit_or_assoc_fuel zero (suc a) b c p q r = absurd (omega arith)
bit_or_assoc_fuel zero zero (suc b) c p q r = absurd (omega arith)
bit_or_assoc_fuel zero zero zero (suc c) p q r = absurd (omega arith)
bit_or_assoc_fuel (suc n) a b c p q r =
    eq_of_digits _ _
      (simp halves
        (bit_or_assoc_fuel n (a / 2) (b / 2) (c / 2) (omega arith) (omega arith) (omega arith)))
      (simp lows (omega arith))

bit_and_or_fuel :
    (n a b c : ℕ)
    → a ≤ n
    → b ≤ n
    → c ≤ n
    → bit_and a (bit_or b c) ≡ bit_or (bit_and a b) (bit_and a c)
bit_and_or_fuel zero zero zero zero p q r = refl
bit_and_or_fuel zero (suc a) b c p q r = absurd (omega arith)
bit_and_or_fuel zero zero (suc b) c p q r = absurd (omega arith)
bit_and_or_fuel zero zero zero (suc c) p q r = absurd (omega arith)
bit_and_or_fuel (suc n) a b c p q r =
    eq_of_digits _ _
      (simp halves
        (bit_and_or_fuel n (a / 2) (b / 2) (c / 2) (omega arith) (omega arith) (omega arith)))
      (simp lows (omega arith))

bit_and_self_fuel : (n a : ℕ) → a ≤ n → bit_and a a ≡ a
bit_and_self_fuel zero zero p = refl
bit_and_self_fuel zero (suc a) p = absurd (omega arith)
bit_and_self_fuel (suc n) a p =
    eq_of_digits _ _ (simp halves (bit_and_self_fuel n (a / 2) (omega arith)))
      (simp lows (omega arith))

bit_and-zero_fuel : (n a : ℕ) → a ≤ n → bit_and a 0 ≡ 0
bit_and-zero_fuel zero zero p = refl
bit_and-zero_fuel zero (suc a) p = absurd (omega arith)
bit_and-zero_fuel (suc n) a p =
    eq_of_digits _ _ (simp halves (bit_and-zero_fuel n (a / 2) (omega arith)))
      (simp lows (omega arith))

bit_or-zero_fuel : (n a : ℕ) → a ≤ n → bit_or a 0 ≡ a
bit_or-zero_fuel zero zero p = refl
bit_or-zero_fuel zero (suc a) p = absurd (omega arith)
bit_or-zero_fuel (suc n) a p =
    eq_of_digits _ _ (simp halves (bit_or-zero_fuel n (a / 2) (omega arith)))
      (simp lows (omega arith))

-- `&` is commutative.
pub bit_and_comm : (a b : ℕ) → bit_and a b ≡ bit_and b a
bit_and_comm a b = bit_and_comm_fuel (a + b) a b (omega arith) (omega arith)

-- `|` is commutative.
pub bit_or_comm : (a b : ℕ) → bit_or a b ≡ bit_or b a
bit_or_comm a b = bit_or_comm_fuel (a + b) a b (omega arith) (omega arith)

-- `&` is associative.
pub bit_and_assoc : (a b c : ℕ) → bit_and (bit_and a b) c ≡ bit_and a (bit_and b c)
bit_and_assoc a b c = bit_and_assoc_fuel (a + b + c) a b c (omega arith) (omega arith) (omega arith)

-- `|` is associative.
pub bit_or_assoc : (a b c : ℕ) → bit_or (bit_or a b) c ≡ bit_or a (bit_or b c)
bit_or_assoc a b c = bit_or_assoc_fuel (a + b + c) a b c (omega arith) (omega arith) (omega arith)

-- `&` distributes over `|`.
pub bit_and_or : (a b c : ℕ) → bit_and a (bit_or b c) ≡ bit_or (bit_and a b) (bit_and a c)
bit_and_or a b c = bit_and_or_fuel (a + b + c) a b c (omega arith) (omega arith) (omega arith)

-- `&` is idempotent.
pub bit_and_self : (a : ℕ) → bit_and a a ≡ a
bit_and_self a = bit_and_self_fuel (a) a (omega arith)

-- `a & 0` is 0.
pub bit_and-zero : (a : ℕ) → bit_and a 0 ≡ 0
bit_and-zero a = bit_and-zero_fuel (a) a (omega arith)

-- `a | 0` is `a`.
pub bit_or-zero : (a : ℕ) → bit_or a 0 ≡ a
bit_or-zero a = bit_or-zero_fuel (a) a (omega arith)

le_bit_or_fuel : (n a b : ℕ) → a ≤ n → a ≤ bit_or a b
le_bit_or_fuel n zero b p = omega arith
le_bit_or_fuel zero (suc a) b p = absurd (omega arith)
le_bit_or_fuel (suc n) (suc a) b p =
    omega (arith, bit_or_step (suc a) b, le_bit_or_fuel n (suc a / 2) (b / 2) (omega arith))

-- `|` only grows its first operand.
pub le-bit_or : (a b : ℕ) → a ≤ bit_or a b
le-bit_or a b = le_bit_or_fuel a a b (omega arith)

bit_and_le_fuel : (n a b : ℕ) → a ≤ n → bit_and a b ≤ a
bit_and_le_fuel n zero b p = omega (arith, zero-bit_and b)
bit_and_le_fuel zero (suc a) b p = absurd (omega arith)
bit_and_le_fuel (suc n) (suc a) b p =
    omega (arith, bit_and_step (suc a) b, bit_and_le_fuel n (suc a / 2) (b / 2) (omega arith))

-- `&` is at most its first operand.
pub bit_and-le : (a b : ℕ) → bit_and a b ≤ a
bit_and-le a b = bit_and_le_fuel a a b (omega arith)

-- A `|` is 0 exactly when both operands are.
pub bit_or-eq_zero : (a b : ℕ) → bit_or a b ≡ 0 ↔ (a ≡ 0) × (b ≡ 0)
bit_or-eq_zero a b = (
  λ h. (omega (arith, le-bit_or a b), omega (arith, le-bit_or b a, bit_or_comm a b)),
  λ h. cc (h.0, h.1, bit_or-zero 0),
)

-- `|` of numbers of `k` bits has `k` bits.
pub bit_or-lt : (k a b : ℕ) → a < 2 ^ k → b < 2 ^ k → bit_or a b < 2 ^ k
bit_or-lt zero a b p q = ground (arith, bit_or-zero 0)
bit_or-lt (suc k) a b p q =
    omega (arith, pow-suc 2 k, bit_or_step a b, bit_or-lt k (a / 2) (b / 2) (below a p) (below b q))
  where
    below : (x : ℕ) → x < 2 ^ suc k → x / 2 < 2 ^ k
    below x h = omega (arith, pow-suc 2 k)

-- A byte has no bit in common with its complement `!m`.
not_table : all_below 256 (λ m. bit_and (255 - m) m == 0) ≡ true
unfolding all_below
not_table = refl

pub bit_and-not : (m : ℕ) → m < 256 → bit_and (255 - m) m ≡ 0
bit_and-not m h = (==_iff _ _).0 (all_below_sound 256 _ m not_table h)

-- `a & b != 0`.
abbrev pub meets : ℕ → ℕ → Bool
meets a b = not (bit_and a b == 0)

-- The bits of `a | b` meet a mask exactly when those of `a` or of `b` do.
pub meets-bit_or : (a b m : ℕ) → meets (bit_or a b) m ≡ meets a m || meets b m
meets-bit_or a b m = ground (
  arith,
  bit_and_comm (bit_or a b) m,
  bit_and_or m a b,
  bit_and_comm m a,
  bit_and_comm m b,
  bit_or-eq_zero (bit_and a m) (bit_and b m),
)

pub meets_comm : (a b : ℕ) → meets a b ≡ meets b a
meets_comm a b = ap (λ c. not (c == 0)) (bit_and_comm a b)

-- What `& !m` leaves does not meet `m`.
pub meets-clear : (a m : ℕ) → m < 256 → meets (bit_and a (255 - m)) m ≡ false
meets-clear a m h = ground (arith, bit_and_assoc a (255 - m) m, bit_and-not m h, bit_and-zero a)

two-pow-suc : (q k : ℕ) → q * 2 ^ suc k ≡ 2 * (q * 2 ^ k)
two-pow-suc q k = omega (arith, ap (λ (t : ℕ). q * t) (pow-suc 2 k))

-- `(q << k) | r` is a sum where `r` has at most `k` bits.
pub bit_or-shift : (k q r : ℕ) → r < 2 ^ k → bit_or (q * 2 ^ k) r ≡ q * 2 ^ k + r
bit_or-shift zero q r h = ground (arith, bit_or-zero q)
bit_or-shift (suc k) q r h = ground (
  arith,
  pow-suc 2 k,
  two-pow-suc q k,
  bit_or_step (q * 2 ^ suc k) r,
  bit_or-shift k q (r / 2) (omega (arith, pow-suc 2 k)),
)

-- The masks of the low four and seven bits, and of the top bit, of a byte.
low_four_table : all_below 256 (λ b. bit_and b 0x0f == b % 16) ≡ true
unfolding all_below
low_four_table = refl

low_seven_table : all_below 256 (λ b. bit_and b 0x7f == b % 128) ≡ true
unfolding all_below
low_seven_table = refl

top_bit_table : all_below 256 (λ b. bit_and b 0x80 == b / 128 * 128) ≡ true
unfolding all_below
top_bit_table = refl

pub low_four_bits : (b : ℕ) → b < 256 → bit_and b 0x0f ≡ b % 16
low_four_bits b h = (==_iff _ _).0 (all_below_sound 256 _ b low_four_table h)

pub low_seven_bits : (b : ℕ) → b < 256 → bit_and b 0x7f ≡ b % 128
low_seven_bits b h = (==_iff _ _).0 (all_below_sound 256 _ b low_seven_table h)

pub top_bit : (b : ℕ) → b < 256 → bit_and b 0x80 ≡ b / 128 * 128
top_bit b h = (==_iff _ _).0 (all_below_sound 256 _ b top_bit_table h)
