-- ===== src/Restrictions/Dates.antt =====
-- The dates of src/restrictions.rs: BCD bytes, the calendar and the order.
use hyperion_x_emv.Base.{
  ℕ, ◌+◌, ◌*◌, ◌/◌, ◌%◌, ◌≤◌, ◌<◌, ◌≡◌, refl, Bool, true, false, ◌&&◌, ltb, ◌==◌, if◌then◌else◌,
  all_below, all_below_sound, okay, err, arith, KernelResult-cases, inl, inr,
}
use hyperion_x_emv.Restrictions.{EmvDate, max_day, new_date, bcd, from_bcd, before}

-- Two decimal digits in one byte.
abbrev pub to_bcd : ℕ → ℕ
to_bcd n = n / 10 * 16 + n % 10

abbrev reads_back : ℕ → Bool
reads_back n = elim (bcd (to_bcd n)) [ okay m ↦ m == n | err e ↦ false ]

reads_back_table : all_below 100 reads_back ≡ true
unfolding all_below bcd
reads_back_table = refl

bcd-to_bcd : (n : ℕ) → n < 100 → bcd (to_bcd n) ≡ okay n
bcd-to_bcd n h = elim (KernelResult-cases (bcd (to_bcd n))) [
  | inl (m, e) ↦ ground (arith, all_below_sound 100 reads_back n reads_back_table h, e)
  | inr (x, e) ↦ absurd (ground (arith, all_below_sound 100 reads_back n reads_back_table h, e))
]

abbrev spells : ℕ → Bool
spells b = elim (bcd b) [ okay m ↦ (to_bcd m == b) && ltb m 100 | err e ↦ true ]

spells_table : all_below 256 spells ≡ true
unfolding all_below bcd
spells_table = refl

bcd_sound : (b n : ℕ) → b < 256 → bcd b ≡ okay n → (to_bcd n ≡ b) × (n < 100)
bcd_sound b n h e = ground (arith, all_below_sound 256 spells b spells_table h)

-- The number of days of a month: 31 and 30 in turn, starting again in August, but for February.
abbrev pub month_length : ℕ → ℕ → ℕ
month_length year month =
    if month == 2 then if year % 4 == 0 then 29 else 28 else 30 + (month + month / 8) % 2

pub record IsDate (date : EmvDate) : Type 0 where
  pub month_low : 1 ≤ date.month
  pub month_high : date.month ≤ 12
  pub day_low : 1 ≤ date.day
  pub day_high : date.day ≤ month_length date.year date.month

max_day_sound :
    (year month n : ℕ)
    → max_day year month ≡ okay n
    → (n ≡ month_length year month) × (1 ≤ month) × (month ≤ 12)
unfolding max_day
max_day_sound year month n e = (ground arith, ground arith, ground arith)

max_day_complete :
    (year month : ℕ) → 1 ≤ month → month ≤ 12 → max_day year month ≡ okay (month_length year month)
unfolding max_day
max_day_complete year month low high = ground arith

-- Three bytes that are read as a date spell its year, month and day in BCD, and the date is one of
-- the calendar, with a leap year every four years.
pub from_bcd_sound :
    (b0 b1 b2 : ℕ) (date : EmvDate)
    → b0 < 256
    → b1 < 256
    → b2 < 256
    → from_bcd b0 b1 b2 ≡ okay date
    → (to_bcd date.year ≡ b0) × (to_bcd date.month ≡ b1) × (to_bcd date.day ≡ b2) × IsDate date
unfolding from_bcd new_date
from_bcd_sound b0 b1 b2 date h0 h1 h2 e = elim (KernelResult-cases (bcd b0)) [
  | inr (x, q) ↦ absurd (ground (arith, q))
  | inl (year, q0) ↦ elim (KernelResult-cases (bcd b1)) [
    | inr (x, q) ↦ absurd (ground (arith, q0, q))
    | inl (month, q1) ↦ elim (KernelResult-cases (bcd b2)) [
      | inr (x, q) ↦ absurd (ground (arith, q0, q1, q))
      | inl (day, q2) ↦ elim (KernelResult-cases (max_day year month)) [
        | inr (x, q) ↦ absurd (ground (arith, q0, q1, q2, q))
        | inl (last, q) ↦
            let parts = max_day_sound year month last q in
            let same : date ≡ record { year = year; month = month; day = day } =
              ground (arith, q0, q1, q2, q) in
            rw same (
              (bcd_sound b0 year h0 q0).0,
              (bcd_sound b1 month h1 q1).0,
              (bcd_sound b2 day h2 q2).0,
              record {
                month_low = parts.1;
                month_high = parts.2;
                day_low = ground (arith, q0, q1, q2, q);
                day_high = ground (arith, q0, q1, q2, q);
              },
            )
      ]
    ]
  ]
]

-- Every date of the calendar, with a year of two digits, is read back from its BCD bytes.
pub from_bcd_complete :
    (date : EmvDate)
    → date.year < 100
    → IsDate date
    → from_bcd (to_bcd date.year) (to_bcd date.month) (to_bcd date.day) ≡ okay date
unfolding from_bcd new_date
from_bcd_complete date h d =
    let short : date.day < 100 = ground (arith, d.day_high) in
    let low_month : date.month < 100 = omega (arith, d.month_high) in
    rw
      (
        bcd-to_bcd date.year h,
        bcd-to_bcd date.month low_month,
        bcd-to_bcd date.day short,
        max_day_complete date.year date.month d.month_low d.month_high,
      )
      (ground (arith, d.day_low, d.day_high))

-- A date as one number, in the order of the calendar.
abbrev pub day_key : EmvDate → ℕ
day_key date = date.year * 10000 + date.month * 100 + date.day

-- The order on dates of the calendar is that of the numbers with the digits year, month, day.
pub before-day_key :
    (a b : EmvDate) → IsDate a → IsDate b → before a b ≡ ltb (day_key a) (day_key b)
unfolding before
before-day_key a b p q =
    let short_a : a.day < 100 = ground (arith, p.day_high) in
    let short_b : b.day < 100 = ground (arith, q.day_high) in
    ground (arith, short_a, short_b, p.month_high, q.month_high)
