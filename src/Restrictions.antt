-- ===== src/Restrictions.antt =====
-- src/restrictions.rs: the processing restrictions, with dates and application usage control.
pub mod Dates
pub mod Spec
mod Tests
use hyperion_x_emv.Base.{
  ℕ, ◌+◌, ◌*◌, ◌/◌, ◌%◌, ◌^◌, bit_and, Bool, true, false, not, ◌&&◌, ◌||◌, List, [], ◌∷◌, Option,
  some, none, ltb, ◌==◌, if◌then◌else◌, get_or, KernelError, KernelResult, okay, err, ◌>>=◌, ◌>>◌,
  fail_if,
}
use hyperion_x_emv.Base.Bits.{meets}
use hyperion_x_emv.State.Bitmap.{Bit}
use hyperion_x_emv.State.Tvr
use hyperion_x_emv.State.Tvr.{Tvr}

pub record EmvDate : Type 0 where
  pub year : ℕ
  pub month : ℕ
  pub day : ℕ

abbrev pub is_leap_year_20yy : ℕ → Bool
is_leap_year_20yy year = year % 4 == 0

-- The `match month` of `EmvDate::new`.
unfoldable pub max_day : ℕ → ℕ → KernelResult ℕ
max_day year month =
    if month == 1
      || month == 3
      || month == 5
      || month == 7
      || month == 8
      || month == 10
      || month == 12
    then okay 31
    else if month == 4 || month == 6 || month == 9 || month == 11
    then okay 30
    else if month == 2 && is_leap_year_20yy year
    then okay 29
    else if month == 2
    then okay 28
    else err KernelError.parse_error

unfoldable pub new_date : ℕ → ℕ → ℕ → KernelResult EmvDate
unfolding max_day
new_date year month day = do
  last ← max_day year month
  fail_if (day == 0 || ltb last day) KernelError.parse_error
  okay (record { year = year; month = month; day = day })

unfoldable pub bcd : ℕ → KernelResult ℕ
bcd byte =
    let high = byte / 2 ^ 4 in
    let low = bit_and byte 0x0f in
    if ltb 9 high || ltb 9 low then err KernelError.parse_error else okay (high * 10 + low)

unfoldable pub from_bcd : ℕ → ℕ → ℕ → KernelResult EmvDate
unfolding bcd new_date
from_bcd b0 b1 b2 = do year ← bcd b0; month ← bcd b1; day ← bcd b2; new_date year month day

-- The derived order: by year, then month, then day.
unfoldable pub before : EmvDate → EmvDate → Bool
before a b =
    ltb a.year b.year
    || (a.year == b.year && (ltb a.month b.month || (a.month == b.month && ltb a.day b.day)))

pub data TransactionRegion : Type 0 where
  domestic international : TransactionRegion

pub data ServiceType : Type 0 where
  cash goods services cashback : ServiceType

pub data TerminalChannel : Type 0 where
  atm other_than_atm : TerminalChannel

pub record ApplicationUsageControl : Type 0 where
  pub bytes : List ℕ

abbrev pub service_mask : TransactionRegion → ServiceType → Bit
service_mask TransactionRegion.domestic ServiceType.cash = (0, 0x80)
service_mask TransactionRegion.international ServiceType.cash = (0, 0x40)
service_mask TransactionRegion.domestic ServiceType.goods = (0, 0x20)
service_mask TransactionRegion.international ServiceType.goods = (0, 0x10)
service_mask TransactionRegion.domestic ServiceType.services = (0, 0x08)
service_mask TransactionRegion.international ServiceType.services = (0, 0x04)
service_mask TransactionRegion.domestic ServiceType.cashback = (1, 0x80)
service_mask TransactionRegion.international ServiceType.cashback = (1, 0x40)

abbrev pub channel_mask : TerminalChannel → Bit
channel_mask TerminalChannel.atm = (0, 0x02)
channel_mask TerminalChannel.other_than_atm = (0, 0x01)

abbrev pub is_set : ApplicationUsageControl → Bit → Bool
is_set auc (index, mask) = meets (get_or auc.bytes index 0) mask

unfoldable pub parse_auc : List ℕ → KernelResult ApplicationUsageControl
parse_auc (b0 ∷ b1 ∷ []) = okay (record { bytes = b0 ∷ b1 ∷ [] })
parse_auc _ = err KernelError.parse_error

unfoldable pub allows :
    ApplicationUsageControl → TransactionRegion → ServiceType → TerminalChannel → Bool
allows auc region service channel =
    is_set auc (channel_mask channel) && is_set auc (service_mask region service)

pub record RestrictionInput : Type 0 where
  pub transaction_date : EmvDate
  pub application_expiration_date : EmvDate
  pub application_effective_date : Option EmvDate
  pub card_application_version : Option (ℕ × ℕ)
  pub terminal_application_version : Option (ℕ × ℕ)
  pub auc : ApplicationUsageControl
  pub region : TransactionRegion
  pub service : ServiceType
  pub terminal_channel : TerminalChannel
  pub new_card : Bool

pub record RestrictionResult : Type 0 where
  pub tvr : Tvr
  pub failed : Bool

pub data RestrictionCheck : Type 0 where
  application_version expiration_date effective_date : RestrictionCheck
  application_usage_control new_card_check : RestrictionCheck

abbrev pub restriction_check_order : List RestrictionCheck
restriction_check_order =
    RestrictionCheck.application_version ∷ RestrictionCheck.expiration_date
    ∷ RestrictionCheck.effective_date ∷ RestrictionCheck.application_usage_control
    ∷ RestrictionCheck.new_card_check ∷ []

-- `condition.then_some(bit)`
abbrev pub then_some : Bool → Bit → Option Bit
then_some true bit = some bit
then_some false bit = none

abbrev pub versions_differ : Option (ℕ × ℕ) → Option (ℕ × ℕ) → Bool
versions_differ (some card) (some terminal) = not (card.0 == terminal.0 && card.1 == terminal.1)
versions_differ _ _ = false

abbrev pub precedes : EmvDate → Option EmvDate → Bool
precedes date (some effective) = before date effective
precedes date none = false

unfoldable pub tvr_bit : RestrictionCheck → RestrictionInput → Option Bit
tvr_bit RestrictionCheck.application_version input =
    then_some (versions_differ input.card_application_version input.terminal_application_version)
      Tvr.b2_different_application_versions
tvr_bit RestrictionCheck.expiration_date input =
    then_some (before input.application_expiration_date input.transaction_date)
      Tvr.b2_expired_application
tvr_bit RestrictionCheck.effective_date input =
    then_some (precedes input.transaction_date input.application_effective_date)
      Tvr.b2_application_not_yet_effective
tvr_bit RestrictionCheck.application_usage_control input =
    then_some (not (allows input.auc input.region input.service input.terminal_channel))
      Tvr.b2_requested_service_not_allowed
tvr_bit RestrictionCheck.new_card_check input = then_some input.new_card Tvr.b2_new_card

-- The loop over the checks, with the TVR and the flag.
unfoldable pub run_checks : List RestrictionCheck → RestrictionInput → Tvr × Bool → Tvr × Bool
unfolding tvr_bit
run_checks [] input s = s
run_checks (check ∷ checks) input s =
    run_checks checks input
      (elim (tvr_bit check input) [ none ↦ s | some bit ↦ (Tvr.set s.0 bit, true) ])

unfoldable pub evaluate : RestrictionInput → Tvr → RestrictionResult
unfolding run_checks
evaluate input tvr =
    let s = run_checks restriction_check_order input (tvr, false) in
    record { tvr = s.0; failed = s.1 }
