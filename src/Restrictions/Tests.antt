-- ===== src/Restrictions/Tests.antt =====
-- Runs of src/restrictions.rs, and its theorems at concrete inputs.
use hyperion_x_emv.Base.{
  ◌≡◌, refl, true, ◌||◌, [], ◌∷◌, some, none, length, KernelError, okay, err, arith,
}
use hyperion_x_emv.State.Tvr
use hyperion_x_emv.State.Tvr.{Tvr}
use hyperion_x_emv.State.Marks.{any_condition, reaches}
use hyperion_x_emv.Restrictions.{
  EmvDate, from_bcd, before, allows, RestrictionInput, TransactionRegion, ServiceType,
  TerminalChannel, evaluate,
}
use hyperion_x_emv.Restrictions.Dates.{IsDate}
use hyperion_x_emv.Restrictions.Spec.{conditions, evaluate-any_condition}

abbrev leap_day : EmvDate
leap_day = record { year = 24; month = 2; day = 29 }

abbrev expiry : EmvDate
expiry = record { year = 26; month = 11; day = 30 }

leap_day_read : from_bcd 0x24 0x02 0x29 ≡ okay leap_day
unfolding from_bcd
leap_day_read = refl

-- There is no 29 February in 2025, and hexadecimal digits are refused.
no_leap_day : from_bcd 0x25 0x02 0x29 ≡ err KernelError.parse_error
unfolding from_bcd
no_leap_day = refl

no_hexadecimal : from_bcd 0x2a 0x01 0x01 ≡ err KernelError.parse_error
unfolding from_bcd
no_hexadecimal = refl

leap_day-IsDate : IsDate leap_day
leap_day-IsDate = record {
  month_low = omega arith;
  month_high = omega arith;
  day_low = omega arith;
  day_high = omega arith;
}

expiry-IsDate : IsDate expiry
expiry-IsDate = record {
  month_low = omega arith;
  month_high = omega arith;
  day_low = omega arith;
  day_high = omega arith;
}

abbrev input : RestrictionInput
input = record {
  transaction_date = expiry;
  application_expiration_date = leap_day;
  application_effective_date = none;
  card_application_version = some (0, 0x8c);
  terminal_application_version = some (0, 0x8d);
  auc = record { bytes = 0xff ∷ 0xc0 ∷ [] };
  region = TransactionRegion.domestic;
  service = ServiceType.cashback;
  terminal_channel = TerminalChannel.other_than_atm;
  new_card = true;
}

-- The versions differ, the application has expired, and the card is new.
evaluated : (evaluate input Tvr.cleared).tvr ≡ record { bytes = 0 ∷ 0xc8 ∷ 0 ∷ 0 ∷ 0 ∷ [] }
unfolding evaluate before Tvr.set allows
evaluated = refl

evaluate-any_condition_example :
    ((evaluate input Tvr.cleared).failed ≡ any_condition (conditions input))
    × (Tvr.is_set (evaluate input Tvr.cleared).tvr (1, 0x40)
        ≡ Tvr.is_set Tvr.cleared (1, 0x40) || reaches (conditions input) (1, 0x40))
    × (length (evaluate input Tvr.cleared).tvr.bytes ≡ 5)
evaluate-any_condition_example = evaluate-any_condition input Tvr.cleared (1, 0x40) refl
