-- ===== src/Cvm/Tests.antt =====
-- Runs of src/cvm.rs, and its theorems at concrete inputs.
use hyperion_x_emv.Base.{
  ℕ, ◌≡◌, ◌⊎◌, refl, true, false, List, [], ◌∷◌, some, none, get_elem?, take, All, okay,
}
use hyperion_x_emv.State.Tvr
use hyperion_x_emv.Sw.{StatusWord, classify}
use hyperion_x_emv.Cvm.{
  CvmMethod, CvmRule, CvmList, Interface, CvmTransactionType, CvmContext, CvmAction, CvmPinHandles,
  CvmOutcome, OfflinePinVerifyOutcome, parse_cvm_list, evaluate, apply_offline_pin_verify_status,
}
use hyperion_x_emv.Cvm.Rules.{
  IsPassed, passed_over, decided, observed_from, evaluate-decided, IsBacked, action_of,
  evaluate-IsBacked,
}

-- An unknown method that lets the next rule follow, then signature or a failure.
abbrev input : List ℕ
input = 0 ∷ 0 ∷ 0 ∷ 10 ∷ 0 ∷ 0 ∷ 0x27 ∷ 0x10 ∷ 0x50 ∷ 0x00 ∷ 0x1e ∷ 0x03 ∷ []

abbrev list : CvmList
list = record {
  amount_x = 10;
  amount_y = 10000;
  rules =
      record { raw_code = 0x50; method = CvmMethod.unknown 0x10; condition_code = 0x00 }
      ∷ record { raw_code = 0x1e; method = CvmMethod.fail_cvm_processing; condition_code = 0x03 }
      ∷ [];
}

parsed : parse_cvm_list input ≡ okay list
unfolding parse_cvm_list
parsed = refl

abbrev attended : CvmContext
attended = record {
  amount_authorized = 2500;
  transaction_currency_matches_application = true;
  transaction_type = CvmTransactionType.non_cash;
  interface = Interface.contact;
  offline_pin_supported = true;
  online_pin_supported = false;
  signature_supported = true;
  cdcvm_performed = false;
}

abbrev handles : CvmPinHandles
handles = record { offline_plaintext = some 77; offline_enciphered = none }

-- The bit of the unknown method is reported with the failure of the second rule.
unknown_then_fail :
    evaluate list attended handles
    ≡ CvmOutcome.failed (0x1e ∷ 0x03 ∷ 0x01 ∷ []) Tvr.b3_unrecognized_cvm
unfolding evaluate
unknown_then_fail = refl

-- Without the second rule it is lost.
unknown_only :
    evaluate
      (record {
        amount_x = 0;
        amount_y = 0;
        rules =
            record { raw_code = 0x50; method = CvmMethod.unknown 0x10; condition_code = 0x00 } ∷ [];
      })
      attended
      handles
    ≡ CvmOutcome.failed (0x3f ∷ 0x00 ∷ 0x01 ∷ []) Tvr.b3_cardholder_verification_not_successful
unfolding evaluate
unknown_only = refl

evaluate-decided_example :
    (All (IsPassed list attended handles) list.rules
      × (evaluate list attended handles
          ≡ CvmOutcome.failed
              (0x3f ∷ 0x00 ∷ 0x01 ∷ [])
              Tvr.b3_cardholder_verification_not_successful))
    ⊎ ((i : ℕ) × (rule : CvmRule) × (get_elem? list.rules i ≡ some rule)
        × All (IsPassed list attended handles) (take i list.rules)
        × (passed_over list attended handles rule ≡ false)
        × (evaluate list attended handles
            ≡ decided rule attended handles
                (observed_from none (take i list.rules) list attended handles)))
evaluate-decided_example = evaluate-decided list attended handles

abbrev pin_list : CvmList
pin_list = record {
  amount_x = 0;
  amount_y = 0;
  rules =
      record { raw_code = 0x41; method = CvmMethod.offline_plaintext_pin; condition_code = 0x03 }
      ∷ [];
}

pin_selected :
    action_of (evaluate pin_list attended handles) ≡ some (CvmAction.do_offline_plaintext_pin 77)
unfolding evaluate
pin_selected = refl

evaluate-IsBacked_example : IsBacked attended handles (CvmAction.do_offline_plaintext_pin 77)
evaluate-IsBacked_example =
    evaluate-IsBacked pin_list attended handles (CvmAction.do_offline_plaintext_pin 77) pin_selected

abbrev pin_rule : CvmRule
pin_rule = record {
  raw_code = 0x41;
  method = CvmMethod.offline_plaintext_pin;
  condition_code = 0x03;
}

abbrev no_tries : StatusWord
no_tries = record { sw1 = 0x63; sw2 = 0xc0 }

abbrev blocked : OfflinePinVerifyOutcome
blocked = record {
  cvm_results = 0x01 ∷ 0x03 ∷ 0x01 ∷ [];
  tries_remaining = some 0;
  tvr_bit = some Tvr.b3_pin_try_limit_exceeded;
}

blocked_outcome : apply_offline_pin_verify_status pin_rule no_tries ≡ okay blocked
unfolding apply_offline_pin_verify_status classify
blocked_outcome = refl
