-- ===== src/Ffi/Rounds.antt =====
-- The exchange of a command with the card in src/ffi.rs, over all its rounds.
use hyperion_x_emv.Base.{
  ℕ, zero, suc, ◌+◌, ◌≡◌, ◌≤◌, refl, ◌∙◌, Bool, true, false, List, ◌∷◌, ltb, not, ◌==◌, length,
  Bool-cases, inl, inr, arith, KernelResult, okay, err,
}
use hyperion_x_emv.Sw.{ApduContext, StatusAction, classify}
use hyperion_x_emv.Apdu.{encode, get_response}
use hyperion_x_emv.Ffi.{Answer, Card, Session, Kernel, continue_with, ◌>>=◌, pure, lift}
use hyperion_x_emv.Ffi.Transport.{
  max_apdu_response_len, received, validate_callback_timeout, call, transmit_apdu,
  retry_apdu_with_le, status_of, transmit_rounds, transmit_apdu_with_followups,
}

-- The status asks for another round.
abbrev pub asks_again : StatusAction → Bool
asks_again (StatusAction.get_response n) = true
asks_again (StatusAction.retry_with_le n) = true
asks_again _ = false

-- A response has its status word and fits the buffer, and its status asks for no other round.
abbrev pub IsFinal : ApduContext → KernelResult (List ℕ) → Type 0
IsFinal context (okay response) =
    (2 ≤ length response)
    × (length response ≤ max_apdu_response_len)
    × (asks_again (classify context (status_of response)) ≡ false)
IsFinal context (err e) = Unit {0}

-- What an exchange of at most so many commands leaves.
pub record IsExchange (rounds : ℕ) (context : ApduContext) (s : Session)
    (r : Session × KernelResult (List ℕ)) : Type 0 where
  pub kept : r.0.ctx ≡ s.ctx
  pub few : length r.0.sent ≤ length s.sent + rounds
  pub final : IsFinal context r.1

-- One command: it is sent, or nothing is.
abbrev IsShort : KernelResult (List ℕ) → Type 0
IsShort (okay response) = length response ≤ max_apdu_response_len
IsShort (err e) = Unit {0}

record IsSent (s : Session) (r : Session × KernelResult (List ℕ)) : Type 0 where
  kept : r.0.ctx ≡ s.ctx
  few : length r.0.sent ≤ length s.sent + 1
  short : IsShort r.1

received-IsShort : (answer : Answer) → IsShort (received answer)
unfolding received
received-IsShort answer = elim (Bool-cases (not (answer.status == 0))) [
  | inl e ↦ rw e tt
  | inr e ↦ elim (Bool-cases (ltb max_apdu_response_len (length answer.response))) [
    | inl f ↦ rw (e, f) tt
    | inr f ↦ rw (e, f) (ground (arith, f))
  ]
]

transmit_apdu-IsSent :
    (card : Card) (command : List ℕ) (timeout_ms : ℕ) (s : Session)
    → IsSent s (transmit_apdu card command timeout_ms s)
unfolding transmit_apdu ◌>>=◌
transmit_apdu-IsSent card command timeout_ms s = go (validate_callback_timeout timeout_ms)
  where
    go :
        (r : KernelResult (Unit {0}))
        → IsSent s (continue_with (s, r) (λ u. call card command timeout_ms))
    go (okay u) = record {
      kept = refl;
      few = omega arith;
      short = received-IsShort (card ((command, timeout_ms) ∷ s.sent));
    }
    go (err e) = record { kept = refl; few = omega arith; short = tt }

module _ (context : ApduContext) where
  then-IsExchange :
      (rounds : ℕ) (s : Session) (r : Session × KernelResult (List ℕ))
      (f : List ℕ → Kernel (List ℕ))
      → IsSent s r
      → ((response : List ℕ) (s1 : Session)
          → length response ≤ max_apdu_response_len
          → IsExchange rounds context s1 (f response s1))
      → IsExchange (suc rounds) context s (continue_with r f)
  then-IsExchange rounds s (s1, okay response) f sent next =
      let rest = next response s1 sent.short in
      let before = sent.few in
      let later = rest.few in
      record { kept = rest.kept ∙ sent.kept; few = omega arith; final = rest.final }
  then-IsExchange rounds s (s1, err e) f sent next =
      let before = sent.few in record { kept = sent.kept; few = omega arith; final = tt }

  -- The command of the next round, or the error that there is none.
  lifted :
      (rounds : ℕ) (r : KernelResult (List ℕ)) (f : List ℕ → Kernel (List ℕ)) (s : Session)
      → ((command : List ℕ) → IsExchange rounds context s (f command s))
      → IsExchange rounds context s ((lift r >>= f) s)
  unfolding ◌>>=◌
  lifted rounds (okay command) f s next = next command
  lifted rounds (err e) f s next = record { kept = refl; few = omega arith; final = tt }

  next_round :
      (card : Card) (rounds : ℕ) (command : List ℕ) (timeout_ms : ℕ) (response : List ℕ)
      (s : Session)
      → ((next : List ℕ)
          → IsExchange rounds context s (transmit_rounds card rounds next timeout_ms context s))
      → (action : StatusAction)
      → (asks_again action ≡ false → IsExchange rounds context s (s, okay response))
      → IsExchange rounds context s (
          elim action as (λ _. Kernel (List ℕ)) [
            | StatusAction.get_response n ↦ lift (encode (get_response n)) >>= λ next.
                transmit_rounds card rounds next timeout_ms context
            | StatusAction.retry_with_le n ↦ lift (retry_apdu_with_le command n) >>= λ next.
                transmit_rounds card rounds next timeout_ms context
            | _ ↦ pure response
          ]
            s)
  next_round card rounds command timeout_ms response s later (StatusAction.get_response n) last =
      lifted rounds (encode (get_response n))
        (λ next. transmit_rounds card rounds next timeout_ms context) s later
  next_round card rounds command timeout_ms response s later (StatusAction.retry_with_le n) last =
      lifted rounds (retry_apdu_with_le command n)
        (λ next. transmit_rounds card rounds next timeout_ms context) s later
  next_round card rounds command timeout_ms response s later StatusAction.success last = last refl
  next_round card rounds command timeout_ms response s later StatusAction.fallback_to_direct_aid
        last =
      last refl
  next_round card rounds command timeout_ms response s later StatusAction.try_next_aid last =
      last refl
  next_round card rounds command timeout_ms response s later StatusAction.end_of_records last =
      last refl
  next_round card rounds command timeout_ms response s later
        StatusAction.continue_after_script_warning last =
      last refl
  next_round card rounds command timeout_ms response s later
        StatusAction.continue_after_non_critical_script_failure last =
      last refl
  next_round card rounds command timeout_ms response s later (StatusAction.continue_with_tvr bit)
        last =
      last refl
  next_round card rounds command timeout_ms response s later (StatusAction.pin_failed n) last =
      last refl
  next_round card rounds command timeout_ms response s later (StatusAction.fail e) last = last refl

  transmit_rounds-IsExchange :
      (card : Card) (rounds : ℕ) (command : List ℕ) (timeout_ms : ℕ) (s : Session)
      → IsExchange rounds context s (transmit_rounds card rounds command timeout_ms context s)
  unfolding transmit_rounds ◌>>=◌
  transmit_rounds-IsExchange card zero command timeout_ms s = record {
    kept = refl;
    few = omega arith;
    final = tt;
  }
  transmit_rounds-IsExchange card (suc rounds) command timeout_ms s =
      then-IsExchange rounds s (transmit_apdu card command timeout_ms s) _
        (transmit_apdu-IsSent card command timeout_ms s)
        (λ response s1 short. elim (Bool-cases (ltb (length response) 2)) [
          | inl e ↦ rw e (record { kept = refl; few = omega arith; final = tt })
          | inr e ↦ rw e (
              next_round card rounds command timeout_ms response s1
                (λ next. transmit_rounds-IsExchange card rounds next timeout_ms s1)
                (classify context (status_of response))
                (λ settled. record {
                  kept = refl;
                  few = omega arith;
                  final = (ground (arith, e), short, settled);
                }))
        ])

-- An exchange with the card sends at most five commands and leaves the context as it is; a response that it
-- returns has two bytes at least and 258 at most, and its status asks neither for the rest of the response nor
-- for another length.
pub transmit_apdu_with_followups-IsExchange :
    (card : Card) (command : List ℕ) (timeout_ms : ℕ) (context : ApduContext) (s : Session)
    → IsExchange 5 context s (transmit_apdu_with_followups card command timeout_ms context s)
unfolding transmit_apdu_with_followups
transmit_apdu_with_followups-IsExchange card command timeout_ms context s =
    transmit_rounds-IsExchange context card 5 command timeout_ms s
