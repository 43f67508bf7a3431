-- ===== src/Ffi/Transport.antt =====
-- Sending commands in src/ffi.rs, with the rounds that a status word asks for.
use hyperion_x_emv.Base.{
  ℕ, zero, suc, ◌+◌, ◌-◌, not, ◌&&◌, List, [], ◌∷◌, ◌++◌, Option, some, none, ltb, leb, ◌==◌,
  if◌then◌else◌, length, get_or, set, KernelError, KernelResult, okay, err, take,
}
use hyperion_x_emv.Sw.{StatusWord, ApduContext, StatusAction, classify}
use hyperion_x_emv.Fsm.{FsmEvent}
use hyperion_x_emv.Apdu.{encode, get_response}
use hyperion_x_emv.Ffi.{
  KrnContext, Answer, Card, Kernel, ◌>>=◌, ◌>>◌, pure, lift, ignore, apply_transition,
}
use hyperion_x_emv.Ffi.Errors.{from_code}

abbrev pub max_apdu_response_len : ℕ
max_apdu_response_len = 258

abbrev pub callback_timeout_min_ms : ℕ
callback_timeout_min_ms = 1

abbrev pub callback_timeout_max_ms : ℕ
callback_timeout_max_ms = 60000

abbrev pub max_apdu_followups : ℕ
max_apdu_followups = 4

abbrev pub unwrap_or : Option KernelError → KernelError → KernelError
unwrap_or (some e) other = e
unwrap_or none other = other

-- What `transmit_apdu` makes of the answer.
unfoldable pub received : Answer → KernelResult (List ℕ)
received answer =
    if not (answer.status == 0)
    then err (unwrap_or (from_code answer.status) KernelError.internal_error)
    else if ltb max_apdu_response_len (length answer.response)
    then err KernelError.length_overflow
    else okay answer.response

unfoldable pub validate_callback_timeout : ℕ → KernelResult (Unit {0})
validate_callback_timeout timeout_ms =
    if leb callback_timeout_min_ms timeout_ms && leb timeout_ms callback_timeout_max_ms
    then okay tt
    else err KernelError.invalid_argument

-- The call of the callback.
abbrev pub call : Card → List ℕ → ℕ → Kernel (List ℕ)
call card command timeout_ms s =
    let sent = (command, timeout_ms) ∷ s.sent in (record s { sent = sent }, received (card sent))

unfoldable pub transmit_apdu : Card → List ℕ → ℕ → Kernel (List ℕ)
unfolding received validate_callback_timeout
transmit_apdu card command timeout_ms =
    lift (validate_callback_timeout timeout_ms) >> call card command timeout_ms

abbrev pub apdu_timeout : KrnContext → ℕ
apdu_timeout ctx = ctx.callback_timeouts.apdu_transport_timeout_ms

unfoldable pub retry_apdu_with_le : List ℕ → ℕ → KernelResult (List ℕ)
retry_apdu_with_le command le =
    let lc = get_or command 4 0 in
    if ltb (length command) 4
    then err KernelError.invalid_argument
    else if length command == 4
    then okay (command ++ (le ∷ []))
    else if length command == 5
    then okay (set command 4 le)
    else if length command == 5 + lc
    then okay (command ++ (le ∷ []))
    else if length command == 6 + lc
    then okay (set command (length command - 1) le)
    else err KernelError.invalid_argument

-- `StatusWord::new` on the last two bytes.
abbrev pub status_of : List ℕ → StatusWord
status_of response = record {
  sw1 = get_or response (length response - 2) 0;
  sw2 = get_or response (length response - 1) 0;
}

-- The loop of `transmit_apdu_with_followups`, with the rounds that are left.
unfoldable pub transmit_rounds : Card → ℕ → List ℕ → ℕ → ApduContext → Kernel (List ℕ)
unfolding transmit_apdu retry_apdu_with_le
transmit_rounds card zero command timeout_ms context = lift (err KernelError.length_overflow)
transmit_rounds card (suc rounds) command timeout_ms context = do
  response ← transmit_apdu card command timeout_ms
  if ltb (length response) 2
      then lift (err KernelError.parse_error)
      else elim (classify context (status_of response)) [
        | StatusAction.get_response n ↦ do
          next ← lift (encode (get_response n))
          transmit_rounds card rounds next timeout_ms context
        | StatusAction.retry_with_le n ↦ do
          next ← lift (retry_apdu_with_le command n)
          transmit_rounds card rounds next timeout_ms context
        | _ ↦ pure response
      ]

unfoldable pub transmit_apdu_with_followups : Card → List ℕ → ℕ → ApduContext → Kernel (List ℕ)
unfolding transmit_rounds
transmit_apdu_with_followups card = transmit_rounds card (suc max_apdu_followups)

-- The body, and the status word behind it.
unfoldable pub response_body_and_status : List ℕ → KernelResult (List ℕ × StatusWord)
response_body_and_status response =
    if ltb (length response) 2
    then err KernelError.parse_error
    else okay (take (length response - 2) response, status_of response)

unfoldable pub require_apdu_success : ApduContext → StatusWord → KernelResult (Unit {0})
require_apdu_success context sw = elim (classify context sw) [
  | StatusAction.success ↦ okay tt
  | StatusAction.fail e ↦ err e
  | _ ↦ err KernelError.internal_error
]

-- On a removed card the failure's transition is tried, and its own result is dropped.
unfoldable pub require_generate_ac_success : StatusWord → FsmEvent → Kernel (Unit {0})
unfolding require_apdu_success
require_generate_ac_success sw failure_event =
    elim (require_apdu_success ApduContext.generate_ac sw) [
      | okay u ↦ pure tt
      | err e ↦ elim e [
        | KernelError.card_removed ↦
            ignore (apply_transition failure_event) >> lift (err KernelError.card_removed)
        | other ↦ lift (err other)
      ]
    ]
