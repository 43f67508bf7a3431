-- ===== src/Ffi/Keeps.antt =====
-- What the operations of src/ffi.rs leave of the context, however they end.
use hyperion_x_emv.Base.{
  ℕ, zero, suc, Bool, true, false, List, Option, ◌+◌, if◌then◌else◌, length, KernelResult, okay,
  err, ltb,
}
use hyperion_x_emv.Sw.{ApduContext, StatusAction, classify}
use hyperion_x_emv.Apdu.{encode, get_response}
use hyperion_x_emv.Issuer.{ScriptPhase, ScriptCommandResult}
use hyperion_x_emv.Ffi.Scripts.{IssuerScriptStatus, run_commands}
use hyperion_x_emv.Ffi.{KrnContext, Card, Session, Kernel, continue_with, ◌>>=◌, pure, lift, asks}
use hyperion_x_emv.Ffi.Transport.{
  transmit_apdu, transmit_rounds, transmit_apdu_with_followups, status_of, retry_apdu_with_le,
}

-- The operation keeps what holds of the context, however it ends.
pub record Keeps {A : Type 0} (P : KrnContext → Type 0) (m : Kernel A) : Type 0 where
  pub kept : (s : Session) → P s.ctx → P (m s).0.ctx

module _ {A B : Type 0} {P : KrnContext → Type 0} where
  pub Keeps-bind :
      {m : Kernel A} {f : A → Kernel B} → Keeps P m → ((a : A) → Keeps P (f a)) → Keeps P (m >>= f)
  unfolding ◌>>=◌
  Keeps-bind {m} {f} p q = record { kept = λ s i. go (m s) (p.kept s i) }
    where
      go : (r : Session × KernelResult A) → P r.0.ctx → P (continue_with r f).0.ctx
      go (s, okay a) i = (q a).kept s i
      go (s, err e) i = i

module _ {A : Type 0} {P : KrnContext → Type 0} where
  pub Keeps-pure : {a : A} → Keeps P (pure a)
  Keeps-pure = record { kept = λ s i. i }

  pub Keeps-lift : {r : KernelResult A} → Keeps P (lift r)
  Keeps-lift = record { kept = λ s i. i }

  pub Keeps-asks : (f : KrnContext → A) → Keeps P (asks f)
  Keeps-asks f = record { kept = λ s i. i }

  pub Keeps-if : {m n : Kernel A} (b : Bool) → Keeps P m → Keeps P n → Keeps P (if b then m else n)
  Keeps-if true p q = p
  Keeps-if false p q = q

-- Sending commands leaves the context as it is.
module _ {P : KrnContext → Type 0} where
  pub Keeps-transmit_apdu :
      (card : Card) (command : List ℕ) (timeout_ms : ℕ)
      → Keeps P (transmit_apdu card command timeout_ms)
  unfolding transmit_apdu
  Keeps-transmit_apdu card command timeout_ms =
      Keeps-bind Keeps-lift (λ u. record { kept = λ s i. i })

  next_round :
      (card : Card) (rounds : ℕ) (command : List ℕ) (timeout_ms : ℕ) (context : ApduContext)
      (r : List ℕ)
      → ((next : List ℕ) → Keeps P (transmit_rounds card rounds next timeout_ms context))
      → (action : StatusAction)
      → Keeps P (elim action as (λ _. Kernel (List ℕ)) [
        | StatusAction.get_response n ↦ lift (encode (get_response n)) >>= λ next.
            transmit_rounds card rounds next timeout_ms context
        | StatusAction.retry_with_le n ↦ lift (retry_apdu_with_le command n) >>= λ next.
            transmit_rounds card rounds next timeout_ms context
        | _ ↦ pure r
      ])
  next_round card rounds command timeout_ms context r later (StatusAction.get_response n) =
      Keeps-bind Keeps-lift later
  next_round card rounds command timeout_ms context r later (StatusAction.retry_with_le n) =
      Keeps-bind Keeps-lift later
  next_round card rounds command timeout_ms context r later StatusAction.success = Keeps-pure
  next_round card rounds command timeout_ms context r later StatusAction.fallback_to_direct_aid =
      Keeps-pure
  next_round card rounds command timeout_ms context r later StatusAction.try_next_aid = Keeps-pure
  next_round card rounds command timeout_ms context r later StatusAction.end_of_records = Keeps-pure
  next_round card rounds command timeout_ms context r later
        StatusAction.continue_after_script_warning =
      Keeps-pure
  next_round card rounds command timeout_ms context r later
        StatusAction.continue_after_non_critical_script_failure =
      Keeps-pure
  next_round card rounds command timeout_ms context r later (StatusAction.continue_with_tvr bit) =
      Keeps-pure
  next_round card rounds command timeout_ms context r later (StatusAction.pin_failed n) = Keeps-pure
  next_round card rounds command timeout_ms context r later (StatusAction.fail e) = Keeps-pure

  pub Keeps-transmit_rounds :
      (card : Card) (rounds : ℕ) (command : List ℕ) (timeout_ms : ℕ) (context : ApduContext)
      → Keeps P (transmit_rounds card rounds command timeout_ms context)
  unfolding transmit_rounds
  Keeps-transmit_rounds card zero command timeout_ms context = Keeps-lift
  Keeps-transmit_rounds card (suc rounds) command timeout_ms context =
      Keeps-bind (Keeps-transmit_apdu card command timeout_ms) (λ response.
        Keeps-if (ltb (length response) 2) Keeps-lift (
          next_round card rounds command timeout_ms context response
            (λ next. Keeps-transmit_rounds card rounds next timeout_ms context)
            (classify context (status_of response))))

  pub Keeps-transmit_apdu_with_followups :
      (card : Card) (command : List ℕ) (timeout_ms : ℕ) (context : ApduContext)
      → Keeps P (transmit_apdu_with_followups card command timeout_ms context)
  unfolding transmit_apdu_with_followups
  Keeps-transmit_apdu_with_followups card = Keeps-transmit_rounds card 5

-- A script goes on with its next command, or ends.
pub next_command :
    {P : KrnContext → Type 0} (card : Card) (phase : ScriptPhase) (si : ℕ) (id : Option (List ℕ))
    (index : ℕ) (commands : List (List ℕ)) (rs : List ScriptCommandResult)
    (status : IssuerScriptStatus)
    → Keeps P (run_commands card phase si id (index + 1) commands rs)
    → Keeps P (elim status as (λ _. Kernel (List ScriptCommandResult × Bool)) [
      | IssuerScriptStatus.continue ↦ run_commands card phase si id (index + 1) commands rs
      | IssuerScriptStatus.critical_failure ↦ pure (rs, true)
    ])
next_command card phase si id index commands rs IssuerScriptStatus.continue k = k
next_command card phase si id index commands rs IssuerScriptStatus.critical_failure k =
    Keeps-pure {a = (rs, true)}
