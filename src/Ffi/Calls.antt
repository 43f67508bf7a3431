-- ===== src/Ffi/Calls.antt =====
-- The entry points of src/ffi.rs for the online phases: the guards against reentrant calls and missing
-- callbacks, and the result that is returned and recorded. The pointers are valid.
use hyperion_x_emv.Base.{
  ℕ, ◌≡◌, refl, sym, ap, ◌∙◌, Bool, true, false, not, ◌||◌, List, Option, some, none, ltb, ◌==◌,
  if◌then◌else◌, is_empty, length, Bool-cases, inl, inr, arith, KernelError, KernelResult, okay,
  err,
}
use hyperion_x_emv.Fsm.{FsmState, code, s11, s12, s13, s14, s15}
use hyperion_x_emv.Issuer.{ScriptPhase, before_final_generate_ac, after_final_generate_ac}
use hyperion_x_emv.Ffi.{KrnContext, Card, Session, Kernel, ◌>>=◌, lift}
use hyperion_x_emv.Ffi.Errors.{error_code}
use hyperion_x_emv.Ffi.Scripts.{expected_state, run_issuer_scripts_for_phase}
use hyperion_x_emv.Ffi.Online.{
  apply_host_response, run_issuer_authentication, run_final_generate_ac,
}

abbrev pub max_host_response_len : ℕ
max_host_response_len = 1024

-- `KrnContext::set_result`
unfoldable pub set_result : {A : Type 0} → Session × KernelResult A → Session × ℕ
set_result (s, okay a) =
    (record s { ctx = record s.ctx { last_error = KernelError.ok } }, error_code KernelError.ok)
set_result (s, err e) = (record s { ctx = record s.ctx { last_error = e } }, error_code e)

-- `mark_reentrant_call`, and the call when there is none.
unfoldable pub unless_busy : (Session → Session × ℕ) → Session → Session × ℕ
unless_busy call s =
    if s.ctx.busy
    then (
      record s { ctx = record s.ctx { last_error = KernelError.busy } },
      error_code KernelError.busy,
    )
    else call s

abbrev pub set_busy : Bool → Session → Session
set_busy flag s = record s { ctx = record s.ctx { busy = flag } }

-- `ctx.busy = true; let result = operation; ctx.busy = false; ctx.set_result(result)`
abbrev pub busy_while : Kernel (Unit {0}) → Session → Session × KernelResult (Unit {0})
busy_while operation s =
    (set_busy false (operation (set_busy true s)).0, (operation (set_busy true s)).1)

-- The body of an entry point: without callbacks the operation is not started.
abbrev pub with_runtime : Kernel (Unit {0}) → Session → Session × ℕ
with_runtime operation s = if s.ctx.has_runtime then set_result (busy_while operation s) else (
  record s { ctx = record s.ctx { last_error = KernelError.invalid_argument } },
  error_code KernelError.invalid_argument,
)

unfoldable pub process : Kernel (Unit {0}) → Session → Session × ℕ
unfolding unless_busy set_result
process operation = unless_busy (with_runtime operation)

-- The bounds of the input in front of `apply_host_response`.
abbrev pub apply_bounded : List ℕ → Kernel (Unit {0})
apply_bounded bytes =
    if is_empty bytes || ltb max_host_response_len (length bytes)
    then lift (err KernelError.length_overflow)
    else apply_host_response bytes

unfoldable pub krn_apply_host_response : List ℕ → Session → Session × ℕ
unfolding unless_busy set_result
krn_apply_host_response bytes = unless_busy (λ s. set_result (apply_bounded bytes s))

-- The calls of the online phases.
pub data Call : Type 0 where
  apply_response : List ℕ → Call
  process_issuer_authentication process_issuer_scripts : Call
  process_final_generate_ac process_post_final_issuer_scripts : Call

unfoldable pub run_call : Card → Call → Session → Session × ℕ
unfolding process krn_apply_host_response
run_call card (apply_response bytes) = krn_apply_host_response bytes
run_call card process_issuer_authentication = process (run_issuer_authentication card)
run_call card process_issuer_scripts =
    process (run_issuer_scripts_for_phase card before_final_generate_ac)
run_call card process_final_generate_ac = process (run_final_generate_ac card)
run_call card process_post_final_issuer_scripts =
    process (run_issuer_scripts_for_phase card after_final_generate_ac)

-- The state that a call is for.
abbrev pub state_for : Call → FsmState
state_for (apply_response bytes) = s11
state_for process_issuer_authentication = s12
state_for process_issuer_scripts = s13
state_for process_final_generate_ac = s14
state_for process_post_final_issuer_scripts = s15

-- The machine stands elsewhere.
abbrev pub is_misplaced : Call → KrnContext → Bool
is_misplaced call ctx = not (code ctx.fsm_state == code (state_for call))

-- Why a call is refused: the kernel is busy, the response has a wrong size, the callbacks are not set, or
-- the call is out of order.
abbrev pub refusal : Call → KrnContext → Option KernelError
refusal (apply_response bytes) ctx =
    if ctx.busy
    then some KernelError.busy
    else if is_empty bytes || ltb 1024 (length bytes)
    then some KernelError.length_overflow
    else if is_misplaced (apply_response bytes) ctx
    then some KernelError.invalid_argument
    else none
refusal call ctx =
    if ctx.busy
    then some KernelError.busy
    else if not ctx.has_runtime || is_misplaced call ctx
    then some KernelError.invalid_argument
    else none

-- The session with the error recorded, and its code.
abbrev pub refused_with : KernelError → Session → Session × ℕ
refused_with e s = (record s { ctx = record s.ctx { last_error = e } }, error_code e)

module _ (s : Session) where
  apply_host_response_misplaced :
      (bytes : List ℕ)
      → (code s.ctx.fsm_state == code s11) ≡ false
      → apply_host_response bytes s ≡ (s, err KernelError.invalid_argument)
  unfolding apply_host_response ◌>>=◌
  apply_host_response_misplaced bytes h = rw h refl

  run_issuer_authentication_misplaced :
      (card : Card)
      → (code s.ctx.fsm_state == code s12) ≡ false
      → run_issuer_authentication card s ≡ (s, err KernelError.invalid_argument)
  unfolding run_issuer_authentication ◌>>=◌
  run_issuer_authentication_misplaced card h = rw h refl

  run_issuer_scripts_misplaced :
      (card : Card) (phase : ScriptPhase)
      → (code s.ctx.fsm_state == code (expected_state phase)) ≡ false
      → run_issuer_scripts_for_phase card phase s ≡ (s, err KernelError.invalid_argument)
  unfolding run_issuer_scripts_for_phase ◌>>=◌
  run_issuer_scripts_misplaced card phase h = rw h refl

  run_final_generate_ac_misplaced :
      (card : Card)
      → (code s.ctx.fsm_state == code s14) ≡ false
      → run_final_generate_ac card s ≡ (s, err KernelError.invalid_argument)
  unfolding run_final_generate_ac ◌>>=◌
  run_final_generate_ac_misplaced card h = rw h refl

-- The branch that a test takes.
taken : {A : Type 0} (b : Bool) (x y : A) → b ≡ true → (if b then x else y) ≡ x
taken b x y h = rw h refl

skipped : {A : Type 0} (b : Bool) (x y : A) → b ≡ false → (if b then x else y) ≡ y
skipped b x y h = rw h refl

module _ (call : Session → Session × ℕ) (s : Session) where
  unless_busy_refuses : s.ctx.busy ≡ true → unless_busy call s ≡ refused_with KernelError.busy s
  unfolding unless_busy
  unless_busy_refuses = taken s.ctx.busy (refused_with KernelError.busy s) (call s)

  unless_busy_passes : s.ctx.busy ≡ false → unless_busy call s ≡ call s
  unfolding unless_busy
  unless_busy_passes = skipped s.ctx.busy (refused_with KernelError.busy s) (call s)

-- An operation that is refused by its own guard.
process_refused :
    (operation : Kernel (Unit {0})) (s : Session) (misplaced : Bool) (e : KernelError)
    → (misplaced ≡ true
        → operation (set_busy true s) ≡ (set_busy true s, err KernelError.invalid_argument))
    → (if s.ctx.busy
        then some KernelError.busy
        else if not s.ctx.has_runtime || misplaced
        then some KernelError.invalid_argument
        else none)
      ≡ some e
    → process operation s ≡ refused_with e s
unfolding process unless_busy set_result
process_refused operation s misplaced e guard h = elim (Bool-cases s.ctx.busy) [
  | inl b ↦
      let same : KernelError.busy ≡ e = ground (arith, b, h) in
      unless_busy_refuses (with_runtime operation) s b ∙ ap (λ x. refused_with x s) same
  | inr b ↦
      let same : KernelError.invalid_argument ≡ e = ground (arith, b, h) in
      elim (Bool-cases s.ctx.has_runtime) [
        | inr r ↦
            unless_busy_passes (with_runtime operation) s b
            ∙ skipped s.ctx.has_runtime (set_result (busy_while operation s))
                (refused_with KernelError.invalid_argument s) r
            ∙ ap (λ x. refused_with x s) same
        | inl r ↦
            unless_busy_passes (with_runtime operation) s b
            ∙ taken s.ctx.has_runtime (set_result (busy_while operation s))
                (refused_with KernelError.invalid_argument s) r
            ∙ ap (λ r. set_result (set_busy false r.0, r.1)) (guard (ground (arith, b, r, h)))
            ∙ ap (λ x. refused_with KernelError.invalid_argument (set_busy x s)) (sym b)
            ∙ ap (λ x. refused_with x s) same
      ]
]

-- A call that is refused changes nothing but the error that it records, whose code it returns, and sends
-- nothing to the card: a call while the kernel is busy, a response that is empty or longer than 1024
-- bytes, a call without callbacks, and a call out of its order.
pub run_call_refused :
    (card : Card) (call : Call) (s : Session) (e : KernelError)
    → refusal call s.ctx ≡ some e
    → run_call card call s ≡ refused_with e s
unfolding run_call krn_apply_host_response unless_busy set_result
run_call_refused card (apply_response bytes) s e h = elim (Bool-cases s.ctx.busy) [
  | inl b ↦
      let same : KernelError.busy ≡ e = ground (arith, b, h) in
      unless_busy_refuses (λ s. set_result (apply_bounded bytes s)) s b
      ∙ ap (λ x. refused_with x s) same
  | inr b ↦
      unless_busy_passes (λ s. set_result (apply_bounded bytes s)) s b
      ∙ elim (Bool-cases (is_empty bytes || ltb max_host_response_len (length bytes))) [
        | inl w ↦
            let same : KernelError.length_overflow ≡ e = ground (arith, b, w, h) in
            ap (λ k. set_result (k s))
              (taken (is_empty bytes || ltb max_host_response_len (length bytes))
                (lift (err KernelError.length_overflow)) (apply_host_response bytes) w)
            ∙ ap (λ x. refused_with x s) same
        | inr w ↦
            let same : KernelError.invalid_argument ≡ e = ground (arith, b, w, h) in
            ap (λ k. set_result (k s))
              (skipped (is_empty bytes || ltb max_host_response_len (length bytes))
                (lift (err KernelError.length_overflow)) (apply_host_response bytes) w)
            ∙ ap set_result (apply_host_response_misplaced s bytes (ground (arith, b, w, h)))
            ∙ ap (λ x. refused_with x s) same
      ]
]
run_call_refused card process_issuer_authentication s e h =
    process_refused (run_issuer_authentication card) s _ e
      (λ m. run_issuer_authentication_misplaced (set_busy true s) card (ground (arith, m))) h
run_call_refused card process_issuer_scripts s e h =
    process_refused (run_issuer_scripts_for_phase card before_final_generate_ac) s _ e
      (λ m.
        run_issuer_scripts_misplaced (set_busy true s) card before_final_generate_ac
          (ground (arith, m)))
      h
run_call_refused card process_final_generate_ac s e h =
    process_refused (run_final_generate_ac card) s _ e
      (λ m. run_final_generate_ac_misplaced (set_busy true s) card (ground (arith, m))) h
run_call_refused card process_post_final_issuer_scripts s e h =
    process_refused (run_issuer_scripts_for_phase card after_final_generate_ac) s _ e
      (λ m.
        run_issuer_scripts_misplaced (set_busy true s) card after_final_generate_ac
          (ground (arith, m)))
      h
