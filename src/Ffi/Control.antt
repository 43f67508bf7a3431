-- ===== src/Ffi/Control.antt =====
-- Where the operations of src/ffi.rs leave the state machine and the outcome.
use hyperion_x_emv.Base.{
  ℕ, ◌≡◌, refl, ◌∙◌, sym, ap, Bool, true, false, List, Option, if◌then◌else◌, inl, inr, KernelError,
  KernelResult, okay, err, KernelResult-cases,
}
use mathlib.Core.Path.{subst}
use hyperion_x_emv.State.{KernelState}
use hyperion_x_emv.Fsm.{FsmState, FsmEvent, FsmAction, target, transition}
use hyperion_x_emv.Dol.Store.{put}
use hyperion_x_emv.Issuer.{HostResponse}
use hyperion_x_emv.Ffi.{
  KrnOutcome, KrnContext, Session, Kernel, continue_with, ◌>>=◌, ◌>>◌, pure, lift, asks, modify,
  apply_transition, put_card,
}
use hyperion_x_emv.Ffi.Keeps.{Keeps}

-- The part of the context that controls the transaction.
pub record Control : Type 0 where
  pub fsm : FsmState
  pub stage : KernelState
  pub outcome : Option KrnOutcome
  pub host : Option HostResponse

abbrev pub control_of : KrnContext → Control
control_of c = record {
  fsm = c.fsm_state;
  stage = c.state;
  outcome = c.final_outcome;
  host = c.host_response;
}

-- Any control value is kept.
abbrev pub Quiet : {A : Type 0} → Kernel A → Type 0
Quiet m = (k : Control) → Keeps (λ c. control_of c ≡ k) m

pub Quiet-modify :
    (f : KrnContext → KrnContext)
    → ((c : KrnContext) → control_of (f c) ≡ control_of c)
    → Quiet (modify f)
Quiet-modify f same k = record { kept = λ s i. same s.ctx ∙ i }

pub Quiet-put_card : (tag value : List ℕ) → Quiet (put_card tag value)
unfolding put_card
Quiet-put_card tag value k = record { kept = kept }
  where
    kept : (s : Session) → control_of s.ctx ≡ k → control_of (put_card tag value s).0.ctx ≡ k
    kept s i = elim (KernelResult-cases (put s.ctx.card_data tag value)) [
      | inl (store, e) ↦ rw (put_card, e) i
      | inr (x, e) ↦ rw (put_card, e) i
    ]

-- What holds of the control, and of the result, when the operation ends well.
abbrev pub After : {A : Type 0} → (A → Control → Type 0) → Session × KernelResult A → Type 0
After Q (s, okay a) = Q a (control_of s.ctx)
After Q (s, err e) = Unit {0}

-- From the control `k`, where the operation ends well, `Q` holds.
pub record Ends {A : Type 0} (k : Control) (m : Kernel A) (Q : A → Control → Type 0) : Type 0 where
  pub ends : (s : Session) → control_of s.ctx ≡ k → After Q (m s)

module _ {A B : Type 0} {k : Control} {Q : B → Control → Type 0} where
  pub Ends-bind :
      {m : Kernel A} {f : A → Kernel B} (R : A → Control → Type 0)
      → Ends k m R
      → ((a : A) (k' : Control) → R a k' → Ends k' (f a) Q)
      → Ends k (m >>= f) Q
  unfolding ◌>>=◌
  Ends-bind {m} {f} R p q = record { ends = λ s i. go (m s) (p.ends s i) }
    where
      go : (r : Session × KernelResult A) → After R r → After Q (continue_with r f)
      go (s, okay a) h = (q a (control_of s.ctx) h).ends s refl
      go (s, err e) h = tt

  -- A quiet operation in front.
  pub Ends-quiet :
      {m : Kernel A} {f : A → Kernel B} → Quiet m → ((a : A) → Ends k (f a) Q) → Ends k (m >>= f) Q
  unfolding ◌>>=◌
  Ends-quiet {m} {f} p q = record { ends = λ s i. go (m s) ((p k).kept s i) }
    where
      go : (r : Session × KernelResult A) → control_of r.0.ctx ≡ k → After Q (continue_with r f)
      go (s, okay a) h = (q a).ends s h
      go (s, err e) h = tt

  -- A field of the control that is read.
  pub Ends-asks :
      (f : KrnContext → A) (g : Control → A) {n : A → Kernel B}
      → ((c : KrnContext) → f c ≡ g (control_of c))
      → ((a : A) → a ≡ g k → Ends k (n a) Q)
      → Ends k (asks f >>= n) Q
  unfolding ◌>>=◌
  Ends-asks f g {n} same p = record { ends = λ s i. (p (f s.ctx) (same s.ctx ∙ ap g i)).ends s i }

  -- A result, with the equation that it ended well.
  pub Ends-lift :
      (r : KernelResult A) {f : A → Kernel B}
      → ((a : A) → r ≡ okay a → Ends k (f a) Q)
      → Ends k (lift r >>= f) Q
  unfolding ◌>>=◌
  Ends-lift (okay a) q = record { ends = λ s i. (q a refl).ends s i }
  Ends-lift (err e) q = record { ends = λ s i. tt }

module _ {A : Type 0} {k : Control} {Q : A → Control → Type 0} where
  pub Ends-pure : {a : A} → Q a k → Ends k (pure a) Q
  Ends-pure {a} q = record { ends = λ s i. subst (Q a) (sym i) q }

  pub Ends-err : {e : KernelError} → Ends k (lift (err e)) Q
  Ends-err = record { ends = λ s i. tt }

  pub Ends-if :
      {m n : Kernel A} (b : Bool) → Ends k m Q → Ends k n Q → Ends k (if b then m else n) Q
  Ends-if true p q = p
  Ends-if false p q = q

abbrev pub with_fsm : FsmState → Control → Control
with_fsm to k = record k { fsm = to }

module _ {k : Control} where
  -- The transition of the machine, from the state that it is in.
  pub Ends-apply_transition :
      (event : FsmEvent) {to : FsmState} {action : FsmAction} {e : KernelError}
      → target k.fsm event ≡ okay (to, action, e)
      → Ends k (apply_transition event) (λ _ k'. k' ≡ with_fsm to k)
  unfolding apply_transition transition
  Ends-apply_transition event {to} {action} {e} h = record { ends = go }
    where
      go :
          (s : Session)
          → control_of s.ctx ≡ k
          → After (λ _ k'. k' ≡ with_fsm to k) (apply_transition event s)
      go s i =
          let known : target s.ctx.fsm_state event ≡ okay (to, action, e) =
            ap (λ (c : Control). target c.fsm event) i ∙ h in
          let run : apply_transition event s
              ≡ (record s { ctx = record s.ctx { fsm_state = to } }, okay tt) =
            rw (apply_transition, transition, known) refl in
          subst (After (λ _ k'. k' ≡ with_fsm to k)) (sym run) (ap (with_fsm to) i)

  pub Ends-modify :
      (f : KrnContext → KrnContext) (g : Control → Control)
      → ((c : KrnContext) → control_of (f c) ≡ g (control_of c))
      → Ends k (modify f) (λ _ k'. k' ≡ g k)
  Ends-modify f g same = record { ends = λ s i. same s.ctx ∙ ap g i }

module _ {B : Type 0} {k : Control} {Q : B → Control → Type 0} where
  pub transition-then :
      (event : FsmEvent) {to : FsmState} {action : FsmAction} {e : KernelError} {n : Kernel B}
      → target k.fsm event ≡ okay (to, action, e)
      → Ends (with_fsm to k) n Q
      → Ends k (apply_transition event >> n) Q
  transition-then event {to} {n = n} h p =
      Ends-bind (λ _ k'. k' ≡ with_fsm to k) (Ends-apply_transition event h)
        (λ u k' e. subst (λ x. Ends x n Q) (sym e) p)

  pub modify-then :
      (f : KrnContext → KrnContext) (g : Control → Control) {n : Kernel B}
      → ((c : KrnContext) → control_of (f c) ≡ g (control_of c))
      → Ends (g k) n Q
      → Ends k (modify f >> n) Q
  modify-then f g {n} same p =
      Ends-bind (λ _ k'. k' ≡ g k) (Ends-modify f g same)
        (λ u k' e. subst (λ x. Ends x n Q) (sym e) p)
