-- ===== src/Fsm/Traces.antt =====
-- Sequences of events of the machine of src/fsm.rs.
use hyperion_x_emv.Base.{
  ◌≡◌, Bool, true, false, not, ◌||◌, arith, inl, inr, okay, err, any, List, [], ◌∷◌, Bool-cases,
  KernelResult-cases,
}
use hyperion_x_emv.Fsm.{FsmState, FsmEvent, TransactionFsm, target, apply}
use hyperion_x_emv.Fsm.Enumerate.{all_pairs, every_pair}
use hyperion_x_emv.Fsm.Edges.{state-apply}

-- The machine after a sequence of events; what is refused is passed over.
unfoldable pub run : TransactionFsm → List FsmEvent → TransactionFsm
run f [] = f
run f (v ∷ vs) = run (apply f v).0 vs

-- A gate: the states beyond it are entered from before it only by the events that open it.
abbrev pub guards : (FsmState → Bool) → (FsmEvent → Bool) → FsmState → FsmEvent → Bool
guards beyond opens s v = elim (target s v) [
  | okay (to, act, why) ↦ beyond s || not (beyond to) || opens v
  | err e ↦ true
]

gate_step :
    (beyond : FsmState → Bool) (opens : FsmEvent → Bool) (f : TransactionFsm) (v : FsmEvent)
    → all_pairs (guards beyond opens) ≡ true
    → beyond f.state ≡ false
    → beyond (apply f v).0.state ≡ true
    → opens v ≡ true
gate_step beyond opens f v table before after = elim (KernelResult-cases (target f.state v)) [
  | inl ((to, act, why), q) ↦
      ground (arith, q, state-apply f v, every_pair (guards beyond opens) table f.state v)
  | inr (x, q) ↦ absurd (ground (arith, q, state-apply f v))
]

-- A run that ends beyond a gate, from before it, holds an event that opens the gate.
pub gate :
    (beyond : FsmState → Bool) (opens : FsmEvent → Bool)
    → all_pairs (guards beyond opens) ≡ true
    → (vs : List FsmEvent) (f : TransactionFsm) → beyond f.state ≡ false
    → beyond (run f vs).state ≡ true
    → any opens vs ≡ true
unfolding run
gate beyond opens table [] f before after = cc
gate beyond opens table (v ∷ vs) f before after = elim (Bool-cases (beyond (apply f v).0.state)) [
  | inl past ↦ ground (arith, gate_step beyond opens f v table before past)
  | inr still ↦ ground (arith, gate beyond opens table vs (apply f v).0 still after)
]
