-- ===== src/Ffi/Verdict.antt =====
-- Who decides in the final GENERATE AC of src/ffi.rs: the card by its cryptogram, or the host by its code.
use hyperion_x_emv.Base.{
  ℕ, ◌≡◌, ◌⊎◌, refl, arith, List, [], ◌∷◌, Option, some, none, if◌then◌else◌, ◌=s=◌, ◌==◌, ◌≢◌,
  KernelResult-cases, inl, inr, KernelError, KernelResult, okay, err,
}
use mathlib.Core.Path.{subst}
use hyperion_x_emv.Fsm.{FsmEvent, transition, code, s14}
use hyperion_x_emv.Dol.Store.{get}
use hyperion_x_emv.Gac.{CryptogramType, cryptogram_type, GenerateAcResponse}
use hyperion_x_emv.Issuer.{HostResponse}
use hyperion_x_emv.Ffi.{
  KrnOutcome, Card, Session, Kernel, continue_with, ◌>>=◌, ◌>>◌, lift, modify, ignore,
  apply_transition,
}
use hyperion_x_emv.Ffi.Online.{
  conclude, final_generate_ac, skip_final_generate_ac, run_final_generate_ac, with_outcome,
  after_final, host_arc_of, final_outcome_for_host_arc,
}

-- What holds of the session where the operation returns.
abbrev OnReturn : {A : Type 0} → (Session → Type 0) → Session × KernelResult A → Type 0
OnReturn Q (s, okay a) = Q s
OnReturn Q (s, err e) = Unit {0}

record Leaves {A : Type 0} (Q : Session → Type 0) (m : Kernel A) : Type 0 where
  leaves : (s : Session) → OnReturn Q (m s)

weaken :
    {A : Type 0} {P Q : Session → Type 0} (r : Session × KernelResult A)
    → ((s : Session) → P s → Q s)
    → OnReturn P r
    → OnReturn Q r
weaken (s, okay a) f i = f s i
weaken (s, err e) f i = tt

module _ {A B : Type 0} {Q : Session → Type 0} where
  Leaves-then :
      {m : Kernel A} (f : A → Kernel B) (R : Session → Type 0)
      → Leaves R m
      → ((a : A) (s : Session) → R s → OnReturn Q (f a s))
      → Leaves Q (m >>= f)
  unfolding ◌>>=◌
  Leaves-then {m} f R p q = record { leaves = λ s. go (m s) (p.leaves s) }
    where
      go : (r : Session × KernelResult A) → OnReturn R r → OnReturn Q (continue_with r f)
      go (s, okay a) i = q a s i
      go (s, err e) i = tt

  -- Only the end counts.
  Leaves-bind : (m : Kernel A) {f : A → Kernel B} → ((a : A) → Leaves Q (f a)) → Leaves Q (m >>= f)
  Leaves-bind m {f} q =
      Leaves-then f (λ s. Unit {0}) (record { leaves = λ s. nothing (m s) })
        (λ a s i. (q a).leaves s)
    where
      nothing : (r : Session × KernelResult A) → OnReturn (λ s. Unit {0}) r
      nothing (s, okay a) = tt
      nothing (s, err e) = tt

-- A transition leaves the outcome as it is.
keeps_outcome :
    (event : FsmEvent) (s : Session) (o : Option KrnOutcome)
    → s.ctx.final_outcome ≡ o
    → OnReturn (λ s'. (s'.ctx.final_outcome ≡ o) × (s'.sent ≡ s.sent)) (apply_transition event s)
unfolding apply_transition
keeps_outcome event s o h = elim (KernelResult-cases (transition s.ctx.fsm_state event)) [
  | inl (t, e) ↦ rw (apply_transition, e) (h, refl)
  | inr (x, e) ↦ rw (apply_transition, e) tt
]

-- What a cryptogram of the card means: TC approves, AAC declines, and no other type ends a transaction.
abbrev pub IsVerdict : CryptogramType → Option KrnOutcome → Type 0
IsVerdict CryptogramType.tc outcome = outcome ≡ some KrnOutcome.approved_online
IsVerdict CryptogramType.aac outcome = outcome ≡ some KrnOutcome.declined_online
IsVerdict _ outcome = ⊥

-- The card has decided: its answer is kept, and the outcome is the one of its cryptogram.
pub record IsByCard (s' : Session) : Type 0 where
  pub answer : GenerateAcResponse
  pub kept : s'.ctx.final_gac_response ≡ some answer
  pub verdict : IsVerdict (cryptogram_type answer.cid) s'.ctx.final_outcome

-- The host has decided: its code 00 approves, any other declines, and nothing is sent to the card.
pub record IsByHost (s s' : Session) : Type 0 where
  pub response : HostResponse
  pub given : s.ctx.host_response ≡ some response
  pub verdict :
      s'.ctx.final_outcome
      ≡ some (
          if response.authorization_response_code =s= (b'0' ∷ b'0' ∷ [])
          then KrnOutcome.approved_online
          else KrnOutcome.declined_online)
  pub silent : s'.sent ≡ s.sent

-- Any other type of cryptogram is refused.
refused :
    {Q : Session → Type 0}
    → Leaves {A = Unit {0}} Q
        (ignore (apply_transition FsmEvent.gac2_failed) >> lift (err KernelError.invalid_argument))
refused = Leaves-bind _ (λ u. record { leaves = λ s. tt })

recorded :
    (event : FsmEvent) (o : KrnOutcome) (s : Session)
    → OnReturn
        (λ s'. s'.ctx.final_outcome ≡ some o)
        (apply_transition event (record s { ctx = with_outcome o s.ctx }))
recorded event o s =
    weaken {P = λ s'. (s'.ctx.final_outcome ≡ some o) × (s'.sent ≡ s.sent)}
      (apply_transition event (record s { ctx = with_outcome o s.ctx })) (λ s' h. h.0)
      (keeps_outcome event (record s { ctx = with_outcome o s.ctx }) (some o) refl)

concluded_by :
    (type : CryptogramType) → Leaves (λ s. IsVerdict type s.ctx.final_outcome) (conclude type)
unfolding conclude ◌>>=◌
concluded_by CryptogramType.tc = record {
  leaves = recorded FsmEvent.gac2_tc KrnOutcome.approved_online;
}
concluded_by CryptogramType.aac = record {
  leaves = recorded FsmEvent.gac2_aac KrnOutcome.declined_online;
}
concluded_by CryptogramType.arqc = refused
concluded_by CryptogramType.application_authentication_referral = refused

by_card :
    (card : Card) (host_arc cdol2 : List ℕ)
    → Leaves IsByCard (final_generate_ac card host_arc cdol2)
unfolding final_generate_ac
by_card card host_arc cdol2 = Leaves-bind _ (λ u. Leaves-bind _ (λ cdol. Leaves-bind _ (λ store.
    Leaves-bind _ (λ values. Leaves-bind _ (λ apdu. Leaves-bind _ (λ command.
      Leaves-bind _ (λ timeout_ms. Leaves-bind _ (λ response. Leaves-bind _ (λ (body, sw).
        Leaves-bind _ (λ u1. Leaves-bind _ (λ parsed. Leaves-bind _ (λ u2.
          Leaves-then _ (λ s. IsVerdict (cryptogram_type parsed.cid) s.ctx.final_outcome)
            (concluded_by (cryptogram_type parsed.cid))
            (λ u3 s i. record { answer = parsed; kept = refl; verdict = i })))))))))))))

by_host :
    (s : Session) (response : HostResponse)
    → s.ctx.host_response ≡ some response
    → OnReturn (IsByHost s) (skip_final_generate_ac response.authorization_response_code s)
unfolding skip_final_generate_ac ◌>>=◌ final_outcome_for_host_arc
by_host s response given =
    go (apply_transition FsmEvent.final_generate_ac_skipped s)
      (keeps_outcome FsmEvent.final_generate_ac_skipped s _ refl)
  where
    go :
        (r : Session × KernelResult (Unit {0}))
        → OnReturn (λ s'. (s'.ctx.final_outcome ≡ s.ctx.final_outcome) × (s'.sent ≡ s.sent)) r
        → OnReturn (IsByHost s) (
            continue_with r (λ u. modify (λ ctx. after_final (
              with_outcome (final_outcome_for_host_arc response.authorization_response_code) ctx))))
    go (s', okay u) (o, silent) = record {
      response = response;
      given = given;
      verdict = refl;
      silent = silent;
    }
    go (s', err e) i = tt

-- A final GENERATE AC phase that returns well has the outcome of the one who decides. With a CDOL2 in the
-- card data it is the card: its answer is kept, and its TC approves online, its AAC declines online.
-- Without a CDOL2 it is the host: the response code 00 approves online, any other declines online, and no
-- command is sent.
pub run_final_generate_ac_lem :
    (card : Card) (s s' : Session)
    → run_final_generate_ac card s ≡ (s', okay tt)
    → ((get s.ctx.card_data (0x8d ∷ []) ≢ none) × IsByCard s')
      ⊎ ((get s.ctx.card_data (0x8d ∷ []) ≡ none) × IsByHost s s')
unfolding run_final_generate_ac ◌>>=◌
run_final_generate_ac_lem card s s' h = subst (OnReturn Decided) h (
    guarded
      (if code s.ctx.fsm_state == code s14 then okay tt else err KernelError.invalid_argument))
  where
    Decided : Session → Type 0
    Decided s1 =
        ((get s.ctx.card_data (0x8d ∷ []) ≢ none) × IsByCard s1)
        ⊎ ((get s.ctx.card_data (0x8d ∷ []) ≡ none) × IsByHost s s1)

    finish : List ℕ → Option (List ℕ) → Kernel (Unit {0})
    finish host_arc cdol2 = elim cdol2 as (λ _. Kernel (Unit {0})) [
      | none ↦ skip_final_generate_ac host_arc
      | some value ↦ final_generate_ac card host_arc value
    ]

    with_cdol2 :
        (response : HostResponse) (cdol2 : Option (List ℕ))
        → s.ctx.host_response ≡ some response
        → get s.ctx.card_data (0x8d ∷ []) ≡ cdol2
        → OnReturn Decided (finish response.authorization_response_code cdol2 s)
    with_cdol2 response none g c =
        weaken {P = IsByHost s} {Q = Decided}
          (skip_final_generate_ac response.authorization_response_code s) (λ s1 i. inr (c, i))
          (by_host s response g)
    with_cdol2 response (some value) g c =
        weaken {P = IsByCard} {Q = Decided}
          (final_generate_ac card response.authorization_response_code value s)
          (λ s1 i. inl ((λ n. ground (arith, c, n)), i))
          ((by_card card response.authorization_response_code value).leaves s)

    with_response :
        (response : Option HostResponse)
        → s.ctx.host_response ≡ response
        → OnReturn Decided (
            continue_with
              (s, host_arc_of response)
              (λ host_arc s1. finish host_arc (get s1.ctx.card_data (0x8d ∷ [])) s1))
    with_response none g = tt
    with_response (some response) g = with_cdol2 response (get s.ctx.card_data (0x8d ∷ [])) g refl

    guarded :
        (guard : KernelResult (Unit {0}))
        → OnReturn Decided (
            continue_with
              (s, guard)
              (λ u s1.
                continue_with
                  (s1, host_arc_of s1.ctx.host_response)
                  (λ host_arc s2. finish host_arc (get s2.ctx.card_data (0x8d ∷ [])) s2)))
    guarded (err e) = tt
    guarded (okay u) = with_response s.ctx.host_response refl
