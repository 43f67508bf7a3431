-- ===== src/Ffi/Flow.antt =====
-- The phases of src/ffi.rs as moves of the state machine of src/fsm.rs.
use hyperion_x_emv.Base.{
  ℕ, ◌≡◌, refl, ◌∙◌, ap, Bool, true, false, List, [], ◌∷◌, if◌then◌else◌, is_empty, Bool-cases, inl,
  inr, okay,
}
use mathlib.Core.Path.{subst}
use hyperion_x_emv.State.{KernelState, read_records, offline_data_authentication}
use hyperion_x_emv.State.Tvr
use hyperion_x_emv.Sw.{ApduContext}
use hyperion_x_emv.Fsm.{FsmEvent, target, s4, s4_next, s5}
use hyperion_x_emv.Afl.{AflEntry, RecordLocator}
use hyperion_x_emv.Ffi.{Card, Session, Kernel, ◌>>◌, modify, apply_transition}
use hyperion_x_emv.Ffi.Transport.{apdu_timeout}
use hyperion_x_emv.Ffi.Records.{
  ReadRecordStatus, end_reading, set_tvr, read_into_card, keep_for_authentication, after_record,
  take_record, read_planned, read_application_records,
}
use hyperion_x_emv.Ffi.Keeps.{Keeps-lift, Keeps-asks, Keeps-transmit_apdu_with_followups}
use hyperion_x_emv.Ffi.Control.{
  Control, control_of, After, Quiet, Quiet-modify, Ends, Ends-quiet, with_fsm, transition-then,
  modify-then,
}

abbrev pub at_stage : KernelState → Control → Control
at_stage stage k = record k { stage = stage }

-- After the records: the machine at S5, ready for offline data authentication.
abbrev pub IsRead : Control → Unit {0} → Control → Type 0
IsRead k u k' = (k'.fsm ≡ s5) × (k'.stage ≡ offline_data_authentication) × (k'.outcome ≡ k.outcome)

module _ (o : Control) where
  finish_reading :
      (k : Control) → k.fsm ≡ s5 → k.outcome ≡ o.outcome → Ends k (modify end_reading) (IsRead o)
  finish_reading k at_s5 same = record {
    ends = λ s i.
        (ap (λ (c : Control). c.fsm) i ∙ at_s5, refl, ap (λ (c : Control). c.outcome) i ∙ same);
  }

  -- A record that is taken, with the rest of the plan to follow from S4.
  taken :
      (k : Control) (later : Kernel (Unit {0})) (locator : RecordLocator) (last : Bool)
      (body : List ℕ)
      → k.fsm ≡ s4
      → k.outcome ≡ o.outcome
      → (last ≡ false → Ends (with_fsm s4 k) later (IsRead o))
      → (status : ReadRecordStatus) → Ends k (take_record later locator last body status) (IsRead o)
  unfolding take_record after_record target
  taken k later locator last body at_s4 same next ReadRecordStatus.success =
      Ends-quiet (λ k. record { kept = λ s i. unfold read_into_card in i })
        (λ count. Ends-quiet kept_quiet (λ u.
          transition-then FsmEvent.record_read (ap (λ t. target t FsmEvent.record_read) at_s4)
            (go last next)))
    where
      kept_quiet : Quiet (modify (keep_for_authentication locator body))
      kept_quiet = Quiet-modify (keep_for_authentication locator body) (λ c.
          elim (Bool-cases locator.contributes_to_offline_auth) [
            | inl e ↦ rw e refl
            | inr e ↦ rw e refl
          ])

      go :
          (last : Bool)
          → (last ≡ false → Ends (with_fsm s4 k) later (IsRead o))
          → Ends (with_fsm s4_next k) (after_record later last) (IsRead o)
      go true n =
          transition-then FsmEvent.afl_complete refl (finish_reading (with_fsm s5 k) refl same)
      go false n = transition-then FsmEvent.more_afl_entries refl (n refl)
  taken k later locator last body at_s4 same next ReadRecordStatus.end_of_records =
      Ends-quiet missing_quiet (λ u.
        transition-then FsmEvent.end_of_records (ap (λ t. target t FsmEvent.end_of_records) at_s4)
          (finish_reading (with_fsm s5 k) refl same))
    where
      missing_quiet : Quiet (
          modify (λ ctx.
            if locator.contributes_to_offline_auth
            then set_tvr Tvr.b1_icc_data_missing ctx
            else ctx))
      missing_quiet = Quiet-modify _ (λ c. elim (Bool-cases locator.contributes_to_offline_auth) [
        | inl e ↦ rw e refl
        | inr e ↦ rw e refl
      ])
  taken k later locator last body at_s4 same next (ReadRecordStatus.continue_with_tvr bit) =
      Ends-quiet (Quiet-modify (set_tvr bit) (λ c. refl)) (λ u.
        transition-then FsmEvent.record_read_failed
          (ap (λ t. target t FsmEvent.record_read_failed) at_s4)
          (finish_reading (with_fsm s5 k) refl same))

  round :
      (k : Control) (card : Card) (locator : RecordLocator) (plan : List RecordLocator)
      → k.fsm ≡ s4
      → k.outcome ≡ o.outcome
      → (is_empty plan ≡ false
          → Ends (with_fsm s4 (at_stage read_records k)) (read_planned card plan) (IsRead o))
      → Ends k (read_planned card (locator ∷ plan)) (IsRead o)
  unfolding read_planned
  round k card locator plan at_s4 same next =
      modify-then (λ ctx. record ctx { state = read_records }) (at_stage read_records) (λ c. refl)
        (Ends-quiet (λ k. Keeps-lift)
          (λ apdu.
            Ends-quiet (λ k. Keeps-lift)
              (λ command.
                Ends-quiet (λ k. Keeps-asks apdu_timeout)
                  (λ timeout_ms.
                    Ends-quiet
                      (λ k.
                        Keeps-transmit_apdu_with_followups card command timeout_ms
                          ApduContext.read_record)
                      (λ response.
                        Ends-quiet (λ k. Keeps-lift)
                          (λ (body, sw).
                            Ends-quiet (λ k. Keeps-lift)
                              (λ status.
                                taken (at_stage read_records k) (read_planned card plan) locator
                                  (is_empty plan) body at_s4 same next status)))))))

  planned :
      (k : Control) (card : Card) (locator : RecordLocator) (plan : List RecordLocator)
      → k.fsm ≡ s4
      → k.outcome ≡ o.outcome
      → Ends k (read_planned card (locator ∷ plan)) (IsRead o)
  planned k card locator [] at_s4 same =
      round k card locator [] at_s4 same (λ e. absurd (true_not_false e))
    where
      true_not_false : ◌≡◌ {A = Bool} true false → ⊥
      true_not_false e = cc
  planned k card locator (next ∷ plan) at_s4 same =
      let later = planned (with_fsm s4 (at_stage read_records k)) card next plan refl same in
      round k card locator (next ∷ plan) at_s4 same (λ e. later)

-- Reading the records, from S4, when it returns well, ends at S5 with offline data authentication as the next
-- stage and the outcome as it was, whether all records are read, the card has no more of them, or one cannot
-- be read.
pub read_application_records_ends :
    (card : Card) (afl : List AflEntry) (s s' : Session)
    → s.ctx.fsm_state ≡ s4
    → read_application_records card afl s ≡ (s', okay tt)
    → (s'.ctx.fsm_state ≡ s5)
      × (s'.ctx.state ≡ offline_data_authentication)
      × (s'.ctx.final_outcome ≡ s.ctx.final_outcome)
unfolding read_application_records target
read_application_records_ends card afl s s' at_s4 run =
    subst (After (IsRead (control_of s.ctx))) (run) (whole.ends s refl)
  where
    by_plan :
        (plan : List RecordLocator)
        → Ends
            (control_of s.ctx)
            (if is_empty plan
              then apply_transition FsmEvent.end_of_records >> modify end_reading
              else read_planned card plan)
            (IsRead (control_of s.ctx))
    by_plan [] =
        transition-then FsmEvent.end_of_records (ap (λ t. target t FsmEvent.end_of_records) at_s4)
          (finish_reading (control_of s.ctx) (with_fsm s5 (control_of s.ctx)) refl refl)
    by_plan (locator ∷ plan) =
        planned (control_of s.ctx) (control_of s.ctx) card locator plan at_s4 refl

    whole : Ends (control_of s.ctx) (read_application_records card afl) (IsRead (control_of s.ctx))
    whole = Ends-quiet (λ k. Keeps-lift) by_plan
