-- ===== src/Ffi/Records.antt =====
-- `read_application_records` of src/ffi.rs: the records of the plan, read and put into the card data.
use hyperion_x_emv.Base.{
  ℕ, Bool, true, false, List, [], ◌∷◌, ◌++◌, if◌then◌else◌, is_empty, KernelError, KernelResult,
  okay, err,
}
use hyperion_x_emv.State.{offline_data_authentication, read_records}
use hyperion_x_emv.State.Bitmap.{Bit}
use hyperion_x_emv.State.Tvr
use hyperion_x_emv.Sw.{ApduContext, StatusAction, classify}
use hyperion_x_emv.Fsm.{FsmEvent}
use hyperion_x_emv.Afl.{AflEntry, RecordLocator, record_plan}
use hyperion_x_emv.Apdu.{read_record, encode}
use hyperion_x_emv.Record.{parse_read_record_body}
use hyperion_x_emv.Ffi.{KrnContext, Card, Kernel, ◌>>=◌, ◌>>◌, lift, asks, modify, apply_transition}
use hyperion_x_emv.Ffi.Transport.{
  apdu_timeout, transmit_apdu_with_followups, response_body_and_status,
}

pub data ReadRecordStatus : Type 0 where
  success end_of_records : ReadRecordStatus
  continue_with_tvr : Bit → ReadRecordStatus

unfoldable pub read_record_status : StatusAction → KernelResult ReadRecordStatus
read_record_status StatusAction.success = okay ReadRecordStatus.success
read_record_status StatusAction.end_of_records = okay ReadRecordStatus.end_of_records
read_record_status (StatusAction.continue_with_tvr bit) =
    okay (ReadRecordStatus.continue_with_tvr bit)
read_record_status (StatusAction.fail e) = err e
read_record_status _ = err KernelError.internal_error

abbrev pub end_reading : KrnContext → KrnContext
end_reading ctx = record ctx { state = offline_data_authentication }

abbrev pub set_tvr : Bit → KrnContext → KrnContext
set_tvr bit ctx = record ctx { tvr = Tvr.set ctx.tvr bit }

-- The record's data; what was put before a failure stays.
unfoldable pub read_into_card : List ℕ → Kernel ℕ
read_into_card body s =
    let (store, result) = parse_read_record_body body s.ctx.card_data in
    (record s { ctx = record s.ctx { card_data = store } }, result)

-- `ctx.offline_auth_records.push(..)`
abbrev pub keep_for_authentication : RecordLocator → List ℕ → KrnContext → KrnContext
keep_for_authentication locator body ctx =
    if locator.contributes_to_offline_auth
    then record ctx {
      offline_auth_records =
          ctx.offline_auth_records
          ++ (record { sfi = locator.sfi; number = locator.number; body = body } ∷ []);
    }
    else ctx

-- The end of a record that was read: the last one, or with more to come.
unfoldable pub after_record : Kernel (Unit {0}) → Bool → Kernel (Unit {0})
after_record later true = apply_transition FsmEvent.afl_complete >> modify end_reading
after_record later false = apply_transition FsmEvent.more_afl_entries >> later

-- The arms of the `match` on the status of a record.
unfoldable pub take_record :
    Kernel (Unit {0}) → RecordLocator → Bool → List ℕ → ReadRecordStatus → Kernel (Unit {0})
unfolding read_into_card after_record
take_record later locator last body ReadRecordStatus.success = do
  count ← read_into_card body
  modify (keep_for_authentication locator body)
  apply_transition FsmEvent.record_read
  after_record later last
take_record later locator last body ReadRecordStatus.end_of_records = do
  modify (λ ctx.
      if locator.contributes_to_offline_auth then set_tvr Tvr.b1_icc_data_missing ctx else ctx)
  apply_transition FsmEvent.end_of_records
  modify end_reading
take_record later locator last body (ReadRecordStatus.continue_with_tvr bit) = do
  modify (set_tvr bit)
  apply_transition FsmEvent.record_read_failed
  modify end_reading

-- The loop over the plan.
unfoldable pub read_planned : Card → List RecordLocator → Kernel (Unit {0})
unfolding take_record read_record_status
read_planned card [] = modify end_reading
read_planned card (locator ∷ plan) = do
  modify (λ ctx. record ctx { state = read_records })
  apdu ← lift (read_record locator.number locator.sfi)
  command ← lift (encode apdu)
  timeout_ms ← asks apdu_timeout
  response ← transmit_apdu_with_followups card command timeout_ms ApduContext.read_record
  (body, sw) ← lift (response_body_and_status response)
  status ← lift (read_record_status (classify ApduContext.read_record sw))
  take_record (read_planned card plan) locator (is_empty plan) body status

unfoldable pub read_application_records : Card → List AflEntry → Kernel (Unit {0})
unfolding read_planned
read_application_records card afl = do
  plan ← lift (record_plan afl)
  if is_empty plan
      then apply_transition FsmEvent.end_of_records >> modify end_reading
      else read_planned card plan
