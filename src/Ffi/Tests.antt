-- ===== src/Ffi/Tests.antt =====
-- Runs of src/ffi.rs, and its theorems at concrete inputs.
use hyperion_x_emv.Base.{ℕ, ◌≡◌, ◌≢◌, ◌⊎◌, ◌↔◌, refl, List, [], ◌∷◌, some, KernelError, okay, ◌=s=◌}
use hyperion_x_emv.State.{KernelState, offline_data_authentication}
use hyperion_x_emv.Fsm.{FsmState, transition, code, s4, s5, s9, s11, s14, s16}
use hyperion_x_emv.Afl.{record_plan}
use hyperion_x_emv.Dol.Store.{DataStore, put}
use hyperion_x_emv.Dol.Store as Store
use hyperion_x_emv.Tlv.{parse_many, read_tag, read_length, find_unique_direct}
use hyperion_x_emv.Issuer.{parse_host_response, phase_of}
use hyperion_x_emv.Ffi.{KrnOutcome, new_context, Card, Session, ◌>>=◌, apply_transition, put_card}
use hyperion_x_emv.Ffi.Errors.{error_code, from_code, from_code-error_code}
use hyperion_x_emv.Ffi.Records.{read_application_records}
use hyperion_x_emv.Ffi.Scripts.{run_issuer_scripts_for_phase}
use hyperion_x_emv.Ffi.Online.{apply_host_response, run_final_generate_ac}
use hyperion_x_emv.Ffi.Verdict.{IsByCard, IsByHost, run_final_generate_ac_lem}
use hyperion_x_emv.Ffi.Calls.{process_final_generate_ac, refused_with, run_call, run_call_refused}
use hyperion_x_emv.Base.{Bool, none, false, true}
use hyperion_x_emv.Ffi.{KrnContext}
use hyperion_x_emv.Ffi.Transport.{transmit_apdu_with_followups}
use hyperion_x_emv.Sw.{ApduContext}
use hyperion_x_emv.Gac.{GenerateAcResponse}
use hyperion_x_emv.Taa.{spec_defaults, zeroed}
use hyperion_x_emv.Config.{AidProfile, ProfileSet, ProfileClass, CdaAuthenticationData}
use hyperion_x_emv.Ffi.Rounds.{IsExchange, transmit_apdu_with_followups-IsExchange}
use hyperion_x_emv.Ffi.Control.{control_of}
use hyperion_x_emv.Ffi.FirstGac.{advance_from_s9, run_first_generate_ac}
use hyperion_x_emv.Ffi.Resolved.{IsResolved, advance_from_s9_resolves}
use hyperion_x_emv.Ffi.Flow.{read_application_records_ends}
use hyperion_x_emv.Ffi.Decision.{online_completion, online_completion_lem}

-- A card that always answers with success.
abbrev willing : Card
willing sent = record { status = 0; response = 0x90 ∷ 0x00 ∷ [] }

abbrev at_state : FsmState → Session
at_state state = record { ctx = record new_context { fsm_state = state }; sent = [] }

abbrev approval : List ℕ
approval = 0x8a ∷ 0x02 ∷ b'0' ∷ b'0' ∷ []

from_code-error_code_example :
    (from_code 9 ≡ some KernelError.card_removed) ↔ (error_code KernelError.card_removed ≡ 9)
from_code-error_code_example = from_code-error_code 9 KernelError.card_removed

-- A session with callbacks.
abbrev equipped_at : FsmState → Session
equipped_at state = record {
  ctx = record new_context { fsm_state = state; has_runtime = true };
  sent = [];
}

run_call_refused_example :
    run_call willing process_final_generate_ac (equipped_at s11)
    ≡ refused_with KernelError.invalid_argument (equipped_at s11)
unfolding code
run_call_refused_example =
    run_call_refused willing process_final_generate_ac (equipped_at s11)
      KernelError.invalid_argument refl

-- The records of a card without an AFL.
abbrev after_reading : Session
after_reading = record {
  ctx = record new_context { fsm_state = s5; state = offline_data_authentication };
  sent = [];
}

no_records : read_application_records willing [] (at_state s4) ≡ (after_reading, okay tt)
unfolding read_application_records ◌>>=◌ apply_transition transition record_plan
no_records = refl

read_application_records_ends_example :
    (after_reading.ctx.fsm_state ≡ s5)
    × (after_reading.ctx.state ≡ offline_data_authentication)
    × (after_reading.ctx.final_outcome ≡ (at_state s4).ctx.final_outcome)
read_application_records_ends_example =
    read_application_records_ends willing [] (at_state s4) after_reading refl no_records

abbrev completed : Session
completed = (online_completion willing approval (at_state s11)).0

completed_well : online_completion willing approval (at_state s11) ≡ (completed, okay tt)
unfolding apply_host_response run_issuer_scripts_for_phase run_final_generate_ac ◌>>=◌
    apply_transition transition put_card put parse_host_response phase_of parse_many read_tag
    read_length find_unique_direct ◌=s=◌ code
completed_well = refl

online_completion_lem_example :
    (completed.ctx.fsm_state ≡ s16)
    × (completed.ctx.state ≡ KernelState.final_outcome)
    × ((completed.ctx.final_outcome ≡ some KrnOutcome.approved_online)
        ⊎ (completed.ctx.final_outcome ≡ some KrnOutcome.declined_online))
online_completion_lem_example =
    online_completion_lem willing approval (at_state s11) completed completed_well

-- The host has approved, and the card has no CDOL2.
abbrev answered : Session
answered = record {
  ctx = record new_context {
    fsm_state = s14;
    host_response = some (record {
      authorization_response_code = b'0' ∷ b'0' ∷ [];
      authorization_code = none;
      issuer_authentication_data = none;
      scripts = [];
    });
  };
  sent = [];
}

abbrev decided : Session
decided = (run_final_generate_ac willing answered).0

decided_well : run_final_generate_ac willing answered ≡ (decided, okay tt)
unfolding run_final_generate_ac ◌>>=◌ apply_transition transition code ◌=s=◌ Store.get
decided_well = refl

run_final_generate_ac_lem_example :
    ((Store.get answered.ctx.card_data (0x8d ∷ []) ≢ none) × IsByCard decided)
    ⊎ ((Store.get answered.ctx.card_data (0x8d ∷ []) ≡ none) × IsByHost answered decided)
run_final_generate_ac_lem_example = run_final_generate_ac_lem willing answered decided decided_well

-- An application that needs only the TVR for its cryptogram.
abbrev profile : AidProfile
profile = record {
  aid = [];
  priority = 1;
  partial_selection = false;
  interfaces = [];
  action_codes = zeroed;
  issuer_action_codes = zeroed;
  floor_limit = 0;
  transaction_type_floor_limits = [];
  cvm_limit_contact = 0;
  random_selection_percent = 0;
  lower_consecutive_offline_limit = none;
  upper_consecutive_offline_limit = none;
  contactless_transaction_limit = 0;
  contactless_cvm_limit = 0;
  cdcvm_supported = false;
  cda_supported = false;
  cda_request_encoding = none;
  cda_authentication_data = CdaAuthenticationData.application_cryptogram;
  default_cdol1 = some (0x95 ∷ 0x05 ∷ []);
  critical_issuer_script_ins = [];
  relay_resistance = none;
}

abbrev profiles : ProfileSet
profiles = record {
  version = 1;
  profile_class = ProfileClass.certification;
  profile_source = record {
    owner = [];
    document = [];
    version = [];
    retrieved = none;
    verification = [];
  };
  schemes =
      record {
        scheme_name = [];
        rid = [];
        kernel_type = [];
        contact_kernel_type = none;
        taa = spec_defaults;
        aids = profile ∷ [];
        capks = [];
      }
      ∷ [];
}

abbrev at_decision : Session
at_decision = record {
  ctx = record new_context {
    fsm_state = s9;
    profiles = some profiles;
    selected_application =
        some (record { aid = []; scheme_index = 0; aid_index = 0; aip = none; afl = [] });
  };
  sent = [];
}

-- A card that approves offline.
abbrev approving : Card
approving sent = record {
  status = 0;
  response = 0x80 ∷ 0x0b ∷ 0x40 ∷ 0x00 ∷ 0x01 ∷ 1 ∷ 2 ∷ 3 ∷ 4 ∷ 5 ∷ 6 ∷ 7 ∷ 8 ∷ 0x90 ∷ 0x00 ∷ [];
}

-- The card's verdict after the final GENERATE AC.
abbrev with_cdol2 : Session
with_cdol2 = record answered {
  ctx = record answered.ctx { card_data = record { entries = (0x8d ∷ [], 0x95 ∷ 0x05 ∷ []) ∷ [] } };
}

card_approves :
    (run_final_generate_ac approving with_cdol2).0.ctx.final_outcome
    ≡ some KrnOutcome.approved_online
unfolding run_final_generate_ac ◌>>=◌ Store.get apply_transition transition code
    hyperion_x_emv.Dol.parse_dol hyperion_x_emv.Dol.read_dol_tag
    hyperion_x_emv.Ffi.Scripts.put_bitmaps put_card put ◌=s=◌
    hyperion_x_emv.Dol.build_dol_with_policy hyperion_x_emv.Apdu.generate_ac
    hyperion_x_emv.Apdu.encode transmit_apdu_with_followups
    hyperion_x_emv.Gac.parse_generate_ac_response parse_many read_tag read_length find_unique_direct
    hyperion_x_emv.Ffi.Online.put_cryptogram hyperion_x_emv.Sw.classify
    hyperion_x_emv.Ffi.Transport.response_body_and_status
    hyperion_x_emv.Ffi.Transport.require_generate_ac_success hyperion_x_emv.Gac.cryptogram_type
card_approves = refl

abbrev no_cda : KrnContext → GenerateAcResponse → Bool
no_cda ctx response = false

abbrev approved : Session
approved = (advance_from_s9 profiles no_cda approving at_decision).0

approved_well :
    advance_from_s9 profiles no_cda approving at_decision
    ≡ (approved, okay KrnOutcome.approved_offline)
unfolding advance_from_s9 run_first_generate_ac ◌>>=◌ hyperion_x_emv.Ffi.Package.issuer_action_codes
    Store.get apply_transition transition hyperion_x_emv.Taa.decide code
    hyperion_x_emv.Ffi.Scripts.selected_aid_profile hyperion_x_emv.Dol.parse_dol
    hyperion_x_emv.Dol.read_dol_tag hyperion_x_emv.Ffi.Scripts.put_bitmaps put_card put ◌=s=◌
    hyperion_x_emv.Dol.build_dol_with_policy hyperion_x_emv.Apdu.generate_ac
    hyperion_x_emv.Apdu.encode transmit_apdu_with_followups
    hyperion_x_emv.Gac.parse_generate_ac_response parse_many read_tag read_length find_unique_direct
    hyperion_x_emv.Ffi.Online.put_cryptogram hyperion_x_emv.State.Tvr.is_set
    hyperion_x_emv.Sw.classify hyperion_x_emv.Ffi.Transport.response_body_and_status
    hyperion_x_emv.Ffi.Transport.require_generate_ac_success hyperion_x_emv.Gac.cryptogram_type
approved_well = refl

advance_from_s9_resolves_example :
    IsResolved none KrnOutcome.approved_offline (control_of approved.ctx)
advance_from_s9_resolves_example =
    advance_from_s9_resolves profiles no_cda approving at_decision approved
      KrnOutcome.approved_offline refl approved_well

transmit_apdu_with_followups-IsExchange_example : IsExchange 5 ApduContext.generate_ac at_decision (
    transmit_apdu_with_followups approving
      (0x80 ∷ 0xae ∷ 0x40 ∷ 0x00 ∷ [])
      500
      ApduContext.generate_ac
      at_decision)
transmit_apdu_with_followups-IsExchange_example =
    transmit_apdu_with_followups-IsExchange approving (0x80 ∷ 0xae ∷ 0x40 ∷ 0x00 ∷ []) 500
      ApduContext.generate_ac at_decision
