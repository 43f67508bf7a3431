-- ===== src/Ffi.antt =====
-- src/ffi.rs: the context of a transaction, and the operations that run its phases against the
-- card. The callback that sends a command is a parameter: what the card answers to the commands sent
-- so far. An operation takes the session, and returns it as it is when the operation ends, with
-- its result, since an error keeps what was changed before it.
pub mod Errors
pub mod Transport
pub mod Rounds
pub mod Records
pub mod Scripts
pub mod Online
pub mod Keeps
pub mod Control
pub mod Flow
pub mod HostFlow
pub mod Final
pub mod Decision
pub mod Package
pub mod Actions
pub mod FirstGac
pub mod Offline
pub mod Resolved
pub mod Verdict
pub mod Calls
mod Tests
use hyperion_x_emv.Base.{
  ℕ, zero, suc, ◌+◌, Bool, true, false, List, [], ◌∷◌, ◌++◌, Option, some, none, KernelError,
  KernelResult, okay, err,
}
use hyperion_x_emv.State.{KernelState, idle}
use hyperion_x_emv.State.Tvr
use hyperion_x_emv.State.Tsi
use hyperion_x_emv.Fsm.{FsmState, FsmEvent, s0, transition}
use hyperion_x_emv.Dol.Store.{DataStore, put}
use hyperion_x_emv.Dol.Store as Store
use hyperion_x_emv.Afl.{AflEntry}
use hyperion_x_emv.Apdu.{CryptogramRequest}
use hyperion_x_emv.Gac.{GenerateAcResponse}
use hyperion_x_emv.Issuer.{HostResponse, ScriptPhase, ScriptCommandResult}
use hyperion_x_emv.Config.{ProfileSet}

pub data KrnOutcome : Type 0 where
  approved_offline declined_offline approved_online declined_online try_again : KrnOutcome
  alternate_interface select_next terminated error online_required : KrnOutcome

pub data OdaMethod : Type 0 where
  sda dda cda : OdaMethod

pub record StaticAuthenticationRecord : Type 0 where
  pub sfi : ℕ
  pub number : ℕ
  pub body : List ℕ

pub record SelectedApplication : Type 0 where
  pub aid : List ℕ
  pub scheme_index : ℕ
  pub aid_index : ℕ
  pub aip : Option (List ℕ)
  pub afl : List AflEntry

pub record CapturedIssuerScriptResult : Type 0 where
  pub phase : ScriptPhase
  pub script_index : ℕ
  pub command_index : ℕ
  pub script_identifier : Option (List ℕ)
  pub result : ScriptCommandResult

pub record CallbackTimeoutProfile : Type 0 where
  pub apdu_transport_timeout_ms : ℕ
  pub host_authorization_timeout_ms : ℕ
  pub pin_entry_timeout_ms : ℕ
  pub contactless_ui_timeout_ms : ℕ

pub record StoredTxnParams : Type 0 where
  pub amount_authorised_minor : ℕ
  pub amount_other_minor : ℕ
  pub currency_code : ℕ
  pub currency_exponent : ℕ
  pub terminal_country_code : ℕ
  pub transaction_type : ℕ
  pub terminal_type : ℕ
  pub merchant_category_code : List ℕ
  pub interface_preference : ℕ
  pub merchant_name_location : List ℕ

-- The fields that the operations here read or write.
pub record KrnContext : Type 0 where
  pub state : KernelState
  pub fsm_state : FsmState
  pub tvr : Tvr.Tvr
  pub tsi : Tsi.Tsi
  pub last_error : KernelError
  pub busy : Bool
  pub txn_params : Option StoredTxnParams
  pub profiles : Option ProfileSet
  pub callback_timeouts : CallbackTimeoutProfile
  pub selected_application : Option SelectedApplication
  pub selected_oda_method : Option OdaMethod
  pub requested_cryptogram : Option CryptogramRequest
  pub first_gac_response : Option GenerateAcResponse
  pub final_gac_response : Option GenerateAcResponse
  pub final_outcome : Option KrnOutcome
  pub online_authorization_data : Option (List ℕ)
  pub host_response : Option HostResponse
  pub issuer_script_results : List CapturedIssuerScriptResult
  pub card_data : DataStore
  pub offline_auth_records : List StaticAuthenticationRecord
  -- `runtime.is_some()`
  pub has_runtime : Bool

abbrev pub default_timeouts : CallbackTimeoutProfile
default_timeouts = record {
  apdu_transport_timeout_ms = 500;
  host_authorization_timeout_ms = 30000;
  pin_entry_timeout_ms = 30000;
  contactless_ui_timeout_ms = 5000;
}

abbrev pub new_context : KrnContext
new_context = record {
  state = idle;
  fsm_state = s0;
  tvr = Tvr.cleared;
  tsi = Tsi.cleared;
  last_error = KernelError.ok;
  busy = false;
  txn_params = none;
  profiles = none;
  callback_timeouts = default_timeouts;
  selected_application = none;
  selected_oda_method = none;
  requested_cryptogram = none;
  first_gac_response = none;
  final_gac_response = none;
  final_outcome = none;
  online_authorization_data = none;
  host_response = none;
  issuer_script_results = [];
  card_data = Store.new;
  offline_auth_records = [];
  has_runtime = false;
}

-- `KrnContext::reset` keeps the profiles, the timeouts and the callbacks.
unfoldable pub reset : KrnContext → KrnContext
reset ctx = record ctx {
  state = idle;
  fsm_state = s0;
  tvr = Tvr.cleared;
  tsi = Tsi.cleared;
  last_error = KernelError.ok;
  busy = false;
  txn_params = none;
  selected_application = none;
  selected_oda_method = none;
  requested_cryptogram = none;
  first_gac_response = none;
  final_gac_response = none;
  final_outcome = none;
  online_authorization_data = none;
  host_response = none;
  issuer_script_results = [];
  card_data = Store.new;
  offline_auth_records = [];
}

-- What the callback reports: its status, an `i32` by its 32 bits, and the response, as long as the
-- callback says.
pub record Answer : Type 0 where
  pub status : ℕ
  pub response : List ℕ

-- A command that was sent, with its timeout.
abbrev pub Command : Type 0
Command = List ℕ × ℕ

-- `transmit_apdu` of the runtime, given all commands up to this one, the last one first.
abbrev pub Card : Type 0
Card = List Command → Answer

pub record Session : Type 0 where
  pub ctx : KrnContext
  pub sent : List Command

-- An operation on the session.
abbrev pub Kernel : Type 0 → Type 0
Kernel A = Session → Session × KernelResult A

abbrev pub continue_with :
    {A B : Type 0} → Session × KernelResult A → (A → Kernel B) → Session × KernelResult B
continue_with (s, okay a) f = f a s
continue_with (s, err e) f = (s, err e)

infixl 5 ◌>>=◌ ◌>>◌
unfoldable pub ◌>>=◌ : {A B : Type 0} → Kernel A → (A → Kernel B) → Kernel B
(m >>= f) = λ s. continue_with (m s) f

abbrev pub ◌>>◌ : {B : Type 0} → Kernel (Unit {0}) → Kernel B → Kernel B
m >> k = m >>= λ _. k

abbrev pub pure : {A : Type 0} → A → Kernel A
pure a s = (s, okay a)

-- `result?`
abbrev pub lift : {A : Type 0} → KernelResult A → Kernel A
lift r s = (s, r)

abbrev pub asks : {A : Type 0} → (KrnContext → A) → Kernel A
asks f s = (s, okay (f s.ctx))

abbrev pub modify : (KrnContext → KrnContext) → Kernel (Unit {0})
modify f s = (record s { ctx = f s.ctx }, okay tt)

-- `let _ = operation;`
abbrev pub ignore : Kernel (Unit {0}) → Kernel (Unit {0})
ignore m s = ((m s).0, okay tt)

unfoldable pub apply_transition : FsmEvent → Kernel (Unit {0})
apply_transition event s = elim (transition s.ctx.fsm_state event) [
  | okay taken ↦ (record s { ctx = record s.ctx { fsm_state = taken.to } }, okay tt)
  | err e ↦ (s, err e)
]

-- `ctx.card_data.put(tag, value)?`
unfoldable pub put_card : List ℕ → List ℕ → Kernel (Unit {0})
put_card tag value s = elim (put s.ctx.card_data tag value) [
  | okay store ↦ (record s { ctx = record s.ctx { card_data = store } }, okay tt)
  | err e ↦ (s, err e)
]
