-- ===== src/Issuer.antt =====
-- src/issuer.rs: the answer of the host, with the issuer's scripts, and the outcome of their commands.
pub mod Scripts
pub mod Host
pub mod Outcome
mod Tests
use hyperion_x_emv.Base.{
  ℕ, zero, suc, ◌+◌, ◌^◌, Bool, true, false, not, ◌&&◌, ◌||◌, List, [], ◌∷◌, ◌++◌, Option, some,
  none, ltb, leb, ◌==◌, ◌=s=◌, if◌then◌else◌, length, is_empty, any, all, is_some, get_or,
  KernelError, KernelResult, okay, err, ◌>>=◌, ◌>>◌, fail_if, ok_or,
}
use hyperion_x_emv.State.Tvr
use hyperion_x_emv.State.Tsi
use hyperion_x_emv.Tlv.{Tlv, Tlvs, node, nil, cons, parse_many, find_unique_direct}

abbrev pub max_script_commands : ℕ
max_script_commands = 32

abbrev pub max_script_command_len : ℕ
max_script_command_len = 261

abbrev pub issuer_script_identifier_len : ℕ
issuer_script_identifier_len = 4

abbrev pub issuer_authentication_data_min_len : ℕ
issuer_authentication_data_min_len = 8

abbrev pub issuer_authentication_data_max_len : ℕ
issuer_authentication_data_max_len = 16

abbrev pub authorization_code_len : ℕ
authorization_code_len = 6

pub data ScriptPhase : Type 0 where
  before_final_generate_ac after_final_generate_ac : ScriptPhase

pub record IssuerScript : Type 0 where
  pub phase : ScriptPhase
  pub identifier : Option (List ℕ)
  pub commands : List (List ℕ)

pub record HostResponse : Type 0 where
  pub authorization_response_code : List ℕ
  pub authorization_code : Option (List ℕ)
  pub issuer_authentication_data : Option (List ℕ)
  pub scripts : List IssuerScript

pub record ScriptCommandResult : Type 0 where
  pub sw1 : ℕ
  pub sw2 : ℕ

pub record ScriptExecutionSummary : Type 0 where
  pub tvr : Tvr.Tvr
  pub tsi : Tsi.Tsi
  pub results : List ScriptCommandResult

-- `byte.is_ascii_alphanumeric() || *byte == b' '`
abbrev pub is_authorization_char : ℕ → Bool
is_authorization_char byte =
    (leb b'0' byte && leb byte b'9')
    || (leb b'A' byte && leb byte b'Z')
    || (leb b'a' byte && leb byte b'z')
    || byte == b' '

unfoldable pub authorization_text_is_valid : List ℕ → Bool
authorization_text_is_valid value = all is_authorization_char value

unfoldable pub parse_authorization_response_code : List ℕ → KernelResult (List ℕ)
unfolding authorization_text_is_valid
parse_authorization_response_code value = do
  fail_if (not (length value == 2)) KernelError.parse_error
  fail_if (not (authorization_text_is_valid value)) KernelError.parse_error
  okay value

unfoldable pub parse_authorization_code : List ℕ → KernelResult (List ℕ)
unfolding authorization_text_is_valid
parse_authorization_code value = do
  fail_if (not (length value == authorization_code_len) || not (authorization_text_is_valid value))
      KernelError.parse_error
  okay value

-- The guard of the match of tag 91.
unfoldable pub parse_issuer_authentication_data : List ℕ → KernelResult (List ℕ)
parse_issuer_authentication_data value = do
  fail_if
      (not (
        leb issuer_authentication_data_min_len (length value)
        && leb (length value) issuer_authentication_data_max_len))
      KernelError.parse_error
  okay value

-- `5usize.checked_add(lc)` cannot overflow, since `lc` is a byte.
unfoldable pub validate_script_command_apdu : List ℕ → KernelResult (Unit {0})
validate_script_command_apdu command =
    let lc = get_or command 4 0 in
    if ltb (length command) 4
    then err KernelError.parse_error
    else if leb (length command) 5
    then okay tt
    else if lc == 0
    then err KernelError.parse_error
    else fail_if (not (length command == 5 + lc || length command == 5 + lc + 1))
        KernelError.parse_error

-- The loop over the children of a script template, with the identifier and the commands so far.
unfoldable pub parse_script_children :
    Tlvs → Option (List ℕ) → List (List ℕ) → KernelResult (Option (List ℕ) × List (List ℕ))
unfolding validate_script_command_apdu
parse_script_children nil identifier commands = okay (identifier, commands)
parse_script_children (cons (node tag value c kids) items) identifier commands =
    let with_identifier = do
      fail_if (is_some identifier || not (length value == issuer_script_identifier_len))
          KernelError.parse_error
      parse_script_children items (some value) commands
    in let with_command = do
      fail_if (is_empty value) KernelError.parse_error
      fail_if (ltb max_script_command_len (length value)) KernelError.length_overflow
      validate_script_command_apdu value
      fail_if (leb max_script_commands (length commands)) KernelError.length_overflow
      parse_script_children items identifier (commands ++ (value ∷ []))
      in if tag =s= (0x9f ∷ 0x18 ∷ [])
        then with_identifier
        else if tag =s= (0x86 ∷ [])
        then with_command
        else err KernelError.parse_error

unfoldable pub parse_script_template : Tlvs → ScriptPhase → KernelResult IssuerScript
unfolding parse_script_children
parse_script_template kids p = do
  (id, cs) ← parse_script_children kids none []
  fail_if (is_empty cs) KernelError.parse_error
  okay (record { phase = p; identifier = id; commands = cs })

-- The phase that the tag of a template stands for.
unfoldable pub phase_of : List ℕ → Option ScriptPhase
phase_of tag =
    if tag =s= (0x71 ∷ [])
    then some before_final_generate_ac
    else if tag =s= (0x72 ∷ [])
    then some after_final_generate_ac
    else none

-- The loop of `collect_scripts`, with the number of commands and the scripts so far.
unfoldable pub collect_scripts_from :
    ℕ → Tlvs → List IssuerScript → KernelResult (List IssuerScript)
unfolding parse_script_template
collect_scripts_from total nil scripts = okay scripts
collect_scripts_from total (cons (node tag value c kids) items) scripts = elim (phase_of tag) [
  | none ↦ collect_scripts_from total items scripts
  | some p ↦ do
    script ← parse_script_template kids p
    fail_if (leb (2 ^ 64) (total + length script.commands)) KernelError.length_overflow
    fail_if (ltb max_script_commands (total + length script.commands)) KernelError.length_overflow
    collect_scripts_from (total + length script.commands) items (scripts ++ (script ∷ []))
]

unfoldable pub collect_scripts : Tlvs → KernelResult (List IssuerScript)
unfolding collect_scripts_from
collect_scripts tlvs = collect_scripts_from 0 tlvs []

-- `matches!(item.tag, [0x8a] | [0x89] | [0x91] | [0x71] | [0x72])`
unfoldable pub is_response_object : List ℕ → Bool
is_response_object tag =
    tag =s= (0x8a ∷ [])
    || tag =s= (0x89 ∷ [])
    || tag =s= (0x91 ∷ [])
    || tag =s= (0x71 ∷ [])
    || tag =s= (0x72 ∷ [])

unfoldable pub reject_nested_response_objects : Tlvs → KernelResult (Unit {0})
unfolding is_response_object
reject_nested_response_objects nil = okay tt
reject_nested_response_objects (cons (node tag value c kids) items) = do
  fail_if (is_response_object tag) KernelError.parse_error
  reject_nested_response_objects kids
  reject_nested_response_objects items

unfoldable pub reject_unsupported_host_response_objects : Tlvs → KernelResult (Unit {0})
unfolding is_response_object reject_nested_response_objects
reject_unsupported_host_response_objects nil = okay tt
reject_unsupported_host_response_objects (cons (node tag value c kids) items) = do
  fail_if (not (is_response_object tag)) KernelError.parse_error
  reject_nested_response_objects kids
  reject_unsupported_host_response_objects items

-- `match option { Some(value) => Some(f(value)?), None => None }`
abbrev pub traverse :
    (List ℕ → KernelResult (List ℕ)) → Option (List ℕ) → KernelResult (Option (List ℕ))
traverse f none = okay none
traverse f (some value) = do parsed ← f value; okay (some parsed)

unfoldable pub parse_host_response : List ℕ → KernelResult HostResponse
unfolding reject_unsupported_host_response_objects parse_authorization_response_code
    parse_authorization_code parse_issuer_authentication_data collect_scripts
parse_host_response input = do
  tlvs ← parse_many input
  reject_unsupported_host_response_objects tlvs
  arc_value ← find_unique_direct tlvs (0x8a ∷ [])
  arc ← traverse parse_authorization_response_code arc_value
  code_value ← find_unique_direct tlvs (0x89 ∷ [])
  code ← traverse parse_authorization_code code_value
  data_value ← find_unique_direct tlvs (0x91 ∷ [])
  iad ← traverse parse_issuer_authentication_data data_value
  all_scripts ← collect_scripts tlvs
  required ← ok_or arc KernelError.missing_mandatory_tag
  okay (record {
    authorization_response_code = required;
    authorization_code = code;
    issuer_authentication_data = iad;
    scripts = all_scripts;
  })

-- The bit of a script that failed.
unfoldable pub failed_bit : ScriptPhase → ℕ × ℕ
failed_bit before_final_generate_ac = Tvr.b5_script_processing_failed_before_final_gac
failed_bit after_final_generate_ac = Tvr.b5_script_processing_failed_after_final_gac

unfoldable pub apply_script_results :
    ScriptPhase → List ScriptCommandResult → Tvr.Tvr → Tsi.Tsi → ScriptExecutionSummary
unfolding failed_bit
apply_script_results phase rs t i =
    let failed = any (λ r. not (r.sw1 == 0x90) || not (r.sw2 == 0x00)) rs in
    record {
      tvr = if failed then Tvr.set t (failed_bit phase) else t;
      tsi = if is_empty rs then i else Tsi.set i Tsi.script_processing_performed;
      results = rs;
    }
