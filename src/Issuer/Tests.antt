-- ===== src/Issuer/Tests.antt =====
-- Runs of src/issuer.rs, and its theorems at concrete inputs.
use hyperion_x_emv.Base.{
  ℕ, ◌≡◌, refl, List, [], ◌∷◌, ◌++◌, some, none, KernelError, okay, err, ◌=s=◌,
}
use hyperion_x_emv.Tlv.{parse_many, read_tag, read_length, find_unique_direct}
use hyperion_x_emv.Issuer.{
  HostResponse, before_final_generate_ac, ScriptCommandResult, parse_host_response, phase_of,
}
use hyperion_x_emv.Issuer.Host.{IsAnswer, parse_host_response_sound}

abbrev command : List ℕ
command = 0x00 ∷ 0xda ∷ 0x00 ∷ 0x00 ∷ 0x01 ∷ 0xaa ∷ []

abbrev identifier_bytes : List ℕ
identifier_bytes = 0xde ∷ 0xad ∷ 0xbe ∷ 0xef ∷ []

abbrev answer : List ℕ
answer =
    0x8a
    ∷ 0x02
    ∷ b'0'
    ∷ b'0'
    ∷ 0x71
    ∷ 0x0f
    ∷ 0x9f
    ∷ 0x18
    ∷ 0x04
    ∷ (identifier_bytes ++ (0x86 ∷ 0x06 ∷ command))

abbrev response : HostResponse
response = record {
  authorization_response_code = b'0' ∷ b'0' ∷ [];
  authorization_code = none;
  issuer_authentication_data = none;
  scripts =
      record {
        phase = before_final_generate_ac;
        identifier = some identifier_bytes;
        commands = command ∷ [];
      }
      ∷ [];
}

answer_accepted : parse_host_response answer ≡ okay response
unfolding parse_host_response phase_of parse_many read_tag read_length find_unique_direct ◌=s=◌
answer_accepted = refl

-- A nested response code.
nested_refused :
    parse_host_response (0x71 ∷ 0x04 ∷ 0x8a ∷ 0x02 ∷ b'0' ∷ b'0' ∷ []) ≡ err KernelError.parse_error
unfolding parse_host_response phase_of parse_many read_tag read_length find_unique_direct ◌=s=◌
nested_refused = refl

-- A template without a command.
empty_template_refused :
    parse_host_response (0x8a ∷ 0x02 ∷ b'0' ∷ b'0' ∷ 0x71 ∷ 0x00 ∷ []) ≡ err KernelError.parse_error
unfolding parse_host_response phase_of parse_many read_tag read_length find_unique_direct ◌=s=◌
empty_template_refused = refl

parse_host_response_sound_example : IsAnswer answer response
parse_host_response_sound_example = parse_host_response_sound answer response answer_accepted

abbrev refused : ScriptCommandResult
refused = record { sw1 = 0x69; sw2 = 0x85 }
