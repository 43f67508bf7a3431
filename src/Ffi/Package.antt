-- ===== src/Ffi/Package.antt =====
-- The data of src/ffi.rs around the first GENERATE AC: the action codes of the issuer, the online
-- package, and the terminal type of src/terminal.rs.
use hyperion_x_emv.Base.{
  ℕ, ◌+◌, ◌^◌, Bool, true, false, ◌||◌, List, [], ◌∷◌, ◌++◌, Option, some, none, ltb, leb, ◌==◌,
  if◌then◌else◌, is_empty, length, KernelError, KernelResult, okay, err, ◌>>=◌, ◌>>◌, fail_if, ◌/◌,
  ◌%◌,
}
use hyperion_x_emv.Dol.Store.{DataStore, get}
use hyperion_x_emv.Taa.{ActionCodes}
use hyperion_x_emv.Gac.{TagValue}

pub data TerminalOperator : Type 0 where
  attended unattended : TerminalOperator

pub data TerminalLocation : Type 0 where
  financial_institution merchant cardholder : TerminalLocation

pub record TerminalType : Type 0 where
  pub raw : ℕ
  pub operator : TerminalOperator
  pub location : TerminalLocation
  pub online_capable : Bool

-- `Ok(Self { .. })` of `TerminalType::parse`
abbrev of_type : ℕ → TerminalOperator → TerminalLocation → Bool → KernelResult TerminalType
of_type n who where_at online =
    okay (record { raw = n; operator = who; location = where_at; online_capable = online })

unfoldable pub parse_terminal_type : ℕ → KernelResult TerminalType
parse_terminal_type n =
    if n == 0x11 || n == 0x12
    then of_type n TerminalOperator.attended TerminalLocation.financial_institution true
    else if n == 0x13
    then of_type n TerminalOperator.attended TerminalLocation.financial_institution false
    else if n == 0x14 || n == 0x15
    then of_type n TerminalOperator.unattended TerminalLocation.financial_institution true
    else if n == 0x16
    then of_type n TerminalOperator.unattended TerminalLocation.financial_institution false
    else if n == 0x21 || n == 0x22
    then of_type n TerminalOperator.attended TerminalLocation.merchant true
    else if n == 0x23
    then of_type n TerminalOperator.attended TerminalLocation.merchant false
    else if n == 0x24 || n == 0x25
    then of_type n TerminalOperator.unattended TerminalLocation.merchant true
    else if n == 0x26
    then of_type n TerminalOperator.unattended TerminalLocation.merchant false
    else if n == 0x34 || n == 0x35
    then of_type n TerminalOperator.unattended TerminalLocation.cardholder true
    else if n == 0x36
    then of_type n TerminalOperator.unattended TerminalLocation.cardholder false
    else err KernelError.invalid_argument

unfoldable pub terminal_type_online_capable : ℕ → KernelResult Bool
unfolding parse_terminal_type
terminal_type_online_capable n = do terminal ← parse_terminal_type n; okay terminal.online_capable

-- `optional_fixed::<5>(data, tag)?.unwrap_or(fallback)`
abbrev pub five_or : Option (List ℕ) → List ℕ → KernelResult (List ℕ)
five_or none fallback = okay fallback
five_or (some value) fallback =
    if length value == 5 then okay value else err KernelError.parse_error

unfoldable pub issuer_action_codes : DataStore → ActionCodes → KernelResult ActionCodes
issuer_action_codes store fallback = do
  on_denial ← five_or (get store (0x9f ∷ 0x0e ∷ [])) fallback.denial
  to_online ← five_or (get store (0x9f ∷ 0x0f ∷ [])) fallback.online
  by_default ← five_or (get store (0x9f ∷ 0x0d ∷ [])) fallback.default
  okay (record { denial = on_denial; online = to_online; default = by_default })

abbrev pub max_online_auth_data_len : ℕ
max_online_auth_data_len = 1024

unfoldable pub encoded_length_size : ℕ → ℕ
encoded_length_size n = if ltb n 0x80 then 1 else if leb n 0xff then 2 else 3

unfoldable pub encode_length : List ℕ → ℕ → KernelResult (List ℕ)
encode_length out n =
    if ltb n 0x80
    then okay (out ++ (n ∷ []))
    else if leb n 0xff
    then okay (out ++ (0x81 ∷ n ∷ []))
    else if leb n 0xffff
    then okay (out ++ (0x82 ∷ n / 2 ^ 8 ∷ n % 2 ^ 8 ∷ []))
    else err KernelError.length_overflow

-- The checked sums cannot overflow: the tag has four bytes at most and the value is bounded.
unfoldable pub append_tlv : List ℕ → List ℕ → List ℕ → KernelResult (List ℕ)
unfolding encoded_length_size encode_length
append_tlv out tag value = do
  fail_if (is_empty tag || ltb 4 (length tag) || ltb 0xffff (length value))
      KernelError.length_overflow
  fail_if
      (ltb max_online_auth_data_len
        (length out + (length tag + encoded_length_size (length value) + length value)))
      KernelError.length_overflow
  with_length ← encode_length (out ++ tag) (length value)
  okay (with_length ++ value)

-- The loop of `encode_online_authorization_package`, with the bytes so far.
unfoldable pub append_objects : List ℕ → List TagValue → KernelResult (List ℕ)
unfolding append_tlv
append_objects out [] = okay out
append_objects out (object ∷ objects) = do
  more ← append_tlv out object.tag object.value
  append_objects more objects

unfoldable pub encode_online_authorization_package : List TagValue → KernelResult (List ℕ)
unfolding append_objects
encode_online_authorization_package objects = append_objects [] objects
