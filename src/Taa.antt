-- ===== src/Taa.antt =====
-- src/taa.rs: the terminal action analysis. A `[u8; 5]` is a list of bytes; the texts of
-- `TaaDecision::reason` are constructors.
pub mod Spec
mod Tests
use hyperion_x_emv.Base.{
  ℕ, bit_or, Bool, true, false, not, ◌&&◌, ◌||◌, List, [], ◌∷◌, get_or, if◌then◌else◌, KernelError,
  KernelResult, okay, err, ◌>>◌, fail_if,
}
use hyperion_x_emv.Base.Bits.{meets}
use hyperion_x_emv.State.Tvr.{Tvr}

pub data TerminalAction : Type 0 where
  aac tc arqc : TerminalAction

pub record ActionCodes : Type 0 where
  pub denial : List ℕ
  pub online : List ℕ
  pub default : List ℕ

abbrev pub zeroes : List ℕ
zeroes = 0 ∷ 0 ∷ 0 ∷ 0 ∷ 0 ∷ []

abbrev pub zeroed : ActionCodes
zeroed = record { denial = zeroes; online = zeroes; default = zeroes }

pub record TaaProfile : Type 0 where
  pub fallback_when_offline_unable_online : TerminalAction
  pub no_match_default_when_online_capable : TerminalAction
  pub no_match_default_when_offline_only : TerminalAction

-- The three `matches!` of `TaaProfile::new`.
abbrev pub is_offline_fallback : TerminalAction → Bool
is_offline_fallback TerminalAction.arqc = false
is_offline_fallback _ = true

abbrev pub is_online_default : TerminalAction → Bool
is_online_default TerminalAction.aac = false
is_online_default _ = true

unfoldable pub new_profile :
    TerminalAction → TerminalAction → TerminalAction → KernelResult TaaProfile
new_profile fallback online_default offline_default = do
  fail_if (not (is_offline_fallback fallback)) KernelError.invalid_profile
  fail_if (not (is_online_default online_default)) KernelError.invalid_profile
  fail_if (not (is_offline_fallback offline_default)) KernelError.invalid_profile
  okay (record {
    fallback_when_offline_unable_online = fallback;
    no_match_default_when_online_capable = online_default;
    no_match_default_when_offline_only = offline_default;
  })

abbrev pub spec_defaults : TaaProfile
spec_defaults = record {
  fallback_when_offline_unable_online = TerminalAction.aac;
  no_match_default_when_online_capable = TerminalAction.arqc;
  no_match_default_when_offline_only = TerminalAction.aac;
}

pub record TaaInput : Type 0 where
  pub tvr : Tvr
  pub tac : ActionCodes
  pub iac : ActionCodes
  pub terminal_online_capable : Bool
  pub profile : TaaProfile

pub data Reason : Type 0 where
  denial_matched online_matched default_matched no_match_online_capable no_match_offline_only :
      Reason

pub record TaaDecision : Type 0 where
  pub action : TerminalAction
  pub reason : Reason

-- `left.iter().zip(right).any(|(left, right)| left & right != 0)`
unfoldable pub intersects : List ℕ → List ℕ → Bool
intersects (x ∷ xs) (y ∷ ys) = meets x y || intersects xs ys
intersects _ _ = false

unfoldable pub or5 : List ℕ → List ℕ → List ℕ
or5 left right =
    bit_or (get_or left 0 0) (get_or right 0 0)
    ∷ bit_or (get_or left 1 0) (get_or right 1 0)
    ∷ bit_or (get_or left 2 0) (get_or right 2 0)
    ∷ bit_or (get_or left 3 0) (get_or right 3 0)
    ∷ bit_or (get_or left 4 0) (get_or right 4 0)
    ∷ []

unfoldable pub decide : TaaInput → TaaDecision
unfolding intersects or5
decide input =
    if intersects input.tvr.bytes (or5 input.tac.denial input.iac.denial)
    then record { action = TerminalAction.aac; reason = Reason.denial_matched }
    else if input.terminal_online_capable
        && intersects input.tvr.bytes (or5 input.tac.online input.iac.online)
    then record { action = TerminalAction.arqc; reason = Reason.online_matched }
    else if not input.terminal_online_capable
        && intersects input.tvr.bytes (or5 input.tac.default input.iac.default)
    then record {
      action = input.profile.fallback_when_offline_unable_online;
      reason = Reason.default_matched;
    }
    else if input.terminal_online_capable
    then record {
      action = input.profile.no_match_default_when_online_capable;
      reason = Reason.no_match_online_capable;
    }
    else record {
      action = input.profile.no_match_default_when_offline_only;
      reason = Reason.no_match_offline_only;
    }
