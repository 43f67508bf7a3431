-- ===== src/Taa/Spec.antt =====
-- The terminal action analysis of src/taa.rs, bit by bit.
use hyperion_x_emv.Base.{
  ℕ, bit_or, ◌≡◌, ◌≢◌, Bool, true, false, ◌||◌, List, [], ◌∷◌, get_or, length, if◌then◌else◌, okay,
  arith, ◌∙◌,
}
use hyperion_x_emv.Base.Bits.{meets, meets-bit_or, meets_comm}
use hyperion_x_emv.State.Bitmap.{Bit}
use hyperion_x_emv.State.Tvr
use hyperion_x_emv.State.Tvr.{Tvr}
use hyperion_x_emv.State.Reads.{is_set-set}
use hyperion_x_emv.State.Marks.{length-set_bit}
use hyperion_x_emv.Taa.{TerminalAction, TaaInput, new_profile, intersects, or5, decide}

-- A bit of the TVR that is set in the code of the terminal or in that of the issuer.
abbrev pub matches_at : Tvr → List ℕ → List ℕ → ℕ → Bool
matches_at t tac iac i = Tvr.is_set t (i, get_or tac i 0) || Tvr.is_set t (i, get_or iac i 0)

abbrev pub matched : Tvr → List ℕ → List ℕ → Bool
matched t tac iac =
    matches_at t tac iac 0
    || matches_at t tac iac 1
    || matches_at t tac iac 2
    || matches_at t tac iac 3
    || matches_at t tac iac 4

meets-either : (x a b : ℕ) → meets x (bit_or a b) ≡ meets x a || meets x b
meets-either x a b =
    ground (arith, meets_comm x (bit_or a b), meets_comm x a, meets_comm x b, meets-bit_or a b x)

intersects_five :
    (b0 b1 b2 b3 b4 : ℕ) (tac iac : List ℕ)
    → intersects (b0 ∷ b1 ∷ b2 ∷ b3 ∷ b4 ∷ []) (or5 tac iac)
      ≡ matched (record { bytes = b0 ∷ b1 ∷ b2 ∷ b3 ∷ b4 ∷ [] }) tac iac
unfolding intersects or5 Tvr.is_set
intersects_five b0 b1 b2 b3 b4 tac iac = ground (
  arith,
  meets-either b0 (get_or tac 0 0) (get_or iac 0 0),
  meets-either b1 (get_or tac 1 0) (get_or iac 1 0),
  meets-either b2 (get_or tac 2 0) (get_or iac 2 0),
  meets-either b3 (get_or tac 3 0) (get_or iac 3 0),
  meets-either b4 (get_or tac 4 0) (get_or iac 4 0),
)

intersects_bytes :
    (bytes tac iac : List ℕ)
    → length bytes ≡ 5
    → intersects bytes (or5 tac iac) ≡ matched (record { bytes = bytes }) tac iac
intersects_bytes (b0 ∷ b1 ∷ b2 ∷ b3 ∷ b4 ∷ []) tac iac five = intersects_five b0 b1 b2 b3 b4 tac iac
intersects_bytes [] tac iac five = absurd (omega arith)
intersects_bytes (b0 ∷ []) tac iac five = absurd (omega arith)
intersects_bytes (b0 ∷ b1 ∷ []) tac iac five = absurd (omega arith)
intersects_bytes (b0 ∷ b1 ∷ b2 ∷ []) tac iac five = absurd (omega arith)
intersects_bytes (b0 ∷ b1 ∷ b2 ∷ b3 ∷ []) tac iac five = absurd (omega arith)
intersects_bytes (b0 ∷ b1 ∷ b2 ∷ b3 ∷ b4 ∷ b5 ∷ bs) tac iac five = absurd (omega arith)

-- The test of the source is the one bit by bit, on the five bytes of a TVR.
intersects-or5 :
    (t : Tvr) (tac iac : List ℕ)
    → length t.bytes ≡ 5
    → intersects t.bytes (or5 tac iac) ≡ matched t tac iac
intersects-or5 t tac iac five = intersects_bytes t.bytes tac iac five

-- The order of the tests: denial, then online for a terminal that can go online and default for one
-- that cannot, then the profile's defaults.
abbrev pub expected_action : TaaInput → TerminalAction
expected_action input =
    if matched input.tvr input.tac.denial input.iac.denial
    then TerminalAction.aac
    else if input.terminal_online_capable
    then if matched input.tvr input.tac.online input.iac.online
      then TerminalAction.arqc
      else input.profile.no_match_default_when_online_capable
    else if matched input.tvr input.tac.default input.iac.default
    then input.profile.fallback_when_offline_unable_online
    else input.profile.no_match_default_when_offline_only

-- On a TVR of five bytes the action is the one of the first action code, of the terminal or of the
-- issuer, that has a bit in common with the TVR: a denial declines; else an online code asks to go
-- online where the terminal can, and a default code takes the profile's fallback where it cannot;
-- else the profile's default for that kind of terminal is taken.
pub decide_lem :
    (input : TaaInput) → length input.tvr.bytes ≡ 5 → (decide input).action ≡ expected_action input
unfolding decide
decide_lem input five = ground (
  arith,
  intersects-or5 input.tvr input.tac.denial input.iac.denial five,
  intersects-or5 input.tvr input.tac.online input.iac.online five,
  intersects-or5 input.tvr input.tac.default input.iac.default five,
)

-- With a profile that `TaaProfile::new` accepts, a terminal that cannot go online never asks to.
pub decide_offline_only :
    (input : TaaInput) (fallback online_default offline_default : TerminalAction)
    → length input.tvr.bytes ≡ 5
    → new_profile fallback online_default offline_default ≡ okay input.profile
    → input.terminal_online_capable ≡ false
    → (decide input).action ≢ TerminalAction.arqc
unfolding new_profile
decide_offline_only input fallback online_default offline_default five e offline =
    ground (arith, decide_lem input five)

-- With a profile that `TaaProfile::new` accepts, a terminal that can go online declines only if a
-- denial code, its own or the issuer's, has a bit in common with the TVR.
pub decide_online_capable :
    (input : TaaInput) (fallback online_default offline_default : TerminalAction)
    → length input.tvr.bytes ≡ 5
    → new_profile fallback online_default offline_default ≡ okay input.profile
    → input.terminal_online_capable ≡ true
    → (decide input).action ≡ TerminalAction.aac
    → matched input.tvr input.tac.denial input.iac.denial ≡ true
unfolding new_profile
decide_online_capable input fallback online_default offline_default five e online declined =
    ground (arith, decide_lem input five)

matches_at-set :
    (t : Tvr) (bit : Bit) (tac iac : List ℕ) (i : ℕ)
    → matches_at t tac iac i ≡ true
    → matches_at (Tvr.set t bit) tac iac i ≡ true
matches_at-set t (k, m) tac iac i h =
    ground (arith, is_set-set t k m i (get_or tac i 0), is_set-set t k m i (get_or iac i 0))

-- Once a denial code matches, setting further bits of the TVR never lifts the denial.
pub denial-set :
    (input : TaaInput) (bit : Bit)
    → length input.tvr.bytes ≡ 5
    → matched input.tvr input.tac.denial input.iac.denial ≡ true
    → (decide (record input { tvr = Tvr.set input.tvr bit })).action ≡ TerminalAction.aac
denial-set input bit five h = ground (
  arith,
  decide_lem (record input { tvr = Tvr.set input.tvr bit }) (length-set_bit input.tvr bit ∙ five),
  matches_at-set input.tvr bit input.tac.denial input.iac.denial 0,
  matches_at-set input.tvr bit input.tac.denial input.iac.denial 1,
  matches_at-set input.tvr bit input.tac.denial input.iac.denial 2,
  matches_at-set input.tvr bit input.tac.denial input.iac.denial 3,
  matches_at-set input.tvr bit input.tac.denial input.iac.denial 4,
)
