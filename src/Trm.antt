-- ===== src/Trm.antt =====
-- src/trm.rs: the terminal risk management.
pub mod Spec
pub mod Profiles
mod Tests
use hyperion_x_emv.Base.{
  ℕ, ◌*◌, Bool, true, false, not, ◌&&◌, ◌||◌, List, [], ◌∷◌, ◌++◌, Option, some, none, ltb, ◌==◌,
  if◌then◌else◌, length, any, is_some, KernelError, KernelResult, okay, err, ◌>>=◌, ◌>>◌, fail_if,
  ok_or,
}
use hyperion_x_emv.State.Marks.{mark}
use hyperion_x_emv.State.Tvr
use hyperion_x_emv.State.Tvr.{Tvr}
use hyperion_x_emv.State.Tsi
use hyperion_x_emv.State.Tsi.{Tsi}

abbrev pub max_transaction_type_floor_limits : ℕ
max_transaction_type_floor_limits = 16

pub record TransactionTypeFloorLimit : Type 0 where
  pub transaction_type : ℕ
  pub floor_limit : ℕ

pub record TrmProfile : Type 0 where
  pub floor_limit : ℕ
  pub transaction_type_floor_limits : List TransactionTypeFloorLimit
  pub random_selection_percent : ℕ
  pub lower_consecutive_offline_limit : Option ℕ
  pub upper_consecutive_offline_limit : Option ℕ

-- The loop over the limits: one of them has the transaction type of a prior one.
unfoldable pub repeats_type : List TransactionTypeFloorLimit → List TransactionTypeFloorLimit → Bool
repeats_type prior [] = false
repeats_type prior (limit ∷ limits) =
    any (λ p. p.transaction_type == limit.transaction_type) prior
    || repeats_type (prior ++ (limit ∷ [])) limits

-- `if let (Some(lower), Some(upper)) = … { lower > upper }`, and the same test for a counter.
unfoldable pub exceeds : Option ℕ → Option ℕ → Bool
exceeds (some a) (some b) = ltb b a
exceeds _ _ = false

unfoldable pub with_transaction_type_floor_limits :
    ℕ → List TransactionTypeFloorLimit → ℕ → Option ℕ → Option ℕ → Option TrmProfile
unfolding repeats_type exceeds
with_transaction_type_floor_limits limit limits percent lower upper =
    if ltb 100 percent
    then none
    else if ltb max_transaction_type_floor_limits (length limits)
    then none
    else if repeats_type [] limits
    then none
    else if exceeds lower upper
    then none
    else some (record {
      floor_limit = limit;
      transaction_type_floor_limits = limits;
      random_selection_percent = percent;
      lower_consecutive_offline_limit = lower;
      upper_consecutive_offline_limit = upper;
    })

unfoldable pub new : ℕ → ℕ → Option ℕ → Option ℕ → Option TrmProfile
unfolding with_transaction_type_floor_limits
new limit percent lower upper = with_transaction_type_floor_limits limit [] percent lower upper

-- The search of `floor_limit_for_transaction_type`, with the limit that stands for no match.
unfoldable pub floor_limit_from : ℕ → List TransactionTypeFloorLimit → ℕ → ℕ
floor_limit_from otherwise [] transaction_type = otherwise
floor_limit_from otherwise (limit ∷ limits) transaction_type =
    if limit.transaction_type == transaction_type
    then limit.floor_limit
    else floor_limit_from otherwise limits transaction_type

unfoldable pub floor_limit_for_transaction_type : TrmProfile → ℕ → ℕ
unfolding floor_limit_from
floor_limit_for_transaction_type profile transaction_type =
    floor_limit_from profile.floor_limit profile.transaction_type_floor_limits transaction_type

unfoldable pub requires_terminal_offline_counter : TrmProfile → Bool
requires_terminal_offline_counter profile =
    is_some profile.lower_consecutive_offline_limit
    || is_some profile.upper_consecutive_offline_limit

pub data OfflineCounterSource : Type 0 where
  non_volatile volatile : OfflineCounterSource

pub record OfflineCounter : Type 0 where
  pub count : ℕ
  pub source : OfflineCounterSource

pub record TrmInput : Type 0 where
  pub amount_authorized : ℕ
  pub transaction_type : ℕ
  pub exception_file_match : Bool
  pub merchant_forced_online : Bool
  pub offline_counter : Option OfflineCounter
  pub random_sample_basis_points : Option ℕ
  pub profile : TrmProfile

pub record TrmResult : Type 0 where
  pub tvr : Tvr
  pub tsi : Tsi
  pub force_online : Bool

abbrev pub is_volatile : OfflineCounterSource → Bool
is_volatile OfflineCounterSource.volatile = true
is_volatile OfflineCounterSource.non_volatile = false

unfoldable pub offline_count_for_profile :
    TrmProfile → Option OfflineCounter → KernelResult (Option ℕ)
unfolding requires_terminal_offline_counter
offline_count_for_profile profile offline_counter =
    let required = do
      counter ← ok_or offline_counter KernelError.invalid_profile
      fail_if (is_volatile counter.source) KernelError.invalid_profile
      okay (some counter.count)
    in if not (requires_terminal_offline_counter profile) then okay none else required

-- `percent as u16 * 100` is at most 25500.
unfoldable pub random_selection_triggered : ℕ → Option ℕ → KernelResult Bool
unfolding exceeds
random_selection_triggered percent sample_basis_points =
    let sampled = do
      sample ← ok_or sample_basis_points KernelError.invalid_profile
      okay (ltb sample (percent * 100))
    in if exceeds sample_basis_points (some 9999)
      then err KernelError.invalid_profile
      else if percent == 0
      then okay false
      else sampled

unfoldable pub evaluate : TrmInput → Tvr → Tsi → KernelResult TrmResult
unfolding offline_count_for_profile floor_limit_for_transaction_type exceeds
    random_selection_triggered mark
evaluate input tvr tsi = do
  offline_count ← offline_count_for_profile input.profile input.offline_counter
  let limit = floor_limit_for_transaction_type input.profile input.transaction_type
  let s1 = mark input.exception_file_match Tvr.b1_card_on_exception_file (tvr, false)
  let s2 = mark (ltb limit input.amount_authorized) Tvr.b4_floor_limit_exceeded s1
  let s3 =
      mark (exceeds offline_count input.profile.lower_consecutive_offline_limit)
        Tvr.b4_lower_consecutive_offline_limit_exceeded s2
  let s4 =
      mark (exceeds offline_count input.profile.upper_consecutive_offline_limit)
        Tvr.b4_upper_consecutive_offline_limit_exceeded s3
  triggered ←
      random_selection_triggered input.profile.random_selection_percent
        input.random_sample_basis_points
  let s5 = mark triggered Tvr.b4_random_transaction_selection_performed s4
  let s6 = mark input.merchant_forced_online Tvr.b4_merchant_forced_transaction_online s5
  okay (record {
    tvr = s6.0;
    tsi = Tsi.set tsi Tsi.terminal_risk_management_performed;
    force_online = s6.1;
  })
