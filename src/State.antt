-- ===== src/State.antt =====
-- src/state.rs: the kernel's coarse state, and the bitmaps that a transaction fills.
pub mod Bitmap
pub mod Tvr
pub mod Tsi
pub mod Reserved
pub mod Reads
pub mod Marks
mod Tests

pub data KernelState : Type 0 where
  idle params_set select_environment build_candidate_list select_aid gpo : KernelState
  read_records offline_data_authentication processing_restrictions cvm : KernelState
  terminal_risk_management terminal_action_analysis first_generate_ac : KernelState
  online_authorization issuer_authentication issuer_scripts second_generate_ac : KernelState
  post_final_issuer_scripts final_outcome error : KernelState
