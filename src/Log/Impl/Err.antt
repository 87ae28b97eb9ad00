-- ===== src/Log/Impl/Err.antt =====
-- logimpl_t.rs: `LogErr`. Its case for errors of the file back ends is not in the model.
use verified_storage.Base.{ℕ}

pub data LogErr : Type 0 where
  insufficient_space_for_setup : ℕ → LogErr
  start_failed_due_to_log_id_mismatch : ℕ → ℕ → LogErr
  start_failed_due_to_region_size_mismatch : ℕ → ℕ → LogErr
  start_failed_due_to_program_version_number_unsupported : ℕ → ℕ → LogErr
  start_failed_due_to_invalid_memory_contents : LogErr
  crc_mismatch : LogErr
  insufficient_space_for_append : ℕ → LogErr
  cant_read_before_head : ℕ → LogErr
  cant_read_past_tail : ℕ → LogErr
  cant_advance_head_position_before_head : ℕ → LogErr
  cant_advance_head_position_beyond_tail : ℕ → LogErr
