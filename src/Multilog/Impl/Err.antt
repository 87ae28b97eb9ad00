-- ===== src/Multilog/Impl/Err.antt =====
-- multilogimpl_t.rs: `MultiLogErr`. Its case for errors of the file back ends is not in the model.
use verified_storage.Base.{ℕ}

pub data MultiLogErr : Type 0 where
  cant_setup_with_fewer_than_one_region : MultiLogErr
  cant_setup_with_more_than_u32_max_regions : MultiLogErr
  insufficient_space_for_setup : ℕ → ℕ → MultiLogErr
  start_failed_due_to_multilog_id_mismatch : ℕ → ℕ → ℕ → MultiLogErr
  start_failed_due_to_region_size_mismatch : ℕ → ℕ → ℕ → MultiLogErr
  start_failed_due_to_program_version_number_unsupported : ℕ → ℕ → ℕ → MultiLogErr
  start_failed_due_to_invalid_memory_contents : ℕ → MultiLogErr
  crc_mismatch : MultiLogErr
  invalid_log_index : MultiLogErr
  insufficient_space_for_append : ℕ → MultiLogErr
  cant_read_before_head : ℕ → MultiLogErr
  cant_read_past_tail : ℕ → MultiLogErr
  cant_advance_head_position_before_head : ℕ → MultiLogErr
  cant_advance_head_position_beyond_tail : ℕ → MultiLogErr
