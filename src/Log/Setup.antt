-- ===== src/Log/Setup.antt =====
-- setup_v.rs, and `setup` of logimpl_v.rs: making a region hold an empty log.
pub mod Parse
pub mod Correct
use verified_storage.Base.{
  ℕ, ◌+◌, ◌-◌, Bool, true, false, ltb, if◌then◌else◌, List, sub64, Outcome, ok, err,
}
use verified_storage.Pmem.Bytes.{spec_u64_to_le_bytes}
use verified_storage.Pmem.View.{Region, write, flush}
use verified_storage.Pmem.Medium.{Medium, cdb_value}
use verified_storage.Log.Layout.{
  GlobalMetadata, RegionMetadata, LogMetadata, serialize_global, serialize_region, serialize_log,
  absolute_pos_of_global_metadata, absolute_pos_of_global_crc, absolute_pos_of_region_metadata,
  absolute_pos_of_region_crc, absolute_pos_of_log_cdb, absolute_pos_of_log_metadata_for_cdb_false,
  absolute_pos_of_log_crc_for_cdb_false, absolute_pos_of_log_area, min_log_area_size,
  length_of_region_metadata, log_program_guid, log_program_version_number,
}
use verified_storage.Log.Recover.{crc_global, crc_region, crc_log}
use verified_storage.Log.Impl.Err.{LogErr, insufficient_space_for_setup}

abbrev pub new_global_metadata : GlobalMetadata
new_global_metadata = record {
  version_number = log_program_version_number;
  length_of_region_metadata = length_of_region_metadata;
  program_guid = log_program_guid;
}

abbrev pub new_region_metadata : ℕ → ℕ → RegionMetadata
new_region_metadata region_size log_id = record {
  region_size = region_size;
  log_area_len = sub64 region_size absolute_pos_of_log_area;
  log_id = log_id;
}

abbrev pub new_log_metadata : LogMetadata
new_log_metadata = record { log_length = 0; padding = 0; head = 0 }

module _ (m : Medium) where
  unfoldable pub write_setup_metadata_to_region : Region → ℕ → ℕ → Region
  write_setup_metadata_to_region r region_size log_id =
      let region_metadata = new_region_metadata region_size log_id in
      let r₁ = write r absolute_pos_of_global_metadata (serialize_global new_global_metadata) in
      let r₂ =
        write r₁ absolute_pos_of_global_crc
          (spec_u64_to_le_bytes (crc_global m new_global_metadata)) in
      let r₃ = write r₂ absolute_pos_of_region_metadata (serialize_region region_metadata) in
      let r₄ =
        write r₃ absolute_pos_of_region_crc (spec_u64_to_le_bytes (crc_region m region_metadata)) in
      let r₅ = write r₄ absolute_pos_of_log_cdb (spec_u64_to_le_bytes (cdb_value false)) in
      let r₆ =
        write r₅ absolute_pos_of_log_metadata_for_cdb_false (serialize_log new_log_metadata) in
      write r₆ absolute_pos_of_log_crc_for_cdb_false
        (spec_u64_to_le_bytes (crc_log m new_log_metadata))

  unfoldable pub write_setup_metadata : Region → ℕ → ℕ → Region
  write_setup_metadata r region_size log_id =
      flush (write_setup_metadata_to_region r region_size log_id)

  unfoldable pub setup : Region → ℕ → Outcome LogErr ℕ × Region
  setup r log_id =
      let r' = flush r in
      let region_size = r'.len in
      if ltb region_size (absolute_pos_of_log_area + min_log_area_size)
      then (err (insufficient_space_for_setup (absolute_pos_of_log_area + min_log_area_size)), r')
      else (let log_capacity = sub64 region_size absolute_pos_of_log_area in
          (ok log_capacity, write_setup_metadata r' region_size log_id))
