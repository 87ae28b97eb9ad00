-- ===== src/Multilog/Setup.antt =====
-- setup_v.rs of the multilog, and `setup` of multilogimpl_v.rs: making regions hold empty logs.
pub mod Parse
pub mod Correct
pub mod All
pub mod Result
use verified_storage.Base.{
  ℕ, suc, ◌+◌, false, ltb, if◌then◌else◌, List, [], ◌∷◌, map, length, sub64, Outcome, ok, err,
}
use verified_storage.Pmem.Bytes.{spec_u64_to_le_bytes}
use verified_storage.Pmem.View.{Region, write}
use verified_storage.Pmem.Medium.{Medium, cdb_value}
use verified_storage.Pmem.Regions.{flush_regions}
use verified_storage.Log.Layout.{
  GlobalMetadata, LogMetadata, serialize_global, serialize_log, absolute_pos_of_global_metadata,
  absolute_pos_of_global_crc, absolute_pos_of_log_area, min_log_area_size,
  log_program_version_number,
}
use verified_storage.Log.Recover.{crc_global, crc_log}
use verified_storage.Multilog.Layout.{
  RegionMetadata, serialize_region, absolute_pos_of_region_metadata, length_of_region_metadata,
  absolute_pos_of_region_crc, absolute_pos_of_log_cdb, absolute_pos_of_log_metadata_for_cdb_false,
  absolute_pos_of_log_crc_for_cdb_false, multilog_program_guid,
}
use verified_storage.Multilog.Recover.{crc_region}
use verified_storage.Multilog.Impl.Err.{
  MultiLogErr, insufficient_space_for_setup, cant_setup_with_fewer_than_one_region,
  cant_setup_with_more_than_u32_max_regions,
}

-- The loop of `check_for_required_space`, over the sizes of the regions from an index on.
unfoldable pub check_for_required_space : List ℕ → ℕ → Outcome MultiLogErr (Unit {0})
check_for_required_space [] which_log = ok tt
check_for_required_space (size ∷ region_sizes) which_log =
    let rest = check_for_required_space region_sizes (suc which_log) in
    if ltb size (absolute_pos_of_log_area + min_log_area_size)
    then err (insufficient_space_for_setup which_log (absolute_pos_of_log_area + min_log_area_size))
    else rest

abbrev pub compute_log_capacities : List ℕ → List ℕ
compute_log_capacities region_sizes = map (λ size. sub64 size absolute_pos_of_log_area) region_sizes

abbrev pub new_global_metadata : GlobalMetadata
new_global_metadata = record {
  version_number = log_program_version_number;
  length_of_region_metadata = length_of_region_metadata;
  program_guid = multilog_program_guid;
}

abbrev pub new_region_metadata : ℕ → ℕ → ℕ → ℕ → RegionMetadata
new_region_metadata region_size multilog_id num_logs which_log = record {
  num_logs = num_logs;
  which_log = which_log;
  padding = 0;
  region_size = region_size;
  log_area_len = sub64 region_size absolute_pos_of_log_area;
  multilog_id = multilog_id;
}

abbrev pub new_log_metadata : LogMetadata
new_log_metadata = record { log_length = 0; padding = 0; head = 0 }

module _ (m : Medium) where
  -- Its writes go to the region of the index.
  unfoldable pub write_setup_metadata_to_single_region : Region → ℕ → ℕ → ℕ → ℕ → Region
  write_setup_metadata_to_single_region r region_size multilog_id num_logs which_log =
      let region_metadata = new_region_metadata region_size multilog_id num_logs which_log in
      let r₁ = write r absolute_pos_of_global_metadata (serialize_global new_global_metadata) in
      let r₂ =
        write r₁ absolute_pos_of_global_crc
          (spec_u64_to_le_bytes (crc_global m new_global_metadata)) in
      let r₃ = write r₂ absolute_pos_of_region_metadata (serialize_region region_metadata) in
      let r₄ =
        write r₃ absolute_pos_of_region_crc (spec_u64_to_le_bytes (crc_region m region_metadata)) in
      let r₅ = write r₄ absolute_pos_of_log_cdb (spec_u64_to_le_bytes (cdb_value false)) in
      let r₆ =
        write r₅ absolute_pos_of_log_metadata_for_cdb_false (serialize_log new_log_metadata) in
      write r₆ absolute_pos_of_log_crc_for_cdb_false
        (spec_u64_to_le_bytes (crc_log m new_log_metadata))

  -- The loop of `write_setup_metadata_to_all_regions`, over the regions from an index on, whose
  -- sizes `region_sizes` are their lengths.
  unfoldable pub write_setup_metadata_to_regions : List Region → ℕ → ℕ → ℕ → List Region
  write_setup_metadata_to_regions [] multilog_id num_logs which_log = []
  write_setup_metadata_to_regions (r ∷ rs) multilog_id num_logs which_log =
      write_setup_metadata_to_single_region r r.len multilog_id num_logs which_log
      ∷ write_setup_metadata_to_regions rs multilog_id num_logs (suc which_log)

  unfoldable pub write_setup_metadata_to_all_regions : List Region → ℕ → List Region
  write_setup_metadata_to_all_regions rs multilog_id =
      flush_regions (write_setup_metadata_to_regions rs multilog_id (length rs) 0)

  unfoldable pub setup : List Region → ℕ → Outcome MultiLogErr (List ℕ) × List Region
  setup rs multilog_id =
      let rs' = flush_regions rs in
      let region_sizes = map (λ (r : Region). r.len) rs' in
      let num_regions = length region_sizes in
      if ltb num_regions 1
      then (err cant_setup_with_fewer_than_one_region, rs')
      else if ltb 0xffff_ffff num_regions
      then (err cant_setup_with_more_than_u32_max_regions, rs')
      else elim (check_for_required_space region_sizes 0) [
        | err e ↦ (err e, rs')
        | ok done ↦ (
          ok (compute_log_capacities region_sizes),
          write_setup_metadata_to_all_regions rs' multilog_id,
        )
      ]
