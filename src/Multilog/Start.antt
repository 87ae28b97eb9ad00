-- ===== src/Multilog/Start.antt =====
-- start_v.rs of the multilog, and `start` of multilogimpl_v.rs: reading the metadata back after a
-- restart.
pub mod Inversion
pub mod Stages
pub mod Recovery
use verified_storage.Base.{
  ℕ, suc, ◌+◌, ◌%◌, Bool, not, ltb, ◌==◌, if◌then◌else◌, some, none, Outcome, ok, err, ◌>>=◌,
  u128_max, sub128, sub64, List, [], ◌∷◌, length,
}
use verified_storage.Pmem.View.{Region}
use verified_storage.Pmem.Medium.{Medium}
use verified_storage.Pmem.Regions.{WrpmRegions, region_at, in_region}
use verified_storage.Pmem.Regions
use verified_storage.Log.Layout.{
  serialize_global, serialize_log, deserialize_global, deserialize_log,
  absolute_pos_of_global_metadata, absolute_pos_of_global_crc, absolute_pos_of_log_area,
  min_log_area_size, length_of_global_metadata, length_of_log_metadata, log_program_version_number,
}
use verified_storage.Log.Recover.{check_cdb}
use verified_storage.Log.Impl.{LogInfo, read_bytes}
use verified_storage.Log.Start.{read_u64, check_crc_deserialized}
use verified_storage.Multilog.Layout.{
  serialize_region, deserialize_region, absolute_pos_of_region_metadata, length_of_region_metadata,
  absolute_pos_of_region_crc, absolute_pos_of_log_cdb, get_log_metadata_pos,
  absolute_pos_of_log_crc_for_cdb_false, absolute_pos_of_log_crc_for_cdb_true,
  multilog_program_guid,
}
use verified_storage.Multilog.Impl.{MultiLogImpl}
use verified_storage.Multilog.Impl.Err.{
  MultiLogErr, crc_mismatch, start_failed_due_to_invalid_memory_contents,
  start_failed_due_to_program_version_number_unsupported, start_failed_due_to_multilog_id_mismatch,
  start_failed_due_to_region_size_mismatch, cant_setup_with_fewer_than_one_region,
  cant_setup_with_more_than_u32_max_regions,
}

-- Reads of one region; `which_log` is its index.
module _ (m : Medium) (r : Region) where
  unfoldable pub read_cdb : Outcome MultiLogErr Bool
  read_cdb = elim (check_cdb (read_u64 m r absolute_pos_of_log_cdb)) [
    | some b ↦ ok b
    | none ↦ err crc_mismatch
  ]

  -- The first part of `read_log_variables`: the global metadata.
  unfoldable pub read_global_metadata : ℕ → Outcome MultiLogErr (Unit {0})
  read_global_metadata which_log =
      let global_metadata =
        deserialize_global
          (read_bytes m r absolute_pos_of_global_metadata length_of_global_metadata) in
      let global_crc = read_u64 m r absolute_pos_of_global_crc in
      if ltb r.len (absolute_pos_of_log_area + min_log_area_size)
      then err (start_failed_due_to_invalid_memory_contents which_log)
      else if not (check_crc_deserialized m r (serialize_global global_metadata) global_crc)
      then err crc_mismatch
      else if not (global_metadata.program_guid == multilog_program_guid)
      then err (start_failed_due_to_invalid_memory_contents which_log)
      else if not (global_metadata.version_number == log_program_version_number)
      then err (
          start_failed_due_to_program_version_number_unsupported which_log
            global_metadata.version_number log_program_version_number)
      else if not (global_metadata.length_of_region_metadata == length_of_region_metadata)
      then err (start_failed_due_to_invalid_memory_contents which_log)
      else ok tt

  -- The second part: the region metadata, of which the length of the log area goes on.
  unfoldable pub read_region_metadata : ℕ → ℕ → ℕ → Outcome MultiLogErr ℕ
  read_region_metadata multilog_id num_logs which_log =
      let region_metadata =
        deserialize_region
          (read_bytes m r absolute_pos_of_region_metadata length_of_region_metadata) in
      let region_crc = read_u64 m r absolute_pos_of_region_crc in
      if not (check_crc_deserialized m r (serialize_region region_metadata) region_crc)
      then err crc_mismatch
      else if not (region_metadata.region_size == r.len)
      then err
          (start_failed_due_to_region_size_mismatch which_log r.len region_metadata.region_size)
      else if not (region_metadata.multilog_id == multilog_id)
      then err (
          start_failed_due_to_multilog_id_mismatch which_log multilog_id
            region_metadata.multilog_id)
      else if not (region_metadata.num_logs == num_logs)
      then err (start_failed_due_to_invalid_memory_contents which_log)
      else if not (region_metadata.which_log == which_log)
      then err (start_failed_due_to_invalid_memory_contents which_log)
      else if ltb r.len region_metadata.log_area_len
      then err (start_failed_due_to_invalid_memory_contents which_log)
      else if ltb (sub64 r.len region_metadata.log_area_len) absolute_pos_of_log_area
      then err (start_failed_due_to_invalid_memory_contents which_log)
      else if ltb region_metadata.log_area_len min_log_area_size
      then err (start_failed_due_to_invalid_memory_contents which_log)
      else ok region_metadata.log_area_len

  -- The third part: the log metadata that the boolean selects.
  unfoldable pub read_log_metadata : Bool → ℕ → ℕ → Outcome MultiLogErr LogInfo
  read_log_metadata cdb which_log log_area_len =
      let log_metadata =
        deserialize_log (read_bytes m r (get_log_metadata_pos cdb) length_of_log_metadata) in
      let log_crc_pos : ℕ =
        if cdb
        then absolute_pos_of_log_crc_for_cdb_true
        else absolute_pos_of_log_crc_for_cdb_false in
      let log_crc = read_u64 m r log_crc_pos in
      if not (check_crc_deserialized m r (serialize_log log_metadata) log_crc)
      then err crc_mismatch
      else if ltb log_area_len log_metadata.log_length
      then err (start_failed_due_to_invalid_memory_contents which_log)
      else if ltb (sub128 u128_max log_metadata.head) log_metadata.log_length
      then err (start_failed_due_to_invalid_memory_contents which_log)
      else ok (record {
        log_area_len = log_area_len;
        head = log_metadata.head;
        head_log_area_offset = log_metadata.head % log_area_len;
        log_length = log_metadata.log_length;
        log_plus_pending_length = log_metadata.log_length;
      })

  unfoldable pub read_log_variables : ℕ → Bool → ℕ → ℕ → Outcome MultiLogErr LogInfo
  read_log_variables multilog_id cdb num_logs which_log = do
    _ ← read_global_metadata which_log
    log_area_len ← read_region_metadata multilog_id num_logs which_log
    read_log_metadata cdb which_log log_area_len

module _ (m : Medium) where
  -- The loop of `read_logs_variables`, over the regions from an index on.
  unfoldable pub read_logs_variables :
      List Region → ℕ → Bool → ℕ → ℕ → Outcome MultiLogErr (List LogInfo)
  read_logs_variables [] multilog_id cdb num_regions which_log = ok []
  read_logs_variables (r ∷ rs) multilog_id cdb num_regions which_log = do
    info ← read_log_variables (in_region m which_log) r multilog_id cdb num_regions which_log
    infos ← read_logs_variables rs multilog_id cdb num_regions (suc which_log)
    ok (info ∷ infos)

  unfoldable pub start : WrpmRegions → ℕ → Outcome MultiLogErr MultiLogImpl × WrpmRegions
  start ws multilog_id =
      let ws' = Regions.flush ws in
      let rs = ws'.pm_regions in
      let num_regions = length rs in
      if ltb num_regions 1
      then (err cant_setup_with_fewer_than_one_region, ws')
      else if ltb 0xffff_ffff num_regions
      then (err cant_setup_with_more_than_u32_max_regions, ws')
      else (
        (do
          cdb ← read_cdb (in_region m 0) (region_at rs 0)
          infos ← read_logs_variables rs multilog_id cdb num_regions 0
          ok (record { num_logs = num_regions; cdb = cdb; infos = infos })),
        ws',
      )
