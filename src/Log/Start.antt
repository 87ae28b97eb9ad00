-- ===== src/Log/Start.antt =====
-- start_v.rs, and `start` of logimpl_v.rs: reading the metadata back after a restart.
pub mod Checks
pub mod Inversion
pub mod Stages
pub mod Bounds
pub mod Held
pub mod Recovery
use verified_storage.Base.{
  ℕ, ◌+◌, ◌-◌, ◌%◌, Bool, true, false, not, ltb, ◌==◌, if◌then◌else◌, some, none, Outcome, ok, err,
  ◌>>=◌, u128_max, sub128, sub64, List,
}
use verified_storage.Pmem.Bytes.{from_le_bytes}
use verified_storage.Pmem.View.{Region}
use verified_storage.Pmem.Medium.{Medium}
use verified_storage.Pmem.Wrpm
use verified_storage.Pmem.Wrpm.{Wrpm}
use verified_storage.Log.Layout.{
  GlobalMetadata, RegionMetadata, LogMetadata, serialize_global, serialize_region, serialize_log,
  deserialize_global, deserialize_region, deserialize_log, absolute_pos_of_global_metadata,
  absolute_pos_of_global_crc, absolute_pos_of_region_metadata, absolute_pos_of_region_crc,
  absolute_pos_of_log_cdb, absolute_pos_of_log_area, min_log_area_size, crc_size,
  length_of_global_metadata, length_of_region_metadata, length_of_log_metadata, log_program_guid,
  log_program_version_number, get_log_metadata_pos, get_log_crc_pos,
}
use verified_storage.Log.Recover.{check_cdb}
use verified_storage.Log.Impl.{LogInfo, LogImpl, read_bytes}
use verified_storage.Log.Impl.Err.{
  LogErr, crc_mismatch, start_failed_due_to_invalid_memory_contents,
  start_failed_due_to_program_version_number_unsupported, start_failed_due_to_log_id_mismatch,
  start_failed_due_to_region_size_mismatch,
}

module _ (m : Medium) (r : Region) where
  -- `read_and_deserialize::<u64>`
  unfoldable pub read_u64 : ℕ → ℕ
  read_u64 addr = from_le_bytes (read_bytes m r addr crc_size)

  unfoldable pub read_cdb : Outcome LogErr Bool
  read_cdb = elim (check_cdb (read_u64 absolute_pos_of_log_cdb)) [
    | some b ↦ ok b
    | none ↦ err crc_mismatch
  ]

  -- `check_crc_deserialized`: the bytes of the value that was read have the CRC that was read.
  abbrev pub check_crc_deserialized : List ℕ → ℕ → Bool
  check_crc_deserialized serialized crc = crc == m.crc serialized

  -- The first part of `read_log_variables`: the global metadata.
  unfoldable pub read_global_metadata : Outcome LogErr (Unit {0})
  read_global_metadata =
      let global_metadata =
        deserialize_global
          (read_bytes m r absolute_pos_of_global_metadata length_of_global_metadata) in
      let global_crc = read_u64 absolute_pos_of_global_crc in
      if ltb r.len (absolute_pos_of_log_area + min_log_area_size)
      then err start_failed_due_to_invalid_memory_contents
      else if not (check_crc_deserialized (serialize_global global_metadata) global_crc)
      then err crc_mismatch
      else if not (global_metadata.program_guid == log_program_guid)
      then err start_failed_due_to_invalid_memory_contents
      else if not (global_metadata.version_number == log_program_version_number)
      then err (
          start_failed_due_to_program_version_number_unsupported global_metadata.version_number
            log_program_version_number)
      else if not (global_metadata.length_of_region_metadata == length_of_region_metadata)
      then err start_failed_due_to_invalid_memory_contents
      else ok tt

  -- The second part: the region metadata, of which the length of the log area goes on.
  unfoldable pub read_region_metadata : ℕ → Outcome LogErr ℕ
  read_region_metadata log_id =
      let region_metadata =
        deserialize_region
          (read_bytes m r absolute_pos_of_region_metadata length_of_region_metadata) in
      let region_crc = read_u64 absolute_pos_of_region_crc in
      if not (check_crc_deserialized (serialize_region region_metadata) region_crc)
      then err crc_mismatch
      else if not (region_metadata.region_size == r.len)
      then err (start_failed_due_to_region_size_mismatch r.len region_metadata.region_size)
      else if not (region_metadata.log_id == log_id)
      then err (start_failed_due_to_log_id_mismatch log_id region_metadata.log_id)
      else if ltb r.len region_metadata.log_area_len
      then err start_failed_due_to_invalid_memory_contents
      else if ltb (sub64 r.len region_metadata.log_area_len) absolute_pos_of_log_area
      then err start_failed_due_to_invalid_memory_contents
      else if ltb region_metadata.log_area_len min_log_area_size
      then err start_failed_due_to_invalid_memory_contents
      else ok region_metadata.log_area_len

  -- The third part: the log metadata that the boolean selects.
  unfoldable pub read_log_metadata : Bool → ℕ → Outcome LogErr LogInfo
  read_log_metadata cdb log_area_len =
      let log_metadata =
        deserialize_log (read_bytes m r (get_log_metadata_pos cdb) length_of_log_metadata) in
      let log_crc = read_u64 (get_log_crc_pos cdb) in
      if not (check_crc_deserialized (serialize_log log_metadata) log_crc)
      then err crc_mismatch
      else if ltb log_area_len log_metadata.log_length
      then err start_failed_due_to_invalid_memory_contents
      else if ltb (sub128 u128_max log_metadata.head) log_metadata.log_length
      then err start_failed_due_to_invalid_memory_contents
      else ok (record {
        log_area_len = log_area_len;
        head = log_metadata.head;
        head_log_area_offset = log_metadata.head % log_area_len;
        log_length = log_metadata.log_length;
        log_plus_pending_length = log_metadata.log_length;
      })

  unfoldable pub read_log_variables : ℕ → Bool → Outcome LogErr LogInfo
  read_log_variables log_id cdb = do
    _ ← read_global_metadata
    log_area_len ← read_region_metadata log_id
    read_log_metadata cdb log_area_len

module _ (m : Medium) where
  unfoldable pub start : Wrpm → ℕ → Outcome LogErr LogImpl × Wrpm
  start w log_id =
      let w' = Wrpm.flush w in
      let r = w'.pm_region in
      (
        (do
          cdb ← read_cdb m r
          info ← read_log_variables m r log_id cdb
          ok (record { cdb = cdb; info = info })),
        w',
      )
