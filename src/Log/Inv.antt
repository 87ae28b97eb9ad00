-- ===== src/Log/Inv.antt =====
-- inv_v.rs: the invariant between a region, the log's volatile state and its abstract state.
pub mod Crash
pub mod Append
pub mod Update
use verified_storage.Base.{
  ℕ, ◌+◌, ◌-◌, ◌%◌, ◌≤◌, ◌<◌, ◌≡◌, Bool, none, some, length, get_or, u64_mod, u128_max,
}
use verified_storage.Pmem.View.{Region, Mem, committed, flush_byte, NoOutstandingWritesInRange}
use verified_storage.Pmem.Medium.{Medium}
use verified_storage.Log.Layout.{
  absolute_pos_of_log_area, absolute_pos_of_log_cdb, crc_size, get_log_metadata_pos,
  get_log_crc_end, min_log_area_size, log_program_guid, log_program_version_number,
  length_of_region_metadata, deserialize_global_metadata, deserialize_global_crc,
  deserialize_region_metadata, deserialize_region_crc, deserialize_log_metadata,
  deserialize_log_crc, relative_log_pos_to_log_area_offset,
}
use verified_storage.Log.Recover.{deserialize_and_check_log_cdb, crc_global, crc_region, crc_log}
use verified_storage.Log.Spec.{AbstractLogState}
use verified_storage.Log.Impl.{LogInfo, LogImpl}

-- `metadata_consistent_with_info`, its part about the committed contents
pub record MetadataConsistent (m : Medium) (mem : Mem) (log_id : ℕ) (cdb : Bool) (info : LogInfo)
    : Type 0 where
  pub global_crc : deserialize_global_crc mem ≡ crc_global m (deserialize_global_metadata mem)
  pub region_crc : deserialize_region_crc mem ≡ crc_region m (deserialize_region_metadata mem)
  pub log_crc : deserialize_log_crc mem cdb ≡ crc_log m (deserialize_log_metadata mem cdb)
  pub program_guid : (deserialize_global_metadata mem).program_guid ≡ log_program_guid
  pub version_number : (deserialize_global_metadata mem).version_number ≡ log_program_version_number
  pub length_of_region :
      (deserialize_global_metadata mem).length_of_region_metadata ≡ length_of_region_metadata
  pub region_size : (deserialize_region_metadata mem).region_size ≡ mem.len
  pub region_log_id : (deserialize_region_metadata mem).log_id ≡ log_id
  pub log_area_len : (deserialize_region_metadata mem).log_area_len ≡ info.log_area_len
  pub head : (deserialize_log_metadata mem cdb).head ≡ info.head
  pub log_length : (deserialize_log_metadata mem cdb).log_length ≡ info.log_length
  pub fits : absolute_pos_of_log_area + info.log_area_len ≤ mem.len

-- The address of a position relative to the head.
abbrev pub log_addr : LogInfo → ℕ → ℕ
log_addr info pos =
    absolute_pos_of_log_area
    + relative_log_pos_to_log_area_offset pos info.head_log_area_offset info.log_area_len

-- `info_consistent_with_log_area`, its part about the volatile state alone
pub record InfoValid (info : LogInfo) : Type 0 where
  pub area : min_log_area_size ≤ info.log_area_len
  pub log_le : info.log_length ≤ info.log_plus_pending_length
  pub pending_le : info.log_plus_pending_length ≤ info.log_area_len
  pub offset : info.head_log_area_offset ≡ info.head % info.log_area_len
  pub tail_fits : info.head + info.log_plus_pending_length ≤ u128_max

-- The volatile state describes an abstract log.
pub record Describes (info : LogInfo) (s : AbstractLogState) : Type 0 where
  pub log_len : length s.log ≡ info.log_length
  pub pending_len : length s.pending ≡ info.log_plus_pending_length - info.log_length
  pub head : s.head ≡ info.head
  pub capacity : s.capacity ≡ info.log_area_len

-- The log area holds it: the log is settled, appends may be outstanding, the rest is settled.
pub record AreaHolds (r : Region) (info : LogInfo) (s : AbstractLogState) : Type 0 where
  pub log_bytes :
      (pos : ℕ)
      → pos < info.log_length
      → (r.state (log_addr info pos)).state_at_last_flush ≡ get_or s.log pos 0
  pub log_settled :
      (pos : ℕ) → pos < info.log_length → (r.state (log_addr info pos)).outstanding_write ≡ none
  pub pending_bytes :
      (pos : ℕ)
      → info.log_length ≤ pos
      → pos < info.log_plus_pending_length
      → flush_byte (r.state (log_addr info pos)) ≡ get_or s.pending (pos - info.log_length) 0
  pub free_settled :
      (pos : ℕ)
      → info.log_plus_pending_length ≤ pos
      → pos < info.log_area_len
      → (r.state (log_addr info pos)).outstanding_write ≡ none

-- What recovery relies on: `memory_matches_deserialized_cdb`, `metadata_consistent_with_info` and
-- `info_consistent_with_log_area`.
pub record IsConsistent (m : Medium) (r : Region) (log_id : ℕ) (self : LogImpl)
    (s : AbstractLogState) : Type 0 where
  pub region_fits : r.len < u64_mod
  pub low_settled : NoOutstandingWritesInRange r 0 (absolute_pos_of_log_cdb + crc_size)
  pub active_settled :
      NoOutstandingWritesInRange r (get_log_metadata_pos self.cdb) (get_log_crc_end self.cdb)
  pub cdb : deserialize_and_check_log_cdb (committed r) ≡ some self.cdb
  pub metadata : MetadataConsistent m (committed r) log_id self.cdb self.info
  pub info : InfoValid self.info
  pub describes : Describes self.info s
  pub area : AreaHolds r self.info s

-- `UntrustedLogImpl::inv`. That the region can only crash as the abstract state without its
-- pending appends follows (`Inv.Crash`).
pub record IsValid (m : Medium) (r : Region) (log_id : ℕ) (self : LogImpl) (s : AbstractLogState)
    : Type 0 where
  pub metadata_settled : NoOutstandingWritesInRange r 0 absolute_pos_of_log_area
  pub consistent : IsConsistent m r log_id self s
  pub open consistent use *
