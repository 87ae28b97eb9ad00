-- ===== src/Multilog/Inv.antt =====
-- inv_v.rs of the multilog: the invariant between the regions, the multilog's volatile state and
-- its abstract state.
pub mod Crash
pub mod Update
pub mod Append
use verified_storage.Base.{ℕ, ◌+◌, ◌≤◌, ◌<◌, ◌≡◌, Bool, some, List, length, get_or, u64_mod}
use verified_storage.Pmem.View.{Region, Mem, committed, NoOutstandingWritesInRange}
use verified_storage.Pmem.Medium.{Medium}
use verified_storage.Pmem.Regions.{region_at}
use verified_storage.Log.Layout.{
  absolute_pos_of_log_area, crc_size, length_of_log_metadata, log_program_version_number,
  deserialize_global_metadata, deserialize_global_crc,
}
use verified_storage.Log.Recover.{check_cdb, crc_global, crc_log}
use verified_storage.Log.Spec.{AbstractLogState}
use verified_storage.Log.Spec
use verified_storage.Log.Impl.{LogInfo}
use verified_storage.Log.Inv.{InfoValid, Describes, AreaHolds}
use verified_storage.Multilog.Layout.{
  absolute_pos_of_log_cdb, get_log_metadata_pos, multilog_program_guid, length_of_region_metadata,
  deserialize_region_metadata, deserialize_region_crc, deserialize_log_cdb,
  deserialize_log_metadata, deserialize_log_crc,
}
use verified_storage.Multilog.Recover.{crc_region}
use verified_storage.Multilog.Spec.{AbstractMultiLogState, log_at, num_logs}
use verified_storage.Multilog.Impl.{MultiLogImpl, info_at}

-- Which multilog and which of its logs a region belongs to.
pub record LogName : Type 0 where
  pub multilog_id : ℕ
  pub num_logs : ℕ
  pub which_log : ℕ

-- `metadata_consistent_with_info`, its part about the committed contents
pub record MetadataConsistent (m : Medium) (mem : Mem) (name : LogName) (cdb : Bool)
    (info : LogInfo) : Type 0 where
  pub global_crc : deserialize_global_crc mem ≡ crc_global m (deserialize_global_metadata mem)
  pub region_crc : deserialize_region_crc mem ≡ crc_region m (deserialize_region_metadata mem)
  pub log_crc : deserialize_log_crc mem cdb ≡ crc_log m (deserialize_log_metadata mem cdb)
  pub program_guid : (deserialize_global_metadata mem).program_guid ≡ multilog_program_guid
  pub version_number : (deserialize_global_metadata mem).version_number ≡ log_program_version_number
  pub length_of_region :
      (deserialize_global_metadata mem).length_of_region_metadata ≡ length_of_region_metadata
  pub region_size : (deserialize_region_metadata mem).region_size ≡ mem.len
  pub region_multilog_id : (deserialize_region_metadata mem).multilog_id ≡ name.multilog_id
  pub region_num_logs : (deserialize_region_metadata mem).num_logs ≡ name.num_logs
  pub region_which_log : (deserialize_region_metadata mem).which_log ≡ name.which_log
  pub log_area_len : (deserialize_region_metadata mem).log_area_len ≡ info.log_area_len
  pub head : (deserialize_log_metadata mem cdb).head ≡ info.head
  pub log_length : (deserialize_log_metadata mem cdb).log_length ≡ info.log_length
  pub fits : absolute_pos_of_log_area + info.log_area_len ≤ mem.len

abbrev pub get_log_crc_end : Bool → ℕ
get_log_crc_end cdb = get_log_metadata_pos cdb + length_of_log_metadata + crc_size

-- `metadata_consistent_with_info` and `info_consistent_with_log_area`, of one region
pub record RegionConsistent (m : Medium) (r : Region) (name : LogName) (cdb : Bool) (info : LogInfo)
    (s : AbstractLogState) : Type 0 where
  pub region_fits : r.len < u64_mod
  pub low_settled : NoOutstandingWritesInRange r 0 absolute_pos_of_log_cdb
  pub active_settled : NoOutstandingWritesInRange r (get_log_metadata_pos cdb) (get_log_crc_end cdb)
  pub metadata : MetadataConsistent m (committed r) name cdb info
  pub info_valid : InfoValid info
  pub describes : Describes info s
  pub area : AreaHolds r info s

-- `memory_matches_deserialized_cdb`, of the first region: the boolean is settled and is this one.
pub record MatchesCdb (r : Region) (cdb : Bool) : Type 0 where
  pub cdb_settled :
      NoOutstandingWritesInRange r absolute_pos_of_log_cdb (absolute_pos_of_log_cdb + crc_size)
  pub cdb_is : check_cdb (deserialize_log_cdb (committed r)) ≡ some cdb

-- `each_metadata_consistent_with_info` and `each_info_consistent_with_log_area`
pub record EachConsistent (m : Medium) (rs : List Region) (multilog_id : ℕ) (cdb : Bool)
    (infos : List LogInfo) (s : AbstractMultiLogState) : Type 0 where
  pub regions_len : length rs ≡ num_logs s
  pub infos_len : length infos ≡ num_logs s
  pub each :
      (i : ℕ)
      → i < num_logs s
      → RegionConsistent m
          (region_at rs i)
          (record { multilog_id = multilog_id; num_logs = num_logs s; which_log = i })
          cdb
          (info_at infos i)
          (log_at s i)

-- What recovery relies on.
pub record IsConsistent (m : Medium) (rs : List Region) (multilog_id : ℕ) (cdb : Bool)
    (infos : List LogInfo) (s : AbstractMultiLogState) : Type 0 where
  pub some_logs : 0 < num_logs s
  pub few_logs : num_logs s ≤ 0xffff_ffff
  pub cdb_matches : MatchesCdb (region_at rs 0) cdb
  pub consistent : EachConsistent m rs multilog_id cdb infos s

-- `no_outstanding_writes_to_metadata`
abbrev pub MetadataSettled : List Region → Type 0
MetadataSettled rs =
    (i : ℕ) → i < length rs → NoOutstandingWritesInRange (region_at rs i) 0 absolute_pos_of_log_area

-- `UntrustedMultiLogImpl::inv`. That the regions can only crash as the abstract state without its
-- pending appends follows (`Inv.Crash`).
pub record IsValid (m : Medium) (rs : List Region) (multilog_id : ℕ) (self : MultiLogImpl)
    (s : AbstractMultiLogState) : Type 0 where
  pub num_logs_is : self.num_logs ≡ num_logs s
  pub metadata_settled : MetadataSettled rs
  pub consistent : IsConsistent m rs multilog_id self.cdb self.infos s
