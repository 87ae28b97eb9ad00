-- ===== src/Multilog/Start/Inversion.antt =====
-- What a successful recovery of a multilog says of the contents of its regions.
use verified_storage.Base.{◌%◌, ◌≡◌, Bool, some, arith}
use verified_storage.Pmem.View.{Mem}
use verified_storage.Pmem.Medium.{Medium}
use verified_storage.Log.Recover.{check_cdb, recover_abstract_log_from_region_given_metadata}
use verified_storage.Log.Spec.{AbstractLogState}
use verified_storage.Log.Impl.{LogInfo}
use verified_storage.Log.Inv.{InfoValid}
use verified_storage.Log.Start.Inversion.{state_of}
use verified_storage.Multilog.Layout.{
  deserialize_region_metadata, deserialize_log_metadata, deserialize_log_cdb,
}
use verified_storage.Multilog.Recover.{recover_cdb, recover_abstract_log_from_region_given_cdb}
use verified_storage.Multilog.Inv.{LogName, MetadataConsistent}

-- The volatile state that the metadata of a region describes.
abbrev pub info_of : Mem → Bool → LogInfo
info_of mem cdb = record {
  log_area_len = (deserialize_region_metadata mem).log_area_len;
  head = (deserialize_log_metadata mem cdb).head;
  head_log_area_offset =
      (deserialize_log_metadata mem cdb).head % (deserialize_region_metadata mem).log_area_len;
  log_length = (deserialize_log_metadata mem cdb).log_length;
  log_plus_pending_length = (deserialize_log_metadata mem cdb).log_length;
}

module _ (m : Medium) (mem : Mem) where
  pub recover_cdb_inv :
      (cdb : Bool) → recover_cdb m mem ≡ some cdb → check_cdb (deserialize_log_cdb mem) ≡ some cdb
  unfolding recover_cdb
  recover_cdb_inv cdb h = ground arith

  module _ (name : LogName) (cdb : Bool) {s : AbstractLogState}
      (h : recover_abstract_log_from_region_given_cdb m mem name.multilog_id name.num_logs
          name.which_log cdb
        ≡ some s) where
    pub recover_region_metadata : MetadataConsistent m mem name cdb (info_of mem cdb)
    unfolding recover_abstract_log_from_region_given_cdb
    recover_region_metadata = ground arith

    pub recover_region_info : InfoValid (info_of mem cdb)
    unfolding recover_abstract_log_from_region_given_cdb
        recover_abstract_log_from_region_given_metadata
    recover_region_info = ground arith

    pub recover_region_state : state_of mem (info_of mem cdb) ≡ s
    unfolding recover_abstract_log_from_region_given_cdb
        recover_abstract_log_from_region_given_metadata
    recover_region_state = ground arith
