-- ===== src/Multilog/Tests.antt =====
-- A multilog of two regions of 260 bytes; the theorems hold of it.
mod Fixtures
mod Bytes
mod Calls
mod Recovery
mod Durable
use verified_storage.Base.{ℕ, ◌≡◌, refl, Bool, false, some, List, [], ◌∷◌, ◌++◌, get_or, arith}
use verified_storage.Pmem.Bytes.{to_le_bytes, from_le_bytes}
use verified_storage.Pmem.View.{Mem, extract_bytes}
use verified_storage.Pmem.Medium.{cdb_value}
use verified_storage.Log.Layout.{
  GlobalMetadata, LogMetadata, serialize_global, serialize_log, deserialize_global, deserialize_log,
}
use verified_storage.Log.Recover.{
  crc_global, crc_log, recover_abstract_log_from_region_given_metadata, extract_log,
}
use verified_storage.Log.Spec
use verified_storage.Multilog.Spec.{initialize}
use verified_storage.Multilog.Layout.{
  RegionMetadata, serialize_region, deserialize_region, deserialize_region_metadata,
}
use verified_storage.Multilog.Layout.Serialize.{deserialize-serialize_multilog_region}
use verified_storage.Multilog.Recover.{
  crc_region, recover_abstract_log_from_region_given_cdb, recover_regions, recover_given_cdb,
  recover_cdb, recover_all,
}
use verified_storage.Multilog.Recovered.{AreLogsOf, recover_all-AreLogsOf, recover_all_in_order}
use verified_storage.Log.Tests.Fixtures.{good_medium}

abbrev global : GlobalMetadata
global = record {
  version_number = 1;
  length_of_region_metadata = 48;
  program_guid = 0x21b8b4b3c7d140a9abf7e80c07b7f01f;
}

abbrev region : ℕ → RegionMetadata
region which_log = record {
  num_logs = 2;
  which_log = which_log;
  padding = 0;
  region_size = 260;
  log_area_len = 4;
  multilog_id = 9;
}

abbrev empty_log : LogMetadata
empty_log = record { log_length = 0; padding = 0; head = 0 }

abbrev bytes_of : ℕ → List ℕ
bytes_of which_log =
    serialize_global global
    ++ (to_le_bytes 8 (crc_global good_medium global)
        ++ (serialize_region (region which_log)
            ++ (to_le_bytes 8 (crc_region good_medium (region which_log))
                ++ (to_le_bytes 8 (cdb_value false)
                    ++ (serialize_log empty_log
                        ++ to_le_bytes 8 (crc_log good_medium empty_log))))))

abbrev mem_of : ℕ → Mem
mem_of which_log = record { len = 260; at = λ a. get_or (bytes_of which_log) a 0 }

recovered : recover_all good_medium (mem_of 0 ∷ mem_of 1 ∷ []) 9 ≡ some (initialize (4 ∷ 4 ∷ []))
unfolding recover_all recover_cdb recover_given_cdb recover_regions
    recover_abstract_log_from_region_given_cdb recover_abstract_log_from_region_given_metadata
    extract_log extract_bytes to_le_bytes from_le_bytes serialize_global serialize_region
    serialize_log deserialize_global deserialize_region deserialize_log
recovered = refl

recover_all-AreLogsOf_example :
    (cdb : Bool) × (recover_cdb good_medium (mem_of 0) ≡ some cdb)
    × AreLogsOf good_medium
        (mem_of 0 ∷ mem_of 1 ∷ [])
        9
        2
        0
        cdb
        (Spec.initialize 4 ∷ Spec.initialize 4 ∷ [])
recover_all-AreLogsOf_example =
    recover_all-AreLogsOf good_medium (mem_of 0 ∷ mem_of 1 ∷ []) 9 (initialize (4 ∷ 4 ∷ []))
      recovered

recover_all_in_order_example :
    let g = deserialize_region_metadata (mem_of 1) in
    (g.multilog_id ≡ 9) × (g.num_logs ≡ 2) × (g.which_log ≡ 1)
recover_all_in_order_example =
    recover_all_in_order good_medium (mem_of 0 ∷ mem_of 1 ∷ []) 9 (initialize (4 ∷ 4 ∷ [])) 1
      recovered (omega arith)
