-- ===== src/Multilog/Layout.antt =====
-- layout_v.rs of the multilog: where it differs from that of a single log, in the region metadata
-- and in the positions behind it. The global and the log metadata, which the file declares anew,
-- are those of a single log.
pub mod Serialize
use verified_storage.Base.{ℕ, ◌+◌, Bool, List, ◌++◌, if◌then◌else◌}
use verified_storage.Pmem.Bytes.{
  to_le_bytes, from_le_bytes, spec_u64_to_le_bytes, spec_u128_to_le_bytes,
}
use verified_storage.Pmem.View.{Mem, extract_bytes}
use verified_storage.Log.Layout.{
  LogMetadata, deserialize_log, field, crc_size, length_of_log_metadata,
}

abbrev pub absolute_pos_of_region_metadata : ℕ
absolute_pos_of_region_metadata = 40

abbrev pub length_of_region_metadata : ℕ
length_of_region_metadata = 48

abbrev pub absolute_pos_of_region_crc : ℕ
absolute_pos_of_region_crc = 88

abbrev pub absolute_pos_of_log_cdb : ℕ
absolute_pos_of_log_cdb = 96

abbrev pub absolute_pos_of_log_metadata_for_cdb_false : ℕ
absolute_pos_of_log_metadata_for_cdb_false = 104

abbrev pub absolute_pos_of_log_metadata_for_cdb_true : ℕ
absolute_pos_of_log_metadata_for_cdb_true = 144

abbrev pub absolute_pos_of_log_crc_for_cdb_false : ℕ
absolute_pos_of_log_crc_for_cdb_false = 136

abbrev pub absolute_pos_of_log_crc_for_cdb_true : ℕ
absolute_pos_of_log_crc_for_cdb_true = 176

abbrev pub multilog_program_guid : ℕ
multilog_program_guid = 0x21b8b4b3c7d140a9abf7e80c07b7f01f

pub record RegionMetadata : Type 0 where
  pub num_logs : ℕ
  pub which_log : ℕ
  pub padding : ℕ
  pub region_size : ℕ
  pub log_area_len : ℕ
  pub multilog_id : ℕ

abbrev pub spec_u32_to_le_bytes : ℕ → List ℕ
spec_u32_to_le_bytes = to_le_bytes 4

unfoldable pub serialize_region : RegionMetadata → List ℕ
serialize_region g =
    spec_u32_to_le_bytes g.num_logs
    ++ (spec_u32_to_le_bytes g.which_log
        ++ (spec_u64_to_le_bytes g.padding
            ++ (spec_u64_to_le_bytes g.region_size
                ++ (spec_u64_to_le_bytes g.log_area_len ++ spec_u128_to_le_bytes g.multilog_id))))

unfoldable pub deserialize_region : List ℕ → RegionMetadata
deserialize_region bytes = record {
  num_logs = field bytes 0 4;
  which_log = field bytes 4 4;
  padding = field bytes 8 8;
  region_size = field bytes 16 8;
  log_area_len = field bytes 24 8;
  multilog_id = field bytes 32 16;
}

abbrev pub deserialize_region_metadata : Mem → RegionMetadata
deserialize_region_metadata mem =
    deserialize_region (extract_bytes mem absolute_pos_of_region_metadata length_of_region_metadata)

abbrev pub deserialize_region_crc : Mem → ℕ
deserialize_region_crc mem = from_le_bytes (extract_bytes mem absolute_pos_of_region_crc crc_size)

abbrev pub deserialize_log_cdb : Mem → ℕ
deserialize_log_cdb mem = from_le_bytes (extract_bytes mem absolute_pos_of_log_cdb crc_size)

abbrev pub get_log_metadata_pos : Bool → ℕ
get_log_metadata_pos cdb =
    if cdb
    then absolute_pos_of_log_metadata_for_cdb_true
    else absolute_pos_of_log_metadata_for_cdb_false

abbrev pub deserialize_log_metadata : Mem → Bool → LogMetadata
deserialize_log_metadata mem cdb =
    deserialize_log (extract_bytes mem (get_log_metadata_pos cdb) length_of_log_metadata)

abbrev pub deserialize_log_crc : Mem → Bool → ℕ
deserialize_log_crc mem cdb = from_le_bytes (
    extract_bytes mem
      (if cdb then absolute_pos_of_log_crc_for_cdb_true else absolute_pos_of_log_crc_for_cdb_false)
      crc_size)
