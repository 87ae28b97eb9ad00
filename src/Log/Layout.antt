-- ===== src/Log/Layout.antt =====
-- layout_v.rs: the positions of the layout, and the three metadata records with their
-- serialization.
pub mod Serialize
use verified_storage.Base.{ℕ, Bool, List, ◌++◌, ◌-◌, ◌+◌, take, drop, if◌then◌else◌, leb}
use verified_storage.Pmem.Bytes.{from_le_bytes, spec_u64_to_le_bytes, spec_u128_to_le_bytes}
use verified_storage.Pmem.View.{Mem, extract_bytes}

abbrev pub absolute_pos_of_global_metadata : ℕ
absolute_pos_of_global_metadata = 0

abbrev pub relative_pos_of_global_version_number : ℕ
relative_pos_of_global_version_number = 0

abbrev pub relative_pos_of_global_length_of_region_metadata : ℕ
relative_pos_of_global_length_of_region_metadata = 8

abbrev pub relative_pos_of_global_program_guid : ℕ
relative_pos_of_global_program_guid = 16

abbrev pub length_of_global_metadata : ℕ
length_of_global_metadata = 32

abbrev pub absolute_pos_of_global_crc : ℕ
absolute_pos_of_global_crc = 32

abbrev pub absolute_pos_of_region_metadata : ℕ
absolute_pos_of_region_metadata = 40

abbrev pub relative_pos_of_region_region_size : ℕ
relative_pos_of_region_region_size = 0

abbrev pub relative_pos_of_region_length_of_log_area : ℕ
relative_pos_of_region_length_of_log_area = 8

abbrev pub relative_pos_of_region_log_id : ℕ
relative_pos_of_region_log_id = 16

abbrev pub length_of_region_metadata : ℕ
length_of_region_metadata = 32

abbrev pub absolute_pos_of_region_crc : ℕ
absolute_pos_of_region_crc = 72

abbrev pub absolute_pos_of_log_cdb : ℕ
absolute_pos_of_log_cdb = 80

abbrev pub absolute_pos_of_log_metadata_for_cdb_false : ℕ
absolute_pos_of_log_metadata_for_cdb_false = 88

abbrev pub absolute_pos_of_log_metadata_for_cdb_true : ℕ
absolute_pos_of_log_metadata_for_cdb_true = 128

abbrev pub relative_pos_of_log_log_length : ℕ
relative_pos_of_log_log_length = 0

abbrev pub relative_pos_of_log_padding : ℕ
relative_pos_of_log_padding = 8

abbrev pub relative_pos_of_log_head : ℕ
relative_pos_of_log_head = 16

abbrev pub length_of_log_metadata : ℕ
length_of_log_metadata = 32

abbrev pub absolute_pos_of_log_crc_for_cdb_false : ℕ
absolute_pos_of_log_crc_for_cdb_false = 120

abbrev pub absolute_pos_of_log_crc_for_cdb_true : ℕ
absolute_pos_of_log_crc_for_cdb_true = 160

abbrev pub absolute_pos_of_log_area : ℕ
absolute_pos_of_log_area = 256

abbrev pub min_log_area_size : ℕ
min_log_area_size = 1

abbrev pub crc_size : ℕ
crc_size = 8

abbrev pub log_program_guid : ℕ
log_program_guid = 0x8eecd9dea2de4443903e2acf951380bf

abbrev pub log_program_version_number : ℕ
log_program_version_number = 1

pub record GlobalMetadata : Type 0 where
  pub version_number : ℕ
  pub length_of_region_metadata : ℕ
  pub program_guid : ℕ

pub record RegionMetadata : Type 0 where
  pub region_size : ℕ
  pub log_area_len : ℕ
  pub log_id : ℕ

pub record LogMetadata : Type 0 where
  pub log_length : ℕ
  pub padding : ℕ
  pub head : ℕ

-- The field of `size` bytes at a relative position.
abbrev pub field : List ℕ → ℕ → ℕ → ℕ
field bytes pos size = from_le_bytes (take size (drop pos bytes))

unfoldable pub serialize_global : GlobalMetadata → List ℕ
serialize_global g =
    spec_u64_to_le_bytes g.version_number
    ++ (spec_u64_to_le_bytes g.length_of_region_metadata ++ spec_u128_to_le_bytes g.program_guid)

unfoldable pub deserialize_global : List ℕ → GlobalMetadata
deserialize_global bytes = record {
  version_number = field bytes relative_pos_of_global_version_number 8;
  length_of_region_metadata = field bytes relative_pos_of_global_length_of_region_metadata 8;
  program_guid = field bytes relative_pos_of_global_program_guid 16;
}

unfoldable pub serialize_region : RegionMetadata → List ℕ
serialize_region g =
    spec_u64_to_le_bytes g.region_size
    ++ (spec_u64_to_le_bytes g.log_area_len ++ spec_u128_to_le_bytes g.log_id)

unfoldable pub deserialize_region : List ℕ → RegionMetadata
deserialize_region bytes = record {
  region_size = field bytes relative_pos_of_region_region_size 8;
  log_area_len = field bytes relative_pos_of_region_length_of_log_area 8;
  log_id = field bytes relative_pos_of_region_log_id 16;
}

unfoldable pub serialize_log : LogMetadata → List ℕ
serialize_log g =
    spec_u64_to_le_bytes g.log_length
    ++ (spec_u64_to_le_bytes g.padding ++ spec_u128_to_le_bytes g.head)

unfoldable pub deserialize_log : List ℕ → LogMetadata
deserialize_log bytes = record {
  log_length = field bytes relative_pos_of_log_log_length 8;
  padding = field bytes relative_pos_of_log_padding 8;
  head = field bytes relative_pos_of_log_head 16;
}

-- The position of the log metadata, and of its CRC, for a corruption-detecting boolean.
abbrev pub get_log_metadata_pos : Bool → ℕ
get_log_metadata_pos cdb =
    if cdb
    then absolute_pos_of_log_metadata_for_cdb_true
    else absolute_pos_of_log_metadata_for_cdb_false

abbrev pub get_log_crc_pos : Bool → ℕ
get_log_crc_pos cdb =
    if cdb then absolute_pos_of_log_crc_for_cdb_true else absolute_pos_of_log_crc_for_cdb_false

abbrev pub get_log_crc_end : Bool → ℕ
get_log_crc_end cdb = get_log_metadata_pos cdb + length_of_log_metadata + crc_size

abbrev pub extract_global_metadata : Mem → List ℕ
extract_global_metadata mem =
    extract_bytes mem absolute_pos_of_global_metadata length_of_global_metadata

abbrev pub deserialize_global_metadata : Mem → GlobalMetadata
deserialize_global_metadata mem = deserialize_global (extract_global_metadata mem)

abbrev pub extract_global_crc : Mem → List ℕ
extract_global_crc mem = extract_bytes mem absolute_pos_of_global_crc crc_size

abbrev pub deserialize_global_crc : Mem → ℕ
deserialize_global_crc mem = from_le_bytes (extract_global_crc mem)

abbrev pub extract_region_metadata : Mem → List ℕ
extract_region_metadata mem =
    extract_bytes mem absolute_pos_of_region_metadata length_of_region_metadata

abbrev pub deserialize_region_metadata : Mem → RegionMetadata
deserialize_region_metadata mem = deserialize_region (extract_region_metadata mem)

abbrev pub extract_region_crc : Mem → List ℕ
extract_region_crc mem = extract_bytes mem absolute_pos_of_region_crc crc_size

abbrev pub deserialize_region_crc : Mem → ℕ
deserialize_region_crc mem = from_le_bytes (extract_region_crc mem)

abbrev pub extract_log_cdb : Mem → List ℕ
extract_log_cdb mem = extract_bytes mem absolute_pos_of_log_cdb crc_size

abbrev pub deserialize_log_cdb : Mem → ℕ
deserialize_log_cdb mem = from_le_bytes (extract_log_cdb mem)

abbrev pub extract_log_metadata : Mem → Bool → List ℕ
extract_log_metadata mem cdb = extract_bytes mem (get_log_metadata_pos cdb) length_of_log_metadata

abbrev pub deserialize_log_metadata : Mem → Bool → LogMetadata
deserialize_log_metadata mem cdb = deserialize_log (extract_log_metadata mem cdb)

abbrev pub extract_log_crc : Mem → Bool → List ℕ
extract_log_crc mem cdb = extract_bytes mem (get_log_crc_pos cdb) crc_size

abbrev pub deserialize_log_crc : Mem → Bool → ℕ
deserialize_log_crc mem cdb = from_le_bytes (extract_log_crc mem cdb)

-- The offset in the log area of a position relative to the head.
unfoldable pub relative_log_pos_to_log_area_offset : ℕ → ℕ → ℕ → ℕ
relative_log_pos_to_log_area_offset pos head_offset area_len =
    let offset = head_offset + pos in if leb area_len offset then offset - area_len else offset
