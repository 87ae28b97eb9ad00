-- ===== src/Log/Recover.antt =====
-- layout_v.rs: how recovery reads the contents of a region as an abstract log.
use verified_storage.Base.{
  ℕ, ◌+◌, ◌%◌, Bool, true, false, Option, none, some, List, [], ◌||◌, not, ltb, ◌==◌, if◌then◌else◌,
  seq_new, u128_max,
}
use verified_storage.Pmem.View.{Mem}
use verified_storage.Pmem.Medium.{Medium, cdb_value}
use verified_storage.Log.Layout.{
  GlobalMetadata, RegionMetadata, LogMetadata, serialize_global, serialize_region, serialize_log,
  absolute_pos_of_region_metadata, absolute_pos_of_log_cdb, absolute_pos_of_log_area,
  min_log_area_size, crc_size, log_program_guid, length_of_region_metadata,
  deserialize_global_metadata, deserialize_global_crc, deserialize_region_metadata,
  deserialize_region_crc, deserialize_log_cdb, deserialize_log_metadata, deserialize_log_crc,
  relative_log_pos_to_log_area_offset,
}
use verified_storage.Log.Spec.{AbstractLogState}

-- `check_cdb` of pmemutil_v.rs, and the test in `deserialize_and_check_log_cdb`
abbrev pub check_cdb : ℕ → Option Bool
check_cdb v =
    if v == cdb_value false then some false else if v == cdb_value true then some true else none

abbrev pub deserialize_and_check_log_cdb : Mem → Option Bool
deserialize_and_check_log_cdb mem = check_cdb (deserialize_log_cdb mem)

unfoldable pub extract_log : Mem → ℕ → ℕ → ℕ → List ℕ
extract_log mem log_area_len head log_length = seq_new log_length (λ pos. mem.at (
    absolute_pos_of_log_area
    + relative_log_pos_to_log_area_offset pos (head % log_area_len) log_area_len))

unfoldable pub recover_abstract_log_from_region_given_metadata :
    Mem → ℕ → ℕ → ℕ → Option AbstractLogState
recover_abstract_log_from_region_given_metadata mem log_area_len head log_length =
    if ltb log_area_len log_length || ltb u128_max (head + log_length)
    then none
    else some (record {
      head = head;
      log = extract_log mem log_area_len head log_length;
      pending = [];
      capacity = log_area_len;
    })

-- `spec_crc` of the three metadata types
abbrev pub crc_global : Medium → GlobalMetadata → ℕ
crc_global m g = m.crc (serialize_global g)

abbrev pub crc_region : Medium → RegionMetadata → ℕ
crc_region m g = m.crc (serialize_region g)

abbrev pub crc_log : Medium → LogMetadata → ℕ
crc_log m g = m.crc (serialize_log g)

module _ (m : Medium) where
  unfoldable pub recover_given_cdb : Mem → ℕ → Bool → Option AbstractLogState
  recover_given_cdb mem log_id cdb =
      let global_metadata = deserialize_global_metadata mem in
      let region_metadata = deserialize_region_metadata mem in
      let log_metadata = deserialize_log_metadata mem cdb in
      if ltb mem.len (absolute_pos_of_log_area + min_log_area_size)
      then none
      else if not (deserialize_global_crc mem == crc_global m global_metadata)
      then none
      else if not (global_metadata.program_guid == log_program_guid)
      then none
      else if global_metadata.version_number == 1
      then (if not (global_metadata.length_of_region_metadata == length_of_region_metadata)
          then none
          else if not (deserialize_region_crc mem == crc_region m region_metadata)
          then none
          else if not (region_metadata.region_size == mem.len)
              || (not (region_metadata.log_id == log_id)
                  || (ltb region_metadata.log_area_len min_log_area_size
                      || ltb mem.len (absolute_pos_of_log_area + region_metadata.log_area_len)))
          then none
          else if not (deserialize_log_crc mem cdb == crc_log m log_metadata)
          then none
          else recover_abstract_log_from_region_given_metadata mem region_metadata.log_area_len
              log_metadata.head log_metadata.log_length)
      else none

  unfoldable pub recover_cdb : Mem → Option Bool
  recover_cdb mem =
      let global_metadata = deserialize_global_metadata mem in
      if ltb mem.len absolute_pos_of_region_metadata
      then none
      else if not (deserialize_global_crc mem == crc_global m global_metadata)
      then none
      else if not (global_metadata.program_guid == log_program_guid)
      then none
      else if global_metadata.version_number == 1
      then (if ltb mem.len (absolute_pos_of_log_cdb + crc_size)
          then none
          else deserialize_and_check_log_cdb mem)
      else none

  unfoldable pub recover_state : Mem → ℕ → Option AbstractLogState
  recover_state mem log_id = elim (recover_cdb mem) [
    | some cdb ↦ recover_given_cdb mem log_id cdb
    | none ↦ none
  ]
