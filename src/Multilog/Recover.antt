-- ===== src/Multilog/Recover.antt =====
-- layout_v.rs of the multilog: how recovery reads the contents of several regions.
use verified_storage.Base.{
  ℕ, suc, ◌+◌, Bool, Option, none, some, List, [], ◌∷◌, ◌||◌, not, ltb, ◌==◌, if◌then◌else◌, length,
}
use verified_storage.Pmem.View.{Mem}
use verified_storage.Pmem.Medium.{Medium}
use verified_storage.Log.Layout.{
  absolute_pos_of_log_area, min_log_area_size, crc_size, deserialize_global_metadata,
  deserialize_global_crc,
}
use verified_storage.Log.Recover.{
  check_cdb, crc_global, crc_log, recover_abstract_log_from_region_given_metadata,
}
use verified_storage.Log.Spec.{AbstractLogState}
use verified_storage.Multilog.Spec.{AbstractMultiLogState}
use verified_storage.Multilog.Layout.{
  RegionMetadata, serialize_region, absolute_pos_of_region_metadata, absolute_pos_of_log_cdb,
  length_of_region_metadata, multilog_program_guid, deserialize_region_metadata,
  deserialize_region_crc, deserialize_log_cdb, deserialize_log_metadata, deserialize_log_crc,
}

abbrev pub crc_region : Medium → RegionMetadata → ℕ
crc_region m g = m.crc (serialize_region g)

-- The states that the regions from one on give, or none if one of them gives none.
abbrev pub and_states :
    Option AbstractLogState → Option (List AbstractLogState) → Option (List AbstractLogState)
and_states none rest = none
and_states (some s) none = none
and_states (some s) (some states) = some (s ∷ states)

module _ (m : Medium) where
  unfoldable pub recover_abstract_log_from_region_given_cdb :
      Mem → ℕ → ℕ → ℕ → Bool → Option AbstractLogState
  recover_abstract_log_from_region_given_cdb mem multilog_id num_logs which_log cdb =
      let global_metadata = deserialize_global_metadata mem in
      let region_metadata = deserialize_region_metadata mem in
      let log_metadata = deserialize_log_metadata mem cdb in
      if ltb mem.len (absolute_pos_of_log_area + min_log_area_size)
      then none
      else if not (deserialize_global_crc mem == crc_global m global_metadata)
      then none
      else if not (global_metadata.program_guid == multilog_program_guid)
      then none
      else if global_metadata.version_number == 1
      then (if not (global_metadata.length_of_region_metadata == length_of_region_metadata)
          then none
          else if not (deserialize_region_crc mem == crc_region m region_metadata)
          then none
          else if not (region_metadata.region_size == mem.len)
              || (not (region_metadata.multilog_id == multilog_id)
                  || (not (region_metadata.num_logs == num_logs)
                      || (not (region_metadata.which_log == which_log)
                          || (ltb region_metadata.log_area_len min_log_area_size
                              || ltb mem.len
                                  (absolute_pos_of_log_area + region_metadata.log_area_len)))))
          then none
          else if not (deserialize_log_crc mem cdb == crc_log m log_metadata)
          then none
          else recover_abstract_log_from_region_given_metadata mem region_metadata.log_area_len
              log_metadata.head log_metadata.log_length)
      else none

  -- The regions from an index on.
  unfoldable pub recover_regions : List Mem → ℕ → ℕ → ℕ → Bool → Option (List AbstractLogState)
  recover_regions [] multilog_id num_logs which_log cdb = some []
  recover_regions (mem ∷ mems) multilog_id num_logs which_log cdb =
      and_states (recover_abstract_log_from_region_given_cdb mem multilog_id num_logs which_log cdb)
        (recover_regions mems multilog_id num_logs (suc which_log) cdb)

  unfoldable pub recover_given_cdb : List Mem → ℕ → Bool → Option AbstractMultiLogState
  recover_given_cdb mems multilog_id cdb =
      elim (recover_regions mems multilog_id (length mems) 0 cdb) [
        | some states ↦ some (record { states = states })
        | none ↦ none
      ]

  unfoldable pub recover_cdb : Mem → Option Bool
  recover_cdb mem =
      let global_metadata = deserialize_global_metadata mem in
      if ltb mem.len absolute_pos_of_region_metadata
      then none
      else if not (deserialize_global_crc mem == crc_global m global_metadata)
      then none
      else if not (global_metadata.program_guid == multilog_program_guid)
      then none
      else if global_metadata.version_number == 1
      then (if ltb mem.len (absolute_pos_of_log_cdb + crc_size)
          then none
          else check_cdb (deserialize_log_cdb mem))
      else none

  -- There is at least one region, and their number is of the type u32.
  unfoldable pub recover_all : List Mem → ℕ → Option AbstractMultiLogState
  recover_all [] multilog_id = none
  recover_all (mem ∷ mems) multilog_id =
      if ltb 0xffff_ffff (length (mem ∷ mems)) then none else (elim (recover_cdb mem) [
        | some cdb ↦ recover_given_cdb (mem ∷ mems) multilog_id cdb
        | none ↦ none
      ])
