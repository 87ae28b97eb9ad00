-- ===== src/Multilog/Setup/Parse.antt =====
-- setup_v.rs of the multilog: what a region that was set up parses to.
use verified_storage.Base.{
  ℕ, ◌+◌, ◌<◌, ◌≡◌, ap, ◌∙◌, List, [], ◌∷◌, suc, take, drop, arith, false, some, u64_mod, u128_mod,
}
use verified_storage.Pmem.Bytes.{
  from_le_bytes, spec_u64_to_le_bytes, length-to_le_bytes, from_le_bytes-to_le_bytes,
}
use verified_storage.Pmem.View.{Region, flush, committed, extract_bytes}
use verified_storage.Pmem.Medium.{Medium, IsSound, cdb_value}
use verified_storage.Log.Layout.{
  serialize_global, serialize_log, deserialize_global, deserialize_log, deserialize_global_metadata,
  deserialize_global_crc,
}
use verified_storage.Log.Layout.Serialize.{
  length-serialize_global, length-serialize_log, deserialize-serialize_global,
  deserialize-serialize_log,
}
use verified_storage.Log.Recover.{crc_global, crc_log, check_cdb}
use verified_storage.Log.Setup.Parse.{write_all, AllFrom, extract_bytes-first}
use verified_storage.Multilog.Layout.{
  RegionMetadata, serialize_region, deserialize_region, deserialize_region_metadata,
  deserialize_region_crc, deserialize_log_cdb, deserialize_log_metadata, deserialize_log_crc,
}
use verified_storage.Multilog.Layout.Serialize.{
  length-serialize_multilog_region, deserialize-serialize_multilog_region,
}
use verified_storage.Multilog.Recover.{crc_region}
use verified_storage.Multilog.Inv.{LogName}
use verified_storage.Multilog.Setup.{
  new_global_metadata, new_region_metadata, new_log_metadata, write_setup_metadata_to_single_region,
}

-- The metadata of the region of a log.
abbrev pub region_metadata_of : ℕ → LogName → RegionMetadata
region_metadata_of size name =
    new_region_metadata size name.multilog_id name.num_logs name.which_log

-- The region of a log, set up.
abbrev pub set_up : Medium → Region → ℕ → LogName → Region
set_up m r size name =
    write_setup_metadata_to_single_region m r size name.multilog_id name.num_logs name.which_log

-- The writes of `write_setup_metadata_to_single_region`, in order.
abbrev setup_writes : Medium → ℕ → LogName → List (ℕ × List ℕ)
setup_writes m size name =
    (0, serialize_global new_global_metadata)
    ∷ (32, spec_u64_to_le_bytes (crc_global m new_global_metadata))
    ∷ (40, serialize_region (region_metadata_of size name))
    ∷ (88, spec_u64_to_le_bytes (crc_region m (region_metadata_of size name)))
    ∷ (96, spec_u64_to_le_bytes (cdb_value false))
    ∷ (104, serialize_log new_log_metadata)
    ∷ (136, spec_u64_to_le_bytes (crc_log m new_log_metadata))
    ∷ []

module _ (m : Medium) (r : Region) (size : ℕ) (name : LogName) where
  -- The region before the write of an index, and the writes behind it.
  abbrev before : ℕ → Region
  before k = write_all r (take k (setup_writes m size name))

  abbrev behind : ℕ → List (ℕ × List ℕ)
  behind k = drop (suc k) (setup_writes m size name)

  -- A CRC that was written is read back.
  setup_crc :
      (k addr v : ℕ)
      → v < u64_mod
      → AllFrom (addr + 8) (behind k)
      → from_le_bytes (
          extract_bytes
            (committed (flush (write_all (before k) ((addr, spec_u64_to_le_bytes v) ∷ behind k))))
            addr
            8)
        ≡ v
  setup_crc k addr v fits h =
      ap from_le_bytes (
        extract_bytes-first (before k) addr (spec_u64_to_le_bytes v) 8 (behind k)
          (length-to_le_bytes 8 v) h)
      ∙ from_le_bytes-to_le_bytes 8 v fits

  module _ (sound : IsSound m) (size_fits : size < u64_mod) (id_fits : name.multilog_id < u128_mod)
      (count_fits : name.num_logs < 0x1_0000_0000)
      (which_fits : name.which_log < 0x1_0000_0000) where
    pub setup_global_metadata :
        deserialize_global_metadata (committed (flush (set_up m r size name))) ≡ new_global_metadata
    unfolding write_setup_metadata_to_single_region
    setup_global_metadata =
        ap deserialize_global (
          extract_bytes-first (before 0) 0 (serialize_global new_global_metadata) 32 (behind 0)
            (length-serialize_global new_global_metadata)
            (
              omega arith,
              (omega arith, (omega arith, (omega arith, (omega arith, (omega arith, tt))))),
            ))
        ∙ deserialize-serialize_global new_global_metadata (omega arith) (omega arith) (omega arith)

    pub setup_global_crc :
        deserialize_global_crc (committed (flush (set_up m r size name)))
        ≡ crc_global m new_global_metadata
    unfolding write_setup_metadata_to_single_region
    setup_global_crc =
        setup_crc 1 32 (crc_global m new_global_metadata) (sound.crc_lt _)
          (omega arith, (omega arith, (omega arith, (omega arith, (omega arith, tt)))))

    pub setup_region_metadata :
        deserialize_region_metadata (committed (flush (set_up m r size name)))
        ≡ region_metadata_of size name
    unfolding write_setup_metadata_to_single_region
    setup_region_metadata =
        ap deserialize_region (
          extract_bytes-first (before 2) 40 (serialize_region (region_metadata_of size name)) 48
            (behind 2) (length-serialize_multilog_region (region_metadata_of size name))
            (omega arith, (omega arith, (omega arith, (omega arith, tt)))))
        ∙ deserialize-serialize_multilog_region (region_metadata_of size name) count_fits which_fits
            (omega arith) size_fits (ground arith) id_fits

    pub setup_region_crc :
        deserialize_region_crc (committed (flush (set_up m r size name)))
        ≡ crc_region m (region_metadata_of size name)
    unfolding write_setup_metadata_to_single_region
    setup_region_crc =
        setup_crc 3 88 (crc_region m (region_metadata_of size name)) (sound.crc_lt _)
          (omega arith, (omega arith, (omega arith, tt)))

    pub setup_log_cdb :
        check_cdb (deserialize_log_cdb (committed (flush (set_up m r size name)))) ≡ some false
    unfolding write_setup_metadata_to_single_region
    setup_log_cdb =
        ap check_cdb
          (setup_crc 4 96 (cdb_value false) (omega arith) (omega arith, (omega arith, tt)))

    pub setup_log_metadata :
        deserialize_log_metadata (committed (flush (set_up m r size name))) false ≡ new_log_metadata
    unfolding write_setup_metadata_to_single_region
    setup_log_metadata =
        ap deserialize_log (
          extract_bytes-first (before 5) 104 (serialize_log new_log_metadata) 32 (behind 5)
            (length-serialize_log new_log_metadata) (omega arith, tt))
        ∙ deserialize-serialize_log new_log_metadata (omega arith) (omega arith) (omega arith)

    pub setup_log_crc :
        deserialize_log_crc (committed (flush (set_up m r size name))) false
        ≡ crc_log m new_log_metadata
    unfolding write_setup_metadata_to_single_region
    setup_log_crc = setup_crc 6 136 (crc_log m new_log_metadata) (sound.crc_lt _) tt
