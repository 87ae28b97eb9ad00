-- ===== src/Log/Setup/Parse.antt =====
-- setup_v.rs: what the region that was set up parses to.
use verified_storage.Base.{
  ℕ, ◌+◌, ◌≤◌, ◌<◌, ◌≡◌, refl, sym, ap, ◌∙◌, inl, List, [], ◌∷◌, suc, take, drop, length, arith,
  false, some, u64_mod, u128_mod,
}
use verified_storage.Pmem.Bytes.{
  from_le_bytes, spec_u64_to_le_bytes, length-to_le_bytes, from_le_bytes-to_le_bytes,
}
use verified_storage.Pmem.View.{
  Region, write, flush, committed, extract_bytes, extract_bytes_agree, extract_bytes-write,
  write_out, committed-flush, flush_byte,
}
use verified_storage.Pmem.Medium.{Medium, IsSound, cdb_value}
use verified_storage.Log.Layout.{
  serialize_global, serialize_region, serialize_log, deserialize_global, deserialize_region,
  deserialize_log, deserialize_global_metadata, deserialize_global_crc, deserialize_region_metadata,
  deserialize_region_crc, deserialize_log_metadata, deserialize_log_crc,
}
use verified_storage.Log.Layout.Serialize.{
  length-serialize_global, length-serialize_region, length-serialize_log,
  deserialize-serialize_global, deserialize-serialize_region, deserialize-serialize_log,
}
use verified_storage.Log.Recover.{
  crc_global, crc_region, crc_log, deserialize_and_check_log_cdb, check_cdb,
}
use verified_storage.Log.Setup.{
  new_global_metadata, new_region_metadata, new_log_metadata, write_setup_metadata_to_region,
  write_setup_metadata,
}

-- Several writes one after another.
abbrev pub write_all : Region → List (ℕ × List ℕ) → Region
write_all r [] = r
write_all r ((addr, bytes) ∷ writes) = write_all (write r addr bytes) writes

abbrev pub AllFrom : ℕ → List (ℕ × List ℕ) → Type 0
AllFrom low [] = Unit {0}
AllFrom low ((addr, bytes) ∷ writes) = (low ≤ addr) × AllFrom low writes

-- Writes behind a range do not change what it will hold after a flush.
extract_bytes-write_all :
    (r : Region) (writes : List (ℕ × List ℕ)) (pos len : ℕ)
    → AllFrom (pos + len) writes
    → extract_bytes (committed (flush (write_all r writes))) pos len
      ≡ extract_bytes (committed (flush r)) pos len
extract_bytes-write_all r [] pos len h = refl
extract_bytes-write_all r ((addr, bytes) ∷ writes) pos len (h, hs) =
    extract_bytes-write_all (write r addr bytes) writes pos len hs
    ∙ extract_bytes_agree (committed (flush (write r addr bytes))) (committed (flush r)) pos len
        (λ k p q.
          committed-flush (write r addr bytes) k
          ∙ ap flush_byte (write_out r addr bytes k (inl (omega arith)))
          ∙ sym (committed-flush r k))

-- The first of several writes is read back, if the others are behind it.
pub extract_bytes-first :
    (r : Region) (addr : ℕ) (bytes : List ℕ) (len : ℕ) (writes : List (ℕ × List ℕ))
    → length bytes ≡ len
    → AllFrom (addr + len) writes
    → extract_bytes (committed (flush (write_all r ((addr, bytes) ∷ writes)))) addr len ≡ bytes
extract_bytes-first r addr bytes len writes e h =
    extract_bytes-write_all (write r addr bytes) writes addr len h
    ∙ extract_bytes-write r addr bytes len e

-- The writes of `write_setup_metadata_to_region`, in order.
abbrev setup_writes : Medium → ℕ → ℕ → List (ℕ × List ℕ)
setup_writes m region_size log_id =
    (0, serialize_global new_global_metadata)
    ∷ (32, spec_u64_to_le_bytes (crc_global m new_global_metadata))
    ∷ (40, serialize_region (new_region_metadata region_size log_id))
    ∷ (72, spec_u64_to_le_bytes (crc_region m (new_region_metadata region_size log_id)))
    ∷ (80, spec_u64_to_le_bytes (cdb_value false))
    ∷ (88, serialize_log new_log_metadata)
    ∷ (120, spec_u64_to_le_bytes (crc_log m new_log_metadata))
    ∷ []

module _ (m : Medium) (r : Region) (region_size log_id : ℕ) where
  -- The region before the write of an index, and the writes behind it.
  abbrev before : ℕ → Region
  before k = write_all r (take k (setup_writes m region_size log_id))

  abbrev behind : ℕ → List (ℕ × List ℕ)
  behind k = drop (suc k) (setup_writes m region_size log_id)

  -- A CRC that was written is read back.
  setup_crc :
      (k addr v : ℕ)
      → v < u64_mod
      → AllFrom (addr + 8) (behind k)
      → from_le_bytes (
          extract_bytes
            (committed (flush (write_all (before k) ((addr, spec_u64_to_le_bytes v) ∷ behind k))))
            addr
            8)
        ≡ v
  setup_crc k addr v fits h =
      ap from_le_bytes (
        extract_bytes-first (before k) addr (spec_u64_to_le_bytes v) 8 (behind k)
          (length-to_le_bytes 8 v) h)
      ∙ from_le_bytes-to_le_bytes 8 v fits

  module _ (sound : IsSound m) (size_fits : region_size < u64_mod)
      (id_fits : log_id < u128_mod) where
    pub setup_global_metadata :
        deserialize_global_metadata (committed (write_setup_metadata m r region_size log_id))
        ≡ new_global_metadata
    unfolding write_setup_metadata write_setup_metadata_to_region
    setup_global_metadata =
        ap deserialize_global (
          extract_bytes-first (before 0) 0 (serialize_global new_global_metadata) 32 (behind 0)
            (length-serialize_global new_global_metadata)
            (
              omega arith,
              (omega arith, (omega arith, (omega arith, (omega arith, (omega arith, tt))))),
            ))
        ∙ deserialize-serialize_global new_global_metadata (omega arith) (omega arith) (omega arith)

    pub setup_global_crc :
        deserialize_global_crc (committed (write_setup_metadata m r region_size log_id))
        ≡ crc_global m new_global_metadata
    unfolding write_setup_metadata write_setup_metadata_to_region
    setup_global_crc =
        setup_crc 1 32 (crc_global m new_global_metadata) (sound.crc_lt _)
          (omega arith, (omega arith, (omega arith, (omega arith, (omega arith, tt)))))

    pub setup_region_metadata :
        deserialize_region_metadata (committed (write_setup_metadata m r region_size log_id))
        ≡ new_region_metadata region_size log_id
    unfolding write_setup_metadata write_setup_metadata_to_region
    setup_region_metadata =
        ap deserialize_region (
          extract_bytes-first (before 2) 40
            (serialize_region (new_region_metadata region_size log_id)) 32 (behind 2)
            (length-serialize_region (new_region_metadata region_size log_id))
            (omega arith, (omega arith, (omega arith, (omega arith, tt)))))
        ∙ deserialize-serialize_region (new_region_metadata region_size log_id) size_fits
            (ground arith) id_fits

    pub setup_region_crc :
        deserialize_region_crc (committed (write_setup_metadata m r region_size log_id))
        ≡ crc_region m (new_region_metadata region_size log_id)
    unfolding write_setup_metadata write_setup_metadata_to_region
    setup_region_crc =
        setup_crc 3 72 (crc_region m (new_region_metadata region_size log_id)) (sound.crc_lt _)
          (omega arith, (omega arith, (omega arith, tt)))

    pub setup_log_cdb :
        deserialize_and_check_log_cdb (committed (write_setup_metadata m r region_size log_id))
        ≡ some false
    unfolding write_setup_metadata write_setup_metadata_to_region
    setup_log_cdb =
        ap check_cdb
          (setup_crc 4 80 (cdb_value false) (omega arith) (omega arith, (omega arith, tt)))

    pub setup_log_metadata :
        deserialize_log_metadata (committed (write_setup_metadata m r region_size log_id)) false
        ≡ new_log_metadata
    unfolding write_setup_metadata write_setup_metadata_to_region
    setup_log_metadata =
        ap deserialize_log (
          extract_bytes-first (before 5) 88 (serialize_log new_log_metadata) 32 (behind 5)
            (length-serialize_log new_log_metadata) (omega arith, tt))
        ∙ deserialize-serialize_log new_log_metadata (omega arith) (omega arith) (omega arith)

    pub setup_log_crc :
        deserialize_log_crc (committed (write_setup_metadata m r region_size log_id)) false
        ≡ crc_log m new_log_metadata
    unfolding write_setup_metadata write_setup_metadata_to_region
    setup_log_crc = setup_crc 6 120 (crc_log m new_log_metadata) (sound.crc_lt _) tt
