-- ===== src/Log/Start/Stages.antt =====
-- start_v.rs: each step of `start` on a region that recovers.
use verified_storage.Base.{
  ℕ, ◌+◌, ◌≤◌, ◌<◌, ◌≡◌, ap, ◌∙◌, ◌⊎◌, inr, Bool, true, false, length, arith, List, some, Outcome,
  ok, err, ◌==◌, u64_mod,
}
use verified_storage.Pmem.Bytes.{from_le_bytes, AreBytes}
use verified_storage.Pmem.View.{Region, committed, extract_bytes, length-extract_bytes}
use verified_storage.Pmem.Medium.{Medium, IsSound, observe, length-observe, AreBytes-observe}
use verified_storage.Log.Layout.{
  absolute_pos_of_log_cdb, get_log_metadata_pos, get_log_crc_pos, serialize_global,
  serialize_region, serialize_log, deserialize_global, deserialize_region, deserialize_log,
}
use verified_storage.Log.Layout.Serialize.{
  serialize-deserialize_global, serialize-deserialize_region, serialize-deserialize_log,
}
use verified_storage.Log.Recover.{deserialize_and_check_log_cdb}
use verified_storage.Log.Impl.{read_bytes}
use verified_storage.Log.Impl.Err.{LogErr, crc_mismatch}
use verified_storage.Log.Inv.{MetadataConsistent, InfoValid}
use verified_storage.Log.Start.{
  read_u64, read_cdb, read_global_metadata, read_region_metadata, read_log_metadata,
}
use verified_storage.Log.Start.Checks.{
  OfBytes, AreBytes-extract_bytes, crc_check_cases, read_cdb_cases,
}
use verified_storage.Log.Start.Inversion.{info_of}

-- A step returns what it should, or detects corruption, which there then was.
abbrev pub OkOrCorrupted : {A : Type 0} → Medium → Outcome LogErr A → A → Type 0
OkOrCorrupted m result a =
    (result ≡ ok a) ⊎ ((result ≡ err crc_mismatch) × (m.impervious_to_corruption ≡ false))

module _ {m : Medium} (sound : IsSound m) (r : Region) (bytes : OfBytes (committed r)) where
  -- A value of `n` bytes with its CRC.
  pub value_cases :
      (n addr crc_addr : ℕ) (code : List ℕ → List ℕ)
      → ((bs : List ℕ) → length bs ≡ n → AreBytes bs → code bs ≡ bs)
      → (crc_addr + 8 ≤ addr) ⊎ (addr + n ≤ crc_addr)
      → from_le_bytes (extract_bytes (committed r) crc_addr 8)
        ≡ m.crc (code (extract_bytes (committed r) addr n))
      → ((read_bytes m r addr n ≡ extract_bytes (committed r) addr n)
          × ((read_u64 m r crc_addr == m.crc (code (read_bytes m r addr n))) ≡ true))
        ⊎ (((read_u64 m r crc_addr == m.crc (code (read_bytes m r addr n))) ≡ false)
            × (m.impervious_to_corruption ≡ false))
  unfolding read_u64 read_bytes
  value_cases n addr crc_addr code rt apart stored =
      rw
        (rt (observe m addr value) (length-observe m addr value ∙ size)
          (AreBytes-observe sound addr value are))
        (crc_check_cases sound addr crc_addr value (extract_bytes (committed r) crc_addr 8) are
          (AreBytes-extract_bytes (committed r) crc_addr 8 bytes)
          (length-extract_bytes (committed r) crc_addr 8) (rw size apart)
          (stored ∙ ap m.crc (rt value size are)))
    where
      value : List ℕ
      value = extract_bytes (committed r) addr n

      size : length value ≡ n
      size = length-extract_bytes (committed r) addr n

      are : AreBytes value
      are = AreBytes-extract_bytes (committed r) addr n bytes

  pub read_cdb_lem :
      (cdb : Bool)
      → deserialize_and_check_log_cdb (committed r) ≡ some cdb
      → OkOrCorrupted m (read_cdb m r) cdb
  unfolding read_cdb read_u64 read_bytes
  read_cdb_lem cdb stored = ground (
    arith,
    read_cdb_cases sound absolute_pos_of_log_cdb (extract_bytes (committed r) 80 8) cdb
        (AreBytes-extract_bytes (committed r) 80 8 bytes) (length-extract_bytes (committed r) 80 8)
        stored,
  )

  module _ {log_id : ℕ} {cdb : Bool}
      (v : MetadataConsistent m (committed r) log_id cdb (info_of (committed r) cdb))
      (valid : InfoValid (info_of (committed r) cdb)) (fits : r.len < u64_mod) where
    pub read_global_metadata_lem : OkOrCorrupted m (read_global_metadata m r) tt
    unfolding read_global_metadata
    read_global_metadata_lem = ground (
      arith,
      v,
      valid,
      value_cases 32 0 32 (λ bs. serialize_global (deserialize_global bs))
          serialize-deserialize_global (inr (omega arith)) v.global_crc,
    )

    pub read_region_metadata_lem :
        OkOrCorrupted m (read_region_metadata m r log_id) (info_of (committed r) cdb).log_area_len
    unfolding read_region_metadata
    read_region_metadata_lem = ground (
      arith,
      v,
      valid,
      value_cases 32 40 72 (λ bs. serialize_region (deserialize_region bs))
          serialize-deserialize_region (inr (omega arith)) v.region_crc,
    )

    pub read_log_metadata_lem :
        OkOrCorrupted m
          (read_log_metadata m r cdb (info_of (committed r) cdb).log_area_len)
          (info_of (committed r) cdb)
    unfolding read_log_metadata
    read_log_metadata_lem = ground (
      arith,
      v,
      valid,
      value_cases 32 (get_log_metadata_pos cdb) (get_log_crc_pos cdb)
          (λ bs. serialize_log (deserialize_log bs)) serialize-deserialize_log (inr (ground arith))
          v.log_crc,
    )
