-- ===== src/Multilog/Start/Stages.antt =====
-- start_v.rs of the multilog: each step of `start` on regions that recover.
use mathlib.Core.Path.{subst}
use verified_storage.Base.{
  ℕ, suc, ◌+◌, ◌<◌, ◌≡◌, refl, ◌⊎◌, inl, inr, Bool, false, length, arith, List, [], ◌∷◌, map, some,
  Outcome, ok, err, u64_mod, if◌then◌else◌,
}
use verified_storage.Pmem.View.{Region, Mem, committed, extract_bytes, length-extract_bytes}
use verified_storage.Pmem.Medium.{Medium, IsSound}
use verified_storage.Pmem.Regions.{region_at, in_region, in_region-IsSound}
use verified_storage.Log.Layout.{
  serialize_global, serialize_log, deserialize_global, deserialize_log,
}
use verified_storage.Log.Layout.Serialize.{serialize-deserialize_global, serialize-deserialize_log}
use verified_storage.Log.Recover.{check_cdb}
use verified_storage.Log.Impl.{LogInfo, read_bytes}
use verified_storage.Log.Inv.{InfoValid}
use verified_storage.Log.Start.{read_u64}
use verified_storage.Log.Start.Checks.{OfBytes, AreBytes-extract_bytes, read_cdb_cases}
use verified_storage.Log.Start.Stages.{value_cases}
use verified_storage.Multilog.Layout.{
  absolute_pos_of_log_cdb, get_log_metadata_pos, serialize_region, deserialize_region,
  deserialize_log_cdb,
}
use verified_storage.Multilog.Layout.Serialize.{serialize-deserialize_multilog_region}
use verified_storage.Multilog.Impl.Err.{MultiLogErr, crc_mismatch}
use verified_storage.Multilog.Inv.{LogName, MetadataConsistent}
use verified_storage.Multilog.Inv.Update.{name_of}
use verified_storage.Multilog.Start.{
  read_cdb, read_global_metadata, read_region_metadata, read_log_metadata, read_log_variables,
  read_logs_variables,
}
use verified_storage.Multilog.Start.Inversion.{info_of}

-- A step returns what it should, or detects corruption, which there then was.
abbrev pub OkOrCorrupted : {A : Type 0} → Medium → Outcome MultiLogErr A → A → Type 0
OkOrCorrupted m result a =
    (result ≡ ok a) ⊎ ((result ≡ err crc_mismatch) × (m.impervious_to_corruption ≡ false))

module _ {m : Medium} (sound : IsSound m) (r : Region) (bytes : OfBytes (committed r)) where
  pub read_cdb_lem :
      (cdb : Bool)
      → check_cdb (deserialize_log_cdb (committed r)) ≡ some cdb
      → OkOrCorrupted m (read_cdb m r) cdb
  unfolding read_cdb read_u64 read_bytes
  read_cdb_lem cdb stored = ground (
    arith,
    read_cdb_cases sound absolute_pos_of_log_cdb (extract_bytes (committed r) 96 8) cdb
        (AreBytes-extract_bytes (committed r) 96 8 bytes) (length-extract_bytes (committed r) 96 8)
        stored,
  )

  module _ {name : LogName} {cdb : Bool}
      (v : MetadataConsistent m (committed r) name cdb (info_of (committed r) cdb))
      (valid : InfoValid (info_of (committed r) cdb)) (fits : r.len < u64_mod) where
    read_global_metadata_lem : OkOrCorrupted m (read_global_metadata m r name.which_log) tt
    unfolding read_global_metadata
    read_global_metadata_lem = ground (
      arith,
      v,
      valid,
      value_cases sound r bytes 32 0 32 (λ bs. serialize_global (deserialize_global bs))
          serialize-deserialize_global (inr (omega arith)) v.global_crc,
    )

    read_region_metadata_lem :
        OkOrCorrupted m
          (read_region_metadata m r name.multilog_id name.num_logs name.which_log)
          (info_of (committed r) cdb).log_area_len
    unfolding read_region_metadata
    read_region_metadata_lem = ground (
      arith,
      v,
      valid,
      value_cases sound r bytes 48 40 88 (λ bs. serialize_region (deserialize_region bs))
          serialize-deserialize_multilog_region (inr (omega arith)) v.region_crc,
    )

    read_log_metadata_lem :
        OkOrCorrupted m
          (read_log_metadata m r cdb name.which_log (info_of (committed r) cdb).log_area_len)
          (info_of (committed r) cdb)
    unfolding read_log_metadata
    read_log_metadata_lem = ground (
      arith,
      v,
      valid,
      value_cases sound r bytes 32 (get_log_metadata_pos cdb) (if cdb then 176 else 136)
          (λ bs. serialize_log (deserialize_log bs)) serialize-deserialize_log (inr (ground arith))
          v.log_crc,
    )

    pub read_log_variables_lem :
        OkOrCorrupted m
          (read_log_variables m r name.multilog_id cdb name.num_logs name.which_log)
          (info_of (committed r) cdb)
    unfolding read_log_variables
    read_log_variables_lem =
        ground (arith, read_global_metadata_lem, read_region_metadata_lem, read_log_metadata_lem)

-- The metadata does not depend on which region it is read from.
in_region-MetadataConsistent :
    {m : Medium} {mem : Mem} {name : LogName} {cdb : Bool} {info : LogInfo} (index : ℕ)
    → MetadataConsistent m mem name cdb info
    → MetadataConsistent (in_region m index) mem name cdb info
in_region-MetadataConsistent index h = record {
  global_crc = h.global_crc;
  region_crc = h.region_crc;
  log_crc = h.log_crc;
  program_guid = h.program_guid;
  version_number = h.version_number;
  length_of_region = h.length_of_region;
  region_size = h.region_size;
  region_multilog_id = h.region_multilog_id;
  region_num_logs = h.region_num_logs;
  region_which_log = h.region_which_log;
  log_area_len = h.log_area_len;
  head = h.head;
  log_length = h.log_length;
  fits = h.fits;
}

abbrev pub infos_of : List Region → Bool → List LogInfo
infos_of rs cdb = map (λ r. info_of (committed r) cdb) rs

-- The loop over the regions from an index on.
pub read_logs_variables_lem :
    {m : Medium} (sound : IsSound m) (multilog_id : ℕ) (cdb : Bool) (count : ℕ) (rs : List Region)
    (first : ℕ)
    → ((i : ℕ)
        → i < length rs
        → OfBytes (committed (region_at rs i))
          × MetadataConsistent m
              (committed (region_at rs i))
              (name_of multilog_id count (first + i))
              cdb
              (info_of (committed (region_at rs i)) cdb)
          × InfoValid (info_of (committed (region_at rs i)) cdb)
          × ((region_at rs i).len < u64_mod))
    → OkOrCorrupted m (read_logs_variables m rs multilog_id cdb count first) (infos_of rs cdb)
unfolding read_logs_variables
read_logs_variables_lem sound multilog_id cdb count [] first each = inl refl
read_logs_variables_lem {m} sound multilog_id cdb count (r ∷ rs) first each =
    let rest : OkOrCorrupted m (read_logs_variables m rs multilog_id cdb count (suc first))
        (infos_of rs cdb) =
      read_logs_variables_lem sound multilog_id cdb count rs (suc first) (λ i lt.
        subst
          (λ k.
            OfBytes (committed (region_at rs i))
            × MetadataConsistent m (committed (region_at rs i)) (name_of multilog_id count k) cdb
                (info_of (committed (region_at rs i)) cdb)
            × InfoValid (info_of (committed (region_at rs i)) cdb)
            × ((region_at rs i).len < u64_mod))
          (omega arith) (each (suc i) (omega arith))) in
    let (bytes, metadata, valid, fits) = each 0 (omega arith) in
    let metadata' : MetadataConsistent m (committed r) (name_of multilog_id count first) cdb
        (info_of (committed r) cdb) =
      subst
        (λ k.
          MetadataConsistent m (committed r) (name_of multilog_id count k) cdb
            (info_of (committed r) cdb))
        (omega arith) metadata in
    let here : OkOrCorrupted m
        (read_log_variables (in_region m first) r multilog_id cdb count first)
        (info_of (committed r) cdb) =
      read_log_variables_lem (in_region-IsSound first sound) r bytes
        {name = name_of multilog_id count first} (in_region-MetadataConsistent first metadata')
        valid fits in
    ground arith
