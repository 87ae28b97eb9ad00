-- ===== src/Log/Update.antt =====
-- `update_log_metadata` of logimpl_v.rs: the write of the log metadata that the
-- corruption-detecting boolean does not select.
pub mod Flip
use verified_storage.Base.{
  ℕ, ◌+◌, ◌-◌, ◌*◌, ◌≤◌, ◌<◌, ◌≡◌, refl, sym, ap, ◌∙◌, ◌⊎◌, inl, inr, Bool, true, false, not, some,
  none, length, get_or, arith, u64_mod, u128_mod, u128_max, List, [], ◌++◌,
}
use verified_storage.Pmem.Bytes.{
  to_le_bytes, from_le_bytes, spec_u64_to_le_bytes, length-to_le_bytes, from_le_bytes-to_le_bytes,
}
use verified_storage.Pmem.View.{
  Region, Mem, CanCrashAs, committed, flush_byte, write, write_in, write_out, committed-write,
  len-write, flush, len-flush, settled-flush, committed-flush_settled, flush_byte-flush, AgreeIn,
  flush_state, extract_bytes-write, extract_bytes, extract_bytes_agree,
}
use verified_storage.Pmem.Crash.{crash_single_chunk}
use verified_storage.Pmem.Medium.{Medium, IsSound, cdb_value}
use verified_storage.Pmem.Wrpm
use verified_storage.Pmem.Wrpm.{Wrpm, AllOnlyCrashIn}
use verified_storage.Log.Layout.{
  LogMetadata, serialize_log, deserialize_log, absolute_pos_of_log_area, absolute_pos_of_log_cdb,
  crc_size, get_log_metadata_pos, get_log_crc_end, get_log_crc_pos, length_of_log_metadata,
  extract_log_metadata, extract_log_crc, extract_log_cdb, deserialize_log_metadata,
  deserialize_log_crc,
}
use verified_storage.Log.Layout.Serialize.{deserialize-serialize_log, length-serialize_log}
use verified_storage.Log.Recover.{crc_log, check_cdb, deserialize_and_check_log_cdb, recover_state}
use verified_storage.Log.Spec.{AbstractLogState, drop_pending_appends}
use verified_storage.Log.Impl.{LogInfo, LogImpl, update_log_metadata}
use verified_storage.Log.Inv.{
  MetadataConsistent, InfoValid, Describes, AreaHolds, IsConsistent, IsValid, log_addr,
}
use verified_storage.Log.Inv.Crash.{
  MetadataConsistent-agree, recover_if_agrees, recover_after_crash,
}
use verified_storage.Log.Inv.Update.{
  AreaHolds-same, AreaHolds-flush, IsConsistent-write_unused, IsConsistent-flush,
}

cdb_value-lt : (b : Bool) → cdb_value b < u64_mod
cdb_value-lt true = omega arith
cdb_value-lt false = omega arith

check_cdb_value : (b : Bool) → check_cdb (cdb_value b) ≡ some b
check_cdb_value true = refl
check_cdb_value false = refl

crc_pos : (b : Bool) → get_log_metadata_pos b + length_of_log_metadata ≡ get_log_crc_pos b
crc_pos true = refl
crc_pos false = refl

-- The regions of an update: the unused metadata and its CRC written, flushed, and the boolean
-- written.
module _ (m : Medium) (cdb : Bool) (info : LogInfo) (r : Region) where
  abbrev pub new_metadata : LogMetadata
  new_metadata = record { head = info.head; padding = 0; log_length = info.log_length }

  abbrev pub metadata_written : Region
  metadata_written = write r (get_log_metadata_pos (not cdb)) (serialize_log new_metadata)

  abbrev pub crc_written : Region
  crc_written =
      write metadata_written (get_log_metadata_pos (not cdb) + length_of_log_metadata)
        (spec_u64_to_le_bytes (crc_log m new_metadata))

  abbrev pub cdb_written : Region
  cdb_written =
      write (flush crc_written) absolute_pos_of_log_cdb (spec_u64_to_le_bytes (cdb_value (not cdb)))

  metadata_len : length (serialize_log new_metadata) ≡ length_of_log_metadata
  metadata_len = length-serialize_log new_metadata

  crc_len : length (spec_u64_to_le_bytes (crc_log m new_metadata)) ≡ crc_size
  crc_len = length-to_le_bytes 8 (crc_log m new_metadata)

  cdb_len : length (spec_u64_to_le_bytes (cdb_value (not cdb))) ≡ crc_size
  cdb_len = length-to_le_bytes 8 (cdb_value (not cdb))

  crc_elsewhere :
      (a : ℕ)
      → (a < get_log_metadata_pos (not cdb) + length_of_log_metadata)
        ⊎ (get_log_crc_end (not cdb) ≤ a)
      → crc_written.state a ≡ metadata_written.state a
  crc_elsewhere a h =
      write_out metadata_written (get_log_metadata_pos (not cdb) + length_of_log_metadata)
        (spec_u64_to_le_bytes (crc_log m new_metadata)) a (ground (arith, crc_len))

  -- Only the unused metadata differs from the old region.
  pub elsewhere :
      (a : ℕ)
      → (a < get_log_metadata_pos (not cdb)) ⊎ (get_log_crc_end (not cdb) ≤ a)
      → crc_written.state a ≡ r.state a
  elsewhere a h =
      crc_elsewhere a (ground arith)
      ∙ write_out r (get_log_metadata_pos (not cdb)) (serialize_log new_metadata) a
          (ground (arith, metadata_len))

  cdb_elsewhere :
      (a : ℕ)
      → (a < absolute_pos_of_log_cdb) ⊎ (absolute_pos_of_log_cdb + crc_size ≤ a)
      → cdb_written.state a ≡ (flush crc_written).state a
  cdb_elsewhere a h =
      write_out (flush crc_written) absolute_pos_of_log_cdb
        (spec_u64_to_le_bytes (cdb_value (not cdb))) a (ground (arith, cdb_len))

  metadata_extracted :
      extract_log_metadata (committed (flush crc_written)) (not cdb) ≡ serialize_log new_metadata
  unfolding flush
  metadata_extracted =
      extract_bytes_agree (committed (flush crc_written)) (committed (flush metadata_written))
        (get_log_metadata_pos (not cdb)) length_of_log_metadata
        (λ k p q. ap flush_byte (crc_elsewhere k (inl q)))
      ∙ extract_bytes-write r (get_log_metadata_pos (not cdb)) (serialize_log new_metadata)
          length_of_log_metadata metadata_len

  crc_extracted :
      extract_log_crc (committed (flush crc_written)) (not cdb)
      ≡ spec_u64_to_le_bytes (crc_log m new_metadata)
  crc_extracted = rw (← crc_pos (not cdb)) (
      extract_bytes-write metadata_written (get_log_metadata_pos (not cdb) + length_of_log_metadata)
        (spec_u64_to_le_bytes (crc_log m new_metadata)) crc_size crc_len)

  cdb_extracted : deserialize_and_check_log_cdb (committed (flush cdb_written)) ≡ some (not cdb)
  cdb_extracted =
      ap (λ bytes. check_cdb (from_le_bytes bytes))
        (extract_bytes-write (flush crc_written) absolute_pos_of_log_cdb
          (spec_u64_to_le_bytes (cdb_value (not cdb))) crc_size cdb_len)
      ∙ ap check_cdb (from_le_bytes-to_le_bytes 8 (cdb_value (not cdb)) (cdb_value-lt (not cdb)))
      ∙ check_cdb_value (not cdb)

module _ {m : Medium} (sound : IsSound m) {r : Region} {log_id : ℕ} {cdb : Bool}
    {prev info : LogInfo} {s₀ s : AbstractLogState}
    (v : IsConsistent m r log_id (record { cdb = cdb; info = prev }) s₀)
    (same_area : info.log_area_len ≡ prev.log_area_len) (valid : InfoValid info)
    (describes : Describes info s) (area : AreaHolds (flush r) info s) where
  old_with_metadata :
      IsConsistent m (metadata_written m cdb info r) log_id (record { cdb = cdb; info = prev }) s₀
  old_with_metadata =
      IsConsistent-write_unused v (get_log_metadata_pos (not cdb))
        (serialize_log (new_metadata m cdb info r)) (omega arith)
        (omega (arith, metadata_len m cdb info r))

  old_with_crc :
      IsConsistent m (crc_written m cdb info r) log_id (record { cdb = cdb; info = prev }) s₀
  old_with_crc =
      IsConsistent-write_unused old_with_metadata
        (get_log_metadata_pos (not cdb) + length_of_log_metadata)
        (spec_u64_to_le_bytes (crc_log m (new_metadata m cdb info r))) (omega arith)
        (omega (arith, crc_len m cdb info r))

  old_flushed :
      IsConsistent m
        (flush (crc_written m cdb info r))
        log_id
        (record { cdb = cdb; info = prev })
        s₀
  old_flushed = IsConsistent-flush old_with_crc

  metadata_read_back :
      deserialize_log_metadata (committed (flush (crc_written m cdb info r))) (not cdb)
      ≡ new_metadata m cdb info r
  metadata_read_back =
      ap deserialize_log (metadata_extracted m cdb info r)
      ∙ deserialize-serialize_log (new_metadata m cdb info r)
          (omega (arith, valid.log_le, valid.pending_le, v.metadata.fits, v.region_fits, same_area))
          (omega arith) (omega (arith, valid.tail_fits))

  new-MetadataConsistent :
      MetadataConsistent m (committed (flush (crc_written m cdb info r))) log_id (not cdb) info
  new-MetadataConsistent = record {
    global_crc = old_flushed.metadata.global_crc;
    region_crc = old_flushed.metadata.region_crc;
    log_crc =
        ap from_le_bytes (crc_extracted m cdb info r)
        ∙ from_le_bytes-to_le_bytes 8 (crc_log m (new_metadata m cdb info r)) (sound.crc_lt _)
        ∙ ap (crc_log m) (sym metadata_read_back);
    program_guid = old_flushed.metadata.program_guid;
    version_number = old_flushed.metadata.version_number;
    length_of_region = old_flushed.metadata.length_of_region;
    region_size = old_flushed.metadata.region_size;
    region_log_id = old_flushed.metadata.region_log_id;
    log_area_len = old_flushed.metadata.log_area_len ∙ sym same_area;
    head = ap (λ (t : LogMetadata). t.head) metadata_read_back;
    log_length = ap (λ (t : LogMetadata). t.log_length) metadata_read_back;
    fits = rw same_area old_flushed.metadata.fits;
  }
