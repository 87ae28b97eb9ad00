-- ===== src/Multilog/Update.antt =====
-- `update_log_metadata` of multilogimpl_v.rs: the write of the log metadata that the
-- corruption-detecting boolean does not select, in one region.
pub mod Turn
pub mod Loop
pub mod Flip
use verified_storage.Base.{
  ℕ, ◌+◌, ◌≤◌, ◌<◌, ◌≡◌, refl, sym, ap, ◌∙◌, ◌⊎◌, inl, inr, Bool, true, false, not, length, arith,
  List, if◌then◌else◌,
}
use verified_storage.Pmem.Bytes.{
  from_le_bytes, spec_u64_to_le_bytes, length-to_le_bytes, from_le_bytes-to_le_bytes,
}
use verified_storage.Pmem.View.{
  Region, committed, flush_byte, write, write_out, flush, extract_bytes-write, extract_bytes,
  extract_bytes_agree,
}
use verified_storage.Pmem.Medium.{Medium, IsSound}
use verified_storage.Log.Layout.{
  LogMetadata, serialize_log, deserialize_log, crc_size, length_of_log_metadata,
}
use verified_storage.Log.Layout.Serialize.{deserialize-serialize_log, length-serialize_log}
use verified_storage.Log.Recover.{crc_log}
use verified_storage.Log.Spec.{AbstractLogState}
use verified_storage.Log.Impl.{LogInfo}
use verified_storage.Log.Inv.{InfoValid}
use verified_storage.Multilog.Layout.{get_log_metadata_pos, deserialize_log_metadata}
use verified_storage.Multilog.Inv.{LogName, MetadataConsistent, RegionConsistent, get_log_crc_end}
use verified_storage.Multilog.Inv.Update.{RegionConsistent-write, RegionConsistent-flush}

crc_pos : (b : Bool) → get_log_metadata_pos b + length_of_log_metadata ≡ (if b then 176 else 136)
crc_pos true = refl
crc_pos false = refl

-- The unused metadata and its CRC written.
module _ (m : Medium) (cdb : Bool) (info : LogInfo) (r : Region) where
  abbrev pub new_metadata : LogMetadata
  new_metadata = record { head = info.head; padding = 0; log_length = info.log_length }

  abbrev pub metadata_written : Region
  metadata_written = write r (get_log_metadata_pos (not cdb)) (serialize_log new_metadata)

  abbrev pub crc_written : Region
  crc_written =
      write metadata_written (get_log_metadata_pos (not cdb) + length_of_log_metadata)
        (spec_u64_to_le_bytes (crc_log m new_metadata))

  pub metadata_len : length (serialize_log new_metadata) ≡ length_of_log_metadata
  metadata_len = length-serialize_log new_metadata

  pub crc_len : length (spec_u64_to_le_bytes (crc_log m new_metadata)) ≡ crc_size
  crc_len = length-to_le_bytes 8 (crc_log m new_metadata)

  crc_elsewhere :
      (a : ℕ)
      → (a < get_log_metadata_pos (not cdb) + length_of_log_metadata)
        ⊎ (get_log_crc_end (not cdb) ≤ a)
      → crc_written.state a ≡ metadata_written.state a
  crc_elsewhere a h =
      write_out metadata_written (get_log_metadata_pos (not cdb) + length_of_log_metadata)
        (spec_u64_to_le_bytes (crc_log m new_metadata)) a (ground (arith, crc_len))

  -- Only the unused metadata differs from the old region.
  pub elsewhere :
      (a : ℕ)
      → (a < get_log_metadata_pos (not cdb)) ⊎ (get_log_crc_end (not cdb) ≤ a)
      → crc_written.state a ≡ r.state a
  elsewhere a h =
      crc_elsewhere a (ground arith)
      ∙ write_out r (get_log_metadata_pos (not cdb)) (serialize_log new_metadata) a
          (ground (arith, metadata_len))

  metadata_extracted :
      extract_bytes (committed (flush crc_written)) (get_log_metadata_pos (not cdb)) 32
      ≡ serialize_log new_metadata
  unfolding flush
  metadata_extracted =
      extract_bytes_agree (committed (flush crc_written)) (committed (flush metadata_written))
        (get_log_metadata_pos (not cdb)) length_of_log_metadata
        (λ k p q. ap flush_byte (crc_elsewhere k (inl q)))
      ∙ extract_bytes-write r (get_log_metadata_pos (not cdb)) (serialize_log new_metadata)
          length_of_log_metadata metadata_len

  crc_extracted :
      extract_bytes (committed (flush crc_written)) (if not cdb then 176 else 136) 8
      ≡ spec_u64_to_le_bytes (crc_log m new_metadata)
  crc_extracted = rw (← crc_pos (not cdb)) (
      extract_bytes-write metadata_written (get_log_metadata_pos (not cdb) + length_of_log_metadata)
        (spec_u64_to_le_bytes (crc_log m new_metadata)) crc_size crc_len)

module _ {m : Medium} (sound : IsSound m) {r : Region} {name : LogName} {cdb : Bool}
    {prev info : LogInfo} {s₀ : AbstractLogState} (v : RegionConsistent m r name cdb prev s₀)
    (same_area : info.log_area_len ≡ prev.log_area_len) (valid : InfoValid info) where
  old_flushed : RegionConsistent m (flush (crc_written m cdb info r)) name cdb prev s₀
  old_flushed = RegionConsistent-flush (
      RegionConsistent-write
        (RegionConsistent-write v (get_log_metadata_pos (not cdb))
          (serialize_log (new_metadata m cdb info r)) (ground arith)
          (ground (arith, metadata_len m cdb info r)) (ground (arith, metadata_len m cdb info r)))
        (get_log_metadata_pos (not cdb) + length_of_log_metadata)
        (spec_u64_to_le_bytes (crc_log m (new_metadata m cdb info r))) (ground arith)
        (ground (arith, crc_len m cdb info r)) (ground (arith, crc_len m cdb info r)))

  metadata_read_back :
      deserialize_log_metadata (committed (flush (crc_written m cdb info r))) (not cdb)
      ≡ new_metadata m cdb info r
  metadata_read_back =
      ap deserialize_log (metadata_extracted m cdb info r)
      ∙ deserialize-serialize_log (new_metadata m cdb info r)
          (omega (arith, valid.log_le, valid.pending_le, v.metadata.fits, v.region_fits, same_area))
          (omega arith) (omega (arith, valid.tail_fits))

  -- What was written is what the other boolean selects after a flush.
  pub new-MetadataConsistent :
      MetadataConsistent m (committed (flush (crc_written m cdb info r))) name (not cdb) info
  new-MetadataConsistent = record {
    global_crc = old_flushed.metadata.global_crc;
    region_crc = old_flushed.metadata.region_crc;
    log_crc =
        ap from_le_bytes (crc_extracted m cdb info r)
        ∙ from_le_bytes-to_le_bytes 8 (crc_log m (new_metadata m cdb info r)) (sound.crc_lt _)
        ∙ ap (crc_log m) (sym metadata_read_back);
    program_guid = old_flushed.metadata.program_guid;
    version_number = old_flushed.metadata.version_number;
    length_of_region = old_flushed.metadata.length_of_region;
    region_size = old_flushed.metadata.region_size;
    region_multilog_id = old_flushed.metadata.region_multilog_id;
    region_num_logs = old_flushed.metadata.region_num_logs;
    region_which_log = old_flushed.metadata.region_which_log;
    log_area_len = old_flushed.metadata.log_area_len ∙ sym same_area;
    head = ap (λ (t : LogMetadata). t.head) metadata_read_back;
    log_length = ap (λ (t : LogMetadata). t.log_length) metadata_read_back;
    fits = rw same_area old_flushed.metadata.fits;
  }
