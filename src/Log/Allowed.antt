-- ===== src/Log/Allowed.antt =====
-- logimpl_v.rs: the writes that the methods make meet what `write` requires.
use mathlib.Core.Path.{subst}
use verified_storage.Base.{
  ℕ, ◌+◌, ◌-◌, ◌≤◌, ◌<◌, ◌≡◌, sym, ap, ◌∙◌, inl, inr, List, length, take, drop, arith, length-take,
  length-drop, lt_or_le, if◌then◌else◌, le→leb, lt→leb, u64_mod, u128_max, not,
}
use verified_storage.Pmem.Bytes.{length-to_le_bytes, spec_u64_to_le_bytes}
use verified_storage.Pmem.View.{
  Region, write, flush, write_out, len-write, settled-flush, len-flush, NoOutstandingWritesInRange,
}
use verified_storage.Pmem.Medium.{Medium, cdb_value}
use verified_storage.Pmem.Wrpm
use verified_storage.Pmem.Wrpm.{Wrpm, WriteCall, IsAllowed, AllAllowed}
use verified_storage.Log.Layout.{
  absolute_pos_of_log_area, relative_log_pos_to_log_area_offset, serialize_log, LogMetadata,
  absolute_pos_of_log_metadata_for_cdb_false, absolute_pos_of_log_metadata_for_cdb_true,
}
use verified_storage.Log.Layout.Serialize.{length-serialize_log}
use verified_storage.Log.Impl.{LogInfo, LogImpl, append_bytes, update_log_metadata}
use verified_storage.Log.Spec.{AbstractLogState}
use verified_storage.Log.Spec
use verified_storage.Log.Recover.{crc_log}
use verified_storage.Log.Inv.{InfoValid, AreaHolds, IsValid, log_addr}
use verified_storage.Log.Inv.Append.{
  max_len_without_wrapping, appended, IsValid-append_piece, piece_addr,
}
use verified_storage.Log.Append.{rest_fits, plain_append, append_bytes-eq, wrapped_addr}

module _ {info : LogInfo} (v : InfoValid info) (n : ℕ) (fits : n ≤ max_len_without_wrapping info)
    (space : info.log_plus_pending_length + n ≤ info.log_area_len) where
  piece_inside :
      log_addr info info.log_plus_pending_length + n ≤ absolute_pos_of_log_area + info.log_area_len
  unfolding relative_log_pos_to_log_area_offset
  piece_inside = ground arith

-- A piece that does not wrap is written behind the pending appends.
pub piece-IsAllowed :
    {r : Region} {info : LogInfo} {s : AbstractLogState} (bytes : List ℕ)
    → InfoValid info
    → absolute_pos_of_log_area + info.log_area_len ≤ r.len
    → AreaHolds r info s
    → length bytes ≤ max_len_without_wrapping info
    → info.log_plus_pending_length + length bytes ≤ info.log_area_len
    → IsAllowed
        (record { to = r; addr = log_addr info info.log_plus_pending_length; bytes = bytes })
piece-IsAllowed {r = r} {info} bytes valid large area fits space = record {
  inside = omega (arith, piece_inside valid (length bytes) fits space, large);
  free = free;
}
  where
    free :
        NoOutstandingWritesInRange r
          (log_addr info info.log_plus_pending_length)
          (log_addr info info.log_plus_pending_length + length bytes)
    free k p q =
        ap (λ a. (r.state a).outstanding_write) (sym e)
        ∙ area.free_settled pos (omega arith) (omega arith)
      where
        pos : ℕ
        pos = info.log_plus_pending_length + (k - log_addr info info.log_plus_pending_length)

        e : log_addr info pos ≡ k
        e = piece_addr valid (length bytes) fits pos (omega arith) (omega arith) space ∙ omega arith

-- The three writes of `update_log_metadata`, to a region whose metadata is settled.
module _ (r : Region) (settled : NoOutstandingWritesInRange r 0 absolute_pos_of_log_area)
    (large : absolute_pos_of_log_area ≤ r.len) (pos : ℕ)
    (fits : pos + 40 ≤ absolute_pos_of_log_area) (metadata crc : List ℕ)
    (size : length metadata ≡ 32) (crc_len : length crc ≡ 8) where
  pub metadata-IsAllowed : IsAllowed (record { to = r; addr = pos; bytes = metadata })
  metadata-IsAllowed = record {
    inside = omega arith;
    free = λ k p q. settled k (omega arith) (omega arith);
  }

  pub crc-IsAllowed : IsAllowed (record { to = write r pos metadata; addr = pos + 32; bytes = crc })
  crc-IsAllowed = record {
    inside = omega (arith, len-write r pos metadata);
    free = λ k p q.
        ap (λ b. b.outstanding_write) (write_out r pos metadata k (inr (omega arith)))
        ∙ settled k (omega arith) (omega arith);
  }

  cdb-IsAllowed :
      (cdb : List ℕ)
      → length cdb ≡ 8
      → IsAllowed (record {
        to = flush (write (write r pos metadata) (pos + 32) crc);
        addr = 80;
        bytes = cdb;
      })
  cdb-IsAllowed cdb e = record {
    inside = omega (
      arith,
      len-flush (write (write r pos metadata) (pos + 32) crc),
      len-write (write r pos metadata) (pos + 32) crc,
      len-write r pos metadata,
    );
    free = λ k p q. settled-flush (write (write r pos metadata) (pos + 32) crc) k;
  }

module _ (m : Medium) (self : LogImpl) (w : Wrpm)
    (settled : NoOutstandingWritesInRange w.pm_region 0 absolute_pos_of_log_area)
    (large : absolute_pos_of_log_area ≤ w.pm_region.len) (before : AllAllowed w.writes) where
  pub update_log_metadata_allowed :
      let (_, w') = update_log_metadata m self w in AllAllowed w'.writes
  unfolding update_log_metadata Wrpm.write Wrpm.flush
  update_log_metadata_allowed = (
    cdb-IsAllowed w.pm_region settled large _ fits _ _ size crc_len _
        (length-to_le_bytes 8 (cdb_value (not self.cdb))),
    (
      crc-IsAllowed w.pm_region settled large _ fits _ _ size crc_len,
      (metadata-IsAllowed w.pm_region settled large _ fits _ _ size crc_len, before),
    ),
  )
    where
      new : LogMetadata
      new = record { head = self.info.head; padding = 0; log_length = self.info.log_length }

      size : length (serialize_log new) ≡ 32
      size = length-serialize_log new

      crc_len : length (spec_u64_to_le_bytes (crc_log m new)) ≡ 8
      crc_len = length-to_le_bytes 8 (crc_log m new)

      fits :
          (if self.cdb
              then absolute_pos_of_log_metadata_for_cdb_false
              else absolute_pos_of_log_metadata_for_cdb_true)
            + 40
          ≤ absolute_pos_of_log_area
      fits = ground arith

-- Both writes of an append that wraps, or the only one of one that does not.
module _ {m : Medium} {log_id : ℕ} {self : LogImpl} {s : AbstractLogState} (w : Wrpm)
    (bytes : List ℕ) (v : IsValid m w.pm_region log_id self s)
    (space : self.info.log_plus_pending_length + length bytes ≤ self.info.log_area_len)
    (tail : self.info.head + self.info.log_plus_pending_length + length bytes ≤ u128_max)
    (before : AllAllowed w.writes) where
  plain_append_wrapping_allowed :
      max_len_without_wrapping self.info < length bytes
      → AllAllowed (plain_append self.info w bytes).writes
  unfolding plain_append Wrpm.write
  plain_append_wrapping_allowed long =
      rw (lt→leb (length bytes) (max_len_without_wrapping self.info) long) (
        subst
            (λ a. IsAllowed (record {
              to =
                  write w.pm_region (log_addr self.info self.info.log_plus_pending_length)
                    (take k bytes);
              addr = a;
              bytes = drop k bytes;
            }))
            (wrapped_addr v.info (length (take k bytes)) (length bytes) 0 len₁ long space)
            (piece-IsAllowed (drop k bytes) first.info first.metadata.fits first.area
              (rest_fits v.info (length (take k bytes)) (length bytes) (length (drop k bytes)) len₁
                long space len₂)
              (omega (arith, len₁, len₂))),
        (
          piece-IsAllowed (take k bytes) v.info v.metadata.fits v.area (omega (arith, len₁))
              (omega (arith, len₁)),
          before,
        ),
      )
    where
      k : ℕ
      k = max_len_without_wrapping self.info

      len₁ : length (take k bytes) ≡ k
      len₁ = length-take k bytes (omega arith)

      len₂ : length (drop k bytes) ≡ length bytes - k
      len₂ = length-drop k bytes

      first :
          IsValid m
            (write w.pm_region
              (log_addr self.info self.info.log_plus_pending_length)
              (take k bytes))
            log_id
            (record self { info = appended self.info (length (take k bytes)) })
            (Spec.tentatively_append s (take k bytes))
      first =
          IsValid-append_piece v (take k bytes) (omega (arith, len₁)) (omega (arith, len₁))
            (omega (arith, len₁))

  pub append_bytes_allowed :
      absolute_pos_of_log_area + self.info.log_area_len < u64_mod
      → AllAllowed (append_bytes self.info w bytes).writes
  unfolding plain_append Wrpm.write
  append_bytes_allowed small =
      rw (append_bytes-eq self.info w bytes v.info small space)
        (elim (lt_or_le (max_len_without_wrapping self.info) (length bytes)) [
          | inl long ↦ plain_append_wrapping_allowed long
          | inr short ↦
              rw (le→leb (length bytes) (max_len_without_wrapping self.info) short)
                (piece-IsAllowed bytes v.info v.metadata.fits v.area short space, before)
        ])
