-- ===== src/Multilog/Allowed.antt =====
-- multilogimpl_v.rs: the writes of `update_log_metadata` meet what `write` requires.
use mathlib.Core.Path.{subst}
use verified_storage.Base.{
  ℕ, zero, suc, ◌+◌, ◌≤◌, ◌<◌, ◌≡◌, refl, sym, ◌∙◌, inl, inr, not, List, length, arith, eq_or_ne,
  if◌then◌else◌, length-update, get_or-update, get_or-update_other, length-map, get_or-map,
}
use verified_storage.Pmem.Bytes.{length-to_le_bytes, spec_u64_to_le_bytes}
use verified_storage.Pmem.View.{
  Region, write, flush, len-write, len-flush, settled-flush, NoOutstandingWritesInRange,
}
use verified_storage.Pmem.Medium.{Medium, cdb_value}
use verified_storage.Pmem.Regions
use verified_storage.Pmem.Regions.{
  WrpmRegions, IsAllowed, AllAllowed, region_at, no_region, write_region, flush_regions,
}
use verified_storage.Log.Layout.{absolute_pos_of_log_area, serialize_log, LogMetadata}
use verified_storage.Log.Layout.Serialize.{length-serialize_log}
use verified_storage.Log.Impl.{LogInfo}
use verified_storage.Log.Recover.{crc_log}
use verified_storage.Log.Allowed.{metadata-IsAllowed, crc-IsAllowed}
use verified_storage.Multilog.Layout.{
  absolute_pos_of_log_metadata_for_cdb_false, absolute_pos_of_log_metadata_for_cdb_true,
}
use verified_storage.Multilog.Impl.{
  MultiLogImpl, info_at, write_log_metadata, write_each_log_metadata, update_log_metadata,
}
use verified_storage.Multilog.Inv.{MetadataSettled}

-- The regions have room for their metadata, and from an index on it is settled.
record Ready (rs : List Region) (from : ℕ) : Type 0 where
  pub large : (i : ℕ) → i < length rs → absolute_pos_of_log_area ≤ (region_at rs i).len
  pub settled :
      (i : ℕ)
      → from ≤ i
      → i < length rs
      → NoOutstandingWritesInRange (region_at rs i) 0 absolute_pos_of_log_area

Ready-later : {rs : List Region} {from : ℕ} → Ready rs from → Ready rs (suc from)
Ready-later v = record { large = v.large; settled = λ i h lt. v.settled i (omega arith) lt }

Ready-write :
    {rs : List Region} {from : ℕ} (k addr : ℕ) (bytes : List ℕ)
    → k < from
    → Ready rs from
    → Ready (write_region rs k addr bytes) from
Ready-write {rs} k addr bytes h v = record {
  large = λ i lt. elim (eq_or_ne i k) [
    | inl e ↦
        subst (λ j. absolute_pos_of_log_area ≤ (region_at (write_region rs k addr bytes) j).len)
          (sym e)
          (rw
            (get_or-update rs k (write (region_at rs k) addr bytes) no_region
              (omega (arith, e, length-update rs k (write (region_at rs k) addr bytes))))
            (omega (
              arith,
              e,
              len-write (region_at rs k) addr bytes,
              v.large k (omega (arith, e, length-update rs k (write (region_at rs k) addr bytes))),
            )))
    | inr ne ↦
        rw (get_or-update_other rs k i (write (region_at rs k) addr bytes) no_region ne)
          (v.large i (omega (arith, length-update rs k (write (region_at rs k) addr bytes))))
  ];
  settled = λ i lo lt.
      rw
        (get_or-update_other rs k i (write (region_at rs k) addr bytes) no_region
          (λ e. omega arith))
        (v.settled i lo (omega (arith, length-update rs k (write (region_at rs k) addr bytes))));
}

-- The turn of one log, and then all of them.
module _ (m : Medium) (pos : ℕ) (fits : pos + 40 ≤ absolute_pos_of_log_area) where
  write_log_metadata_allowed :
      (info : LogInfo) (ws : WrpmRegions) (k : ℕ)
      → k < length ws.pm_regions
      → Ready ws.pm_regions k
      → AllAllowed ws.writes
      → let ws' = write_log_metadata m info pos ws k in
        (length ws'.pm_regions ≡ length ws.pm_regions)
        × Ready ws'.pm_regions (suc k)
        × AllAllowed ws'.writes
  unfolding write_log_metadata Regions.write
  write_log_metadata_allowed info ws k lt v before = (
    length-update (write_region ws.pm_regions k pos (serialize_log new)) k _ ∙ same_count,
    Ready-write k _ _ (omega arith) (Ready-write k _ _ (omega arith) (Ready-later v)),
    (
      record {
        in_range = omega (arith, same_count);
        allowed =
            rw
              (get_or-update ws.pm_regions k
                (write (region_at ws.pm_regions k) pos (serialize_log new)) no_region lt)
              (crc-IsAllowed (region_at ws.pm_regions k) (v.settled k (omega arith) lt)
                (v.large k lt) pos fits (serialize_log new) _ size
                (length-to_le_bytes 8 (crc_log m new)));
      },
      (
        record {
          in_range = lt;
          allowed =
              metadata-IsAllowed (region_at ws.pm_regions k) (v.settled k (omega arith) lt)
                (v.large k lt) pos fits (serialize_log new) (spec_u64_to_le_bytes (crc_log m new))
                size (length-to_le_bytes 8 (crc_log m new));
        },
        before,
      ),
    ),
  )
    where
      new : LogMetadata
      new = record { head = info.head; padding = 0; log_length = info.log_length }

      size : length (serialize_log new) ≡ 32
      size = length-serialize_log new

      same_count :
          length (write_region ws.pm_regions k pos (serialize_log new)) ≡ length ws.pm_regions
      same_count = length-update ws.pm_regions k _

  write_each_log_metadata_allowed :
      (count k : ℕ) (infos : List LogInfo) (ws : WrpmRegions)
      → k + count ≤ length ws.pm_regions
      → Ready ws.pm_regions k
      → AllAllowed ws.writes
      → let ws' = write_each_log_metadata m count k infos pos ws in
        (length ws'.pm_regions ≡ length ws.pm_regions)
        × Ready ws'.pm_regions (k + count)
        × AllAllowed ws'.writes
  unfolding write_each_log_metadata
  write_each_log_metadata_allowed zero k infos ws h v before =
      (refl, subst (Ready ws.pm_regions) (omega arith) v, before)
  write_each_log_metadata_allowed (suc count) k infos ws h v before =
      let (same_count, after, turn) =
        write_log_metadata_allowed (info_at infos k) ws k (omega arith) v before in
      let (same_counts, ready, all) =
        write_each_log_metadata_allowed count (suc k) infos
          (write_log_metadata m (info_at infos k) pos ws k) (omega (arith, same_count)) after
          turn in
      (same_counts ∙ same_count, subst (Ready _) (omega arith) ready, all)

module _ (m : Medium) (self : MultiLogImpl) (ws : WrpmRegions)
    (some_region : 0 < length ws.pm_regions) (same_count : self.num_logs ≡ length ws.pm_regions)
    (settled : MetadataSettled ws.pm_regions)
    (large : (i : ℕ)
      → i < length ws.pm_regions
      → absolute_pos_of_log_area ≤ (region_at ws.pm_regions i).len)
    (before : AllAllowed ws.writes) where
  unused_metadata_pos : ℕ
  unused_metadata_pos =
      if self.cdb
      then absolute_pos_of_log_metadata_for_cdb_false
      else absolute_pos_of_log_metadata_for_cdb_true

  pub update_log_metadata_allowed :
      let (_, ws') = update_log_metadata m self ws in AllAllowed ws'.writes
  unfolding update_log_metadata Regions.write Regions.flush unused_metadata_pos
  update_log_metadata_allowed =
      let (same_counts, ready, all) =
        write_each_log_metadata_allowed m unused_metadata_pos (ground arith) self.num_logs 0
          self.infos ws (omega (arith, same_count))
          (record { large = large; settled = λ i h lt. settled i lt }) before in
      (
        record {
          in_range = omega (arith, length-map flush written, same_counts);
          allowed =
              rw (get_or-map flush written 0 no_region no_region (omega (arith, same_counts)))
                (record {
                  inside = omega (
                    arith,
                    len-flush (region_at written 0),
                    ready.large 0 (omega (arith, same_counts)),
                    length-to_le_bytes 8 (cdb_value (not self.cdb)),
                  );
                  free = λ k p q. settled-flush (region_at written 0) k;
                });
        },
        all,
      )
    where
      written : List Region
      written =
          (write_each_log_metadata m self.num_logs 0 self.infos unused_metadata_pos ws).pm_regions
