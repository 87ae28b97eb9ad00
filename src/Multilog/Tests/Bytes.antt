-- ===== src/Multilog/Tests/Bytes.antt =====
-- The writes of an append and of a commit leave bytes in every region.
use verified_storage.Base.{
  ℕ, zero, suc, List, [], ◌∷◌, take, drop, leb, sub64, length, update, not, inl, inr, Bool-cases,
}
use verified_storage.Pmem.Bytes.{AreBytes, AreBytes-to_le_bytes}
use verified_storage.Pmem.View.{Region, write}
use verified_storage.Pmem.Medium.{Medium, cdb_value}
use verified_storage.Pmem.Regions
use verified_storage.Pmem.Regions.{WrpmRegions, region_at, write_region, flush_regions}
use verified_storage.Log.Layout.Serialize.{AreBytes-serialize_log}
use verified_storage.Log.Impl.{LogInfo}
use verified_storage.Log.Fresh.{FlushesToBytes, write-FlushesToBytes, flush-FlushesToBytes}
use verified_storage.Log.Tests.Bytes.{AreBytes-take, AreBytes-drop}
use verified_storage.Multilog.Impl.{
  MultiLogImpl, info_at, append_bytes, write_log_metadata, write_each_log_metadata,
  update_log_metadata,
}

abbrev pub EachFlushesToBytes : List Region → Type 0
EachFlushesToBytes rs = (i : ℕ) → FlushesToBytes (region_at rs i)

update-bytes :
    (rs : List Region) (k : ℕ) (r : Region)
    → FlushesToBytes r
    → EachFlushesToBytes rs
    → EachFlushesToBytes (update rs k r)
update-bytes [] k r h hs i = hs i
update-bytes (r' ∷ rs) zero r h hs zero = h
update-bytes (r' ∷ rs) zero r h hs (suc i) = hs (suc i)
update-bytes (r' ∷ rs) (suc k) r h hs zero = hs zero
update-bytes (r' ∷ rs) (suc k) r h hs (suc i) = update-bytes rs k r h (λ j. hs (suc j)) i

write_region-bytes :
    (rs : List Region) (k addr : ℕ) (bytes : List ℕ)
    → AreBytes bytes
    → EachFlushesToBytes rs
    → EachFlushesToBytes (write_region rs k addr bytes)
write_region-bytes rs k addr bytes hb hs =
    update-bytes rs k (write (region_at rs k) addr bytes)
      (write-FlushesToBytes (region_at rs k) addr bytes hb (hs k)) hs

flush_regions-bytes :
    (rs : List Region) → EachFlushesToBytes rs → EachFlushesToBytes (flush_regions rs)
flush_regions-bytes [] hs i = hs i
flush_regions-bytes (r ∷ rs) hs zero = flush-FlushesToBytes r (hs zero)
flush_regions-bytes (r ∷ rs) hs (suc i) = flush_regions-bytes rs (λ j. hs (suc j)) i

pub append_bytes-bytes :
    (info : LogInfo) (ws : WrpmRegions) (k : ℕ) (bytes : List ℕ)
    → AreBytes bytes
    → EachFlushesToBytes ws.pm_regions
    → EachFlushesToBytes (append_bytes info ws k bytes).pm_regions
unfolding append_bytes Regions.write
append_bytes-bytes info ws k bytes hb hs =
    let before_wrap = sub64 info.log_area_len info.head_log_area_offset in
    let room = sub64 before_wrap info.log_plus_pending_length in
    elim (Bool-cases (leb before_wrap info.log_plus_pending_length)) [
      | inl wrapped ↦ rw wrapped (write_region-bytes ws.pm_regions k _ bytes hb hs)
      | inr straight ↦ elim (Bool-cases (leb (length bytes) room)) [
        | inl short ↦ rw (straight, short) (write_region-bytes ws.pm_regions k _ bytes hb hs)
        | inr long ↦
            rw (straight, long)
              (write_region-bytes _ k _ (drop room bytes) (AreBytes-drop room bytes hb) (
                write_region-bytes ws.pm_regions k _ (take room bytes) (AreBytes-take room bytes hb)
                  hs))
      ]
    ]

module _ (m : Medium) where
  write_each_log_metadata-bytes :
      (count k : ℕ) (infos : List LogInfo) (pos : ℕ) (ws : WrpmRegions)
      → EachFlushesToBytes ws.pm_regions
      → EachFlushesToBytes (write_each_log_metadata m count k infos pos ws).pm_regions
  unfolding write_each_log_metadata write_log_metadata Regions.write
  write_each_log_metadata-bytes zero k infos pos ws hs = hs
  write_each_log_metadata-bytes (suc count) k infos pos ws hs =
      write_each_log_metadata-bytes count (suc k) infos pos
        (write_log_metadata m (info_at infos k) pos ws k)
        (write_region-bytes _ k _ _ (AreBytes-to_le_bytes 8 _)
          (write_region-bytes ws.pm_regions k _ _ (AreBytes-serialize_log _) hs))

  pub update_log_metadata-bytes :
      (self : MultiLogImpl) (ws : WrpmRegions)
      → EachFlushesToBytes ws.pm_regions
      → EachFlushesToBytes (update_log_metadata m self ws).1.pm_regions
  unfolding update_log_metadata Regions.write Regions.flush
  update_log_metadata-bytes self ws hs = flush_regions-bytes _ (
      write_region-bytes _ 0 _ _ (AreBytes-to_le_bytes 8 (cdb_value (not self.cdb)))
        (flush_regions-bytes _ (write_each_log_metadata-bytes self.num_logs 0 self.infos _ ws hs)))
