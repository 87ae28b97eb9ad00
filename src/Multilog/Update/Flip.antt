-- ===== src/Multilog/Update/Flip.antt =====
-- `update_log_metadata` of multilogimpl_v.rs: the flip of the corruption-detecting boolean, and the
-- whole update with what a crash during it can leave.
mod Cdb
use mathlib.Core.Path.{subst}
use verified_storage.Base.{
  ℕ, ◌+◌, ◌≤◌, ◌<◌, ◌≡◌, refl, sym, ap, ◌∙◌, ◌⊎◌, inl, inr, Bool, true, false, not, some, length,
  arith, List, if◌then◌else◌, u64_mod, get_or-update, length-map,
}
use verified_storage.Pmem.Bytes.{
  from_le_bytes, spec_u64_to_le_bytes, length-to_le_bytes, from_le_bytes-to_le_bytes,
}
use verified_storage.Pmem.View.{
  Region, Mem, CanCrashAs, committed, write, flush, len-flush, settled-flush, committed-flush,
  extract_bytes-write,
}
use verified_storage.Pmem.Crash.{crash_single_chunk}
use verified_storage.Pmem.Medium.{Medium, IsSound, cdb_value}
use verified_storage.Pmem.Regions.{
  WrpmRegions, AllOnlyCrashIn, region_at, no_region, mem_at, write_region, flush_regions,
}
use verified_storage.Pmem.Regions
use verified_storage.Log.Recover.{check_cdb}
use verified_storage.Log.Impl.{LogInfo}
use verified_storage.Multilog.Layout.{
  absolute_pos_of_log_cdb, absolute_pos_of_log_metadata_for_cdb_false,
  absolute_pos_of_log_metadata_for_cdb_true, get_log_metadata_pos, deserialize_log_cdb,
}
use verified_storage.Multilog.Spec.{AbstractMultiLogState, num_logs, drop_pending_appends}
use verified_storage.Multilog.Impl.{MultiLogImpl, update_log_metadata}
use verified_storage.Multilog.Inv.{EachConsistent, IsConsistent, IsValid}
use verified_storage.Multilog.Inv.Crash.{
  cdb_agree, recover_all_after_crash, multilog_recover_after_crash,
}
use verified_storage.Multilog.Inv.Update.{
  RegionConsistent-write, EachConsistent-region, EachConsistent-flush, IsConsistent-flush,
  MetadataSettled-flush, region_at-flush,
}
use verified_storage.Multilog.Update.Turn.{RecoversToEither, CanReplace, Stage}
use verified_storage.Multilog.Update.Loop.{write_each_log_metadata_lem}
pub use verified_storage.Multilog.Update.Flip.Cdb.{cdb_bytes}
use verified_storage.Multilog.Update.Flip.Cdb.{unused_pos, cdb_len, cdb_extracted, cdb_after_crash}

module _ {m : Medium} {rs : List Region} {multilog_id : ℕ} {cdb : Bool} {prev infos : List LogInfo}
    {s₀ s : AbstractMultiLogState}
    (v : Stage m rs multilog_id cdb prev infos s₀ s (num_logs s)) where
  flushed : List Region
  flushed = flush_regions rs

  flipped : List Region
  flipped = write_region flushed 0 absolute_pos_of_log_cdb (cdb_bytes (not cdb))

  old₁ : IsConsistent m flushed multilog_id cdb prev s₀
  unfolding flushed
  old₁ = IsConsistent-flush v.old

  first : 0 < num_logs s
  first = omega (arith, v.same_count, v.old.some_logs)

  in_rs : 0 < length rs
  in_rs = omega (arith, v.same_count, v.old.some_logs, v.old.consistent.regions_len)

  -- After the flush the other boolean selects the new metadata in every region.
  new₁ : EachConsistent m flushed multilog_id (not cdb) infos s
  unfolding flushed
  new₁ = record {
    regions_len = rw (length-map flush rs, v.same_count) v.old.consistent.regions_len;
    infos_len = v.replace.infos_len;
    each = λ i lt.
        rw (region_at-flush rs i (omega (arith, v.old.consistent.regions_len, v.same_count)))
          (record {
            region_fits =
                rw len-flush (v.old.consistent.each i (omega (arith, v.same_count))).region_fits;
            low_settled = λ k p q. settled-flush (region_at rs i) k;
            active_settled = λ k p q. settled-flush (region_at rs i) k;
            metadata = v.fresh i lt lt;
            info_valid = v.replace.valid i lt;
            describes = v.replace.describes i lt;
            area = v.replace.area i lt;
          });
  }

  -- The write of the boolean touches no region's metadata.
  flip_keeps :
      {b : Bool} {infos' : List LogInfo} {s' : AbstractMultiLogState}
      → 0 < num_logs s'
      → EachConsistent m flushed multilog_id b infos' s'
      → EachConsistent m flipped multilog_id b infos' s'
  unfolding flipped
  flip_keeps lt h = EachConsistent-region h 0 _ lt (
      RegionConsistent-write (h.each 0 lt) absolute_pos_of_log_cdb (cdb_bytes (not cdb))
        (omega arith) (omega (arith, cdb_len (not cdb))) (inl (ground (arith, cdb_len (not cdb)))))

  region_flipped :
      region_at flipped 0
      ≡ write (flush (region_at rs 0)) absolute_pos_of_log_cdb (cdb_bytes (not cdb))
  unfolding flushed flipped
  region_flipped =
      get_or-update (flush_regions rs) 0 _ no_region (rw (length-map flush rs) in_rs)
      ∙ ap (λ r. write r absolute_pos_of_log_cdb (cdb_bytes (not cdb))) (region_at-flush rs 0 in_rs)

  old_cdb : check_cdb (deserialize_log_cdb (committed (flush (region_at rs 0)))) ≡ some cdb
  unfolding flushed
  old_cdb =
      subst (λ r. check_cdb (deserialize_log_cdb (committed r)) ≡ some cdb)
        (region_at-flush rs 0 in_rs) old₁.cdb_matches.cdb_is

  crash_at_flip :
      (mems : List Mem)
      → Regions.CanCrashAs flipped mems
      → RecoversToEither m multilog_id (drop_pending_appends s₀) (drop_pending_appends s) mems
  crash_at_flip mems crash =
      elim (cdb_after_crash (region_at rs 0) (mem_at mems 0) cdb (not cdb)
        (omega (arith, (v.old.consistent.each 0 v.old.some_logs).metadata.fits)) old_cdb
        (subst (λ r. CanCrashAs r (mem_at mems 0)) region_flipped (crash.each 0 in_flipped))) [
          | inl e ↦ inl (
              recover_all_after_crash (flip_keeps v.old.some_logs old₁.consistent) mems crash
                v.old.some_logs v.old.few_logs e)
          | inr e ↦ inr (
              recover_all_after_crash (flip_keeps first new₁) mems crash first
                (omega (arith, v.same_count, v.old.few_logs)) e)
        ]
    where
      in_flipped : 0 < length flipped
      in_flipped = omega (arith, (flip_keeps first new₁).regions_len, first)

  new-IsValid :
      IsValid m
        (flush_regions flipped)
        multilog_id
        (record { num_logs = num_logs s; cdb = not cdb; infos = infos })
        s
  new-IsValid = record {
    num_logs_is = refl;
    metadata_settled = MetadataSettled-flush flipped;
    consistent = record {
      some_logs = first;
      few_logs = omega (arith, v.same_count, v.old.few_logs);
      cdb_matches =
          rw
            (
              region_at-flush flipped 0 (omega (arith, (flip_keeps first new₁).regions_len, first)),
              region_flipped,
            )
            (record {
              cdb_settled = λ k p q. settled-flush _ k;
              cdb_is = cdb_extracted (flush (region_at rs 0)) (not cdb);
            });
      consistent = EachConsistent-flush (flip_keeps first new₁);
    };
  }

-- The whole update: it leaves a valid multilog with the new metadata, and a crash during it leaves
-- the old multilog or the whole new one.
pub update_log_metadata_lem :
    {m : Medium} {multilog_id : ℕ} {self : MultiLogImpl} {prev : List LogInfo}
    {s₀ s : AbstractMultiLogState} (ws : WrpmRegions)
    → IsSound m
    → self.num_logs ≡ num_logs s
    → num_logs s ≡ num_logs s₀
    → IsConsistent m ws.pm_regions multilog_id self.cdb prev s₀
    → CanReplace ws.pm_regions prev self.infos s
    → AllOnlyCrashIn
        (RecoversToEither m multilog_id (drop_pending_appends s₀) (drop_pending_appends s))
        ws.history
    → let (self', ws') = update_log_metadata m self ws in
      IsValid m ws'.pm_regions multilog_id self' s
      × AllOnlyCrashIn
          (RecoversToEither m multilog_id (drop_pending_appends s₀) (drop_pending_appends s))
          ws'.history
unfolding update_log_metadata Regions.write Regions.flush flushed flipped
update_log_metadata_lem {m} {multilog_id} {self} {prev} {s₀} {s} ws sound n e old replace before =
    rw (unused_pos self.cdb, n)
      (let (v, during) =
          write_each_log_metadata_lem sound (num_logs s) 0 ws (omega arith)
            (record {
              same_count = e;
              old = old;
              replace = replace;
              fresh = λ i p q. absurd (omega arith);
            })
            before in
        (
          new-IsValid v,
          (
            λ mems crash. inr (multilog_recover_after_crash (new-IsValid v).consistent mems crash),
            (
              λ mems crash. crash_at_flip v mems crash,
              (λ mems crash. inl (multilog_recover_after_crash (old₁ v) mems crash), during),
            ),
          ),
        ))
