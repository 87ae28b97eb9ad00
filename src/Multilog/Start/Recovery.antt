-- ===== src/Multilog/Start/Recovery.antt =====
-- multilogimpl_v.rs, start_v.rs: `start` on regions that recover.
mod Found
use mathlib.Core.Path.{subst}
use verified_storage.Base.{
  ℕ, ◌+◌, ◌≤◌, ◌<◌, ◌≡◌, refl, sym, ap, ◌∙◌, ◌⊎◌, inl, inr, Bool, none, some, ok, err, false, ltb,
  le→ltb, List, [], ◌∷◌, length, map, get_or, u64_mod, arith, length-map, get_or-map,
}
use verified_storage.Pmem.View.{Region, Mem, committed, flush, settled-flush, len-flush}
use verified_storage.Pmem.Medium.{Medium, IsSound}
use verified_storage.Pmem.Regions.{
  WrpmRegions, region_at, no_region, no_mem, flush_regions, in_region, in_region-IsSound,
}
use verified_storage.Pmem.Regions
use verified_storage.Log.Recover.{check_cdb}
use verified_storage.Log.Start.Checks.{OfBytes}
use verified_storage.Log.Start.Held.{held-Describes, held-AreaHolds}
use verified_storage.Multilog.Layout.{deserialize_log_cdb}
use verified_storage.Multilog.Recover.{
  recover_all, recover_cdb, recover_abstract_log_from_region_given_cdb,
}
use verified_storage.Multilog.Recovered.{recover_all-AreLogsOf}
use verified_storage.Multilog.Spec.{AbstractMultiLogState, log_at, num_logs}
use verified_storage.Multilog.Impl.{MultiLogImpl, no_info}
use verified_storage.Multilog.Impl.Err.{crc_mismatch}
use verified_storage.Multilog.Inv.{MetadataConsistent, RegionConsistent, IsValid}
use verified_storage.Multilog.Inv.Update.{name_of, region_at-flush}
use verified_storage.Multilog.Start.{read_cdb, read_logs_variables, start}
use verified_storage.Multilog.Start.Inversion.{
  info_of, recover_cdb_inv, recover_region_metadata, recover_region_info, recover_region_state,
}
use verified_storage.Multilog.Start.Recovery.Found.{cdb_read, infos_read, IsValid-recovered}
use verified_storage.Multilog.Start.Stages.{
  OkOrCorrupted, infos_of, read_cdb_lem, read_logs_variables_lem,
}
use verified_storage.Multilog.Start.Recovery.Found.{recover_all_count}

-- On regions whose contents after a flush recover to an abstract state, `start` returns a multilog
-- that is valid for that state, or it reports a CRC mismatch, and then the memory is not impervious
-- to corruption.
pub multilog_start_lem :
    {m : Medium} (sound : IsSound m) (ws : WrpmRegions) (multilog_id : ℕ)
    (s : AbstractMultiLogState)
    → ((i : ℕ) → i < length ws.pm_regions → (region_at ws.pm_regions i).len < u64_mod)
    → ((i : ℕ) → i < length ws.pm_regions → OfBytes (committed (flush (region_at ws.pm_regions i))))
    → recover_all m (map committed (flush_regions ws.pm_regions)) multilog_id ≡ some s
    → let (result, ws') = start m ws multilog_id in
      ((self : MultiLogImpl) × (result ≡ ok self) × IsValid m ws'.pm_regions multilog_id self s)
      ⊎ ((result ≡ err crc_mismatch) × (m.impervious_to_corruption ≡ false))
unfolding start Regions.flush
multilog_start_lem {m} sound ws multilog_id s fits bytes h =
    let rs = flush_regions ws.pm_regions in
    let (cdb, first, (len, each)) = recover_all-AreLogsOf m (map committed rs) multilog_id s h in
    let same_count : num_logs s ≡ length rs = len ∙ length-map committed rs in
    finish cdb
      (cdb_read m rs multilog_id s settled fits_after h cdb first same_count each sound bytes_after)
      (infos_read m rs multilog_id s settled fits_after h cdb first same_count each sound
        bytes_after)
      (IsValid-recovered m rs multilog_id s settled fits_after h cdb first same_count each)
  where
    below : (i : ℕ) → i < length (flush_regions ws.pm_regions) → i < length ws.pm_regions
    below i lt = omega (arith, length-map flush ws.pm_regions)

    settled :
        (i : ℕ)
        → i < length (flush_regions ws.pm_regions)
        → (pos : ℕ)
        → ((region_at (flush_regions ws.pm_regions) i).state pos).outstanding_write ≡ none
    settled i lt pos =
        rw (region_at-flush ws.pm_regions i (below i lt))
          (settled-flush (region_at ws.pm_regions i) pos)

    fits_after :
        (i : ℕ)
        → i < length (flush_regions ws.pm_regions)
        → (region_at (flush_regions ws.pm_regions) i).len < u64_mod
    fits_after i lt =
        rw (region_at-flush ws.pm_regions i (below i lt), len-flush) (fits i (below i lt))

    bytes_after :
        (i : ℕ)
        → i < length (flush_regions ws.pm_regions)
        → OfBytes (committed (region_at (flush_regions ws.pm_regions) i))
    bytes_after i lt =
        subst (λ r. OfBytes (committed r)) (sym (region_at-flush ws.pm_regions i (below i lt)))
          (bytes i (below i lt))

    counts :
        (0 < length (flush_regions ws.pm_regions))
        × (length (flush_regions ws.pm_regions) ≤ 0xffff_ffff)
    counts =
        let (a, b) =
          recover_all_count m (map committed (flush_regions ws.pm_regions)) multilog_id s h in
        (
          omega (arith, length-map committed (flush_regions ws.pm_regions)),
          omega (arith, length-map committed (flush_regions ws.pm_regions)),
        )

    nonempty : ltb (length (flush_regions ws.pm_regions)) 1 ≡ false
    nonempty = le→ltb _ 1 (omega (arith, counts))

    few : ltb 0xffff_ffff (length (flush_regions ws.pm_regions)) ≡ false
    few = le→ltb 0xffff_ffff _ counts.1

    finish :
        (cdb : Bool)
        → OkOrCorrupted m (read_cdb (in_region m 0) (region_at (flush_regions ws.pm_regions) 0)) cdb
        → OkOrCorrupted m
            (read_logs_variables m
              (flush_regions ws.pm_regions)
              multilog_id
              cdb
              (length (flush_regions ws.pm_regions))
              0)
            (infos_of (flush_regions ws.pm_regions) cdb)
        → IsValid m
            (flush_regions ws.pm_regions)
            multilog_id
            (record {
              num_logs = length (flush_regions ws.pm_regions);
              cdb = cdb;
              infos = infos_of (flush_regions ws.pm_regions) cdb;
            })
            s
        → let (result, ws') = start m ws multilog_id in
          ((self : MultiLogImpl) × (result ≡ ok self) × IsValid m ws'.pm_regions multilog_id self s)
          ⊎ ((result ≡ err crc_mismatch) × (m.impervious_to_corruption ≡ false))
    finish cdb (inr (e, c)) b v = inr (rw (nonempty, few, e), c)
    finish cdb (inl e) (inr (e', c)) v = inr (rw (nonempty, few, e, e'), c)
    finish cdb (inl e) (inl e') v = inl (
      record {
        num_logs = length (flush_regions ws.pm_regions);
        cdb = cdb;
        infos = infos_of (flush_regions ws.pm_regions) cdb;
      },
      rw (nonempty, few, e, e'),
      rw (nonempty, few) v,
    )
