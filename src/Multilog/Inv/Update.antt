-- ===== src/Multilog/Inv/Update.antt =====
-- inv_v.rs of the multilog: writes to the metadata of a region, flushes, and what they keep.
use mathlib.Core.Path.{subst}
use verified_storage.Base.{
  ℕ, ◌+◌, ◌≤◌, ◌<◌, ◌≡◌, ◌≢◌, sym, ◌∙◌, ◌⊎◌, inl, inr, Bool, length, get_or, update, arith, List,
  length-update, length-map, get_or-update, get_or-update_other, get_or-map, eq_or_ne,
}
use verified_storage.Pmem.View.{
  Region, committed, write, write_out, committed-write, len-write, flush, len-flush, settled-flush,
  committed-flush_settled,
}
use verified_storage.Pmem.Medium.{Medium}
use verified_storage.Pmem.Regions.{region_at, flush_regions, no_region, write_region}
use verified_storage.Log.Layout.{absolute_pos_of_log_area, crc_size}
use verified_storage.Log.Spec.{AbstractLogState}
use verified_storage.Log.Spec
use verified_storage.Log.Impl.{LogInfo}
use verified_storage.Log.Inv.Update.{AreaHolds-same, AreaHolds-flush}
use verified_storage.Multilog.Layout.{absolute_pos_of_log_cdb, get_log_metadata_pos}
use verified_storage.Multilog.Spec.{AbstractMultiLogState, log_at, num_logs}
use verified_storage.Multilog.Impl.{info_at, no_info}
use verified_storage.Multilog.Inv.{
  LogName, RegionConsistent, EachConsistent, MatchesCdb, IsConsistent, get_log_crc_end,
  MetadataSettled,
}
use verified_storage.Multilog.Inv.Crash.{MetadataConsistent-agree, cdb_agree}

module _ {m : Medium} {r : Region} {name : LogName} {cdb : Bool} {info : LogInfo}
    {s : AbstractLogState} (v : RegionConsistent m r name cdb info s) where
  -- A write between the region metadata and the log area, to what the boolean does not select,
  -- keeps consistency.
  pub RegionConsistent-write :
      (addr : ℕ) (bytes : List ℕ)
      → absolute_pos_of_log_cdb ≤ addr
      → addr + length bytes ≤ absolute_pos_of_log_area
      → (addr + length bytes ≤ get_log_metadata_pos cdb) ⊎ (get_log_crc_end cdb ≤ addr)
      → RegionConsistent m (write r addr bytes) name cdb info s
  RegionConsistent-write addr bytes lo hi unused = record {
    region_fits = rw len-write v.region_fits;
    low_settled = λ k p q. rw (write_out r addr bytes k (inl (omega arith))) (v.low_settled k p q);
    active_settled = λ k p q. rw (write_out r addr bytes k (ground arith)) (v.active_settled k p q);
    metadata = rw committed-write v.metadata;
    info_valid = v.info_valid;
    describes = v.describes;
    area = AreaHolds-same v.info_valid (λ a h. write_out r addr bytes a (inr (omega arith))) v.area;
  }

  pub RegionConsistent-flush : RegionConsistent m (flush r) name cdb info s
  RegionConsistent-flush = record {
    region_fits = rw len-flush v.region_fits;
    low_settled = λ k p q. settled-flush r k;
    active_settled = λ k p q. settled-flush r k;
    metadata =
        MetadataConsistent-agree m (committed r) (committed (flush r)) cdb (sym (len-flush r))
          (λ k p q. sym (committed-flush_settled r k (v.low_settled k p q)))
          (λ k p q. sym (committed-flush_settled r k (v.active_settled k p q))) v.metadata;
    info_valid = v.info_valid;
    describes = v.describes;
    area = AreaHolds-flush v.area;
  }

abbrev pub name_of : ℕ → ℕ → ℕ → LogName
name_of multilog_id count i = record { multilog_id = multilog_id; num_logs = count; which_log = i }

-- The region at an index after a flush, and after an update.
pub region_at-flush :
    (rs : List Region) (i : ℕ)
    → i < length rs
    → region_at (flush_regions rs) i ≡ flush (region_at rs i)
region_at-flush rs i h = get_or-map flush rs i no_region no_region h

module _ {m : Medium} {rs : List Region} {multilog_id : ℕ} {cdb : Bool} {infos : List LogInfo}
    {s : AbstractMultiLogState} (v : EachConsistent m rs multilog_id cdb infos s) where
  pub EachConsistent-flush : EachConsistent m (flush_regions rs) multilog_id cdb infos s
  EachConsistent-flush = record {
    regions_len = length-map flush rs ∙ v.regions_len;
    infos_len = v.infos_len;
    each = λ i lt.
        rw (region_at-flush rs i (omega (arith, v.regions_len)))
          (RegionConsistent-flush (v.each i lt));
  }

  -- One region changes, and what is known of the others stays.
  pub EachConsistent-region :
      (k : ℕ) (r : Region)
      → k < num_logs s
      → RegionConsistent m r (name_of multilog_id (num_logs s) k) cdb (info_at infos k) (log_at s k)
      → EachConsistent m (update rs k r) multilog_id cdb infos s
  EachConsistent-region k r lt new = record {
    regions_len = length-update rs k r ∙ v.regions_len;
    infos_len = v.infos_len;
    each = λ i p. elim (eq_or_ne i k) [
      | inl e ↦ rw (e, get_or-update rs k r no_region (omega (arith, v.regions_len))) new
      | inr ne ↦ rw (get_or-update_other rs k i r no_region ne) (v.each i p)
    ];
  }

  -- One log changes, with its region.
  pub EachConsistent-log :
      (k : ℕ) (r : Region) (info : LogInfo) (log : AbstractLogState)
      → k < num_logs s
      → RegionConsistent m r (name_of multilog_id (num_logs s) k) cdb info log
      → EachConsistent m
          (update rs k r)
          multilog_id
          cdb
          (update infos k info)
          (record { states = update s.states k log })
  EachConsistent-log k r info log lt new = record {
    regions_len = rw (length-update rs k r, length-update s.states k log) v.regions_len;
    infos_len = rw (length-update infos k info, length-update s.states k log) v.infos_len;
    each = λ i p.
        rw (length-update s.states k log)
          (at i (omega (arith, length-update s.states k log)) (eq_or_ne i k));
  }
    where
      at :
          (i : ℕ)
          → i < num_logs s
          → (i ≡ k) ⊎ (i ≢ k)
          → RegionConsistent m
              (region_at (update rs k r) i)
              (name_of multilog_id (num_logs s) i)
              cdb
              (info_at (update infos k info) i)
              (get_or (update s.states k log) i (Spec.initialize 0))
      at i p (inl e) =
          rw
            (
              e,
              get_or-update rs k r no_region (omega (arith, v.regions_len)),
              get_or-update infos k info no_info (omega (arith, v.infos_len)),
              get_or-update s.states k log (Spec.initialize 0) lt,
            )
            new
      at i p (inr ne) =
          rw
            (
              get_or-update_other rs k i r no_region ne,
              get_or-update_other infos k i info no_info ne,
              get_or-update_other s.states k i log (Spec.initialize 0) ne,
            )
            (v.each i p)

MatchesCdb-write :
    {r : Region} {cdb : Bool} (addr : ℕ) (bytes : List ℕ)
    → absolute_pos_of_log_cdb + crc_size ≤ addr
    → MatchesCdb r cdb
    → MatchesCdb (write r addr bytes) cdb
MatchesCdb-write {r} addr bytes lo h = record {
  cdb_settled = λ k p q. rw (write_out r addr bytes k (inl (omega arith))) (h.cdb_settled k p q);
  cdb_is = rw committed-write h.cdb_is;
}

MatchesCdb-flush : {r : Region} {cdb : Bool} → MatchesCdb r cdb → MatchesCdb (flush r) cdb
MatchesCdb-flush {r} h = record {
  cdb_settled = λ k p q. settled-flush r k;
  cdb_is =
      cdb_agree (committed r) (committed (flush r))
        (λ k p q. sym (committed-flush_settled r k (h.cdb_settled k p q))) h.cdb_is;
}

module _ {m : Medium} {rs : List Region} {multilog_id : ℕ} {cdb : Bool} {infos : List LogInfo}
    {s : AbstractMultiLogState} (v : IsConsistent m rs multilog_id cdb infos s) where
  -- A write to log metadata that the boolean does not select keeps consistency
  -- (`lemma_updating_inactive_metadata_maintains_invariants`).
  pub IsConsistent-write_unused :
      (k addr : ℕ) (bytes : List ℕ)
      → k < num_logs s
      → absolute_pos_of_log_cdb + crc_size ≤ addr
      → addr + length bytes ≤ absolute_pos_of_log_area
      → (addr + length bytes ≤ get_log_metadata_pos cdb) ⊎ (get_log_crc_end cdb ≤ addr)
      → IsConsistent m (write_region rs k addr bytes) multilog_id cdb infos s
  IsConsistent-write_unused k addr bytes lt lo hi unused = record {
    some_logs = v.some_logs;
    few_logs = v.few_logs;
    cdb_matches = elim (eq_or_ne 0 k) [
      | inl e ↦
          subst (λ j. MatchesCdb (region_at (write_region rs k addr bytes) j) cdb) (sym e)
            (rw
              (get_or-update rs k (write (region_at rs k) addr bytes) no_region
                (omega (arith, v.consistent.regions_len)))
              (MatchesCdb-write addr bytes lo
                (subst (λ j. MatchesCdb (region_at rs j) cdb) e v.cdb_matches)))
      | inr ne ↦
          rw (get_or-update_other rs k 0 (write (region_at rs k) addr bytes) no_region ne)
            v.cdb_matches
    ];
    consistent =
        EachConsistent-region v.consistent k (write (region_at rs k) addr bytes) lt
          (RegionConsistent-write (v.consistent.each k lt) addr bytes (omega arith) hi unused);
  }

  -- `lemma_flushing_metadata_maintains_invariants`
  pub IsConsistent-flush : IsConsistent m (flush_regions rs) multilog_id cdb infos s
  IsConsistent-flush = record {
    some_logs = v.some_logs;
    few_logs = v.few_logs;
    cdb_matches =
        rw (region_at-flush rs 0 (omega (arith, v.consistent.regions_len, v.some_logs)))
          (MatchesCdb-flush v.cdb_matches);
    consistent = EachConsistent-flush v.consistent;
  }

pub MetadataSettled-flush : (rs : List Region) → MetadataSettled (flush_regions rs)
MetadataSettled-flush rs i lt k p q =
    let lt' : i < length rs = omega (arith, length-map flush rs) in
    rw (region_at-flush rs i lt') (settled-flush (region_at rs i) k)
