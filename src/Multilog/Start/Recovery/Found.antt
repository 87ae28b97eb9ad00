-- ===== src/Multilog/Start/Recovery/Found.antt =====
-- start_v.rs: what is read of regions that recover.
use mathlib.Core.Path.{subst}
use verified_storage.Base.{
  ℕ, ◌+◌, ◌≤◌, ◌<◌, ◌≡◌, refl, sym, ap, ◌∙◌, Bool, none, some, List, [], ◌∷◌, length, map, get_or,
  u64_mod, arith, length-map, get_or-map,
}
use verified_storage.Pmem.View.{Region, Mem, committed}
use verified_storage.Pmem.Medium.{Medium, IsSound}
use verified_storage.Pmem.Regions.{region_at, no_region, no_mem, in_region, in_region-IsSound}
use verified_storage.Log.Recover.{check_cdb}
use verified_storage.Log.Start.Checks.{OfBytes}
use verified_storage.Log.Start.Held.{held-Describes, held-AreaHolds}
use verified_storage.Multilog.Layout.{deserialize_log_cdb}
use verified_storage.Multilog.Recover.{
  recover_all, recover_cdb, recover_abstract_log_from_region_given_cdb,
}
use verified_storage.Multilog.Spec.{AbstractMultiLogState, log_at, num_logs}
use verified_storage.Multilog.Impl.{no_info}
use verified_storage.Multilog.Inv.{MetadataConsistent, RegionConsistent, IsValid}
use verified_storage.Multilog.Inv.Update.{name_of}
use verified_storage.Multilog.Start.{read_cdb, read_logs_variables}
use verified_storage.Multilog.Start.Inversion.{
  info_of, recover_cdb_inv, recover_region_metadata, recover_region_info, recover_region_state,
}
use verified_storage.Multilog.Start.Stages.{
  OkOrCorrupted, infos_of, read_cdb_lem, read_logs_variables_lem,
}

pub recover_all_count :
    (m : Medium) (mems : List Mem) (multilog_id : ℕ) (s : AbstractMultiLogState)
    → recover_all m mems multilog_id ≡ some s
    → (0 < length mems) × (length mems ≤ 0xffff_ffff)
unfolding recover_all
recover_all_count m [] multilog_id s h = absurd (cc h)
recover_all_count m (mem ∷ mems) multilog_id s h = (omega arith, ground arith)

-- Settled regions that recover, with the boolean of the first.
module _ (m : Medium) (rs : List Region) (multilog_id : ℕ) (s : AbstractMultiLogState)
    (settled : (i : ℕ)
      → i < length rs
      → (pos : ℕ) → ((region_at rs i).state pos).outstanding_write ≡ none)
    (fits : (i : ℕ) → i < length rs → (region_at rs i).len < u64_mod)
    (recovers : recover_all m (map committed rs) multilog_id ≡ some s) where
  abbrev mems : List Mem
  mems = map committed rs

  mem_at-committed : (i : ℕ) → i < length rs → get_or mems i no_mem ≡ committed (region_at rs i)
  mem_at-committed i lt = get_or-map committed rs i no_region no_mem lt

  module _ (cdb : Bool) (first : recover_cdb m (get_or mems 0 no_mem) ≡ some cdb)
      (same_count : num_logs s ≡ length rs)
      (each : (i : ℕ)
        → i < length mems
        → recover_abstract_log_from_region_given_cdb m
            (get_or mems i no_mem)
            multilog_id
            (length mems)
            (0 + i)
            cdb
          ≡ some (log_at s i)) where
    at :
        (i : ℕ)
        → i < num_logs s
        → recover_abstract_log_from_region_given_cdb m
            (committed (region_at rs i))
            multilog_id
            (num_logs s)
            i
            cdb
          ≡ some (log_at s i)
    at i lt =
        ap (λ mem. recover_abstract_log_from_region_given_cdb m mem multilog_id (num_logs s) i cdb)
          (sym (mem_at-committed i (omega (arith, same_count))))
        ∙ ap
            (λ n.
              recover_abstract_log_from_region_given_cdb m (get_or mems i no_mem) multilog_id n i
                cdb)
            (same_count ∙ sym (length-map committed rs))
        ∙ ap
            (λ k.
              recover_abstract_log_from_region_given_cdb m (get_or mems i no_mem) multilog_id
                (length mems) k cdb)
            (omega arith)
        ∙ each i (omega (arith, same_count, length-map committed rs))

    some_log : 0 < num_logs s
    some_log = omega (
      arith,
      same_count,
      length-map committed rs,
      recover_all_count m mems multilog_id s recovers,
    )

    cdb_stored : check_cdb (deserialize_log_cdb (committed (region_at rs 0))) ≡ some cdb
    cdb_stored = recover_cdb_inv m (committed (region_at rs 0)) cdb (
        ap (recover_cdb m) (sym (mem_at-committed 0 (omega (arith, same_count, some_log)))) ∙ first)

    region_recovered :
        (i : ℕ)
        → i < num_logs s
        → RegionConsistent m
            (region_at rs i)
            (name_of multilog_id (num_logs s) i)
            cdb
            (info_of (committed (region_at rs i)) cdb)
            (log_at s i)
    region_recovered i lt =
        subst
          (RegionConsistent m (region_at rs i) (name_of multilog_id (num_logs s) i) cdb
            (info_of (committed (region_at rs i)) cdb))
          (recover_region_state m (committed (region_at rs i)) (name_of multilog_id (num_logs s) i)
            cdb (at i lt))
          (record {
            region_fits = fits i (omega (arith, same_count));
            low_settled = λ k p q. settled i (omega (arith, same_count)) k;
            active_settled = λ k p q. settled i (omega (arith, same_count)) k;
            metadata =
                recover_region_metadata m (committed (region_at rs i))
                  (name_of multilog_id (num_logs s) i) cdb (at i lt);
            info_valid =
                recover_region_info m (committed (region_at rs i))
                  (name_of multilog_id (num_logs s) i) cdb (at i lt);
            describes =
                held-Describes (region_at rs i) (info_of (committed (region_at rs i)) cdb)
                  (settled i (omega (arith, same_count))) refl refl;
            area =
                held-AreaHolds (region_at rs i) (info_of (committed (region_at rs i)) cdb)
                  (settled i (omega (arith, same_count))) refl refl;
          })

    -- They hold a valid multilog.
    pub IsValid-recovered :
        IsValid m rs multilog_id
          (record { num_logs = length rs; cdb = cdb; infos = infos_of rs cdb })
          s
    IsValid-recovered = record {
      num_logs_is = sym same_count;
      metadata_settled = λ i lt k p q. settled i lt k;
      consistent = record {
        some_logs = some_log;
        few_logs = omega (
          arith,
          same_count,
          length-map committed rs,
          recover_all_count m mems multilog_id s recovers,
        );
        cdb_matches = record {
          cdb_settled = λ k p q. settled 0 (omega (arith, same_count, some_log)) k;
          cdb_is = cdb_stored;
        };
        consistent = record {
          regions_len = sym same_count;
          infos_len = length-map _ rs ∙ sym same_count;
          each = λ i lt.
              rw
                (get_or-map (λ r. info_of (committed r) cdb) rs i no_region no_info
                  (omega (arith, same_count)))
                (region_recovered i lt);
        };
      };
    }

    pub infos_read :
        IsSound m
        → ((i : ℕ) → i < length rs → OfBytes (committed (region_at rs i)))
        → OkOrCorrupted m (read_logs_variables m rs multilog_id cdb (length rs) 0) (infos_of rs cdb)
    infos_read sound bytes = read_logs_variables_lem sound multilog_id cdb (length rs) rs 0 (λ i lt.
        (
          bytes i lt,
          subst
              (λ n.
                MetadataConsistent m (committed (region_at rs i)) (name_of multilog_id n (0 + i))
                  cdb (info_of (committed (region_at rs i)) cdb))
              same_count
              (subst
                (λ k.
                  MetadataConsistent m (committed (region_at rs i))
                    (name_of multilog_id (num_logs s) k) cdb
                    (info_of (committed (region_at rs i)) cdb))
                (omega arith) (region_recovered i (omega (arith, same_count))).metadata),
          (region_recovered i (omega (arith, same_count))).info_valid,
          fits i lt,
        ))

    pub cdb_read :
        IsSound m
        → ((i : ℕ) → i < length rs → OfBytes (committed (region_at rs i)))
        → OkOrCorrupted m (read_cdb (in_region m 0) (region_at rs 0)) cdb
    cdb_read sound bytes =
        read_cdb_lem (in_region-IsSound 0 sound) (region_at rs 0)
          (bytes 0 (omega (arith, same_count, some_log))) cdb cdb_stored
