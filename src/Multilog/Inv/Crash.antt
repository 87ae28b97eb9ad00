-- ===== src/Multilog/Inv/Crash.antt =====
-- inv_v.rs of the multilog: a valid multilog can only crash as its abstract state without the
-- pending appends.
mod OneLog
use verified_storage.Base.{
  ℕ, suc, ◌+◌, ◌≤◌, ◌<◌, ◌≡◌, refl, sym, ap, ap₂, ◌∙◌, Bool, some, length, get_or, arith, List, [],
  ◌∷◌, length-map, get_or-map, if◌then◌else◌,
}
use verified_storage.Pmem.View.{
  Region, Mem, CanCrashAs, AgreeIn, committed, extract_bytes, extract_bytes_agree,
}
use verified_storage.Pmem.Bytes.{from_le_bytes}
use verified_storage.Pmem.Crash.{crash_at_settled}
use verified_storage.Pmem.Medium.{Medium}
use verified_storage.Pmem.Regions.{region_at, mem_at, no_mem}
use verified_storage.Pmem.Regions
use verified_storage.Log.Layout.{extract_global_metadata, extract_global_crc, crc_size}
use verified_storage.Log.Recover.{
  check_cdb, extract_log, recover_abstract_log_from_region_given_metadata,
}
use verified_storage.Log.Spec.{AbstractLogState}
use verified_storage.Log.Spec
use verified_storage.Log.Impl.{LogInfo}
use verified_storage.Log.Inv.{InfoValid, log_addr}
use verified_storage.Log.Inv.Crash.{log_addr_bounds, extract_log_of_bytes}
use verified_storage.Multilog.Layout.{
  absolute_pos_of_log_cdb, get_log_metadata_pos, deserialize_log_cdb,
}
use verified_storage.Multilog.Recover.{
  and_states, recover_abstract_log_from_region_given_cdb, recover_regions, recover_given_cdb,
  recover_cdb, recover_all,
}
use verified_storage.Multilog.Spec.{AbstractMultiLogState, num_logs, drop_pending_appends}
use verified_storage.Multilog.Inv.{
  LogName, MetadataConsistent, RegionConsistent, EachConsistent, IsConsistent, get_log_crc_end,
}
pub use verified_storage.Multilog.Inv.Crash.OneLog.{MetadataConsistent-agree, cdb_agree}
use verified_storage.Multilog.Inv.Crash.OneLog.{
  recover_cdb_consistent, metadata_after_crash, region_after_crash,
}

-- Regions that give a log each give them all.
recover_regions_each :
    (m : Medium) (mems : List Mem) (multilog_id count first : ℕ) (cdb : Bool)
    (states : List AbstractLogState)
    → length mems ≡ length states
    → ((i : ℕ)
        → i < length mems
        → recover_abstract_log_from_region_given_cdb m
            (mem_at mems i)
            multilog_id
            count
            (first + i)
            cdb
          ≡ some (get_or states i (Spec.initialize 0)))
    → recover_regions m mems multilog_id count first cdb ≡ some states
unfolding recover_regions
recover_regions_each m [] multilog_id count first cdb [] e each = refl
recover_regions_each m [] multilog_id count first cdb (s ∷ states) e each = absurd (omega arith)
recover_regions_each m (mem ∷ mems) multilog_id count first cdb [] e each = absurd (omega arith)
recover_regions_each m (mem ∷ mems) multilog_id count first cdb (s ∷ states) e each =
    let there : recover_regions m mems multilog_id count (suc first) cdb ≡ some states =
      recover_regions_each m mems multilog_id count (suc first) cdb states (omega arith) (λ i lt.
        ap
          (λ k.
            recover_abstract_log_from_region_given_cdb m (mem_at mems i) multilog_id count k cdb)
          (omega arith)
        ∙ each (suc i) (omega arith)) in
    ap₂ and_states here there
  where
    here : recover_abstract_log_from_region_given_cdb m mem multilog_id count first cdb ≡ some s
    here =
        ap (λ k. recover_abstract_log_from_region_given_cdb m mem multilog_id count k cdb)
          (omega arith)
        ∙ each 0 (omega arith)

recover_all_of :
    (m : Medium) (multilog_id count : ℕ) (cdb : Bool) (s : AbstractMultiLogState) (mems : List Mem)
    → 0 < count
    → count ≤ 0xffff_ffff
    → length mems ≡ count
    → recover_cdb m (mem_at mems 0) ≡ some cdb
    → recover_regions m mems multilog_id count 0 cdb ≡ some s.states
    → recover_all m mems multilog_id ≡ some s
unfolding recover_all recover_given_cdb
recover_all_of m multilog_id count cdb s [] nonempty few len e h = absurd (omega arith)
recover_all_of m multilog_id count cdb s (mem ∷ mems) nonempty few len e h = ground (arith, len)

-- Regions of a consistent multilog crash as contents that give its abstract state, with any boolean
-- that the first of them reads as and that selects consistent metadata.
module _ {m : Medium} {rs : List Region} {multilog_id : ℕ} {cdb : Bool} {infos : List LogInfo}
    {s : AbstractMultiLogState} (v : EachConsistent m rs multilog_id cdb infos s) (mems : List Mem)
    (crash : Regions.CanCrashAs rs mems) where
  regions_after_crash :
      recover_regions m mems multilog_id (num_logs s) 0 cdb ≡ some (drop_pending_appends s).states
  regions_after_crash =
      recover_regions_each m mems multilog_id (num_logs s) 0 cdb (drop_pending_appends s).states
        (omega
          (arith, crash.same_count, v.regions_len, length-map Spec.drop_pending_appends s.states))
        (λ i lt.
          ap
            (λ k.
              recover_abstract_log_from_region_given_cdb m (mem_at mems i) multilog_id (num_logs s)
                k cdb)
            (omega arith)
          ∙ region_after_crash (v.each i (omega (arith, crash.same_count, v.regions_len)))
              (mem_at mems i) (crash.each i (omega (arith, crash.same_count)))
          ∙ ap some (
              sym (
                get_or-map Spec.drop_pending_appends s.states i (Spec.initialize 0)
                  (Spec.initialize 0) (omega (arith, crash.same_count, v.regions_len)))))

  pub recover_all_after_crash :
      0 < num_logs s
      → num_logs s ≤ 0xffff_ffff
      → check_cdb (deserialize_log_cdb (mem_at mems 0)) ≡ some cdb
      → recover_all m mems multilog_id ≡ some (drop_pending_appends s)
  recover_all_after_crash nonempty few e =
      recover_all_of m multilog_id (num_logs s) cdb (drop_pending_appends s) mems nonempty few same
        (recover_cdb_consistent m (mem_at mems 0) cdb cdb
          (metadata_after_crash (v.each 0 nonempty) (mem_at mems 0)
            (crash.each 0 (omega (arith, v.regions_len))))
          e)
        regions_after_crash
    where
      same : length mems ≡ num_logs s
      same = crash.same_count ∙ v.regions_len

-- Whatever the regions of a consistent multilog crash as, they recover to the abstract state
-- without the pending appends (`lemma_invariants_imply_crash_recover`).
pub multilog_recover_after_crash :
    {m : Medium} {rs : List Region} {multilog_id : ℕ} {cdb : Bool} {infos : List LogInfo}
    {s : AbstractMultiLogState}
    → IsConsistent m rs multilog_id cdb infos s
    → (mems : List Mem) → Regions.CanCrashAs rs mems
    → recover_all m mems multilog_id ≡ some (drop_pending_appends s)
multilog_recover_after_crash {rs = rs} {cdb = cdb} v mems crash =
    recover_all_after_crash v.consistent mems crash v.some_logs v.few_logs (
      cdb_agree (committed (region_at rs 0)) (mem_at mems 0)
        (λ k p q. sym (
          crash_at_settled (region_at rs 0) (mem_at mems 0) k
            (crash.each 0 (omega (arith, v.consistent.regions_len, v.some_logs)))
            (omega (arith, (v.consistent.each 0 v.some_logs).metadata.fits))
            (v.cdb_matches.cdb_settled k p q)))
        v.cdb_matches.cdb_is)
