-- ===== src/Multilog/Update/Turn.antt =====
-- `update_log_metadata` of multilogimpl_v.rs: the turn of one log in its loop.
use mathlib.Core.Path.{subst}
use verified_storage.Base.{
  ℕ, suc, ◌+◌, ◌≤◌, ◌<◌, ◌≡◌, ◌≢◌, sym, ap, ◌∙◌, ◌⊎◌, inl, inr, Bool, not, some, none, length,
  update, arith, List, length-update, get_or-update, get_or-update_other, eq_or_ne,
}
use verified_storage.Pmem.Bytes.{spec_u64_to_le_bytes}
use verified_storage.Pmem.View.{Region, Mem, committed, flush_byte, write, flush}
use verified_storage.Pmem.Medium.{Medium, IsSound}
use verified_storage.Pmem.Regions.{
  WrpmRegions, AllOnlyCrashIn, OnlyCrashesIn, region_at, no_region, write_region,
}
use verified_storage.Pmem.Regions
use verified_storage.Log.Layout.{serialize_log, length_of_log_metadata}
use verified_storage.Log.Recover.{crc_log}
use verified_storage.Log.Impl.{LogInfo}
use verified_storage.Log.Inv.{InfoValid, Describes, AreaHolds}
use verified_storage.Log.Inv.Update.{AreaHolds-same}
use verified_storage.Multilog.Layout.{get_log_metadata_pos}
use verified_storage.Multilog.Recover.{recover_all}
use verified_storage.Multilog.Spec.{AbstractMultiLogState, log_at, num_logs, drop_pending_appends}
use verified_storage.Multilog.Impl.{info_at, write_log_metadata}
use verified_storage.Multilog.Inv.{MetadataConsistent, IsConsistent}
use verified_storage.Multilog.Inv.Crash.{multilog_recover_after_crash}
use verified_storage.Multilog.Inv.Update.{name_of, IsConsistent-write_unused}
use verified_storage.Multilog.Update.{
  new_metadata, metadata_written, crc_written, metadata_len, crc_len, elsewhere,
  new-MetadataConsistent,
}

-- The contents that recover to one of two abstract states.
abbrev pub RecoversToEither :
    Medium → ℕ → AbstractMultiLogState → AbstractMultiLogState → List Mem → Type 0
RecoversToEither m multilog_id s₀ s mems =
    (recover_all m mems multilog_id ≡ some s₀) ⊎ (recover_all m mems multilog_id ≡ some s)

-- Volatile states that may replace others: each has the same log area, and describes its log in the
-- flushed regions.
pub record CanReplace (rs : List Region) (prev infos : List LogInfo) (s : AbstractMultiLogState)
    : Type 0 where
  pub infos_len : length infos ≡ num_logs s
  pub same_area :
      (i : ℕ) → i < num_logs s → (info_at infos i).log_area_len ≡ (info_at prev i).log_area_len
  pub valid : (i : ℕ) → i < num_logs s → InfoValid (info_at infos i)
  pub describes : (i : ℕ) → i < num_logs s → Describes (info_at infos i) (log_at s i)
  pub area :
      (i : ℕ) → i < num_logs s → AreaHolds (flush (region_at rs i)) (info_at infos i) (log_at s i)

-- The state of the loop: the old metadata is as it was, and in the regions below `current_log` the
-- other boolean selects the new metadata after a flush.
pub record Stage (m : Medium) (rs : List Region) (multilog_id : ℕ) (cdb : Bool)
    (prev infos : List LogInfo) (s₀ s : AbstractMultiLogState) (current_log : ℕ) : Type 0 where
  pub same_count : num_logs s ≡ num_logs s₀
  pub old : IsConsistent m rs multilog_id cdb prev s₀
  pub replace : CanReplace rs prev infos s
  pub fresh :
      (i : ℕ)
      → i < num_logs s
      → i < current_log
      → MetadataConsistent m
          (committed (flush (region_at rs i)))
          (name_of multilog_id (num_logs s) i)
          (not cdb)
          (info_at infos i)

-- The region of one log after its turn.
two_writes :
    (m : Medium) (cdb : Bool) (info : LogInfo) (rs : List Region) (k : ℕ)
    → k < length rs
    → region_at
        (write_region
          (write_region rs k
            (get_log_metadata_pos (not cdb))
            (serialize_log (new_metadata m cdb info (region_at rs k))))
          k
          (get_log_metadata_pos (not cdb) + length_of_log_metadata)
          (spec_u64_to_le_bytes (crc_log m (new_metadata m cdb info (region_at rs k)))))
        k
      ≡ crc_written m cdb info (region_at rs k)
two_writes m cdb info rs k lt =
    let first : region_at (update rs k (metadata_written m cdb info (region_at rs k))) k
        ≡ metadata_written m cdb info (region_at rs k) =
      get_or-update rs k (metadata_written m cdb info (region_at rs k)) no_region lt in
    get_or-update (update rs k (metadata_written m cdb info (region_at rs k))) k _ no_region
      (rw length-update lt)
    ∙ ap
        (λ r.
          write r (get_log_metadata_pos (not cdb) + length_of_log_metadata)
            (spec_u64_to_le_bytes (crc_log m (new_metadata m cdb info r))))
        first

two_writes_other :
    (rs : List Region) (k i a a' : ℕ) (bytes bytes' : List ℕ)
    → i ≢ k
    → region_at (write_region (write_region rs k a bytes) k a' bytes') i ≡ region_at rs i
two_writes_other rs k i a a' bytes bytes' ne =
    get_or-update_other (write_region rs k a bytes) k i _ no_region ne
    ∙ get_or-update_other rs k i _ no_region ne

flush_same :
    (r r' : Region)
    → ((a : ℕ) → 256 ≤ a → r'.state a ≡ r.state a)
    → (a : ℕ) → 256 ≤ a
    → (flush r').state a ≡ (flush r).state a
unfolding flush
flush_same r r' h a lt =
    ap (λ b. record { state_at_last_flush = flush_byte b; outstanding_write = none }) (h a lt)

module _ {m : Medium} (sound : IsSound m) {rs : List Region} {multilog_id : ℕ} {cdb : Bool}
    {prev infos : List LogInfo} {s₀ s : AbstractMultiLogState} {k : ℕ}
    (v : Stage m rs multilog_id cdb prev infos s₀ s k) (lt : k < num_logs s) where
  written₁ : List Region
  written₁ =
      write_region rs k (get_log_metadata_pos (not cdb))
        (serialize_log (new_metadata m cdb (info_at infos k) (region_at rs k)))

  written₂ : List Region
  written₂ =
      write_region written₁ k (get_log_metadata_pos (not cdb) + length_of_log_metadata)
        (spec_u64_to_le_bytes (crc_log m (new_metadata m cdb (info_at infos k) (region_at rs k))))

  old₁ : IsConsistent m written₁ multilog_id cdb prev s₀
  unfolding written₁
  old₁ =
      IsConsistent-write_unused v.old k (get_log_metadata_pos (not cdb))
        (serialize_log (new_metadata m cdb (info_at infos k) (region_at rs k)))
        (omega (arith, v.same_count)) (ground arith)
        (ground (arith, metadata_len m cdb (info_at infos k) (region_at rs k)))
        (ground (arith, metadata_len m cdb (info_at infos k) (region_at rs k)))

  old₂ : IsConsistent m written₂ multilog_id cdb prev s₀
  unfolding written₂
  old₂ =
      IsConsistent-write_unused old₁ k (get_log_metadata_pos (not cdb) + length_of_log_metadata)
        (spec_u64_to_le_bytes (crc_log m (new_metadata m cdb (info_at infos k) (region_at rs k))))
        (omega (arith, v.same_count)) (ground arith)
        (ground (arith, crc_len m cdb (info_at infos k) (region_at rs k)))
        (ground (arith, crc_len m cdb (info_at infos k) (region_at rs k)))

  in_rs : k < length rs
  in_rs = omega (arith, v.old.consistent.regions_len, v.same_count)

  -- Every region is as it was, or has its metadata written.
  region_after :
      (P : ℕ → Region → Type 0)
      → ((i : ℕ) → i < num_logs s → i ≢ k → P i (region_at rs i))
      → P k (crc_written m cdb (info_at infos k) (region_at rs k))
      → (i : ℕ) → i < num_logs s
      → P i (region_at written₂ i)
  unfolding written₁ written₂
  region_after P other here i p = elim (eq_or_ne i k) [
    | inl e ↦
        subst (λ j. P j (region_at written₂ j)) (sym e)
          (subst (P k) (sym (two_writes m cdb (info_at infos k) rs k in_rs)) here)
    | inr ne ↦ subst (P i) (sym (two_writes_other rs k i _ _ _ _ ne)) (other i p ne)
  ]

  next-Stage : Stage m written₂ multilog_id cdb prev infos s₀ s (suc k)
  next-Stage = record {
    same_count = v.same_count;
    old = old₂;
    replace = record {
      infos_len = v.replace.infos_len;
      same_area = v.replace.same_area;
      valid = v.replace.valid;
      describes = v.replace.describes;
      area =
          region_after (λ i r. AreaHolds (flush r) (info_at infos i) (log_at s i))
            (λ i p ne. v.replace.area i p)
            (AreaHolds-same (v.replace.valid k lt)
              (flush_same (region_at rs k) (crc_written m cdb (info_at infos k) (region_at rs k))
                (λ a h. elsewhere m cdb (info_at infos k) (region_at rs k) a (inr (ground arith))))
              (v.replace.area k lt));
    };
    fresh =
        region_after
          (λ i r.
            i < suc k
            → MetadataConsistent m (committed (flush r)) (name_of multilog_id (num_logs s) i)
                (not cdb) (info_at infos i))
          (λ i p ne below. v.fresh i p (omega arith))
          (λ below. rw v.same_count (here v.same_count));
  }
    where
      here :
          num_logs s ≡ num_logs s₀
          → MetadataConsistent m
              (committed (flush (crc_written m cdb (info_at infos k) (region_at rs k))))
              (name_of multilog_id (num_logs s₀) k)
              (not cdb)
              (info_at infos k)
      here e =
          new-MetadataConsistent sound (v.old.consistent.each k (omega arith))
            (v.replace.same_area k lt) (v.replace.valid k lt)

-- The turn of one log: what it leaves, and that a crash at its writes leaves the multilog as it was.
pub write_log_metadata_lem :
    {m : Medium} {multilog_id : ℕ} {cdb : Bool} {prev infos : List LogInfo}
    {s₀ s : AbstractMultiLogState} {k : ℕ} (ws : WrpmRegions)
    → IsSound m
    → Stage m ws.pm_regions multilog_id cdb prev infos s₀ s k
    → k < num_logs s
    → AllOnlyCrashIn
        (RecoversToEither m multilog_id (drop_pending_appends s₀) (drop_pending_appends s))
        ws.history
    → let ws' = write_log_metadata m (info_at infos k) (get_log_metadata_pos (not cdb)) ws k in
      Stage m ws'.pm_regions multilog_id cdb prev infos s₀ s (suc k)
      × AllOnlyCrashIn
          (RecoversToEither m multilog_id (drop_pending_appends s₀) (drop_pending_appends s))
          ws'.history
unfolding write_log_metadata Regions.write written₁ written₂
write_log_metadata_lem ws sound v lt before = (
  next-Stage sound v lt,
  (
    λ mems crash. inl (multilog_recover_after_crash (old₂ sound v lt) mems crash),
    (λ mems crash. inl (multilog_recover_after_crash (old₁ sound v lt) mems crash), before),
  ),
)
