-- ===== src/Multilog/Update/Loop.antt =====
-- `update_log_metadata` of multilogimpl_v.rs: the loop over the logs, and what a crash during it can
-- leave.
use mathlib.Core.Path.{subst}
use verified_storage.Base.{ℕ, zero, suc, ◌+◌, ◌≡◌, Bool, not, arith, List}
use verified_storage.Pmem.Medium.{Medium, IsSound}
use verified_storage.Pmem.Regions.{WrpmRegions, AllOnlyCrashIn}
use verified_storage.Log.Impl.{LogInfo}
use verified_storage.Multilog.Layout.{get_log_metadata_pos}
use verified_storage.Multilog.Spec.{AbstractMultiLogState, num_logs, drop_pending_appends}
use verified_storage.Multilog.Impl.{info_at, write_log_metadata, write_each_log_metadata}
use verified_storage.Multilog.Update.Turn.{RecoversToEither, Stage, write_log_metadata_lem}

-- The loop writes the new metadata of every log, and at each of its writes a crash leaves the
-- multilog as it was.
module _ {m : Medium} (sound : IsSound m) {multilog_id : ℕ} {cdb : Bool} {prev infos : List LogInfo}
    {s₀ s : AbstractMultiLogState} where
  pub write_each_log_metadata_lem :
      (count k : ℕ) (ws : WrpmRegions)
      → k + count ≡ num_logs s
      → Stage m ws.pm_regions multilog_id cdb prev infos s₀ s k
      → AllOnlyCrashIn
          (RecoversToEither m multilog_id (drop_pending_appends s₀) (drop_pending_appends s))
          ws.history
      → let ws' = write_each_log_metadata m count k infos (get_log_metadata_pos (not cdb)) ws in
        Stage m ws'.pm_regions multilog_id cdb prev infos s₀ s (num_logs s)
        × AllOnlyCrashIn
            (RecoversToEither m multilog_id (drop_pending_appends s₀) (drop_pending_appends s))
            ws'.history
  unfolding write_each_log_metadata
  write_each_log_metadata_lem zero k ws e v before =
      (subst (Stage m ws.pm_regions multilog_id cdb prev infos s₀ s) (omega arith) v, before)
  write_each_log_metadata_lem (suc count) k ws e v before =
      let (after, during) = write_log_metadata_lem ws sound v (omega arith) before in
      write_each_log_metadata_lem count (suc k)
        (write_log_metadata m (info_at infos k) (get_log_metadata_pos (not cdb)) ws k) (omega arith)
        after during
