-- ===== src/Log/Commit.antt =====
-- `commit` of logimpl_v.rs.
use verified_storage.Base.{
  ℕ, ◌≤◌, ◌<◌, ◌≡◌, refl, ◌∙◌, ◌⊎◌, inl, inr, get_or, arith, ◌++◌, lt_or_le, length-append,
  get_or-append_left, get_or-append_right, ok,
}
use verified_storage.Pmem.View.{
  Region, flush, committed-flush_settled, committed-flush, settled-flush, committed,
}
use verified_storage.Pmem.Medium.{Medium, IsSound}
use verified_storage.Pmem.Wrpm.{Wrpm, AllOnlyCrashIn}
use verified_storage.Log.Spec.{AbstractLogState, drop_pending_appends}
use verified_storage.Log.Spec
use verified_storage.Log.Impl.{LogInfo, LogImpl, commit}
use verified_storage.Log.Inv.{InfoValid, Describes, AreaHolds, IsValid, log_addr}
use verified_storage.Log.Update.Flip.{RecoversToEither, update_log_metadata_lem}

abbrev pub committed_info : LogInfo → LogInfo
committed_info info = record info { log_length = info.log_plus_pending_length }

pub committed_InfoValid : {info : LogInfo} → InfoValid info → InfoValid (committed_info info)
committed_InfoValid v = omega arith

pub committed_Describes :
    {info : LogInfo} {s : AbstractLogState}
    → InfoValid info
    → Describes info s
    → Describes (committed_info info) (Spec.commit s)
committed_Describes {info} {s} v d = omega (arith, length-append s.log s.pending)

-- After a flush the pending appends stand behind the log.
pub committed_AreaHolds :
    {r : Region} {info : LogInfo} {s : AbstractLogState}
    → InfoValid info
    → Describes info s
    → AreaHolds r info s
    → AreaHolds (flush r) (committed_info info) (Spec.commit s)
committed_AreaHolds {r} {info} {s} v d h = record {
  log_bytes = λ pos p. bytes pos p (lt_or_le pos info.log_length);
  log_settled = λ pos p. settled-flush r (log_addr info pos);
  pending_bytes = λ pos p q. absurd (omega arith);
  free_settled = λ pos p q. settled-flush r (log_addr info pos);
}
  where
    bytes :
        (pos : ℕ)
        → pos < info.log_plus_pending_length
        → (pos < info.log_length) ⊎ (info.log_length ≤ pos)
        → (committed (flush r)).at (log_addr info pos) ≡ get_or (s.log ++ s.pending) pos 0
    bytes pos p (inl old) =
        rw (get_or-append_left s.log s.pending pos 0 (omega (arith, d.log_len))) (
          committed-flush_settled r (log_addr info pos) (h.log_settled pos old)
          ∙ h.log_bytes pos old)
    bytes pos p (inr fresh) =
        rw (get_or-append_right s.log s.pending pos 0 (omega (arith, d.log_len)), d.log_len)
          (committed-flush r (log_addr info pos) ∙ h.pending_bytes pos fresh p)

-- `commit` succeeds, and leaves a valid log whose pending appends are part of the log. Whenever it
-- is cut short by a crash, recovery finds the log as it was, without pending appends, or the whole
-- new log.
pub commit_lem :
    {m : Medium} {log_id : ℕ} {self : LogImpl} {s : AbstractLogState} (w : Wrpm)
    → IsSound m
    → IsValid m w.pm_region log_id self s
    → AllOnlyCrashIn
        (RecoversToEither m log_id (drop_pending_appends s) (drop_pending_appends (Spec.commit s)))
        w.history
    → let (result, self', w') = commit m self w in
      (result ≡ ok tt)
      × IsValid m w'.pm_region log_id self' (Spec.commit s)
      × AllOnlyCrashIn
          (RecoversToEither m log_id
            (drop_pending_appends s)
            (drop_pending_appends (Spec.commit s)))
          w'.history
unfolding commit
commit_lem {m} {log_id} {self} {s} w sound v before =
    let (_, after, during) =
      update_log_metadata_lem sound v.consistent refl (committed_InfoValid v.info)
        (committed_Describes v.info v.describes) (committed_AreaHolds v.info v.describes v.area) w
        refl before in
    (refl, after, during)
