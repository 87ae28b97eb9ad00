-- ===== src/Multilog/Commit.antt =====
-- `commit` of multilogimpl_v.rs.
use mathlib.Core.Path.{subst}
use verified_storage.Base.{
  ℕ, zero, suc, ◌+◌, ◌≤◌, ◌<◌, ◌≡◌, refl, sym, ap, ◌∙◌, inl, inr, length, update, arith, List,
  length-update, length-map, get_or-update, get_or-update_other, get_or-map, eq_or_ne, ok,
}
use verified_storage.Pmem.View.{Region}
use verified_storage.Pmem.Medium.{Medium, IsSound}
use verified_storage.Pmem.Regions.{WrpmRegions, AllOnlyCrashIn}
use verified_storage.Log.Spec as LogSpec
use verified_storage.Log.Spec.{AbstractLogState}
use verified_storage.Log.Impl.{LogInfo}
use verified_storage.Log.Commit.{
  committed_info, committed_InfoValid, committed_Describes, committed_AreaHolds,
}
use verified_storage.Multilog.Spec.{AbstractMultiLogState, log_at, num_logs, drop_pending_appends}
use verified_storage.Multilog.Spec
use verified_storage.Multilog.Impl.{MultiLogImpl, info_at, no_info, commit_infos, commit}
use verified_storage.Multilog.Inv.{IsValid}
use verified_storage.Multilog.Update.Turn.{RecoversToEither, CanReplace}
use verified_storage.Multilog.Update.Flip.{update_log_metadata_lem}

-- The loop of `commit` keeps the number of logs, and changes each log from its start on.
length-commit_infos :
    (count k : ℕ) (infos : List LogInfo) → length (commit_infos count k infos) ≡ length infos
unfolding commit_infos
length-commit_infos zero k infos = refl
length-commit_infos (suc count) k infos =
    length-commit_infos count (suc k) (update infos k (committed_info (info_at infos k)))
    ∙ length-update infos k (committed_info (info_at infos k))

info_at-commit_infos_before :
    (count k i : ℕ) (infos : List LogInfo)
    → i < k
    → info_at (commit_infos count k infos) i ≡ info_at infos i
unfolding commit_infos
info_at-commit_infos_before zero k i infos h = refl
info_at-commit_infos_before (suc count) k i infos h =
    info_at-commit_infos_before count (suc k) i (update infos k (committed_info (info_at infos k)))
      (omega arith)
    ∙ get_or-update_other infos k i (committed_info (info_at infos k)) no_info (λ e. omega arith)

info_at-commit_infos :
    (count k i : ℕ) (infos : List LogInfo)
    → k + count ≤ length infos
    → k ≤ i
    → i < k + count
    → info_at (commit_infos count k infos) i ≡ committed_info (info_at infos i)
unfolding commit_infos
info_at-commit_infos zero k i infos fits lo hi = absurd (omega arith)
info_at-commit_infos (suc count) k i infos fits lo hi = elim (eq_or_ne i k) [
  | inl e ↦
      info_at-commit_infos_before count (suc k) i
        (update infos k (committed_info (info_at infos k))) (omega arith)
      ∙ subst
          (λ j.
            info_at (update infos k (committed_info (info_at infos k))) j
            ≡ committed_info (info_at infos j))
          (sym e) (get_or-update infos k (committed_info (info_at infos k)) no_info (omega arith))
  | inr ne ↦
      info_at-commit_infos count (suc k) i (update infos k (committed_info (info_at infos k)))
        (omega (arith, length-update infos k (committed_info (info_at infos k)))) (omega arith)
        (omega arith)
      ∙ ap committed_info
          (get_or-update_other infos k i (committed_info (info_at infos k)) no_info ne)
]

log_at-commit :
    (s : AbstractMultiLogState) (i : ℕ)
    → i < num_logs s
    → log_at (Spec.commit s) i ≡ LogSpec.commit (log_at s i)
log_at-commit s i lt =
    get_or-map LogSpec.commit s.states i (LogSpec.initialize 0) (LogSpec.initialize 0) lt

committed_at :
    {m : Medium} {rs : List Region} {multilog_id : ℕ} {self : MultiLogImpl}
    {s : AbstractMultiLogState}
    → IsValid m rs multilog_id self s
    → (i : ℕ) → i < num_logs s
    → info_at (commit_infos self.num_logs 0 self.infos) i ≡ committed_info (info_at self.infos i)
committed_at {self = self} {s} v i lt =
    info_at-commit_infos self.num_logs 0 i self.infos
      (omega (arith, v.num_logs_is, v.consistent.consistent.infos_len)) (omega arith)
      (omega (arith, v.num_logs_is))

committed_CanReplace :
    {m : Medium} {rs : List Region} {multilog_id : ℕ} {self : MultiLogImpl}
    {s : AbstractMultiLogState}
    → IsValid m rs multilog_id self s
    → CanReplace rs self.infos (commit_infos self.num_logs 0 self.infos) (Spec.commit s)
committed_CanReplace {rs = rs} {self = self} {s} v = record {
  infos_len =
      length-commit_infos self.num_logs 0 self.infos
      ∙ v.consistent.consistent.infos_len
      ∙ sym same_count;
  same_area = λ i lt. rw (committed_at v i (omega (arith, same_count))) refl;
  valid = λ i lt.
      let at = v.consistent.consistent.each i (omega (arith, same_count)) in
      rw (committed_at v i (omega (arith, same_count))) (committed_InfoValid at.info_valid);
  describes = λ i lt.
      let at = v.consistent.consistent.each i (omega (arith, same_count)) in
      rw
        (
          committed_at v i (omega (arith, same_count)),
          log_at-commit s i (omega (arith, same_count)),
        )
        (committed_Describes at.info_valid at.describes);
  area = λ i lt.
      let at = v.consistent.consistent.each i (omega (arith, same_count)) in
      rw
        (
          committed_at v i (omega (arith, same_count)),
          log_at-commit s i (omega (arith, same_count)),
        )
        (committed_AreaHolds at.info_valid at.describes at.area);
}
  where
    same_count : num_logs (Spec.commit s) ≡ num_logs s
    same_count = length-map LogSpec.commit s.states

-- `commit` succeeds, and leaves a valid multilog in which the pending appends of every log are part
-- of the log. Whenever it is cut short by a crash, recovery finds all logs as they were, without
-- pending appends, or all of them committed.
pub multilog_commit_lem :
    {m : Medium} {multilog_id : ℕ} {self : MultiLogImpl} {s : AbstractMultiLogState}
    (ws : WrpmRegions)
    → IsSound m
    → IsValid m ws.pm_regions multilog_id self s
    → AllOnlyCrashIn
        (RecoversToEither m multilog_id
          (drop_pending_appends s)
          (drop_pending_appends (Spec.commit s)))
        ws.history
    → let (result, self', ws') = commit m self ws in
      (result ≡ ok tt)
      × IsValid m ws'.pm_regions multilog_id self' (Spec.commit s)
      × AllOnlyCrashIn
          (RecoversToEither m multilog_id
            (drop_pending_appends s)
            (drop_pending_appends (Spec.commit s)))
          ws'.history
unfolding commit
multilog_commit_lem {m} {multilog_id} {self} {s} ws sound v before =
    let (after, during) =
      update_log_metadata_lem ws sound (v.num_logs_is ∙ sym (length-map LogSpec.commit s.states))
        (length-map LogSpec.commit s.states) v.consistent (committed_CanReplace v) before in
    (refl, after, during)
