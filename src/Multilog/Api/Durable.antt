-- ===== src/Multilog/Api/Durable.antt =====
-- multilogimpl_t.rs: an append that is committed survives a crash.
use verified_storage.Base.{
  ℕ, ◌+◌, ◌<◌, ◌≡◌, ap, ◌∙◌, true, List, map, length, ok, arith, update, u64_mod, get_or-map,
  get_or-update, length-map, length-update,
}
use verified_storage.Pmem.View.{Mem}
use verified_storage.Pmem.Medium.{Medium, IsSound}
use verified_storage.Pmem.Regions
use verified_storage.Pmem.Regions.{CanCrashAs}
use verified_storage.Log.Append.Call.{HasRoom, pending_tail}
use verified_storage.Log.Spec.{AbstractLogState}
use verified_storage.Log.Spec as LogSpec
use verified_storage.Log.Api.Durable.{read_of_committed, committed_len}
use verified_storage.Log.Api.System.{restarted}
use verified_storage.Multilog.Spec.{AbstractMultiLogState, log_at, num_logs, drop_pending_appends}
use verified_storage.Multilog.Spec
use verified_storage.Multilog.Append.Call.{multilog_append_with_room}
use verified_storage.Multilog.Commit.{multilog_commit_lem}
use verified_storage.Multilog.Read.{multilog_read_impervious}
use verified_storage.Multilog.Api.{MultiLogImpl, start, tentatively_append, commit, read}
use verified_storage.Multilog.Api.System.{
  to_tentatively_append, to_commit, run_call, AreMemories, running, Represents,
}
use verified_storage.Multilog.Api.Refine.{multilog_restarts_after_crash}

module _ (s : AbstractMultiLogState) (k : ℕ) (lt : k < num_logs s) (bytes : List ℕ) where
  abbrev committed : AbstractMultiLogState
  committed = drop_pending_appends (Spec.commit (Spec.tentatively_append s k bytes))

  committed_log : AbstractLogState
  committed_log =
      LogSpec.drop_pending_appends (LogSpec.commit (LogSpec.tentatively_append (log_at s k) bytes))

  same_count : num_logs committed ≡ num_logs s
  same_count =
      length-map LogSpec.drop_pending_appends
        (map LogSpec.commit (update s.states k (LogSpec.tentatively_append (log_at s k) bytes)))
      ∙ length-map LogSpec.commit
          (update s.states k (LogSpec.tentatively_append (log_at s k) bytes))
      ∙ length-update s.states k (LogSpec.tentatively_append (log_at s k) bytes)

  -- The log of an append, after the commit and a crash.
  log_at-committed : log_at committed k ≡ committed_log
  unfolding committed_log
  log_at-committed =
      get_or-map LogSpec.drop_pending_appends
        (map LogSpec.commit (update s.states k (LogSpec.tentatively_append (log_at s k) bytes))) k
        (LogSpec.initialize 0) (LogSpec.initialize 0) (omega (arith, lt, commit_count))
      ∙ ap LogSpec.drop_pending_appends (
          get_or-map LogSpec.commit
            (update s.states k (LogSpec.tentatively_append (log_at s k) bytes)) k
            (LogSpec.initialize 0) (LogSpec.initialize 0) (omega (arith, lt, append_count))
          ∙ ap LogSpec.commit (
              get_or-update s.states k (LogSpec.tentatively_append (log_at s k) bytes)
                (LogSpec.initialize 0) lt))
    where
      append_count :
          length (update s.states k (LogSpec.tentatively_append (log_at s k) bytes))
          ≡ length s.states
      append_count = length-update s.states k (LogSpec.tentatively_append (log_at s k) bytes)

      commit_count :
          length
            (map LogSpec.commit (update s.states k (LogSpec.tentatively_append (log_at s k) bytes)))
          ≡ length s.states
      commit_count =
          length-map LogSpec.commit
            (update s.states k (LogSpec.tentatively_append (log_at s k) bytes))
          ∙ append_count

-- On a medium impervious to corruption, bytes that one of the logs has room for, once they are
-- appended and committed, are there after any crash: the multilog starts again, and a read of that
-- log at the position that the append returned gives these bytes.
pub multilog_committed_append_survives :
    {m : Medium} (self : MultiLogImpl) {s : AbstractMultiLogState} (which_log : ℕ) (bytes : List ℕ)
    (mems : List Mem)
    → IsSound m
    → m.impervious_to_corruption ≡ true
    → Represents m (running self) s
    → which_log < num_logs s
    → length bytes < u64_mod
    → HasRoom (log_at s which_log) (length bytes)
    → AreMemories mems
    → CanCrashAs
        (run_call m
          (run_call m self (to_tentatively_append which_log bytes))
          to_commit).wrpm_regions.pm_regions
        mems
    → (position : ℕ) × ((tentatively_append self which_log bytes).0 ≡ ok position)
      × ((self' : MultiLogImpl) × (start m (map restarted mems) self.multilog_id ≡ ok self')
          × (read m self' which_log position (length bytes) ≡ ok bytes))
unfolding run_call tentatively_append commit read committed_log
multilog_committed_append_survives {m} self {s} k bytes mems sound impervious v lt small room memory
      crash =
    let (result, appended, _) =
      multilog_append_with_room (Regions.new self.wrpm_regions.pm_regions) k bytes v lt small room
        tt in
    let (_, after_commit, _) = multilog_commit_lem (Regions.new _) sound appended tt in
    let (self', started, after) =
      multilog_restarts_after_crash
        (run_call m (run_call m self (to_tentatively_append k bytes)) to_commit) mems sound
        impervious after_commit memory crash in
    let log_is = log_at-committed s k lt bytes in
    let head_is : (log_at (committed s k lt bytes) k).head ≡ (log_at s k).head =
      ap (λ (t : AbstractLogState). t.head) log_is in
    let len_is : length (log_at (committed s k lt bytes) k).log
        ≡ length (log_at s k).log + length (log_at s k).pending + length bytes =
      ap (λ (t : AbstractLogState). length t.log) log_is ∙ committed_len (log_at s k) bytes in
    (
      pending_tail (log_at s k),
      result,
      (
        self',
        started,
        multilog_read_impervious self'.wrpm_regions k (pending_tail (log_at s k)) (length bytes)
              sound impervious after (omega (arith, lt, same_count s k lt bytes))
              (omega (arith, head_is)) (omega (arith, head_is, len_is))
            ∙ ap (λ t. ok (LogSpec.read t (pending_tail (log_at s k)) (length bytes))) log_is
            ∙ ap ok (read_of_committed (log_at s k) bytes),
      ),
    )
