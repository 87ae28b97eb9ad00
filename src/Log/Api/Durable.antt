-- ===== src/Log/Api/Durable.antt =====
-- logimpl_t.rs: an append that is committed survives a crash.
use verified_storage.Base.{
  ℕ, suc, ◌+◌, ◌<◌, ◌≡◌, refl, ap, ◌∙◌, true, List, [], ◌∷◌, ◌++◌, length, take, drop, ok, arith,
  u64_mod, length-append,
}
use verified_storage.Pmem.View.{Mem, CanCrashAs}
use verified_storage.Pmem.Medium.{Medium, IsSound}
use verified_storage.Pmem.Wrpm
use verified_storage.Log.Spec.{AbstractLogState, drop_pending_appends}
use verified_storage.Log.Spec
use verified_storage.Log.Append.Call.{HasRoom, pending_tail, tentatively_append_with_room}
use verified_storage.Log.Commit.{commit_lem}
use verified_storage.Log.Read.Area.{read_impervious}
use verified_storage.Log.Api.{LogImpl, start, tentatively_append, commit, read}
use verified_storage.Log.Api.System.{
  to_tentatively_append, to_commit, run_call, IsMemory, restarted, running, Represents,
}
use verified_storage.Log.Api.Refine.{restarts_after_crash}

drop_past : (xs rest : List ℕ) → drop (length xs) (xs ++ rest) ≡ rest
drop_past [] rest = refl
drop_past (x ∷ xs) rest = drop_past xs rest

drop_behind : (xs ys bytes : List ℕ) → drop (length xs + length ys) (xs ++ (ys ++ bytes)) ≡ bytes
drop_behind [] ys bytes =
    let e : 0 + length ys ≡ length ys = omega arith in rw e (drop_past ys bytes)
drop_behind (x ∷ xs) ys bytes =
    let e : suc (length xs) + length ys ≡ suc (length xs + length ys) = omega arith in
    rw e (drop_behind xs ys bytes)

take_whole : (bytes : List ℕ) → take (length bytes) bytes ≡ bytes
take_whole [] = refl
take_whole (b ∷ bytes) = ap (λ t. b ∷ t) (take_whole bytes)

-- What the abstract log has where an append went, once it is committed.
pub read_of_committed :
    (s : AbstractLogState) (bytes : List ℕ)
    → Spec.read
        (drop_pending_appends (Spec.commit (Spec.tentatively_append s bytes)))
        (pending_tail s)
        (length bytes)
      ≡ bytes
read_of_committed s bytes =
    ap (λ n. take (length bytes) (drop n (s.log ++ (s.pending ++ bytes)))) (omega arith)
    ∙ ap (take (length bytes)) (drop_behind s.log s.pending bytes)
    ∙ take_whole bytes

pub committed_len :
    (s : AbstractLogState) (bytes : List ℕ)
    → length (s.log ++ (s.pending ++ bytes)) ≡ length s.log + length s.pending + length bytes
committed_len s bytes =
    omega (arith, length-append s.log (s.pending ++ bytes), length-append s.pending bytes)

-- On a medium impervious to corruption, bytes that a log has room for, once they are appended and
-- committed, are there after any crash: the log starts again, and a read at the position that the
-- append returned gives these bytes.
pub committed_append_survives :
    {m : Medium} (self : LogImpl) {s : AbstractLogState} (bytes : List ℕ) (mem : Mem)
    → IsSound m
    → m.impervious_to_corruption ≡ true
    → Represents m (running self) s
    → length bytes < u64_mod
    → HasRoom s (length bytes)
    → IsMemory mem
    → CanCrashAs
        (run_call m (run_call m self (to_tentatively_append bytes)) to_commit).wrpm_region.pm_region
        mem
    → (position : ℕ) × ((tentatively_append self bytes).0 ≡ ok position)
      × ((self' : LogImpl) × (start m (restarted mem) self.log_id ≡ ok self')
          × (read m self' position (length bytes) ≡ ok bytes))
unfolding run_call tentatively_append commit read
committed_append_survives {m} self {s} bytes mem sound impervious v small room memory crash =
    let (result, appended, _) =
      tentatively_append_with_room (Wrpm.new self.wrpm_region.pm_region) bytes v small room tt in
    let (_, committed, _) = commit_lem (Wrpm.new _) sound appended tt in
    let (self', started, after) =
      restarts_after_crash (run_call m (run_call m self (to_tentatively_append bytes)) to_commit)
        mem sound impervious committed memory crash in
    (
      pending_tail s,
      result,
      (
        self',
        started,
        read_impervious self'.wrpm_region (pending_tail s) (length bytes) sound impervious after
              (omega arith) (omega (arith, committed_len s bytes))
            ∙ ap ok (read_of_committed s bytes),
      ),
    )
