-- ===== src/Multilog/Api/System.antt =====
-- multilogimpl_t.rs: a multilog over its calls, crashes and restarts, and what its client may rely
-- on, as steps with the events that the client sees.
use verified_storage.Base.{
  ℕ, ◌+◌, ◌≤◌, ◌<◌, ◌≡◌, ◌⊎◌, List, [], ◌∷◌, map, length, some, Outcome, ok, err, false, u64_mod,
  u128_mod, u128_max,
}
use verified_storage.Pmem.View.{Region, Mem}
use verified_storage.Pmem.Medium.{Medium}
use verified_storage.Pmem.Regions.{CanCrashAs, mem_at}
use verified_storage.Log.Append.Call.{HasRoom, pending_tail}
use verified_storage.Log.Start.Checks.{OfBytes}
use verified_storage.Log.Api.System.{restarted}
use verified_storage.Multilog.Spec.{AbstractMultiLogState, log_at, num_logs, drop_pending_appends}
use verified_storage.Multilog.Spec
use verified_storage.Multilog.Advance.Refused.{AdvanceRefusal}
use verified_storage.Multilog.Impl.Err.{
  MultiLogErr, invalid_log_index, insufficient_space_for_append, crc_mismatch,
}
use verified_storage.Multilog.Recover.{recover_all}
use verified_storage.Multilog.Inv.{IsValid}
use verified_storage.Multilog.Api.{MultiLogImpl, start, tentatively_append, commit, advance_head}

-- The calls that change a multilog.
pub data Call : Type 0 where
  to_tentatively_append : ℕ → List ℕ → Call
  to_commit : Call
  to_advance_head : ℕ → ℕ → Call

-- Their arguments are of the types u64 and u128; an index may be that of no log.
abbrev pub Fits : Call → Type 0
Fits (to_tentatively_append which_log bytes) = length bytes < u64_mod
Fits to_commit = Unit {0}
Fits (to_advance_head which_log new_head) = new_head < u128_mod

unfoldable pub run_call : Medium → MultiLogImpl → Call → MultiLogImpl
run_call m self (to_tentatively_append which_log bytes) =
    let (_, self') = tentatively_append self which_log bytes in self'
run_call m self to_commit = let (_, self') = commit m self in self'
run_call m self (to_advance_head which_log new_head) =
    let (_, self') = advance_head m self which_log new_head in self'

-- What a call returns to its client.
abbrev pub Response : Call → Type 0
Response (to_tentatively_append which_log bytes) = Outcome MultiLogErr ℕ
Response to_commit = Outcome MultiLogErr (Unit {0})
Response (to_advance_head which_log new_head) = Outcome MultiLogErr (Unit {0})

unfoldable pub response : Medium → MultiLogImpl → (c : Call) → Response c
response m self (to_tentatively_append which_log bytes) =
    let (result, _) = tentatively_append self which_log bytes in result
response m self to_commit = let (result, _) = commit m self in result
response m self (to_advance_head which_log new_head) =
    let (result, _) = advance_head m self which_log new_head in result

-- What happens to a multilog: a call that returns, a crash between calls or within one, and a restart
-- that succeeds or fails.
pub data Event : Type 0 where
  returned : (c : Call) → Response c → Event
  crashed : Event
  crashed_within : Call → Event
  started : Event
  start_failed : MultiLogErr → Event

-- What one of several views of the regions can crash as.
abbrev pub CouldCrashAs : List (List Region) → List Mem → Type 0
CouldCrashAs [] mems = ⊥
CouldCrashAs (rs ∷ rss) mems = CanCrashAs rs mems ⊎ CouldCrashAs rss mems

-- Contents are bytes, and their lengths are of the type u64.
abbrev pub AreMemories : List Mem → Type 0
AreMemories mems =
    (i : ℕ) → i < length mems → ((mem_at mems i).len < u64_mod) × OfBytes (mem_at mems i)

pub data System : Type 0 where
  running : MultiLogImpl → System
  down : List Mem → ℕ → System

-- The steps of the program, each with its event.
pub data Transition (m : Medium) : System → Event → System → Type 0 where
  returns :
      (self : MultiLogImpl) (c : Call)
      → Fits c
      → Transition m (running self) (returned c (response m self c)) (running (run_call m self c))
  crashes :
      (self : MultiLogImpl) (mems : List Mem)
      → AreMemories mems
      → CanCrashAs self.wrpm_regions.pm_regions mems
      → Transition m (running self) crashed (down mems self.multilog_id)
  crashes_within :
      (self : MultiLogImpl) (c : Call) (mems : List Mem)
      → Fits c
      → AreMemories mems
      → CouldCrashAs (run_call m self c).wrpm_regions.history mems
      → Transition m (running self) (crashed_within c) (down mems self.multilog_id)
  starts :
      (mems : List Mem) (multilog_id : ℕ) (self : MultiLogImpl)
      → start m (map restarted mems) multilog_id ≡ ok self
      → Transition m (down mems multilog_id) started (running self)
  fails_to_start :
      (mems : List Mem) (multilog_id : ℕ) (e : MultiLogErr)
      → start m (map restarted mems) multilog_id ≡ err e
      → Transition m (down mems multilog_id) (start_failed e) (down mems multilog_id)

pub data Run (m : Medium) : System → List Event → System → Type 0 where
  no_steps : (sys : System) → Run m sys [] sys
  then_step :
      {a b c : System} {e : Event} {es : List Event}
      → Transition m a e b
      → Run m b es c
      → Run m a (e ∷ es) c

-- Why an append is refused, and with which error.
pub data AppendRefusal (s : AbstractMultiLogState) (which_log : ℕ) (bytes : List ℕ)
    : MultiLogErr → Type 0 where
  appends_no_log : num_logs s ≤ which_log → AppendRefusal s which_log bytes invalid_log_index
  appends_without_room :
      (available : ℕ)
      → which_log < num_logs s
      → ¬ HasRoom (log_at s which_log) (length bytes)
      → available < length bytes
      → (available + length (log_at s which_log).log + length (log_at s which_log).pending
          ≡ (log_at s which_log).capacity)
        ⊎ (available + pending_tail (log_at s which_log) ≡ u128_max)
      → AppendRefusal s which_log bytes (insufficient_space_for_append available)

-- What a client may expect of each event: the response of a call and the abstract state after it.
-- A crash within a commit or an advance finds it undone or done, for all logs at once, and no crash
-- keeps pending appends.
pub data AbstractStep (m : Medium)
    : AbstractMultiLogState → Event → AbstractMultiLogState → Type 0 where
  appends :
      (s : AbstractMultiLogState) (which_log : ℕ) (bytes : List ℕ)
      → which_log < num_logs s
      → HasRoom (log_at s which_log) (length bytes)
      → AbstractStep m s
          (returned
            (to_tentatively_append which_log bytes)
            (ok (pending_tail (log_at s which_log))))
          (Spec.tentatively_append s which_log bytes)
  refuses_append :
      (s : AbstractMultiLogState) (which_log : ℕ) (bytes : List ℕ) (e : MultiLogErr)
      → AppendRefusal s which_log bytes e
      → AbstractStep m s (returned (to_tentatively_append which_log bytes) (err e)) s
  commits :
      (s : AbstractMultiLogState) → AbstractStep m s (returned to_commit (ok tt)) (Spec.commit s)
  advances :
      (s : AbstractMultiLogState) (which_log new_head : ℕ)
      → which_log < num_logs s
      → (log_at s which_log).head ≤ new_head
      → new_head ≤ (log_at s which_log).head + length (log_at s which_log).log
      → AbstractStep m s
          (returned (to_advance_head which_log new_head) (ok tt))
          (Spec.advance_head s which_log new_head)
  refuses_advance :
      (s : AbstractMultiLogState) (which_log new_head : ℕ) (e : MultiLogErr)
      → AdvanceRefusal s which_log new_head e
      → AbstractStep m s (returned (to_advance_head which_log new_head) (err e)) s
  loses_pending : (s : AbstractMultiLogState) → AbstractStep m s crashed (drop_pending_appends s)
  undoes :
      (s : AbstractMultiLogState) (c : Call)
      → AbstractStep m s (crashed_within c) (drop_pending_appends s)
  commits_before_crash :
      (s : AbstractMultiLogState)
      → AbstractStep m s (crashed_within to_commit) (drop_pending_appends (Spec.commit s))
  advances_before_crash :
      (s : AbstractMultiLogState) (which_log new_head : ℕ)
      → which_log < num_logs s
      → (log_at s which_log).head ≤ new_head
      → new_head ≤ (log_at s which_log).head + length (log_at s which_log).log
      → AbstractStep m s
          (crashed_within (to_advance_head which_log new_head))
          (drop_pending_appends (Spec.advance_head s which_log new_head))
  restarts : (s : AbstractMultiLogState) → AbstractStep m s started s
  finds_corruption :
      (s : AbstractMultiLogState)
      → m.impervious_to_corruption ≡ false
      → AbstractStep m s (start_failed crc_mismatch) s

pub data AbstractSteps (m : Medium)
    : AbstractMultiLogState → List Event → AbstractMultiLogState → Type 0 where
  no_abstract_steps : (s : AbstractMultiLogState) → AbstractSteps m s [] s
  then_abstract_step :
      {a b c : AbstractMultiLogState} {e : Event} {es : List Event}
      → AbstractStep m a e b
      → AbstractSteps m b es c
      → AbstractSteps m a (e ∷ es) c

-- A running multilog is valid for its abstract state, and contents after a crash recover to it.
abbrev pub Represents : Medium → System → AbstractMultiLogState → Type 0
Represents m (running self) s =
    IsValid m self.wrpm_regions.pm_regions self.multilog_id self.untrusted_log_impl s
Represents m (down mems multilog_id) s =
    AreMemories mems × (recover_all m mems multilog_id ≡ some s)
