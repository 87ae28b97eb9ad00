-- ===== src/Log/Api/System.antt =====
-- logimpl_t.rs: a log over its calls, crashes and restarts, and what its client may rely on, as
-- steps with the events that the client sees.
use verified_storage.Base.{
  ℕ, ◌+◌, ◌≤◌, ◌<◌, ◌≡◌, ◌⊎◌, List, [], ◌∷◌, length, some, none, Outcome, ok, err, false, u64_mod,
  u128_mod, u128_max,
}
use verified_storage.Pmem.View.{Region, Mem, CanCrashAs}
use verified_storage.Pmem.Medium.{Medium}
use verified_storage.Log.Spec.{AbstractLogState, drop_pending_appends}
use verified_storage.Log.Spec
use verified_storage.Log.Recover.{recover_state}
use verified_storage.Log.Inv.{IsValid}
use verified_storage.Log.Append.Call.{HasRoom, pending_tail}
use verified_storage.Log.Advance.Refused.{AdvanceRefusal}
use verified_storage.Log.Impl.Err.{LogErr, insufficient_space_for_append, crc_mismatch}
use verified_storage.Log.Start.Checks.{OfBytes}
use verified_storage.Log.Api.{LogImpl, start, tentatively_append, commit, advance_head}

-- The calls that change a log.
pub data Call : Type 0 where
  to_tentatively_append : List ℕ → Call
  to_commit : Call
  to_advance_head : ℕ → Call

-- Their arguments are of the types u64 and u128.
abbrev pub Fits : Call → Type 0
Fits (to_tentatively_append bytes) = length bytes < u64_mod
Fits to_commit = Unit {0}
Fits (to_advance_head new_head) = new_head < u128_mod

unfoldable pub run_call : Medium → LogImpl → Call → LogImpl
run_call m self (to_tentatively_append bytes) =
    let (_, self') = tentatively_append self bytes in self'
run_call m self to_commit = let (_, self') = commit m self in self'
run_call m self (to_advance_head new_head) = let (_, self') = advance_head m self new_head in self'

-- What a call returns to its client.
abbrev pub Response : Call → Type 0
Response (to_tentatively_append bytes) = Outcome LogErr ℕ
Response to_commit = Outcome LogErr (Unit {0})
Response (to_advance_head new_head) = Outcome LogErr (Unit {0})

unfoldable pub response : Medium → LogImpl → (c : Call) → Response c
response m self (to_tentatively_append bytes) =
    let (result, _) = tentatively_append self bytes in result
response m self to_commit = let (result, _) = commit m self in result
response m self (to_advance_head new_head) =
    let (result, _) = advance_head m self new_head in result

-- What happens to a log: a call that returns, a crash between calls or within one, and a restart
-- that succeeds or fails.
pub data Event : Type 0 where
  returned : (c : Call) → Response c → Event
  crashed : Event
  crashed_within : Call → Event
  started : Event
  start_failed : LogErr → Event

-- What one of several views of a region can crash as.
abbrev pub CouldCrashAs : List Region → Mem → Type 0
CouldCrashAs [] mem = ⊥
CouldCrashAs (r ∷ rs) mem = CanCrashAs r mem ⊎ CouldCrashAs rs mem

-- Contents are bytes, and their length is of the type u64.
abbrev pub IsMemory : Mem → Type 0
IsMemory mem = (mem.len < u64_mod) × OfBytes mem

-- The region after a crash: what it crashed as, with no write outstanding.
abbrev pub restarted : Mem → Region
restarted mem = record {
  len = mem.len;
  state = λ a. record { state_at_last_flush = mem.at a; outstanding_write = none };
}

pub data System : Type 0 where
  running : LogImpl → System
  down : Mem → ℕ → System

-- The steps of the program, each with its event.
pub data Transition (m : Medium) : System → Event → System → Type 0 where
  returns :
      (self : LogImpl) (c : Call)
      → Fits c
      → Transition m (running self) (returned c (response m self c)) (running (run_call m self c))
  crashes :
      (self : LogImpl) (mem : Mem)
      → IsMemory mem
      → CanCrashAs self.wrpm_region.pm_region mem
      → Transition m (running self) crashed (down mem self.log_id)
  crashes_within :
      (self : LogImpl) (c : Call) (mem : Mem)
      → Fits c
      → IsMemory mem
      → CouldCrashAs (run_call m self c).wrpm_region.history mem
      → Transition m (running self) (crashed_within c) (down mem self.log_id)
  starts :
      (mem : Mem) (log_id : ℕ) (self : LogImpl)
      → start m (restarted mem) log_id ≡ ok self
      → Transition m (down mem log_id) started (running self)
  fails_to_start :
      (mem : Mem) (log_id : ℕ) (e : LogErr)
      → start m (restarted mem) log_id ≡ err e
      → Transition m (down mem log_id) (start_failed e) (down mem log_id)

pub data Run (m : Medium) : System → List Event → System → Type 0 where
  no_steps : (sys : System) → Run m sys [] sys
  then_step :
      {a b c : System} {e : Event} {es : List Event}
      → Transition m a e b
      → Run m b es c
      → Run m a (e ∷ es) c

-- What a client may expect of each event: the response of a call and the abstract state after it.
-- A crash within a commit or an advance finds it undone or done, and no crash keeps pending appends.
pub data AbstractStep (m : Medium) : AbstractLogState → Event → AbstractLogState → Type 0 where
  appends :
      (s : AbstractLogState) (bytes : List ℕ)
      → HasRoom s (length bytes)
      → AbstractStep m s
          (returned (to_tentatively_append bytes) (ok (pending_tail s)))
          (Spec.tentatively_append s bytes)
  refuses_append :
      (s : AbstractLogState) (bytes : List ℕ) (available : ℕ)
      → ¬ HasRoom s (length bytes)
      → available < length bytes
      → (available + length s.log + length s.pending ≡ s.capacity)
        ⊎ (available + pending_tail s ≡ u128_max)
      → AbstractStep m s
          (returned (to_tentatively_append bytes) (err (insufficient_space_for_append available)))
          s
  commits : (s : AbstractLogState) → AbstractStep m s (returned to_commit (ok tt)) (Spec.commit s)
  advances :
      (s : AbstractLogState) (new_head : ℕ)
      → s.head ≤ new_head
      → new_head ≤ s.head + length s.log
      → AbstractStep m s
          (returned (to_advance_head new_head) (ok tt))
          (Spec.advance_head s new_head)
  refuses_advance :
      (s : AbstractLogState) (new_head : ℕ) (e : LogErr)
      → AdvanceRefusal s new_head e
      → AbstractStep m s (returned (to_advance_head new_head) (err e)) s
  loses_pending : (s : AbstractLogState) → AbstractStep m s crashed (drop_pending_appends s)
  undoes :
      (s : AbstractLogState) (c : Call)
      → AbstractStep m s (crashed_within c) (drop_pending_appends s)
  commits_before_crash :
      (s : AbstractLogState)
      → AbstractStep m s (crashed_within to_commit) (drop_pending_appends (Spec.commit s))
  advances_before_crash :
      (s : AbstractLogState) (new_head : ℕ)
      → s.head ≤ new_head
      → new_head ≤ s.head + length s.log
      → AbstractStep m s
          (crashed_within (to_advance_head new_head))
          (drop_pending_appends (Spec.advance_head s new_head))
  restarts : (s : AbstractLogState) → AbstractStep m s started s
  finds_corruption :
      (s : AbstractLogState)
      → m.impervious_to_corruption ≡ false
      → AbstractStep m s (start_failed crc_mismatch) s

pub data AbstractSteps (m : Medium)
    : AbstractLogState → List Event → AbstractLogState → Type 0 where
  no_abstract_steps : (s : AbstractLogState) → AbstractSteps m s [] s
  then_abstract_step :
      {a b c : AbstractLogState} {e : Event} {es : List Event}
      → AbstractStep m a e b
      → AbstractSteps m b es c
      → AbstractSteps m a (e ∷ es) c

-- A running log is valid for its abstract state, and contents after a crash recover to it.
abbrev pub Represents : Medium → System → AbstractLogState → Type 0
Represents m (running self) s =
    IsValid m self.wrpm_region.pm_region self.log_id self.untrusted_log_impl s
Represents m (down mem log_id) s = IsMemory mem × (recover_state m mem log_id ≡ some s)
