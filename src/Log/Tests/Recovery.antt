-- ===== src/Log/Tests/Recovery.antt =====
-- Setting up, crashing and starting again, on a log of four bytes.
use verified_storage.Log.Api.Allowed.{call_writes_allowed}
use verified_storage.Log.Start.Bounds.{FitsIn, recover_state-FitsIn, recover_state_only_its_log}
use verified_storage.Pmem.Wrpm.{AllAllowed}
use verified_storage.Log.Tests.Fixtures.{advanced_log, IsValid-3}
use verified_storage.Base.{none, ◌≡◌, refl, ◌⊎◌, true, false, [], ◌∷◌, some, ok, err, arith}
use verified_storage.Pmem.View.{
  Mem, CanCrashAs, write, NoOutstandingWrites, committed, flush, committed-flush, len-flush,
}
use verified_storage.Pmem.Wrpm
use verified_storage.Pmem.Wrpm.{Wrpm}
use verified_storage.Log.Spec.{AbstractLogState}
use verified_storage.Log.Recover.{recover_state}
use verified_storage.Log.Impl
use verified_storage.Log.Impl.Err.{crc_mismatch}
use verified_storage.Log.Inv.{IsValid}
use verified_storage.Log.Inv.Crash.{recover_after_crash}
use verified_storage.Log.Setup.{setup, write_setup_metadata, write_setup_metadata_to_region}
use verified_storage.Log.Setup.Correct.{setup_enough_space}
use verified_storage.Log.Fresh.{
  start_after_setup, FlushesToBytes, write_setup_metadata-FlushesToBytes, CanCrashAs-flushed,
}
use verified_storage.Log.Start
use verified_storage.Log.Start.Recovery.{start_lem}
use verified_storage.Log.Api.{LogImpl, start}
use verified_storage.Log.Api.System.{
  to_tentatively_append, to_commit, run_call, IsMemory, restarted, running, returns, crashes,
  starts, no_steps, then_step, AbstractSteps, Represents, Call, response, returned, crashed,
  started,
}
use verified_storage.Log.Api.Refine.{steps_refine, restarts_after_crash}
use verified_storage.Log.Tests.Fixtures.{
  good_medium, good_medium-IsSound, blank, region_0, log_0, state_0, IsValid-0, appended, IsValid-1,
}

setup_enough_space_example :
    let (result, r') = setup good_medium blank 7 in
    (result ≡ ok 4)
    × (r'.len ≡ 260)
    × NoOutstandingWrites r'
    × ((mem : Mem) → CanCrashAs r' mem → recover_state good_medium mem 7 ≡ some state_0)
setup_enough_space_example =
    setup_enough_space good_medium-IsSound blank 7 (omega arith) (omega arith) (omega arith)

start_after_setup_example :
    let (capacity, r') = setup good_medium blank 7 in
    let (result, w') = Start.start good_medium (Wrpm.new r') 7 in
    (capacity ≡ ok 4)
    × (((self : Impl.LogImpl) × (result ≡ ok self)
          × IsValid good_medium w'.pm_region 7 self state_0)
        ⊎ ((result ≡ err crc_mismatch) × (true ≡ false)))
start_after_setup_example =
    start_after_setup good_medium-IsSound blank 7 (omega arith) (omega arith) (λ a. omega arith)
      (omega arith)

pub bytes_0 : FlushesToBytes region_0
bytes_0 = write_setup_metadata-FlushesToBytes good_medium blank 260 7 (λ a. omega arith)

len_0 : region_0.len ≡ 260
unfolding write_setup_metadata write_setup_metadata_to_region flush write
len_0 = refl

IsMemory-0 : IsMemory (committed (flush region_0))
IsMemory-0 =
    (omega (arith, len-flush region_0, len_0), λ a. rw (committed-flush region_0 a) (bytes_0 a))

-- The pending bytes of `appended` may be lost at a crash, or may not.
recover_after_crash_example :
    recover_state good_medium (committed (flush appended.2.pm_region)) 7 ≡ some state_0
recover_after_crash_example =
    recover_after_crash IsValid-1.consistent (committed (flush appended.2.pm_region))
      (CanCrashAs-flushed appended.2.pm_region)

start_lem_example :
    let (result, w') = Start.start good_medium (Wrpm.new region_0) 7 in
    ((self : Impl.LogImpl) × (result ≡ ok self) × IsValid good_medium w'.pm_region 7 self state_0)
    ⊎ ((result ≡ err crc_mismatch) × (true ≡ false))
start_lem_example =
    start_lem good_medium-IsSound (Wrpm.new region_0) 7 state_0 (omega (arith, len_0))
      (IsMemory-0).1
      (recover_after_crash IsValid-0.consistent (committed (flush region_0))
        (CanCrashAs-flushed region_0))

abbrev pub running_0 : LogImpl
running_0 = record { untrusted_log_impl = log_0; log_id = 7; wrpm_region = Wrpm.new region_0 }

restarts_after_crash_example :
    (self' : LogImpl) × (start good_medium (restarted (committed (flush region_0))) 7 ≡ ok self')
    × Represents good_medium (running self') state_0
restarts_after_crash_example =
    restarts_after_crash running_0 (committed (flush region_0)) good_medium-IsSound refl IsValid-0
      IsMemory-0 (CanCrashAs-flushed region_0)

-- The log crashes, starts again, takes an append, and commits it.
again :
    (self' : LogImpl) × (start good_medium (restarted (committed (flush region_0))) 7 ≡ ok self')
    × Represents good_medium (running self') state_0
again =
    restarts_after_crash running_0 (committed (flush region_0)) good_medium-IsSound refl IsValid-0
      IsMemory-0 (CanCrashAs-flushed region_0)

abbrev append_5 : Call
append_5 = to_tentatively_append (5 ∷ [])

abbrev appended_again : LogImpl
appended_again = run_call good_medium again.0 append_5

steps_refine_example :
    (t : AbstractLogState) × AbstractSteps good_medium state_0
      (crashed
        ∷ started
        ∷ returned append_5 (response good_medium again.0 append_5)
        ∷ returned to_commit (response good_medium appended_again to_commit)
        ∷ [])
      t
    × Represents good_medium (running (run_call good_medium appended_again to_commit)) t
steps_refine_example = steps_refine good_medium-IsSound IsValid-0 (
    then_step
      (crashes running_0 (committed (flush region_0)) IsMemory-0 (CanCrashAs-flushed region_0))
      (then_step (starts (committed (flush region_0)) 7 again.0 again.1) (
        then_step (returns again.0 append_5 (omega arith))
          (then_step (returns appended_again to_commit tt) (no_steps _)))))

-- A log whose head is two bytes into its area.
abbrev shifted_log : LogImpl
shifted_log = record {
  untrusted_log_impl = advanced_log.1;
  log_id = 7;
  wrpm_region = Wrpm.new advanced_log.2.pm_region;
}

call_writes_allowed_example :
    AllAllowed
      (run_call good_medium shifted_log (to_tentatively_append (4 ∷ 5 ∷ 6 ∷ []))).wrpm_region.writes
call_writes_allowed_example =
    call_writes_allowed good_medium shifted_log (to_tentatively_append (4 ∷ 5 ∷ 6 ∷ [])) IsValid-3
      (omega arith)

recovered_0 : recover_state good_medium (committed (flush region_0)) 7 ≡ some state_0
recovered_0 =
    recover_after_crash IsValid-0.consistent (committed (flush region_0))
      (CanCrashAs-flushed region_0)

recover_state-FitsIn_example : FitsIn (committed (flush region_0)).len state_0
recover_state-FitsIn_example =
    recover_state-FitsIn good_medium (committed (flush region_0)) 7 recovered_0

recover_state_only_its_log_example : recover_state good_medium (committed (flush region_0)) 8 ≡ none
recover_state_only_its_log_example =
    recover_state_only_its_log good_medium (committed (flush region_0)) 7 8 recovered_0
      (λ e. absurd (omega (arith, e)))
