-- ===== src/Log/Tests/Durable.antt =====
-- An append of three bytes, on the log that was set up, survives a crash.
use verified_storage.Base.{ℕ, ◌≡◌, refl, ok, List, [], ◌∷◌, arith}
use verified_storage.Pmem.View.{committed, flush, committed-flush, len-flush}
use verified_storage.Pmem.Wrpm
use verified_storage.Log.Impl
use verified_storage.Log.Fresh.{FlushesToBytes, CanCrashAs-flushed}
use verified_storage.Log.Append.Call.{call_with_room}
use verified_storage.Log.Api.{LogImpl, start, tentatively_append, commit, read}
use verified_storage.Log.Api.System.{
  to_tentatively_append, to_commit, run_call, IsMemory, restarted,
}
use verified_storage.Log.Api.Durable.{committed_append_survives}
use verified_storage.Log.Tests.Bytes.{
  append_bytes-FlushesToBytes, update_log_metadata-FlushesToBytes,
}
use verified_storage.Log.Tests.Fixtures.{
  good_medium, good_medium-IsSound, region_0, log_0, IsValid-0, appended, committed_log, IsValid-2,
}
use verified_storage.Log.Tests.Recovery.{running_0, bytes_0}

abbrev bytes : List ℕ
bytes = 1 ∷ 2 ∷ 3 ∷ []

abbrev run : LogImpl
run = run_call good_medium (run_call good_medium running_0 (to_tentatively_append bytes)) to_commit

appended_bytes : FlushesToBytes appended.2.pm_region
appended_bytes =
    rw
      (call_with_room (Wrpm.new region_0) IsValid-0 bytes (omega arith) (omega arith, omega arith)
        (λ e. omega arith))
      (append_bytes-FlushesToBytes log_0.info (Wrpm.new region_0) bytes
        (omega arith, (omega arith, (omega arith, tt))) bytes_0)

run_bytes : FlushesToBytes run.wrpm_region.pm_region
unfolding run_call tentatively_append commit Impl.commit
run_bytes =
    update_log_metadata-FlushesToBytes good_medium _ (Wrpm.new appended.2.pm_region) appended_bytes

IsMemory-run : IsMemory (committed (flush run.wrpm_region.pm_region))
unfolding run_call tentatively_append commit
IsMemory-run = (
  omega (arith, len-flush committed_log.2.pm_region, IsValid-2.region_fits),
  λ a. rw (committed-flush committed_log.2.pm_region a) (run_bytes a),
)

committed_append_survives_example :
    (position : ℕ) × ((tentatively_append running_0 bytes).0 ≡ ok position)
    × ((self' : LogImpl) × (start good_medium
            (restarted (committed (flush run.wrpm_region.pm_region)))
            7
          ≡ ok self')
        × (read good_medium self' position 3 ≡ ok bytes))
committed_append_survives_example =
    committed_append_survives running_0 bytes (committed (flush run.wrpm_region.pm_region))
      good_medium-IsSound refl IsValid-0 (omega arith) (omega arith, omega arith) IsMemory-run
      (CanCrashAs-flushed run.wrpm_region.pm_region)
