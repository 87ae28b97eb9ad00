-- ===== src/Multilog/Tests/Durable.antt =====
-- An append of three bytes to the second of two logs, on regions that were set up, survives a crash.
use verified_storage.Base.{
  ℕ, ◌≡◌, ◌<◌, refl, ok, List, [], ◌∷◌, map, length, arith, zero, suc, ◌≤◌, get_or, length-map,
  get_or-map, inl, inr, lt_or_le,
}
use verified_storage.Pmem.View.{Mem, Region, committed, flush, committed-flush, len-flush}
use verified_storage.Pmem.Regions
use verified_storage.Pmem.Regions.{region_at, no_region, no_mem, flush_regions}
use verified_storage.Log.Api.System.{restarted}
use verified_storage.Log.Tests.Fixtures.{good_medium, good_medium-IsSound}
use verified_storage.Multilog.Impl
use verified_storage.Multilog.Impl.{info_at}
use verified_storage.Multilog.Fresh.{CanCrashAs-flushed_regions}
use verified_storage.Multilog.Inv.Update.{region_at-flush}
use verified_storage.Multilog.Append.Call.{call_with_room}
use verified_storage.Multilog.Api.{MultiLogImpl, start, tentatively_append, commit, read}
use verified_storage.Multilog.Api.System.{to_tentatively_append, to_commit, run_call, AreMemories}
use verified_storage.Multilog.Api.Durable.{multilog_committed_append_survives}
use verified_storage.Multilog.Tests.Bytes.{
  EachFlushesToBytes, append_bytes-bytes, update_log_metadata-bytes,
}
use verified_storage.Multilog.Tests.Fixtures.{
  regions_0, multilog_0, multilog-IsValid-0, appended, committed_logs, multilog-IsValid-2,
}
use verified_storage.Multilog.Tests.Recovery.{running_0, ready_0}

abbrev bytes : List ℕ
bytes = 1 ∷ 2 ∷ 3 ∷ []

abbrev run : MultiLogImpl
run =
    run_call good_medium (run_call good_medium running_0 (to_tentatively_append 1 bytes)) to_commit

get_or-beyond : (rs : List Region) (i : ℕ) (d : Region) → length rs ≤ i → get_or rs i d ≡ d
get_or-beyond [] i d h = refl
get_or-beyond (r ∷ rs) zero d h = absurd (omega arith)
get_or-beyond (r ∷ rs) (suc i) d h = get_or-beyond rs i d (omega arith)

bytes_0 : EachFlushesToBytes regions_0
bytes_0 i = elim (lt_or_le i 2) [
  | inl lt ↦ (ready_0 i lt).1
  | inr le ↦
      rw
        (get_or-beyond regions_0 i no_region
          (omega (arith, multilog-IsValid-0.consistent.consistent.regions_len)))
        (λ a. omega arith)
]

appended_bytes : EachFlushesToBytes appended.2.pm_regions
appended_bytes =
    rw
      (call_with_room (Regions.new regions_0) multilog-IsValid-0 1 (omega arith) bytes (omega arith)
        (omega arith, omega arith) (λ e. omega arith))
      (append_bytes-bytes (info_at multilog_0.infos 1) (Regions.new regions_0) 1 bytes
        (omega arith, (omega arith, (omega arith, tt))) bytes_0)

run_bytes : EachFlushesToBytes run.wrpm_regions.pm_regions
unfolding run_call tentatively_append commit Impl.commit
run_bytes =
    update_log_metadata-bytes good_medium _ (Regions.new appended.2.pm_regions) appended_bytes

abbrev crashed_mems : List Mem
crashed_mems = map committed (flush_regions run.wrpm_regions.pm_regions)

AreMemories-run : AreMemories crashed_mems
unfolding run_call tentatively_append commit
AreMemories-run i lt =
    let lt' : i < length committed_logs.2.pm_regions = omega (
      arith,
      length-map committed (flush_regions committed_logs.2.pm_regions),
      length-map flush committed_logs.2.pm_regions,
    ) in
    rw
      (
        get_or-map committed (flush_regions committed_logs.2.pm_regions) i no_region no_mem
            (omega (arith, length-map flush committed_logs.2.pm_regions)),
        region_at-flush committed_logs.2.pm_regions i lt',
      )
      (
        omega (
          arith,
          len-flush (region_at committed_logs.2.pm_regions i),
          (multilog-IsValid-2.consistent.consistent.each i
              (omega (arith, multilog-IsValid-2.consistent.consistent.regions_len))).region_fits,
        ),
        λ a. rw (committed-flush (region_at committed_logs.2.pm_regions i) a) (run_bytes i a),
      )

multilog_committed_append_survives_example :
    (position : ℕ) × ((tentatively_append running_0 1 bytes).0 ≡ ok position)
    × ((self' : MultiLogImpl) × (start good_medium (map restarted crashed_mems) 9 ≡ ok self')
        × (read good_medium self' 1 position 3 ≡ ok bytes))
multilog_committed_append_survives_example =
    multilog_committed_append_survives running_0 1 bytes crashed_mems good_medium-IsSound refl
      multilog-IsValid-0 (omega arith) (omega arith) (omega arith, omega arith) AreMemories-run
      (CanCrashAs-flushed_regions run.wrpm_regions.pm_regions)
