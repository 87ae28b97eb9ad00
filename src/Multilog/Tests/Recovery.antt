-- ===== src/Multilog/Tests/Recovery.antt =====
-- Setting up, crashing and starting again, on a multilog of two logs of four bytes.
use verified_storage.Base.{
  ℕ, zero, suc, u64_mod, ◌≤◌, ◌<◌, ◌≡◌, refl, ◌⊎◌, true, false, List, [], ◌∷◌, map, length, some,
  ok, err, arith, length-map, get_or-map,
}
use verified_storage.Pmem.View.{
  Region, Mem, NoOutstandingWrites, committed, flush, committed-flush, len-flush,
}
use verified_storage.Pmem.Regions
use verified_storage.Pmem.Regions.{AllAllowed}
use verified_storage.Multilog.Api.Allowed.{multilog_call_writes_allowed}
use verified_storage.Pmem.Regions.{
  CanCrashAs, region_at, mem_at, no_region, no_mem, flush_regions, WrpmRegions,
}
use verified_storage.Log.Fresh.{FlushesToBytes}
use verified_storage.Log.Api.System.{restarted}
use verified_storage.Log.Tests.Fixtures.{good_medium, good_medium-IsSound, blank}
use verified_storage.Multilog.Spec.{AbstractMultiLogState}
use verified_storage.Multilog.Recover.{recover_all}
use verified_storage.Multilog.Impl
use verified_storage.Multilog.Impl.Err.{crc_mismatch, insufficient_space_for_setup}
use verified_storage.Multilog.Inv.{IsValid}
use verified_storage.Multilog.Inv.Crash.{multilog_recover_after_crash}
use verified_storage.Multilog.Inv.Update.{region_at-flush}
use verified_storage.Multilog.Setup.{setup}
use verified_storage.Multilog.Setup.Result.{
  multilog_setup_enough_space, multilog_setup_refused, sets_up_too_small,
}
use verified_storage.Multilog.Start
use verified_storage.Multilog.Start.Recovery.{multilog_start_lem}
use verified_storage.Multilog.Fresh.{
  all_ready, CanCrashAs-flushed_regions, multilog_start_after_setup,
}
use verified_storage.Multilog.Api.{MultiLogImpl, start}
use verified_storage.Multilog.Api.System.{
  to_tentatively_append, to_commit, run_call, AreMemories, running, returns, crashes, starts,
  no_steps, then_step, AbstractSteps, Represents, Call, response, returned, crashed, started,
}
use verified_storage.Multilog.Api.Refine.{multilog_steps_refine, multilog_restarts_after_crash}
use verified_storage.Multilog.Tests.Fixtures.{
  blanks, blanks-EachHasSpace, regions_0, multilog_0, states_0, multilog-IsValid-0, appended,
  multilog-IsValid-1,
}

multilog_setup_enough_space_example :
    let (result, rs') = setup good_medium blanks 9 in
    (result ≡ ok (4 ∷ 4 ∷ []))
    × (length rs' ≡ 2)
    × ((i : ℕ) → i < 2 → NoOutstandingWrites (region_at rs' i))
    × ((mems : List Mem) → CanCrashAs rs' mems → recover_all good_medium mems 9 ≡ some states_0)
multilog_setup_enough_space_example =
    multilog_setup_enough_space good_medium-IsSound blanks 9 (omega arith) (omega arith)
      (omega arith) blanks-EachHasSpace

abbrev one_small : List Region
one_small = blank ∷ record blank { len = 256 } ∷ []

multilog_setup_refused_example :
    setup good_medium one_small 9
    ≡ (err (insufficient_space_for_setup 1 257), flush_regions one_small)
multilog_setup_refused_example =
    multilog_setup_refused good_medium one_small 9
      (sets_up_too_small 1 (omega arith) (omega arith) (omega arith) first_fits)
  where
    first_fits : (j : ℕ) → j < 1 → 257 ≤ (region_at one_small j).len
    first_fits zero h = omega arith
    first_fits (suc j) h = absurd (omega arith)

blanks_bytes : (i : ℕ) → i < 2 → FlushesToBytes (region_at blanks i)
blanks_bytes zero h a = omega arith
blanks_bytes (suc zero) h a = omega arith
blanks_bytes (suc (suc i)) h a = absurd (omega arith)

multilog_start_after_setup_example :
    let (capacities, rs') = setup good_medium blanks 9 in
    let (result, ws') = Start.start good_medium (Regions.new rs') 9 in
    (capacities ≡ ok (4 ∷ 4 ∷ []))
    × (((self : Impl.MultiLogImpl) × (result ≡ ok self)
          × IsValid good_medium ws'.pm_regions 9 self states_0)
        ⊎ ((result ≡ err crc_mismatch) × (true ≡ false)))
multilog_start_after_setup_example =
    multilog_start_after_setup good_medium-IsSound blanks 9 (omega arith) (omega arith)
      (omega arith) blanks-EachHasSpace blanks_bytes

-- What the regions flush to is bytes.
pub ready_0 :
    (i : ℕ)
    → i < 2
    → ((region_at regions_0 i).len < u64_mod) × FlushesToBytes (region_at regions_0 i)
ready_0 =
    all_ready good_medium good_medium-IsSound blanks 9 (omega arith) (omega arith) (omega arith)
      blanks-EachHasSpace blanks_bytes

abbrev crashed_mems : List Mem
crashed_mems = map committed (flush_regions regions_0)

AreMemories-crashed : AreMemories crashed_mems
AreMemories-crashed i lt =
    let lt' : i < length regions_0 =
      omega (arith, length-map committed (flush_regions regions_0), length-map flush regions_0) in
    let lt₂ : i < 2 = omega (arith, multilog-IsValid-0.consistent.consistent.regions_len) in
    rw
      (
        get_or-map committed (flush_regions regions_0) i no_region no_mem
            (omega (arith, length-map flush regions_0)),
        region_at-flush regions_0 i lt',
      )
      (
        rw len-flush (ready_0 i lt₂).0,
        λ a. rw (committed-flush (region_at regions_0 i) a) ((ready_0 i lt₂).1 a),
      )

recovered_0 : recover_all good_medium crashed_mems 9 ≡ some states_0
recovered_0 =
    multilog_recover_after_crash multilog-IsValid-0.consistent crashed_mems
      (CanCrashAs-flushed_regions regions_0)

-- The pending bytes of `appended` may be lost at a crash, or may not.
multilog_recover_after_crash_example :
    recover_all good_medium (map committed (flush_regions appended.2.pm_regions)) 9 ≡ some states_0
multilog_recover_after_crash_example =
    multilog_recover_after_crash multilog-IsValid-1.consistent
      (map committed (flush_regions appended.2.pm_regions))
      (CanCrashAs-flushed_regions appended.2.pm_regions)

multilog_start_lem_example :
    let (result, ws') = Start.start good_medium (Regions.new regions_0) 9 in
    ((self : Impl.MultiLogImpl) × (result ≡ ok self)
      × IsValid good_medium ws'.pm_regions 9 self states_0)
    ⊎ ((result ≡ err crc_mismatch) × (true ≡ false))
multilog_start_lem_example =
    multilog_start_lem good_medium-IsSound (Regions.new regions_0) 9 states_0
      (λ i lt. (ready_0 i (omega (arith, count))).0)
      (λ i lt a.
        rw (committed-flush (region_at regions_0 i) a) ((ready_0 i (omega (arith, count))).1 a))
      recovered_0
  where
    count : length regions_0 ≡ 2
    count = multilog-IsValid-0.consistent.consistent.regions_len

abbrev pub running_0 : MultiLogImpl
running_0 = record {
  untrusted_log_impl = multilog_0;
  multilog_id = 9;
  wrpm_regions = Regions.new regions_0;
}

multilog_restarts_after_crash_example :
    (self' : MultiLogImpl) × (start good_medium (map restarted crashed_mems) 9 ≡ ok self')
    × Represents good_medium (running self') states_0
multilog_restarts_after_crash_example =
    multilog_restarts_after_crash running_0 crashed_mems good_medium-IsSound refl multilog-IsValid-0
      AreMemories-crashed (CanCrashAs-flushed_regions regions_0)

-- The multilog crashes, starts again, takes an append to its second log, and commits it.
again :
    (self' : MultiLogImpl) × (start good_medium (map restarted crashed_mems) 9 ≡ ok self')
    × Represents good_medium (running self') states_0
again =
    multilog_restarts_after_crash running_0 crashed_mems good_medium-IsSound refl multilog-IsValid-0
      AreMemories-crashed (CanCrashAs-flushed_regions regions_0)

abbrev append_5 : Call
append_5 = to_tentatively_append 1 (5 ∷ [])

abbrev appended_again : MultiLogImpl
appended_again = run_call good_medium again.0 append_5

multilog_steps_refine_example :
    (t : AbstractMultiLogState) × AbstractSteps good_medium states_0
      (crashed
        ∷ started
        ∷ returned append_5 (response good_medium again.0 append_5)
        ∷ returned to_commit (response good_medium appended_again to_commit)
        ∷ [])
      t
    × Represents good_medium (running (run_call good_medium appended_again to_commit)) t
multilog_steps_refine_example = multilog_steps_refine good_medium-IsSound multilog-IsValid-0 (
    then_step
      (crashes running_0 crashed_mems AreMemories-crashed (CanCrashAs-flushed_regions regions_0))
      (then_step (starts crashed_mems 9 again.0 again.1) (
        then_step (returns again.0 append_5 (omega arith))
          (then_step (returns appended_again to_commit tt) (no_steps _)))))

multilog_call_writes_allowed_example :
    AllAllowed
      (run_call good_medium running_0 (to_tentatively_append 1 (5 ∷ []))).wrpm_regions.writes
multilog_call_writes_allowed_example =
    multilog_call_writes_allowed good_medium running_0 (to_tentatively_append 1 (5 ∷ []))
      multilog-IsValid-0 (omega arith)
