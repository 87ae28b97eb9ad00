-- ===== src/Multilog/Tests/Calls.antt =====
-- The calls of the multilog, on two logs of four bytes.
use verified_storage.Base.{ℕ, ◌+◌, ◌<◌, ◌≡◌, ◌⊎◌, [], ◌∷◌, ok, err, arith, u128_max}
use verified_storage.Pmem.Regions
use verified_storage.Pmem.Regions.{AllOnlyCrashIn, region_at, in_region}
use verified_storage.Log.Read.{observe_log}
use verified_storage.Log.Tests.Fixtures.{good_medium, good_medium-IsSound}
use verified_storage.Multilog.Impl.{info_at, tentatively_append, commit, advance_head, read}
use verified_storage.Multilog.Impl.Err.{
  insufficient_space_for_append, cant_advance_head_position_beyond_tail, cant_read_before_head,
}
use verified_storage.Multilog.Spec.{AbstractMultiLogState}
use verified_storage.Multilog.Inv.{IsValid}
use verified_storage.Multilog.Append.{RecoversTo}
use verified_storage.Multilog.Append.Call.{multilog_append_with_room, multilog_append_without_room}
use verified_storage.Multilog.Update.Turn.{RecoversToEither}
use verified_storage.Multilog.Commit.{multilog_commit_lem}
use verified_storage.Multilog.Advance.{multilog_advance_within}
use verified_storage.Multilog.Advance.Refused.{multilog_advance_refused, advances_beyond_tail}
use verified_storage.Multilog.Read.{multilog_read_within, multilog_read_refused, reads_before_head}
use verified_storage.Multilog.Tests.Fixtures.{
  states_0, appended, multilog-IsValid-1, committed_logs, states_2, multilog-IsValid-2,
  advanced_logs, states_3, multilog-IsValid-3,
}

multilog_commit_lem_example :
    let (result, self', ws') = commit good_medium appended.1 (Regions.new appended.2.pm_regions) in
    (result ≡ ok tt)
    × IsValid good_medium ws'.pm_regions 9 self' states_2
    × AllOnlyCrashIn (RecoversToEither good_medium 9 states_0 states_2) ws'.history
multilog_commit_lem_example =
    multilog_commit_lem (Regions.new appended.2.pm_regions) good_medium-IsSound multilog-IsValid-1
      tt

multilog_advance_within_example :
    let (result, self', ws') =
      advance_head good_medium committed_logs.1 (Regions.new committed_logs.2.pm_regions) 1 2 in
    (result ≡ ok tt)
    × IsValid good_medium ws'.pm_regions 9 self' states_3
    × AllOnlyCrashIn (RecoversToEither good_medium 9 states_2 states_3) ws'.history
multilog_advance_within_example =
    multilog_advance_within (Regions.new committed_logs.2.pm_regions) 1 2 good_medium-IsSound
      multilog-IsValid-2 (omega arith) (omega arith) (omega arith) tt

-- An append that wraps.
abbrev states_4 : AbstractMultiLogState
states_4 = record {
  states =
      record { head = 0; log = []; pending = []; capacity = 4 }
      ∷ record { head = 2; log = 3 ∷ []; pending = 4 ∷ 5 ∷ 6 ∷ []; capacity = 4 }
      ∷ [];
}

multilog_append_with_room_example :
    let (result, self', ws') =
      tentatively_append advanced_logs.1
        (Regions.new advanced_logs.2.pm_regions)
        1
        (4 ∷ 5 ∷ 6 ∷ []) in
    (result ≡ ok 3)
    × IsValid good_medium ws'.pm_regions 9 self' states_4
    × AllOnlyCrashIn (RecoversTo good_medium 9 states_3) ws'.history
multilog_append_with_room_example =
    multilog_append_with_room (Regions.new advanced_logs.2.pm_regions) 1 (4 ∷ 5 ∷ 6 ∷ [])
      multilog-IsValid-3 (omega arith) (omega arith) (omega arith, omega arith) tt

multilog_append_without_room_example :
    (available : ℕ) × (tentatively_append appended.1
        (Regions.new appended.2.pm_regions)
        1
        (8 ∷ 9 ∷ [])
      ≡ (
        err (insufficient_space_for_append available),
        appended.1,
        Regions.new appended.2.pm_regions,
      ))
    × (available < 2)
    × ((available + 0 + 3 ≡ 4) ⊎ (available + 3 ≡ u128_max))
multilog_append_without_room_example =
    multilog_append_without_room (Regions.new appended.2.pm_regions) 1 (8 ∷ 9 ∷ [])
      multilog-IsValid-1 (omega arith) (omega arith) (λ (h, _). absurd (omega arith))

multilog_advance_refused_example :
    advance_head good_medium advanced_logs.1 (Regions.new advanced_logs.2.pm_regions) 1 4 ≡ (
      err (cant_advance_head_position_beyond_tail 3),
      advanced_logs.1,
      Regions.new advanced_logs.2.pm_regions,
    )
multilog_advance_refused_example =
    multilog_advance_refused (Regions.new advanced_logs.2.pm_regions) 1 4 multilog-IsValid-3
      (omega arith) (advances_beyond_tail (omega arith) (omega arith))

multilog_read_within_example :
    read good_medium committed_logs.1 (Regions.new committed_logs.2.pm_regions) 1 1 2
    ≡ ok (observe_log (in_region good_medium 1) (info_at committed_logs.1.infos 1) 1 (2 ∷ 3 ∷ []))
multilog_read_within_example =
    multilog_read_within (Regions.new committed_logs.2.pm_regions) 1 1 2 multilog-IsValid-2
      (omega arith) (omega arith) (omega arith)

multilog_read_refused_example :
    read good_medium advanced_logs.1 (Regions.new advanced_logs.2.pm_regions) 1 1 1
    ≡ err (cant_read_before_head 2)
multilog_read_refused_example =
    multilog_read_refused (Regions.new advanced_logs.2.pm_regions) 1 1 1 multilog-IsValid-3
      (omega arith) (reads_before_head (omega arith) (omega arith))
