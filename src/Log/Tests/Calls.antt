-- ===== src/Log/Tests/Calls.antt =====
-- The calls of the log, on a log of four bytes.
use verified_storage.Base.{ℕ, ◌+◌, ◌<◌, ◌≡◌, ◌⊎◌, [], ◌∷◌, ok, err, arith, u128_max}
use verified_storage.Pmem.Wrpm
use verified_storage.Pmem.Wrpm.{Wrpm, AllOnlyCrashIn}
use verified_storage.Log.Impl.{tentatively_append, commit, advance_head, read}
use verified_storage.Log.Impl.Err.{
  insufficient_space_for_append, cant_advance_head_position_beyond_tail, cant_read_past_tail,
}
use verified_storage.Log.Inv.{IsValid}
use verified_storage.Log.Append.{RecoversTo}
use verified_storage.Log.Append.Call.{tentatively_append_with_room, tentatively_append_without_room}
use verified_storage.Log.Update.Flip.{RecoversToEither}
use verified_storage.Log.Commit.{commit_lem}
use verified_storage.Log.Advance.{advance_head_within}
use verified_storage.Log.Advance.Refused.{advance_head_refused, advances_beyond_tail}
use verified_storage.Log.Read.{observe_log}
use verified_storage.Log.Read.Area.{read_within}
use verified_storage.Log.Read.Refused.{read_refused, reads_past_tail}
use verified_storage.Log.Tests.Fixtures.{
  good_medium, good_medium-IsSound, state_0, appended, IsValid-1, committed_log, state_2, IsValid-2,
  advanced_log, state_3, IsValid-3,
}

commit_lem_example :
    let (result, self', w') = commit good_medium appended.1 (Wrpm.new appended.2.pm_region) in
    (result ≡ ok tt)
    × IsValid good_medium w'.pm_region 7 self' state_2
    × AllOnlyCrashIn (RecoversToEither good_medium 7 state_0 state_2) w'.history
commit_lem_example = commit_lem (Wrpm.new appended.2.pm_region) good_medium-IsSound IsValid-1 tt

advance_head_within_example :
    let (result, self', w') =
      advance_head good_medium committed_log.1 (Wrpm.new committed_log.2.pm_region) 2 in
    (result ≡ ok tt)
    × IsValid good_medium w'.pm_region 7 self' state_3
    × AllOnlyCrashIn (RecoversToEither good_medium 7 state_2 state_3) w'.history
advance_head_within_example =
    advance_head_within (Wrpm.new committed_log.2.pm_region) 2 good_medium-IsSound IsValid-2
      (omega arith) (omega arith) tt

-- An append that wraps.
tentatively_append_with_room_example :
    let (result, self', w') =
      tentatively_append advanced_log.1 (Wrpm.new advanced_log.2.pm_region) (4 ∷ 5 ∷ 6 ∷ []) in
    (result ≡ ok 3)
    × IsValid good_medium w'.pm_region 7 self' (record state_3 { pending = 4 ∷ 5 ∷ 6 ∷ [] })
    × AllOnlyCrashIn (RecoversTo good_medium 7 state_3) w'.history
tentatively_append_with_room_example =
    tentatively_append_with_room (Wrpm.new advanced_log.2.pm_region) (4 ∷ 5 ∷ 6 ∷ []) IsValid-3
      (omega arith) (omega arith, omega arith) tt

tentatively_append_without_room_example :
    (available : ℕ) × (tentatively_append appended.1 (Wrpm.new appended.2.pm_region) (8 ∷ 9 ∷ [])
      ≡ (err (insufficient_space_for_append available), appended.1, Wrpm.new appended.2.pm_region))
    × (available < 2)
    × ((available + 0 + 3 ≡ 4) ⊎ (available + 3 ≡ u128_max))
tentatively_append_without_room_example =
    tentatively_append_without_room (Wrpm.new appended.2.pm_region) (8 ∷ 9 ∷ []) IsValid-1
      (omega arith) (λ (h, _). absurd (omega arith))

advance_head_refused_example :
    advance_head good_medium advanced_log.1 (Wrpm.new advanced_log.2.pm_region) 4 ≡ (
      err (cant_advance_head_position_beyond_tail 3),
      advanced_log.1,
      Wrpm.new advanced_log.2.pm_region,
    )
advance_head_refused_example =
    advance_head_refused (Wrpm.new advanced_log.2.pm_region) 4 IsValid-3 (omega arith)
      (advances_beyond_tail (omega arith))

read_within_example :
    read good_medium committed_log.1 (Wrpm.new committed_log.2.pm_region) 1 2
    ≡ ok (observe_log good_medium committed_log.1.info 1 (2 ∷ 3 ∷ []))
read_within_example =
    read_within (Wrpm.new committed_log.2.pm_region) 1 2 IsValid-2 (omega arith) (omega arith)

read_refused_example :
    read good_medium advanced_log.1 (Wrpm.new advanced_log.2.pm_region) 2 2
    ≡ err (cant_read_past_tail 3)
read_refused_example =
    read_refused (Wrpm.new advanced_log.2.pm_region) 2 2 IsValid-3 (omega arith)
      (reads_past_tail (omega arith) (omega arith))
