-- ===== src/Multilog/Tests/Fixtures.antt =====
-- A multilog of two logs of four bytes, on a medium without corruption, for the tests.
use verified_storage.Base.{ℕ, false, List, [], ◌∷◌, zero, suc, arith}
use verified_storage.Pmem.View.{Region}
use verified_storage.Pmem.Regions
use verified_storage.Pmem.Regions.{WrpmRegions}
use verified_storage.Log.Spec.{AbstractLogState}
use verified_storage.Log.Tests.Fixtures.{good_medium, good_medium-IsSound, blank}
use verified_storage.Multilog.Spec.{AbstractMultiLogState, initialize}
use verified_storage.Multilog.Impl.{MultiLogImpl, Ran, tentatively_append, commit, advance_head}
use verified_storage.Multilog.Inv.{IsValid}
use verified_storage.Multilog.Setup.{write_setup_metadata_to_all_regions}
use verified_storage.Multilog.Setup.All.{EachHasSpace, IsValid-set_up}
use verified_storage.Multilog.Start.Stages.{infos_of}
use verified_storage.Multilog.Append.Call.{multilog_append_with_room}
use verified_storage.Multilog.Commit.{multilog_commit_lem}
use verified_storage.Multilog.Advance.{multilog_advance_within}

abbrev pub blanks : List Region
blanks = blank ∷ blank ∷ []

pub blanks-EachHasSpace : EachHasSpace blanks
blanks-EachHasSpace zero lt = (omega arith, omega arith)
blanks-EachHasSpace (suc zero) lt = (omega arith, omega arith)
blanks-EachHasSpace (suc (suc i)) lt = absurd (omega arith)

-- The regions after a setup, the multilog on them, and its abstract state.
abbrev pub regions_0 : List Region
regions_0 = write_setup_metadata_to_all_regions good_medium blanks 9

abbrev pub multilog_0 : MultiLogImpl
multilog_0 = record { num_logs = 2; cdb = false; infos = infos_of regions_0 false }

abbrev pub states_0 : AbstractMultiLogState
states_0 = initialize (4 ∷ 4 ∷ [])

pub multilog-IsValid-0 : IsValid good_medium regions_0 9 multilog_0 states_0
multilog-IsValid-0 =
    IsValid-set_up good_medium good_medium-IsSound blanks 9 (omega arith) (omega arith)
      (omega arith) blanks-EachHasSpace

abbrev empty : AbstractLogState
empty = record { head = 0; log = []; pending = []; capacity = 4 }

-- Three bytes are appended to the second log.
abbrev pub appended : Ran ℕ
appended = tentatively_append multilog_0 (Regions.new regions_0) 1 (1 ∷ 2 ∷ 3 ∷ [])

abbrev pub states_1 : AbstractMultiLogState
states_1 = record { states = empty ∷ record empty { pending = 1 ∷ 2 ∷ 3 ∷ [] } ∷ [] }

pub multilog-IsValid-1 : IsValid good_medium appended.2.pm_regions 9 appended.1 states_1
multilog-IsValid-1 =
    (multilog_append_with_room (Regions.new regions_0) 1 (1 ∷ 2 ∷ 3 ∷ []) multilog-IsValid-0
      (omega arith) (omega arith) (omega arith, omega arith) tt).1

-- They are committed.
abbrev pub committed_logs : Ran (Unit {0})
committed_logs = commit good_medium appended.1 (Regions.new appended.2.pm_regions)

abbrev pub states_2 : AbstractMultiLogState
states_2 = record { states = empty ∷ record empty { log = 1 ∷ 2 ∷ 3 ∷ [] } ∷ [] }

pub multilog-IsValid-2 : IsValid good_medium committed_logs.2.pm_regions 9 committed_logs.1 states_2
multilog-IsValid-2 =
    (multilog_commit_lem (Regions.new appended.2.pm_regions) good_medium-IsSound multilog-IsValid-1
      tt).1

-- The head of the second log advances by two bytes.
abbrev pub advanced_logs : Ran (Unit {0})
advanced_logs =
    advance_head good_medium committed_logs.1 (Regions.new committed_logs.2.pm_regions) 1 2

abbrev pub states_3 : AbstractMultiLogState
states_3 = record { states = empty ∷ record empty { head = 2; log = 3 ∷ [] } ∷ [] }

pub multilog-IsValid-3 : IsValid good_medium advanced_logs.2.pm_regions 9 advanced_logs.1 states_3
multilog-IsValid-3 =
    (multilog_advance_within (Regions.new committed_logs.2.pm_regions) 1 2 good_medium-IsSound
      multilog-IsValid-2 (omega arith) (omega arith) (omega arith) tt).1
