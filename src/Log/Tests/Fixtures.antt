-- ===== src/Log/Tests/Fixtures.antt =====
-- A medium without corruption and a region of 260 bytes, for the tests.
use verified_storage.Base.{
  ℕ, ◌+◌, ◌%◌, ◌≡◌, refl, ap₂, Bool, true, false, List, [], ◌∷◌, suc, none, u64_mod, arith,
}
use verified_storage.Pmem.Bytes.{to_le_bytes, spec_u64_to_le_bytes}
use verified_storage.Pmem.View.{Region, committed}
use verified_storage.Pmem.Medium.{Medium, IsSound, observe, cdb_value}
use verified_storage.Pmem.Wrpm
use verified_storage.Pmem.Wrpm.{Wrpm}
use verified_storage.Log.Spec.{AbstractLogState}
use verified_storage.Log.Impl.{LogImpl, Ran, tentatively_append, commit, advance_head}
use verified_storage.Log.Inv.{IsValid}
use verified_storage.Log.Setup.{write_setup_metadata}
use verified_storage.Log.Setup.Correct.{IsValid-write_setup_metadata}
use verified_storage.Log.Start.Inversion.{info_of}
use verified_storage.Log.Append.Call.{tentatively_append_with_room}
use verified_storage.Log.Commit.{commit_lem}
use verified_storage.Log.Advance.{advance_head_within}

abbrev sum : List ℕ → ℕ
sum [] = 0
sum (b ∷ bs) = b + sum bs

abbrev pub good_medium : Medium
good_medium = record {
  crc = λ bs. sum bs % u64_mod;
  observe_byte = λ addr b. b;
  impervious_to_corruption = true;
}

observe_good : (addr : ℕ) (bs : List ℕ) → observe good_medium addr bs ≡ bs
unfolding observe
observe_good addr [] = refl
observe_good addr (b ∷ bs) = ap₂ ◌∷◌ refl (observe_good (suc addr) bs)

cdb_good :
    (addr : ℕ) (written seen : Bool)
    → observe good_medium addr (spec_u64_to_le_bytes (cdb_value written))
      ≡ spec_u64_to_le_bytes (cdb_value seen)
    → seen ≡ written
unfolding observe to_le_bytes
cdb_good addr true true h = refl
cdb_good addr false false h = refl
cdb_good addr true false h = absurd (cc h)
cdb_good addr false true h = absurd (cc h)

pub good_medium-IsSound : IsSound good_medium
good_medium-IsSound = record {
  crc_lt = λ bs. omega arith;
  byte_lt = λ addr b h. h;
  impervious = λ h addr b. refl;
  crc_detects = λ addr crc_addr bs apart h. observe_good addr bs;
  cdb_detects = cdb_good;
}

abbrev pub blank : Region
blank = record {
  len = 260;
  state = λ a. record { state_at_last_flush = 0; outstanding_write = none };
}

-- The region after a setup, the log on it, and its abstract state.
abbrev pub region_0 : Region
region_0 = write_setup_metadata good_medium blank 260 7

abbrev pub log_0 : LogImpl
log_0 = record { cdb = false; info = info_of (committed region_0) false }

abbrev pub state_0 : AbstractLogState
state_0 = record { head = 0; log = []; pending = []; capacity = 4 }

pub IsValid-0 : IsValid good_medium region_0 7 log_0 state_0
IsValid-0 =
    IsValid-write_setup_metadata good_medium good_medium-IsSound blank 7 (omega arith) (omega arith)
      (omega arith)

-- Three bytes are appended.
abbrev pub appended : Ran ℕ
appended = tentatively_append log_0 (Wrpm.new region_0) (1 ∷ 2 ∷ 3 ∷ [])

abbrev pub state_1 : AbstractLogState
state_1 = record { head = 0; log = []; pending = 1 ∷ 2 ∷ 3 ∷ []; capacity = 4 }

pub IsValid-1 : IsValid good_medium appended.2.pm_region 7 appended.1 state_1
IsValid-1 =
    (tentatively_append_with_room (Wrpm.new region_0) (1 ∷ 2 ∷ 3 ∷ []) IsValid-0 (omega arith)
      (omega arith, omega arith) tt).1

-- They are committed.
abbrev pub committed_log : Ran (Unit {0})
committed_log = commit good_medium appended.1 (Wrpm.new appended.2.pm_region)

abbrev pub state_2 : AbstractLogState
state_2 = record { head = 0; log = 1 ∷ 2 ∷ 3 ∷ []; pending = []; capacity = 4 }

pub IsValid-2 : IsValid good_medium committed_log.2.pm_region 7 committed_log.1 state_2
IsValid-2 = (commit_lem (Wrpm.new appended.2.pm_region) good_medium-IsSound IsValid-1 tt).1

-- The head advances by two bytes.
abbrev pub advanced_log : Ran (Unit {0})
advanced_log = advance_head good_medium committed_log.1 (Wrpm.new committed_log.2.pm_region) 2

abbrev pub state_3 : AbstractLogState
state_3 = record { head = 2; log = 3 ∷ []; pending = []; capacity = 4 }

pub IsValid-3 : IsValid good_medium advanced_log.2.pm_region 7 advanced_log.1 state_3
IsValid-3 =
    (advance_head_within (Wrpm.new committed_log.2.pm_region) 2 good_medium-IsSound IsValid-2
      (omega arith) (omega arith) tt).1
