-- ===== src/Pmem/Wrpm.antt =====
-- wrpm_t.rs: the write-restricted region. Its `perm` authorizes a write if it authorizes every
-- contents that the region can crash as after it. The model keeps, as ghost state, the views after
-- each write and flush, so that a theorem can say this of every write that an operation made. It
-- keeps the writes too, each with the region it was made to, for what `write` requires of them.
use verified_storage.Base.{ℕ, ◌+◌, ◌≤◌, length, List, [], ◌∷◌}
use verified_storage.Pmem.View.{Region, Mem, CanCrashAs, NoOutstandingWritesInRange}
use verified_storage.Pmem.View

pub record WriteCall : Type 0 where
  pub to : Region
  pub addr : ℕ
  pub bytes : List ℕ

pub record Wrpm : Type 0 where
  pub pm_region : Region
  pub history : List Region
  pub writes : List WriteCall

abbrev pub new : Region → Wrpm
new r = record { pm_region = r; history = []; writes = [] }

unfoldable pub write : Wrpm → ℕ → List ℕ → Wrpm
write w addr bytes =
    let r = View.write w.pm_region addr bytes in
    record {
      pm_region = r;
      history = r ∷ w.history;
      writes = record { to = w.pm_region; addr = addr; bytes = bytes } ∷ w.writes;
    }

unfoldable pub flush : Wrpm → Wrpm
flush w =
    let r = View.flush w.pm_region in
    record { pm_region = r; history = r ∷ w.history; writes = w.writes }

-- Everything the region can crash as is authorized.
abbrev pub OnlyCrashesIn : (Mem → Type 0) → Region → Type 0
OnlyCrashesIn P r = (m : Mem) → CanCrashAs r m → P m

abbrev pub AllOnlyCrashIn : (Mem → Type 0) → List Region → Type 0
AllOnlyCrashIn P [] = Unit {0}
AllOnlyCrashIn P (r ∷ rs) = OnlyCrashesIn P r × AllOnlyCrashIn P rs

-- A write is inside the region, and no write is outstanding where it goes.
pub record IsAllowed (c : WriteCall) : Type 0 where
  pub inside : c.addr + length c.bytes ≤ c.to.len
  pub free : NoOutstandingWritesInRange c.to c.addr (c.addr + length c.bytes)

abbrev pub AllAllowed : List WriteCall → Type 0
AllAllowed [] = Unit {0}
AllAllowed (c ∷ cs) = IsAllowed c × AllAllowed cs
