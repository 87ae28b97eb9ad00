-- ===== src/Pmem/Regions.antt =====
-- pmemspec_t.rs and wrpm_t.rs: the view of several regions, what a crash can leave of them, and the
-- write-restricted regions with, as ghost state, the views after each of their writes and flushes and
-- the calls of `write`.
use verified_storage.Base.{
  ℕ, suc, ◌+◌, ◌*◌, refl, sym, ap, ◌∙◌, arith, u64_mod, ◌<◌, ◌≡◌, none, List, [], ◌∷◌, map, length,
  get_or, update,
}
use verified_storage.Pmem.View.{Region, Mem}
use verified_storage.Pmem.View
use verified_storage.Pmem.Wrpm
use verified_storage.Pmem.Bytes.{spec_u64_to_le_bytes}
use verified_storage.Pmem.Medium.{Medium, IsSound, observe}

-- The region and the contents of an index out of range.
abbrev pub no_region : Region
no_region = record {
  len = 0;
  state = λ a. record { state_at_last_flush = 0; outstanding_write = none };
}

abbrev pub no_mem : Mem
no_mem = record { len = 0; at = λ a. 0 }

abbrev pub region_at : List Region → ℕ → Region
region_at rs i = get_or rs i no_region

abbrev pub mem_at : List Mem → ℕ → Mem
mem_at mems i = get_or mems i no_mem

-- Each region crashes on its own.
pub record CanCrashAs (rs : List Region) (mems : List Mem) : Type 0 where
  pub same_count : length mems ≡ length rs
  pub each : (i : ℕ) → i < length rs → View.CanCrashAs (region_at rs i) (mem_at mems i)

-- A call of `write`: the regions it goes to, the index of one, an address, and the bytes.
pub record WriteCall : Type 0 where
  pub to : List Region
  pub index : ℕ
  pub addr : ℕ
  pub bytes : List ℕ

pub record WrpmRegions : Type 0 where
  pub pm_regions : List Region
  pub history : List (List Region)
  pub writes : List WriteCall

abbrev pub new : List Region → WrpmRegions
new rs = record { pm_regions = rs; history = []; writes = [] }

abbrev pub write_region : List Region → ℕ → ℕ → List ℕ → List Region
write_region rs index addr bytes = update rs index (View.write (region_at rs index) addr bytes)

abbrev pub flush_regions : List Region → List Region
flush_regions rs = map View.flush rs

unfoldable pub write : WrpmRegions → ℕ → ℕ → List ℕ → WrpmRegions
write ws index addr bytes =
    let rs = write_region ws.pm_regions index addr bytes in
    record {
      pm_regions = rs;
      history = rs ∷ ws.history;
      writes = record { to = ws.pm_regions; index = index; addr = addr; bytes = bytes } ∷ ws.writes;
    }

unfoldable pub flush : WrpmRegions → WrpmRegions
flush ws =
    let rs = flush_regions ws.pm_regions in
    record { pm_regions = rs; history = rs ∷ ws.history; writes = ws.writes }

-- A write goes to one of the regions, is inside it, and no write is outstanding where it goes.
pub record IsAllowed (c : WriteCall) : Type 0 where
  pub in_range : c.index < length c.to
  pub allowed :
      Wrpm.IsAllowed (record { to = region_at c.to c.index; addr = c.addr; bytes = c.bytes })

abbrev pub AllAllowed : List WriteCall → Type 0
AllAllowed [] = Unit {0}
AllAllowed (c ∷ cs) = IsAllowed c × AllAllowed cs

-- Everything the regions can crash as is authorized.
abbrev pub OnlyCrashesIn : (List Mem → Type 0) → List Region → Type 0
OnlyCrashesIn P rs = (mems : List Mem) → CanCrashAs rs mems → P mems

abbrev pub AllOnlyCrashIn : (List Mem → Type 0) → List (List Region) → Type 0
AllOnlyCrashIn P [] = Unit {0}
AllOnlyCrashIn P (rs ∷ rss) = OnlyCrashesIn P rs × AllOnlyCrashIn P rss

-- A read of one region: its addresses, which are of the type u64, are apart from those of the
-- others, so that corruption may differ from region to region.
abbrev pub in_region : Medium → ℕ → Medium
in_region m index = record m { observe_byte = λ addr b. m.observe_byte (index * u64_mod + addr) b }

observe-in_region :
    (m : Medium) (index addr : ℕ) (bs : List ℕ)
    → observe (in_region m index) addr bs ≡ observe m (index * u64_mod + addr) bs
unfolding observe
observe-in_region m index addr [] = refl
observe-in_region m index addr (b ∷ bs) =
    ap (λ t. m.observe_byte (index * u64_mod + addr) b ∷ t)
      (observe-in_region m index (suc addr) bs ∙ ap (λ a. observe m a bs) (omega arith))

pub in_region-IsSound : {m : Medium} (index : ℕ) → IsSound m → IsSound (in_region m index)
in_region-IsSound {m} index sound = record {
  crc_lt = sound.crc_lt;
  byte_lt = λ addr b h. sound.byte_lt (index * u64_mod + addr) b h;
  impervious = λ h addr b. sound.impervious h (index * u64_mod + addr) b;
  crc_detects = λ addr crc_addr bs apart e.
      observe-in_region m index addr bs
      ∙ sound.crc_detects (index * u64_mod + addr) (index * u64_mod + crc_addr) bs (omega arith) (
          sym (observe-in_region m index crc_addr _)
          ∙ e
          ∙ ap (λ t. spec_u64_to_le_bytes (m.crc t)) (observe-in_region m index addr bs));
  cdb_detects = λ addr written seen e.
      sound.cdb_detects (index * u64_mod + addr) written seen
        (sym (observe-in_region m index addr _) ∙ e);
}
