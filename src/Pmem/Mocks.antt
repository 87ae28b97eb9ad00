-- ===== src/Pmem/Mocks.antt =====
-- pmemmock_t.rs: a vector of mocks in place of several regions of persistent memory.
use mathlib.Core.Path.{subst}
use verified_storage.Base.{
  ℕ, ◌+◌, ◌≤◌, ◌<◌, ◌≡◌, sym, ◌∙◌, inl, inr, eq_or_ne, List, [], map, length, get_or, update, arith,
  length-update, get_or-update, get_or-update_other, length-map, get_or-map,
}
use verified_storage.Pmem.View.{Region, NoOutstandingWritesInRange, extract_bytes, committed}
use verified_storage.Pmem.View
use verified_storage.Pmem.Regions.{region_at, no_region, write_region, flush_regions}
use verified_storage.Pmem.Mock.{Mock, IsMockOf, write-IsMockOf, flush-IsMockOf, read-committed}
use verified_storage.Pmem.Mock

pub record Mocks : Type 0 where
  pub regions : List Mock

-- The mock of an index out of range.
abbrev no_mock : Mock
no_mock = record { contents = [] }

abbrev pub mock_at : Mocks → ℕ → Mock
mock_at mocks index = get_or mocks.regions index no_mock

unfoldable pub new : List ℕ → Mocks
new region_sizes = record { regions = map Mock.new region_sizes }

abbrev get_num_regions : Mocks → ℕ
get_num_regions mocks = length mocks.regions

abbrev get_region_size : Mocks → ℕ → ℕ
get_region_size mocks index = Mock.get_region_size (mock_at mocks index)

unfoldable pub read : Mocks → ℕ → ℕ → ℕ → List ℕ
read mocks index addr num_bytes = Mock.read (mock_at mocks index) addr num_bytes

unfoldable pub write : Mocks → ℕ → ℕ → List ℕ → Mocks
write mocks index addr bytes = record {
  regions = update mocks.regions index (Mock.write (mock_at mocks index) addr bytes);
}

unfoldable pub flush : Mocks → Mocks
flush mocks = mocks

-- Each of the mocks is one of the region at its index.
pub record AreMocksOf (mocks : Mocks) (rs : List Region) : Type 0 where
  pub same_count : get_num_regions mocks ≡ length rs
  pub each : (i : ℕ) → i < length rs → IsMockOf (mock_at mocks i) (region_at rs i)

-- The sizes of the mocks are those of the regions.
get_region_size-len :
    (mocks : Mocks) (rs : List Region) (index : ℕ)
    → AreMocksOf mocks rs
    → index < length rs
    → get_region_size mocks index ≡ (region_at rs index).len
get_region_size-len mocks rs index v h = (v.each index h).same_len

-- A write to one of the mocks, inside its region, is a write to that region, which leaves the others
-- as they were.
pub write-AreMocksOf :
    (mocks : Mocks) (rs : List Region) (index addr : ℕ) (bytes : List ℕ)
    → AreMocksOf mocks rs
    → index < length rs
    → addr + length bytes ≤ (region_at rs index).len
    → AreMocksOf (write mocks index addr bytes) (write_region rs index addr bytes)
unfolding write
write-AreMocksOf mocks rs index addr bytes v h inside = record {
  same_count = length-update mocks.regions index _ ∙ v.same_count ∙ sym (length-update rs index _);
  each = λ i lt. elim (eq_or_ne i index) [
    | inl e ↦
        subst
          (λ j.
            IsMockOf (mock_at (write mocks index addr bytes) j)
              (region_at (write_region rs index addr bytes) j))
          (sym e) here
    | inr ne ↦
        rw
          (
            get_or-update_other mocks.regions index i (Mock.write (mock_at mocks index) addr bytes)
                no_mock ne,
            get_or-update_other rs index i (View.write (region_at rs index) addr bytes) no_region
                ne,
          )
          (v.each i
            (omega (arith, length-update rs index (View.write (region_at rs index) addr bytes))))
  ];
}
  where
    here :
        IsMockOf
          (mock_at (write mocks index addr bytes) index)
          (region_at (write_region rs index addr bytes) index)
    here =
        rw
          (
            get_or-update mocks.regions index (Mock.write (mock_at mocks index) addr bytes) no_mock
                (omega (arith, v.same_count)),
            get_or-update rs index (View.write (region_at rs index) addr bytes) no_region h,
          )
          (write-IsMockOf (mock_at mocks index) (region_at rs index) addr bytes (v.each index h)
            inside)

-- A flush of the mocks, which does nothing, is a flush of all the regions.
flush-AreMocksOf :
    (mocks : Mocks) (rs : List Region)
    → AreMocksOf mocks rs
    → AreMocksOf (flush mocks) (flush_regions rs)
unfolding flush Mock.flush
flush-AreMocksOf mocks rs v = record {
  same_count = v.same_count ∙ sym (length-map View.flush rs);
  each = λ i lt.
      let below : i < length rs = omega (arith, length-map View.flush rs) in
      rw (get_or-map View.flush rs i no_region no_region below)
        (flush-IsMockOf (mock_at mocks i) (region_at rs i) (v.each i below));
}

-- A read of one of the mocks, inside its region and where no write is outstanding, returns what that
-- region has committed.
pub read_region-committed :
    (mocks : Mocks) (rs : List Region) (index addr num_bytes : ℕ)
    → AreMocksOf mocks rs
    → index < length rs
    → addr + num_bytes ≤ (region_at rs index).len
    → NoOutstandingWritesInRange (region_at rs index) addr (addr + num_bytes)
    → read mocks index addr num_bytes
      ≡ extract_bytes (committed (region_at rs index)) addr num_bytes
unfolding read
read_region-committed mocks rs index addr num_bytes v h inside settled =
    read-committed (mock_at mocks index) (region_at rs index) addr num_bytes (v.each index h) inside
      settled
