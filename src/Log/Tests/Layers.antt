-- ===== src/Log/Tests/Layers.antt =====
-- Bytes, crashes and checks below the log.
use verified_storage.Base.{
  ◌∙◌, sym, length-seq_new, get_or-seq_new, ℕ, ◌*◌, ◌<◌, ◌≡◌, refl, ◌⊎◌, true, List, [], ◌∷◌, arith,
  zero, suc,
}
use verified_storage.Pmem.Bytes.{spec_u64_to_le_bytes, length-to_le_bytes}
use verified_storage.Pmem.View.{
  Region, write, flush, committed, flush_byte, extract_bytes, committed-flush,
}
use verified_storage.Pmem.Mock
use verified_storage.Pmem.Mock.{IsMockOf}
use verified_storage.Pmem.Mocks
use verified_storage.Pmem.Mocks.{mock_at, AreMocksOf, write-AreMocksOf, read_region-committed}
use verified_storage.Pmem.Regions.{region_at, write_region}
use verified_storage.Pmem.Crash.{crash_single_chunk}
use verified_storage.Pmem.Medium.{cdb_value}
use verified_storage.Log.Fresh.{CanCrashAs-flushed}
use verified_storage.Log.Tests.Fixtures.{blank}

abbrev cdb_bytes : List ℕ
cdb_bytes = spec_u64_to_le_bytes (cdb_value true)

crash_single_chunk_example :
    ((addr : ℕ)
      → addr < 260
      → (committed (flush (write blank (8 * 10) cdb_bytes))).at addr
        ≡ (blank.state addr).state_at_last_flush)
    ⊎ ((addr : ℕ)
        → addr < 260
        → (committed (flush (write blank (8 * 10) cdb_bytes))).at addr
          ≡ flush_byte ((write blank (8 * 10) cdb_bytes).state addr))
crash_single_chunk_example =
    crash_single_chunk blank (committed (flush (write blank (8 * 10) cdb_bytes))) 10 cdb_bytes
      (length-to_le_bytes 8 (cdb_value true)) (λ k p q. refl)
      (CanCrashAs-flushed (write blank (8 * 10) cdb_bytes))

blank-IsMockOf : IsMockOf (Mock.new 260) blank
unfolding Mock.new
blank-IsMockOf = record {
  same_len = length-seq_new {A = ℕ} 260 (λ i. 0);
  same_bytes = λ a lt. get_or-seq_new {A = ℕ} 260 (λ i. 0) a 0 lt ∙ sym (committed-flush blank a);
}

abbrev two_regions : List Region
two_regions = blank ∷ blank ∷ []

two_mocks-AreMocksOf : AreMocksOf (Mocks.new (260 ∷ 260 ∷ [])) two_regions
unfolding Mocks.new
two_mocks-AreMocksOf = record { same_count = refl; each = each }
  where
    each :
        (i : ℕ)
        → i < 2
        → IsMockOf (mock_at (Mocks.new (260 ∷ 260 ∷ [])) i) (region_at two_regions i)
    each zero h = blank-IsMockOf
    each (suc zero) h = blank-IsMockOf
    each (suc (suc i)) h = absurd (omega arith)

write-AreMocksOf_example :
    AreMocksOf
      (Mocks.write (Mocks.new (260 ∷ 260 ∷ [])) 1 80 (3 ∷ 4 ∷ []))
      (write_region two_regions 1 80 (3 ∷ 4 ∷ []))
write-AreMocksOf_example =
    write-AreMocksOf (Mocks.new (260 ∷ 260 ∷ [])) two_regions 1 80 (3 ∷ 4 ∷ []) two_mocks-AreMocksOf
      (omega arith) (omega arith)

read_region-committed_example :
    Mocks.read (Mocks.new (260 ∷ 260 ∷ [])) 1 10 4 ≡ extract_bytes (committed blank) 10 4
read_region-committed_example =
    read_region-committed (Mocks.new (260 ∷ 260 ∷ [])) two_regions 1 10 4 two_mocks-AreMocksOf
      (omega arith) (omega arith) (λ k p q. refl)
