-- ===== src/Pmem/Crash.antt =====
-- pmemutil_v.rs: what a crash can leave of a region.
use Prim.Native.Nat.{◌/◌}
use verified_storage.Base.{
  ℕ, ◌*◌, ◌<◌, ◌≡◌, ◌≢◌, refl, ◌⊎◌, inl, inr, none, List, length, arith, sym, ap, ◌∙◌, eq_or_ne,
}
use verified_storage.Pmem.View.{
  Region, Mem, CanCrashAs, write, flush_byte, NoOutstandingWrites, committed, write_out,
  committed-write, len-write,
}

-- A byte with no outstanding write is after a crash what it was.
pub crash_at_settled :
    (r : Region) (m : Mem) (addr : ℕ)
    → CanCrashAs r m
    → addr < r.len
    → (r.state addr).outstanding_write ≡ none
    → m.at addr ≡ (r.state addr).state_at_last_flush
crash_at_settled r m addr c h settled = elim (c.chunks (addr / 8)) [
  | inl old ↦ old addr h refl
  | inr new ↦ new addr h refl ∙ flushed
]
  where
    flushed : flush_byte (r.state addr) ≡ (r.state addr).state_at_last_flush
    flushed = rw (settled, flush_byte) refl

-- A settled region can only crash as what is committed.
pub crash_if_settled :
    (r : Region) (m : Mem)
    → NoOutstandingWrites r
    → CanCrashAs r m
    → (addr : ℕ) → addr < r.len
    → m.at addr ≡ (committed r).at addr
crash_if_settled r m settled c addr h = crash_at_settled r m addr c h (settled addr (omega arith) h)

-- One byte after a crash, where an aligned chunk was being written to a settled region.
module _ (r : Region) (m : Mem) (c : ℕ) (bytes : List ℕ) (eight : length bytes ≡ 8)
    (settled : NoOutstandingWrites r) (crash : CanCrashAs (write r (8 * c) bytes) m) where
  outside_chunk :
      (addr : ℕ)
      → addr < r.len
      → addr / 8 ≢ c
      → (m.at addr ≡ (r.state addr).state_at_last_flush)
        × (m.at addr ≡ flush_byte ((write r (8 * c) bytes).state addr))
  outside_chunk addr h other = (old, old ∙ sym flushed)
    where
      same : (write r (8 * c) bytes).state addr ≡ r.state addr
      same = write_out r (8 * c) bytes addr (omega arith)

      old : m.at addr ≡ (r.state addr).state_at_last_flush
      old = rw (← ap (λ (t : Mem). t.at addr) (committed-write r (8 * c) bytes)) (
          crash_at_settled (write r (8 * c) bytes) m addr crash (rw len-write h)
            (rw same (settled addr (omega arith) h)))

      flushed : flush_byte ((write r (8 * c) bytes).state addr) ≡ (r.state addr).state_at_last_flush
      flushed = rw same (rw (settled addr (omega arith) h, flush_byte) refl)

  -- Where no write was outstanding, a crash after the write of one aligned chunk of eight bytes
  -- leaves the region as it was, or with the whole chunk written.
  pub crash_single_chunk :
      ((addr : ℕ) → addr < r.len → m.at addr ≡ (r.state addr).state_at_last_flush)
      ⊎ ((addr : ℕ) → addr < r.len → m.at addr ≡ flush_byte ((write r (8 * c) bytes).state addr))
  crash_single_chunk = elim (crash.chunks c) [
    | inl old ↦ inl (λ addr h. elim (eq_or_ne (addr / 8) c) [
      | inl e ↦
          old addr (rw len-write h) e
          ∙ ap (λ (t : Mem). t.at addr) (committed-write r (8 * c) bytes)
      | inr ne ↦ (outside_chunk addr h ne).0
    ])
    | inr new ↦ inr (λ addr h. elim (eq_or_ne (addr / 8) c) [
      | inl e ↦ new addr (rw len-write h) e
      | inr ne ↦ (outside_chunk addr h ne).1
    ])
  ]
