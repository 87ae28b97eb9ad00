-- ===== src/Log/Fresh.antt =====
-- logimpl_t.rs: `start` on a region that `setup` has just set up.
use verified_storage.Base.{
  ℕ, zero, suc, ◌+◌, ◌-◌, ◌≤◌, ◌<◌, ◌≡◌, refl, ◌⊎◌, inr, List, [], ◌∷◌, get_or, arith, false, ok,
  err, u64_mod, u128_mod,
}
use verified_storage.Pmem.Bytes.{AreBytes, AreBytes-to_le_bytes}
use verified_storage.Pmem.View.{
  Region, committed, flush, write, flush_byte, committed-flush, CanCrashAs,
}
use verified_storage.Pmem.Medium.{Medium, IsSound, cdb_value}
use verified_storage.Pmem.Wrpm
use verified_storage.Log.Layout.{absolute_pos_of_log_area, min_log_area_size}
use verified_storage.Log.Layout.Serialize.{
  AreBytes-serialize_global, AreBytes-serialize_region, AreBytes-serialize_log,
}
use verified_storage.Log.Recover.{crc_global, crc_region, crc_log}
use verified_storage.Log.Spec.{initialize}
use verified_storage.Log.Impl.{LogImpl}
use verified_storage.Log.Impl.Err.{crc_mismatch}
use verified_storage.Log.Inv.{IsValid}
use verified_storage.Log.Setup.{
  setup, new_global_metadata, new_region_metadata, new_log_metadata, write_setup_metadata,
  write_setup_metadata_to_region,
}
use verified_storage.Log.Setup.Correct.{setup_result, setup_enough_space}
use verified_storage.Log.Start.{start}
use verified_storage.Log.Start.Recovery.{start_lem}

-- Contents made of bytes, once every write is flushed.
abbrev pub FlushesToBytes : Region → Type 0
FlushesToBytes r = (a : ℕ) → flush_byte (r.state a) < 256

get_or-AreBytes : (bytes : List ℕ) (i : ℕ) → AreBytes bytes → get_or bytes i 0 < 256
get_or-AreBytes [] i h = omega arith
get_or-AreBytes (b ∷ bs) zero (hb, hs) = hb
get_or-AreBytes (b ∷ bs) (suc i) (hb, hs) = get_or-AreBytes bs i hs

pub write-FlushesToBytes :
    (r : Region) (addr : ℕ) (bytes : List ℕ)
    → AreBytes bytes
    → FlushesToBytes r
    → FlushesToBytes (write r addr bytes)
unfolding write
write-FlushesToBytes r addr bytes hb h a = ground (arith, get_or-AreBytes bytes (a - addr) hb, h a)

pub flush-FlushesToBytes : (r : Region) → FlushesToBytes r → FlushesToBytes (flush r)
unfolding flush
flush-FlushesToBytes r h a = h a

pub write_setup_metadata-FlushesToBytes :
    (m : Medium) (r : Region) (region_size log_id : ℕ)
    → FlushesToBytes r
    → FlushesToBytes (write_setup_metadata m r region_size log_id)
unfolding write_setup_metadata write_setup_metadata_to_region
write_setup_metadata-FlushesToBytes m r region_size log_id h = flush-FlushesToBytes _ (
    write-FlushesToBytes _ 120 _ (AreBytes-to_le_bytes 8 (crc_log m new_log_metadata)) (
      write-FlushesToBytes _ 88 _ (AreBytes-serialize_log new_log_metadata) (
        write-FlushesToBytes _ 80 _ (AreBytes-to_le_bytes 8 (cdb_value false)) (
          write-FlushesToBytes _ 72 _
            (AreBytes-to_le_bytes 8 (crc_region m (new_region_metadata region_size log_id)))
            (write-FlushesToBytes _ 40 _
              (AreBytes-serialize_region (new_region_metadata region_size log_id))
              (write-FlushesToBytes _ 32 _
                (AreBytes-to_le_bytes 8 (crc_global m new_global_metadata))
                (write-FlushesToBytes r 0 _ (AreBytes-serialize_global new_global_metadata) h)))))))

-- A region can crash as it would be flushed.
pub CanCrashAs-flushed : (r : Region) → CanCrashAs r (committed (flush r))
unfolding flush
CanCrashAs-flushed r = record { same_len = refl; chunks = λ chunk. inr (λ addr p q. refl) }

-- After a `setup` that has enough space, `start` with the same log identifier returns a valid empty
-- log of the capacity that `setup` returned, or it reports a CRC mismatch, and then the memory is
-- not impervious to corruption.
pub start_after_setup :
    {m : Medium} (sound : IsSound m) (r : Region) (log_id : ℕ)
    → r.len < u64_mod
    → log_id < u128_mod
    → FlushesToBytes r
    → absolute_pos_of_log_area + min_log_area_size ≤ r.len
    → let (capacity, r') = setup m r log_id in
      let (result, w') = start m (Wrpm.new r') log_id in
      (capacity ≡ ok (r.len - absolute_pos_of_log_area))
      × (((self : LogImpl) × (result ≡ ok self)
            × IsValid m w'.pm_region log_id self (initialize (r.len - absolute_pos_of_log_area)))
          ⊎ ((result ≡ err crc_mismatch) × (m.impervious_to_corruption ≡ false)))
start_after_setup {m} sound r log_id fits id_fits bytes space =
    let (capacity, same_len, _, crash) = setup_enough_space sound r log_id fits id_fits space in
    let (_, r') = setup m r log_id in
    let r'_bytes : FlushesToBytes r' = rw (setup_result m r log_id fits space) (
      write_setup_metadata-FlushesToBytes m (flush r) (flush r).len log_id
        (flush-FlushesToBytes r bytes)) in
    (
      capacity,
      start_lem sound (Wrpm.new r') log_id (initialize (r.len - absolute_pos_of_log_area))
          (omega (arith, same_len)) (λ a. rw (committed-flush r' a) (r'_bytes a))
          (crash (committed (flush r')) (CanCrashAs-flushed r')),
    )
