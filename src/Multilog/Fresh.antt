-- ===== src/Multilog/Fresh.antt =====
-- multilogimpl_t.rs: `start` on regions that `setup` has just set up.
use mathlib.Core.Path.{subst}
use verified_storage.Base.{
  ℕ, ◌≤◌, ◌<◌, ◌≡◌, sym, ◌∙◌, ◌⊎◌, List, length, map, arith, false, ok, err, u64_mod, u128_mod,
  length-map, get_or-map,
}
use verified_storage.Pmem.Bytes.{AreBytes-to_le_bytes}
use verified_storage.Pmem.View.{Region, committed, flush, committed-flush}
use verified_storage.Pmem.Medium.{Medium, IsSound, cdb_value}
use verified_storage.Pmem.Regions.{CanCrashAs, region_at, no_region, no_mem, flush_regions}
use verified_storage.Pmem.Regions
use verified_storage.Log.Layout.Serialize.{AreBytes-serialize_global, AreBytes-serialize_log}
use verified_storage.Log.Recover.{crc_global, crc_log}
use verified_storage.Log.Fresh.{
  FlushesToBytes, write-FlushesToBytes, flush-FlushesToBytes, CanCrashAs-flushed,
}
use verified_storage.Multilog.Layout.Serialize.{AreBytes-serialize_multilog_region}
use verified_storage.Multilog.Recover.{crc_region}
use verified_storage.Multilog.Spec.{initialize}
use verified_storage.Multilog.Impl.{MultiLogImpl}
use verified_storage.Multilog.Impl.Err.{crc_mismatch}
use verified_storage.Multilog.Inv.{LogName, IsValid}
use verified_storage.Multilog.Inv.Update.{region_at-flush, name_of}
use verified_storage.Multilog.Setup.{
  setup, new_global_metadata, new_log_metadata, write_setup_metadata_to_all_regions,
  write_setup_metadata_to_single_region,
}
use verified_storage.Multilog.Setup.Parse.{set_up, region_metadata_of}
use verified_storage.Multilog.Setup.Correct.{after_len}
use verified_storage.Multilog.Setup.All.{EachHasSpace, capacities_of, region_at-after_all}
use verified_storage.Multilog.Setup.Result.{setup_result, multilog_setup_enough_space, space-flush}
use verified_storage.Multilog.Start.{start}
use verified_storage.Multilog.Start.Recovery.{multilog_start_lem}

set_up-FlushesToBytes :
    (m : Medium) (r : Region) (size : ℕ) (name : LogName)
    → FlushesToBytes r
    → FlushesToBytes (set_up m r size name)
unfolding write_setup_metadata_to_single_region
set_up-FlushesToBytes m r size name h =
    write-FlushesToBytes _ 136 _ (AreBytes-to_le_bytes 8 (crc_log m new_log_metadata)) (
      write-FlushesToBytes _ 104 _ (AreBytes-serialize_log new_log_metadata) (
        write-FlushesToBytes _ 96 _ (AreBytes-to_le_bytes 8 (cdb_value false)) (
          write-FlushesToBytes _ 88 _
            (AreBytes-to_le_bytes 8 (crc_region m (region_metadata_of size name)))
            (write-FlushesToBytes _ 40 _
              (AreBytes-serialize_multilog_region (region_metadata_of size name))
              (write-FlushesToBytes _ 32 _
                (AreBytes-to_le_bytes 8 (crc_global m new_global_metadata))
                (write-FlushesToBytes r 0 _ (AreBytes-serialize_global new_global_metadata) h))))))

-- Regions can crash as they would be flushed.
pub CanCrashAs-flushed_regions :
    (rs : List Region) → CanCrashAs rs (map committed (flush_regions rs))
CanCrashAs-flushed_regions rs = record {
  same_count = length-map committed (flush_regions rs) ∙ length-map flush rs;
  each = λ i lt.
      rw
        (
          get_or-map committed (flush_regions rs) i no_region no_mem
              (omega (arith, length-map flush rs)),
          region_at-flush rs i lt,
        )
        (CanCrashAs-flushed (region_at rs i));
}

module _ (m : Medium) (sound : IsSound m) (rs : List Region) (multilog_id : ℕ)
    (nonempty : 0 < length rs) (few : length rs ≤ 0xffff_ffff) (id_fits : multilog_id < u128_mod)
    (space : EachHasSpace rs) where
  -- What `start` needs of the regions that were set up.
  pub all_ready :
      ((i : ℕ) → i < length rs → FlushesToBytes (region_at rs i))
      → (i : ℕ) → i < length rs
      → ((region_at (write_setup_metadata_to_all_regions m rs multilog_id) i).len < u64_mod)
        × FlushesToBytes (region_at (write_setup_metadata_to_all_regions m rs multilog_id) i)
  all_ready bytes i lt =
      let (fits, enough) = space i lt in
      let name = name_of multilog_id (length rs) i in
      subst (λ r. (r.len < u64_mod) × FlushesToBytes r)
        (sym (region_at-after_all m sound rs multilog_id nonempty few id_fits space i lt))
        (
          rw
              (after_len m sound (region_at rs i) name fits id_fits (omega arith) (omega arith)
                enough)
              fits,
          flush-FlushesToBytes _ (set_up-FlushesToBytes m (region_at rs i) _ _ (bytes i lt)),
        )

  flushed_bytes :
      ((i : ℕ) → i < length rs → FlushesToBytes (region_at rs i))
      → (i : ℕ) → i < length (flush_regions rs)
      → FlushesToBytes (region_at (flush_regions rs) i)
  flushed_bytes bytes i lt =
      let lt' : i < length rs = omega (arith, length-map flush rs) in
      subst FlushesToBytes (sym (region_at-flush rs i lt'))
        (flush-FlushesToBytes (region_at rs i) (bytes i lt'))

setup_ready :
    {m : Medium} (sound : IsSound m) (rs : List Region) (multilog_id : ℕ)
    → 0 < length rs
    → length rs ≤ 0xffff_ffff
    → multilog_id < u128_mod
    → EachHasSpace rs
    → ((i : ℕ) → i < length rs → FlushesToBytes (region_at rs i))
    → let (_, rs') = setup m rs multilog_id in
      (i : ℕ) → i < length rs → ((region_at rs' i).len < u64_mod) × FlushesToBytes (region_at rs' i)
setup_ready {m} sound rs multilog_id nonempty few id_fits space bytes i lt =
    rw (setup_result m rs multilog_id nonempty few space) (
      all_ready m sound (flush_regions rs) multilog_id (omega (arith, length-map flush rs))
        (omega (arith, length-map flush rs)) id_fits (space-flush m rs multilog_id space)
        (flushed_bytes m sound rs multilog_id nonempty few id_fits space bytes) i
        (omega (arith, length-map flush rs)))

-- After a `setup` with enough space, `start` with the same multilog identifier returns a valid
-- multilog of empty logs of the capacities that `setup` returned, or it reports a CRC mismatch, and
-- then the memory is not impervious to corruption.
pub multilog_start_after_setup :
    {m : Medium} (sound : IsSound m) (rs : List Region) (multilog_id : ℕ)
    → 0 < length rs
    → length rs ≤ 0xffff_ffff
    → multilog_id < u128_mod
    → EachHasSpace rs
    → ((i : ℕ) → i < length rs → FlushesToBytes (region_at rs i))
    → let (capacities, rs') = setup m rs multilog_id in
      let (result, ws') = start m (Regions.new rs') multilog_id in
      (capacities ≡ ok (capacities_of rs))
      × (((self : MultiLogImpl) × (result ≡ ok self)
            × IsValid m ws'.pm_regions multilog_id self (initialize (capacities_of rs)))
          ⊎ ((result ≡ err crc_mismatch) × (m.impervious_to_corruption ≡ false)))
multilog_start_after_setup {m} sound rs multilog_id nonempty few id_fits space bytes =
    let (capacities, same_count, _, crash) =
      multilog_setup_enough_space sound rs multilog_id nonempty few id_fits space in
    let (_, rs') = setup m rs multilog_id in
    let ready = setup_ready sound rs multilog_id nonempty few id_fits space bytes in
    (
      capacities,
      multilog_start_lem sound (Regions.new rs') multilog_id (initialize (capacities_of rs))
          (λ i lt. (ready i (omega (arith, same_count))).0)
          (λ i lt a.
            rw (committed-flush (region_at rs' i) a) ((ready i (omega (arith, same_count))).1 a))
          (crash (map committed (flush_regions rs')) (CanCrashAs-flushed_regions rs')),
    )
