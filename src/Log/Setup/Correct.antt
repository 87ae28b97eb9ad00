-- ===== src/Log/Setup/Correct.antt =====
-- `setup` of logimpl_v.rs: the region that it leaves, and its results.
use mathlib.Core.Path.{subst}
use verified_storage.Base.{
  ℕ, ◌+◌, ◌-◌, ◌%◌, ◌≤◌, ◌<◌, ◌≡◌, refl, sym, ap, ◌∙◌, false, some, none, arith, u64_mod, u128_mod,
  ok,
}
use verified_storage.Pmem.View.{
  Region, Mem, write, flush, committed, settled-flush, len-flush, CanCrashAs, NoOutstandingWrites,
}
use verified_storage.Pmem.Medium.{Medium, IsSound}
use verified_storage.Log.Layout.{
  absolute_pos_of_log_area, min_log_area_size, deserialize_global_metadata,
  deserialize_region_metadata, deserialize_log_metadata,
}
use verified_storage.Log.Recover.{crc_global, crc_region, crc_log, recover_state, extract_log}
use verified_storage.Log.Spec.{initialize}
use verified_storage.Log.Impl.{LogInfo}
use verified_storage.Log.Inv.{MetadataConsistent, InfoValid, IsValid}
use verified_storage.Log.Inv.Crash.{recover_after_crash}
use verified_storage.Log.Start.Inversion.{info_of, state_of}
use verified_storage.Log.Start.Recovery.{IsValid-recovered}
use verified_storage.Log.Setup.{
  new_global_metadata, new_region_metadata, new_log_metadata, write_setup_metadata_to_region,
  write_setup_metadata, setup,
}
use verified_storage.Log.Setup.Parse.{
  setup_global_metadata, setup_global_crc, setup_region_metadata, setup_region_crc, setup_log_cdb,
  setup_log_metadata, setup_log_crc,
}

-- The volatile state of an empty log.
abbrev new_info : ℕ → LogInfo
new_info capacity = record {
  log_area_len = capacity;
  head = 0;
  head_log_area_offset = 0 % capacity;
  log_length = 0;
  log_plus_pending_length = 0;
}

module _ (m : Medium) (sound : IsSound m) (r : Region) (log_id : ℕ) (size_fits : r.len < u64_mod)
    (id_fits : log_id < u128_mod) (space : 257 ≤ r.len) where
  after : Region
  after = write_setup_metadata m r r.len log_id

  after_len : after.len ≡ r.len
  unfolding after write_setup_metadata write_setup_metadata_to_region flush write
  after_len = refl

  after_settled : (pos : ℕ) → (after.state pos).outstanding_write ≡ none
  unfolding after write_setup_metadata
  after_settled pos = settled-flush (write_setup_metadata_to_region m r r.len log_id) pos

  after_region : deserialize_region_metadata (committed after) ≡ new_region_metadata r.len log_id
  unfolding after
  after_region = setup_region_metadata m r r.len log_id sound size_fits id_fits

  after_log : deserialize_log_metadata (committed after) false ≡ new_log_metadata
  unfolding after
  after_log = setup_log_metadata m r r.len log_id sound size_fits id_fits

  after_global : deserialize_global_metadata (committed after) ≡ new_global_metadata
  unfolding after
  after_global = setup_global_metadata m r r.len log_id sound size_fits id_fits

  after_capacity : (info_of (committed after) false).log_area_len ≡ r.len - 256
  after_capacity = ap (λ g. g.log_area_len) after_region ∙ ground arith

  after_head : (info_of (committed after) false).head ≡ 0
  after_head = ap (λ g. g.head) after_log

  after_log_length : (info_of (committed after) false).log_length ≡ 0
  after_log_length = ap (λ g. g.log_length) after_log

  after_metadata :
      MetadataConsistent m (committed after) log_id false (info_of (committed after) false)
  unfolding after
  after_metadata = record {
    global_crc =
        setup_global_crc m r r.len log_id sound size_fits id_fits
        ∙ ap (crc_global m) (sym after_global);
    region_crc =
        setup_region_crc m r r.len log_id sound size_fits id_fits
        ∙ ap (crc_region m) (sym after_region);
    log_crc =
        setup_log_crc m r r.len log_id sound size_fits id_fits ∙ ap (crc_log m) (sym after_log);
    program_guid = ap (λ g. g.program_guid) after_global;
    version_number = ap (λ g. g.version_number) after_global;
    length_of_region = ap (λ g. g.length_of_region_metadata) after_global;
    region_size = ap (λ g. g.region_size) after_region ∙ sym after_len;
    region_log_id = ap (λ g. g.log_id) after_region;
    log_area_len = refl;
    head = refl;
    log_length = refl;
    fits = omega (arith, after_capacity, after_len);
  }

  after_valid : InfoValid (info_of (committed after) false)
  after_valid = record {
    area = omega (arith, after_capacity);
    log_le = omega arith;
    pending_le = omega (arith, after_log_length);
    offset = refl;
    tail_fits = omega (arith, after_head, after_log_length);
  }

  after_state :
      state_of (committed after) (info_of (committed after) false) ≡ initialize (r.len - 256)
  unfolding extract_log
  after_state = rw (after_log_length, after_head, after_capacity)

  pub IsValid-write_setup_metadata :
      IsValid m
        (write_setup_metadata m r r.len log_id)
        log_id
        (record {
          cdb = false;
          info = info_of (committed (write_setup_metadata m r r.len log_id)) false;
        })
        (initialize (r.len - 256))
  unfolding after
  IsValid-write_setup_metadata =
      subst
        (λ t.
          IsValid m after log_id (record { cdb = false; info = info_of (committed after) false }) t)
        after_state
        (IsValid-recovered after false after_settled (omega (arith, after_len))
          (setup_log_cdb m r r.len log_id sound size_fits id_fits) after_metadata after_valid)

pub setup_result :
    (m : Medium) (r : Region) (log_id : ℕ)
    → r.len < u64_mod
    → 257 ≤ r.len
    → setup m r log_id ≡ (ok (r.len - 256), write_setup_metadata m (flush r) (flush r).len log_id)
unfolding setup
setup_result m r log_id size_fits space = ground (arith, len-flush r)

-- `setup` on a region that is large enough returns the capacity, which is the length of the region
-- less that of its metadata, leaves no write outstanding, and whatever the region then crashes as,
-- recovery finds an empty log of that capacity.
pub setup_enough_space :
    {m : Medium} (sound : IsSound m) (r : Region) (log_id : ℕ)
    → r.len < u64_mod
    → log_id < u128_mod
    → absolute_pos_of_log_area + min_log_area_size ≤ r.len
    → let (result, r') = setup m r log_id in
      (result ≡ ok (r.len - absolute_pos_of_log_area))
      × (r'.len ≡ r.len)
      × NoOutstandingWrites r'
      × ((mem : Mem)
          → CanCrashAs r' mem
          → recover_state m mem log_id ≡ some (initialize (r.len - absolute_pos_of_log_area)))
unfolding after
setup_enough_space {m} sound r log_id size_fits id_fits space =
    rw (setup_result m r log_id size_fits space) (
      refl,
      after_len m sound (flush r) log_id size id_fits fits ∙ len-flush r,
      (λ k p q. after_settled m sound (flush r) log_id size id_fits fits k),
      λ mem crash.
          recover_after_crash
            (IsValid-write_setup_metadata m sound (flush r) log_id size id_fits fits).consistent mem
            crash
          ∙ ap (λ n. some (initialize (n - 256))) (len-flush r),
    )
  where
    size : (flush r).len < u64_mod
    size = omega (arith, len-flush r)

    fits : 257 ≤ (flush r).len
    fits = omega (arith, len-flush r)
