-- ===== src/Log/Start/Recovery.antt =====
-- logimpl_v.rs, start_v.rs: `start` on a region that recovers.
use mathlib.Core.Path.{subst}
use verified_storage.Base.{
  ℕ, ◌<◌, ◌≡◌, refl, ◌⊎◌, inl, inr, Bool, false, none, some, ok, err, u64_mod, arith,
}
use verified_storage.Pmem.View.{Region, committed, flush, settled-flush, len-flush}
use verified_storage.Pmem.Medium.{Medium, IsSound}
use verified_storage.Pmem.Wrpm
use verified_storage.Pmem.Wrpm.{Wrpm}
use verified_storage.Log.Recover.{deserialize_and_check_log_cdb, recover_state}
use verified_storage.Log.Spec.{AbstractLogState}
use verified_storage.Log.Impl.{LogImpl}
use verified_storage.Log.Impl.Err.{crc_mismatch}
use verified_storage.Log.Inv.{MetadataConsistent, InfoValid, IsValid}
use verified_storage.Log.Start.{read_cdb, read_log_variables, start}
use verified_storage.Log.Start.Checks.{OfBytes}
use verified_storage.Log.Start.Held.{held-Describes, held-AreaHolds}
use verified_storage.Log.Start.Inversion.{info_of, state_of, recover_state_inv}
use verified_storage.Log.Start.Stages.{
  OkOrCorrupted, read_cdb_lem, read_global_metadata_lem, read_region_metadata_lem,
  read_log_metadata_lem,
}

-- A settled region whose metadata is consistent is a valid log.
module _ {m : Medium} (r : Region) {log_id : ℕ} (cdb : Bool)
    (settled : (pos : ℕ) → (r.state pos).outstanding_write ≡ none) (fits : r.len < u64_mod)
    (stored : deserialize_and_check_log_cdb (committed r) ≡ some cdb)
    (metadata : MetadataConsistent m (committed r) log_id cdb (info_of (committed r) cdb))
    (valid : InfoValid (info_of (committed r) cdb)) where
  pub IsValid-recovered :
      IsValid m r log_id
        (record { cdb = cdb; info = info_of (committed r) cdb })
        (state_of (committed r) (info_of (committed r) cdb))
  IsValid-recovered = record {
    metadata_settled = λ k p q. settled k;
    consistent = record {
      region_fits = fits;
      low_settled = λ k p q. settled k;
      active_settled = λ k p q. settled k;
      cdb = stored;
      metadata = metadata;
      info = valid;
      describes = held-Describes r (info_of (committed r) cdb) settled refl refl;
      area = held-AreaHolds r (info_of (committed r) cdb) settled refl refl;
    };
  }

-- The three parts one after another.
module _ {m : Medium} (sound : IsSound m) (r : Region) (bytes : OfBytes (committed r)) {log_id : ℕ}
    {cdb : Bool}
    (metadata : MetadataConsistent m (committed r) log_id cdb (info_of (committed r) cdb))
    (valid : InfoValid (info_of (committed r) cdb)) (fits : r.len < u64_mod) where
  pub read_log_variables_lem :
      OkOrCorrupted m (read_log_variables m r log_id cdb) (info_of (committed r) cdb)
  unfolding read_log_variables
  read_log_variables_lem = ground (
    arith,
    read_global_metadata_lem sound r bytes metadata valid fits,
    read_region_metadata_lem sound r bytes metadata valid fits,
    read_log_metadata_lem sound r bytes metadata valid fits,
  )

-- On a region whose contents after a flush recover to an abstract state, `start` returns a log that
-- is valid for that state, or it reports a CRC mismatch, and then the memory is not impervious to
-- corruption.
pub start_lem :
    {m : Medium} (sound : IsSound m) (w : Wrpm) (log_id : ℕ) (s : AbstractLogState)
    → w.pm_region.len < u64_mod
    → OfBytes (committed (flush w.pm_region))
    → recover_state m (committed (flush w.pm_region)) log_id ≡ some s
    → let (result, w') = start m w log_id in
      ((self : LogImpl) × (result ≡ ok self) × IsValid m w'.pm_region log_id self s)
      ⊎ ((result ≡ err crc_mismatch) × (m.impervious_to_corruption ≡ false))
unfolding start Wrpm.flush
start_lem {m} sound w log_id s fits bytes h =
    let (cdb, stored, metadata, valid, state) =
      recover_state_inv m (committed (flush w.pm_region)) log_id h in
    finish cdb (read_cdb_lem sound (flush w.pm_region) bytes cdb stored)
      (read_log_variables_lem sound (flush w.pm_region) bytes metadata valid fits_after)
      (subst
        (λ t.
          IsValid m (flush w.pm_region) log_id
            (record { cdb = cdb; info = info_of (committed (flush w.pm_region)) cdb }) t)
        state
        (IsValid-recovered (flush w.pm_region) cdb (settled-flush w.pm_region) fits_after stored
          metadata valid))
  where
    fits_after : (flush w.pm_region).len < u64_mod
    fits_after = omega (arith, len-flush w.pm_region)

    finish :
        (cdb : Bool)
        → OkOrCorrupted m (read_cdb m (flush w.pm_region)) cdb
        → OkOrCorrupted m
            (read_log_variables m (flush w.pm_region) log_id cdb)
            (info_of (committed (flush w.pm_region)) cdb)
        → IsValid m
            (flush w.pm_region)
            log_id
            (record { cdb = cdb; info = info_of (committed (flush w.pm_region)) cdb })
            s
        → let (result, w') = start m w log_id in
          ((self : LogImpl) × (result ≡ ok self) × IsValid m w'.pm_region log_id self s)
          ⊎ ((result ≡ err crc_mismatch) × (m.impervious_to_corruption ≡ false))
    finish cdb (inr (e, c)) second v = inr (rw e, c)
    finish cdb (inl e) (inr (e', c)) v = inr (rw (e, e'), c)
    finish cdb (inl e) (inl e') v =
        inl
          (record { cdb = cdb; info = info_of (committed (flush w.pm_region)) cdb }, rw (e, e'), v)
