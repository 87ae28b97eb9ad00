-- ===== src/Log/Update/Flip.antt =====
-- `update_log_metadata` of logimpl_v.rs: the flip of the corruption-detecting boolean, and the
-- whole update with what a crash during it can leave.
use verified_storage.Base.{
  ℕ, ◌+◌, ◌≤◌, ◌<◌, ◌≡◌, refl, sym, ap, ◌∙◌, ◌⊎◌, inl, inr, Bool, true, false, not, some, none,
  arith, if◌then◌else◌,
}
use verified_storage.Pmem.Bytes.{spec_u64_to_le_bytes}
use verified_storage.Pmem.View.{
  Region, Mem, CanCrashAs, committed, flush_byte, write, flush, settled-flush,
}
use verified_storage.Pmem.Crash.{crash_single_chunk}
use verified_storage.Pmem.Medium.{Medium, IsSound, cdb_value}
use verified_storage.Pmem.Wrpm
use verified_storage.Pmem.Wrpm.{Wrpm, AllOnlyCrashIn}
use verified_storage.Log.Layout.{
  absolute_pos_of_log_area, absolute_pos_of_log_cdb, get_log_metadata_pos,
  absolute_pos_of_log_metadata_for_cdb_true, absolute_pos_of_log_metadata_for_cdb_false,
}
use verified_storage.Log.Recover.{recover_state}
use verified_storage.Log.Spec.{AbstractLogState, drop_pending_appends}
use verified_storage.Log.Impl.{LogInfo, update_log_metadata}
use verified_storage.Log.Inv.{InfoValid, Describes, AreaHolds, IsConsistent, IsValid}
use verified_storage.Log.Inv.Crash.{
  MetadataConsistent-agree, recover_committed, recover_after_crash,
}
use verified_storage.Log.Inv.Update.{AreaHolds-same}
use verified_storage.Log.Update.{
  crc_written, cdb_written, metadata_written, elsewhere, cdb_elsewhere, cdb_extracted, cdb_len,
  old_with_metadata, old_with_crc, old_flushed, new-MetadataConsistent,
}

-- The contents that recover to one of two abstract states.
abbrev pub RecoversToEither : Medium → ℕ → AbstractLogState → AbstractLogState → Mem → Type 0
RecoversToEither m log_id s₀ s mem =
    (recover_state m mem log_id ≡ some s₀) ⊎ (recover_state m mem log_id ≡ some s)

unused_pos :
    (b : Bool)
    → (if b
        then absolute_pos_of_log_metadata_for_cdb_false
        else absolute_pos_of_log_metadata_for_cdb_true)
      ≡ get_log_metadata_pos (not b)
unused_pos true = refl
unused_pos false = refl

module _ {m : Medium} (sound : IsSound m) {r : Region} {log_id : ℕ} {cdb : Bool}
    {prev info : LogInfo} {s₀ s : AbstractLogState}
    (v : IsConsistent m r log_id (record { cdb = cdb; info = prev }) s₀)
    (same_area : info.log_area_len ≡ prev.log_area_len) (valid : InfoValid info)
    (describes : Describes info s) (area : AreaHolds (flush r) info s) where
  abbrev final : Region
  final = flush (cdb_written m cdb info r)

  committed-final :
      (a : ℕ)
      → (a < absolute_pos_of_log_cdb) ⊎ (absolute_pos_of_log_cdb + 8 ≤ a)
      → (committed (flush (crc_written m cdb info r))).at a ≡ (committed final).at a
  unfolding flush
  committed-final a h = ap flush_byte (sym (cdb_elsewhere m cdb info r a h))

  area-final : (a : ℕ) → absolute_pos_of_log_area ≤ a → final.state a ≡ (flush r).state a
  unfolding flush
  area-final a h =
      ap (λ b. record { state_at_last_flush = flush_byte b; outstanding_write = none })
        (cdb_elsewhere m cdb info r a (inr (omega arith)))
      ∙ ap (λ b. record { state_at_last_flush = flush_byte b; outstanding_write = none })
          (elsewhere m cdb info r a (inr (ground arith)))

  final_len : final.len ≡ r.len
  unfolding flush write
  final_len = refl

  new-IsValid : IsValid m final log_id (record { cdb = not cdb; info = info }) s
  new-IsValid = record {
    metadata_settled = λ k p q. settled-flush (cdb_written m cdb info r) k;
    consistent = record {
      region_fits = rw final_len v.region_fits;
      low_settled = λ k p q. settled-flush (cdb_written m cdb info r) k;
      active_settled = λ k p q. settled-flush (cdb_written m cdb info r) k;
      cdb = cdb_extracted m cdb info r;
      metadata =
          MetadataConsistent-agree m (committed (flush (crc_written m cdb info r)))
            (committed final) (not cdb) (unfold flush write in refl)
            ((λ k p q. committed-final k (inl q)), λ k p q. committed-final k (inr (ground arith)))
            (new-MetadataConsistent sound v same_area valid describes area);
      info = valid;
      describes = describes;
      area = AreaHolds-same valid area-final area;
    };
  }

  -- Between the write of the boolean and its flush a crash finds the old log or the new one.
  crash_at_flip :
      (mem : Mem)
      → CanCrashAs (cdb_written m cdb info r) mem
      → RecoversToEither m log_id (drop_pending_appends s₀) (drop_pending_appends s) mem
  unfolding flush write
  crash_at_flip mem crash =
      elim (crash_single_chunk (flush (crc_written m cdb info r)) mem 10
        (spec_u64_to_le_bytes (cdb_value (not cdb))) (cdb_len m cdb info r) (λ k p q. refl) crash) [
          | inl old ↦ inl (
              recover_committed (old_flushed sound v same_area valid describes area) mem
                crash.same_len old)
          | inr new ↦ inr (recover_committed new-IsValid.consistent mem crash.same_len new)
        ]

  -- The update leaves the new log valid, and at each of its writes and flushes a crash leaves the
  -- old log or the new one.
  pub update_log_metadata_lem :
      (w : Wrpm)
      → w.pm_region ≡ r
      → AllOnlyCrashIn
          (RecoversToEither m log_id (drop_pending_appends s₀) (drop_pending_appends s))
          w.history
      → let (self', w') = update_log_metadata m (record { cdb = cdb; info = info }) w in
        (self' ≡ record { cdb = not cdb; info = info })
        × IsValid m w'.pm_region log_id self' s
        × AllOnlyCrashIn
            (RecoversToEither m log_id (drop_pending_appends s₀) (drop_pending_appends s))
            w'.history
  unfolding update_log_metadata Wrpm.write Wrpm.flush
  update_log_metadata_lem w e before =
      rw (unused_pos cdb, e)
        (
          refl,
          new-IsValid,
          (
            crash_final,
            (crash_at_flip, (crash_before old₃, (crash_before old₂, (crash_before old₁, before)))),
          ),
        )
    where
      old₁ :
          IsConsistent m
            (metadata_written m cdb info r)
            log_id
            (record { cdb = cdb; info = prev })
            s₀
      old₁ = old_with_metadata sound v same_area valid describes area

      old₂ : IsConsistent m (crc_written m cdb info r) log_id (record { cdb = cdb; info = prev }) s₀
      old₂ = old_with_crc sound v same_area valid describes area

      old₃ :
          IsConsistent m
            (flush (crc_written m cdb info r))
            log_id
            (record { cdb = cdb; info = prev })
            s₀
      old₃ = old_flushed sound v same_area valid describes area

      crash_before :
          {r' : Region}
          → IsConsistent m r' log_id (record { cdb = cdb; info = prev }) s₀
          → (mem : Mem) → CanCrashAs r' mem
          → RecoversToEither m log_id (drop_pending_appends s₀) (drop_pending_appends s) mem
      crash_before old mem crash = inl (recover_after_crash old mem crash)

      crash_final :
          (mem : Mem)
          → CanCrashAs final mem
          → RecoversToEither m log_id (drop_pending_appends s₀) (drop_pending_appends s) mem
      crash_final mem crash = inr (recover_after_crash new-IsValid.consistent mem crash)
