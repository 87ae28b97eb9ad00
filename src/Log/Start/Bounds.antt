-- ===== src/Log/Start/Bounds.antt =====
-- layout_v.rs: what recovery guarantees of the state it returns.
use mathlib.Core.Path.{subst}
use mathlib.Core.Logic.{◌≢◌}
use verified_storage.Base.{
  ℕ, ◌+◌, ◌≤◌, ◌≡◌, refl, sym, ◌∙◌, inl, inr, some, none, Option-cases, [], length, length-seq_new,
  arith, u128_max,
}
use verified_storage.Pmem.View.{Mem}
use verified_storage.Pmem.Medium.{Medium}
use verified_storage.Log.Layout.{absolute_pos_of_log_area, min_log_area_size}
use verified_storage.Log.Recover.{recover_state, extract_log}
use verified_storage.Log.Spec.{AbstractLogState}
use verified_storage.Log.Start.Inversion.{recover_state_inv}

-- The sizes of a log that fits a region of a length.
pub record FitsIn (len : ℕ) (s : AbstractLogState) : Type 0 where
  pub nothing_pending : s.pending ≡ []
  pub log_fits : length s.log ≤ s.capacity
  pub not_empty : min_log_area_size ≤ s.capacity
  pub area_fits : absolute_pos_of_log_area + s.capacity ≤ len
  pub positions_fit : s.head + length s.log ≤ u128_max

-- A state that is recovered has no pending appends, its log fits its capacity, its log area is not
-- empty and fits the region, and its positions fit their integer type.
pub recover_state-FitsIn :
    (m : Medium) (mem : Mem) (log_id : ℕ) {s : AbstractLogState}
    → recover_state m mem log_id ≡ some s
    → FitsIn mem.len s
unfolding extract_log
recover_state-FitsIn m mem log_id h =
    let (cdb, _, metadata, valid, state) = recover_state_inv m mem log_id h in
    subst (FitsIn mem.len) state (record {
      nothing_pending = refl;
      log_fits = rw length-seq_new (omega (arith, valid.log_le, valid.pending_le));
      not_empty = valid.area;
      area_fits = metadata.fits;
      positions_fit = rw length-seq_new (omega (arith, valid.tail_fits));
    })

-- Contents that recover under one log identifier recover under no other.
pub recover_state_only_its_log :
    (m : Medium) (mem : Mem) (log_id other : ℕ) {s : AbstractLogState}
    → recover_state m mem log_id ≡ some s
    → other ≢ log_id
    → recover_state m mem other ≡ none
recover_state_only_its_log m mem log_id other h differs =
    elim (Option-cases (recover_state m mem other)) [
      | inl e ↦ e
      | inr (t, e) ↦
          (let (_, _, metadata, _, _) = recover_state_inv m mem log_id h in
            let (_, _, metadata', _, _) = recover_state_inv m mem other e in
            absurd (differs (sym metadata'.region_log_id ∙ metadata.region_log_id)))
    ]
