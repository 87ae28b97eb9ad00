-- ===== src/Log/Start/Held.antt =====
-- start_v.rs: a settled region holds the log that its volatile state says.
use verified_storage.Base.{
  ℕ, ◌+◌, ◌%◌, ◌<◌, ◌≡◌, refl, sym, ap, ◌∙◌, none, get_or, arith, length-seq_new, get_or-seq_new,
}
use verified_storage.Pmem.View.{Region, committed}
use verified_storage.Log.Layout.{absolute_pos_of_log_area, relative_log_pos_to_log_area_offset}
use verified_storage.Log.Recover.{extract_log}
use verified_storage.Log.Impl.{LogInfo}
use verified_storage.Log.Inv.{Describes, AreaHolds, log_addr}
use verified_storage.Log.Start.Inversion.{state_of}

module _ (r : Region) (info : LogInfo)
    (settled : (pos : ℕ) → (r.state pos).outstanding_write ≡ none)
    (offset : info.head_log_area_offset ≡ info.head % info.log_area_len)
    (nothing_pending : info.log_plus_pending_length ≡ info.log_length) where
  held_byte :
      (pos : ℕ)
      → pos < info.log_length
      → (r.state (log_addr info pos)).state_at_last_flush
        ≡ get_or (state_of (committed r) info).log pos 0
  unfolding extract_log
  held_byte pos h =
      ap
        (λ o.
          (committed r).at (
            absolute_pos_of_log_area + relative_log_pos_to_log_area_offset pos o info.log_area_len))
        offset
      ∙ sym (
          get_or-seq_new info.log_length
            (λ k. (committed r).at (
              absolute_pos_of_log_area
              + relative_log_pos_to_log_area_offset k (info.head % info.log_area_len)
                  info.log_area_len))
            pos 0 h)

  pub held-AreaHolds : AreaHolds r info (state_of (committed r) info)
  held-AreaHolds = record {
    log_bytes = held_byte;
    log_settled = λ pos h. settled (log_addr info pos);
    pending_bytes = λ pos h k. absurd (omega (arith, nothing_pending));
    free_settled = λ pos h k. settled (log_addr info pos);
  }

  pub held-Describes : Describes info (state_of (committed r) info)
  unfolding extract_log
  held-Describes = record {
    log_len = length-seq_new info.log_length _;
    pending_len = omega (arith, nothing_pending);
    head = refl;
    capacity = refl;
  }
