-- ===== src/Multilog/Advance.antt =====
-- `advance_head` of multilogimpl_v.rs.
pub mod Refused
use mathlib.Core.Path.{subst}
use verified_storage.Base.{
  ℕ, ◌+◌, ◌-◌, ◌≤◌, ◌<◌, ◌≡◌, refl, sym, ◌∙◌, inl, inr, length, update, arith, List, length-update,
  get_or-update, get_or-update_other, eq_or_ne, ok, err, u64_mod, u128_mod,
}
use verified_storage.Pmem.View.{Region, flush}
use verified_storage.Pmem.Medium.{Medium, IsSound}
use verified_storage.Pmem.Regions.{WrpmRegions, AllOnlyCrashIn, region_at}
use verified_storage.Log.Layout.{absolute_pos_of_log_area, relative_log_pos_to_log_area_offset}
use verified_storage.Log.Spec as LogSpec
use verified_storage.Log.Spec.{AbstractLogState}
use verified_storage.Log.Impl.{LogInfo}
use verified_storage.Log.Inv.{InfoValid, Describes, AreaHolds}
use verified_storage.Log.Inv.Update.{AreaHolds-flush}
use verified_storage.Log.Advance.{
  advanced, advanced_InfoValid, advanced-Describes, advanced-AreaHolds,
}
use verified_storage.Multilog.Spec.{AbstractMultiLogState, log_at, num_logs, drop_pending_appends}
use verified_storage.Multilog.Spec
use verified_storage.Multilog.Impl.Err.{
  MultiLogErr, invalid_log_index, cant_advance_head_position_before_head,
  cant_advance_head_position_beyond_tail,
}
use verified_storage.Multilog.Impl.{
  MultiLogImpl, info_at, no_info, advance_head, update_log_metadata,
}
use verified_storage.Multilog.Inv.{RegionConsistent, IsValid}
use verified_storage.Multilog.Update.Turn.{RecoversToEither, CanReplace}
use verified_storage.Multilog.Update.Flip.{update_log_metadata_lem}

-- The volatile state of one log may be replaced, if that of the others stays.
module _ {m : Medium} {rs : List Region} {multilog_id : ℕ} {self : MultiLogImpl}
    {s : AbstractMultiLogState} (v : IsValid m rs multilog_id self s) (k : ℕ) (lt : k < num_logs s)
    (info : LogInfo) (log : AbstractLogState)
    (same_area : info.log_area_len ≡ (info_at self.infos k).log_area_len) (valid : InfoValid info)
    (describes : Describes info log) (area : AreaHolds (flush (region_at rs k)) info log) where
  abbrev replaced : AbstractMultiLogState
  replaced = record { states = update s.states k log }

  same_count : num_logs replaced ≡ num_logs s
  same_count = length-update s.states k log

  replaced_each :
      (P : ℕ → LogInfo → AbstractLogState → Type 0)
      → ((i : ℕ) → i < num_logs s → P i (info_at self.infos i) (log_at s i))
      → P k info log
      → (i : ℕ) → i < num_logs replaced
      → P i (info_at (update self.infos k info) i) (log_at replaced i)
  replaced_each P other here i p = elim (eq_or_ne i k) [
    | inl e ↦
        subst (λ j. P j (info_at (update self.infos k info) j) (log_at replaced j)) (sym e)
          (rw
            (
              get_or-update self.infos k info no_info
                  (omega (arith, v.consistent.consistent.infos_len)),
              get_or-update s.states k log (LogSpec.initialize 0) lt,
            )
            here)
    | inr ne ↦
        rw
          (
            get_or-update_other self.infos k i info no_info ne,
            get_or-update_other s.states k i log (LogSpec.initialize 0) ne,
          )
          (other i (omega (arith, same_count)))
  ]

  log_CanReplace : CanReplace rs self.infos (update self.infos k info) replaced
  log_CanReplace = record {
    infos_len =
        length-update self.infos k info ∙ v.consistent.consistent.infos_len ∙ sym same_count;
    same_area =
        replaced_each (λ i x y. x.log_area_len ≡ (info_at self.infos i).log_area_len) (λ i p. refl)
          same_area;
    valid =
        replaced_each (λ i x y. InfoValid x) (λ i p. (v.consistent.consistent.each i p).info_valid)
          valid;
    describes =
        replaced_each (λ i x y. Describes x y) (λ i p. (v.consistent.consistent.each i p).describes)
          describes;
    area =
        replaced_each (λ i x y. AreaHolds (flush (region_at rs i)) x y)
          (λ i p. AreaHolds-flush (v.consistent.consistent.each i p).area) area;
  }

module _ {m : Medium} {multilog_id : ℕ} {self : MultiLogImpl} {s : AbstractMultiLogState}
    (ws : WrpmRegions) (v : IsValid m ws.pm_regions multilog_id self s) (k : ℕ)
    (lt : k < num_logs s) where
  pub at :
      RegionConsistent m
        (region_at ws.pm_regions k)
        (record { multilog_id = multilog_id; num_logs = num_logs s; which_log = k })
        self.cdb
        (info_at self.infos k)
        (log_at s k)
  at = v.consistent.consistent.each k lt

  pub area_small : absolute_pos_of_log_area + (info_at self.infos k).log_area_len < u64_mod
  area_small = omega (arith, at.metadata.fits, at.region_fits)

  -- The call with the wrap-around of its arithmetic gone.
  call_within :
      (n : ℕ)
      → n ≤ length (log_at s k).log
      → advance_head m self ws k ((log_at s k).head + n) ≡ (
          let (self', ws') =
            update_log_metadata m
              (record self { infos = update self.infos k (advanced (info_at self.infos k) n) })
              ws in
          (ok tt, self', ws'))
  unfolding advance_head relative_log_pos_to_log_area_offset
  call_within n fits = ground (
    arith, area_small, v.num_logs_is, at.describes.head, at.describes.log_len, at.info_valid.offset,
    at.info_valid.log_le, at.info_valid.pending_le, at.info_valid.tail_fits, at.info_valid.area,
  )

  advance_by :
      (n : ℕ)
      → IsSound m
      → n ≤ length (log_at s k).log
      → AllOnlyCrashIn
          (RecoversToEither m multilog_id
            (drop_pending_appends s)
            (drop_pending_appends (Spec.advance_head s k ((log_at s k).head + n))))
          ws.history
      → let (result, self', ws') = advance_head m self ws k ((log_at s k).head + n) in
        (result ≡ ok tt)
        × IsValid m ws'.pm_regions multilog_id self' (Spec.advance_head s k ((log_at s k).head + n))
        × AllOnlyCrashIn
            (RecoversToEither m multilog_id
              (drop_pending_appends s)
              (drop_pending_appends (Spec.advance_head s k ((log_at s k).head + n))))
            ws'.history
  advance_by n sound fits before = rw (call_within n fits) (
      let (after, during) =
        update_log_metadata_lem ws sound (v.num_logs_is ∙ sym (length-update s.states k _))
          (length-update s.states k _) v.consistent
          (log_CanReplace v k lt (advanced (info_at self.infos k) n)
            (LogSpec.advance_head (log_at s k) ((log_at s k).head + n)) refl
            (advanced_InfoValid at.info_valid n (omega (arith, at.describes.log_len)))
            (advanced-Describes at.info_valid at.describes at.area n
              (omega (arith, at.describes.log_len)))
            (advanced-AreaHolds at.info_valid at.describes at.area n
              (omega (arith, at.describes.log_len))))
          before in
      (refl, after, during))

-- What a successful advance to a position leaves.
abbrev pub Advanced :
    Medium → ℕ → MultiLogImpl → AbstractMultiLogState → WrpmRegions → ℕ → ℕ → Type 0
Advanced m multilog_id self s ws which_log new_head =
    let (result, self', ws') = advance_head m self ws which_log new_head in
    (result ≡ ok tt)
    × IsValid m ws'.pm_regions multilog_id self' (Spec.advance_head s which_log new_head)
    × AllOnlyCrashIn
        (RecoversToEither m multilog_id (drop_pending_appends s)
          (drop_pending_appends (Spec.advance_head s which_log new_head)))
        ws'.history

-- At a position of one of the logs, or at its tail, `advance_head` succeeds, and leaves a valid
-- multilog in which that log begins there and the others are as they were. Whenever it is cut short
-- by a crash, recovery finds the logs as they were, without pending appends, or the whole new
-- multilog.
pub multilog_advance_within :
    {m : Medium} {multilog_id : ℕ} {self : MultiLogImpl} {s : AbstractMultiLogState}
    (ws : WrpmRegions) (which_log new_head : ℕ)
    → IsSound m
    → IsValid m ws.pm_regions multilog_id self s
    → which_log < num_logs s
    → (log_at s which_log).head ≤ new_head
    → new_head ≤ (log_at s which_log).head + length (log_at s which_log).log
    → AllOnlyCrashIn
        (RecoversToEither m multilog_id
          (drop_pending_appends s)
          (drop_pending_appends (Spec.advance_head s which_log new_head)))
        ws.history
    → let (result, self', ws') = advance_head m self ws which_log new_head in
      (result ≡ ok tt)
      × IsValid m ws'.pm_regions multilog_id self' (Spec.advance_head s which_log new_head)
      × AllOnlyCrashIn
          (RecoversToEither m multilog_id
            (drop_pending_appends s)
            (drop_pending_appends (Spec.advance_head s which_log new_head)))
          ws'.history
multilog_advance_within {m} {multilog_id} {self} {s} ws which_log new_head sound v lt lo hi before =
    subst (Advanced m multilog_id self s ws which_log) e (
      advance_by ws v which_log lt (new_head - (log_at s which_log).head) sound (omega arith) (
        subst
          (λ k.
            AllOnlyCrashIn
              (RecoversToEither m multilog_id (drop_pending_appends s)
                (drop_pending_appends (Spec.advance_head s which_log k)))
              ws.history)
          (sym e) before))
  where
    e : (log_at s which_log).head + (new_head - (log_at s which_log).head) ≡ new_head
    e = omega arith
