-- ===== src/Log/Advance.antt =====
-- `advance_head` of logimpl_v.rs.
pub mod Refused
use native.Mathlib.Nat.{mod-add-mod, mod-eq_of_lt, mod-eq-sub-mod}
use mathlib.Core.Path.{subst}
use verified_storage.Base.{
  ℕ, ◌+◌, ◌-◌, ◌%◌, ◌≤◌, ◌<◌, ◌≡◌, refl, sym, ◌∙◌, inl, inr, length, arith, lt_or_le, length-drop,
  get_or-drop, ok, err, u64_mod, u128_mod,
}
use verified_storage.Pmem.View.{
  Region, flush, committed-flush_settled, flush_byte-flush, settled-flush,
}
use verified_storage.Pmem.Medium.{Medium, IsSound}
use verified_storage.Pmem.Wrpm.{Wrpm, AllOnlyCrashIn}
use verified_storage.Log.Layout.{absolute_pos_of_log_area, relative_log_pos_to_log_area_offset}
use verified_storage.Log.Spec.{AbstractLogState, drop_pending_appends}
use verified_storage.Log.Spec
use verified_storage.Log.Impl.Err.{
  LogErr, cant_advance_head_position_before_head, cant_advance_head_position_beyond_tail,
}
use verified_storage.Log.Impl.{LogInfo, LogImpl, advance_head, update_log_metadata}
use verified_storage.Log.Inv.{InfoValid, Describes, AreaHolds, IsValid, log_addr}
use verified_storage.Log.Update.Flip.{RecoversToEither, update_log_metadata_lem}

-- The volatile state after the head has advanced by `n`.
abbrev pub advanced : LogInfo → ℕ → LogInfo
advanced info n = record {
  log_area_len = info.log_area_len;
  head = info.head + n;
  head_log_area_offset =
      relative_log_pos_to_log_area_offset n info.head_log_area_offset info.log_area_len;
  log_length = info.log_length - n;
  log_plus_pending_length = info.log_plus_pending_length - n;
}

module _ {info : LogInfo} (v : InfoValid info) (n : ℕ) (fits : n ≤ info.log_length) where
  -- The cached offset of the new head is its position modulo the length of the log area.
  new_offset :
      relative_log_pos_to_log_area_offset n info.head_log_area_offset info.log_area_len
      ≡ (info.head + n) % info.log_area_len
  unfolding relative_log_pos_to_log_area_offset
  new_offset = elim (lt_or_le (info.head_log_area_offset + n) info.log_area_len) [
    | inl low ↦ ground (arith, split, mod-eq_of_lt low)
    | inr high ↦ ground (
      arith,
      split,
      mod-eq-sub-mod {n = info.head_log_area_offset + n} {m = info.log_area_len} high,
      mod-eq_of_lt {n = info.head_log_area_offset + n - info.log_area_len} {m = info.log_area_len}
          (omega arith),
    )
  ]
    where
      split :
          (info.head_log_area_offset + n) % info.log_area_len ≡ (info.head + n) % info.log_area_len
      split = rw (v.offset, mod-add-mod)

  pub advanced_InfoValid : InfoValid (advanced info n)
  advanced_InfoValid = record {
    area = v.area;
    log_le = omega arith;
    pending_le = omega arith;
    offset = new_offset;
    tail_fits = omega arith;
  }

  advanced_addr :
      (pos : ℕ)
      → pos < info.log_plus_pending_length - n
      → log_addr (advanced info n) pos ≡ log_addr info (n + pos)
  unfolding relative_log_pos_to_log_area_offset
  advanced_addr pos h = ground arith

module _ {r : Region} {info : LogInfo} {s : AbstractLogState} (v : InfoValid info)
    (d : Describes info s) (h : AreaHolds r info s) (n : ℕ) (fits : n ≤ info.log_length) where
  pub advanced-Describes : Describes (advanced info n) (Spec.advance_head s (s.head + n))
  advanced-Describes = record {
    log_len = omega (arith, length-drop (s.head + n - s.head) s.log, d.log_len);
    pending_len = omega (arith, d.pending_len);
    head = omega (arith, d.head);
    capacity = d.capacity;
  }

  -- After a flush the rest of the log stands behind the new head.
  pub advanced-AreaHolds : AreaHolds (flush r) (advanced info n) (Spec.advance_head s (s.head + n))
  advanced-AreaHolds = record {
    log_bytes = λ pos p.
        rw (advanced_addr v n fits pos (omega (arith, v.log_le)), get_or-drop, same_pos pos)
          (committed-flush_settled r (log_addr info (n + pos))
              (h.log_settled (n + pos) (omega arith))
            ∙ h.log_bytes (n + pos) (omega arith));
    log_settled = λ pos p. settled-flush r (log_addr (advanced info n) pos);
    pending_bytes = λ pos p q.
        rw (advanced_addr v n fits pos q, same_pending pos p)
          (flush_byte-flush r (log_addr info (n + pos))
            ∙ h.pending_bytes (n + pos) (omega arith) (omega arith));
    free_settled = λ pos p q. settled-flush r (log_addr (advanced info n) pos);
  }
    where
      same_pos : (pos : ℕ) → s.head + n - s.head + pos ≡ n + pos
      same_pos pos = omega arith

      same_pending :
          (pos : ℕ)
          → info.log_length - n ≤ pos
          → pos - (info.log_length - n) ≡ n + pos - info.log_length
      same_pending pos p = omega arith

module _ {m : Medium} {log_id : ℕ} {self : LogImpl} {s : AbstractLogState} (w : Wrpm)
    (v : IsValid m w.pm_region log_id self s) where
  area_small : absolute_pos_of_log_area + self.info.log_area_len < u64_mod
  area_small = omega (arith, v.metadata.fits, v.region_fits)

  -- The call with the wrap-around of its arithmetic gone.
  call_within :
      (n : ℕ)
      → n ≤ length s.log
      → advance_head m self w (s.head + n) ≡ (
          let (self', w') = update_log_metadata m (record self { info = advanced self.info n }) w in
          (ok tt, self', w'))
  unfolding advance_head relative_log_pos_to_log_area_offset
  call_within n fits =
      ground (arith, area_small, v.describes.head, v.describes.log_len, v.info.offset)

  advance_by :
      (n : ℕ)
      → IsSound m
      → n ≤ length s.log
      → AllOnlyCrashIn
          (RecoversToEither m log_id
            (drop_pending_appends s)
            (drop_pending_appends (Spec.advance_head s (s.head + n))))
          w.history
      → let (result, self', w') = advance_head m self w (s.head + n) in
        (result ≡ ok tt)
        × IsValid m w'.pm_region log_id self' (Spec.advance_head s (s.head + n))
        × AllOnlyCrashIn
            (RecoversToEither m log_id
              (drop_pending_appends s)
              (drop_pending_appends (Spec.advance_head s (s.head + n))))
            w'.history
  advance_by n sound fits before = rw (call_within n fits) (
      let (_, after, during) =
        update_log_metadata_lem sound v.consistent refl
          (advanced_InfoValid v.info n (omega (arith, v.describes.log_len)))
          (advanced-Describes v.info v.describes v.area n (omega (arith, v.describes.log_len)))
          (advanced-AreaHolds v.info v.describes v.area n (omega (arith, v.describes.log_len))) w
          refl before in
      (refl, after, during))

-- What a successful advance to a position leaves.
abbrev pub Advanced : Medium → ℕ → LogImpl → AbstractLogState → Wrpm → ℕ → Type 0
Advanced m log_id self s w new_head =
    let (result, self', w') = advance_head m self w new_head in
    (result ≡ ok tt)
    × IsValid m w'.pm_region log_id self' (Spec.advance_head s new_head)
    × AllOnlyCrashIn
        (RecoversToEither m log_id (drop_pending_appends s)
          (drop_pending_appends (Spec.advance_head s new_head)))
        w'.history

-- At a position of the log, or at its tail, `advance_head` succeeds, and leaves a valid log that
-- begins there. Whenever it is cut short by a crash, recovery finds the log as it was, without
-- pending appends, or the whole new log.
pub advance_head_within :
    {m : Medium} {log_id : ℕ} {self : LogImpl} {s : AbstractLogState} (w : Wrpm) (new_head : ℕ)
    → IsSound m
    → IsValid m w.pm_region log_id self s
    → s.head ≤ new_head
    → new_head ≤ s.head + length s.log
    → AllOnlyCrashIn
        (RecoversToEither m log_id
          (drop_pending_appends s)
          (drop_pending_appends (Spec.advance_head s new_head)))
        w.history
    → let (result, self', w') = advance_head m self w new_head in
      (result ≡ ok tt)
      × IsValid m w'.pm_region log_id self' (Spec.advance_head s new_head)
      × AllOnlyCrashIn
          (RecoversToEither m log_id
            (drop_pending_appends s)
            (drop_pending_appends (Spec.advance_head s new_head)))
          w'.history
advance_head_within {m} {log_id} {self} {s} w new_head sound v lo hi before =
    subst (Advanced m log_id self s w) e (
      advance_by w v (new_head - s.head) sound (omega arith) (
        subst
          (λ k.
            AllOnlyCrashIn
              (RecoversToEither m log_id (drop_pending_appends s)
                (drop_pending_appends (Spec.advance_head s k)))
              w.history)
          (sym e) before))
  where
    e : s.head + (new_head - s.head) ≡ new_head
    e = omega arith
