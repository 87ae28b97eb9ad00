-- ===== src/Multilog/Append.antt =====
-- The writes of an append, of multilogimpl_v.rs: what they leave, and what a crash during them can
-- leave.
pub mod Call
pub mod Allowed
use mathlib.Core.Path.{subst}
use verified_storage.Base.{
  ℕ, ◌+◌, ◌-◌, ◌≤◌, ◌<◌, ◌≡◌, refl, sym, ap, ◌∙◌, ◌⊎◌, inl, inr, some, length, update, arith,
  u64_mod, u128_max, u128_mod, List, ◌++◌, take, drop, leb, if◌then◌else◌, lt_or_le, sub64, add64,
  lt→leb, le→leb, get_or-update, update-update, map-update, ◌∷◌,
}
use verified_storage.Pmem.View.{Region, Mem, write, write_out}
use verified_storage.Pmem.Medium.{Medium}
use verified_storage.Pmem.Regions.{WrpmRegions, AllOnlyCrashIn, region_at, no_region, write_region}
use verified_storage.Pmem.Regions
use verified_storage.Log.Layout.{absolute_pos_of_log_area, relative_log_pos_to_log_area_offset}
use verified_storage.Log.Spec as LogSpec
use verified_storage.Log.Impl.{LogInfo}
use verified_storage.Log.Inv.{InfoValid, log_addr}
use verified_storage.Log.Inv.Append.{max_len_without_wrapping, appended}
use verified_storage.Multilog.Recover.{recover_all}
use verified_storage.Multilog.Spec.{AbstractMultiLogState, log_at, num_logs, drop_pending_appends}
use verified_storage.Multilog.Spec
use verified_storage.Multilog.Impl.{MultiLogImpl, info_at, append_bytes}
use verified_storage.Multilog.Inv.{RegionConsistent, IsValid}
use verified_storage.Multilog.Inv.Crash.{multilog_recover_after_crash}
use verified_storage.Multilog.Inv.Append.{
  RegionConsistent-append_piece, first_piece, both_pieces, IsValid-log,
}

-- The writes of an append, with the wrap-around of the u64 arithmetic gone.
unfoldable pub plain_append : LogInfo → WrpmRegions → ℕ → List ℕ → WrpmRegions
plain_append info ws which_log bytes =
    if leb (length bytes) (max_len_without_wrapping info)
    then Regions.write ws which_log (log_addr info info.log_plus_pending_length) bytes
    else Regions.write
        (Regions.write ws which_log (log_addr info info.log_plus_pending_length)
          (take (max_len_without_wrapping info) bytes))
        which_log absolute_pos_of_log_area (drop (max_len_without_wrapping info) bytes)

append_bytes-eq :
    (info : LogInfo) (ws : WrpmRegions) (which_log : ℕ) (bytes : List ℕ)
    → InfoValid info
    → absolute_pos_of_log_area + info.log_area_len < u64_mod
    → info.log_plus_pending_length + length bytes ≤ info.log_area_len
    → append_bytes info ws which_log bytes ≡ plain_append info ws which_log bytes
unfolding append_bytes plain_append relative_log_pos_to_log_area_offset
append_bytes-eq info ws which_log bytes v small space = ground arith

-- The contents that recover to an abstract state.
abbrev pub RecoversTo : Medium → ℕ → AbstractMultiLogState → List Mem → Type 0
RecoversTo m multilog_id s mems = recover_all m mems multilog_id ≡ some s

two_writes :
    (rs : List Region) (k a a' : ℕ) (bytes bytes' : List ℕ)
    → k < length rs
    → write_region (write_region rs k a bytes) k a' bytes'
      ≡ update rs k (write (write (region_at rs k) a bytes) a' bytes')
two_writes rs k a a' bytes bytes' lt =
    ap (λ r. update (write_region rs k a bytes) k (write r a' bytes'))
      (get_or-update rs k (write (region_at rs k) a bytes) no_region lt)
    ∙ update-update rs k _ _

-- The recovered state does not have the pending appends of any log.
pub drop-append :
    (s : AbstractMultiLogState) (k : ℕ) (bytes : List ℕ)
    → drop_pending_appends (Spec.tentatively_append s k bytes) ≡ drop_pending_appends s
drop-append s k bytes =
    ap (λ (t : List LogSpec.AbstractLogState). record { states = t })
      (map-update LogSpec.drop_pending_appends s.states k
        (LogSpec.tentatively_append (log_at s k) bytes) (LogSpec.initialize 0) refl)

module _ {m : Medium} {multilog_id : ℕ} {self : MultiLogImpl} {s : AbstractMultiLogState}
    (ws : WrpmRegions) (v : IsValid m ws.pm_regions multilog_id self s) (k : ℕ)
    (lt : k < num_logs s) (bytes : List ℕ)
    (space : (info_at self.infos k).log_plus_pending_length + length bytes
      ≤ (info_at self.infos k).log_area_len)
    (tail : (info_at self.infos k).head
        + (info_at self.infos k).log_plus_pending_length
        + length bytes
      ≤ u128_max)
    (before : AllOnlyCrashIn (RecoversTo m multilog_id (drop_pending_appends s)) ws.history) where
  abbrev info : LogInfo
  info = info_at self.infos k

  -- What the writes of an append leave, and could have left at a crash.
  abbrev Appended : WrpmRegions → Type 0
  Appended ws' =
      IsValid m ws'.pm_regions multilog_id
        (record self { infos = update self.infos k (appended info (length bytes)) })
        (Spec.tentatively_append s k bytes)
      × AllOnlyCrashIn (RecoversTo m multilog_id (drop_pending_appends s)) ws'.history

  at :
      RegionConsistent m
        (region_at ws.pm_regions k)
        (record { multilog_id = multilog_id; num_logs = num_logs s; which_log = k })
        self.cdb
        info
        (log_at s k)
  at = v.consistent.consistent.each k lt

  crash_of :
      {rs : List Region} {self' : MultiLogImpl} (some_bytes : List ℕ)
      → IsValid m rs multilog_id self' (Spec.tentatively_append s k some_bytes)
      → (mems : List Mem) → Regions.CanCrashAs rs mems
      → RecoversTo m multilog_id (drop_pending_appends s) mems
  crash_of some_bytes after mems crash =
      multilog_recover_after_crash after.consistent mems crash
      ∙ ap some (drop-append s k some_bytes)

  plain_append_straight :
      length bytes ≤ max_len_without_wrapping info → Appended (plain_append info ws k bytes)
  unfolding plain_append Regions.write
  plain_append_straight fits = rw (le→leb (length bytes) (max_len_without_wrapping info) fits) (
      let after =
        IsValid-log v k lt
          (write (region_at ws.pm_regions k) (log_addr info info.log_plus_pending_length) bytes)
          (appended info (length bytes)) (LogSpec.tentatively_append (log_at s k) bytes)
          (λ a h. write_out (region_at ws.pm_regions k) _ bytes a (inl (omega arith)))
          (RegionConsistent-append_piece at bytes space tail fits) in
      (after, (crash_of bytes after, before)))

  plain_append_wrapping :
      max_len_without_wrapping info < length bytes → Appended (plain_append info ws k bytes)
  unfolding plain_append Regions.write
  plain_append_wrapping long = rw (lt→leb (length bytes) (max_len_without_wrapping info) long) (
      let first =
        IsValid-log v k lt
          (write (region_at ws.pm_regions k) (log_addr info info.log_plus_pending_length)
            (take (max_len_without_wrapping info) bytes))
          _ _ (λ a h. write_out (region_at ws.pm_regions k) _ _ a (inl (omega arith)))
          (first_piece at bytes space tail long) in
      let both =
        IsValid-log v k lt _ _ _
          (λ a h.
            write_out _ absolute_pos_of_log_area _ a (inl (omega arith))
            ∙ write_out (region_at ws.pm_regions k) _ _ a (inl (omega arith)))
          (both_pieces at bytes space tail long) in
      subst
        (λ rs.
          IsValid m rs multilog_id
            (record self { infos = update self.infos k (appended info (length bytes)) })
            (Spec.tentatively_append s k bytes)
          × AllOnlyCrashIn (RecoversTo m multilog_id (drop_pending_appends s)) (
              rs
              ∷ write_region ws.pm_regions k (log_addr info info.log_plus_pending_length)
                  (take (max_len_without_wrapping info) bytes)
              ∷ ws.history))
        (sym
          (two_writes ws.pm_regions k _ _ _ _ (omega (arith, v.consistent.consistent.regions_len))))
        (
          both,
          (
            crash_of bytes both,
            (crash_of (take (max_len_without_wrapping info) bytes) first, before),
          ),
        ))

  -- The writes append to the pending bytes of the log, and at each a crash leaves the multilog as it
  -- was.
  pub append_bytes_lem :
      absolute_pos_of_log_area + info.log_area_len < u64_mod
      → Appended (append_bytes info ws k bytes)
  append_bytes_lem small =
      rw (append_bytes-eq info ws k bytes at.info_valid small space)
        (elim (lt_or_le (max_len_without_wrapping info) (length bytes)) [
          | inl long ↦ plain_append_wrapping long
          | inr short ↦ plain_append_straight short
        ])
