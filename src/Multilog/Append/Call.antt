-- ===== src/Multilog/Append/Call.antt =====
-- `tentatively_append` of multilogimpl_v.rs: when it succeeds, what it returns, and what it leaves.
use mathlib.Core.List.{append-nil}
use verified_storage.Base.{
  ℕ, zero, suc, ◌+◌, ◌-◌, ◌≤◌, ◌<◌, ◌≡◌, ◌≢◌, refl, ap, ◌∙◌, ◌⊎◌, inl, inr, length, get_or, update,
  arith, u64_mod, u128_max, List, [], ◌∷◌, ◌++◌, ok, err, lt_or_le, eq_or_ne,
}
use verified_storage.Pmem.Medium.{Medium}
use verified_storage.Pmem.Regions.{WrpmRegions, AllOnlyCrashIn, region_at}
use verified_storage.Log.Layout.{absolute_pos_of_log_area}
use verified_storage.Log.Spec.{AbstractLogState}
use verified_storage.Log.Spec as LogSpec
use verified_storage.Log.Inv.Append.{appended}
use verified_storage.Log.Append.Call.{HasRoom, pending_tail, nil_of_length}
use verified_storage.Multilog.Spec.{AbstractMultiLogState, log_at, num_logs, drop_pending_appends}
use verified_storage.Multilog.Spec
use verified_storage.Multilog.Impl.Err.{insufficient_space_for_append}
use verified_storage.Multilog.Impl.{MultiLogImpl, info_at, append_bytes, tentatively_append}
use verified_storage.Multilog.Inv.{RegionConsistent, IsValid}
use verified_storage.Multilog.Append.{RecoversTo, append_bytes_lem}

update_same {ℓ} : {A : Type ℓ} (xs : List A) (i : ℕ) (d : A) → update xs i (get_or xs i d) ≡ xs
update_same [] i d = refl
update_same (x ∷ xs) zero d = refl
update_same (x ∷ xs) (suc i) d = ap (λ t. x ∷ t) (update_same xs i d)

append_nothing :
    (s : AbstractMultiLogState) (k : ℕ) (bytes : List ℕ)
    → length bytes ≡ 0
    → Spec.tentatively_append s k bytes ≡ s
append_nothing s k bytes e =
    ap (λ (t : List AbstractLogState). record { states = t })
      (ap (λ t. update s.states k (record (log_at s k) { pending = t }))
          (ap (λ t. (log_at s k).pending ++ t) (nil_of_length bytes e)
            ∙ append-nil (log_at s k).pending)
        ∙ update_same s.states k (LogSpec.initialize 0))

module _ {m : Medium} {multilog_id : ℕ} {self : MultiLogImpl} {s : AbstractMultiLogState}
    (ws : WrpmRegions) (v : IsValid m ws.pm_regions multilog_id self s) (k : ℕ)
    (lt : k < num_logs s) (bytes : List ℕ) (small : length bytes < u64_mod) where
  pub at :
      RegionConsistent m
        (region_at ws.pm_regions k)
        (record { multilog_id = multilog_id; num_logs = num_logs s; which_log = k })
        self.cdb
        (info_at self.infos k)
        (log_at s k)
  at = v.consistent.consistent.each k lt

  pub area_small : absolute_pos_of_log_area + (info_at self.infos k).log_area_len < u64_mod
  area_small = omega (arith, at.metadata.fits, at.region_fits)

  pub lengths :
      length (log_at s k).log + length (log_at s k).pending
      ≡ (info_at self.infos k).log_plus_pending_length
  lengths = omega (arith, at.describes.log_len, at.describes.pending_len, at.info_valid.log_le)

  pub call_with_room :
      HasRoom (log_at s k) (length bytes)
      → length bytes ≢ 0
      → tentatively_append self ws k bytes ≡ (
        ok (pending_tail (log_at s k)),
        record self {
          infos = update self.infos k (appended (info_at self.infos k) (length bytes));
        },
        append_bytes (info_at self.infos k) ws k bytes,
      )
  unfolding tentatively_append
  call_with_room room ne = ground (
    arith, area_small, lengths, v.num_logs_is, at.describes.head, at.describes.capacity,
    at.info_valid.pending_le, at.info_valid.tail_fits,
  )

  pub call_of_nothing :
      HasRoom (log_at s k) (length bytes)
      → length bytes ≡ 0
      → tentatively_append self ws k bytes ≡ (ok (pending_tail (log_at s k)), self, ws)
  unfolding tentatively_append
  call_of_nothing room e = ground (
    arith, area_small, lengths, v.num_logs_is, at.describes.head, at.describes.capacity,
    at.info_valid.pending_le, at.info_valid.tail_fits,
  )

  no_positions :
      ¬ HasRoom (log_at s k) (length bytes)
      → length bytes ≤ (log_at s k).capacity - length (log_at s k).log - length (log_at s k).pending
      → u128_max < pending_tail (log_at s k) + length bytes
  no_positions full enough = elim (lt_or_le u128_max (pending_tail (log_at s k) + length bytes)) [
    | inl h ↦ h
    | inr h ↦
        absurd (full (omega (arith, lengths, at.describes.capacity, at.info_valid.pending_le), h))
  ]

  pub call_without_room :
      ¬ HasRoom (log_at s k) (length bytes)
      → (available : ℕ) × (tentatively_append self ws k bytes
          ≡ (err (insufficient_space_for_append available), self, ws))
        × (available < length bytes)
        × ((available + length (log_at s k).log + length (log_at s k).pending
              ≡ (log_at s k).capacity)
            ⊎ (available + pending_tail (log_at s k) ≡ u128_max))
  unfolding tentatively_append
  call_without_room full =
      elim (lt_or_le ((log_at s k).capacity - length (log_at s k).log - length (log_at s k).pending)
        (length bytes)) [
          | inl area ↦ (
            (log_at s k).capacity - length (log_at s k).log - length (log_at s k).pending,
            ground (
              arith, area_small, lengths, v.num_logs_is, at.describes.capacity,
              at.info_valid.pending_le,
            ),
            area,
            inl (omega (arith, lengths, at.describes.capacity, at.info_valid.pending_le)),
          )
          | inr enough ↦ (
            u128_max - pending_tail (log_at s k),
            ground (
              arith,
              area_small,
              lengths,
              v.num_logs_is,
              at.describes.head,
              at.describes.capacity,
              at.info_valid.pending_le,
              at.info_valid.tail_fits,
              no_positions full enough,
            ),
            omega (
              arith,
              no_positions full enough,
              lengths,
              at.describes.head,
              at.info_valid.tail_fits,
            ),
            inr (omega (arith, lengths, at.describes.head, at.info_valid.tail_fits)),
          )
        ]

-- Where a log has room, `tentatively_append` returns the position of the first byte appended to it,
-- and leaves a valid multilog with the bytes behind the pending appends of that log and the others
-- as they were. Whenever its writes are cut short by a crash, recovery finds the multilog as it was,
-- without pending appends.
pub multilog_append_with_room :
    {m : Medium} {multilog_id : ℕ} {self : MultiLogImpl} {s : AbstractMultiLogState}
    (ws : WrpmRegions) (which_log : ℕ) (bytes : List ℕ)
    → IsValid m ws.pm_regions multilog_id self s
    → which_log < num_logs s
    → length bytes < u64_mod
    → HasRoom (log_at s which_log) (length bytes)
    → AllOnlyCrashIn (RecoversTo m multilog_id (drop_pending_appends s)) ws.history
    → let (result, self', ws') = tentatively_append self ws which_log bytes in
      (result ≡ ok (pending_tail (log_at s which_log)))
      × IsValid m ws'.pm_regions multilog_id self' (Spec.tentatively_append s which_log bytes)
      × AllOnlyCrashIn (RecoversTo m multilog_id (drop_pending_appends s)) ws'.history
multilog_append_with_room {s = s} ws which_log bytes v lt small room before =
    elim (eq_or_ne (length bytes) 0) [
      | inl e ↦
          rw
            (
              call_of_nothing ws v which_log lt bytes small room e,
              append_nothing s which_log bytes e,
            )
            (refl, v, before)
      | inr ne ↦ rw (call_with_room ws v which_log lt bytes small room ne) (
          let c = at ws v which_log lt bytes small in
          let len = lengths ws v which_log lt bytes small in
          let (after, during) =
            append_bytes_lem ws v which_log lt bytes (omega (arith, len, c.describes.capacity))
              (omega (arith, len, c.describes.head)) before
              (area_small ws v which_log lt bytes small) in
          (refl, after, during))
    ]

-- Where the log has no room, `tentatively_append` changes neither the multilog nor the regions, and
-- returns the error with a space that is less than what was asked for: what is left of the log area,
-- or of the positions.
pub multilog_append_without_room :
    {m : Medium} {multilog_id : ℕ} {self : MultiLogImpl} {s : AbstractMultiLogState}
    (ws : WrpmRegions) (which_log : ℕ) (bytes : List ℕ)
    → IsValid m ws.pm_regions multilog_id self s
    → which_log < num_logs s
    → length bytes < u64_mod
    → ¬ HasRoom (log_at s which_log) (length bytes)
    → (available : ℕ) × (tentatively_append self ws which_log bytes
        ≡ (err (insufficient_space_for_append available), self, ws))
      × (available < length bytes)
      × ((available + length (log_at s which_log).log + length (log_at s which_log).pending
            ≡ (log_at s which_log).capacity)
          ⊎ (available + pending_tail (log_at s which_log) ≡ u128_max))
multilog_append_without_room ws which_log bytes v lt small full =
    call_without_room ws v which_log lt bytes small full
