-- ===== src/Log/Append/Call.antt =====
-- `tentatively_append` of logimpl_v.rs: when it succeeds, what it returns, and what it leaves.
use mathlib.Core.List.{append-nil}
use verified_storage.Base.{
  ℕ, ◌+◌, ◌-◌, ◌≤◌, ◌<◌, ◌≡◌, refl, ap, ◌∙◌, ◌⊎◌, inl, inr, length, arith, u64_mod, u128_max, List,
  [], ◌∷◌, ◌++◌, ok, err, lt_or_le, eq_or_ne, ◌≢◌,
}
use verified_storage.Pmem.Medium.{Medium}
use verified_storage.Pmem.Wrpm.{Wrpm, AllOnlyCrashIn}
use verified_storage.Log.Layout.{absolute_pos_of_log_area}
use verified_storage.Log.Spec.{AbstractLogState, drop_pending_appends}
use verified_storage.Log.Spec
use verified_storage.Log.Impl.Err.{insufficient_space_for_append}
use verified_storage.Log.Impl.{LogImpl, append_bytes, tentatively_append}
use verified_storage.Log.Inv.{IsValid}
use verified_storage.Log.Inv.Append.{appended}
use verified_storage.Log.Append.{RecoversTo, append_bytes_lem}

-- The position behind the last byte, committed or pending.
abbrev pub pending_tail : AbstractLogState → ℕ
pending_tail s = s.head + length s.log + length s.pending

-- There is room for `n` more bytes in the log area and below the largest position.
abbrev pub HasRoom : AbstractLogState → ℕ → Type 0
HasRoom s n = (length s.log + length s.pending + n ≤ s.capacity) × (pending_tail s + n ≤ u128_max)

pub nil_of_length {ℓ} : {A : Type ℓ} (xs : List A) → length xs ≡ 0 → xs ≡ []
nil_of_length [] e = refl
nil_of_length (x ∷ xs) e = absurd (omega arith)

module _ {m : Medium} {log_id : ℕ} {self : LogImpl} {s : AbstractLogState} (w : Wrpm)
    (v : IsValid m w.pm_region log_id self s) (bytes : List ℕ)
    (small : length bytes < u64_mod) where
  pub area_small : absolute_pos_of_log_area + self.info.log_area_len < u64_mod
  area_small = omega (arith, v.metadata.fits, v.region_fits)

  pub lengths : length s.log + length s.pending ≡ self.info.log_plus_pending_length
  lengths = omega (arith, v.describes.log_len, v.describes.pending_len, v.info.log_le)

  pub call_with_room :
      HasRoom s (length bytes)
      → length bytes ≢ 0
      → tentatively_append self w bytes ≡ (
        ok (pending_tail s),
        record self { info = appended self.info (length bytes) },
        append_bytes self.info w bytes,
      )
  unfolding tentatively_append
  call_with_room room ne = ground (arith, area_small, lengths, v.describes.head)

  pub call_of_nothing :
      HasRoom s (length bytes)
      → length bytes ≡ 0
      → tentatively_append self w bytes ≡ (ok (pending_tail s), self, w)
  unfolding tentatively_append
  call_of_nothing room e = ground (arith, area_small, lengths, v.describes.head)

  no_positions :
      ¬ HasRoom s (length bytes)
      → length bytes ≤ s.capacity - length s.log - length s.pending
      → u128_max < pending_tail s + length bytes
  no_positions full enough = elim (lt_or_le u128_max (pending_tail s + length bytes)) [
    | inl h ↦ h
    | inr h ↦ absurd (full (omega (arith, lengths, v.describes.capacity, v.info.pending_le), h))
  ]

  call_without_room :
      ¬ HasRoom s (length bytes)
      → (available : ℕ) × (tentatively_append self w bytes
          ≡ (err (insufficient_space_for_append available), self, w))
        × (available < length bytes)
        × ((available + length s.log + length s.pending ≡ s.capacity)
            ⊎ (available + pending_tail s ≡ u128_max))
  unfolding tentatively_append
  call_without_room full =
      elim (lt_or_le (s.capacity - length s.log - length s.pending) (length bytes)) [
        | inl area ↦ (
          s.capacity - length s.log - length s.pending,
          ground (arith, area_small, lengths, v.describes.capacity),
          area,
          inl (omega (arith, lengths, v.describes.capacity, v.info.pending_le)),
        )
        | inr enough ↦ (
          u128_max - pending_tail s,
          ground (
            arith,
            area_small,
            lengths,
            v.describes.head,
            v.describes.capacity,
            no_positions full enough,
          ),
          omega (arith, no_positions full enough, lengths, v.describes.head, v.info.tail_fits),
          inr (omega (arith, lengths, v.describes.head, v.info.tail_fits)),
        )
      ]

  append_nothing : length bytes ≡ 0 → Spec.tentatively_append s bytes ≡ s
  append_nothing e =
      ap (λ t. record s { pending = t })
        (ap (λ t. s.pending ++ t) (nil_of_length bytes e) ∙ append-nil s.pending)

-- Where there is room, `tentatively_append` returns the position of the first byte appended, and
-- leaves a valid log with the bytes behind the pending appends. Whenever its writes are cut short
-- by a crash, recovery finds the log as it was, without pending appends.
pub tentatively_append_with_room :
    {m : Medium} {log_id : ℕ} {self : LogImpl} {s : AbstractLogState} (w : Wrpm) (bytes : List ℕ)
    → IsValid m w.pm_region log_id self s
    → length bytes < u64_mod
    → HasRoom s (length bytes)
    → AllOnlyCrashIn (RecoversTo m log_id (drop_pending_appends s)) w.history
    → let (result, self', w') = tentatively_append self w bytes in
      (result ≡ ok (pending_tail s))
      × IsValid m w'.pm_region log_id self' (Spec.tentatively_append s bytes)
      × AllOnlyCrashIn (RecoversTo m log_id (drop_pending_appends s)) w'.history
tentatively_append_with_room {m} {log_id} {self} {s} w bytes v small room before =
    elim (eq_or_ne (length bytes) 0) [
      | inl e ↦
          rw (call_of_nothing w v bytes small room e, append_nothing w v bytes small e)
            (refl, v, before)
      | inr ne ↦ rw (call_with_room w v bytes small room ne) (
          let (after, during) =
            append_bytes_lem w v bytes
              (omega (arith, lengths w v bytes small, v.describes.capacity))
              (omega (arith, lengths w v bytes small, v.describes.head)) before
              (area_small w v bytes small) in
          (refl, after, during))
    ]

-- Where there is no room, `tentatively_append` changes neither the log nor the region, and returns
-- the error with a space that is less than what was asked for: what is left of the log area, or of
-- the positions.
pub tentatively_append_without_room :
    {m : Medium} {log_id : ℕ} {self : LogImpl} {s : AbstractLogState} (w : Wrpm) (bytes : List ℕ)
    → IsValid m w.pm_region log_id self s
    → length bytes < u64_mod
    → ¬ HasRoom s (length bytes)
    → (available : ℕ) × (tentatively_append self w bytes
        ≡ (err (insufficient_space_for_append available), self, w))
      × (available < length bytes)
      × ((available + length s.log + length s.pending ≡ s.capacity)
          ⊎ (available + pending_tail s ≡ u128_max))
tentatively_append_without_room w bytes v small full = call_without_room w v bytes small full
