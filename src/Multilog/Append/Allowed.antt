-- ===== src/Multilog/Append/Allowed.antt =====
-- multilogimpl_v.rs: the writes of an append meet what `write` requires.
use mathlib.Core.Path.{subst}
use verified_storage.Base.{
  ℕ, ◌+◌, ◌-◌, ◌≤◌, ◌<◌, ◌≡◌, inl, inr, Bool, List, length, take, drop, arith, length-take,
  length-drop, lt_or_le, le→leb, lt→leb, u64_mod, u128_max, length-update, get_or-update,
}
use verified_storage.Pmem.View.{Region, write}
use verified_storage.Pmem.Medium.{Medium}
use verified_storage.Pmem.Regions
use verified_storage.Pmem.Regions.{WrpmRegions, AllAllowed, region_at, no_region, write_region}
use verified_storage.Pmem.Wrpm
use verified_storage.Log.Layout.{absolute_pos_of_log_area}
use verified_storage.Log.Impl.{LogInfo}
use verified_storage.Log.Spec as LogSpec
use verified_storage.Log.Spec.{AbstractLogState}
use verified_storage.Log.Inv.{log_addr}
use verified_storage.Log.Inv.Append.{max_len_without_wrapping, appended}
use verified_storage.Log.Append.{rest_fits, wrapped_addr}
use verified_storage.Log.Allowed.{piece-IsAllowed}
use verified_storage.Multilog.Impl.{append_bytes}
use verified_storage.Multilog.Inv.{LogName, RegionConsistent}
use verified_storage.Multilog.Inv.Append.{first_piece}
use verified_storage.Multilog.Append.{plain_append, append_bytes-eq}

module _ {m : Medium} {name : LogName} {cdb : Bool} {info : LogInfo} {s : AbstractLogState}
    (ws : WrpmRegions) (k : ℕ) (bytes : List ℕ) (lt : k < length ws.pm_regions)
    (v : RegionConsistent m (region_at ws.pm_regions k) name cdb info s)
    (space : info.log_plus_pending_length + length bytes ≤ info.log_area_len)
    (tail : info.head + info.log_plus_pending_length + length bytes ≤ u128_max)
    (before : AllAllowed ws.writes) where
  plain_append_wrapping_allowed :
      max_len_without_wrapping info < length bytes
      → AllAllowed (plain_append info ws k bytes).writes
  unfolding plain_append Regions.write
  plain_append_wrapping_allowed long =
      rw (lt→leb (length bytes) (max_len_without_wrapping info) long) (
        record {
          in_range = omega (arith, length-update ws.pm_regions k first_written);
          allowed = rw (get_or-update ws.pm_regions k first_written no_region lt) (
              subst
                (λ a. Wrpm.IsAllowed (record {
                  to = first_written;
                  addr = a;
                  bytes = drop (max_len_without_wrapping info) bytes;
                }))
                (wrapped_addr v.info_valid (length (take (max_len_without_wrapping info) bytes))
                  (length bytes) 0 len₁ long space)
                (piece-IsAllowed (drop (max_len_without_wrapping info) bytes) first.info_valid
                  first.metadata.fits first.area
                  (rest_fits v.info_valid (length (take (max_len_without_wrapping info) bytes))
                    (length bytes) (length (drop (max_len_without_wrapping info) bytes)) len₁ long
                    space len₂)
                  (omega (arith, len₁, len₂))));
        },
        (
          record {
            in_range = lt;
            allowed =
                piece-IsAllowed (take (max_len_without_wrapping info) bytes) v.info_valid
                  v.metadata.fits v.area (omega (arith, len₁)) (omega (arith, len₁));
          },
          before,
        ),
      )
    where
      first_written : Region
      first_written =
          write (region_at ws.pm_regions k) (log_addr info info.log_plus_pending_length)
            (take (max_len_without_wrapping info) bytes)

      len₁ : length (take (max_len_without_wrapping info) bytes) ≡ max_len_without_wrapping info
      len₁ = length-take (max_len_without_wrapping info) bytes (omega arith)

      len₂ :
          length (drop (max_len_without_wrapping info) bytes)
          ≡ length bytes - max_len_without_wrapping info
      len₂ = length-drop (max_len_without_wrapping info) bytes

      first :
          RegionConsistent m first_written name cdb
            (appended info (length (take (max_len_without_wrapping info) bytes)))
            (LogSpec.tentatively_append s (take (max_len_without_wrapping info) bytes))
      first = first_piece v bytes space tail long

  pub append_bytes_allowed :
      absolute_pos_of_log_area + info.log_area_len < u64_mod
      → AllAllowed (append_bytes info ws k bytes).writes
  unfolding plain_append Regions.write
  append_bytes_allowed small =
      rw (append_bytes-eq info ws k bytes v.info_valid small space)
        (elim (lt_or_le (max_len_without_wrapping info) (length bytes)) [
          | inl long ↦ plain_append_wrapping_allowed long
          | inr short ↦ rw (le→leb (length bytes) (max_len_without_wrapping info) short) (
            record {
              in_range = lt;
              allowed = piece-IsAllowed bytes v.info_valid v.metadata.fits v.area short space;
            },
            before,
          )
        ])
