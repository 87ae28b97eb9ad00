-- ===== src/Multilog/Setup/Result.antt =====
-- `setup` of multilogimpl_v.rs: its results, on every branch.
use verified_storage.Base.{
  ℕ, zero, suc, ◌+◌, ◌-◌, ◌≤◌, ◌<◌, ◌≡◌, refl, ap, ap₂, ◌∙◌, some, arith, u128_mod, ok, err, List,
  [], ◌∷◌, length, map, le→ltb, lt→ltb, length-map,
}
use verified_storage.Pmem.View.{Region, Mem, flush, len-flush, NoOutstandingWrites}
use verified_storage.Pmem.Medium.{Medium, IsSound}
use verified_storage.Pmem.Regions.{region_at, flush_regions}
use verified_storage.Pmem.Regions
use verified_storage.Log.Layout.{absolute_pos_of_log_area, min_log_area_size}
use verified_storage.Multilog.Recover.{recover_all}
use verified_storage.Multilog.Spec.{initialize}
use verified_storage.Multilog.Impl.Err.{
  MultiLogErr, insufficient_space_for_setup, cant_setup_with_fewer_than_one_region,
  cant_setup_with_more_than_u32_max_regions,
}
use verified_storage.Multilog.Inv.Crash.{multilog_recover_after_crash}
use verified_storage.Multilog.Inv.Update.{region_at-flush}
use verified_storage.Multilog.Setup.{
  check_for_required_space, compute_log_capacities, write_setup_metadata_to_all_regions, setup,
}
use verified_storage.Multilog.Setup.All.{
  EachHasSpace, capacities_of, IsValid-set_up, drop-initialize, all_settled, len-after_all,
}

abbrev pub sizes_of : List Region → List ℕ
sizes_of rs = map (λ (r : Region). r.len) (flush_regions rs)

tail_space : (r : Region) (rs : List Region) → EachHasSpace (r ∷ rs) → EachHasSpace rs
tail_space r rs space i lt = space (suc i) (omega arith)

check_passes :
    (rs : List Region) (first : ℕ)
    → EachHasSpace rs
    → check_for_required_space (sizes_of rs) first ≡ ok tt
unfolding check_for_required_space
check_passes [] first space = refl
check_passes (r ∷ rs) first space =
    let (fits, enough) = space 0 (omega arith) in
    let rest : check_for_required_space (sizes_of rs) (suc first) ≡ ok tt =
      check_passes rs (suc first) (tail_space r rs space) in
    rw (le→ltb (flush r).len 257 (omega (arith, len-flush r))) rest

-- The first region that is too small is what the check reports.
check_fails :
    (rs : List Region) (first i : ℕ)
    → i < length rs
    → (region_at rs i).len < 257
    → ((j : ℕ) → j < i → 257 ≤ (region_at rs j).len)
    → check_for_required_space (sizes_of rs) first
      ≡ err (insufficient_space_for_setup (first + i) 257)
unfolding check_for_required_space
check_fails [] first i lt small others = absurd (omega arith)
check_fails (r ∷ rs) first zero lt small others =
    rw (lt→ltb (flush r).len 257 (omega (arith, len-flush r)))
      (ap (λ k. err (insufficient_space_for_setup k 257)) (omega arith))
check_fails (r ∷ rs) first (suc i) lt small others =
    let rest : check_for_required_space (sizes_of rs) (suc first)
        ≡ err (insufficient_space_for_setup (suc first + i) 257) =
      check_fails rs (suc first) i (omega arith) small (λ j h. others (suc j) (omega arith)) in
    rw (le→ltb (flush r).len 257 (omega (arith, len-flush r, others 0 (omega arith))))
      (rest ∙ ap (λ k. err (insufficient_space_for_setup k 257)) (omega arith))

capacities :
    (rs : List Region) → EachHasSpace rs → compute_log_capacities (sizes_of rs) ≡ capacities_of rs
capacities [] space = refl
capacities (r ∷ rs) space =
    let (fits, enough) = space 0 (omega arith) in
    ap₂ ◌∷◌ (ground (arith, len-flush r)) (capacities rs (tail_space r rs space))

module _ (m : Medium) (rs : List Region) (multilog_id : ℕ) where
  len-sizes : length (sizes_of rs) ≡ length rs
  len-sizes = length-map _ (flush_regions rs) ∙ length-map flush rs

  pub setup_result :
      0 < length rs
      → length rs ≤ 0xffff_ffff
      → EachHasSpace rs
      → setup m rs multilog_id ≡ (
        ok (capacities_of rs),
        write_setup_metadata_to_all_regions m (flush_regions rs) multilog_id,
      )
  unfolding setup
  setup_result nonempty few space = rw (
    le→ltb (length (sizes_of rs)) 1 (omega (arith, len-sizes)),
    le→ltb 0xffff_ffff (length (sizes_of rs)) (omega (arith, len-sizes)),
    check_passes rs 0 space,
    capacities rs space,
  )

  pub space-flush : EachHasSpace rs → EachHasSpace (flush_regions rs)
  space-flush space i lt =
      let (fits, enough) = space i (omega (arith, length-map flush rs)) in
      rw (region_at-flush rs i (omega (arith, length-map flush rs)), len-flush) (fits, enough)

  capacities-flush : (xs : List Region) → capacities_of (flush_regions xs) ≡ capacities_of xs
  capacities-flush [] = refl
  capacities-flush (x ∷ xs) = ap₂ ◌∷◌ (ap (λ n. n - 256) (len-flush x)) (capacities-flush xs)

-- `setup` on regions that each have space for a log, of which there are some and not more than u32
-- counts, returns the capacity of each, which is the length of the region less that of its metadata.
-- It keeps the number of the regions, leaves no write outstanding in any, and whatever they then
-- crash as, recovery finds empty logs of those capacities.
pub multilog_setup_enough_space :
    {m : Medium} (sound : IsSound m) (rs : List Region) (multilog_id : ℕ)
    → 0 < length rs
    → length rs ≤ 0xffff_ffff
    → multilog_id < u128_mod
    → EachHasSpace rs
    → let (result, rs') = setup m rs multilog_id in
      (result ≡ ok (capacities_of rs))
      × (length rs' ≡ length rs)
      × ((i : ℕ) → i < length rs → NoOutstandingWrites (region_at rs' i))
      × ((mems : List Mem)
          → Regions.CanCrashAs rs' mems
          → recover_all m mems multilog_id ≡ some (initialize (capacities_of rs)))
multilog_setup_enough_space {m} sound rs multilog_id nonempty few id_fits space =
    rw (setup_result m rs multilog_id nonempty few space) (
      refl,
      len-after_all m sound (flush_regions rs) multilog_id nonempty_after few' id_fits spaces
          ∙ length-map flush rs,
      (λ i lt k p q.
          all_settled m sound (flush_regions rs) multilog_id nonempty_after few' id_fits spaces i
            (omega (arith, length-map flush rs)) k),
      λ mems crash.
          multilog_recover_after_crash
            (IsValid-set_up m sound (flush_regions rs) multilog_id nonempty_after few' id_fits
              spaces).consistent
            mems crash
          ∙ ap some (
              drop-initialize (capacities_of (flush_regions rs))
              ∙ ap initialize (capacities-flush m rs multilog_id rs)),
    )
  where
    nonempty_after : 0 < length (flush_regions rs)
    nonempty_after = omega (arith, length-map flush rs)

    few' : length (flush_regions rs) ≤ 0xffff_ffff
    few' = omega (arith, length-map flush rs)

    spaces : EachHasSpace (flush_regions rs)
    spaces = space-flush m rs multilog_id space

zero_plus : (i : ℕ) → 0 + i ≡ i
zero_plus i = omega arith

-- Why a setup is refused, and with which error: there is no region, there are more than u32 counts,
-- or a region is too small, of which the first is named with the space that it needs.
pub data SetupRefusal (rs : List Region) : MultiLogErr → Type 0 where
  sets_up_nothing : length rs ≡ 0 → SetupRefusal rs cant_setup_with_fewer_than_one_region
  sets_up_too_many :
      0xffff_ffff < length rs → SetupRefusal rs cant_setup_with_more_than_u32_max_regions
  sets_up_too_small :
      (i : ℕ)
      → length rs ≤ 0xffff_ffff
      → i < length rs
      → (region_at rs i).len < absolute_pos_of_log_area + min_log_area_size
      → ((j : ℕ) → j < i → absolute_pos_of_log_area + min_log_area_size ≤ (region_at rs j).len)
      → SetupRefusal rs
          (insufficient_space_for_setup i (absolute_pos_of_log_area + min_log_area_size))

-- A `setup` that is refused has only flushed the regions.
pub multilog_setup_refused :
    (m : Medium) (rs : List Region) (multilog_id : ℕ) {e : MultiLogErr}
    → SetupRefusal rs e
    → setup m rs multilog_id ≡ (err e, flush_regions rs)
unfolding setup
multilog_setup_refused m rs multilog_id (sets_up_nothing e) =
    rw (lt→ltb (length (sizes_of rs)) 1 (omega (arith, len-sizes m rs multilog_id)))
multilog_setup_refused m rs multilog_id (sets_up_too_many h) = rw (
  le→ltb (length (sizes_of rs)) 1 (omega (arith, len-sizes m rs multilog_id)),
  lt→ltb 0xffff_ffff (length (sizes_of rs)) (omega (arith, len-sizes m rs multilog_id)),
)
multilog_setup_refused m rs multilog_id (sets_up_too_small i few lt small others) = rw (
  le→ltb (length (sizes_of rs)) 1 (omega (arith, len-sizes m rs multilog_id)),
  le→ltb 0xffff_ffff (length (sizes_of rs)) (omega (arith, len-sizes m rs multilog_id)),
  check_fails rs 0 i lt small others,
  zero_plus i,
)
