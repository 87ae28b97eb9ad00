-- ===== src/Multilog/Setup/All.antt =====
-- `setup` of multilogimpl_v.rs: the regions that it leaves, and its result.
use mathlib.Core.Path.{subst}
use verified_storage.Base.{
  ℕ, zero, suc, ◌+◌, ◌-◌, ◌≤◌, ◌<◌, ◌≡◌, refl, sym, ap, ◌∙◌, false, some, none, arith, u64_mod,
  u128_mod, List, [], ◌∷◌, length, map, length-map, get_or-map,
}
use verified_storage.Pmem.View.{Region, flush, committed, settled-flush}
use verified_storage.Pmem.Medium.{Medium, IsSound}
use verified_storage.Pmem.Regions.{region_at, no_region}
use verified_storage.Log.Layout.{absolute_pos_of_log_area, min_log_area_size}
use verified_storage.Log.Recover.{check_cdb}
use verified_storage.Log.Spec as LogSpec
use verified_storage.Multilog.Layout.{deserialize_log_cdb}
use verified_storage.Multilog.Spec.{initialize, drop_pending_appends, num_logs, log_at}
use verified_storage.Multilog.Impl.{no_info}
use verified_storage.Multilog.Inv.{RegionConsistent, IsValid}
use verified_storage.Multilog.Inv.Update.{name_of, region_at-flush}
use verified_storage.Multilog.Start.Inversion.{info_of}
use verified_storage.Multilog.Start.Stages.{infos_of}
use verified_storage.Multilog.Setup.{
  write_setup_metadata_to_regions, write_setup_metadata_to_all_regions,
}
use verified_storage.Multilog.Setup.Parse.{set_up, setup_log_cdb}
use verified_storage.Multilog.Setup.Correct.{RegionConsistent-set_up}

length-regions :
    (m : Medium) (rs : List Region) (multilog_id count first : ℕ)
    → length (write_setup_metadata_to_regions m rs multilog_id count first) ≡ length rs
unfolding write_setup_metadata_to_regions
length-regions m [] multilog_id count first = refl
length-regions m (r ∷ rs) multilog_id count first =
    ap suc (length-regions m rs multilog_id count (suc first))

region_at-regions :
    (m : Medium) (rs : List Region) (multilog_id count first i : ℕ)
    → i < length rs
    → region_at (write_setup_metadata_to_regions m rs multilog_id count first) i
      ≡ set_up m (region_at rs i) (region_at rs i).len (name_of multilog_id count (first + i))
unfolding write_setup_metadata_to_regions
region_at-regions m [] multilog_id count first i lt = absurd (omega arith)
region_at-regions m (r ∷ rs) multilog_id count first zero lt =
    ap (λ k. set_up m r r.len (name_of multilog_id count k)) (omega arith)
region_at-regions m (r ∷ rs) multilog_id count first (suc i) lt =
    region_at-regions m rs multilog_id count (suc first) i (omega arith)
    ∙ ap (λ k. set_up m (region_at rs i) (region_at rs i).len (name_of multilog_id count k))
        (omega arith)

-- An empty multilog has nothing pending.
pub drop-initialize :
    (capacities : List ℕ) → drop_pending_appends (initialize capacities) ≡ initialize capacities
drop-initialize capacities =
    ap (λ (t : List LogSpec.AbstractLogState). record { states = t }) (go capacities)
  where
    go :
        (cs : List ℕ)
        → map LogSpec.drop_pending_appends (map LogSpec.initialize cs) ≡ map LogSpec.initialize cs
    go [] = refl
    go (c ∷ cs) = ap (λ t. LogSpec.initialize c ∷ t) (go cs)

-- Every region is of a size that u64 holds, and has space for a log.
abbrev pub EachHasSpace : List Region → Type 0
EachHasSpace rs =
    (i : ℕ)
    → i < length rs
    → ((region_at rs i).len < u64_mod)
      × (absolute_pos_of_log_area + min_log_area_size ≤ (region_at rs i).len)

-- The capacities that the regions allow.
abbrev pub capacities_of : List Region → List ℕ
capacities_of rs = map (λ (r : Region). r.len - absolute_pos_of_log_area) rs

module _ (m : Medium) (sound : IsSound m) (rs : List Region) (multilog_id : ℕ)
    (nonempty : 0 < length rs) (few : length rs ≤ 0xffff_ffff) (id_fits : multilog_id < u128_mod)
    (space : EachHasSpace rs) where
  abbrev after_all : List Region
  after_all = write_setup_metadata_to_all_regions m rs multilog_id

  pub len-after_all : length (write_setup_metadata_to_all_regions m rs multilog_id) ≡ length rs
  unfolding write_setup_metadata_to_all_regions
  len-after_all =
      length-map flush (write_setup_metadata_to_regions m rs multilog_id (length rs) 0)
      ∙ length-regions m rs multilog_id (length rs) 0

  pub region_at-after_all :
      (i : ℕ)
      → i < length rs
      → region_at (write_setup_metadata_to_all_regions m rs multilog_id) i
        ≡ flush (set_up m (region_at rs i) (region_at rs i).len (name_of multilog_id (length rs) i))
  unfolding write_setup_metadata_to_all_regions
  region_at-after_all i lt =
      region_at-flush (write_setup_metadata_to_regions m rs multilog_id (length rs) 0) i
        (omega (arith, length-regions m rs multilog_id (length rs) 0))
      ∙ ap flush (
          region_at-regions m rs multilog_id (length rs) 0 i lt
          ∙ ap
              (λ k.
                set_up m (region_at rs i) (region_at rs i).len (name_of multilog_id (length rs) k))
              (omega arith))

  count : num_logs (initialize (capacities_of rs)) ≡ length rs
  count = length-map LogSpec.initialize (capacities_of rs) ∙ length-map _ rs

  log_at-initial :
      (i : ℕ)
      → i < length rs
      → log_at (initialize (capacities_of rs)) i ≡ LogSpec.initialize ((region_at rs i).len - 256)
  log_at-initial i lt =
      get_or-map LogSpec.initialize (capacities_of rs) i 0 (LogSpec.initialize 0)
        (omega (arith, length-map (λ (r : Region). r.len - absolute_pos_of_log_area) rs))
      ∙ ap LogSpec.initialize (get_or-map _ rs i no_region 0 lt)

  consistent_at :
      (i : ℕ)
      → i < length rs
      → RegionConsistent m
          (region_at after_all i)
          (name_of multilog_id (length rs) i)
          false
          (info_of (committed (region_at after_all i)) false)
          (log_at (initialize (capacities_of rs)) i)
  consistent_at i lt =
      let (fits, enough) = space i lt in
      subst
        (λ r.
          RegionConsistent m r (name_of multilog_id (length rs) i) false
            (info_of (committed r) false) (log_at (initialize (capacities_of rs)) i))
        (sym (region_at-after_all i lt))
        (subst (RegionConsistent m _ (name_of multilog_id (length rs) i) false _)
          (sym (log_at-initial i lt))
          (RegionConsistent-set_up m sound (region_at rs i) (name_of multilog_id (length rs) i) fits
            id_fits (omega arith) (omega arith) enough))

  pub all_settled :
      (i : ℕ)
      → i < length rs
      → (pos : ℕ)
      → ((region_at (write_setup_metadata_to_all_regions m rs multilog_id) i).state
          pos).outstanding_write
        ≡ none
  all_settled i lt pos = rw (region_at-after_all i lt) (settled-flush _ pos)

  cdb_after : check_cdb (deserialize_log_cdb (committed (region_at after_all 0))) ≡ some false
  cdb_after =
      let (fits, enough) = space 0 nonempty in
      subst (λ r. check_cdb (deserialize_log_cdb (committed r)) ≡ some false)
        (sym (region_at-after_all 0 nonempty))
        (setup_log_cdb m (region_at rs 0) (region_at rs 0).len (name_of multilog_id (length rs) 0)
          sound fits id_fits (omega arith) (omega arith))

  -- The regions hold a valid empty multilog.
  pub IsValid-set_up :
      IsValid m
        (write_setup_metadata_to_all_regions m rs multilog_id)
        multilog_id
        (record {
          num_logs = length rs;
          cdb = false;
          infos = infos_of (write_setup_metadata_to_all_regions m rs multilog_id) false;
        })
        (initialize (capacities_of rs))
  IsValid-set_up = record {
    num_logs_is = sym count;
    metadata_settled = λ i lt k p q. all_settled i (omega (arith, len-after_all)) k;
    consistent = record {
      some_logs = omega (arith, count);
      few_logs = omega (arith, count);
      cdb_matches = record { cdb_settled = λ k p q. all_settled 0 nonempty k; cdb_is = cdb_after };
      consistent = record {
        regions_len = len-after_all ∙ sym count;
        infos_len = length-map _ after_all ∙ len-after_all ∙ sym count;
        each = λ i lt.
            rw
              (
                count,
                get_or-map (λ r. info_of (committed r) false) after_all i no_region no_info
                    (omega (arith, count, len-after_all)),
              )
              (consistent_at i (omega (arith, count)));
      };
    };
  }
