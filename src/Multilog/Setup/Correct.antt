-- ===== src/Multilog/Setup/Correct.antt =====
-- setup_v.rs of the multilog: one region that was set up.
use mathlib.Core.Path.{subst}
use verified_storage.Base.{
  ℕ, ◌-◌, ◌≤◌, ◌<◌, ◌≡◌, refl, sym, ap, ◌∙◌, false, none, arith, u64_mod, u128_mod,
}
use verified_storage.Pmem.View.{Region, write, flush, committed, settled-flush}
use verified_storage.Pmem.Medium.{Medium, IsSound}
use verified_storage.Log.Layout.{deserialize_global_metadata}
use verified_storage.Log.Recover.{crc_global, crc_log, extract_log}
use verified_storage.Log.Spec as LogSpec
use verified_storage.Log.Inv.{InfoValid}
use verified_storage.Log.Start.Held.{held-Describes, held-AreaHolds}
use verified_storage.Log.Start.Inversion.{state_of}
use verified_storage.Multilog.Layout.{deserialize_region_metadata, deserialize_log_metadata}
use verified_storage.Multilog.Recover.{crc_region}
use verified_storage.Multilog.Inv.{LogName, MetadataConsistent, RegionConsistent}
use verified_storage.Multilog.Start.Inversion.{info_of}
use verified_storage.Multilog.Setup.{
  new_global_metadata, new_log_metadata, write_setup_metadata_to_single_region,
}
use verified_storage.Multilog.Setup.Parse.{
  region_metadata_of, set_up, setup_global_metadata, setup_global_crc, setup_region_metadata,
  setup_region_crc, setup_log_metadata, setup_log_crc,
}

-- One region.
module _ (m : Medium) (sound : IsSound m) (r : Region) (name : LogName)
    (size_fits : r.len < u64_mod) (id_fits : name.multilog_id < u128_mod)
    (count_fits : name.num_logs < 0x1_0000_0000) (which_fits : name.which_log < 0x1_0000_0000)
    (space : 257 ≤ r.len) where
  after : Region
  after = flush (set_up m r r.len name)

  pub after_len : (flush (set_up m r r.len name)).len ≡ r.len
  unfolding write_setup_metadata_to_single_region flush write
  after_len = refl

  after_settled : (pos : ℕ) → (after.state pos).outstanding_write ≡ none
  unfolding after
  after_settled pos = settled-flush (set_up m r r.len name) pos

  after_global : deserialize_global_metadata (committed after) ≡ new_global_metadata
  unfolding after
  after_global = setup_global_metadata m r r.len name sound size_fits id_fits count_fits which_fits

  after_region : deserialize_region_metadata (committed after) ≡ region_metadata_of r.len name
  unfolding after
  after_region = setup_region_metadata m r r.len name sound size_fits id_fits count_fits which_fits

  after_log : deserialize_log_metadata (committed after) false ≡ new_log_metadata
  unfolding after
  after_log = setup_log_metadata m r r.len name sound size_fits id_fits count_fits which_fits

  after_capacity : (info_of (committed after) false).log_area_len ≡ r.len - 256
  after_capacity = ap (λ g. g.log_area_len) after_region ∙ ground arith

  after_head : (info_of (committed after) false).head ≡ 0
  after_head = ap (λ g. g.head) after_log

  after_log_length : (info_of (committed after) false).log_length ≡ 0
  after_log_length = ap (λ g. g.log_length) after_log

  after_metadata :
      MetadataConsistent m (committed after) name false (info_of (committed after) false)
  unfolding after
  after_metadata = record {
    global_crc =
        setup_global_crc m r r.len name sound size_fits id_fits count_fits which_fits
        ∙ ap (crc_global m) (sym after_global);
    region_crc =
        setup_region_crc m r r.len name sound size_fits id_fits count_fits which_fits
        ∙ ap (crc_region m) (sym after_region);
    log_crc =
        setup_log_crc m r r.len name sound size_fits id_fits count_fits which_fits
        ∙ ap (crc_log m) (sym after_log);
    program_guid = ap (λ g. g.program_guid) after_global;
    version_number = ap (λ g. g.version_number) after_global;
    length_of_region = ap (λ g. g.length_of_region_metadata) after_global;
    region_size = ap (λ g. g.region_size) after_region ∙ sym after_len;
    region_multilog_id = ap (λ g. g.multilog_id) after_region;
    region_num_logs = ap (λ g. g.num_logs) after_region;
    region_which_log = ap (λ g. g.which_log) after_region;
    log_area_len = refl;
    head = refl;
    log_length = refl;
    fits = omega (arith, after_capacity, after_len);
  }

  after_valid : InfoValid (info_of (committed after) false)
  after_valid = record {
    area = omega (arith, after_capacity);
    log_le = omega arith;
    pending_le = omega (arith, after_log_length);
    offset = refl;
    tail_fits = omega (arith, after_head, after_log_length);
  }

  after_state :
      state_of (committed after) (info_of (committed after) false)
      ≡ LogSpec.initialize (r.len - 256)
  unfolding extract_log
  after_state = rw (after_log_length, after_head, after_capacity)

  pub RegionConsistent-set_up :
      RegionConsistent m
        (flush (set_up m r r.len name))
        name
        false
        (info_of (committed (flush (set_up m r r.len name))) false)
        (LogSpec.initialize (r.len - 256))
  unfolding after
  RegionConsistent-set_up =
      subst (RegionConsistent m after name false (info_of (committed after) false)) after_state
        (record {
          region_fits = rw after_len size_fits;
          low_settled = λ k p q. after_settled k;
          active_settled = λ k p q. after_settled k;
          metadata = after_metadata;
          info_valid = after_valid;
          describes =
              held-Describes after (info_of (committed after) false) after_settled refl refl;
          area = held-AreaHolds after (info_of (committed after) false) after_settled refl refl;
        })
