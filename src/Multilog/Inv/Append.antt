-- ===== src/Multilog/Inv/Append.antt =====
-- append_v.rs of the multilog: a write to the free part of one log area.
use mathlib.Core.List.{append_assoc}
use mathlib.Core.Path.{subst, subst₂}
use verified_storage.Base.{
  ℕ, ◌+◌, ◌-◌, ◌≤◌, ◌<◌, ◌≡◌, sym, ap, ◌∙◌, inl, inr, Bool, length, update, arith, u128_max, List,
  ◌++◌, take, drop, length-update, get_or-update, get_or-update_other, eq_or_ne, length-take,
  length-drop, take-append-drop,
}
use verified_storage.Pmem.View.{
  Region, Mem, PersistentMemoryByte, committed, write, write_out, committed-write, len-write,
}
use verified_storage.Pmem.Medium.{Medium}
use verified_storage.Pmem.Regions.{region_at, no_region}
use verified_storage.Log.Layout.{absolute_pos_of_log_area}
use verified_storage.Log.Spec.{AbstractLogState}
use verified_storage.Log.Spec as LogSpec
use verified_storage.Log.Impl.{LogInfo}
use verified_storage.Log.Inv.{log_addr}
use verified_storage.Log.Inv.Append.{
  max_len_without_wrapping, appended, appended_InfoValid, appended-Describes, AreaHolds-piece,
}
use verified_storage.Log.Append.{wrapped_addr, rest_fits}
use verified_storage.Multilog.Spec.{AbstractMultiLogState, num_logs}
use verified_storage.Multilog.Impl.{MultiLogImpl}
use verified_storage.Multilog.Inv.{LogName, MetadataConsistent, RegionConsistent, IsValid}
use verified_storage.Multilog.Inv.Crash.{cdb_agree}
use verified_storage.Multilog.Inv.Update.{EachConsistent-log, name_of}

-- The metadata says nothing of pending appends.
MetadataConsistent-appended :
    {m : Medium} {mem : Mem} {name : LogName} {cdb : Bool} {info : LogInfo} (n : ℕ)
    → MetadataConsistent m mem name cdb info
    → MetadataConsistent m mem name cdb (appended info n)
MetadataConsistent-appended n h = record {
  global_crc = h.global_crc;
  region_crc = h.region_crc;
  log_crc = h.log_crc;
  program_guid = h.program_guid;
  version_number = h.version_number;
  length_of_region = h.length_of_region;
  region_size = h.region_size;
  region_multilog_id = h.region_multilog_id;
  region_num_logs = h.region_num_logs;
  region_which_log = h.region_which_log;
  log_area_len = h.log_area_len;
  head = h.head;
  log_length = h.log_length;
  fits = h.fits;
}

module _ {m : Medium} {r : Region} {name : LogName} {cdb : Bool} {info : LogInfo}
    {s : AbstractLogState} (v : RegionConsistent m r name cdb info s) (bytes : List ℕ)
    (space : info.log_plus_pending_length + length bytes ≤ info.log_area_len)
    (tail : info.head + info.log_plus_pending_length + length bytes ≤ u128_max) where
  -- One write extends the pending appends by the bytes (`lemma_tentatively_append`).
  pub RegionConsistent-append_piece :
      length bytes ≤ max_len_without_wrapping info
      → RegionConsistent m
          (write r (log_addr info info.log_plus_pending_length) bytes)
          name
          cdb
          (appended info (length bytes))
          (LogSpec.tentatively_append s bytes)
  RegionConsistent-append_piece fits = record {
    region_fits = rw len-write v.region_fits;
    low_settled = λ k p q. rw (low k (omega arith)) (v.low_settled k p q);
    active_settled = λ k p q. rw (low k (ground arith)) (v.active_settled k p q);
    metadata = rw committed-write (MetadataConsistent-appended (length bytes) v.metadata);
    info_valid = appended_InfoValid v.info_valid v.describes v.area bytes fits space tail;
    describes = appended-Describes v.info_valid v.describes v.area bytes fits space;
    area = AreaHolds-piece v.info_valid v.describes v.area bytes fits space;
  }
    where
      low :
          (k : ℕ)
          → k < absolute_pos_of_log_area
          → (write r (log_addr info info.log_plus_pending_length) bytes).state k ≡ r.state k
      low k q = write_out r (log_addr info info.log_plus_pending_length) bytes k (inl (omega arith))

module _ {m : Medium} {r : Region} {name : LogName} {cdb : Bool} {info : LogInfo}
    {s : AbstractLogState} (v : RegionConsistent m r name cdb info s) (bytes : List ℕ)
    (space : info.log_plus_pending_length + length bytes ≤ info.log_area_len)
    (tail : info.head + info.log_plus_pending_length + length bytes ≤ u128_max)
    (long : max_len_without_wrapping info < length bytes) where
  abbrev k : ℕ
  k = max_len_without_wrapping info

  len₁ : length (take k bytes) ≡ k
  len₁ = length-take k bytes (omega arith)

  len₂ : length (drop k bytes) ≡ length bytes - k
  len₂ = length-drop k bytes

  pub first_piece :
      RegionConsistent m
        (write r
          (log_addr info info.log_plus_pending_length)
          (take (max_len_without_wrapping info) bytes))
        name
        cdb
        (appended info (length (take (max_len_without_wrapping info) bytes)))
        (LogSpec.tentatively_append s (take (max_len_without_wrapping info) bytes))
  first_piece =
      RegionConsistent-append_piece v (take k bytes) (omega (arith, len₁)) (omega (arith, len₁))
        (omega (arith, len₁))

  -- Two writes that wrap extend them too (`lemma_tentatively_append_wrapping`).
  pub both_pieces :
      RegionConsistent m
        (write
          (write r
            (log_addr info info.log_plus_pending_length)
            (take (max_len_without_wrapping info) bytes))
          absolute_pos_of_log_area
          (drop (max_len_without_wrapping info) bytes))
        name
        cdb
        (appended info (length bytes))
        (LogSpec.tentatively_append s bytes)
  both_pieces =
      subst
        (λ a.
          RegionConsistent m
            (write (write r (log_addr info info.log_plus_pending_length) (take k bytes)) a
              (drop k bytes))
            name cdb (appended info (length bytes)) (LogSpec.tentatively_append s bytes))
        wrapped
        (subst₂
          (λ n t.
            RegionConsistent m
              (write (write r (log_addr info info.log_plus_pending_length) (take k bytes))
                (log_addr (appended info (length (take k bytes)))
                  (info.log_plus_pending_length + length (take k bytes)))
                (drop k bytes))
              name cdb (record info { log_plus_pending_length = n }) (record s { pending = t }))
          total
          (append_assoc s.pending (take k bytes) (drop k bytes)
            ∙ ap (λ t. s.pending ++ t) (take-append-drop k bytes))
          (RegionConsistent-append_piece first_piece (drop k bytes) (omega (arith, len₁, len₂))
            (omega (arith, len₁, len₂))
            (rest_fits v.info_valid (length (take k bytes)) (length bytes) (length (drop k bytes))
              len₁ long space len₂)))
    where
      wrapped :
          log_addr
            (appended info (length (take k bytes)))
            (info.log_plus_pending_length + length (take k bytes))
          ≡ absolute_pos_of_log_area
      wrapped = wrapped_addr v.info_valid (length (take k bytes)) (length bytes) 0 len₁ long space

      total :
          info.log_plus_pending_length + length (take k bytes) + length (drop k bytes)
          ≡ info.log_plus_pending_length + length bytes
      total = omega (arith, len₁, len₂)

-- One log changes, and its region above the metadata.
module _ {m : Medium} {rs : List Region} {multilog_id : ℕ} {self : MultiLogImpl}
    {s : AbstractMultiLogState} (v : IsValid m rs multilog_id self s) (k : ℕ) (lt : k < num_logs s)
    (r : Region) (info : LogInfo) (log : AbstractLogState)
    (low : (a : ℕ) → a < absolute_pos_of_log_area → r.state a ≡ (region_at rs k).state a)
    (new : RegionConsistent m r (name_of multilog_id (num_logs s) k) self.cdb info log) where
  in_rs : k < length rs
  in_rs = omega (arith, v.consistent.consistent.regions_len)

  low_same :
      (i a : ℕ)
      → a < absolute_pos_of_log_area
      → (region_at (update rs k r) i).state a ≡ (region_at rs i).state a
  low_same i a h = elim (eq_or_ne i k) [
    | inl e ↦
        subst (λ j. (region_at (update rs k r) j).state a ≡ (region_at rs j).state a) (sym e)
          (ap (λ (t : Region). t.state a) (get_or-update rs k r no_region in_rs) ∙ low a h)
    | inr ne ↦ ap (λ (t : Region). t.state a) (get_or-update_other rs k i r no_region ne)
  ]

  pub IsValid-log :
      IsValid m
        (update rs k r)
        multilog_id
        (record self { infos = update self.infos k info })
        (record { states = update s.states k log })
  IsValid-log = record {
    num_logs_is = v.num_logs_is ∙ sym (length-update s.states k log);
    metadata_settled = λ i p a q z.
        rw (low_same i a z) (v.metadata_settled i (omega (arith, length-update rs k r)) a q z);
    consistent = record {
      some_logs = rw length-update v.consistent.some_logs;
      few_logs = rw length-update v.consistent.few_logs;
      cdb_matches = record {
        cdb_settled =
            λ a p q. rw (low_same 0 a (omega arith)) (v.consistent.cdb_matches.cdb_settled a p q);
        cdb_is =
            cdb_agree (committed (region_at rs 0)) (committed (region_at (update rs k r) 0))
              (λ a p q. sym (
                ap (λ (b : PersistentMemoryByte). b.state_at_last_flush)
                  (low_same 0 a (omega arith))))
              v.consistent.cdb_matches.cdb_is;
      };
      consistent = EachConsistent-log v.consistent.consistent k r info log lt new;
    };
  }
