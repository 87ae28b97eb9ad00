-- ===== src/Multilog/Inv/Crash/OneLog.antt =====
-- inv_v.rs of the multilog: what one region of a valid multilog can crash as.
use verified_storage.Base.{◌+◌, ◌≡◌, sym, ap, ◌∙◌, Bool, some, arith, [], if◌then◌else◌}
use verified_storage.Pmem.View.{
  Region, Mem, CanCrashAs, AgreeIn, committed, extract_bytes, extract_bytes_agree,
}
use verified_storage.Pmem.Bytes.{from_le_bytes}
use verified_storage.Pmem.Crash.{crash_at_settled}
use verified_storage.Pmem.Medium.{Medium}
use verified_storage.Log.Layout.{extract_global_metadata, extract_global_crc, crc_size}
use verified_storage.Log.Recover.{
  check_cdb, extract_log, recover_abstract_log_from_region_given_metadata,
}
use verified_storage.Log.Spec.{AbstractLogState}
use verified_storage.Log.Spec
use verified_storage.Log.Impl.{LogInfo}
use verified_storage.Log.Inv.{InfoValid, log_addr}
use verified_storage.Log.Inv.Crash.{log_addr_bounds, extract_log_of_bytes}
use verified_storage.Multilog.Layout.{
  absolute_pos_of_log_cdb, get_log_metadata_pos, deserialize_log_cdb,
}
use verified_storage.Multilog.Recover.{recover_abstract_log_from_region_given_cdb, recover_cdb}
use verified_storage.Multilog.Inv.{LogName, MetadataConsistent, RegionConsistent, get_log_crc_end}

module _ (m : Medium) where
  pub MetadataConsistent-agree :
      (a b : Mem) {name : LogName} (cdb : Bool) {info : LogInfo}
      → a.len ≡ b.len
      → AgreeIn a b 0 absolute_pos_of_log_cdb
      → AgreeIn a b (get_log_metadata_pos cdb) (get_log_crc_end cdb)
      → MetadataConsistent m a name cdb info
      → MetadataConsistent m b name cdb info
  MetadataConsistent-agree a b {name} cdb {info} len low active h = record {
    global_crc = rw (← gm, ← gc) h.global_crc;
    region_crc = rw (← rm, ← rc) h.region_crc;
    log_crc = rw (← lm, ← lc) h.log_crc;
    program_guid = rw (← gm) h.program_guid;
    version_number = rw (← gm) h.version_number;
    length_of_region = rw (← gm) h.length_of_region;
    region_size = rw (← rm, ← len) h.region_size;
    region_multilog_id = rw (← rm) h.region_multilog_id;
    region_num_logs = rw (← rm) h.region_num_logs;
    region_which_log = rw (← rm) h.region_which_log;
    log_area_len = rw (← rm) h.log_area_len;
    head = rw (← lm) h.head;
    log_length = rw (← lm) h.log_length;
    fits = rw (← len) h.fits;
  }
    where
      gm : extract_global_metadata a ≡ extract_global_metadata b
      gm = extract_bytes_agree a b 0 32 (λ k p q. low k p (omega arith))

      gc : extract_global_crc a ≡ extract_global_crc b
      gc = extract_bytes_agree a b 32 8 (λ k p q. low k (omega arith) (omega arith))

      rm : extract_bytes a 40 48 ≡ extract_bytes b 40 48
      rm = extract_bytes_agree a b 40 48 (λ k p q. low k (omega arith) (omega arith))

      rc : extract_bytes a 88 8 ≡ extract_bytes b 88 8
      rc = extract_bytes_agree a b 88 8 (λ k p q. low k (omega arith) (omega arith))

      lm :
          extract_bytes a (get_log_metadata_pos cdb) 32
          ≡ extract_bytes b (get_log_metadata_pos cdb) 32
      lm = extract_bytes_agree a b (get_log_metadata_pos cdb) 32 (λ k p q. active k p (omega arith))

      lc :
          extract_bytes a (if cdb then 176 else 136) 8
          ≡ extract_bytes b (if cdb then 176 else 136) 8
      lc =
          extract_bytes_agree a b (if cdb then 176 else 136) 8
            (λ k p q. active k (ground arith) (ground arith))

  recover_given_consistent :
      (mem : Mem) (name : LogName) (cdb : Bool) {info : LogInfo}
      → MetadataConsistent m mem name cdb info
      → InfoValid info
      → recover_abstract_log_from_region_given_cdb m mem name.multilog_id name.num_logs
          name.which_log cdb
        ≡ some (record {
          head = info.head;
          log = extract_log mem info.log_area_len info.head info.log_length;
          pending = [];
          capacity = info.log_area_len;
        })
  unfolding recover_abstract_log_from_region_given_cdb
      recover_abstract_log_from_region_given_metadata
  recover_given_consistent mem name cdb h v = ground arith

  pub recover_cdb_consistent :
      (mem : Mem) {name : LogName} (cdb cdb' : Bool) {info : LogInfo}
      → MetadataConsistent m mem name cdb info
      → check_cdb (deserialize_log_cdb mem) ≡ some cdb'
      → recover_cdb m mem ≡ some cdb'
  unfolding recover_cdb
  recover_cdb_consistent mem cdb cdb' h e = ground arith

-- Contents whose boolean is settled agree with it.
pub cdb_agree :
    (a b : Mem) {cdb : Bool}
    → AgreeIn a b absolute_pos_of_log_cdb (absolute_pos_of_log_cdb + crc_size)
    → check_cdb (deserialize_log_cdb a) ≡ some cdb
    → check_cdb (deserialize_log_cdb b) ≡ some cdb
cdb_agree a b h e = ap (λ bytes. check_cdb (from_le_bytes bytes)) (sym same) ∙ e
  where
    same : extract_bytes a 96 8 ≡ extract_bytes b 96 8
    same = extract_bytes_agree a b 96 8 h

module _ {m : Medium} {r : Region} {name : LogName} {cdb : Bool} {info : LogInfo}
    {s : AbstractLogState} (v : RegionConsistent m r name cdb info s) (mem : Mem)
    (crash : CanCrashAs r mem) where
  pub metadata_after_crash : MetadataConsistent m mem name cdb info
  metadata_after_crash =
      MetadataConsistent-agree m (committed r) mem cdb (sym crash.same_len)
        (λ k p q.
          sym
            (crash_at_settled r mem k crash (omega (arith, v.metadata.fits)) (v.low_settled k p q)))
        (λ k p q. sym (
          crash_at_settled r mem k crash (ground (arith, v.metadata.fits))
            (v.active_settled k p q)))
        v.metadata

  -- What one region gives on recovery (`lemma_invariants_imply_crash_recover_for_one_log`).
  pub region_after_crash :
      recover_abstract_log_from_region_given_cdb m mem name.multilog_id name.num_logs name.which_log
        cdb
      ≡ some (Spec.drop_pending_appends s)
  region_after_crash =
      recover_given_consistent m mem name cdb metadata_after_crash v.info_valid ∙ ap some state
    where
      log : extract_log mem info.log_area_len info.head info.log_length ≡ s.log
      log = extract_log_of_bytes mem s.log v.info_valid v.describes.log_len (λ pos h.
          crash_at_settled r mem (log_addr info pos) crash
            (omega (
              arith,
              log_addr_bounds pos v.info_valid
                  (omega (arith, v.info_valid.log_le, v.info_valid.pending_le)),
              v.metadata.fits,
            ))
            (v.area.log_settled pos h)
          ∙ v.area.log_bytes pos h)

      state :
          (record {
            head = info.head;
            log = extract_log mem info.log_area_len info.head info.log_length;
            pending = [];
            capacity = info.log_area_len;
          })
          ≡ Spec.drop_pending_appends s
      state = λ i. record {
        head = sym v.describes.head i;
        log = log i;
        pending = [];
        capacity = sym v.describes.capacity i;
      }
