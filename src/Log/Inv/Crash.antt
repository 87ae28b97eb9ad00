-- ===== src/Log/Inv/Crash.antt =====
-- A valid log can only crash as its abstract state without the pending appends.
use verified_storage.Base.{
  ℕ, ◌+◌, ◌≤◌, ◌<◌, ◌≡◌, sym, ap, ◌∙◌, Bool, some, length, get_or, arith, seq_new-get_or, List, [],
}
use verified_storage.Pmem.View.{Region, Mem, CanCrashAs, AgreeIn, committed, extract_bytes_agree}
use verified_storage.Pmem.Bytes.{from_le_bytes}
use verified_storage.Pmem.Crash.{crash_at_settled}
use verified_storage.Pmem.Medium.{Medium}
use verified_storage.Log.Layout.{
  get_log_metadata_pos, get_log_crc_pos, get_log_crc_end, extract_global_metadata,
  extract_global_crc, extract_region_metadata, extract_region_crc, extract_log_metadata,
  extract_log_crc, extract_log_cdb, absolute_pos_of_log_cdb, absolute_pos_of_log_area, crc_size,
  relative_log_pos_to_log_area_offset,
}
use verified_storage.Log.Recover.{
  check_cdb, deserialize_and_check_log_cdb, recover_cdb, recover_given_cdb, recover_state,
  extract_log, recover_abstract_log_from_region_given_metadata,
}
use verified_storage.Log.Spec.{AbstractLogState, drop_pending_appends}
use verified_storage.Log.Impl.{LogInfo, LogImpl}
use verified_storage.Log.Inv.{MetadataConsistent, InfoValid, IsConsistent, log_addr}

-- The metadata that a boolean selects is the same in both contents.
abbrev pub SameMetadata : Mem → Mem → Bool → Type 0
SameMetadata a b cdb =
    AgreeIn a b 0 absolute_pos_of_log_cdb
    × AgreeIn a b (get_log_metadata_pos cdb) (get_log_crc_end cdb)

module _ (m : Medium) where
  pub MetadataConsistent-agree :
      (a b : Mem) {log_id : ℕ} (cdb : Bool) {info : LogInfo}
      → a.len ≡ b.len
      → SameMetadata a b cdb
      → MetadataConsistent m a log_id cdb info
      → MetadataConsistent m b log_id cdb info
  MetadataConsistent-agree a b {log_id} cdb {info} len (low, active) h = record {
    global_crc = rw (← gm, ← gc) h.global_crc;
    region_crc = rw (← rm, ← rc) h.region_crc;
    log_crc = rw (← lm, ← lc) h.log_crc;
    program_guid = rw (← gm) h.program_guid;
    version_number = rw (← gm) h.version_number;
    length_of_region = rw (← gm) h.length_of_region;
    region_size = rw (← rm, ← len) h.region_size;
    region_log_id = rw (← rm) h.region_log_id;
    log_area_len = rw (← rm) h.log_area_len;
    head = rw (← lm) h.head;
    log_length = rw (← lm) h.log_length;
    fits = rw (← len) h.fits;
  }
    where
      gm : extract_global_metadata a ≡ extract_global_metadata b
      gm = extract_bytes_agree a b 0 32 (λ k p q. low k p (omega arith))

      gc : extract_global_crc a ≡ extract_global_crc b
      gc = extract_bytes_agree a b 32 8 (λ k p q. low k (omega arith) (omega arith))

      rm : extract_region_metadata a ≡ extract_region_metadata b
      rm = extract_bytes_agree a b 40 32 (λ k p q. low k (omega arith) (omega arith))

      rc : extract_region_crc a ≡ extract_region_crc b
      rc = extract_bytes_agree a b 72 8 (λ k p q. low k (omega arith) (omega arith))

      lm : extract_log_metadata a cdb ≡ extract_log_metadata b cdb
      lm = extract_bytes_agree a b (get_log_metadata_pos cdb) 32 (λ k p q. active k p (omega arith))

      lc : extract_log_crc a cdb ≡ extract_log_crc b cdb
      lc =
          extract_bytes_agree a b (get_log_crc_pos cdb) 8
            (λ k p q. active k (ground arith) (ground arith))

  recover_given_consistent :
      (mem : Mem) {log_id : ℕ} (cdb : Bool) {info : LogInfo}
      → MetadataConsistent m mem log_id cdb info
      → InfoValid info
      → recover_given_cdb m mem log_id cdb
        ≡ some (record {
          head = info.head;
          log = extract_log mem info.log_area_len info.head info.log_length;
          pending = [];
          capacity = info.log_area_len;
        })
  unfolding recover_given_cdb recover_abstract_log_from_region_given_metadata
  recover_given_consistent mem cdb h v = ground arith

  recover_cdb_consistent :
      (mem : Mem) {log_id : ℕ} (cdb : Bool) {info : LogInfo}
      → MetadataConsistent m mem log_id cdb info
      → deserialize_and_check_log_cdb mem ≡ some cdb
      → recover_cdb m mem ≡ some cdb
  unfolding recover_cdb
  recover_cdb_consistent mem cdb h e = ground arith

  recover_state_consistent :
      (mem : Mem) {log_id : ℕ} (cdb : Bool) {info : LogInfo}
      → MetadataConsistent m mem log_id cdb info
      → deserialize_and_check_log_cdb mem ≡ some cdb
      → InfoValid info
      → recover_state m mem log_id
        ≡ some (record {
          head = info.head;
          log = extract_log mem info.log_area_len info.head info.log_length;
          pending = [];
          capacity = info.log_area_len;
        })
  unfolding recover_state
  recover_state_consistent mem cdb h e v =
      rw (recover_cdb_consistent mem cdb h e, recover_state) (recover_given_consistent mem cdb h v)

-- Positions of the log are addresses of the log area.
pub log_addr_bounds :
    {info : LogInfo} (pos : ℕ)
    → InfoValid info
    → pos < info.log_area_len
    → (absolute_pos_of_log_area ≤ log_addr info pos)
      × (log_addr info pos < absolute_pos_of_log_area + info.log_area_len)
unfolding relative_log_pos_to_log_area_offset
log_addr_bounds pos v h = ground arith

-- Contents that hold the log in the log area yield it on recovery.
pub extract_log_of_bytes :
    (mem : Mem) {info : LogInfo} (log : List ℕ)
    → InfoValid info
    → length log ≡ info.log_length
    → ((pos : ℕ) → pos < info.log_length → mem.at (log_addr info pos) ≡ get_or log pos 0)
    → extract_log mem info.log_area_len info.head info.log_length ≡ log
unfolding extract_log
extract_log_of_bytes mem {info} log v e h =
    rw (← v.offset) (seq_new-get_or log info.log_length _ 0 e h)

pub cdb_agree :
    (a b : Mem) {cdb : Bool}
    → AgreeIn a b 0 (absolute_pos_of_log_cdb + crc_size)
    → deserialize_and_check_log_cdb a ≡ some cdb
    → deserialize_and_check_log_cdb b ≡ some cdb
cdb_agree a b h e = ap (λ bytes. check_cdb (from_le_bytes bytes)) (sym same) ∙ e
  where
    same : extract_log_cdb a ≡ extract_log_cdb b
    same = extract_bytes_agree a b 80 8 (λ k p q. h k (omega arith) q)

-- Recovery depends on the metadata and on the bytes of the log only.
module _ {m : Medium} {r : Region} {log_id : ℕ} {self : LogImpl} {s : AbstractLogState}
    (v : IsConsistent m r log_id self s) where
  pub recover_if_agrees :
      (mem : Mem)
      → mem.len ≡ r.len
      → AgreeIn (committed r) mem 0 (absolute_pos_of_log_cdb + crc_size)
      → AgreeIn (committed r) mem (get_log_metadata_pos self.cdb) (get_log_crc_end self.cdb)
      → ((pos : ℕ)
          → pos < self.info.log_length
          → mem.at (log_addr self.info pos) ≡ get_or s.log pos 0)
      → recover_state m mem log_id ≡ some (drop_pending_appends s)
  recover_if_agrees mem len agree active bytes =
      recover_state_consistent m mem self.cdb metadata cdb v.info ∙ ap some state
    where
      metadata : MetadataConsistent m mem log_id self.cdb self.info
      metadata =
          MetadataConsistent-agree m (committed r) mem self.cdb (sym len)
            ((λ k p q. agree k p (omega arith)), active) v.metadata

      cdb : deserialize_and_check_log_cdb mem ≡ some self.cdb
      cdb = cdb_agree (committed r) mem agree v.cdb

      log : extract_log mem self.info.log_area_len self.info.head self.info.log_length ≡ s.log
      log = extract_log_of_bytes mem s.log v.info v.describes.log_len bytes

      state :
          (record {
            head = self.info.head;
            log = extract_log mem self.info.log_area_len self.info.head self.info.log_length;
            pending = [];
            capacity = self.info.log_area_len;
          })
          ≡ drop_pending_appends s
      state = λ i. record {
        head = sym v.describes.head i;
        log = log i;
        pending = [];
        capacity = sym v.describes.capacity i;
      }

  -- Contents that are what is committed recover to it.
  pub recover_committed :
      (mem : Mem)
      → mem.len ≡ r.len
      → ((a : ℕ) → a < r.len → mem.at a ≡ (committed r).at a)
      → recover_state m mem log_id ≡ some (drop_pending_appends s)
  recover_committed mem len same =
      recover_if_agrees mem len (λ k p q. sym (same k (omega (arith, v.metadata.fits))))
        (λ k p q. sym (same k (ground (arith, v.metadata.fits))))
        (λ pos h.
          same (log_addr self.info pos) (
            omega (
              arith,
              log_addr_bounds pos v.info (omega (arith, v.info.log_le, v.info.pending_le)),
              v.metadata.fits,
            ))
          ∙ v.area.log_bytes pos h)

  -- Whatever the region of a consistent log crashes as, it recovers to the abstract state of the log
  -- without the pending appends (`lemma_invariants_imply_crash_recover`).
  pub recover_after_crash :
      (mem : Mem) → CanCrashAs r mem → recover_state m mem log_id ≡ some (drop_pending_appends s)
  recover_after_crash mem crash =
      recover_if_agrees mem crash.same_len
        (λ k p q.
          sym
            (crash_at_settled r mem k crash (omega (arith, v.metadata.fits)) (v.low_settled k p q)))
        (λ k p q. sym (
          crash_at_settled r mem k crash (ground (arith, v.metadata.fits))
            (v.active_settled k p q)))
        (λ pos h.
          crash_at_settled r mem (log_addr self.info pos) crash
            (omega (
              arith,
              log_addr_bounds pos v.info (omega (arith, v.info.log_le, v.info.pending_le)),
              v.metadata.fits,
            ))
            (v.area.log_settled pos h)
          ∙ v.area.log_bytes pos h)
