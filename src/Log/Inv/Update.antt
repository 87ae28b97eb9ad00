-- ===== src/Log/Inv/Update.antt =====
-- inv_v.rs: writes to the metadata, and flushes.
use verified_storage.Base.{ℕ, ◌+◌, ◌≤◌, ◌<◌, ◌≡◌, sym, ◌∙◌, not, length, arith, List}
use verified_storage.Pmem.View.{
  Region, committed, write, write_out, committed-write, len-write, flush, len-flush, settled-flush,
  committed-flush_settled, flush_byte-flush, AgreeIn,
}
use verified_storage.Pmem.Medium.{Medium}
use verified_storage.Log.Layout.{
  absolute_pos_of_log_area, absolute_pos_of_log_cdb, crc_size, get_log_metadata_pos,
  get_log_crc_end,
}
use verified_storage.Log.Spec.{AbstractLogState}
use verified_storage.Log.Impl.{LogInfo, LogImpl}
use verified_storage.Log.Inv.{InfoValid, AreaHolds, IsConsistent, log_addr}
use verified_storage.Log.Inv.Crash.{log_addr_bounds, MetadataConsistent-agree, cdb_agree}

-- What the log area holds depends on its bytes alone.
pub AreaHolds-same :
    {r r' : Region} {info : LogInfo} {s : AbstractLogState}
    → InfoValid info
    → ((a : ℕ) → absolute_pos_of_log_area ≤ a → r'.state a ≡ r.state a)
    → AreaHolds r info s
    → AreaHolds r' info s
AreaHolds-same {r} {r'} {info} v same h = record {
  log_bytes = λ pos p. rw (at pos (omega (arith, v.log_le, v.pending_le))) (h.log_bytes pos p);
  log_settled = λ pos p. rw (at pos (omega (arith, v.log_le, v.pending_le))) (h.log_settled pos p);
  pending_bytes = λ pos p q. rw (at pos (omega (arith, v.pending_le))) (h.pending_bytes pos p q);
  free_settled = λ pos p q. rw (at pos q) (h.free_settled pos p q);
}
  where
    at :
        (pos : ℕ)
        → pos < info.log_area_len
        → r'.state (log_addr info pos) ≡ r.state (log_addr info pos)
    at pos p = same (log_addr info pos) (log_addr_bounds pos v p).0

-- The committed log and the pending appends survive a flush.
pub AreaHolds-flush :
    {r : Region} {info : LogInfo} {s : AbstractLogState}
    → AreaHolds r info s
    → AreaHolds (flush r) info s
AreaHolds-flush {r} {info} h = record {
  log_bytes = λ pos p.
      committed-flush_settled r (log_addr info pos) (h.log_settled pos p) ∙ h.log_bytes pos p;
  log_settled = λ pos p. settled-flush r (log_addr info pos);
  pending_bytes = λ pos p q. flush_byte-flush r (log_addr info pos) ∙ h.pending_bytes pos p q;
  free_settled = λ pos p q. settled-flush r (log_addr info pos);
}

module _ {m : Medium} {r : Region} {log_id : ℕ} {self : LogImpl} {s : AbstractLogState}
    (v : IsConsistent m r log_id self s) where
  -- A write to metadata that the boolean does not select keeps consistency.
  pub IsConsistent-write_unused :
      (addr : ℕ) (bytes : List ℕ)
      → get_log_metadata_pos (not self.cdb) ≤ addr
      → addr + length bytes ≤ get_log_crc_end (not self.cdb)
      → IsConsistent m (write r addr bytes) log_id self s
  IsConsistent-write_unused addr bytes lo hi = record {
    region_fits = rw len-write v.region_fits;
    low_settled = λ k p q. rw (write_out r addr bytes k (ground arith)) (v.low_settled k p q);
    active_settled = λ k p q. rw (write_out r addr bytes k (ground arith)) (v.active_settled k p q);
    cdb = rw committed-write v.cdb;
    metadata = rw committed-write v.metadata;
    info = v.info;
    describes = v.describes;
    area = AreaHolds-same v.info (λ a h. write_out r addr bytes a (ground arith)) v.area;
  }

  pub IsConsistent-flush : IsConsistent m (flush r) log_id self s
  IsConsistent-flush = record {
    region_fits = rw len-flush v.region_fits;
    low_settled = λ k p q. settled-flush r k;
    active_settled = λ k p q. settled-flush r k;
    cdb = cdb_agree (committed r) (committed (flush r)) low v.cdb;
    metadata =
        MetadataConsistent-agree m (committed r) (committed (flush r)) self.cdb (sym (len-flush r))
          ((λ k p q. low k p (omega arith)), active) v.metadata;
    info = v.info;
    describes = v.describes;
    area = AreaHolds-flush v.area;
  }
    where
      low : AgreeIn (committed r) (committed (flush r)) 0 (absolute_pos_of_log_cdb + crc_size)
      low k p q = sym (committed-flush_settled r k (v.low_settled k p q))

      active :
          AgreeIn
            (committed r)
            (committed (flush r))
            (get_log_metadata_pos self.cdb)
            (get_log_crc_end self.cdb)
      active k p q = sym (committed-flush_settled r k (v.active_settled k p q))
