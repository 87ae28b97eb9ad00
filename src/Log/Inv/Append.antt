-- ===== src/Log/Inv/Append.antt =====
-- append_v.rs: one write to the free part of the log area that does not wrap.
use verified_storage.Base.{
  ℕ, ◌+◌, ◌-◌, ◌≤◌, ◌<◌, ◌≡◌, sym, ap, ◌∙◌, ◌⊎◌, inl, inr, Bool, length, get_or, arith, u128_max,
  List, ◌++◌, length-append, get_or-append_left, get_or-append_right, lt_or_le,
}
use verified_storage.Pmem.View.{
  Region, Mem, flush_byte, write, write_in, write_out, committed-write, len-write,
}
use verified_storage.Pmem.Medium.{Medium}
use verified_storage.Log.Layout.{absolute_pos_of_log_area, relative_log_pos_to_log_area_offset}
use verified_storage.Log.Spec.{AbstractLogState, tentatively_append}
use verified_storage.Log.Impl.{LogInfo, LogImpl}
use verified_storage.Log.Inv.{
  MetadataConsistent, InfoValid, Describes, AreaHolds, IsValid, log_addr,
}

-- How many bytes fit behind the pending appends before the end of the log area.
abbrev pub max_len_without_wrapping : LogInfo → ℕ
max_len_without_wrapping info =
    info.log_area_len
    - relative_log_pos_to_log_area_offset info.log_plus_pending_length info.head_log_area_offset
        info.log_area_len

abbrev pub appended : LogInfo → ℕ → LogInfo
appended info n = record info { log_plus_pending_length = info.log_plus_pending_length + n }

-- The metadata says nothing of pending appends.
pub MetadataConsistent-appended :
    {m : Medium} {mem : Mem} {log_id : ℕ} {cdb : Bool} {info : LogInfo} (n : ℕ)
    → MetadataConsistent m mem log_id cdb info
    → MetadataConsistent m mem log_id cdb (appended info n)
MetadataConsistent-appended n h = record {
  global_crc = h.global_crc;
  region_crc = h.region_crc;
  log_crc = h.log_crc;
  program_guid = h.program_guid;
  version_number = h.version_number;
  length_of_region = h.length_of_region;
  region_size = h.region_size;
  region_log_id = h.region_log_id;
  log_area_len = h.log_area_len;
  head = h.head;
  log_length = h.log_length;
  fits = h.fits;
}

module _ {info : LogInfo} (v : InfoValid info) (n : ℕ)
    (fits : n ≤ max_len_without_wrapping info) where
  -- The positions of the piece are consecutive addresses.
  pub piece_addr :
      (pos : ℕ)
      → info.log_plus_pending_length ≤ pos
      → pos < info.log_plus_pending_length + n
      → info.log_plus_pending_length + n ≤ info.log_area_len
      → log_addr info pos
        ≡ log_addr info info.log_plus_pending_length + (pos - info.log_plus_pending_length)
  unfolding relative_log_pos_to_log_area_offset
  piece_addr pos h k space = ground arith

  -- No other position of the log area is an address of the piece.
  other_addr :
      (pos : ℕ)
      → pos < info.log_area_len
      → (pos < info.log_plus_pending_length) ⊎ (info.log_plus_pending_length + n ≤ pos)
      → info.log_plus_pending_length + n ≤ info.log_area_len
      → (log_addr info pos < log_addr info info.log_plus_pending_length)
        ⊎ (log_addr info info.log_plus_pending_length + n ≤ log_addr info pos)
  unfolding relative_log_pos_to_log_area_offset
  other_addr pos h k space = ground arith

module _ {r : Region} {info : LogInfo} {s : AbstractLogState} (v : InfoValid info)
    (d : Describes info s) (area : AreaHolds r info s) (bytes : List ℕ)
    (fits : length bytes ≤ max_len_without_wrapping info)
    (space : info.log_plus_pending_length + length bytes ≤ info.log_area_len) where
  written : Region
  written = write r (log_addr info info.log_plus_pending_length) bytes

  at_other :
      (pos : ℕ)
      → pos < info.log_area_len
      → (pos < info.log_plus_pending_length) ⊎ (info.log_plus_pending_length + length bytes ≤ pos)
      → written.state (log_addr info pos) ≡ r.state (log_addr info pos)
  unfolding written
  at_other pos h k =
      write_out r (log_addr info info.log_plus_pending_length) bytes (log_addr info pos)
        (other_addr v (length bytes) fits pos h k space)

  at_piece :
      (pos : ℕ)
      → info.log_plus_pending_length ≤ pos
      → pos < info.log_plus_pending_length + length bytes
      → flush_byte (written.state (log_addr info pos))
        ≡ get_or bytes (pos - info.log_plus_pending_length) 0
  unfolding written
  at_piece pos h k =
      rw
        (write_in r (log_addr info info.log_plus_pending_length) bytes (log_addr info pos)
          (omega (arith, e)) (omega (arith, e)))
        (ap (λ i. get_or bytes i 0) (omega (arith, e)))
    where
      e :
          log_addr info pos
          ≡ log_addr info info.log_plus_pending_length + (pos - info.log_plus_pending_length)
      e = piece_addr v (length bytes) fits pos h k space

  -- The log area holds the bytes behind the pending appends.
  pub AreaHolds-piece :
      AreaHolds
        (write r (log_addr info info.log_plus_pending_length) bytes)
        (appended info (length bytes))
        (tentatively_append s bytes)
  unfolding written
  AreaHolds-piece = record {
    log_bytes = λ pos h.
        rw (at_other pos (omega (arith, v.log_le)) (inl (omega (arith, v.log_le))))
          (area.log_bytes pos h);
    log_settled = λ pos h.
        rw (at_other pos (omega (arith, v.log_le)) (inl (omega (arith, v.log_le))))
          (area.log_settled pos h);
    pending_bytes = λ pos h k. pending pos h k (lt_or_le pos info.log_plus_pending_length);
    free_settled = λ pos h k. rw (at_other pos k (inr h)) (area.free_settled pos (omega arith) k);
  }
    where
      pending :
          (pos : ℕ)
          → info.log_length ≤ pos
          → pos < info.log_plus_pending_length + length bytes
          → (pos < info.log_plus_pending_length) ⊎ (info.log_plus_pending_length ≤ pos)
          → flush_byte (written.state (log_addr info pos))
            ≡ get_or (s.pending ++ bytes) (pos - info.log_length) 0
      pending pos h k (inl old) =
          rw
            (
              at_other pos (omega (arith, v.pending_le)) (inl old),
              get_or-append_left s.pending bytes (pos - info.log_length) 0
                  (omega (arith, d.pending_len)),
            )
            (area.pending_bytes pos h old)
      pending pos h k (inr fresh) =
          at_piece pos fresh k
          ∙ sym (
              get_or-append_right s.pending bytes (pos - info.log_length) 0
                (omega (arith, d.pending_len))
              ∙ ap (λ i. get_or bytes i 0) (omega (arith, d.pending_len, v.log_le)))

  pub appended_InfoValid :
      info.head + info.log_plus_pending_length + length bytes ≤ u128_max
      → InfoValid (appended info (length bytes))
  appended_InfoValid tail = record {
    area = v.area;
    log_le = omega (arith, v.log_le);
    pending_le = space;
    offset = v.offset;
    tail_fits = omega arith;
  }

  pub appended-Describes : Describes (appended info (length bytes)) (tentatively_append s bytes)
  appended-Describes = record {
    log_len = d.log_len;
    pending_len = omega (arith, length-append s.pending bytes, d.pending_len, v.log_le);
    head = d.head;
    capacity = d.capacity;
  }

module _ {m : Medium} {r : Region} {log_id : ℕ} {self : LogImpl} {s : AbstractLogState}
    (v : IsValid m r log_id self s) (bytes : List ℕ)
    (fits : length bytes ≤ max_len_without_wrapping self.info)
    (space : self.info.log_plus_pending_length + length bytes ≤ self.info.log_area_len) where
  -- The write extends the pending appends by the bytes (`lemma_tentatively_append`).
  pub IsValid-append_piece :
      self.info.head + self.info.log_plus_pending_length + length bytes ≤ u128_max
      → IsValid m
          (write r (log_addr self.info self.info.log_plus_pending_length) bytes)
          log_id
          (record self { info = appended self.info (length bytes) })
          (tentatively_append s bytes)
  unfolding written
  IsValid-append_piece tail = record {
    metadata_settled = λ k p q. rw (low k q) (v.metadata_settled k p q);
    consistent = record {
      region_fits = rw len-write v.region_fits;
      low_settled = λ k p q. rw (low k (omega arith)) (v.low_settled k p q);
      active_settled = λ k p q. rw (low k (ground arith)) (v.active_settled k p q);
      cdb = rw committed-write v.cdb;
      metadata = rw committed-write (MetadataConsistent-appended (length bytes) v.metadata);
      info = appended_InfoValid v.info v.describes v.area bytes fits space tail;
      describes = appended-Describes v.info v.describes v.area bytes fits space;
      area = AreaHolds-piece v.info v.describes v.area bytes fits space;
    };
  }
    where
      low :
          (k : ℕ)
          → k < absolute_pos_of_log_area
          → (write r (log_addr self.info self.info.log_plus_pending_length) bytes).state k
            ≡ r.state k
      low k q =
          write_out r (log_addr self.info self.info.log_plus_pending_length) bytes k
            (inl (omega arith))
