-- ===== src/Multilog/Read.antt =====
-- `read` and `get_head_tail_and_capacity` of multilogimpl_v.rs, and an index that is no log's.
use verified_storage.Base.{
  ℕ, ◌+◌, ◌-◌, ◌≤◌, ◌<◌, ◌≡◌, ap, ◌∙◌, true, length, arith, List, ok, err, Outcome, u64_mod,
  u128_max,
}
use verified_storage.Pmem.Medium.{Medium, IsSound}
use verified_storage.Pmem.Regions.{WrpmRegions, region_at, in_region, in_region-IsSound}
use verified_storage.Pmem.Wrpm
use verified_storage.Log.Layout.{absolute_pos_of_log_area}
use verified_storage.Log.Impl.Err.{LogErr}
use verified_storage.Log.Impl.Err as LogErrors
use verified_storage.Log.Impl.{LogImpl}
use verified_storage.Log.Impl as LogImpl
use verified_storage.Log.Read.{observe_log, observe_log_impervious}
use verified_storage.Log.Read.Area.{read_of_area}
use verified_storage.Multilog.Spec.{AbstractMultiLogState, log_at, num_logs}
use verified_storage.Multilog.Spec
use verified_storage.Multilog.Impl.Err.{MultiLogErr, invalid_log_index}
use verified_storage.Multilog.Impl.Err as MultiLogErrors
use verified_storage.Multilog.Impl.{
  MultiLogImpl, info_at, read, get_head_tail_and_capacity, tentatively_append, advance_head,
}
use verified_storage.Multilog.Inv.{RegionConsistent, IsValid}

-- The error of a multilog for an error of one of its logs.
abbrev pub of_log_err : ℕ → LogErr → MultiLogErr
of_log_err k (LogErrors.insufficient_space_for_setup n) =
    MultiLogErrors.insufficient_space_for_setup k n
of_log_err k (LogErrors.start_failed_due_to_log_id_mismatch a b) =
    MultiLogErrors.start_failed_due_to_multilog_id_mismatch k a b
of_log_err k (LogErrors.start_failed_due_to_region_size_mismatch a b) =
    MultiLogErrors.start_failed_due_to_region_size_mismatch k a b
of_log_err k (LogErrors.start_failed_due_to_program_version_number_unsupported a b) =
    MultiLogErrors.start_failed_due_to_program_version_number_unsupported k a b
of_log_err k LogErrors.start_failed_due_to_invalid_memory_contents =
    MultiLogErrors.start_failed_due_to_invalid_memory_contents k
of_log_err k LogErrors.crc_mismatch = MultiLogErrors.crc_mismatch
of_log_err k (LogErrors.insufficient_space_for_append n) =
    MultiLogErrors.insufficient_space_for_append n
of_log_err k (LogErrors.cant_read_before_head n) = MultiLogErrors.cant_read_before_head n
of_log_err k (LogErrors.cant_read_past_tail n) = MultiLogErrors.cant_read_past_tail n
of_log_err k (LogErrors.cant_advance_head_position_before_head n) =
    MultiLogErrors.cant_advance_head_position_before_head n
of_log_err k (LogErrors.cant_advance_head_position_beyond_tail n) =
    MultiLogErrors.cant_advance_head_position_beyond_tail n

abbrev pub of_log_result : {A : Type 0} → ℕ → Outcome LogErr A → Outcome MultiLogErr A
of_log_result k (ok x) = ok x
of_log_result k (err e) = err (of_log_err k e)

-- One of the logs, as a log of its own.
abbrev pub single : MultiLogImpl → ℕ → LogImpl
single self k = record { cdb = self.cdb; info = info_at self.infos k }

-- `read` of one of the logs is `read` of it as a log of its own in its region.
read_as_single :
    (m : Medium) (self : MultiLogImpl) (ws : WrpmRegions) (which_log pos len : ℕ)
    → which_log < self.num_logs
    → read m self ws which_log pos len
      ≡ of_log_result which_log (
          LogImpl.read
            (in_region m which_log)
            (single self which_log)
            (Wrpm.new (region_at ws.pm_regions which_log))
            pos
            len)
unfolding read LogImpl.read
read_as_single m self ws which_log pos len h = ground arith

module _ {m : Medium} {multilog_id : ℕ} {self : MultiLogImpl} {s : AbstractMultiLogState}
    (ws : WrpmRegions) (v : IsValid m ws.pm_regions multilog_id self s) (k : ℕ)
    (lt : k < num_logs s) where
  at :
      RegionConsistent m
        (region_at ws.pm_regions k)
        (record { multilog_id = multilog_id; num_logs = num_logs s; which_log = k })
        self.cdb
        (info_at self.infos k)
        (log_at s k)
  at = v.consistent.consistent.each k lt

  area_small : absolute_pos_of_log_area + (info_at self.infos k).log_area_len < u64_mod
  area_small = omega (arith, at.metadata.fits, at.region_fits)

-- A read of a part of one of the logs succeeds. Its bytes are those of the abstract log, each as it
-- is found at the address of its position in the region of that log.
pub multilog_read_within :
    {m : Medium} {multilog_id : ℕ} {self : MultiLogImpl} {s : AbstractMultiLogState}
    (ws : WrpmRegions) (which_log pos len : ℕ)
    → IsValid m ws.pm_regions multilog_id self s
    → which_log < num_logs s
    → (log_at s which_log).head ≤ pos
    → pos + len ≤ (log_at s which_log).head + length (log_at s which_log).log
    → read m self ws which_log pos len
      ≡ ok (
          observe_log
            (in_region m which_log)
            (info_at self.infos which_log)
            (pos - (log_at s which_log).head)
            (Spec.read s which_log pos len))
multilog_read_within {m} {self = self} ws which_log pos len v lt lo hi =
    let c = at ws v which_log lt in
    read_as_single m self ws which_log pos len (omega (arith, v.num_logs_is))
    ∙ ap (of_log_result which_log) (
        read_of_area (in_region m which_log) (single self which_log)
          (Wrpm.new (region_at ws.pm_regions which_log)) pos len c.info_valid c.describes c.area
          (area_small ws v which_log lt) lo hi)

-- On a medium impervious to corruption a read of a part of one of the logs returns it.
pub multilog_read_impervious :
    {m : Medium} {multilog_id : ℕ} {self : MultiLogImpl} {s : AbstractMultiLogState}
    (ws : WrpmRegions) (which_log pos len : ℕ)
    → IsSound m
    → m.impervious_to_corruption ≡ true
    → IsValid m ws.pm_regions multilog_id self s
    → which_log < num_logs s
    → (log_at s which_log).head ≤ pos
    → pos + len ≤ (log_at s which_log).head + length (log_at s which_log).log
    → read m self ws which_log pos len ≡ ok (Spec.read s which_log pos len)
multilog_read_impervious {self = self} {s} ws which_log pos len sound h v lt lo hi =
    multilog_read_within ws which_log pos len v lt lo hi
    ∙ ap ok (
        observe_log_impervious (info_at self.infos which_log) (in_region-IsSound which_log sound) h
          (pos - (log_at s which_log).head) (Spec.read s which_log pos len))

-- Why a read is refused, and with which error.
pub data ReadRefusal (s : AbstractMultiLogState) (which_log pos len : ℕ)
    : MultiLogErr → Type 0 where
  reads_no_log : num_logs s ≤ which_log → ReadRefusal s which_log pos len invalid_log_index
  reads_before_head :
      which_log < num_logs s
      → pos < (log_at s which_log).head
      → ReadRefusal s which_log pos len
          (MultiLogErrors.cant_read_before_head (log_at s which_log).head)
  reads_past_tail :
      which_log < num_logs s
      → (log_at s which_log).head ≤ pos
      → (log_at s which_log).head + length (log_at s which_log).log < pos + len
      → ReadRefusal s which_log pos len (
          MultiLogErrors.cant_read_past_tail
            ((log_at s which_log).head + length (log_at s which_log).log))

-- A read at an index that is no log's is refused, a read before the head of the log fails with that
-- head, and a read from the head on that ends past the tail fails with that tail.
pub multilog_read_refused :
    {m : Medium} {multilog_id : ℕ} {self : MultiLogImpl} {s : AbstractMultiLogState}
    (ws : WrpmRegions) (which_log pos len : ℕ) {e : MultiLogErr}
    → IsValid m ws.pm_regions multilog_id self s
    → pos + len ≤ u128_max
    → ReadRefusal s which_log pos len e
    → read m self ws which_log pos len ≡ err e
unfolding read
multilog_read_refused ws which_log pos len v range (reads_no_log h) = ground (arith, v.num_logs_is)
multilog_read_refused ws which_log pos len v range (reads_before_head lt h) =
    let c = at ws v which_log lt in ground (arith, v.num_logs_is, c.describes.head)
multilog_read_refused ws which_log pos len v range (reads_past_tail lt lo h) =
    let c = at ws v which_log lt in
    let small = area_small ws v which_log lt in
    ground (
      arith, small, v.num_logs_is, c.describes.head, c.describes.log_len, c.info_valid.tail_fits,
      c.info_valid.log_le, c.info_valid.pending_le,
    )

-- `get_head_tail_and_capacity` of one of the logs returns those of the abstract log.
multilog_get_head_tail_and_capacity_lem :
    {m : Medium} {multilog_id : ℕ} {self : MultiLogImpl} {s : AbstractMultiLogState}
    (ws : WrpmRegions) (which_log : ℕ)
    → IsValid m ws.pm_regions multilog_id self s
    → which_log < num_logs s
    → let log = log_at s which_log in
      get_head_tail_and_capacity self ws which_log
      ≡ ok (log.head, log.head + length log.log, log.capacity)
unfolding get_head_tail_and_capacity
multilog_get_head_tail_and_capacity_lem ws which_log v lt =
    let c = at ws v which_log lt in
    ground (
      arith, v.num_logs_is, c.describes.head, c.describes.log_len, c.describes.capacity,
      c.info_valid.tail_fits, c.info_valid.log_le,
    )

-- An index that is not below the number of logs is refused by every operation that takes one, and
-- those that change the multilog leave it and the regions as they were.
pub invalid_index_refused :
    {m : Medium} {multilog_id : ℕ} {self : MultiLogImpl} {s : AbstractMultiLogState}
    (ws : WrpmRegions) (which_log : ℕ) (bytes : List ℕ) (new_head pos len : ℕ)
    → IsValid m ws.pm_regions multilog_id self s
    → num_logs s ≤ which_log
    → (tentatively_append self ws which_log bytes ≡ (err invalid_log_index, self, ws))
      × (advance_head m self ws which_log new_head ≡ (err invalid_log_index, self, ws))
      × (read m self ws which_log pos len ≡ err invalid_log_index)
      × (get_head_tail_and_capacity self ws which_log ≡ err invalid_log_index)
unfolding tentatively_append advance_head read get_head_tail_and_capacity
invalid_index_refused ws which_log bytes new_head pos len v h = (
  ground (arith, v.num_logs_is),
  ground (arith, v.num_logs_is),
  ground (arith, v.num_logs_is),
  ground (arith, v.num_logs_is),
)
