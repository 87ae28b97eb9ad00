-- ===== src/Multilog/Advance/Refused.antt =====
-- `advance_head` of multilogimpl_v.rs where it is refused.
use verified_storage.Base.{ℕ, ◌+◌, ◌≤◌, ◌<◌, ◌≡◌, length, arith, err, u128_mod}
use verified_storage.Pmem.Medium.{Medium}
use verified_storage.Pmem.Regions.{WrpmRegions}
use verified_storage.Multilog.Spec.{AbstractMultiLogState, log_at, num_logs}
use verified_storage.Multilog.Impl.Err.{
  MultiLogErr, invalid_log_index, cant_advance_head_position_before_head,
  cant_advance_head_position_beyond_tail,
}
use verified_storage.Multilog.Impl.{MultiLogImpl, advance_head}
use verified_storage.Multilog.Inv.{IsValid}
use verified_storage.Multilog.Advance.{at}

-- Why an advance is refused, and with which error.
pub data AdvanceRefusal (s : AbstractMultiLogState) (which_log new_head : ℕ)
    : MultiLogErr → Type 0 where
  advances_no_log : num_logs s ≤ which_log → AdvanceRefusal s which_log new_head invalid_log_index
  advances_before_head :
      which_log < num_logs s
      → new_head < (log_at s which_log).head
      → AdvanceRefusal s which_log new_head
          (cant_advance_head_position_before_head (log_at s which_log).head)
  advances_beyond_tail :
      which_log < num_logs s
      → (log_at s which_log).head + length (log_at s which_log).log < new_head
      → AdvanceRefusal s which_log new_head (
          cant_advance_head_position_beyond_tail
            ((log_at s which_log).head + length (log_at s which_log).log))

-- At an index that is no log's, before the head of the log, with that head, and beyond its tail, with
-- that tail in its error, `advance_head` is refused, and changes nothing.
pub multilog_advance_refused :
    {m : Medium} {multilog_id : ℕ} {self : MultiLogImpl} {s : AbstractMultiLogState}
    (ws : WrpmRegions) (which_log new_head : ℕ) {e : MultiLogErr}
    → IsValid m ws.pm_regions multilog_id self s
    → new_head < u128_mod
    → AdvanceRefusal s which_log new_head e
    → advance_head m self ws which_log new_head ≡ (err e, self, ws)
unfolding advance_head
multilog_advance_refused ws which_log new_head v range (advances_no_log h) =
    ground (arith, v.num_logs_is)
multilog_advance_refused ws which_log new_head v range (advances_before_head lt h) =
    let c = at ws v which_log lt in
    ground (arith, v.num_logs_is, c.describes.head, c.info_valid.tail_fits)
multilog_advance_refused ws which_log new_head v range (advances_beyond_tail lt h) =
    let c = at ws v which_log lt in
    ground (
      arith, v.num_logs_is, c.describes.head, c.describes.log_len, c.info_valid.tail_fits,
      c.info_valid.log_le,
    )
