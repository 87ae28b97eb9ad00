-- ===== src/Log/Read/Refused.antt =====
-- `read` of logimpl_v.rs outside the log, and `get_head_tail_and_capacity`.
use verified_storage.Base.{ℕ, ◌+◌, ◌≤◌, ◌<◌, ◌≡◌, length, arith, ok, err, u128_max}
use verified_storage.Pmem.View.{Region}
use verified_storage.Pmem.Medium.{Medium}
use verified_storage.Pmem.Wrpm.{Wrpm}
use verified_storage.Log.Spec.{AbstractLogState}
use verified_storage.Log.Impl.Err.{LogErr, cant_read_before_head, cant_read_past_tail}
use verified_storage.Log.Impl.{LogImpl, read, get_head_tail_and_capacity}
use verified_storage.Log.Inv.{IsValid}
use verified_storage.Log.Read.{area_small}

-- A read before the head fails with the head.
read_before_head :
    {m : Medium} {log_id : ℕ} {self : LogImpl} {s : AbstractLogState} (w : Wrpm) (pos len : ℕ)
    → IsValid m w.pm_region log_id self s
    → pos < s.head
    → read m self w pos len ≡ err (cant_read_before_head s.head)
unfolding read
read_before_head w pos len v h = ground (arith, v.describes.head)

-- A read past the tail fails with the tail.
read_past_tail :
    {m : Medium} {log_id : ℕ} {self : LogImpl} {s : AbstractLogState} (w : Wrpm) (pos len : ℕ)
    → IsValid m w.pm_region log_id self s
    → s.head ≤ pos
    → pos + len ≤ u128_max
    → s.head + length s.log < pos + len
    → read m self w pos len ≡ err (cant_read_past_tail (s.head + length s.log))
unfolding read
read_past_tail w pos len v lo range h = ground (
  arith,
  area_small w v,
  v.describes.head,
  v.describes.log_len,
  v.info.tail_fits,
  v.info.log_le,
  v.info.pending_le,
)

-- `get_head_tail_and_capacity` returns those of the abstract log.
get_head_tail_and_capacity_lem :
    {m : Medium} {log_id : ℕ} {self : LogImpl} {s : AbstractLogState} (r : Region)
    → IsValid m r log_id self s
    → get_head_tail_and_capacity self ≡ ok (s.head, s.head + length s.log, s.capacity)
unfolding get_head_tail_and_capacity
get_head_tail_and_capacity_lem r v = ground (
  arith, v.describes.head, v.describes.log_len, v.describes.capacity, v.info.tail_fits,
  v.info.log_le,
)

-- Why a read is refused, and with which error.
pub data ReadRefusal (s : AbstractLogState) (pos len : ℕ) : LogErr → Type 0 where
  reads_before_head : pos < s.head → ReadRefusal s pos len (cant_read_before_head s.head)
  reads_past_tail :
      s.head ≤ pos
      → s.head + length s.log < pos + len
      → ReadRefusal s pos len (cant_read_past_tail (s.head + length s.log))

-- A read before the head fails with the head, and a read from the head on that ends past the tail
-- fails with the tail.
pub read_refused :
    {m : Medium} {log_id : ℕ} {self : LogImpl} {s : AbstractLogState} {e : LogErr} (w : Wrpm)
    (pos len : ℕ)
    → IsValid m w.pm_region log_id self s
    → pos + len ≤ u128_max
    → ReadRefusal s pos len e
    → read m self w pos len ≡ err e
read_refused w pos len v range (reads_before_head h) = read_before_head w pos len v h
read_refused w pos len v range (reads_past_tail lo h) = read_past_tail w pos len v lo range h
