-- ===== src/Log/Advance/Refused.antt =====
-- `advance_head` of logimpl_v.rs outside the log.
use verified_storage.Base.{ℕ, ◌+◌, ◌<◌, ◌≡◌, length, arith, err, u128_mod}
use verified_storage.Pmem.Medium.{Medium}
use verified_storage.Pmem.Wrpm.{Wrpm}
use verified_storage.Log.Spec.{AbstractLogState}
use verified_storage.Log.Impl.Err.{
  LogErr, cant_advance_head_position_before_head, cant_advance_head_position_beyond_tail,
}
use verified_storage.Log.Impl.{LogImpl, advance_head}
use verified_storage.Log.Inv.{IsValid}

-- Before the head `advance_head` changes nothing and returns the head in its error.
pub advance_head_before_head :
    {m : Medium} {log_id : ℕ} {self : LogImpl} {s : AbstractLogState} (w : Wrpm) (new_head : ℕ)
    → IsValid m w.pm_region log_id self s
    → new_head < s.head
    → advance_head m self w new_head
      ≡ (err (cant_advance_head_position_before_head s.head), self, w)
unfolding advance_head
advance_head_before_head w new_head v h = ground (arith, v.describes.head, v.info.tail_fits)

-- Beyond the tail `advance_head` changes nothing and returns the tail in its error.
pub advance_head_beyond_tail :
    {m : Medium} {log_id : ℕ} {self : LogImpl} {s : AbstractLogState} (w : Wrpm) (new_head : ℕ)
    → IsValid m w.pm_region log_id self s
    → new_head < u128_mod
    → s.head + length s.log < new_head
    → advance_head m self w new_head
      ≡ (err (cant_advance_head_position_beyond_tail (s.head + length s.log)), self, w)
unfolding advance_head
advance_head_beyond_tail w new_head v range h =
    ground (arith, v.describes.head, v.describes.log_len, v.info.tail_fits, v.info.log_le)

-- Why an advance is refused, and with which error.
pub data AdvanceRefusal (s : AbstractLogState) (new_head : ℕ) : LogErr → Type 0 where
  advances_before_head :
      new_head < s.head → AdvanceRefusal s new_head (cant_advance_head_position_before_head s.head)
  advances_beyond_tail :
      s.head + length s.log < new_head
      → AdvanceRefusal s new_head (cant_advance_head_position_beyond_tail (s.head + length s.log))

-- Before the head, with the head, and beyond the tail, with the tail in its error, `advance_head` is
-- refused, and changes nothing.
pub advance_head_refused :
    {m : Medium} {log_id : ℕ} {self : LogImpl} {s : AbstractLogState} {e : LogErr} (w : Wrpm)
    (new_head : ℕ)
    → IsValid m w.pm_region log_id self s
    → new_head < u128_mod
    → AdvanceRefusal s new_head e
    → advance_head m self w new_head ≡ (err e, self, w)
advance_head_refused w new_head v range (advances_before_head h) =
    advance_head_before_head w new_head v h
advance_head_refused w new_head v range (advances_beyond_tail h) =
    advance_head_beyond_tail w new_head v range h
