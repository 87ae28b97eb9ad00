-- ===== src/Log/Api.antt =====
-- logimpl_t.rs: the methods that a client of the log calls. Each hands a new permission to the
-- method of `UntrustedLogImpl` that it wraps, so the history of the region begins anew: it holds
-- the writes and flushes of the last call.
pub mod System
pub mod Called
pub mod Refine
pub mod Allowed
pub mod Durable
use verified_storage.Base.{ℕ, List, Bool, Outcome, ok, err, ◌>>=◌}
use verified_storage.Pmem.View.{Region}
use verified_storage.Pmem.Medium.{Medium}
use verified_storage.Pmem.Wrpm
use verified_storage.Pmem.Wrpm.{Wrpm}
use verified_storage.Log.Impl
use verified_storage.Log.Impl.Err.{LogErr}
use verified_storage.Log.Setup
use verified_storage.Log.Start

pub record LogImpl : Type 0 where
  pub untrusted_log_impl : Impl.LogImpl
  pub log_id : ℕ
  pub wrpm_region : Wrpm

-- What a method of the wrapped log leaves, as a `LogImpl` again.
abbrev wrap : {A : Type 0} → ℕ → Impl.Ran A → Outcome LogErr A × LogImpl
wrap log_id (result, self', w') =
    (result, record { untrusted_log_impl = self'; log_id = log_id; wrpm_region = w' })

abbrev renew : LogImpl → Wrpm
renew self = Wrpm.new self.wrpm_region.pm_region

-- `generate_fresh_log_id` calls a random generator, whose result is an argument here.
unfoldable pub setup : Medium → Region → ℕ → Outcome LogErr (ℕ × ℕ) × Region
setup m pm_region log_id =
    let (result, r') = Setup.setup m pm_region log_id in
    ((do capacity ← result; ok (capacity, log_id)), r')

unfoldable pub start : Medium → Region → ℕ → Outcome LogErr LogImpl
start m pm_region log_id =
    let (result, w') = Start.start m (Wrpm.new pm_region) log_id in
    do
      untrusted ← result
      ok (record { untrusted_log_impl = untrusted; log_id = log_id; wrpm_region = w' })

unfoldable pub tentatively_append : LogImpl → List ℕ → Outcome LogErr ℕ × LogImpl
tentatively_append self bytes =
    wrap self.log_id (Impl.tentatively_append self.untrusted_log_impl (renew self) bytes)

unfoldable pub commit : Medium → LogImpl → Outcome LogErr (Unit {0}) × LogImpl
commit m self = wrap self.log_id (Impl.commit m self.untrusted_log_impl (renew self))

unfoldable pub advance_head : Medium → LogImpl → ℕ → Outcome LogErr (Unit {0}) × LogImpl
advance_head m self new_head =
    wrap self.log_id (Impl.advance_head m self.untrusted_log_impl (renew self) new_head)

unfoldable pub read : Medium → LogImpl → ℕ → ℕ → Outcome LogErr (List ℕ)
read m self pos len = Impl.read m self.untrusted_log_impl self.wrpm_region pos len

unfoldable pub get_head_tail_and_capacity : LogImpl → Outcome LogErr (ℕ × ℕ × ℕ)
get_head_tail_and_capacity self = Impl.get_head_tail_and_capacity self.untrusted_log_impl
