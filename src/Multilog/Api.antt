-- ===== src/Multilog/Api.antt =====
-- multilogimpl_t.rs: the methods that a client of the multilog calls. Each hands a new permission to
-- the method of `UntrustedMultiLogImpl` that it wraps, so the history of the regions begins anew: it
-- holds the writes and flushes of the last call.
pub mod System
pub mod Called
pub mod Refine
pub mod Allowed
pub mod Durable
use verified_storage.Base.{ℕ, List, Outcome, ok, err, ◌>>=◌}
use verified_storage.Pmem.View.{Region}
use verified_storage.Pmem.Medium.{Medium}
use verified_storage.Pmem.Regions
use verified_storage.Pmem.Regions.{WrpmRegions}
use verified_storage.Multilog.Impl
use verified_storage.Multilog.Impl.Err.{MultiLogErr}
use verified_storage.Multilog.Setup
use verified_storage.Multilog.Start

pub record MultiLogImpl : Type 0 where
  pub untrusted_log_impl : Impl.MultiLogImpl
  pub multilog_id : ℕ
  pub wrpm_regions : WrpmRegions

-- What a method of the wrapped multilog leaves, as a `MultiLogImpl` again.
abbrev wrap : {A : Type 0} → ℕ → Impl.Ran A → Outcome MultiLogErr A × MultiLogImpl
wrap multilog_id (result, self', ws') =
    (result, record { untrusted_log_impl = self'; multilog_id = multilog_id; wrpm_regions = ws' })

abbrev renew : MultiLogImpl → WrpmRegions
renew self = Regions.new self.wrpm_regions.pm_regions

-- `generate_fresh_multilog_id` calls a random generator, whose result is an argument here.
unfoldable pub setup : Medium → List Region → ℕ → Outcome MultiLogErr (List ℕ × ℕ) × List Region
setup m pm_regions multilog_id =
    let (result, rs') = Setup.setup m pm_regions multilog_id in
    ((do capacities ← result; ok (capacities, multilog_id)), rs')

unfoldable pub start : Medium → List Region → ℕ → Outcome MultiLogErr MultiLogImpl
start m pm_regions multilog_id =
    let (result, ws') = Start.start m (Regions.new pm_regions) multilog_id in
    do
      untrusted ← result
      ok (record { untrusted_log_impl = untrusted; multilog_id = multilog_id; wrpm_regions = ws' })

unfoldable pub tentatively_append : MultiLogImpl → ℕ → List ℕ → Outcome MultiLogErr ℕ × MultiLogImpl
tentatively_append self which_log bytes =
    wrap self.multilog_id
      (Impl.tentatively_append self.untrusted_log_impl (renew self) which_log bytes)

unfoldable pub commit : Medium → MultiLogImpl → Outcome MultiLogErr (Unit {0}) × MultiLogImpl
commit m self = wrap self.multilog_id (Impl.commit m self.untrusted_log_impl (renew self))

unfoldable pub advance_head :
    Medium → MultiLogImpl → ℕ → ℕ → Outcome MultiLogErr (Unit {0}) × MultiLogImpl
advance_head m self which_log new_head =
    wrap self.multilog_id
      (Impl.advance_head m self.untrusted_log_impl (renew self) which_log new_head)

unfoldable pub read : Medium → MultiLogImpl → ℕ → ℕ → ℕ → Outcome MultiLogErr (List ℕ)
read m self which_log pos len =
    Impl.read m self.untrusted_log_impl self.wrpm_regions which_log pos len

unfoldable pub get_head_tail_and_capacity : MultiLogImpl → ℕ → Outcome MultiLogErr (ℕ × ℕ × ℕ)
get_head_tail_and_capacity self which_log =
    Impl.get_head_tail_and_capacity self.untrusted_log_impl self.wrpm_regions which_log
