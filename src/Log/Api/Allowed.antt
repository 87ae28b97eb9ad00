-- ===== src/Log/Api/Allowed.antt =====
-- logimpl_t.rs: the writes of every call meet what `write` of wrpm_t.rs requires.
use verified_storage.Base.{
  ℕ, ◌≤◌, ◌<◌, inl, inr, length, List, arith, u64_mod, ltb, sub128, eq_or_ne, Bool-cases,
}
use verified_storage.Pmem.Medium.{Medium}
use verified_storage.Pmem.Wrpm
use verified_storage.Pmem.Wrpm.{Wrpm, AllAllowed}
use verified_storage.Log.Layout.{absolute_pos_of_log_area}
use verified_storage.Log.Spec.{AbstractLogState}
use verified_storage.Log.Impl
use verified_storage.Log.Inv.{IsValid}
use verified_storage.Log.Allowed.{update_log_metadata_allowed, append_bytes_allowed}
use verified_storage.Log.Append.Call.{
  call_with_room, call_of_nothing, lengths, area_small, tentatively_append_without_room,
}
use verified_storage.Log.Api.{LogImpl, tentatively_append, commit, advance_head}
use verified_storage.Log.Api.System.{
  Call, to_tentatively_append, to_commit, to_advance_head, Fits, run_call,
}
use verified_storage.Log.Api.Called.{room_or_not}

module _ (m : Medium) (self : LogImpl) {s : AbstractLogState}
    (v : IsValid m self.wrpm_region.pm_region self.log_id self.untrusted_log_impl s) where
  large : absolute_pos_of_log_area ≤ self.wrpm_region.pm_region.len
  large = omega (arith, v.metadata.fits)

  append_allowed :
      (bytes : List ℕ)
      → length bytes < u64_mod
      → AllAllowed (run_call m self (to_tentatively_append bytes)).wrpm_region.writes
  unfolding run_call tentatively_append
  append_allowed bytes small = elim (room_or_not s (length bytes)) [
    | inr full ↦
        (let (available, e, _, _) =
            tentatively_append_without_room (Wrpm.new self.wrpm_region.pm_region) bytes v small
              full in
          rw e tt)
    | inl room ↦ elim (eq_or_ne (length bytes) 0) [
      | inl e ↦ rw (call_of_nothing (Wrpm.new self.wrpm_region.pm_region) v bytes small room e) tt
      | inr ne ↦ rw (call_with_room (Wrpm.new self.wrpm_region.pm_region) v bytes small room ne) (
          append_bytes_allowed (Wrpm.new self.wrpm_region.pm_region) bytes v
            (omega (
              arith,
              lengths (Wrpm.new self.wrpm_region.pm_region) v bytes small,
              v.describes.capacity,
            ))
            (omega (
              arith,
              lengths (Wrpm.new self.wrpm_region.pm_region) v bytes small,
              v.describes.head,
            ))
            tt (area_small (Wrpm.new self.wrpm_region.pm_region) v bytes small))
    ]
  ]

  commit_allowed : AllAllowed (run_call m self to_commit).wrpm_region.writes
  unfolding run_call commit Impl.commit
  commit_allowed =
      update_log_metadata_allowed m _ (Wrpm.new self.wrpm_region.pm_region) v.metadata_settled large
        tt

  advance_allowed :
      (new_head : ℕ) → AllAllowed (run_call m self (to_advance_head new_head)).wrpm_region.writes
  unfolding run_call advance_head Impl.advance_head
  advance_allowed new_head = elim (Bool-cases (ltb new_head self.untrusted_log_impl.info.head)) [
    | inl before ↦ rw before tt
    | inr after ↦
        elim (Bool-cases (
          ltb self.untrusted_log_impl.info.log_length
            (sub128 new_head self.untrusted_log_impl.info.head))) [
              | inl beyond ↦ rw (after, beyond) tt
              | inr within ↦
                  rw (after, within)
                    (update_log_metadata_allowed m _ (Wrpm.new self.wrpm_region.pm_region)
                      v.metadata_settled large tt)
            ]
  ]

-- Every write that a call makes on a valid log, on every branch, is inside the region and goes where no write is
-- outstanding.
pub call_writes_allowed :
    (m : Medium) (self : LogImpl) {s : AbstractLogState} (c : Call)
    → IsValid m self.wrpm_region.pm_region self.log_id self.untrusted_log_impl s
    → Fits c
    → AllAllowed (run_call m self c).wrpm_region.writes
call_writes_allowed m self (to_tentatively_append bytes) v h = append_allowed m self v bytes h
call_writes_allowed m self to_commit v h = commit_allowed m self v
call_writes_allowed m self (to_advance_head new_head) v h = advance_allowed m self v new_head
