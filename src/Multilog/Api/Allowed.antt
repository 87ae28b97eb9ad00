-- ===== src/Multilog/Api/Allowed.antt =====
-- multilogimpl_t.rs: the writes of every call meet what `write` of wrpm_t.rs requires.
use verified_storage.Base.{
  ℕ, ◌<◌, ◌≡◌, ◌∙◌, refl, sym, inl, inr, length, List, arith, u64_mod, leb, ltb, sub128, eq_or_ne,
  Bool-cases, lt_or_le,
}
use verified_storage.Pmem.Medium.{Medium}
use verified_storage.Pmem.Regions
use verified_storage.Pmem.Regions.{WrpmRegions, AllAllowed, region_at}
use verified_storage.Log.Api.Called.{room_or_not}
use verified_storage.Multilog.Spec.{AbstractMultiLogState, log_at, num_logs}
use verified_storage.Multilog.Impl
use verified_storage.Multilog.Impl.{info_at}
use verified_storage.Multilog.Inv.{IsValid}
use verified_storage.Multilog.Allowed.{update_log_metadata_allowed}
use verified_storage.Multilog.Append.Allowed.{append_bytes_allowed}
use verified_storage.Multilog.Append.Call.{
  call_with_room, call_of_nothing, lengths, area_small, at, multilog_append_without_room,
}
use verified_storage.Multilog.Read.{invalid_index_refused}
use verified_storage.Multilog.Api.{MultiLogImpl, tentatively_append, commit, advance_head}
use verified_storage.Multilog.Api.System.{
  Call, to_tentatively_append, to_commit, to_advance_head, Fits, run_call,
}

module _ (m : Medium) (self : MultiLogImpl) {s : AbstractMultiLogState}
    (v : IsValid m self.wrpm_regions.pm_regions self.multilog_id self.untrusted_log_impl s) where
  ws : WrpmRegions
  ws = Regions.new self.wrpm_regions.pm_regions

  same_count : num_logs s ≡ length self.wrpm_regions.pm_regions
  same_count = sym v.consistent.consistent.regions_len

  -- The update of the metadata, whatever the volatile state of the logs is by then.
  update_allowed :
      (self' : Impl.MultiLogImpl)
      → self'.num_logs ≡ self.untrusted_log_impl.num_logs
      → let (_, ws') =
          Impl.update_log_metadata m self' (Regions.new self.wrpm_regions.pm_regions) in
        AllAllowed ws'.writes
  update_allowed self' e =
      update_log_metadata_allowed m self' (Regions.new self.wrpm_regions.pm_regions)
        (omega (arith, same_count, v.consistent.some_logs)) (e ∙ v.num_logs_is ∙ same_count)
        v.metadata_settled
        (λ i lt.
          omega (arith, (v.consistent.consistent.each i (omega (arith, same_count))).metadata.fits))
        tt

  append_allowed :
      (which_log : ℕ) (bytes : List ℕ)
      → length bytes < u64_mod
      → AllAllowed (run_call m self (to_tentatively_append which_log bytes)).wrpm_regions.writes
  unfolding run_call tentatively_append ws
  append_allowed which_log bytes small = elim (lt_or_le which_log (num_logs s)) [
    | inr invalid ↦ rw ((invalid_index_refused {m = m} ws which_log bytes 0 0 0 v invalid).0) tt
    | inl lt ↦ elim (room_or_not (log_at s which_log) (length bytes)) [
      | inr full ↦
          (let (available, e, _, _) =
              multilog_append_without_room ws which_log bytes v lt small full in
            rw e tt)
      | inl room ↦ elim (eq_or_ne (length bytes) 0) [
        | inl e ↦ rw (call_of_nothing ws v which_log lt bytes small room e) tt
        | inr ne ↦ rw (call_with_room ws v which_log lt bytes small room ne) (
            let c = at ws v which_log lt bytes small in
            let len = lengths ws v which_log lt bytes small in
            append_bytes_allowed ws which_log bytes (omega (arith, same_count)) c
              (omega (arith, len, c.describes.capacity)) (omega (arith, len, c.describes.head)) tt
              (area_small ws v which_log lt bytes small))
      ]
    ]
  ]

  commit_allowed : AllAllowed (run_call m self to_commit).wrpm_regions.writes
  unfolding run_call commit Impl.commit
  commit_allowed = update_allowed _ refl

  advance_allowed :
      (which_log new_head : ℕ)
      → AllAllowed (run_call m self (to_advance_head which_log new_head)).wrpm_regions.writes
  unfolding run_call advance_head Impl.advance_head
  advance_allowed which_log new_head =
      elim (Bool-cases (leb self.untrusted_log_impl.num_logs which_log)) [
        | inl invalid ↦ rw invalid tt
        | inr valid ↦
            elim (Bool-cases
              (ltb new_head (info_at self.untrusted_log_impl.infos which_log).head)) [
                | inl before ↦ rw (valid, before) tt
                | inr after ↦
                    elim (Bool-cases (
                      ltb (info_at self.untrusted_log_impl.infos which_log).log_length
                        (sub128 new_head (info_at self.untrusted_log_impl.infos which_log).head))) [
                          | inl beyond ↦ rw (valid, after, beyond) tt
                          | inr within ↦ rw (valid, after, within) (update_allowed _ refl)
                        ]
              ]
      ]

-- Every write that a call makes on a valid multilog, on every branch, goes to one of the regions, is
-- inside it, and goes where no write is outstanding.
pub multilog_call_writes_allowed :
    (m : Medium) (self : MultiLogImpl) {s : AbstractMultiLogState} (c : Call)
    → IsValid m self.wrpm_regions.pm_regions self.multilog_id self.untrusted_log_impl s
    → Fits c
    → AllAllowed (run_call m self c).wrpm_regions.writes
multilog_call_writes_allowed m self (to_tentatively_append which_log bytes) v h =
    append_allowed m self v which_log bytes h
multilog_call_writes_allowed m self to_commit v h = commit_allowed m self v
multilog_call_writes_allowed m self (to_advance_head which_log new_head) v h =
    advance_allowed m self v which_log new_head
