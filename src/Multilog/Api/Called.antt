-- ===== src/Multilog/Api/Called.antt =====
-- multilogimpl_t.rs: what one call does, as a step of the abstract multilog.
use mathlib.Core.Path.{subst}
use verified_storage.Base.{
  ℕ, ◌+◌, ◌<◌, ◌≡◌, refl, sym, ap, err, inl, inr, List, [], ◌∷◌, length, some, u64_mod, u128_mod,
  lt_or_le,
}
use verified_storage.Pmem.View.{Region, Mem}
use verified_storage.Pmem.Medium.{Medium, IsSound}
use verified_storage.Pmem.Regions
use verified_storage.Pmem.Regions.{AllOnlyCrashIn}
use verified_storage.Log.Api.Called.{room_or_not}
use verified_storage.Multilog.Spec.{AbstractMultiLogState, log_at, num_logs, drop_pending_appends}
use verified_storage.Multilog.Spec
use verified_storage.Multilog.Recover.{recover_all}
use verified_storage.Multilog.Inv.{IsValid}
use verified_storage.Multilog.Append.Call.{multilog_append_with_room, multilog_append_without_room}
use verified_storage.Multilog.Update.Turn.{RecoversToEither}
use verified_storage.Multilog.Commit.{multilog_commit_lem}
use verified_storage.Multilog.Advance.{multilog_advance_within}
use verified_storage.Multilog.Advance.Refused.{
  multilog_advance_refused, AdvanceRefusal, advances_no_log, advances_before_head,
  advances_beyond_tail,
}
use verified_storage.Multilog.Impl
use verified_storage.Multilog.Impl.Err.{MultiLogErr}
use verified_storage.Multilog.Read.{invalid_index_refused}
use verified_storage.Multilog.Api.{MultiLogImpl, tentatively_append, commit, advance_head}
use verified_storage.Multilog.Api.System.{
  Call, to_tentatively_append, to_commit, to_advance_head, Fits, run_call, CouldCrashAs, Response,
  response, crashed_within, returned, AppendRefusal, appends_no_log, appends_without_room,
  AbstractStep, appends, refuses_append, commits, advances, refuses_advance, undoes,
  commits_before_crash, advances_before_crash,
}

-- Contents that recover to a state which the abstract multilog may have after a crash within a call.
abbrev pub Explained : Medium → ℕ → AbstractMultiLogState → Call → List Mem → Type 0
Explained m multilog_id s c mems =
    (t : AbstractMultiLogState) × AbstractStep m s (crashed_within c) t
    × (recover_all m mems multilog_id ≡ some t)

-- What an operation that recovers to the old or the new state can crash as.
explain_either :
    (m : Medium) (multilog_id : ℕ) {s : AbstractMultiLogState} {c : Call}
    (t : AbstractMultiLogState)
    → AbstractStep m s (crashed_within c) (drop_pending_appends t)
    → (mems : List Mem)
    → RecoversToEither m multilog_id (drop_pending_appends s) (drop_pending_appends t) mems
    → Explained m multilog_id s c mems
explain_either m multilog_id {s} {c} t step mems (inl e) = (drop_pending_appends s, undoes s c, e)
explain_either m multilog_id t step mems (inr e) = (drop_pending_appends t, step, e)

AllOnlyCrashIn-mono :
    (P Q : List Mem → Type 0) (history : List (List Region))
    → ((mems : List Mem) → P mems → Q mems)
    → AllOnlyCrashIn P history
    → AllOnlyCrashIn Q history
AllOnlyCrashIn-mono P Q [] f h = tt
AllOnlyCrashIn-mono P Q (rs ∷ rss) f (h, hs) =
    ((λ mems crash. f mems (h mems crash)), AllOnlyCrashIn-mono P Q rss f hs)

pub AllOnlyCrashIn_apply :
    (P : List Mem → Type 0) (history : List (List Region))
    → AllOnlyCrashIn P history
    → (mems : List Mem) → CouldCrashAs history mems
    → P mems
AllOnlyCrashIn_apply P [] h mems c = absurd c
AllOnlyCrashIn_apply P (rs ∷ rss) (h, hs) mems (inl c) = h mems c
AllOnlyCrashIn_apply P (rs ∷ rss) (h, hs) mems (inr c) = AllOnlyCrashIn_apply P rss hs mems c

-- A call returns what the abstract multilog says, and leaves a multilog that is valid for the state
-- that the abstract one then has; its writes can only crash as the abstract multilog allows of that
-- call.
abbrev pub Called : Medium → MultiLogImpl → AbstractMultiLogState → Call → Type 0
Called m self s c =
    let self' = run_call m self c in
    (self'.multilog_id ≡ self.multilog_id)
    × ((t : AbstractMultiLogState) × AbstractStep m s (returned c (response m self c)) t
        × IsValid m self'.wrpm_regions.pm_regions self.multilog_id self'.untrusted_log_impl t)
    × AllOnlyCrashIn (Explained m self.multilog_id s c) self'.wrpm_regions.history

module _ {m : Medium} (sound : IsSound m) (self : MultiLogImpl) {s : AbstractMultiLogState}
    (v : IsValid m self.wrpm_regions.pm_regions self.multilog_id self.untrusted_log_impl s) where
  responds :
      {t : AbstractMultiLogState} (c : Call) {r : Response c}
      → response m self c ≡ r
      → AbstractStep m s (returned c r) t
      → AbstractStep m s (returned c (response m self c)) t
  responds {t} c e step = subst (λ r. AbstractStep m s (returned c r) t) (sym e) step

  commit-Called : Called m self s to_commit
  unfolding run_call response commit
  commit-Called =
      let (result, after, during) =
        multilog_commit_lem (Regions.new self.wrpm_regions.pm_regions) sound v tt in
      (
        refl,
        (Spec.commit s, responds to_commit result (commits s), after),
        AllOnlyCrashIn-mono _ _ _
            (explain_either m self.multilog_id (Spec.commit s) (commits_before_crash s)) during,
      )

  append-Called :
      (k : ℕ) (bytes : List ℕ)
      → length bytes < u64_mod
      → Called m self s (to_tentatively_append k bytes)
  unfolding run_call response tentatively_append
  append-Called k bytes small = elim (lt_or_le k (num_logs s)) [
    | inr invalid ↦
        refused
          (invalid_index_refused (Regions.new self.wrpm_regions.pm_regions) k bytes 0 0 0 v
            invalid).0
          (appends_no_log invalid)
    | inl lt ↦ elim (room_or_not (log_at s k) (length bytes)) [
      | inl room ↦
          (let (result, after, during) =
              multilog_append_with_room (Regions.new self.wrpm_regions.pm_regions) k bytes v lt
                small room tt in
            (
              refl,
              (
                Spec.tentatively_append s k bytes,
                responds (to_tentatively_append k bytes) result (appends s k bytes lt room),
                after,
              ),
              AllOnlyCrashIn-mono _ _ _
                  (λ mems e. (drop_pending_appends s, undoes s (to_tentatively_append k bytes), e))
                  during,
            ))
      | inr full ↦
          (let (available, e, less, measure) =
              multilog_append_without_room (Regions.new self.wrpm_regions.pm_regions) k bytes v lt
                small full in
            refused e (appends_without_room available lt full less measure))
    ]
  ]
    where
      refused :
          {e : MultiLogErr}
          → Impl.tentatively_append self.untrusted_log_impl
              (Regions.new self.wrpm_regions.pm_regions)
              k
              bytes
            ≡ (err e, self.untrusted_log_impl, Regions.new self.wrpm_regions.pm_regions)
          → AppendRefusal s k bytes e
          → Called m self s (to_tentatively_append k bytes)
      refused {e} same why =
          let step =
            responds (to_tentatively_append k bytes) (ap (λ t. t.0) same)
              (refuses_append s k bytes e why) in
          rw same (refl, (s, step, v), tt)

  advance-Called :
      (k new_head : ℕ) → new_head < u128_mod → Called m self s (to_advance_head k new_head)
  unfolding run_call response advance_head
  advance-Called k new_head range = elim (lt_or_le k (num_logs s)) [
    | inr invalid ↦ refused (advances_no_log invalid)
    | inl lt ↦ advance_valid lt
  ]
    where
      refused :
          {e : MultiLogErr}
          → AdvanceRefusal s k new_head e
          → Called m self s (to_advance_head k new_head)
      refused {e} why =
          let same =
            multilog_advance_refused (Regions.new self.wrpm_regions.pm_regions) k new_head v range
              why in
          let step =
            responds (to_advance_head k new_head) (ap (λ t. t.0) same)
              (refuses_advance s k new_head e why) in
          rw same (refl, (s, step, v), tt)

      advance_valid : k < num_logs s → Called m self s (to_advance_head k new_head)
      advance_valid lt = elim (lt_or_le new_head (log_at s k).head) [
        | inl before ↦ refused (advances_before_head lt before)
        | inr lo ↦ elim (lt_or_le ((log_at s k).head + length (log_at s k).log) new_head) [
          | inl beyond ↦ refused (advances_beyond_tail lt beyond)
          | inr hi ↦
              (let (result, after, during) =
                  multilog_advance_within (Regions.new self.wrpm_regions.pm_regions) k new_head
                    sound v lt lo hi tt in
                (
                  refl,
                  (
                    Spec.advance_head s k new_head,
                    responds (to_advance_head k new_head) result (advances s k new_head lt lo hi),
                    after,
                  ),
                  AllOnlyCrashIn-mono _ _ _
                      (explain_either m self.multilog_id (Spec.advance_head s k new_head)
                        (advances_before_crash s k new_head lt lo hi))
                      during,
                ))
        ]
      ]

  pub call_lem : (c : Call) → Fits c → Called m self s c
  call_lem (to_tentatively_append k bytes) h = append-Called k bytes h
  call_lem to_commit h = commit-Called
  call_lem (to_advance_head k new_head) h = advance-Called k new_head h
