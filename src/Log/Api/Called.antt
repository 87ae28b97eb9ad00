-- ===== src/Log/Api/Called.antt =====
-- logimpl_t.rs: what one call does, as a step of the abstract log.
use mathlib.Core.Path.{subst}
use verified_storage.Base.{
  ℕ, ◌+◌, ◌<◌, ◌≡◌, refl, sym, ap, ◌⊎◌, inl, inr, List, [], ◌∷◌, length, some, u64_mod, u128_mod,
  u128_max, arith, lt_or_le,
}
use verified_storage.Pmem.View.{Region, Mem}
use verified_storage.Pmem.Medium.{Medium, IsSound}
use verified_storage.Pmem.Wrpm
use verified_storage.Pmem.Wrpm.{Wrpm, AllOnlyCrashIn, OnlyCrashesIn}
use verified_storage.Log.Spec.{AbstractLogState, drop_pending_appends}
use verified_storage.Log.Spec
use verified_storage.Log.Recover.{recover_state}
use verified_storage.Log.Inv.{IsValid}
use verified_storage.Log.Append.Call.{
  HasRoom, pending_tail, tentatively_append_with_room, tentatively_append_without_room,
}
use verified_storage.Log.Update.Flip.{RecoversToEither}
use verified_storage.Log.Commit.{commit_lem}
use verified_storage.Log.Advance.{advance_head_within}
use verified_storage.Log.Advance.Refused.{
  advance_head_refused, AdvanceRefusal, advances_before_head, advances_beyond_tail,
}
use verified_storage.Log.Impl.Err.{LogErr}
use verified_storage.Log.Api.{LogImpl, tentatively_append, commit, advance_head}
use verified_storage.Log.Api.System.{
  Call, to_tentatively_append, to_commit, to_advance_head, Fits, run_call, CouldCrashAs, Response,
  response, crashed_within, returned, AbstractStep, appends, refuses_append, commits, advances,
  refuses_advance, undoes, commits_before_crash, advances_before_crash,
}

-- Contents that recover to a state which the abstract log may have after a crash within a call.
abbrev pub Explained : Medium → ℕ → AbstractLogState → Call → Mem → Type 0
Explained m log_id s c mem =
    (t : AbstractLogState) × AbstractStep m s (crashed_within c) t
    × (recover_state m mem log_id ≡ some t)

-- What an operation that recovers to the old or the new state can crash as.
explain_either :
    (m : Medium) (log_id : ℕ) {s : AbstractLogState} {c : Call} (t : AbstractLogState)
    → AbstractStep m s (crashed_within c) (drop_pending_appends t)
    → (mem : Mem) → RecoversToEither m log_id (drop_pending_appends s) (drop_pending_appends t) mem
    → Explained m log_id s c mem
explain_either m log_id {s} {c} t step mem (inl e) = (drop_pending_appends s, undoes s c, e)
explain_either m log_id t step mem (inr e) = (drop_pending_appends t, step, e)

AllOnlyCrashIn-mono :
    (P Q : Mem → Type 0) (history : List Region)
    → ((mem : Mem) → P mem → Q mem)
    → AllOnlyCrashIn P history
    → AllOnlyCrashIn Q history
AllOnlyCrashIn-mono P Q [] f h = tt
AllOnlyCrashIn-mono P Q (r ∷ rs) f (h, hs) =
    ((λ mem crash. f mem (h mem crash)), AllOnlyCrashIn-mono P Q rs f hs)

pub AllOnlyCrashIn_apply :
    (P : Mem → Type 0) (history : List Region)
    → AllOnlyCrashIn P history
    → (mem : Mem) → CouldCrashAs history mem
    → P mem
AllOnlyCrashIn_apply P [] h mem c = absurd c
AllOnlyCrashIn_apply P (r ∷ rs) (h, hs) mem (inl c) = h mem c
AllOnlyCrashIn_apply P (r ∷ rs) (h, hs) mem (inr c) = AllOnlyCrashIn_apply P rs hs mem c

-- A call returns what the abstract log says, and leaves a log that is valid for the state that the
-- abstract log then has; its writes can only crash as the abstract log allows of that call.
abbrev pub Called : Medium → LogImpl → AbstractLogState → Call → Type 0
Called m self s c =
    let self' = run_call m self c in
    (self'.log_id ≡ self.log_id)
    × ((t : AbstractLogState) × AbstractStep m s (returned c (response m self c)) t
        × IsValid m self'.wrpm_region.pm_region self.log_id self'.untrusted_log_impl t)
    × AllOnlyCrashIn (Explained m self.log_id s c) self'.wrpm_region.history

pub room_or_not : (s : AbstractLogState) (n : ℕ) → HasRoom s n ⊎ (¬ HasRoom s n)
room_or_not s n = elim (lt_or_le s.capacity (length s.log + length s.pending + n)) [
  | inl full ↦ inr (λ (h, _). absurd (omega arith))
  | inr area ↦ elim (lt_or_le u128_max (pending_tail s + n)) [
    | inl end ↦ inr (λ (_, h). absurd (omega arith))
    | inr below ↦ inl (area, below)
  ]
]

module _ {m : Medium} (sound : IsSound m) (self : LogImpl) {s : AbstractLogState}
    (v : IsValid m self.wrpm_region.pm_region self.log_id self.untrusted_log_impl s) where
  responds :
      {t : AbstractLogState} (c : Call) {r : Response c}
      → response m self c ≡ r
      → AbstractStep m s (returned c r) t
      → AbstractStep m s (returned c (response m self c)) t
  responds {t} c e step = subst (λ r. AbstractStep m s (returned c r) t) (sym e) step

  commit-Called : Called m self s to_commit
  unfolding run_call response commit
  commit-Called =
      let (result, after, during) = commit_lem (Wrpm.new self.wrpm_region.pm_region) sound v tt in
      (
        refl,
        (Spec.commit s, responds to_commit result (commits s), after),
        AllOnlyCrashIn-mono _ _ _
            (explain_either m self.log_id (Spec.commit s) (commits_before_crash s)) during,
      )

  append-Called :
      (bytes : List ℕ) → length bytes < u64_mod → Called m self s (to_tentatively_append bytes)
  unfolding run_call response tentatively_append
  append-Called bytes small = elim (room_or_not s (length bytes)) [
    | inl room ↦
        (let (result, after, during) =
            tentatively_append_with_room (Wrpm.new self.wrpm_region.pm_region) bytes v small room
              tt in
          (
            refl,
            (
              Spec.tentatively_append s bytes,
              responds (to_tentatively_append bytes) result (appends s bytes room),
              after,
            ),
            AllOnlyCrashIn-mono _ _ _
                (λ mem e. (drop_pending_appends s, undoes s (to_tentatively_append bytes), e))
                during,
          ))
    | inr full ↦
        (let (available, e, less, measure) =
            tentatively_append_without_room (Wrpm.new self.wrpm_region.pm_region) bytes v small
              full in
          let step =
            responds (to_tentatively_append bytes) (ap (λ t. t.0) e)
              (refuses_append s bytes available full less measure) in
          rw e (refl, (s, step, v), tt))
  ]

  advance-Called : (new_head : ℕ) → new_head < u128_mod → Called m self s (to_advance_head new_head)
  unfolding run_call response advance_head
  advance-Called new_head range = elim (lt_or_le new_head s.head) [
    | inl before ↦ refused (advances_before_head before)
    | inr lo ↦ elim (lt_or_le (s.head + length s.log) new_head) [
      | inl beyond ↦ refused (advances_beyond_tail beyond)
      | inr hi ↦
          (let (result, after, during) =
              advance_head_within (Wrpm.new self.wrpm_region.pm_region) new_head sound v lo hi tt in
            (
              refl,
              (
                Spec.advance_head s new_head,
                responds (to_advance_head new_head) result (advances s new_head lo hi),
                after,
              ),
              AllOnlyCrashIn-mono _ _ _
                  (explain_either m self.log_id (Spec.advance_head s new_head)
                    (advances_before_crash s new_head lo hi))
                  during,
            ))
    ]
  ]
    where
      refused :
          {e : LogErr} → AdvanceRefusal s new_head e → Called m self s (to_advance_head new_head)
      refused {e} why =
          let same =
            advance_head_refused (Wrpm.new self.wrpm_region.pm_region) new_head v range why in
          let step =
            responds (to_advance_head new_head) (ap (λ t. t.0) same)
              (refuses_advance s new_head e why) in
          rw same (refl, (s, step, v), tt)

  pub call_lem : (c : Call) → Fits c → Called m self s c
  call_lem (to_tentatively_append bytes) h = append-Called bytes h
  call_lem to_commit h = commit-Called
  call_lem (to_advance_head new_head) h = advance-Called new_head h
