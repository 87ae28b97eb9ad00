-- ===== src/Log/Api/Refine.antt =====
-- logimpl_t.rs: calls, crashes and restarts refine the abstract log.
use mathlib.Core.Path.{subst}
use verified_storage.Base.{
  ℕ, List, ◌≡◌, sym, ◌∙◌, ◌⊎◌, inl, inr, some, ok, err, Outcome, true, false,
}
use verified_storage.Pmem.View.{Mem, CanCrashAs, flush}
use verified_storage.Pmem.Medium.{Medium, IsSound}
use verified_storage.Pmem.Wrpm
use verified_storage.Pmem.Wrpm.{Wrpm, AllOnlyCrashIn, OnlyCrashesIn}
use verified_storage.Log.Spec.{AbstractLogState, drop_pending_appends}
use verified_storage.Log.Recover.{recover_state}
use verified_storage.Log.Impl.Err.{LogErr, crc_mismatch}
use verified_storage.Log.Start
use verified_storage.Log.Inv.Crash.{recover_after_crash}
use verified_storage.Log.Start.Recovery.{start_lem}
use verified_storage.Log.Api.{LogImpl, start}
use verified_storage.Log.Api.Called.{AllOnlyCrashIn_apply, call_lem}
use verified_storage.Log.Api.System.{
  IsMemory, restarted, System, running, Event, start_failed, Transition, returns, crashes,
  crashes_within, starts, fails_to_start, Run, no_steps, then_step, AbstractStep, loses_pending,
  restarts, finds_corruption, AbstractSteps, no_abstract_steps, then_abstract_step, Represents,
}

module _ {m : Medium} (sound : IsSound m) where
  -- After a restart the log represents what the contents recover to, or there was corruption.
  start_cases :
      (mem : Mem) (log_id : ℕ) (s : AbstractLogState)
      → IsMemory mem
      → recover_state m mem log_id ≡ some s
      → ((self : LogImpl) × (start m (restarted mem) log_id ≡ ok self)
          × Represents m (running self) s)
        ⊎ ((start m (restarted mem) log_id ≡ err crc_mismatch)
            × (m.impervious_to_corruption ≡ false))
  unfolding start flush
  start_cases mem log_id s (fits, bytes) e =
      elim (start_lem sound (Wrpm.new (restarted mem)) log_id s fits bytes e) [
        | inl (self', found, v) ↦
            (let (_, w') = Start.start m (Wrpm.new (restarted mem)) log_id in
              inl (
                record { untrusted_log_impl = self'; log_id = log_id; wrpm_region = w' },
                rw found,
                v,
              ))
        | inr (failed, corrupted) ↦ inr (rw failed, corrupted)
      ]

  start_inv :
      (mem : Mem) (log_id : ℕ) (self : LogImpl) (s : AbstractLogState)
      → IsMemory mem
      → recover_state m mem log_id ≡ some s
      → start m (restarted mem) log_id ≡ ok self
      → Represents m (running self) s
  start_inv mem log_id self s h e started = elim (start_cases mem log_id s h e) [
    | inl (self', found, v) ↦
        subst (λ t. Represents m (running t) s) (ok_inj self' self (sym found ∙ started)) v
    | inr (failed, _) ↦ absurd (cc (failed, started))
  ]
    where
      ok_log : LogImpl → Outcome LogErr LogImpl
      ok_log = ok

      ok_inj : (x y : LogImpl) → ok_log x ≡ ok_log y → x ≡ y
      ok_inj x y p = cc p

  start_failure :
      (mem : Mem) (log_id : ℕ) (e : LogErr) (s : AbstractLogState)
      → IsMemory mem
      → recover_state m mem log_id ≡ some s
      → start m (restarted mem) log_id ≡ err e
      → AbstractStep m s (start_failed e) s
  start_failure mem log_id e s h recovers failed = elim (start_cases mem log_id s h recovers) [
    | inl (self', found, _) ↦ absurd (cc (found, failed))
    | inr (mismatch, corrupted) ↦
        subst (λ t. AbstractStep m s (start_failed t) s)
          (err_inj crc_mismatch e (sym mismatch ∙ failed)) (finds_corruption s corrupted)
  ]
    where
      err_log : LogErr → Outcome LogErr LogImpl
      err_log = err

      err_inj : (x y : LogErr) → err_log x ≡ err_log y → x ≡ y
      err_inj x y p = cc p

  step_refines :
      {a b : System} {e : Event} {s : AbstractLogState}
      → Transition m a e b
      → Represents m a s
      → (t : AbstractLogState) × AbstractStep m s e t × Represents m b t
  step_refines {s = s} (returns self c h) v =
      let (same, (t, step, after), _) = call_lem sound self v c h in (t, step, rw same after)
  step_refines {s = s} (crashes self mem h crash) v =
      (drop_pending_appends s, loses_pending s, (h, recover_after_crash v.consistent mem crash))
  step_refines {s = s} (crashes_within self c mem h h' crash) v =
      let (_, _, during) = call_lem sound self v c h in
      let (t, step, e) = AllOnlyCrashIn_apply _ _ during mem crash in (t, step, (h', e))
  step_refines {s = s} (starts mem log_id self started) (h, e) =
      (s, restarts s, start_inv mem log_id self s h e started)
  step_refines {s = s} (fails_to_start mem log_id why failed) (h, e) =
      (s, start_failure mem log_id why s h e failed, (h, e))

-- Whatever calls, crashes between and within calls, and restarts a log goes through from where it
-- represents an abstract state, the abstract log goes through the same events, one step for each,
-- with the same responses, and the log then represents the state that the abstract log has come to.
-- The abstract log takes each call that returns as its operation or as the refusal that its state
-- calls for, loses the pending appends at a crash, and finds a commit or an advance of the head that a
-- crash cuts short undone or done. A restart changes nothing, and fails only with a CRC mismatch on a
-- medium that is not impervious to corruption.
pub steps_refine :
    {m : Medium} {a b : System} {es : List Event} {s : AbstractLogState}
    → IsSound m
    → Represents m a s
    → Run m a es b
    → (t : AbstractLogState) × AbstractSteps m s es t × Represents m b t
steps_refine {s = s} sound v (no_steps _) = (s, no_abstract_steps s, v)
steps_refine {s = s} sound v (then_step step after) =
    let (t, first, w) = step_refines sound step v in
    let (u, rest, x) = steps_refine sound w after in (u, then_abstract_step first rest, x)

-- On a medium impervious to corruption, a log that crashes between calls starts again, as a valid
-- log for its abstract state without the pending appends.
pub restarts_after_crash :
    {m : Medium} (self : LogImpl) {s : AbstractLogState} (mem : Mem)
    → IsSound m
    → m.impervious_to_corruption ≡ true
    → Represents m (running self) s
    → IsMemory mem
    → CanCrashAs self.wrpm_region.pm_region mem
    → (self' : LogImpl) × (start m (restarted mem) self.log_id ≡ ok self')
      × Represents m (running self') (drop_pending_appends s)
restarts_after_crash self {s} mem sound impervious v h crash =
    elim (start_cases sound mem self.log_id (drop_pending_appends s) h
      (recover_after_crash v.consistent mem crash)) [
        | inl found ↦ found
        | inr (_, corrupted) ↦ absurd (cc (impervious, corrupted))
      ]
