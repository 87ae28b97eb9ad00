-- ===== src/Multilog/Api/Refine.antt =====
-- multilogimpl_t.rs: calls, crashes and restarts refine the abstract multilog.
use mathlib.Core.Path.{subst}
use verified_storage.Base.{
  ℕ, ◌<◌, ◌≡◌, refl, sym, ap, ◌∙◌, ◌⊎◌, inl, inr, some, ok, err, Outcome, true, false, List, [],
  ◌∷◌, map, length, arith, length-map, get_or-map,
}
use verified_storage.Pmem.View.{Mem, committed, flush}
use verified_storage.Pmem.Medium.{Medium, IsSound}
use verified_storage.Pmem.Regions
use verified_storage.Pmem.Regions.{CanCrashAs, region_at, mem_at, no_region, no_mem, flush_regions}
use verified_storage.Log.Start.Checks.{OfBytes}
use verified_storage.Log.Api.System.{restarted}
use verified_storage.Multilog.Spec.{AbstractMultiLogState, drop_pending_appends}
use verified_storage.Multilog.Recover.{recover_all}
use verified_storage.Multilog.Impl.Err.{MultiLogErr, crc_mismatch}
use verified_storage.Multilog.Start
use verified_storage.Multilog.Inv.Crash.{multilog_recover_after_crash}
use verified_storage.Multilog.Start.Recovery.{multilog_start_lem}
use verified_storage.Multilog.Api.{MultiLogImpl, start}
use verified_storage.Multilog.Api.Called.{AllOnlyCrashIn_apply, call_lem}
use verified_storage.Multilog.Api.System.{
  AreMemories, System, running, Event, start_failed, Transition, returns, crashes, crashes_within,
  starts, fails_to_start, Run, no_steps, then_step, AbstractStep, loses_pending, restarts,
  finds_corruption, AbstractSteps, no_abstract_steps, then_abstract_step, Represents,
}

-- Contents that are started from are what is committed after the first flush.
committed-restarted : (mems : List Mem) → map committed (flush_regions (map restarted mems)) ≡ mems
unfolding flush
committed-restarted [] = refl
committed-restarted (mem ∷ mems) = ap (λ t. mem ∷ t) (committed-restarted mems)

region_at-restarted :
    (mems : List Mem) (i : ℕ)
    → i < length mems
    → region_at (map restarted mems) i ≡ restarted (mem_at mems i)
region_at-restarted mems i lt = get_or-map restarted mems i no_mem no_region lt

module _ {m : Medium} (sound : IsSound m) where
  -- After a restart the multilog represents what the contents recover to, or there was corruption.
  start_cases :
      (mems : List Mem) (multilog_id : ℕ) (s : AbstractMultiLogState)
      → AreMemories mems
      → recover_all m mems multilog_id ≡ some s
      → ((self : MultiLogImpl) × (start m (map restarted mems) multilog_id ≡ ok self)
          × Represents m (running self) s)
        ⊎ ((start m (map restarted mems) multilog_id ≡ err crc_mismatch)
            × (m.impervious_to_corruption ≡ false))
  unfolding start flush
  start_cases mems multilog_id s memories e =
      elim (multilog_start_lem sound (Regions.new (map restarted mems)) multilog_id s
        (λ i lt.
          rw (region_at-restarted mems i (omega (arith, length-map restarted mems)))
            (memories i (omega (arith, length-map restarted mems))).0)
        (λ i lt.
          subst (λ r. OfBytes (committed (flush r)))
            (sym (region_at-restarted mems i (omega (arith, length-map restarted mems))))
            (memories i (omega (arith, length-map restarted mems))).1)
        (ap (λ t. recover_all m t multilog_id) (committed-restarted mems) ∙ e)) [
          | inl (self', found, v) ↦
              (let (_, ws') = Start.start m (Regions.new (map restarted mems)) multilog_id in
                inl (
                  record {
                    untrusted_log_impl = self';
                    multilog_id = multilog_id;
                    wrpm_regions = ws';
                  },
                  rw found,
                  v,
                ))
          | inr (failed, corrupted) ↦ inr (rw failed, corrupted)
        ]

  start_inv :
      (mems : List Mem) (multilog_id : ℕ) (self : MultiLogImpl) (s : AbstractMultiLogState)
      → AreMemories mems
      → recover_all m mems multilog_id ≡ some s
      → start m (map restarted mems) multilog_id ≡ ok self
      → Represents m (running self) s
  start_inv mems multilog_id self s h e started = elim (start_cases mems multilog_id s h e) [
    | inl (self', found, v) ↦
        subst (λ t. Represents m (running t) s) (ok_inj self' self (sym found ∙ started)) v
    | inr (failed, _) ↦ absurd (cc (failed, started))
  ]
    where
      ok_log : MultiLogImpl → Outcome MultiLogErr MultiLogImpl
      ok_log = ok

      ok_inj : (x y : MultiLogImpl) → ok_log x ≡ ok_log y → x ≡ y
      ok_inj x y p = cc p

  start_failure :
      (mems : List Mem) (multilog_id : ℕ) (e : MultiLogErr) (s : AbstractMultiLogState)
      → AreMemories mems
      → recover_all m mems multilog_id ≡ some s
      → start m (map restarted mems) multilog_id ≡ err e
      → AbstractStep m s (start_failed e) s
  start_failure mems multilog_id e s h recovers failed =
      elim (start_cases mems multilog_id s h recovers) [
        | inl (self', found, _) ↦ absurd (cc (found, failed))
        | inr (mismatch, corrupted) ↦
            subst (λ t. AbstractStep m s (start_failed t) s)
              (err_inj crc_mismatch e (sym mismatch ∙ failed)) (finds_corruption s corrupted)
      ]
    where
      err_log : MultiLogErr → Outcome MultiLogErr MultiLogImpl
      err_log = err

      err_inj : (x y : MultiLogErr) → err_log x ≡ err_log y → x ≡ y
      err_inj x y p = cc p

  step_refines :
      {a b : System} {e : Event} {s : AbstractMultiLogState}
      → Transition m a e b
      → Represents m a s
      → (t : AbstractMultiLogState) × AbstractStep m s e t × Represents m b t
  step_refines {s = s} (returns self c h) v =
      let (same, (t, step, after), _) = call_lem sound self v c h in (t, step, rw same after)
  step_refines {s = s} (crashes self mems h crash) v = (
    drop_pending_appends s,
    loses_pending s,
    (h, multilog_recover_after_crash v.consistent mems crash),
  )
  step_refines {s = s} (crashes_within self c mems h h' crash) v =
      let (_, _, during) = call_lem sound self v c h in
      let (t, step, e) = AllOnlyCrashIn_apply _ _ during mems crash in (t, step, (h', e))
  step_refines {s = s} (starts mems multilog_id self started) (h, e) =
      (s, restarts s, start_inv mems multilog_id self s h e started)
  step_refines {s = s} (fails_to_start mems multilog_id why failed) (h, e) =
      (s, start_failure mems multilog_id why s h e failed, (h, e))

-- Whatever calls, crashes between and within calls, and restarts a multilog goes through from where
-- it represents an abstract state, the abstract multilog goes through the same events, one step for
-- each, with the same responses, and the multilog then represents the state that the abstract one has
-- come to. The abstract multilog takes each call that returns as its operation or as the refusal that
-- its state calls for, loses the pending appends of all logs at a crash, and finds a commit or an
-- advance of a head that a crash cuts short undone or done as a whole. A restart changes nothing, and
-- fails only with a CRC mismatch on a medium that is not impervious to corruption.
pub multilog_steps_refine :
    {m : Medium} {a b : System} {es : List Event} {s : AbstractMultiLogState}
    → IsSound m
    → Represents m a s
    → Run m a es b
    → (t : AbstractMultiLogState) × AbstractSteps m s es t × Represents m b t
multilog_steps_refine {s = s} sound v (no_steps _) = (s, no_abstract_steps s, v)
multilog_steps_refine {s = s} sound v (then_step step after) =
    let (t, first, w) = step_refines sound step v in
    let (u, rest, x) = multilog_steps_refine sound w after in (u, then_abstract_step first rest, x)

-- On a medium impervious to corruption, a multilog that crashes between calls starts again, as a
-- valid multilog for its abstract state without the pending appends.
pub multilog_restarts_after_crash :
    {m : Medium} (self : MultiLogImpl) {s : AbstractMultiLogState} (mems : List Mem)
    → IsSound m
    → m.impervious_to_corruption ≡ true
    → Represents m (running self) s
    → AreMemories mems
    → CanCrashAs self.wrpm_regions.pm_regions mems
    → (self' : MultiLogImpl) × (start m (map restarted mems) self.multilog_id ≡ ok self')
      × Represents m (running self') (drop_pending_appends s)
multilog_restarts_after_crash self {s} mems sound impervious v h crash =
    elim (start_cases sound mems self.multilog_id (drop_pending_appends s) h
      (multilog_recover_after_crash v.consistent mems crash)) [
        | inl found ↦ found
        | inr (_, corrupted) ↦ absurd (cc (impervious, corrupted))
      ]
