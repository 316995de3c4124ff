-- ===== src/Protocol/Failure.antt =====
-- How processVariantEvent of Monitor/src/monitor.c ends with -1.
use aurora_mvee.Base.{
  ◌≡◌, refl, ap, sym, subst, if_rule, if◌then◌else◌, Bool, ◌∷◌, ◌==◌, arith, ltb,
}
use aurora_mvee.Kernel.{Kernel, Trace, kill}
use aurora_mvee.World.{World, Op, Side, first, second, other, variant}
use aurora_mvee.World.Monad.{Outcome, ok, failed, blocked, terminated, monad}
use aurora_mvee.Variant.{update, request, resume_variant_from_exit, request_syscall_info}
use aurora_mvee.Monitor.{
  is_master, is_wait, process_syscall_sync, kill_on_failure, sync_or_kill, process_entry, by_op,
  process_variant_event,
}
use aurora_mvee.Protocol.{IsPaired}

-- If the result is -1, then the last two requests were those that kill two tracees.
abbrev pub KillsOnFailure : {A : Type 0} → Outcome A → Type 0
KillsOnFailure (ok a w) = Unit
KillsOnFailure (failed w) = (t : Trace) × (w.trace ≡ kill w.replica.pid ∷ kill w.master.pid ∷ t)
KillsOnFailure (blocked w) = Unit
KillsOnFailure (terminated w) = Unit

module _ (k : Kernel) where
  kill_on_failure-Kills :
      (r : Outcome (Unit {0})) → KillsOnFailure (kill_on_failure k first second r)
  kill_on_failure-Kills (ok a w) = tt
  kill_on_failure-Kills (failed w) = (w.trace, refl)
  kill_on_failure-Kills (blocked w) = tt
  kill_on_failure-Kills (terminated w) = tt

  abbrev KillsChosen : (self other : Side) → World → Bool → Type 0
  KillsChosen self other w b =
      let m = if b then self else other in
      let r = if b then other else self in
      KillsOnFailure (kill_on_failure k m r (process_syscall_sync k m r w))

  sync_or_kill-Kills :
      (s : Side) (w : World) → IsPaired w → KillsOnFailure (sync_or_kill k s (other s) w)
  unfolding sync_or_kill
  sync_or_kill-Kills first w paired =
      subst (KillsChosen first second w) (sym (ap is_master paired.master_type))
        (kill_on_failure-Kills (process_syscall_sync k first second w))
  sync_or_kill-Kills second w paired =
      subst (KillsChosen second first w) (sym (ap is_master paired.replica_type))
        (kill_on_failure-Kills (process_syscall_sync k first second w))

  process_entry-Kills :
      (s : Side) (w : World) → IsPaired w → KillsOnFailure (process_entry k s (other s) w)
  unfolding process_entry update monad
  process_entry-Kills s w paired =
      if_rule KillsOnFailure ((variant s w).syscall_num == (variant (other s) w).syscall_num)
        (if_rule KillsOnFailure (is_wait (variant (other s) w).state)
          (sync_or_kill-Kills s w paired) tt)
        (if_rule KillsOnFailure (ltb (variant (other s) w).syscall_num (variant s w).syscall_num) tt
          tt)

  by_op-Kills :
      (op : Op) (s : Side) (w : World) → IsPaired w → KillsOnFailure (by_op k op s (other s) w)
  unfolding resume_variant_from_exit request update monad
  by_op-Kills Op.none s w paired = tt
  by_op-Kills Op.entry s w paired = process_entry-Kills s w paired
  by_op-Kills Op.exit s w paired = tt
  by_op-Kills Op.seccomp s w paired = tt

-- Whatever the kernel answers, if the handling of an event returns -1 then both variants have been
-- killed: the last two requests are SIGKILL to the master and SIGKILL to the replica.
pub process_variant_event-Kills :
    (k : Kernel) (s : Side) (w : World)
    → IsPaired w
    → KillsOnFailure (process_variant_event k s (other s) w)
unfolding process_variant_event request_syscall_info update monad
process_variant_event-Kills k first w paired = by_op-Kills k _ first _ (ground (arith, paired))
process_variant_event-Kills k second w paired = by_op-Kills k _ second _ (ground (arith, paired))
