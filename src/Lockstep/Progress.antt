-- ===== src/Lockstep/Progress.antt =====
-- How a round of the loop of `main` can end: Monitor/src/monitor.c.
use aurora_mvee.Base.{
  ◌≡◌, ◌⊎◌, refl, sym, subst, Bool, true, false, Option, some, ◌∷◌, arith, ◌==◌, Bool-cases, inl,
  inr,
}
use aurora_mvee.Kernel.{Kernel, Trace, Pid, Status, exited, signaled, stopped, event, kill}
use aurora_mvee.Kernel.Laws.{Stops, Alternates, running}
use aurora_mvee.World.{World, Side, first, second, variant, other, log}
use aurora_mvee.World.Monad.{Outcome, ok, failed, blocked, terminated, monad}
use aurora_mvee.Variant.{check_variant_exit}
use aurora_mvee.Monitor.{
  is_wait, process_variant_event, exit_on_failure, reported, variant_event, main_round,
}
use aurora_mvee.Protocol.{Returns}
use aurora_mvee.Protocol.Failure.{KillsOnFailure, process_variant_event-Kills}
use aurora_mvee.Lockstep.{InStep, Avoids, Reports}
use aurora_mvee.Lockstep.Runs.{process_variant_event-InStep}

-- While the tracee runs, waitpid(-1) returns.
abbrev pub Wakes : Kernel → Pid → Type 0
Wakes k p = (t : Trace) → running p t ≡ true → (q : Pid) × (st : Status) × (k.next t ≡ some (q, st))

-- waitpid(-1) reports no process but the two that `main` has started.
abbrev pub Children : Kernel → Pid → Pid → Type 0
Children k pid_m pid_r =
    (t : Trace) (p : Pid) (st : Status) → k.next t ≡ some (p, st) → (p ≡ pid_m) ⊎ (p ≡ pid_r)

abbrev pub IsEnd : Status → Type 0
IsEnd (exited c) = Unit
IsEnd (signaled s) = Unit
IsEnd (stopped s) = ⊥

-- A round goes on with the variants in step, or the process that was reported has ended, or both
-- variants have been killed and the monitor exits.
abbrev pub Proceeds : Option (Pid × Status) → Outcome Bool → Type 0
Proceeds o (ok true w) = InStep w
Proceeds o (ok false w) = (p : Pid) × (st : Status) × (o ≡ some (p, st)) × IsEnd st
Proceeds o (failed w) = ⊥
Proceeds o (blocked w) = ⊥
Proceeds o (terminated w) = (t : Trace) × (w.trace ≡ kill w.replica.pid ∷ kill w.master.pid ∷ t)

exit_on_failure-Proceeds :
    (k : Kernel) (o : Option (Pid × Status)) (r : Outcome (Unit {0}))
    → Returns InStep r
    → KillsOnFailure r
    → Proceeds o (exit_on_failure k r)
exit_on_failure-Proceeds k o (ok a w) h killed = h
exit_on_failure-Proceeds k o (failed w) h killed = killed
exit_on_failure-Proceeds k o (blocked w) h killed = h
exit_on_failure-Proceeds k o (terminated w) h killed = absurd h

module _ (k : Kernel) (stops : Stops k) (alternates : Alternates k) (avoids : Avoids k) where
  variant_event-Proceeds :
      (s : Side) (w : World) (st : Status)
      → InStep w
      → running (variant s w).pid w.trace ≡ true
      → Proceeds
          (some ((variant s w).pid, st))
          (variant_event k s (other s) st (log (event (variant s w).pid) w))
  unfolding variant_event check_variant_exit monad
  variant_event-Proceeds s w (exited c) h ran = ((variant s w).pid, exited c, refl, tt)
  variant_event-Proceeds s w (signaled c) h ran = ((variant s w).pid, signaled c, refl, tt)
  variant_event-Proceeds s w (stopped c) h ran =
      exit_on_failure-Proceeds k _
        (process_variant_event k s (other s) (log (event (variant s w).pid) w))
        (process_variant_event-InStep k stops alternates avoids s w h ran)
        (process_variant_event-Kills k s (log (event (variant s w).pid) w) h.paired)

  pub reported-Proceeds :
      (w : World) (p : Pid) (st : Status)
      → InStep w
      → running p w.trace ≡ true
      → (p ≡ w.master.pid) ⊎ (p ≡ w.replica.pid)
      → Proceeds (some (p, st)) (reported k (some (p, st)) w)
  unfolding reported
  reported-Proceeds w p st h ran (inl is_m) =
      let known : (w.master.pid == w.master.pid) ≡ true = ground arith in
      subst (λ q. Proceeds (some (q, st)) (reported k (some (q, st)) w)) (sym is_m)
        (rw known
          (variant_event-Proceeds first w st h (subst (λ q. running q w.trace ≡ true) is_m ran)))
  reported-Proceeds w p st h ran (inr is_r) =
      let not_m : (w.replica.pid == w.master.pid) ≡ false = ground (arith, h.paired.distinct) in
      let known : (w.replica.pid == w.replica.pid) ≡ true = ground arith in
      subst (λ q. Proceeds (some (q, st)) (reported k (some (q, st)) w)) (sym is_r)
        (rw (not_m, known)
          (variant_event-Proceeds second w st h (subst (λ q. running q w.trace ≡ true) is_r ran)))

-- One of two variants that are in step runs.
one_runs :
    (w : World)
    → InStep w
    → (running w.replica.pid w.trace ≡ true) ⊎ (running w.master.pid w.trace ≡ true)
one_runs w h = elim (Bool-cases (is_wait w.master.state)) [
  | inl waits ↦ inl (ground (arith, h.lanes.one_runs, h.lanes.replica.runs))
  | inr runs ↦ inr (ground (arith, h.lanes.master.runs))
]

-- Where one of two variants that are in step wakes waitpid(-1), it returns.
pub woken :
    (k : Kernel) (w : World)
    → Wakes k w.master.pid
    → Wakes k w.replica.pid
    → InStep w
    → (q : Pid) × (st : Status) × (k.next w.trace ≡ some (q, st))
woken k w wakes_m wakes_r h = elim (one_runs w h) [
  | inl ran ↦ wakes_r w.trace ran
  | inr ran ↦ wakes_m w.trace ran
]

-- No deadlock. Let the kernel keep to ptrace(2) and wait(2), with no process to report but the two
-- variants, and no stops of theirs but those at the entry and the exit of a call, let no variant exit while the monitor waits for it, and let the variants call neither
-- shutdown nor pselect6. Then a round of the loop of `main` that begins with the variants in step does
-- not block. It goes on with the variants in step again, or it ends the loop since a variant has
-- ended, or `main` exits with the two last requests SIGKILL to the master and to the replica.
pub main_round-Proceeds :
    (k : Kernel) (w : World)
    → Stops k
    → Alternates k
    → Avoids k
    → Reports k
    → Wakes k w.master.pid
    → Wakes k w.replica.pid
    → Children k w.master.pid w.replica.pid
    → InStep w
    → Proceeds (k.next w.trace) (main_round k w)
unfolding main_round
main_round-Proceeds k w stops alternates avoids reports wakes_m wakes_r children h =
    let (p, st, e) = woken k w wakes_m wakes_r h in
    subst (λ o. Proceeds o (reported k o w)) (sym e)
      (reported-Proceeds k stops alternates avoids w p st h (reports w.trace p st e)
        (children w.trace p st e))
