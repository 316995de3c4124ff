-- ===== src/Lockstep/Runs.antt =====
-- All the rounds of a run of `main`.
use aurora_mvee.Base.{
  ◌≡◌, ◌≢◌, refl, subst, true, Option, none, some, ◌∷◌, arith, ◌==◌, Bool-cases, inl, inr,
}
use aurora_mvee.Kernel.{Kernel, Pid, Status, exited, signaled, stopped, event}
use aurora_mvee.Kernel.Laws.{Stops, Alternates, conts, running}
use aurora_mvee.World.{World, Side, first, second, variant, other, log}
use aurora_mvee.World.Monad.{Outcome, ok, failed, blocked, terminated, monad}
use aurora_mvee.Variant.{check_variant_exit}
use aurora_mvee.Monitor.{
  process_variant_event, exit_on_failure, reported, variant_event, main_round, main_start,
}
use aurora_mvee.Protocol.{Returns}
use aurora_mvee.Lockstep.{InStep, Avoids, Reports}
use aurora_mvee.Protocol.Rules.{Returns-mono}
use aurora_mvee.Lockstep.Start.{main_start-InStep}
use aurora_mvee.Lockstep.Entries.{Meets}
use aurora_mvee.Lockstep.Rounds.{process_variant_event-master, process_variant_event-replica}

outcome-world : {A : Type 0} {a b : A} {v w : World} → ok a v ≡ ok b w → v ≡ w
outcome-world e = cc

-- `main` goes on only if the event was handled.
exit_on_failure-ok :
    (k : Kernel) (P : World → Type 0) (r : Outcome (Unit {0})) (w' : World)
    → Returns P r
    → exit_on_failure k r ≡ ok true w'
    → P w'
exit_on_failure-ok k P (ok a v) w' h e = subst P (outcome-world e) h
exit_on_failure-ok k P (failed v) w' h e = cc
exit_on_failure-ok k P (blocked v) w' h e = cc
exit_on_failure-ok k P (terminated v) w' h e = cc

module _ (k : Kernel) (stops : Stops k) (alternates : Alternates k) (avoids : Avoids k) (w : World)
    (in_step : InStep w) where
  open in_step use {paired, lanes}

  -- The event of a variant was a step of the rendezvous.
  abbrev pub Reported : Side → World → Type 0
  Reported s w' = Meets s (k.stop (event (variant s w).pid ∷ w.trace) (variant s w).pid) w w'

  master_event-Meets :
      running w.master.pid w.trace ≡ true
      → Returns (Reported first) (process_variant_event k first second (log (event w.master.pid) w))
  master_event-Meets ran =
      process_variant_event-master k stops alternates avoids lanes.calls lanes.counted
        (log (event w.master.pid) w) paired (ground (arith, lanes.master, paired.distinct))
        (ground (arith, lanes.replica, paired.distinct))

  replica_event-Meets :
      running w.replica.pid w.trace ≡ true
      → Returns
          (Reported second)
          (process_variant_event k second first (log (event w.replica.pid) w))
  replica_event-Meets ran =
      process_variant_event-replica k stops alternates avoids lanes.calls lanes.counted
        (log (event w.replica.pid) w) paired (ground (arith, lanes.replica, paired.distinct))
        (ground (arith, lanes.master, paired.distinct))

  variant_event-master :
      (st : Status) (w' : World)
      → running w.master.pid w.trace ≡ true
      → variant_event k first second st (log (event w.master.pid) w) ≡ ok true w'
      → Reported first w'
  unfolding variant_event check_variant_exit monad
  variant_event-master (exited c) w' ran e = cc
  variant_event-master (signaled c) w' ran e = cc
  variant_event-master (stopped c) w' ran e =
      exit_on_failure-ok k (Reported first) _ w' (master_event-Meets ran) e

  variant_event-replica :
      (st : Status) (w' : World)
      → running w.replica.pid w.trace ≡ true
      → variant_event k second first st (log (event w.replica.pid) w) ≡ ok true w'
      → Reported second w'
  unfolding variant_event check_variant_exit monad
  variant_event-replica (exited c) w' ran e = cc
  variant_event-replica (signaled c) w' ran e = cc
  variant_event-replica (stopped c) w' ran e =
      exit_on_failure-ok k (Reported second) _ w' (replica_event-Meets ran) e

  reported-Meets :
      (o : Option (Pid × Status)) (w' : World)
      → ((p : Pid) (st : Status) → o ≡ some (p, st) → running p w.trace ≡ true)
      → reported k o w ≡ ok true w'
      → (s : Side) × Reported s w'
  unfolding reported
  reported-Meets none w' ran e = cc
  reported-Meets (some (p, st)) w' ran e = elim (Bool-cases (p == w.master.pid)) [
    | inl is_m ↦
        let same : p ≡ w.master.pid = ground arith in
        (
          first,
          variant_event-master st w' (subst (λ q. running q w.trace ≡ true) same (ran p st refl)) (
              subst (λ q. variant_event k first second st (log (event q) w) ≡ ok true w') same
                (rw is_m at e)),
        )
    | inr not_m ↦ elim (Bool-cases (p == w.replica.pid)) [
      | inl is_r ↦
          let same : p ≡ w.replica.pid = ground arith in
          (
            second,
            variant_event-replica st w' (subst (λ q. running q w.trace ≡ true) same (ran p st refl))
                (subst (λ q. variant_event k second first st (log (event q) w) ≡ ok true w') same
                  (rw (not_m, is_r) at e)),
          )
      | inr not_r ↦ cc (rw (not_m, not_r) at e)
    ]
  ]

  -- A round of the loop after which `main` goes on is a step of the rendezvous.
  pub main_round-Meets :
      (w' : World) → Reports k → main_round k w ≡ ok true w' → (s : Side) × Reported s w'
  unfolding main_round
  main_round-Meets w' reports e =
      reported-Meets (k.next w.trace) w' (λ p st. reports w.trace p st) e

-- The states that the loop reaches from `w`.
pub data Reach (k : Kernel) (w : World) : World → Type 0 where
  here : Reach k w w
  next : {v v' : World} → Reach k w v → main_round k v ≡ ok true v' → Reach k w v'

module _ (k : Kernel) (stops : Stops k) (alternates : Alternates k) (avoids : Avoids k) where
  pub Reach-InStep : {w w' : World} → Reports k → InStep w → Reach k w w' → InStep w'
  Reach-InStep reports h here = h
  Reach-InStep reports h (next {v} {v'} r e) =
      (main_round-Meets k stops alternates avoids v (Reach-InStep reports h r) v' reports e).1.0

  -- Let the kernel keep to ptrace(2) and wait(2), with no stops of the variants but those at the entry
  -- and the exit of a call, let no variant exit while the monitor waits for it, and let the variants
  -- call neither shutdown nor pselect6. Then every state that the loop of
  -- `main` reaches from its start has the two variants in step: each has begun the same system
  -- calls but for the last one, the monitor's counts differ by no more than that, a variant is
  -- marked as waiting exactly if it is stopped, and then it stands at the entry of a call, and at
  -- least one of the two runs.
  pub main-InStep :
      (pid_m pid_r : Pid) (w w1 w2 : World)
      → Reports k
      → pid_m ≢ pid_r
      → conts pid_m w.trace ≡ 0
      → conts pid_r w.trace ≡ 0
      → main_start k pid_m pid_r w ≡ ok tt w1
      → Reach k w1 w2
      → InStep w2
  main-InStep pid_m pid_r w w1 w2 reports distinct fresh_m fresh_r start =
      Reach-InStep reports (main_start-InStep k pid_m pid_r w w1 distinct fresh_m fresh_r start)

  -- Let the kernel keep to ptrace(2), let no variant exit while the monitor waits for it, and let the
  -- variants call neither shutdown nor pselect6. Then an event of either variant, which ran, is handled
  -- to its end if the two are in step: `processVariantEvent` does not block and does not call exit, and
  -- unless it returns -1 the variants are in step again.
  pub process_variant_event-InStep :
      (s : Side) (w : World)
      → InStep w
      → running (variant s w).pid w.trace ≡ true
      → Returns InStep (process_variant_event k s (other s) (log (event (variant s w).pid) w))
  process_variant_event-InStep first w h ran =
      Returns-mono _ _ (process_variant_event k first second (log (event w.master.pid) w))
        (master_event-Meets k stops alternates avoids w h ran) λ w' met. met.0
  process_variant_event-InStep second w h ran =
      Returns-mono _ _ (process_variant_event k second first (log (event w.replica.pid) w))
        (replica_event-Meets k stops alternates avoids w h ran) λ w' met. met.0
