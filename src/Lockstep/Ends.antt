-- ===== src/Lockstep/Ends.antt =====
-- How a run of the loop of `main` can end: Monitor/src/monitor.c.
use aurora_mvee.Base.{
  ℕ, zero, suc, ◌≡◌, ◌≢◌, sym, subst, Bool, true, false, Option, some, arith, ◌==◌, Bool-cases, inl,
  inr, if◌then◌else◌,
}
use aurora_mvee.Kernel.{Kernel, Pid, Status}
use aurora_mvee.Kernel.Laws.{Stops, Alternates, conts, running}
use aurora_mvee.World.{World}
use aurora_mvee.World.Monad.{Outcome, ok, failed, blocked, terminated, and_then}
use aurora_mvee.Monitor.{reported, main_round, main_start, main_loop}
use aurora_mvee.Lockstep.{InStep, Avoids, Reports}
use aurora_mvee.Lockstep.Start.{main_start-InStep}
use aurora_mvee.Lockstep.Progress.{Wakes, Proceeds, reported-Proceeds, woken}

-- The function returns 0 or exits: it does not return -1 and does not wait for ever.
abbrev pub Ends : {A : Type 0} → Outcome A → Type 0
Ends (ok a w) = Unit
Ends (failed w) = ⊥
Ends (blocked w) = ⊥
Ends (terminated w) = Unit

-- A round ends, and it goes on only with the variants in step.
abbrev RoundEnds : Outcome Bool → Type 0
RoundEnds (ok true w) = InStep w
RoundEnds (ok false w) = Unit
RoundEnds (failed w) = ⊥
RoundEnds (blocked w) = ⊥
RoundEnds (terminated w) = Unit

Proceeds-RoundEnds : (o : Option (Pid × Status)) (r : Outcome Bool) → Proceeds o r → RoundEnds r
Proceeds-RoundEnds o (ok true w) h = h
Proceeds-RoundEnds o (ok false w) h = tt
Proceeds-RoundEnds o (failed w) h = h
Proceeds-RoundEnds o (blocked w) h = h
Proceeds-RoundEnds o (terminated w) h = tt

module _ (k : Kernel) (stops : Stops k) (alternates : Alternates k) (avoids : Avoids k)
    (reports : Reports k) (wakes : (p : Pid) → Wakes k p) where
  -- A process that `main` has not started makes it exit.
  reported-RoundEnds :
      (w : World) (p : Pid) (st : Status)
      → InStep w
      → running p w.trace ≡ true
      → RoundEnds (reported k (some (p, st)) w)
  unfolding reported
  reported-RoundEnds w p st h ran = elim (Bool-cases (p == w.master.pid)) [
    | inl is_m ↦
        Proceeds-RoundEnds (some (p, st)) (reported k (some (p, st)) w)
          (reported-Proceeds k stops alternates avoids w p st h ran (inl (ground (arith, is_m))))
    | inr not_m ↦ elim (Bool-cases (p == w.replica.pid)) [
      | inl is_r ↦
          Proceeds-RoundEnds (some (p, st)) (reported k (some (p, st)) w)
            (reported-Proceeds k stops alternates avoids w p st h ran (inr (ground (arith, is_r))))
      | inr not_r ↦ rw (not_m, not_r) tt
    ]
  ]

  main_round-RoundEnds : (w : World) → InStep w → RoundEnds (main_round k w)
  unfolding main_round
  main_round-RoundEnds w h =
      let (p, st, e) = woken k w (wakes w.master.pid) (wakes w.replica.pid) h in
      subst (λ o. RoundEnds (reported k o w)) (sym e)
        (reported-RoundEnds w p st h (reports w.trace p st e))

  go_on-Ends :
      (rounds : ℕ) (r : Outcome Bool)
      → ((w : World) → InStep w → Ends (main_loop k rounds w))
      → RoundEnds r
      → Ends (and_then r λ goes_on w. if goes_on then main_loop k rounds w else ok tt w)
  go_on-Ends rounds (ok true w) ih h = ih w h
  go_on-Ends rounds (ok false w) ih h = tt
  go_on-Ends rounds (failed w) ih h = h
  go_on-Ends rounds (blocked w) ih h = h
  go_on-Ends rounds (terminated w) ih h = h

  main_loop-InStep : (rounds : ℕ) (w : World) → InStep w → Ends (main_loop k rounds w)
  unfolding main_loop
  main_loop-InStep zero w h = tt
  main_loop-InStep (suc rounds) w h =
      go_on-Ends rounds (main_round k w) (main_loop-InStep rounds) (main_round-RoundEnds w h)

-- Let the kernel keep to ptrace(2) and wait(2), also for other tracees than the variants, with no stops
-- of the variants but those at the entry and the exit of a call, let each tracee that runs wake
-- waitpid(-1), let no variant exit while the monitor waits for it, and let the variants call neither shutdown nor pselect6. Then, from the state in which `main` has
-- started both variants, no number of rounds of its loop leads to a wait for ever: after that number of
-- rounds the monitor still goes on, or its loop has ended, or it has called exit.
pub main_loop-Ends :
    (k : Kernel) (pid_m pid_r : Pid) (w w1 : World) (rounds : ℕ)
    → Stops k
    → Alternates k
    → Avoids k
    → Reports k
    → ((p : Pid) → Wakes k p)
    → pid_m ≢ pid_r
    → conts pid_m w.trace ≡ 0
    → conts pid_r w.trace ≡ 0
    → main_start k pid_m pid_r w ≡ ok tt w1
    → Ends (main_loop k rounds w1)
main_loop-Ends k pid_m pid_r w w1 rounds stops alternates avoids reports wakes distinct fresh_m
      fresh_r start =
    main_loop-InStep k stops alternates avoids reports wakes rounds w1
      (main_start-InStep k pid_m pid_r w w1 distinct fresh_m fresh_r start)
