-- ===== src/Lockstep/Refinement.antt =====
-- The loop of `main` in Monitor/src/monitor.c as a rendezvous.
use aurora_mvee.Base.{◌≡◌, ◌≢◌, true, ◌∷◌}
use aurora_mvee.Kernel.{Kernel, Pid, event}
use aurora_mvee.Kernel.Laws.{Stops, Alternates, conts}
use aurora_mvee.World.{World, Side, variant}
use aurora_mvee.World.Monad.{ok}
use aurora_mvee.Monitor.{main_round, main_start}
use aurora_mvee.Lockstep.{Avoids, Reports}
use aurora_mvee.Lockstep.Phases.{free, Rendezvous, phase}
use aurora_mvee.Lockstep.Runs.{Reach, Reach-InStep, main_round-Meets}
use aurora_mvee.Lockstep.Start.{main_start-InStep, main_start-free}

-- Let the kernel keep to ptrace(2) and wait(2), with no stops of the variants but those at the entry
-- and the exit of a call, let no variant exit while the monitor waits for it, and let the variants call
-- neither shutdown nor pselect6. Then the loop of `main` begins with both
-- variants running, and each of its rounds after which it goes on is one step of a rendezvous, by one
-- of the variants and the stop that the kernel reports of it: so none of the two passes a system call
-- before the other one has made the same known call, with the same of the arguments that the call
-- compares as they are before any path, and the call that is compared is the one that the variant was held at.
pub main-Rendezvous :
    (k : Kernel) (pid_m pid_r : Pid) (w w1 w2 w3 : World)
    → Stops k
    → Alternates k
    → Avoids k
    → Reports k
    → pid_m ≢ pid_r
    → conts pid_m w.trace ≡ 0
    → conts pid_r w.trace ≡ 0
    → main_start k pid_m pid_r w ≡ ok tt w1
    → Reach k w1 w2
    → main_round k w2 ≡ ok true w3
    → (phase w1 ≡ free)
      × (s : Side) × Rendezvous
          (phase w2)
          s
          (k.stop (event (variant s w2).pid ∷ w2.trace) (variant s w2).pid)
          (phase w3)
main-Rendezvous k pid_m pid_r w w1 w2 w3 stops alternates avoids reports distinct fresh_m fresh_r
      start reach round =
    let began = main_start-InStep k pid_m pid_r w w1 distinct fresh_m fresh_r start in
    let in_step = Reach-InStep k stops alternates avoids reports began reach in
    let (s, met) = main_round-Meets k stops alternates avoids w2 in_step w3 reports round in
    (main_start-free k pid_m pid_r w w1 distinct fresh_m fresh_r start, s, met.1)
