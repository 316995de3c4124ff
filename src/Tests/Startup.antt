-- ===== src/Tests/Startup.antt =====
-- The start of the monitor on four cores, and on two.
use Prim.Native.String.{String}
use aurora_mvee.Base.{
  ℕ, suc, ◌-◌, ◌≤◌, ◌≡◌, refl, sym, subst, true, Option, none, some, List, [], ◌∷◌, arith, ltb,
  ◌==◌, if◌then◌else◌, Bool-cases, inl, inr,
}
use aurora_mvee.Words.{minus_one}
use aurora_mvee.Kernel.{Kernel, Pid, Trace, Status, exited, stopped}
use aurora_mvee.Kernel.Laws.{conts, running, Alternates}
use aurora_mvee.World.{World, VType}
use aurora_mvee.World.Monad.{ok, blocked}
use aurora_mvee.Monitor.{main_loop}
use aurora_mvee.Lockstep.{InStep, Reports}
use aurora_mvee.Lockstep.Phases.{free, phase}
use aurora_mvee.Lockstep.Progress.{Children}
use aurora_mvee.Startup.{
  Host, set_affinity, quit, exit_failure, length, monitor_core, variant_core, create_variant,
  begin_main,
}
use aurora_mvee.Startup.Cores.{Born, traced_on, begin_main-Starts}
use aurora_mvee.Startup.Hangs.{Lives, Reaped, begin_main-Hangs}
use aurora_mvee.Tests.{kernel, initial, stop_at, kernel-Alternates, reported_pid}

abbrev host : ℕ → Host
host n = record { cores = some n; pins = λ core. ltb core n; execs = λ file args. true }

abbrev args : List String
args = "MVEE" ∷ "ls" ∷ []

args-some : 1 ≤ length args
unfolding length
args-some = omega arith

kernel-Born : Born kernel
kernel-Born t p unborn = (stopped 5, refl)

begin_main-Starts_example :
    ((w' : World) × (begin_main (host 4) kernel args 10 11 initial ≡ ok true w')
      × InStep w'
      × (phase w' ≡ free))
    × (monitor_core 4 ≡ 4 - 1)
    × (create_variant (host 4) args (variant_core VType.master 4) ≡ traced_on (4 - 2) args)
    × (create_variant (host 4) args (variant_core VType.replica 4) ≡ traced_on (4 - 3) args)
begin_main-Starts_example =
    begin_main-Starts (host 4) kernel args 4 10 11 initial refl (omega arith) (omega arith)
      (λ core. refl) args-some refl kernel-Born (omega arith) refl

-- The replica has exited at once, and the master stops whenever it was resumed.
abbrev lone_next : Trace → Option (Pid × Status)
lone_next t = if running 10 t then some (10, stopped 5) else none

abbrev lone : Kernel
lone = record {
  stop = λ t p. stop_at 12 (conts p t);
  status = λ t p. some (if p == 11 then exited 1 else stopped 5);
  next = lone_next;
  peek = λ t p a. 0;
  regs = λ t p r. 0;
}

lone-Born : Born lone
lone-Born t p unborn = (if p == 11 then exited 1 else stopped 5, refl)

lone-Alternates : Alternates lone
lone-Alternates = record {
  at_entry = kernel-Alternates.at_entry;
  at_exit = kernel-Alternates.at_exit;
}

lone_next-inv :
    (t : Trace) (p : Pid) (st : Status)
    → lone_next t ≡ some (p, st)
    → (10 ≡ p) × (stopped 5 ≡ st) × (running 10 t ≡ true)
lone_next-inv t p st e = elim (Bool-cases (running 10 t)) [
  | inl ran ↦ (reported_pid (rw ran at e), cc (rw ran at e), ran)
  | inr still ↦ cc (rw still at e)
]

lone-Reports : Reports lone
lone-Reports t p st e =
    let (is, same, ran) = lone_next-inv t p st e in subst (λ q. running q t ≡ true) is ran

lone-Children : Children lone 10 11
lone-Children t p st e = inl (sym (lone_next-inv t p st e).0)

lone-Lives : Lives lone 10
lone-Lives t st e = (5, sym (lone_next-inv t 10 st e).1)

lone-Reaped : Reaped lone 11 (create_variant (host 2) args (variant_core VType.replica 2))
lone-Reaped quits t st reaped e = omega (arith, (lone_next-inv t 11 st e).0)

begin_main-Hangs_example :
    (create_variant (host 2) args (variant_core VType.replica 2)
      ≡ set_affinity minus_one ∷ quit exit_failure ∷ [])
    × (w1 : World) × (begin_main (host 2) lone args 10 11 initial ≡ ok true w1)
    × (w2 : World) × (main_loop lone (suc (suc 5)) w1 ≡ blocked w2)
begin_main-Hangs_example =
    begin_main-Hangs (host 2) lone args 5 10 11 initial refl (λ core. refl) args-some lone-Born
      lone-Alternates lone-Reports lone-Children lone-Lives lone-Reaped (omega arith) refl
