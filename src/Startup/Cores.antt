-- ===== src/Startup/Cores.antt =====
-- The cores that `main` in Monitor/src/monitor.c needs.
use Prim.Native.String.{String}
use aurora_mvee.Base.{
  ℕ, ◌-◌, ◌≤◌, ◌<◌, ◌≡◌, ◌≢◌, refl, Bool, true, false, some, List, [], ◌∷◌, arith, ltb, ◌==◌, ◌||◌,
}
use aurora_mvee.Words.{wrap}
use aurora_mvee.Kernel.Laws.{conts}
use aurora_mvee.Kernel.{Kernel, Pid, Trace, Status, waited, cont, set_options}
use aurora_mvee.World.{World, VType}
use aurora_mvee.World.Monad.{ok, monad}
use aurora_mvee.Variant.{
  update, request, resume_variant_from_wait, init_variant, wait_pid, configure_child_proc,
  ptrace_o_tracesysgood, ptrace_o_exitkill,
}
use aurora_mvee.Monitor.{main_start}
use aurora_mvee.Lockstep.{InStep}
use aurora_mvee.Lockstep.Phases.{free, phase}
use aurora_mvee.Lockstep.Start.{main_start-InStep, main_start-free}
use aurora_mvee.Startup.{
  Host, Act, set_affinity, trace_me, exec, quit, exit_failure, length, get_elem?, tail,
  monitor_core, variant_core, create_variant, begin_on, begin_main,
}

-- sched_setaffinity accepts the mask of a core that is online. A mask without such a core, as CPU_SET
-- leaves it for a number outside the set, is EINVAL.
abbrev pub Pins : Host → ℕ → Type 0
Pins h n = (core : ℕ) → h.pins core ≡ ltb core n

-- Whether a process has been awaited.
abbrev pub awaited : Pid → Trace → Bool
awaited p [] = false
awaited p (waited q ∷ t) = (p == q) || awaited p t
awaited p (_ ∷ t) = awaited p t

-- waitpid returns for a child that has not been awaited before: it runs its program under ptrace, and
-- is stopped for that, or it has ended.
abbrev pub Born : Kernel → Type 0
Born k =
    (t : Trace) (p : Pid)
    → awaited p t ≡ false
    → (st : Status) × (k.status (waited p ∷ t) p ≡ some st)

module _ (h : Host) (n : ℕ) (pins : Pins h n) (argv : List String) where
  pub create_variant-exec :
      (core : ℕ)
      → ltb core n ≡ true
      → h.execs (get_elem? argv 1) (tail argv) ≡ true
      → create_variant h argv core
        ≡ set_affinity core ∷ trace_me ∷ exec (get_elem? argv 1) (tail argv) ∷ []
  unfolding create_variant
  create_variant-exec core online runs = rw (pins core, online, runs) refl

  pub create_variant-quit :
      (core : ℕ)
      → ltb core n ≡ false
      → create_variant h argv core ≡ set_affinity core ∷ quit exit_failure ∷ []
  unfolding create_variant
  create_variant-quit core offline = rw (pins core, offline) refl

module _ (n : ℕ) (bound : n ≤ 1024) where
  pub replica_core-low : n < 3 → ltb (variant_core VType.replica n) n ≡ false
  unfolding variant_core wrap
  replica_core-low few = ground (arith, few, bound)

  pub master_core-lem : 2 ≤ n → variant_core VType.master n ≡ n - 2
  unfolding variant_core wrap
  master_core-lem enough = ground (arith, enough, bound)

  pub replica_core-lem : 3 ≤ n → variant_core VType.replica n ≡ n - 3
  unfolding variant_core wrap
  replica_core-lem enough = ground (arith, enough, bound)

  pub monitor_core-lem : 1 ≤ n → monitor_core n ≡ n - 1
  unfolding monitor_core wrap
  monitor_core-lem enough = ground (arith, enough, bound)

-- `main` starts both variants if each child can be awaited.
pub main_start-ok :
    (k : Kernel) (pid_m pid_r : Pid) (w : World)
    → Born k
    → pid_m ≢ pid_r
    → w.trace ≡ []
    → (w' : World) × (main_start k pid_m pid_r w ≡ ok tt w')
unfolding main_start init_variant wait_pid configure_child_proc resume_variant_from_wait request
    update monad
main_start-ok k pid_m pid_r w born distinct fresh =
    let (st_m, returns_m) = born w.trace pid_m (rw fresh refl) in
    let before_r : Trace =
      cont pid_m
      ∷ set_options pid_m ptrace_o_tracesysgood
      ∷ set_options pid_m ptrace_o_exitkill
      ∷ waited pid_m
      ∷ w.trace in
    let other : (pid_r == pid_m) ≡ false = ground (arith, distinct) in
    let (st_r, returns_r) = born before_r pid_r (rw (other, fresh) refl) in
    rw (returns_m, wait_pid) (rw (returns_r, wait_pid) (_, refl))

-- `main` comes to its loop.
pub begin_main-ok :
    (h : Host) (k : Kernel) (argv : List String) (n : ℕ) (pid_m pid_r : Pid) (w w' : World)
    → h.cores ≡ some n
    → 1 ≤ n
    → n ≤ 1024
    → Pins h n
    → 1 ≤ length argv
    → main_start k pid_m pid_r w ≡ ok tt w'
    → begin_main h k argv pid_m pid_r w ≡ ok true w'
unfolding begin_main begin_on monad
begin_main-ok h k argv n pid_m pid_r w w' cores some_core bound pins args start =
    let called : ltb (length argv) 1 ≡ false = ground (arith, args) in
    let below : ltb (monitor_core n) n ≡ true =
      rw (monitor_core-lem n bound some_core) (ground (arith, some_core)) in
    rw (called, cores, pins (monitor_core n), below, start) refl

-- The child pins itself to the core, asks to be traced, and runs the program.
abbrev pub traced_on : (core : ℕ) (argv : List String) → List Act
traced_on core argv = set_affinity core ∷ trace_me ∷ exec (get_elem? argv 1) (tail argv) ∷ []

-- Let at least three cores be online, and no more than a cpu_set_t holds; let sched_setaffinity accept
-- just these, let the program be one that can be run, and let waitpid return for a child that was not
-- awaited before. Then `main`, which has made no request, comes to its loop with both variants
-- running and in step, and the monitor and the two variants, which ask to be traced before they run
-- the program, have the last three cores, one each.
pub begin_main-Starts :
    (h : Host) (k : Kernel) (argv : List String) (n : ℕ) (pid_m pid_r : Pid) (w : World)
    → h.cores ≡ some n
    → 3 ≤ n
    → n ≤ 1024
    → Pins h n
    → 1 ≤ length argv
    → h.execs (get_elem? argv 1) (tail argv) ≡ true
    → Born k
    → pid_m ≢ pid_r
    → w.trace ≡ []
    → ((w' : World) × (begin_main h k argv pid_m pid_r w ≡ ok true w')
        × InStep w'
        × (phase w' ≡ free))
      × (monitor_core n ≡ n - 1)
      × (create_variant h argv (variant_core VType.master n) ≡ traced_on (n - 2) argv)
      × (create_variant h argv (variant_core VType.replica n) ≡ traced_on (n - 3) argv)
begin_main-Starts h k argv n pid_m pid_r w cores enough bound pins args runs born distinct fresh =
    let (w', start) = main_start-ok k pid_m pid_r w born distinct fresh in
    let fresh_m : conts pid_m w.trace ≡ 0 = rw fresh refl in
    let fresh_r : conts pid_r w.trace ≡ 0 = rw fresh refl in
    let core_m : variant_core VType.master n ≡ n - 2 =
      master_core-lem n bound (omega (arith, enough)) in
    let core_r : variant_core VType.replica n ≡ n - 3 = replica_core-lem n bound enough in
    (
      (
        w',
        begin_main-ok h k argv n pid_m pid_r w w' cores (omega (arith, enough)) bound pins args
            start,
        main_start-InStep k pid_m pid_r w w' distinct fresh_m fresh_r start,
        main_start-free k pid_m pid_r w w' distinct fresh_m fresh_r start,
      ),
      monitor_core-lem n bound (omega (arith, enough)),
      rw core_m (create_variant-exec h n pins argv (n - 2) (ground (arith, enough)) runs),
      rw core_r (create_variant-exec h n pins argv (n - 3) (ground (arith, enough)) runs),
    )
