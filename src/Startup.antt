-- ===== src/Startup.antt =====
-- The start of the monitor: `main` of Monitor/src/monitor.c up to its loop, and what the child of
-- `createVariant` in Monitor/src/variant.c does, as it is built without USE_DIRECT_TRANSFER.
pub mod Cores
pub mod Hangs
use Prim.Native.String.{String}
use aurora_mvee.Base.{
  ℕ, zero, suc, ◌+◌, ◌-◌, Bool, true, false, Option, none, some, List, [], ◌∷◌, ltb, if◌then◌else◌,
}
use aurora_mvee.Words.{u64_mod, wrap}
use aurora_mvee.Kernel.{Kernel, Pid}
use aurora_mvee.World.{VType}
use aurora_mvee.World.Monad.{M, terminated, pure, ◌>>◌}
use aurora_mvee.Monitor.{main_start}

-- The answers of the operating system to what is no request about a tracee.
pub record Host : Type 0 where
  -- sysconf(_SC_NPROCESSORS_ONLN); `none` if it returns -1
  pub cores : Option ℕ
  -- whether sched_setaffinity accepts the mask of CPU_ZERO and CPU_SET(core)
  pub pins : (core : ℕ) → Bool
  -- whether execvpe runs the file, so that it does not return; the file can be NULL
  pub execs : (file : Option String) (args : List String) → Bool

-- What a process does before it runs another program, or instead.
pub data Act : Type 0 where
  -- sched_setaffinity with the mask of one core
  set_affinity : (core : ℕ) → Act
  -- ptrace(PTRACE_TRACEME)
  trace_me : Act
  -- execvpe
  exec : (file : Option String) (args : List String) → Act
  -- exit
  quit : (code : ℕ) → Act

abbrev pub exit_failure : ℕ
exit_failure = 1

-- `argc`.
unfoldable pub length {ℓ} : {A : Type ℓ} → List A → ℕ
length [] = 0
length (x ∷ xs) = suc (length xs)

-- `argv[i]`, which is NULL behind the last argument.
unfoldable pub get_elem? {ℓ} : {A : Type ℓ} → List A → ℕ → Option A
get_elem? [] i = none
get_elem? (x ∷ xs) zero = some x
get_elem? (x ∷ xs) (suc i) = get_elem? xs i

-- `argv + 1`.
abbrev pub tail {ℓ} : {A : Type ℓ} → List A → List A
tail [] = []
tail (x ∷ xs) = xs

-- `systemCores - 1`, the core of the monitor; a `long` is its pattern of 64 bits.
unfoldable pub monitor_core : (cores : ℕ) → ℕ
monitor_core n = wrap (n + (u64_mod - 1))

-- `systemCores - 2` and `systemCores - 3`.
unfoldable pub variant_core : VType → (cores : ℕ) → ℕ
variant_core VType.master n = wrap (n + (u64_mod - 2))
variant_core VType.replica n = wrap (n + (u64_mod - 3))

module _ (h : Host) where
  -- `createVariant`: what the child does, the oldest act first.
  unfoldable pub create_variant : (argv : List String) (core : ℕ) → List Act
  create_variant argv core =
      let file = get_elem? argv 1 in
      set_affinity core
      ∷ (if h.pins core
          then trace_me
            ∷ exec file (tail argv)
            ∷ (if h.execs file (tail argv) then [] else quit exit_failure ∷ [])
          else quit exit_failure ∷ [])

  -- What `main` does behind its sysconf.
  unfoldable pub begin_on : (k : Kernel) (cores : Option ℕ) (pid_m pid_r : Pid) → M Bool
  begin_on k none pid_m pid_r w = terminated w
  begin_on k (some n) pid_m pid_r w =
      if h.pins (monitor_core n) then (main_start k pid_m pid_r >> pure true) w else terminated w

  -- `main` up to its loop, with the process ids that `fork` returned: whether it comes to the loop.
  -- Where it does not, it has printed the usage and returned 1.
  unfoldable pub begin_main : (k : Kernel) (argv : List String) (pid_m pid_r : Pid) → M Bool
  unfolding begin_on
  begin_main k argv pid_m pid_r =
      if ltb (length argv) 1 then pure false else begin_on k h.cores pid_m pid_r
