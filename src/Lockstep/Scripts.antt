-- ===== src/Lockstep/Scripts.antt =====
-- The scripts from a control in which both variants stand at the entry of the same call.
use aurora_mvee.Base.{◌≢◌, ℕ, suc, ◌+◌, ◌*◌, ◌≡◌, refl, false, some, arith}
use aurora_mvee.Monitor.{is_wait}
use aurora_mvee.Monitor.Numbers.{Syscall}
use aurora_mvee.Protocol.Dispatch.{script}
use aurora_mvee.Protocol.{View, Control, Act, run}
use aurora_mvee.Protocol.Scripts.Shapes.{
  both_complete_uncounted, master_completes, both_enter, both_complete,
}
use aurora_mvee.Lockstep.{InLanes}
use aurora_mvee.Base.{List}

-- At the entry of a call, with `calls` calls begun before.
pub record AtEntry (calls counted : ℕ) (v : View) : Type 0 where
  pub conts : v.conts ≡ 2 * calls + 1
  pub num : v.num ≡ counted
  pub stopped : v.runs ≡ false

-- Neither variant is marked as waiting.
abbrev pub NoneWaits : Control → Type 0
NoneWaits c = (is_wait c.master.state ≡ false) × (is_wait c.replica.state ≡ false)

-- What a script has to do.
abbrev pub StaysInLanes : List Act → Control → Type 0
StaysInLanes xs c = (c' : Control) × (run xs c ≡ some c') × InLanes c' × NoneWaits c'

-- The calls whose executors keep to the protocol.
abbrev pub IsRegular : Syscall → Type 0
IsRegular call = (call ≢ Syscall.shutdown) × (call ≢ Syscall.pselect6)

module _ (calls counted : ℕ) (c : Control) (m : AtEntry calls counted c.master)
    (r : AtEntry calls counted c.replica) where
  both_enter-lanes : StaysInLanes both_enter c
  both_enter-lanes = (
    _,
    refl,
    record {
      calls = suc calls;
      counted = suc counted;
      master = ground arith;
      replica = ground arith;
      one_runs = refl;
    },
    (refl, refl),
  )

  both_complete-lanes : StaysInLanes both_complete c
  both_complete-lanes = (
    _,
    refl,
    record {
      calls = suc calls;
      counted = suc counted;
      master = ground arith;
      replica = ground arith;
      one_runs = refl;
    },
    (refl, refl),
  )

  both_complete_uncounted-lanes : StaysInLanes both_complete_uncounted c
  both_complete_uncounted-lanes = (
    _,
    refl,
    record {
      calls = suc calls;
      counted = counted;
      master = ground arith;
      replica = ground arith;
      one_runs = refl;
    },
    (refl, refl),
  )

  master_completes-lanes : StaysInLanes master_completes c
  master_completes-lanes = (
    _,
    refl,
    record {
      calls = suc calls;
      counted = suc counted;
      master = ground arith;
      replica = ground arith;
      one_runs = refl;
    },
    (refl, refl),
  )

  -- Each script of a regular call runs to its end, and leaves both variants in their lanes.
  pub script-lanes : (call : Syscall) → IsRegular call → StaysInLanes (script call) c
  script-lanes Syscall.getuid regular = both_enter-lanes
  script-lanes Syscall.geteuid regular = both_enter-lanes
  script-lanes Syscall.getgid regular = both_enter-lanes
  script-lanes Syscall.getegid regular = both_enter-lanes
  script-lanes Syscall.brk regular = both_enter-lanes
  script-lanes Syscall.mmap regular = master_completes-lanes
  script-lanes Syscall.read regular = both_complete-lanes
  script-lanes Syscall.arch_prctl regular = both_enter-lanes
  script-lanes Syscall.openat regular = both_complete-lanes
  script-lanes Syscall.close regular = both_complete-lanes
  script-lanes Syscall.write regular = both_complete-lanes
  script-lanes Syscall.pread64 regular = both_complete-lanes
  script-lanes Syscall.newfstatat regular = both_complete-lanes
  script-lanes Syscall.access regular = both_complete-lanes
  script-lanes Syscall.set_tid_address regular = both_complete-lanes
  script-lanes Syscall.set_robust_list regular = both_enter-lanes
  script-lanes Syscall.mprotect regular = both_enter-lanes
  script-lanes Syscall.munmap regular = both_enter-lanes
  script-lanes Syscall.rseq regular = both_enter-lanes
  script-lanes Syscall.fadvise64 regular = both_enter-lanes
  script-lanes Syscall.getrandom regular = both_complete_uncounted-lanes
  script-lanes Syscall.exit_group regular = both_enter-lanes
  script-lanes Syscall.prlimit64 regular = both_enter-lanes
  script-lanes Syscall.rt_sigaction regular = both_enter-lanes
  script-lanes Syscall.rt_sigprocmask regular = both_enter-lanes
  script-lanes Syscall.unlink regular = both_complete-lanes
  script-lanes Syscall.utimensat regular = both_complete-lanes
  script-lanes Syscall.fchown regular = both_complete-lanes
  script-lanes Syscall.fchmod regular = both_complete-lanes
  script-lanes Syscall.lseek regular = both_enter-lanes
  script-lanes Syscall.getcwd regular = both_enter-lanes
  script-lanes Syscall.getpid regular = both_complete-lanes
  script-lanes Syscall.chdir regular = both_enter-lanes
  script-lanes Syscall.socket regular = both_enter-lanes
  script-lanes Syscall.setsockopt regular = both_enter-lanes
  script-lanes Syscall.bind regular = both_complete-lanes
  script-lanes Syscall.listen regular = both_complete-lanes
  script-lanes Syscall.accept4 regular = both_complete-lanes
  script-lanes Syscall.poll regular = both_complete-lanes
  script-lanes Syscall.shutdown regular = absurd (regular.0 refl)
  script-lanes Syscall.getsockname regular = both_complete-lanes
  script-lanes Syscall.pselect6 regular = absurd (regular.1 refl)
