-- ===== src/Lockstep.antt =====
-- The invariant of the loop of `main` in Monitor/src/monitor.c: the two variants go through the
-- same system calls in step.
pub mod Entries
pub mod Events
pub mod Phases
pub mod Progress
pub mod Ends
pub mod Refinement
pub mod Rounds
pub mod Runs
pub mod Scripts
pub mod Shutdown
pub mod Start
use aurora_mvee.Base.{ℕ, ◌+◌, ◌*◌, ◌≤◌, ◌≡◌, ◌≢◌, Bool, true, false, not, ◌&&◌, some, List}
use aurora_mvee.Kernel.{Kernel, Trace, Pid, Status, entry_stop}
use aurora_mvee.Kernel.Laws.{running}
use aurora_mvee.World.{World, State}
use aurora_mvee.Monitor.{is_wait}
use aurora_mvee.Monitor.Numbers.{Syscall, select}
use aurora_mvee.Protocol.{View, Control, control, IsPaired}

-- A variant has begun `calls` system calls, of which the monitor has counted all that have ended but
-- for a number that the two variants have in common. It is resumed twice for each: `conts` is
-- `2 * calls + 1` outside a call and `2 * calls` inside the last one. A variant waits only at the
-- entry of the next call, and runs while it does not wait.
pub record Lane (calls counted : ℕ) (v : View) : Type 0 where
  pub started : 1 ≤ v.conts
  pub low : 2 * calls ≤ v.conts
  pub high : v.conts ≤ 2 * calls + 1
  pub count : v.num + 1 + 2 * calls ≡ counted + v.conts
  pub at_entry : is_wait v.state ≡ true → v.conts ≡ 2 * calls + 1
  pub runs : v.runs ≡ not (is_wait v.state)

pub record InLanes (c : Control) : Type 0 where
  pub calls : ℕ
  pub counted : ℕ
  pub master : Lane calls counted c.master
  pub replica : Lane calls counted c.replica
  pub one_runs : (is_wait c.master.state && is_wait c.replica.state) ≡ false

-- Between two rounds of the loop.
pub record InStep (w : World) : Type 0 where
  pub paired : IsPaired w
  pub lanes : InLanes (control w)

-- waitpid(-1) reports a tracee that was running.
abbrev pub Reports : Kernel → Type 0
Reports k = (t : Trace) (p : Pid) (st : Status) → k.next t ≡ some (p, st) → running p t ≡ true

-- The variants make neither of the two calls whose executors leave the protocol.
pub record Avoids (k : Kernel) : Type 0 where
  pub shutdown :
      (t : Trace) (p : Pid) (nr : ℕ) (args : ℕ → ℕ)
      → k.stop t p ≡ entry_stop nr args
      → select nr ≢ some Syscall.shutdown
  pub pselect6 :
      (t : Trace) (p : Pid) (nr : ℕ) (args : ℕ → ℕ)
      → k.stop t p ≡ entry_stop nr args
      → select nr ≢ some Syscall.pselect6
