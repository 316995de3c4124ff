-- ===== src/Kernel.antt =====
-- The ptrace and waitpid interface of the operating system, as the monitor uses it. The kernel and
-- the traced programs are not part of the repository: they are a parameter, an arbitrary function
-- from the requests made so far to the answers.
pub mod Laws
use aurora_mvee.Base.{ℕ, Option, List}

abbrev pub Pid : Type 0
Pid = ℕ

abbrev pub Addr : Type 0
Addr = ℕ

-- The registers of a tracee, by their index in <sys/reg.h>.
abbrev pub Regs : Type 0
Regs = ℕ → ℕ

abbrev pub reg_rax : ℕ
reg_rax = 10

abbrev pub reg_rdx : ℕ
reg_rdx = 12

abbrev pub reg_rsi : ℕ
reg_rsi = 13

abbrev pub reg_rdi : ℕ
reg_rdi = 14

abbrev pub reg_orig_rax : ℕ
reg_orig_rax = 15

-- What `wait(2)` reports: WIFEXITED, WIFSIGNALED or a stop.
pub data Status : Type 0 where
  exited : ℕ → Status
  signaled : ℕ → Status
  stopped : ℕ → Status

-- What PTRACE_GET_SYSCALL_INFO reports.
pub data Stop : Type 0 where
  no_stop : Stop
  entry_stop : (nr : ℕ) (args : ℕ → ℕ) → Stop
  exit_stop : (rval is_error : ℕ) → Stop
  seccomp_stop : (nr : ℕ) (args : ℕ → ℕ) → Stop

-- The requests that change the state of a tracee or consume one of its events.
pub data Request : Type 0 where
  -- ptrace(PTRACE_SYSCALL, pid)
  cont : Pid → Request
  -- waitpid(pid)
  waited : Pid → Request
  -- waitpid(-1), which has reported `pid`
  event : Pid → Request
  -- ptrace(PTRACE_POKEDATA, pid, addr, word)
  poke_data : Pid → Addr → ℕ → Request
  -- ptrace(PTRACE_POKEUSER, pid, 8 * register, value)
  poke_user : Pid → ℕ → ℕ → Request
  -- ptrace(PTRACE_SETOPTIONS, pid, 0, options)
  set_options : Pid → ℕ → Request
  -- ptrace(PTRACE_SETREGS, pid)
  set_regs : Pid → Regs → Request
  -- process_vm_writev to `addr`, which has written `count` bytes
  vm_write : Pid → Addr → (count : ℕ) → (bytes : ℕ → ℕ) → Request
  -- kill(pid, SIGKILL)
  kill : Pid → Request

-- The newest request stands first.
abbrev pub Trace : Type 0
Trace = List Request

pub record Kernel : Type 0 where
  -- the answer to PTRACE_GET_SYSCALL_INFO
  pub stop : Trace → Pid → Stop
  -- what waitpid(pid) reports; `none` if it never returns
  pub status : Trace → Pid → Option Status
  -- what waitpid(-1) reports; `none` if it never returns
  pub next : Trace → Option (Pid × Status)
  -- the word that PTRACE_PEEKDATA returns, -1 at an address that cannot be read
  pub peek : Trace → Pid → Addr → ℕ
  -- the answer to PTRACE_GETREGS
  pub regs : Trace → Pid → Regs
