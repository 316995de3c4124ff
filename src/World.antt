-- ===== src/World.antt =====
-- The state of the monitor (Monitor/src/variant.h and the globals of variant.c and mappings.c), and
-- the shape of its functions: a step from one state to an outcome and the next state.
pub mod Monad
use aurora_mvee.Base.{ℕ, zero, suc, List, [], ◌∷◌, Bool, true, false, ◌==◌, if◌then◌else◌}
use aurora_mvee.Kernel.{
  Pid, Addr, Trace, Request, Stop, no_stop, entry_stop, exit_stop, seccomp_stop,
}

-- VSTATE_RUNNING and VSTATE_WAIT.
pub data State : Type 0 where
  running wait : State

-- VTYPE_master and VTYPE_replica.
pub data VType : Type 0 where
  master replica : VType

-- PTRACE_SYSCALL_INFO_NONE, _ENTRY, _EXIT and _SECCOMP.
pub data Op : Type 0 where
  none entry exit seccomp : Op

-- `struct ptrace_syscall_info`. Its members `entry` and `exit` share their storage, which is kept as
-- the union's 64-bit words: `entry.nr` and `exit.rval` are word 0, `entry.args[i]` is word i + 1, and
-- `exit.is_error` is the low byte of word 1.
pub record SyscallInfo : Type 0 where
  pub op : Op
  pub words : ℕ → ℕ

pub record Variant : Type 0 where
  pub pid : Pid
  pub state : State
  pub type : VType
  pub syscall_num : ℕ
  pub syscall_info : SyscallInfo

-- `syscallInfo.entry.nr`.
abbrev pub nr : Variant → ℕ
nr v = v.syscall_info.words 0

-- `syscallInfo.entry.args[i]`.
abbrev pub arg : Variant → ℕ → ℕ
arg v i = v.syscall_info.words (suc i)

-- `syscallInfo.exit.rval`, as its 64-bit pattern.
abbrev pub rval : Variant → ℕ
rval v = v.syscall_info.words 0

-- The words that PTRACE_GET_SYSCALL_INFO leaves in a structure that was zeroed before: the kernel
-- writes no more than the members of the stop's own kind.
abbrev pub exit_words : ℕ → ℕ → ℕ → ℕ
exit_words rval is_error zero = rval
exit_words rval is_error (suc zero) = is_error
exit_words rval is_error (suc (suc i)) = 0

abbrev pub entry_words : ℕ → (ℕ → ℕ) → ℕ → ℕ
entry_words nr args zero = nr
entry_words nr args (suc i) = args i

abbrev pub info_of : Stop → SyscallInfo
info_of no_stop = record { op = Op.none; words = λ i. 0 }
info_of (entry_stop nr args) = record { op = entry; words = entry_words nr args }
info_of (exit_stop rval is_error) = record { op = exit; words = exit_words rval is_error }
info_of (seccomp_stop nr args) = record { op = seccomp; words = entry_words nr args }

-- `variantMMap`.
pub record Mapping : Type 0 where
  pub addr : Addr
  pub len : ℕ
  pub prot : ℕ
  pub flags : ℕ

-- A buffer of the monitor, by the offset from its first byte. Offsets past its end are the memory
-- that lies behind it.
abbrev pub Buf : Type 0
Buf = ℕ → ℕ

pub record World : Type 0 where
  pub master : Variant
  pub replica : Variant
  -- the list that `mappings` heads, without its dummy node
  pub mappings : List Mapping
  -- `bufA` and `bufB` of variant.c
  pub buf_a : Buf
  pub buf_b : Buf
  -- `newfstatat_bufA` and `newfstatat_bufB` of newfstatat.c
  pub stat_buf_a : Buf
  pub stat_buf_b : Buf
  -- the requests made of the kernel
  pub trace : Trace

-- Which of the two `variant` structures of `main` a `variant *` points to.
pub data Side : Type 0 where
  first second : Side

abbrev pub variant : Side → World → Variant
variant first w = w.master
variant second w = w.replica

abbrev pub other : Side → Side
other first = second
other second = first

abbrev pub set_variant : Side → Variant → World → World
set_variant first v w = record w { master = v }
set_variant second v w = record w { replica = v }

abbrev pub log : Request → World → World
log q w = record w { trace = q ∷ w.trace }
