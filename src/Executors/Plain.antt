-- ===== src/Executors/Plain.antt =====
-- Calls that each variant runs by itself: brk.c, arch_prctl.c, set_robust_list.c, prlimit64.c,
-- rt_sigaction.c, rt_sigprocmask.c, exit_group.c, lseek.c, socket.c, setsockopt.c, rseq.c,
-- fadvise64.c and shutdown.c of Monitor/src/sys.
use aurora_mvee.Base.{false, ◌&&◌, ◌||◌, ◌==◌}
use aurora_mvee.Kernel.{Kernel}
use aurora_mvee.Words.{to_u32}
use aurora_mvee.World.{Side, variant, arg}
use aurora_mvee.World.Monad.{M, gets, require, or_else, ◌>>=◌, ◌>>◌}
use aurora_mvee.Variant.{resume_variant_from_wait, resume_variant_from_exit}
use aurora_mvee.Memory.{variant_mem_cmp}
use aurora_mvee.Executors.Args.{same_arg, check, arg_of, resume_both}

unfoldable pub exec_syscall_brk : (master replica : Side) → M (Unit {0})
exec_syscall_brk m r = resume_both m r

unfoldable pub exec_syscall_set_robust_list : (master replica : Side) → M (Unit {0})
exec_syscall_set_robust_list m r = resume_both m r

-- Compares the code, not the address.
unfoldable pub exec_syscall_arch_prctl : (master replica : Side) → M (Unit {0})
exec_syscall_arch_prctl m r = do check (same_arg m r 0); resume_both m r

-- Compares the resource.
unfoldable pub exec_syscall_prlimit64 : (master replica : Side) → M (Unit {0})
exec_syscall_prlimit64 m r = do check (same_arg m r 1); resume_both m r

-- Compares the signal's number, not the handlers.
unfoldable pub exec_syscall_rt_sigaction : (master replica : Side) → M (Unit {0})
exec_syscall_rt_sigaction m r = do check (same_arg m r 0); resume_both m r

unfoldable pub exec_syscall_exit_group : (master replica : Side) → M (Unit {0})
exec_syscall_exit_group m r = do check (same_arg m r 0); resume_both m r

unfoldable pub exec_syscall_lseek : (master replica : Side) → M (Unit {0})
exec_syscall_lseek m r = do
  check λ w. same_arg m r 0 w && same_arg m r 1 w && same_arg m r 2 w
  resume_both m r

unfoldable pub exec_syscall_socket : (master replica : Side) → M (Unit {0})
exec_syscall_socket m r = do
  check λ w. same_arg m r 0 w && same_arg m r 1 w && same_arg m r 2 w
  resume_both m r

-- The variants are resumed before the result of the comparison is looked at.
unfoldable pub exec_syscall_rseq : (master replica : Side) → M (Unit {0})
exec_syscall_rseq m r = do
  eq ← gets λ w. same_arg m r 1 w && same_arg m r 2 w && same_arg m r 3 w
  resume_variant_from_wait m
  resume_variant_from_wait r
  require eq

unfoldable pub exec_syscall_fadvise64 : (master replica : Side) → M (Unit {0})
exec_syscall_fadvise64 m r = do
  eq ← gets λ w. same_arg m r 0 w && same_arg m r 1 w && same_arg m r 2 w && same_arg m r 3 w
  resume_variant_from_wait m
  resume_variant_from_wait r
  require eq

-- Both variants stand at the call's entry, and are resumed as if from its exit.
unfoldable pub exec_syscall_shutdown : (master replica : Side) → M (Unit {0})
exec_syscall_shutdown m r = do
  check λ w. same_arg m r 0 w && same_arg m r 1 w
  resume_variant_from_exit m
  resume_variant_from_exit r

module _ (k : Kernel) where
  -- Where the master's `set` is NULL, `how` is not compared.
  unfoldable pub exec_syscall_rt_sigprocmask : (master replica : Side) → M (Unit {0})
  exec_syscall_rt_sigprocmask m r = do
    check λ w. (arg (variant m w) 1 == 0) || same_arg m r 0 w
    set_m ← arg_of m 1
    set_r ← arg_of r 1
    size ← arg_of m 3
    same ← or_else false (variant_mem_cmp k m set_m r set_r size)
    require same
    resume_both m r

  -- The option's length is cut to 32 bits for the master alone.
  unfoldable pub exec_syscall_setsockopt : (master replica : Side) → M (Unit {0})
  exec_syscall_setsockopt m r = do
    check λ w.
        same_arg m r 0 w
        && same_arg m r 1 w
        && same_arg m r 2 w
        && (to_u32 (arg (variant m w) 4) == arg (variant r w) 4)
    value_m ← arg_of m 3
    value_r ← arg_of r 3
    len ← arg_of m 4
    same ← or_else false (variant_mem_cmp k m value_m r value_r (to_u32 len))
    require same
    resume_both m r
