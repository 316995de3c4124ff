-- ===== src/Executors/Results.antt =====
-- Calls whose result the replica takes from the master: close.c, fchmod.c, fchown.c, getpid.c,
-- listen.c and bind.c of Monitor/src/sys.
use aurora_mvee.Base.{false, ◌&&◌, ◌==◌}
use aurora_mvee.Kernel.{Kernel}
use aurora_mvee.Words.{to_u32}
use aurora_mvee.World.{Side, variant, arg}
use aurora_mvee.World.Monad.{M, gets, require, or_else, ◌>>=◌, ◌>>◌}
use aurora_mvee.Variant.{run_master_replicate_ret, run_both_copy_master_ret}
use aurora_mvee.Memory.{variant_mem_cmp}
use aurora_mvee.Executors.Args.{same_arg, check, arg_of}

module _ (k : Kernel) where
  unfoldable pub exec_syscall_getpid : (master replica : Side) → M (Unit {0})
  exec_syscall_getpid m r = run_master_replicate_ret k m r

  unfoldable pub exec_syscall_close : (master replica : Side) → M (Unit {0})
  exec_syscall_close m r = do check (same_arg m r 0); run_both_copy_master_ret k m r

  unfoldable pub exec_syscall_fchmod : (master replica : Side) → M (Unit {0})
  exec_syscall_fchmod m r = do
    check λ w. same_arg m r 0 w && same_arg m r 1 w
    run_master_replicate_ret k m r

  unfoldable pub exec_syscall_fchown : (master replica : Side) → M (Unit {0})
  exec_syscall_fchown m r = do
    check λ w. same_arg m r 0 w && same_arg m r 1 w && same_arg m r 2 w
    run_master_replicate_ret k m r

  unfoldable pub exec_syscall_listen : (master replica : Side) → M (Unit {0})
  exec_syscall_listen m r = do
    check λ w. same_arg m r 0 w && same_arg m r 1 w
    run_master_replicate_ret k m r

  -- The addresses are compared also where the other arguments differ already.
  unfoldable pub exec_syscall_bind : (master replica : Side) → M (Unit {0})
  exec_syscall_bind m r = do
    eq ← gets λ w. same_arg m r 0 w && (to_u32 (arg (variant m w) 2) == arg (variant r w) 2)
    addr_m ← arg_of m 1
    addr_r ← arg_of r 1
    len ← arg_of m 2
    same ← or_else false (variant_mem_cmp k m addr_m r addr_r (to_u32 len))
    require (eq && same)
    run_master_replicate_ret k m r
