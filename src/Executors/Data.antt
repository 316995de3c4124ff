-- ===== src/Executors/Data.antt =====
-- The calls that move data: read.c, write.c, pread64.c, getrandom.c and set_tid_address.c of
-- Monitor/src/sys.
use aurora_mvee.Base.{ℕ, Bool, false, ◌&&◌, ◌==◌, if◌then◌else◌}
use aurora_mvee.Kernel.{Kernel}
use aurora_mvee.Words.{to_int, minus_one}
use aurora_mvee.World.{World, Side, variant, arg, rval}
use aurora_mvee.World.Monad.{M, gets, require, or_else, pure, ◌>>=◌, ◌>>◌}
use aurora_mvee.Variant.{
  resume_variant_from_wait, resume_variant_from_exit, wait_variant, request_syscall_info,
  set_nop_syscall, set_syscall, set_syscall_return_value, set_lseek_regs, sys_lseek,
}
use aurora_mvee.Memory.{read_variant_mem, write_variant_mem, variant_mem_cmp, transfer_variant_mem}
use aurora_mvee.Executors.Args.{same_arg, check, arg_of}

-- `sizeof(int)`.
abbrev pub sizeof_int : ℕ
sizeof_int = 4

-- `(int) master->...args[0] == replica->...args[0]`, and `masterFd` itself.
abbrev pub same_fd : (master replica : Side) → World → Bool
same_fd m r w = to_int (arg (variant m w) 0) == arg (variant r w) 0

module _ (k : Kernel) where
  -- `if (bytes != -1)` the data is copied, and a failure of the copy is returned.
  unfoldable pub copy_unless_error :
      (master replica : Side) → (buf_m buf_r bytes : ℕ) → M (Unit {0})
  copy_unless_error m r buf_m buf_r bytes =
      if bytes == minus_one then pure tt else transfer_variant_mem k m buf_m r buf_r bytes

  -- The master reads, the replica is given the data and runs a lseek instead.
  unfoldable pub exec_syscall_read : (master replica : Side) → M (Unit {0})
  exec_syscall_read m r = do
    fd ← gets λ w. to_int (arg (variant m w) 0)
    buf_m ← arg_of m 1
    buf_r ← arg_of r 1
    check λ w. same_fd m r w && same_arg m r 2 w
    resume_variant_from_wait m
    wait_variant k m
    request_syscall_info k m
    bytes_read ← gets λ w. rval (variant m w)
    copy_unless_error m r buf_m buf_r bytes_read
    set_lseek_regs k r fd bytes_read
    set_syscall r sys_lseek
    resume_variant_from_wait r
    wait_variant k r
    set_syscall_return_value r bytes_read
    resume_variant_from_exit m
    resume_variant_from_exit r

  -- The registers of a lseek are set in the replica, the number of the call in the master.
  unfoldable pub exec_syscall_write : (master replica : Side) → M (Unit {0})
  exec_syscall_write m r = do
    fd ← gets λ w. to_int (arg (variant m w) 0)
    count ← arg_of m 2
    check λ w. same_fd m r w && same_arg m r 2 w
    buf_m ← arg_of m 1
    buf_r ← arg_of r 1
    same ← or_else false (variant_mem_cmp k m buf_m r buf_r count)
    require same
    resume_variant_from_wait m
    wait_variant k m
    request_syscall_info k m
    bytes_written ← gets λ w. rval (variant m w)
    set_lseek_regs k r fd bytes_written
    set_syscall m sys_lseek
    resume_variant_from_wait r
    wait_variant k r
    set_syscall_return_value r bytes_written
    resume_variant_from_exit m
    resume_variant_from_exit r

  -- The data is copied whatever the master's result is.
  unfoldable pub exec_syscall_pread64 : (master replica : Side) → M (Unit {0})
  exec_syscall_pread64 m r = do
    check λ w. same_arg m r 0 w && same_arg m r 2 w && same_arg m r 3 w
    buf_m ← arg_of m 1
    buf_r ← arg_of r 1
    resume_variant_from_wait m
    wait_variant k m
    request_syscall_info k m
    bytes_read ← gets λ w. rval (variant m w)
    transfer_variant_mem k m buf_m r buf_r bytes_read
    set_nop_syscall r
    resume_variant_from_wait r
    wait_variant k r
    set_syscall_return_value r bytes_read
    resume_variant_from_exit m
    resume_variant_from_exit r

  -- At the end both are resumed as if from a wait, so that neither counts the call.
  unfoldable pub exec_syscall_getrandom : (master replica : Side) → M (Unit {0})
  exec_syscall_getrandom m r = do
    buf_m ← arg_of m 0
    buf_r ← arg_of r 0
    check λ w. same_arg m r 1 w && same_arg m r 2 w
    resume_variant_from_wait m
    wait_variant k m
    request_syscall_info k m
    bytes_written ← gets λ w. rval (variant m w)
    copy_unless_error m r buf_m buf_r bytes_written
    set_nop_syscall r
    resume_variant_from_wait r
    wait_variant k r
    set_syscall_return_value r bytes_written
    resume_variant_from_wait m
    resume_variant_from_wait r

  -- Both run the call, and the replica is given the `int` that the master's pointer leads to. The
  -- local `tid` is overwritten whole, so that its first contents do not matter.
  unfoldable pub exec_syscall_set_tid_address : (master replica : Side) → M (Unit {0})
  exec_syscall_set_tid_address m r = do
    ptr_m ← arg_of m 0
    ptr_r ← arg_of r 0
    resume_variant_from_wait m
    wait_variant k m
    resume_variant_from_wait r
    wait_variant k r
    (_, tid) ← or_else (0, λ j. 0) (read_variant_mem k m (λ j. 0) ptr_m sizeof_int)
    or_else 0 (write_variant_mem k r tid ptr_r sizeof_int)
    resume_variant_from_exit m
    resume_variant_from_exit r
