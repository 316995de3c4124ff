-- ===== src/Variant.antt =====
-- Monitor/src/variant.c without its memory transfers: how the monitor starts, resumes and awaits a
-- variant and sets its registers. Output for debugging is left out.
use aurora_mvee.Base.{ℕ, ◌+◌, ◌^◌, none, some, ◌==◌, if◌then◌else◌}
use aurora_mvee.Words.{to_int}
use aurora_mvee.Kernel.{
  Pid, Kernel, Status, exited, signaled, stopped, Request, cont, waited, poke_user, set_options,
  set_regs, reg_rax, reg_orig_rax, reg_rdi, reg_rsi, reg_rdx,
}
use aurora_mvee.World.{Variant, State, VType, Side, variant, set_variant, log, info_of, rval}
use aurora_mvee.World.Monad.{M, ok, blocked, pure, fail, ◌>>=◌, ◌>>◌, gets, modify}

-- Writes a field of a variant.
unfoldable pub update : Side → (Variant → Variant) → M (Unit {0})
unfolding modify
update s f = modify λ w. set_variant s (f (variant s w)) w

-- Makes a request about a variant.
unfoldable pub request : Side → (Pid → Request) → M (Unit {0})
unfolding modify
request s q = modify λ w. log (q (variant s w).pid) w

abbrev pub sys_getpid : ℕ
sys_getpid = 39

abbrev pub sys_lseek : ℕ
sys_lseek = 8

abbrev pub seek_cur : ℕ
seek_cur = 1

abbrev pub ptrace_o_tracesysgood : ℕ
ptrace_o_tracesysgood = 1

abbrev pub ptrace_o_exitkill : ℕ
ptrace_o_exitkill = 2 ^ 20

-- `checkVariantExit`
unfoldable pub check_variant_exit : Status → M (Unit {0})
check_variant_exit (exited code) = fail
check_variant_exit (signaled sig) = fail
check_variant_exit (stopped sig) = pure tt

-- `resumeVariantFromWait`
unfoldable pub resume_variant_from_wait : Side → M (Unit {0})
resume_variant_from_wait s = do request s cont; update s λ v. record v { state = State.running }

-- `resumeVariantFromExit`: the state is left as it is.
unfoldable pub resume_variant_from_exit : Side → M (Unit {0})
resume_variant_from_exit s = do
  request s cont
  update s λ v. record v { syscall_num = v.syscall_num + 1 }

-- `setSyscall`
unfoldable pub set_syscall : Side → ℕ → M (Unit {0})
set_syscall s call = request s λ p. poke_user p reg_orig_rax call

-- `setNopSyscall`
unfoldable pub set_nop_syscall : Side → M (Unit {0})
set_nop_syscall s = set_syscall s sys_getpid

-- `setSyscallReturnValue`
unfoldable pub set_syscall_return_value : Side → ℕ → M (Unit {0})
set_syscall_return_value s value = request s λ p. poke_user p reg_rax value

-- `configureChildProc`
unfoldable pub configure_child_proc : Side → M (Unit {0})
configure_child_proc s = do
  request s λ p. set_options p ptrace_o_exitkill
  request s λ p. set_options p ptrace_o_tracesysgood

module _ (k : Kernel) where
  -- A waitpid for one variant.
  unfoldable pub wait_pid : Side → M Status
  wait_pid s w =
      let p = (variant s w).pid in
      let w' = log (waited p) w in
      elim (k.status w'.trace p) [ none ↦ blocked w' | some st ↦ ok st w' ]

  -- `waitVariant`
  unfoldable pub wait_variant : Side → M (Unit {0})
  unfolding wait_pid check_variant_exit
  wait_variant s = do status ← wait_pid s; check_variant_exit status

  -- `requestSyscallInfo`
  unfoldable pub request_syscall_info : Side → M (Unit {0})
  request_syscall_info s w =
      update s (λ v. record v { syscall_info = info_of (k.stop w.trace v.pid) }) w

  -- The PTRACE_GETREGS and PTRACE_SETREGS of the executors of read and write: the registers of the
  -- call `lseek(fd, offset, SEEK_CUR)`.
  unfoldable pub set_lseek_regs : Side → (fd offset : ℕ) → M (Unit {0})
  set_lseek_regs s fd offset w =
      let p = (variant s w).pid in
      let regs = k.regs w.trace p in
      request s
        (λ p. set_regs p λ r.
          if r == reg_rdi
          then fd
          else (if r == reg_rsi then offset else (if r == reg_rdx then seek_cur else regs r)))
        w

  -- `initVariant`, with the process id that `fork` returned in `createVariant`. The result of its
  -- waitpid is not looked at.
  unfoldable pub init_variant : Side → VType → Pid → M (Unit {0})
  init_variant s type pid = do
    update s λ v. record v { syscall_num = 0; type = type; pid = pid }
    wait_pid s
    configure_child_proc s

  -- `runMasterReplicateRet`
  unfoldable pub run_master_replicate_ret : (master replica : Side) → M (Unit {0})
  run_master_replicate_ret master replica = do
    resume_variant_from_wait master
    wait_variant master
    request_syscall_info master
    master_rval ← gets λ w. to_int (rval (variant master w))
    set_nop_syscall replica
    resume_variant_from_wait replica
    wait_variant replica
    set_syscall_return_value replica master_rval
    resume_variant_from_exit master
    resume_variant_from_exit replica

  -- `runBothCopyMasterRet`
  unfoldable pub run_both_copy_master_ret : (master replica : Side) → M (Unit {0})
  run_both_copy_master_ret master replica = do
    resume_variant_from_wait master
    wait_variant master
    request_syscall_info master
    master_rval ← gets λ w. to_int (rval (variant master w))
    resume_variant_from_wait replica
    wait_variant replica
    set_syscall_return_value replica master_rval
    resume_variant_from_exit master
    resume_variant_from_exit replica
