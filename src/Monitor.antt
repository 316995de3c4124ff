-- ===== src/Monitor.antt =====
-- Monitor/src/monitor.c, as it is built without USE_DIRECT_TRANSFER: the dispatch of a system call
-- that both variants have reached, the handling of one event, and `main`.
pub mod Numbers
pub mod Names
pub mod Tables
use aurora_mvee.Base.{ℕ, zero, suc, Bool, true, false, Option, none, some, ltb, ◌==◌, if◌then◌else◌}
use aurora_mvee.Kernel.{Kernel, Pid, Status, event, kill}
use aurora_mvee.World.{
  World, Variant, State, running, wait, VType, Op, entry, exit, Side, first, second, variant, log,
  nr,
}
use aurora_mvee.World.Monad.{
  M, Outcome, ok, failed, blocked, terminated, and_then, pure, fail, ◌>>=◌, ◌>>◌, gets, require,
}
use aurora_mvee.Variant.{
  update, request, resume_variant_from_wait, resume_variant_from_exit, request_syscall_info,
  check_variant_exit, init_variant,
}
use aurora_mvee.Executors.Args.{resume_both}
use aurora_mvee.Executors.Plain.{
  exec_syscall_brk, exec_syscall_set_robust_list, exec_syscall_arch_prctl, exec_syscall_prlimit64,
  exec_syscall_rt_sigaction, exec_syscall_exit_group, exec_syscall_lseek, exec_syscall_socket,
  exec_syscall_rseq, exec_syscall_fadvise64, exec_syscall_shutdown, exec_syscall_rt_sigprocmask,
  exec_syscall_setsockopt,
}
use aurora_mvee.Executors.Results.{
  exec_syscall_getpid, exec_syscall_close, exec_syscall_fchmod, exec_syscall_fchown,
  exec_syscall_listen, exec_syscall_bind,
}
use aurora_mvee.Executors.Paths.{
  exec_syscall_access, exec_syscall_chdir, exec_syscall_getcwd, exec_syscall_openat,
  exec_syscall_unlink, exec_syscall_utimensat, exec_syscall_newfstatat,
}
use aurora_mvee.Executors.Maps.{exec_syscall_mmap, exec_syscall_mprotect, exec_syscall_munmap}
use aurora_mvee.Executors.Data.{
  exec_syscall_read, exec_syscall_write, exec_syscall_pread64, exec_syscall_getrandom,
  exec_syscall_set_tid_address,
}
use aurora_mvee.Executors.Net.{
  exec_syscall_accept4, exec_syscall_getsockname, exec_syscall_poll, exec_syscall_pselect6,
}
use Numbers.{Syscall, select}

abbrev pub is_wait : State → Bool
is_wait running = false
is_wait wait = true

abbrev pub is_master : VType → Bool
is_master VType.master = true
is_master VType.replica = false

abbrev pub op_eq : Op → Op → Bool
op_eq Op.none Op.none = true
op_eq Op.entry Op.entry = true
op_eq Op.exit Op.exit = true
op_eq Op.seccomp Op.seccomp = true
op_eq _ _ = false

module _ (k : Kernel) where
  -- The switch of `processSyscallSync`.
  unfoldable pub exec_syscall : Syscall → (master replica : Side) → M (Unit {0})
  exec_syscall Syscall.getuid m r = resume_both m r
  exec_syscall Syscall.geteuid m r = resume_both m r
  exec_syscall Syscall.getgid m r = resume_both m r
  exec_syscall Syscall.getegid m r = resume_both m r
  exec_syscall Syscall.brk m r = exec_syscall_brk m r
  exec_syscall Syscall.mmap m r = exec_syscall_mmap k m r
  exec_syscall Syscall.read m r = exec_syscall_read k m r
  exec_syscall Syscall.arch_prctl m r = exec_syscall_arch_prctl m r
  exec_syscall Syscall.openat m r = exec_syscall_openat k m r
  exec_syscall Syscall.close m r = exec_syscall_close k m r
  exec_syscall Syscall.write m r = exec_syscall_write k m r
  exec_syscall Syscall.pread64 m r = exec_syscall_pread64 k m r
  exec_syscall Syscall.newfstatat m r = exec_syscall_newfstatat k m r
  exec_syscall Syscall.access m r = exec_syscall_access k m r
  exec_syscall Syscall.set_tid_address m r = exec_syscall_set_tid_address k m r
  exec_syscall Syscall.set_robust_list m r = exec_syscall_set_robust_list m r
  exec_syscall Syscall.mprotect m r = exec_syscall_mprotect m r
  exec_syscall Syscall.munmap m r = exec_syscall_munmap m r
  exec_syscall Syscall.rseq m r = exec_syscall_rseq m r
  exec_syscall Syscall.fadvise64 m r = exec_syscall_fadvise64 m r
  exec_syscall Syscall.getrandom m r = exec_syscall_getrandom k m r
  exec_syscall Syscall.exit_group m r = exec_syscall_exit_group m r
  exec_syscall Syscall.prlimit64 m r = exec_syscall_prlimit64 m r
  exec_syscall Syscall.rt_sigaction m r = exec_syscall_rt_sigaction m r
  exec_syscall Syscall.rt_sigprocmask m r = exec_syscall_rt_sigprocmask k m r
  exec_syscall Syscall.unlink m r = exec_syscall_unlink k m r
  exec_syscall Syscall.utimensat m r = exec_syscall_utimensat k m r
  exec_syscall Syscall.fchown m r = exec_syscall_fchown k m r
  exec_syscall Syscall.fchmod m r = exec_syscall_fchmod k m r
  exec_syscall Syscall.lseek m r = exec_syscall_lseek m r
  exec_syscall Syscall.getcwd m r = exec_syscall_getcwd k m r
  exec_syscall Syscall.getpid m r = exec_syscall_getpid k m r
  exec_syscall Syscall.chdir m r = exec_syscall_chdir k m r
  exec_syscall Syscall.socket m r = exec_syscall_socket m r
  exec_syscall Syscall.setsockopt m r = exec_syscall_setsockopt k m r
  exec_syscall Syscall.bind m r = exec_syscall_bind k m r
  exec_syscall Syscall.listen m r = exec_syscall_listen k m r
  exec_syscall Syscall.accept4 m r = exec_syscall_accept4 k m r
  exec_syscall Syscall.poll m r = exec_syscall_poll k m r
  exec_syscall Syscall.shutdown m r = exec_syscall_shutdown m r
  exec_syscall Syscall.getsockname m r = exec_syscall_getsockname k m r
  exec_syscall Syscall.pselect6 m r = exec_syscall_pselect6 k m r

  unfoldable pub dispatch : Option Syscall → (master replica : Side) → M (Unit {0})
  dispatch none m r = fail
  dispatch (some call) m r = exec_syscall call m r

  -- `processSyscallSync`
  unfoldable pub process_syscall_sync : (master replica : Side) → M (Unit {0})
  process_syscall_sync m r = do
    ops ← gets λ w. op_eq (variant m w).syscall_info.op (variant r w).syscall_info.op
    require ops
    number_m ← gets λ w. nr (variant m w)
    number_r ← gets λ w. nr (variant r w)
    require (number_m == number_r)
    dispatch (select number_m) m r

  -- `[MVEE] Syscall sync execution failed. Killing Variants.`
  abbrev pub kill_on_failure : (master replica : Side) → Outcome (Unit {0}) → Outcome (Unit {0})
  kill_on_failure m r (ok a w) = ok a w
  kill_on_failure m r (failed w) =
      failed (log (kill (variant r w).pid) (log (kill (variant m w).pid) w))
  kill_on_failure m r (blocked w) = blocked w
  kill_on_failure m r (terminated w) = terminated w

  -- The pointers `vmaster` and `vreplica`, chosen by the type of `vSelf`.
  unfoldable pub sync_or_kill : (self other : Side) → M (Unit {0})
  sync_or_kill self other w =
      let self_is_master = is_master (variant self w).type in
      let m = if self_is_master then self else other in
      let r = if self_is_master then other else self in
      kill_on_failure m r (process_syscall_sync m r w)

  -- The entry of a system call: run it if the partner waits at the same one, else wait.
  unfoldable pub process_entry : (self other : Side) → M (Unit {0})
  process_entry self other w =
      let number_self = (variant self w).syscall_num in
      let number_other = (variant other w).syscall_num in
      let waits = update self (λ v. record v { state = wait }) in
      if number_self == number_other
      then (if is_wait (variant other w).state then sync_or_kill self other w else waits w)
      else (if ltb number_other number_self then waits w else terminated w)

  abbrev pub by_op : Op → (self other : Side) → M (Unit {0})
  by_op Op.none self other = terminated
  by_op Op.entry self other = process_entry self other
  by_op Op.exit self other = resume_variant_from_exit self
  by_op Op.seccomp self other = terminated

  -- `processVariantEvent`
  unfoldable pub process_variant_event : (self other : Side) → M (Unit {0})
  process_variant_event self other = do
    request_syscall_info k self
    op ← gets λ w. (variant self w).syscall_info.op
    by_op op self other

  -- `if (processVariantEvent(...) != 0) exit(EXIT_FAILURE);`
  abbrev pub exit_on_failure : Outcome (Unit {0}) → Outcome Bool
  exit_on_failure (ok a w) = ok true w
  exit_on_failure (failed w) = terminated w
  exit_on_failure (blocked w) = blocked w
  exit_on_failure (terminated w) = terminated w

  -- `if (checkVariantExit(...) != 0) break;`, and the event of one of the two variants.
  abbrev pub break_on_exit : (self other : Side) → Outcome (Unit {0}) → Outcome Bool
  break_on_exit self other (ok a w) = exit_on_failure (process_variant_event self other w)
  break_on_exit self other (failed w) = ok false w
  break_on_exit self other (blocked w) = blocked w
  break_on_exit self other (terminated w) = terminated w

  unfoldable pub variant_event : (self other : Side) → Status → M Bool
  variant_event self other status w = break_on_exit self other (check_variant_exit status w)

  -- What `main` does with the answer of its waitpid(-1).
  unfoldable pub reported : Option (Pid × Status) → M Bool
  reported none w = blocked w
  reported (some (pid, status)) w =
      let w' = log (event pid) w in
      if pid == w'.master.pid
      then variant_event first second status w'
      else (if pid == w'.replica.pid then variant_event second first status w' else terminated w')

  -- One round of the loop of `main`: whether it goes on.
  unfoldable pub main_round : M Bool
  unfolding reported
  main_round w = reported (k.next w.trace) w

  -- What `main` does before its loop, with the process ids that `fork` returned.
  unfoldable pub main_start : (pid_m pid_r : Pid) → M (Unit {0})
  main_start pid_m pid_r = do
    init_variant k first VType.master pid_m
    resume_variant_from_wait first
    init_variant k second VType.replica pid_r
    resume_variant_from_wait second

  -- Some rounds of the loop of `main`, which ends when a variant exits.
  unfoldable pub main_loop : ℕ → M (Unit {0})
  main_loop zero w = ok tt w
  main_loop (suc rounds) w =
      let go : Bool → M (Unit {0}) =
        λ goes_on w'. if goes_on then main_loop rounds w' else ok tt w' in
      and_then (main_round w) go
