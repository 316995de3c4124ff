-- ===== src/Protocol/Dispatch.antt =====
-- `processSyscallSync` as a whole: the script that each system call's executor follows.
use aurora_mvee.Base.{◌≡◌, some, List}
use aurora_mvee.Kernel.{Kernel}
use aurora_mvee.Kernel.Laws.{Stops}
use aurora_mvee.World.{World, first, second}
use aurora_mvee.Monitor.{exec_syscall}
use aurora_mvee.Monitor.Numbers.{Syscall}
use aurora_mvee.Protocol.{Act, Does, Control, IsPaired, control, run, At, Returns}
use aurora_mvee.Protocol.Scripts.Shapes.{
  both_enter, both_complete, both_complete_uncounted, master_completes, both_counted_at_entry,
  replica_not_resumed, resume_both-Does,
}
use aurora_mvee.Protocol.Scripts.Enter.{
  brk-Does, set_robust_list-Does, arch_prctl-Does, prlimit64-Does, rt_sigaction-Does,
  exit_group-Does, lseek-Does, socket-Does, rseq-Does, fadvise64-Does, shutdown-Does, mprotect-Does,
  munmap-Does, chdir-Does, getcwd-Does, rt_sigprocmask-Does, setsockopt-Does,
}
use aurora_mvee.Protocol.Scripts.Complete.{
  getpid-Does, close-Does, fchmod-Does, fchown-Does, listen-Does, bind-Does, openat-Does,
  unlink-Does, utimensat-Does,
}
use aurora_mvee.Protocol.Scripts.Transfer.{
  mmap-Does, read-Does, write-Does, pread64-Does, getrandom-Does, set_tid_address-Does,
}
use aurora_mvee.Protocol.Scripts.Sockets.{accept4-Does, getsockname-Does, poll-Does, pselect6-Does}
use aurora_mvee.Protocol.Scripts.Status.{newfstatat-Does, access-Does}

abbrev pub script : Syscall → List Act
script Syscall.getuid = both_enter
script Syscall.geteuid = both_enter
script Syscall.getgid = both_enter
script Syscall.getegid = both_enter
script Syscall.brk = both_enter
script Syscall.mmap = master_completes
script Syscall.read = both_complete
script Syscall.arch_prctl = both_enter
script Syscall.openat = both_complete
script Syscall.close = both_complete
script Syscall.write = both_complete
script Syscall.pread64 = both_complete
script Syscall.newfstatat = both_complete
script Syscall.access = both_complete
script Syscall.set_tid_address = both_complete
script Syscall.set_robust_list = both_enter
script Syscall.mprotect = both_enter
script Syscall.munmap = both_enter
script Syscall.rseq = both_enter
script Syscall.fadvise64 = both_enter
script Syscall.getrandom = both_complete_uncounted
script Syscall.exit_group = both_enter
script Syscall.prlimit64 = both_enter
script Syscall.rt_sigaction = both_enter
script Syscall.rt_sigprocmask = both_enter
script Syscall.unlink = both_complete
script Syscall.utimensat = both_complete
script Syscall.fchown = both_complete
script Syscall.fchmod = both_complete
script Syscall.lseek = both_enter
script Syscall.getcwd = both_enter
script Syscall.getpid = both_complete
script Syscall.chdir = both_enter
script Syscall.socket = both_enter
script Syscall.setsockopt = both_enter
script Syscall.bind = both_complete
script Syscall.listen = both_complete
script Syscall.accept4 = both_complete
script Syscall.poll = both_complete
script Syscall.shutdown = both_counted_at_entry
script Syscall.getsockname = both_complete
script Syscall.pselect6 = replica_not_resumed

module _ (k : Kernel) (stops : Stops k) where
  pub exec_syscall-Does : (call : Syscall) → Does (script call) (exec_syscall k call first second)
  unfolding exec_syscall
  exec_syscall-Does Syscall.getuid = resume_both-Does
  exec_syscall-Does Syscall.geteuid = resume_both-Does
  exec_syscall-Does Syscall.getgid = resume_both-Does
  exec_syscall-Does Syscall.getegid = resume_both-Does
  exec_syscall-Does Syscall.brk = brk-Does
  exec_syscall-Does Syscall.mmap = mmap-Does k stops
  exec_syscall-Does Syscall.read = read-Does k stops
  exec_syscall-Does Syscall.arch_prctl = arch_prctl-Does
  exec_syscall-Does Syscall.openat = openat-Does k stops
  exec_syscall-Does Syscall.close = close-Does k stops
  exec_syscall-Does Syscall.write = write-Does k stops
  exec_syscall-Does Syscall.pread64 = pread64-Does k stops
  exec_syscall-Does Syscall.newfstatat = newfstatat-Does k stops
  exec_syscall-Does Syscall.access = access-Does k stops
  exec_syscall-Does Syscall.set_tid_address = set_tid_address-Does k stops
  exec_syscall-Does Syscall.set_robust_list = set_robust_list-Does
  exec_syscall-Does Syscall.mprotect = mprotect-Does
  exec_syscall-Does Syscall.munmap = munmap-Does
  exec_syscall-Does Syscall.rseq = rseq-Does
  exec_syscall-Does Syscall.fadvise64 = fadvise64-Does
  exec_syscall-Does Syscall.getrandom = getrandom-Does k stops
  exec_syscall-Does Syscall.exit_group = exit_group-Does
  exec_syscall-Does Syscall.prlimit64 = prlimit64-Does
  exec_syscall-Does Syscall.rt_sigaction = rt_sigaction-Does
  exec_syscall-Does Syscall.rt_sigprocmask = rt_sigprocmask-Does k
  exec_syscall-Does Syscall.unlink = unlink-Does k stops
  exec_syscall-Does Syscall.utimensat = utimensat-Does k stops
  exec_syscall-Does Syscall.fchown = fchown-Does k stops
  exec_syscall-Does Syscall.fchmod = fchmod-Does k stops
  exec_syscall-Does Syscall.lseek = lseek-Does
  exec_syscall-Does Syscall.getcwd = getcwd-Does k
  exec_syscall-Does Syscall.getpid = getpid-Does k stops
  exec_syscall-Does Syscall.chdir = chdir-Does k
  exec_syscall-Does Syscall.socket = socket-Does
  exec_syscall-Does Syscall.setsockopt = setsockopt-Does k
  exec_syscall-Does Syscall.bind = bind-Does k stops
  exec_syscall-Does Syscall.listen = listen-Does k stops
  exec_syscall-Does Syscall.accept4 = accept4-Does k stops
  exec_syscall-Does Syscall.poll = poll-Does k stops
  exec_syscall-Does Syscall.shutdown = shutdown-Does
  exec_syscall-Does Syscall.getsockname = getsockname-Does k stops
  exec_syscall-Does Syscall.pselect6 = pselect6-Does k stops

  -- While no variant exits, each of the 42 calls keeps to its script, from any state with a master
  -- and a replica: where the script does not wait for a variant that is stopped already, the call's
  -- function returns, and where it returns 0 the resumptions, waits, states and counts of the two
  -- variants are the script's.
  pub exec_syscall-script :
      (call : Syscall) (w : World) (c : Control)
      → IsPaired w
      → run (script call) (control w) ≡ some c
      → Returns (At c) (exec_syscall k call first second w)
  exec_syscall-script call w c paired e = (exec_syscall-Does call).apply w c paired e
