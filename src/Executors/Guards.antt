-- ===== src/Executors/Guards.antt =====
-- The comparison of arguments with which the executors of Monitor/src/sys begin.
use aurora_mvee.Base.{ℕ, ◌≡◌, refl, sym, subst, Bool, false, ◌&&◌, ◌==◌, arith}
use aurora_mvee.Kernel.{Kernel}
use aurora_mvee.Words.{to_int, to_u32}
use aurora_mvee.World.{World, Buf, first, second, arg}
use aurora_mvee.World.Monad.{ok, failed, monad}
use aurora_mvee.Memory.{read_variant_mem}
use aurora_mvee.Executors.Args.{same_arg, check, arg_of}
use aurora_mvee.Executors.Plain.{
  exec_syscall_arch_prctl, exec_syscall_prlimit64, exec_syscall_rt_sigaction,
  exec_syscall_exit_group, exec_syscall_lseek, exec_syscall_socket, exec_syscall_shutdown,
  exec_syscall_setsockopt, exec_syscall_rt_sigprocmask, exec_syscall_rseq, exec_syscall_fadvise64,
}
use aurora_mvee.Executors.Results.{
  exec_syscall_close, exec_syscall_fchmod, exec_syscall_fchown, exec_syscall_listen,
  exec_syscall_bind,
}
use aurora_mvee.Executors.Paths.{
  exec_syscall_access, exec_syscall_openat, exec_syscall_utimensat, exec_syscall_newfstatat,
}
use aurora_mvee.Executors.Maps.{exec_syscall_mmap, exec_syscall_mprotect, exec_syscall_munmap}
use aurora_mvee.Executors.Data.{
  exec_syscall_read, exec_syscall_write, exec_syscall_pread64, exec_syscall_getrandom,
}
use aurora_mvee.Executors.Net.{
  sizeof_socklen, sizeof_fd_set, sizeof_timespec, sizeof_sigset, read_socklen, same_memory,
  same_pselect6, exec_syscall_poll, exec_syscall_accept4, exec_syscall_getsockname,
  exec_syscall_pselect6,
}
use aurora_mvee.Variant.{update, request, resume_variant_from_wait}
use aurora_mvee.Monitor.{exec_syscall}
use aurora_mvee.Monitor.Numbers.{Syscall}
use aurora_mvee.Executors.Compared.{
  args_agree, after_refusal, RefusedAfter, variant_mem_cmp-buffers,
}

module _ (k : Kernel) (w : World) where
  at_once :
      (call : Syscall)
      → exec_syscall k call first second w ≡ failed w
      → RefusedAfter w.trace w (exec_syscall k call first second w)
  at_once call e = subst (RefusedAfter w.trace w) (sym e) (refl, refl, refl)

  rseq-refused :
      args_agree Syscall.rseq w ≡ false
      → RefusedAfter (after_refusal Syscall.rseq w) w (exec_syscall_rseq first second w)
  unfolding exec_syscall_rseq resume_variant_from_wait request update monad
  rseq-refused h =
      let differ : (same_arg first second 1 w
            && same_arg first second 2 w
            && same_arg first second 3 w)
          ≡ false =
        ground (arith, h) in
      rw (differ, RefusedAfter) (refl, refl, refl)

  fadvise64-refused :
      args_agree Syscall.fadvise64 w ≡ false
      → RefusedAfter (after_refusal Syscall.fadvise64 w) w (exec_syscall_fadvise64 first second w)
  unfolding exec_syscall_fadvise64 resume_variant_from_wait request update monad
  fadvise64-refused h =
      let differ : (same_arg first second 0 w
            && same_arg first second 1 w
            && same_arg first second 2 w
            && same_arg first second 3 w)
          ≡ false =
        ground (arith, h) in
      rw (differ, RefusedAfter) (refl, refl, refl)

  bind-refused :
      args_agree Syscall.bind w ≡ false
      → RefusedAfter w.trace w (exec_syscall_bind k first second w)
  unfolding exec_syscall_bind arg_of monad
  bind-refused h =
      let (equal, a, b, e) =
        variant_mem_cmp-buffers k first (arg w.master 1) second (arg w.replica 1)
          (to_u32 (arg w.master 2)) w in
      let differ : (same_arg first second 0 w && (to_u32 (arg w.master 2) == arg w.replica 2))
          ≡ false =
        ground (arith, h) in
      rw (e, differ, RefusedAfter) (refl, refl, refl)

  accept4-refused :
      args_agree Syscall.accept4 w ≡ false
      → RefusedAfter w.trace w (exec_syscall_accept4 k first second w)
  unfolding exec_syscall_accept4 check arg_of monad
  accept4-refused h =
      let (equal, a, b, e) =
        variant_mem_cmp-buffers k first (arg w.master 2) second (arg w.replica 2) sizeof_socklen
          w in
      let differ : (same_arg first second 0 w && same_arg first second 3 w && equal) ≡ false =
        ground (arith, h) in
      rw e (rw (differ, RefusedAfter) (refl, refl, refl))

  getsockname-refused :
      args_agree Syscall.getsockname w ≡ false
      → RefusedAfter w.trace w (exec_syscall_getsockname k first second w)
  unfolding exec_syscall_getsockname read_socklen read_variant_mem check arg_of monad
  getsockname-refused h =
      let (equal, a, b, e) =
        variant_mem_cmp-buffers k first (arg w.master 2) second (arg w.replica 2) sizeof_socklen
          w in
      let differ : (same_arg first second 0 w && equal) ≡ false = ground (arith, h) in
      rw e (rw (differ, RefusedAfter) (refl, refl, refl))

  same_memory-buffers :
      (i size : ℕ) (a b : Buf)
      → (equal : Bool) × (a' : Buf) × (b' : Buf) × (same_memory k first second i size
            (record w { buf_a = a; buf_b = b })
          ≡ ok equal (record w { buf_a = a'; buf_b = b' }))
  unfolding same_memory arg_of monad
  same_memory-buffers i size a b =
      let (equal, a', b', e) =
        variant_mem_cmp-buffers k first (arg w.master i) second (arg w.replica i) size
          (record w { buf_a = a; buf_b = b }) in
      (equal, a', b', rw e refl)

  pselect6-refused :
      args_agree Syscall.pselect6 w ≡ false
      → RefusedAfter w.trace w (exec_syscall_pselect6 k first second w)
  unfolding exec_syscall_pselect6 same_pselect6 arg_of monad
  pselect6-refused h =
      let (q1, a1, b1, e1) = same_memory-buffers 1 sizeof_fd_set w.buf_a w.buf_b in
      let (q2, a2, b2, e2) = same_memory-buffers 2 sizeof_fd_set a1 b1 in
      let (q3, a3, b3, e3) = same_memory-buffers 3 sizeof_fd_set a2 b2 in
      let (q4, a4, b4, e4) = same_memory-buffers 4 sizeof_timespec a3 b3 in
      let (q5, a5, b5, e5) = same_memory-buffers 5 sizeof_sigset a4 b4 in
      let differ : (to_int (arg w.master 0) == to_int (arg w.replica 0)) ≡ false =
        ground (arith, h) in
      rw e1 (rw e2 (rw e3 (rw e4 (rw e5 (rw (differ, RefusedAfter) (refl, refl, refl))))))

  -- A call of which the variants have passed different arguments is refused: where one of the
  -- arguments differs that it compares, but for those that getcwd, utimensat and newfstatat compare
  -- after their path, it returns -1, and the variants are the same processes. It has made no request
  -- before, but for rseq and fadvise64, which have resumed both variants by then.
  pub differing_args-refused :
      (call : Syscall)
      → args_agree call w ≡ false
      → RefusedAfter (after_refusal call w) w (exec_syscall k call first second w)
  unfolding exec_syscall check arg_of monad exec_syscall_arch_prctl exec_syscall_prlimit64
      exec_syscall_rt_sigaction exec_syscall_exit_group exec_syscall_lseek exec_syscall_socket
      exec_syscall_shutdown exec_syscall_setsockopt exec_syscall_close exec_syscall_fchmod
      exec_syscall_fchown exec_syscall_listen exec_syscall_poll exec_syscall_pread64
      exec_syscall_getrandom exec_syscall_munmap exec_syscall_mprotect exec_syscall_mmap
      exec_syscall_read exec_syscall_write exec_syscall_openat exec_syscall_access
      exec_syscall_utimensat exec_syscall_newfstatat exec_syscall_rt_sigprocmask
  differing_args-refused Syscall.arch_prctl h = at_once Syscall.arch_prctl (ground (arith, h))
  differing_args-refused Syscall.prlimit64 h = at_once Syscall.prlimit64 (ground (arith, h))
  differing_args-refused Syscall.rt_sigaction h = at_once Syscall.rt_sigaction (ground (arith, h))
  differing_args-refused Syscall.exit_group h = at_once Syscall.exit_group (ground (arith, h))
  differing_args-refused Syscall.lseek h = at_once Syscall.lseek (ground (arith, h))
  differing_args-refused Syscall.socket h = at_once Syscall.socket (ground (arith, h))
  differing_args-refused Syscall.shutdown h = at_once Syscall.shutdown (ground (arith, h))
  differing_args-refused Syscall.setsockopt h = at_once Syscall.setsockopt (ground (arith, h))
  differing_args-refused Syscall.close h = at_once Syscall.close (ground (arith, h))
  differing_args-refused Syscall.fchmod h = at_once Syscall.fchmod (ground (arith, h))
  differing_args-refused Syscall.fchown h = at_once Syscall.fchown (ground (arith, h))
  differing_args-refused Syscall.listen h = at_once Syscall.listen (ground (arith, h))
  differing_args-refused Syscall.poll h = at_once Syscall.poll (ground (arith, h))
  differing_args-refused Syscall.pread64 h = at_once Syscall.pread64 (ground (arith, h))
  differing_args-refused Syscall.getrandom h = at_once Syscall.getrandom (ground (arith, h))
  differing_args-refused Syscall.munmap h = at_once Syscall.munmap (ground (arith, h))
  differing_args-refused Syscall.mprotect h = at_once Syscall.mprotect (ground (arith, h))
  differing_args-refused Syscall.mmap h = at_once Syscall.mmap (ground (arith, h))
  differing_args-refused Syscall.read h = at_once Syscall.read (ground (arith, h))
  differing_args-refused Syscall.write h = at_once Syscall.write (ground (arith, h))
  differing_args-refused Syscall.openat h = at_once Syscall.openat (ground (arith, h))
  differing_args-refused Syscall.access h = at_once Syscall.access (ground (arith, h))
  differing_args-refused Syscall.utimensat h = at_once Syscall.utimensat (ground (arith, h))
  differing_args-refused Syscall.newfstatat h = at_once Syscall.newfstatat (ground (arith, h))
  differing_args-refused Syscall.rt_sigprocmask h =
      at_once Syscall.rt_sigprocmask (ground (arith, h))
  differing_args-refused Syscall.rseq h = rseq-refused h
  differing_args-refused Syscall.fadvise64 h = fadvise64-refused h
  differing_args-refused Syscall.bind h = bind-refused h
  differing_args-refused Syscall.accept4 h = accept4-refused h
  differing_args-refused Syscall.getsockname h = getsockname-refused h
  differing_args-refused Syscall.pselect6 h = pselect6-refused h
  differing_args-refused _ h = cc
