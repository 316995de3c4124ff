-- ===== src/Executors/Stat.antt =====
-- A newfstatat that is run: newfstatat.c of Monitor/src/sys.
use aurora_mvee.Base.{ℕ, ◌+◌, ◌<◌, ◌≡◌, refl, true, ◌∷◌, arith, Bool-cases, inl, inr, subst}
use aurora_mvee.Words.{u64_mod, to_int}
use aurora_mvee.Kernel.{Kernel, cont, waited, exit_stop}
use aurora_mvee.Kernel.Laws.{Stops}
use aurora_mvee.World.{World, Buf, first, second, arg}
use aurora_mvee.World.Monad.{ok, Succeeds, FailsWith, monad}
use aurora_mvee.Variant.{
  update, request, resume_variant_from_wait, resume_variant_from_exit, wait_variant, wait_pid,
  check_variant_exit, request_syscall_info, set_syscall, set_nop_syscall, set_syscall_return_value,
}
use aurora_mvee.Memory.Read.{Readable}
use aurora_mvee.Memory.Compare.{Agrees}
use aurora_mvee.Memory.Write.{IsBytes}
use aurora_mvee.Executors.Args.{same_arg, check, arg_of}
use aurora_mvee.Executors.Paths.{
  newfstatat_buf_size, sizeof_stat, stat_paths_equal, exec_syscall_newfstatat,
}
use aurora_mvee.Executors.StatPath.{StringAt, stat_paths_equal-buffered}
use aurora_mvee.Executors.Given.{nop, exit-Nopped, Given, given}
use aurora_mvee.Executors.Seek.{Succeeds-mono}

module _ (k : Kernel) (w : World) (mem_m mem_r : ℕ → ℕ) (rv is_error : ℕ) (stops : Stops k)
    (returns : k.stop (waited w.master.pid ∷ cont w.master.pid ∷ w.trace) w.master.pid
      ≡ exit_stop rv is_error)
    (bytes : IsBytes w.buf_a)
    (readable : Readable k
      (waited w.master.pid ∷ cont w.master.pid ∷ w.trace)
      w.master.pid
      mem_m
      (arg w.master 2)
      (arg w.master 2 + sizeof_stat + 7))
    (bound_m : arg w.master 2 + sizeof_stat + 7 < u64_mod)
    (bound_r : arg w.replica 2 + sizeof_stat < u64_mod) where
  -- The call, with any contents of the buffers for the paths.
  newfstatat-Given :
      (a b : Buf)
      → same_arg first second 0 w ≡ true
      → same_arg first second 3 w ≡ true
      → stat_paths_equal k first second w ≡ ok true (record w { stat_buf_a = a; stat_buf_b = b })
      → Succeeds
          (Given w mem_m mem_r 2 1 sizeof_stat (to_int rv))
          (exec_syscall_newfstatat k first second w)
  unfolding exec_syscall_newfstatat check arg_of monad update request resume_variant_from_wait
      resume_variant_from_exit wait_variant wait_pid check_variant_exit request_syscall_info
      set_syscall set_nop_syscall set_syscall_return_value
  newfstatat-Given a b fd flags same =
      let w1 : World = record w { stat_buf_a = a; stat_buf_b = b } in
      let (s1, e1) = stops (cont w.master.pid ∷ w.trace) w.master.pid (ground arith) in
      let (v, copied, end) =
        given k w1 mem_m mem_r 2 sizeof_stat rv is_error bytes refl (omega arith) (omega arith)
          readable bound_m bound_r in
      rw (fd, same, flags)
        (rw (e1, Succeeds)
          (rw (returns, Succeeds)
            (rw (copied, Succeeds)
              (Succeeds-mono (nop k resume_variant_from_exit (to_int rv) v) (end 1 (to_int rv))
                (exit-Nopped k (to_int rv) v stops)))))

  -- A newfstatat of equal paths. Where the descriptors and the flags agree, and the replica's memory
  -- agrees with the master's path of `n` bytes over its length, the executor returns 0; then the
  -- replica's buffer has the 144 bytes of the master's `struct stat`, and the rest of its memory is
  -- unchanged, its result is the master's, cut to an `int`, whether that is an error or not, the call
  -- that it makes is a getpid, and the call is counted in both. No variant exits meanwhile, the transfer
  -- buffer holds bytes, the master's buffer is readable for seven bytes beyond its end, no range runs
  -- over the end of the address space, and the paths are readable and leave room in the buffer as
  -- the comparison of the paths requires it.
  pub exec_syscall_newfstatat-Given :
      (n : ℕ)
      → same_arg first second 0 w ≡ true
      → same_arg first second 3 w ≡ true
      → StringAt mem_m (arg w.master 1) n
      → n + 51 < newfstatat_buf_size
      → arg w.master 1 + n + 57 < u64_mod
      → Readable k w.trace w.master.pid mem_m (arg w.master 1) (arg w.master 1 + n + 57)
      → arg w.replica 1 + n + 7 < u64_mod
      → Readable k w.trace w.replica.pid mem_r (arg w.replica 1) (arg w.replica 1 + n + 7)
      → Agrees mem_m (arg w.master 1) mem_r (arg w.replica 1) n
      → Succeeds
          (Given w mem_m mem_r 2 1 sizeof_stat (to_int rv))
          (exec_syscall_newfstatat k first second w)
  exec_syscall_newfstatat-Given n fd flags string room path_m readable_m path_r readable_r same =
      let (equal, a, b, compared, agrees) =
        stat_paths_equal-buffered k mem_m mem_r n w string room path_m readable_m path_r
          readable_r in
      newfstatat-Given a b fd flags (
        subst
          (λ e.
            stat_paths_equal k first second w ≡ ok e (record w { stat_buf_a = a; stat_buf_b = b }))
          (agrees.1 same) compared)

-- Paths that differ within the length of the master's are refused: where the replica's memory does not
-- agree with the master's path of `n` bytes over its length, newfstatat returns -1 and has made no
-- request, whatever the other arguments are. The master's path leaves room for 51 bytes in the buffer
-- and is readable for 57 bytes beyond its end, the replica has as many bytes readable, and a word more,
-- and no path runs over the end of the address space.
pub exec_syscall_newfstatat-FailsWith :
    (k : Kernel) (w : World) (mem_m mem_r : ℕ → ℕ) (n : ℕ)
    → StringAt mem_m (arg w.master 1) n
    → n + 51 < newfstatat_buf_size
    → arg w.master 1 + n + 57 < u64_mod
    → Readable k w.trace w.master.pid mem_m (arg w.master 1) (arg w.master 1 + n + 57)
    → arg w.replica 1 + n + 7 < u64_mod
    → Readable k w.trace w.replica.pid mem_r (arg w.replica 1) (arg w.replica 1 + n + 7)
    → ¬ Agrees mem_m (arg w.master 1) mem_r (arg w.replica 1) n
    → FailsWith w.trace (exec_syscall_newfstatat k first second w)
unfolding exec_syscall_newfstatat check arg_of monad
exec_syscall_newfstatat-FailsWith k w mem_m mem_r n string room path_m readable_m path_r readable_r
      differ =
    let (equal, a, b, compared, agrees) =
      stat_paths_equal-buffered k mem_m mem_r n w string room path_m readable_m path_r readable_r in
    elim (Bool-cases (same_arg first second 0 w)) [
      | inl fd ↦ elim (Bool-cases equal) [
        | inl same ↦ absurd (differ (agrees.0 same))
        | inr other ↦ rw (fd, compared, other, FailsWith) refl
      ]
      | inr fd ↦ rw (fd, FailsWith) refl
    ]
