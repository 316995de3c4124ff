-- ===== src/Executors/Reads.antt =====
-- A read that succeeds: read.c of Monitor/src/sys.
use aurora_mvee.Base.{
  ℕ, ◌+◌, ◌-◌, ◌%◌, ◌≤◌, ◌<◌, ◌≡◌, ap, sym, ◌∙◌, true, false, some, ◌∷◌, arith, ltb, leb, ◌&&◌,
  ◌==◌, if◌then◌else◌,
}
use aurora_mvee.Words.{u64_mod, minus_one, to_int}
use aurora_mvee.Kernel.{Kernel, cont, waited, exit_stop, reg_rax, reg_orig_rax}
use aurora_mvee.Kernel.Laws.{Stops}
use aurora_mvee.World.{World, Variant, first, second, arg}
use aurora_mvee.World.Monad.{Succeeds, monad}
use aurora_mvee.Variant.{
  update, request, resume_variant_from_wait, resume_variant_from_exit, wait_variant, wait_pid,
  check_variant_exit, request_syscall_info, set_syscall, set_syscall_return_value, set_lseek_regs,
  sys_lseek,
}
use aurora_mvee.Memory.{buf_size}
use aurora_mvee.Memory.Read.{Readable}
use aurora_mvee.Memory.Write.{IsBytes, memory}
use aurora_mvee.Memory.Frame.{SameVariants}
use aurora_mvee.Memory.Transfer.{transfer_variant_mem-whole}
use aurora_mvee.Executors.Args.{same_arg, check, arg_of}
use aurora_mvee.Executors.Data.{same_fd, copy_unless_error, exec_syscall_read}
use aurora_mvee.Executors.Seek.{
  put_register, at_return, seek, Sought, seek-Sought, memory-Sought, put_register-sought,
  Succeeds-mono,
}

module _ (k : Kernel) (w : World) (mem_m mem_r : ℕ → ℕ) (n is_error : ℕ) where
  -- What a read of `n` bytes leaves: the bytes in the replica's buffer and nothing else changed in its
  -- memory, its result, and the number of the call that it made instead.
  abbrev pub Replicates : World → Type 0
  Replicates w' =
      ((x : ℕ)
        → memory second mem_r w' x ≡ (
            if leb (arg w.replica 1) x && ltb x (arg w.replica 1 + n)
            then mem_m (arg w.master 1 + (x - arg w.replica 1))
            else memory second mem_r w x))
      × (put_register w.replica.pid reg_rax w'.trace ≡ some n)
      × (put_register w.replica.pid reg_orig_rax w'.trace ≡ some sys_lseek)
      × (w'.master.syscall_num ≡ w.master.syscall_num + 1)
      × (w'.replica.syscall_num ≡ w.replica.syscall_num + 1)

  Sought-Replicates :
      (v w' : World)
      → SameVariants (at_return w n is_error) v
      → ((x : ℕ)
          → memory second mem_r v x ≡ (
              if leb (arg w.replica 1) x && ltb x (arg w.replica 1 + n)
              then mem_m (arg w.master 1 + (x - arg w.replica 1))
              else memory second mem_r (at_return w n is_error) x))
      → Sought k second (to_int (arg w.master 0)) n v w'
      → Replicates w'
  Sought-Replicates v w' (master, replica, maps) stands end =
      let fd = to_int (arg w.master 0) in
      let pid_r : w.replica.pid ≡ v.replica.pid = sym (ap (λ (u : Variant). u.pid) replica) in
      let (trace, end_m, end_r, num_m, num_r) = end in
      let (rax, orig) =
        put_register-sought k v.replica.pid v.master.pid v.replica.pid fd n v.trace in
      (
        λ x. memory-Sought k second fd n v w' mem_r x end ∙ stands x,
        (λ i. put_register (pid_r i) reg_rax (trace i)) ∙ rax,
        (λ i. put_register (pid_r i) reg_orig_rax (trace i)) ∙ orig,
        num_m ∙ ap (λ (u : Variant). u.syscall_num + 1) master,
        num_r ∙ ap (λ (u : Variant). u.syscall_num + 1) replica,
      )

  -- A read of data that the replica gets from the master. Where the descriptors and the counts agree
  -- and the master's call returns `n`, a multiple of the word, of at least one word and at most BUF_SIZE bytes, the executor
  -- returns 0; then the replica's buffer has the `n` bytes of the master's buffer, and the rest of its
  -- memory is unchanged, its result is `n`, the call that it makes is a lseek, and the call is counted
  -- in both. No variant exits meanwhile, the transfer buffer holds bytes, the master's buffer is readable
  -- for seven bytes beyond its end, and no buffer runs over the end of the address space.
  pub exec_syscall_read-Replicates :
      Stops k
      → same_fd first second w ≡ true
      → same_arg first second 2 w ≡ true
      → k.stop (waited w.master.pid ∷ cont w.master.pid ∷ w.trace) w.master.pid
        ≡ exit_stop n is_error
      → IsBytes w.buf_a
      → n % 8 ≡ 0
      → 8 ≤ n
      → n ≤ buf_size
      → Readable k
          (waited w.master.pid ∷ cont w.master.pid ∷ w.trace)
          w.master.pid
          mem_m
          (arg w.master 1)
          (arg w.master 1 + n + 7)
      → arg w.master 1 + n + 7 < u64_mod
      → arg w.replica 1 + n < u64_mod
      → Succeeds Replicates (exec_syscall_read k first second w)
  unfolding exec_syscall_read copy_unless_error check arg_of monad update request
      resume_variant_from_wait resume_variant_from_exit wait_variant wait_pid check_variant_exit
      request_syscall_info set_syscall set_syscall_return_value set_lseek_regs
  exec_syscall_read-Replicates stops fd count returns bytes aligned long fits readable bound_m
        bound_r =
      let m = w.master.pid in
      let (s1, e1) = stops (cont m ∷ w.trace) m (ground arith) in
      let (w1, copied, same, stands) =
        transfer_variant_mem-whole k first second (at_return w n is_error) mem_m mem_r
          (arg w.master 1) (arg w.replica 1) n bytes aligned long fits readable bound_m bound_r in
      let guard : (same_fd first second w && same_arg first second 2 w) ≡ true =
        ground (arith, fd, count) in
      let no_error : (n == minus_one) ≡ false = ground arith in
      rw guard (
        rw (e1, Succeeds)
          (rw (returns, Succeeds)
            (rw (no_error, Succeeds)
              (rw (copied, Succeeds)
                (Succeeds-mono (seek k second (to_int (arg w.master 0)) n w1)
                  (λ w'. Sought-Replicates w1 w' same stands)
                  (seek-Sought k second (to_int (arg w.master 0)) n w1 stops))))))
