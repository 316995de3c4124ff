-- ===== src/Executors/Nops.antt =====
-- Data that the master alone asks for: pread64.c and getrandom.c of Monitor/src/sys.
use aurora_mvee.Base.{ℕ, ◌+◌, ◌%◌, ◌≤◌, ◌<◌, ◌≡◌, true, false, ◌∷◌, arith, ◌&&◌, ◌==◌}
use aurora_mvee.Words.{u64_mod, minus_one}
use aurora_mvee.Kernel.{Kernel, cont, waited, exit_stop}
use aurora_mvee.Kernel.Laws.{Stops}
use aurora_mvee.World.{World, first, second, arg}
use aurora_mvee.World.Monad.{Succeeds, monad}
use aurora_mvee.Variant.{
  update, request, resume_variant_from_wait, resume_variant_from_exit, wait_variant, wait_pid,
  check_variant_exit, request_syscall_info, set_syscall, set_nop_syscall, set_syscall_return_value,
}
use aurora_mvee.Memory.{buf_size}
use aurora_mvee.Memory.Read.{Readable}
use aurora_mvee.Memory.Write.{IsBytes}
use aurora_mvee.Monitor.{exec_syscall}
use aurora_mvee.Monitor.Numbers.{Syscall}
use aurora_mvee.Executors.Args.{same_arg, check, arg_of}
use aurora_mvee.Executors.Compared.{compared, all_same}
use aurora_mvee.Executors.Data.{copy_unless_error, exec_syscall_pread64, exec_syscall_getrandom}
use aurora_mvee.Executors.Given.{nop, exit-Nopped, wait-Nopped, Given, given}
use aurora_mvee.Executors.Seek.{Succeeds-mono}

-- The calls of which the master's data is copied behind the replica's back.
abbrev pub GivesData : Syscall → Type 0
GivesData Syscall.pread64 = Unit
GivesData Syscall.getrandom = Unit
GivesData _ = ⊥

-- Which argument is the buffer.
abbrev pub buffer_of : Syscall → ℕ
buffer_of Syscall.pread64 = 1
buffer_of _ = 0

-- How many calls the executor counts.
abbrev pub counted_of : Syscall → ℕ
counted_of Syscall.pread64 = 1
counted_of _ = 0

module _ (k : Kernel) (w : World) (mem_m mem_r : ℕ → ℕ) (n is_error : ℕ) (stops : Stops k)
    (returns : k.stop (waited w.master.pid ∷ cont w.master.pid ∷ w.trace) w.master.pid
      ≡ exit_stop n is_error)
    (bytes : IsBytes w.buf_a) (aligned : n % 8 ≡ 0) (long : 8 ≤ n) (fits : n ≤ buf_size) where
  -- A pread64 or a getrandom of data that the replica gets from the master. Where the compared
  -- arguments agree and the master's call returns `n`, a multiple of the word, of at least one word and at
  -- most BUF_SIZE bytes, the executor returns 0; then the replica's buffer has the `n` bytes of the master's
  -- buffer, and the rest of its memory is unchanged, its result is `n`, and the call that it makes is
  -- a getpid. A pread64 is counted in both, a getrandom in neither. No variant exits meanwhile, the
  -- transfer buffer holds bytes, the master's buffer is readable for seven bytes beyond its end, and
  -- no buffer runs over the end of the address space.
  pub exec_syscall-Given :
      (call : Syscall)
      → GivesData call
      → all_same (compared call) w ≡ true
      → Readable k
          (waited w.master.pid ∷ cont w.master.pid ∷ w.trace)
          w.master.pid
          mem_m
          (arg w.master (buffer_of call))
          (arg w.master (buffer_of call) + n + 7)
      → arg w.master (buffer_of call) + n + 7 < u64_mod
      → arg w.replica (buffer_of call) + n < u64_mod
      → Succeeds
          (Given w mem_m mem_r (buffer_of call) (counted_of call) n n)
          (exec_syscall k call first second w)
  unfolding exec_syscall exec_syscall_pread64 exec_syscall_getrandom copy_unless_error check arg_of
      monad update request resume_variant_from_wait resume_variant_from_exit wait_variant wait_pid
      check_variant_exit request_syscall_info set_syscall set_nop_syscall set_syscall_return_value
  exec_syscall-Given Syscall.pread64 is same readable bound_m bound_r =
      let (s1, e1) = stops (cont w.master.pid ∷ w.trace) w.master.pid (ground arith) in
      let (v, copied, end) =
        given k w mem_m mem_r 1 n n is_error bytes aligned long fits readable bound_m bound_r in
      let guard : (same_arg first second 0 w
            && same_arg first second 2 w
            && same_arg first second 3 w)
          ≡ true =
        ground (arith, same) in
      rw guard (
        rw (e1, Succeeds)
          (rw (returns, Succeeds)
            (rw (copied, Succeeds)
              (Succeeds-mono (nop k resume_variant_from_exit n v) (end 1 n)
                (exit-Nopped k n v stops)))))
  exec_syscall-Given Syscall.getrandom is same readable bound_m bound_r =
      let (s1, e1) = stops (cont w.master.pid ∷ w.trace) w.master.pid (ground arith) in
      let (v, copied, end) =
        given k w mem_m mem_r 0 n n is_error bytes aligned long fits readable bound_m bound_r in
      let guard : (same_arg first second 1 w && same_arg first second 2 w) ≡ true =
        ground (arith, same) in
      let no_error : (n == minus_one) ≡ false = ground arith in
      rw guard (
        rw (e1, Succeeds)
          (rw (returns, Succeeds)
            (rw (no_error, Succeeds)
              (rw (copied, Succeeds)
                (Succeeds-mono (nop k resume_variant_from_wait n v) (end 0 n)
                  (wait-Nopped k n v stops))))))
  exec_syscall-Given _ is same readable bound_m bound_r = absurd is
