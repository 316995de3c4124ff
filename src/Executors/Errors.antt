-- ===== src/Executors/Errors.antt =====
-- Calls for data that fail in the master: read.c, pread64.c and getrandom.c of Monitor/src/sys.
use aurora_mvee.Base.{ℕ, ◌<◌, ◌≡◌, ◌≢◌, refl, true, false, ◌∷◌, arith, leb, ◌&&◌, ◌==◌}
use aurora_mvee.Words.{minus_one}
use aurora_mvee.Kernel.{Kernel, cont, waited, exit_stop}
use aurora_mvee.Kernel.Laws.{Stops}
use aurora_mvee.World.{World, Side, first, second, arg}
use aurora_mvee.World.Monad.{failed, FailsWith, monad}
use aurora_mvee.Variant.{
  update, request, resume_variant_from_wait, wait_variant, wait_pid, check_variant_exit,
  request_syscall_info,
}
use aurora_mvee.Memory.{buf_size, transfer_variant_mem}
use aurora_mvee.Monitor.{exec_syscall}
use aurora_mvee.Monitor.Numbers.{Syscall}
use aurora_mvee.Executors.Args.{same_arg, check, arg_of}
use aurora_mvee.Executors.Data.{
  same_fd, copy_unless_error, exec_syscall_read, exec_syscall_pread64, exec_syscall_getrandom,
}
use aurora_mvee.Executors.Seek.{at_return}

-- The calls whose result is taken for a number of bytes, and the arguments that must agree.
abbrev pub AskAlike : Syscall → World → Type 0
AskAlike Syscall.read w = (same_fd first second w && same_arg first second 2 w) ≡ true
AskAlike Syscall.pread64 w =
    (same_arg first second 0 w && same_arg first second 2 w && same_arg first second 3 w) ≡ true
AskAlike Syscall.getrandom w = (same_arg first second 1 w && same_arg first second 2 w) ≡ true
AskAlike _ w = ⊥

transfer_variant_mem-large :
    (k : Kernel) (source : Side) (source_buf : ℕ) (dest : Side) (dest_buf size : ℕ) (w : World)
    → buf_size < size
    → transfer_variant_mem k source source_buf dest dest_buf size w ≡ failed w
unfolding transfer_variant_mem monad
transfer_variant_mem-large k source source_buf dest dest_buf size w large =
    let too_large : leb size buf_size ≡ false = ground (arith, large) in rw too_large refl

-- Where the compared arguments agree and the master's read, pread64 or getrandom returns an error,
-- a negative number as ptrace reports it, other than -1, the executor takes it for a size: it returns
-- -1 when the master stands at the call's exit, and the replica has not been resumed. No variant
-- exits meanwhile. The same holds of each result above BUF_SIZE.
pub exec_syscall-FailsWith :
    (k : Kernel) (call : Syscall) (w : World) (result is_error : ℕ)
    → Stops k
    → AskAlike call w
    → k.stop (waited w.master.pid ∷ cont w.master.pid ∷ w.trace) w.master.pid
      ≡ exit_stop result is_error
    → result ≢ minus_one
    → buf_size < result
    → FailsWith
        (waited w.master.pid ∷ cont w.master.pid ∷ w.trace)
        (exec_syscall k call first second w)
unfolding exec_syscall exec_syscall_read exec_syscall_pread64 exec_syscall_getrandom
    copy_unless_error check arg_of monad update request resume_variant_from_wait wait_variant
    wait_pid check_variant_exit request_syscall_info
exec_syscall-FailsWith k Syscall.read w result is_error stops alike returns not_one large =
    let (s1, e1) = stops (cont w.master.pid ∷ w.trace) w.master.pid (ground arith) in
    let is_size : (result == minus_one) ≡ false = ground (arith, not_one) in
    let fails =
      transfer_variant_mem-large k first (arg w.master 1) second (arg w.replica 1) result
        (at_return w result is_error) large in
    rw alike (
      rw (e1, FailsWith)
        (rw (returns, FailsWith) (rw (is_size, FailsWith) (rw (fails, FailsWith) refl))))
exec_syscall-FailsWith k Syscall.pread64 w result is_error stops alike returns not_one large =
    let (s1, e1) = stops (cont w.master.pid ∷ w.trace) w.master.pid (ground arith) in
    let fails =
      transfer_variant_mem-large k first (arg w.master 1) second (arg w.replica 1) result
        (at_return w result is_error) large in
    rw alike (rw (e1, FailsWith) (rw (returns, FailsWith) (rw (fails, FailsWith) refl)))
exec_syscall-FailsWith k Syscall.getrandom w result is_error stops alike returns not_one large =
    let (s1, e1) = stops (cont w.master.pid ∷ w.trace) w.master.pid (ground arith) in
    let is_size : (result == minus_one) ≡ false = ground (arith, not_one) in
    let fails =
      transfer_variant_mem-large k first (arg w.master 0) second (arg w.replica 0) result
        (at_return w result is_error) large in
    rw alike (
      rw (e1, FailsWith)
        (rw (returns, FailsWith) (rw (is_size, FailsWith) (rw (fails, FailsWith) refl))))
exec_syscall-FailsWith k _ w result is_error stops alike returns not_one large = absurd alike
