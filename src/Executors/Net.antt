-- ===== src/Executors/Net.antt =====
-- The calls on sockets and descriptor sets that fill memory: accept4.c, getsockname.c, poll.c and
-- pselect6.c of Monitor/src/sys.
use aurora_mvee.Base.{ℕ, ◌*◌, ◌^◌, Bool, false, ◌&&◌, ltb, ◌==◌, if◌then◌else◌}
use aurora_mvee.Kernel.{Kernel}
use aurora_mvee.Words.{to_int, to_u32, wrap}
use aurora_mvee.Words.Bytes.{word}
use aurora_mvee.World.{Side, variant, arg, rval}
use aurora_mvee.World.Monad.{M, gets, require, or_else, ignore, pure, ◌>>=◌, ◌>>◌}
use aurora_mvee.Variant.{
  resume_variant_from_wait, resume_variant_from_exit, wait_variant, request_syscall_info,
  set_nop_syscall, set_syscall_return_value,
}
use aurora_mvee.Memory.{read_variant_mem, variant_mem_cmp, transfer_variant_mem}
use aurora_mvee.Executors.Args.{same_arg, check, arg_of}

-- `sizeof` of `socklen_t`, `struct pollfd`, `fd_set`, `struct timespec` and `sigset_t`.
abbrev pub sizeof_socklen : ℕ
sizeof_socklen = 4

abbrev pub sizeof_pollfd : ℕ
sizeof_pollfd = 8

abbrev pub sizeof_fd_set : ℕ
sizeof_fd_set = 128

abbrev pub sizeof_timespec : ℕ
sizeof_timespec = 16

abbrev pub sizeof_sigset : ℕ
sizeof_sigset = 128

module _ (k : Kernel) where
  -- A local `socklen_t` that is read from a variant. Its first contents are overwritten whole.
  unfoldable pub read_socklen : Side → ℕ → M ℕ
  read_socklen s addr = do
    (_, buf) ← or_else (0, λ j. 0) (read_variant_mem k s (λ j. 0) addr sizeof_socklen)
    pure (to_u32 (word buf))

  -- The copy of the peer's address. Its result is not looked at.
  unfoldable pub copy_peer : (master replica : Side) → (addr_m addr_r len_addr : ℕ) → M (Unit {0})
  copy_peer m r addr_m addr_r len_addr =
      if addr_m == 0
      then pure tt
      else (do len ← read_socklen m len_addr; ignore (transfer_variant_mem k m addr_m r addr_r len))

  unfoldable pub exec_syscall_accept4 : (master replica : Side) → M (Unit {0})
  exec_syscall_accept4 m r = do
    addr_m ← arg_of m 1
    addr_r ← arg_of r 1
    len_addr_m ← arg_of m 2
    len_addr_r ← arg_of r 2
    same ← or_else false (variant_mem_cmp k m len_addr_m r len_addr_r sizeof_socklen)
    check λ w. same_arg m r 0 w && same_arg m r 3 w && same
    resume_variant_from_wait m
    wait_variant k m
    request_syscall_info k m
    set_nop_syscall r
    resume_variant_from_wait r
    wait_variant k r
    copy_peer m r addr_m addr_r len_addr_m
    result ← gets λ w. rval (variant m w)
    set_syscall_return_value r result
    resume_variant_from_exit m
    resume_variant_from_exit r

  -- The length is the one that the master passed in, read before the call.
  unfoldable pub exec_syscall_getsockname : (master replica : Side) → M (Unit {0})
  exec_syscall_getsockname m r = do
    buf_m ← arg_of m 1
    buf_r ← arg_of r 1
    len_addr_m ← arg_of m 2
    len_addr_r ← arg_of r 2
    len ← read_socklen m len_addr_m
    same ← or_else false (variant_mem_cmp k m len_addr_m r len_addr_r sizeof_socklen)
    check λ w. same_arg m r 0 w && same
    resume_variant_from_wait m
    wait_variant k m
    request_syscall_info k m
    set_nop_syscall r
    resume_variant_from_wait r
    wait_variant k r
    result ← gets λ w. rval (variant m w)
    set_syscall_return_value r result
    if result == 0 then ignore (transfer_variant_mem k m buf_m r buf_r len) else pure tt
    resume_variant_from_exit m
    resume_variant_from_exit r

  unfoldable pub exec_syscall_poll : (master replica : Side) → M (Unit {0})
  exec_syscall_poll m r = do
    check λ w. same_arg m r 1 w && same_arg m r 2 w
    fds_m ← arg_of m 0
    fds_r ← arg_of r 0
    count ← arg_of m 1
    same ← or_else false (variant_mem_cmp k m fds_m r fds_r (wrap (count * sizeof_pollfd)))
    require same
    resume_variant_from_wait m
    wait_variant k m
    request_syscall_info k m
    set_nop_syscall r
    resume_variant_from_wait r
    wait_variant k r
    transfer_variant_mem k m fds_m r fds_r (wrap (count * sizeof_pollfd))
    result ← gets λ w. rval (variant m w)
    set_syscall_return_value r result
    resume_variant_from_exit m
    resume_variant_from_exit r

  -- `variantMemCmp(...) == 0` on what the argument `i` of both points to.
  unfoldable pub same_memory : (master replica : Side) → (i size : ℕ) → M Bool
  same_memory m r i size = do
    addr_m ← arg_of m i
    addr_r ← arg_of r i
    or_else false (variant_mem_cmp k m addr_m r addr_r size)

  -- The comparisons of pselect6, each of which is made.
  unfoldable pub same_pselect6 : (master replica : Side) → M Bool
  same_pselect6 m r = do
    nfds ← gets λ w. to_int (arg (variant m w) 0) == to_int (arg (variant r w) 0)
    read_fds ← same_memory m r 1 sizeof_fd_set
    write_fds ← same_memory m r 2 sizeof_fd_set
    except_fds ← same_memory m r 3 sizeof_fd_set
    timeout ← same_memory m r 4 sizeof_timespec
    sigmask ← same_memory m r 5 sizeof_sigset
    pure (nfds && read_fds && write_fds && except_fds && timeout && sigmask)

  -- The copies of the three sets. Their results are not looked at.
  unfoldable pub copy_fd_sets :
      (master replica : Side) (read_m read_r write_m write_r except_m except_r : ℕ) → M (Unit {0})
  copy_fd_sets m r read_m read_r write_m write_r except_m except_r = do
    ignore (transfer_variant_mem k m read_m r read_r sizeof_fd_set)
    ignore (transfer_variant_mem k m write_m r write_r sizeof_fd_set)
    ignore (transfer_variant_mem k m except_m r except_r sizeof_fd_set)

  -- The replica is awaited, but it is not resumed before.
  unfoldable pub exec_syscall_pselect6 : (master replica : Side) → M (Unit {0})
  exec_syscall_pselect6 m r = do
    read_m ← arg_of m 1
    read_r ← arg_of r 1
    write_m ← arg_of m 2
    write_r ← arg_of r 2
    except_m ← arg_of m 3
    except_r ← arg_of r 3
    same ← same_pselect6 m r
    require same
    resume_variant_from_wait m
    wait_variant k m
    request_syscall_info k m
    result ← gets λ w. to_int (rval (variant m w))
    set_nop_syscall r
    wait_variant k r
    set_syscall_return_value r result
    if ltb 0 result && ltb result (2 ^ 31)
        then copy_fd_sets m r read_m read_r write_m write_r except_m except_r
        else pure tt
    resume_variant_from_exit m
    resume_variant_from_exit r
