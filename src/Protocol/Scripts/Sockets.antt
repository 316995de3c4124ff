-- ===== src/Protocol/Scripts/Sockets.antt =====
-- The executors of Net: accept4, getsockname, poll and pselect6.
use aurora_mvee.Base.{ℕ, ◌==◌, false}
use aurora_mvee.Kernel.{Kernel}
use aurora_mvee.Kernel.Laws.{Stops}
use aurora_mvee.World.{first, second}
use aurora_mvee.Executors.Net.{
  read_socklen, copy_peer, exec_syscall_accept4, exec_syscall_getsockname, exec_syscall_poll,
  same_memory, same_pselect6, copy_fd_sets, exec_syscall_pselect6, sizeof_fd_set,
}
use aurora_mvee.Protocol.{Does, Keeps}
use aurora_mvee.Protocol.Rules.{
  ◌▷◌, ◌▹◌, ◌▸◌, Does-skip, Keeps-bind, Keeps-gets, Keeps-require, Keeps-check, Keeps-or_else,
  Keeps-ignore, Keeps-arg_of, Keeps-if, Keeps-pure,
}
use aurora_mvee.Protocol.Quiet.{
  variant_mem_cmp-Keeps, transfer_variant_mem-Keeps, read_variant_mem-Keeps,
}
use aurora_mvee.Protocol.Steps.{
  resume_from_wait-Does, resume_from_exit-Does, wait_variant-Does, set_nop_syscall-Keeps,
  set_syscall_return_value-Keeps, request_syscall_info-Keeps,
}
use aurora_mvee.Protocol.Scripts.Shapes.{both_complete, replica_not_resumed}

module _ (k : Kernel) where
  read_socklen-Keeps : (addr : ℕ) → Keeps (read_socklen k first addr)
  unfolding read_socklen
  read_socklen-Keeps addr =
      Keeps-bind (Keeps-or_else _ (read_variant_mem-Keeps k first _ addr _)) λ buf. Keeps-pure _

  copy_peer-Keeps :
      (addr_m addr_r len_addr : ℕ) → Keeps (copy_peer k first second addr_m addr_r len_addr)
  unfolding copy_peer
  copy_peer-Keeps addr_m addr_r len_addr = Keeps-if (addr_m == 0) (Keeps-pure tt) (
      Keeps-bind (read_socklen-Keeps len_addr)
        λ len. Keeps-ignore (transfer_variant_mem-Keeps k first addr_m second addr_r len))

  same_memory-Keeps : (i size : ℕ) → Keeps (same_memory k first second i size)
  unfolding same_memory
  same_memory-Keeps i size = Keeps-bind (Keeps-arg_of first i) λ addr_m.
      Keeps-bind (Keeps-arg_of second i)
        λ addr_r. Keeps-or_else false (variant_mem_cmp-Keeps k first addr_m second addr_r size)

  pub same_pselect6-Keeps : Keeps (same_pselect6 k first second)
  unfolding same_pselect6
  same_pselect6-Keeps = Keeps-bind (Keeps-gets _) λ nfds.
      Keeps-bind (same_memory-Keeps 1 _) λ read_fds. Keeps-bind (same_memory-Keeps 2 _) λ write_fds.
        Keeps-bind (same_memory-Keeps 3 _) λ except_fds.
          Keeps-bind (same_memory-Keeps 4 _)
            λ timeout. Keeps-bind (same_memory-Keeps 5 _) λ sigmask. Keeps-pure _

  copy_fd_sets-Keeps :
      (read_m read_r write_m write_r except_m except_r : ℕ)
      → Keeps (copy_fd_sets k first second read_m read_r write_m write_r except_m except_r)
  unfolding copy_fd_sets
  copy_fd_sets-Keeps read_m read_r write_m write_r except_m except_r =
      Keeps-ignore (transfer_variant_mem-Keeps k first read_m second read_r sizeof_fd_set)
      ▸ Keeps-ignore (transfer_variant_mem-Keeps k first write_m second write_r sizeof_fd_set)
      ▸ Keeps-ignore (transfer_variant_mem-Keeps k first except_m second except_r sizeof_fd_set)

module _ (k : Kernel) (stops : Stops k) where
  pub accept4-Does : Does both_complete (exec_syscall_accept4 k first second)
  unfolding exec_syscall_accept4
  accept4-Does = Does-skip (Keeps-arg_of first 1) λ addr_m.
      Does-skip (Keeps-arg_of second 1) λ addr_r. Does-skip (Keeps-arg_of first 2) λ len_addr_m.
        Does-skip (Keeps-arg_of second 2) λ len_addr_r.
          Does-skip
            (Keeps-or_else false (variant_mem_cmp-Keeps k first len_addr_m second len_addr_r _))
            λ same.
              Keeps-check _
              ▹ resume_from_wait-Does first
              ▷ wait_variant-Does k stops first
              ▷ request_syscall_info-Keeps k first
              ▹ set_nop_syscall-Keeps second
              ▹ resume_from_wait-Does second
              ▷ wait_variant-Does k stops second
              ▷ copy_peer-Keeps k addr_m addr_r len_addr_m
              ▹ Does-skip (Keeps-gets _) λ result.
                set_syscall_return_value-Keeps second result
                ▹ resume_from_exit-Does first
                ▷ resume_from_exit-Does second

  pub getsockname-Does : Does both_complete (exec_syscall_getsockname k first second)
  unfolding exec_syscall_getsockname
  getsockname-Does = Does-skip (Keeps-arg_of first 1) λ buf_m.
      Does-skip (Keeps-arg_of second 1) λ buf_r. Does-skip (Keeps-arg_of first 2) λ len_addr_m.
        Does-skip (Keeps-arg_of second 2) λ len_addr_r.
          Does-skip (read_socklen-Keeps k len_addr_m) λ len.
            Does-skip
              (Keeps-or_else false (variant_mem_cmp-Keeps k first len_addr_m second len_addr_r _))
              λ same.
                Keeps-check _
                ▹ resume_from_wait-Does first
                ▷ wait_variant-Does k stops first
                ▷ request_syscall_info-Keeps k first
                ▹ set_nop_syscall-Keeps second
                ▹ resume_from_wait-Does second
                ▷ wait_variant-Does k stops second
                ▷ Does-skip (Keeps-gets _) λ result.
                  set_syscall_return_value-Keeps second result
                  ▹ Keeps-if (result == 0)
                      (Keeps-ignore (transfer_variant_mem-Keeps k first buf_m second buf_r len))
                      (Keeps-pure tt)
                  ▹ resume_from_exit-Does first
                  ▷ resume_from_exit-Does second

  pub poll-Does : Does both_complete (exec_syscall_poll k first second)
  unfolding exec_syscall_poll
  poll-Does =
      Keeps-check _
      ▹ Does-skip (Keeps-arg_of first 0) λ fds_m. Does-skip (Keeps-arg_of second 0) λ fds_r.
        Does-skip (Keeps-arg_of first 1) λ count.
          Does-skip (Keeps-or_else false (variant_mem_cmp-Keeps k first fds_m second fds_r _))
            λ same.
              Keeps-require same
              ▹ resume_from_wait-Does first
              ▷ wait_variant-Does k stops first
              ▷ request_syscall_info-Keeps k first
              ▹ set_nop_syscall-Keeps second
              ▹ resume_from_wait-Does second
              ▷ wait_variant-Does k stops second
              ▷ transfer_variant_mem-Keeps k first fds_m second fds_r _
              ▹ Does-skip (Keeps-gets _) λ result.
                set_syscall_return_value-Keeps second result
                ▹ resume_from_exit-Does first
                ▷ resume_from_exit-Does second

  pub pselect6-Does : Does replica_not_resumed (exec_syscall_pselect6 k first second)
  unfolding exec_syscall_pselect6
  pselect6-Does = Does-skip (Keeps-arg_of first 1) λ read_m.
      Does-skip (Keeps-arg_of second 1) λ read_r. Does-skip (Keeps-arg_of first 2) λ write_m.
        Does-skip (Keeps-arg_of second 2) λ write_r. Does-skip (Keeps-arg_of first 3) λ except_m.
          Does-skip (Keeps-arg_of second 3) λ except_r. Does-skip (same_pselect6-Keeps k) λ same.
            Keeps-require same
            ▹ resume_from_wait-Does first
            ▷ wait_variant-Does k stops first
            ▷ request_syscall_info-Keeps k first
            ▹ Does-skip (Keeps-gets _) λ result.
              set_nop_syscall-Keeps second
              ▹ wait_variant-Does k stops second
              ▷ set_syscall_return_value-Keeps second result
              ▹ Keeps-if _ (copy_fd_sets-Keeps k read_m read_r write_m write_r except_m except_r)
                  (Keeps-pure tt)
              ▹ resume_from_exit-Does first
              ▷ resume_from_exit-Does second
