-- ===== src/Protocol/Scripts/Transfer.antt =====
-- The executors that copy memory between the variants or change the table of mappings, and those
-- of access and pselect6.
use aurora_mvee.Base.{ℕ, ◌==◌, false, refl}
use aurora_mvee.Kernel.{Kernel}
use aurora_mvee.Kernel.Laws.{Stops}
use aurora_mvee.Words.{minus_one}
use aurora_mvee.World.{first, second}
use aurora_mvee.Executors.Data.{
  copy_unless_error, exec_syscall_read, exec_syscall_write, exec_syscall_pread64,
  exec_syscall_getrandom, exec_syscall_set_tid_address,
}
use aurora_mvee.Executors.Maps.{exec_syscall_mmap}
use aurora_mvee.Variant.{sys_lseek}
use aurora_mvee.Protocol.{Does, Keeps}
use aurora_mvee.Protocol.Rules.{
  ◌▷◌, ◌▹◌, Does-skip, Keeps-gets, Keeps-require, Keeps-check, Keeps-or_else, Keeps-arg_of,
  Keeps-if, Keeps-pure, Keeps-modify,
}
use aurora_mvee.Protocol.Quiet.{
  variant_mem_cmp-Keeps, transfer_variant_mem-Keeps, read_variant_mem-Keeps,
  write_variant_mem-Keeps,
}
use aurora_mvee.Protocol.Steps.{
  resume_from_wait-Does, resume_from_exit-Does, wait_variant-Does, set_syscall-Keeps,
  set_nop_syscall-Keeps, set_syscall_return_value-Keeps, set_lseek_regs-Keeps,
  request_syscall_info-Keeps,
}
use aurora_mvee.Protocol.Scripts.Shapes.{both_complete, both_complete_uncounted, master_completes}

module _ (k : Kernel) (stops : Stops k) where
  pub mmap-Does : Does master_completes (exec_syscall_mmap k first second)
  unfolding exec_syscall_mmap
  mmap-Does = Does-skip (Keeps-gets _) λ prot. Does-skip (Keeps-gets _) λ flags.
      Keeps-check _
      ▹ Keeps-require _
      ▹ resume_from_wait-Does first
      ▷ wait_variant-Does k stops first
      ▷ request_syscall_info-Keeps k first
      ▹ Does-skip (Keeps-gets _) λ mapped_addr.
        resume_from_exit-Does first
        ▷ Keeps-modify _ (λ w paired. (paired, refl))
        ▹ resume_from_wait-Does second

  copy_unless_error-Keeps :
      (buf_m buf_r bytes : ℕ) → Keeps (copy_unless_error k first second buf_m buf_r bytes)
  unfolding copy_unless_error
  copy_unless_error-Keeps buf_m buf_r bytes =
      Keeps-if (bytes == minus_one) (Keeps-pure tt)
        (transfer_variant_mem-Keeps k first buf_m second buf_r bytes)

  pub read-Does : Does both_complete (exec_syscall_read k first second)
  unfolding exec_syscall_read
  read-Does = Does-skip (Keeps-gets _) λ fd. Does-skip (Keeps-arg_of first 1) λ buf_m.
      Does-skip (Keeps-arg_of second 1) λ buf_r.
        Keeps-check _
        ▹ resume_from_wait-Does first
        ▷ wait_variant-Does k stops first
        ▷ request_syscall_info-Keeps k first
        ▹ Does-skip (Keeps-gets _) λ bytes_read.
          copy_unless_error-Keeps buf_m buf_r bytes_read
          ▹ set_lseek_regs-Keeps k second fd bytes_read
          ▹ set_syscall-Keeps second sys_lseek
          ▹ resume_from_wait-Does second
          ▷ wait_variant-Does k stops second
          ▷ set_syscall_return_value-Keeps second bytes_read
          ▹ resume_from_exit-Does first
          ▷ resume_from_exit-Does second

  pub write-Does : Does both_complete (exec_syscall_write k first second)
  unfolding exec_syscall_write
  write-Does = Does-skip (Keeps-gets _) λ fd. Does-skip (Keeps-arg_of first 2) λ count.
      Keeps-check _
      ▹ Does-skip (Keeps-arg_of first 1) λ buf_m. Does-skip (Keeps-arg_of second 1) λ buf_r.
        Does-skip (Keeps-or_else false (variant_mem_cmp-Keeps k first buf_m second buf_r count))
          λ same.
            Keeps-require same
            ▹ resume_from_wait-Does first
            ▷ wait_variant-Does k stops first
            ▷ request_syscall_info-Keeps k first
            ▹ Does-skip (Keeps-gets _) λ bytes_written.
              set_lseek_regs-Keeps k second fd bytes_written
              ▹ set_syscall-Keeps first sys_lseek
              ▹ resume_from_wait-Does second
              ▷ wait_variant-Does k stops second
              ▷ set_syscall_return_value-Keeps second bytes_written
              ▹ resume_from_exit-Does first
              ▷ resume_from_exit-Does second

  pub pread64-Does : Does both_complete (exec_syscall_pread64 k first second)
  unfolding exec_syscall_pread64
  pread64-Does =
      Keeps-check _
      ▹ Does-skip (Keeps-arg_of first 1) λ buf_m. Does-skip (Keeps-arg_of second 1) λ buf_r.
        resume_from_wait-Does first
        ▷ wait_variant-Does k stops first
        ▷ request_syscall_info-Keeps k first
        ▹ Does-skip (Keeps-gets _) λ bytes_read.
          transfer_variant_mem-Keeps k first buf_m second buf_r bytes_read
          ▹ set_nop_syscall-Keeps second
          ▹ resume_from_wait-Does second
          ▷ wait_variant-Does k stops second
          ▷ set_syscall_return_value-Keeps second bytes_read
          ▹ resume_from_exit-Does first
          ▷ resume_from_exit-Does second

  pub getrandom-Does : Does both_complete_uncounted (exec_syscall_getrandom k first second)
  unfolding exec_syscall_getrandom
  getrandom-Does = Does-skip (Keeps-arg_of first 0) λ buf_m.
      Does-skip (Keeps-arg_of second 0) λ buf_r.
        Keeps-check _
        ▹ resume_from_wait-Does first
        ▷ wait_variant-Does k stops first
        ▷ request_syscall_info-Keeps k first
        ▹ Does-skip (Keeps-gets _) λ bytes_written.
          copy_unless_error-Keeps buf_m buf_r bytes_written
          ▹ set_nop_syscall-Keeps second
          ▹ resume_from_wait-Does second
          ▷ wait_variant-Does k stops second
          ▷ set_syscall_return_value-Keeps second bytes_written
          ▹ resume_from_wait-Does first
          ▷ resume_from_wait-Does second

  pub set_tid_address-Does : Does both_complete (exec_syscall_set_tid_address k first second)
  unfolding exec_syscall_set_tid_address
  set_tid_address-Does = Does-skip (Keeps-arg_of first 0) λ ptr_m.
      Does-skip (Keeps-arg_of second 0) λ ptr_r.
        resume_from_wait-Does first
        ▷ wait_variant-Does k stops first
        ▷ resume_from_wait-Does second
        ▷ wait_variant-Does k stops second
        ▷ Does-skip (Keeps-or_else _ (read_variant_mem-Keeps k first _ ptr_m _)) λ tid.
          Keeps-or_else 0 (write_variant_mem-Keeps k second tid.1 ptr_r _)
          ▹ resume_from_exit-Does first
          ▷ resume_from_exit-Does second
