-- ===== src/Protocol/Scripts/Complete.antt =====
-- The executors that take both variants through the call with no data to copy, by
-- `runMasterReplicateRet` or `runBothCopyMasterRet`.
use aurora_mvee.Base.{false}
use aurora_mvee.Kernel.{Kernel}
use aurora_mvee.Kernel.Laws.{Stops}
use aurora_mvee.World.{first, second}
use aurora_mvee.Executors.Results.{
  exec_syscall_getpid, exec_syscall_close, exec_syscall_fchmod, exec_syscall_fchown,
  exec_syscall_listen, exec_syscall_bind,
}
use aurora_mvee.Executors.Paths.{exec_syscall_openat, exec_syscall_unlink, exec_syscall_utimensat}
use aurora_mvee.Protocol.{Does}
use aurora_mvee.Protocol.Rules.{
  ◌▹◌, Does-skip, Keeps-gets, Keeps-require, Keeps-check, Keeps-or_else, Keeps-arg_of,
}
use aurora_mvee.Protocol.Quiet.{variant_mem_cmp-Keeps, variant_str_cmp-Keeps}
use aurora_mvee.Protocol.Scripts.Enter.{same_path-Keeps}
use aurora_mvee.Protocol.Scripts.Shapes.{
  both_complete, run_master_replicate_ret-Does, run_both_copy_master_ret-Does,
}

module _ (k : Kernel) (stops : Stops k) where
  pub getpid-Does : Does both_complete (exec_syscall_getpid k first second)
  unfolding exec_syscall_getpid
  getpid-Does = run_master_replicate_ret-Does k stops

  pub close-Does : Does both_complete (exec_syscall_close k first second)
  unfolding exec_syscall_close
  close-Does = Keeps-check _ ▹ run_both_copy_master_ret-Does k stops

  pub fchmod-Does : Does both_complete (exec_syscall_fchmod k first second)
  unfolding exec_syscall_fchmod
  fchmod-Does = Keeps-check _ ▹ run_master_replicate_ret-Does k stops

  pub fchown-Does : Does both_complete (exec_syscall_fchown k first second)
  unfolding exec_syscall_fchown
  fchown-Does = Keeps-check _ ▹ run_master_replicate_ret-Does k stops

  pub listen-Does : Does both_complete (exec_syscall_listen k first second)
  unfolding exec_syscall_listen
  listen-Does = Keeps-check _ ▹ run_master_replicate_ret-Does k stops

  pub bind-Does : Does both_complete (exec_syscall_bind k first second)
  unfolding exec_syscall_bind
  bind-Does = Does-skip (Keeps-gets _) λ eq. Does-skip (Keeps-arg_of first 1) λ addr_m.
      Does-skip (Keeps-arg_of second 1) λ addr_r. Does-skip (Keeps-arg_of first 2) λ len.
        Does-skip (Keeps-or_else false (variant_mem_cmp-Keeps k first addr_m second addr_r _))
          λ same. Keeps-require _ ▹ run_master_replicate_ret-Does k stops

  pub openat-Does : Does both_complete (exec_syscall_openat k first second)
  unfolding exec_syscall_openat
  openat-Does =
      Keeps-check _
      ▹ Does-skip (Keeps-arg_of first 1) λ path_m. Does-skip (Keeps-arg_of second 1) λ path_r.
        Does-skip (variant_str_cmp-Keeps k first path_m second path_r)
          λ same. Keeps-require same ▹ run_both_copy_master_ret-Does k stops

  pub unlink-Does : Does both_complete (exec_syscall_unlink k first second)
  unfolding exec_syscall_unlink
  unlink-Does =
      Does-skip (same_path-Keeps k 0)
        λ same. Keeps-require same ▹ run_master_replicate_ret-Does k stops

  pub utimensat-Does : Does both_complete (exec_syscall_utimensat k first second)
  unfolding exec_syscall_utimensat
  utimensat-Does =
      Keeps-check _
      ▹ Does-skip (same_path-Keeps k 1)
          λ same. Keeps-require same ▹ Keeps-check _ ▹ run_master_replicate_ret-Does k stops
