-- ===== src/Protocol/Scripts/Enter.antt =====
-- The executors that leave both variants inside the call.
use aurora_mvee.Base.{ℕ, refl, false, Option, none, some}
use aurora_mvee.Kernel.{Kernel}
use aurora_mvee.World.{Mapping, first, second}
use aurora_mvee.Executors.Plain.{
  exec_syscall_brk, exec_syscall_set_robust_list, exec_syscall_arch_prctl, exec_syscall_prlimit64,
  exec_syscall_rt_sigaction, exec_syscall_exit_group, exec_syscall_lseek, exec_syscall_socket,
  exec_syscall_rseq, exec_syscall_fadvise64, exec_syscall_shutdown, exec_syscall_rt_sigprocmask,
  exec_syscall_setsockopt,
}
use aurora_mvee.Executors.Paths.{same_path, exec_syscall_chdir, exec_syscall_getcwd}
use aurora_mvee.Executors.Maps.{unmap, exec_syscall_mprotect, exec_syscall_munmap}
use aurora_mvee.Protocol.{Does, Keeps}
use aurora_mvee.Protocol.Rules.{
  ◌▷◌, ◌▹◌, Does-skip, Keeps-Does, Keeps-bind, Keeps-gets, Keeps-require, Keeps-check,
  Keeps-or_else, Keeps-fail, Keeps-modify, Keeps-arg_of, ◌▸◌,
}
use aurora_mvee.Protocol.Steps.{resume_from_wait-Does, resume_from_exit-Does}
use aurora_mvee.Protocol.Quiet.{variant_mem_cmp-Keeps, variant_str_cmp-Keeps}
use aurora_mvee.Protocol.Scripts.Shapes.{both_enter, both_counted_at_entry, resume_both-Does}

pub brk-Does : Does both_enter (exec_syscall_brk first second)
unfolding exec_syscall_brk
brk-Does = resume_both-Does

pub set_robust_list-Does : Does both_enter (exec_syscall_set_robust_list first second)
unfolding exec_syscall_set_robust_list
set_robust_list-Does = resume_both-Does

pub arch_prctl-Does : Does both_enter (exec_syscall_arch_prctl first second)
unfolding exec_syscall_arch_prctl
arch_prctl-Does = Keeps-check _ ▹ resume_both-Does

pub prlimit64-Does : Does both_enter (exec_syscall_prlimit64 first second)
unfolding exec_syscall_prlimit64
prlimit64-Does = Keeps-check _ ▹ resume_both-Does

pub rt_sigaction-Does : Does both_enter (exec_syscall_rt_sigaction first second)
unfolding exec_syscall_rt_sigaction
rt_sigaction-Does = Keeps-check _ ▹ resume_both-Does

pub exit_group-Does : Does both_enter (exec_syscall_exit_group first second)
unfolding exec_syscall_exit_group
exit_group-Does = Keeps-check _ ▹ resume_both-Does

pub lseek-Does : Does both_enter (exec_syscall_lseek first second)
unfolding exec_syscall_lseek
lseek-Does = Keeps-check _ ▹ resume_both-Does

pub socket-Does : Does both_enter (exec_syscall_socket first second)
unfolding exec_syscall_socket
socket-Does = Keeps-check _ ▹ resume_both-Does

pub rseq-Does : Does both_enter (exec_syscall_rseq first second)
unfolding exec_syscall_rseq
rseq-Does =
    Does-skip (Keeps-gets _) λ eq.
      resume_from_wait-Does first ▷ resume_from_wait-Does second ▷ Keeps-Does (Keeps-require eq)

pub fadvise64-Does : Does both_enter (exec_syscall_fadvise64 first second)
unfolding exec_syscall_fadvise64
fadvise64-Does =
    Does-skip (Keeps-gets _) λ eq.
      resume_from_wait-Does first ▷ resume_from_wait-Does second ▷ Keeps-Does (Keeps-require eq)

pub shutdown-Does : Does both_counted_at_entry (exec_syscall_shutdown first second)
unfolding exec_syscall_shutdown
shutdown-Does = Keeps-check _ ▹ resume_from_exit-Does first ▷ resume_from_exit-Does second

pub mprotect-Does : Does both_enter (exec_syscall_mprotect first second)
unfolding exec_syscall_mprotect
mprotect-Does = Does-skip (Keeps-arg_of first 0) λ target.
    Does-skip (Keeps-gets _)
      λ prot. Keeps-check _ ▹ Does-skip (Keeps-gets _) λ map. Keeps-require _ ▹ resume_both-Does

unmap-Keeps : (target : ℕ) (map : Option Mapping) → Keeps (unmap target map)
unfolding unmap
unmap-Keeps target none = Keeps-fail
unmap-Keeps target (some map) = Keeps-require _ ▸ Keeps-modify _ (λ w paired. (paired, refl))

pub munmap-Does : Does both_enter (exec_syscall_munmap first second)
unfolding exec_syscall_munmap
munmap-Does = Does-skip (Keeps-arg_of first 0) λ target.
    Keeps-check _ ▹ Does-skip (Keeps-gets _) λ map. unmap-Keeps target map ▹ resume_both-Does

module _ (k : Kernel) where
  pub same_path-Keeps : (i : ℕ) → Keeps (same_path k first second i)
  unfolding same_path
  same_path-Keeps i = Keeps-bind (Keeps-arg_of first i) λ path_m.
      Keeps-bind (Keeps-arg_of second i)
        λ path_r. Keeps-or_else false (variant_str_cmp-Keeps k first path_m second path_r)

  pub chdir-Does : Does both_enter (exec_syscall_chdir k first second)
  unfolding exec_syscall_chdir
  chdir-Does = Does-skip (same_path-Keeps 0) λ same. Keeps-require same ▹ resume_both-Does

  pub getcwd-Does : Does both_enter (exec_syscall_getcwd k first second)
  unfolding exec_syscall_getcwd
  getcwd-Does = Does-skip (same_path-Keeps 0) λ same. Keeps-check _ ▹ resume_both-Does

  pub rt_sigprocmask-Does : Does both_enter (exec_syscall_rt_sigprocmask k first second)
  unfolding exec_syscall_rt_sigprocmask
  rt_sigprocmask-Does =
      Keeps-check _
      ▹ Does-skip (Keeps-arg_of first 1) λ set_m. Does-skip (Keeps-arg_of second 1) λ set_r.
        Does-skip (Keeps-arg_of first 3) λ size.
          Does-skip (Keeps-or_else false (variant_mem_cmp-Keeps k first set_m second set_r size))
            λ same. Keeps-require same ▹ resume_both-Does

  pub setsockopt-Does : Does both_enter (exec_syscall_setsockopt k first second)
  unfolding exec_syscall_setsockopt
  setsockopt-Does =
      Keeps-check _
      ▹ Does-skip (Keeps-arg_of first 3) λ value_m. Does-skip (Keeps-arg_of second 3) λ value_r.
        Does-skip (Keeps-arg_of first 4) λ len.
          Does-skip (Keeps-or_else false (variant_mem_cmp-Keeps k first value_m second value_r _))
            λ same. Keeps-require same ▹ resume_both-Does
