-- ===== src/Executors/Mapped.antt =====
-- What mmap.c of Monitor/src/sys does to the table of mappings.
use aurora_mvee.Base.{ℕ, ◌≡◌, refl, Bool, true, ◌&&◌, some, ◌∷◌}
use aurora_mvee.Words.{to_int}
use aurora_mvee.Kernel.{Kernel, exit_stop, stopped, cont, waited}
use aurora_mvee.World.{World, first, second, arg}
use aurora_mvee.World.Monad.{Succeeds, monad}
use aurora_mvee.Security.{check_mmap_perms}
use aurora_mvee.Mappings.{add_mapping}
use aurora_mvee.Variant.{
  update, request, resume_variant_from_wait, resume_variant_from_exit, wait_variant, wait_pid,
  check_variant_exit, request_syscall_info,
}
use aurora_mvee.Executors.Args.{same_arg, check, arg_of}
use aurora_mvee.Executors.Maps.{same_int_arg, exec_syscall_mmap}

-- The comparisons with which mmap.c begins.
abbrev pub same_mmap_args : World → Bool
same_mmap_args w =
    same_arg first second 1 w
    && same_int_arg first second 2 w
    && same_int_arg first second 3 w
    && same_arg first second 4 w
    && same_arg first second 5 w

-- Where the arguments agree, the protection is allowed and the master's call returns `addr`, mmap
-- returns 0 and adds one mapping behind the known ones: it begins at `addr` and has the protection
-- and the flags that the master asked for, but its length is 0, whatever length was asked for.
pub exec_syscall_mmap-len_zero :
    (k : Kernel) (w : World) (sig addr is_error : ℕ)
    → same_mmap_args w ≡ true
    → check_mmap_perms (to_int (arg w.master 2)) (to_int (arg w.master 3)) ≡ true
    → k.status (waited w.master.pid ∷ cont w.master.pid ∷ w.trace) w.master.pid ≡ some (stopped sig)
    → k.stop (waited w.master.pid ∷ cont w.master.pid ∷ w.trace) w.master.pid
      ≡ exit_stop addr is_error
    → Succeeds
        (λ w'.
          w'.mappings
          ≡ add_mapping
              (record {
                addr = addr;
                len = 0;
                prot = to_int (arg w.master 2);
                flags = to_int (arg w.master 3);
              })
              w.mappings)
        (exec_syscall_mmap k first second w)
unfolding exec_syscall_mmap check arg_of monad update request resume_variant_from_wait
    resume_variant_from_exit wait_variant wait_pid check_variant_exit request_syscall_info
exec_syscall_mmap-len_zero k w sig addr is_error same allowed stops returns =
    rw (same, allowed) (rw (stops, Succeeds) (rw (returns, Succeeds) refl))
