-- ===== src/Executors/Maps.antt =====
-- The calls that change memory mappings: mmap.c, mprotect.c and munmap.c of Monitor/src/sys. The
-- table of mappings follows the master.
use aurora_mvee.Base.{ℕ, Bool, true, ◌&&◌, Option, none, some, ◌==◌}
use aurora_mvee.Kernel.{Kernel}
use aurora_mvee.Words.{to_int}
use aurora_mvee.World.{World, Mapping, Side, variant, arg, rval}
use aurora_mvee.World.Monad.{M, gets, modify, require, fail, ◌>>=◌, ◌>>◌}
use aurora_mvee.Security.{check_mmap_perms}
use aurora_mvee.Mappings.{add_mapping, remove_mapping, find_mapping}
use aurora_mvee.Variant.{
  resume_variant_from_wait, resume_variant_from_exit, wait_variant, request_syscall_info,
}
use aurora_mvee.Executors.Args.{same_arg, check, arg_of, resume_both}

-- `(int) master->...args[i] == replica->...args[i]`
abbrev pub same_int_arg : (master replica : Side) → ℕ → World → Bool
same_int_arg m r i w = to_int (arg (variant m w) i) == arg (variant r w) i

-- The length that is recorded is read from the master's information after the call.
unfoldable pub exec_syscall_mmap : Kernel → (master replica : Side) → M (Unit {0})
exec_syscall_mmap k m r = do
  prot ← gets λ w. to_int (arg (variant m w) 2)
  flags ← gets λ w. to_int (arg (variant m w) 3)
  check λ w.
      same_arg m r 1 w
      && same_int_arg m r 2 w
      && same_int_arg m r 3 w
      && same_arg m r 4 w
      && same_arg m r 5 w
  require (check_mmap_perms prot flags)
  resume_variant_from_wait m
  wait_variant k m
  request_syscall_info k m
  mapped_addr ← gets λ w. rval (variant m w)
  resume_variant_from_exit m
  modify λ w.
      let mapping : Mapping = record {
        addr = mapped_addr;
        len = arg (variant m w) 1;
        prot = prot;
        flags = flags;
      } in
      record w { mappings = add_mapping mapping w.mappings }
  resume_variant_from_wait r

-- Where the address lies in a known mapping, the new protection must agree with its flags.
abbrev pub may_protect : ℕ → Option Mapping → Bool
may_protect prot none = true
may_protect prot (some map) = check_mmap_perms prot map.flags

unfoldable pub exec_syscall_mprotect : (master replica : Side) → M (Unit {0})
exec_syscall_mprotect m r = do
  target ← arg_of m 0
  prot ← gets λ w. to_int (arg (variant m w) 2)
  check λ w. same_arg m r 1 w && same_int_arg m r 2 w
  map ← gets λ w. find_mapping target w.mappings
  require (may_protect prot map)
  resume_both m r

-- Only a mapping that begins at the address can be removed. The result of `removeMapping` is not
-- looked at.
unfoldable pub unmap : ℕ → Option Mapping → M (Unit {0})
unmap target none = fail
unmap target (some map) = do
  require (map.addr == target)
  modify λ w. record w {
    mappings = elim (remove_mapping map.addr w.mappings) [ none ↦ w.mappings | some ms ↦ ms ];
  }

unfoldable pub exec_syscall_munmap : (master replica : Side) → M (Unit {0})
exec_syscall_munmap m r = do
  target ← arg_of m 0
  check (same_arg m r 1)
  map ← gets λ w. find_mapping target w.mappings
  unmap target map
  resume_both m r
