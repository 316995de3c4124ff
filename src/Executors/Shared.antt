-- ===== src/Executors/Shared.antt =====
-- Memory that is writable and shared: the checks of security_manager.c in mmap.c and mprotect.c of
-- Monitor/src.
use Prim.Native.Nat.{bit_and}
use aurora_mvee.Base.{ℕ, ◌≡◌, ◌≢◌, refl, false, Bool-cases, inl, inr, some, ◌&&◌, arith}
use aurora_mvee.Words.{to_int}
use aurora_mvee.Kernel.{Kernel}
use aurora_mvee.World.{World, Mapping, first, second, arg}
use aurora_mvee.World.Monad.{failed, monad}
use aurora_mvee.Security.{prot_write, map_private, check_mmap_perms}
use aurora_mvee.Monitor.{exec_syscall}
use aurora_mvee.Monitor.Numbers.{Syscall}
use aurora_mvee.Mappings.{find_mapping}
use aurora_mvee.Executors.Args.{same_arg, check, arg_of}
use aurora_mvee.Executors.Maps.{same_int_arg, exec_syscall_mmap, exec_syscall_mprotect}
use aurora_mvee.Executors.Mapped.{same_mmap_args}

check_mmap_perms-forbids :
    (prot flags : ℕ)
    → bit_and prot prot_write ≢ 0
    → bit_and flags map_private ≡ 0
    → check_mmap_perms prot flags ≡ false
unfolding check_mmap_perms
check_mmap_perms-forbids prot flags writable shared = ground (arith, writable, shared)

exec_syscall_mmap-shared :
    (k : Kernel) (w : World)
    → bit_and (to_int (arg w.master 2)) prot_write ≢ 0
    → bit_and (to_int (arg w.master 3)) map_private ≡ 0
    → exec_syscall_mmap k first second w ≡ failed w
unfolding exec_syscall_mmap check arg_of monad
exec_syscall_mmap-shared k w writable shared =
    let forbidden = check_mmap_perms-forbids _ _ writable shared in
    elim (Bool-cases (same_mmap_args w)) [
      | inl same ↦ rw (same, forbidden) refl
      | inr differ ↦ rw differ refl
    ]

exec_syscall_mprotect-shared :
    (w : World) (map : Mapping)
    → find_mapping (arg w.master 0) w.mappings ≡ some map
    → bit_and (to_int (arg w.master 2)) prot_write ≢ 0
    → bit_and map.flags map_private ≡ 0
    → exec_syscall_mprotect first second w ≡ failed w
unfolding exec_syscall_mprotect check arg_of monad
exec_syscall_mprotect-shared w map found writable shared =
    let forbidden = check_mmap_perms-forbids _ _ writable shared in
    elim (Bool-cases (same_arg first second 1 w && same_int_arg first second 2 w)) [
      | inl same ↦ rw (same, found, forbidden) refl
      | inr differ ↦ rw differ refl
    ]

-- The call asks for writable memory that is not private: for mmap by its flags, for mprotect by those
-- of the first known mapping that holds the address.
abbrev pub AsksForShared : Syscall → World → Type 0
AsksForShared Syscall.mmap w =
    (bit_and (to_int (arg w.master 2)) prot_write ≢ 0)
    × (bit_and (to_int (arg w.master 3)) map_private ≡ 0)
AsksForShared Syscall.mprotect w =
    (map : Mapping) × (find_mapping (arg w.master 0) w.mappings ≡ some map)
    × (bit_and (to_int (arg w.master 2)) prot_write ≢ 0)
    × (bit_and map.flags map_private ≡ 0)
AsksForShared _ w = ⊥

-- An mmap that asks for writable memory that is not private returns -1 and leaves everything as it
-- was, so that neither variant has been resumed; and so does an mprotect that asks to make memory
-- writable, if the first known mapping that holds its address is not private.
pub exec_syscall-shared :
    (k : Kernel) (call : Syscall) (w : World)
    → AsksForShared call w
    → exec_syscall k call first second w ≡ failed w
unfolding exec_syscall
exec_syscall-shared k Syscall.mmap w (writable, shared) =
    exec_syscall_mmap-shared k w writable shared
exec_syscall-shared k Syscall.mprotect w (map, found, writable, shared) =
    exec_syscall_mprotect-shared w map found writable shared
exec_syscall-shared k _ w asks = absurd asks
