-- ===== src/Tests/Tables.antt =====
-- The table of mappings as a function, and the numbers and names of system calls.
use aurora_mvee.Base.{◌≢◌, ◌≡◌, refl, true, none, some, [], ◌∷◌, arith, if◌then◌else◌}
use aurora_mvee.Kernel.{Addr, cont}
use aurora_mvee.World.{World, Mapping, first, second}
use aurora_mvee.World.Monad.{Succeeds}
use aurora_mvee.Words.{wrap, to_int}
use aurora_mvee.Security.{check_mmap_perms}
use aurora_mvee.Mappings.{add_mapping, find_mapping, covers}
use aurora_mvee.Mappings.Laws.{NoneCovers}
use aurora_mvee.Mappings.Disjoint.{Disjoint, Apart}
use aurora_mvee.Executors.Maps.{exec_syscall_mmap, exec_syscall_mprotect, exec_syscall_munmap}
use aurora_mvee.Executors.Tables.{
  exec_syscall_mmap-Disjoint, exec_syscall_munmap-Disjoint, exec_syscall_mprotect-unchecked,
}
use aurora_mvee.Tests.{reading, calls, args3}
use aurora_mvee.Tests.Maps.{low_map, high_map, maps, unmaps, maps-Fits, found_high}

maps-Apart : Apart low_map (high_map ∷ [])
unfolding covers wrap
maps-Apart a on = (ground (arith, on), tt)

maps-Disjoint : Disjoint maps
maps-Disjoint = (maps-Apart, (λ a on. tt, tt))

exec_syscall_munmap-Disjoint_example :
    Succeeds
      (λ w'.
        Disjoint w'.mappings
        × ((a : Addr)
            → find_mapping a w'.mappings
              ≡ (if covers high_map a then none else find_mapping a maps)))
      (exec_syscall_munmap first second (unmaps 4096))
exec_syscall_munmap-Disjoint_example =
    exec_syscall_munmap-Disjoint (unmaps 4096) high_map refl maps-Fits maps-Disjoint found_high refl

-- The kernel returns 4096, and the first mapping ends there.
abbrev maps_one : World
maps_one = calls (args3 0 8192 1) (args3 0 8192 1) (low_map ∷ [])

allowed : check_mmap_perms 1 0 ≡ true
unfolding check_mmap_perms
allowed = refl

free_4096 : NoneCovers 4096 (low_map ∷ [])
unfolding covers wrap
free_4096 = (refl, tt)

exec_syscall_mmap-Disjoint_example :
    Succeeds
      (λ w'.
        Disjoint w'.mappings
        × ((map : Mapping) × (find_mapping 4096 w'.mappings ≡ some map) × (map.len ≡ 0))
        × ((a : Addr) → a ≢ 4096 → find_mapping a w'.mappings ≡ find_mapping a (low_map ∷ [])))
      (exec_syscall_mmap reading first second maps_one)
unfolding to_int
exec_syscall_mmap-Disjoint_example =
    exec_syscall_mmap-Disjoint reading maps_one 5 4096 0 refl allowed refl refl free_4096
      (λ a on. tt, tt)

-- A shared mapping from 4096 that mmap has recorded, behind which 8192 is made writable.
abbrev shared : Mapping
shared = record { addr = 4096; len = 0; prot = 1; flags = 1 }

abbrev protects : World
protects = calls (args3 8192 4096 2) (args3 8192 4096 2) (low_map ∷ shared ∷ [])

table : low_map ∷ shared ∷ [] ≡ add_mapping shared (low_map ∷ [])
unfolding add_mapping
table = refl

free_8192 : NoneCovers 8192 (low_map ∷ [])
unfolding covers wrap
free_8192 = (refl, tt)

exec_syscall_mprotect-unchecked_example :
    Succeeds (λ w'. w'.trace ≡ cont 11 ∷ cont 10 ∷ []) (exec_syscall_mprotect first second protects)
unfolding to_int
exec_syscall_mprotect-unchecked_example =
    exec_syscall_mprotect-unchecked protects shared (low_map ∷ []) table refl (omega arith)
      free_8192 refl
