-- ===== src/Tests/Maps.antt =====
-- Calls that change the table of mappings.
use Prim.Native.Nat.{bit_and}
use aurora_mvee.Executors.Shared.{exec_syscall-shared}
use aurora_mvee.Base.{zero, suc, ◌≢◌, ℕ, ◌≡◌, refl, some, List, [], ◌∷◌, arith}
use aurora_mvee.World.{World, Mapping, first, second}
use aurora_mvee.World.Monad.{failed}
use aurora_mvee.Tests.{reading, calls, args3}
use aurora_mvee.Words.{wrap, to_int}
use aurora_mvee.Security.{prot_write}
use aurora_mvee.Mappings.{find_mapping, covers}
use aurora_mvee.Mappings.Laws.{Fits}
use aurora_mvee.Monitor.{exec_syscall}
use aurora_mvee.Monitor.Numbers.{Syscall}

-- Both unmap what begins at 4096; the second mapping holds the address, the first does not.
abbrev pub low_map : Mapping
low_map = record { addr = 0; len = 4096; prot = 1; flags = 2 }

abbrev pub high_map : Mapping
high_map = record { addr = 4096; len = 8192; prot = 3; flags = 2 }

abbrev pub maps : List Mapping
maps = low_map ∷ high_map ∷ []

abbrev pub unmaps : ℕ → World
unmaps a = calls (args3 a 8192 0) (args3 a 8192 0) maps

pub maps-Fits : Fits maps
maps-Fits = (omega arith, (omega arith, tt))

pub found_high : find_mapping 4096 maps ≡ some high_map
unfolding find_mapping covers wrap
found_high = refl

-- The address 4096, some length, a protection and MAP_SHARED.
abbrev shared_args : ℕ → ℕ → ℕ
shared_args prot zero = 4096
shared_args prot (suc zero) = 8192
shared_args prot (suc (suc zero)) = prot
shared_args prot (suc (suc (suc zero))) = 1
shared_args prot (suc (suc (suc (suc i)))) = 0

abbrev shared_map : Mapping
shared_map = record { addr = 4096; len = 8192; prot = 1; flags = 1 }

found_shared : find_mapping 4096 (shared_map ∷ []) ≡ some shared_map
unfolding find_mapping covers wrap
found_shared = refl

writable : bit_and (to_int 3) prot_write ≢ 0
unfolding to_int
writable = ground arith

-- Both ask for memory that is readable, writable and shared.
abbrev shared_calls : World
shared_calls = calls (shared_args 3) (shared_args 3) (shared_map ∷ [])

exec_syscall-shared_example :
    exec_syscall reading Syscall.mprotect first second shared_calls ≡ failed shared_calls
unfolding to_int
exec_syscall-shared_example =
    exec_syscall-shared reading Syscall.mprotect shared_calls
      (shared_map, found_shared, writable, refl)
