-- ===== src/Security.antt =====
-- Monitor/src/security_manager.c.
use Prim.Native.Nat.{bit_and}
use aurora_mvee.Base.{ℕ, Bool, not, ◌&&◌, ◌==◌}

abbrev pub prot_write : ℕ
prot_write = 2

abbrev pub map_private : ℕ
map_private = 2

-- `checkMMapPerms(prot, flags) == 0`.
unfoldable pub check_mmap_perms : ℕ → ℕ → Bool
check_mmap_perms prot flags =
    not (not (bit_and prot prot_write == 0) && (bit_and flags map_private == 0))
