-- ===== src/Tests/Memory.antt =====
-- Transfers of memory between two tracees.
use aurora_mvee.Memory.Stored.{Stored, write_variant_mem-Stored}
use aurora_mvee.Base.{
  ℕ, ◌+◌, ◌-◌, ◌%◌, ◌≡◌, refl, Bool, true, [], arith, ltb, leb, ◌&&◌, ◌↔◌, if◌then◌else◌,
}
use aurora_mvee.World.{World, first, second}
use aurora_mvee.World.Monad.{ok, failed}
use aurora_mvee.Memory.{write_variant_mem, transfer_variant_mem, variant_mem_cmp, variant_str_cmp}
use aurora_mvee.Memory.Write.{memory}
use aurora_mvee.Memory.Transfer.{transfer_variant_mem-copies}
use aurora_mvee.Memory.Compare.{Agrees, variant_mem_cmp-Agrees}
use aurora_mvee.Memory.Strings.{variant_str_cmp-fails}
use aurora_mvee.Tests.{content, reading, same_calls, reading-Readable}

variant_str_cmp-fails_example :
    (w' : World) × (variant_str_cmp reading first 240 second 240 (same_calls []) ≡ failed w')
    × (w'.trace ≡ [])
variant_str_cmp-fails_example =
    variant_str_cmp-fails reading first 240 (content 10) 6 (omega arith) (omega arith) refl second
      240 (same_calls []) (reading-Readable [] 10 240 353)

transfer_variant_mem-copies_example :
    (w' : World) × (transfer_variant_mem reading first 600 second 800 16 (same_calls []) ≡ ok tt w')
    × ((x : ℕ)
        → memory second (content 11) w' x ≡ (
            if leb 800 x && ltb x 816
            then content 10 (600 + (x - 800))
            else memory second (content 11) (same_calls []) x))
transfer_variant_mem-copies_example =
    transfer_variant_mem-copies reading first second (same_calls []) (content 10) (content 11) 600
      800 16 (λ j. omega arith) refl (omega arith) (omega arith) (reading-Readable [] 10 600 623)
      (omega arith) (omega arith)

-- 257 bytes apart, the memories of the two are the same.
variant_mem_cmp-Agrees_example :
    (equal : Bool) × (w' : World) × (variant_mem_cmp reading first 601 second 600 5 (same_calls [])
      ≡ ok equal w')
    × (w'.trace ≡ [])
    × ((equal ≡ true) ↔ Agrees (content 10) 601 (content 11) 600 5)
variant_mem_cmp-Agrees_example =
    variant_mem_cmp-Agrees reading first 601 second 600 5 (same_calls []) (content 10) (content 11)
      (omega arith) (reading-Readable [] 10 601 613) (omega arith) (reading-Readable [] 11 600 612)
      (omega arith)

-- 21 bytes: the last eight are taken from the offset 104, not from 13.
write_variant_mem-Stored_example :
    (w' : World) × (write_variant_mem reading second (λ j. j % 256) 800 21 (same_calls [])
      ≡ ok 21 w')
    × Stored second (content 11) (λ j. j % 256) 800 21 (same_calls []) w'
write_variant_mem-Stored_example =
    write_variant_mem-Stored reading second (content 11) (λ j. j % 256) 800 21 (same_calls [])
      (λ j. omega arith) (omega arith) (omega arith) (omega arith)
      (λ short. reading-Readable [] 11 800 808)
