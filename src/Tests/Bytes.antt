-- ===== src/Tests/Bytes.antt =====
-- Reads and writes of a variant's memory: sizes below a word, what is written and read back, and paths.
use aurora_mvee.Base.{ℕ, ◌+◌, ◌-◌, ◌*◌, ◌/◌, ◌%◌, ◌<◌, ◌≡◌, refl, [], ◌∷◌, arith}
use aurora_mvee.Words.Bytes.{word, byte-lt, byte-word}
use aurora_mvee.Kernel.{
  Kernel, Pid, Addr, Trace, poke_data, cont, waited, event, poke_user, set_options, set_regs,
  vm_write, kill,
}
use aurora_mvee.World.{World, Buf, first, second}
use aurora_mvee.World.Monad.{ok}
use aurora_mvee.Memory.{buf_size, read_variant_mem, write_variant_mem}
use aurora_mvee.Memory.Write.{poked}
use aurora_mvee.Memory.Bounds.{LeavesFrom, read_variant_mem-LeavesFrom, read_variant_mem-whole_word}
use aurora_mvee.Memory.RoundTrip.{after, Remembers, read_variant_mem-write_variant_mem}
use aurora_mvee.Memory.Compare.{Agrees}
use aurora_mvee.Executors.Paths.{stat_path_loop}
use aurora_mvee.Words.{to_int}
use aurora_mvee.Executors.Paths.{exec_syscall_newfstatat}
use aurora_mvee.Executors.Given.{Given}
use aurora_mvee.Executors.Stat.{exec_syscall_newfstatat-Given, exec_syscall_newfstatat-FailsWith}
use aurora_mvee.World.Monad.{Succeeds, FailsWith}
use aurora_mvee.Kernel.{waited, cont}
use aurora_mvee.Tests.Copies.{reading-Stops}
use aurora_mvee.Executors.StatPath.{StringAt, stat_path_loop-StringAt}
use aurora_mvee.Tests.{content, reading, calls, args3, same_calls, reading-Readable}

read_variant_mem-LeavesFrom_example :
    LeavesFrom
      ((21 + 7) / 8 * 8)
      (λ j. 0)
      (read_variant_mem reading first (λ j. 0) 600 21 (same_calls []))
    × LeavesFrom buf_size (λ j. 0) (read_variant_mem reading first (λ j. 0) 600 21 (same_calls []))
read_variant_mem-LeavesFrom_example =
    read_variant_mem-LeavesFrom reading first (λ j. 0) 600 21 (same_calls [])

-- A socklen_t has four bytes.
read_variant_mem-whole_word_example :
    (buf : Buf) × (read_variant_mem reading first (λ j. 0) 600 4 (same_calls [])
      ≡ ok (4, buf) (same_calls []))
    × ((j : ℕ) → j < 8 → buf j ≡ content 10 (600 + j))
read_variant_mem-whole_word_example =
    read_variant_mem-whole_word reading first (content 10) (λ j. 0) 600 4 (same_calls [])
      (omega arith) (omega arith) (reading-Readable [] 10 600 608) (omega arith)

-- A kernel that remembers what was stored in its tracees' memories.
abbrev remembering : Kernel
remembering = record reading { peek = λ t p a. word (λ j. poked p t (content p) (a + j)) }

poked-byte : (p : Pid) (t : Trace) (x : ℕ) → poked p t (content p) x < 256
poked-byte p [] x = omega arith
poked-byte p (poke_data q a v ∷ t) x = ground (arith, byte-lt v (x - a), poked-byte p t x)
poked-byte p (cont q ∷ t) x = poked-byte p t x
poked-byte p (waited q ∷ t) x = poked-byte p t x
poked-byte p (event q ∷ t) x = poked-byte p t x
poked-byte p (poke_user q r v ∷ t) x = poked-byte p t x
poked-byte p (set_options q o ∷ t) x = poked-byte p t x
poked-byte p (set_regs q r ∷ t) x = poked-byte p t x
poked-byte p (vm_write q a n b ∷ t) x = ground (arith, poked-byte p t x)
poked-byte p (kill q ∷ t) x = poked-byte p t x

remembering-Remembers :
    (p : Pid) (low high : Addr) → Remembers remembering p [] (content p) low high
remembering-Remembers p low high stores inside a i above below lt =
    let t = after p stores [] in
    byte-word (λ j. poked p t (content p) (a + j)) i (λ j. poked-byte p t (a + j)) lt

read_variant_mem-write_variant_mem_example :
    (w' : World) × (write_variant_mem remembering second (λ j. j % 256) 800 16 (same_calls [])
      ≡ ok 16 w')
    × (buf : Buf) × (read_variant_mem remembering second (λ j. 0) 800 16 w' ≡ ok (16, buf) w')
    × ((j : ℕ) → j < 16 → buf j ≡ j % 256)
read_variant_mem-write_variant_mem_example =
    read_variant_mem-write_variant_mem remembering (content 11) second (λ j. j % 256) (λ j. 0) 800
      16 (same_calls []) (remembering-Remembers 11 800 823) (λ j. omega arith) (omega arith)
      (omega arith) (omega arith) (omega arith)

-- The master's path at 240 ends after 6 bytes, and the replica's at 239 is the same.
abbrev stats : World
stats = calls (args3 0 240 0) (args3 0 239 0) []

path_at_240 : StringAt (content 10) 240 6
path_at_240 = record { bytes = λ j lt. ground (arith, lt); nul = refl }

stat_path_loop-StringAt_example :
    (buf : Buf) × (stat_path_loop reading first 240 100 1 0 stats
      ≡ ok 6 (record stats { stat_buf_a = buf }))
    × ((j : ℕ) → j < 6 → buf j ≡ content 10 (240 + j))
stat_path_loop-StringAt_example =
    stat_path_loop-StringAt reading (content 10) 240 6 100 0 stats path_at_240 (omega arith)
      (omega arith) (reading-Readable [] 10 240 303) (omega arith)

-- The same paths, with a buffer for the result in each.
abbrev full_stats : World
full_stats = calls (args3 0 240 600) (args3 0 239 5000) []

exec_syscall_newfstatat-Given_example :
    Succeeds
      (Given full_stats (content 10) (content 11) 2 1 144 (to_int 4096))
      (exec_syscall_newfstatat reading first second full_stats)
exec_syscall_newfstatat-Given_example =
    exec_syscall_newfstatat-Given reading full_stats (content 10) (content 11) 4096 0 reading-Stops
      refl (λ j. omega arith) (reading-Readable (waited 10 ∷ cont 10 ∷ []) 10 600 751) (omega arith)
      (omega arith) 6 refl refl path_at_240 (omega arith) (omega arith)
      (reading-Readable [] 10 240 303) (omega arith) (reading-Readable [] 11 239 252)
      (λ j lt. omega arith)

-- The replica's path begins one byte further on.
abbrev other_stats : World
other_stats = calls (args3 0 240 600) (args3 0 240 5000) []

paths_differ : ¬ Agrees (content 10) 240 (content 11) 240 6
paths_differ same = omega (arith, same 0 (omega arith))

exec_syscall_newfstatat-FailsWith_example :
    FailsWith [] (exec_syscall_newfstatat reading first second other_stats)
exec_syscall_newfstatat-FailsWith_example =
    exec_syscall_newfstatat-FailsWith reading other_stats (content 10) (content 11) 6 path_at_240
      (omega arith) (omega arith) (reading-Readable [] 10 240 303) (omega arith)
      (reading-Readable [] 11 240 253) paths_differ
