-- ===== src/Tests/Copies.antt =====
-- Calls whose results are copied to the replica.
use aurora_mvee.Base.{ℕ, refl, [], ◌∷◌, arith}
use aurora_mvee.Words.{to_int}
use aurora_mvee.Kernel.{exit_stop, Kernel, cont, waited}
use aurora_mvee.Kernel.Laws.{Stops}
use aurora_mvee.World.{World, first, second}
use aurora_mvee.World.Monad.{FailsWith, Succeeds}
use aurora_mvee.Monitor.{exec_syscall}
use aurora_mvee.Monitor.Numbers.{Syscall}
use aurora_mvee.Executors.Data.{exec_syscall_read, exec_syscall_write}
use aurora_mvee.Executors.Replicated.{Completes, overwritten, replicating-Completes}
use aurora_mvee.Executors.Reads.{Replicates, exec_syscall_read-Replicates}
use aurora_mvee.Executors.Errors.{exec_syscall-FailsWith}
use aurora_mvee.Words.{wrap}
use aurora_mvee.Executors.Net.{exec_syscall_poll}
use aurora_mvee.Executors.Poll.{at_nop, exec_syscall_poll-Given}
use aurora_mvee.Executors.Given.{Given}
use aurora_mvee.Executors.Nops.{exec_syscall-Given}
use aurora_mvee.Executors.Writes.{SeeksInMaster, exec_syscall_write-SeeksInMaster}
use aurora_mvee.Tests.{content, reading, calls, args3, same_calls, reading-Readable}

pub reading-Stops : Stops reading
reading-Stops t p ran = (5, refl)

-- Both close 240.
replicating-Completes_example :
    Succeeds
      (Completes (overwritten 10 11 4096 []) (same_calls []))
      (exec_syscall reading Syscall.close first second (same_calls []))
unfolding to_int
replicating-Completes_example =
    replicating-Completes reading Syscall.close (same_calls []) 4096 0 (overwritten 10 11 4096 [])
      reading-Stops refl refl refl

-- Both read 4096 bytes from the file 3, into different buffers.
abbrev reads : World
reads = calls (args3 3 600 4096) (args3 3 5000 4096) []

exec_syscall_read-Replicates_example :
    Succeeds
      (Replicates reading reads (content 10) (content 11) 4096 0)
      (exec_syscall_read reading first second reads)
unfolding to_int
exec_syscall_read-Replicates_example =
    exec_syscall_read-Replicates reading reads (content 10) (content 11) 4096 0 reading-Stops refl
      refl refl (λ j. omega arith) (omega arith) (omega arith) (omega arith)
      (reading-Readable (waited 10 ∷ cont 10 ∷ []) 10 600 4703) (omega arith) (omega arith)

-- Both write 5 bytes to the file 1, where their memories agree.
abbrev equal_writes : World
equal_writes = calls (args3 1 601 5) (args3 1 600 5) []

exec_syscall_write-SeeksInMaster_example :
    Succeeds
      (SeeksInMaster reading equal_writes 4096)
      (exec_syscall_write reading first second equal_writes)
unfolding to_int
exec_syscall_write-SeeksInMaster_example =
    exec_syscall_write-SeeksInMaster reading equal_writes (content 10) (content 11) 4096 0
      reading-Stops (omega arith) refl refl (omega arith) (reading-Readable [] 10 601 613)
      (omega arith) (reading-Readable [] 11 600 612) (omega arith) (λ j lt. ground (arith, lt)) refl

-- Both read 4096 random bytes.
abbrev randoms : World
randoms = calls (args3 600 4096 0) (args3 5000 4096 0) []

exec_syscall-Given_example :
    Succeeds
      (Given randoms (content 10) (content 11) 0 0 4096 4096)
      (exec_syscall reading Syscall.getrandom first second randoms)
exec_syscall-Given_example =
    exec_syscall-Given reading randoms (content 10) (content 11) 4096 0 reading-Stops refl
      (λ j. omega arith) (omega arith) (omega arith) (omega arith) Syscall.getrandom tt refl
      (reading-Readable (waited 10 ∷ cont 10 ∷ []) 10 600 4703) (omega arith) (omega arith)

-- The descriptor is not open.
abbrev ebadf : ℕ
ebadf = 18446744073709551607

abbrev refusing : Kernel
refusing = record reading { stop = λ t p. exit_stop ebadf 1 }

exec_syscall-FailsWith_example :
    FailsWith (waited 10 ∷ cont 10 ∷ []) (exec_syscall refusing Syscall.read first second reads)
unfolding to_int
exec_syscall-FailsWith_example =
    exec_syscall-FailsWith refusing Syscall.read reads ebadf 1 (λ t p ran. (5, refl)) refl refl
      (ground arith) (ground arith)

-- One descriptor, which is the same in both.
abbrev polls : World
polls = calls (args3 601 1 0) (args3 600 1 0) []

exec_syscall_poll-Given_example :
    Succeeds
      (Given polls (content 10) (content 11) 0 1 8 4096)
      (exec_syscall_poll reading first second polls)
unfolding wrap
exec_syscall_poll-Given_example =
    exec_syscall_poll-Given reading polls (content 10) (content 11) 4096 0 reading-Stops refl
      (content 10) (λ j. omega arith) refl refl (omega arith) (omega arith)
      (reading-Readable [] 10 601 616) (reading-Readable [] 11 600 615) (λ j lt. omega arith)
      (reading-Readable (at_nop polls 4096 0).trace 10 601 616) (omega arith) (omega arith)
