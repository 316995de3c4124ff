-- ===== src/Tests/Executors.antt =====
-- Single calls on small states.
use aurora_mvee.Executors.Net.{exec_syscall_pselect6}
use aurora_mvee.Protocol.Stuck.{NeverOk, exec_syscall_pselect6-NeverOk}
use aurora_mvee.Kernel.{cont, kill, Kernel, Trace, Pid, Status, stopped, waited}
use aurora_mvee.Kernel.Laws.{Blocks, running}
use aurora_mvee.Base.{Option, refl, true, none, some, [], ◌∷◌, arith, if◌then◌else◌}
use aurora_mvee.World.{VType, World, State, first, second}
use aurora_mvee.World.Monad.{FailsWith, monad}
use aurora_mvee.Memory.Compare.{Agrees}
use aurora_mvee.Executors.Compared.{RefusedAfter}
use aurora_mvee.Executors.Guards.{differing_args-refused}
use aurora_mvee.Executors.Differing.{differing_memory-RefusedFrom}
use aurora_mvee.Executors.Refusals.{RefusedFrom, short_path-RefusedFrom}
use aurora_mvee.Variant.{request_syscall_info, update}
use aurora_mvee.Protocol.Failure.{KillsOnFailure, process_variant_event-Kills}
use aurora_mvee.Monitor.{
  process_variant_event, process_entry, sync_or_kill, process_syscall_sync, exec_syscall,
}
use aurora_mvee.Monitor.Numbers.{Syscall}
use aurora_mvee.Protocol.{At, Returns}
use aurora_mvee.Protocol.Dispatch.{exec_syscall-script}
use aurora_mvee.Protocol.Divergence.{by_number, process_entry-FailsWith}
use aurora_mvee.Tests.{
  at_entry, kernel, content, reading, calls, args3, same_calls, kernel-Stops, reading-Readable,
  IsPaired-same_calls,
}

exec_syscall-script_example :
    Returns
      (At (record {
        master = record { state = State.running; num = 4; conts = 2; runs = true };
        replica = record { state = State.running; num = 4; conts = 2; runs = true };
      }))
      (exec_syscall kernel Syscall.close first second (same_calls []))
exec_syscall-script_example =
    exec_syscall-script kernel kernel-Stops Syscall.close (same_calls []) _ IsPaired-same_calls refl

-- The replica runs, and will stop at the entry of a brk; the master waits at the entry of a read.
abbrev arriving : World
arriving = record (same_calls []) { trace = cont 11 ∷ [] }

process_variant_event-Kills_example :
    KillsOnFailure (process_variant_event kernel second first arriving)
process_variant_event-Kills_example =
    process_variant_event-Kills kernel second arriving (ground arith)

-- It fails, and so both are killed.
arriving_fails :
    FailsWith
      (kill 11 ∷ kill 10 ∷ cont 11 ∷ [])
      (process_variant_event kernel second first arriving)
unfolding process_variant_event process_entry sync_or_kill process_syscall_sync request_syscall_info
    update monad
arriving_fails = refl

-- The master reads, the replica writes.
abbrev diverged : World
diverged = record (same_calls []) { replica = at_entry VType.replica 11 1 (args3 240 4096 3) }

process_entry-FailsWith_example :
    FailsWith (kill 11 ∷ kill 10 ∷ []) (process_entry kernel second first diverged)
process_entry-FailsWith_example =
    process_entry-FailsWith kernel second diverged (ground arith) refl refl
      (by_number (omega arith))

-- The master closes 3, the replica 4.
abbrev different_calls : World
different_calls = calls (args3 3 0 0) (args3 4 0 0) []

differing_args-refused_example :
    RefusedAfter [] different_calls (exec_syscall kernel Syscall.close first second different_calls)
differing_args-refused_example = differing_args-refused kernel different_calls Syscall.close refl

-- Both write 4 bytes to the file 1, from the same address, where their memories differ.
abbrev writes : World
writes = calls (args3 1 600 4) (args3 1 600 4) []

writes_differ : ¬ Agrees (content 10) 600 (content 11) 600 4
writes_differ same = absurd (omega (arith, same 0 (omega arith)))

differing_memory-RefusedFrom_example :
    RefusedFrom writes (exec_syscall reading Syscall.write first second writes)
differing_memory-RefusedFrom_example =
    differing_memory-RefusedFrom reading Syscall.write 1 4 writes (content 10) (content 11) refl
      (omega arith) (reading-Readable [] 10 600 611) (omega arith) (reading-Readable [] 11 600 611)
      (omega arith) writes_differ

-- The master's path at the address 240 ends after 6 bytes.
short_path-RefusedFrom_example :
    RefusedFrom (same_calls []) (exec_syscall reading Syscall.unlink first second (same_calls []))
short_path-RefusedFrom_example =
    short_path-RefusedFrom reading Syscall.unlink 0 6 (same_calls []) (content 10) refl
      (omega arith) (reading-Readable [] 10 240 353) (omega arith) refl

-- A waitpid for a tracee that has not been resumed does not return, and all memory holds zeros, so that
-- the sets of descriptors are equal.
abbrev once : Trace → Pid → Option Status
once [] p = none
once (waited q ∷ t) p = if running p t then some (stopped 5) else none
once (_ ∷ t) p = none

abbrev blocking : Kernel
blocking = record reading { status = once; peek = λ t p a. 0 }

blocking-Blocks : Blocks blocking
blocking-Blocks t p held = rw held refl

exec_syscall_pselect6-NeverOk_example :
    NeverOk (exec_syscall_pselect6 blocking first second (same_calls []))
exec_syscall_pselect6-NeverOk_example =
    exec_syscall_pselect6-NeverOk blocking (same_calls []) blocking-Blocks IsPaired-same_calls refl
