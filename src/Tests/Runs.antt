-- ===== src/Tests/Runs.antt =====
-- The first rounds of `main` on two programs that call brk.
use aurora_mvee.Base.{◌≡◌, refl, true, ◌∷◌, arith}
use aurora_mvee.Kernel.{event}
use aurora_mvee.World.{Side, World, variant}
use aurora_mvee.World.Monad.{ok, monad}
use aurora_mvee.Variant.{
  init_variant, wait_pid, configure_child_proc, resume_variant_from_wait, resume_variant_from_exit,
  request, update, check_variant_exit, request_syscall_info,
}
use aurora_mvee.Executors.Args.{resume_both}
use aurora_mvee.Executors.Plain.{exec_syscall_brk}
use aurora_mvee.Monitor.{
  reported, variant_event, process_entry, sync_or_kill, process_syscall_sync, dispatch, main_start,
  main_round, process_variant_event, exec_syscall,
}
use aurora_mvee.Monitor.Numbers.{select}
use aurora_mvee.Lockstep.{InStep}
use aurora_mvee.Lockstep.Phases.{free, Rendezvous, phase}
use aurora_mvee.Lockstep.Refinement.{main-Rendezvous}
use aurora_mvee.Lockstep.Runs.{here, next, main-InStep}
use aurora_mvee.Tests.{
  kernel, initial, world_of, kernel-Stops, kernel-Alternates, kernel-Avoids, kernel-Reports,
}

abbrev pub started : World
started = world_of (main_start kernel 10 11 initial)

abbrev round1 : World
round1 = world_of (main_round kernel started)

abbrev round2 : World
round2 = world_of (main_round kernel round1)

abbrev round3 : World
round3 = world_of (main_round kernel round2)

pub start : main_start kernel 10 11 initial ≡ ok tt started
unfolding monad main_start init_variant wait_pid configure_child_proc resume_variant_from_wait
    request update
start = refl

first_round : main_round kernel started ≡ ok true round1
unfolding monad main_start init_variant wait_pid configure_child_proc resume_variant_from_wait
    request update main_round reported variant_event check_variant_exit process_variant_event
    request_syscall_info process_entry
first_round = refl

second_round : main_round kernel round1 ≡ ok true round2
unfolding monad main_start init_variant wait_pid configure_child_proc resume_variant_from_wait
    request update main_round reported variant_event check_variant_exit process_variant_event
    request_syscall_info process_entry sync_or_kill process_syscall_sync dispatch select
    exec_syscall exec_syscall_brk resume_both
second_round = refl

third_round : main_round kernel round2 ≡ ok true round3
unfolding monad main_start init_variant wait_pid configure_child_proc resume_variant_from_wait
    request update main_round reported variant_event check_variant_exit process_variant_event
    request_syscall_info process_entry sync_or_kill process_syscall_sync dispatch select
    exec_syscall exec_syscall_brk resume_both resume_variant_from_exit
third_round = refl

main-InStep_example : InStep round3
main-InStep_example =
    main-InStep kernel kernel-Stops kernel-Alternates kernel-Avoids 10 11 initial started round3
      kernel-Reports (ground arith) refl refl start
      (next (next (next here first_round) second_round) third_round)

-- The replica arrives, and both pass.
main-Rendezvous_example :
    (phase started ≡ free)
    × (s : Side) × Rendezvous
        (phase round1)
        s
        (kernel.stop (event (variant s round1).pid ∷ round1.trace) (variant s round1).pid)
        (phase round2)
main-Rendezvous_example =
    main-Rendezvous kernel 10 11 initial started round1 round2 kernel-Stops kernel-Alternates
      kernel-Avoids kernel-Reports (omega arith) refl refl start (next here first_round)
      second_round
