-- ===== src/Protocol/Scripts/Shapes.antt =====
-- The shapes that the scripts of the executors have.
use aurora_mvee.Base.{List, [], ◌∷◌}
use aurora_mvee.Kernel.{Kernel}
use aurora_mvee.Kernel.Laws.{Stops}
use aurora_mvee.World.{first, second}
use aurora_mvee.Executors.Args.{resume_both}
use aurora_mvee.Variant.{run_master_replicate_ret, run_both_copy_master_ret}
use aurora_mvee.Protocol.{Act, go, await, finish, Does}
use aurora_mvee.Protocol.Rules.{◌▷◌, ◌▹◌, Does-skip, Keeps-gets}
use aurora_mvee.Protocol.Steps.{
  resume_from_wait-Does, resume_from_exit-Does, wait_variant-Does, set_nop_syscall-Keeps,
  set_syscall_return_value-Keeps, request_syscall_info-Keeps,
}

-- Both variants are left inside the call.
abbrev pub both_enter : List Act
both_enter = go first ∷ go second ∷ []

-- Both variants are taken through the call.
abbrev pub both_complete : List Act
both_complete =
    go first ∷ await first ∷ go second ∷ await second ∷ finish first ∷ finish second ∷ []

-- As before, but the call is not counted.
abbrev pub both_complete_uncounted : List Act
both_complete_uncounted =
    go first ∷ await first ∷ go second ∷ await second ∷ go first ∷ go second ∷ []

-- The master is taken through the call, and the replica is left inside it.
abbrev pub master_completes : List Act
master_completes = go first ∷ await first ∷ finish first ∷ go second ∷ []

-- The call is counted at its entry.
abbrev pub both_counted_at_entry : List Act
both_counted_at_entry = finish first ∷ finish second ∷ []

-- The replica is awaited without having been resumed.
abbrev pub replica_not_resumed : List Act
replica_not_resumed = go first ∷ await first ∷ await second ∷ finish first ∷ finish second ∷ []

pub resume_both-Does : Does both_enter (resume_both first second)
unfolding resume_both
resume_both-Does = resume_from_wait-Does first ▷ resume_from_wait-Does second

module _ (k : Kernel) (stops : Stops k) where
  pub run_master_replicate_ret-Does : Does both_complete (run_master_replicate_ret k first second)
  unfolding run_master_replicate_ret
  run_master_replicate_ret-Does =
      resume_from_wait-Does first
      ▷ wait_variant-Does k stops first
      ▷ request_syscall_info-Keeps k first
      ▹ Does-skip (Keeps-gets _) λ result.
        set_nop_syscall-Keeps second
        ▹ resume_from_wait-Does second
        ▷ wait_variant-Does k stops second
        ▷ set_syscall_return_value-Keeps second result
        ▹ resume_from_exit-Does first
        ▷ resume_from_exit-Does second

  pub run_both_copy_master_ret-Does : Does both_complete (run_both_copy_master_ret k first second)
  unfolding run_both_copy_master_ret
  run_both_copy_master_ret-Does =
      resume_from_wait-Does first
      ▷ wait_variant-Does k stops first
      ▷ request_syscall_info-Keeps k first
      ▹ Does-skip (Keeps-gets _) λ result.
        resume_from_wait-Does second
        ▷ wait_variant-Does k stops second
        ▷ set_syscall_return_value-Keeps second result
        ▹ resume_from_exit-Does first
        ▷ resume_from_exit-Does second
