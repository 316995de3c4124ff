-- ===== src/Protocol/Scripts/Status.antt =====
-- The executors of newfstatat and access.
use aurora_mvee.Base.{List, ◌∷◌, arith, ℕ, zero, suc, ◌==◌, ltb, ◌∙◌, refl, if_rule}
use aurora_mvee.Kernel.{Kernel, Addr, cont, waited, poke_user, reg_orig_rax}
use aurora_mvee.Kernel.Laws.{Stops}
use aurora_mvee.World.{World, first, second}
use aurora_mvee.World.Monad.{
  M, Outcome, ok, failed, blocked, terminated, or_else, ignore, recover, monad,
}
use aurora_mvee.Variant.{
  set_syscall_return_value, resume_variant_from_exit, run_master_replicate_ret,
  resume_variant_from_wait, wait_variant, request_syscall_info, set_nop_syscall, set_syscall,
  update, request, sys_getpid,
}
use aurora_mvee.Memory.{read_variant_mem, strnlen}
use aurora_mvee.Executors.Paths.{
  newfstatat_buf_size, stat_path_loop, stat_paths_equal, exec_syscall_newfstatat,
  exec_syscall_access,
}
use aurora_mvee.Protocol.{Act, Control, control, IsPaired, At, Returns, Leaves, Does, Keeps}
use aurora_mvee.Protocol.Rules.{
  ◌▷◌, ◌▹◌, ◌▸◌, Does-skip, Keeps-bind, Keeps-gets, Keeps-require, Keeps-check, Keeps-or_else,
  Keeps-arg_of, Keeps-modify, Leaves-and_then, Leaves-mono,
}
use aurora_mvee.Protocol.Quiet.{transfer_variant_mem-Keeps, read_variant_mem-Keeps}
use aurora_mvee.Protocol.Steps.{
  resume_from_wait-Does, resume_from_exit-Does, wait_variant-Does, set_nop_syscall-Keeps,
  set_syscall_return_value-Keeps, request_syscall_info-Keeps,
}
use aurora_mvee.Protocol.Scripts.Enter.{same_path-Keeps}
use aurora_mvee.Protocol.Scripts.Shapes.{both_complete, run_master_replicate_ret-Does}

module _ (k : Kernel) where
  stat_path_loop-Keeps :
      (path : Addr) (fuel cur_size string_len : ℕ)
      → Keeps (stat_path_loop k first path fuel cur_size string_len)
  unfolding stat_path_loop
  stat_path_loop-Keeps path zero cur_size string_len = record { apply = λ w paired. (paired, refl) }
  stat_path_loop-Keeps path (suc fuel) cur_size string_len = record {
    apply = λ w paired.
        if_rule (λ r. Leaves {A = ℕ} (At (control w)) r) (ltb cur_size newfstatat_buf_size)
          (Leaves-and_then _ _
            (or_else (0, w.stat_buf_a) (read_variant_mem k first w.stat_buf_a path cur_size) w) _
            ((Keeps-or_else _ (read_variant_mem-Keeps k first w.stat_buf_a path cur_size)).apply w
              paired)
            (λ w' h. h)
            λ r v (paired', at).
              if_rule (λ r. Leaves {A = ℕ} (At (control w)) r)
                (strnlen r.1 0 cur_size == newfstatat_buf_size) (paired', at)
                (if_rule (λ r. Leaves {A = ℕ} (At (control w)) r)
                  (strnlen r.1 0 cur_size == cur_size)
                  (Leaves-mono _ _
                    (stat_path_loop k first path fuel _ _ (record v { stat_buf_a = r.1 }))
                    ((stat_path_loop-Keeps path fuel _ _).apply _ paired')
                    λ w'' (paired'', at'). (paired'', at' ∙ at))
                  (paired', at)))
          (paired, refl);
  }

  stat_paths_equal-Keeps : Keeps (stat_paths_equal k first second)
  unfolding stat_paths_equal
  stat_paths_equal-Keeps = Keeps-bind (Keeps-arg_of first 1) λ path_m.
      Keeps-bind (Keeps-arg_of second 1) λ path_r.
        Keeps-bind (stat_path_loop-Keeps path_m newfstatat_buf_size 1 0) λ len.
          Keeps-bind (Keeps-gets _) λ local.
            Keeps-bind (Keeps-or_else _ (read_variant_mem-Keeps k second local path_r len)) λ r.
              Keeps-modify (λ w. record w { stat_buf_b = r.1 }) (λ w paired. (paired, refl))
              ▸ Keeps-gets _

module _ (k : Kernel) (stops : Stops k) where
  pub newfstatat-Does : Does both_complete (exec_syscall_newfstatat k first second)
  unfolding exec_syscall_newfstatat
  newfstatat-Does =
      Keeps-check _
      ▹ Does-skip (stat_paths_equal-Keeps k) λ same.
        Keeps-check _
        ▹ Does-skip (Keeps-arg_of first 2) λ buf_m. Does-skip (Keeps-arg_of second 2) λ buf_r.
          resume_from_wait-Does first
          ▷ wait_variant-Does k stops first
          ▷ request_syscall_info-Keeps k first
          ▹ Does-skip (Keeps-gets _) λ master_ret.
            transfer_variant_mem-Keeps k first buf_m second buf_r _
            ▹ set_nop_syscall-Keeps second
            ▹ resume_from_wait-Does second
            ▷ wait_variant-Does k stops second
            ▷ set_syscall_return_value-Keeps second master_ret
            ▹ resume_from_exit-Does first
            ▷ resume_from_exit-Does second

  -- While no variant exits, `runMasterReplicateRet` returns 0.
  abbrev Succeeds : {A : Type 0} → Outcome A → Type 0
  Succeeds (ok a w) = Unit
  Succeeds (failed w) = ⊥
  Succeeds (blocked w) = ⊥
  Succeeds (terminated w) = ⊥

  run_master_replicate_ret-Succeeds :
      (w : World) → IsPaired w → Succeeds (run_master_replicate_ret k first second w)
  unfolding monad update request run_master_replicate_ret resume_variant_from_wait wait_variant
      request_syscall_info set_nop_syscall set_syscall set_syscall_return_value
      resume_variant_from_exit
  run_master_replicate_ret-Succeeds w paired =
      let m = w.master.pid in
      let r = w.replica.pid in
      let t = cont m ∷ w.trace in
      let u = cont r ∷ poke_user r reg_orig_rax sys_getpid ∷ waited m ∷ t in
      ground (arith, stops t m, stops u r)

  -- With a result of 0 the two ways to run a call agree, whether its result is looked at or not.
  ignore-Does :
      {m : M (Unit {0})} {xs : List Act}
      → Does xs m
      → ((w : World) → IsPaired w → Succeeds (m w))
      → Does xs (ignore m)
  unfolding ignore
  ignore-Does {m} d succeeds = record {
    apply = λ w c' paired e. kept c' (m w) (d.apply w c' paired e) (succeeds w paired);
  }
    where
      kept :
          (c' : Control) (r : Outcome (Unit {0}))
          → Returns (At c') r
          → Succeeds r
          → Returns (At c') (recover tt r)
      kept c' (ok a w') h s = h
      kept c' (failed w') h s = absurd s
      kept c' (blocked w') h s = h
      kept c' (terminated w') h s = h

  pub access-Does : Does both_complete (exec_syscall_access k first second)
  unfolding exec_syscall_access
  access-Does =
      Keeps-check _
      ▹ Does-skip (same_path-Keeps k 0) λ same.
        Keeps-require same
        ▹ ignore-Does (run_master_replicate_ret-Does k stops) run_master_replicate_ret-Succeeds
