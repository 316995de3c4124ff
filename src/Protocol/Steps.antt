-- ===== src/Protocol/Steps.antt =====
-- The scripts of the functions of Variant: one action each for a resumption and a wait, and none
-- for a request that changes registers or reads them.
use aurora_mvee.Base.{ℕ, ◌≡◌, refl, some, [], ◌∷◌, arith}
use aurora_mvee.Kernel.{Kernel}
use aurora_mvee.Kernel.Laws.{Stops}
use aurora_mvee.World.{World, Side, first, second}
use aurora_mvee.World.Monad.{monad}
use aurora_mvee.Variant.{
  request, update, resume_variant_from_wait, resume_variant_from_exit, wait_variant, set_syscall,
  set_nop_syscall, set_syscall_return_value, set_lseek_regs, request_syscall_info, sys_getpid,
}
use aurora_mvee.Protocol.{
  Control, control, go, await, finish, run, IsPaired, At, Returns, Does, Keeps,
}

resume_from_wait-At :
    (s : Side) (w : World) (c' : Control)
    → IsPaired w
    → run (go s ∷ []) (control w) ≡ some c'
    → Returns (At c') (resume_variant_from_wait s w)
unfolding monad request update resume_variant_from_wait
resume_from_wait-At first w c' paired e = ground arith
resume_from_wait-At second w c' paired e = ground arith

resume_from_exit-At :
    (s : Side) (w : World) (c' : Control)
    → IsPaired w
    → run (finish s ∷ []) (control w) ≡ some c'
    → Returns (At c') (resume_variant_from_exit s w)
unfolding monad request update resume_variant_from_exit
resume_from_exit-At first w c' paired e = ground arith
resume_from_exit-At second w c' paired e = ground arith

wait_variant-At :
    (k : Kernel) (stops : Stops k) (s : Side) (w : World) (c' : Control)
    → IsPaired w
    → run (await s ∷ []) (control w) ≡ some c'
    → Returns (At c') (wait_variant k s w)
unfolding monad request update wait_variant
wait_variant-At k stops first w c' paired e = ground (arith, stops w.trace w.master.pid)
wait_variant-At k stops second w c' paired e = ground (arith, stops w.trace w.replica.pid)

pub resume_from_wait-Does : (s : Side) → Does (go s ∷ []) (resume_variant_from_wait s)
resume_from_wait-Does s = record { apply = resume_from_wait-At s }

pub resume_from_exit-Does : (s : Side) → Does (finish s ∷ []) (resume_variant_from_exit s)
resume_from_exit-Does s = record { apply = resume_from_exit-At s }

pub wait_variant-Does : (k : Kernel) → Stops k → (s : Side) → Does (await s ∷ []) (wait_variant k s)
wait_variant-Does k stops s = record { apply = wait_variant-At k stops s }

pub set_syscall-Keeps : (s : Side) (call : ℕ) → Keeps (set_syscall s call)
unfolding monad request update set_syscall
set_syscall-Keeps first call = record { apply = λ w paired. ground arith }
set_syscall-Keeps second call = record { apply = λ w paired. ground arith }

pub set_nop_syscall-Keeps : (s : Side) → Keeps (set_nop_syscall s)
unfolding monad request update set_nop_syscall
set_nop_syscall-Keeps s = set_syscall-Keeps s sys_getpid

pub set_syscall_return_value-Keeps :
    (s : Side) (value : ℕ) → Keeps (set_syscall_return_value s value)
unfolding monad request update set_syscall_return_value
set_syscall_return_value-Keeps first value = record { apply = λ w paired. ground arith }
set_syscall_return_value-Keeps second value = record { apply = λ w paired. ground arith }

module _ (k : Kernel) where
  pub set_lseek_regs-Keeps : (s : Side) (fd offset : ℕ) → Keeps (set_lseek_regs k s fd offset)
  unfolding monad request update set_lseek_regs
  set_lseek_regs-Keeps first fd offset = record {
    apply = λ w paired. (
      record {
        distinct = paired.distinct;
        master_type = paired.master_type;
        replica_type = paired.replica_type;
      },
      refl,
    );
  }
  set_lseek_regs-Keeps second fd offset = record {
    apply = λ w paired. (
      record {
        distinct = paired.distinct;
        master_type = paired.master_type;
        replica_type = paired.replica_type;
      },
      refl,
    );
  }

  pub request_syscall_info-Keeps : (s : Side) → Keeps (request_syscall_info k s)
  unfolding monad request update request_syscall_info
  request_syscall_info-Keeps first = record { apply = λ w paired. ground arith }
  request_syscall_info-Keeps second = record { apply = λ w paired. ground arith }
