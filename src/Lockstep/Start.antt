-- ===== src/Lockstep/Start.antt =====
-- The start of both variants by `main` in Monitor/src/monitor.c.
use aurora_mvee.Base.{◌≡◌, ◌≢◌, refl, subst, true, arith}
use aurora_mvee.Kernel.{Kernel, Pid}
use aurora_mvee.Kernel.Laws.{conts}
use aurora_mvee.World.{World, State}
use aurora_mvee.World.Monad.{Outcome, ok, failed, blocked, terminated, monad}
use aurora_mvee.Variant.{
  update, request, resume_variant_from_wait, init_variant, wait_pid, configure_child_proc,
}
use aurora_mvee.Monitor.{main_start}
use aurora_mvee.Protocol.{control, IsPaired}
use aurora_mvee.Lockstep.{InStep}
use aurora_mvee.Lockstep.Phases.{free, phase}

-- Both variants were resumed once, and have made no call yet.
pub record JustStarted (w : World) : Type 0 where
  pub paired : IsPaired w
  pub conts_m : (control w).master.conts ≡ 1
  pub conts_r : (control w).replica.conts ≡ 1
  pub num_m : w.master.syscall_num ≡ 0
  pub num_r : w.replica.syscall_num ≡ 0
  pub state_m : w.master.state ≡ State.running
  pub state_r : w.replica.state ≡ State.running
  pub runs_m : (control w).master.runs ≡ true
  pub runs_r : (control w).replica.runs ≡ true

JustStarted-InStep : (w : World) → JustStarted w → InStep w
JustStarted-InStep w s = record {
  paired = s.paired;
  lanes = record {
    calls = 0;
    counted = 0;
    master = ground arith;
    replica = ground arith;
    one_runs = ground arith;
  };
}

abbrev pub WhenOk : (World → Type 0) → Outcome (Unit {0}) → Type 0
WhenOk P (ok a w) = P w
WhenOk P (failed w) = Unit
WhenOk P (blocked w) = Unit
WhenOk P (terminated w) = Unit

module _ (k : Kernel) (pid_m pid_r : Pid) (w : World) (distinct : pid_m ≢ pid_r)
    (fresh_m : conts pid_m w.trace ≡ 0) (fresh_r : conts pid_r w.trace ≡ 0) where
  main_start-JustStarted : WhenOk JustStarted (main_start k pid_m pid_r w)
  unfolding main_start init_variant wait_pid configure_child_proc resume_variant_from_wait request
      update monad
  main_start-JustStarted = ground arith

pub main_start-begins :
    (k : Kernel) (pid_m pid_r : Pid) (w w' : World)
    → pid_m ≢ pid_r
    → conts pid_m w.trace ≡ 0
    → conts pid_r w.trace ≡ 0
    → main_start k pid_m pid_r w ≡ ok tt w'
    → JustStarted w'
main_start-begins k pid_m pid_r w w' distinct fresh_m fresh_r e =
    subst (WhenOk JustStarted) e (main_start-JustStarted k pid_m pid_r w distinct fresh_m fresh_r)

-- `main` starts with both variants running.
pub main_start-free :
    (k : Kernel) (pid_m pid_r : Pid) (w w' : World)
    → pid_m ≢ pid_r
    → conts pid_m w.trace ≡ 0
    → conts pid_r w.trace ≡ 0
    → main_start k pid_m pid_r w ≡ ok tt w'
    → phase w' ≡ free
main_start-free k pid_m pid_r w w' distinct fresh_m fresh_r e =
    let s = main_start-begins k pid_m pid_r w w' distinct fresh_m fresh_r e in
    rw (s.state_m, s.state_r) refl

pub main_start-InStep :
    (k : Kernel) (pid_m pid_r : Pid) (w w' : World)
    → pid_m ≢ pid_r
    → conts pid_m w.trace ≡ 0
    → conts pid_r w.trace ≡ 0
    → main_start k pid_m pid_r w ≡ ok tt w'
    → InStep w'
main_start-InStep k pid_m pid_r w w' distinct fresh_m fresh_r e =
    JustStarted-InStep w' (main_start-begins k pid_m pid_r w w' distinct fresh_m fresh_r e)
