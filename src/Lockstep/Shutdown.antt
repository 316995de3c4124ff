-- ===== src/Lockstep/Shutdown.antt =====
-- What follows a shutdown: shutdown.c of Monitor/src/sys, and `processVariantEvent` of
-- Monitor/src/monitor.c.
use aurora_mvee.Base.{ℕ, ◌+◌, ◌≡◌, refl, sym, ap, true, ◌∷◌, arith, ◌==◌, ◌&&◌}
use aurora_mvee.Kernel.{Kernel, Trace, entry_stop, exit_stop, event, cont, kill}
use aurora_mvee.World.{
  World, Variant, Op, info_of, set_variant, State, Side, VType, first, second, variant, other, log,
}
use aurora_mvee.World.Monad.{FailsWith, M, ok, ◌>>◌, monad}
use aurora_mvee.Variant.{update, request, resume_variant_from_exit, request_syscall_info}
use aurora_mvee.Executors.Args.{same_arg, check}
use aurora_mvee.Executors.Plain.{exec_syscall_shutdown}
use aurora_mvee.Monitor.{process_variant_event, process_entry, sync_or_kill, process_syscall_sync}
use aurora_mvee.Protocol.{IsPaired}

-- `main` handles an event of the variant.
abbrev pub arrives : Kernel → Side → M (Unit {0})
arrives k s w = process_variant_event k s (other s) (log (event (variant s w).pid) w)

-- The replica arrives at a shutdown, both return from it, and the replica reaches its next call.
abbrev pub shutdown_and_next : Kernel → M (Unit {0})
shutdown_and_next k = do
  exec_syscall_shutdown first second
  arrives k first
  arrives k second
  arrives k second

-- A variant has returned from a call.
abbrev returned : (rv is_error : ℕ) → Variant → Variant
returned rv is_error v = record v {
  syscall_num = v.syscall_num + 1;
  syscall_info = info_of (exit_stop rv is_error);
}

exit_arrives :
    (k : Kernel) (s : Side) (w : World) (rv is_error : ℕ)
    → k.stop (event (variant s w).pid ∷ w.trace) (variant s w).pid ≡ exit_stop rv is_error
    → arrives k s w
      ≡ ok tt (
          log
            (cont (variant s w).pid)
            (log (event (variant s w).pid) (set_variant s (returned rv is_error (variant s w)) w)))
unfolding process_variant_event request_syscall_info resume_variant_from_exit request update monad
exit_arrives k first w rv is_error stop = rw stop refl
exit_arrives k second w rv is_error stop = rw stop refl

-- The master is marked as waiting, but stands at no entry.
stale_entry :
    (k : Kernel) (w : World) (number : ℕ) (args : ℕ → ℕ)
    → k.stop (event w.replica.pid ∷ w.trace) w.replica.pid ≡ entry_stop number args
    → w.master.state ≡ State.wait
    → w.master.syscall_info.op ≡ Op.exit
    → w.replica.type ≡ VType.replica
    → w.replica.syscall_num ≡ w.master.syscall_num
    → FailsWith
        (kill w.replica.pid ∷ kill w.master.pid ∷ event w.replica.pid ∷ w.trace)
        (arrives k second w)
unfolding process_variant_event request_syscall_info process_entry sync_or_kill process_syscall_sync
    update monad
stale_entry k w number args stop waits left is_replica counted =
    let equal : (w.replica.syscall_num == w.master.syscall_num) ≡ true = ground (arith, counted) in
    rw stop (rw (equal, waits) (rw (is_replica, left) refl))

-- The requests up to the three events.
abbrev pub master_returns : World → Trace
master_returns w = event w.master.pid ∷ cont w.replica.pid ∷ cont w.master.pid ∷ w.trace

abbrev pub replica_returns : World → Trace
replica_returns w = event w.replica.pid ∷ cont w.master.pid ∷ master_returns w

abbrev pub replica_enters : World → Trace
replica_enters w = event w.replica.pid ∷ cont w.replica.pid ∷ replica_returns w

-- Let the replica arrive at a shutdown at which the master waits, with equal arguments and counts, let
-- first the master and then the replica return from it, and let the replica be the first to reach its
-- next call, whichever that is. Then the handling of that call returns -1, and both variants have been
-- killed: the master is still marked as waiting from before the shutdown. (A replica that returns and
-- reaches its next call before the master has returned has the larger count, and merely waits.)
pub shutdown_and_next-kills :
    (k : Kernel) (w : World) (rv_m e_m rv_r e_r number : ℕ) (args : ℕ → ℕ)
    → IsPaired w
    → (same_arg first second 0 w && same_arg first second 1 w) ≡ true
    → w.master.state ≡ State.wait
    → w.master.syscall_num ≡ w.replica.syscall_num
    → k.stop (master_returns w) w.master.pid ≡ exit_stop rv_m e_m
    → k.stop (replica_returns w) w.replica.pid ≡ exit_stop rv_r e_r
    → k.stop (replica_enters w) w.replica.pid ≡ entry_stop number args
    → FailsWith (kill w.replica.pid ∷ kill w.master.pid ∷ replica_enters w) (shutdown_and_next k w)
unfolding exec_syscall_shutdown check monad resume_variant_from_exit update request
shutdown_and_next-kills k w rv_m e_m rv_r e_r number args paired same waits equal s1 s2 s3 =
    let resumed = record w {
      master = record w.master { syscall_num = w.master.syscall_num + 1 };
      replica = record w.replica { syscall_num = w.replica.syscall_num + 1 };
      trace = cont w.replica.pid ∷ cont w.master.pid ∷ w.trace;
    } in
    let at_master = exit_arrives k first resumed rv_m e_m s1 in
    let back_m = record resumed {
      master = returned rv_m e_m resumed.master;
      trace = cont w.master.pid ∷ master_returns w;
    } in
    let at_replica = exit_arrives k second back_m rv_r e_r s2 in
    let back = record back_m {
      replica = returned rv_r e_r back_m.replica;
      trace = cont w.replica.pid ∷ replica_returns w;
    } in
    rw (same, at_master, at_replica)
      (stale_entry k back number args s3 waits refl paired.replica_type
        (ap (λ n. n + 1 + 1) (sym equal)))
