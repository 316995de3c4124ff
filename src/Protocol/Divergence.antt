-- ===== src/Protocol/Divergence.antt =====
-- Variants that have not made the same system call: `processVariantEvent` and `processSyscallSync` of
-- Monitor/src/monitor.c.
use aurora_mvee.Base.{
  ◌≡◌, ◌≢◌, inl, inr, refl, ap, true, false, none, some, ◌∷◌, arith, ◌==◌, Bool-cases,
}
use aurora_mvee.Kernel.{Kernel, Trace, kill}
use aurora_mvee.World.{World, State, Side, first, second, variant, other, nr}
use aurora_mvee.World.Monad.{Outcome, ok, failed, blocked, terminated, FailsWith, monad}
use aurora_mvee.Monitor.{
  op_eq, is_wait, is_master, dispatch, process_syscall_sync, kill_on_failure, sync_or_kill,
  process_entry,
}
use aurora_mvee.Monitor.Numbers.{Syscall, select}
use aurora_mvee.Executors.Compared.{args_agree, after_refusal, RefusedAfter}
use aurora_mvee.Executors.Guards.{differing_args-refused}
use aurora_mvee.Protocol.{IsPaired}

-- The variants stand at stops of different kinds, or at calls with different numbers, or at one
-- that is not known, or at the same one with different arguments of those that it compares, but for
-- those that getcwd, utimensat and newfstatat compare after their path; and the trace at the time when
-- the monitor refuses this.
pub data Diverges (w : World) : Trace → Type 0 where
  by_kind : op_eq w.master.syscall_info.op w.replica.syscall_info.op ≡ false → Diverges w w.trace
  by_number : nr w.master ≢ nr w.replica → Diverges w w.trace
  unknown : select (nr w.master) ≡ none → Diverges w w.trace
  by_argument :
      (call : Syscall)
      → op_eq w.master.syscall_info.op w.replica.syscall_info.op ≡ true
      → nr w.master ≡ nr w.replica
      → select (nr w.master) ≡ some call
      → args_agree call w ≡ false
      → Diverges w (after_refusal call w)

process_syscall_sync-RefusedAfter :
    (k : Kernel) (w : World) {t : Trace}
    → Diverges w t
    → RefusedAfter t w (process_syscall_sync k first second w)
unfolding process_syscall_sync dispatch monad
process_syscall_sync-RefusedAfter k w (by_kind ops) = rw (ops, RefusedAfter) (refl, refl, refl)
process_syscall_sync-RefusedAfter k w (by_number differ) =
    let numbers : (nr w.master == nr w.replica) ≡ false = ground (arith, differ) in
    elim (Bool-cases (op_eq w.master.syscall_info.op w.replica.syscall_info.op)) [
      | inr ops ↦ rw (ops, RefusedAfter) (refl, refl, refl)
      | inl ops ↦ rw (ops, numbers, RefusedAfter) (refl, refl, refl)
    ]
process_syscall_sync-RefusedAfter k w (unknown none_known) =
    elim (Bool-cases (op_eq w.master.syscall_info.op w.replica.syscall_info.op)) [
      | inr ops ↦ rw (ops, RefusedAfter) (refl, refl, refl)
      | inl ops ↦ elim (Bool-cases (nr w.master == nr w.replica)) [
        | inr differ ↦ rw (ops, differ, RefusedAfter) (refl, refl, refl)
        | inl numbers ↦ rw (ops, numbers, none_known, RefusedAfter) (refl, refl, refl)
      ]
    ]
process_syscall_sync-RefusedAfter k w (by_argument call ops same known args) =
    let numbers : (nr w.master == nr w.replica) ≡ true = ground (arith, same) in
    rw (ops, numbers, known) (differing_args-refused k w call args)

kill_on_failure-FailsWith :
    (k : Kernel) (w : World) (t : Trace) (o : Outcome (Unit {0}))
    → RefusedAfter t w o
    → FailsWith (kill w.replica.pid ∷ kill w.master.pid ∷ t) (kill_on_failure k first second o)
kill_on_failure-FailsWith k w t (ok a v) r = r
kill_on_failure-FailsWith k w t (failed v) (trace, master, replica) =
    λ i. kill (replica i) ∷ kill (master i) ∷ trace i
kill_on_failure-FailsWith k w t (blocked v) r = r
kill_on_failure-FailsWith k w t (terminated v) r = r

-- Where a variant reaches the entry of a system call at which the other one waits, with equal counts,
-- and the two have not made the same known call with the same of the arguments that it compares (but
-- for those that getcwd, utimensat and newfstatat compare after their path), the event returns -1: the
-- monitor sends SIGKILL to both, and resumes neither before, unless the call is rseq or fadvise64 and
-- only the arguments differ: these two have resumed both variants by then.
pub process_entry-FailsWith :
    (k : Kernel) (s : Side) (w : World) {t : Trace}
    → IsPaired w
    → (variant s w).syscall_num ≡ (variant (other s) w).syscall_num
    → (variant (other s) w).state ≡ State.wait
    → Diverges w t
    → FailsWith (kill w.replica.pid ∷ kill w.master.pid ∷ t) (process_entry k s (other s) w)
unfolding process_entry sync_or_kill
process_entry-FailsWith k first w paired counted waits diverges =
    let equal : (w.master.syscall_num == w.replica.syscall_num) ≡ true = ground (arith, counted) in
    let fails =
      kill_on_failure-FailsWith k w _ (process_syscall_sync k first second w)
        (process_syscall_sync-RefusedAfter k w diverges) in
    let waiting : is_wait w.replica.state ≡ true = ap is_wait waits in
    let by_type : is_master w.master.type ≡ true = ap is_master paired.master_type in
    rw (equal, waiting, by_type) fails
process_entry-FailsWith k second w paired counted waits diverges =
    let equal : (w.replica.syscall_num == w.master.syscall_num) ≡ true = ground (arith, counted) in
    let fails =
      kill_on_failure-FailsWith k w _ (process_syscall_sync k first second w)
        (process_syscall_sync-RefusedAfter k w diverges) in
    let waiting : is_wait w.master.state ≡ true = ap is_wait waits in
    let by_type : is_master w.replica.type ≡ false = ap is_master paired.replica_type in
    rw (equal, waiting, by_type) fails
