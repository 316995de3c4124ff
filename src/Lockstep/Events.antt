-- ===== src/Lockstep/Events.antt =====
-- The handling of a system call that both variants have reached in step.
use aurora_mvee.Base.{
  ℕ, ◌≡◌, refl, sym, ap, subst, true, false, Option, none, some, arith, ◌==◌, Bool-cases, inl, inr,
}
use aurora_mvee.Kernel.{Trace, Kernel}
use aurora_mvee.Kernel.Laws.{Stops}
use aurora_mvee.World.{World, VType, first, second, nr}
use aurora_mvee.World.Monad.{Outcome, ok, failed, blocked, terminated, monad}
use aurora_mvee.Monitor.{
  is_master, op_eq, exec_syscall, dispatch, process_syscall_sync, kill_on_failure, sync_or_kill,
}
use aurora_mvee.Monitor.Numbers.{Syscall, select}
use aurora_mvee.Protocol.{control, IsPaired, Returns}
use aurora_mvee.Protocol.Rules.{Returns-mono}
use aurora_mvee.Protocol.Dispatch.{exec_syscall-Does}
use aurora_mvee.Lockstep.{InLanes, InStep}
use aurora_mvee.Lockstep.Scripts.{AtEntry, IsRegular, NoneWaits, script-lanes}
use aurora_mvee.Lockstep.Phases.{Agreed, all_same-Match}
use aurora_mvee.Executors.Compared.{compared, all_same, args_agree, RefusedAfter}
use aurora_mvee.Executors.Guards.{differing_args-refused}

-- What a number selects, if anything, is a regular call.
abbrev pub Selects : Option Syscall → Type 0
Selects none = Unit
Selects (some call) = IsRegular call

is_master-true : {t : VType} → t ≡ VType.master → is_master t ≡ true
is_master-true e = ap is_master e

is_master-false : {t : VType} → t ≡ VType.replica → is_master t ≡ false
is_master-false e = ap is_master e

-- Both variants have been resumed.
abbrev pub Idle : World → Type 0
Idle w = InStep w × NoneWaits (control w)

-- The variants have passed a call.
abbrev pub Synced : World → World → Type 0
Synced w w' = Idle w' × Agreed w

RefusedAfter-Returns :
    (P : World → Type 0) (t : Trace) (w : World) (o : Outcome (Unit {0}))
    → RefusedAfter t w o
    → Returns P o
RefusedAfter-Returns P t w (ok a v) r = absurd r
RefusedAfter-Returns P t w (failed v) r = tt
RefusedAfter-Returns P t w (blocked v) r = r
RefusedAfter-Returns P t w (terminated v) r = r

module _ (k : Kernel) (stops : Stops k) where
  exec_syscall-Idle :
      (calls counted : ℕ) (w : World) (call : Syscall)
      → IsPaired w
      → AtEntry calls counted (control w).master
      → AtEntry calls counted (control w).replica
      → IsRegular call
      → Returns Idle (exec_syscall k call first second w)
  exec_syscall-Idle calls counted w call paired m r regular =
      let (c', e, lanes, idle) = script-lanes calls counted (control w) m r call regular in
      Returns-mono _ _ (exec_syscall k call first second w)
        ((exec_syscall-Does k stops call).apply w c' paired e)
        λ w' (paired', at). (
          record { paired = paired'; lanes = subst InLanes (sym at) lanes },
          subst NoneWaits (sym at) idle,
        )

  dispatch-Synced :
      (calls counted : ℕ) (w : World) (o : Option Syscall)
      → select (nr w.master) ≡ o
      → nr w.master ≡ nr w.replica
      → IsPaired w
      → AtEntry calls counted (control w).master
      → AtEntry calls counted (control w).replica
      → Selects o
      → Returns (Synced w) (dispatch k o first second w)
  unfolding dispatch monad
  dispatch-Synced calls counted w none known numbers paired m r regular = tt
  dispatch-Synced calls counted w (some call) known numbers paired m r regular =
      elim (Bool-cases (args_agree call w)) [
        | inl agree ↦
            let same : all_same (compared call) w ≡ true = ground (arith, agree) in
            Returns-mono _ _ (exec_syscall k call first second w)
              (exec_syscall-Idle calls counted w call paired m r regular)
              λ w' idle. (
                idle,
                record {
                  call = call;
                  numbers = numbers;
                  known = known;
                  args = all_same-Match (compared call) w same;
                },
              )
        | inr differ ↦
            RefusedAfter-Returns _ _ w (exec_syscall k call first second w)
              (differing_args-refused k w call differ)
      ]

  process_syscall_sync-Synced :
      (calls counted : ℕ) (w : World)
      → IsPaired w
      → AtEntry calls counted (control w).master
      → AtEntry calls counted (control w).replica
      → (nr w.master ≡ nr w.replica → Selects (select (nr w.master)))
      → Returns (Synced w) (process_syscall_sync k first second w)
  unfolding process_syscall_sync monad
  process_syscall_sync-Synced calls counted w paired m r selects =
      elim (Bool-cases (op_eq w.master.syscall_info.op w.replica.syscall_info.op)) [
        | inr differ ↦ rw differ tt
        | inl same ↦ rw same (elim (Bool-cases (nr w.master == nr w.replica)) [
          | inr differ ↦ rw differ tt
          | inl equal ↦
              let numbers : nr w.master ≡ nr w.replica = ground arith in
              rw equal (
                dispatch-Synced calls counted w (select (nr w.master)) refl numbers paired m r
                  (selects numbers))
        ])
      ]

  -- Either variant may come second to the call: the master is the one with the master's type.
  kill_on_failure-Returns :
      (P : World → Type 0) (r : Outcome (Unit {0}))
      → Returns P r
      → Returns P (kill_on_failure k first second r)
  kill_on_failure-Returns P (ok a w) h = h
  kill_on_failure-Returns P (failed w) h = tt
  kill_on_failure-Returns P (blocked w) h = h
  kill_on_failure-Returns P (terminated w) h = h

  pub sync_or_kill-first :
      (calls counted : ℕ) (w : World)
      → IsPaired w
      → AtEntry calls counted (control w).master
      → AtEntry calls counted (control w).replica
      → (nr w.master ≡ nr w.replica → Selects (select (nr w.master)))
      → Returns (Synced w) (sync_or_kill k first second w)
  unfolding sync_or_kill
  sync_or_kill-first calls counted w paired m r selects = rw (is_master-true paired.master_type) (
      kill_on_failure-Returns (Synced w) _
        (process_syscall_sync-Synced calls counted w paired m r selects))

  pub sync_or_kill-second :
      (calls counted : ℕ) (w : World)
      → IsPaired w
      → AtEntry calls counted (control w).master
      → AtEntry calls counted (control w).replica
      → (nr w.master ≡ nr w.replica → Selects (select (nr w.master)))
      → Returns (Synced w) (sync_or_kill k second first w)
  unfolding sync_or_kill
  sync_or_kill-second calls counted w paired m r selects =
      rw (is_master-false paired.replica_type) (
        kill_on_failure-Returns (Synced w) _
          (process_syscall_sync-Synced calls counted w paired m r selects))
