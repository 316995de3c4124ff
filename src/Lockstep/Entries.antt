-- ===== src/Lockstep/Entries.antt =====
-- The arrival of a variant at a system call while the variants are in step.
use aurora_mvee.Base.{
  ℕ, ◌+◌, ◌*◌, ◌≤◌, ◌≡◌, subst, true, false, arith, ltb, ◌==◌, Bool-cases, inl, inr,
}
use aurora_mvee.Kernel.{Kernel, Stop, entry_stop}
use aurora_mvee.Kernel.Laws.{Stops}
use aurora_mvee.World.{World, Variant, Side, State, first, second, nr, arg}
use aurora_mvee.World.Monad.{monad}
use aurora_mvee.Variant.{update}
use aurora_mvee.Monitor.{is_wait, sync_or_kill, process_entry}
use aurora_mvee.Monitor.Numbers.{select}
use aurora_mvee.Protocol.{View, control, IsPaired, Returns}
use aurora_mvee.Protocol.Rules.{Returns-mono}
use aurora_mvee.Executors.Compared.{compared}
use aurora_mvee.Lockstep.{Lane, InStep}
use aurora_mvee.Lockstep.Phases.{free, held, Rendezvous, passes, arrives, phase, Match-sym}
use aurora_mvee.Lockstep.Events.{Selects, Synced, sync_or_kill-first, sync_or_kill-second}

-- A variant whose stop was just reported.
pub record Reported (calls counted : ℕ) (v : View) : Type 0 where
  pub started : 1 ≤ v.conts
  pub low : 2 * calls ≤ v.conts
  pub high : v.conts ≤ 2 * calls + 1
  pub count : v.num + 1 + 2 * calls ≡ counted + v.conts
  pub resumed : is_wait v.state ≡ false
  pub stopped : v.runs ≡ false

-- The variants are in step, and what the kernel has reported of one of them is a step.
abbrev pub Meets : Side → Stop → (w w' : World) → Type 0
Meets s stop w w' = InStep w' × Rendezvous (phase w) s stop (phase w')

-- The call that a variant stands at.
abbrev pub call_of : Variant → Stop
call_of v = entry_stop (nr v) (λ i. arg v i)

passes-first :
    (w w' : World)
    → is_wait w.master.state ≡ false
    → is_wait w.replica.state ≡ true
    → Synced w w'
    → Meets first (call_of w.master) w w'
passes-first w w' runs waits ((in_step, idle), agreed) = (
  in_step,
  rw (runs, waits, idle.0, idle.1)
      (subst (λ n. Rendezvous (held second n (λ i. arg w.replica i)) first (call_of w.master) free)
        agreed.numbers
        (passes agreed.call agreed.known (Match-sym (compared agreed.call) _ _ agreed.args))),
)

passes-second :
    (w w' : World)
    → is_wait w.master.state ≡ true
    → Synced w w'
    → Meets second (call_of w.replica) w w'
passes-second w w' waits ((in_step, idle), agreed) = (
  in_step,
  rw (waits, idle.0, idle.1)
      (subst
        (λ n.
          Rendezvous (held first (nr w.master) (λ i. arg w.master i)) second
            (entry_stop n (λ i. arg w.replica i)) free)
        agreed.numbers (passes agreed.call agreed.known agreed.args)),
)

module _ (k : Kernel) (stops : Stops k) (calls counted : ℕ) (w : World) (paired : IsPaired w) where
  master_waits-InStep :
      Reported calls counted (control w).master
      → (control w).master.conts ≡ 2 * calls + 1
      → Lane calls counted (control w).replica
      → is_wait w.replica.state ≡ false
      → InStep (record w { master = record w.master { state = State.wait } })
  master_waits-InStep s entered o other_runs = record {
    paired = ground arith;
    lanes = record {
      calls = calls;
      counted = counted;
      master = ground arith;
      replica = o;
      one_runs = ground arith;
    };
  }

  pub process_entry-master :
      Reported calls counted (control w).master
      → (control w).master.conts ≡ 2 * calls + 1
      → Lane calls counted (control w).replica
      → (nr w.master ≡ nr w.replica → Selects (select (nr w.master)))
      → Returns (Meets first (call_of w.master) w) (process_entry k first second w)
  unfolding process_entry update monad
  process_entry-master s entered o selects = elim (Bool-cases (is_wait w.replica.state)) [
    | inl waits ↦
        let same : (w.master.syscall_num == w.replica.syscall_num) ≡ true =
          ground (arith, o.at_entry) in
        rw (same, waits)
          (Returns-mono _ _ (sync_or_kill k first second w)
            (sync_or_kill-first k stops calls counted w paired (ground (arith, o.at_entry))
              (ground (arith, o.at_entry)) selects)
            λ w'. passes-first w w' s.resumed waits)
    | inr other_runs ↦
        let v : World = record w { master = record w.master { state = State.wait } } in
        let waiting : Meets first (call_of w.master) w v =
          (master_waits-InStep s entered o other_runs, rw (s.resumed, other_runs) arrives) in
        elim (Bool-cases (w.master.syscall_num == w.replica.syscall_num)) [
          | inl same ↦ rw (same, other_runs) waiting
          | inr differ ↦
              let ahead : ltb w.replica.syscall_num w.master.syscall_num ≡ true = ground arith in
              rw (differ, ahead) waiting
        ]
  ]

  replica_waits-InStep :
      Reported calls counted (control w).replica
      → (control w).replica.conts ≡ 2 * calls + 1
      → Lane calls counted (control w).master
      → is_wait w.master.state ≡ false
      → InStep (record w { replica = record w.replica { state = State.wait } })
  replica_waits-InStep s entered o other_runs = record {
    paired = ground arith;
    lanes = record {
      calls = calls;
      counted = counted;
      replica = ground arith;
      master = o;
      one_runs = ground arith;
    };
  }

  pub process_entry-replica :
      Reported calls counted (control w).replica
      → (control w).replica.conts ≡ 2 * calls + 1
      → Lane calls counted (control w).master
      → (nr w.master ≡ nr w.replica → Selects (select (nr w.master)))
      → Returns (Meets second (call_of w.replica) w) (process_entry k second first w)
  unfolding process_entry update monad
  process_entry-replica s entered o selects = elim (Bool-cases (is_wait w.master.state)) [
    | inl waits ↦
        let same : (w.replica.syscall_num == w.master.syscall_num) ≡ true =
          ground (arith, o.at_entry) in
        rw (same, waits)
          (Returns-mono _ _ (sync_or_kill k second first w)
            (sync_or_kill-second k stops calls counted w paired (ground (arith, o.at_entry))
              (ground (arith, o.at_entry)) selects)
            λ w'. passes-second w w' waits)
    | inr other_runs ↦
        let v : World = record w { replica = record w.replica { state = State.wait } } in
        let waiting : Meets second (call_of w.replica) w v =
          (replica_waits-InStep s entered o other_runs, rw (other_runs, s.resumed) arrives) in
        elim (Bool-cases (w.replica.syscall_num == w.master.syscall_num)) [
          | inl same ↦ rw (same, other_runs) waiting
          | inr differ ↦
              let ahead : ltb w.master.syscall_num w.replica.syscall_num ≡ true = ground arith in
              rw (differ, ahead) waiting
        ]
  ]
