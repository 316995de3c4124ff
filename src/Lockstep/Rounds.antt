-- ===== src/Lockstep/Rounds.antt =====
-- One round of the loop of `main`, and all the rounds of a run.
use aurora_mvee.Base.{
  ℕ, ◌+◌, ◌-◌, ◌*◌, ◌≡◌, false, refl, sym, ap, ◌∙◌, subst, Option, none, some, ◌∷◌, arith, ◌==◌,
  Bool-cases, inl, inr,
}
use aurora_mvee.Kernel.{Kernel, Pid, Trace, Stop, cont, entry_stop, exit_stop}
use aurora_mvee.Kernel.Laws.{Stops, Alternates}
use aurora_mvee.World.{World, SyscallInfo, first, second, nr, info_of}
use aurora_mvee.World.Monad.{monad}
use aurora_mvee.Variant.{update, request, request_syscall_info, resume_variant_from_exit}
use aurora_mvee.Monitor.{is_wait, process_entry, process_variant_event}
use aurora_mvee.Monitor.Numbers.{Syscall, select}
use aurora_mvee.Protocol.{control, IsPaired, Returns}
use aurora_mvee.Lockstep.{Lane, Avoids}
use aurora_mvee.Lockstep.Phases.{Rendezvous, returns_free, returns_held, phase}
use aurora_mvee.Lockstep.Events.{Selects}
use aurora_mvee.Lockstep.Entries.{Reported, Meets, process_entry-master, process_entry-replica}
use aurora_mvee.Protocol.Rules.{Returns-mono}

module _ (k : Kernel) (avoids : Avoids k) where
  entry-Selects :
      (t : Trace) (p : Pid) (nr : ℕ) (args : ℕ → ℕ)
      → k.stop t p ≡ entry_stop nr args
      → (o : Option Syscall) → select nr ≡ o
      → Selects o
  entry-Selects t p nr args e none s = tt
  entry-Selects t p nr args e (some call) s = (
    λ c. avoids.shutdown t p nr args e (s ∙ ap some c),
    λ c. avoids.pselect6 t p nr args e (s ∙ ap some c),
  )

-- A variant that does not wait returns from a call.
abbrev returned_first : World → (result is_error : ℕ) → World
returned_first w result is_error = record w {
  master = record w.master {
    syscall_num = w.master.syscall_num + 1;
    syscall_info = info_of (exit_stop result is_error);
  };
  trace = cont w.master.pid ∷ w.trace;
}

returns-first :
    (w : World) (result is_error : ℕ)
    → is_wait w.master.state ≡ false
    → Rendezvous
        (phase w)
        first
        (exit_stop result is_error)
        (phase (returned_first w result is_error))
returns-first w result is_error runs = elim (Bool-cases (is_wait w.replica.state)) [
  | inl waits ↦ rw (runs, waits) returns_held
  | inr free_too ↦ rw (runs, free_too) returns_free
]

abbrev returned_second : World → (result is_error : ℕ) → World
returned_second w result is_error = record w {
  replica = record w.replica {
    syscall_num = w.replica.syscall_num + 1;
    syscall_info = info_of (exit_stop result is_error);
  };
  trace = cont w.replica.pid ∷ w.trace;
}

returns-second :
    (w : World) (result is_error : ℕ)
    → is_wait w.replica.state ≡ false
    → Rendezvous
        (phase w)
        second
        (exit_stop result is_error)
        (phase (returned_second w result is_error))
returns-second w result is_error runs = elim (Bool-cases (is_wait w.master.state)) [
  | inl waits ↦ rw waits returns_held
  | inr free_too ↦ rw (runs, free_too) returns_free
]

-- The record of a variant that does not wait makes no difference to the phase.
recorded-first :
    (w w' : World) (info : SyscallInfo) (stop : Stop)
    → is_wait w.master.state ≡ false
    → Meets first stop (record w { master = record w.master { syscall_info = info } }) w'
    → Meets first stop w w'
recorded-first w w' info stop runs (in_step, step) = (in_step, rw runs (rw runs at step))

recorded-second :
    (w w' : World) (info : SyscallInfo) (stop : Stop)
    → is_wait w.replica.state ≡ false
    → Meets second stop (record w { replica = record w.replica { syscall_info = info } }) w'
    → Meets second stop w w'
recorded-second w w' info stop runs (in_step, step) = (in_step, rw runs (rw runs at step))

module _ (k : Kernel) (stops : Stops k) (alternates : Alternates k) (avoids : Avoids k)
    (calls counted : ℕ) (w : World) (paired : IsPaired w) where
  exit-master :
      (result is_error : ℕ)
      → Reported calls counted (control w).master
      → Lane calls counted (control w).replica
      → (control w).master.conts ≡ 2 * calls
      → Returns (Meets first (exit_stop result is_error) w) (
          resume_variant_from_exit first (record w {
            master = record w.master { syscall_info = info_of (exit_stop result is_error) };
          }))
  unfolding resume_variant_from_exit request update monad
  exit-master result is_error s o inside = (
    record {
      paired = ground arith;
      lanes = record {
        calls = calls;
        counted = counted;
        master = ground arith;
        replica = ground arith;
        one_runs = ground arith;
      };
    },
    returns-first w result is_error s.resumed,
  )

  pub process_variant_event-master :
      Reported calls counted (control w).master
      → Lane calls counted (control w).replica
      → Returns
          (Meets first (k.stop w.trace w.master.pid) w)
          (process_variant_event k first second w)
  unfolding process_variant_event request_syscall_info update monad
  process_variant_event-master s o = elim (Bool-cases ((control w).master.conts == 2 * calls + 1)) [
    | inl entered ↦
        let (n, args, stop) =
          alternates.at_entry w.trace w.master.pid calls s.stopped (ground arith) in
        let v : World = record w {
          master = record w.master { syscall_info = info_of (entry_stop n args) };
        } in
        rw stop (
          Returns-mono _ _ (process_entry k first second v)
            (process_entry-master k stops calls counted v
              (record {
                distinct = paired.distinct;
                master_type = paired.master_type;
                replica_type = paired.replica_type;
              })
              s (ground arith) o
              (λ _. entry-Selects k avoids w.trace w.master.pid n args stop (select n) refl))
            (λ w'. recorded-first w w' (info_of (entry_stop n args)) (entry_stop n args) s.resumed))
    | inr inside ↦
        let (n, args, stop) =
          alternates.at_exit w.trace w.master.pid (calls - 1) s.stopped (ground arith) in
        rw stop (exit-master n args s o (ground arith))
  ]

  exit-replica :
      (result is_error : ℕ)
      → Reported calls counted (control w).replica
      → Lane calls counted (control w).master
      → (control w).replica.conts ≡ 2 * calls
      → Returns (Meets second (exit_stop result is_error) w) (
          resume_variant_from_exit second (record w {
            replica = record w.replica { syscall_info = info_of (exit_stop result is_error) };
          }))
  unfolding resume_variant_from_exit request update monad
  exit-replica result is_error s o inside = (
    record {
      paired = ground arith;
      lanes = record {
        calls = calls;
        counted = counted;
        master = ground arith;
        replica = ground arith;
        one_runs = ground arith;
      };
    },
    returns-second w result is_error s.resumed,
  )

  pub process_variant_event-replica :
      Reported calls counted (control w).replica
      → Lane calls counted (control w).master
      → Returns
          (Meets second (k.stop w.trace w.replica.pid) w)
          (process_variant_event k second first w)
  unfolding process_variant_event request_syscall_info update monad
  process_variant_event-replica s o =
      elim (Bool-cases ((control w).replica.conts == 2 * calls + 1)) [
        | inl entered ↦
            let (n, args, stop) =
              alternates.at_entry w.trace w.replica.pid calls s.stopped (ground arith) in
            let v : World = record w {
              replica = record w.replica { syscall_info = info_of (entry_stop n args) };
            } in
            rw stop (
              Returns-mono _ _ (process_entry k second first v)
                (process_entry-replica k stops calls counted v
                  (record {
                    distinct = paired.distinct;
                    master_type = paired.master_type;
                    replica_type = paired.replica_type;
                  })
                  s (ground arith) o
                  (λ e.
                    subst (λ x. Selects (select x)) (sym e)
                      (entry-Selects k avoids w.trace w.replica.pid n args stop (select n) refl)))
                (λ w'.
                  recorded-second w w' (info_of (entry_stop n args)) (entry_stop n args) s.resumed))
        | inr inside ↦
            let (n, args, stop) =
              alternates.at_exit w.trace w.replica.pid (calls - 1) s.stopped (ground arith) in
            rw stop (exit-replica n args s o (ground arith))
      ]
