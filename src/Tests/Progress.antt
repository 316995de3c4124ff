-- ===== src/Tests/Progress.antt =====
-- Rounds of `main` that end.
use aurora_mvee.Base.{
  ◌≡◌, refl, Bool, true, false, Option, none, some, List, [], ◌∷◌, arith, ◌==◌, if◌then◌else◌,
  Bool-cases, inl, inr, Option-cases, subst,
}
use aurora_mvee.Kernel.{
  Kernel, Pid, Trace, Status, stopped, cont, waited, event, poke_data, poke_user, set_options,
  set_regs, vm_write, kill,
}
use aurora_mvee.Kernel.Laws.{running, Stops, Alternates}
use aurora_mvee.World.{World}
use aurora_mvee.Monitor.{main_round, main_loop, main_start}
use aurora_mvee.World.Monad.{FailsWith, ok, monad}
use aurora_mvee.Variant.{
  init_variant, wait_pid, configure_child_proc, resume_variant_from_wait, request, update,
}
use aurora_mvee.Lockstep.Runs.{here, main-InStep}
use aurora_mvee.Lockstep.{InStep, Avoids, Reports}
use aurora_mvee.Lockstep.Progress.{Wakes, Children, Proceeds, main_round-Proceeds}
use aurora_mvee.Lockstep.Ends.{Ends, main_loop-Ends}
use aurora_mvee.Lockstep.Shutdown.{replica_enters, shutdown_and_next, shutdown_and_next-kills}
use aurora_mvee.Tests.{
  calls, args3, calling, kernel, initial, kernel-Stops, kernel-Alternates, kernel-Avoids,
  kernel-Reports, reported_pid, reported_next, world_of,
}
use aurora_mvee.Tests.Runs.{started, start}

kernel-Wakes_master : Wakes kernel 10
kernel-Wakes_master t ran = (10, stopped 5, rw ran refl)

kernel-Wakes_replica : Wakes kernel 11
kernel-Wakes_replica t ran = elim (Bool-cases (running 10 t)) [
  | inl first_ran ↦ (10, stopped 5, rw first_ran refl)
  | inr held ↦ (11, stopped 5, rw (held, ran) refl)
]

kernel-Children : Children kernel 10 11
kernel-Children t p st e = elim (Bool-cases (running 10 t)) [
  | inl ran ↦ let same = reported_pid (rw ran at e) in inl (cc same)
  | inr stopped_10 ↦ elim (Bool-cases (running 11 t)) [
    | inl ran ↦ let same = reported_pid (rw (stopped_10, ran) at e) in inr (cc same)
    | inr stopped_11 ↦ cc (rw (stopped_10, stopped_11) at e)
  ]
]

started-InStep : InStep started
started-InStep =
    main-InStep kernel kernel-Stops kernel-Alternates kernel-Avoids 10 11 initial started started
      kernel-Reports (omega arith) refl refl start here

main_round-Proceeds_example : Proceeds (reported_next started.trace) (main_round kernel started)
unfolding monad main_start init_variant wait_pid configure_child_proc resume_variant_from_wait
    request update
main_round-Proceeds_example =
    main_round-Proceeds kernel started kernel-Stops kernel-Alternates kernel-Avoids kernel-Reports
      kernel-Wakes_master kernel-Wakes_replica kernel-Children started-InStep

abbrev among : Pid → List Pid → Bool
among p [] = false
among p (q ∷ qs) = if p == q then true else among p qs

-- A tracee that was resumed after its last stop that was reported; `held` have been reported since.
abbrev runner : List Pid → Trace → Option Pid
runner held [] = none
runner held (cont q ∷ t) = let before = runner held t in if among q held then before else some q
runner held (waited q ∷ t) = runner (q ∷ held) t
runner held (event q ∷ t) = runner (q ∷ held) t
runner held (_ ∷ t) = runner held t

abbrev reported_runner : Option Pid → Option (Pid × Status)
reported_runner none = none
reported_runner (some p) = some (p, stopped 5)

-- As `kernel`, with every tracee.
abbrev crowd : Kernel
crowd = record kernel { next = λ t. reported_runner (runner [] t) }

crowd-Stops : Stops crowd
crowd-Stops t p ran = (5, refl)

crowd-Alternates : Alternates crowd
crowd-Alternates = record {
  at_entry = kernel-Alternates.at_entry;
  at_exit = kernel-Alternates.at_exit;
}

crowd-Avoids : Avoids crowd
crowd-Avoids = record { shutdown = kernel-Avoids.shutdown; pselect6 = kernel-Avoids.pselect6 }

runner-finds :
    (held : List Pid) (t : Trace) (p : Pid)
    → among p held ≡ false
    → running p t ≡ true
    → (q : Pid) × (runner held t ≡ some q)
runner-finds held [] p free ran = cc
runner-finds held (cont q ∷ t) p free ran = elim (Bool-cases (among q held)) [
  | inl out ↦
      let (r, found) = runner-finds held t p free (ground (arith, ran, out, free)) in
      (r, rw out found)
  | inr free_q ↦ (q, rw free_q refl)
]
runner-finds held (waited q ∷ t) p free ran =
    runner-finds (q ∷ held) t p (ground (arith, ran, free)) (ground (arith, ran))
runner-finds held (event q ∷ t) p free ran =
    runner-finds (q ∷ held) t p (ground (arith, ran, free)) (ground (arith, ran))
runner-finds held (poke_data q a v ∷ t) p free ran = runner-finds held t p free ran
runner-finds held (poke_user q r v ∷ t) p free ran = runner-finds held t p free ran
runner-finds held (set_options q o ∷ t) p free ran = runner-finds held t p free ran
runner-finds held (set_regs q r ∷ t) p free ran = runner-finds held t p free ran
runner-finds held (vm_write q a n b ∷ t) p free ran = runner-finds held t p free ran
runner-finds held (kill q ∷ t) p free ran = runner-finds held t p free ran

runner-running :
    (held : List Pid) (t : Trace) (q : Pid)
    → runner held t ≡ some q
    → (among q held ≡ false) × (running q t ≡ true)
runner-running held [] q found = cc
runner-running held (cont r ∷ t) q found = elim (Bool-cases (among r held)) [
  | inl out ↦
      let (free, ran) = runner-running held t q (rw out at found) in (free, ground (arith, ran))
  | inr free_r ↦
      let same : r ≡ q = cc (rw free_r at found) in
      (subst (λ x. among x held ≡ false) same free_r, ground (arith, same))
]
runner-running held (waited r ∷ t) q found =
    let (free, ran) = runner-running (r ∷ held) t q found in
    (ground (arith, free), ground (arith, free, ran))
runner-running held (event r ∷ t) q found =
    let (free, ran) = runner-running (r ∷ held) t q found in
    (ground (arith, free), ground (arith, free, ran))
runner-running held (poke_data r a v ∷ t) q found = runner-running held t q found
runner-running held (poke_user r g v ∷ t) q found = runner-running held t q found
runner-running held (set_options r o ∷ t) q found = runner-running held t q found
runner-running held (set_regs r g ∷ t) q found = runner-running held t q found
runner-running held (vm_write r a n b ∷ t) q found = runner-running held t q found
runner-running held (kill r ∷ t) q found = runner-running held t q found

crowd-Wakes : (p : Pid) → Wakes crowd p
crowd-Wakes p t ran = let (q, found) = runner-finds [] t p refl ran in (q, stopped 5, rw found refl)

crowd-Reports : Reports crowd
crowd-Reports t p st e = elim (Option-cases (runner [] t)) [
  | inl idle ↦ cc (rw idle at e)
  | inr (q, found) ↦
      subst (λ x. running x t ≡ true) (reported_pid (rw found at e)) (runner-running [] t q found).1
]

abbrev crowd_started : World
crowd_started = world_of (main_start crowd 10 11 initial)

crowd_start : main_start crowd 10 11 initial ≡ ok tt crowd_started
unfolding monad main_start init_variant wait_pid configure_child_proc resume_variant_from_wait
    request update
crowd_start = refl

main_loop-Ends_example : Ends (main_loop crowd 1000 crowd_started)
main_loop-Ends_example =
    main_loop-Ends crowd 10 11 initial crowd_started 1000 crowd-Stops crowd-Alternates crowd-Avoids
      crowd-Reports crowd-Wakes (omega arith) refl refl crowd_start

-- Both stand at their first call, a shutdown.
abbrev shutdowns : World
shutdowns = record (calls (args3 3 2 0) (args3 3 2 0) []) { trace = cont 11 ∷ cont 10 ∷ [] }

shutdown_and_next-kills_example :
    FailsWith
      (kill 11 ∷ kill 10 ∷ replica_enters shutdowns)
      (shutdown_and_next (calling 48) shutdowns)
shutdown_and_next-kills_example =
    shutdown_and_next-kills (calling 48) shutdowns 0 0 0 0 48 (λ i. 0) (ground arith) refl refl refl
      refl refl refl
