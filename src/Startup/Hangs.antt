-- ===== src/Startup/Hangs.antt =====
-- The start of `main` in Monitor/src/monitor.c on two cores.
use Prim.Native.String.{String}
use aurora_mvee.Base.{
  ◌∙◌, ℕ, suc, ◌+◌, ◌*◌, ◌≤◌, ◌≡◌, ◌≢◌, refl, subst, Bool, true, false, none, some, List, [], ◌∷◌,
  arith, ◌==◌, Option-cases, inl, inr,
}
use aurora_mvee.Words.{minus_one, wrap}
use aurora_mvee.Kernel.{Kernel, Pid, Trace, Status, stopped, event}
use aurora_mvee.Kernel.Laws.{conts, running, Alternates}
use aurora_mvee.World.{World, VType}
use aurora_mvee.World.Monad.{ok, blocked, monad}
use aurora_mvee.Variant.{
  update, request, resume_variant_from_wait, init_variant, wait_pid, configure_child_proc,
  check_variant_exit, request_syscall_info,
}
use aurora_mvee.Monitor.{
  main_start, main_round, main_loop, reported, variant_event, process_variant_event, process_entry,
}
use aurora_mvee.Lockstep.{Reports}
use aurora_mvee.Lockstep.Progress.{Children}
use aurora_mvee.Lockstep.Start.{WhenOk, JustStarted, main_start-begins}
use aurora_mvee.Startup.{
  Host, Act, set_affinity, quit, exit_failure, length, variant_core, create_variant, begin_main,
}
use aurora_mvee.Startup.Cores.{
  Pins, awaited, Born, create_variant-quit, replica_core-low, main_start-ok, begin_main-ok,
}

-- The process exits by itself.
abbrev pub quits : List Act → Bool
quits [] = false
quits (quit code ∷ acts) = true
quits (_ ∷ acts) = quits acts

-- waitpid(-1) does not report a process that has exited and was awaited.
abbrev pub Reaped : Kernel → Pid → List Act → Type 0
Reaped k p acts =
    quits acts ≡ true → (t : Trace) (st : Status) → awaited p t ≡ true → k.next t ≢ some (p, st)

abbrev Gone : Kernel → Pid → Type 0
Gone k p = (t : Trace) (st : Status) → awaited p t ≡ true → k.next t ≢ some (p, st)

-- waitpid(-1) reports of the process only that it has stopped: it does not end on its own.
abbrev pub Lives : Kernel → Pid → Type 0
Lives k p = (t : Trace) (st : Status) → k.next t ≡ some (p, st) → (sig : ℕ) × (st ≡ stopped sig)

abbrev Awaited : (pid_m pid_r : Pid) → World → Type 0
Awaited pid_m pid_r w =
    (w.master.pid ≡ pid_m) × (w.replica.pid ≡ pid_r) × (awaited pid_r w.trace ≡ true)

module _ (k : Kernel) (pid_m pid_r : Pid) (w : World) (distinct : pid_m ≢ pid_r) where
  main_start-Awaited : WhenOk (Awaited pid_m pid_r) (main_start k pid_m pid_r w)
  unfolding main_start init_variant wait_pid configure_child_proc resume_variant_from_wait request
      update monad
  main_start-Awaited = ground arith

module _ (k : Kernel) (pid_m pid_r : Pid) (reports : Reports k)
    (children : Children k pid_m pid_r) where
  -- The replica is gone.
  module _ (gone : Gone k pid_r) where
    master_stopped-none :
        (t : Trace) → awaited pid_r t ≡ true → running pid_m t ≡ false → k.next t ≡ none
    master_stopped-none t reaped stopped_m = elim (Option-cases (k.next t)) [
      | inl nothing ↦ nothing
      | inr ((p, st), e) ↦ elim (children t p st e) [
        | inl is_m ↦ cc (subst (λ q. running q t ≡ true) is_m (reports t p st e), stopped_m)
        | inr is_r ↦ absurd (gone t st reaped (subst (λ q. k.next t ≡ some (q, st)) is_r e))
      ]
    ]

-- The first stop of the master, at the entry of a system call, is the first event of the loop.
main_round-waits :
    (k : Kernel) (sig : ℕ) (w : World)
    → Alternates k
    → JustStarted w
    → k.next w.trace ≡ some (w.master.pid, stopped sig)
    → (w' : World) × (main_round k w ≡ ok true w') × (w'.trace ≡ event w.master.pid ∷ w.trace)
unfolding main_round reported variant_event check_variant_exit process_variant_event
    request_syscall_info process_entry update monad
main_round-waits k sig w alternates started e =
    let known : (w.master.pid == w.master.pid) ≡ true = ground arith in
    let entered : conts w.master.pid (event w.master.pid ∷ w.trace) ≡ 2 * 0 + 1 = started.conts_m in
    let (n, args, at) =
      alternates.at_entry (event w.master.pid ∷ w.trace) w.master.pid 0 (rw known refl) entered in
    rw (e, known, at, started.num_m, started.num_r, started.state_r) (_, refl, refl)

module _ (k : Kernel) where
  main_loop-blocks :
      (rounds : ℕ) (w : World) → k.next w.trace ≡ none → main_loop k (suc rounds) w ≡ blocked w
  unfolding main_loop main_round reported
  main_loop-blocks rounds w e = rw e refl

  main_loop-goes_on :
      (rounds : ℕ) (w w' : World)
      → main_round k w ≡ ok true w'
      → main_loop k (suc rounds) w ≡ main_loop k rounds w'
  unfolding main_loop
  main_loop-goes_on rounds w w' e = rw e refl

-- The loop waits for ever, at once or after the master's first stop.
main_loop-hangs :
    (k : Kernel) (rounds : ℕ) (w : World)
    → Alternates k
    → Reports k
    → Children k w.master.pid w.replica.pid
    → Lives k w.master.pid
    → Gone k w.replica.pid
    → JustStarted w
    → awaited w.replica.pid w.trace ≡ true
    → (w' : World) × (main_loop k (suc (suc rounds)) w ≡ blocked w')
main_loop-hangs k rounds w alternates reports children lives gone started reaped =
    elim (Option-cases (k.next w.trace)) [
      | inl nothing ↦ (w, main_loop-blocks k (suc rounds) w nothing)
      | inr ((p, st), e) ↦ elim (children w.trace p st e) [
        | inl is_m ↦
            let e_m = subst (λ q. k.next w.trace ≡ some (q, st)) is_m e in
            let (sig, stopped_m) = lives w.trace st e_m in
            let (w', goes_on, after) =
              main_round-waits k sig w alternates started
                (subst (λ s. k.next w.trace ≡ some (w.master.pid, s)) stopped_m e_m) in
            let known : (w.master.pid == w.master.pid) ≡ true = ground arith in
            let nothing =
              master_stopped-none k w.master.pid w.replica.pid reports children gone w'.trace
                (rw after reaped) (rw after (rw known refl)) in
            (
              w',
              main_loop-goes_on k (suc rounds) w w' goes_on ∙ main_loop-blocks k rounds w' nothing,
            )
        | inr is_r ↦
            absurd (gone w.trace st reaped (subst (λ q. k.next w.trace ≡ some (q, st)) is_r e))
      ]
    ]

-- Let two cores be online, and let sched_setaffinity accept just these, waitpid return for a child that
-- was not awaited before, the kernel keep to ptrace(2) and wait(2), with no process to report but the
-- two variants and none that has been awaited and is gone, and the master not end on its own. Then
-- the child that should run the replica exits with EXIT_FAILURE, since its core is -1, `main` comes to
-- its loop all the same, and more than one round of the loop leads to a wait for ever.
pub begin_main-Hangs :
    (h : Host) (k : Kernel) (argv : List String) (rounds : ℕ) (pid_m pid_r : Pid) (w : World)
    → h.cores ≡ some 2
    → Pins h 2
    → 1 ≤ length argv
    → Born k
    → Alternates k
    → Reports k
    → Children k pid_m pid_r
    → Lives k pid_m
    → Reaped k pid_r (create_variant h argv (variant_core VType.replica 2))
    → pid_m ≢ pid_r
    → w.trace ≡ []
    → (create_variant h argv (variant_core VType.replica 2)
        ≡ set_affinity minus_one ∷ quit exit_failure ∷ [])
      × (w1 : World) × (begin_main h k argv pid_m pid_r w ≡ ok true w1)
      × (w2 : World) × (main_loop k (suc (suc rounds)) w1 ≡ blocked w2)
unfolding variant_core wrap
begin_main-Hangs h k argv rounds pid_m pid_r w cores pins args born alternates reports children
      lives reaped distinct fresh =
    let quit_r =
      create_variant-quit h 2 pins argv (variant_core VType.replica 2)
        (replica_core-low 2 (omega arith) (omega arith)) in
    let (w1, start) = main_start-ok k pid_m pid_r w born distinct fresh in
    let fresh_m : conts pid_m w.trace ≡ 0 = rw fresh refl in
    let fresh_r : conts pid_r w.trace ≡ 0 = rw fresh refl in
    let started = main_start-begins k pid_m pid_r w w1 distinct fresh_m fresh_r start in
    let (is_m, is_r, waited_r) =
      subst (WhenOk (Awaited pid_m pid_r)) start (main_start-Awaited k pid_m pid_r w distinct) in
    let gone : Gone k pid_r = reaped (rw quit_r refl) in
    let (w2, hangs) =
      main_loop-hangs k rounds w1 alternates reports (rw (is_m, is_r) children) (rw is_m lives)
        (rw is_r gone) started (rw is_r waited_r) in
    (
      quit_r,
      w1,
      begin_main-ok h k argv 2 pid_m pid_r w w1 cores (omega arith) (omega arith) pins args start,
      w2,
      hangs,
    )
