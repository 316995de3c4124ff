-- ===== src/Protocol/Stuck.antt =====
-- How pselect6.c of Monitor/src/sys ends while the replica is stopped.
use aurora_mvee.Base.{◌≡◌, ◌∙◌, sym, ap, subst, false, Option, none, some, arith}
use aurora_mvee.Kernel.{Kernel, Status, exited, signaled, stopped, waited}
use aurora_mvee.Kernel.Laws.{Blocks, running}
use aurora_mvee.World.{World, first, second, log}
use aurora_mvee.World.Monad.{
  M, Outcome, ok, failed, blocked, terminated, and_then, ◌>>=◌, ◌>>◌, monad,
}
use aurora_mvee.Variant.{
  update, request, resume_variant_from_wait, wait_variant, wait_pid, check_variant_exit,
}
use aurora_mvee.Executors.Net.{exec_syscall_pselect6}
use aurora_mvee.Protocol.{IsPaired, Keeps, Leaves, At, control}
use aurora_mvee.Protocol.Rules.{Keeps-arg_of, Keeps-gets, Keeps-require}
use aurora_mvee.Protocol.Steps.{set_nop_syscall-Keeps, request_syscall_info-Keeps}
use aurora_mvee.Protocol.Scripts.Sockets.{same_pselect6-Keeps}

-- The function does not return 0.
abbrev pub NeverOk : {A : Type 0} → Outcome A → Type 0
NeverOk (ok a w) = ⊥
NeverOk (failed w) = Unit
NeverOk (blocked w) = Unit
NeverOk (terminated w) = Unit

-- The replica has not been resumed since its last stop.
record IsHeld (w : World) : Type 0 where
  paired : IsPaired w
  stopped : running w.replica.pid w.trace ≡ false

-- From a state in which the replica is stopped the function does not return 0.
record Stuck {A : Type 0} (m : M A) : Type 0 where
  apply : (w : World) → IsHeld w → NeverOk (m w)

and_then-NeverOk :
    {A B : Type 0} (w : World) (r : Outcome A) (f : A → M B)
    → IsHeld w
    → Leaves (At (control w)) r
    → ((a : A) → Stuck (f a))
    → NeverOk (and_then r f)
and_then-NeverOk w (ok a v) f held (paired, same) stuck =
    (stuck a).apply v
      (record { paired = paired; stopped = ap (λ c. c.replica.runs) same ∙ held.stopped })
and_then-NeverOk w (failed v) f held kept stuck = tt
and_then-NeverOk w (blocked v) f held kept stuck = tt
and_then-NeverOk w (terminated v) f held kept stuck = tt

bind-Stuck :
    {A B : Type 0} {m : M A} {f : A → M B} → Keeps m → ((a : A) → Stuck (f a)) → Stuck (m >>= f)
unfolding ◌>>=◌
bind-Stuck {m = m} {f} keeps stuck = record {
  apply = λ w held. and_then-NeverOk w (m w) f held (keeps.apply w held.paired) stuck;
}

then-Stuck : {A B : Type 0} {m : M A} {n : M B} → Keeps m → Stuck n → Stuck (m >> n)
unfolding ◌>>◌
then-Stuck keeps stuck = bind-Stuck keeps (λ a. stuck)

resume_variant_from_wait-Stuck :
    {B : Type 0} {n : M B} → Stuck n → Stuck (resume_variant_from_wait first >> n)
unfolding resume_variant_from_wait request update monad
resume_variant_from_wait-Stuck stuck = record {
  apply = λ w held. stuck.apply _ (ground (arith, held.paired, held.stopped));
}

module _ (k : Kernel) {B : Type 0} (n : M B) where
  -- What the answer of waitpid leads to.
  abbrev awaited : World → Option Status → Outcome B
  awaited w o =
      and_then (and_then (elim o [ none ↦ blocked w | some st ↦ ok st w ]) check_variant_exit)
        λ _. n

  awaited-NeverOk : (w : World) (o : Option Status) → IsHeld w → Stuck n → NeverOk (awaited w o)
  unfolding check_variant_exit monad
  awaited-NeverOk w none held stuck = tt
  awaited-NeverOk w (some (exited c)) held stuck = tt
  awaited-NeverOk w (some (signaled c)) held stuck = tt
  awaited-NeverOk w (some (stopped c)) held stuck = stuck.apply w held

  wait_first-Stuck : Stuck n → Stuck (wait_variant k first >> n)
  unfolding wait_variant wait_pid check_variant_exit monad
  wait_first-Stuck stuck = record {
    apply = λ w held.
        let w' = log (waited w.master.pid) w in
        awaited-NeverOk w' (k.status w'.trace w.master.pid)
          (ground (arith, held.paired, held.stopped)) stuck;
  }

  wait_second-Stuck : Blocks k → Stuck (wait_variant k second >> n)
  unfolding wait_variant wait_pid check_variant_exit monad
  wait_second-Stuck blocks = record {
    apply = λ w held.
        let w' = log (waited w.replica.pid) w in
        subst (λ o. NeverOk (awaited w' o)) (sym (blocks w.trace w.replica.pid held.stopped)) tt;
  }

-- Let waitpid not return for a tracee whose stop was already reported, and let the replica be stopped
-- at its pselect6. Then pselect6 never succeeds: the executor awaits the replica without having resumed
-- it, so that it returns -1 or waits for ever.
pub exec_syscall_pselect6-NeverOk :
    (k : Kernel) (w : World)
    → Blocks k
    → IsPaired w
    → running w.replica.pid w.trace ≡ false
    → NeverOk (exec_syscall_pselect6 k first second w)
unfolding exec_syscall_pselect6
exec_syscall_pselect6-NeverOk k w blocks paired held =
    let stuck : Stuck (exec_syscall_pselect6 k first second) =
      bind-Stuck (Keeps-arg_of first 1) λ read_m. bind-Stuck (Keeps-arg_of second 1) λ read_r.
        bind-Stuck (Keeps-arg_of first 2) λ write_m. bind-Stuck (Keeps-arg_of second 2) λ write_r.
          bind-Stuck (Keeps-arg_of first 3) λ except_m.
            bind-Stuck (Keeps-arg_of second 3) λ except_r.
              bind-Stuck (same_pselect6-Keeps k) λ same. then-Stuck (Keeps-require same) (
                resume_variant_from_wait-Stuck (
                  wait_first-Stuck k _ (
                    then-Stuck (request_syscall_info-Keeps k first) (
                      bind-Stuck (Keeps-gets _) λ result.
                        then-Stuck (set_nop_syscall-Keeps second)
                          (wait_second-Stuck k _ blocks))))) in
    stuck.apply w (record { paired = paired; stopped = held })
