-- ===== src/Executors/Replicated.antt =====
-- What the executors that replicate a result ask of the operating system: getpid.c, close.c,
-- fchmod.c, fchown.c and listen.c of Monitor/src/sys.
use aurora_mvee.Base.{ℕ, ◌+◌, ◌≡◌, refl, subst, true, Option, none, some, ◌∷◌, arith, ◌&&◌}
use aurora_mvee.Words.{to_int}
use aurora_mvee.Kernel.{
  Kernel, Pid, Trace, cont, waited, poke_user, exit_stop, reg_rax, reg_orig_rax,
}
use aurora_mvee.Kernel.Laws.{Stops}
use aurora_mvee.World.{World, first, second}
use aurora_mvee.World.Monad.{Succeeds, monad}
use aurora_mvee.Variant.{
  update, request, resume_variant_from_wait, resume_variant_from_exit, wait_variant, wait_pid,
  check_variant_exit, request_syscall_info, set_nop_syscall, set_syscall, set_syscall_return_value,
  run_master_replicate_ret, run_both_copy_master_ret, sys_getpid,
}
use aurora_mvee.Executors.Args.{same_arg, check}
use aurora_mvee.Executors.Results.{
  exec_syscall_getpid, exec_syscall_close, exec_syscall_fchmod, exec_syscall_fchown,
  exec_syscall_listen,
}
use aurora_mvee.Executors.Compared.{compared, all_same}
use aurora_mvee.Monitor.{exec_syscall}
use aurora_mvee.Monitor.Numbers.{Syscall}

-- The master's call alone is run: the replica makes a getpid instead, and its result register is
-- set to the master's result. The newest request stands first.
abbrev pub replicated : (master replica : Pid) → ℕ → Trace → Trace
replicated m r result t =
    cont r
    ∷ cont m
    ∷ poke_user r reg_rax result
    ∷ waited r
    ∷ cont r
    ∷ poke_user r reg_orig_rax sys_getpid
    ∷ waited m
    ∷ cont m
    ∷ t

-- Both run the call, and the replica's result register is set to the master's result.
abbrev pub overwritten : (master replica : Pid) → ℕ → Trace → Trace
overwritten m r result t =
    cont r ∷ cont m ∷ poke_user r reg_rax result ∷ waited r ∷ cont r ∷ waited m ∷ cont m ∷ t

-- Both variants have been taken through the call, and it has been counted.
abbrev pub Completes : Trace → World → World → Type 0
Completes t w w' =
    (w'.trace ≡ t)
    × (w'.master.syscall_num ≡ w.master.syscall_num + 1)
    × (w'.replica.syscall_num ≡ w.replica.syscall_num + 1)

module _ (k : Kernel) (stops : Stops k) (w : World) (rv is_error : ℕ)
    (returns : k.stop (waited w.master.pid ∷ cont w.master.pid ∷ w.trace) w.master.pid
      ≡ exit_stop rv is_error) where
  abbrev m : Pid
  m = w.master.pid

  abbrev r : Pid
  r = w.replica.pid

  run_master_replicate_ret-Completes :
      Succeeds
        (Completes (replicated m r (to_int rv) w.trace) w)
        (run_master_replicate_ret k first second w)
  unfolding run_master_replicate_ret monad update request resume_variant_from_wait
      resume_variant_from_exit wait_variant wait_pid check_variant_exit request_syscall_info
      set_nop_syscall set_syscall set_syscall_return_value
  run_master_replicate_ret-Completes =
      let (s1, e1) = stops (cont m ∷ w.trace) m (ground arith) in
      let (s2, e2) =
        stops (cont r ∷ poke_user r reg_orig_rax sys_getpid ∷ waited m ∷ cont m ∷ w.trace) r
          (ground arith) in
      rw (e1, Succeeds) (rw (returns, Succeeds) (rw (e2, Succeeds) (refl, refl, refl)))

  run_both_copy_master_ret-Completes :
      Succeeds
        (Completes (overwritten m r (to_int rv) w.trace) w)
        (run_both_copy_master_ret k first second w)
  unfolding run_both_copy_master_ret monad update request resume_variant_from_wait
      resume_variant_from_exit wait_variant wait_pid check_variant_exit request_syscall_info
      set_syscall_return_value
  run_both_copy_master_ret-Completes =
      let (s1, e1) = stops (cont m ∷ w.trace) m (ground arith) in
      let (s2, e2) = stops (cont r ∷ waited m ∷ cont m ∷ w.trace) r (ground arith) in
      rw (e1, Succeeds) (rw (returns, Succeeds) (rw (e2, Succeeds) (refl, refl, refl)))

  run_master_replicate_ret-as :
      {t : Trace}
      → replicated m r (to_int rv) w.trace ≡ t
      → Succeeds (Completes t w) (run_master_replicate_ret k first second w)
  run_master_replicate_ret-as e =
      subst (λ t. Succeeds (Completes t w) (run_master_replicate_ret k first second w)) e
        run_master_replicate_ret-Completes

  run_both_copy_master_ret-as :
      {t : Trace}
      → overwritten m r (to_int rv) w.trace ≡ t
      → Succeeds (Completes t w) (run_both_copy_master_ret k first second w)
  run_both_copy_master_ret-as e =
      subst (λ t. Succeeds (Completes t w) (run_both_copy_master_ret k first second w)) e
        run_both_copy_master_ret-Completes

-- The requests of a call that replicates its result and copies no data.
abbrev pub requests : Syscall → (master replica : Pid) → ℕ → Trace → Option Trace
requests Syscall.getpid m r result t = some (replicated m r result t)
requests Syscall.fchmod m r result t = some (replicated m r result t)
requests Syscall.fchown m r result t = some (replicated m r result t)
requests Syscall.listen m r result t = some (replicated m r result t)
requests Syscall.close m r result t = some (overwritten m r result t)
requests _ m r result t = none

same_trace : {t t' : Trace} → ◌≡◌ {A = Option Trace} (some t) (some t') → t ≡ t'
same_trace e = cc

-- Where the arguments agree and the master's call returns `rv`, each of getpid, fchmod, fchown, listen
-- and close returns 0 after exactly these requests: the master is taken to the call's exit, the replica
-- is taken there too, with its call replaced by a getpid except for close, its result register is set to
-- `rv`, cut to an `int`, and both are resumed and have the call counted. No variant exits meanwhile.
pub replicating-Completes :
    (k : Kernel) (call : Syscall) (w : World) (rv is_error : ℕ) (t : Trace)
    → Stops k
    → all_same (compared call) w ≡ true
    → k.stop (waited w.master.pid ∷ cont w.master.pid ∷ w.trace) w.master.pid
      ≡ exit_stop rv is_error
    → requests call w.master.pid w.replica.pid (to_int rv) w.trace ≡ some t
    → Succeeds (Completes t w) (exec_syscall k call first second w)
unfolding exec_syscall exec_syscall_getpid exec_syscall_fchmod exec_syscall_fchown
    exec_syscall_listen exec_syscall_close check monad
replicating-Completes k Syscall.getpid w rv is_error t stops same returns e =
    run_master_replicate_ret-as k stops w rv is_error returns (same_trace e)
replicating-Completes k Syscall.fchmod w rv is_error t stops same returns e =
    let guard : (same_arg first second 0 w && same_arg first second 1 w) ≡ true =
      ground (arith, same) in
    rw guard (run_master_replicate_ret-as k stops w rv is_error returns (same_trace e))
replicating-Completes k Syscall.fchown w rv is_error t stops same returns e =
    let guard : (same_arg first second 0 w
          && same_arg first second 1 w
          && same_arg first second 2 w)
        ≡ true =
      ground (arith, same) in
    rw guard (run_master_replicate_ret-as k stops w rv is_error returns (same_trace e))
replicating-Completes k Syscall.listen w rv is_error t stops same returns e =
    let guard : (same_arg first second 0 w && same_arg first second 1 w) ≡ true =
      ground (arith, same) in
    rw guard (run_master_replicate_ret-as k stops w rv is_error returns (same_trace e))
replicating-Completes k Syscall.close w rv is_error t stops same returns e =
    let guard : same_arg first second 0 w ≡ true = ground (arith, same) in
    rw guard (run_both_copy_master_ret-as k stops w rv is_error returns (same_trace e))
replicating-Completes k _ w rv is_error t stops same returns e = cc
