-- ===== src/Executors/Poll.antt =====
-- A poll that is run: poll.c of Monitor/src/sys.
use aurora_mvee.Base.{
  ℕ, ◌+◌, ◌*◌, ◌%◌, ◌≤◌, ◌<◌, ◌≡◌, refl, ap, sym, ◌∙◌, subst, true, some, ◌∷◌, arith, ◌&&◌, ◌==◌,
}
use aurora_mvee.Words.{u64_mod, wrap}
use aurora_mvee.Kernel.{Kernel, cont, waited, poke_user, exit_stop, reg_orig_rax}
use aurora_mvee.Kernel.Laws.{Stops}
use aurora_mvee.World.{World, Variant, State, Buf, Side, first, second, arg, rval}
use aurora_mvee.World.Monad.{ok, Succeeds, monad}
use aurora_mvee.Variant.{
  update, request, resume_variant_from_wait, resume_variant_from_exit, wait_variant, wait_pid,
  check_variant_exit, request_syscall_info, set_syscall, set_nop_syscall, set_syscall_return_value,
  sys_getpid,
}
use aurora_mvee.Memory.{buf_size, poke, transfer_variant_mem, variant_mem_cmp}
use aurora_mvee.Memory.Read.{Readable}
use aurora_mvee.Memory.Compare.{Agrees, variant_mem_cmp-buffered}
use aurora_mvee.Memory.Kept.{transfer_variant_mem-kept}
use aurora_mvee.Memory.Transfer.{transfer_variant_mem-whole}
use aurora_mvee.Memory.Write.{IsBytes}
use aurora_mvee.Executors.Args.{same_arg, check, arg_of}
use aurora_mvee.Executors.Net.{sizeof_pollfd, exec_syscall_poll}
use aurora_mvee.Executors.Given.{Given}
use aurora_mvee.Executors.Seek.{put_register, at_return}
use aurora_mvee.Protocol.{Leaves}

-- The bytes of the descriptors.
abbrev pub fds_size : World → ℕ
fds_size w = wrap (arg w.master 1 * sizeof_pollfd)

-- The replica has made a getpid after the master's call.
abbrev pub at_nop : World → (rv is_error : ℕ) → World
at_nop w rv is_error =
    let v = at_return w rv is_error in
    let r = w.replica.pid in
    record v {
      replica = record w.replica { state = State.running };
      trace = waited r ∷ cont r ∷ poke_user r reg_orig_rax sys_getpid ∷ v.trace;
    }

wrap-aligned : (n : ℕ) → wrap (n * sizeof_pollfd) % 8 ≡ 0
unfolding wrap
wrap-aligned n = omega arith

-- The transfer buffer holds bytes, and the register is as it was.
abbrev AsPut : (p reg : ℕ) → World → World → Type 0
AsPut p reg w v = IsBytes v.buf_a × (put_register p reg v.trace ≡ put_register p reg w.trace)

poke-AsPut :
    (p reg : ℕ) (w : World) (s : Side) (a x : ℕ) (v : World)
    → x < u64_mod
    → AsPut p reg w v
    → AsPut p reg w (poke s a x v)
unfolding poke
poke-AsPut p reg w first a x v lt h = h
poke-AsPut p reg w second a x v lt h = h

-- A transfer puts nothing into a register.
transfer-put_register :
    (k : Kernel) (p reg source_buf dest_buf size : ℕ) (w w' : World)
    → IsBytes w.buf_a
    → transfer_variant_mem k first source_buf second dest_buf size w ≡ ok tt w'
    → put_register p reg w'.trace ≡ put_register p reg w.trace
transfer-put_register k p reg source_buf dest_buf size w w' bytes e =
    let (still_bytes, same) = subst (Leaves (AsPut p reg w)) e (
      transfer_variant_mem-kept (AsPut p reg w) (λ v h. h.0) (poke-AsPut p reg w)
        (λ buf v b h. (b, h.1)) k first source_buf second dest_buf size w (bytes, refl)) in
    same

module _ (k : Kernel) (w : World) (mem_m mem_r : ℕ → ℕ) (rv is_error : ℕ) (stops : Stops k)
    (returns : k.stop (waited w.master.pid ∷ cont w.master.pid ∷ w.trace) w.master.pid
      ≡ exit_stop rv is_error) where
  poll-Given :
      (a b : Buf)
      → IsBytes a
      → (same_arg first second 1 w && same_arg first second 2 w) ≡ true
      → variant_mem_cmp k first (arg w.master 0) second (arg w.replica 0) (fds_size w) w
        ≡ ok true (record w { buf_a = a; buf_b = b })
      → (fds_size w) % 8 ≡ 0
      → 8 ≤ (fds_size w)
      → (fds_size w) ≤ buf_size
      → Readable k
          (at_nop w rv is_error).trace
          w.master.pid
          mem_m
          (arg w.master 0)
          (arg w.master 0 + (fds_size w) + 7)
      → arg w.master 0 + (fds_size w) + 7 < u64_mod
      → arg w.replica 0 + (fds_size w) < u64_mod
      → Succeeds (Given w mem_m mem_r 0 1 (fds_size w) rv) (exec_syscall_poll k first second w)
  unfolding exec_syscall_poll check arg_of monad update request resume_variant_from_wait
      resume_variant_from_exit wait_variant wait_pid check_variant_exit request_syscall_info
      set_syscall set_nop_syscall set_syscall_return_value
  poll-Given a b bytes guard compared aligned long fits readable bound_m bound_r =
      let w1 : World = record w { buf_a = a; buf_b = b } in
      let m = w.master.pid in
      let r = w.replica.pid in
      let (s1, e1) = stops (cont m ∷ w.trace) m (ground arith) in
      let (s2, e2) =
        stops (cont r ∷ poke_user r reg_orig_rax sys_getpid ∷ waited m ∷ cont m ∷ w.trace) r
          (ground arith) in
      let (v, copied, same, stands) =
        transfer_variant_mem-whole k first second (at_nop w1 rv is_error) mem_m mem_r
          (arg w.master 0) (arg w.replica 0) (fds_size w) bytes aligned long fits readable bound_m
          bound_r in
      let w2 = at_nop w1 rv is_error in
      let pid_r : r ≡ v.replica.pid = sym (ap (λ (u : Variant). u.pid) same.1) in
      let is_r : (r == v.replica.pid) ≡ true = ground (arith, pid_r) in
      let known : (r == r) ≡ true = ground arith in
      let result : rval v.master ≡ rv = ap (λ (u : Variant). rval u) same.0 in
      let nop : put_register r reg_orig_rax v.trace ≡ some sys_getpid =
        transfer-put_register k r reg_orig_rax (arg w.master 0) (arg w.replica 0) (fds_size w) w2 v
          bytes copied
        ∙ rw known refl in
      rw (guard, compared)
        (rw (e1, Succeeds)
          (rw (e2, Succeeds)
            (rw (returns, Succeeds)
              (rw (copied, Succeeds)
                (
                  stands,
                  rw is_r (ap some result),
                  rw is_r nop,
                  ap (λ (u : Variant). u.syscall_num + 1) same.0,
                  ap (λ (u : Variant). u.syscall_num + 1) same.1,
                )))))

  -- A poll of descriptors that are the same in both variants. Where the numbers of descriptors and the
  -- timeouts agree, and the descriptors are equal byte by byte, at least one of them and at most
  -- BUF_SIZE bytes, the executor returns 0; then the replica's descriptors are the master's after its
  -- call, and the rest of its memory is unchanged, its result is the master's, the call that it
  -- makes is a getpid, and the call is counted in both. No variant exits meanwhile, the transfer
  -- buffer holds bytes, the descriptors are readable for a word beyond their end, in the replica before
  -- the call and in the master before and after it, and no range runs over the end of the
  -- address space.
  pub exec_syscall_poll-Given :
      (mem_before : ℕ → ℕ)
      → IsBytes w.buf_a
      → same_arg first second 1 w ≡ true
      → same_arg first second 2 w ≡ true
      → 8 ≤ (fds_size w)
      → (fds_size w) ≤ buf_size
      → Readable k w.trace w.master.pid mem_before
          (arg w.master 0)
          (arg w.master 0 + (fds_size w) + 7)
      → Readable k w.trace w.replica.pid mem_r
          (arg w.replica 0)
          (arg w.replica 0 + (fds_size w) + 7)
      → Agrees mem_before (arg w.master 0) mem_r (arg w.replica 0) (fds_size w)
      → Readable k
          (at_nop w rv is_error).trace
          w.master.pid
          mem_m
          (arg w.master 0)
          (arg w.master 0 + (fds_size w) + 7)
      → arg w.master 0 + (fds_size w) + 7 < u64_mod
      → arg w.replica 0 + (fds_size w) + 7 < u64_mod
      → Succeeds (Given w mem_m mem_r 0 1 (fds_size w) rv) (exec_syscall_poll k first second w)
  exec_syscall_poll-Given mem_before bytes count timeout long fits before_m before_r agree readable
        bound_m bound_r =
      let (equal, a, b, compared, are_bytes, correct) =
        variant_mem_cmp-buffered k first (arg w.master 0) second (arg w.replica 0) (fds_size w) w
          mem_before mem_r fits before_m bound_m before_r bound_r in
      let returned =
        subst
          (λ e.
            variant_mem_cmp k first (arg w.master 0) second (arg w.replica 0) (fds_size w) w
            ≡ ok e (record w { buf_a = a; buf_b = b }))
          (correct.1 agree) compared in
      poll-Given a b (are_bytes bytes) (ground (arith, count, timeout)) returned
        (wrap-aligned (arg w.master 1)) long fits readable bound_m (omega (arith, bound_r))
