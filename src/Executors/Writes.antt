-- ===== src/Executors/Writes.antt =====
-- A write that succeeds: write.c of Monitor/src/sys.
use aurora_mvee.Base.{
  ℕ, ◌+◌, ◌≤◌, ◌<◌, ◌≡◌, refl, ap, subst, sym, ◌∙◌, true, false, some, ◌∷◌, arith, ltb, leb, ◌&&◌,
}
use aurora_mvee.Words.{u64_mod, to_int}
use aurora_mvee.Kernel.{Kernel, cont, waited, exit_stop, reg_rax, reg_orig_rax}
use aurora_mvee.Kernel.Laws.{Stops}
use aurora_mvee.World.{World, Variant, Side, first, second, variant, arg, rval}
use aurora_mvee.World.Monad.{
  gets, M, Outcome, Succeeds, ok, failed, blocked, terminated, ◌>>=◌, ◌>>◌, monad,
}
use aurora_mvee.Variant.{
  update, request, resume_variant_from_wait, wait_variant, wait_pid, check_variant_exit,
  request_syscall_info, sys_lseek,
}
use aurora_mvee.Memory.{buf_size}
use aurora_mvee.Memory.Read.{Readable}
use aurora_mvee.Memory.Frame.{SameVariants}
use aurora_mvee.Executors.Args.{same_arg, check, arg_of}
use aurora_mvee.Executors.Data.{same_fd}
use aurora_mvee.Executors.Seek.{
  put_register, at_return, seek, Sought, seek-Sought, put_register-sought,
  put_register-sought_other, Succeeds-mono,
}
use aurora_mvee.Base.{◌≢◌, Bool-cases, inl, inr}
use aurora_mvee.Memory.{variant_mem_cmp, read_into_a, read_into_b, read_variant_mem}
use aurora_mvee.Memory.Compare.{Agrees, variant_mem_cmp-Agrees}
use aurora_mvee.Executors.Data.{exec_syscall_write}

-- A comparison changes the local buffers alone.
abbrev Unchanged : {A : Type 0} → World → Outcome A → Type 0
Unchanged w (ok a v) = SameVariants w v × (v.trace ≡ w.trace)
Unchanged w (failed v) = Unit
Unchanged w (blocked v) = Unit
Unchanged w (terminated v) = Unit

variant_mem_cmp-Unchanged :
    (k : Kernel) (v1 : Side) (v1_buf : ℕ) (v2 : Side) (v2_buf size : ℕ) (w : World)
    → Unchanged w (variant_mem_cmp k v1 v1_buf v2 v2_buf size w)
unfolding variant_mem_cmp read_into_a read_into_b read_variant_mem monad
variant_mem_cmp-Unchanged k v1 v1_buf v2 v2_buf size w = elim (Bool-cases (leb size buf_size)) [
  | inr long ↦ rw long tt
  | inl fits ↦
      let small : ltb buf_size size ≡ false = ground (arith, fits) in
      rw (fits, small) (rw (small, Unchanged) ((refl, refl, refl), refl))
]

-- What is left of a write when the data has been compared.
abbrev write_out : Kernel → (fd : ℕ) → M (Unit {0})
write_out k fd = do
  resume_variant_from_wait first
  wait_variant k first
  request_syscall_info k first
  n ← gets λ w. rval (variant first w)
  seek k first fd n

write_out-Sought :
    (k : Kernel) (fd n is_error : ℕ) (v : World)
    → Stops k
    → k.stop (waited v.master.pid ∷ cont v.master.pid ∷ v.trace) v.master.pid ≡ exit_stop n is_error
    → Succeeds (Sought k first fd n (at_return v n is_error)) (write_out k fd v)
unfolding monad update request resume_variant_from_wait wait_variant wait_pid check_variant_exit
    request_syscall_info
write_out-Sought k fd n is_error v stops returned =
    let (s1, e1) = stops (cont v.master.pid ∷ v.trace) v.master.pid (ground arith) in
    rw (e1, Succeeds)
      (rw (returned, Succeeds) (seek-Sought k first fd n (at_return v n is_error) stops))

module _ (k : Kernel) (w : World) where
  -- What a write of which the master has written `n` bytes leaves: the registers of a lseek are set in
  -- the replica, the number of the call is put into the master, and the replica's own stays what it was.
  abbrev pub SeeksInMaster : ℕ → World → Type 0
  SeeksInMaster n w' =
      (put_register w.master.pid reg_orig_rax w'.trace ≡ some sys_lseek)
      × (put_register w.replica.pid reg_orig_rax w'.trace
          ≡ put_register w.replica.pid reg_orig_rax w.trace)
      × (put_register w.replica.pid reg_rax w'.trace ≡ some n)
      × (w'.master.syscall_num ≡ w.master.syscall_num + 1)
      × (w'.replica.syscall_num ≡ w.replica.syscall_num + 1)

  Sought-SeeksInMaster :
      (v w' : World) (fd n is_error : ℕ)
      → w.master.pid ≢ w.replica.pid
      → SameVariants w v
      → v.trace ≡ w.trace
      → Sought k first fd n (at_return v n is_error) w'
      → SeeksInMaster n w'
  Sought-SeeksInMaster v w' fd n is_error distinct (master, replica, maps) quiet
        (trace, end_m, end_r, num_m, num_r) =
      let pid_m : w.master.pid ≡ v.master.pid = sym (ap (λ (u : Variant). u.pid) master) in
      let pid_r : w.replica.pid ≡ v.replica.pid = sym (ap (λ (u : Variant). u.pid) replica) in
      let t = waited v.master.pid ∷ cont v.master.pid ∷ v.trace in
      let (rax, orig) = put_register-sought k v.master.pid v.master.pid v.replica.pid fd n t in
      (
        (λ i. put_register (pid_m i) reg_orig_rax (trace i)) ∙ orig,
        (λ i. put_register (pid_r i) reg_orig_rax (trace i))
            ∙ put_register-sought_other k v.master.pid v.replica.pid fd n t
                (ground (arith, distinct, pid_m, pid_r))
            ∙ (λ i. put_register (sym pid_r i) reg_orig_rax (quiet i)),
        (λ i. put_register (pid_r i) reg_rax (trace i)) ∙ rax,
        num_m ∙ ap (λ (u : Variant). u.syscall_num + 1) master,
        num_r ∙ ap (λ (u : Variant). u.syscall_num + 1) replica,
      )

  -- A write of equal data makes the master seek. Where the descriptors, the counts, which are at most
  -- BUF_SIZE, and the data agree and the master's call returns `n`, the executor returns 0 after it
  -- has set the replica's result to `n` and counted the call in both, but it has put the number of
  -- lseek into the master, and left the number of the replica's call as it was. No variant exits meanwhile, and both buffers are readable
  -- for a word beyond their ends.
  pub exec_syscall_write-SeeksInMaster :
      (mem_m mem_r : ℕ → ℕ) (n is_error : ℕ)
      → Stops k
      → w.master.pid ≢ w.replica.pid
      → same_fd first second w ≡ true
      → same_arg first second 2 w ≡ true
      → arg w.master 2 ≤ buf_size
      → Readable k w.trace w.master.pid mem_m (arg w.master 1) (arg w.master 1 + arg w.master 2 + 7)
      → arg w.master 1 + arg w.master 2 + 7 < u64_mod
      → Readable k w.trace w.replica.pid mem_r
          (arg w.replica 1)
          (arg w.replica 1 + arg w.master 2 + 7)
      → arg w.replica 1 + arg w.master 2 + 7 < u64_mod
      → Agrees mem_m (arg w.master 1) mem_r (arg w.replica 1) (arg w.master 2)
      → k.stop (waited w.master.pid ∷ cont w.master.pid ∷ w.trace) w.master.pid
        ≡ exit_stop n is_error
      → Succeeds (SeeksInMaster n) (exec_syscall_write k first second w)
  unfolding exec_syscall_write check arg_of monad
  exec_syscall_write-SeeksInMaster mem_m mem_r n is_error stops distinct fd count size readable_m
        bound_m readable_r bound_r agree returns =
      let buf_m = arg w.master 1 in
      let buf_r = arg w.replica 1 in
      let (equal, v, compared, quiet, correct) =
        variant_mem_cmp-Agrees k first buf_m second buf_r (arg w.master 2) w mem_m mem_r size
          readable_m bound_m readable_r bound_r in
      let is_equal : equal ≡ true = correct.1 agree in
      let (same, _) =
        subst (Unchanged w) compared
          (variant_mem_cmp-Unchanged k first buf_m second buf_r (arg w.master 2) w) in
      let pid_m : v.master.pid ≡ w.master.pid = ap (λ (u : Variant). u.pid) same.0 in
      let returned =
        (λ i. k.stop (waited (pid_m i) ∷ cont (pid_m i) ∷ quiet i) (pid_m i)) ∙ returns in
      let guard : (same_fd first second w && same_arg first second 2 w) ≡ true =
        ground (arith, fd, count) in
      let fd_m = to_int (arg w.master 0) in
      rw (guard, compared, is_equal)
        (Succeeds-mono (write_out k fd_m v)
          (λ w'. Sought-SeeksInMaster v w' fd_m n is_error distinct same quiet)
          (write_out-Sought k fd_m n is_error v stops returned))
