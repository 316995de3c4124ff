-- ===== src/Executors/Given.antt =====
-- What the executors leave that copy the master's data behind the replica's back, while the replica
-- makes a getpid: pread64.c, getrandom.c and newfstatat.c of Monitor/src/sys.
use aurora_mvee.Base.{
  ℕ, ◌+◌, ◌-◌, ◌%◌, ◌≤◌, ◌<◌, ◌≡◌, refl, ap, sym, ◌∙◌, some, ◌∷◌, arith, ltb, leb, ◌&&◌,
  if◌then◌else◌,
}
use aurora_mvee.Words.{u64_mod}
use aurora_mvee.Kernel.{Kernel, cont, waited, poke_user, reg_rax, reg_orig_rax}
use aurora_mvee.Kernel.Laws.{Stops}
use aurora_mvee.World.{World, Variant, Side, first, second, arg}
use aurora_mvee.World.Monad.{M, ok, Succeeds, ◌>>◌, monad}
use aurora_mvee.Variant.{
  update, request, resume_variant_from_wait, resume_variant_from_exit, wait_variant, wait_pid,
  check_variant_exit, set_syscall, set_nop_syscall, set_syscall_return_value, sys_getpid,
}
use aurora_mvee.Memory.{buf_size, transfer_variant_mem}
use aurora_mvee.Memory.Read.{Readable}
use aurora_mvee.Memory.Write.{IsBytes, memory, poked}
use aurora_mvee.Memory.Frame.{SameVariants}
use aurora_mvee.Memory.Transfer.{transfer_variant_mem-whole}
use aurora_mvee.Executors.Seek.{put_register, at_return}

-- How these executors end; `resume` is how a variant is resumed from its exit.
abbrev pub nop : Kernel → (resume : Side → M (Unit {0})) → (n : ℕ) → M (Unit {0})
nop k resume n = do
  set_nop_syscall second
  resume_variant_from_wait second
  wait_variant k second
  set_syscall_return_value second n
  resume first
  resume second

-- The requests of that end, and how many calls are counted.
abbrev pub Nopped : (n counted : ℕ) → World → World → Type 0
Nopped n counted v w' =
    (w'.trace
      ≡ cont v.replica.pid
        ∷ cont v.master.pid
        ∷ poke_user v.replica.pid reg_rax n
        ∷ waited v.replica.pid
        ∷ cont v.replica.pid
        ∷ poke_user v.replica.pid reg_orig_rax sys_getpid
        ∷ v.trace)
    × (w'.replica.pid ≡ v.replica.pid)
    × (w'.master.syscall_num ≡ v.master.syscall_num + counted)
    × (w'.replica.syscall_num ≡ v.replica.syscall_num + counted)

module _ (k : Kernel) (n : ℕ) (v : World) (stops : Stops k) where
  pub exit-Nopped : Succeeds (Nopped n 1 v) (nop k resume_variant_from_exit n v)
  unfolding monad update request resume_variant_from_wait resume_variant_from_exit wait_variant
      wait_pid check_variant_exit set_syscall set_nop_syscall set_syscall_return_value
  exit-Nopped =
      let (s, e) =
        stops (cont v.replica.pid ∷ poke_user v.replica.pid reg_orig_rax sys_getpid ∷ v.trace)
          v.replica.pid (ground arith) in
      rw (e, Succeeds) (refl, refl, refl, refl)

  pub wait-Nopped : Succeeds (Nopped n 0 v) (nop k resume_variant_from_wait n v)
  unfolding monad update request resume_variant_from_wait wait_variant wait_pid check_variant_exit
      set_syscall set_nop_syscall set_syscall_return_value
  wait-Nopped =
      let (s, e) =
        stops (cont v.replica.pid ∷ poke_user v.replica.pid reg_orig_rax sys_getpid ∷ v.trace)
          v.replica.pid (ground arith) in
      rw (e, Succeeds) (refl, refl, ground arith, ground arith)

module _ (w : World) (mem_m mem_r : ℕ → ℕ) (i counted size n : ℕ) where
  -- The replica's buffer, the argument `i`, has the `size` bytes of the master's, and nothing else changed
  -- in its memory; its result is `n`, and it has made a getpid.
  abbrev pub Given : World → Type 0
  Given w' =
      ((x : ℕ)
        → memory second mem_r w' x ≡ (
            if leb (arg w.replica i) x && ltb x (arg w.replica i + size)
            then mem_m (arg w.master i + (x - arg w.replica i))
            else memory second mem_r w x))
      × (put_register w.replica.pid reg_rax w'.trace ≡ some n)
      × (put_register w.replica.pid reg_orig_rax w'.trace ≡ some sys_getpid)
      × (w'.master.syscall_num ≡ w.master.syscall_num + counted)
      × (w'.replica.syscall_num ≡ w.replica.syscall_num + counted)

  Nopped-Given :
      (v w' : World) (rv is_error : ℕ)
      → SameVariants (at_return w rv is_error) v
      → ((x : ℕ)
          → memory second mem_r v x ≡ (
              if leb (arg w.replica i) x && ltb x (arg w.replica i + size)
              then mem_m (arg w.master i + (x - arg w.replica i))
              else memory second mem_r (at_return w rv is_error) x))
      → Nopped n counted v w'
      → Given w'
  Nopped-Given v w' rv is_error (master, replica, maps) stands (trace, end_r, num_m, num_r) =
      let pid_r : w.replica.pid ≡ v.replica.pid = sym (ap (λ (u : Variant). u.pid) replica) in
      (
        λ x. (λ j. poked (end_r j) (trace j) mem_r x) ∙ stands x,
        (λ j. put_register (pid_r j) reg_rax (trace j)) ∙ ground arith,
        (λ j. put_register (pid_r j) reg_orig_rax (trace j)) ∙ ground arith,
        num_m ∙ ap (λ (u : Variant). u.syscall_num + counted) master,
        num_r ∙ ap (λ (u : Variant). u.syscall_num + counted) replica,
      )

-- The transfer when the master's call has returned.
pub given :
    (k : Kernel) (w : World) (mem_m mem_r : ℕ → ℕ) (i size rv is_error : ℕ)
    → IsBytes w.buf_a
    → size % 8 ≡ 0
    → 8 ≤ size
    → size ≤ buf_size
    → Readable k
        (waited w.master.pid ∷ cont w.master.pid ∷ w.trace)
        w.master.pid
        mem_m
        (arg w.master i)
        (arg w.master i + size + 7)
    → arg w.master i + size + 7 < u64_mod
    → arg w.replica i + size < u64_mod
    → (v : World) × (transfer_variant_mem k first
          (arg w.master i)
          second
          (arg w.replica i)
          size
          (at_return w rv is_error)
        ≡ ok tt v)
      × ((counted n : ℕ) (w' : World)
          → Nopped n counted v w'
          → Given w mem_m mem_r i counted size n w')
given k w mem_m mem_r i size rv is_error bytes aligned long fits readable bound_m bound_r =
    let (v, copied, same, stands) =
      transfer_variant_mem-whole k first second (at_return w rv is_error) mem_m mem_r
        (arg w.master i) (arg w.replica i) size bytes aligned long fits readable bound_m bound_r in
    (
      v,
      copied,
      λ counted n w'. Nopped-Given w mem_m mem_r i counted size n v w' rv is_error same stands,
    )
