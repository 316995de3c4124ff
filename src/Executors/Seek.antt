-- ===== src/Executors/Seek.antt =====
-- The end that read.c and write.c of Monitor/src/sys have in common.
use aurora_mvee.Base.{
  ℕ, ◌+◌, ◌≡◌, ◌≢◌, refl, Option, none, some, [], ◌∷◌, arith, ◌&&◌, ◌==◌, if◌then◌else◌,
}
use aurora_mvee.Kernel.{
  Kernel, Pid, Regs, reg_rdi, reg_rsi, reg_rdx, Trace, cont, waited, poke_user, set_regs, exit_stop,
  reg_rax, reg_orig_rax,
}
use aurora_mvee.Kernel.Laws.{Stops}
use aurora_mvee.World.{World, State, Side, first, second, variant, info_of}
use aurora_mvee.World.Monad.{M, Outcome, Succeeds, ok, failed, blocked, terminated, ◌>>◌, monad}
use aurora_mvee.Variant.{
  update, request, resume_variant_from_wait, resume_variant_from_exit, wait_variant, wait_pid,
  check_variant_exit, set_syscall, set_syscall_return_value, set_lseek_regs, sys_lseek, seek_cur,
}
use aurora_mvee.Memory.Write.{memory, poked}

-- The value that was last put into a register of a tracee by PTRACE_POKEUSER.
abbrev pub put_register : Pid → (register : ℕ) → Trace → Option ℕ
put_register p reg [] = none
put_register p reg (poke_user q g v ∷ t) =
    if (p == q) && (reg == g) then some v else put_register p reg t
put_register p reg (_ ∷ t) = put_register p reg t

-- The master's call has returned, and its information has been read.
abbrev pub at_return : World → (rv is_error : ℕ) → World
at_return w rv is_error = record w {
  master = record w.master {
    state = State.running;
    syscall_info = info_of (exit_stop rv is_error);
  };
  trace = waited w.master.pid ∷ cont w.master.pid ∷ w.trace;
}

-- How read and write end: the replica makes a lseek, with the master's result as its offset. The
-- number of the call is put into the variant `s`.
abbrev pub seek : Kernel → Side → (fd n : ℕ) → M (Unit {0})
seek k s fd n = do
  set_lseek_regs k second fd n
  set_syscall s sys_lseek
  resume_variant_from_wait second
  wait_variant k second
  set_syscall_return_value second n
  resume_variant_from_exit first
  resume_variant_from_exit second

abbrev pub lseek_regs : (fd n : ℕ) → Regs → Regs
lseek_regs fd n regs r =
    if r == reg_rdi
    then fd
    else (if r == reg_rsi then n else (if r == reg_rdx then seek_cur else regs r))

-- The requests of that end.
abbrev pub sought : (k : Kernel) (chosen m r : Pid) (fd n : ℕ) → Trace → Trace
sought k chosen m r fd n t =
    cont r
    ∷ cont m
    ∷ poke_user r reg_rax n
    ∷ waited r
    ∷ cont r
    ∷ poke_user chosen reg_orig_rax sys_lseek
    ∷ set_regs r (lseek_regs fd n (k.regs t r))
    ∷ t

-- The end of a call that began in `w` and has come to `v`.
abbrev pub Sought : Kernel → Side → (fd n : ℕ) → World → World → Type 0
Sought k s fd n v w' =
    (w'.trace ≡ sought k (variant s v).pid v.master.pid v.replica.pid fd n v.trace)
    × (w'.master.pid ≡ v.master.pid)
    × (w'.replica.pid ≡ v.replica.pid)
    × (w'.master.syscall_num ≡ v.master.syscall_num + 1)
    × (w'.replica.syscall_num ≡ v.replica.syscall_num + 1)

pub seek-Sought :
    (k : Kernel) (s : Side) (fd n : ℕ) (v : World)
    → Stops k
    → Succeeds (Sought k s fd n v) (seek k s fd n v)
unfolding monad update request resume_variant_from_wait resume_variant_from_exit wait_variant
    wait_pid check_variant_exit set_syscall set_syscall_return_value set_lseek_regs
seek-Sought k first fd n v stops =
    let (s2, e2) =
      stops
        (cont v.replica.pid
          ∷ poke_user v.master.pid reg_orig_rax sys_lseek
          ∷ set_regs v.replica.pid (lseek_regs fd n (k.regs v.trace v.replica.pid))
          ∷ v.trace)
        v.replica.pid (ground arith) in
    rw (e2, Succeeds) (refl, refl, refl, refl, refl)
seek-Sought k second fd n v stops =
    let (s2, e2) =
      stops
        (cont v.replica.pid
          ∷ poke_user v.replica.pid reg_orig_rax sys_lseek
          ∷ set_regs v.replica.pid (lseek_regs fd n (k.regs v.trace v.replica.pid))
          ∷ v.trace)
        v.replica.pid (ground arith) in
    rw (e2, Succeeds) (refl, refl, refl, refl, refl)

-- No request of the end writes memory.
pub memory-Sought :
    (k : Kernel) (s : Side) (fd n : ℕ) (v w' : World) (mem : ℕ → ℕ) (x : ℕ)
    → Sought k s fd n v w'
    → memory second mem w' x ≡ memory second mem v x
memory-Sought k s fd n v w' mem x (trace, pid_m, pid_r, num_m, num_r) =
    λ i. poked (pid_r i) (trace i) mem x

pub put_register-sought :
    (k : Kernel) (chosen m r : Pid) (fd n : ℕ) (t : Trace)
    → (put_register r reg_rax (sought k chosen m r fd n t) ≡ some n)
      × (put_register chosen reg_orig_rax (sought k chosen m r fd n t) ≡ some sys_lseek)
put_register-sought k chosen m r fd n t = ground arith

pub put_register-sought_other :
    (k : Kernel) (chosen r : Pid) (fd n : ℕ) (t : Trace)
    → chosen ≢ r
    → put_register r reg_orig_rax (sought k chosen chosen r fd n t) ≡ put_register r reg_orig_rax t
put_register-sought_other k chosen r fd n t distinct = ground arith

pub Succeeds-mono :
    {P Q : World → Type 0} (r : Outcome (Unit {0}))
    → ((w : World) → P w → Q w)
    → Succeeds P r
    → Succeeds Q r
Succeeds-mono (ok a w) h p = h w p
Succeeds-mono (failed w) h p = p
Succeeds-mono (blocked w) h p = p
Succeeds-mono (terminated w) h p = p
