-- ===== src/Executors/Compared.antt =====
-- What the executors of Monitor/src/sys compare of the arguments of a call.
use aurora_mvee.Base.{
  ℕ, ◌≡◌, refl, Bool, Bool-cases, inl, inr, true, false, ◌&&◌, ◌||◌, ◌==◌, ltb, leb, List, [], ◌∷◌,
  arith,
}
use aurora_mvee.Kernel.{Kernel, Trace, cont}
use aurora_mvee.Words.{to_int, to_u32}
use aurora_mvee.World.{World, Buf, Side, first, second, variant, arg}
use aurora_mvee.World.Monad.{Outcome, ok, failed, blocked, terminated, or_else, monad}
use aurora_mvee.Memory.{
  buf_size, variant_mem_cmp, read_into_a, read_into_b, read_variant_mem, read_loop, memcmp_eq,
}
use aurora_mvee.Executors.Args.{same_arg}
use aurora_mvee.Monitor.Numbers.{Syscall}

-- The arguments that a call compares as they are. Those that it compares only after a path are left
-- out: the argument 1 of getcwd, and the arguments 3 of utimensat and newfstatat.
abbrev pub compared : Syscall → List ℕ
compared Syscall.arch_prctl = 0 ∷ []
compared Syscall.prlimit64 = 1 ∷ []
compared Syscall.rt_sigaction = 0 ∷ []
compared Syscall.exit_group = 0 ∷ []
compared Syscall.lseek = 0 ∷ 1 ∷ 2 ∷ []
compared Syscall.socket = 0 ∷ 1 ∷ 2 ∷ []
compared Syscall.shutdown = 0 ∷ 1 ∷ []
compared Syscall.setsockopt = 0 ∷ 1 ∷ 2 ∷ []
compared Syscall.close = 0 ∷ []
compared Syscall.fchmod = 0 ∷ 1 ∷ []
compared Syscall.fchown = 0 ∷ 1 ∷ 2 ∷ []
compared Syscall.listen = 0 ∷ 1 ∷ []
compared Syscall.poll = 1 ∷ 2 ∷ []
compared Syscall.pread64 = 0 ∷ 2 ∷ 3 ∷ []
compared Syscall.getrandom = 1 ∷ 2 ∷ []
compared Syscall.munmap = 1 ∷ []
compared Syscall.mprotect = 1 ∷ []
compared Syscall.mmap = 1 ∷ 4 ∷ 5 ∷ []
compared Syscall.read = 2 ∷ []
compared Syscall.write = 2 ∷ []
compared Syscall.openat = 0 ∷ 2 ∷ []
compared Syscall.access = 1 ∷ []
compared Syscall.utimensat = 0 ∷ []
compared Syscall.newfstatat = 0 ∷ []
compared Syscall.rseq = 1 ∷ 2 ∷ 3 ∷ []
compared Syscall.fadvise64 = 0 ∷ 1 ∷ 2 ∷ 3 ∷ []
compared Syscall.bind = 0 ∷ []
compared Syscall.accept4 = 0 ∷ 3 ∷ []
compared Syscall.getsockname = 0 ∷ []
compared _ = []

abbrev pub all_same : List ℕ → World → Bool
all_same [] w = true
all_same (i ∷ is) w = same_arg first second i w && all_same is w

-- The other comparisons of an argument: the master's value is cut to an `int` and widened again, or
-- both values are, or the master's is cut to 32 bits; or the argument `j` is compared unless the
-- master's argument `i` is 0.
pub data Cast : Type 0 where
  master_int both_int master_u32 : ℕ → Cast
  unless_zero : (i j : ℕ) → Cast

abbrev pub cast_agrees : Cast → World → Bool
cast_agrees (master_int i) w = to_int (arg w.master i) == arg w.replica i
cast_agrees (both_int i) w = to_int (arg w.master i) == to_int (arg w.replica i)
cast_agrees (master_u32 i) w = to_u32 (arg w.master i) == arg w.replica i
cast_agrees (unless_zero i j) w = (arg w.master i == 0) || same_arg first second j w

-- Those that a call makes at the same place as the ones of `compared`.
abbrev pub casts : Syscall → List Cast
casts Syscall.read = master_int 0 ∷ []
casts Syscall.write = master_int 0 ∷ []
casts Syscall.mmap = master_int 2 ∷ master_int 3 ∷ []
casts Syscall.mprotect = master_int 2 ∷ []
casts Syscall.pselect6 = both_int 0 ∷ []
casts Syscall.bind = master_u32 2 ∷ []
casts Syscall.setsockopt = master_u32 4 ∷ []
casts Syscall.rt_sigprocmask = unless_zero 1 0 ∷ []
casts Syscall.openat = unless_zero 3 3 ∷ []
casts _ = []

abbrev pub all_agree : List Cast → World → Bool
all_agree [] w = true
all_agree (c ∷ cs) w = cast_agrees c w && all_agree cs w

-- The arguments that a call compares agree.
abbrev pub args_agree : Syscall → World → Bool
args_agree call w = all_same (compared call) w && all_agree (casts call) w

-- The requests at the time when a call is refused for its arguments: rseq and fadvise64 have resumed
-- both variants by then.
abbrev pub after_refusal : Syscall → World → Trace
after_refusal Syscall.rseq w = cont w.replica.pid ∷ cont w.master.pid ∷ w.trace
after_refusal Syscall.fadvise64 w = cont w.replica.pid ∷ cont w.master.pid ∷ w.trace
after_refusal _ w = w.trace

-- The call returns -1 after these requests, and the variants are the same processes.
abbrev pub RefusedAfter : Trace → World → Outcome (Unit {0}) → Type 0
RefusedAfter t w (ok a v) = ⊥
RefusedAfter t w (failed v) =
    (v.trace ≡ t) × (v.master.pid ≡ w.master.pid) × (v.replica.pid ≡ w.replica.pid)
RefusedAfter t w (blocked v) = ⊥
RefusedAfter t w (terminated v) = ⊥

-- A comparison of memory changes the two buffers at most.
pub variant_mem_cmp-buffers :
    (k : Kernel) (v1 : Side) (v1_buf : ℕ) (v2 : Side) (v2_buf size : ℕ) (w : World)
    → (equal : Bool) × (a : Buf) × (b : Buf) × (or_else false
          (variant_mem_cmp k v1 v1_buf v2 v2_buf size)
          w
        ≡ ok equal (record w { buf_a = a; buf_b = b }))
unfolding variant_mem_cmp read_into_a read_into_b read_variant_mem monad
variant_mem_cmp-buffers k v1 v1_buf v2 v2_buf size w = elim (Bool-cases (leb size buf_size)) [
  | inr long ↦ (false, w.buf_a, w.buf_b, rw long refl)
  | inl fits ↦
      let small : ltb buf_size size ≡ false = ground (arith, fits) in
      let a = (read_loop k w.trace (variant v1 w).pid v1_buf size size 0 w.buf_a).1 in
      let w1 : World = record w { buf_a = a } in
      let b = (read_loop k w1.trace (variant v2 w1).pid v2_buf size size 0 w.buf_b).1 in
      (memcmp_eq a b 0 size, a, b, rw (fits, small) (rw small refl))
]
