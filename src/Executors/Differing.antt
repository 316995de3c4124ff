-- ===== src/Executors/Differing.antt =====
-- How the executors of Monitor/src/sys answer where the memory that they compare by `variantMemCmp`
-- differs.
use aurora_mvee.Base.{
  ℕ, ◌+◌, ◌*◌, ◌≡◌, ◌<◌, ◌≤◌, refl, ap, ◌∙◌, subst, arith, Bool-cases, inl, inr, ◌&&◌, ◌||◌, ◌==◌,
  false, some, Option, none,
}
use aurora_mvee.Words.{u64_mod, to_u32, wrap}
use aurora_mvee.Kernel.{Kernel}
use aurora_mvee.World.{World, first, second, arg}
use aurora_mvee.World.Monad.{ok, monad}
use aurora_mvee.Memory.{buf_size, variant_mem_cmp, read_variant_mem}
use aurora_mvee.Memory.Compare.{Agrees, variant_mem_cmp-Agrees}
use aurora_mvee.Memory.Read.{Readable}
use aurora_mvee.Executors.Args.{same_arg, check, arg_of}
use aurora_mvee.Executors.Data.{same_fd, exec_syscall_write}
use aurora_mvee.Executors.Plain.{exec_syscall_rt_sigprocmask, exec_syscall_setsockopt}
use aurora_mvee.Executors.Results.{exec_syscall_bind}
use aurora_mvee.Executors.Net.{
  sizeof_socklen, sizeof_pollfd, read_socklen, exec_syscall_accept4, exec_syscall_getsockname,
  exec_syscall_poll,
}
use aurora_mvee.Executors.Refusals.{RefusedFrom}
use aurora_mvee.Monitor.{exec_syscall}
use aurora_mvee.Monitor.Numbers.{Syscall}

-- What a call compares besides its arguments: the position of the pointer, and how many bytes.
abbrev pub memory_arg : Syscall → World → Option (ℕ × ℕ)
memory_arg Syscall.write w = some (1, arg w.master 2)
memory_arg Syscall.bind w = some (1, to_u32 (arg w.master 2))
memory_arg Syscall.setsockopt w = some (3, to_u32 (arg w.master 4))
memory_arg Syscall.rt_sigprocmask w = some (1, arg w.master 3)
memory_arg Syscall.poll w = some (0, wrap (arg w.master 1 * sizeof_pollfd))
memory_arg Syscall.accept4 w = some (2, sizeof_socklen)
memory_arg Syscall.getsockname w = some (2, sizeof_socklen)
memory_arg _ w = none

position : {p q : ℕ × ℕ} → ◌≡◌ {A = Option (ℕ × ℕ)} (some p) (some q) → q ≡ p
position e = cc

module _ (k : Kernel) (w : World) where
  -- The comparison of what the argument `i` of both points to finds a difference.
  abbrev Differs : (i size : ℕ) → Type 0
  Differs i size =
      (w' : World) × (variant_mem_cmp k first (arg w.master i) second (arg w.replica i) size w
        ≡ ok false w')
      × (w'.trace ≡ w.trace)

  abbrev Differing : ℕ × ℕ → Type 0
  Differing (i, size) = Differs i size

  write-refused : Differs 1 (arg w.master 2) → RefusedFrom w (exec_syscall_write k first second w)
  unfolding exec_syscall_write check arg_of monad
  write-refused (w', e, same) =
      elim (Bool-cases (same_fd first second w && same_arg first second 2 w)) [
        | inl eq ↦ rw (eq, e) same
        | inr differ ↦ rw differ refl
      ]

  bind-refused :
      Differs 1 (to_u32 (arg w.master 2)) → RefusedFrom w (exec_syscall_bind k first second w)
  unfolding exec_syscall_bind check arg_of monad
  bind-refused (w', e, same) =
      elim (Bool-cases
        (same_arg first second 0 w && (to_u32 (arg w.master 2) == arg w.replica 2))) [
          | inl eq ↦ rw (e, eq) same
          | inr differ ↦ rw (e, differ) same
        ]

  setsockopt-refused :
      Differs 3 (to_u32 (arg w.master 4)) → RefusedFrom w (exec_syscall_setsockopt k first second w)
  unfolding exec_syscall_setsockopt check arg_of monad
  setsockopt-refused (w', e, same) =
      elim (Bool-cases (
        same_arg first second 0 w
        && same_arg first second 1 w
        && same_arg first second 2 w
        && (to_u32 (arg w.master 4) == arg w.replica 4))) [
          | inl eq ↦ rw (eq, e) same
          | inr differ ↦ rw differ refl
        ]

  rt_sigprocmask-refused :
      Differs 1 (arg w.master 3) → RefusedFrom w (exec_syscall_rt_sigprocmask k first second w)
  unfolding exec_syscall_rt_sigprocmask check arg_of monad
  rt_sigprocmask-refused (w', e, same) =
      elim (Bool-cases ((arg w.master 1 == 0) || same_arg first second 0 w)) [
        | inl eq ↦ rw (eq, e) same
        | inr differ ↦ rw differ refl
      ]

  poll-refused :
      Differs 0 (wrap (arg w.master 1 * sizeof_pollfd))
      → RefusedFrom w (exec_syscall_poll k first second w)
  unfolding exec_syscall_poll check arg_of monad
  poll-refused (w', e, same) =
      elim (Bool-cases (same_arg first second 1 w && same_arg first second 2 w)) [
        | inl eq ↦ rw (eq, e) same
        | inr differ ↦ rw differ refl
      ]

  accept4-refused : Differs 2 sizeof_socklen → RefusedFrom w (exec_syscall_accept4 k first second w)
  unfolding exec_syscall_accept4 check arg_of monad
  accept4-refused (w', e, same) =
      let none_passes : (same_arg first second 0 w' && same_arg first second 3 w' && false)
          ≡ false =
        ground arith in
      rw (e, none_passes) same

  getsockname-refused :
      Differs 2 sizeof_socklen → RefusedFrom w (exec_syscall_getsockname k first second w)
  unfolding exec_syscall_getsockname read_socklen read_variant_mem check arg_of monad
  getsockname-refused (w', e, same) =
      let none_passes : (same_arg first second 0 w' && false) ≡ false = ground arith in
      rw (e, none_passes) same

  memory-refused :
      (call : Syscall) (i size : ℕ)
      → memory_arg call w ≡ some (i, size)
      → Differs i size
      → RefusedFrom w (exec_syscall k call first second w)
  unfolding exec_syscall
  memory-refused Syscall.write i size e h = write-refused (subst Differing (position e) h)
  memory-refused Syscall.bind i size e h = bind-refused (subst Differing (position e) h)
  memory-refused Syscall.setsockopt i size e h = setsockopt-refused (subst Differing (position e) h)
  memory-refused Syscall.rt_sigprocmask i size e h =
      rt_sigprocmask-refused (subst Differing (position e) h)
  memory-refused Syscall.poll i size e h = poll-refused (subst Differing (position e) h)
  memory-refused Syscall.accept4 i size e h = accept4-refused (subst Differing (position e) h)
  memory-refused Syscall.getsockname i size e h =
      getsockname-refused (subst Differing (position e) h)
  memory-refused _ i size e h = cc

-- Data that differs is not let through. Each of write, bind, setsockopt, rt_sigprocmask, poll, accept4
-- and getsockname compares some bytes that an argument points to, of a size that the master's
-- arguments give: where these bytes, at most BUF_SIZE, are not the same in the two variants, the call
-- is refused before any request, whatever the other arguments are. The bytes are readable in both for a
-- word beyond their ends.
pub differing_memory-RefusedFrom :
    (k : Kernel) (call : Syscall) (i size : ℕ) (w : World) (mem_m mem_r : ℕ → ℕ)
    → memory_arg call w ≡ some (i, size)
    → size ≤ buf_size
    → Readable k w.trace w.master.pid mem_m (arg w.master i) (arg w.master i + size + 7)
    → arg w.master i + size + 7 < u64_mod
    → Readable k w.trace w.replica.pid mem_r (arg w.replica i) (arg w.replica i + size + 7)
    → arg w.replica i + size + 7 < u64_mod
    → ¬ Agrees mem_m (arg w.master i) mem_r (arg w.replica i) size
    → RefusedFrom w (exec_syscall k call first second w)
differing_memory-RefusedFrom k call i size w mem_m mem_r compares fits readable_m bound_m readable_r
      bound_r differ =
    let (equal, w', compared, same, correct) =
      variant_mem_cmp-Agrees k first (arg w.master i) second (arg w.replica i) size w mem_m mem_r
        fits readable_m bound_m readable_r bound_r in
    elim (Bool-cases equal) [
      | inl agree ↦ absurd (differ (correct.0 agree))
      | inr unequal ↦
          memory-refused k w call i size compares (w', compared ∙ ap (λ b. ok b w') unequal, same)
    ]
