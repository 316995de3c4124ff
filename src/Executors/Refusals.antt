-- ===== src/Executors/Refusals.antt =====
-- How the executors of Monitor/src/sys answer where paths or data are compared.
use aurora_mvee.Base.{
  ℕ, ◌+◌, ◌≡◌, ◌<◌, refl, subst, Bool-cases, inl, inr, ◌&&◌, ◌||◌, ◌==◌, some, Option, none,
}
use aurora_mvee.Words.{u64_mod}
use aurora_mvee.Kernel.{Kernel}
use aurora_mvee.World.{World, first, second, arg}
use aurora_mvee.World.Monad.{Outcome, ok, failed, blocked, terminated, monad}
use aurora_mvee.Memory.{buf_size, variant_str_cmp}
use aurora_mvee.Memory.Read.{Readable}
use aurora_mvee.Memory.Strings.{variant_str_cmp-fails}
use aurora_mvee.Executors.Args.{same_arg, check, arg_of}
use aurora_mvee.Executors.Paths.{
  same_path, exec_syscall_access, exec_syscall_chdir, exec_syscall_getcwd, exec_syscall_openat,
  exec_syscall_unlink, exec_syscall_utimensat,
}
use aurora_mvee.Monitor.{exec_syscall}
use aurora_mvee.Monitor.Numbers.{Syscall}

-- The calls whose path is compared by `variantStrCmp`, with the position of the path.
abbrev pub path_arg : Syscall → Option ℕ
path_arg Syscall.openat = some 1
path_arg Syscall.access = some 0
path_arg Syscall.chdir = some 0
path_arg Syscall.getcwd = some 0
path_arg Syscall.unlink = some 0
path_arg Syscall.utimensat = some 1
path_arg _ = none

-- The function returned -1 without a request since `w`.
abbrev pub RefusedFrom : {A : Type 0} → World → Outcome A → Type 0
RefusedFrom w (ok a w') = ⊥
RefusedFrom w (failed w') = w'.trace ≡ w.trace
RefusedFrom w (blocked w') = ⊥
RefusedFrom w (terminated w') = ⊥

position : {i j : ℕ} → ◌≡◌ {A = Option ℕ} (some i) (some j) → j ≡ i
position e = cc

module _ (k : Kernel) (w : World) where
  -- The comparison of the strings at argument `i` fails.
  abbrev Fails : ℕ → Type 0
  Fails i =
      (w' : World) × (variant_str_cmp k first (arg w.master i) second (arg w.replica i) w
        ≡ failed w')
      × (w'.trace ≡ w.trace)

  chdir-refused : Fails 0 → RefusedFrom w (exec_syscall_chdir k first second w)
  unfolding exec_syscall_chdir same_path check arg_of monad
  chdir-refused (w', e, same) = rw e same

  getcwd-refused : Fails 0 → RefusedFrom w (exec_syscall_getcwd k first second w)
  unfolding exec_syscall_getcwd same_path check arg_of monad
  getcwd-refused (w', e, same) = rw e same

  unlink-refused : Fails 0 → RefusedFrom w (exec_syscall_unlink k first second w)
  unfolding exec_syscall_unlink same_path check arg_of monad
  unlink-refused (w', e, same) = rw e same

  access-refused : Fails 0 → RefusedFrom w (exec_syscall_access k first second w)
  unfolding exec_syscall_access same_path check arg_of monad
  access-refused (w', e, same) = elim (Bool-cases (same_arg first second 1 w)) [
    | inl eq ↦ rw (eq, e) same
    | inr differ ↦ rw differ refl
  ]

  utimensat-refused : Fails 1 → RefusedFrom w (exec_syscall_utimensat k first second w)
  unfolding exec_syscall_utimensat same_path check arg_of monad
  utimensat-refused (w', e, same) = elim (Bool-cases (same_arg first second 0 w)) [
    | inl eq ↦ rw (eq, e) same
    | inr differ ↦ rw differ refl
  ]

  openat-refused : Fails 1 → RefusedFrom w (exec_syscall_openat k first second w)
  unfolding exec_syscall_openat check arg_of monad
  openat-refused (w', e, same) =
      elim (Bool-cases (
        same_arg first second 0 w
        && same_arg first second 2 w
        && ((arg w.master 3 == 0) || same_arg first second 3 w))) [
          | inl eq ↦ rw (eq, e) same
          | inr differ ↦ rw differ refl
        ]

  path-refused :
      (call : Syscall) (i : ℕ)
      → path_arg call ≡ some i
      → Fails i
      → RefusedFrom w (exec_syscall k call first second w)
  unfolding exec_syscall
  path-refused Syscall.openat i e h = openat-refused (subst Fails (position e) h)
  path-refused Syscall.access i e h = access-refused (subst Fails (position e) h)
  path-refused Syscall.chdir i e h = chdir-refused (subst Fails (position e) h)
  path-refused Syscall.getcwd i e h = getcwd-refused (subst Fails (position e) h)
  path-refused Syscall.unlink i e h = unlink-refused (subst Fails (position e) h)
  path-refused Syscall.utimensat i e h = utimensat-refused (subst Fails (position e) h)
  path-refused _ i e h = cc

-- A call that compares its paths by `variantStrCmp` is refused, before any request, whenever the
-- master's path ends more than 100 bytes before the end of a local buffer, whatever the replica's
-- path is. The master's memory is readable for 107 bytes beyond the path's terminator.
pub short_path-RefusedFrom :
    (k : Kernel) (call : Syscall) (i n : ℕ) (w : World) (mem : ℕ → ℕ)
    → path_arg call ≡ some i
    → n + 100 < buf_size
    → Readable k w.trace w.master.pid mem (arg w.master i) (arg w.master i + n + 107)
    → arg w.master i + n + 107 < u64_mod
    → mem (arg w.master i + n) ≡ 0
    → RefusedFrom w (exec_syscall k call first second w)
short_path-RefusedFrom k call i n w mem path room readable fits nul = path-refused k w call i path (
    variant_str_cmp-fails k first (arg w.master i) mem n room fits nul second (arg w.replica i) w
      readable)
