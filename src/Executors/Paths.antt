-- ===== src/Executors/Paths.antt =====
-- Calls with a path: access.c, chdir.c, getcwd.c, openat.c, unlink.c, utimensat.c and newfstatat.c
-- of Monitor/src/sys.
use aurora_mvee.Base.{ℕ, zero, suc, ◌+◌, Bool, false, ◌&&◌, ◌||◌, ltb, ◌==◌, if◌then◌else◌}
use aurora_mvee.Kernel.{Kernel, Addr}
use aurora_mvee.Words.{to_int}
use aurora_mvee.World.{Side, variant, arg, rval}
use aurora_mvee.World.Monad.{
  M, Outcome, ok, failed, and_then, gets, modify, require, or_else, ignore, ◌>>=◌, ◌>>◌,
}
use aurora_mvee.Variant.{
  run_master_replicate_ret, run_both_copy_master_ret, resume_variant_from_wait,
  resume_variant_from_exit, wait_variant, request_syscall_info, set_nop_syscall,
  set_syscall_return_value,
}
use aurora_mvee.Memory.{
  read_variant_mem, variant_str_cmp, strnlen, strncmp_eq, transfer_variant_mem,
}
use aurora_mvee.Executors.Args.{same_arg, check, arg_of, resume_both}

-- NEWFSTATAT_BUF_SIZE and `sizeof(struct stat)`.
abbrev pub newfstatat_buf_size : ℕ
newfstatat_buf_size = 10000000

abbrev pub sizeof_stat : ℕ
sizeof_stat = 144

module _ (k : Kernel) where
  -- `variantStrCmp(...) == 0` on the argument `i` of both.
  unfoldable pub same_path : (master replica : Side) → ℕ → M Bool
  same_path m r i = do
    path_m ← arg_of m i
    path_r ← arg_of r i
    or_else false (variant_str_cmp k m path_m r path_r)

  -- The result of the execution is not looked at.
  unfoldable pub exec_syscall_access : (master replica : Side) → M (Unit {0})
  exec_syscall_access m r = do
    check (same_arg m r 1)
    same ← same_path m r 0
    require same
    ignore (run_master_replicate_ret k m r)

  unfoldable pub exec_syscall_chdir : (master replica : Side) → M (Unit {0})
  exec_syscall_chdir m r = do same ← same_path m r 0; require same; resume_both m r

  -- The paths are compared also where the sizes differ.
  unfoldable pub exec_syscall_getcwd : (master replica : Side) → M (Unit {0})
  exec_syscall_getcwd m r = do
    same ← same_path m r 0
    check λ w. same && same_arg m r 1 w
    resume_both m r

  -- A mode of 0 in the master is not compared.
  unfoldable pub exec_syscall_openat : (master replica : Side) → M (Unit {0})
  exec_syscall_openat m r = do
    check λ w.
        same_arg m r 0 w && same_arg m r 2 w && ((arg (variant m w) 3 == 0) || same_arg m r 3 w)
    path_m ← arg_of m 1
    path_r ← arg_of r 1
    same ← variant_str_cmp k m path_m r path_r
    require same
    run_both_copy_master_ret k m r

  unfoldable pub exec_syscall_unlink : (master replica : Side) → M (Unit {0})
  exec_syscall_unlink m r = do same ← same_path m r 0; require same; run_master_replicate_ret k m r

  unfoldable pub exec_syscall_utimensat : (master replica : Side) → M (Unit {0})
  exec_syscall_utimensat m r = do
    check (same_arg m r 0)
    same ← same_path m r 1
    require same
    check (same_arg m r 3)
    run_master_replicate_ret k m r

  -- The loop over the master's path: the length that it finds. It ends at a length below `cur_size`
  -- (a terminator was read) or at the buffer's size; every other round adds 50.
  unfoldable pub stat_path_loop : Side → Addr → (fuel cur_size string_len : ℕ) → M ℕ
  stat_path_loop m path zero cur_size string_len w = ok string_len w
  stat_path_loop m path (suc fuel) cur_size string_len w =
      let next = or_else (0, w.stat_buf_a) (read_variant_mem k m w.stat_buf_a path cur_size) w in
      let round : Outcome ℕ = and_then next λ (_, buf) v.
        let w' = record v { stat_buf_a = buf } in
        let len = strnlen buf 0 cur_size in
        let again = stat_path_loop m path fuel (cur_size + 50) len w' in
        if len == newfstatat_buf_size
        then failed w'
        else (if len == cur_size then again else ok len w') in
      if ltb cur_size newfstatat_buf_size then round else ok string_len w

  -- The comparison of the paths, over the length of the master's.
  unfoldable pub stat_paths_equal : (master replica : Side) → M Bool
  stat_paths_equal m r = do
    path_m ← arg_of m 1
    path_r ← arg_of r 1
    len ← stat_path_loop m path_m newfstatat_buf_size 1 0
    local ← gets λ w. w.stat_buf_b
    (_, buf) ← or_else (0, local) (read_variant_mem k r local path_r len)
    modify λ w. record w { stat_buf_b = buf }
    gets λ w. strncmp_eq w.stat_buf_a w.stat_buf_b 0 len

  -- The master runs the call, and the replica is given its `struct stat` and its result.
  unfoldable pub exec_syscall_newfstatat : (master replica : Side) → M (Unit {0})
  exec_syscall_newfstatat m r = do
    check (same_arg m r 0)
    same ← stat_paths_equal m r
    check λ w. same && same_arg m r 3 w
    buf_m ← arg_of m 2
    buf_r ← arg_of r 2
    resume_variant_from_wait m
    wait_variant k m
    request_syscall_info k m
    master_ret ← gets λ w. to_int (rval (variant m w))
    transfer_variant_mem k m buf_m r buf_r sizeof_stat
    set_nop_syscall r
    resume_variant_from_wait r
    wait_variant k r
    set_syscall_return_value r master_ret
    resume_variant_from_exit m
    resume_variant_from_exit r
