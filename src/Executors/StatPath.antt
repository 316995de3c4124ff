-- ===== src/Executors/StatPath.antt =====
-- The paths that newfstatat.c of Monitor/src/sys compares.
use aurora_mvee.Base.{
  ℕ, zero, suc, ◌+◌, ◌*◌, ◌≤◌, ◌<◌, ◌≡◌, ◌↔◌, refl, sym, ◌∙◌, subst, Bool, true, false, arith, ltb,
  ◌==◌, Bool-cases, inl, inr,
}
use aurora_mvee.Words.{u64_mod}
use aurora_mvee.Kernel.{Addr, Kernel}
use aurora_mvee.World.{World, Buf, first, second, arg}
use aurora_mvee.World.Monad.{ok, monad}
use aurora_mvee.Memory.{strnlen, strncmp_eq}
use aurora_mvee.Memory.Read.{Readable, read_variant_mem-Copied}
use aurora_mvee.Memory.Terminated.{NoNul, strnlen-NoNul, strnlen-first_nul, strncmp_eq-from_zero}
use aurora_mvee.Memory.Compare.{Agrees}
use aurora_mvee.Executors.Args.{arg_of}
use aurora_mvee.Executors.Paths.{newfstatat_buf_size, stat_path_loop, stat_paths_equal}

-- A string of `n` bytes stands at the address, with its terminator behind it.
pub record StringAt (mem : ℕ → ℕ) (a n : ℕ) : Type 0 where
  pub bytes : NoNul mem a n
  pub nul : mem (a + n) ≡ 0

module _ (k : Kernel) (mem : ℕ → ℕ) (path : Addr) (n : ℕ) (string : StringAt mem path n)
    (room : n + 51 < newfstatat_buf_size) (bound : path + n + 57 < u64_mod) where
  -- A state that has nothing but the first buffer changed.
  abbrev buffered : World → Buf → World
  buffered w buf = record w { stat_buf_a = buf }

  -- The length of the string in the buffer that a round has read.
  in_buffer :
      (buf : Buf) (size : ℕ)
      → ((j : ℕ) → j < size → buf j ≡ mem (path + j))
      → n < size
      → strnlen buf 0 size ≡ n
  in_buffer buf size copied lt =
      strnlen-first_nul buf 0 size n lt
        (λ j below e.
          string.bytes j below
            (sym (copied j (omega arith)) ∙ subst (λ x. buf x ≡ 0) (omega arith) e))
        (subst (λ x. buf x ≡ 0) (omega arith) (copied n lt ∙ string.nul))

  not_in_buffer :
      (buf : Buf) (size : ℕ)
      → ((j : ℕ) → j < size → buf j ≡ mem (path + j))
      → size ≤ n
      → strnlen buf 0 size ≡ size
  not_in_buffer buf size copied le = strnlen-NoNul buf 0 size λ j below e.
      string.bytes j (omega arith) (sym (copied j below) ∙ subst (λ x. buf x ≡ 0) (omega arith) e)

  -- Any fuel that is enough for the rounds gives the string's length, and the string in the buffer.
  stat_path_loop-length :
      (fuel cur string_len : ℕ) (w : World)
      → Readable k w.trace w.master.pid mem path (path + n + 57)
      → cur ≤ n + 50
      → n + 50 < cur + 50 * fuel
      → (buf : Buf) × (stat_path_loop k first path fuel cur string_len w
          ≡ ok n (record w { stat_buf_a = buf }))
        × ((j : ℕ) → j < n → buf j ≡ mem (path + j))
  unfolding stat_path_loop monad
  stat_path_loop-length zero cur string_len w readable low enough = absurd (omega arith)
  stat_path_loop-length (suc fuel) cur string_len w readable low enough =
      let (buf, read, copied) =
        read_variant_mem-Copied k first w mem w.stat_buf_a path cur (omega arith)
          (λ a i above below lt. readable a i above (omega arith) lt) (omega arith) in
      let inside : ltb cur newfstatat_buf_size ≡ true = ground arith in
      elim (Bool-cases (ltb n cur)) [
        | inl found ↦
            let length = in_buffer buf cur copied (ground (arith, found)) in
            let not_all : (n == cur) ≡ false = ground (arith, found) in
            let not_full : (n == newfstatat_buf_size) ≡ false = ground arith in
            (
              buf,
              rw (inside, read, length, not_full, not_all) refl,
              λ j lt. copied j (ground (arith, found)),
            )
        | inr longer ↦
            let length = not_in_buffer buf cur copied (ground (arith, longer)) in
            let all : (strnlen buf 0 cur == cur) ≡ true = ground (arith, length) in
            let not_full : (strnlen buf 0 cur == newfstatat_buf_size) ≡ false =
              ground (arith, length) in
            let (last, e, stands) =
              stat_path_loop-length fuel (cur + 50) (strnlen buf 0 cur) (buffered w buf) readable
                (ground (arith, longer)) (omega arith) in
            (last, rw (inside, read, not_full, all) e, stands)
      ]

-- Any fuel that lets the loop reach the end of the master's path ends it in the same way: it returns
-- the length of the path, and only the buffer has changed, which begins with the path. Each round
-- needs one unit, and adds 50 bytes. The path leaves room for 51 bytes in the buffer, and it is readable for
-- 57 bytes beyond its end.
pub stat_path_loop-StringAt :
    (k : Kernel) (mem : ℕ → ℕ) (path n fuel string_len : ℕ) (w : World)
    → StringAt mem path n
    → n + 51 < newfstatat_buf_size
    → path + n + 57 < u64_mod
    → Readable k w.trace w.master.pid mem path (path + n + 57)
    → n + 49 < 50 * fuel
    → (buf : Buf) × (stat_path_loop k first path fuel 1 string_len w
        ≡ ok n (record w { stat_buf_a = buf }))
      × ((j : ℕ) → j < n → buf j ≡ mem (path + j))
stat_path_loop-StringAt k mem path n fuel string_len w string room bound readable enough =
    stat_path_loop-length k mem path n string room bound fuel 1 string_len w readable (omega arith)
      (omega arith)

-- What the comparison leaves in its buffers, and when it finds the paths equal.
pub stat_paths_equal-buffered :
    (k : Kernel) (mem_m mem_r : ℕ → ℕ) (n : ℕ) (w : World)
    → StringAt mem_m (arg w.master 1) n
    → n + 51 < newfstatat_buf_size
    → arg w.master 1 + n + 57 < u64_mod
    → Readable k w.trace w.master.pid mem_m (arg w.master 1) (arg w.master 1 + n + 57)
    → arg w.replica 1 + n + 7 < u64_mod
    → Readable k w.trace w.replica.pid mem_r (arg w.replica 1) (arg w.replica 1 + n + 7)
    → (equal : Bool) × (a : Buf) × (b : Buf) × (stat_paths_equal k first second w
        ≡ ok equal (record w { stat_buf_a = a; stat_buf_b = b }))
      × ((equal ≡ true) ↔ Agrees mem_m (arg w.master 1) mem_r (arg w.replica 1) n)
unfolding stat_paths_equal arg_of monad
stat_paths_equal-buffered k mem_m mem_r n w string room bound_m readable_m bound_r readable_r =
    let path_m = arg w.master 1 in
    let path_r = arg w.replica 1 in
    let (a, length, copied_a) =
      stat_path_loop-StringAt k mem_m path_m n newfstatat_buf_size 0 w string room bound_m
        readable_m (omega arith) in
    let w1 : World = record w { stat_buf_a = a } in
    let (b, read, copied_b) =
      read_variant_mem-Copied k second w1 mem_r w.stat_buf_b path_r n (omega arith) readable_r
        bound_r in
    let compares =
      strncmp_eq-from_zero a b n λ j lt e. string.bytes j lt (sym (copied_a j lt) ∙ e) in
    (
      strncmp_eq a b 0 n,
      a,
      b,
      rw (length, read) refl,
      (
        λ e j lt. sym (copied_a j lt) ∙ compares.0 e j lt ∙ copied_b j lt,
        λ same. compares.1 λ j lt. copied_a j lt ∙ same j lt ∙ sym (copied_b j lt),
      ),
    )

-- The paths of newfstatat are found equal exactly if they agree over the length of the master's path:
-- the replica's path may go on behind it. The comparison makes no request. The master's path is as
-- above, and the replica has as many bytes readable, and a word more.
stat_paths_equal-Agrees :
    (k : Kernel) (mem_m mem_r : ℕ → ℕ) (n : ℕ) (w : World)
    → StringAt mem_m (arg w.master 1) n
    → n + 51 < newfstatat_buf_size
    → arg w.master 1 + n + 57 < u64_mod
    → Readable k w.trace w.master.pid mem_m (arg w.master 1) (arg w.master 1 + n + 57)
    → arg w.replica 1 + n + 7 < u64_mod
    → Readable k w.trace w.replica.pid mem_r (arg w.replica 1) (arg w.replica 1 + n + 7)
    → (equal : Bool) × (w' : World) × (stat_paths_equal k first second w ≡ ok equal w')
      × (w'.trace ≡ w.trace)
      × ((equal ≡ true) ↔ Agrees mem_m (arg w.master 1) mem_r (arg w.replica 1) n)
stat_paths_equal-Agrees k mem_m mem_r n w string room bound_m readable_m bound_r readable_r =
    let (equal, a, b, returns, agrees) =
      stat_paths_equal-buffered k mem_m mem_r n w string room bound_m readable_m bound_r
        readable_r in
    (equal, record w { stat_buf_a = a; stat_buf_b = b }, returns, refl, agrees)
