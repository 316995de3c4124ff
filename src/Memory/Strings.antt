-- ===== src/Memory/Strings.antt =====
-- Comparing strings of the two variants: `variantStrCmp` of Monitor/src/variant.c.
use aurora_mvee.Base.{
  ℕ, zero, suc, ◌+◌, ◌≤◌, ◌<◌, ◌≡◌, refl, sym, ◌∙◌, subst, arith, true, ◌==◌, ltb, Bool-cases, inl,
  inr, ◌*◌,
}
use aurora_mvee.Words.{u64_mod}
use aurora_mvee.Kernel.{Addr, Kernel}
use aurora_mvee.World.{World, Buf, Side, variant}
use aurora_mvee.World.Monad.{failed, monad}
use aurora_mvee.Memory.{buf_size, memset_zero, strnlen, read_into_a, str_cmp_loop, variant_str_cmp}
use aurora_mvee.Memory.Read.{Readable, read_variant_mem-Copied}

-- A NUL bounds what strnlen returns.
strnlen_le : (buf : Buf) (i size n : ℕ) → n < size → buf (i + n) ≡ 0 → strnlen buf i size ≤ n
unfolding strnlen
strnlen_le buf i zero n lt nul = absurd (omega arith)
strnlen_le buf i (suc size) zero lt nul = ground (arith, nul)
strnlen_le buf i (suc size) (suc n) lt nul =
    ground (
      arith,
      strnlen_le buf (suc i) size n (omega arith) (subst (λ j. buf j ≡ 0) (omega arith) nul),
    )

module _ (k : Kernel) (v1 : Side) (v1_buf : Addr) (mem : ℕ → ℕ) (n : ℕ) (room : n + 100 < buf_size)
    (fits : v1_buf + n + 107 < u64_mod) (nul : mem (v1_buf + n) ≡ 0) where
  buf_a-pid :
      (w : World) (buf : Buf) → (variant v1 (record w { buf_a = buf })).pid ≡ (variant v1 w).pid
  buf_a-pid w buf = ground arith

  -- Where the buffer is full of bytes of the string, its terminator has not been read.
  no_end :
      (buf : Buf) (cur : ℕ)
      → ((j : ℕ) → j < cur → buf j ≡ mem (v1_buf + j))
      → (strnlen buf 0 cur == cur) ≡ true
      → cur ≤ n
  no_end buf cur copied all = elim (Bool-cases (ltb n cur)) [
    | inl ends ↦
        let lt : n < cur = ground (arith, ends) in
        let bound =
          strnlen_le buf 0 cur n lt (subst (λ j. buf j ≡ 0) (omega arith) (copied n lt ∙ nul)) in
        ground (arith, all, bound, lt)
    | inr goes_on ↦ ground (arith, goes_on)
  ]

  -- A round ends the loop with -1, or goes on while the size is no more than the string's.
  str_cmp_loop-fails :
      (fuel cur string_len : ℕ) (w : World)
      → Readable k w.trace (variant v1 w).pid mem v1_buf (v1_buf + n + 107)
      → cur ≤ n + 100
      → n + 100 < cur + 100 * fuel
      → (buf : Buf) × (str_cmp_loop k v1 v1_buf fuel cur string_len w
          ≡ failed (record w { buf_a = buf }))
  unfolding str_cmp_loop read_into_a monad
  str_cmp_loop-fails zero cur string_len w readable low enough = absurd (omega arith)
  str_cmp_loop-fails (suc fuel) cur string_len w readable low enough =
      let (buf, read, copied) =
        read_variant_mem-Copied k v1 w mem w.buf_a v1_buf cur (omega arith)
          (λ a i above below lt. readable a i above (omega arith) lt) (omega arith) in
      let inside : ltb cur buf_size ≡ true = ground arith in
      elim (Bool-cases (strnlen buf 0 cur == buf_size)) [
        | inl full ↦ (buf, rw (inside, read, full) refl)
        | inr not_full ↦ elim (Bool-cases (strnlen buf 0 cur == cur)) [
          | inl all ↦
              let longer : cur ≤ n = no_end buf cur copied all in
              let (last, e) =
                str_cmp_loop-fails fuel (cur + 100) (strnlen buf 0 cur) (record w { buf_a = buf })
                  (subst (λ p. Readable k w.trace p mem v1_buf (v1_buf + n + 107))
                    (sym (buf_a-pid w buf)) readable)
                  (omega arith) (omega arith) in
              (last, rw (inside, read, not_full, all) e)
          | inr part ↦ (buf, rw (inside, read, not_full, part) refl)
        ]
      ]

  -- A string that a variant has readable at an address, which ends more than 100 bytes before the end
  -- of a local buffer, is never found equal to any string: `variantStrCmp` returns -1, and it
  -- makes no request. The variant's memory is readable for 107 bytes beyond the terminator.
  pub variant_str_cmp-fails :
      (v2 : Side) (v2_buf : Addr) (w : World)
      → Readable k w.trace (variant v1 w).pid mem v1_buf (v1_buf + n + 107)
      → (w' : World) × (variant_str_cmp k v1 v1_buf v2 v2_buf w ≡ failed w') × (w'.trace ≡ w.trace)
  unfolding variant_str_cmp monad
  variant_str_cmp-fails v2 v2_buf w readable =
      let cleared : World = record w { buf_a = memset_zero w.buf_a; buf_b = memset_zero w.buf_b } in
      let same_pid : (variant v1 cleared).pid ≡ (variant v1 w).pid = ground arith in
      let (buf, e) =
        str_cmp_loop-fails buf_size 100 0 cleared
          (subst (λ p. Readable k w.trace p mem v1_buf (v1_buf + n + 107)) (sym same_pid) readable)
          (omega arith) (omega arith) in
      (record cleared { buf_a = buf }, rw e refl, refl)
