-- ===== src/Memory/Bounds.antt =====
-- Which bytes of the monitor a read writes: `readVariantMem` of Monitor/src/variant.c.
use aurora_mvee.Base.{
  ℕ, zero, suc, ◌+◌, ◌-◌, ◌*◌, ◌/◌, ◌%◌, ◌≤◌, ◌<◌, ◌≡◌, refl, ap, ◌∙◌, false, arith, ltb, ◌==◌,
  Bool-cases, inl, inr,
}
use aurora_mvee.Words.{wrap, word_size, u64_mod}
use aurora_mvee.Kernel.{Pid, Addr, Trace, Kernel}
use aurora_mvee.World.{World, Buf, Side, variant}
use aurora_mvee.World.Monad.{Outcome, ok, failed, blocked, terminated}
use aurora_mvee.Memory.{buf_size, chunk, store_word, read_loop, read_variant_mem}
use aurora_mvee.Memory.Read.{Readable, read_loop-zero}

store_word-outside :
    (buf : Buf) (i v j bound : ℕ) → 8 * i + 8 ≤ bound → bound ≤ j → store_word buf i v j ≡ buf j
unfolding store_word
store_word-outside buf i v j bound fits out = ground arith

-- The loop writes whole words, the last of which may lie partly behind the last byte.
read_loop-outside :
    (k : Kernel) (t : Trace) (p : Pid) (remote : Addr) (fuel remaining n bound j : ℕ) (buf : Buf)
    → (0 < remaining → n % 8 ≡ 0)
    → bound % 8 ≡ 0
    → n + remaining ≤ bound
    → bound ≤ j
    → (read_loop k t p remote fuel remaining n buf).1 j ≡ buf j
unfolding read_loop
read_loop-outside k t p remote zero remaining n bound j buf an ab fits out = refl
read_loop-outside k t p remote (suc fuel) remaining n bound j buf an ab fits out =
    elim (Bool-cases (remaining == 0)) [
      | inl done ↦ rw done refl
      | inr more ↦
          let aligned : n % 8 ≡ 0 = an (ground (arith, more)) in
          rw more (
            read_loop-outside k t p remote fuel (remaining - chunk remaining) (n + chunk remaining)
              bound j (store_word buf (n / word_size) (k.peek t p (wrap (remote + n))))
              (λ left. ground (arith, left, aligned)) ab (ground arith) out
            ∙ store_word-outside buf (n / word_size) (k.peek t p (wrap (remote + n))) j bound
                (ground (arith, more)) out)
    ]

-- The bytes of the local buffer from `bound` on are what they were.
abbrev pub LeavesFrom : ℕ → Buf → Outcome (ℕ × Buf) → Type 0
LeavesFrom bound local (ok (count, buf) w) = (j : ℕ) → bound ≤ j → buf j ≡ local j
LeavesFrom bound local (failed w) = Unit
LeavesFrom bound local (blocked w) = Unit
LeavesFrom bound local (terminated w) = Unit

-- A read of any size, from any address, writes nothing behind the words that its bytes lie in, and
-- nothing behind BUF_SIZE bytes.
pub read_variant_mem-LeavesFrom :
    (k : Kernel) (s : Side) (local : Buf) (remote size : ℕ) (w : World)
    → LeavesFrom ((size + 7) / 8 * 8) local (read_variant_mem k s local remote size w)
      × LeavesFrom buf_size local (read_variant_mem k s local remote size w)
unfolding read_variant_mem
read_variant_mem-LeavesFrom k s local remote size w = elim (Bool-cases (ltb buf_size size)) [
  | inl large ↦ rw large (tt, tt)
  | inr fits ↦ rw fits (
    λ j out.
        read_loop-outside k w.trace (variant s w).pid remote size size 0 ((size + 7) / 8 * 8) j
          local (λ _. omega arith) (omega arith) (omega arith) out,
    λ j out.
        read_loop-outside k w.trace (variant s w).pid remote size size 0 buf_size j local
          (λ _. omega arith) (omega arith) (ground (arith, fits)) out,
  )
]

-- One round reads all of a size below the word.
read_loop-short :
    (k : Kernel) (t : Trace) (p : Pid) (remote : Addr) (fuel size : ℕ) (buf : Buf)
    → 0 < size
    → size < 8
    → read_loop k t p remote (suc fuel) size 0 buf
      ≡ (size, store_word buf 0 (k.peek t p (wrap (remote + 0))))
unfolding read_loop
read_loop-short k t p remote fuel size buf some_byte short =
    let more : (size == 0) ≡ false = ground (arith, some_byte) in
    let one : ltb word_size size ≡ false = ground (arith, short) in
    let rest : size - size ≡ 0 = omega arith in
    let none_before : 0 + size ≡ size = omega arith in
    rw (more, one, rest, none_before)
      (read_loop-zero k t p remote fuel size (store_word buf 0 (k.peek t p (wrap (remote + 0)))))

-- A read of one to seven bytes stores a whole word: all eight bytes of the local buffer are those of
-- the variant's memory, also the ones behind the size that was asked for. The word is readable.
pub read_variant_mem-whole_word :
    (k : Kernel) (s : Side) (mem : ℕ → ℕ) (local : Buf) (remote size : ℕ) (w : World)
    → 0 < size
    → size < 8
    → Readable k w.trace (variant s w).pid mem remote (remote + 8)
    → remote + 8 < u64_mod
    → (buf : Buf) × (read_variant_mem k s local remote size w ≡ ok (size, buf) w)
      × ((j : ℕ) → j < 8 → buf j ≡ mem (remote + j))
unfolding read_variant_mem store_word wrap
read_variant_mem-whole_word k s mem local remote zero w some_byte short readable bound =
    absurd (omega arith)
read_variant_mem-whole_word k s mem local remote (suc size) w some_byte short readable bound =
    let t = w.trace in
    let p = (variant s w).pid in
    let fits : ltb buf_size (suc size) ≡ false = ground (arith, short) in
    (
      store_word local 0 (k.peek t p (wrap (remote + 0))),
      rw fits
          (ap (λ r. ok r w) (read_loop-short k t p remote size (suc size) local some_byte short)),
      λ j lt. ground (arith, readable remote j (omega arith) (omega arith) lt),
    )
