-- ===== src/Memory/Read.antt =====
-- Reading a variant's memory: `readVariantMem` of Monitor/src/variant.c.
use aurora_mvee.Base.{
  subst, ℕ, zero, suc, ◌+◌, ◌-◌, ◌/◌, ◌%◌, ◌≤◌, ◌<◌, ◌≡◌, refl, sym, ap, ◌∙◌, false, arith, ltb,
  ◌==◌, Bool-cases, inl, inr,
}
use aurora_mvee.Words.{wrap, word_size, u64_mod}
use aurora_mvee.Words.Bytes.{byte}
use aurora_mvee.Kernel.{Pid, Addr, Trace, Kernel}
use aurora_mvee.World.{World, Buf, Side, variant}
use aurora_mvee.World.Monad.{ok}
use aurora_mvee.Memory.{buf_size, store_word, read_loop, read_variant_mem}

-- The memory of a tracee between two addresses: each word that PTRACE_PEEKDATA returns there has the
-- bytes that lie at its address.
abbrev pub Readable : Kernel → Trace → Pid → (ℕ → ℕ) → Addr → Addr → Type 0
Readable k t p mem lo hi =
    (a i : ℕ) → lo ≤ a → a + word_size ≤ hi → i < word_size → byte (k.peek t p a) i ≡ mem (a + i)

-- What the loop has read after `transferred` bytes.
abbrev Copied : (ℕ → ℕ) → Addr → ℕ → Buf → Type 0
Copied mem remote n buf = (j : ℕ) → j < n → buf j ≡ mem (remote + j)

pub read_loop-zero :
    (k : Kernel) (t : Trace) (p : Pid) (remote : Addr) (fuel transferred : ℕ) (buf : Buf)
    → read_loop k t p remote fuel 0 transferred buf ≡ (transferred, buf)
unfolding read_loop
read_loop-zero k t p remote zero transferred buf = refl
read_loop-zero k t p remote (suc fuel) transferred buf = refl

module _ (k : Kernel) (t : Trace) (p : Pid) (mem : ℕ → ℕ) (remote hi : Addr)
    (readable : Readable k t p mem remote hi) (bound : hi < u64_mod) where
  round-Copied :
      (n : ℕ) (buf : Buf)
      → n % 8 ≡ 0
      → remote + n + 8 ≤ hi
      → Copied mem remote n buf
      → Copied mem remote (n + 8) (store_word buf (n / word_size) (k.peek t p (wrap (remote + n))))
  unfolding store_word wrap
  round-Copied n buf aligned fits h j lt = ground (arith, h j, readable (remote + n) (j - n))

  abbrev Reads : ℕ → ℕ × Buf → Type 0
  Reads n r = (r.0 ≡ n) × Copied mem remote n r.1

  read_loop-Reads :
      (fuel remaining n : ℕ) (buf : Buf)
      → remaining ≤ fuel
      → n % 8 ≡ 0
      → remote + n + remaining + 7 ≤ hi
      → Copied mem remote n buf
      → Reads (n + remaining) (read_loop k t p remote fuel remaining n buf)
  unfolding read_loop
  read_loop-Reads zero remaining n buf enough aligned fits h =
      (omega arith, λ j lt. h j (omega arith))
  read_loop-Reads (suc fuel) remaining n buf enough aligned fits h =
      elim (Bool-cases (remaining == 0)) [
        | inl done ↦ rw done (ground arith, λ j lt. h j (ground arith))
        | inr more ↦ rw more (elim (Bool-cases (ltb word_size remaining)) [
          | inl long ↦ rw long (
              let (count, copied) =
                read_loop-Reads fuel (remaining - word_size) (n + word_size) _ (ground arith)
                  (omega arith) (ground arith) (round-Copied n buf aligned (ground arith) h) in
              (ground (arith, count), λ j lt. copied j (ground arith)))
          | inr last ↦ rw last (
              subst (Reads (n + remaining))
                (sym (
                  ap
                    (λ r.
                      read_loop k t p remote fuel r (n + remaining)
                        (store_word buf (n / word_size) (k.peek t p (wrap (remote + n)))))
                    (omega arith)
                  ∙ read_loop-zero k t p remote fuel (n + remaining) _))
                (refl, λ j lt. round-Copied n buf aligned (ground arith) h j (ground arith)))
        ])
      ]

-- Up to BUF_SIZE bytes are read whole: the loop ends, `readVariantMem` returns the size, afterwards the
-- local buffer begins with the bytes of the variant's memory, and the state is left as it was. The
-- memory is readable for a word beyond the last byte, since whole words are read, and does not run
-- over the end of the address space there.
pub read_variant_mem-Copied :
    (k : Kernel) (s : Side) (w : World) (mem : ℕ → ℕ) (local : Buf) (remote size : ℕ)
    → size ≤ buf_size
    → Readable k w.trace (variant s w).pid mem remote (remote + size + 7)
    → remote + size + 7 < u64_mod
    → (buf : Buf) × (read_variant_mem k s local remote size w ≡ ok (size, buf) w)
      × ((j : ℕ) → j < size → buf j ≡ mem (remote + j))
unfolding read_variant_mem
read_variant_mem-Copied k s w mem local remote size fits readable bound =
    let loop = read_loop k w.trace (variant s w).pid remote size size 0 local in
    let (count, copied) =
      read_loop-Reads k w.trace (variant s w).pid mem remote (remote + size + 7) readable bound size
        size 0 local (omega arith) (omega arith) (omega arith) (λ j lt. absurd (omega arith)) in
    let small : ltb buf_size size ≡ false = ground arith in
    (
      loop.1,
      rw small (ap (λ n. ok (n, loop.1) w) (omega (arith, count))),
      λ j lt. copied j (omega arith),
    )
