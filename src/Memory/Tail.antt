-- ===== src/Memory/Tail.antt =====
-- The last, partial word of a write: `writeVariantMem` of Monitor/src/variant.c.
use aurora_mvee.Base.{
  ℕ, zero, suc, ◌+◌, ◌-◌, ◌*◌, ◌/◌, ◌%◌, ◌^◌, ◌≤◌, ◌<◌, ◌≡◌, ◌≢◌, refl, ap, ◌∙◌, true, false, arith,
  ltb, leb, ◌==◌, ◌&&◌, if◌then◌else◌, Bool-cases, inl, inr,
}
use aurora_mvee.Words.{word_size, u64_mod}
use aurora_mvee.Kernel.{Addr, Kernel}
use aurora_mvee.World.{World, Buf, Side}
use aurora_mvee.World.Monad.{ok}
use aurora_mvee.Memory.{load_word, poke, write_loop, write_variant_mem}
use aurora_mvee.Memory.Write.{IsBytes, memory, Written, poke-memory, poke-Written, load_word-byte}

module _ (s : Side) (mem : ℕ → ℕ) (local : Buf) (bytes : IsBytes local) (remote : Addr) (w : World)
    (size : ℕ) (bound : remote + size < u64_mod) where
  -- The loop ends with the partial word, which is the last that it writes, behind the whole ones.
  write_loop-poke :
      (fuel remaining n : ℕ) (u : World)
      → remaining ≤ fuel
      → n % 8 ≡ 0
      → remaining % 8 ≢ 0
      → n + remaining ≡ size
      → Written s mem local bytes remote w n u
      → (v : World) × (m : ℕ) × (write_loop s local remote size fuel remaining n u
          ≡ (size, poke s (remote + size - word_size) (load_word local (size - word_size)) v))
        × (m < size)
        × (size < m + 8)
        × Written s mem local bytes remote w m v
  unfolding write_loop
  write_loop-poke zero remaining n u enough aligned partial sum h = absurd (partial (omega arith))
  write_loop-poke (suc fuel) remaining n u enough aligned partial sum h =
      let more : (remaining == 0) ≡ false = ground (arith, partial) in
      elim (Bool-cases (leb word_size remaining)) [
        | inl long ↦
            let (v, m, e, below, near, written) =
              write_loop-poke fuel (remaining - word_size) (n + word_size)
                (poke s (remote + n) (load_word local (n / word_size)) u) (ground arith)
                (omega arith) (ground (arith, partial)) (ground arith)
                (poke-Written s mem local bytes remote w n u aligned (ground arith) h) in
            (v, m, rw (more, long) e, below, near, written)
        | inr last ↦ (
          u,
          n,
          rw (more, last)
              (ap
                (λ c.
                  (c, poke s (remote + size - word_size) (load_word local (size - word_size)) u))
                sum),
          ground (arith, more),
          ground (arith, last),
          h,
        )
      ]

-- A size of at least one word and less than 2 ^ 63 bytes that is no multiple of the word is reported
-- as written whole, but the last eight bytes that are written, at the end of the range, are those
-- that stand at the offset 8 * (size - 8) of the local buffer, and not at size - 8. The bytes of the
-- range before them are those of the local buffer, and the variant's memory is unchanged everywhere
-- else. The buffer holds bytes, and the write does not run over the end of the address space.
pub write_variant_mem-tail :
    (k : Kernel) (s : Side) (mem : ℕ → ℕ) (local : Buf) (remote size : ℕ) (w : World)
    → IsBytes local
    → size % 8 ≢ 0
    → 8 ≤ size
    → size < 2 ^ 63
    → remote + size < u64_mod
    → (w' : World) × (write_variant_mem k s local remote size w ≡ ok size w')
      × ((x : ℕ)
          → memory s mem w' x ≡ (
              if leb (remote + size - 8) x && ltb x (remote + size)
              then local (8 * (size - 8) + (x - (remote + size - 8)))
              else (if leb remote x && ltb x (remote + size)
                  then local (x - remote)
                  else memory s mem w x)))
unfolding write_variant_mem
write_variant_mem-tail k s mem local remote size w bytes partial long fits bound =
    let (v, m, e, below, near, written) =
      write_loop-poke s mem local bytes remote w size bound size size 0 w (omega arith)
        (omega arith) partial (omega arith) (λ x. ground arith) in
    let not_short : ltb size word_size ≡ false = ground arith in
    let positive : ltb size (2 ^ 63) ≡ true = ground arith in
    let last_word = load_word local (size - 8) in
    let at_end = remote + size - 8 in
    (
      poke s at_end last_word v,
      rw (not_short, positive, e) refl,
      λ x.
          poke-memory s at_end last_word mem v x (omega arith)
          ∙ ground (arith, load_word-byte local (size - 8) (x - at_end) bytes, written x),
    )
