-- ===== src/Memory/Stored.antt =====
-- What writeVariantMem of Monitor/src/variant.c stores, for sizes of every kind.
use aurora_mvee.Base.{
  ℕ, ◌+◌, ◌-◌, ◌*◌, ◌%◌, ◌^◌, ◌<◌, ◌≡◌, ◌∙◌, not, ◌&&◌, arith, ltb, leb, ◌==◌, if◌then◌else◌,
  Bool-cases, inl, inr,
}
use aurora_mvee.Words.{u64_mod}
use aurora_mvee.Kernel.{Kernel, Addr}
use aurora_mvee.World.{World, Buf, Side, variant}
use aurora_mvee.World.Monad.{ok}
use aurora_mvee.Memory.{write_variant_mem}
use aurora_mvee.Memory.Read.{Readable}
use aurora_mvee.Memory.Write.{IsBytes, memory, write_variant_mem-Written}
use aurora_mvee.Memory.Short.{write_variant_mem-short}
use aurora_mvee.Memory.Tail.{write_variant_mem-tail}

-- The offset in the local buffer of the byte that comes to the offset `j` of the range: `j` itself, but
-- for the last eight bytes of a range of more than a word that ends inside a word.
abbrev pub origin : (size j : ℕ) → ℕ
origin size j =
    if (leb 8 size && not (size % 8 == 0)) && leb (size - 8) j
    then 8 * (size - 8) + (j - (size - 8))
    else j

-- The memory of the variant after a write, byte by byte.
abbrev pub Stored : Side → (mem : ℕ → ℕ) → Buf → Addr → ℕ → (w w' : World) → Type 0
Stored s mem local remote size w w' =
    (x : ℕ)
    → memory s mem w' x ≡ (
        if leb remote x && ltb x (remote + size)
        then local (origin size (x - remote))
        else memory s mem w x)

module _ (k : Kernel) (s : Side) (mem : ℕ → ℕ) (local : Buf) (remote size : ℕ) (w : World) where
  -- Every write of less than 2 ^ 63 bytes ends and returns the size. Afterwards the variant's memory has
  -- the bytes of the local buffer in the range, and is unchanged everywhere else; but for a size that
  -- is above a word and no multiple of it, the last eight bytes of the range come from the offset
  -- 8 * (size - 8) of the buffer in place of size - 8. The buffer holds bytes, neither the range nor
  -- its first word runs over the end of the address space, and the first word is readable if the
  -- size is less than a word.
  pub write_variant_mem-Stored :
      (bytes : IsBytes local)
      → size < 2 ^ 63
      → remote + size < u64_mod
      → remote + 8 < u64_mod
      → (size < 8 → Readable k w.trace (variant s w).pid (memory s mem w) remote (remote + 8))
      → (w' : World) × (write_variant_mem k s local remote size w ≡ ok size w')
        × Stored s mem local remote size w w'
  write_variant_mem-Stored bytes fits bound first_word readable = elim (Bool-cases (ltb size 8)) [
    | inl short ↦
        let (w', returns, written) =
          write_variant_mem-short k s mem local remote size w bytes (ground (arith, short))
            first_word (readable (ground (arith, short))) in
        (w', returns, λ x. written x ∙ ground (arith, short))
    | inr long ↦ elim (Bool-cases (size % 8 == 0)) [
      | inl aligned ↦
          let (w', returns, written) =
            write_variant_mem-Written k s mem local remote size w bytes (ground (arith, aligned))
              (ground (arith, long)) fits bound in
          (w', returns, λ x. written x ∙ ground (arith, aligned))
      | inr partial ↦
          let (w', returns, written) =
            write_variant_mem-tail k s mem local remote size w bytes (ground (arith, partial))
              (ground (arith, long)) fits bound in
          (w', returns, λ x. written x ∙ ground (arith, partial, long))
    ]
  ]
