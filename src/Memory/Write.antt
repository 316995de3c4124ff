-- ===== src/Memory/Write.antt =====
-- Writing a variant's memory: `writeVariantMem` of Monitor/src/variant.c.
use aurora_mvee.Base.{
  ℕ, zero, suc, ◌+◌, ◌-◌, ◌*◌, ◌/◌, ◌%◌, ◌^◌, ◌≤◌, ◌<◌, ◌≡◌, ap, ◌∙◌, subst, true, false, [], ◌∷◌,
  arith, ltb, leb, ◌&&◌, ◌==◌, if◌then◌else◌, Bool-cases, inl, inr,
}
use aurora_mvee.Words.{wrap, word_size, u64_mod}
use aurora_mvee.Words.Bytes.{byte, byte-word}
use aurora_mvee.Kernel.{Pid, Addr, Trace, Kernel, poke_data, vm_write}
use aurora_mvee.World.{World, Buf, Side, first, second, variant}
use aurora_mvee.World.Monad.{ok}
use aurora_mvee.Memory.{load_word, poke, write_loop, write_variant_mem}

-- The memory of a tracee after the requests of a trace: a PTRACE_POKEDATA stores the eight bytes of its
-- word, and a process_vm_writev the bytes that it has written.
abbrev pub poked : Pid → Trace → (ℕ → ℕ) → ℕ → ℕ
poked p [] mem x = mem x
poked p (poke_data q a v ∷ t) mem x =
    if (p == q) && (leb a x && ltb x (a + word_size)) then byte v (x - a) else poked p t mem x
poked p (vm_write q a n bytes ∷ t) mem x =
    if (p == q) && (leb a x && ltb x (a + n)) then bytes (x - a) % 256 else poked p t mem x
poked p (_ ∷ t) mem x = poked p t mem x

-- The memory of a variant.
abbrev pub memory : Side → (ℕ → ℕ) → World → ℕ → ℕ
memory s mem w = poked (variant s w).pid w.trace mem

abbrev pub IsBytes : Buf → Type 0
IsBytes buf = (j : ℕ) → buf j < 256

pub poke-memory :
    (s : Side) (a : Addr) (v : ℕ) (mem : ℕ → ℕ) (w : World) (x : ℕ)
    → a < u64_mod
    → memory s mem (poke s a v w) x
      ≡ (if leb a x && ltb x (a + word_size) then byte v (x - a) else memory s mem w x)
unfolding poke wrap
poke-memory first a v mem w x fits = ground arith
poke-memory second a v mem w x fits = ground arith

pub load_word-byte :
    (local : Buf) (n i : ℕ) → IsBytes local → i < 8 → byte (load_word local n) i ≡ local (8 * n + i)
unfolding load_word
load_word-byte local n i bytes lt = byte-word (λ j. local (8 * n + j)) i (λ j. bytes (8 * n + j)) lt

module _ (s : Side) (mem : ℕ → ℕ) (local : Buf) (bytes : IsBytes local) (remote : Addr)
    (w : World) where
  -- The first `n` bytes of the local buffer stand at the remote address, and all else is as it was.
  abbrev pub Written : ℕ → World → Type 0
  Written n v =
      (x : ℕ)
      → memory s mem v x
        ≡ (if leb remote x && ltb x (remote + n) then local (x - remote) else memory s mem w x)

  pub poke-Written :
      (n : ℕ) (v : World)
      → n % 8 ≡ 0
      → remote + n < u64_mod
      → Written n v
      → Written (n + 8) (poke s (remote + n) (load_word local (n / word_size)) v)
  poke-Written n v aligned fits h x =
      poke-memory s (remote + n) (load_word local (n / word_size)) mem v x fits
      ∙ ground (arith, h x, load_word-byte local (n / 8) (x - (remote + n)) bytes)

  write_loop-Written :
      (size fuel remaining n : ℕ) (v : World)
      → remaining ≤ fuel
      → n % 8 ≡ 0
      → remaining % 8 ≡ 0
      → remote + n + remaining < u64_mod
      → Written n v
      → ((write_loop s local remote size fuel remaining n v).0 ≡ n + remaining)
        × Written (n + remaining) (write_loop s local remote size fuel remaining n v).1
  unfolding write_loop
  write_loop-Written size zero remaining n v enough an ar fits h =
      (omega arith, subst (λ m. Written m v) (omega arith) h)
  write_loop-Written size (suc fuel) remaining n v enough an ar fits h =
      elim (Bool-cases (remaining == 0)) [
        | inl done ↦ rw done (ground arith, subst (λ m. Written m v) (ground arith) h)
        | inr more ↦
            let long : leb word_size remaining ≡ true = ground arith in
            rw (more, long)
              (let rest =
                  write_loop s local remote size fuel (remaining - word_size) (n + word_size)
                    (poke s (remote + n) (load_word local (n / word_size)) v) in
                let (count, written) =
                  write_loop-Written size fuel (remaining - word_size) (n + word_size)
                    (poke s (remote + n) (load_word local (n / word_size)) v) (ground arith)
                    (omega arith) (ground arith) (ground arith)
                    (poke-Written n v an (ground arith) h) in
                (ground (arith, count), subst (λ m. Written m rest.1) (ground arith) written))
      ]

-- A size that is a multiple of the word, of at least one word and less than 2 ^ 63 bytes, is written
-- whole: the loop ends, `writeVariantMem` returns the size, and afterwards the variant's memory has
-- the bytes of the local buffer at the remote address and is unchanged everywhere else. The buffer
-- holds bytes, and the write does not run over the end of the address space.
pub write_variant_mem-Written :
    (k : Kernel) (s : Side) (mem : ℕ → ℕ) (local : Buf) (remote size : ℕ) (w : World)
    → (bytes : IsBytes local) → size % 8 ≡ 0
    → 8 ≤ size
    → size < 2 ^ 63
    → remote + size < u64_mod
    → (w' : World) × (write_variant_mem k s local remote size w ≡ ok size w')
      × Written s mem local bytes remote w size w'
unfolding write_variant_mem
write_variant_mem-Written k s mem local remote size w bytes aligned long fits bound =
    let loop = write_loop s local remote size size size 0 w in
    let (count, written) =
      write_loop-Written s mem local bytes remote w size size size 0 w (omega arith) (omega arith)
        aligned (omega arith) (λ x. ground arith) in
    let not_short : ltb size word_size ≡ false = ground arith in
    let positive : ltb size (2 ^ 63) ≡ true = ground arith in
    (
      loop.1,
      rw (not_short, positive) (ap (λ n. ok n loop.1) (omega (arith, count))),
      subst (λ n. Written s mem local bytes remote w n loop.1) (omega arith) written,
    )
