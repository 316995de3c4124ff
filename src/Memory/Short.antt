-- ===== src/Memory/Short.antt =====
-- Writes of less than a word: `writeVariantMem` of Monitor/src/variant.c.
use aurora_mvee.Base.{ℕ, ◌+◌, ◌-◌, ◌<◌, ◌≡◌, refl, ◌∙◌, true, arith, ltb, if◌then◌else◌}
use aurora_mvee.Words.{wrap, word_size, u64_mod}
use aurora_mvee.Words.Bytes.{byte, byte-lt, byte-word}
use aurora_mvee.Kernel.{Kernel}
use aurora_mvee.World.{World, Buf, Side, variant}
use aurora_mvee.World.Monad.{ok}
use aurora_mvee.Memory.{overlay, poke, write_variant_mem}
use aurora_mvee.Memory.Read.{Readable}
use aurora_mvee.Memory.Write.{IsBytes, memory, poke-memory, Written}

overlay-byte :
    (local : Buf) (n old i : ℕ)
    → IsBytes local
    → i < 8
    → byte (overlay local n old) i ≡ (if ltb i n then local i else byte old i)
unfolding overlay
overlay-byte local n old i bytes lt =
    byte-word (λ j. if ltb j n then local j else byte old j) i
      (λ j. ground (arith, bytes j, byte-lt old j)) lt

-- A size below the word is written whole too: `writeVariantMem` returns the size, and afterwards the
-- variant's memory has the bytes of the local buffer at the remote address and is unchanged everywhere
-- else, also in the rest of the word that is written. The buffer holds bytes, the word at the remote
-- address is readable, and it does not run over the end of the address space.
pub write_variant_mem-short :
    (k : Kernel) (s : Side) (mem : ℕ → ℕ) (local : Buf) (remote size : ℕ) (w : World)
    → (bytes : IsBytes local) → size < 8
    → remote + 8 < u64_mod
    → Readable k w.trace (variant s w).pid (memory s mem w) remote (remote + 8)
    → (w' : World) × (write_variant_mem k s local remote size w ≡ ok size w')
      × Written s mem local bytes remote w size w'
unfolding write_variant_mem wrap
write_variant_mem-short k s mem local remote size w bytes short bound readable =
    let old = k.peek w.trace (variant s w).pid (wrap remote) in
    let value = overlay local size old in
    let in_word : (i : ℕ)
        → i < 8
        → byte value i ≡ (if ltb i size then local i else memory s mem w (remote + i)) =
      λ i lt.
        overlay-byte local size old i bytes lt
        ∙ ground (arith, readable remote i (omega arith) (omega arith) lt) in
    let is_short : ltb size word_size ≡ true = ground arith in
    (
      poke s remote value w,
      rw is_short refl,
      λ x. poke-memory s remote value mem w x (omega arith) ∙ ground (arith, in_word (x - remote)),
    )
