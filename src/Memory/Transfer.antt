-- ===== src/Memory/Transfer.antt =====
-- Copying memory between the variants: `transferVariantMem` of Monitor/src/variant.c.
use aurora_mvee.Base.{
  ℕ, zero, suc, ◌+◌, ◌-◌, ◌*◌, ◌%◌, ◌≤◌, ◌<◌, ◌≡◌, refl, ap, ◌∙◌, subst, true, false, arith, ltb,
  leb, ◌&&◌, ◌==◌, if◌then◌else◌, Bool-cases, inl, inr,
}
use aurora_mvee.Words.{word_size, u64_mod}
use aurora_mvee.Words.Bytes.{byte-lt}
use aurora_mvee.Kernel.{Pid, Addr, Trace, Kernel}
use aurora_mvee.World.{World, Buf, Side, first, second, variant}
use aurora_mvee.World.Monad.{Outcome, ok, failed, blocked, terminated, monad}
use aurora_mvee.Memory.{
  buf_size, store_word, read_loop, read_variant_mem, read_into_a, transfer_variant_mem,
}
use aurora_mvee.Memory.Frame.{SameVariants, Preserves, write_variant_mem-SameVariants}
use aurora_mvee.Memory.Read.{Readable, read_variant_mem-Copied}
use aurora_mvee.Memory.Write.{IsBytes, memory, write_variant_mem-Written}

store_word-IsBytes : (buf : Buf) (i v : ℕ) → IsBytes buf → IsBytes (store_word buf i v)
unfolding store_word
store_word-IsBytes buf i v bytes j = ground (arith, bytes j, byte-lt v (j - word_size * i))

pub read_loop-IsBytes :
    (k : Kernel) (t : Trace) (p : Pid) (remote : Addr) (fuel remaining n : ℕ) (buf : Buf)
    → IsBytes buf
    → IsBytes (read_loop k t p remote fuel remaining n buf).1
unfolding read_loop
read_loop-IsBytes k t p remote zero remaining n buf bytes = bytes
read_loop-IsBytes k t p remote (suc fuel) remaining n buf bytes =
    elim (Bool-cases (remaining == 0)) [
      | inl done ↦ rw done bytes
      | inr more ↦
          rw more (read_loop-IsBytes k t p remote fuel _ _ _ (store_word-IsBytes buf _ _ bytes))
    ]

abbrev buffer_of : Outcome (ℕ × Buf) → Buf
buffer_of (ok (count, buf) w) = buf
buffer_of (failed w) = λ i. 0
buffer_of (blocked w) = λ i. 0
buffer_of (terminated w) = λ i. 0

pub read_variant_mem-IsBytes :
    (k : Kernel) (s : Side) (w w' : World) (local buf : Buf) (remote size count : ℕ)
    → IsBytes local
    → size ≤ buf_size
    → read_variant_mem k s local remote size w ≡ ok (count, buf) w'
    → IsBytes buf
unfolding read_variant_mem
read_variant_mem-IsBytes k s w w' local buf remote size count bytes fits e =
    let small : ltb buf_size size ≡ false = ground arith in
    subst IsBytes (ap buffer_of (rw small at e))
      (read_loop-IsBytes k w.trace (variant s w).pid remote size size 0 local bytes)

-- The local buffers are no part of a variant's memory.
memory-buf_a :
    (s : Side) (mem : ℕ → ℕ) (w : World) (buf : Buf) (x : ℕ)
    → memory s mem (record w { buf_a = buf }) x ≡ memory s mem w x
memory-buf_a first mem w buf x = refl
memory-buf_a second mem w buf x = refl

-- The copy, and that it leaves the fields of both variants as they were.
pub transfer_variant_mem-whole :
    (k : Kernel) (source dest : Side) (w : World) (mem_source mem_dest : ℕ → ℕ)
    (source_buf dest_buf size : ℕ)
    → IsBytes w.buf_a
    → size % 8 ≡ 0
    → 8 ≤ size
    → size ≤ buf_size
    → Readable k w.trace (variant source w).pid mem_source source_buf (source_buf + size + 7)
    → source_buf + size + 7 < u64_mod
    → dest_buf + size < u64_mod
    → (w' : World) × (transfer_variant_mem k source source_buf dest dest_buf size w ≡ ok tt w')
      × SameVariants w w'
      × ((x : ℕ)
          → memory dest mem_dest w' x ≡ (
              if leb dest_buf x && ltb x (dest_buf + size)
              then mem_source (source_buf + (x - dest_buf))
              else memory dest mem_dest w x))
unfolding transfer_variant_mem read_into_a monad
transfer_variant_mem-whole k source dest w mem_source mem_dest source_buf dest_buf size bytes
      aligned long fits readable source_fits dest_fits =
    let (buf, read, copied) =
      read_variant_mem-Copied k source w mem_source w.buf_a source_buf size fits readable
        source_fits in
    let bytes' =
      read_variant_mem-IsBytes k source w w w.buf_a buf source_buf size size bytes fits read in
    let (w', written, stands) =
      write_variant_mem-Written k dest mem_dest buf dest_buf size (record w { buf_a = buf }) bytes'
        aligned long (omega arith) dest_fits in
    let same =
      subst (Preserves (record w { buf_a = buf })) written
        (write_variant_mem-SameVariants k dest buf dest_buf size (record w { buf_a = buf })) in
    let small : leb size buf_size ≡ true = ground arith in
    let whole : (size == size) ≡ true = ground arith in
    (
      w',
      rw (small, read, whole, written, whole) refl,
      same,
      λ x. stands x ∙ ground (arith, copied (x - dest_buf), memory-buf_a dest mem_dest w buf x),
    )

-- At least one word and at most BUF_SIZE bytes, a multiple of the word, are copied whole: `transferVariantMem` returns 0,
-- and afterwards the destination has the source's bytes at `dest_buf` and its old ones everywhere
-- else. The source is readable for a word beyond the last byte, and neither range runs over the
-- end of the address space.
pub transfer_variant_mem-copies :
    (k : Kernel) (source dest : Side) (w : World) (mem_source mem_dest : ℕ → ℕ)
    (source_buf dest_buf size : ℕ)
    → IsBytes w.buf_a
    → size % 8 ≡ 0
    → 8 ≤ size
    → size ≤ buf_size
    → Readable k w.trace (variant source w).pid mem_source source_buf (source_buf + size + 7)
    → source_buf + size + 7 < u64_mod
    → dest_buf + size < u64_mod
    → (w' : World) × (transfer_variant_mem k source source_buf dest dest_buf size w ≡ ok tt w')
      × ((x : ℕ)
          → memory dest mem_dest w' x ≡ (
              if leb dest_buf x && ltb x (dest_buf + size)
              then mem_source (source_buf + (x - dest_buf))
              else memory dest mem_dest w x))
transfer_variant_mem-copies k source dest w mem_source mem_dest source_buf dest_buf size bytes
      aligned long fits readable source_fits dest_fits =
    let (w', returned, same, stands) =
      transfer_variant_mem-whole k source dest w mem_source mem_dest source_buf dest_buf size bytes
        aligned long fits readable source_fits dest_fits in
    (w', returned, stands)
