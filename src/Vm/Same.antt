-- ===== src/Vm/Same.antt =====
-- The two builds of the memory transfer of Monitor/src/variant.c, with USE_PTRACE_TRANSFER and without.
use aurora_mvee.Base.{
  ℕ, ◌+◌, ◌-◌, ◌%◌, ◌≤◌, ◌<◌, ◌≡◌, refl, sym, ◌∙◌, true, false, some, arith, ltb, leb, ◌&&◌, ◌==◌,
  if◌then◌else◌,
}
use aurora_mvee.Words.{u64_mod}
use aurora_mvee.Kernel.{Kernel, Pid, Addr, Trace, vm_write}
use aurora_mvee.World.{World, Buf, Side, first, second, variant, log}
use aurora_mvee.World.Monad.{ok, monad}
use aurora_mvee.Memory.{buf_size, transfer_variant_mem}
use aurora_mvee.Memory.Read.{Readable}
use aurora_mvee.Memory.Write.{IsBytes, memory}
use aurora_mvee.Memory.Transfer.{transfer_variant_mem-copies}
use aurora_mvee.Vm.{
  Vm, received, vm_read_variant_mem, vm_write_variant_mem, vm_transfer_variant_mem,
}

-- process_vm_readv reads whole what the tracee has at these addresses.
abbrev pub Reads : Vm → Trace → Pid → (mem : ℕ → ℕ) → Addr → ℕ → Type 0
Reads vm t p mem a n =
    (bytes : Buf) × (vm.readv t p a n ≡ some (n, bytes))
    × IsBytes bytes
    × ((j : ℕ) → j < n → bytes j ≡ mem (a + j))

-- The local buffers are no part of a variant.
variant-local :
    (s : Side) (w : World) (buf : Buf) → variant s (record w { buf_a = buf }) ≡ variant s w
variant-local first w buf = refl
variant-local second w buf = refl

-- A process_vm_writev stores its bytes.
memory-vm_write :
    (s : Side) (a n : ℕ) (buf : Buf) (mem : ℕ → ℕ) (w : World) (x : ℕ)
    → memory s mem (log (vm_write (variant s w).pid a n buf) w) x
      ≡ (if leb a x && ltb x (a + n) then buf (x - a) % 256 else memory s mem w x)
memory-vm_write first a n buf mem w x = ground arith
memory-vm_write second a n buf mem w x = ground arith

memory-local :
    (s : Side) (mem : ℕ → ℕ) (w : World) (buf : Buf) (x : ℕ)
    → memory s mem (record w { buf_a = buf }) x ≡ memory s mem w x
memory-local first mem w buf x = refl
memory-local second mem w buf x = refl

module _ (k : Kernel) (vm : Vm) (source dest : Side) (w : World) (mem_source mem_dest : ℕ → ℕ)
    (source_buf dest_buf size : ℕ) where
  -- The other build copies up to BUF_SIZE bytes, whatever the size.
  vm_transfer_variant_mem-copies :
      size ≤ buf_size
      → Reads vm w.trace (variant source w).pid mem_source source_buf size
      → vm.writev w.trace (variant dest w).pid dest_buf size ≡ some size
      → (w' : World) × (vm_transfer_variant_mem vm source source_buf dest dest_buf size w
          ≡ ok tt w')
        × ((x : ℕ)
            → memory dest mem_dest w' x ≡ (
                if leb dest_buf x && ltb x (dest_buf + size)
                then mem_source (source_buf + (x - dest_buf))
                else memory dest mem_dest w x))
  unfolding vm_transfer_variant_mem vm_read_variant_mem vm_write_variant_mem received monad
  vm_transfer_variant_mem-copies fits (bytes, read, are_bytes, copied) written =
      let buf = received size bytes w.buf_a in
      let w1 : World = record w { buf_a = buf } in
      let small : ltb buf_size size ≡ false = ground (arith, fits) in
      let fitting : leb size buf_size ≡ true = ground (arith, fits) in
      let whole : (size == size) ≡ true = ground arith in
      let written1 : vm.writev w.trace (variant dest w1).pid dest_buf size ≡ some size =
        rw (variant-local dest w buf) written in
      (
        log (vm_write (variant dest w1).pid dest_buf size buf) w1,
        rw (fitting, small, read, whole) (rw (written1, vm_write_variant_mem) (rw whole refl)),
        λ x.
            memory-vm_write dest dest_buf size buf mem_dest w1 x
            ∙ ground (
              arith,
              copied (x - dest_buf),
              are_bytes (x - dest_buf),
              memory-local dest mem_dest w buf x,
            ),
      )

  -- Both builds of `transferVariantMem` copy a multiple of the word, of at least one word and at most
  -- BUF_SIZE bytes, in the same way: they return 0, and the destination's memory is then the same
  -- after the one as after the other. The bytes are readable, in the one build for a word beyond
  -- their end, process_vm_readv and process_vm_writev transfer them whole, the transfer buffer holds
  -- bytes, and no range runs over the end of the address space.
  pub transfer_variant_mem-vm_transfer_variant_mem :
      IsBytes w.buf_a
      → size % 8 ≡ 0
      → 8 ≤ size
      → size ≤ buf_size
      → Readable k w.trace (variant source w).pid mem_source source_buf (source_buf + size + 7)
      → Reads vm w.trace (variant source w).pid mem_source source_buf size
      → vm.writev w.trace (variant dest w).pid dest_buf size ≡ some size
      → source_buf + size + 7 < u64_mod
      → dest_buf + size < u64_mod
      → (w1 : World) × (transfer_variant_mem k source source_buf dest dest_buf size w ≡ ok tt w1)
        × (w2 : World) × (vm_transfer_variant_mem vm source source_buf dest dest_buf size w
            ≡ ok tt w2)
        × ((x : ℕ) → memory dest mem_dest w1 x ≡ memory dest mem_dest w2 x)
  transfer_variant_mem-vm_transfer_variant_mem bytes aligned long fits readable reads written
        bound_s bound_d =
      let (w1, peeks, stands1) =
        transfer_variant_mem-copies k source dest w mem_source mem_dest source_buf dest_buf size
          bytes aligned long fits readable bound_s bound_d in
      let (w2, reads_whole, stands2) = vm_transfer_variant_mem-copies fits reads written in
      (w1, peeks, w2, reads_whole, λ x. stands1 x ∙ sym (stands2 x))
