-- ===== src/Memory/Kept.antt =====
-- What a transfer of Monitor/src/variant.c keeps, whatever the sizes and the kernel's answers are.
use aurora_mvee.Base.{
  ℕ, zero, suc, ◌+◌, ◌-◌, ◌*◌, ◌^◌, ◌<◌, Bool, true, false, arith, ltb, leb, ◌==◌, if_rule,
  if◌then◌else◌, Bool-cases, inl, inr,
}
use aurora_mvee.Words.{u64_mod, word_size}
use aurora_mvee.Words.Bytes.{word, byte, byte-lt}
use aurora_mvee.Kernel.{Kernel}
use aurora_mvee.World.{World, Buf, Side, variant}
use aurora_mvee.World.Monad.{monad, require}
use aurora_mvee.Memory.{
  buf_size, load_word, overlay, poke, write_loop, read_into_a, read_variant_mem, write_variant_mem,
  transfer_variant_mem,
}
use aurora_mvee.Memory.Write.{IsBytes}
use aurora_mvee.Memory.Transfer.{read_loop-IsBytes}
use aurora_mvee.Protocol.{Leaves}
use aurora_mvee.Protocol.Rules.{Leaves-and_then}

word-lt : (f : ℕ → ℕ) → ((j : ℕ) → f j < 256) → word f < u64_mod
unfolding word
word-lt f h = omega (arith, h 0, h 1, h 2, h 3, h 4, h 5, h 6, h 7)

load_word-lt : (local : Buf) (n : ℕ) → IsBytes local → load_word local n < u64_mod
unfolding load_word
load_word-lt local n bytes =
    word-lt (λ j. local (word_size * n + j)) (λ j. bytes (word_size * n + j))

overlay-lt : (local : Buf) (n old : ℕ) → IsBytes local → overlay local n old < u64_mod
unfolding overlay
overlay-lt local n old bytes =
    word-lt (λ j. if ltb j n then local j else byte old j)
      (λ j. ground (arith, bytes j, byte-lt old j))

-- A property of the state by which the transfer buffer holds bytes, and which is kept when other bytes
-- come into it, and by a PTRACE_POKEDATA of a word.
module _ (P : World → Type 0) (holds_bytes : (w : World) → P w → IsBytes w.buf_a)
    (poke_keeps : (s : Side) (a v : ℕ) (w : World) → v < u64_mod → P w → P (poke s a v w))
    (buffer_keeps : (buf : Buf) (w : World)
      → IsBytes buf
      → P w
      → P (record w { buf_a = buf })) where
  write_loop-kept :
      (s : Side) (local : Buf) (remote size fuel remaining n : ℕ) (w : World)
      → IsBytes local
      → P w
      → P (write_loop s local remote size fuel remaining n w).1
  unfolding write_loop
  write_loop-kept s local remote size zero remaining n w bytes h = h
  write_loop-kept s local remote size (suc fuel) remaining n w bytes h =
      if_rule (λ (r : ℕ × World). P r.1) (remaining == 0) h
        (if_rule (λ (r : ℕ × World). P r.1) (leb word_size remaining)
          (write_loop-kept s local remote size fuel (remaining - word_size) (n + word_size) _ bytes
            (poke_keeps s (remote + n) _ w (load_word-lt local _ bytes) h))
          (poke_keeps s (remote + size - word_size) _ w (load_word-lt local _ bytes) h))

  write_variant_mem-kept :
      (k : Kernel) (s : Side) (local : Buf) (remote size : ℕ) (w : World)
      → IsBytes local
      → P w
      → Leaves P (write_variant_mem k s local remote size w)
  unfolding write_variant_mem
  write_variant_mem-kept k s local remote size w bytes h =
      if_rule (Leaves P) (ltb size word_size)
        (poke_keeps s remote _ w (overlay-lt local size _ bytes) h)
        (if_rule (Leaves P) (ltb size (2 ^ 63))
          (write_loop-kept s local remote size size size 0 w bytes h) h)

  require-kept : (b : Bool) (w : World) → P w → Leaves P (require b w)
  unfolding require
  require-kept true w h = h
  require-kept false w h = h

  read_into_a-kept :
      (k : Kernel) (s : Side) (remote size : ℕ) (w : World)
      → P w
      → Leaves P (read_into_a k s remote size w)
  unfolding read_into_a read_variant_mem monad
  read_into_a-kept k s remote size w h = elim (Bool-cases (ltb buf_size size)) [
    | inl long ↦ rw (long, Leaves) h
    | inr fits ↦
        rw (fits, Leaves)
          (buffer_keeps _ w
            (read_loop-IsBytes k w.trace (variant s w).pid remote size size 0 w.buf_a
              (holds_bytes w h))
            h)
  ]

  pub transfer_variant_mem-kept :
      (k : Kernel) (source : Side) (source_buf : ℕ) (dest : Side) (dest_buf size : ℕ) (w : World)
      → P w
      → Leaves P (transfer_variant_mem k source source_buf dest dest_buf size w)
  unfolding transfer_variant_mem monad
  transfer_variant_mem-kept k source source_buf dest dest_buf size w h =
      Leaves-and_then P P (require (leb size buf_size) w) _ (require-kept (leb size buf_size) w h)
        (λ v hv. hv)
        λ a1 w1 h1.
          Leaves-and_then P P (read_into_a k source source_buf size w1) _
            (read_into_a-kept k source source_buf size w1 h1) (λ v hv. hv)
            λ read w2 h2.
              Leaves-and_then P P (require (read == size) w2) _ (require-kept (read == size) w2 h2)
                (λ v hv. hv)
                λ a3 w3 h3.
                  Leaves-and_then P P (write_variant_mem k dest w3.buf_a dest_buf size w3) _
                    (write_variant_mem-kept k dest w3.buf_a dest_buf size w3 (holds_bytes w3 h3) h3)
                    (λ v hv. hv) λ written w4 h4. require-kept (written == size) w4 h4
