-- ===== src/Memory.antt =====
-- The memory transfers of Monitor/src/variant.c, as USE_PTRACE_TRANSFER builds them: reading and
-- writing a variant's memory word by word, copying it between variants and comparing it.
pub mod Bounds
pub mod Compare
pub mod Frame
pub mod Kept
pub mod Read
pub mod RoundTrip
pub mod Short
pub mod Stored
pub mod Strings
pub mod Tail
pub mod Terminated
pub mod Transfer
pub mod Write
use aurora_mvee.Base.{
  ℕ, zero, suc, ◌+◌, ◌-◌, ◌*◌, ◌/◌, ◌^◌, Bool, true, false, ◌&&◌, ltb, leb, ◌==◌, if◌then◌else◌,
}
use aurora_mvee.Words.{wrap, word_size}
use aurora_mvee.Words.Bytes.{byte, word}
use aurora_mvee.Kernel.{Pid, Addr, Trace, Kernel, poke_data}
use aurora_mvee.World.{World, Buf, Side, variant, log}
use aurora_mvee.World.Monad.{
  M, Outcome, ok, failed, and_then, pure, fail, ◌>>=◌, ◌>>◌, gets, modify, require, or_else,
}

-- BUF_SIZE of variant.c.
abbrev pub buf_size : ℕ
buf_size = 10000000

-- `((long *) buf)[i] = w` and `((long *) buf)[i]`.
unfoldable pub store_word : Buf → ℕ → ℕ → Buf
store_word buf i w j =
    if leb (word_size * i) j && ltb j (word_size * i + word_size)
    then byte w (j - word_size * i)
    else buf j

unfoldable pub load_word : Buf → ℕ → ℕ
load_word buf i = word λ j. buf (word_size * i + j)

-- `memset(buf, 0, BUF_SIZE)`
unfoldable pub memset_zero : Buf → Buf
memset_zero buf j = if ltb j buf_size then 0 else buf j

-- `strnlen(buf + i, n)`
unfoldable pub strnlen : Buf → ℕ → ℕ → ℕ
strnlen buf i zero = 0
strnlen buf i (suc n) = if buf i == 0 then 0 else suc (strnlen buf (suc i) n)

-- `strncmp(a + i, b + i, n) == 0`
unfoldable pub strncmp_eq : Buf → Buf → ℕ → ℕ → Bool
strncmp_eq a b i zero = true
strncmp_eq a b i (suc n) =
    let rest = strncmp_eq a b (suc i) n in
    if a i == b i then (if a i == 0 then true else rest) else false

-- `memcmp(a + i, b + i, n) == 0`
unfoldable pub memcmp_eq : Buf → Buf → ℕ → ℕ → Bool
memcmp_eq a b i zero = true
memcmp_eq a b i (suc n) = (a i == b i) && memcmp_eq a b (suc i) n

-- `memcpy(&data, buf, n)` for n < 8, over the bytes that `data` had.
unfoldable pub overlay : Buf → ℕ → ℕ → ℕ
overlay buf n old = word λ j. if ltb j n then buf j else byte old j

-- `remaining > sizeof(long) ? sizeof(long) : remaining`
abbrev pub chunk : ℕ → ℕ
chunk remaining = if ltb word_size remaining then word_size else remaining

-- PTRACE_POKEDATA of a word.
unfoldable pub poke : Side → Addr → ℕ → World → World
poke s a v w = log (poke_data (variant s w).pid (wrap a) v) w

-- The loop of `writeVariantMem` for a `size` of a word or more: what it has transferred, and the
-- state behind its writes. The last, partial round indexes the buffer, a `long *`, by a count of
-- bytes.
unfoldable pub write_loop :
    Side → Buf → Addr → (size fuel remaining transferred : ℕ) → World → ℕ × World
write_loop s local remote size zero remaining transferred w = (transferred, w)
write_loop s local remote size (suc fuel) remaining transferred w =
    let rest =
      write_loop s local remote size fuel (remaining - word_size) (transferred + word_size)
        (poke s (remote + transferred) (load_word local (transferred / word_size)) w) in
    let last : ℕ × World = (
      transferred + remaining,
      poke s (remote + size - word_size) (load_word local (size - word_size)) w,
    ) in
    if remaining == 0 then (transferred, w) else (if leb word_size remaining then rest else last)

module _ (k : Kernel) where
  -- The loop of `readVariantMem`: what it has transferred, and the local buffer.
  unfoldable pub read_loop : Trace → Pid → Addr → (fuel remaining transferred : ℕ) → Buf → ℕ × Buf
  read_loop t p remote zero remaining transferred buf = (transferred, buf)
  read_loop t p remote (suc fuel) remaining transferred buf =
      let rest =
        read_loop t p remote fuel (remaining - chunk remaining) (transferred + chunk remaining)
          (store_word buf (transferred / word_size) (k.peek t p (wrap (remote + transferred)))) in
      if remaining == 0 then (transferred, buf) else rest

  -- `readVariantMem`: the count that it returns, and the new contents of `localBuf`. A round takes
  -- at least one byte, so `size` rounds are enough.
  unfoldable pub read_variant_mem : Side → (local : Buf) (remote : Addr) (size : ℕ) → M (ℕ × Buf)
  unfolding read_loop
  read_variant_mem s local remote size w =
      if ltb buf_size size
      then failed w
      else ok (read_loop w.trace (variant s w).pid remote size size 0 local) w

  -- `writeVariantMem`. As a `ssize_t` a size of 2 ^ 63 or more is negative, and the loop does not
  -- start.
  unfoldable pub write_variant_mem : Side → (local : Buf) (remote : Addr) (size : ℕ) → M ℕ
  unfolding write_loop
  write_variant_mem s local remote size w =
      let old = k.peek w.trace (variant s w).pid (wrap remote) in
      let (count, w') = write_loop s local remote size size size 0 w in
      if ltb size word_size
      then ok size (poke s remote (overlay local size old) w)
      else (if ltb size (2 ^ 63) then ok count w' else ok 0 w)

  -- `readVariantMem` into `bufA` and into `bufB`.
  unfoldable pub read_into_a : Side → Addr → ℕ → M ℕ
  read_into_a s remote size = do
    local ← gets λ w. w.buf_a
    (count, buf) ← read_variant_mem s local remote size
    modify λ w. record w { buf_a = buf }
    pure count

  unfoldable pub read_into_b : Side → Addr → ℕ → M ℕ
  read_into_b s remote size = do
    local ← gets λ w. w.buf_b
    (count, buf) ← read_variant_mem s local remote size
    modify λ w. record w { buf_b = buf }
    pure count

  -- `transferVariantMem`
  unfoldable pub transfer_variant_mem :
      (source : Side) (source_buf : Addr) (dest : Side) (dest_buf : Addr) (size : ℕ) → M (Unit {0})
  transfer_variant_mem source source_buf dest dest_buf size = do
    require (leb size buf_size)
    read ← read_into_a source source_buf size
    require (read == size)
    local ← gets λ w. w.buf_a
    written ← write_variant_mem dest local dest_buf size
    require (written == size)

  -- `variantMemCmp`: whether it returns 0. The results of its reads are not looked at.
  unfoldable pub variant_mem_cmp :
      (v1 : Side) (v1_buf : Addr) (v2 : Side) (v2_buf : Addr) (size : ℕ) → M Bool
  variant_mem_cmp v1 v1_buf v2 v2_buf size = do
    require (leb size buf_size)
    or_else 0 (read_into_a v1 v1_buf size)
    or_else 0 (read_into_b v2 v2_buf size)
    gets λ w. memcmp_eq w.buf_a w.buf_b 0 size

  -- The loop of `variantStrCmp`, with `curSize` and `stringLen`. Every round but the last adds 100
  -- to `curSize`, which the loop's test bounds by `buf_size`.
  unfoldable pub str_cmp_loop : Side → Addr → (fuel cur_size string_len : ℕ) → M (ℕ × ℕ)
  str_cmp_loop v1 v1_buf zero cur_size string_len w = ok (cur_size, string_len) w
  str_cmp_loop v1 v1_buf (suc fuel) cur_size string_len w =
      let next = or_else 0 (read_into_a v1 v1_buf cur_size) w in
      let round : Outcome (ℕ × ℕ) = and_then next λ _ w'.
        let len = strnlen w'.buf_a 0 cur_size in
        let again = str_cmp_loop v1 v1_buf fuel (cur_size + 100) len w' in
        if len == buf_size then failed w' else (if len == cur_size then again else failed w') in
      if ltb cur_size buf_size then round else ok (cur_size, string_len) w

  -- `variantStrCmp`: whether it returns 0; -1 is a failure.
  unfoldable pub variant_str_cmp : (v1 : Side) (v1_buf : Addr) (v2 : Side) (v2_buf : Addr) → M Bool
  variant_str_cmp v1 v1_buf v2 v2_buf = do
    modify λ w. record w { buf_a = memset_zero w.buf_a; buf_b = memset_zero w.buf_b }
    (cur_size, string_len) ← str_cmp_loop v1 v1_buf buf_size 100 0
    or_else 0 (read_into_b v2 v2_buf cur_size)
    gets λ w. strncmp_eq w.buf_a w.buf_b 0 string_len
