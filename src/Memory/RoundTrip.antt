-- ===== src/Memory/RoundTrip.antt =====
-- What is written to a variant and read back: `writeVariantMem` and `readVariantMem` of
-- Monitor/src/variant.c.
use aurora_mvee.Base.{
  ℕ, zero, suc, ◌+◌, ◌-◌, ◌/◌, ◌%◌, ◌^◌, ◌≤◌, ◌<◌, ◌≡◌, refl, ap, ◌∙◌, subst, sym, true, false,
  List, [], ◌∷◌, arith, ltb, leb, ◌==◌, Bool-cases, inl, inr,
}
use aurora_mvee.Words.{word_size, u64_mod, wrap}
use aurora_mvee.Words.Bytes.{byte}
use aurora_mvee.Kernel.{Pid, Addr, Trace, Kernel, poke_data}
use aurora_mvee.World.{World, Variant, Buf, Side, first, second, variant}
use aurora_mvee.World.Monad.{ok, Succeeds}
use aurora_mvee.Memory.{buf_size, load_word, poke, write_loop, read_variant_mem, write_variant_mem}
use aurora_mvee.Memory.Read.{Readable, read_variant_mem-Copied}
use aurora_mvee.Memory.Write.{IsBytes, memory, poked, write_variant_mem-Written}
use aurora_mvee.Memory.Frame.{SameVariants, Preserves, write_variant_mem-SameVariants}

-- A trace that goes on with PTRACE_POKEDATA of one tracee alone: the addresses and the words, in
-- their order.
abbrev pub after : Pid → List (Addr × ℕ) → Trace → Trace
after p [] t = t
after p ((a, v) ∷ stores) t = after p stores (poke_data p a v ∷ t)

-- Each word lies in a range.
abbrev pub InRange : (low high : Addr) → List (Addr × ℕ) → Type 0
InRange low high [] = Unit
InRange low high ((a, v) ∷ stores) = (low ≤ a) × (a + word_size ≤ high) × InRange low high stores

-- `now` is what a range of a stopped tracee's memory has after the trace `t`, and as long as the
-- monitor does no more than store words in that range, PTRACE_PEEKDATA returns there what was stored,
-- and what the range has now where nothing was stored.
abbrev pub Remembers : Kernel → Pid → Trace → (now : ℕ → ℕ) → (low high : Addr) → Type 0
Remembers k p t now low high =
    (stores : List (Addr × ℕ))
    → InRange low high stores
    → Readable k (after p stores t) p (poked p (after p stores []) now) low high

poke-after :
    (s : Side) (a v : ℕ) (stores : List (Addr × ℕ)) (w : World)
    → after (variant s (poke s a v w)).pid stores (poke s a v w).trace
      ≡ after (variant s w).pid ((wrap a, v) ∷ stores) w.trace
unfolding poke
poke-after first a v stores w = refl
poke-after second a v stores w = refl

wrap-in_range :
    (a low high : ℕ)
    → low ≤ a
    → a + word_size ≤ high
    → high < u64_mod
    → (low ≤ wrap a) × (wrap a + word_size ≤ high)
unfolding wrap
wrap-in_range a low high above below bound = (omega arith, omega arith)

module _ (s : Side) (local : Buf) (remote size : ℕ) (long : 8 ≤ size)
    (bound : remote + size + 15 < u64_mod) where
  write_loop-after :
      (fuel remaining n : ℕ)
      → remaining + n ≡ size
      → (stores : List (Addr × ℕ)) × InRange remote (remote + size + 7) stores
        × ((w : World)
            → (write_loop s local remote size fuel remaining n w).1.trace
              ≡ after (variant s w).pid stores w.trace)
  unfolding write_loop
  write_loop-after zero remaining n sum = ([], tt, λ w. refl)
  write_loop-after (suc fuel) remaining n sum = elim (Bool-cases (remaining == 0)) [
    | inl done ↦ ([], tt, λ w. rw done refl)
    | inr more ↦ elim (Bool-cases (leb word_size remaining)) [
      | inl whole ↦
          let v = load_word local (n / word_size) in
          let (stores, inside, traced) =
            write_loop-after fuel (remaining - word_size) (n + word_size)
              (ground (arith, sum, whole)) in
          let (above, below) =
            wrap-in_range (remote + n) remote (remote + size + 7) (omega arith)
              (ground (arith, sum, whole)) (omega arith) in
          (
            (wrap (remote + n), v) ∷ stores,
            (above, below, inside),
            λ w.
                rw (more, whole)
                  (traced (poke s (remote + n) v w) ∙ poke-after s (remote + n) v stores w),
          )
      | inr part ↦
          let v = load_word local (size - word_size) in
          let (above, below) =
            wrap-in_range (remote + size - word_size) remote (remote + size + 7) (omega arith)
              (omega arith) (omega arith) in
          (
            (wrap (remote + size - word_size), v) ∷ [],
            (above, below, tt),
            λ w. rw (more, part) (poke-after s (remote + size - word_size) v [] w),
          )
    ]
  ]

  -- A write of a word or more stores words in the range, the same ones in every state.
  write_variant_mem-after :
      size < 2 ^ 63
      → (k : Kernel)
      → (stores : List (Addr × ℕ)) × InRange remote (remote + size + 7) stores
        × ((w : World)
            → Succeeds
                (λ v. v.trace ≡ after (variant s w).pid stores w.trace)
                (write_variant_mem k s local remote size w))
  unfolding write_variant_mem
  write_variant_mem-after fits k =
      let (stores, inside, traced) = write_loop-after size size 0 (omega arith) in
      let not_short : ltb size word_size ≡ false = ground (arith, long) in
      let positive : ltb size (2 ^ 63) ≡ true = ground (arith, fits) in
      (stores, inside, λ w. rw (not_short, positive) (traced w))

SameVariants-pid :
    (s : Side) (w v : World) → SameVariants w v → (variant s v).pid ≡ (variant s w).pid
SameVariants-pid first w v same = ap (λ (u : Variant). u.pid) same.0
SameVariants-pid second w v same = ap (λ (u : Variant). u.pid) same.1

-- The same variants at the beginning of a trace.
abbrev fresh : World → World
fresh w = record w { trace = [] }

fresh-pid : (s : Side) (w : World) → (variant s (fresh w)).pid ≡ (variant s w).pid
fresh-pid first w = refl
fresh-pid second w = refl

-- What is written to a variant, a multiple of the word, of at least one word and at most BUF_SIZE
-- bytes, is what a read of the same range returns afterwards, into any buffer. The variant is stopped
-- and the range can be read and written with 7 bytes behind it, so that the kernel remembers what is
-- stored in it, and it ends 15 bytes before the end of the address space.
pub read_variant_mem-write_variant_mem :
    (k : Kernel) (now : ℕ → ℕ) (s : Side) (local other : Buf) (remote size : ℕ) (w : World)
    → Remembers k (variant s w).pid w.trace now remote (remote + size + 7)
    → IsBytes local
    → size % 8 ≡ 0
    → 8 ≤ size
    → size ≤ buf_size
    → remote + size + 15 < u64_mod
    → (w' : World) × (write_variant_mem k s local remote size w ≡ ok size w')
      × (buf : Buf) × (read_variant_mem k s other remote size w' ≡ ok (size, buf) w')
      × ((j : ℕ) → j < size → buf j ≡ local j)
read_variant_mem-write_variant_mem k now s local other remote size w remembers bytes aligned long
      fits bound =
    let p = (variant s w).pid in
    let (stores, inside, traced) =
      write_variant_mem-after s local remote size long bound (omega arith) k in
    let (w', returned, _) =
      write_variant_mem-Written k s now local remote size w bytes aligned long (omega arith)
        (omega arith) in
    let (w0, returned0, written) =
      write_variant_mem-Written k s now local remote size (fresh w) bytes aligned long (omega arith)
        (omega arith) in
    let same_pid : (variant s w').pid ≡ p =
      SameVariants-pid s w w'
        (subst (Preserves w) returned (write_variant_mem-SameVariants k s local remote size w)) in
    let same_pid0 : (variant s w0).pid ≡ p =
      SameVariants-pid s (fresh w) w0 (
        subst (Preserves (fresh w)) returned0
          (write_variant_mem-SameVariants k s local remote size (fresh w)))
      ∙ fresh-pid s w in
    let trace : w'.trace ≡ after p stores w.trace =
      subst (Succeeds (λ v. v.trace ≡ after p stores w.trace)) returned (traced w) in
    let trace0 : w0.trace ≡ after p stores [] =
      subst (Succeeds (λ v. v.trace ≡ after (variant s (fresh w)).pid stores [])) returned0
        (traced (fresh w))
      ∙ ap (λ q. after q stores []) (fresh-pid s w) in
    let readable : Readable k w'.trace (variant s w').pid (poked p (after p stores []) now) remote
        (remote + size + 7) =
      λ a i above below lt.
        (λ j. byte (k.peek (trace j) (same_pid j) a) i)
        ∙ remembers stores inside a i above below lt in
    let (buf, read, copied) =
      read_variant_mem-Copied k s w' (poked p (after p stores []) now) other remote size fits
        readable (omega arith) in
    let stored : (x : ℕ) → poked p (after p stores []) now x ≡ memory s now w0 x =
      λ x. sym (λ j. poked (same_pid0 j) (trace0 j) now x) in
    (
      w',
      returned,
      buf,
      read,
      λ j lt. copied j lt ∙ stored (remote + j) ∙ written (remote + j) ∙ ground arith,
    )
