-- ===== src/Memory/Compare.antt =====
-- Comparing memory of the two variants: `variantMemCmp` of Monitor/src/variant.c.
use aurora_mvee.Base.{
  ℕ, zero, suc, ◌+◌, ◌≤◌, ◌<◌, ◌≡◌, ◌↔◌, refl, sym, ◌∙◌, subst, Bool, true, arith, leb,
}
use aurora_mvee.Words.{u64_mod}
use aurora_mvee.Kernel.{Addr, Kernel}
use aurora_mvee.World.{World, Buf, Side, first, second, variant}
use aurora_mvee.World.Monad.{ok, monad}
use aurora_mvee.Memory.{buf_size, memcmp_eq, read_into_a, read_into_b, variant_mem_cmp}
use aurora_mvee.Memory.Write.{IsBytes}
use aurora_mvee.Memory.Transfer.{read_variant_mem-IsBytes}
use aurora_mvee.Memory.Read.{Readable, read_variant_mem-Copied}

-- The first `n` bytes of two memories are equal.
abbrev pub Agrees : (ℕ → ℕ) → Addr → (ℕ → ℕ) → Addr → ℕ → Type 0
Agrees f a g b n = (j : ℕ) → j < n → f (a + j) ≡ g (b + j)

memcmp_eq_sound : (f g : Buf) (i n : ℕ) → memcmp_eq f g i n ≡ true → Agrees f i g i n
unfolding memcmp_eq
memcmp_eq_sound f g i zero e j lt = absurd (omega arith)
memcmp_eq_sound f g i (suc n) e zero lt = ground (arith, e)
memcmp_eq_sound f g i (suc n) e (suc j) lt =
    subst (λ m. f m ≡ g m) (omega arith)
      (memcmp_eq_sound f g (suc i) n (ground (arith, e)) j (omega arith))

memcmp_eq_complete : (f g : Buf) (i n : ℕ) → Agrees f i g i n → memcmp_eq f g i n ≡ true
unfolding memcmp_eq
memcmp_eq_complete f g i zero same = refl
memcmp_eq_complete f g i (suc n) same =
    let rest : memcmp_eq f g (suc i) n ≡ true =
      memcmp_eq_complete f g (suc i) n
        λ j lt. subst (λ m. f m ≡ g m) (omega arith) (same (suc j) (omega arith)) in
    let now : f i ≡ g i = subst (λ m. f m ≡ g m) (omega arith) (same 0 (omega arith)) in
    ground (arith, rest, now)

-- The same from the beginning of the buffers, where the offset is written without a sum.
memcmp_eq-from_zero :
    (f g : Buf) (n : ℕ) → (memcmp_eq f g 0 n ≡ true) ↔ ((j : ℕ) → j < n → f j ≡ g j)
memcmp_eq-from_zero f g n = (
  λ e j lt. subst (λ m. f m ≡ g m) (omega arith) (memcmp_eq_sound f g 0 n e j lt),
  λ same. memcmp_eq_complete f g 0 n λ j lt. subst (λ m. f m ≡ g m) (omega arith) (same j lt),
)

variant-buf_a :
    (s : Side) (w : World) (buf : Buf) → variant s (record w { buf_a = buf }) ≡ variant s w
variant-buf_a first w buf = refl
variant-buf_a second w buf = refl

-- What the comparison leaves in its buffers, and when it finds the ranges equal.
pub variant_mem_cmp-buffered :
    (k : Kernel) (v1 : Side) (v1_buf : Addr) (v2 : Side) (v2_buf : Addr) (size : ℕ) (w : World)
    (mem1 mem2 : ℕ → ℕ)
    → size ≤ buf_size
    → Readable k w.trace (variant v1 w).pid mem1 v1_buf (v1_buf + size + 7)
    → v1_buf + size + 7 < u64_mod
    → Readable k w.trace (variant v2 w).pid mem2 v2_buf (v2_buf + size + 7)
    → v2_buf + size + 7 < u64_mod
    → (equal : Bool) × (a : Buf) × (b : Buf) × (variant_mem_cmp k v1 v1_buf v2 v2_buf size w
        ≡ ok equal (record w { buf_a = a; buf_b = b }))
      × (IsBytes w.buf_a → IsBytes a)
      × ((equal ≡ true) ↔ Agrees mem1 v1_buf mem2 v2_buf size)
unfolding variant_mem_cmp read_into_a read_into_b monad
variant_mem_cmp-buffered k v1 v1_buf v2 v2_buf size w mem1 mem2 fits readable1 bound1 readable2
      bound2 =
    let (a, read_a, copied_a) =
      read_variant_mem-Copied k v1 w mem1 w.buf_a v1_buf size fits readable1 bound1 in
    let w1 : World = record w { buf_a = a } in
    let (b, read_b, copied_b) =
      read_variant_mem-Copied k v2 w1 mem2 w.buf_b v2_buf size fits
        (subst (λ v. Readable k w.trace v.pid mem2 v2_buf (v2_buf + size + 7))
          (sym (variant-buf_a v2 w a)) readable2)
        bound2 in
    let small : leb size buf_size ≡ true = ground arith in
    (
      memcmp_eq a b 0 size,
      a,
      b,
      rw (small, read_a, read_b) refl,
      λ bytes. read_variant_mem-IsBytes k v1 w w w.buf_a a v1_buf size size bytes fits read_a,
      (
        λ e j lt. sym (copied_a j lt) ∙ (memcmp_eq-from_zero a b size).0 e j lt ∙ copied_b j lt,
        λ same.
            (memcmp_eq-from_zero a b size).1
              λ j lt. copied_a j lt ∙ same j lt ∙ sym (copied_b j lt),
      ),
    )

-- For two ranges of at most BUF_SIZE bytes that the variants have readable for a word beyond their
-- ends, `variantMemCmp` returns, makes no request, and finds the ranges equal exactly if all their
-- bytes are.
pub variant_mem_cmp-Agrees :
    (k : Kernel) (v1 : Side) (v1_buf : Addr) (v2 : Side) (v2_buf : Addr) (size : ℕ) (w : World)
    (mem1 mem2 : ℕ → ℕ)
    → size ≤ buf_size
    → Readable k w.trace (variant v1 w).pid mem1 v1_buf (v1_buf + size + 7)
    → v1_buf + size + 7 < u64_mod
    → Readable k w.trace (variant v2 w).pid mem2 v2_buf (v2_buf + size + 7)
    → v2_buf + size + 7 < u64_mod
    → (equal : Bool) × (w' : World) × (variant_mem_cmp k v1 v1_buf v2 v2_buf size w ≡ ok equal w')
      × (w'.trace ≡ w.trace)
      × ((equal ≡ true) ↔ Agrees mem1 v1_buf mem2 v2_buf size)
variant_mem_cmp-Agrees k v1 v1_buf v2 v2_buf size w mem1 mem2 fits readable1 bound1 readable2
      bound2 =
    let (equal, a, b, returns, bytes, agrees) =
      variant_mem_cmp-buffered k v1 v1_buf v2 v2_buf size w mem1 mem2 fits readable1 bound1
        readable2 bound2 in
    (equal, record w { buf_a = a; buf_b = b }, returns, refl, agrees)
