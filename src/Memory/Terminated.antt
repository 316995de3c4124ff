-- ===== src/Memory/Terminated.antt =====
-- Strings in a buffer: what strnlen and strncmp find.
use aurora_mvee.Base.{ℕ, zero, suc, ◌+◌, ◌<◌, ◌≡◌, ◌≢◌, ◌↔◌, refl, subst, true, arith}
use aurora_mvee.World.{Buf}
use aurora_mvee.Memory.{strnlen, strncmp_eq}

-- No terminator among the first `n` bytes from `i` on.
abbrev pub NoNul : (ℕ → ℕ) → ℕ → ℕ → Type 0
NoNul f i n = (j : ℕ) → j < n → f (i + j) ≢ 0

NoNul-suc : (f : ℕ → ℕ) (i n : ℕ) → NoNul f i (suc n) → NoNul f (suc i) n
NoNul-suc f i n h j lt e = h (suc j) (omega arith) (subst (λ x. f x ≡ 0) (omega arith) e)

NoNul-first : (f : ℕ → ℕ) (i n : ℕ) → NoNul f i (suc n) → f i ≢ 0
NoNul-first f i n h e = h 0 (omega arith) (subst (λ x. f x ≡ 0) (omega arith) e)

pub strnlen-NoNul : (buf : Buf) (i size : ℕ) → NoNul buf i size → strnlen buf i size ≡ size
unfolding strnlen
strnlen-NoNul buf i zero h = refl
strnlen-NoNul buf i (suc size) h =
    ground
      (arith, NoNul-first buf i size h, strnlen-NoNul buf (suc i) size (NoNul-suc buf i size h))

pub strnlen-first_nul :
    (buf : Buf) (i size n : ℕ) → n < size → NoNul buf i n → buf (i + n) ≡ 0 → strnlen buf i size ≡ n
unfolding strnlen
strnlen-first_nul buf i zero n lt h nul = absurd (omega arith)
strnlen-first_nul buf i (suc size) zero lt h nul = ground (arith, nul)
strnlen-first_nul buf i (suc size) (suc n) lt h nul = ground (
  arith,
  NoNul-first buf i n h,
  strnlen-first_nul buf (suc i) size n (omega arith) (NoNul-suc buf i n h)
      (subst (λ x. buf x ≡ 0) (omega arith) nul),
)

-- Over bytes of the first string that are no terminators, strncmp compares every byte.
strncmp_eq_sound :
    (a b : Buf) (i n : ℕ)
    → NoNul a i n
    → strncmp_eq a b i n ≡ true
    → (j : ℕ) → j < n
    → a (i + j) ≡ b (i + j)
unfolding strncmp_eq
strncmp_eq_sound a b i zero h e j lt = absurd (omega arith)
strncmp_eq_sound a b i (suc n) h e zero lt = ground (arith, e)
strncmp_eq_sound a b i (suc n) h e (suc j) lt =
    let first_byte : a i ≢ 0 = NoNul-first a i n h in
    subst (λ m. a m ≡ b m) (omega arith)
      (strncmp_eq_sound a b (suc i) n (NoNul-suc a i n h) (ground (arith, e, first_byte)) j
        (omega arith))

strncmp_eq_complete :
    (a b : Buf) (i n : ℕ) → ((j : ℕ) → j < n → a (i + j) ≡ b (i + j)) → strncmp_eq a b i n ≡ true
unfolding strncmp_eq
strncmp_eq_complete a b i zero same = refl
strncmp_eq_complete a b i (suc n) same =
    let rest : strncmp_eq a b (suc i) n ≡ true =
      strncmp_eq_complete a b (suc i) n
        λ j lt. subst (λ m. a m ≡ b m) (omega arith) (same (suc j) (omega arith)) in
    let now : a i ≡ b i = subst (λ m. a m ≡ b m) (omega arith) (same 0 (omega arith)) in
    ground (arith, rest, now)

pub strncmp_eq-from_zero :
    (a b : Buf) (n : ℕ)
    → ((j : ℕ) → j < n → a j ≢ 0)
    → (strncmp_eq a b 0 n ≡ true) ↔ ((j : ℕ) → j < n → a j ≡ b j)
strncmp_eq-from_zero a b n h = (
  λ e j lt.
      subst (λ m. a m ≡ b m) (omega arith)
        (strncmp_eq_sound a b 0 n (λ i below e'. h i below (subst (λ x. a x ≡ 0) (omega arith) e'))
          e j lt),
  λ same. strncmp_eq_complete a b 0 n λ j lt. subst (λ m. a m ≡ b m) (omega arith) (same j lt),
)
