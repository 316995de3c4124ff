-- ===== src/Monitor/Tables.antt =====
-- The two switches over the number of a system call: the one of `processSyscallSync` in
-- Monitor/src/monitor.c, and the one of Monitor/src/sys/syscall_util.h.
use aurora_mvee.Base.{
  ℕ, ◌≡◌, ◌≢◌, ◌↔◌, ◌⊎◌, inl, inr, refl, sym, subst, Bool, true, false, not, ◌&&◌, ◌||◌, some, List,
  [], ◌∷◌, ◌==◌, Bool-cases, arith,
}
use Prim.Native.String.{String}
use text.Mathlib.Text as Text
use text.Mathlib.TextEquality.{eq_iff}
use aurora_mvee.Monitor.Numbers.{Syscall, cases, first_case, select, number_of}
use aurora_mvee.Monitor.Names.{named_cases, first_name, get_syscall_name}

abbrev keys {ℓ} : {A : Type ℓ} → List (ℕ × A) → List ℕ
keys [] = []
keys ((n, _) ∷ rest) = n ∷ keys rest

abbrev has : ℕ → List ℕ → Bool
has nr [] = false
has nr (n ∷ ns) = (nr == n) || has nr ns

-- Each number of the first list stands in the second.
abbrev within : List ℕ → List ℕ → Bool
within [] ns = true
within (m ∷ ms) ns = has m ns && within ms ns

has-within : (nr : ℕ) (ms ns : List ℕ) → within ms ns ≡ true → has nr ms ≡ true → has nr ns ≡ true
has-within nr [] ns inside here = ground arith
has-within nr (m ∷ ms) ns inside here = elim (Bool-cases (nr == m)) [
  | inl same ↦
      let e : nr ≡ m = ground (arith, same) in
      let there : has m ns ≡ true = ground (arith, inside) in
      subst (λ j. has j ns ≡ true) (sym e) there
  | inr apart ↦ has-within nr ms ns (ground (arith, inside)) (ground (arith, here, apart))
]

first_case-has :
    (nr : ℕ) (l : List (ℕ × Syscall))
    → has nr (keys l) ≡ true
    → (c : Syscall) × (first_case nr l ≡ some c)
unfolding first_case
first_case-has nr [] here = ground arith
first_case-has nr ((n, c) ∷ rest) here = elim (Bool-cases (nr == n)) [
  | inl same ↦ (c, rw same refl)
  | inr apart ↦ let (d, e) = first_case-has nr rest (ground (arith, here, apart)) in (d, rw apart e)
]

has-first_case :
    (nr : ℕ) (l : List (ℕ × Syscall)) (c : Syscall)
    → first_case nr l ≡ some c
    → has nr (keys l) ≡ true
unfolding first_case
has-first_case nr [] c e = cc
has-first_case nr ((n, d) ∷ rest) c e = elim (Bool-cases (nr == n)) [
  | inl same ↦ rw same refl
  | inr apart ↦ rw apart (has-first_case nr rest c (ground (arith, e, apart)))
]

-- No name of the list is the one for numbers that it does not hold.
abbrev AllKnown : List (ℕ × String) → Type 0
AllKnown [] = Unit
AllKnown ((_, name) ∷ rest) = (name ≢ "unknown") × AllKnown rest

first_name-has :
    (nr : ℕ) (l : List (ℕ × String))
    → AllKnown l
    → (has nr (keys l) ≡ true) ↔ (first_name nr l ≢ "unknown")
unfolding first_name
first_name-has nr [] known = (λ h. ground arith, λ h. absurd (h refl))
first_name-has nr ((n, name) ∷ rest) known = elim (Bool-cases (nr == n)) [
  | inl same ↦ rw same (λ _. known.0, λ _. refl)
  | inr apart ↦ rw apart (first_name-has nr rest known.1)
]

-- Each pair of the list holds a call and its number.
abbrev AllNumbered : List (ℕ × Syscall) → Type 0
AllNumbered [] = Unit
AllNumbered ((n, c) ∷ rest) = (number_of c ≡ n) × AllNumbered rest

first_case-number_of :
    (nr : ℕ) (l : List (ℕ × Syscall)) (c : Syscall)
    → AllNumbered l
    → first_case nr l ≡ some c
    → nr ≡ number_of c
unfolding first_case
first_case-number_of nr [] c numbered e = cc
first_case-number_of nr ((n, d) ∷ rest) c numbered e = elim (Bool-cases (nr == n)) [
  | inl same ↦
      let at : nr ≡ n = ground (arith, same) in
      let call : some d ≡ some c = rw same at e in cc (at, call, numbered.0)
  | inr apart ↦ first_case-number_of nr rest c numbered.1 (rw apart at e)
]

cases-AllNumbered : AllNumbered cases
unfolding number_of
cases-AllNumbered = ground arith

select-own : (c : Syscall) → select (number_of c) ≡ some c
unfolding select number_of first_case
select-own Syscall.getuid = refl
select-own Syscall.geteuid = refl
select-own Syscall.getgid = refl
select-own Syscall.getegid = refl
select-own Syscall.brk = refl
select-own Syscall.mmap = refl
select-own Syscall.read = refl
select-own Syscall.arch_prctl = refl
select-own Syscall.openat = refl
select-own Syscall.close = refl
select-own Syscall.write = refl
select-own Syscall.pread64 = refl
select-own Syscall.newfstatat = refl
select-own Syscall.access = refl
select-own Syscall.set_tid_address = refl
select-own Syscall.set_robust_list = refl
select-own Syscall.mprotect = refl
select-own Syscall.munmap = refl
select-own Syscall.rseq = refl
select-own Syscall.fadvise64 = refl
select-own Syscall.getrandom = refl
select-own Syscall.exit_group = refl
select-own Syscall.prlimit64 = refl
select-own Syscall.rt_sigaction = refl
select-own Syscall.rt_sigprocmask = refl
select-own Syscall.unlink = refl
select-own Syscall.utimensat = refl
select-own Syscall.fchown = refl
select-own Syscall.fchmod = refl
select-own Syscall.lseek = refl
select-own Syscall.getcwd = refl
select-own Syscall.getpid = refl
select-own Syscall.chdir = refl
select-own Syscall.socket = refl
select-own Syscall.setsockopt = refl
select-own Syscall.bind = refl
select-own Syscall.listen = refl
select-own Syscall.accept4 = refl
select-own Syscall.poll = refl
select-own Syscall.shutdown = refl
select-own Syscall.getsockname = refl
select-own Syscall.pselect6 = refl

-- The switch takes a number to a call exactly if it is the number of that call: each call has its
-- own case, and no case takes another call's number from it.
select-number_of : (nr : ℕ) (c : Syscall) → (select nr ≡ some c) ↔ (nr ≡ number_of c)
unfolding select
select-number_of nr c = (
  λ e. first_case-number_of nr cases c cases-AllNumbered e,
  λ e. subst (λ n. select n ≡ some c) (sym e) (select-own c),
)

-- The same, as a test.
abbrev all_known : List (ℕ × String) → Bool
all_known [] = true
all_known ((_, name) ∷ rest) = not (Text.◌==◌ name "unknown") && all_known rest

all_known-AllKnown : (l : List (ℕ × String)) → all_known l ≡ true → AllKnown l
all_known-AllKnown [] e = tt
all_known-AllKnown ((_, name) ∷ rest) e = (
  λ same. ground (arith, e, eq_iff name "unknown", same),
  all_known-AllKnown rest (ground (arith, e)),
)

named_cases-AllKnown : AllKnown named_cases
named_cases-AllKnown = all_known-AllKnown named_cases refl

-- The calls that are run are those whose number has a name, less execve (59) and statx (332), which
-- have a name and no case: a system call with any other number fails.
select-get_syscall_name :
    (nr : ℕ)
    → (get_syscall_name nr ≢ "unknown")
      ↔ (((c : Syscall) × (select nr ≡ some c)) ⊎ ((nr ≡ 59) ⊎ (nr ≡ 332)))
unfolding select get_syscall_name
select-get_syscall_name nr =
    let named = first_name-has nr named_cases named_cases-AllKnown in
    (
      λ known. elim (Bool-cases (has nr (keys cases))) [
        | inl run ↦ inl (first_case-has nr cases run)
        | inr not_run ↦
            let extra : has nr (59 ∷ 332 ∷ keys cases) ≡ true =
              has-within nr (keys named_cases) (59 ∷ 332 ∷ keys cases) refl (named.1 known) in
            elim (Bool-cases (nr == 59)) [
              | inl is ↦ inr (inl (ground (arith, is)))
              | inr is_not ↦ inr (inr (ground (arith, is_not, not_run, extra)))
            ]
      ],
      λ dispatched. named.0 (elim dispatched [
        | inl (c, e) ↦
            has-within nr (keys cases) (keys named_cases) refl (has-first_case nr cases c e)
        | inr (inl is) ↦ subst (λ n. has n (keys named_cases) ≡ true) (sym is) refl
        | inr (inr is) ↦ subst (λ n. has n (keys named_cases) ≡ true) (sym is) refl
      ]),
    )
