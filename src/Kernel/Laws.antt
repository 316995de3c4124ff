-- ===== src/Kernel/Laws.antt =====
-- What a trace says of one tracee, and the documented behaviour of ptrace(2) and wait(2) on which
-- theorems rest: each is a hypothesis of the theorems that need it.
use aurora_mvee.Base.{
  ℕ, suc, ◌+◌, ◌*◌, ◌≡◌, Bool, true, false, none, some, [], ◌∷◌, ◌==◌, if◌then◌else◌,
}
use aurora_mvee.Kernel.{Pid, cont, waited, event, Trace, Kernel, stopped, entry_stop, exit_stop}

-- How often a tracee was resumed. The first time leaves it running in user mode, and each later one
-- takes it from a system call's entry to its exit, or from there back to user mode.
abbrev pub conts : Pid → Trace → ℕ
conts p [] = 0
conts p (cont q ∷ t) = if p == q then suc (conts p t) else conts p t
conts p (_ ∷ t) = conts p t

-- Whether a tracee was resumed after the last of its stops that was reported.
abbrev pub running : Pid → Trace → Bool
running p [] = false
running p (cont q ∷ t) = if p == q then true else running p t
running p (waited q ∷ t) = if p == q then false else running p t
running p (event q ∷ t) = if p == q then false else running p t
running p (_ ∷ t) = running p t

-- A tracee that was resumed stops again, and waitpid reports the stop.
abbrev pub Stops : Kernel → Type 0
Stops k =
    (t : Trace) (p : Pid)
    → running p t ≡ true
    → (sig : ℕ) × (k.status (waited p ∷ t) p ≡ some (stopped sig))

-- waitpid does not return for a tracee whose stop was already reported.
abbrev pub Blocks : Kernel → Type 0
Blocks k = (t : Trace) (p : Pid) → running p t ≡ false → k.status (waited p ∷ t) p ≡ none

-- Under PTRACE_SYSCALL the entry and exit stops of a tracee alternate, and it has no other stops: no
-- signal is delivered to it. (At a stop for a signal `main` exits, with a message on an invalid state and
-- without SIGKILL to the variants.)
pub record Alternates (k : Kernel) : Type 0 where
  pub at_entry :
      (t : Trace) (p : Pid) (n : ℕ)
      → running p t ≡ false
      → conts p t ≡ 2 * n + 1
      → (nr : ℕ) × (args : ℕ → ℕ) × (k.stop t p ≡ entry_stop nr args)
  pub at_exit :
      (t : Trace) (p : Pid) (n : ℕ)
      → running p t ≡ false
      → conts p t ≡ 2 * n + 2
      → (rval : ℕ) × (is_error : ℕ) × (k.stop t p ≡ exit_stop rval is_error)
