-- ===== src/Lockstep/Phases.antt =====
-- What the monitor promises: the two variants meet at every system call.
use aurora_mvee.Base.{ℕ, ◌≡◌, sym, true, some, List, [], ◌∷◌, arith, if◌then◌else◌}
use aurora_mvee.Kernel.{Stop, entry_stop, exit_stop}
use aurora_mvee.World.{World, Side, first, second, other, nr, arg}
use aurora_mvee.Executors.Compared.{compared, all_same}
use aurora_mvee.Monitor.{is_wait}
use aurora_mvee.Monitor.Numbers.{Syscall, select}

-- Both variants run, or one is held at the entry of the system call that it has made.
pub data Phase : Type 0 where
  free : Phase
  held : Side → (number : ℕ) → (args : ℕ → ℕ) → Phase

-- The arguments at these positions are the same.
abbrev pub Match : List ℕ → (args args' : ℕ → ℕ) → Type 0
Match [] args args' = Unit
Match (i ∷ is) args args' = (args i ≡ args' i) × Match is args args'

-- The steps of a rendezvous, by the variant that the kernel reports and the stop at which it is. A
-- variant returns from a call while the other one runs or is held; it is held at the entry of a call
-- while the other one runs; and if the other one is held, the two pass, which they do only at the
-- same known call with the same of the arguments that the call compares as they are before any path.
pub data Rendezvous : Phase → Side → Stop → Phase → Type 0 where
  returns_free :
      {s : Side} {result is_error : ℕ} → Rendezvous free s (exit_stop result is_error) free
  returns_held :
      {s : Side} {result is_error number : ℕ} {args : ℕ → ℕ}
      → Rendezvous
          (held (other s) number args)
          s
          (exit_stop result is_error)
          (held (other s) number args)
  arrives :
      {s : Side} {number : ℕ} {args : ℕ → ℕ}
      → Rendezvous free s (entry_stop number args) (held s number args)
  passes :
      {s : Side} {number : ℕ} {args args' : ℕ → ℕ} (call : Syscall)
      → select number ≡ some call
      → Match (compared call) args args'
      → Rendezvous (held (other s) number args) s (entry_stop number args') free

-- The phase of the monitor's state: the record of a variant that is marked as waiting has its call.
abbrev pub phase : World → Phase
phase w =
    if is_wait w.master.state
    then held first (nr w.master) (λ i. arg w.master i)
    else (if is_wait w.replica.state
        then held second (nr w.replica) (λ i. arg w.replica i)
        else free)

-- The variants have made the same known call with the same of the arguments that it compares as they are before any path.
pub record Agreed (w : World) : Type 0 where
  pub call : Syscall
  pub numbers : nr w.master ≡ nr w.replica
  pub known : select (nr w.master) ≡ some call
  pub args : Match (compared call) (λ i. arg w.master i) (λ i. arg w.replica i)

pub all_same-Match :
    (is : List ℕ) (w : World)
    → all_same is w ≡ true
    → Match is (λ i. arg w.master i) (λ i. arg w.replica i)
all_same-Match [] w same = tt
all_same-Match (i ∷ is) w same = (ground (arith, same), all_same-Match is w (ground (arith, same)))

pub Match-sym : (is : List ℕ) (args args' : ℕ → ℕ) → Match is args args' → Match is args' args
Match-sym [] args args' m = tt
Match-sym (i ∷ is) args args' m = (sym m.0, Match-sym is args args' m.1)
