-- ===== src/World/Monad.antt =====
-- Functions of the monitor as steps on its state. A C function that returns 0 or -1 ends as `ok`
-- or `failed`.
use aurora_mvee.Base.{◌≡◌, Bool, if◌then◌else◌}
use aurora_mvee.Kernel.{Trace}
use aurora_mvee.World.{World}

pub data Outcome (A : Type 0) : Type 0 where
  -- returned normally
  ok : A → World → Outcome A
  -- returned -1
  failed : World → Outcome A
  -- never returns: a waitpid that waits for ever
  blocked : World → Outcome A
  -- called exit(EXIT_FAILURE)
  terminated : World → Outcome A

-- The function returns 0, and `P` holds behind it.
abbrev pub Succeeds : {A : Type 0} → (World → Type 0) → Outcome A → Type 0
Succeeds P (ok a w) = P w
Succeeds P (failed w) = ⊥
Succeeds P (blocked w) = ⊥
Succeeds P (terminated w) = ⊥

-- The function returns -1, and the trace is behind it what is given.
abbrev pub FailsWith : {A : Type 0} → Trace → Outcome A → Type 0
FailsWith t (ok a w) = ⊥
FailsWith t (failed w) = w.trace ≡ t
FailsWith t (blocked w) = ⊥
FailsWith t (terminated w) = ⊥

abbrev pub M : Type 0 → Type 0
M A = World → Outcome A

unfoldable pub pure : {A : Type 0} → A → M A
pure a w = ok a w

unfoldable pub fail : {A : Type 0} → M A
fail w = failed w

module _ {A B : Type 0} where
  abbrev pub and_then : Outcome A → (A → M B) → Outcome B
  and_then (ok a w) f = f a w
  and_then (failed w) f = failed w
  and_then (blocked w) f = blocked w
  and_then (terminated w) f = terminated w

  infixl 5 ◌>>=◌ ◌>>◌
  unfoldable pub ◌>>=◌ : M A → (A → M B) → M B
  ◌>>=◌ m f w = and_then (m w) f

  unfoldable pub ◌>>◌ : M A → M B → M B
  unfolding ◌>>=◌
  m >> n = m >>= λ _. n

-- `if (!eq) return -1;`
unfoldable pub require : Bool → M (Unit {0})
require b w = if b then ok tt w else failed w

unfoldable pub gets : {A : Type 0} → (World → A) → M A
gets f w = ok (f w) w

unfoldable pub modify : (World → World) → M (Unit {0})
modify f w = ok tt (f w)

-- The result of `m` where the caller does not look at it.
abbrev pub recover : {A : Type 0} → A → Outcome A → Outcome A
recover d (ok a w) = ok a w
recover d (failed w) = ok d w
recover d (blocked w) = blocked w
recover d (terminated w) = terminated w

unfoldable pub or_else : {A : Type 0} → A → M A → M A
or_else d m w = recover d (m w)

unfoldable pub ignore : M (Unit {0}) → M (Unit {0})
unfolding or_else
ignore = or_else tt

-- Named to unfold the operations above together.
unfoldable pub monad : Unit {0}
unfolding pure fail ◌>>=◌ ◌>>◌ require gets modify or_else ignore
monad = tt
