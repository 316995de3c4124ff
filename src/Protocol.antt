-- ===== src/Protocol.antt =====
-- What of the monitor's state the synchronisation of the variants turns on, and the scripts of
-- resumptions and waits by which a function of the monitor acts on it.
pub mod Dispatch
pub mod Divergence
pub mod Failure
pub mod Quiet
pub mod Rules
pub mod Scripts
pub mod Steps
pub mod Stuck
use aurora_mvee.Base.{
  ℕ, suc, ◌+◌, ◌≡◌, ◌≢◌, Bool, true, false, Option, none, some, List, [], ◌∷◌, if◌then◌else◌,
}
use aurora_mvee.Kernel.{Trace}
use aurora_mvee.Kernel.Laws.{conts, running}
use aurora_mvee.World.{World, Variant, State, VType, Side, first, second}
use aurora_mvee.World.Monad.{M, Outcome, ok, failed, blocked, terminated}

-- One variant: its fields, how often it was resumed, and whether it runs now.
pub record View : Type 0 where
  pub state : State
  pub num : ℕ
  pub conts : ℕ
  pub runs : Bool

pub record Control : Type 0 where
  pub master : View
  pub replica : View

abbrev pub view : Variant → Trace → View
view v t = record {
  state = v.state;
  num = v.syscall_num;
  conts = conts v.pid t;
  runs = running v.pid t;
}

abbrev pub control : World → Control
control w = record { master = view w.master w.trace; replica = view w.replica w.trace }

abbrev pub view_of : Side → Control → View
view_of first c = c.master
view_of second c = c.replica

abbrev pub set_view : Side → View → Control → Control
set_view first v c = record c { master = v }
set_view second v c = record c { replica = v }

-- Resume from a wait, wait for the next stop, resume from an exit, or resume and leave the fields of
-- the variant as they are.
pub data Act : Type 0 where
  go await finish step : Side → Act

-- The effect of an action; `none` is a wait that never ends.
abbrev pub act_view : Act → View → Option View
act_view (go s) v = some (record v { state = State.running; conts = suc v.conts; runs = true })
act_view (await s) v = if v.runs then some (record v { runs = false }) else none
act_view (finish s) v = some (record v { num = v.num + 1; conts = suc v.conts; runs = true })
act_view (step s) v = some (record v { conts = suc v.conts; runs = true })

abbrev pub side_of : Act → Side
side_of (go s) = s
side_of (await s) = s
side_of (finish s) = s
side_of (step s) = s

abbrev pub put_view : Side → Control → Option View → Option Control
put_view s c none = none
put_view s c (some v) = some (set_view s v c)

abbrev pub act : Act → Control → Option Control
act a c = put_view (side_of a) c (act_view a (view_of (side_of a) c))

abbrev pub and_run : Option Control → (Control → Option Control) → Option Control
and_run none f = none
and_run (some c) f = f c

abbrev pub run : List Act → Control → Option Control
run [] c = some c
run (a ∷ xs) c = and_run (act a c) (run xs)

-- The two variants are the ones that `main` set up.
pub record AreVariants (master replica : Variant) : Type 0 where
  pub distinct : master.pid ≢ replica.pid
  pub master_type : master.type ≡ VType.master
  pub replica_type : replica.type ≡ VType.replica

abbrev pub IsPaired : World → Type 0
IsPaired w = AreVariants w.master w.replica

-- The state is paired and its control is `c`.
abbrev pub At : Control → World → Type 0
At c w = IsPaired w × (control w ≡ c)

-- The function returns, and a result that is not -1 satisfies `P`.
abbrev pub Returns : {A : Type 0} → (World → Type 0) → Outcome A → Type 0
Returns P (ok a w) = P w
Returns P (failed w) = Unit
Returns P (blocked w) = ⊥
Returns P (terminated w) = ⊥

-- The function returns, and `P` holds behind it, also where the result is -1.
abbrev pub Leaves : {A : Type 0} → (World → Type 0) → Outcome A → Type 0
Leaves P (ok a w) = P w
Leaves P (failed w) = P w
Leaves P (blocked w) = ⊥
Leaves P (terminated w) = ⊥

-- Wherever the script does not block, the function returns, and unless the result is -1 it has had
-- the effect of the script.
pub record Does {A : Type 0} (xs : List Act) (m : M A) : Type 0 where
  pub apply :
      (w : World) (c' : Control) → IsPaired w → run xs (control w) ≡ some c' → Returns (At c') (m w)

-- The function returns and has no effect on the control.
pub record Keeps {A : Type 0} (m : M A) : Type 0 where
  pub apply : (w : World) → IsPaired w → Leaves (At (control w)) (m w)
