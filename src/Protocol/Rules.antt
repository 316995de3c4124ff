-- ===== src/Protocol/Rules.antt =====
-- The rules by which the script of a function is put together from those of its parts.
use aurora_mvee.Base.{
  ℕ, ◌≡◌, refl, sym, ap, ◌∙◌, fun_ext, Bool, true, false, Option, none, some, List, [], ◌∷◌, ◌++◌,
  if◌then◌else◌,
}
use aurora_mvee.World.{World, Side}
use aurora_mvee.World.Monad.{
  ignore, monad, ◌>>◌, modify, M, Outcome, ok, failed, blocked, terminated, and_then, pure, fail,
  gets, require, or_else, recover, ◌>>=◌,
}
use aurora_mvee.Executors.Args.{check, arg_of}
use aurora_mvee.Protocol.{
  Control, control, Act, act, and_run, run, IsPaired, At, Returns, Leaves, Does, Keeps,
}

and_run_assoc :
    (o : Option Control) (f g : Control → Option Control)
    → and_run o (λ c. and_run (f c) g) ≡ and_run (and_run o f) g
and_run_assoc none f g = refl
and_run_assoc (some c) f g = refl

run-append : (xs ys : List Act) (c : Control) → run (xs ++ ys) c ≡ and_run (run xs c) (run ys)
run-append [] ys c = refl
run-append (x ∷ xs) ys c =
    ap (and_run (act x c)) (fun_ext (run-append xs ys)) ∙ and_run_assoc (act x c) (run xs) (run ys)

module _ {A B : Type 0} where
  Returns-and_then :
      (P Q : World → Type 0) (r : Outcome A) (f : A → M B)
      → Returns P r
      → ((a : A) (w : World) → P w → Returns Q (f a w))
      → Returns Q (and_then r f)
  Returns-and_then P Q (ok a w) f h next = next a w h
  Returns-and_then P Q (failed w) f h next = tt
  Returns-and_then P Q (blocked w) f h next = h
  Returns-and_then P Q (terminated w) f h next = h

  pub Leaves-and_then :
      (P Q : World → Type 0) (r : Outcome A) (f : A → M B)
      → Leaves P r
      → ((w : World) → P w → Q w)
      → ((a : A) (w : World) → P w → Leaves Q (f a w))
      → Leaves Q (and_then r f)
  Leaves-and_then P Q (ok a w) f h weaken next = next a w h
  Leaves-and_then P Q (failed w) f h weaken next = weaken w h
  Leaves-and_then P Q (blocked w) f h weaken next = h
  Leaves-and_then P Q (terminated w) f h weaken next = h

module _ {A : Type 0} (P : World → Type 0) where
  Leaves-Returns : (r : Outcome A) → Leaves P r → Returns P r
  Leaves-Returns (ok a w) h = h
  Leaves-Returns (failed w) h = tt
  Leaves-Returns (blocked w) h = h
  Leaves-Returns (terminated w) h = h

  pub Returns-mono :
      (Q : World → Type 0) (r : Outcome A) → Returns P r → ((w : World) → P w → Q w) → Returns Q r
  Returns-mono Q (ok a w) h weaken = weaken w h
  Returns-mono Q (failed w) h weaken = h
  Returns-mono Q (blocked w) h weaken = h
  Returns-mono Q (terminated w) h weaken = h

  pub Leaves-mono :
      (Q : World → Type 0) (r : Outcome A) → Leaves P r → ((w : World) → P w → Q w) → Leaves Q r
  Leaves-mono Q (ok a w) h weaken = weaken w h
  Leaves-mono Q (failed w) h weaken = weaken w h
  Leaves-mono Q (blocked w) h weaken = h
  Leaves-mono Q (terminated w) h weaken = h

and_run-some :
    (o : Option Control) (f : Control → Option Control) {c' : Control}
    → and_run o f ≡ some c'
    → (c : Control) × (o ≡ some c) × (f c ≡ some c')
and_run-some none f e = cc
and_run-some (some c) f e = (c, refl, e)

-- Two parts in a row: the scripts are put in a row too.
pub Does-bind :
    {A B : Type 0} (xs ys : List Act) {m : M A} {f : A → M B}
    → Does xs m
    → ((a : A) → Does ys (f a))
    → Does (xs ++ ys) (m >>= f)
unfolding monad
Does-bind xs ys {m} {f} d ds = record {
  apply = λ w c' paired e.
      let (c, e1, e2) =
        and_run-some (run xs (control w)) (run ys) (sym (run-append xs ys (control w)) ∙ e) in
      Returns-and_then _ _ (m w) f (d.apply w c paired e1)
        λ a w' (paired', at). (ds a).apply w' c' paired' (ap (run ys) at ∙ e2);
}

-- A part with one action.
Does-step :
    {A B : Type 0} {x : Act} {xs : List Act} {m : M A} {f : A → M B}
    → Does (x ∷ []) m
    → ((a : A) → Does xs (f a))
    → Does (x ∷ xs) (m >>= f)
Does-step {x} {xs} = Does-bind (x ∷ []) xs

-- A part with no effect on the control.
pub Does-skip :
    {A B : Type 0} {xs : List Act} {m : M A} {f : A → M B}
    → Keeps m
    → ((a : A) → Does xs (f a))
    → Does xs (m >>= f)
unfolding monad
Does-skip {xs} {m} {f} d ds = record {
  apply = λ w c' paired e.
      Returns-and_then _ _ (m w) f (Leaves-Returns _ (m w) (d.apply w paired))
        λ a w' (paired', at). (ds a).apply w' c' paired' (ap (run xs) at ∙ e);
}

pub Keeps-Does : {A : Type 0} {m : M A} → Keeps m → Does [] m
Keeps-Does {m} d = record {
  apply = λ w c' paired e.
      Returns-mono _ _ (m w) (Leaves-Returns _ (m w) (d.apply w paired))
        λ w' (paired', at). (paired', cc);
}

Does-if :
    {A : Type 0} {xs : List Act} (b : Bool) {m n : M A}
    → Does xs m
    → Does xs n
    → Does xs (if b then m else n)
Does-if true d e = d
Does-if false d e = e

pub Keeps-bind :
    {A B : Type 0} {m : M A} {f : A → M B} → Keeps m → ((a : A) → Keeps (f a)) → Keeps (m >>= f)
unfolding monad
Keeps-bind {m} {f} d ds = record {
  apply = λ w paired.
      Leaves-and_then _ _ (m w) f (d.apply w paired) (λ w' h. h)
        λ a w' (paired', at).
          Leaves-mono _ _ (f a w') ((ds a).apply w' paired')
            λ w'' (paired'', at'). (paired'', at' ∙ at);
}

pub Keeps-or_else : {A : Type 0} (d : A) {m : M A} → Keeps m → Keeps (or_else d m)
unfolding monad
Keeps-or_else d {m} h = record { apply = λ w paired. recovered w (m w) (h.apply w paired) }
  where
    recovered :
        (w : World) (r : Outcome _)
        → Leaves (At (control w)) r
        → Leaves (At (control w)) (recover d r)
    recovered w (ok a w') h = h
    recovered w (failed w') h = h
    recovered w (blocked w') h = h
    recovered w (terminated w') h = h

pub Keeps-if : {A : Type 0} (b : Bool) {m n : M A} → Keeps m → Keeps n → Keeps (if b then m else n)
Keeps-if true d e = d
Keeps-if false d e = e

pub Keeps-pure : {A : Type 0} (a : A) → Keeps (pure a)
unfolding monad
Keeps-pure a = record { apply = λ w paired. (paired, refl) }

pub Keeps-fail : {A : Type 0} → Keeps {A = A} fail
unfolding monad
Keeps-fail = record { apply = λ w paired. (paired, refl) }

pub Keeps-gets : {A : Type 0} (f : World → A) → Keeps (gets f)
unfolding monad
Keeps-gets f = record { apply = λ w paired. (paired, refl) }

pub Keeps-require : (b : Bool) → Keeps (require b)
unfolding monad
Keeps-require b = record { apply = λ w paired. required w paired b }
  where
    required : (w : World) → IsPaired w → (b : Bool) → Leaves (At (control w)) (require b w)
    required w paired true = (paired, refl)
    required w paired false = (paired, refl)

pub Keeps-check : (test : World → Bool) → Keeps (check test)
unfolding monad check
Keeps-check test = record { apply = λ w. (Keeps-require (test w)).apply w }

pub Keeps-arg_of : (s : Side) (i : ℕ) → Keeps (arg_of s i)
unfolding arg_of
Keeps-arg_of s i = Keeps-gets _

pub Keeps-modify :
    (f : World → World) → ((w : World) → IsPaired w → At (control w) (f w)) → Keeps (modify f)
unfolding monad
Keeps-modify f h = record { apply = h }

-- The rules where the first part has no result that the second uses.
infixr 4 ◌▷◌ ◌▹◌ ◌▸◌
pub ◌▸◌ : {A B : Type 0} {m : M A} {n : M B} → Keeps m → Keeps n → Keeps (m >> n)
unfolding monad
d ▸ e = Keeps-bind d λ _. e

pub ◌▷◌ :
    {A B : Type 0} {x : Act} {xs : List Act} {m : M A} {n : M B}
    → Does (x ∷ []) m
    → Does xs n
    → Does (x ∷ xs) (m >> n)
unfolding monad
d ▷ e = Does-step d λ _. e

pub ◌▹◌ :
    {A B : Type 0} {xs : List Act} {m : M A} {n : M B} → Keeps m → Does xs n → Does xs (m >> n)
unfolding monad
d ▹ e = Does-skip d λ _. e

pub Keeps-ignore : {m : M (Unit {0})} → Keeps m → Keeps (ignore m)
unfolding ignore
Keeps-ignore d = Keeps-or_else tt d
