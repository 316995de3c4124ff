-- ===== src/Executors/Args.antt =====
-- What the executors share: the comparison of arguments, and the call that both variants run.
use aurora_mvee.Base.{ℕ, Bool, ◌==◌}
use aurora_mvee.World.{World, Side, variant, arg}
use aurora_mvee.World.Monad.{M, gets, require, ◌>>◌}
use aurora_mvee.Variant.{resume_variant_from_wait}

-- `master->syscallInfo.entry.args[i] == replica->syscallInfo.entry.args[i]`
abbrev pub same_arg : (master replica : Side) → ℕ → World → Bool
same_arg master replica i w = arg (variant master w) i == arg (variant replica w) i

-- Returns -1 where a test of the state fails.
unfoldable pub check : (World → Bool) → M (Unit {0})
unfolding require
check test w = require (test w) w

-- `syscallInfo.entry.args[i]`, read for later.
unfoldable pub arg_of : Side → ℕ → M ℕ
unfolding gets
arg_of s i = gets λ w. arg (variant s w) i

-- The two resumptions with which a call ends that each variant runs by itself.
unfoldable pub resume_both : (master replica : Side) → M (Unit {0})
resume_both master replica = resume_variant_from_wait master >> resume_variant_from_wait replica
