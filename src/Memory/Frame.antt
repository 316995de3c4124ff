-- ===== src/Memory/Frame.antt =====
-- What a write leaves as it was: `writeVariantMem` of Monitor/src/variant.c.
use aurora_mvee.Base.{
  ℕ, zero, suc, ◌+◌, ◌-◌, ◌/◌, ◌^◌, ◌≡◌, refl, ltb, leb, ◌==◌, if_rule, Bool-cases, inl, inr,
}
use aurora_mvee.Words.{word_size}
use aurora_mvee.Kernel.{Kernel}
use aurora_mvee.World.{World, Buf, Side}
use aurora_mvee.World.Monad.{Outcome, ok, failed, blocked, terminated}
use aurora_mvee.Memory.{load_word, poke, write_loop, write_variant_mem}

-- A write changes the trace alone.
abbrev pub SameVariants : World → World → Type 0
SameVariants w v = (v.master ≡ w.master) × (v.replica ≡ w.replica) × (v.mappings ≡ w.mappings)

write_loop-SameVariants :
    (s : Side) (local : Buf) (remote size fuel remaining n : ℕ) (w : World)
    → SameVariants w (write_loop s local remote size fuel remaining n w).1
unfolding write_loop poke
write_loop-SameVariants s local remote size zero remaining n w = (refl, refl, refl)
write_loop-SameVariants s local remote size (suc fuel) remaining n w =
    elim (Bool-cases (remaining == 0)) [
      | inl done ↦ rw done (refl, refl, refl)
      | inr more ↦ elim (Bool-cases (leb word_size remaining)) [
        | inl long ↦
            rw (more, long)
              (write_loop-SameVariants s local remote size fuel (remaining - word_size)
                (n + word_size) (poke s (remote + n) (load_word local (n / word_size)) w))
        | inr last ↦ rw (more, last) (refl, refl, refl)
      ]
    ]

-- A result that is not -1 stands with such a state.
abbrev pub Preserves : {A : Type 0} → World → Outcome A → Type 0
Preserves w (ok a v) = SameVariants w v
Preserves w (failed v) = Unit
Preserves w (blocked v) = Unit
Preserves w (terminated v) = Unit

pub write_variant_mem-SameVariants :
    (k : Kernel) (s : Side) (local : Buf) (remote size : ℕ) (w : World)
    → Preserves w (write_variant_mem k s local remote size w)
unfolding write_variant_mem poke
write_variant_mem-SameVariants k s local remote size w =
    if_rule (Preserves w) (ltb size word_size) (refl, refl, refl)
      (if_rule (Preserves w) (ltb size (2 ^ 63))
        (write_loop-SameVariants s local remote size size size 0 w) (refl, refl, refl))
