-- ===== src/Tests/Direct.antt =====
-- The transfers of the other builds.
use aurora_mvee.Base.{ℕ, ◌+◌, ◌≡◌, refl, true, some, [], arith}
use aurora_mvee.World.{World, first, second}
use aurora_mvee.World.Monad.{ok, Succeeds}
use aurora_mvee.Memory.{transfer_variant_mem}
use aurora_mvee.Memory.Write.{memory}
use aurora_mvee.Vm.{Vm, vm_transfer_variant_mem}
use aurora_mvee.Vm.Same.{transfer_variant_mem-vm_transfer_variant_mem}
use aurora_mvee.Protocol.{control, At, Returns}
use aurora_mvee.Direct.{
  Caps, cap_header, set_effective, variant_change_ptrace_cap, transfer_variant_mem_direct,
}
use aurora_mvee.Direct.Scripts.{resumed, transfer_variant_mem_direct-Returns}
use aurora_mvee.Direct.Writes.{Puts, variant_change_ptrace_cap-Puts}
use aurora_mvee.Tests.{IsPaired-same_calls, content, reading, same_calls, reading-Readable}
use aurora_mvee.Tests.Copies.{reading-Stops}

-- Transfers are whole.
abbrev vm : Vm
vm = record { readv = λ t p a n. some (n, λ j. content p (a + j)); writev = λ t p a n. some n }

-- No process has capabilities.
abbrev caps : Caps
caps = record { capget = λ t p. some λ j. 0; wait_fails = λ t p. true; stack_pointer = λ t p. 8192 }

transfer_variant_mem-vm_transfer_variant_mem_example :
    (w1 : World) × (transfer_variant_mem reading first 600 second 5000 16 (same_calls [])
      ≡ ok tt w1)
    × (w2 : World) × (vm_transfer_variant_mem vm first 600 second 5000 16 (same_calls [])
        ≡ ok tt w2)
    × ((x : ℕ) → memory second (content 11) w1 x ≡ memory second (content 11) w2 x)
transfer_variant_mem-vm_transfer_variant_mem_example =
    transfer_variant_mem-vm_transfer_variant_mem reading vm first second (same_calls [])
      (content 10) (content 11) 600 5000 16 (λ j. omega arith) refl (omega arith) (omega arith)
      (reading-Readable [] 10 600 623)
      (λ j. content 10 (600 + j), refl, λ j. omega arith, λ j lt. refl) refl (omega arith)
      (omega arith)

transfer_variant_mem_direct-Returns_example :
    Returns (At (resumed second 6 (control (same_calls [])))) (
      transfer_variant_mem_direct reading vm caps first 600 second 5000 4096 8192 8192
        (same_calls []))
transfer_variant_mem_direct-Returns_example =
    transfer_variant_mem_direct-Returns reading vm caps first second 600 5000 4096 8192 8192
      (same_calls []) reading-Stops IsPaired-same_calls

variant_change_ptrace_cap-Puts_example :
    Succeeds
      (Puts second (content 11) 8192 (cap_header 11) (set_effective true λ j. 0) (same_calls []))
      (variant_change_ptrace_cap reading vm caps second 8192 true (same_calls []))
variant_change_ptrace_cap-Puts_example =
    variant_change_ptrace_cap-Puts reading vm caps (content 11) (same_calls []) 8192 true (λ j. 0)
      reading-Stops (λ j. omega arith) (omega arith) (omega arith) second refl
      (λ t a n low high. refl)
