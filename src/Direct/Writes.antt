-- ===== src/Direct/Writes.antt =====
-- What `variantChangePtraceCap` of Monitor/src/variant.c leaves in a variant's memory.
use aurora_mvee.Base.{
  ℕ, ◌+◌, ◌-◌, ◌≤◌, ◌<◌, ◌≡◌, refl, Bool, true, false, some, ◌∷◌, arith, ltb, leb, ◌&&◌,
  if◌then◌else◌,
}
use aurora_mvee.Words.{u64_mod, wrap}
use aurora_mvee.Words.Bytes.{byte-lt}
use aurora_mvee.Kernel.{Kernel, Pid, Trace, cont, waited, set_regs, vm_write}
use aurora_mvee.Kernel.Laws.{Stops}
use aurora_mvee.World.{World, Buf, Side, first, second, variant, log}
use aurora_mvee.World.Monad.{ok, Succeeds, monad}
use aurora_mvee.Variant.{request, wait_pid, wait_variant, check_variant_exit}
use aurora_mvee.Memory.Write.{IsBytes, memory}
use aurora_mvee.Vm.{Vm, vm_write_variant_mem}
use aurora_mvee.Direct.{
  Caps, below, cap_header, set_effective, set_reg, reg_rip, sizeof_cap_header, sizeof_cap_data,
  capability_version, change_regs, next_stop, repeat_call, wait_checked, run_call, capget_of,
  variant_change_ptrace_cap,
}

-- The requests of a call that is repeated.
abbrev pub repeated : Kernel → Side → World → Trace
repeated k s w =
    let p = (variant s w).pid in
    let regs = k.regs w.trace p in
    waited p ∷ cont p ∷ set_regs p (set_reg regs reg_rip (below (regs reg_rip) 2)) ∷ w.trace

repeat_call-ok :
    (k : Kernel) (s : Side) (w : World)
    → Stops k
    → repeat_call k s w ≡ ok tt (record w { trace = repeated k s w })
unfolding repeat_call next_stop change_regs request wait_variant wait_pid check_variant_exit monad
repeat_call-ok k first w stops =
    let p = w.master.pid in
    let regs = k.regs w.trace p in
    let back = set_reg regs reg_rip (below (regs reg_rip) 2) in
    let (sig, e) = stops (cont p ∷ set_regs p back ∷ w.trace) p (ground arith) in
    rw (e, wait_pid) refl
repeat_call-ok k second w stops =
    let p = w.replica.pid in
    let regs = k.regs w.trace p in
    let back = set_reg regs reg_rip (below (regs reg_rip) 2) in
    let (sig, e) = stops (cont p ∷ set_regs p back ∷ w.trace) p (ground arith) in
    rw (e, wait_pid) refl

run_call-ok :
    (k : Kernel) (caps : Caps) (s : Side) (w : World)
    → Stops k
    → run_call k caps s w
      ≡ ok tt (record w { trace = waited (variant s w).pid ∷ cont (variant s w).pid ∷ w.trace })
unfolding run_call wait_checked request monad
run_call-ok k caps first w stops =
    let (sig, e) = stops (cont w.master.pid ∷ w.trace) w.master.pid (ground arith) in
    rw (e, wait_checked) refl
run_call-ok k caps second w stops =
    let (sig, e) = stops (cont w.replica.pid ∷ w.trace) w.replica.pid (ground arith) in
    rw (e, wait_checked) refl

-- The memory behind the two system calls that lower or raise the capability.
abbrev pub Puts :
    Side → (mem : ℕ → ℕ) → (stack : ℕ) → (header cap_data : Buf) → (w w' : World) → Type 0
Puts v mem stack header cap_data w w' =
    (x : ℕ)
    → memory v mem w' x ≡ (
        if leb (stack - 32) x && ltb x (stack - 8)
        then cap_data (x - (stack - 32))
        else (if leb (stack - 8) x && ltb x stack
            then header (x - (stack - 8))
            else memory v mem w x))

below-lem : (a size : ℕ) → size ≤ a → a < u64_mod → size < u64_mod → below a size ≡ a - size
unfolding below wrap
below-lem a size fits bound small = ground (arith, fits, bound, small)

cap_header-IsBytes : (p : Pid) → IsBytes (cap_header p)
unfolding cap_header
cap_header-IsBytes p j = ground (arith, byte-lt p (j - 4), byte-lt capability_version j)

set_effective-IsBytes :
    (raises : Bool) (cap_data : Buf) → IsBytes cap_data → IsBytes (set_effective raises cap_data)
unfolding set_effective
set_effective-IsBytes true cap_data bytes j = ground (arith, bytes j)
set_effective-IsBytes false cap_data bytes j = ground (arith, bytes j)

module _ (k : Kernel) (vm : Vm) (caps : Caps) (mem : ℕ → ℕ) (w : World) (stack : ℕ) (raises : Bool)
    (cap_data : Buf) (stops : Stops k) (bytes : IsBytes cap_data) (deep : 32 ≤ stack)
    (bound : stack < u64_mod) where
  -- Let a tracee that was resumed stop again, let capget return capabilities, made of bytes, once the
  -- variant has repeated its call, and let process_vm_writev write whole the 32 bytes below the stack
  -- pointer, which has room for them in the address space. Then variantChangePtraceCap returns 0 and
  -- leaves there the capabilities, with CAP_SYS_PTRACE set or cleared in the effective ones, and above
  -- them their header; the rest of the variant's memory is as it was.
  pub variant_change_ptrace_cap-Puts :
      (v : Side)
      → caps.capget (repeated k v w) (variant v w).pid ≡ some cap_data
      → ((t : Trace) (a n : ℕ)
          → stack ≤ a + 32
          → a + n ≤ stack
          → vm.writev t (variant v w).pid a n ≡ some n)
      → Succeeds
          (Puts v mem stack (cap_header (variant v w).pid) (set_effective raises cap_data) w)
          (variant_change_ptrace_cap k vm caps v stack raises w)
  unfolding variant_change_ptrace_cap capget_of vm_write_variant_mem change_regs request monad
  variant_change_ptrace_cap-Puts first reports writes =
      let header_addr : below stack sizeof_cap_header ≡ stack - 8 =
        below-lem stack 8 (omega (arith, deep)) bound (omega arith) in
      let data_addr : below (stack - 8) sizeof_cap_data ≡ stack - 8 - 24 =
        below-lem (stack - 8) 24 (omega (arith, deep)) (omega (arith, bound)) (omega arith) in
      let p = w.master.pid in
      let w1 : World = record w { trace = repeated k first w } in
      let w2 : World = log (vm_write p (stack - 8) 8 (cap_header p)) w1 in
      let header_fits = writes w1.trace (stack - 8) 8 (omega (arith, deep)) (omega (arith, deep)) in
      let data_fits =
        writes w2.trace (stack - 8 - 24) 24 (omega (arith, deep)) (omega (arith, deep)) in
      rw (header_addr, data_addr)
        (rw (repeat_call-ok k first w stops, Succeeds)
          (rw (reports, Succeeds)
            (rw (header_fits, Succeeds)
              (rw (data_fits, Succeeds)
                (rw (run_call-ok k caps first _ stops, Succeeds)
                  λ x. ground (
                    arith,
                    cap_header-IsBytes p (x - (stack - 8)),
                    set_effective-IsBytes raises cap_data bytes (x - (stack - 32)),
                    deep,
                  ))))))
  variant_change_ptrace_cap-Puts second reports writes =
      let header_addr : below stack sizeof_cap_header ≡ stack - 8 =
        below-lem stack 8 (omega (arith, deep)) bound (omega arith) in
      let data_addr : below (stack - 8) sizeof_cap_data ≡ stack - 8 - 24 =
        below-lem (stack - 8) 24 (omega (arith, deep)) (omega (arith, bound)) (omega arith) in
      let p = w.replica.pid in
      let w1 : World = record w { trace = repeated k second w } in
      let w2 : World = log (vm_write p (stack - 8) 8 (cap_header p)) w1 in
      let header_fits = writes w1.trace (stack - 8) 8 (omega (arith, deep)) (omega (arith, deep)) in
      let data_fits =
        writes w2.trace (stack - 8 - 24) 24 (omega (arith, deep)) (omega (arith, deep)) in
      rw (header_addr, data_addr)
        (rw (repeat_call-ok k second w stops, Succeeds)
          (rw (reports, Succeeds)
            (rw (header_fits, Succeeds)
              (rw (data_fits, Succeeds)
                (rw (run_call-ok k caps second _ stops, Succeeds)
                  λ x. ground (
                    arith,
                    cap_header-IsBytes p (x - (stack - 8)),
                    set_effective-IsBytes raises cap_data bytes (x - (stack - 32)),
                    deep,
                  ))))))
