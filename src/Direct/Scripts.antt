-- ===== src/Direct/Scripts.antt =====
-- How often the code of Direct resumes the variants.
use aurora_mvee.Base.{
  ℕ, zero, suc, ◌+◌, ◌≡◌, refl, ap, Bool, true, false, Option, none, some, List, [], ◌∷◌, ◌++◌,
  arith,
}
use aurora_mvee.Kernel.{Kernel, Regs, cont}
use aurora_mvee.Kernel.Laws.{Stops}
use aurora_mvee.World.{World, Buf, Side, first, second, variant}
use aurora_mvee.World.Monad.{M, monad, ◌>>◌}
use aurora_mvee.Variant.{request}
use aurora_mvee.Vm.{Vm, vm_write_variant_mem}
use aurora_mvee.Protocol.{
  Act, step, await, Control, control, view_of, set_view, run, IsPaired, At, Returns, Leaves, Does,
  Keeps,
}
use aurora_mvee.Protocol.Rules.{
  ◌▷◌, ◌▹◌, Does-bind, Does-skip, Keeps-gets, Keeps-require, Keeps-or_else,
}
use aurora_mvee.Protocol.Steps.{wait_variant-Does, request_syscall_info-Keeps}
use aurora_mvee.Direct.{
  Caps, change_regs, next_stop, repeat_call, wait_checked, run_call, capget_of,
  variant_change_ptrace_cap, transfer_variant_mem_direct,
}

-- To resume a variant and to wait for its stop, so many times.
abbrev turns : ℕ → Side → List Act
turns zero s = []
turns (suc n) s = step s ∷ await s ∷ turns n s

request_cont-Does : (s : Side) → Does (step s ∷ []) (request s cont)
unfolding monad request
request_cont-Does first = record { apply = λ w c' paired e. ground arith }
request_cont-Does second = record { apply = λ w c' paired e. ground arith }

Does-append :
    {A : Type 0} (xs ys : List Act) {m : M (Unit {0})} {n : M A}
    → Does xs m
    → Does ys n
    → Does (xs ++ ys) (m >> n)
unfolding monad
Does-append xs ys d e = Does-bind xs ys d λ _. e

module _ (k : Kernel) where
  change_regs-Keeps : (s : Side) (f : Regs → Regs) → Keeps (change_regs k s f)
  unfolding monad request change_regs
  change_regs-Keeps first f = record { apply = λ w paired. ground arith }
  change_regs-Keeps second f = record { apply = λ w paired. ground arith }

  module _ (stops : Stops k) where
    next_stop-Does : (s : Side) → Does (turns 1 s) (next_stop k s)
    unfolding next_stop
    next_stop-Does s = request_cont-Does s ▷ wait_variant-Does k stops s

    repeat_call-Does : (s : Side) → Does (turns 1 s) (repeat_call k s)
    unfolding repeat_call
    repeat_call-Does s = change_regs-Keeps s _ ▹ next_stop-Does s

    run_call-At :
        (caps : Caps) (s : Side) (w : World) (c' : Control)
        → IsPaired w
        → run (turns 1 s) (control w) ≡ some c'
        → Returns (At c') (run_call k caps s w)
    unfolding run_call wait_checked monad request
    run_call-At caps first w c' paired e =
        ground (arith, stops (cont w.master.pid ∷ w.trace) w.master.pid)
    run_call-At caps second w c' paired e =
        ground (arith, stops (cont w.replica.pid ∷ w.trace) w.replica.pid)

    run_call-Does : (caps : Caps) (s : Side) → Does (turns 1 s) (run_call k caps s)
    run_call-Does caps s = record { apply = run_call-At caps s }

vm_write-At :
    (s : Side) (local : Buf) (remote size : ℕ) (o : Option ℕ) (vm : Vm) (w : World)
    → vm.writev w.trace (variant s w).pid remote size ≡ o
    → IsPaired w
    → Leaves (At (control w)) (vm_write_variant_mem vm s local remote size w)
unfolding vm_write_variant_mem
vm_write-At first local remote size none vm w e paired = rw (e, Leaves) (paired, refl)
vm_write-At second local remote size none vm w e paired = rw (e, Leaves) (paired, refl)
vm_write-At first local remote size (some n) vm w e paired = rw (e, Leaves) (ground arith)
vm_write-At second local remote size (some n) vm w e paired = rw (e, Leaves) (ground arith)

vm_write_variant_mem-Keeps :
    (vm : Vm) (s : Side) (local : Buf) (remote size : ℕ)
    → Keeps (vm_write_variant_mem vm s local remote size)
vm_write_variant_mem-Keeps vm s local remote size = record {
  apply = λ w. vm_write-At s local remote size _ vm w refl;
}

module _ (k : Kernel) (vm : Vm) (caps : Caps) (s : Side) where
  capget_of-At :
      (o : Option Buf) (w : World)
      → caps.capget w.trace (variant s w).pid ≡ o
      → IsPaired w
      → Leaves (At (control w)) (capget_of k vm caps s w)
  unfolding capget_of
  capget_of-At none w e paired = rw (e, Leaves) (paired, refl)
  capget_of-At (some cap_data) w e paired = rw (e, Leaves) (paired, refl)

  capget_of-Keeps : Keeps (capget_of k vm caps s)
  capget_of-Keeps = record { apply = λ w. capget_of-At _ w refl }

  variant_change_ptrace_cap-Does :
      Stops k
      → (stack : ℕ) (raises : Bool)
      → Does (turns 2 s) (variant_change_ptrace_cap k vm caps s stack raises)
  unfolding variant_change_ptrace_cap
  variant_change_ptrace_cap-Does stops stack raises =
      Does-append (turns 1 s) (turns 1 s) (repeat_call-Does k stops s) (
        Does-skip capget_of-Keeps λ cap_data. Does-skip (Keeps-gets _) λ pid.
          Keeps-or_else 0 (vm_write_variant_mem-Keeps vm s _ _ _)
          ▹ Keeps-or_else 0 (vm_write_variant_mem-Keeps vm s _ _ _)
          ▹ change_regs-Keeps k s _
          ▹ run_call-Does k stops caps s)

transfer_variant_mem_direct-Does :
    (k : Kernel) (vm : Vm) (caps : Caps) (source dest : Side)
    (source_buf dest_buf size source_stack dest_stack : ℕ)
    → Stops k
    → Does (turns 6 dest) (
        transfer_variant_mem_direct k vm caps source source_buf dest dest_buf size source_stack
          dest_stack)
unfolding transfer_variant_mem_direct
transfer_variant_mem_direct-Does k vm caps source dest source_buf dest_buf size source_stack
      dest_stack stops =
    Does-append (turns 2 dest) (turns 4 dest)
      (variant_change_ptrace_cap-Does k vm caps dest stops dest_stack true)
      (Does-append (turns 1 dest) (turns 3 dest) (next_stop-Does k stops dest) (
        Keeps-or_else 0 (vm_write_variant_mem-Keeps vm dest _ _ _)
        ▹ Keeps-or_else 0 (vm_write_variant_mem-Keeps vm dest _ _ _)
        ▹ Does-skip (Keeps-gets _) λ source_pid.
          change_regs-Keeps k dest _
          ▹ Does-append (turns 1 dest) (turns 2 dest) (run_call-Does k stops caps dest) (
              request_syscall_info-Keeps k dest
              ▹ Does-skip (Keeps-gets _) λ result.
                Keeps-require _
                ▹ Keeps-require _
                ▹ Does-skip (Keeps-gets _)
                    λ stack. variant_change_ptrace_cap-Does k vm caps dest stops stack false)))

-- A variant has been resumed so many times more, and is stopped.
abbrev pub resumed : Side → ℕ → Control → Control
resumed s n c =
    set_view s (record (view_of s c) { conts = (view_of s c).conts + n; runs = false }) c

six_more : (n : ℕ) → suc (suc (suc (suc (suc (suc n))))) ≡ n + 6
six_more n = omega arith

turns-resumed : (s : Side) (c : Control) → run (turns 6 s) c ≡ some (resumed s 6 c)
turns-resumed first c =
    ap (λ n. some (set_view first (record c.master { conts = n; runs = false }) c))
      (six_more c.master.conts)
turns-resumed second c =
    ap (λ n. some (set_view second (record c.replica { conts = n; runs = false }) c))
      (six_more c.replica.conts)

-- Let a tracee that was resumed stop again. Then transferVariantMemDirect returns, and unless the
-- result is -1, it has resumed the destination six times and awaited it each time; so the destination
-- is stopped where its calls' entries and exits alternate as they did before, and neither it nor the
-- source is counted or marked in another way.
pub transfer_variant_mem_direct-Returns :
    (k : Kernel) (vm : Vm) (caps : Caps) (source dest : Side)
    (source_buf dest_buf size source_stack dest_stack : ℕ) (w : World)
    → Stops k
    → IsPaired w
    → Returns (At (resumed dest 6 (control w))) (
        transfer_variant_mem_direct k vm caps source source_buf dest dest_buf size source_stack
          dest_stack w)
transfer_variant_mem_direct-Returns k vm caps source dest source_buf dest_buf size source_stack
      dest_stack w stops paired =
    (transfer_variant_mem_direct-Does k vm caps source dest source_buf dest_buf size source_stack
        dest_stack stops).apply
      w (resumed dest 6 (control w)) paired (turns-resumed dest (control w))
