-- ===== src/Vm.antt =====
-- The memory transfers of Monitor/src/variant.c as they are built without USE_PTRACE_TRANSFER, by
-- process_vm_readv and process_vm_writev.
pub mod Same
use aurora_mvee.Base.{ℕ, Option, none, some, Bool, ltb, leb, ◌==◌, if◌then◌else◌}
use aurora_mvee.Kernel.{Pid, Addr, Trace, vm_write}
use aurora_mvee.World.{Buf, Side, variant, log}
use aurora_mvee.World.Monad.{M, ok, failed, gets, modify, require, ◌>>=◌, ◌>>◌}
use aurora_mvee.Memory.{buf_size}

-- The answers of the operating system; `none` is -1.
pub record Vm : Type 0 where
  -- process_vm_readv of some bytes of a variant: how many it has read, and these
  pub readv : Trace → Pid → Addr → (size : ℕ) → Option (ℕ × Buf)
  -- process_vm_writev of some bytes to a variant: how many it has written
  pub writev : Trace → Pid → Addr → (size : ℕ) → Option ℕ

-- The local buffer after `n` bytes have been read into it.
unfoldable pub received : (n : ℕ) (bytes local : Buf) → Buf
received n bytes local j = if ltb j n then bytes j else local j

module _ (vm : Vm) where
  -- `readVariantMem`
  unfoldable pub vm_read_variant_mem : Side → (local : Buf) (remote : Addr) (size : ℕ) → M (ℕ × Buf)
  vm_read_variant_mem s local remote size w =
      let answer = vm.readv w.trace (variant s w).pid remote size in
      if ltb buf_size size
      then failed w
      else elim answer [ none ↦ failed w | some (n, bytes) ↦ ok (n, received n bytes local) w ]

  -- `writeVariantMem`
  unfoldable pub vm_write_variant_mem : Side → (local : Buf) (remote : Addr) (size : ℕ) → M ℕ
  vm_write_variant_mem s local remote size w =
      let p = (variant s w).pid in
      elim (vm.writev w.trace p remote size) [
        | none ↦ failed w
        | some n ↦ ok n (log (vm_write p remote n local) w)
      ]

  -- `transferVariantMem`
  unfoldable pub vm_transfer_variant_mem :
      (source : Side) (source_buf : Addr) (dest : Side) (dest_buf : Addr) (size : ℕ) → M (Unit {0})
  vm_transfer_variant_mem source source_buf dest dest_buf size = do
    require (leb size buf_size)
    local ← gets λ w. w.buf_a
    (read, buf) ← vm_read_variant_mem source local source_buf size
    modify λ w. record w { buf_a = buf }
    require (read == size)
    written ← vm_write_variant_mem dest buf dest_buf size
    require (written == size)
