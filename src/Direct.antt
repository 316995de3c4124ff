-- ===== src/Direct.antt =====
-- The code of Monitor/src/variant.c and Monitor/src/monitor.c under USE_DIRECT_TRANSFER, which lets a
-- variant read the other one's memory by itself: it is made to call capset, process_vm_readv and capset
-- in place of what it would do. It is built without USE_PTRACE_TRANSFER, so that the monitor writes
-- with process_vm_writev.
pub mod Scripts
pub mod Writes
use aurora_mvee.Base.{
  ℕ, ◌+◌, ◌-◌, ◌*◌, ◌/◌, ◌%◌, ◌^◌, Bool, true, false, not, Option, none, some, leb, ◌==◌,
  if◌then◌else◌,
}
use aurora_mvee.Words.{u64_mod, minus_one, wrap, to_int}
use aurora_mvee.Words.Bytes.{byte}
use aurora_mvee.Kernel.{
  Kernel, Pid, Addr, Trace, Regs, cont, waited, set_regs, reg_rdx, reg_rsi, reg_rdi, reg_orig_rax,
}
use aurora_mvee.World.{log, Buf, Side, variant, nr, rval}
use aurora_mvee.World.Monad.{M, ok, failed, blocked, gets, require, or_else, ignore, ◌>>=◌, ◌>>◌}
use aurora_mvee.Variant.{
  request, resume_variant_from_wait, request_syscall_info, wait_variant, set_syscall_return_value,
}
use aurora_mvee.Vm.{Vm, vm_write_variant_mem}

-- More answers of the operating system.
pub record Caps : Type 0 where
  -- the two `struct __user_cap_data_struct` that capget(2) stores; `none` if it returns -1
  pub capget : Trace → Pid → Option Buf
  -- whether a waitpid that has no stop to return returns -1, as it does for a process that is none of the
  -- monitor's; it waits for ever otherwise
  pub wait_fails : Trace → Pid → Bool
  -- the stack pointer of PTRACE_GET_SYSCALL_INFO
  pub stack_pointer : Trace → Pid → ℕ

-- The numbers of the calls and further registers, by their index in <sys/reg.h>.
abbrev pub sys_brk : ℕ
sys_brk = 12

abbrev pub sys_capset : ℕ
sys_capset = 126

abbrev pub sys_process_vm_readv : ℕ
sys_process_vm_readv = 310

abbrev pub reg_r10 : ℕ
reg_r10 = 7

abbrev pub reg_r9 : ℕ
reg_r9 = 8

abbrev pub reg_r8 : ℕ
reg_r8 = 9

abbrev pub reg_rip : ℕ
reg_rip = 16

-- `sizeof` of `struct __user_cap_header_struct`, two `struct __user_cap_data_struct` and `struct iovec`.
abbrev pub sizeof_cap_header : ℕ
sizeof_cap_header = 8

abbrev pub sizeof_cap_data : ℕ
sizeof_cap_data = 24

abbrev pub sizeof_iovec : ℕ
sizeof_iovec = 16

-- A difference of addresses.
unfoldable pub below : Addr → (size : ℕ) → Addr
below a size = wrap (a + (u64_mod - size))

-- `_LINUX_CAPABILITY_VERSION_3`, and the bytes of a header with it.
abbrev pub capability_version : ℕ
capability_version = 537396514

unfoldable pub cap_header : Pid → Buf
cap_header pid j = if leb 4 j then byte pid (j - 4) else byte capability_version j

-- `capdata[CAP_TO_INDEX(CAP_SYS_PTRACE)].effective`, with the bit 19 set or cleared: it is the bit 3 of
-- the third byte.
unfoldable pub set_effective : (raises : Bool) → Buf → Buf
set_effective raises old j =
    let bit = old j / 8 % 2 in
    if j == 2 then (if raises then old j + 8 * (1 - bit) else old j - 8 * bit) else old j

-- A `struct iovec`: the base and the length.
unfoldable pub iovec : Addr → (size : ℕ) → Buf
iovec base size j = if leb 8 j then byte size (j - 8) else byte base j

abbrev pub set_reg : Regs → (register value : ℕ) → Regs
set_reg regs register value r = if r == register then value else regs r

module _ (k : Kernel) where
  -- PTRACE_GETREGS, a change of the registers, and PTRACE_SETREGS.
  unfoldable pub change_regs : Side → (Regs → Regs) → M (Unit {0})
  change_regs s f w =
      let regs = k.regs w.trace (variant s w).pid in request s (λ p. set_regs p (f regs)) w

  -- On to the next stop.
  unfoldable pub next_stop : Side → M (Unit {0})
  next_stop s = do request s cont; wait_variant k s

  -- Back to the system call instruction, and on to the next stop.
  unfoldable pub repeat_call : Side → M (Unit {0})
  repeat_call s = do
    change_regs s λ regs. set_reg regs reg_rip (below (regs reg_rip) 2)
    next_stop s

  -- A waitpid of which only -1 is looked at.
  unfoldable pub wait_checked : Caps → Side → M (Unit {0})
  wait_checked caps s w =
      let p = (variant s w).pid in
      let w' = log (waited p) w in
      elim (k.status w'.trace p) [
        | none ↦ if caps.wait_fails w'.trace p then failed w' else blocked w'
        | some status ↦ ok tt w'
      ]

  -- PTRACE_SYSCALL, and the wait for the stop.
  unfoldable pub run_call : Caps → Side → M (Unit {0})
  run_call caps s = do request s cont; wait_checked caps s

module _ (k : Kernel) (vm : Vm) (caps : Caps) where
  unfoldable pub capget_of : Side → M Buf
  capget_of s w = elim (caps.capget w.trace (variant s w).pid) [
    | none ↦ failed w
    | some cap_data ↦ ok cap_data w
  ]

  -- `variantChangePtraceCap`, with the stack pointer of the information that `v` has. The result of
  -- capset is only printed.
  unfoldable pub variant_change_ptrace_cap :
      (v : Side) (stack_pointer : ℕ) (raises : Bool) → M (Unit {0})
  variant_change_ptrace_cap v stack_pointer raises =
      let header_addr = below stack_pointer sizeof_cap_header in
      let data_addr = below header_addr sizeof_cap_data in
      (do
        repeat_call k v
        cap_data ← capget_of v
        pid ← gets λ w. (variant v w).pid
        or_else 0 (vm_write_variant_mem vm v (cap_header pid) header_addr sizeof_cap_header)
        or_else 0
            (vm_write_variant_mem vm v (set_effective raises cap_data) data_addr sizeof_cap_data)
        change_regs k v λ regs.
            set_reg (set_reg (set_reg regs reg_orig_rax sys_capset) reg_rdi header_addr) reg_rsi
              data_addr
        run_call k caps v)

  -- `transferVariantMemDirect`, with the stack pointers of the information that both have. The second
  -- vector is put below the stack pointer of the source, into the destination. The first PTRACE_GETREGS
  -- and PTRACE_SETREGS have the structure `regs` itself, not its address, behind the three arguments that
  -- ptrace(2) reads as a request, a process and an address: no registers are read into `regs` or set from
  -- it, and the two are taken to have no effect, as with a pointer that ptrace refuses. So the destination
  -- is not set back to its system call instruction, and goes on to the next stop of its own.
  unfoldable pub transfer_variant_mem_direct :
      (source : Side) (source_buf : Addr) (dest : Side) (dest_buf : Addr) (size : ℕ)
      (source_stack dest_stack : ℕ)
      → M (Unit {0})
  transfer_variant_mem_direct source source_buf dest dest_buf size source_stack dest_stack =
      let local_addr = below dest_stack sizeof_iovec in
      let remote_addr = below source_stack (sizeof_iovec * 2) in
      (do
        variant_change_ptrace_cap dest dest_stack true
        next_stop k dest
        or_else 0 (vm_write_variant_mem vm dest (iovec dest_buf size) local_addr sizeof_iovec)
        or_else 0 (vm_write_variant_mem vm dest (iovec source_buf size) remote_addr sizeof_iovec)
        source_pid ← gets λ w. (variant source w).pid
        change_regs k dest λ regs.
            let r1 = set_reg (set_reg regs reg_orig_rax sys_process_vm_readv) reg_rdi source_pid in
            let r2 = set_reg (set_reg r1 reg_rsi local_addr) reg_rdx 1 in
            set_reg (set_reg (set_reg r2 reg_r10 remote_addr) reg_r8 1) reg_r9 0
        run_call k caps dest
        request_syscall_info k dest
        result ← gets λ w. rval (variant dest w)
        require (not (result == minus_one))
        require (result == size)
        stack ← gets λ w. caps.stack_pointer w.trace (variant dest w).pid
        variant_change_ptrace_cap dest stack false)

  -- `dropVariantsCap`
  unfoldable pub drop_variants_cap : (v : Side) → M (Unit {0})
  drop_variants_cap v = do
    call ← gets λ w. to_int (nr (variant v w))
    require (call == sys_brk)
    request v cont
    wait_variant k v
    request_syscall_info k v
    result ← gets λ w. to_int (rval (variant v w))
    stack ← gets λ w. caps.stack_pointer w.trace (variant v w).pid
    ignore (variant_change_ptrace_cap v stack false)
    set_syscall_return_value v result
    resume_variant_from_wait v
