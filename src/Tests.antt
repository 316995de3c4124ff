-- ===== src/Tests.antt =====
-- Small kernels and states on which the monitor's functions are run.
pub mod Executors
pub mod Maps
pub mod Memory
pub mod Runs
pub mod Tables
pub mod Bytes
pub mod Copies
pub mod Direct
pub mod Progress
pub mod Startup
use aurora_mvee.Base.{
  ℕ, zero, suc, ◌+◌, ◌-◌, ◌*◌, ◌/◌, ◌%◌, ◌^◌, ◌≤◌, ◌<◌, ◌≡◌, ◌≢◌, refl, ap, sym, ◌∙◌, subst, Bool,
  true, false, Option, none, some, List, [], ◌∷◌, ◌++◌, arith, ltb, leb, ◌&&◌, ◌==◌, ◌↔◌,
  if◌then◌else◌, Bool-cases, inl, inr,
}
use aurora_mvee.Kernel.{
  Pid, Addr, Trace, Kernel, Stop, no_stop, entry_stop, exit_stop, Status, stopped, cont, waited,
  event, poke_data,
}
use aurora_mvee.Kernel.Laws.{conts, running, Stops, Alternates}
use aurora_mvee.World.{
  World, Variant, State, VType, Op, SyscallInfo, Mapping, Buf, first, second, variant, other, log,
  info_of,
}
use aurora_mvee.World.Monad.{M, Outcome, ok, failed, blocked, terminated, monad}
use aurora_mvee.Words.Bytes.{word, byte-word}
use aurora_mvee.Memory.{
  read_variant_mem, write_variant_mem, transfer_variant_mem, variant_mem_cmp, variant_str_cmp,
}
use aurora_mvee.Memory.Read.{Readable, read_variant_mem-Copied}
use aurora_mvee.Memory.Write.{memory, Written, write_variant_mem-Written}
use aurora_mvee.Memory.Transfer.{transfer_variant_mem-copies}
use aurora_mvee.Memory.Compare.{Agrees, variant_mem_cmp-Agrees}
use aurora_mvee.Memory.Strings.{variant_str_cmp-fails}
use aurora_mvee.Executors.Guards.{differing_args-refused}
use aurora_mvee.Executors.Refusals.{RefusedFrom, short_path-RefusedFrom}
use aurora_mvee.Protocol.Failure.{KillsOnFailure, process_variant_event-Kills}
use aurora_mvee.Variant.{
  init_variant, wait_pid, configure_child_proc, resume_variant_from_wait, resume_variant_from_exit,
  request, update, check_variant_exit, request_syscall_info,
}
use aurora_mvee.Executors.Args.{resume_both}
use aurora_mvee.Executors.Plain.{exec_syscall_brk}
use aurora_mvee.Monitor.{
  reported, variant_event, process_entry, sync_or_kill, process_syscall_sync, dispatch, main_start,
  main_round, process_variant_event, exec_syscall,
}
use aurora_mvee.Monitor.Numbers.{Syscall, select}
use aurora_mvee.Protocol.{control, IsPaired, run, At, Returns, Control}
use aurora_mvee.Protocol.Dispatch.{script, exec_syscall-script}
use aurora_mvee.Lockstep.{Lane, InLanes, InStep, Reports, Avoids}
use aurora_mvee.Lockstep.Runs.{Reach, here, next, main-InStep, process_variant_event-InStep}

-- Two programs that make the same call for ever: the entry and exit stops of each alternate.
abbrev pub stop_at : ℕ → ℕ → Stop
stop_at number n = if n % 2 == 1 then entry_stop number (λ i. 0) else exit_stop 0 0

abbrev pub reported_next : Trace → Option (Pid × Status)
reported_next t =
    if running 10 t
    then some (10, stopped 5)
    else (if running 11 t then some (11, stopped 5) else none)

abbrev pub calling : ℕ → Kernel
calling number = record {
  stop = λ t p. stop_at number (conts p t);
  status = λ t p. some (stopped 5);
  next = reported_next;
  peek = λ t p a. 0;
  regs = λ t p r. 0;
}

-- Both call `brk`.
abbrev pub kernel : Kernel
kernel = calling 12

pub kernel-Stops : Stops kernel
kernel-Stops t p ran = (5, refl)

stop_at-odd : (number m n : ℕ) → m ≡ 2 * n + 1 → stop_at number m ≡ entry_stop number (λ i. 0)
stop_at-odd number m n odd = let test : (m % 2 == 1) ≡ true = ground (arith, odd) in rw test refl

stop_at-even : (number m n : ℕ) → m ≡ 2 * n + 2 → stop_at number m ≡ exit_stop 0 0
stop_at-even number m n even =
    let test : (m % 2 == 1) ≡ false = ground (arith, even) in rw test refl

pub kernel-Alternates : Alternates kernel
kernel-Alternates = record {
  at_entry = λ t p n stopped odd. (12, λ i. 0, stop_at-odd 12 (conts p t) n odd);
  at_exit = λ t p n stopped even. (0, 0, stop_at-even 12 (conts p t) n even);
}

abbrev pub nr_of : Stop → ℕ
nr_of (entry_stop nr args) = nr
nr_of _ = 12

nr_of-stop_at : (n : ℕ) → nr_of (stop_at 12 n) ≡ 12
nr_of-stop_at n = ground arith

stop_at-nr :
    (n nr : ℕ) (args : ℕ → ℕ) → stop_at 12 n ≡ entry_stop nr args → select nr ≡ some Syscall.brk
unfolding select
stop_at-nr n nr args e =
    subst (λ x. select x ≡ some Syscall.brk) (sym (nr_of-stop_at n) ∙ ap nr_of e) refl

pub kernel-Avoids : Avoids kernel
kernel-Avoids = record {
  shutdown = λ t p nr args e is. cc (stop_at-nr (conts p t) nr args e, is);
  pselect6 = λ t p nr args e is. cc (stop_at-nr (conts p t) nr args e, is);
}

pub reported_pid :
    {p q : Pid} {st st' : Status}
    → ◌≡◌ {A = Option (Pid × Status)} (some (p, st)) (some (q, st'))
    → p ≡ q
reported_pid e = cc

pub kernel-Reports : Reports kernel
kernel-Reports t p st e = elim (Bool-cases (running 10 t)) [
  | inl ran ↦ subst (λ q. running q t ≡ true) (reported_pid (rw ran at e)) ran
  | inr stopped_10 ↦ elim (Bool-cases (running 11 t)) [
    | inl ran ↦ subst (λ q. running q t ≡ true) (reported_pid (rw (stopped_10, ran) at e)) ran
    | inr stopped_11 ↦ cc (rw (stopped_10, stopped_11) at e)
  ]
]

abbrev pub unused : VType → Variant
unused type = record {
  pid = 0;
  state = State.running;
  type = type;
  syscall_num = 0;
  syscall_info = record { op = Op.none; words = λ i. 0 };
}

abbrev pub initial : World
initial = record {
  master = unused VType.master;
  replica = unused VType.replica;
  mappings = [];
  buf_a = λ i. 0;
  buf_b = λ i. 0;
  stat_buf_a = λ i. 0;
  stat_buf_b = λ i. 0;
  trace = [];
}

abbrev pub world_of : {A : Type 0} → Outcome A → World
world_of (ok a w) = w
world_of (failed w) = w
world_of (blocked w) = w
world_of (terminated w) = w

-- A kernel whose tracees have at each address a byte that depends on the address and the tracee.
abbrev pub content : Pid → ℕ → ℕ
content p x = (x + p) % 256

abbrev pub reading : Kernel
reading = record {
  stop = λ t p. exit_stop 4096 0;
  status = λ t p. some (stopped 5);
  next = λ t. none;
  peek = λ t p a. word (λ j. content p (a + j));
  regs = λ t p r. 0;
}

pub reading-Readable : (t : Trace) (p : Pid) (lo hi : Addr) → Readable reading t p (content p) lo hi
reading-Readable t p lo hi a i above below lt =
    byte-word (λ j. content p (a + j)) i (λ j. omega arith) lt

-- A variant that stands at the entry of a call.
abbrev pub at_entry : VType → Pid → (number : ℕ) → (args : ℕ → ℕ) → Variant
at_entry type p number args = record {
  pid = p;
  state = State.wait;
  type = type;
  syscall_num = 3;
  syscall_info = info_of (entry_stop number args);
}

abbrev pub calls : (args_m args_r : ℕ → ℕ) → List Mapping → World
calls args_m args_r maps = record initial {
  master = at_entry VType.master 10 0 args_m;
  replica = at_entry VType.replica 11 0 args_r;
  mappings = maps;
}

abbrev pub args3 : (a b c : ℕ) → ℕ → ℕ
args3 a b c zero = a
args3 a b c (suc zero) = b
args3 a b c (suc (suc zero)) = c
args3 a b c (suc (suc (suc i))) = 0

abbrev pub same_calls : List Mapping → World
same_calls = calls (args3 240 4096 3) (args3 240 4096 3)

pub IsPaired-same_calls : IsPaired (same_calls [])
IsPaired-same_calls = ground arith
