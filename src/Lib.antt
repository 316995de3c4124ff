-- ===== src/Lib.antt =====
-- The monitor of AuroraMVEE, a multi-variant execution environment. It runs a program twice, as a
-- master and a replica, under ptrace. Whenever both have reached the entry of the same system call,
-- it compares their arguments, lets the master or both of them run the call, and gives the replica
-- the master's results.
--
-- The parts, and the files that model them:
-- * Monitor/src/monitor.c is Monitor.antt: `main` (main_start and rounds of main_round),
--   `processVariantEvent`, which handles one event of one variant (process_entry is the entry of a
--   call, by_op all the kinds of stop), and `processSyscallSync`, whose switch is `select`
--   (Monitor/Numbers) and exec_syscall. Monitor/src/sys/syscall_util.h is Monitor/Names.
-- * Startup.antt is `main` up to its loop, with the cores that it takes (begin_main), and the child of
--   `createVariant` (create_variant); what the operating system answers to them is a parameter, Host.
-- * Monitor/src/variant.c is Variant.antt (starting, resuming and awaiting a variant) and
--   Memory.antt (the transfer, word by word, and the comparison of the variants' memory).
-- * Vm.antt is the transfer of variant.c as it is built without USE_PTRACE_TRANSFER, and Direct.antt what
--   is built with USE_DIRECT_TRANSFER besides. Monitor/src/compile_options.h leaves out both. Their
--   answers of the operating system are parameters, Vm and Caps.
-- * Monitor/src/sys/*.c are the executors, one for each system call: Executors/Plain (those that
--   compare arguments and let both variants run), Results (those that replicate a result), Paths,
--   Maps, Data and Net.
-- * Monitor/src/mappings.c is Mappings.antt, and Monitor/src/security_manager.c is Security.antt.
-- * World.antt is the state: the two `variant` structures of `main` (a pointer to one of them is a
--   Side), the global buffers, the table of mappings, and a trace of the requests that have been
--   made of the operating system. A function is a step on this state (World/Monad.antt): it returns
--   (ok), returns -1 (failed), waits for ever (blocked) or calls exit (terminated). A function of C
--   has its name, in lower case with underscores.
-- * Kernel.antt is the operating system with the two programs: a parameter, which answers a request
--   by any function of the requests so far. What ptrace(2) and wait(2) say of the answers is in
--   Kernel/Laws.antt and Lockstep.antt (Stops, Alternates, Reports); each theorem that needs it has it
--   as a hypothesis, and so are Wakes and Children of Lockstep/Progress, Pins and Born of Startup/Cores,
--   Reaped and Lives of Startup/Hangs, Remembers of Memory/RoundTrip and Reads of Vm/Same. The files
--   under Tests have kernels that satisfy all of them.
-- * Protocol.antt gives each executor a script, the sequence of resumptions and waits that matters
--   for the synchronisation (Protocol/Dispatch lists them); Lockstep.antt is the invariant of
--   the loop, and Lockstep/Phases is what the loop promises: a rendezvous of the two variants at every
--   system call, which Lockstep/Refinement relates to the loop.
-- * The other files hold theorems on what these files define: those in Memory and Mappings on the
--   transfer and on the table, those in Executors on single calls, Monitor/Tables on the two switches,
--   Protocol/Divergence and Protocol/Failure on variants that are killed, Lockstep/Progress and
--   Lockstep/Ends on how the loop of `main` goes on and ends.
--
-- Integers are natural numbers: a `long` is its pattern of 64 bits, a cast to `int` is `to_int`, and a
-- sum that can wrap is taken modulo 2 ^ 64 (Words.antt). A buffer is a function from offsets to bytes.
-- The entry and the exit of a system call share the union of `struct ptrace_syscall_info`, whose
-- words are kept, so that reading an argument after the call reads what the exit has left there.
--
-- The loops of readVariantMem and writeVariantMem have the size as their fuel, since every round takes
-- at least one byte. The loops that read a string have the size of the buffer as their fuel, since
-- every round but the last adds to a size that is below it. main_loop has the number of rounds as an
-- argument, for the loop of `main` does not end by itself.
--
-- Not modelled: the processes that fork makes (the process ids are arguments of main_start, and what a
-- child does before it runs the program is a list of acts), output for debugging, the calls of the code
-- in Direct.antt and the capabilities of the children, which only the build with USE_DIRECT_TRANSFER
-- has, LinkerScripts/a3.ld, and the programs under Monitor/test.
pub mod Base
pub mod Words
pub mod Kernel
pub mod World
pub mod Security
pub mod Mappings
pub mod Variant
pub mod Memory
pub mod Vm
pub mod Direct
pub mod Executors
pub mod Monitor
pub mod Startup
pub mod Protocol
pub mod Lockstep
pub mod Tests
