-- ===== src/Monitor/Numbers.antt =====
-- The system calls that `processSyscallSync` of Monitor/src/monitor.c knows, with the numbers that
-- <sys/syscall.h> gives them on x86-64.
use aurora_mvee.Base.{ℕ, Option, none, some, List, [], ◌∷◌, ◌==◌, if◌then◌else◌}

pub data Syscall : Type 0 where
  getuid geteuid getgid getegid brk mmap read arch_prctl openat close : Syscall
  write pread64 newfstatat access set_tid_address set_robust_list mprotect munmap rseq : Syscall
  fadvise64 getrandom exit_group prlimit64 rt_sigaction rt_sigprocmask unlink utimensat : Syscall
  fchown fchmod lseek getcwd getpid chdir socket setsockopt bind listen accept4 poll : Syscall
  shutdown getsockname pselect6 : Syscall

-- The `case` labels of the switch, in its order.
abbrev pub cases : List (ℕ × Syscall)
cases =
    (102, getuid)
    ∷ (107, geteuid)
    ∷ (104, getgid)
    ∷ (108, getegid)
    ∷ (12, brk)
    ∷ (9, mmap)
    ∷ (0, read)
    ∷ (158, arch_prctl)
    ∷ (257, openat)
    ∷ (3, close)
    ∷ (1, write)
    ∷ (17, pread64)
    ∷ (262, newfstatat)
    ∷ (21, access)
    ∷ (218, set_tid_address)
    ∷ (273, set_robust_list)
    ∷ (10, mprotect)
    ∷ (11, munmap)
    ∷ (334, rseq)
    ∷ (221, fadvise64)
    ∷ (318, getrandom)
    ∷ (231, exit_group)
    ∷ (302, prlimit64)
    ∷ (13, rt_sigaction)
    ∷ (14, rt_sigprocmask)
    ∷ (87, unlink)
    ∷ (280, utimensat)
    ∷ (93, fchown)
    ∷ (91, fchmod)
    ∷ (8, lseek)
    ∷ (79, getcwd)
    ∷ (39, getpid)
    ∷ (80, chdir)
    ∷ (41, socket)
    ∷ (54, setsockopt)
    ∷ (49, bind)
    ∷ (50, listen)
    ∷ (288, accept4)
    ∷ (7, poll)
    ∷ (48, shutdown)
    ∷ (51, getsockname)
    ∷ (270, pselect6)
    ∷ []

unfoldable pub first_case : ℕ → List (ℕ × Syscall) → Option Syscall
first_case nr [] = none
first_case nr ((n, call) ∷ rest) = if nr == n then some call else first_case nr rest

-- The case that a number selects; `none` is `default`.
unfoldable pub select : ℕ → Option Syscall
unfolding first_case
select nr = first_case nr cases

-- The constant SYS_<name> of a call.
unfoldable pub number_of : Syscall → ℕ
number_of getuid = 102
number_of geteuid = 107
number_of getgid = 104
number_of getegid = 108
number_of brk = 12
number_of mmap = 9
number_of read = 0
number_of arch_prctl = 158
number_of openat = 257
number_of close = 3
number_of write = 1
number_of pread64 = 17
number_of newfstatat = 262
number_of access = 21
number_of set_tid_address = 218
number_of set_robust_list = 273
number_of mprotect = 10
number_of munmap = 11
number_of rseq = 334
number_of fadvise64 = 221
number_of getrandom = 318
number_of exit_group = 231
number_of prlimit64 = 302
number_of rt_sigaction = 13
number_of rt_sigprocmask = 14
number_of unlink = 87
number_of utimensat = 280
number_of fchown = 93
number_of fchmod = 91
number_of lseek = 8
number_of getcwd = 79
number_of getpid = 39
number_of chdir = 80
number_of socket = 41
number_of setsockopt = 54
number_of bind = 49
number_of listen = 50
number_of accept4 = 288
number_of poll = 7
number_of shutdown = 48
number_of getsockname = 51
number_of pselect6 = 270
