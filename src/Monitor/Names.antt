-- ===== src/Monitor/Names.antt =====
-- The names of system calls, for the debug output: Monitor/src/sys/syscall_util.h.
use aurora_mvee.Base.{ℕ, List, [], ◌∷◌, ◌==◌, if◌then◌else◌}
use Prim.Native.String.{String}

-- The `case` labels of the switch, in its order, with the texts of the constants.
abbrev pub named_cases : List (ℕ × String)
named_cases =
    (0, "read")
    ∷ (3, "close")
    ∷ (9, "mmap")
    ∷ (10, "mprotect")
    ∷ (12, "brk")
    ∷ (21, "access")
    ∷ (59, "execve")
    ∷ (158, "arch_prctl")
    ∷ (218, "set_tid_address")
    ∷ (221, "fadvise64")
    ∷ (257, "openat")
    ∷ (262, "newfstatat")
    ∷ (273, "set_robust_list")
    ∷ (302, "prlimit64")
    ∷ (318, "getrandom")
    ∷ (332, "statx")
    ∷ (334, "rseq")
    ∷ (231, "exit_group")
    ∷ (11, "munmap")
    ∷ (1, "write")
    ∷ (17, "pread64")
    ∷ (13, "rt_sigaction")
    ∷ (14, "rt_sigprocmask")
    ∷ (280, "utimensat")
    ∷ (87, "unlink")
    ∷ (93, "fchown")
    ∷ (91, "fchmod")
    ∷ (102, "getuid")
    ∷ (107, "geteuid")
    ∷ (104, "getgid")
    ∷ (108, "getegid")
    ∷ (8, "lseek")
    ∷ (79, "getcwd")
    ∷ (39, "getpid")
    ∷ (80, "chdir")
    ∷ (41, "socket")
    ∷ (54, "setsockopt")
    ∷ (49, "bind")
    ∷ (50, "listen")
    ∷ (288, "accept4")
    ∷ (7, "poll")
    ∷ (48, "shutdown")
    ∷ (51, "getsockname")
    ∷ (270, "pselect6")
    ∷ []

unfoldable pub first_name : ℕ → List (ℕ × String) → String
first_name nr [] = "unknown"
first_name nr ((n, name) ∷ rest) = if nr == n then name else first_name nr rest

-- `getSyscallName`
unfoldable pub get_syscall_name : ℕ → String
unfolding first_name
get_syscall_name nr = first_name nr named_cases
