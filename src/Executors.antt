-- ===== src/Executors.antt =====
-- The executors of Monitor/src/sys/: one function for each system call, run when both variants have
-- reached its entry. A result of 0 is `ok`, and -1 is `failed`.
pub mod Args
pub mod Compared
pub mod Given
pub mod Guards
pub mod Plain
pub mod Poll
pub mod Reads
pub mod Refusals
pub mod Replicated
pub mod Results
pub mod Seek
pub mod Shared
pub mod Stat
pub mod StatPath
pub mod Tables
pub mod Writes
pub mod Paths
pub mod Mapped
pub mod Maps
pub mod Data
pub mod Differing
pub mod Errors
pub mod Net
pub mod Nops
