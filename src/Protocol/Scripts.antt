-- ===== src/Protocol/Scripts.antt =====
-- The scripts that the executors follow, with the master as the first variant and the replica as
-- the second.
pub mod Enter
pub mod Complete
pub mod Transfer
pub mod Shapes
pub mod Sockets
pub mod Status
