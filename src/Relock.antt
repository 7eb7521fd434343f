-- ===== src/Relock.antt =====
-- The automatic re-lock of doors: relock_manager.py and the table `pending_relocks` of database.py,
-- both in access_control/rootfs/opt/access_control/.
pub mod Rows
pub mod Manager
pub mod Timers
pub mod Fire
pub mod Recover
pub mod Keeps
pub mod Invariant
pub mod Interleaving
pub mod Undo
pub mod Retain
pub mod Outcome
pub mod Due
mod Tests
