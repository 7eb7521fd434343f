-- ===== src/Auth.antt =====
-- The authorization engine, access_control/rootfs/opt/access_control/auth_engine.py: the alarm
-- state, the lockdown, the locks of a location and the decision on an access event.
pub mod Alarm
pub mod Lockdown
pub mod Database
pub mod Tables
pub mod Locks
pub mod Round
pub mod Process
mod Tests
