-- ===== src/Lib.antt =====
-- Access control for doors, from access_control/rootfs/opt/access_control/ of the repository (all
-- source files below are in that folder): an engine decides which locks a tap opens, a relock
-- manager closes external locks again after a time, the clients of other services have a circuit
-- breaker, and logins and actions are limited in number.
--
-- The parts and their files:
--   Prelude, Text           shared helpers: lists, association lists, tests on numbers and strings;
--                           Python's `str` methods and `int()` on ASCII texts, as lists of codes
--   CircuitBreaker          circuit_breaker.py: `is_open`, `record_success`, `record_failure`,
--                           `abort_probe`
--   Schedule                auth_engine.py: `_check_schedule`, used for groups and for access rules
--   Auth.Alarm              auth_engine.py: `_get_alarm_state` with its cache, and the alarm gate
--   Auth.Lockdown           auth_engine.py: `set_lockdown`, `load_persisted_lockdown`, and the check
--                           of the flag under the command barrier
--   Auth.Locks              auth_engine.py: `get_locks_for_location`
--   Auth.Round              auth_engine.py: the loop of `process_event` over the locks
--   Auth.Process            auth_engine.py: `process_event`, which uses the parts of `Auth` above
--   Auth.Database           the queries that `process_event` makes, as a record of functions
--   Auth.Tables             database.py: the tables behind these queries and the queries on them; a
--                           query of an event answers from them or fails
--   Relock.Rows             database.py: the table `pending_relocks` and its statements
--   Relock.Manager          relock_manager.py: the state of `RelockManager`, and the monad of its
--                           methods, which may raise and keep what they did before
--   Relock.Timers           `schedule`, `restore_after_failed_unlock`, `retain_after_uncertain_unlock`,
--                           `extend_after_success`, `cancel`, `pause`, `resume`, `shutdown`
--   Relock.Fire             `_wait_and_lock`, `_call_ha_lock`, `_notify_relock_failed`
--   Relock.Recover          `_recover_or_schedule`, `rehydrate`, `sweep_overdue`,
--                           `pending_relock_status`
--   Relock.Keeps, Relock.Due  invariants of a method, and the durable deadline of a door, which
--                           `Unlock` and `Actions` share
--   Unlock                  auth_engine.py: `_unlock_ha_external`, which calls the relock manager
--   Actions                 lock_actions.py: `execute_lock_action` with `_audit_result` and
--                           `_auto_disarm` (`Native` and `External` are its two kinds of lock), and
--                           `publish_lock_state` in `Actions.Cache`; it calls the relock manager
--   HubSync                 hub_sync.py: the ownership of hubs that are held open or locked, with
--                           the table `hub_sync_holds` of database.py; `Drive` is `_drive_hub`,
--                           `Apply` is `_apply_state`, `Release` the queue of releases,
--                           `Observe` the writes outside these, `Recover` what `recover` does, and
--                           `Marker` the clean-shutdown marker of `shutdown` and `recover`
--   RateLimit               database.py: the table `rate_limits`, its four operations, which the
--                           login, the setup, the API keys and the actions of a page use,
--                           and in `Prune` the deletion of stale rows
-- The modules below these hold the proofs, and `Tests` in each part runs it on small inputs.
--
-- How state and waits are modelled. A method that holds its locks from end to end is one function
-- on the state. A timer and a recovery let others run while they wait: what the others do to the
-- manager is an argument of each wait, and `Relock.Interleaving` lets it be any sequence of steps.
-- A lockdown transition is cut at its waits into the steps of a relation, and interleaves with
-- unlocks, cancellations and restarts. The database of the manager fails as a list of Booleans says;
-- a transaction runs whole or raises. Queries of the engine answer a value or raise, and it reads
-- the clock anew at each schedule that it checks.
--
-- Numbers and bounds. Times are natural numbers of ticks, so that a difference is written as a sum;
-- the source has floating-point seconds. The loops are over lists, or over the counters
-- `_LOCK_RETRIES` = 2, `_CONFIRM_ATTEMPTS` = 3 and `_HA_CONFIRM_ATTEMPTS` = 3, so no fuel is
-- needed. Python's sets are lists in the order in which they are made; no theorem depends on that
-- order except where it speaks of the order of a list. `ORDER BY` of the database is a parameter,
-- which is only taken to return rows of its argument.
--
-- What is left out: log messages, the names of tasks, the callbacks `on_locked` and `on_unknown`
-- beyond the fact that they are called (they are taken to be given), and the client lease of Home
-- Assistant. `process_event` takes what the alarm's panels answer and the outcome that each unlock
-- met as arguments; `Unlock` is the driver of one kind of lock, without its marks in the hub
-- synchronisation. A manual action takes the answers of the clients as arguments; a cancellation
-- inside a call of the relock manager or of the database, and the decryption of a panel's code, are
-- left out of it. `HubSync` leaves out time (the back-off and the damping of flapping locks), the
-- confirmed states of relays and the decisions that lead to a call. The driver of UniFi Access doors
-- for a credential, the web application, the HTTP clients, the rest of the synchronisation of hubs
-- and the rest of the database are not modelled, because they are input and output or stand apart
-- from these parts.
pub mod HubSync
pub mod Prelude
pub mod CircuitBreaker
pub mod Text
pub mod Schedule
pub mod Relock
pub mod Auth
pub mod RateLimit
pub mod Unlock
pub mod Actions
