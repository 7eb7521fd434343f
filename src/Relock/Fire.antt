-- ===== src/Relock/Fire.antt =====
-- `_wait_and_lock`, `_call_ha_lock` and `_notify_relock_failed` of relock_manager.py: a timer fires.
-- Home Assistant's answers and what other tasks do to the manager while this one waits are
-- arguments; the entity's lock keeps those of one entity apart between two waits.
use hassio_access_control.Prelude.{
  ℕ, zero, suc, ◌+◌, ◌-◌, String, Bool, true, false, not, ◌&&◌, ◌||◌, Option, none, some, ltb, ◌==◌,
  min, if◌then◌else◌, str_eq,
}
use hassio_access_control.Prelude.Map.{get, insert}
use hassio_access_control.Relock.Rows.{
  Row, get_pending_relock, remove_pending_relock_at_deadline, rows_at_deadline,
}
use hassio_access_control.Relock.Manager.{
  Clock, Manager, command_lock, on_locked, on_unknown, relock_failed, Method, ◌>>=◌, ◌>>◌, return,
  gets, modify, select, execute_counting, except, emit, cancel_locked, clear_overdue_notified,
}
use hassio_access_control.Relock.Timers.{is_current, is_task, is_live}

abbrev pub lock_retries : ℕ
lock_retries = 2

abbrev pub confirm_attempts : ℕ
confirm_attempts = 3

abbrev pub relock_renotify_interval : ℕ
relock_renotify_interval = 600

-- the sleep of `_wait_and_lock`; `-` stops at 0, as `max(0.0, remaining)` does
unfoldable pub sleep_time : ℕ → Option ℕ → Clock → ℕ
sleep_time deadline none now = deadline - now.wall
sleep_time deadline (some monotonic_deadline) now =
    min (deadline - now.wall) (monotonic_deadline - now.monotonic)

-- what Home Assistant answers to one attempt: no client, a refusal or an exception, or an accepted
-- command with the states that the readbacks return by their number (`none`: the readback raised)
pub data Answer : Type 0 where
  no_client refused : Answer
  accepted : (ℕ → Option String) → Answer

-- one attempt: what other tasks did since the last wait, and the answer; the numbers after the last
-- attempt say what they did in the waits that follow it
pub record Attempt : Type 0 where
  pub meanwhile : Manager → Manager
  pub answer : Answer

abbrev pub is_locked : Option String → Bool
is_locked none = false
is_locked (some state) = str_eq state "locked"

-- the confirmation loop: `n` readbacks are left, and the next is number `i`
unfoldable pub confirmed : ℕ → ℕ → (ℕ → Option String) → Bool
confirmed zero i states = false
confirmed (suc n) i states = let later = confirmed n (i + 1) states in is_locked (states i) || later

-- whether the durable row and the live task still ask for this command
abbrev pub may_command : String → ℕ → Option ℕ → Option Row → Manager → Bool
may_command entity_id deadline none current m =
    is_current current deadline && not (is_live (get entity_id m.tasks))
may_command entity_id deadline (some owner) current m = is_current current deadline

-- before the database is read
abbrev pub may_ask : String → Option ℕ → Manager → Bool
may_ask entity_id none m = not (m.shutting_down || m.paused entity_id)
may_ask entity_id (some owner) m =
    not (m.shutting_down || m.paused entity_id) && is_task (get entity_id m.tasks) owner

pub data Outcome : Type 0 where
  stopped confirmed_locked failed : Outcome

issue : String → Answer → Method Outcome
unfolding confirmed
issue entity_id no_client = return failed
issue entity_id refused = do emit (command_lock entity_id); return failed
issue entity_id (accepted states) = do
  emit (command_lock entity_id)
  return (if confirmed confirm_attempts 1 states then confirmed_locked else failed)

-- one round of the retry loop, under the entity's lock
unfoldable pub attempt_lock : String → ℕ → Option ℕ → Answer → Method Outcome
unfolding issue
attempt_lock entity_id deadline owner answer = do
  asked ← gets (may_ask entity_id owner)
  if not asked then return stopped else do
    current ← select (get_pending_relock entity_id)
    allowed ← gets (may_command entity_id deadline owner current)
    if not allowed then return stopped else issue entity_id answer

abbrev pub after_attempt : Method Bool → Outcome → Method Bool
after_attempt retry stopped = return false
after_attempt retry confirmed_locked = return true
after_attempt retry failed = retry

-- the retry loop of `_call_ha_lock`: `n` attempts are left, and the next is number `i`
unfoldable pub attempt_loop : ℕ → ℕ → String → ℕ → Option ℕ → (ℕ → Attempt) → Method Bool
attempt_loop zero i entity_id deadline owner attempts = return false
attempt_loop (suc n) i entity_id deadline owner attempts = do
  modify (attempts i).meanwhile
  outcome ← attempt_lock entity_id deadline owner (attempts i).answer
  after_attempt (attempt_loop n (i + 1) entity_id deadline owner attempts) outcome

-- `_call_ha_lock`
unfoldable pub call_ha_lock : String → ℕ → Option ℕ → (ℕ → Attempt) → Method Bool
call_ha_lock = attempt_loop lock_retries 1

-- the waits for the locks after the attempts: of the last section, and of `except Exception`
abbrev pub wait_again : (ℕ → Attempt) → Method (Unit {0})
wait_again attempts = modify (attempts (lock_retries + 1)).meanwhile

abbrev pub wait_crashed : (ℕ → Attempt) → Method (Unit {0})
wait_crashed attempts = modify (attempts (lock_retries + 2)).meanwhile

-- `last is not None and now - last < _RELOCK_RENOTIFY_INTERVAL`
abbrev pub is_recent : Option ℕ → ℕ → Bool
is_recent none now = false
is_recent (some last) now = ltb now (last + relock_renotify_interval)

-- `_notify_relock_failed`; `has_client` is whether `self._get_ha()` returns a client
unfoldable pub notify_relock_failed : String → Bool → Bool → Clock → Method (Unit {0})
notify_relock_failed entity_id force has_client now = do
  last ← gets (λ m. get entity_id m.overdue_notified_at)
  if not force && is_recent last now.monotonic then return tt else do
    modify (λ m. record m {
      overdue_notified_at = insert entity_id now.monotonic m.overdue_notified_at;
    })
    if has_client then emit (relock_failed entity_id) else return tt

-- after a confirmed command: the row goes if its deadline is still this one
unfoldable pub clear_row : String → ℕ → Method ℕ
clear_row entity_id deadline =
    execute_counting (rows_at_deadline entity_id deadline)
      (remove_pending_relock_at_deadline entity_id deadline)

relocked : String → ℕ → Method Bool
relocked entity_id removed =
    if removed == 0
    then return false
    else do clear_overdue_notified entity_id; emit (on_locked entity_id); return false

-- the last section of `_wait_and_lock`; `true` when a failure is to be notified
unfoldable pub finish : String → ℕ → ℕ → Bool → Method Bool
unfolding relocked
finish entity_id deadline owner locked = do
  owned ← gets (λ m. is_task (get entity_id m.tasks) owner)
  if not owned then return false else do
    cancel_locked entity_id
    if locked
        then (do
          removed ← except (clear_row entity_id deadline) (return 0)
          relocked entity_id removed)
        else (do emit (on_unknown entity_id); return true)

-- `except Exception`: the task leaves the map if it is still there, and nothing is notified
unfoldable pub crashed : String → ℕ → Method Bool
crashed entity_id owner = do
  owned ← gets (λ m. is_task (get entity_id m.tasks) owner)
  if owned then (do cancel_locked entity_id; return false) else return false

-- `_wait_and_lock` after its sleep, unless the task has been cancelled
unfoldable pub wait_and_lock : String → ℕ → ℕ → (ℕ → Attempt) → Bool → Clock → Method (Unit {0})
wait_and_lock entity_id deadline owner attempts has_client now = do
  notify_failed ←
      except
        (do
          locked ← call_ha_lock entity_id deadline (some owner) attempts
          wait_again attempts
          finish entity_id deadline owner locked)
        (do wait_crashed attempts; crashed entity_id owner)
  if notify_failed then notify_relock_failed entity_id true has_client now else return tt
