-- ===== src/Relock/Timers.antt =====
-- `schedule`, `restore_after_failed_unlock`, `retain_after_uncertain_unlock`,
-- `extend_after_success`, `cancel`, `pause`, `resume` and `shutdown` of relock_manager.py. Each
-- holds the entity's lock and the manager's from end to end, so each is one step.
use hassio_access_control.Prelude.{
  ℕ, ◌+◌, String, Bool, true, false, not, ◌&&◌, ◌||◌, Option, none, some, [], leb, ◌==◌,
  if◌then◌else◌, str_eq,
}
use hassio_access_control.Prelude.Map.{get, is_empty}
use hassio_access_control.Relock.Rows.{
  Row, get_pending_relock, add_pending_relock, remove_pending_relock,
  remove_pending_relock_at_deadline, rows_at_deadline, replace_pending_relock_deadline,
}
use hassio_access_control.Relock.Manager.{
  Clock, Task, Manager, is_shutting_down, Method, ◌>>=◌, ◌>>◌, return, fail, gets, modify, select,
  execute, execute_counting, cancel_locked, set_add, discard_paused, clear_overdue_notified,
  create_task,
}

pub record RelockIntent : Type 0 where
  pub entity_id : String
  pub deadline : ℕ
  pub previous_row : Option Row
  pub task : Task

-- `value or default` on a name: the empty text counts as none
abbrev pub name_or : Option String → String → String
name_or none default = default
name_or (some name) default = if str_eq name "" then default else name

schedule_open : String → ℕ → Option ℕ → String → String → Clock → Method RelockIntent
schedule_open entity_id duration lock_id lock_name source now = do
  let deadline = now.wall + duration
  let monotonic_deadline = now.monotonic + duration
  previous_row ← select (get_pending_relock entity_id)
  execute (
      add_pending_relock (record {
        entity_id = entity_id;
        lock_id = lock_id;
        lock_name = some lock_name;
        source = source;
        deadline = deadline;
        created_at = now.wall;
      }))
  cancel_locked entity_id
  discard_paused entity_id
  clear_overdue_notified entity_id
  task ← create_task entity_id lock_name deadline (some monotonic_deadline)
  return (record {
    entity_id = entity_id;
    deadline = deadline;
    previous_row = previous_row;
    task = task;
  })

unfoldable pub schedule : String → ℕ → Option ℕ → String → String → Clock → Method RelockIntent
unfolding schedule_open
schedule entity_id duration lock_id lock_name source now = do
  closing ← gets (λ m. m.shutting_down)
  if closing
      then fail is_shutting_down
      else schedule_open entity_id duration lock_id lock_name source now

-- `current is not None and current["deadline"] == deadline`
abbrev pub is_current : Option Row → ℕ → Bool
is_current none deadline = false
is_current (some row) deadline = row.deadline == deadline

-- `self._tasks.get(entity_id) is task`
abbrev pub is_task : Option Task → ℕ → Bool
is_task none id = false
is_task (some t) id = t.id == id

abbrev pub is_absent : Option Task → Bool
is_absent none = true
is_absent (some t) = false

-- the durable part of the rollback; `false` when nothing was removed
restore_row : RelockIntent → Method Bool
restore_row intent = elim intent.previous_row [
  | none ↦ do
    removed ←
        execute_counting (rows_at_deadline intent.entity_id intent.deadline)
          (remove_pending_relock_at_deadline intent.entity_id intent.deadline)
    return (not (removed == 0))
  | some previous ↦ do execute (add_pending_relock previous); return true
]

-- the predecessor's timer, unless the manager is shutting down
rearm : RelockIntent → Method Bool
rearm intent = elim intent.previous_row [
  | none ↦ return true
  | some previous ↦ do
    closing ← gets (λ m. m.shutting_down)
    if closing then return true else do
      create_task intent.entity_id (name_or previous.lock_name intent.entity_id) previous.deadline
          none
      return true
]

roll_back : RelockIntent → Method Bool
unfolding restore_row rearm
roll_back intent = do
  restored ← restore_row intent
  if not restored
      then return false
      else do cancel_locked intent.entity_id; discard_paused intent.entity_id; rearm intent

-- the live task is the intent's, or the shutdown has cleared the map
abbrev pub owns : Manager → RelockIntent → Bool
owns m intent =
    is_task (get intent.entity_id m.tasks) intent.task.id
    || m.shutting_down && is_absent (get intent.entity_id m.tasks)

unfoldable pub restore_after_failed_unlock : RelockIntent → Method Bool
unfolding roll_back
restore_after_failed_unlock intent = do
  current ← select (get_pending_relock intent.entity_id)
  if not (is_current current intent.deadline) then return false else do
    owned ← gets (λ m. owns m intent)
    if not owned then return false else roll_back intent

-- `bool(current is not None and current["deadline"] == intent.deadline)`
still_current : RelockIntent → Method Bool
still_current intent = do
  current ← select (get_pending_relock intent.entity_id)
  return (is_current current intent.deadline)

unfoldable pub retain_after_uncertain_unlock : RelockIntent → Method Bool
unfolding still_current
retain_after_uncertain_unlock intent = elim intent.previous_row [
  | none ↦ still_current intent
  | some previous ↦
      if leb previous.deadline intent.deadline
      then restore_after_failed_unlock intent
      else still_current intent
]

-- the name that the timer logs
abbrev row_name : Option Row → String → String
row_name none entity_id = entity_id
row_name (some row) entity_id = name_or row.lock_name entity_id

move_deadline : RelockIntent → ℕ → Option Row → Clock → Method Bool
move_deadline intent duration current now = do
  let new_deadline = now.wall + duration
  let new_monotonic_deadline = now.monotonic + duration
  changed ←
      execute_counting (rows_at_deadline intent.entity_id intent.deadline)
        (replace_pending_relock_deadline intent.entity_id intent.deadline new_deadline)
  if not (changed == 1) then return false else do
    cancel_locked intent.entity_id
    create_task intent.entity_id (row_name current intent.entity_id) new_deadline
        (some new_monotonic_deadline)
    return true

unfoldable pub extend_after_success : RelockIntent → ℕ → Clock → Method Bool
unfolding move_deadline
extend_after_success intent duration now = do
  closing ← gets (λ m. m.shutting_down)
  if closing then return false else do
    current ← select (get_pending_relock intent.entity_id)
    owned ← gets (λ m. is_task (get intent.entity_id m.tasks) intent.task.id)
    if not (is_current current intent.deadline && owned)
        then return false
        else move_deadline intent duration current now

unfoldable pub cancel : String → Method (Unit {0})
cancel entity_id = do
  execute (remove_pending_relock entity_id)
  cancel_locked entity_id
  discard_paused entity_id
  clear_overdue_notified entity_id

-- `if row is not None: self._paused.add(entity_id)`
mark_paused : String → Option Row → Method (Unit {0})
mark_paused entity_id none = return tt
mark_paused entity_id (some row) = modify (λ m. record m { paused = set_add entity_id m.paused })

unfoldable pub pause : String → Method (Option Row)
unfolding mark_paused
pause entity_id = do
  row ← select (get_pending_relock entity_id)
  cancel_locked entity_id
  mark_paused entity_id row
  return row

-- `existing and not existing.done()`
abbrev pub is_live : Option Task → Bool
is_live none = false
is_live (some t) = not t.done

resume_row : Row → Method Bool
resume_row row = do
  let entity_id = row.entity_id
  current ← select (get_pending_relock entity_id)
  closing ← gets (λ m. m.shutting_down)
  live ← gets (λ m. is_live (get entity_id m.tasks))
  if closing || not (is_current current row.deadline) || live
      then (do discard_paused entity_id; return false)
      else (do
        create_task entity_id (name_or row.lock_name entity_id) row.deadline none
        discard_paused entity_id
        return true)

unfoldable pub resume : Option Row → Method Bool
unfolding resume_row
resume none = return false
resume (some row) = resume_row row

-- `shutdown`: cancelling the tasks is taking them out of the map
unfoldable pub shutdown : Method (Unit {0})
shutdown = modify (λ m.
    if m.shutting_down && is_empty m.tasks
    then m
    else record m { shutting_down = true; tasks = []; paused = λ e. false })
