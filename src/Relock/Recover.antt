-- ===== src/Relock/Recover.antt =====
-- `_recover_or_schedule`, `rehydrate`, `sweep_overdue` and `pending_relock_status` of
-- relock_manager.py: recovery from the durable rows.
use hassio_access_control.Prelude.{
  ℕ, ◌+◌, String, Bool, true, false, not, ◌&&◌, ◌||◌, none, List, [], ◌∷◌, map, keep, str_eq, leb,
  ◌==◌, if◌then◌else◌,
}
use hassio_access_control.Prelude.Map.{get}
use hassio_access_control.Relock.Rows.{Row, get_pending_relock, get_pending_relocks}
use hassio_access_control.Relock.Manager.{
  Clock, Manager, on_locked, on_unknown, Method, ◌>>=◌, ◌>>◌, return, gets, modify, select, emit,
  cancel_locked, clear_overdue_notified, create_task,
}
use hassio_access_control.Relock.Timers.{is_current, is_live, name_or}
use hassio_access_control.Relock.Fire.{
  Attempt, call_ha_lock, wait_again, clear_row, notify_relock_failed,
}

-- what recovery of one row meets: the clock at its first section and at its notification, what
-- others did since, and the answers of Home Assistant
pub record Weather : Type 0 where
  pub before : Manager → Manager
  pub now : Clock
  pub attempts : ℕ → Attempt
  pub has_client : Bool
  pub later : Clock

-- the first section; `true` when the row is overdue and is to be fired
unfoldable pub recover_check : Row → Bool → Clock → Method Bool
recover_check row schedule_future now = do
  skip ← gets (λ m. m.shutting_down || m.paused row.entity_id)
  if skip then return false else do
    current ← select (get_pending_relock row.entity_id)
    live ← gets (λ m. is_live (get row.entity_id m.tasks))
    if not (is_current current row.deadline) || live then return false else do
      cancel_locked row.entity_id
      if leb row.deadline now.wall
          then return true
          else if schedule_future
          then (do
            create_task row.entity_id (name_or row.lock_name row.entity_id) row.deadline none
            return false)
          else return false

-- after the attempts failed: the cache is marked only if the row is still this one
unfoldable pub recover_failed : Row → Method (Unit {0})
recover_failed row = do
  current ← select (get_pending_relock row.entity_id)
  wanted ←
      gets (λ m.
        not m.shutting_down && not (m.paused row.entity_id) && is_current current row.deadline)
  if wanted then emit (on_unknown row.entity_id) else return tt

recover_removed : String → ℕ → Method Bool
recover_removed entity_id removed =
    if removed == 0
    then return false
    else do clear_overdue_notified entity_id; emit (on_locked entity_id); return true

-- after a confirmed command
unfoldable pub recover_done : Row → Method Bool
unfolding recover_removed
recover_done row = do
  skip ← gets (λ m. m.shutting_down || m.paused row.entity_id)
  if skip then return false else do
    current ← select (get_pending_relock row.entity_id)
    if not (is_current current row.deadline) then return false else do
      removed ← clear_row row.entity_id row.deadline
      recover_removed row.entity_id removed

unfoldable pub not_locked : Row → Weather → Method Bool
not_locked row w = do
  recover_failed row
  notify_relock_failed row.entity_id false w.has_client w.later
  return false

unfoldable pub fire_overdue : Row → Weather → Method Bool
fire_overdue row w = do
  locked ← call_ha_lock row.entity_id row.deadline none w.attempts
  wait_again w.attempts
  if locked then recover_done row else not_locked row w

unfoldable pub recover_or_schedule : Row → Bool → Weather → Method Bool
recover_or_schedule row schedule_future w = do
  modify w.before
  overdue ← recover_check row schedule_future w.now
  if overdue then fire_overdue row w else return false

unfoldable pub rehydrate_rows : List Row → (Row → Weather) → Method (Unit {0})
rehydrate_rows [] weather = return tt
rehydrate_rows (row ∷ rows) weather = do
  recover_or_schedule row true (weather row)
  rehydrate_rows rows weather

unfoldable pub rehydrate : (Row → Weather) → Method (Unit {0})
rehydrate weather = do rows ← select get_pending_relocks; rehydrate_rows rows weather

unfoldable pub sweep_rows : List Row → (Row → Weather) → ℕ → Method ℕ
sweep_rows [] weather swept = return swept
sweep_rows (row ∷ rows) weather swept = do
  fired ← recover_or_schedule row false (weather row)
  sweep_rows rows weather (if fired then swept + 1 else swept)

unfoldable pub sweep_overdue : (Row → Weather) → Method ℕ
sweep_overdue weather = do rows ← select get_pending_relocks; sweep_rows rows weather 0

-- a dictionary from the entity to whether its deadline has passed
unfoldable pub pending_relock_status : Clock → Method (List (String × Bool))
pending_relock_status now = do
  rows ← select get_pending_relocks
  return (
      map (λ row. (row.entity_id, leb row.deadline now.wall))
        (keep (λ row. not (str_eq row.entity_id "")) rows))
