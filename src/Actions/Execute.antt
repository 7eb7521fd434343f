-- ===== src/Actions/Execute.antt =====
-- `execute_lock_action` of lock_actions.py.
use hassio_access_control.Prelude.{
  ℕ, Bool, true, false, not, ◌&&◌, Option, none, some, if◌then◌else◌,
}
use hassio_access_control.Relock.Manager.{Method, ◌>>=◌, ◌>>◌, return}
use hassio_access_control.Actions.{
  Action, unlock, buzz, Outcome, granted, denied, not_found, lock_not_found, lockdown_active,
  buzz_disabled, unsupported_type, ActionResult, LockKind, access_native, ha_external, other_type,
  LockRow, Weather, is_dangerous, refuse, db_call, audit_result, nothing, on_cancelled,
}
use hassio_access_control.Actions.Native.{native_action}
use hassio_access_control.Actions.External.{external_action}
use hassio_access_control.Actions.Disarm.{auto_disarm}

unfoldable pub by_kind : LockRow → Action → Weather → LockKind → Method ActionResult
by_kind row action w access_native = native_action row action w
by_kind row action w ha_external = external_action row action w
by_kind row action w other_type = return (refuse row action denied unsupported_type)

-- the body of the `try`: with the entity's lock and the command barrier
unfoldable pub under_barrier : LockRow → Action → Weather → Method ActionResult
under_barrier row action w =
    if w.cancelled_waiting
    then on_cancelled row action false nothing
    else if is_dangerous action && w.lockdown
    then return (refuse row action denied lockdown_active)
    else by_kind row action w row.kind

abbrev pub is_granted : Outcome → Bool
is_granted granted = true
is_granted _ = false

-- `action in {"unlock", "buzz"}`
abbrev pub opens : Action → Bool
opens unlock = true
opens buzz = true
opens _ = false

-- the audit, and the disarming after a grant
unfoldable pub conclude : Action → Bool → Weather → ActionResult → Method ActionResult
conclude action wants_disarm w r = do
  audit_result r
  if wants_disarm && is_granted r.outcome && opens action then auto_disarm w else return tt
  return r

abbrev pub audited : ActionResult → Method ActionResult
audited r = do audit_result r; return r

abbrev pub is_buzz : Action → Bool
is_buzz buzz = true
is_buzz _ = false

unfoldable pub act : LockRow → Action → Bool → Weather → Method ActionResult
act row action wants_disarm w =
    if is_dangerous action && w.lockdown_before
    then audited (refuse row action denied lockdown_active)
    else if is_buzz action && not row.buzz_enabled
    then audited (refuse row action denied buzz_disabled)
    else do r ← under_barrier row action w; conclude action wants_disarm w r

abbrev pub missing : ℕ → Action → ActionResult
missing id action = record {
  lock_id = id;
  action = action;
  outcome = not_found;
  reason = some lock_not_found;
  confirmed_state = none;
}

unfoldable pub on_row : ℕ → Action → Bool → Weather → Option LockRow → Method ActionResult
on_row id action wants_disarm w none = return (missing id action)
on_row id action wants_disarm w (some row) = act row action wants_disarm w

-- `get_lock` is the query of the table `locks`
unfoldable pub execute_lock_action :
    (ℕ → Option LockRow) → ℕ → Action → Bool → Weather → Method ActionResult
execute_lock_action get_lock id action wants_disarm w = do
  db_call
  on_row id action wants_disarm w (get_lock id)
