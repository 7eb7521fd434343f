-- ===== src/Actions/Keep.antt =====
-- What the shared handlers of lock_actions.py keep: any invariant that is kept by an entry of the
-- log, a published state and a call of the database, and by what is settled.
use hassio_access_control.Prelude.{
  String, ◌≡◌, refl, Bool, true, false, Option, none, some, List, [], ◌∷◌, if◌then◌else◌, not, ◌||◌,
  ◌&&◌,
}
use hassio_access_control.Relock.Manager.{
  Manager, Effect, command_lock, command_unlock, command_access, show_unknown, alarm_disarm,
  task_cancelled, Method, return, emit,
}
use hassio_access_control.Relock.Keeps.{
  Keeps, Keeps-return, Keeps-fail, Keeps-if, Keeps-except, Keeps-bind,
}
use hassio_access_control.Actions.{
  Action, ActionResult, LockRow, Panel, Weather, Owed, is_owed, settle, mark_unknown, shown_of,
  db_call, audit_result, on_cancelled, on_exception, refuse, accepted_unconfirmed, error,
  cancelled_after, cancelled_before, upstream_failed,
}
use hassio_access_control.Actions.Disarm.{
  disarm_panels, auto_disarm, after_disarm, on_failure, logged,
}
use hassio_access_control.Actions.Execute.{conclude}

-- a command to a lock
abbrev pub is_command : Effect → Bool
is_command (command_lock k) = true
is_command (command_unlock k) = true
is_command (command_access id) = true
is_command _ = false

module _ (P : Manager → Type 0) (emits : (e : Effect) → is_command e ≡ false → Keeps P (emit e))
    (calls : Keeps P db_call) where
  mark_unknown-Keeps : (row : LockRow) (attempted : Bool) → Keeps P (mark_unknown row attempted)
  unfolding mark_unknown
  mark_unknown-Keeps row attempted = Keeps-if attempted _ _ (shown (shown_of row)) (Keeps-return tt)
    where
      shown :
          (k : Option String)
          → Keeps P (elim k as (λ x. Method (Unit {0})) [
            | none ↦ return tt
            | some k' ↦ emit (show_unknown k')
          ])
      shown none = Keeps-return tt
      shown (some k) = emits (show_unknown k) refl

  pub audit_result-Keeps : (r : ActionResult) → Keeps P (audit_result r)
  unfolding audit_result
  audit_result-Keeps r = Keeps-bind _ _ calls (λ _. emits _ refl)

  logged-Keeps : (t : String) → Keeps P (logged t)
  unfolding logged
  logged-Keeps t = Keeps-bind _ _ calls (λ _. emits _ refl)

  on_failure-Keeps : Keeps P on_failure
  unfolding on_failure
  on_failure-Keeps = Keeps-except _ _ (logged-Keeps "error") (Keeps-return tt)

  after_disarm-Keeps : (answer : Option Bool) → Keeps P (after_disarm answer)
  unfolding after_disarm
  after_disarm-Keeps none = on_failure-Keeps
  after_disarm-Keeps (some true) = Keeps-except _ _ (logged-Keeps "granted") on_failure-Keeps
  after_disarm-Keeps (some false) = Keeps-except _ _ (logged-Keeps "error") on_failure-Keeps

  disarm_panels-Keeps : (panels : List Panel) → Keeps P (disarm_panels panels)
  unfolding disarm_panels
  disarm_panels-Keeps [] = Keeps-return tt
  disarm_panels-Keeps (p ∷ panels) =
      Keeps-if (p.lockdown || not p.has_client) _ _ (Keeps-return tt) (
        Keeps-bind _ _ (emits (alarm_disarm p.entity_id) refl)
          (λ _. Keeps-bind _ _ (after_disarm-Keeps p.disarmed) (λ _. disarm_panels-Keeps panels)))

  auto_disarm-Keeps : (w : Weather) → Keeps P (auto_disarm w)
  unfolding auto_disarm
  auto_disarm-Keeps w =
      Keeps-if w.lockdown_after _ _ (Keeps-return tt)
        (Keeps-bind _ _ calls (λ _. disarm_panels-Keeps w.panels))

  pub conclude-Keeps :
      (action : Action) (wants : Bool) (w : Weather) (r : ActionResult)
      → Keeps P (conclude action wants w r)
  unfolding conclude
  conclude-Keeps action wants w r = Keeps-bind _ _ (audit_result-Keeps r) (λ _.
      Keeps-bind _ _ (Keeps-if _ _ _ (auto_disarm-Keeps w) (Keeps-return tt)) (λ _. Keeps-return r))

  module _ (owed : Owed) (settles : Keeps P (settle owed)) where
    pub on_cancelled-Keeps :
        (row : LockRow) (action : Action) (attempted : Bool)
        → Keeps P (on_cancelled row action attempted owed)
    unfolding on_cancelled
    on_cancelled-Keeps row action attempted =
        Keeps-bind _ _ (mark_unknown-Keeps row attempted) (λ _.
          Keeps-bind _ _ (Keeps-except _ _ settles (Keeps-return tt)) (λ _.
            Keeps-bind _ _
              (Keeps-except _ _
                (audit_result-Keeps (
                  refuse row action (if attempted then accepted_unconfirmed else error)
                    (if attempted then cancelled_after else cancelled_before)))
                (Keeps-return tt))
              (λ _. Keeps-fail task_cancelled)))

    pub on_exception-Keeps :
        (row : LockRow) (action : Action) (late attempted : Bool)
        → Keeps P (on_exception row action late attempted owed)
    unfolding on_exception
    on_exception-Keeps row action late attempted =
        Keeps-bind _ _ (mark_unknown-Keeps row attempted) (λ _.
          Keeps-bind _ _
            (Keeps-except _ _ (Keeps-bind _ _ settles (λ _. Keeps-return (is_owed owed && late)))
              (Keeps-return false))
            (λ c.
              Keeps-if c _ _ (Keeps-fail task_cancelled)
                (Keeps-return (refuse row action error upstream_failed))))
