-- ===== src/Unlock/Due.antt =====
-- What the calls of the relock manager in an unlock (auth_engine.py) leave of the entity's durable
-- row.
use hassio_access_control.Prelude.{ℕ, ◌+◌, ◌≤◌, ◌≡◌, Bool}
use hassio_access_control.Relock.Manager.{Manager, command_unlock}
use hassio_access_control.Relock.Timers.{RelockIntent}
use hassio_access_control.Relock.Keeps.{Keeps, Keeps-bind, keeps_rules}
use hassio_access_control.Relock.Invariant.{IsIntent}
use hassio_access_control.Relock.Undo.{due}
use hassio_access_control.Relock.Due.{
  IsDueBy, emit-IsDueBy, modify-IsDueBy, retain-IsDueBy, extend-IsDueBy,
}
use hassio_access_control.Unlock.{
  ExternalLock, Weather, Write, accepted, refused, write_raised, write_cancelled, confirm_ha_state,
  ha_confirm_attempts, Readback, confirmed, not_confirmed, readback_raised, readback_cancelled,
  Ending, intent, resolve, succeed, recover, command, unconfirmed, failed, cancelled, confirm,
  after_write,
}

ruleset due_rules = (keeps_rules, emit-IsDueBy, retain-IsDueBy, extend-IsDueBy)

module _ (lock : ExternalLock) (w : Weather) (i : RelockIntent) (x : ℕ)
    (hi : i.entity_id ≡ lock.entity_id) (wf : IsIntent i) (hx : i.deadline ≤ x)
    (hl : w.later.wall + lock.relock_duration ≤ x) where
  resolve-IsDueBy :
      (late : Bool) (e : Ending) → Keeps (IsDueBy lock.entity_id x) (resolve (intent i) late e)
  unfolding resolve
  resolve-IsDueBy late e = search (due_rules, hi, wf, hx) depth 12

  recover-IsDueBy : (e : Ending) → Keeps (IsDueBy lock.entity_id x) (recover lock w (intent i) e)
  unfolding recover
  recover-IsDueBy e = search (due_rules, resolve-IsDueBy) depth 12

  succeed-IsDueBy : Keeps (IsDueBy lock.entity_id x) (succeed lock w (intent i))
  unfolding succeed
  succeed-IsDueBy = search (due_rules, hi, wf, hx, hl) depth 12

  confirm-IsDueBy : (r : Readback) → Keeps (IsDueBy lock.entity_id x) (confirm lock w (intent i) r)
  unfolding confirm
  confirm-IsDueBy confirmed = search (due_rules, succeed-IsDueBy) depth 12
  confirm-IsDueBy not_confirmed = recover-IsDueBy unconfirmed
  confirm-IsDueBy readback_raised = recover-IsDueBy failed
  confirm-IsDueBy readback_cancelled = recover-IsDueBy cancelled

  after_write-IsDueBy :
      (r : Write) → Keeps (IsDueBy lock.entity_id x) (after_write lock w (intent i) r)
  unfolding after_write
  after_write-IsDueBy accepted =
      confirm-IsDueBy (confirm_ha_state "unlocked" ha_confirm_attempts 0 w.readings)
  after_write-IsDueBy refused = recover-IsDueBy failed
  after_write-IsDueBy write_raised = recover-IsDueBy failed
  after_write-IsDueBy write_cancelled = recover-IsDueBy cancelled

  pub command-IsDueBy :
      ((m : Manager) → due lock.entity_id (w.meanwhile m) ≡ due lock.entity_id m)
      → Keeps (IsDueBy lock.entity_id x) (command lock w (intent i))
  unfolding command
  command-IsDueBy apart =
      Keeps-bind _ _ (emit-IsDueBy lock.entity_id x (command_unlock lock.entity_id)) (λ _.
        Keeps-bind _ _ (modify-IsDueBy lock.entity_id x w.meanwhile apart)
          (λ _. after_write-IsDueBy w.write))
