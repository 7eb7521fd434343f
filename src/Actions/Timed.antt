-- ===== src/Actions/Timed.antt =====
-- A timed unlock ("buzz") of an external lock, lock_actions.py: whatever happens after its command,
-- the door's relock stays durable.
use hassio_access_control.Prelude.{ℕ, ◌+◌, ◌≤◌, String, ◌≡◌, Bool, true, false}
use hassio_access_control.Relock.Manager.{
  Manager, Effect, command_unlock, show_unlocked, show_unknown, emit,
}
use hassio_access_control.Relock.Timers.{RelockIntent}
use hassio_access_control.Relock.Keeps.{Keeps, Keeps-return, Keeps-except, Keeps-bind}
use hassio_access_control.Relock.Invariant.{IsIntent}
use hassio_access_control.Relock.Undo.{due}
use hassio_access_control.Relock.Due.{
  IsDueBy, emit-IsDueBy, select-IsDueBy, modify-IsDueBy, retain-IsDueBy, extend-IsDueBy,
}
use hassio_access_control.Unlock.{
  Write, accepted, refused, write_raised, write_cancelled, Readback, confirmed, not_confirmed,
  readback_raised, readback_cancelled, confirm_ha_state, ha_confirm_attempts,
}
use hassio_access_control.Actions.{
  buzz, Outcome, accepted_unconfirmed, db_call, error, Reason, rejected, LockRow, Weather, intent,
  settle, on_cancelled, on_exception, refuse, succeed, unlocked,
}
use hassio_access_control.Actions.External.{
  on_confirmed, on_unconfirmed, after_readback, after_write, command, goal_text,
}
use hassio_access_control.Actions.Keep.{is_command, on_cancelled-Keeps, on_exception-Keeps}

module _ (k : String) (x : ℕ) where
  pub emits : (e : Effect) → is_command e ≡ false → Keeps (IsDueBy k x) (emit e)
  emits e h = emit-IsDueBy k x e

  pub calls : Keeps (IsDueBy k x) db_call
  calls = select-IsDueBy k x (λ rows. tt)

module _ (row : LockRow) (k : String) (w : Weather) (i : RelockIntent) (x : ℕ)
    (hi : i.entity_id ≡ k) (wf : IsIntent i) (hx : i.deadline ≤ x)
    (hl : w.later.wall + row.relock_duration ≤ x) where
  settle-IsDueBy : Keeps (IsDueBy k x) (settle (intent i))
  unfolding settle
  settle-IsDueBy = Keeps-bind _ _ (retain-IsDueBy k x i hi wf hx) (λ _. Keeps-return tt)

  failing : (late : Bool) → Keeps (IsDueBy k x) (on_exception row buzz late true (intent i))
  failing late =
      on_exception-Keeps (IsDueBy k x) (emits k x) (calls k x) (intent i) settle-IsDueBy row buzz
        late true

  cancelling : Keeps (IsDueBy k x) (on_cancelled row buzz true (intent i))
  cancelling =
      on_cancelled-Keeps (IsDueBy k x) (emits k x) (calls k x) (intent i) settle-IsDueBy row buzz
        true

  on_confirmed-IsDueBy : Keeps (IsDueBy k x) (on_confirmed row buzz k w (intent i))
  unfolding on_confirmed
  on_confirmed-IsDueBy =
      Keeps-bind _ _
        (Keeps-except _ _
          (Keeps-bind _ _ (extend-IsDueBy k x i hi wf hx row.relock_duration w.later hl)
            (λ _. Keeps-return tt))
          (Keeps-return tt))
        (λ _. Keeps-return (succeed row buzz unlocked))

  on_unconfirmed-IsDueBy :
      (o : Outcome) (r : Reason) → Keeps (IsDueBy k x) (on_unconfirmed row buzz k w (intent i) o r)
  unfolding on_unconfirmed
  on_unconfirmed-IsDueBy o r =
      Keeps-except _ _
        (Keeps-bind _ _ settle-IsDueBy (λ _.
          Keeps-bind _ _ (emit-IsDueBy k x (show_unknown k))
            (λ _. Keeps-return (refuse row buzz o r))))
        (failing w.cancelled_late)

  after_readback-IsDueBy :
      (r : Readback) → Keeps (IsDueBy k x) (after_readback row buzz k w (intent i) r)
  unfolding after_readback
  after_readback-IsDueBy confirmed =
      Keeps-bind _ _ (emit-IsDueBy k x (show_unlocked k)) (λ _. on_confirmed-IsDueBy)
  after_readback-IsDueBy not_confirmed =
      on_unconfirmed-IsDueBy accepted_unconfirmed Reason.not_confirmed
  after_readback-IsDueBy readback_raised = failing w.cancelled_late
  after_readback-IsDueBy readback_cancelled = cancelling

  after_write-IsDueBy : (r : Write) → Keeps (IsDueBy k x) (after_write row buzz k w (intent i) r)
  unfolding after_write
  after_write-IsDueBy accepted =
      after_readback-IsDueBy (confirm_ha_state (goal_text buzz) ha_confirm_attempts 0 w.readings)
  after_write-IsDueBy refused = on_unconfirmed-IsDueBy error rejected
  after_write-IsDueBy write_raised = failing w.cancelled_late
  after_write-IsDueBy write_cancelled = cancelling

  pub command-IsDueBy :
      ((m : Manager) → due k (w.meanwhile m) ≡ due k m)
      → Keeps (IsDueBy k x) (command row buzz k w (intent i))
  unfolding command
  command-IsDueBy apart = Keeps-bind _ _ (emit-IsDueBy k x (command_unlock k)) (λ _.
      Keeps-bind _ _ (modify-IsDueBy k x w.meanwhile apart) (λ _. after_write-IsDueBy w.write))
