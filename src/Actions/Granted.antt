-- ===== src/Actions/Granted.antt =====
-- What a granted action of lock_actions.py rests on.
use hassio_access_control.Prelude.{
  ℕ, ◌≡◌, refl, ap, subst, Bool, false, not, ◌&&◌, Option, none, some,
}
use hassio_access_control.Relock.Manager.{Manager, ok}
use hassio_access_control.Actions.{
  Action, granted, denied, ActionResult, LockKind, access_native, ha_external, other_type, LockRow,
  Weather, nothing, refuse, unsupported_type, lockdown_active, buzz_disabled, is_dangerous, db_call,
}
use hassio_access_control.Actions.Yields.{
  Holds, Yields, Yields-if, Yields-then, Yields-bind, on_cancelled-Yields,
}
use hassio_access_control.Actions.Execute.{
  is_granted, is_buzz, by_kind, under_barrier, act, on_row, execute_lock_action, missing,
}
use hassio_access_control.Actions.Evidence.{
  Evidence, Proves, refused-Proves, conclude-Proves, audited-Proves,
}
use hassio_access_control.Actions.ReadBack.{external-Proves}
use hassio_access_control.Actions.Relayed.{native-Proves}

module _ (row : LockRow) (action : Action) (w : Weather) where
  by_kind-Proves :
      (kind : LockKind) → Yields (Proves (Evidence kind action w)) (by_kind row action w kind)
  unfolding by_kind
  by_kind-Proves access_native = native-Proves row action w
  by_kind-Proves ha_external = external-Proves row action w
  by_kind-Proves other_type =
      refused-Proves (Evidence other_type action w) (refuse row action denied unsupported_type) refl

  under_barrier-Proves : Yields (Proves (Evidence row.kind action w)) (under_barrier row action w)
  unfolding under_barrier
  under_barrier-Proves =
      Yields-if w.cancelled_waiting _ _ (on_cancelled-Yields _ row action false nothing) (
        Yields-if (is_dangerous action && w.lockdown) _ _
          (refused-Proves _ (refuse row action denied lockdown_active) refl)
          (by_kind-Proves row.kind))

  act-Proves :
      (wants : Bool) → Yields (Proves (Evidence row.kind action w)) (act row action wants w)
  unfolding act
  act-Proves wants =
      Yields-if (is_dangerous action && w.lockdown_before) _ _
        (audited-Proves _ (refuse row action denied lockdown_active) refl)
        (Yields-if (is_buzz action && not row.buzz_enabled) _ _
          (audited-Proves _ (refuse row action denied buzz_disabled) refl)
          (Yields-then (Proves (Evidence row.kind action w)) (under_barrier row action w) _
            under_barrier-Proves (λ r q. conclude-Proves _ action wants w r q)))

-- the lock that was found has the evidence
abbrev pub IsEvident : Option LockRow → Action → Weather → Type 0
IsEvident none action w = ⊥
IsEvident (some row) action w = Evidence row.kind action w

on_row-Proves :
    (o : Option LockRow) (id : ℕ) (action : Action) (wants : Bool) (w : Weather)
    → Yields (Proves (IsEvident o action w)) (on_row id action wants w o)
unfolding on_row
on_row-Proves none id action wants w = refused-Proves ⊥ (missing id action) refl
on_row-Proves (some row) id action wants w = act-Proves row action w wants

-- When `execute_lock_action` returns the outcome "granted", the lock exists and the state that the
-- action asked for was read back: for a Home Assistant lock, the command was accepted and one of
-- the three readbacks was exactly that state; for an Access lock, the client came back with exactly
-- that relay state, for which the client can read the relay or, for a timed unlock, has the
-- confirmed command; a restored schedule has either of the two exact states. A lock of another
-- type is never granted.
pub execute_lock_action-IsEvident :
    (get_lock : ℕ → Option LockRow) (id : ℕ) (action : Action) (wants : Bool) (w : Weather)
    (m : Manager) (r : ActionResult)
    → (execute_lock_action get_lock id action wants w m).0 ≡ ok r
    → r.outcome ≡ granted
    → IsEvident (get_lock id) action w
unfolding execute_lock_action
execute_lock_action-IsEvident get_lock id action wants w m r returned_r is =
    subst (Holds (Proves (IsEvident (get_lock id) action w))) returned_r
      ((Yields-bind db_call (λ _. on_row id action wants w (get_lock id))
          (λ _. on_row-Proves (get_lock id) id action wants w)).at
        m)
      (ap (λ a. is_granted a) is)
