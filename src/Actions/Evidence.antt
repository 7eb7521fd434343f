-- ===== src/Actions/Evidence.antt =====
-- What proves that an action of lock_actions.py has happened, and the results that claim it.
use hassio_access_control.Prelude.{◌⊎◌, ℕ, ◌<◌, String, ◌≡◌, Bool, true, false, some, arith}
use hassio_access_control.Relock.Manager.{return}
use hassio_access_control.Unlock.{accepted, state, ha_confirm_attempts}
use hassio_access_control.Actions.{
  Action, lock, unlock, buzz, restore_schedule, Outcome, Reason, ActionResult, LockKind,
  access_native, ha_external, other_type, LockRow, Weather, returned, Owed, nothing, intent, held,
  on_exception, audit_result,
}
use hassio_access_control.Actions.Yields.{Yields, Yields-return, Yields-bind, yields_rules}
use hassio_access_control.Actions.External.{goal_text, on_confirmed, on_unconfirmed}
use hassio_access_control.Actions.Execute.{is_granted, conclude, audited}

-- Home Assistant accepted the command, and one of the three readbacks was the state asked for
abbrev pub IsReadBack : Action → Weather → Type 0
IsReadBack action w =
    (w.write ≡ accepted)
    × ((j : ℕ) × (j < ha_confirm_attempts) × (w.readings j ≡ state (some (goal_text action))))

-- the Access client came back with this relay state
abbrev pub Relays : Weather → String → Type 0
Relays w t = w.access_answer ≡ returned (some t)

-- the relay is in the state asked for, according to a client that can read it
abbrev pub IsRelayed : Action → Weather → Type 0
IsRelayed lock w = (w.has_relay_state ≡ true) × Relays w "locked"
IsRelayed unlock w = (w.has_relay_state ≡ true) × Relays w "unlocked"
IsRelayed buzz w = (w.has_confirmed_command ≡ true) × Relays w "unlocked"
IsRelayed restore_schedule w =
    (w.has_relay_state ≡ true) × (Relays w "locked" ⊎ Relays w "unlocked")

abbrev pub Evidence : LockKind → Action → Weather → Type 0
Evidence access_native action w = IsRelayed action w
Evidence ha_external action w = IsReadBack action w
Evidence other_type action w = ⊥

module _ (E : Type 0) where
  -- a grant has the evidence
  abbrev pub Proves : ActionResult → Type 0
  Proves r = is_granted r.outcome ≡ true → E

  pub refused-Proves : (r : ActionResult) → is_granted r.outcome ≡ false → Yields Proves (return r)
  refused-Proves r h = Yields-return r (λ g. ground (arith, h, g))

  pub on_exception-Proves :
      (row : LockRow) (action : Action) (late attempted : Bool) (owed : Owed)
      → Yields Proves (on_exception row action late attempted owed)
  unfolding on_exception
  on_exception-Proves row action late attempted owed =
      search (yields_rules, refused-Proves) depth 12

  pub on_unconfirmed-Proves :
      (row : LockRow) (action : Action) (k : String) (w : Weather) (owed : Owed) (o : Outcome)
      (r : Reason)
      → is_granted o ≡ false
      → Yields Proves (on_unconfirmed row action k w owed o r)
  unfolding on_unconfirmed
  on_unconfirmed-Proves row action k w owed o r h =
      search (yields_rules, refused-Proves, on_exception-Proves) depth 14

  pub on_confirmed-Proves :
      (row : LockRow) (action : Action) (k : String) (w : Weather) (owed : Owed)
      → E
      → Yields Proves (on_confirmed row action k w owed)
  unfolding on_confirmed
  on_confirmed-Proves row action k w nothing e = search (yields_rules) depth 14
  on_confirmed-Proves row action k w (intent i) e = search (yields_rules) depth 14
  on_confirmed-Proves row action k w (held r) e =
      search (yields_rules, on_exception-Proves) depth 14

  pub conclude-Proves :
      (action : Action) (wants : Bool) (w : Weather) (r : ActionResult)
      → Proves r
      → Yields Proves (conclude action wants w r)
  unfolding conclude
  conclude-Proves action wants w r q = search (yields_rules) depth 14

  pub audited-Proves : (r : ActionResult) → is_granted r.outcome ≡ false → Yields Proves (audited r)
  audited-Proves r h = Yields-bind (audit_result r) _ (λ _. refused-Proves r h)
