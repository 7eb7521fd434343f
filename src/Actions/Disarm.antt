-- ===== src/Actions/Disarm.antt =====
-- `_auto_disarm` of lock_actions.py, after a manual unlock was granted. The decryption of a panel's
-- code is left out.
use hassio_access_control.Prelude.{
  Bool, true, false, not, ◌||◌, Option, none, some, List, [], ◌∷◌, String, if◌then◌else◌,
}
use hassio_access_control.Relock.Manager.{
  log_access, alarm_disarm, Method, ◌>>◌, return, except, emit,
}
use hassio_access_control.Actions.{Panel, Weather, db_call}

unfoldable pub logged : String → Method (Unit {0})
logged result = do db_call; emit (log_access result)

-- the handler of a panel's exception, whose own exception is only reported
unfoldable pub on_failure : Method (Unit {0})
unfolding logged
on_failure = except (logged "error") (return tt)

unfoldable pub after_disarm : Option Bool → Method (Unit {0})
unfolding on_failure
after_disarm none = on_failure
after_disarm (some true) = except (logged "granted") on_failure
after_disarm (some false) = except (logged "error") on_failure

unfoldable pub disarm_panels : List Panel → Method (Unit {0})
unfolding after_disarm
disarm_panels [] = return tt
disarm_panels (p ∷ panels) =
    let rest = disarm_panels panels in
    if p.lockdown || not p.has_client
    then return tt
    else do emit (alarm_disarm p.entity_id); after_disarm p.disarmed; rest

unfoldable pub auto_disarm : Weather → Method (Unit {0})
auto_disarm w = if w.lockdown_after then return tt else do db_call; disarm_panels w.panels
