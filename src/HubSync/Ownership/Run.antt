-- ===== src/HubSync/Ownership/Run.antt =====
-- Runs of the manager of hub_sync.py with the hubs and the table around it.
use hassio_access_control.Prelude.{String, ◌≡◌, ◌≢◌, sym, subst, Bool, true, Option, List}
use hassio_access_control.HubSync.{AccessRule, held_open, Hub, Sync, hubs_of, has_hub}
use hassio_access_control.HubSync.Drive.{Attempt}
use hassio_access_control.HubSync.Observe.{observe_hub, fail_safe_hub, drop_tracking}
use hassio_access_control.HubSync.Recover.{latch_recovered}
use hassio_access_control.HubSync.Apply.{Request, Meeting, apply_state}
use hassio_access_control.HubSync.Release.{
  load_persisted_holds, restart, queue_release, Visit, process_pending_releases,
}
use hassio_access_control.HubSync.Ownership.Steps.{Owns, IsOwned}
use hassio_access_control.HubSync.Ownership.Steps.Loops.{apply_state-IsOwned}
use hassio_access_control.HubSync.Ownership.Observed.{observe_hub-IsOwned, fail_safe_hub-IsOwned}
use hassio_access_control.HubSync.Ownership.Releases.{
  process-IsOwned, load_rows-IsOwned, queue_release-rules,
}

-- a call of the manager, a restart of the process at any point between two calls, other writes of
-- the fail-safe latch, the database's next failures, and changes of the rules by others, who may end
-- a hold of a door but do not begin one for the app
pub data Step : Sync → Sync → Type 0 where
  applied :
      (eid : String) (q : Request) (hubs : List (Hub × Meeting)) (s : Sync)
      → Step s (apply_state eid q hubs s).1
  loaded : (s : Sync) → Step s (load_persisted_holds s)
  queued :
      (eid : String) (baseline : Option (List Hub)) (resolved : List Hub) (s : Sync)
      → Step s (queue_release eid baseline resolved s)
  processed :
      (enforcing : Bool) (visits : String → Visit) (eids : List String) (s : Sync)
      → Step s (process_pending_releases enforcing visits eids s)
  -- the rule that was read may have ended since, and is no open one where a lock is recorded
  observed :
      (eid : String) (hub : Hub) (rule : AccessRule) (s : Sync)
      → (s.rules hub.device_id ≡ held_open → rule ≡ held_open)
      → (has_hub hub.device_id (hubs_of eid s.held_locked) ≡ true → rule ≢ held_open)
      → Step s (observe_hub eid hub rule s).1
  shared :
      (eid : String) (eids : List String) (hub : Hub) (enforcing : Bool) (attempts : List Attempt)
      (s : Sync)
      → Step s (fail_safe_hub eid eids hub enforcing attempts s).1
  dropped : (eid : String) (s : Sync) → Step s (drop_tracking eid s)
  recovered : (preserved : List String) (s : Sync) → Step s (latch_recovered preserved s)
  restarted : (s : Sync) → Step s (restart s)
  latched : (fail_safe : String → Bool) (s : Sync) → Step s (record s { fail_safe = fail_safe })
  failing : (faults : List Bool) (s : Sync) → Step s (record s { faults = faults })
  elsewhere :
      (rules : String → AccessRule) (s : Sync)
      → ((d : String) → rules d ≡ held_open → s.rules d ≡ held_open)
      → Step s (record s { rules = rules })

pub data Run : Sync → Sync → Type 0 where
  here : (s : Sync) → Run s s
  then_step : {s t u : Sync} → Run s t → Step t u → Run s u

queued-IsOwned :
    (eid : String) (baseline : Option (List Hub)) (resolved : List Hub) (s : Sync)
    → IsOwned s
    → IsOwned (queue_release eid baseline resolved s)
queued-IsOwned eid baseline resolved s h =
    let e = queue_release-rules eid baseline resolved s in
    record {
      at = λ d held. subst (Owns d) (sym e.0) (h.at d (subst (λ r. r d ≡ held_open) e.1 held));
    }

Step-IsOwned : {s t : Sync} → Step s t → IsOwned s → IsOwned t
unfolding load_persisted_holds restart drop_tracking latch_recovered
Step-IsOwned (applied eid q hubs s) h = apply_state-IsOwned eid q hubs s h
Step-IsOwned (loaded s) h = load_rows-IsOwned s.holds s h
Step-IsOwned (queued eid baseline resolved s) h = queued-IsOwned eid baseline resolved s h
Step-IsOwned (processed enforcing visits eids s) h = process-IsOwned enforcing visits eids s h
Step-IsOwned (observed eid hub rule s read consistent) h =
    observe_hub-IsOwned eid hub rule s read consistent h
Step-IsOwned (shared eid eids hub enforcing attempts s) h =
    fail_safe_hub-IsOwned eid eids hub enforcing attempts s h
Step-IsOwned (dropped eid s) h = record { at = h.at }
Step-IsOwned (recovered preserved s) h = record { at = h.at }
Step-IsOwned (restarted s) h = record { at = h.at }
Step-IsOwned (latched fail_safe s) h = record { at = h.at }
Step-IsOwned (failing faults s) h = record { at = h.at }
Step-IsOwned (elsewhere rules s f) h = record { at = λ d held. h.at d (f d held) }

-- Through any run of calls that apply a state, load the rows, queue and process releases, observe a
-- hub, lock a shared hub, drop an entity or settle a recovery, with any failures of the database and
-- of the commands, restarts between the calls and rules that others end, every hub that holds its
-- door open for the app has a row in `hub_sync_holds`, if this was so before. One condition is on
-- the observations of the run: none reads a rule that holds the door open for an entity that
-- records a lock there (as after a lock command that failed), because the observation then deletes
-- the entity's row.
pub Run-IsOwned :
    (s t : Sync) → IsOwned s → Run s t → (d : String) → t.rules d ≡ held_open → Owns d t.holds
Run-IsOwned s t h run = (owned run).at
  where
    owned : {u : Sync} → Run s u → IsOwned u
    owned (here s') = h
    owned (then_step r step) = Step-IsOwned step (owned r)
