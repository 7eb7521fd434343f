-- ===== src/HubSync/Recover.antt =====
-- `recover` of hub_sync.py: after a restart the rows are loaded, the holds that the marker's check
-- adopts again leave the queue, and all others are latched, queued and released.
use hassio_access_control.Prelude.{
  String, Bool, not, ◌&&◌, ◌||◌, none, List, [], ◌∷◌, ◌++◌, map, keep,
}
use hassio_access_control.Prelude.Map.{Map, erase}
use hassio_access_control.HubSync.{Hub, Sync}
use hassio_access_control.HubSync.Release.{
  load_persisted_holds, queue_release, Visit, process_pending_releases,
}
use hassio_access_control.HubSync.Marker.{is_in}

-- `recovered_eids`, with an entity once for each map that has it
abbrev pub tracked_eids : Sync → List String
tracked_eids s =
    map (λ p. p.0) s.held_open ++ map (λ p. p.0) s.held_locked ++ map (λ p. p.0) s.pending_release

abbrev pub erase_all : List String → Map (List Hub) → Map (List Hub)
erase_all [] m = m
erase_all (eid ∷ eids) m = erase_all eids (erase eid m)

-- the preserved holds leave the queue, and the others are latched
unfoldable pub latch_recovered : List String → Sync → Sync
latch_recovered preserved s = record s {
  pending_release = erase_all preserved s.pending_release;
  fail_safe = λ e. s.fail_safe e || is_in e (tracked_eids s) && not (is_in e preserved);
}

-- `resolved` is what `_resolve_hub_locks` finds for an entity
unfoldable pub queue_all : (String → List Hub) → List String → Sync → Sync
queue_all resolved [] s = s
queue_all resolved (eid ∷ eids) s =
    queue_all resolved eids (queue_release eid none (resolved eid) s)

-- from the load of the rows to the first round of releases, whose visits and keys are the last
-- arguments
unfoldable pub recover :
    List String → (String → List Hub) → Bool → (String → Visit) → List String → Sync → Sync
recover preserved resolved enforcing visits eids s =
    let loaded = load_persisted_holds s in
    let recovered = keep (λ e. not (is_in e preserved)) (tracked_eids loaded) in
    process_pending_releases enforcing visits eids
      (queue_all resolved recovered (latch_recovered preserved loaded))
