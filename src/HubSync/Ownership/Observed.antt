-- ===== src/HubSync/Ownership/Observed.antt =====
-- The writes of `Observe` keep the ownership of held doors, if no door is found open that is recorded
-- as locked.
use hassio_access_control.Prelude.{
  String, ◌≡◌, ◌≢◌, Bool, true, List, [], ◌∷◌, arith, Bool-cases, inl, inr,
}
use hassio_access_control.HubSync.{AccessRule, held_open, Hub, Sync, hubs_of, has_hub}
use hassio_access_control.HubSync.Drive.{Attempt, max_attempts, take}
use hassio_access_control.HubSync.Observe.{
  is_superseded, observe_hub, latch, own_shared, fail_safe_hub,
}
use hassio_access_control.HubSync.Ownership.Steps.{
  IsOwned, hold-IsOwned, clear-IsOwned, drive_hub-IsOwned,
}

superseded_lem :
    (eid : String) (hub : Hub) (rule : AccessRule) (s : Sync)
    → (has_hub hub.device_id (hubs_of eid s.held_locked) ≡ true → rule ≢ held_open)
    → is_superseded eid hub rule s ≡ true
    → rule ≢ held_open
superseded_lem eid hub rule s f e h =
    elim (Bool-cases (has_hub hub.device_id (hubs_of eid s.held_locked))) [
      | inl l ↦ f l h
      | inr l ↦ ground (arith, l, e, h)
    ]

pub observe_hub-IsOwned :
    (eid : String) (hub : Hub) (rule : AccessRule) (s : Sync)
    → (s.rules hub.device_id ≡ held_open → rule ≡ held_open)
    → (has_hub hub.device_id (hubs_of eid s.held_locked) ≡ true → rule ≢ held_open)
    → IsOwned s
    → IsOwned (observe_hub eid hub rule s).1
unfolding observe_hub
observe_hub-IsOwned eid hub rule s read consistent h =
    elim (Bool-cases (is_superseded eid hub rule s)) [
      | inl e ↦ rw e (
          clear-IsOwned eid hub s (λ held. superseded_lem eid hub rule s consistent e (read held))
            h)
      | inr e ↦ rw e h
    ]

own_shared-IsOwned :
    (eids : List String) (hub : Hub) (s : Sync) → IsOwned s → IsOwned (own_shared eids hub s).1
unfolding own_shared
own_shared-IsOwned [] hub s h = h
own_shared-IsOwned (eid ∷ eids) hub s h =
    own_shared-IsOwned eids hub _ (hold-IsOwned eid hub (latch eid s) (record { at = h.at }))

pub fail_safe_hub-IsOwned :
    (eid : String) (eids : List String) (hub : Hub) (enforcing : Bool) (attempts : List Attempt)
    (s : Sync)
    → IsOwned s
    → IsOwned (fail_safe_hub eid eids hub enforcing attempts s).1
unfolding fail_safe_hub
fail_safe_hub-IsOwned eid eids hub enforcing attempts s h =
    drive_hub-IsOwned eid hub _ (take (max_attempts enforcing) attempts) (own_shared eids hub s).1
      (own_shared-IsOwned eids hub s h)
