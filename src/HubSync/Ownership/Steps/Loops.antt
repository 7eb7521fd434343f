-- ===== src/HubSync/Ownership/Steps/Loops.antt =====
-- The loops of hub_sync.py keep the ownership of held doors, through any run and any restart.
use hassio_access_control.Prelude.{
  String, ◌≡◌, ◌≢◌, refl, sym, ◌∙◌, Bool, true, false, not, ◌&&◌, List, [], ◌∷◌, arith,
  if◌then◌else◌,
}
use hassio_access_control.HubSync.{held_open, Hub, owns_lock, owns_nothing, Sync, record_hub_state}
use hassio_access_control.HubSync.Drive.{rule_of, drive_hub, max_attempts, take}
use hassio_access_control.HubSync.Apply.{
  Request, Meeting, is_unlock, wants_hold, command_for, Loop, next, stopped, own_before, own_after,
  end_round, drive_owned, apply_hub, apply_all, apply_state,
}
use hassio_access_control.HubSync.Ownership.Steps.{
  IsOwned, hold-IsOwned, clear-IsOwned, drive_hub-IsOwned, drive_hub-Sets,
}

own_before-IsOwned :
    (eid : String) (hub : Hub) (q : Request) (s : Sync)
    → IsOwned s
    → IsOwned (own_before eid hub q s).1
unfolding own_before
own_before-IsOwned eid hub q s h = by_want (wants_hold q)
  where
    by_want :
        (b : Bool)
        → IsOwned
            (if◌then◌else◌ {A = Bool × Sync} b (record_hub_state eid hub owns_lock s) (true, s)).1
    by_want true = hold-IsOwned eid hub s h
    by_want false = h

own_after-IsOwned :
    (eid : String) (hub : Hub) (q : Request) (drove : Bool) (s : Sync)
    → (drove && not (is_unlock q.goal) && not (wants_hold q) ≡ true
        → s.rules hub.device_id ≢ held_open)
    → IsOwned s
    → IsOwned (own_after eid hub q (drove, s)).1
unfolding own_after
own_after-IsOwned eid hub q drove s closed h =
    by_case (drove && not (is_unlock q.goal) && not (wants_hold q)) refl
  where
    by_case :
        (b : Bool)
        → drove && not (is_unlock q.goal) && not (wants_hold q) ≡ b
        → IsOwned
            (if◌then◌else◌ {A = Bool × Sync} b
              (record_hub_state eid hub owns_nothing s)
              (true, s)).1
    by_case true e = clear-IsOwned eid hub s (closed e) h
    by_case false e = h

-- a command that clears the ownership afterwards resets the hub
command_for-closes :
    (q : Request) (wrote drove : Bool)
    → drove && not (is_unlock q.goal) && not (wants_hold q) ≡ true
    → rule_of (command_for q wrote) ≢ held_open
command_for-closes q wrote drove h e = ground (arith, h, e)

abbrev state_of : Loop → Sync
state_of (next ok s) = s
state_of (stopped s) = s

end_round-IsOwned :
    (eid : String) (hub : Hub) (q : Request) (w : Meeting) (wrote drove : Bool) (s : Sync)
    → (drove ≡ true → s.rules hub.device_id ≡ rule_of (command_for q wrote))
    → IsOwned s
    → IsOwned (state_of (end_round eid hub q w wrote (drove, s)))
unfolding end_round
end_round-IsOwned eid hub q w wrote drove s set h = by_urgent (w.urgent && not q.enforcing_lockdown)
  where
    closed :
        drove && not (is_unlock q.goal) && not (wants_hold q) ≡ true
        → s.rules hub.device_id ≢ held_open
    closed e held = command_for-closes q wrote drove e (sym (set (ground (arith, e))) ∙ held)

    by_urgent :
        (b : Bool)
        → IsOwned (
            state_of (
              if b
              then stopped s
              else next
                  (drove && wrote && (own_after eid hub q (drove, s)).0)
                  (own_after eid hub q (drove, s)).1))
    by_urgent true = h
    by_urgent false = own_after-IsOwned eid hub q drove s closed h

drive_owned-IsOwned :
    (eid : String) (hub : Hub) (q : Request) (w : Meeting) (x : Bool × Sync)
    → IsOwned x.1
    → IsOwned (state_of (drive_owned eid hub q w x))
unfolding drive_owned
drive_owned-IsOwned eid hub q w (wrote, s) h =
    let attempts = take (max_attempts q.enforcing_lockdown) w.attempts in
    let x = drive_hub eid hub (command_for q wrote) attempts s in
    end_round-IsOwned eid hub q w wrote x.0 x.1
      (drive_hub-Sets eid hub (command_for q wrote) attempts s)
      (drive_hub-IsOwned eid hub (command_for q wrote) attempts s h)

apply_hub-IsOwned :
    (eid : String) (q : Request) (hub : Hub) (w : Meeting) (s : Sync)
    → IsOwned s
    → IsOwned (state_of (apply_hub eid q hub w s))
unfolding apply_hub
apply_hub-IsOwned eid q hub w s h = refused (is_unlock q.goal && w.lockdown)
  where
    refused :
        (b : Bool)
        → IsOwned
            (state_of (if b then stopped s else drive_owned eid hub q w (own_before eid hub q s)))
    refused true = h
    refused false =
        drive_owned-IsOwned eid hub q w (own_before eid hub q s) (own_before-IsOwned eid hub q s h)

apply_all-IsOwned :
    (eid : String) (q : Request) (hubs : List (Hub × Meeting)) (s : Sync)
    → IsOwned s
    → IsOwned (apply_all eid q hubs s).1
unfolding apply_all
apply_all-IsOwned eid q [] s h = h
apply_all-IsOwned eid q ((hub, w) ∷ hubs) s h =
    by_round (apply_hub eid q hub w s) (apply_hub-IsOwned eid q hub w s h)
      (apply_all-IsOwned eid q hubs)
  where
    by_round :
        (r : Loop)
        → IsOwned (state_of r)
        → ((s' : Sync) → IsOwned s' → IsOwned (apply_all eid q hubs s').1)
        → IsOwned
            (elim r as (λ x. Bool × Sync) [
              | stopped s' ↦ (false, s')
              | next ok s' ↦ (ok && (apply_all eid q hubs s').0, (apply_all eid q hubs s').1)
            ]).1
    by_round (stopped s') k rest = k
    by_round (next ok s') k rest = rest s' k

pub apply_state-IsOwned :
    (eid : String) (q : Request) (hubs : List (Hub × Meeting)) (s : Sync)
    → IsOwned s
    → IsOwned (apply_state eid q hubs s).1
unfolding apply_state
apply_state-IsOwned eid q [] s h = h
apply_state-IsOwned eid q (hub ∷ hubs) s h = apply_all-IsOwned eid q (hub ∷ hubs) s h
