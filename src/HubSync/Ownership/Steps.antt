-- ===== src/HubSync/Ownership/Steps.antt =====
-- The commands and the records of hub_sync.py keep the ownership of held doors.
pub mod Loops
use hassio_access_control.Prelude.{
  String, ◌≡◌, ◌≢◌, refl, sym, ◌∙◌, ◌⊎◌, inl, inr, Bool, true, false, not, ◌&&◌, ◌||◌, List, [],
  ◌∷◌, arith, if◌then◌else◌, str_eq, eq_iff, eq_refl, subst, Bool-cases,
}
use hassio_access_control.HubSync.{
  HoldRow, AccessRule, native, held_open, held_locked, keep_unlock, keep_lock, Hub, HubState,
  owns_open, owns_lock, owns_nothing, Sync, hold_row, record_hub_state,
}
use hassio_access_control.HubSync.Drive.{
  Command, hold_unlocked, hold_locked, reset, rule_of, Attempt, given_up, no_client, given_up_late,
  raised, returned, set_rule, write_ahead, Round, go_on, ended, send, try_once, drive_hub,
}
use hassio_access_control.HubSync.Ownership.{
  HasRow, upsert-HasRow, upserted-HasRow, delete-HasRow, record-HasRow, recorded-HasRow,
  record-rules,
}

-- a row of the device
abbrev pub Owns : String → List HoldRow → Type 0
Owns d = HasRow (λ k e. e ≡ d)

-- every hub that holds its door open has a row
pub record IsOwned (s : Sync) : Type 0 where
  pub at : (d : String) → s.rules d ≡ held_open → Owns d s.holds

pub hold-IsOwned :
    (eid : String) (hub : Hub) (s : Sync)
    → IsOwned s
    → IsOwned (record_hub_state eid hub owns_lock s).1
hold-IsOwned eid hub s h = record {
  at = λ d e.
      record-HasRow (λ k x. x ≡ d) eid hub owns_lock s
        (upsert-HasRow (λ k x. x ≡ d) (hold_row eid hub keep_lock) s.holds)
        (h.at d (subst (λ r. r d ≡ held_open) (record-rules eid hub owns_lock s) e));
}

open-IsOwned :
    (eid : String) (hub : Hub) (s : Sync)
    → IsOwned s
    → IsOwned (record_hub_state eid hub owns_open s).1
open-IsOwned eid hub s h = record {
  at = λ d e.
      record-HasRow (λ k x. x ≡ d) eid hub owns_open s
        (upsert-HasRow (λ k x. x ≡ d) (hold_row eid hub keep_unlock) s.holds)
        (h.at d (subst (λ r. r d ≡ held_open) (record-rules eid hub owns_open s) e));
}

-- the row goes only when the door is not held open
pub clear-IsOwned :
    (eid : String) (hub : Hub) (s : Sync)
    → s.rules hub.device_id ≢ held_open
    → IsOwned s
    → IsOwned (record_hub_state eid hub owns_nothing s).1
clear-IsOwned eid hub s n h = record {
  at = λ d e.
      let held = subst (λ r. r d ≡ held_open) (record-rules eid hub owns_nothing s) e in
      record-HasRow (λ k x. x ≡ d) eid hub owns_nothing s
        (delete-HasRow (λ k x. x ≡ d) eid hub.device_id s.holds
          (λ k x p same. n (subst (λ y. s.rules y ≡ held_open) (sym (same ∙ p)) held)))
        (h.at d held);
}

set_rule-IsOwned :
    (device : String) (rule : AccessRule) (s : Sync)
    → (rule ≡ held_open → Owns device s.holds)
    → IsOwned s
    → IsOwned (set_rule device rule s)
set_rule-IsOwned device rule s f h = record { at = λ d. by_device d (str_eq device d) refl }
  where
    by_device :
        (d : String) (b : Bool)
        → str_eq device d ≡ b
        → (if b then rule else s.rules d) ≡ held_open
        → Owns d s.holds
    by_device d true e held = subst (λ y. Owns y s.holds) ((eq_iff device d).0 e) (f held)
    by_device d false e held = h.at d held

-- the write-ahead, and the row that it leaves before a door is opened
record IsAhead (hub : Hub) (command : Command) (x : Bool × Sync) : Type 0 where
  pub owned : IsOwned x.1
  pub has_row : x.0 ≡ true → rule_of command ≡ held_open → Owns hub.device_id x.1.holds

write_ahead-IsAhead :
    (eid : String) (hub : Hub) (command : Command) (s : Sync)
    → IsOwned s
    → IsAhead hub command (write_ahead eid hub command s)
unfolding write_ahead
write_ahead-IsAhead eid hub hold_unlocked s h = record {
  owned = open-IsOwned eid hub s h;
  has_row = λ wrote e.
      recorded-HasRow (λ k x. x ≡ hub.device_id) eid hub owns_open s
        (upserted-HasRow (λ k x. x ≡ hub.device_id) (hold_row eid hub keep_unlock) s.holds refl)
        wrote;
}
write_ahead-IsAhead eid hub hold_locked s h = record {
  owned = h;
  has_row = λ wrote e. absurd (ground (arith, e));
}
write_ahead-IsAhead eid hub reset s h = record {
  owned = h;
  has_row = λ wrote e. absurd (ground (arith, e));
}

abbrev pub state_of : Round → Sync
state_of (go_on s) = s
state_of (ended drove s) = s

send-IsOwned :
    (hub : Hub) (command : Command) (attempt : Attempt) (x : Bool × Sync)
    → IsAhead hub command x
    → IsOwned (state_of (send hub command attempt x))
unfolding send
send-IsOwned hub command attempt (false, s) h = h.owned
send-IsOwned hub command given_up (true, s) h = h.owned
send-IsOwned hub command no_client (true, s) h = h.owned
send-IsOwned hub command given_up_late (true, s) h = h.owned
send-IsOwned hub command (raised false) (true, s) h = h.owned
send-IsOwned hub command (raised true) (true, s) h =
    set_rule-IsOwned hub.device_id (rule_of command) s (h.has_row refl) h.owned
send-IsOwned hub command returned (true, s) h =
    set_rule-IsOwned hub.device_id (rule_of command) s (h.has_row refl) h.owned

try_once-IsOwned :
    (eid : String) (hub : Hub) (command : Command) (attempt : Attempt) (s : Sync)
    → IsOwned s
    → IsOwned (state_of (try_once eid hub command attempt s))
unfolding try_once
try_once-IsOwned eid hub command given_up s h = h
try_once-IsOwned eid hub command no_client s h = h
try_once-IsOwned eid hub command given_up_late s h =
    send-IsOwned hub command given_up_late _ (write_ahead-IsAhead eid hub command s h)
try_once-IsOwned eid hub command (raised a) s h =
    send-IsOwned hub command (raised a) _ (write_ahead-IsAhead eid hub command s h)
try_once-IsOwned eid hub command returned s h =
    send-IsOwned hub command returned _ (write_ahead-IsAhead eid hub command s h)

pub drive_hub-IsOwned :
    (eid : String) (hub : Hub) (command : Command) (attempts : List Attempt) (s : Sync)
    → IsOwned s
    → IsOwned (drive_hub eid hub command attempts s).1
unfolding drive_hub
drive_hub-IsOwned eid hub command [] s h = h
drive_hub-IsOwned eid hub command (a ∷ attempts) s h =
    by_round (try_once eid hub command a s) (try_once-IsOwned eid hub command a s h)
      (drive_hub-IsOwned eid hub command attempts)
  where
    by_round :
        (r : Round)
        → IsOwned (state_of r)
        → ((s' : Sync) → IsOwned s' → IsOwned (drive_hub eid hub command attempts s').1)
        → IsOwned
            (elim r as (λ x. Bool × Sync) [
              | go_on s' ↦ drive_hub eid hub command attempts s'
              | ended drove s' ↦ (drove, s')
            ]).1
    by_round (go_on s') k rest = rest s' k
    by_round (ended drove s') k rest = k

-- a round that ends with a result has set the rule
abbrev Sets : Hub → Command → Round → Type 0
Sets hub command (go_on s) = Unit {0}
Sets hub command (ended drove s) = drove ≡ true → s.rules hub.device_id ≡ rule_of command

send-Sets :
    (hub : Hub) (command : Command) (attempt : Attempt) (x : Bool × Sync)
    → Sets hub command (send hub command attempt x)
unfolding send
send-Sets hub command attempt (false, s) = tt
send-Sets hub command given_up (true, s) = λ e. absurd (ground (arith, e))
send-Sets hub command no_client (true, s) = tt
send-Sets hub command given_up_late (true, s) = λ e. absurd (ground (arith, e))
send-Sets hub command (raised a) (true, s) = tt
send-Sets hub command returned (true, s) = λ e. ground (arith, eq_refl hub.device_id)

try_once-Sets :
    (eid : String) (hub : Hub) (command : Command) (attempt : Attempt) (s : Sync)
    → Sets hub command (try_once eid hub command attempt s)
unfolding try_once
try_once-Sets eid hub command given_up s = λ e. absurd (ground (arith, e))
try_once-Sets eid hub command no_client s = tt
try_once-Sets eid hub command given_up_late s = send-Sets hub command given_up_late _
try_once-Sets eid hub command (raised a) s = send-Sets hub command (raised a) _
try_once-Sets eid hub command returned s = send-Sets hub command returned _

-- after a drive that succeeds, the hub has the rule of the command
pub drive_hub-Sets :
    (eid : String) (hub : Hub) (command : Command) (attempts : List Attempt) (s : Sync)
    → (drive_hub eid hub command attempts s).0 ≡ true
    → (drive_hub eid hub command attempts s).1.rules hub.device_id ≡ rule_of command
unfolding drive_hub
drive_hub-Sets eid hub command [] s e = absurd (ground (arith, e))
drive_hub-Sets eid hub command (a ∷ attempts) s e =
    by_round (try_once eid hub command a s) (try_once-Sets eid hub command a s)
      (drive_hub-Sets eid hub command attempts) e
  where
    by_round :
        (r : Round)
        → Sets hub command r
        → ((s' : Sync)
            → (drive_hub eid hub command attempts s').0 ≡ true
            → (drive_hub eid hub command attempts s').1.rules hub.device_id ≡ rule_of command)
        → (elim r as (λ x. Bool × Sync) [
          | go_on s' ↦ drive_hub eid hub command attempts s'
          | ended drove s' ↦ (drove, s')
        ]).0
          ≡ true
        → (elim r as (λ x. Bool × Sync) [
          | go_on s' ↦ drive_hub eid hub command attempts s'
          | ended drove s' ↦ (drove, s')
        ]).1.rules
            hub.device_id
          ≡ rule_of command
    by_round (go_on s') k rest e' = rest s' e'
    by_round (ended drove s') k rest e' = k e'
