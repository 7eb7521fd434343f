-- ===== src/HubSync/Drive.antt =====
-- `_drive_hub` of hub_sync.py: the attempts to command one hub.
use hassio_access_control.Prelude.{
  ℕ, zero, suc, String, Bool, true, false, List, [], ◌∷◌, if◌then◌else◌, str_eq,
}
use hassio_access_control.HubSync.{
  AccessRule, native, held_open, held_locked, Hub, owns_open, Sync, record_hub_state,
}

-- the command for a goal: a hold, or one of the resets (`force_lock`, `release_persistent_lock`,
-- `restore_native_rule`), which replace a persistent rule
pub data Command : Type 0 where
  hold_unlocked hold_locked reset : Command

abbrev pub rule_of : Command → AccessRule
rule_of hold_unlocked = held_open
rule_of hold_locked = held_locked
rule_of reset = native

-- how one attempt ends: it is given up under the barrier (lockdown, urgent lockdown or the guard);
-- there is no client; it is given up after the write-ahead; the command raises, and the hub may have
-- the rule or not; the command returns
pub data Attempt : Type 0 where
  given_up no_client given_up_late : Attempt
  raised : Bool → Attempt
  returned : Attempt

abbrev pub set_rule : String → AccessRule → Sync → Sync
set_rule device_id rule s = record s { rules = λ d. if str_eq device_id d then rule else s.rules d }

-- `before_command`, which only a hold-open has
unfoldable pub write_ahead : String → Hub → Command → Sync → Bool × Sync
write_ahead eid hub hold_unlocked s = record_hub_state eid hub owns_open s
write_ahead eid hub command s = (true, s)

-- whether there is another attempt, or `drive_hub` returns with or without a result
pub data Round : Type 0 where
  go_on : Sync → Round
  ended : Bool → Sync → Round

-- the command of an attempt, if its write-ahead ran
unfoldable pub send : Hub → Command → Attempt → Bool × Sync → Round
send hub command attempt (false, s) = go_on s
send hub command given_up (true, s) = ended false s
send hub command no_client (true, s) = go_on s
send hub command given_up_late (true, s) = ended false s
send hub command (raised applied) (true, s) =
    go_on (if applied then set_rule hub.device_id (rule_of command) s else s)
send hub command returned (true, s) = ended true (set_rule hub.device_id (rule_of command) s)

unfoldable pub try_once : String → Hub → Command → Attempt → Sync → Round
try_once eid hub command given_up s = ended false s
try_once eid hub command no_client s = go_on s
try_once eid hub command attempt s = send hub command attempt (write_ahead eid hub command s)

-- the attempts in order, with whether one returned
unfoldable pub drive_hub : String → Hub → Command → List Attempt → Sync → Bool × Sync
drive_hub eid hub command [] s = (false, s)
drive_hub eid hub command (attempt ∷ attempts) s = elim (try_once eid hub command attempt s) [
  | go_on s' ↦ drive_hub eid hub command attempts s'
  | ended drove s' ↦ (drove, s')
]

abbrev pub apply_retries : ℕ
apply_retries = 2

-- `max_attempts`
abbrev pub max_attempts : Bool → ℕ
max_attempts enforcing_lockdown = if enforcing_lockdown then 1 else apply_retries

abbrev pub take : {A : Type 0} → ℕ → List A → List A
take zero xs = []
take (suc n) [] = []
take (suc n) (x ∷ xs) = x ∷ take n xs
