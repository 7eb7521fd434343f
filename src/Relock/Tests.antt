-- ===== src/Relock/Tests.antt =====
-- A manager with one door, and the theorems of the modules below at it.
use hassio_access_control.Prelude.{
  ℕ, String, ◌==◌, if◌then◌else◌, ◌≡◌, refl, true, false, none, some, [], ◌∷◌, arith,
}
use hassio_access_control.Prelude.Map.{get, erase}
use hassio_access_control.Relock.Rows.{Row, get_pending_relock, add_pending_relock, HasKeys}
use hassio_access_control.Relock.Manager.{Clock, Task, Manager, ok, command_lock, on_locked, start}
use hassio_access_control.Relock.Timers.{
  RelockIntent, schedule, restore_after_failed_unlock, retain_after_uncertain_unlock,
  extend_after_success, pause, resume,
}
use hassio_access_control.Relock.Fire.{
  refused, accepted, Attempt, confirmed, attempt_lock, wait_and_lock,
}
use hassio_access_control.Relock.Undo.{timer, due, restore-schedule}
use hassio_access_control.Relock.Retain.{
  retain-schedule, superseded_intent, resume-pause, armed-EndsBy, EndsBy, HasNoEffect,
}
use hassio_access_control.Relock.Outcome.{Wants, command_wanted, wait_and_lock_outcome}

abbrev door : String
door = "lock.front"

-- the row that was left by an earlier unlock
abbrev earlier : Row
earlier = record {
  entity_id = "lock.front";
  lock_id = some 1;
  lock_name = some "front";
  source = "nfc";
  deadline = 100;
  created_at = 40;
}

abbrev tick : Clock
tick = record { wall = 50; monotonic = 5 }

abbrev idle : Manager
idle = start (earlier ∷ [])

one_key : HasKeys (earlier ∷ [])
unfolding get_pending_relock
one_key = (refl, tt)

abbrev armed : Task
armed = record {
  id = 0;
  lock_name = "front";
  deadline = 80;
  monotonic_deadline = some 35;
  done = false;
}

abbrev intent : RelockIntent
intent = record {
  entity_id = "lock.front";
  deadline = 80;
  previous_row = some earlier;
  task = armed;
}

abbrev waiting : Manager
waiting = (schedule door 30 (some 1) "front" "nfc" tick idle).1

schedule_door : (schedule door 30 (some 1) "front" "nfc" tick idle).0 ≡ ok intent
unfolding schedule get_pending_relock add_pending_relock erase
schedule_door = refl

restore-schedule_example :
    let (done, m') = restore_after_failed_unlock intent waiting in
    (done ≡ ok true) × (m'.rows ≡ earlier ∷ []) × (timer door m' ≡ due door idle)
restore-schedule_example =
    restore-schedule door 30 (some 1) "front" "nfc" tick idle intent refl refl one_key schedule_door

retain-schedule_example :
    let (done, m') = retain_after_uncertain_unlock intent waiting in
    (done ≡ ok true) × (due door m' ≡ some 80) × (timer door m' ≡ some 80)
unfolding get_pending_relock
retain-schedule_example =
    retain-schedule door 30 (some 1) "front" "nfc" tick idle intent refl refl one_key schedule_door

-- the intent again, before the door is unlocked a second time
again_door :
    (schedule door 60 none "front" "web" tick waiting).0
    ≡ ok (record {
      entity_id = "lock.front";
      deadline = 110;
      previous_row = get_pending_relock door waiting.rows;
      task = record {
        id = 1;
        lock_name = "front";
        deadline = 110;
        monotonic_deadline = some 65;
        done = false;
      };
    })
unfolding schedule add_pending_relock erase
again_door = refl

waiting_serves : (waiting.faults ≡ []) × (waiting.shutting_down ≡ false) × (waiting.next_task ≡ 1)
unfolding schedule add_pending_relock erase
waiting_serves = (refl, refl, refl)

abbrev again : Manager
again = (schedule door 60 none "front" "web" tick waiting).1

-- the timer of the second unlock
abbrev newer_task : Task
newer_task = record {
  id = 1;
  lock_name = "front";
  deadline = 110;
  monotonic_deadline = some 65;
  done = false;
}

newer_live : get door again.tasks ≡ some newer_task
unfolding schedule get_pending_relock add_pending_relock erase
newer_live = refl

superseded_intent_example :
    (get door again.tasks ≡ some newer_task)
    × HasNoEffect again (restore_after_failed_unlock intent again)
    × HasNoEffect again (extend_after_success intent 90 tick again)
superseded_intent_example =
    superseded_intent door 60 none "front" "web" tick waiting intent _ 90 tick again refl
      (rw (waiting_serves.2) (omega arith)) again_door newer_live

earlier_current : get_pending_relock door (earlier ∷ []) ≡ some earlier
unfolding get_pending_relock
earlier_current = refl

resume-pause_example :
    let m1 = (pause door idle).1 in
    let (done, m') = resume (some earlier) m1 in
    ((pause door idle).0 ≡ ok (some earlier))
    × (timer door m1 ≡ none)
    × (m1.paused door ≡ true)
    × (done ≡ ok true)
    × (m'.rows ≡ earlier ∷ [])
    × (m'.paused door ≡ false)
    × (timer door m' ≡ some 100)
resume-pause_example = resume-pause door idle earlier refl refl earlier_current

-- the database is locked when the timer is to be armed
abbrev locked_database : Manager
locked_database = record idle { faults = false ∷ true ∷ [] }

-- the wall clock has gone back by forty seconds, fifteen seconds after the arming
abbrev set_back : Clock
set_back = record { wall = 10; monotonic = 20 }

armed-EndsBy_example :
    let first = schedule door 30 (some 1) "front" "nfc" tick idle in
    let longer = extend_after_success intent 30 tick idle in
    (first.0 ≡ ok intent → get door first.1.tasks ≡ some armed → EndsBy 35 set_back armed)
    × (longer.0 ≡ ok true → get door longer.1.tasks ≡ some armed → EndsBy 35 set_back armed)
armed-EndsBy_example =
    armed-EndsBy door 30 (some 1) "front" "nfc" tick set_back idle intent armed (omega arith)

-- the first attempt is refused and the second is confirmed at once
abbrev second : ℕ → Attempt
second i = record {
  meanwhile = λ m. m;
  answer = if i == 2 then accepted (λ j. some "locked") else refused;
}

abbrev Wanted : Type 0
Wanted = Wants door 80 (some 0) waiting

waiting_wants : Wanted
unfolding schedule get_pending_relock add_pending_relock erase
waiting_wants = (refl, refl, refl, refl)

command_wanted_example : Wanted
unfolding attempt_lock schedule get_pending_relock add_pending_relock erase
command_wanted_example = command_wanted door 80 (some 0) refused waiting (λ e. cc)

waiting_keys : HasKeys waiting.rows
unfolding schedule get_pending_relock add_pending_relock erase
waiting_keys = (refl, tt)

wait_and_lock_outcome_example :
    let m' = (wait_and_lock door 80 0 second true tick waiting).1 in
    (due door m' ≡ none)
    × (timer door m' ≡ none)
    × (m'.effects ≡ command_lock door ∷ command_lock door ∷ on_locked door ∷ [])
unfolding confirmed schedule
wait_and_lock_outcome_example =
    wait_and_lock_outcome door 80 0 second waiting waiting_serves.0 waiting_wants (λ i m. refl) true
      tick waiting_keys
