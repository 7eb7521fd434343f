-- ===== src/Relock/Undo.antt =====
-- What a caller of the manager relies on around an unlock: rollback, retention, pause and resume.

use hassio_access_control.Prelude.{
  ℕ, ◌+◌, String, ◌≡◌, refl, ◌∙◌, true, false, Option, none, some, [], arith, eq_refl,
}
use hassio_access_control.Prelude.Map.{get, get-erase}
use hassio_access_control.Relock.Rows.{
  Row, Table, get_pending_relock, add_pending_relock, remove_pending_relock_at_deadline, HasKeys,
}
use hassio_access_control.Relock.Rows.Lookup.{
  get-add, rows_at_deadline-get, add-add, remove_at-add, add-HasKeys,
}
use hassio_access_control.Relock.Manager.{Clock, Task, Manager, ok}
use hassio_access_control.Relock.Timers.{RelockIntent, schedule, restore_after_failed_unlock}

-- the deadline of the live timer of an entity, and of its durable row
abbrev pub timer : String → Manager → Option ℕ
timer k m = elim (get k m.tasks) [ none ↦ none | some t ↦ some t.deadline ]

abbrev pub deadline_of : Option Row → Option ℕ
deadline_of none = none
deadline_of (some r) = some r.deadline

abbrev pub due : String → Manager → Option ℕ
due k m = deadline_of (get_pending_relock k m.rows)

pub record SameTimers (m m' : Manager) : Type 0 where
  pub rows : m'.rows ≡ m.rows
  pub tasks : m'.tasks ≡ m.tasks

-- the durable rows without the intent's, or with its predecessor's put back
abbrev pub undone : String → ℕ → Option Row → Table → Table
undone k x none rows = remove_pending_relock_at_deadline k x rows
undone k x (some p) rows = add_pending_relock p rows

-- a rollback by the intent that still owns the entity
pub restore_owned :
    (k : String) (x : ℕ) (previous : Option Row) (task : Task) (m : Manager) (r : Row)
    → m.faults ≡ []
    → m.shutting_down ≡ false
    → HasKeys m.rows
    → get k m.tasks ≡ some task
    → get_pending_relock k m.rows ≡ some r
    → r.deadline ≡ x
    → let (done, m') =
        restore_after_failed_unlock
          (record { entity_id = k; deadline = x; previous_row = previous; task = task })
          m in
      (done ≡ ok true)
      × (m'.rows ≡ undone k x previous m.rows)
      × (timer k m' ≡ deadline_of previous)
unfolding restore_after_failed_unlock
restore_owned k x none task m r hf hs keys ht hr hx =
    ground (arith, rows_at_deadline-get k x m.rows keys, get-erase k k m.tasks, eq_refl k)
restore_owned k x (some p) task m r hf hs keys ht hr hx = ground (arith, eq_refl k)

-- what `schedule` writes, returns and leaves, on a healthy database and before a shutdown
module _ (k : String) (duration : ℕ) (lock_id : Option ℕ) (name source : String) (now : Clock)
    (m : Manager) where
  abbrev pub new_row : Row
  new_row = record {
    entity_id = k;
    lock_id = lock_id;
    lock_name = some name;
    source = source;
    deadline = now.wall + duration;
    created_at = now.wall;
  }

  abbrev pub new_task : Task
  new_task = record {
    id = m.next_task;
    lock_name = name;
    deadline = now.wall + duration;
    monotonic_deadline = some (now.monotonic + duration);
    done = false;
  }

  abbrev pub new_intent : RelockIntent
  new_intent = record {
    entity_id = k;
    deadline = now.wall + duration;
    previous_row = get_pending_relock k m.rows;
    task = new_task;
  }

  abbrev pub after : Manager
  after = (schedule k duration lock_id name source now m).1

  module _ (healthy : m.faults ≡ []) (serving : m.shutting_down ≡ false) where
    pub schedule-ok : (schedule k duration lock_id name source now m).0 ≡ ok new_intent
    unfolding schedule
    schedule-ok = ground arith

    pub after-rows : after.rows ≡ add_pending_relock new_row m.rows
    unfolding schedule
    after-rows = ground arith

    pub after-rest :
        (after.faults ≡ [])
        × (after.shutting_down ≡ false)
        × (get k after.tasks ≡ some new_task)
        × (after.next_task ≡ m.next_task + 1)
    unfolding schedule
    after-rest = ground (arith, eq_refl k)

    module _ (keys : HasKeys m.rows) where
      undo-schedule :
          (previous : Option Row)
          → get_pending_relock k m.rows ≡ previous
          → undone k (now.wall + duration) previous (add_pending_relock new_row m.rows) ≡ m.rows
      undo-schedule none h = remove_at-add new_row m.rows h
      undo-schedule (some p) h = add-add p new_row m.rows h

      pub restore-after :
          let (done, m') = restore_after_failed_unlock new_intent after in
          (done ≡ ok true) × (m'.rows ≡ m.rows) × (timer k m' ≡ due k m)
      restore-after =
          let facts = after-rest in
          let current : get_pending_relock k after.rows ≡ some new_row =
            ground (arith, after-rows, get-add k new_row m.rows, eq_refl k) in
          let keys' : HasKeys after.rows = rw (after-rows) (add-HasKeys new_row m.rows keys) in
          let r =
            restore_owned k (now.wall + duration) (get_pending_relock k m.rows) new_task after
              new_row facts.0 facts.1 keys' facts.2 current refl in
          (r.0, r.1 ∙ rw (after-rows) (undo-schedule _ refl), r.2)

-- Rolling back an intent just after `schedule` returned it, on a healthy database, restores the
-- durable table exactly, and leaves a timer at the predecessor's deadline if there was one and none
-- otherwise.
pub restore-schedule :
    (k : String) (duration : ℕ) (lock_id : Option ℕ) (name source : String) (now : Clock)
    (m : Manager) (intent : RelockIntent)
    → m.faults ≡ []
    → m.shutting_down ≡ false
    → HasKeys m.rows
    → (schedule k duration lock_id name source now m).0 ≡ ok intent
    → let (done, m') =
        restore_after_failed_unlock intent (schedule k duration lock_id name source now m).1 in
      (done ≡ ok true) × (m'.rows ≡ m.rows) × (timer k m' ≡ due k m)
restore-schedule k duration lock_id name source now m intent healthy serving keys h =
    let same : intent ≡ new_intent k duration lock_id name source now m =
      cc (schedule-ok k duration lock_id name source now m healthy serving) in
    rw same (restore-after k duration lock_id name source now m healthy serving keys)
