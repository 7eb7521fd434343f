-- ===== src/Relock/Invariant.antt =====
-- The invariant of the manager: the rows are keyed, a live timer agrees with the durable deadline,
-- and no identity of a task is used twice. Every method keeps it, whatever the database does.
pub mod Rollback
pub mod Recovery
use hassio_access_control.Prelude.{
  ℕ, ◌+◌, ◌≤◌, ◌<◌, String, ◌≡◌, refl, Bool, true, false, Option, none, some, List, [], ◌∷◌, arith,
  leb, ◌==◌, if◌then◌else◌, str_eq, eq_iff, eq_refl,
}
use hassio_access_control.Prelude.Map.{Map, get, erase, get-erase}
use hassio_access_control.Relock.Rows.{
  Row, Table, get_pending_relock, add_pending_relock, remove_pending_relock,
  remove_pending_relock_at_deadline, rows_at_deadline, replace_pending_relock_deadline, HasKeys,
}
use hassio_access_control.Relock.Rows.Lookup.{
  get-add, get-remove, get-remove_at, get-replace, add-HasKeys, remove-HasKeys, remove_at-HasKeys,
  replace-HasKeys, unless_at, moved, get-entity_id, rows_at_deadline-get, matching,
}
use hassio_access_control.Relock.Manager.{Clock, Task, Manager, ok, raise, rest}
use hassio_access_control.Relock.Timers.{
  RelockIntent, schedule, restore_after_failed_unlock, retain_after_uncertain_unlock,
  extend_after_success, cancel, pause, resume, shutdown,
}

pub record IsValid (m : Manager) : Type 0 where
  pub keys : HasKeys m.rows
  pub agrees :
      (e : String) (t : Task) (r : Row)
      → get e m.tasks ≡ some t
      → get_pending_relock e m.rows ≡ some r
      → r.deadline ≡ t.deadline
  pub fresh : (e : String) (t : Task) → get e m.tasks ≡ some t → t.id < m.next_task

-- the predecessor that an intent remembers is a row of its own entity
abbrev pub IsIntent : RelockIntent → Type 0
IsIntent intent = (p : Row) → intent.previous_row ≡ some p → p.entity_id ≡ intent.entity_id

module _ (m : Manager) (v : IsValid m) where
  pub cancel-IsValid : (k : String) → IsValid (cancel k m).1
  unfolding cancel
  cancel-IsValid k = record {
    keys = ground (arith, v.keys, remove-HasKeys k m.rows v.keys);
    agrees = λ e t r ht hr.
        ground (arith, v.agrees e t r, get-erase e k m.tasks, get-remove e k m.rows, eq_iff k e);
    fresh = λ e t ht. ground (arith, v.fresh e t, get-erase e k m.tasks, eq_iff k e);
  }

  pub schedule-IsValid :
      (k : String) (duration : ℕ) (lock_id : Option ℕ) (name source : String) (now : Clock)
      → IsValid (schedule k duration lock_id name source now m).1
  unfolding schedule
  schedule-IsValid k duration lock_id name source now =
      let new : Row = record {
        entity_id = k;
        lock_id = lock_id;
        lock_name = some name;
        source = source;
        deadline = now.wall + duration;
        created_at = now.wall;
      } in
      record {
        keys = ground (arith, v.keys, add-HasKeys new m.rows v.keys);
        agrees = λ e t r ht hr. ground (
          arith,
          v.agrees e t r,
          get-erase e k m.tasks,
          get-erase e k (erase k m.tasks),
          get-add e new m.rows,
          eq_iff k e,
        );
        fresh = λ e t ht. ground (
          arith,
          v.fresh e t,
          get-erase e k m.tasks,
          get-erase e k (erase k m.tasks),
          eq_iff k e,
        );
      }

  pub pause-IsValid : (k : String) → IsValid (pause k m).1
  unfolding pause
  pause-IsValid k = record {
    keys = ground (arith, v.keys);
    agrees = λ e t r ht hr. ground (arith, v.agrees e t r, get-erase e k m.tasks, eq_iff k e);
    fresh = λ e t ht. ground (arith, v.fresh e t, get-erase e k m.tasks, eq_iff k e);
  }

  pub resume-IsValid : (row : Option Row) → IsValid (resume row m).1
  unfolding resume
  resume-IsValid none = v
  resume-IsValid (some row) =
      let k = row.entity_id in
      record {
        keys = ground (arith, v.keys);
        agrees = λ e t r ht hr. ground (arith, v.agrees e t r, get-erase e k m.tasks, eq_iff k e);
        fresh = λ e t ht. ground (arith, v.fresh e t, get-erase e k m.tasks, eq_iff k e);
      }

  pub shutdown-IsValid : IsValid (shutdown m).1
  unfolding shutdown
  shutdown-IsValid = record {
    keys = ground (arith, v.keys);
    agrees = λ e t r ht hr. ground (arith, v.agrees e t r);
    fresh = λ e t ht. ground (arith, v.fresh e t);
  }
