-- ===== src/Relock/Invariant/Rollback.antt =====
-- An intent's rollback, its retention and its extension keep the invariant of the manager.
use hassio_access_control.Prelude.{
  ℕ, ◌+◌, String, ◌≡◌, refl, Bool, Option, none, some, List, arith, inl, inr, Bool-cases, leb,
  eq_iff,
}
use hassio_access_control.Prelude.Map.{erase, get-erase}
use hassio_access_control.Relock.Rows.{Row}
use hassio_access_control.Relock.Rows.Lookup.{
  get-add, get-remove_at, get-replace, add-HasKeys, remove_at-HasKeys, replace-HasKeys,
  rows_at_deadline-get,
}
use hassio_access_control.Relock.Manager.{Clock, Task, Manager, rest}
use hassio_access_control.Relock.Timers.{
  RelockIntent, restore_after_failed_unlock, retain_after_uncertain_unlock, extend_after_success,
}
use hassio_access_control.Relock.Invariant.{IsValid, IsIntent}

module _ (m : Manager) (v : IsValid m) where
  pub extend-IsValid :
      (intent : RelockIntent) (duration : ℕ) (now : Clock)
      → IsValid (extend_after_success intent duration now m).1
  unfolding extend_after_success
  extend-IsValid intent duration now =
      let k = intent.entity_id in
      let x = intent.deadline in
      let d = now.wall + duration in
      record {
        keys = ground (arith, v.keys, replace-HasKeys k x d m.rows v.keys);
        agrees = λ e t r ht hr. ground (
          arith,
          v.agrees e t r,
          get-erase e k m.tasks,
          get-erase e k (erase k m.tasks),
          get-replace e k x d m.rows,
          rows_at_deadline-get k x m.rows v.keys,
          eq_iff k e,
        );
        fresh = λ e t ht. ground (
          arith,
          v.fresh e t,
          get-erase e k m.tasks,
          get-erase e k (erase k m.tasks),
          eq_iff k e,
        );
      }

  restore_at :
      (k : String) (x : ℕ) (previous : Option Row) (task : Task)
      → ((p : Row) → previous ≡ some p → p.entity_id ≡ k)
      → IsValid
          (restore_after_failed_unlock
            (record { entity_id = k; deadline = x; previous_row = previous; task = task })
            m).1
  unfolding restore_after_failed_unlock
  restore_at k x none task wf = record {
    keys = ground (arith, v.keys, remove_at-HasKeys k x m.rows v.keys);
    agrees = λ e t r ht hr. ground (
      arith,
      v.agrees e t r,
      get-erase e k m.tasks,
      get-remove_at e k x m.rows v.keys,
      eq_iff k e,
    );
    fresh = λ e t ht. ground (arith, v.fresh e t, get-erase e k m.tasks, eq_iff k e);
  }
  restore_at k x (some p) task wf = record {
    keys = ground (arith, v.keys, add-HasKeys p m.rows v.keys);
    agrees = λ e t r ht hr. ground (
      arith,
      wf p refl,
      v.agrees e t r,
      get-erase e k m.tasks,
      get-erase e k (erase k m.tasks),
      get-add e p m.rows,
      eq_iff k e,
      eq_iff p.entity_id e,
    );
    fresh = λ e t ht.
        ground
          (arith, v.fresh e t, get-erase e k m.tasks, get-erase e k (erase k m.tasks), eq_iff k e);
  }

  pub restore-IsValid :
      (intent : RelockIntent) → IsIntent intent → IsValid (restore_after_failed_unlock intent m).1
  restore-IsValid intent wf =
      restore_at intent.entity_id intent.deadline intent.previous_row intent.task wf

  unread-IsValid : (faults : List Bool) → IsValid (record m { faults = faults })
  unread-IsValid faults = record { keys = v.keys; agrees = v.agrees; fresh = v.fresh }

  retain_at :
      (k : String) (x : ℕ) (previous : Option Row) (task : Task)
      → ((p : Row) → previous ≡ some p → p.entity_id ≡ k)
      → IsValid
          (retain_after_uncertain_unlock
            (record { entity_id = k; deadline = x; previous_row = previous; task = task })
            m).1
  unfolding retain_after_uncertain_unlock
  retain_at k x none task wf = ground (arith, unread-IsValid (rest m.faults))
  retain_at k x (some p) task wf = elim (Bool-cases (leb p.deadline x)) [
    | inl early ↦ rw early (restore_at k x (some p) task wf)
    | inr late ↦ rw late (ground (arith, unread-IsValid (rest m.faults)))
  ]

  pub retain-IsValid :
      (intent : RelockIntent) → IsIntent intent → IsValid (retain_after_uncertain_unlock intent m).1
  retain-IsValid intent wf =
      retain_at intent.entity_id intent.deadline intent.previous_row intent.task wf
