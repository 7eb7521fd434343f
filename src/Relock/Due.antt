-- ===== src/Relock/Due.antt =====
-- An entity that has a durable row due in time, and what keeps it so: the calls that an unlock
-- makes of the relock manager (relock_manager.py) after it has written its intent.
use hassio_access_control.Prelude.{
  ℕ, ◌+◌, ◌≤◌, String, ◌≡◌, refl, ◌⊎◌, inl, inr, Option, some, [], ◌∷◌, ◌++◌, arith, leb, eq_refl,
  Bool-cases, Option-cases, ◌==◌, if◌then◌else◌,
}
use hassio_access_control.Relock.Rows.{
  Row, Table, add_pending_relock, replace_pending_relock_deadline,
}
use hassio_access_control.Relock.Rows.Lookup.{get-add, get-replace}
use hassio_access_control.Relock.Manager.{Clock, Manager, ok, Effect, modify, select, emit}
use hassio_access_control.Relock.Timers.{
  RelockIntent, schedule, restore_after_failed_unlock, retain_after_uncertain_unlock,
  extend_after_success,
}
use hassio_access_control.Relock.Keeps.{Keeps}
use hassio_access_control.Relock.Invariant.{IsIntent}
use hassio_access_control.Relock.Undo.{due}

-- the entity has a durable row whose deadline is at most `x`
pub record IsDueBy (k : String) (x : ℕ) (m : Manager) : Type 0 where
  pub deadline : ℕ
  pub durable : due k m ≡ some deadline
  pub in_time : deadline ≤ x

restore-rows :
    (i : RelockIntent) (p : Row) (m : Manager)
    → i.previous_row ≡ some p
    → let m' = (restore_after_failed_unlock i m).1 in
      (m'.rows ≡ m.rows) ⊎ (m'.rows ≡ add_pending_relock p m.rows)
unfolding restore_after_failed_unlock
restore-rows i p m hp = ground arith

-- the predecessor is put back only if it is due before the intent
retain-rows :
    (i : RelockIntent) (m : Manager)
    → let m' = (retain_after_uncertain_unlock i m).1 in
      (m'.rows ≡ m.rows)
      ⊎ ((p : Row) × (i.previous_row ≡ some p)
          × (p.deadline ≤ i.deadline)
          × (m'.rows ≡ add_pending_relock p m.rows))
unfolding retain_after_uncertain_unlock
retain-rows i m = elim (Option-cases i.previous_row) [
  | inl e ↦ inl (ground (arith, e))
  | inr e ↦ elim (Bool-cases (leb (e.0).deadline i.deadline)) [
    | inl early ↦ elim (restore-rows i e.0 m e.1) [
      | inl same ↦ inl (ground (arith, e.1, early, same))
      | inr added ↦ inr (e.0, e.1, ground (arith, early), ground (arith, e.1, early, added))
    ]
    | inr late ↦ inl (ground (arith, e.1, late))
  ]
]

extend-rows :
    (i : RelockIntent) (duration : ℕ) (now : Clock) (m : Manager)
    → let m' = (extend_after_success i duration now m).1 in
      (m'.rows ≡ m.rows)
      ⊎ (m'.rows
          ≡ replace_pending_relock_deadline i.entity_id i.deadline (now.wall + duration) m.rows)
unfolding extend_after_success
extend-rows i duration now m = ground arith

module _ (k : String) (x : ℕ) where
  pub same-IsDueBy : (m m' : Manager) → m'.rows ≡ m.rows → IsDueBy k x m → IsDueBy k x m'
  same-IsDueBy m m' e b = record {
    deadline = b.deadline;
    durable = rw e b.durable;
    in_time = b.in_time;
  }

  pub emit-IsDueBy : (e : Effect) → Keeps (IsDueBy k x) (emit e)
  emit-IsDueBy e = record {
    at = λ m b. same-IsDueBy m (record m { effects = m.effects ++ e ∷ [] }) refl b;
  }

  pub select-IsDueBy : {A : Type 0} (query : Table → A) → Keeps (IsDueBy k x) (select query)
  select-IsDueBy query = record { at = λ m b. same-IsDueBy m (select query m).1 (ground arith) b }

  pub modify-IsDueBy :
      (f : Manager → Manager)
      → ((m : Manager) → due k (f m) ≡ due k m)
      → Keeps (IsDueBy k x) (modify f)
  modify-IsDueBy f apart = record {
    at = λ m b. record {
      deadline = b.deadline;
      durable = rw (apart m) b.durable;
      in_time = b.in_time;
    };
  }

  module _ (i : RelockIntent) (hi : i.entity_id ≡ k) (wf : IsIntent i) (hx : i.deadline ≤ x) where
    pub retain-IsDueBy : Keeps (IsDueBy k x) (retain_after_uncertain_unlock i)
    retain-IsDueBy = record {
      at = λ m b. elim (retain-rows i m) [
        | inl same ↦ same-IsDueBy m (retain_after_uncertain_unlock i m).1 same b
        | inr p ↦ record {
          deadline = (p.0).deadline;
          durable = rw (p.3) (ground (arith, wf p.0 p.1, hi, get-add k p.0 m.rows, eq_refl k));
          in_time = omega (arith, p.2, hx);
        }
      ];
    }

    pub extend-IsDueBy :
        (duration : ℕ) (now : Clock)
        → now.wall + duration ≤ x
        → Keeps (IsDueBy k x) (extend_after_success i duration now)
    extend-IsDueBy duration now hn = record {
      at = λ m b. elim (extend-rows i duration now m) [
        | inl same ↦ same-IsDueBy m (extend_after_success i duration now m).1 same b
        | inr moved ↦ record {
          deadline = if b.deadline == i.deadline then now.wall + duration else b.deadline;
          durable = rw moved (
              ground (
                arith,
                b.durable,
                hi,
                eq_refl k,
                get-replace k i.entity_id i.deadline (now.wall + duration) m.rows,
              ));
          in_time = ground (arith, b.in_time, hn);
        }
      ];
    }

pub schedule-due :
    (k : String) (duration : ℕ) (lock_id : Option ℕ) (name source : String) (now : Clock)
    (m : Manager) (i : RelockIntent)
    → (schedule k duration lock_id name source now m).0 ≡ ok i
    → (i.entity_id ≡ k)
      × (i.deadline ≡ now.wall + duration)
      × (due k (schedule k duration lock_id name source now m).1 ≡ some i.deadline)
unfolding schedule
schedule-due k duration lock_id name source now m i h =
    let row : Row = record {
      entity_id = k;
      lock_id = lock_id;
      lock_name = some name;
      source = source;
      deadline = now.wall + duration;
      created_at = now.wall;
    } in
    (ground arith, ground arith, ground (arith, get-add k row m.rows, eq_refl k))

pub schedule-effects :
    (k : String) (duration : ℕ) (lock_id : Option ℕ) (name source : String) (now : Clock)
    (m : Manager)
    → (schedule k duration lock_id name source now m).1.effects ≡ m.effects
unfolding schedule
schedule-effects k duration lock_id name source now m = ground arith
