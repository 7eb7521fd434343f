-- ===== src/Relock/Interleaving.antt =====
-- All that can happen to a manager: the methods in any order, each timer and each recovery with
-- anything that happens while it waits.
use hassio_access_control.Prelude.{ℕ, String, ◌≡◌, Bool, List, Option, arith}
use hassio_access_control.Relock.Rows.{Row, Table}
use hassio_access_control.Relock.Rows.Lookup.{get-entity_id}
use hassio_access_control.Relock.Manager.{Clock, Manager, ok, start}
use hassio_access_control.Relock.Timers.{
  RelockIntent, schedule, restore_after_failed_unlock, retain_after_uncertain_unlock,
  extend_after_success, cancel, pause, resume, shutdown,
}
use hassio_access_control.Relock.Fire.{Attempt, wait_and_lock}
use hassio_access_control.Relock.Recover.{Weather, rehydrate, sweep_overdue}
use hassio_access_control.Relock.Invariant.{
  IsValid, IsIntent, cancel-IsValid, schedule-IsValid, pause-IsValid, resume-IsValid,
  shutdown-IsValid,
}
use hassio_access_control.Relock.Invariant.Rollback.{
  restore-IsValid, retain-IsValid, extend-IsValid,
}
use hassio_access_control.Relock.Invariant.Recovery.{wait_and_lock-IsValid, recovery-IsValid}

mutual
  pub data Reach : Manager → Manager → Type 0 where
    here : {m : Manager} → Reach m m
    next : {m m' m'' : Manager} → Reach m m' → Step m' m'' → Reach m m''

  -- whatever `other` does to a manager is reached from it
  pub data Step : Manager → Manager → Type 0 where
    scheduled :
        {m : Manager} (k : String) (duration : ℕ) (lock_id : Option ℕ) (name source : String)
        (now : Clock)
        → Step m (schedule k duration lock_id name source now m).1
    restored :
        {m : Manager} (intent : RelockIntent)
        → IsIntent intent
        → Step m (restore_after_failed_unlock intent m).1
    retained :
        {m : Manager} (intent : RelockIntent)
        → IsIntent intent
        → Step m (retain_after_uncertain_unlock intent m).1
    extended :
        {m : Manager} (intent : RelockIntent) (duration : ℕ) (now : Clock)
        → Step m (extend_after_success intent duration now m).1
    cancelled : {m : Manager} (k : String) → Step m (cancel k m).1
    paused : {m : Manager} (k : String) → Step m (pause k m).1
    resumed : {m : Manager} (row : Option Row) → Step m (resume row m).1
    closed : {m : Manager} → Step m (shutdown m).1
    fired :
        {m : Manager} (k : String) (d owner : ℕ) (attempts : ℕ → Attempt) (has_client : Bool)
        (now : Clock)
        → ((i : ℕ) (m' : Manager) → Reach m' ((attempts i).meanwhile m'))
        → Step m (wait_and_lock k d owner attempts has_client now m).1
    rehydrated :
        {m : Manager} (weather : Row → Weather)
        → ((row : Row) (m' : Manager) → Reach m' ((weather row).before m'))
        → ((row : Row) (i : ℕ) (m' : Manager) → Reach m' (((weather row).attempts i).meanwhile m'))
        → Step m (rehydrate weather m).1
    swept :
        {m : Manager} (weather : Row → Weather)
        → ((row : Row) (m' : Manager) → Reach m' ((weather row).before m'))
        → ((row : Row) (i : ℕ) (m' : Manager) → Reach m' (((weather row).attempts i).meanwhile m'))
        → Step m (sweep_overdue weather m).1

mutual
  Reach-IsValid : {m m' : Manager} → Reach m m' → IsValid m → IsValid m'
  Reach-IsValid here v = v
  Reach-IsValid (next r s) v = Step-IsValid s (Reach-IsValid r v)

  Step-IsValid : {m m' : Manager} → Step m m' → IsValid m → IsValid m'
  Step-IsValid (scheduled {m = m} k duration lock_id name source now) v =
      schedule-IsValid m v k duration lock_id name source now
  Step-IsValid (restored {m = m} intent wf) v = restore-IsValid m v intent wf
  Step-IsValid (retained {m = m} intent wf) v = retain-IsValid m v intent wf
  Step-IsValid (extended {m = m} intent duration now) v = extend-IsValid m v intent duration now
  Step-IsValid (cancelled {m = m} k) v = cancel-IsValid m v k
  Step-IsValid (paused {m = m} k) v = pause-IsValid m v k
  Step-IsValid (resumed {m = m} row) v = resume-IsValid m v row
  Step-IsValid (closed {m = m}) v = shutdown-IsValid m v
  Step-IsValid (fired {m = m} k d owner attempts has_client now others) v =
      (wait_and_lock-IsValid k d owner attempts has_client now
          (λ i m' v'. Reach-IsValid (others i m') v')).at
        m v
  Step-IsValid (rehydrated {m = m} weather before others) v =
      (recovery-IsValid weather (λ row. record {
        before = λ m' v'. Reach-IsValid (before row m') v';
        meanwhile = λ i m' v'. Reach-IsValid (others row i m') v';
      })).0.at
        m v
  Step-IsValid (swept {m = m} weather before others) v =
      (recovery-IsValid weather (λ row. record {
        before = λ m' v'. Reach-IsValid (before row m') v';
        meanwhile = λ i m' v'. Reach-IsValid (others row i m') v';
      })).1.at
        m v

-- a start, with the calls of the database that will fail, in their order
abbrev pub begun : Table → List Bool → Manager
begun rows faults = record (start rows) { faults = faults }

-- An intent that `schedule` returns remembers a row of its own entity, or none.
pub schedule-IsIntent :
    (k : String) (duration : ℕ) (lock_id : Option ℕ) (name source : String) (now : Clock)
    (m : Manager) (intent : RelockIntent)
    → (schedule k duration lock_id name source now m).0 ≡ ok intent
    → IsIntent intent
unfolding schedule
schedule-IsIntent k duration lock_id name source now m intent h p hp =
    ground (arith, get-entity_id k m.rows p)
