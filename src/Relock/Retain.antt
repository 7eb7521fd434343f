-- ===== src/Relock/Retain.antt =====
-- Ambiguous unlocks, superseded intents, pauses and the sleep of a timer.
use hassio_access_control.Prelude.{
  ℕ, ◌+◌, ◌≤◌, ◌<◌, min, String, ◌≡◌, ◌≢◌, refl, Bool, true, false, Option, none, some, [], arith,
  leb, eq_refl, Bool-cases, inl, inr,
}
use hassio_access_control.Prelude.Map.{get, get-erase}
use hassio_access_control.Relock.Rows.{Row, get_pending_relock, HasKeys}
use hassio_access_control.Relock.Rows.Lookup.{get-add, get-entity_id, add-HasKeys}
use hassio_access_control.Relock.Manager.{Clock, Task, Manager, Result, ok}
use hassio_access_control.Relock.Timers.{
  RelockIntent, schedule, restore_after_failed_unlock, retain_after_uncertain_unlock,
  extend_after_success, pause, resume,
}
use hassio_access_control.Relock.Fire.{sleep_time}
use hassio_access_control.Relock.Undo.{
  timer, due, SameTimers, new_row, new_task, new_intent, after, schedule-ok, after-rows, after-rest,
  restore_owned,
}

-- the earlier of a new deadline and that of a predecessor
abbrev pub earliest : Option Row → ℕ → ℕ
earliest none x = x
earliest (some p) x = min p.deadline x

retain_owned :
    (k : String) (x : ℕ) (previous : Option Row) (task : Task) (m : Manager) (r : Row)
    → m.faults ≡ []
    → m.shutting_down ≡ false
    → HasKeys m.rows
    → get k m.tasks ≡ some task
    → task.deadline ≡ x
    → get_pending_relock k m.rows ≡ some r
    → r.deadline ≡ x
    → ((p : Row) → previous ≡ some p → p.entity_id ≡ k)
    → let (done, m') =
        retain_after_uncertain_unlock
          (record { entity_id = k; deadline = x; previous_row = previous; task = task })
          m in
      (done ≡ ok true)
      × (due k m' ≡ some (earliest previous x))
      × (timer k m' ≡ some (earliest previous x))
unfolding retain_after_uncertain_unlock
retain_owned k x none task m r hf hs keys ht hd hr hx wf = ground arith
retain_owned k x (some p) task m r hf hs keys ht hd hr hx wf =
    elim (Bool-cases (leb p.deadline x)) [
      | inl early ↦
          let o = restore_owned k x (some p) task m r hf hs keys ht hr hx in
          rw early (ground (arith, o, wf p refl, get-add k p m.rows, eq_refl k))
      | inr late ↦ rw late (ground arith)
    ]

-- While no call of the database fails, before a shutdown and on a keyed table: when an intent that
-- `schedule` has just returned is retained, after an unlock whose outcome is unknown, both the
-- durable row and the live timer are left at the earlier of its own deadline and its predecessor's.
pub retain-schedule :
    (k : String) (duration : ℕ) (lock_id : Option ℕ) (name source : String) (now : Clock)
    (m : Manager) (intent : RelockIntent)
    → m.faults ≡ []
    → m.shutting_down ≡ false
    → HasKeys m.rows
    → (schedule k duration lock_id name source now m).0 ≡ ok intent
    → let (done, m') =
        retain_after_uncertain_unlock intent (schedule k duration lock_id name source now m).1 in
      let x = earliest (get_pending_relock k m.rows) (now.wall + duration) in
      (done ≡ ok true) × (due k m' ≡ some x) × (timer k m' ≡ some x)
retain-schedule k duration lock_id name source now m intent healthy serving keys h =
    let same : intent ≡ new_intent k duration lock_id name source now m =
      cc (schedule-ok k duration lock_id name source now m healthy serving) in
    let m1 = after k duration lock_id name source now m in
    let new = new_row k duration lock_id name source now m in
    let rows = after-rows k duration lock_id name source now m healthy serving in
    let facts = after-rest k duration lock_id name source now m healthy serving in
    let current : get_pending_relock k m1.rows ≡ some new =
      ground (arith, rows, get-add k new m.rows, eq_refl k) in
    let keys' : HasKeys m1.rows = rw rows (add-HasKeys new m.rows keys) in
    rw same (
      retain_owned k (now.wall + duration) (get_pending_relock k m.rows)
        (new_task k duration lock_id name source now m) m1 new facts.0 facts.1 keys' facts.2 refl
        current refl (λ p hp. get-entity_id k m.rows p hp))

-- the timer that `schedule` arms, when it returns
armed :
    (k : String) (duration : ℕ) (lock_id : Option ℕ) (name source : String) (now : Clock)
    (m : Manager) (intent : RelockIntent)
    → (schedule k duration lock_id name source now m).0 ≡ ok intent
    → get k (schedule k duration lock_id name source now m).1.tasks
      ≡ some (new_task k duration lock_id name source now m)
unfolding schedule
armed k duration lock_id name source now m intent h = ground (arith, eq_refl k)

-- a method that did not succeed, and its state
abbrev pub HasNoEffect : Manager → Result Bool × Manager → Type 0
HasNoEffect m x = (x.0 ≢ ok true) × SameTimers m x.1

module _ (m : Manager) (old : RelockIntent) (live : Task)
    (owner : get old.entity_id m.tasks ≡ some live) (newer : old.task.id < live.id) where
  restore_not_owned : HasNoEffect m (restore_after_failed_unlock old m)
  unfolding restore_after_failed_unlock
  restore_not_owned = (λ e. ground (arith, e), ground arith)

  extend_not_owned :
      (longer : ℕ) (later : Clock) → HasNoEffect m (extend_after_success old longer later m)
  unfolding extend_after_success
  extend_not_owned longer later = (λ e. ground (arith, e), ground arith)

returned_task :
    (k : String) (duration : ℕ) (lock_id : Option ℕ) (name source : String) (now : Clock)
    (m : Manager) (intent : RelockIntent)
    → (schedule k duration lock_id name source now m).0 ≡ ok intent
    → intent.task ≡ new_task k duration lock_id name source now m
unfolding schedule
returned_task k duration lock_id name source now m intent h = ground (arith, h)

-- An intent that is older than a `schedule` of the same entity which has returned: the timer of the
-- new intent is live then, and as long as it is, in whatever state and whichever calls of the
-- database fail, the older intent neither rolls back nor extends. Both methods answer false or
-- raise, and leave every durable row and live timer as it is.
pub superseded_intent :
    (k : String) (duration : ℕ) (lock_id : Option ℕ) (name source : String) (now : Clock)
    (m : Manager) (old new : RelockIntent) (longer : ℕ) (later : Clock) (m' : Manager)
    → old.entity_id ≡ k
    → old.task.id < m.next_task
    → (schedule k duration lock_id name source now m).0 ≡ ok new
    → get k m'.tasks ≡ some new.task
    → (get k (schedule k duration lock_id name source now m).1.tasks ≡ some new.task)
      × HasNoEffect m' (restore_after_failed_unlock old m')
      × HasNoEffect m' (extend_after_success old longer later m')
superseded_intent k duration lock_id name source now m old new longer later m' hk hid h live =
    let same = returned_task k duration lock_id name source now m new h in
    let owner : get old.entity_id m'.tasks ≡ some new.task = rw hk live in
    let newer : old.task.id < new.task.id = rw same hid in
    (
      rw same (armed k duration lock_id name source now m new h),
      restore_not_owned m' old new.task owner newer,
      extend_not_owned m' old new.task owner newer longer later,
    )

-- While no call of the database fails and before a shutdown, for an entity that has a row: `pause`
-- and then `resume` of the row that it returned leave the durable rows as they were, the
-- entity unpaused, and a live timer at the row's deadline.
pub resume-pause :
    (k : String) (m : Manager) (row : Row)
    → m.faults ≡ []
    → m.shutting_down ≡ false
    → get_pending_relock k m.rows ≡ some row
    → let m1 = (pause k m).1 in
      let (done, m') = resume (some row) m1 in
      ((pause k m).0 ≡ ok (some row))
      × (timer k m1 ≡ none)
      × (m1.paused k ≡ true)
      × (done ≡ ok true)
      × (m'.rows ≡ m.rows)
      × (m'.paused k ≡ false)
      × (timer k m' ≡ some row.deadline)
unfolding pause resume
resume-pause k m row healthy serving h =
    ground (arith, get-entity_id k m.rows row h, get-erase k k m.tasks, eq_refl k)

sleep_time-le :
    (armed_at woken : Clock) (duration : ℕ)
    → woken.monotonic ≤ armed_at.monotonic + duration
    → woken.monotonic
        + sleep_time (armed_at.wall + duration) (some (armed_at.monotonic + duration)) woken
      ≤ armed_at.monotonic + duration
unfolding sleep_time
sleep_time-le armed_at woken duration h = omega arith

-- the timer's sleep, begun at `woken`, ends no later than `bound` on the monotonic clock
abbrev pub EndsBy : ℕ → Clock → Task → Type 0
EndsBy bound woken t = woken.monotonic + sleep_time t.deadline t.monotonic_deadline woken ≤ bound

extended :
    (intent : RelockIntent) (duration : ℕ) (now : Clock) (m : Manager) (t : Task)
    → (extend_after_success intent duration now m).0 ≡ ok true
    → get intent.entity_id (extend_after_success intent duration now m).1.tasks ≡ some t
    → (t.deadline ≡ now.wall + duration) × (t.monotonic_deadline ≡ some (now.monotonic + duration))
unfolding extend_after_success
extended intent duration now m t h e =
    (ground (arith, eq_refl intent.entity_id), ground (arith, eq_refl intent.entity_id))

-- The timer that a `schedule` arms when it returns, and the one that an `extend_after_success` arms
-- when it succeeds: its sleep, begun within `duration` of the arming, ends within `duration` of the
-- arming on the monotonic clock, however the wall clock is set in between.
pub armed-EndsBy :
    (k : String) (duration : ℕ) (lock_id : Option ℕ) (name source : String) (now woken : Clock)
    (m : Manager) (intent : RelockIntent) (t : Task)
    → woken.monotonic ≤ now.monotonic + duration
    → ((schedule k duration lock_id name source now m).0 ≡ ok intent
        → get k (schedule k duration lock_id name source now m).1.tasks ≡ some t
        → EndsBy (now.monotonic + duration) woken t)
      × ((extend_after_success intent duration now m).0 ≡ ok true
          → get intent.entity_id (extend_after_success intent duration now m).1.tasks ≡ some t
          → EndsBy (now.monotonic + duration) woken t)
armed-EndsBy k duration lock_id name source now woken m intent t le = (
  λ h e.
      let same : t ≡ new_task k duration lock_id name source now m =
        cc (armed k duration lock_id name source now m intent h) in
      rw same (sleep_time-le now woken duration le),
  λ h e.
      let x = extended intent duration now m t h e in
      rw (x.0, x.1) (sleep_time-le now woken duration le),
)
