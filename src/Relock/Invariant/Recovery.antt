-- ===== src/Relock/Invariant/Recovery.antt =====
-- A timer that fires and a recovery keep the invariant of the manager, if what runs meanwhile does.
use hassio_access_control.Prelude.{
  ℕ, zero, suc, ◌+◌, String, ◌≡◌, Bool, true, false, Option, none, some, List, [], ◌∷◌, arith,
  if◌then◌else◌, eq_iff,
}
use hassio_access_control.Prelude.Map.{erase, get-erase}
use hassio_access_control.Relock.Rows.{Row, Table, get_pending_relocks}
use hassio_access_control.Relock.Rows.Lookup.{get-remove_at, remove_at-HasKeys}
use hassio_access_control.Relock.Manager.{
  Clock, Manager, Effect, Method, select, modify, emit, cancel_locked, clear_overdue_notified,
}
use hassio_access_control.Relock.Fire.{
  finish, crashed, Attempt, Answer, Outcome, stopped, confirmed_locked, failed, after_attempt,
  attempt_lock, attempt_loop, call_ha_lock, notify_relock_failed, clear_row, wait_and_lock,
}
use hassio_access_control.Relock.Recover.{
  Weather, recover_check, recover_done, recover_or_schedule, fire_overdue, not_locked,
  recover_failed, rehydrate_rows, sweep_rows, rehydrate, sweep_overdue,
}
use hassio_access_control.Relock.Invariant.{IsValid}
use hassio_access_control.Relock.Keeps.{
  Keeps, keeps_rules, Keeps-bind, Keeps-if, Keeps-return, Keeps-except,
}

-- what the invariant reads
record SameTimers (m m' : Manager) : Type 0 where
  rows : m'.rows ≡ m.rows
  tasks : m'.tasks ≡ m.tasks
  next_task : m'.next_task ≡ m.next_task

SameTimers-IsValid : {m m' : Manager} → SameTimers m m' → IsValid m → IsValid m'
SameTimers-IsValid s v = record {
  keys = rw s.rows v.keys;
  agrees = λ e t r ht hr. v.agrees e t r (rw s.tasks at ht) (rw s.rows at hr);
  fresh = λ e t ht. rw s.next_task (v.fresh e t (rw s.tasks at ht));
}

attempt_lock-SameTimers :
    (k : String) (d : ℕ) (owner : Option ℕ) (a : Answer) (m : Manager)
    → SameTimers m (attempt_lock k d owner a m).1
unfolding attempt_lock
attempt_lock-SameTimers k d owner a m = ground arith

attempt_lock-IsValid :
    (k : String) (d : ℕ) (owner : Option ℕ) (a : Answer) → Keeps IsValid (attempt_lock k d owner a)
attempt_lock-IsValid k d owner a = record {
  at = λ m v. SameTimers-IsValid (attempt_lock-SameTimers k d owner a m) v;
}

notify-IsValid :
    (k : String) (force has_client : Bool) (now : Clock)
    → Keeps IsValid (notify_relock_failed k force has_client now)
notify-IsValid k force has_client now = record { at = λ m v. SameTimers-IsValid (same m) v }
  where
    same : (m : Manager) → SameTimers m (notify_relock_failed k force has_client now m).1
    same m = unfold notify_relock_failed in ground arith

clear_row-IsValid : (k : String) (d : ℕ) → Keeps IsValid (clear_row k d)
unfolding clear_row
clear_row-IsValid k d = record {
  at = λ m v. record {
    keys = ground (arith, v.keys, remove_at-HasKeys k d m.rows v.keys);
    agrees = λ e t r ht hr.
        ground (arith, v.agrees e t r, get-remove_at e k d m.rows v.keys, eq_iff k e);
    fresh = λ e t ht. ground (arith, v.fresh e t);
  };
}

cancel_locked-IsValid : (k : String) → Keeps IsValid (cancel_locked k)
cancel_locked-IsValid k = record {
  at = λ m v. record {
    keys = v.keys;
    agrees = λ e t r ht hr. ground (arith, v.agrees e t r, get-erase e k m.tasks);
    fresh = λ e t ht. ground (arith, v.fresh e t, get-erase e k m.tasks);
  };
}

emit-IsValid : (x : Effect) → Keeps IsValid (emit x)
emit-IsValid x = record { at = λ m v. record { keys = v.keys; agrees = v.agrees; fresh = v.fresh } }

clear_overdue-IsValid : (k : String) → Keeps IsValid (clear_overdue_notified k)
clear_overdue-IsValid k = record {
  at = λ m v. record { keys = v.keys; agrees = v.agrees; fresh = v.fresh };
}

select-IsValid : {A : Type 0} (query : Table → A) → Keeps IsValid (select query)
select-IsValid query = record {
  at = λ m v.
      SameTimers-IsValid
        (record { rows = ground arith; tasks = ground arith; next_task = ground arith }) v;
}

ruleset valid_rules = (
  keeps_rules, clear_row-IsValid, cancel_locked-IsValid, emit-IsValid, clear_overdue-IsValid,
  select-IsValid, attempt_lock-IsValid, notify-IsValid,
)

finish-IsValid :
    (k : String) (d owner : ℕ) (locked : Bool) → Keeps IsValid (finish k d owner locked)
unfolding finish
finish-IsValid k d owner locked = search valid_rules depth 12

crashed-IsValid : (k : String) (owner : ℕ) → Keeps IsValid (crashed k owner)
unfolding crashed
crashed-IsValid k owner = search valid_rules depth 12

-- the other tasks keep the invariant whenever they run
abbrev pub MeanwhileIsValid : (ℕ → Attempt) → Type 0
MeanwhileIsValid attempts = (i : ℕ) (m : Manager) → IsValid m → IsValid ((attempts i).meanwhile m)

modify-IsValid :
    (f : Manager → Manager) → ((m : Manager) → IsValid m → IsValid (f m)) → Keeps IsValid (modify f)
modify-IsValid f h = record { at = h }

after_attempt-IsValid :
    (x : Method Bool) (o : Outcome) → Keeps IsValid x → Keeps IsValid (after_attempt x o)
after_attempt-IsValid x stopped k = search keeps_rules
after_attempt-IsValid x confirmed_locked k = search keeps_rules
after_attempt-IsValid x failed k = k

attempt_loop-IsValid :
    (n i : ℕ) (k : String) (d : ℕ) (owner : Option ℕ) (attempts : ℕ → Attempt)
    → MeanwhileIsValid attempts
    → Keeps IsValid (attempt_loop n i k d owner attempts)
unfolding attempt_loop
attempt_loop-IsValid zero i k d owner attempts h = search keeps_rules
attempt_loop-IsValid (suc n) i k d owner attempts h =
    Keeps-bind _ _ (modify-IsValid (attempts i).meanwhile (h i)) (λ _.
      Keeps-bind _ _ (attempt_lock-IsValid k d owner (attempts i).answer)
        (λ o. after_attempt-IsValid _ o (attempt_loop-IsValid n (i + 1) k d owner attempts h)))

call_ha_lock-IsValid :
    (k : String) (d : ℕ) (owner : Option ℕ) (attempts : ℕ → Attempt)
    → MeanwhileIsValid attempts
    → Keeps IsValid (call_ha_lock k d owner attempts)
unfolding call_ha_lock
call_ha_lock-IsValid = attempt_loop-IsValid 2 1

-- A timer that fires, with whatever runs meanwhile and whatever Home Assistant answers, leaves a
-- valid manager if the rest does.
pub wait_and_lock-IsValid :
    (k : String) (d owner : ℕ) (attempts : ℕ → Attempt) (has_client : Bool) (now : Clock)
    → MeanwhileIsValid attempts
    → Keeps IsValid (wait_and_lock k d owner attempts has_client now)
unfolding wait_and_lock
wait_and_lock-IsValid k d owner attempts has_client now h =
    let call = call_ha_lock-IsValid k d (some owner) attempts h in
    let body =
      Keeps-bind _ _ call (λ locked.
        Keeps-bind _ _ (modify-IsValid _ (h 3)) (λ _. finish-IsValid k d owner locked)) in
    let handler = Keeps-bind _ _ (modify-IsValid _ (h 4)) (λ _. crashed-IsValid k owner) in
    Keeps-bind _ _ (Keeps-except _ _ body handler)
      (λ failing. Keeps-if failing _ _ (notify-IsValid k true has_client now) (Keeps-return tt))

recover_check-IsValid :
    (row : Row) (future : Bool) (now : Clock) → Keeps IsValid (recover_check row future now)
unfolding recover_check
recover_check-IsValid row future now =
    let k = row.entity_id in
    record {
      at = λ m v. record {
        keys = ground (arith, v.keys);
        agrees = λ e t r ht hr. ground (
          arith,
          v.agrees e t r,
          get-erase e k m.tasks,
          get-erase e k (erase k m.tasks),
          eq_iff k e,
        );
        fresh = λ e t ht. ground (
          arith,
          v.fresh e t,
          get-erase e k m.tasks,
          get-erase e k (erase k m.tasks),
          eq_iff k e,
        );
      };
    }

recover_failed-IsValid : (row : Row) → Keeps IsValid (recover_failed row)
unfolding recover_failed
recover_failed-IsValid row = search valid_rules depth 12

recover_done-IsValid : (row : Row) → Keeps IsValid (recover_done row)
unfolding recover_done
recover_done-IsValid row = search valid_rules depth 12

pub record WeatherIsValid (w : Weather) : Type 0 where
  pub before : (m : Manager) → IsValid m → IsValid (w.before m)
  pub meanwhile : MeanwhileIsValid w.attempts

not_locked-IsValid : (row : Row) (w : Weather) → Keeps IsValid (not_locked row w)
unfolding not_locked
not_locked-IsValid row w = search (valid_rules, recover_failed-IsValid) depth 12

fire_overdue-IsValid :
    (row : Row) (w : Weather) → WeatherIsValid w → Keeps IsValid (fire_overdue row w)
unfolding fire_overdue
fire_overdue-IsValid row w h =
    Keeps-bind _ _ (call_ha_lock-IsValid row.entity_id row.deadline none w.attempts h.meanwhile)
      (λ locked.
        Keeps-bind _ _ (modify-IsValid _ (h.meanwhile 3))
          (λ _. Keeps-if locked _ _ (recover_done-IsValid row) (not_locked-IsValid row w)))

recover_or_schedule-IsValid :
    (row : Row) (future : Bool) (w : Weather)
    → WeatherIsValid w
    → Keeps IsValid (recover_or_schedule row future w)
unfolding recover_or_schedule
recover_or_schedule-IsValid row future w h = Keeps-bind _ _ (modify-IsValid w.before h.before) (λ _.
    Keeps-bind _ _ (recover_check-IsValid row future w.now)
      (λ overdue. Keeps-if overdue _ _ (fire_overdue-IsValid row w h) (Keeps-return false)))

rehydrate_rows-IsValid :
    (rows : List Row) (weather : Row → Weather)
    → ((row : Row) → WeatherIsValid (weather row))
    → Keeps IsValid (rehydrate_rows rows weather)
unfolding rehydrate_rows
rehydrate_rows-IsValid [] weather h = search keeps_rules
rehydrate_rows-IsValid (row ∷ rows) weather h =
    Keeps-bind _ _ (recover_or_schedule-IsValid row true (weather row) (h row))
      (λ _. rehydrate_rows-IsValid rows weather h)

sweep_rows-IsValid :
    (rows : List Row) (weather : Row → Weather) (n : ℕ)
    → ((row : Row) → WeatherIsValid (weather row))
    → Keeps IsValid (sweep_rows rows weather n)
unfolding sweep_rows
sweep_rows-IsValid [] weather n h = search keeps_rules
sweep_rows-IsValid (row ∷ rows) weather n h =
    Keeps-bind _ _ (recover_or_schedule-IsValid row false (weather row) (h row))
      (λ fired. sweep_rows-IsValid rows weather (if fired then n + 1 else n) h)

-- Recovery of all rows, and the sweep of the overdue ones, keep the invariant, whatever runs between
-- their sections, the database does and Home Assistant answers.
pub recovery-IsValid :
    (weather : Row → Weather)
    → ((row : Row) → WeatherIsValid (weather row))
    → Keeps IsValid (rehydrate weather) × Keeps IsValid (sweep_overdue weather)
unfolding rehydrate sweep_overdue
recovery-IsValid weather h = (
  Keeps-bind _ _ (select-IsValid get_pending_relocks)
      (λ rows. rehydrate_rows-IsValid rows weather h),
  Keeps-bind _ _ (select-IsValid get_pending_relocks) (λ rows. sweep_rows-IsValid rows weather 0 h),
)
