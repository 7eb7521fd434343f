-- ===== src/Relock/Manager.antt =====
-- The state of `RelockManager` (relock_manager.py), and the monad of its methods: a method runs on
-- the manager, may raise, and leaves the manager as its statements did up to the raise.
use hassio_access_control.Prelude.{
  ℕ, ◌+◌, String, Bool, true, false, Option, List, [], ◌∷◌, ◌++◌, if◌then◌else◌, str_eq,
}
use hassio_access_control.Prelude.Map.{Map, insert, erase}
use hassio_access_control.Relock.Rows.{Table}

-- readings of `time.time()` and of `time.monotonic()`
pub record Clock : Type 0 where
  pub wall : ℕ
  pub monotonic : ℕ

-- an `asyncio.Task` that runs `_wait_and_lock`; its identity is a number that is used once
pub record Task : Type 0 where
  pub id : ℕ
  pub lock_name : String
  pub deadline : ℕ
  pub monotonic_deadline : Option ℕ
  pub done : Bool

-- what the manager, and the unlocks that call it, do to the outside, in order
pub data Effect : Type 0 where
  command_lock on_locked on_unknown relock_failed : String → Effect
  -- what an unlock does: its command, and the state that it shows to the application
  command_unlock show_unlocked show_locked show_unknown : String → Effect
  -- what a manual action does besides: a write to UniFi Access, an entry of the access log with its
  -- result, the marks that the hub synchronisation reads, and the disarming of a panel
  command_access : ℕ → Effect
  log_access mark_momentary mark_app_unlock alarm_disarm : String → Effect

pub record Manager : Type 0 where
  pub rows : Table
  -- whether the next calls of the database raise; past the end none does
  pub faults : List Bool
  pub tasks : Map Task
  pub paused : String → Bool
  pub shutting_down : Bool
  pub overdue_notified_at : Map ℕ
  pub next_task : ℕ
  pub effects : List Effect

pub data Error : Type 0 where
  is_shutting_down db_error task_cancelled : Error

pub data Result (A : Type 0) : Type 0 where
  ok : A → Result A
  raise : Error → Result A

abbrev pub Method : Type 0 → Type 0
Method A = Manager → Result A × Manager

infixl 5 ◌>>=◌ ◌>>◌
abbrev pub ◌>>=◌ : {A B : Type 0} → Method A → (A → Method B) → Method B
◌>>=◌ x f m = let (r, m') = x m in elim r [ ok a ↦ f a m' | raise e ↦ (raise e, m') ]

abbrev pub ◌>>◌ : {A B : Type 0} → Method A → Method B → Method B
x >> y = x >>= λ _. y

abbrev pub return : {A : Type 0} → A → Method A
return a m = (ok a, m)

abbrev pub fail : {A : Type 0} → Error → Method A
fail e m = (raise e, m)

abbrev pub gets : {A : Type 0} → (Manager → A) → Method A
gets f m = (ok (f m), m)

abbrev pub modify : (Manager → Manager) → Method (Unit {0})
modify f m = (ok tt, f m)

abbrev pub next_fails : List Bool → Bool
next_fails [] = false
next_fails (b ∷ bs) = b

abbrev pub rest : List Bool → List Bool
rest [] = []
rest (b ∷ bs) = bs

-- a read of the table, or a transaction on it, that raises or runs whole
abbrev pub select : {A : Type 0} → (Table → A) → Method A
select query m =
    let m' = record m { faults = rest m.faults } in
    elim (next_fails m.faults) [ true ↦ (raise db_error, m') | false ↦ (ok (query m.rows), m') ]

-- a transaction with its `rowcount`
abbrev pub execute_counting : (Table → ℕ) → (Table → Table) → Method ℕ
execute_counting count statement m =
    let m' = record m { faults = rest m.faults } in
    elim (next_fails m.faults) [
      | true ↦ (raise db_error, m')
      | false ↦ (ok (count m.rows), record m' { rows = statement m.rows })
    ]

abbrev pub execute : (Table → Table) → Method (Unit {0})
execute statement m =
    let m' = record m { faults = rest m.faults } in
    elim (next_fails m.faults) [
      | true ↦ (raise db_error, m')
      | false ↦ (ok tt, record m' { rows = statement m.rows })
    ]

-- `try: x except Exception: handler`
abbrev pub except : {A : Type 0} → Method A → Method A → Method A
except x handler m = let (r, m') = x m in elim r [ ok a ↦ (ok a, m') | raise e ↦ handler m' ]

abbrev pub emit : Effect → Method (Unit {0})
emit e = modify (λ m. record m { effects = m.effects ++ e ∷ [] })

-- `_cancel_locked`: the task is popped, and cancelled so that it makes no further step
abbrev pub cancel_locked : String → Method (Unit {0})
cancel_locked entity_id = modify (λ m. record m { tasks = erase entity_id m.tasks })

abbrev pub set_add : String → (String → Bool) → String → Bool
set_add k s j = if str_eq k j then true else s j

abbrev pub set_discard : String → (String → Bool) → String → Bool
set_discard k s j = if str_eq k j then false else s j

-- `self._paused.discard(entity_id)`
abbrev pub discard_paused : String → Method (Unit {0})
discard_paused entity_id = modify (λ m. record m { paused = set_discard entity_id m.paused })

-- `_clear_overdue_notified`
abbrev pub clear_overdue_notified : String → Method (Unit {0})
clear_overdue_notified entity_id =
    modify (λ m. record m { overdue_notified_at = erase entity_id m.overdue_notified_at })

-- `asyncio.create_task(self._wait_and_lock(…))`, stored in `_tasks`
abbrev pub create_task : String → String → ℕ → Option ℕ → Method Task
create_task entity_id lock_name deadline monotonic_deadline m =
    let task : Task = record {
      id = m.next_task;
      lock_name = lock_name;
      deadline = deadline;
      monotonic_deadline = monotonic_deadline;
      done = false;
    } in
    (ok task, record m { tasks = insert entity_id task m.tasks; next_task = m.next_task + 1 })

abbrev pub start : Table → Manager
start rows = record {
  rows = rows;
  faults = [];
  tasks = [];
  paused = λ e. false;
  shutting_down = false;
  overdue_notified_at = [];
  next_task = 0;
  effects = [];
}
