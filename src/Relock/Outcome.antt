-- ===== src/Relock/Outcome.antt =====
-- What a timer that fires does: when it commands the lock, and what it leaves behind.
use hassio_access_control.Prelude.{
  ℕ, String, ◌≡◌, ◌≢◌, Bool, true, false, not, ◌||◌, Option, none, some, List, [], ◌∷◌, ◌++◌, arith,
  if◌then◌else◌, eq_refl, Bool-cases, inl, inr,
}
use hassio_access_control.Prelude.Map.{get, get-erase}
use hassio_access_control.Relock.Rows.{HasKeys}
use hassio_access_control.Relock.Rows.Lookup.{get-remove_at, rows_at_deadline-get}
use hassio_access_control.Relock.Manager.{
  Clock, Manager, ok, Effect, command_lock, on_locked, on_unknown, relock_failed,
}
use hassio_access_control.Relock.Fire.{
  Answer, no_client, refused, accepted, Attempt, confirmed_locked, failed, confirm_attempts,
  confirmed, attempt_lock, attempt_loop, call_ha_lock, finish, clear_row, wait_and_lock,
  notify_relock_failed,
}
use hassio_access_control.Relock.Undo.{timer, due}

-- the identity of an entity's timer, and whether it still runs
abbrev pub owner_of : String → Manager → Option ℕ
owner_of k m = elim (get k m.tasks) [ none ↦ none | some t ↦ some t.id ]

abbrev pub running : String → Manager → Bool
running k m = elim (get k m.tasks) [ none ↦ false | some t ↦ not t.done ]

abbrev pub Owns : String → Option ℕ → Manager → Type 0
Owns k none m = running k m ≡ false
Owns k (some id) m = owner_of k m ≡ some id

-- the entity is waited for: not shut down, not paused, and its row and its owner are those of the
-- command
abbrev pub Wants : String → ℕ → Option ℕ → Manager → Type 0
Wants k d owner m =
    (m.shutting_down ≡ false) × (m.paused k ≡ false) × (due k m ≡ some d) × Owns k owner m

-- the answer confirms the lock
abbrev pub confirms : Answer → Bool
confirms no_client = false
confirms refused = false
confirms (accepted states) = confirmed confirm_attempts 1 states

abbrev pub commands : String → Answer → List Effect → List Effect
commands k no_client effects = effects
commands k refused effects = effects ++ command_lock k ∷ []
commands k (accepted states) effects = effects ++ command_lock k ∷ []

-- An attempt acts on the door only if the manager is not shutting down, the entity is not paused,
-- its durable row has the attempt's deadline, and the timer that attempts is the live one (for a
-- recovery, no timer is live).
pub command_wanted :
    (k : String) (d : ℕ) (owner : Option ℕ) (answer : Answer) (m : Manager)
    → (attempt_lock k d owner answer m).1.effects ≢ m.effects
    → Wants k d owner m
unfolding attempt_lock
command_wanted k d none answer m h = ground arith
command_wanted k d (some id) answer m h = ground arith

module _ (k : String) (d id : ℕ) (m : Manager) (healthy : m.faults ≡ [])
    (w : Wants k d (some id) m) where
  attempt_lem :
      (answer : Answer)
      → attempt_lock k d (some id) answer m ≡ (
        ok (if confirms answer then confirmed_locked else failed),
        record m { effects = commands k answer m.effects },
      )
  unfolding attempt_lock
  attempt_lem no_client = ground arith
  attempt_lem refused = ground arith
  attempt_lem (accepted states) = ground arith

-- both attempts
abbrev pub locks : (ℕ → Attempt) → Bool
locks attempts = confirms (attempts 1).answer || confirms (attempts 2).answer

abbrev pub attempted : String → (ℕ → Attempt) → List Effect → List Effect
attempted k attempts effects =
    if confirms (attempts 1).answer
    then commands k (attempts 1).answer effects
    else commands k (attempts 2).answer (commands k (attempts 1).answer effects)

-- nothing else happens during the waits
abbrev pub IsQuiet : (ℕ → Attempt) → Type 0
IsQuiet attempts = (i : ℕ) (m : Manager) → (attempts i).meanwhile m ≡ m

abbrev pub finished : String → Bool → Bool → List Effect → List Effect
finished k locked has_client effects =
    if locked
    then effects ++ on_locked k ∷ []
    else if has_client
    then (effects ++ on_unknown k ∷ []) ++ relock_failed k ∷ []
    else effects ++ on_unknown k ∷ []

module _ (k : String) (d id : ℕ) (attempts : ℕ → Attempt) (m : Manager) (healthy : m.faults ≡ [])
    (w : Wants k d (some id) m) (quiet : IsQuiet attempts) where
  call_lem :
      call_ha_lock k d (some id) attempts m
      ≡ (ok (locks attempts), record m { effects = attempted k attempts m.effects })
  unfolding call_ha_lock attempt_loop
  call_lem =
      let a1 = (attempts 1).answer in
      let m1 = record m { effects = commands k a1 m.effects } in
      elim (Bool-cases (confirms a1)) [
        | inl locked ↦ ground (arith, quiet 1 m, attempt_lem k d id m healthy w a1)
        | inr unlocked ↦ ground (
          arith,
          quiet 1 m,
          attempt_lem k d id m healthy w a1,
          quiet 2 m1,
          attempt_lem k d id m1 healthy w (attempts 2).answer,
        )
      ]

  finish_lem :
      (locked : Bool) (effects : List Effect)
      → HasKeys m.rows
      → let (r, m') = finish k d id locked (record m { effects = effects }) in
        (r ≡ ok (not locked))
        × (due k m' ≡ (if locked then none else some d))
        × (timer k m' ≡ none)
        × (m'.effects
            ≡ (if locked then effects ++ on_locked k ∷ [] else effects ++ on_unknown k ∷ []))
  unfolding finish clear_row
  finish_lem true effects keys = ground (
    arith,
    get-remove_at k k d m.rows keys,
    rows_at_deadline-get k d m.rows keys,
    get-erase k k m.tasks,
    eq_refl k,
  )
  finish_lem false effects keys = ground (arith, get-erase k k m.tasks, eq_refl k)

  -- A timer that fires while it is wanted, on a healthy database and with nothing else happening
  -- during its waits: its row goes exactly if one of its two attempts is confirmed, its task is
  -- gone, and what it did outside is the commands sent and then `on_locked`, or `on_unknown` and,
  -- with a client, the failure event.
  pub wait_and_lock_outcome :
      (has_client : Bool) (now : Clock)
      → HasKeys m.rows
      → let m' = (wait_and_lock k d id attempts has_client now m).1 in
        (due k m' ≡ (if locks attempts then none else some d))
        × (timer k m' ≡ none)
        × (m'.effects ≡ finished k (locks attempts) has_client (attempted k attempts m.effects))
  unfolding wait_and_lock notify_relock_failed
  wait_and_lock_outcome has_client now keys =
      let f = finish_lem (locks attempts) (attempted k attempts m.effects) keys in
      ground (arith, call_lem, quiet 3 (record m { effects = attempted k attempts m.effects }), f)
