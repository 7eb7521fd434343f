-- ===== src/Auth/Lockdown.antt =====
-- The lockdown of auth_engine.py: `set_lockdown`, `load_persisted_lockdown`, and the check that an
-- unlock makes under the command barrier. The waits of these coroutines are where others run, so
-- each is cut at its waits into the steps of a relation.
pub mod Safety
use hassio_access_control.Prelude.{Bool, true, false, Option, none, some, ◌≡◌, ◌⊎◌}

-- what the row `lockdown` of the table `config` holds
pub data Stored : Type 0 where
  missing zero one : Stored

-- the program counter of the one task that holds `_lockdown_transition_lock`
pub data Transition : Type 0 where
  idle : Transition
  -- the flag is published; next, "1" is written
  publishing : Transition
  -- waits for the barrier; `true` when the write failed
  draining : Bool → Transition
  -- runs the callback that resets the hubs
  enforcing : Bool → Transition
  -- holds the barrier and writes "0"
  disabling : Transition

-- who holds `_command_lock`
pub data Barrier : Type 0 where
  free : Barrier
  -- an unlock has passed its check and its command is on the way
  unlocking : Barrier
  by_transition : Barrier

pub record Engine : Type 0 where
  pub lockdown : Bool
  pub stored : Stored
  pub transition : Transition
  pub barrier : Barrier

abbrev pub is_one : Stored → Bool
is_one one = true
is_one _ = false

-- `load_persisted_lockdown`; `none` when the read raises
unfoldable pub load_persisted_lockdown : Option Stored → Bool
load_persisted_lockdown none = true
load_persisted_lockdown (some value) = is_one value

abbrev pub restarted : Option Stored → Stored → Engine
restarted value stored = record {
  lockdown = load_persisted_lockdown value;
  stored = stored;
  transition = idle;
  barrier = free;
}

-- One step, of an unlock, of a transition, or of the process.
pub data Step (s : Engine) : Engine → Type 0 where
  -- `async with command_lock` and `if self._lockdown: return False` let the command out
  unlock_begin :
      {t : Engine}
      → s.barrier ≡ free
      → s.lockdown ≡ false
      → t ≡ record s { barrier = unlocking }
      → Step s t
  unlock_end : {t : Engine} → s.barrier ≡ unlocking → t ≡ record s { barrier = free } → Step s t
  enable_publish :
      {t : Engine}
      → s.transition ≡ idle
      → t ≡ record s { lockdown = true; transition = publishing }
      → Step s t
  enable_written :
      {t : Engine}
      → s.transition ≡ publishing
      → t ≡ record s { stored = one; transition = draining false }
      → Step s t
  enable_not_written :
      {t : Engine}
      → s.transition ≡ publishing
      → t ≡ record s { transition = draining true }
      → Step s t
  -- takes the barrier and gives it back
  enable_drained :
      {t : Engine} (failing : Bool)
      → s.transition ≡ draining failing
      → s.barrier ≡ free
      → t ≡ record s { transition = enforcing failing }
      → Step s t
  -- `set_lockdown(True)` returns, raises or is cancelled
  enable_returned :
      {t : Engine} (failing : Bool)
      → s.transition ≡ enforcing failing
      → t ≡ record s { transition = idle }
      → Step s t
  -- the caller is cancelled at a wait: the write may have run; a cancelled callback is `enable_returned`
  enable_cancelled :
      {t : Engine} (stored : Stored)
      → s.transition ≡ publishing
      → (stored ≡ s.stored) ⊎ (stored ≡ one)
      → t ≡ record s { stored = stored; transition = idle }
      → Step s t
  drain_cancelled :
      {t : Engine} (failing : Bool)
      → s.transition ≡ draining failing
      → t ≡ record s { transition = idle }
      → Step s t
  disable_cancelled :
      {t : Engine} (stored : Stored)
      → s.transition ≡ disabling
      → (stored ≡ s.stored) ⊎ (stored ≡ zero)
      → t ≡ record s { stored = stored; transition = idle; barrier = free }
      → Step s t
  disable_acquired :
      {t : Engine}
      → s.transition ≡ idle
      → s.barrier ≡ free
      → t ≡ record s { transition = disabling; barrier = by_transition }
      → Step s t
  disable_written :
      {t : Engine}
      → s.transition ≡ disabling
      → t ≡ record s { stored = zero; lockdown = false; transition = idle; barrier = free }
      → Step s t
  disable_not_written :
      {t : Engine}
      → s.transition ≡ disabling
      → t ≡ record s { transition = idle; barrier = free }
      → Step s t
  -- the process dies and starts again; the read of the flag may raise
  restart :
      {t : Engine} (value : Option Stored)
      → (value ≡ none) ⊎ (value ≡ some s.stored)
      → t ≡ restarted value s.stored
      → Step s t

pub data Reach (s : Engine) : Engine → Type 0 where
  here : Reach s s
  next : {t u : Engine} → Reach s t → Step t u → Reach s u

-- steps during which the lockdown stays on
pub data StaysOn (s : Engine) : Engine → Type 0 where
  still : s.lockdown ≡ true → StaysOn s s
  then_on : {t u : Engine} → StaysOn s t → Step t u → u.lockdown ≡ true → StaysOn s u
