-- ===== src/Unlock/Safety.antt =====
-- What an unlock for a credential leaves behind: a door that it may have opened is closed again.
use hassio_access_control.Prelude.{
  ℕ, ◌<◌, ◌+◌, max, ◌≡◌, ◌≢◌, refl, ap, ◌∙◌, Bool, true, false, not, ◌&&◌, inl, inr, some, [], ◌∷◌,
  ◌++◌, arith, str_eq, Bool-cases,
}
use hassio_access_control.Relock.Manager.{
  Manager, Error, Result, ok, raise, command_unlock, show_unknown,
}
use hassio_access_control.Relock.Timers.{RelockIntent, schedule}
use hassio_access_control.Relock.Undo.{due}
use hassio_access_control.Relock.Interleaving.{schedule-IsIntent}
use hassio_access_control.Unlock.{
  ExternalLock, Weather, state, Write, accepted, refused, write_raised, write_cancelled,
  confirm_ha_state, ha_confirm_attempts, Readback, confirmed, not_confirmed, readback_raised,
  readback_cancelled, Ending, unlocked, Owed, intent, held, prepare, resolve, recover, command,
  unlock_ha_external, unconfirmed, failed, cancelled, confirm, after_write,
}
use hassio_access_control.Relock.Keeps.{Result-cases}
use hassio_access_control.Relock.Due.{IsDueBy, schedule-due, schedule-effects}
use hassio_access_control.Unlock.Due.{command-IsDueBy}
use hassio_access_control.Unlock.Confirmed.{confirmed_lem}

-- no guard ends the call
abbrev is_ready : ExternalLock → Weather → Bool
is_ready lock w = not (str_eq lock.entity_id "") && not w.lockdown && w.has_client

-- the intent's call of the manager
abbrev scheduled : ExternalLock → Weather → Manager → Result RelockIntent × Manager
scheduled lock w m =
    schedule lock.entity_id lock.relock_duration lock.id lock.name "device_auth" w.now m

stopped_lem :
    (lock : ExternalLock) (w : Weather) (m : Manager)
    → is_ready lock w ≡ false
    → (unlock_ha_external lock w m).1 ≡ m
unfolding unlock_ha_external
stopped_lem lock w m h = ground arith

raised_lem :
    (lock : ExternalLock) (w : Weather) (m : Manager) (e : Error)
    → is_ready lock w ≡ true
    → lock.relock_on_device_auth ≡ true
    → (scheduled lock w m).0 ≡ raise e
    → (unlock_ha_external lock w m).1 ≡ (scheduled lock w m).1
unfolding unlock_ha_external prepare
raised_lem lock w m e ready enabled h = ground arith

issued_lem :
    (lock : ExternalLock) (w : Weather) (m : Manager) (i : RelockIntent)
    → is_ready lock w ≡ true
    → lock.relock_on_device_auth ≡ true
    → (scheduled lock w m).0 ≡ ok i
    → unlock_ha_external lock w m ≡ command lock w (intent i) (scheduled lock w m).1
unfolding unlock_ha_external prepare
issued_lem lock w m i ready enabled h = ground arith

-- what goes out with a command
abbrev pub Sends : ExternalLock → Weather → Manager → Type 0
Sends lock w m = (unlock_ha_external lock w m).1.effects ≢ m.effects

-- If an unlock of a lock with automatic relocking sends anything out, then whatever the command
-- and the readbacks answer, whichever calls of the database fail, whether it is cancelled, and
-- whatever happens meanwhile that keeps this entity's row: a durable row for the entity remains,
-- and it is due no later than the duration after the later of the two clock readings.
pub unlock_ha_external-IsDueBy :
    (lock : ExternalLock) (w : Weather) (m : Manager)
    → ((m : Manager) → due lock.entity_id (w.meanwhile m) ≡ due lock.entity_id m)
    → lock.relock_on_device_auth ≡ true
    → Sends lock w m
    → IsDueBy lock.entity_id
        (max (w.now.wall + lock.relock_duration) (w.later.wall + lock.relock_duration))
        (unlock_ha_external lock w m).1
unlock_ha_external-IsDueBy lock w m apart enabled sends = elim (Bool-cases (is_ready lock w)) [
  | inr stuck ↦ absurd (sends (ap (λ m'. m'.effects) (stopped_lem lock w m stuck)))
  | inl ready ↦ elim (Result-cases (scheduled lock w m).0) [
    | inr e ↦ absurd (
        sends (
          ap (λ m'. m'.effects) (raised_lem lock w m e.0 ready enabled e.1)
          ∙ schedule-effects lock.entity_id lock.relock_duration lock.id lock.name "device_auth"
              w.now m))
    | inl i ↦
        let s =
          schedule-due lock.entity_id lock.relock_duration lock.id lock.name "device_auth" w.now m
            i.0 i.1 in
        let wf =
          schedule-IsIntent lock.entity_id lock.relock_duration lock.id lock.name "device_auth"
            w.now m i.0 i.1 in
        rw (issued_lem lock w m i.0 ready enabled i.1) (
          (command-IsDueBy lock w i.0
              (max (w.now.wall + lock.relock_duration) (w.later.wall + lock.relock_duration)) s.0 wf
              (omega (arith, s.1)) (omega arith) apart).at
            (scheduled lock w m).1
            (record { deadline = (i.0).deadline; durable = s.2; in_time = omega (arith, s.1) }))
  ]
]

resolve-ending :
    (o : Owed) (late : Bool) (e : Ending) (m : Manager)
    → e ≢ unlocked
    → (resolve o late e m).0 ≢ ok unlocked
unfolding resolve
resolve-ending (intent i) late e m h r = ground arith
resolve-ending (held row) late e m h r = ground arith

recover-ending :
    (lock : ExternalLock) (w : Weather) (o : Owed) (e : Ending) (m : Manager)
    → e ≢ unlocked
    → (recover lock w o e m).0 ≢ ok unlocked
unfolding recover
recover-ending lock w o e m h =
    resolve-ending o w.cancelled_late e
      (record m { effects = m.effects ++ show_unknown lock.entity_id ∷ [] }) h

confirm-ending :
    (lock : ExternalLock) (w : Weather) (o : Owed) (r : Readback) (m : Manager)
    → (confirm lock w o r m).0 ≡ ok unlocked
    → r ≡ confirmed
unfolding confirm
confirm-ending lock w o confirmed m h = refl
confirm-ending lock w o not_confirmed m h =
    absurd (recover-ending lock w o unconfirmed m (λ e. cc) h)
confirm-ending lock w o readback_raised m h = absurd (recover-ending lock w o failed m (λ e. cc) h)
confirm-ending lock w o readback_cancelled m h =
    absurd (recover-ending lock w o cancelled m (λ e. cc) h)

after_write-ending :
    (lock : ExternalLock) (w : Weather) (o : Owed) (x : Write) (m : Manager)
    → (after_write lock w o x m).0 ≡ ok unlocked
    → (x ≡ accepted) × (confirm_ha_state "unlocked" ha_confirm_attempts 0 w.readings ≡ confirmed)
unfolding after_write
after_write-ending lock w o accepted m h = (
  refl,
  confirm-ending lock w o (confirm_ha_state "unlocked" ha_confirm_attempts 0 w.readings) m h,
)
after_write-ending lock w o refused m h = absurd (recover-ending lock w o failed m (λ e. cc) h)
after_write-ending lock w o write_raised m h = absurd (recover-ending lock w o failed m (λ e. cc) h)
after_write-ending lock w o write_cancelled m h =
    absurd (recover-ending lock w o cancelled m (λ e. cc) h)

command-ending :
    (lock : ExternalLock) (w : Weather) (o : Owed) (m : Manager)
    → (command lock w o m).0 ≡ ok unlocked
    → (w.write ≡ accepted)
      × (confirm_ha_state "unlocked" ha_confirm_attempts 0 w.readings ≡ confirmed)
unfolding command
command-ending lock w o m h =
    after_write-ending lock w o w.write
      (w.meanwhile (record m { effects = m.effects ++ command_unlock lock.entity_id ∷ [] })) h

-- An unlock that reports success had its command accepted and one of its three readbacks
-- returned the state "unlocked", and the lockdown was down when it held the barrier.
pub unlock_ha_external-confirmed :
    (lock : ExternalLock) (w : Weather) (m : Manager)
    → (unlock_ha_external lock w m).0 ≡ ok unlocked
    → (w.lockdown ≡ false)
      × (w.write ≡ accepted)
      × ((j : ℕ) × (j < 3) × (w.readings j ≡ state (some "unlocked")))
unfolding unlock_ha_external
unlock_ha_external-confirmed lock w m h = elim (Result-cases (prepare lock w.now m).0) [
  | inl o ↦
      let sent : (command lock w o.0 (prepare lock w.now m).1).0 ≡ ok unlocked =
        ground (arith, o.1) in
      let c = command-ending lock w o.0 (prepare lock w.now m).1 sent in
      (ground (arith, o.1), c.0, confirmed_lem "unlocked" 3 0 w.readings c.1)
  | inr e ↦ absurd (ground (arith, e.1))
]
