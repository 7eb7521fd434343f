-- ===== src/Actions/Safe.antt =====
-- `execute_lock_action` of lock_actions.py as a whole, for a timed unlock of an external lock.
use hassio_access_control.Prelude.{
  ℕ, String, ◌≡◌, refl, Bool, true, false, not, Option, some, List, inl, if◌then◌else◌, ◌⊎◌,
}
use hassio_access_control.Relock.Manager.{Manager, Effect, ◌>>=◌, return}
use hassio_access_control.Relock.Keeps.{Keeps, Keeps-return, Keeps-bind, Keeps-after, after_keeps}
use hassio_access_control.Relock.Undo.{due}
use hassio_access_control.Relock.Due.{IsDueBy}
use hassio_access_control.Actions.{
  buzz, db_call, ActionResult, LockRow, Weather, present, nothing, on_cancelled, refuse,
  ha_external, LockKind, denied, lockdown_active, buzz_disabled,
}
use hassio_access_control.Actions.Keep.{conclude-Keeps, audit_result-Keeps}
use hassio_access_control.Actions.Execute.{
  by_kind, audited, under_barrier, conclude, act, on_row, execute_lock_action,
}
use hassio_access_control.Actions.Sent.{
  commands, HasSent, IsSafe, emit-IsSafe, db_call-HasSent, db_call-IsSafe, latest, external-IsSafe,
  cancelled-IsSafe,
}

module _ (row : LockRow) (k : String) (w : Weather) (entity : present row.entity_id ≡ some k)
    (apart : (m : Manager) → due k (w.meanwhile m) ≡ due k m) where
  by_kind-IsSafe :
      (m : Manager) (kind : LockKind)
      → kind ≡ ha_external
      → IsSafe (commands m) k (latest row w) (by_kind row buzz w kind m).1
  unfolding by_kind
  by_kind-IsSafe m kind external = rw external (external-IsSafe row k w entity apart m)

  permitted-IsSafe :
      (m : Manager) (kind : LockKind) (stopped : Bool)
      → kind ≡ ha_external
      → IsSafe
          (commands m)
          k
          (latest row w)
          ((if stopped
              then return (refuse row buzz denied lockdown_active)
              else by_kind row buzz w kind)
            m).1
  permitted-IsSafe m kind true external = inl refl
  permitted-IsSafe m kind false external = by_kind-IsSafe m kind external

  awaited-IsSafe :
      (m : Manager) (kind : LockKind) (cancelled : Bool)
      → kind ≡ ha_external
      → IsSafe
          (commands m)
          k
          (latest row w)
          ((if cancelled
              then on_cancelled row buzz false nothing
              else if w.lockdown
              then return (refuse row buzz denied lockdown_active)
              else by_kind row buzz w kind)
            m).1
  awaited-IsSafe m kind true external = cancelled-IsSafe row k w entity apart m
  awaited-IsSafe m kind false external = permitted-IsSafe m kind w.lockdown external

  under_barrier-IsSafe :
      (m : Manager)
      → row.kind ≡ ha_external
      → IsSafe (commands m) k (latest row w) (under_barrier row buzz w m).1
  unfolding under_barrier
  under_barrier-IsSafe m external = awaited-IsSafe m row.kind w.cancelled_waiting external

  -- the rest of the action, from any state that is safe
  conclude-IsSafe :
      (sent : List Effect) (wants : Bool) (r : ActionResult)
      → Keeps (IsSafe sent k (latest row w)) (conclude buzz wants w r)
  conclude-IsSafe sent wants r =
      conclude-Keeps (IsSafe sent k (latest row w)) (emit-IsSafe sent k (latest row w))
        (db_call-IsSafe sent k (latest row w)) buzz wants w r

  audited-IsSafe :
      (sent : List Effect) (r : ActionResult) → Keeps (IsSafe sent k (latest row w)) (audited r)
  audited-IsSafe sent r =
      Keeps-bind _ _
        (audit_result-Keeps (IsSafe sent k (latest row w)) (emit-IsSafe sent k (latest row w))
          (db_call-IsSafe sent k (latest row w)) r)
        (λ _. Keeps-return r)

  performed-IsSafe :
      (m : Manager) (wants : Bool)
      → row.kind ≡ ha_external
      → IsSafe
          (commands m)
          k
          (latest row w)
          ((under_barrier row buzz w >>= conclude buzz wants w) m).1
  performed-IsSafe m wants external =
      Keeps-after (under_barrier row buzz w) (conclude buzz wants w) m
        (conclude-IsSafe (commands m) wants) (under_barrier-IsSafe m external)

  enabled-IsSafe :
      (m : Manager) (wants refused : Bool)
      → row.kind ≡ ha_external
      → IsSafe
          (commands m)
          k
          (latest row w)
          ((if refused
              then audited (refuse row buzz denied buzz_disabled)
              else (under_barrier row buzz w >>= conclude buzz wants w))
            m).1
  enabled-IsSafe m wants true external =
      (audited-IsSafe (commands m) (refuse row buzz denied buzz_disabled)).at m (inl refl)
  enabled-IsSafe m wants false external = performed-IsSafe m wants external

  entered-IsSafe :
      (m : Manager) (wants stopped : Bool)
      → row.kind ≡ ha_external
      → IsSafe
          (commands m)
          k
          (latest row w)
          ((if stopped
              then audited (refuse row buzz denied lockdown_active)
              else if not row.buzz_enabled
              then audited (refuse row buzz denied buzz_disabled)
              else (under_barrier row buzz w >>= conclude buzz wants w))
            m).1
  entered-IsSafe m wants true external =
      (audited-IsSafe (commands m) (refuse row buzz denied lockdown_active)).at m (inl refl)
  entered-IsSafe m wants false external = enabled-IsSafe m wants (not row.buzz_enabled) external

  act-IsSafe :
      (sent : List Effect) (m : Manager) (wants : Bool)
      → row.kind ≡ ha_external
      → HasSent sent m
      → IsSafe sent k (latest row w) (act row buzz wants w m).1
  unfolding act
  act-IsSafe sent m wants external h = rw⁻¹ h (entered-IsSafe m wants w.lockdown_before external)

  -- A timed unlock of an external lock whose entity is `k`, where the other tasks leave the rows of
  -- `k` alone while the command waits: at the end of `execute_lock_action`, however it ends, either
  -- no command has gone out, or the intent of `k` is durable and due no later than the relock
  -- duration after the later of the two readings of the clock.
  pub timed_unlock-IsSafe :
      (get_lock : ℕ → Option LockRow) (id : ℕ) (wants : Bool) (m : Manager)
      → get_lock id ≡ some row
      → row.kind ≡ ha_external
      → let m' = (execute_lock_action get_lock id buzz wants w m).1 in
        (commands m' ≡ commands m) ⊎ IsDueBy k (latest row w) m'
  unfolding execute_lock_action on_row
  timed_unlock-IsSafe get_lock id wants m found external = rw found (
      after_keeps (HasSent (commands m)) (IsSafe (commands m) k (latest row w)) db_call
        (λ _. act row buzz wants w) m ((db_call-HasSent (commands m)).at m refl) (λ m' h. inl h)
        (λ _ m' h. act-IsSafe (commands m) m' wants external h))
