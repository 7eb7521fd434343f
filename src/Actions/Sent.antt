-- ===== src/Actions/Sent.antt =====
-- A whole timed unlock ("buzz") of an external lock, lock_actions.py: either nothing goes out, or
-- the door's relock is durable at the end.
use hassio_access_control.Prelude.{
  ℕ, ◌+◌, max, String, ◌≡◌, refl, ap, ◌∙◌, Bool, true, false, not, ◌&&◌, none, some, List, [], ◌∷◌,
  ◌++◌, keep, arith, inl, inr, if◌then◌else◌, ◌⊎◌,
}
use hassio_access_control.Relock.Manager.{
  Manager, Error, Result, ok, raise, Effect, mark_momentary, emit, return,
}
use hassio_access_control.Relock.Timers.{RelockIntent, schedule}
use hassio_access_control.Relock.Keeps.{Keeps, Keeps-return, Keeps-if, Result-cases}
use hassio_access_control.Relock.Undo.{due}
use hassio_access_control.Relock.Interleaving.{schedule-IsIntent}
use hassio_access_control.Relock.Due.{IsDueBy, emit-IsDueBy, schedule-due, schedule-effects}
use hassio_access_control.Actions.{
  buzz, db_call, error, LockRow, Weather, present, nothing, intent, settle, on_cancelled,
  on_exception, refuse, no_relock_manager,
}
use hassio_access_control.Actions.External.{
  command, prepare, drive, external_action, on_target, mark_timed,
}
use hassio_access_control.Actions.Keep.{is_command, on_cancelled-Keeps, on_exception-Keeps}
use hassio_access_control.Actions.Timed.{calls, command-IsDueBy}

pub settle_nothing : (P : Manager → Type 0) → Keeps P (settle nothing)
unfolding settle
settle_nothing P = Keeps-return tt

mark_timed-IsDueBy :
    (row : LockRow) (k : String) (w : Weather) (x : ℕ) → Keeps (IsDueBy k x) (mark_timed row k w)
mark_timed-IsDueBy row k w x =
    Keeps-if (row.sync_hub_state && w.has_hub_sync) _ _ (emit-IsDueBy k x (mark_momentary k))
      (Keeps-return tt)

-- the commands that have gone out to locks
abbrev pub commands : Manager → List Effect
commands m = keep is_command m.effects

-- nothing more has gone out
abbrev pub HasSent : List Effect → Manager → Type 0
HasSent sent m = commands m ≡ sent

keep-snoc :
    (es : List Effect) (e : Effect)
    → is_command e ≡ false
    → keep is_command (es ++ e ∷ []) ≡ keep is_command es
keep-snoc [] e h = ground arith
keep-snoc (d ∷ es) e h = ground (arith, keep-snoc es e h)

module _ (sent : List Effect) where
  pub emit-HasSent : (e : Effect) → is_command e ≡ false → Keeps (HasSent sent) (emit e)
  emit-HasSent e h = record { at = λ m b. keep-snoc m.effects e h ∙ b }

  pub db_call-HasSent : Keeps (HasSent sent) db_call
  db_call-HasSent = record { at = λ m b. ground arith }

-- nothing has gone out since, or the relock is durable
abbrev pub IsSafe : List Effect → String → ℕ → Manager → Type 0
IsSafe sent k x m = HasSent sent m ⊎ IsDueBy k x m

module _ (sent : List Effect) (k : String) (x : ℕ) where
  pub emit-IsSafe : (e : Effect) → is_command e ≡ false → Keeps (IsSafe sent k x) (emit e)
  emit-IsSafe e h = record {
    at = λ m b. elim b [
      | inl s ↦ inl ((emit-HasSent sent e h).at m s)
      | inr d ↦ inr ((emit-IsDueBy k x e).at m d)
    ];
  }

  pub db_call-IsSafe : Keeps (IsSafe sent k x) db_call
  db_call-IsSafe = record {
    at = λ m b. elim b [
      | inl s ↦ inl ((db_call-HasSent sent).at m s)
      | inr d ↦ inr ((calls k x).at m d)
    ];
  }

-- the intent's call of the manager
abbrev scheduled : LockRow → String → Weather → Manager → Result RelockIntent × Manager
scheduled row k w m = schedule k row.relock_duration (some row.id) row.name "buzz" w.now m

drive-raised :
    (row : LockRow) (k : String) (w : Weather) (m : Manager) (e : Error)
    → (scheduled row k w m).0 ≡ raise e
    → drive row buzz k w m
      ≡ on_exception row buzz w.cancelled_late false nothing (scheduled row k w m).1
unfolding drive prepare
drive-raised row k w m e h = ground arith

drive-scheduled :
    (row : LockRow) (k : String) (w : Weather) (m : Manager) (i : RelockIntent)
    → (scheduled row k w m).0 ≡ ok i
    → drive row buzz k w m
      ≡ command row buzz k w (intent i) (mark_timed row k w (scheduled row k w m).1).1
unfolding drive prepare
drive-scheduled row k w m i h = ground arith

-- the duration after the later of the two readings of the clock
abbrev pub latest : LockRow → Weather → ℕ
latest row w = max (w.now.wall + row.relock_duration) (w.later.wall + row.relock_duration)

module _ (row : LockRow) (k : String) (w : Weather) (entity : present row.entity_id ≡ some k)
    (apart : (m : Manager) → due k (w.meanwhile m) ≡ due k m) where
  drive-IsSafe : (m : Manager) → IsSafe (commands m) k (latest row w) (drive row buzz k w m).1
  drive-IsSafe m =
      let m' = (scheduled row k w m).1 in
      let quiet : HasSent (commands m) m' =
        ap (keep is_command)
          (schedule-effects k row.relock_duration (some row.id) row.name "buzz" w.now m) in
      elim (Result-cases (scheduled row k w m).0) [
        | inr e ↦ rw (drive-raised row k w m e.0 e.1) (
            inl (
              (on_exception-Keeps (HasSent (commands m)) (emit-HasSent (commands m))
                  (db_call-HasSent (commands m)) nothing (settle_nothing (HasSent (commands m))) row
                  buzz w.cancelled_late false).at
                m' quiet))
        | inl i ↦
            let s =
              schedule-due k row.relock_duration (some row.id) row.name "buzz" w.now m i.0 i.1 in
            let wf =
              schedule-IsIntent k row.relock_duration (some row.id) row.name "buzz" w.now m i.0
                i.1 in
            let d : IsDueBy k (latest row w) m' = record {
              deadline = (i.0).deadline;
              durable = s.2;
              in_time = omega (arith, s.1);
            } in
            rw (drive-scheduled row k w m i.0 i.1) (
              inr (
                (command-IsDueBy row k w i.0 (latest row w) s.0 wf (omega (arith, s.1))
                    (omega arith) apart).at
                  (mark_timed row k w m').1 ((mark_timed-IsDueBy row k w (latest row w)).at m' d)))
      ]

  managed-IsSafe :
      (m : Manager) (b : Bool)
      → IsSafe
          (commands m)
          k
          (latest row w)
          ((if b then return (refuse row buzz error no_relock_manager) else drive row buzz k w) m).1
  managed-IsSafe m true = inl refl
  managed-IsSafe m false = drive-IsSafe m

  on_target-IsSafe :
      (m : Manager) (b : Bool)
      → IsSafe (commands m) k (latest row w) (on_target row buzz w (if b then some k else none) m).1
  unfolding on_target
  on_target-IsSafe m true = managed-IsSafe m (not w.has_relock_manager)
  on_target-IsSafe m false = inl refl

  pub external-IsSafe :
      (m : Manager) → IsSafe (commands m) k (latest row w) (external_action row buzz w m).1
  unfolding external_action
  external-IsSafe m = rw entity (on_target-IsSafe m w.has_client)

  pub cancelled-IsSafe :
      (m : Manager) → IsSafe (commands m) k (latest row w) (on_cancelled row buzz false nothing m).1
  cancelled-IsSafe m = inl (
      (on_cancelled-Keeps (HasSent (commands m)) (emit-HasSent (commands m))
          (db_call-HasSent (commands m)) nothing (settle_nothing (HasSent (commands m))) row buzz
          false).at
        m refl)
