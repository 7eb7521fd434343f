-- ===== src/Actions/Lockdown.antt =====
-- The lockdown in lock_actions.py: what it refuses, and what it leaves alone.
use hassio_access_control.Prelude.{
  ℕ, String, ◌≡◌, refl, ◌∙◌, Bool, true, false, not, ◌&&◌, ◌||◌, Option, none, some, List, [], ◌∷◌,
  ◌++◌, keep, arith, if◌then◌else◌, Bool-cases, inl, inr,
}
use hassio_access_control.Relock.Manager.{
  Manager, Effect, alarm_disarm, log_access, return, emit, task_cancelled, start,
}
use hassio_access_control.Relock.Keeps.{
  Keeps, Keeps-return, Keeps-fail, Keeps-except, Keeps-bind, Keeps-if,
}
use hassio_access_control.Actions.{
  Action, denied, error, ActionResult, LockRow, Weather, is_dangerous, refuse, db_call,
  audit_result, nothing, settle, mark_unknown, on_cancelled, cancelled_before, lockdown_active,
  buzz_disabled,
}
use hassio_access_control.Actions.Keep.{is_command}
use hassio_access_control.Actions.Disarm.{auto_disarm}
use hassio_access_control.Actions.Yields.{
  Holds, Yields, Yields-return, Yields-if, Yields-then, Yields-bind, Keeps-then,
  on_cancelled-Yields,
}
use hassio_access_control.Actions.Execute.{
  under_barrier, is_granted, opens, conclude, audited, is_buzz, act, missing, on_row,
  execute_lock_action,
}

-- a command to a lock, or the disarming of a panel
abbrev pub reaches_out : Effect → Bool
reaches_out (alarm_disarm k) = true
reaches_out e = is_command e

-- since `m0`, no lock and no panel has been reached, and the timers are as they were
pub record IsInert (m0 m : Manager) : Type 0 where
  pub quiet : keep reaches_out m.effects ≡ keep reaches_out m0.effects
  pub rows : m.rows ≡ m0.rows
  pub tasks : m.tasks ≡ m0.tasks
  pub paused : m.paused ≡ m0.paused

keep_snoc :
    (es : List Effect) (e : Effect)
    → reaches_out e ≡ false
    → keep reaches_out (es ++ e ∷ []) ≡ keep reaches_out es
keep_snoc [] e h = ground arith
keep_snoc (d ∷ es) e h = ground (arith, keep_snoc es e h)

module _ (m0 : Manager) where
  logged-IsInert : (t : String) → Keeps (IsInert m0) (emit (log_access t))
  logged-IsInert t = record {
    at = λ m h. record {
      quiet = keep_snoc m.effects (log_access t) refl ∙ h.quiet;
      rows = h.rows;
      tasks = h.tasks;
      paused = h.paused;
    };
  }

  db_call-IsInert : Keeps (IsInert m0) db_call
  db_call-IsInert = record {
    at = λ m h. record {
      quiet = ground (arith, h.quiet);
      rows = ground (arith, h.rows);
      tasks = ground (arith, h.tasks);
      paused = ground (arith, h.paused);
    };
  }

  audit_result-IsInert : (r : ActionResult) → Keeps (IsInert m0) (audit_result r)
  unfolding audit_result
  audit_result-IsInert r = Keeps-bind _ _ db_call-IsInert (λ _. logged-IsInert _)

  audited-IsInert : (r : ActionResult) → Keeps (IsInert m0) (audited r)
  audited-IsInert r = Keeps-bind _ _ (audit_result-IsInert r) (λ _. Keeps-return r)

  cancelled-IsInert :
      (row : LockRow) (action : Action) → Keeps (IsInert m0) (on_cancelled row action false nothing)
  unfolding on_cancelled mark_unknown settle
  cancelled-IsInert row action = Keeps-bind _ _ (Keeps-return tt) (λ _.
      Keeps-bind _ _ (Keeps-except _ _ (Keeps-return tt) (Keeps-return tt)) (λ _.
        Keeps-bind _ _
          (Keeps-except _ _ (audit_result-IsInert (refuse row action error cancelled_before))
            (Keeps-return tt))
          (λ _. Keeps-fail task_cancelled)))

  module _ (row : LockRow) (action : Action) (wants : Bool) (w : Weather) where
    conclude-IsInert :
        (r : ActionResult)
        → is_granted r.outcome ≡ false
        → Keeps (IsInert m0) (conclude action wants w r)
    unfolding conclude
    conclude-IsInert r h =
        Keeps-bind _ _ (audit_result-IsInert r)
          (λ _. Keeps-bind _ _ (undisarmed wants) (λ _. Keeps-return r))
      where
        undisarmed :
            (b : Bool)
            → Keeps
                (IsInert m0)
                (if b && is_granted r.outcome && opens action then auto_disarm w else return tt)
        undisarmed b = rw h (skipped b)
          where
            skipped :
                (c : Bool)
                → Keeps
                    (IsInert m0)
                    (if c && false && opens action then auto_disarm w else return tt)
            skipped true = Keeps-return tt
            skipped false = Keeps-return tt

    refusal :
        (r : ActionResult)
        → is_granted r.outcome ≡ false
        → Yields (λ a. is_granted a.outcome ≡ false) (audited r)
    refusal r q = Yields-bind (audit_result r) _ (λ _. Yields-return r q)

    conclude-refuses :
        (r : ActionResult)
        → is_granted r.outcome ≡ false
        → Yields (λ a. is_granted a.outcome ≡ false) (conclude action wants w r)
    unfolding conclude
    conclude-refuses r q = Yields-bind (audit_result r) _ (λ _.
        Yields-bind
          (if wants && is_granted r.outcome && opens action then auto_disarm w else return tt) _
          (λ _. Yields-return r q))

    module _ (dangerous : is_dangerous action ≡ true) where
      stopped-IsInert : w.lockdown ≡ true → Keeps (IsInert m0) (under_barrier row action w)
      unfolding under_barrier
      stopped-IsInert h =
          rw (dangerous, h)
            (Keeps-if w.cancelled_waiting _ _ (cancelled-IsInert row action)
              (Keeps-return (refuse row action denied lockdown_active)))

      stopped-refuses :
          w.lockdown ≡ true
          → Yields (λ r. is_granted r.outcome ≡ false) (under_barrier row action w)
      unfolding under_barrier
      stopped-refuses h =
          rw (dangerous, h)
            (Yields-if w.cancelled_waiting _ _ (on_cancelled-Yields _ row action false nothing)
              (Yields-return (refuse row action denied lockdown_active) refl))

      act-IsInert :
          w.lockdown_before || w.lockdown ≡ true → Keeps (IsInert m0) (act row action wants w)
      unfolding act
      act-IsInert h = elim (Bool-cases w.lockdown_before) [
        | inl b ↦ rw (dangerous, b) (audited-IsInert (refuse row action denied lockdown_active))
        | inr b ↦
            Keeps-if (is_dangerous action && w.lockdown_before) _ _
              (audited-IsInert (refuse row action denied lockdown_active))
              (Keeps-if (is_buzz action && not row.buzz_enabled) _ _
                (audited-IsInert (refuse row action denied buzz_disabled))
                (Keeps-then (λ r. is_granted r.outcome ≡ false) _ _
                  (stopped-IsInert (ground (arith, b, h))) (stopped-refuses (ground (arith, b, h)))
                  conclude-IsInert))
      ]

      act-refuses :
          w.lockdown_before || w.lockdown ≡ true
          → Yields (λ r. is_granted r.outcome ≡ false) (act row action wants w)
      unfolding act
      act-refuses h = elim (Bool-cases w.lockdown_before) [
        | inl b ↦ rw (dangerous, b) (refusal (refuse row action denied lockdown_active) refl)
        | inr b ↦
            Yields-if (is_dangerous action && w.lockdown_before) _ _
              (refusal (refuse row action denied lockdown_active) refl)
              (Yields-if (is_buzz action && not row.buzz_enabled) _ _
                (refusal (refuse row action denied buzz_disabled) refl)
                (Yields-then (λ r. is_granted r.outcome ≡ false) _ _
                  (stopped-refuses (ground (arith, b, h))) conclude-refuses))
      ]

module _ (action : Action) (wants : Bool) (w : Weather) (id : ℕ)
    (dangerous : is_dangerous action ≡ true)
    (stopped : w.lockdown_before || w.lockdown ≡ true) where
  on_row-IsInert :
      (m0 : Manager) (o : Option LockRow) → Keeps (IsInert m0) (on_row id action wants w o)
  unfolding on_row
  on_row-IsInert m0 none = Keeps-return (missing id action)
  on_row-IsInert m0 (some row) = act-IsInert m0 row action wants w dangerous stopped

  on_row-refuses :
      (o : Option LockRow) → Yields (λ r. is_granted r.outcome ≡ false) (on_row id action wants w o)
  unfolding on_row
  on_row-refuses none = Yields-return (missing id action) refl
  on_row-refuses (some row) = act-refuses (start []) row action wants w dangerous stopped

  -- An unlock, a timed unlock or a restored schedule that meets the lockdown, at the first test or
  -- under the command barrier: `execute_lock_action` grants nothing, sends no command to a lock,
  -- disarms no panel, and leaves the relock rows, the timers and the paused entities as they were,
  -- whether the lock exists, whatever its kind and whichever calls of the database fail.
  pub execute_lock_action-IsInert :
      (get_lock : ℕ → Option LockRow) (m : Manager)
      → let (r, m') = execute_lock_action get_lock id action wants w m in
        Holds (λ a. is_granted a.outcome ≡ false) r × IsInert m m'
  unfolding execute_lock_action
  execute_lock_action-IsInert get_lock m = (
    (Yields-bind db_call (λ _. on_row id action wants w (get_lock id))
          (λ _. on_row-refuses (get_lock id))).at
        m,
    (Keeps-bind db_call _ (db_call-IsInert m) (λ _. on_row-IsInert m (get_lock id))).at m
        (record { quiet = refl; rows = refl; tasks = refl; paused = refl }),
  )
