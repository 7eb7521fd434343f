-- ===== src/Actions/Relayed.antt =====
-- A granted action on an Access lock, lock_actions.py, was confirmed by the relay.
use hassio_access_control.Prelude.{
  inl, inr, String, ◌≡◌, refl, ◌∙◌, ap, true, not, Option, none, some, arith, eq_iff,
}
use hassio_access_control.Relock.Manager.{Method, return, emit, modify, command_access}
use hassio_access_control.Actions.{
  Action, lock, unlock, buzz, restore_schedule, error, Reason, ActionResult, LockRow, Weather,
  AccessAnswer, returned, raised_unconfirmed, raised_unknown, raised_other, raised_cancelled,
  nothing, refuse, succeed, accepted_unconfirmed, no_access_client, unconfirmed, outcome_unknown,
  ConfirmedState, present,
}
use hassio_access_control.Actions.Yields.{
  Yields, Yields-return, Yields-if, Yields-bind, on_cancelled-Yields,
}
use hassio_access_control.Actions.Native.{
  needed, proved, not_proved, publish, Relay, opened, shut, relay_of, judge, after_answer, invoke,
  native_action,
}
use hassio_access_control.Actions.Evidence.{IsRelayed, Proves, refused-Proves, on_exception-Proves}

module _ (row : LockRow) (action : Action) (w : Weather) where
  proved-Proves :
      (p : Relay × ConfirmedState)
      → IsRelayed action w
      → Yields (Proves (IsRelayed action w)) (proved row action p)
  unfolding proved
  proved-Proves (relay, s) e =
      Yields-bind (publish (present row.device_id) relay) _
        (λ _. Yields-return (succeed row action s) (λ g. e))

  not_proved-Proves : (r : Reason) → Yields (Proves (IsRelayed action w)) (not_proved row action r)
  unfolding not_proved
  not_proved-Proves r =
      Yields-bind {A = Unit {0}} _ _
        (λ _. refused-Proves (IsRelayed action w) (refuse row action accepted_unconfirmed r) refl)

  opened-text : (o : Option String) → relay_of o ≡ some opened → o ≡ some "unlocked"
  unfolding relay_of
  opened-text none h = ground (arith, h)
  opened-text (some s) h = ground (arith, h, eq_iff s "unlocked")

  shut-text : (o : Option String) → relay_of o ≡ some shut → o ≡ some "locked"
  unfolding relay_of
  shut-text none h = ground (arith, h)
  shut-text (some s) h = ground (arith, h, eq_iff s "unlocked", eq_iff s "locked")

  judge_lem :
      (o : Option String) (a : Action) (r : Option Relay) (p : Relay × ConfirmedState)
      → w.access_answer ≡ returned o
      → relay_of o ≡ r
      → judge w a r ≡ some p
      → IsRelayed a w
  unfolding judge
  judge_lem o a none p ha hr hj = ground (arith, hj)
  judge_lem o lock (some opened) p ha hr hj = ground (arith, hj)
  judge_lem o lock (some shut) p ha hr hj = (ground (arith, hj), ha ∙ ap returned (shut-text o hr))
  judge_lem o unlock (some opened) p ha hr hj =
      (ground (arith, hj), ha ∙ ap returned (opened-text o hr))
  judge_lem o unlock (some shut) p ha hr hj = ground (arith, hj)
  judge_lem o buzz (some opened) p ha hr hj =
      (ground (arith, hj), ha ∙ ap returned (opened-text o hr))
  judge_lem o buzz (some shut) p ha hr hj = ground (arith, hj)
  judge_lem o restore_schedule (some opened) p ha hr hj =
      (ground (arith, hj), inr (ha ∙ ap returned (opened-text o hr)))
  judge_lem o restore_schedule (some shut) p ha hr hj =
      (ground (arith, hj), inl (ha ∙ ap returned (shut-text o hr)))

  judged-Proves :
      (o : Option String) (q : Option (Relay × ConfirmedState))
      → w.access_answer ≡ returned o
      → judge w action (relay_of o) ≡ q
      → Yields (Proves (IsRelayed action w)) (elim q as (λ x. Method ActionResult) [
        | none ↦ not_proved row action unconfirmed
        | some p ↦ proved row action p
      ])
  judged-Proves o none ha hj = not_proved-Proves unconfirmed
  judged-Proves o (some p) ha hj = proved-Proves p (judge_lem o action (relay_of o) p ha refl hj)

  after_answer-Proves :
      (a : AccessAnswer)
      → w.access_answer ≡ a
      → Yields (Proves (IsRelayed action w)) (after_answer row action w a)
  unfolding after_answer
  after_answer-Proves (returned o) h = judged-Proves o (judge w action (relay_of o)) h refl
  after_answer-Proves raised_unconfirmed h = not_proved-Proves unconfirmed
  after_answer-Proves raised_unknown h = not_proved-Proves outcome_unknown
  after_answer-Proves raised_other h =
      on_exception-Proves (IsRelayed action w) row action w.cancelled_late true nothing
  after_answer-Proves raised_cancelled h =
      on_cancelled-Yields (Proves (IsRelayed action w)) row action true nothing

  invoke-Proves : Yields (Proves (IsRelayed action w)) (invoke row action w)
  unfolding invoke
  invoke-Proves =
      Yields-bind (emit (command_access row.id)) _
        (λ _. Yields-bind (modify w.meanwhile) _ (λ _. after_answer-Proves w.access_answer refl))

  configured-Proves :
      (o : Option String) (r : Reason)
      → Yields (Proves (IsRelayed action w)) (elim o as (λ x. Method ActionResult) [
        | none ↦ return (refuse row action error r)
        | some id ↦ invoke row action w
      ])
  configured-Proves none r = refused-Proves (IsRelayed action w) (refuse row action error r) refl
  configured-Proves (some id) r = invoke-Proves

  pub native-Proves : Yields (Proves (IsRelayed action w)) (native_action row action w)
  unfolding native_action
  native-Proves =
      Yields-if (not w.has_access_client) _ _
        (refused-Proves (IsRelayed action w) (refuse row action error no_access_client) refl)
        (configured-Proves (needed row action).0 (needed row action).1)
