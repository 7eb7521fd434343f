-- ===== src/Auth/Alarm/Safety.antt =====
-- The alarm state fails safe, and the gate lets no blocked group through.
use mathlib.Core.Path.{subst}
use hassio_access_control.Prelude.{
  ℕ, ◌≤◌, String, ◌≡◌, ◌≢◌, refl, Bool, true, false, Option, none, some, List, [], ◌∷◌, All, Some,
  arith, Option-cases, Bool-cases, inl, inr, ◌⊎◌, eq_iff,
}
use hassio_access_control.Auth.Alarm.{
  AlarmState, AlarmState-discrete, disarmed, unknown, is_disarmed, known_state, Cache, Panels,
  db_error, read, known_states, agree, combine, get_alarm_state, Group, blocks, disarms,
}

-- the cache never holds the permissive state
pub record IsRestrictive (cache : Cache) : Type 0 where
  pub not_disarmed : cache.value ≢ some disarmed

-- Reading the alarm state never puts `disarmed` into the cache.
pub get_alarm_state-IsRestrictive :
    (cache : Cache) (now : ℕ) (has_client : Bool) (panels : Panels)
    → IsRestrictive cache
    → IsRestrictive (get_alarm_state cache now has_client panels).1
unfolding get_alarm_state
get_alarm_state-IsRestrictive cache now has_client panels h = ground arith

-- every panel answered exactly "disarmed"
abbrev pub AllDisarmed : Panels → Type 0
AllDisarmed db_error = ⊥
AllDisarmed (read reads) = All (λ r. r ≡ some "disarmed") reads

known_state-disarmed : (r : Option String) → known_state r ≡ some disarmed → r ≡ some "disarmed"
unfolding known_state
known_state-disarmed none h = cc
known_state-disarmed (some s) h = ground (arith, eq_iff s "disarmed")

combine-cons :
    (s : AlarmState) (states : List AlarmState)
    → combine (s ∷ states) ≡ disarmed
    → (s ≡ disarmed) × (combine states ≡ disarmed)
unfolding combine
combine-cons s states h = ground arith

known_states-cons :
    (r : Option String) (reads : List (Option String)) (states : List AlarmState)
    → known_states (r ∷ reads) ≡ some states
    → (s : AlarmState) × (rest : List AlarmState) × (known_state r ≡ some s)
      × (known_states reads ≡ some rest)
      × (states ≡ s ∷ rest)
unfolding known_states
known_states-cons r reads states h = go (known_state r) (known_states reads) refl refl h
  where
    go :
        (a : Option AlarmState) (b : Option (List AlarmState))
        → known_state r ≡ a
        → known_states reads ≡ b
        → (elim a as (λ x. Option (List AlarmState)) [
          | none ↦ none
          | some s ↦ elim b as (λ x. Option (List AlarmState)) [
            | none ↦ none
            | some rest ↦ some (s ∷ rest)
          ]
        ])
          ≡ some states
        → (s : AlarmState) × (rest : List AlarmState) × (known_state r ≡ some s)
          × (known_states reads ≡ some rest)
          × (states ≡ s ∷ rest)
    go none b p q e = cc
    go (some s) none p q e = cc
    go (some s) (some rest) p q e = (s, rest, p, q, cc)

combine-disarmed :
    (reads : List (Option String)) (states : List AlarmState)
    → known_states reads ≡ some states
    → combine states ≡ disarmed
    → All (λ r. r ≡ some "disarmed") reads
combine-disarmed [] states h d = tt
combine-disarmed (r ∷ reads) states h d =
    let (s, rest, hr, hs, e) = known_states-cons r reads states h in
    let c = combine-cons s rest (rw e at d) in
    (known_state-disarmed r (rw c.0 at hr), combine-disarmed reads rest hs c.1)

-- With a restrictive cache the state is `disarmed` only if the panels were read in this very call
-- and every one of them answered "disarmed".
pub disarmed-AllDisarmed :
    (cache : Cache) (now : ℕ) (has_client : Bool) (panels : Panels)
    → IsRestrictive cache
    → (get_alarm_state cache now has_client panels).0 ≡ disarmed
    → AllDisarmed panels
unfolding get_alarm_state
disarmed-AllDisarmed cache now has_client db_error v h = absurd (ground arith)
disarmed-AllDisarmed cache now has_client (read []) v h = tt
disarmed-AllDisarmed cache now has_client (read (r ∷ reads)) v h =
    elim (Option-cases (known_states (r ∷ reads))) [
      | inl e ↦ absurd (ground arith)
      | inr (states, e) ↦ combine-disarmed (r ∷ reads) states e (ground arith)
    ]

-- every state is disarmed or `s`
abbrev pub OnlyArmed : AlarmState → List AlarmState → Type 0
OnlyArmed s states = All (λ t. (t ≡ disarmed) ⊎ (t ≡ s)) states

agree-OnlyArmed :
    (s : AlarmState) (states : List AlarmState) → agree s states ≡ true → OnlyArmed s states
unfolding agree
agree-OnlyArmed s [] h = tt
agree-OnlyArmed s (t ∷ states) h =
    (ground (arith, AlarmState-discrete s t), agree-OnlyArmed s states (ground arith))

-- The panels' states combine to an armed state other than `unknown` only if it is the state of some
-- panel and the only armed state among them: a mixture of two armed states is never taken for one
-- of them.
pub combine-OnlyArmed :
    (s : AlarmState) (states : List AlarmState)
    → s ≢ disarmed
    → s ≢ unknown
    → combine states ≡ s
    → OnlyArmed s states × Some (λ t. t ≡ s) states
unfolding combine
combine-OnlyArmed s [] hd hu h = absurd (ground (arith, hd, h))
combine-OnlyArmed s (t ∷ states) hd hu h = elim (Bool-cases (is_disarmed t)) [
  | inl off ↦
      let rest = combine-OnlyArmed s states hd hu (ground arith) in
      ((inl (ground arith), rest.0), inr rest.1)
  | inr armed ↦
      let same : (agree t states ≡ true) × (t ≡ s) = ground arith in
      (
        (inr same.1, subst (λ x. OnlyArmed x states) same.1 (agree-OnlyArmed t states same.0)),
        inl same.1,
      )
]

-- any failure to read is restrictive
abbrev pub IsFailure : Bool → Panels → Type 0
IsFailure has_client db_error = Unit
IsFailure has_client (read []) = ⊥
IsFailure has_client (read (r ∷ reads)) = (has_client ≡ false) ⊎ (known_states (r ∷ reads) ≡ none)

-- Without a valid cached state every failure gives `unknown` and leaves the cache as it was: the
-- database raises, panels are configured and there is no client, or a panel's state is not known.
pub failure-unknown :
    (cache : Cache) (now : ℕ) (has_client : Bool) (panels : Panels)
    → cache.expires ≤ now
    → IsFailure has_client panels
    → get_alarm_state cache now has_client panels ≡ (unknown, cache)
unfolding get_alarm_state
failure-unknown cache now has_client db_error e f = ground arith
failure-unknown cache now has_client (read []) e f = absurd f
failure-unknown cache now has_client (read (r ∷ reads)) e f = ground arith

-- A group that blocks the state and does not disarm it denies, if no active group disarms it; and
-- a group that blocks the state never counts as disarming it.
pub blocks-not-disarms :
    (state : AlarmState) (g : Group) → blocks state g ≡ true → disarms state g ≡ false
unfolding blocks disarms
blocks-not-disarms state g h = ground arith
