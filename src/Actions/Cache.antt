-- ===== src/Actions/Cache.antt =====
-- `publish_lock_state` of lock_actions.py: the cache of the observed states. A time stamp is a
-- number of ticks of the monotonic clock.
use hassio_access_control.Prelude.{
  ℕ, ◌≤◌, ◌<◌, String, ◌≡◌, refl, ◌∙◌, Bool, true, false, Option, none, some, List, [], ◌∷◌, ◌++◌,
  arith, ltb, eq_iff, str_eq, if◌then◌else◌, All, Bool-cases, Option-cases, inl, inr, ap, eq_refl,
}
use hassio_access_control.Prelude.Map.{Map, get, insert, get-insert}

-- `state.lock_states` and `state.lock_state_updated_at`
pub record Cache : Type 0 where
  pub lock_states : Map String
  pub updated_at : Map ℕ

pub record Observation : Type 0 where
  pub entity_id : String
  pub value : String
  pub observed_at : ℕ

-- `updated_at.get(entity_id, -1.0) > timestamp`
abbrev is_stale : Option ℕ → ℕ → Bool
is_stale none timestamp = false
is_stale (some t) timestamp = ltb timestamp t

-- with whether the observation was taken
unfoldable pub publish_lock_state : Observation → Cache → Bool × Cache
publish_lock_state o c =
    if is_stale (get o.entity_id c.updated_at) o.observed_at then (false, c) else (
      true,
      record {
        lock_states = insert o.entity_id o.value c.lock_states;
        updated_at = insert o.entity_id o.observed_at c.updated_at;
      },
    )

-- the observations in the order in which they arrive
unfoldable pub publish_all : List Observation → Cache → Cache
publish_all [] c = c
publish_all (o ∷ os) c = publish_all os (publish_lock_state o c).1

abbrev pub empty_cache : Cache
empty_cache = record { lock_states = []; updated_at = [] }

-- an entry of the cache that shows `o`
pub record Shows (o : Observation) (c : Cache) : Type 0 where
  pub value : get o.entity_id c.lock_states ≡ some o.value
  pub stamp : get o.entity_id c.updated_at ≡ some o.observed_at

-- the stamp of an entity is at most `t`
abbrev IsUpTo : String → ℕ → Cache → Type 0
IsUpTo k t c = (u : ℕ) → get k c.updated_at ≡ some u → u ≤ t

-- what arrived before `o` is no newer, and what arrives after it is older, for its entity
abbrev pub IsNoNewer : Observation → Observation → Type 0
IsNoNewer o p = p.entity_id ≡ o.entity_id → p.observed_at ≤ o.observed_at

abbrev pub IsOlder : Observation → Observation → Type 0
IsOlder o p = p.entity_id ≡ o.entity_id → p.observed_at < o.observed_at

-- whether `p` replaces the entry of `k`
abbrev replaces : Observation → String → Cache → Bool
replaces p k c =
    if is_stale (get p.entity_id c.updated_at) p.observed_at then false else str_eq p.entity_id k

stamp_lem :
    (k : String) (p : Observation) (c : Cache)
    → get k (publish_lock_state p c).1.updated_at
      ≡ (if replaces p k c then some p.observed_at else get k c.updated_at)
unfolding publish_lock_state
stamp_lem k p c = ground (arith, get-insert k p.entity_id p.observed_at c.updated_at)

value_lem :
    (k : String) (p : Observation) (c : Cache)
    → get k (publish_lock_state p c).1.lock_states
      ≡ (if replaces p k c then some p.value else get k c.lock_states)
unfolding publish_lock_state
value_lem k p c = ground (arith, get-insert k p.entity_id p.value c.lock_states)

publish-IsUpTo :
    (o p : Observation) (c : Cache)
    → IsNoNewer o p
    → IsUpTo o.entity_id o.observed_at c
    → IsUpTo o.entity_id o.observed_at (publish_lock_state p c).1
publish-IsUpTo o p c h up u e =
    ground (arith, eq_iff p.entity_id o.entity_id, stamp_lem o.entity_id p c, e, h, up u)

-- an older observation does not replace the entry of `o`
kept_lem :
    (o p : Observation) (c : Cache) → IsOlder o p → Shows o c → replaces p o.entity_id c ≡ false
kept_lem o p c h s = elim (Bool-cases (str_eq p.entity_id o.entity_id)) [
  | inl e ↦
      let same = (eq_iff p.entity_id o.entity_id).0 e in
      let stamp = ap (λ k. get k c.updated_at) same ∙ s.stamp in ground (arith, stamp, h same)
  | inr e ↦ ground (arith, e)
]

publish-Shows :
    (o p : Observation) (c : Cache) → IsOlder o p → Shows o c → Shows o (publish_lock_state p c).1
publish-Shows o p c h s = record {
  value = value_lem o.entity_id p c ∙ ground (arith, kept_lem o p c h s, s.value);
  stamp = stamp_lem o.entity_id p c ∙ ground (arith, kept_lem o p c h s, s.stamp);
}

-- an observation that no newer one precedes replaces the entry
replaces_lem :
    (o : Observation) (c : Cache)
    → IsUpTo o.entity_id o.observed_at c
    → replaces o o.entity_id c ≡ true
replaces_lem o c up = elim (Option-cases (get o.entity_id c.updated_at)) [
  | inl e ↦ ground (arith, e, eq_refl o.entity_id)
  | inr e ↦ ground (arith, e.1, up e.0 e.1, eq_refl o.entity_id)
]

taken_lem :
    (o : Observation) (c : Cache)
    → IsUpTo o.entity_id o.observed_at c
    → Shows o (publish_lock_state o c).1
taken_lem o c up = record {
  value = value_lem o.entity_id o c ∙ rw (replaces_lem o c up) refl;
  stamp = stamp_lem o.entity_id o c ∙ rw (replaces_lem o c up) refl;
}

after_lem :
    (o : Observation) (after : List Observation) (c : Cache)
    → All (IsOlder o) after
    → Shows o c
    → Shows o (publish_all after c)
unfolding publish_all
after_lem o [] c h s = s
after_lem o (p ∷ after) c h s =
    after_lem o after (publish_lock_state p c).1 h.1 (publish-Shows o p c h.0 s)

before_lem :
    (o : Observation) (before after : List Observation) (c : Cache)
    → All (IsNoNewer o) before
    → All (IsOlder o) after
    → IsUpTo o.entity_id o.observed_at c
    → Shows o (publish_all (before ++ o ∷ after) c)
unfolding publish_all
before_lem o [] after c hb ha up =
    after_lem o after (publish_lock_state o c).1 ha (taken_lem o c up)
before_lem o (p ∷ before) after c hb ha up =
    before_lem o before after (publish_lock_state p c).1 hb.1 ha (publish-IsUpTo o p c hb.0 up)

-- Observations of the locks arrive in any order, from an empty cache: when what arrives before `o`
-- for its entity is no newer, and what arrives after it is older, the cache shows the value and the
-- time stamp of `o` in the end. A late answer never overwrites a newer one.
pub publish_all-newest :
    (o : Observation) (before after : List Observation)
    → All (IsNoNewer o) before
    → All (IsOlder o) after
    → Shows o (publish_all (before ++ o ∷ after) empty_cache)
publish_all-newest o before after hb ha =
    before_lem o before after empty_cache hb ha (λ u e. ground (arith, e))
