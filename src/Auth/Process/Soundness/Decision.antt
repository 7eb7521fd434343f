-- ===== src/Auth/Process/Soundness/Decision.antt =====
-- What an event needs to be granted, and before any command goes out.
use hassio_access_control.Prelude.{
  ℕ, String, ◌≡◌, ◌≢◌, Bool, true, false, none, some, List, [], ◌∷◌, map, any, keep, arith,
  if◌then◌else◌, Bool-cases, inl, inr,
}
use hassio_access_control.Auth.Alarm.{Group, is_active, may_disarm, is_blocked}
use hassio_access_control.Auth.Database.{Answer-cases, Answer, value, User, Lock, Database}
use hassio_access_control.Auth.Locks.{get_locks_for_location}
use hassio_access_control.Auth.Round.{
  Effect, Decision, Reply, decided, propagated, Access, Progress, go_on, stop, access, handle_locks,
  conclude,
}
use hassio_access_control.Auth.Process.{
  alarm_state, start_loop, Event, unlock_locks, group_lock_ids, group_granted, is_active_user,
  process_event,
}
use hassio_access_control.Auth.Process.Soundness.{opens, commands, Granted}
use hassio_access_control.Auth.Process.Soundness.Rounds.{handle_locks-Granted}

-- the gates before the locks are tried
pub record IsPermitted (db : Database) (ev : Event) (user : User) (groups : List Group)
    (locks : List Lock) : Type 0 where
  pub known : db.get_user_by_ulp_id ev.ulp_id ≡ value (some user)
  pub active : is_active_user user ≡ true
  pub no_lockdown : ev.lockdown ≡ false
  pub member : db.get_user_groups user.id ≡ value groups
  pub not_blocked :
      is_blocked (alarm_state ev) groups (keep (is_active ev.group_now) groups) ≡ false
  pub found : get_locks_for_location db ev.cameras ev.location_id ≡ value locks

abbrev pub grants : Reply → Bool
grants (decided d) = d.is_granted
grants propagated = false

-- the event stopped at a gate: nothing was commanded and nothing granted
pub record Stopped (r : Reply × List Effect) : Type 0 where
  pub silent : commands r.1 ≡ []
  pub refused : grants r.0 ≡ false

pub data Gated (db : Database) (ev : Event) : Type 0 where
  stopped : Stopped (process_event db ev) → Gated db ev
  passed :
      (user : User) (groups : List Group) (locks : List Lock)
      → IsPermitted db ev user groups locks
      → locks ≢ []
      → process_event db ev
        ≡ unlock_locks db ev user
            (keep (is_active ev.group_now) groups)
            (may_disarm (alarm_state ev) (keep (is_active ev.group_now) groups))
            locks
      → Gated db ev

module _ (db : Database) (ev : Event) (user : User)
    (u : db.get_user_by_ulp_id ev.ulp_id ≡ value (some user)) where
  module _ (a : is_active_user user ≡ true) (d : ev.lockdown ≡ false) (groups : List Group)
      (g : db.get_user_groups user.id ≡ value groups) where
    locks-Gated :
        is_blocked (alarm_state ev) groups (keep (is_active ev.group_now) groups) ≡ false
        → Gated db ev
    unfolding process_event
    locks-Gated b = elim (Answer-cases (get_locks_for_location db ev.cameras ev.location_id)) [
      | inl l ↦ stopped (record { silent = ground arith; refused = ground arith })
      | inr ([], l) ↦ stopped (record { silent = ground arith; refused = ground arith })
      | inr (lock ∷ locks, l) ↦
          passed user groups (lock ∷ locks)
            (record {
              known = u;
              active = a;
              no_lockdown = d;
              member = g;
              not_blocked = b;
              found = l;
            })
            (λ e. ground (arith, e)) (ground arith)
    ]

    alarm-Gated : Gated db ev
    unfolding process_event
    alarm-Gated =
        elim (Bool-cases
          (is_blocked (alarm_state ev) groups (keep (is_active ev.group_now) groups))) [
            | inl b ↦ stopped (record { silent = ground arith; refused = ground arith })
            | inr b ↦ locks-Gated b
          ]

  user-Gated : Gated db ev
  unfolding process_event
  user-Gated = elim (Bool-cases (is_active_user user)) [
    | inr a ↦ stopped (record { silent = ground arith; refused = ground arith })
    | inl a ↦ elim (Bool-cases ev.lockdown) [
      | inl d ↦ stopped (record { silent = ground arith; refused = ground arith })
      | inr d ↦ elim (Answer-cases (db.get_user_groups user.id)) [
        | inl g ↦ stopped (record { silent = ground arith; refused = ground arith })
        | inr (groups, g) ↦ alarm-Gated a d groups g
      ]
    ]
  ]

pub gated : (db : Database) (ev : Event) → Gated db ev
unfolding process_event
gated db ev = elim (Answer-cases (db.get_user_by_ulp_id ev.ulp_id)) [
  | inl u ↦ stopped (record { silent = ground arith; refused = ground arith })
  | inr (none, u) ↦ stopped (record { silent = ground arith; refused = ground arith })
  | inr (some user, u) ↦ user-Gated db ev user u
]

abbrev pub Permission : Database → Event → Type 0
Permission db ev =
    (user : User) × (groups : List Group) × (locks : List Lock) × IsPermitted db ev user groups
      locks
    × (locks ≢ [])

-- An event commands a lock only if its user is known and active, the lockdown was down when it
-- came in, the alarm blocks none of the user's groups or an active one disarms it, and at least one lock
-- was found at its location.
pub command-IsPermitted :
    (db : Database) (ev : Event) → commands (process_event db ev).1 ≢ [] → Permission db ev
command-IsPermitted db ev h = elim (gated db ev) [
  | stopped s ↦ absurd (h s.silent)
  | passed user groups locks p some_found e ↦ (user, groups, locks, p, some_found)
]

-- the ids of the locks of the active groups, which are not asked for if a group opens all locks
abbrev pub group_ids : Database → List Group → Answer (List ℕ)
group_ids db active = if any (λ g. g.all_locks) active then value [] else group_lock_ids db active

abbrev pub accesses_of : Database → Event → User → List Group → List ℕ → Lock → Access
accesses_of db ev user active ids =
    access db ev.rule_now user.id (group_granted (any (λ g. g.all_locks) active) ids)

conclude-Granted :
    (can_disarm : Bool) (name : String) (p : Progress) (names : List String) (some_granted : Bool)
    (d : Decision)
    → Granted p names some_granted
    → (conclude can_disarm name p).0 ≡ decided d
    → (d.is_granted ≡ some_granted) × (d.is_granted ≡ true → d.locks ≡ names)
unfolding conclude
conclude-Granted can_disarm name (go_on s) names some_granted d g h =
    (ground arith, λ t. ground arith)
conclude-Granted can_disarm name (stop effects) names some_granted d g h = cc

pub unlock_locks-concludes :
    (db : Database) (ev : Event) (user : User) (active : List Group) (can_disarm : Bool)
    (locks : List Lock) (ids : List ℕ)
    → group_ids db active ≡ value ids
    → unlock_locks db ev user active can_disarm locks
      ≡ conclude can_disarm user.name
          (handle_locks (accesses_of db ev user active ids) ev.attempts locks start_loop)
unfolding unlock_locks
unlock_locks-concludes db ev user active can_disarm locks ids i = ground arith

-- An event that passes the gates and whose query of the groups' locks returns, if it decides at
-- all, grants exactly if some lock of the location is authorized, found the lockdown down and
-- confirmed its unlock; and it then lists exactly the names of those locks, in order.
pub process_event-decides :
    (db : Database) (ev : Event) (user : User) (groups : List Group) (locks : List Lock)
    (ids : List ℕ) (d : Decision)
    → IsPermitted db ev user groups locks
    → group_ids db (keep (is_active ev.group_now) groups) ≡ value ids
    → (process_event db ev).0 ≡ decided d
    → let opened =
        opens (accesses_of db ev user (keep (is_active ev.group_now) groups) ids) ev.attempts in
      (d.is_granted ≡ (any opened locks))
      × (d.is_granted ≡ true → d.locks ≡ map (λ l. l.name) (keep opened locks))
unfolding process_event
process_event-decides db ev user groups [] ids d p i h = (ground arith, λ t. ground arith)
process_event-decides db ev user groups (lock ∷ locks) ids d p i h =
    let active = keep (is_active ev.group_now) groups in
    let accesses = accesses_of db ev user active ids in
    conclude-Granted (may_disarm (alarm_state ev) active) user.name
      (handle_locks accesses ev.attempts (lock ∷ locks) start_loop) _ _ d
      (handle_locks-Granted accesses ev.attempts (lock ∷ locks) start_loop)
      (ground (
        arith,
        unlock_locks-concludes db ev user active (may_disarm (alarm_state ev) active) (lock ∷ locks)
            ids i,
      ))

-- An event that is granted passed all gates, and what it lists is some lock's name.
pub grant-IsPermitted :
    (db : Database) (ev : Event) → grants (process_event db ev).0 ≡ true → Permission db ev
grant-IsPermitted db ev h = elim (gated db ev) [
  | stopped s ↦ absurd (ground (arith, s.refused))
  | passed user groups locks p some_found e ↦ (user, groups, locks, p, some_found)
]
