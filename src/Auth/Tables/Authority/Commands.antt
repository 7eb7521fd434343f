-- ===== src/Auth/Tables/Authority/Commands.antt =====
-- Every command that an event sends has an authority in the tables of database.py.
use hassio_access_control.Prelude.{
  ℕ, String, ◌≡◌, refl, sym, ap, ◌⊎◌, inl, inr, Bool, true, false, some, List, [], ◌∷◌, keep, arith,
  if◌then◌else◌, Some, All, Some-imp, All-keep, All-map, All-imp,
}
use mathlib.Core.List.{append-nil}
use hassio_access_control.Auth.Alarm.{Group, is_active, may_disarm}
use hassio_access_control.Auth.Database.{Answer-cases, value, raised, User, Lock, Database}
use hassio_access_control.Auth.Round.{
  Attempt, Access, Progress, go_on, stop, conclude, handle_locks,
}
use hassio_access_control.Auth.Process.{
  Event, alarm_state, unlock_locks, process_event, start_loop, is_active_user,
}
use hassio_access_control.Auth.Process.Soundness.{
  commands-append, sends, ends, reached, commands, effects_of,
}
use hassio_access_control.Auth.Process.Soundness.Rounds.{handle_locks-commands}
use hassio_access_control.Auth.Process.Soundness.Decision.{
  IsPermitted, gated, stopped, passed, group_ids, accesses_of, unlock_locks-concludes,
}
use hassio_access_control.Auth.Tables.{LockEntry, GroupRow, Tables, Serves}
use hassio_access_control.Auth.Tables.Authority.{InGroup, HasRule, IsAtDoor, IsAuthorized}
use hassio_access_control.Auth.Tables.Authority.Rows.{answered_lem, user_lem, IsStored}
use hassio_access_control.Auth.Tables.Authority.Door.{door_lem}
use hassio_access_control.Auth.Tables.Authority.Grounds.{authority_lem}

-- what comes after the loop commands nothing
conclude-commands :
    (can_disarm : Bool) (name : String) (p : Progress)
    → commands (conclude can_disarm name p).1 ≡ commands (effects_of p)
unfolding conclude
conclude-commands can_disarm name (go_on s) = grind (arith, commands-append, append-nil)
conclude-commands can_disarm name (stop effects) = refl

unlock_locks-raised :
    (db : Database) (ev : Event) (user : User) (active : List Group) (can_disarm : Bool)
    (locks : List Lock)
    → group_ids db active ≡ raised
    → commands (unlock_locks db ev user active can_disarm locks).1 ≡ []
unfolding unlock_locks
unlock_locks-raised db ev user active can_disarm locks r = ground (arith, r)

reached-All :
    (P : Lock → Type 0) (accesses : Lock → Access) (attempts : Lock → Attempt) (locks : List Lock)
    → All P locks
    → All P (reached accesses attempts locks)
reached-All P accesses attempts [] h = tt
reached-All P accesses attempts (l ∷ locks) h =
    (h.0, rest (ends (accesses l) l (attempts l)) (reached-All P accesses attempts locks h.1))
  where
    rest :
        (b : Bool)
        → All P (reached accesses attempts locks)
        → All P (if b then [] else reached accesses attempts locks)
    rest true r = tt
    rest false r = r

module _ (by_group : List GroupRow → List GroupRow) (by_lock : List LockEntry → List LockEntry)
    (t : Tables) (db : Database) (serves : Serves by_group by_lock t db)
    (groups_ordered : (Q : GroupRow → Type 0) (xs : List GroupRow)
      → Some Q (by_group xs)
      → Some Q xs)
    (locks_ordered : (Q : LockEntry → Type 0) (xs : List LockEntry)
      → Some Q (by_lock xs)
      → Some Q xs) where
  module _ (ev : Event) (user : User) (groups : List Group)
      (member : db.get_user_groups user.id ≡ value groups) where
    -- one lock that is sent a command
    sent_lem :
        (ids : List ℕ) (attempts : Lock → Attempt) (locks : List Lock) (lock : Lock)
        → IsPermitted db ev user groups locks
        → group_ids db (keep (is_active ev.group_now) groups) ≡ value ids
        → sends (accesses_of db ev user (keep (is_active ev.group_now) groups) ids) attempts lock
          ≡ true
        → IsStored t (IsAtDoor t ev) lock
        → IsAuthorized t ev lock.id
    sent_lem ids attempts locks lock p i h at_door =
        let known =
          answered_lem _ (some user) (db.get_user_by_ulp_id ev.ulp_id) (serves.users ev.ulp_id)
            p.known in
        Some-imp _ _ (λ u q. (q.0, q.1.0, q.1.1, q.1.2)) t.users
          (user_lem t
            (λ u.
              (is_active_user u ≡ true)
              × Some (λ l. (l.lock.id ≡ lock.id) × IsAtDoor t ev l) t.locks
              × (InGroup t ev.group_now u.id lock.id
                  ⊎ HasRule t (ev.rule_now lock.id) u.id lock.id))
            ev.ulp_id user (sym known)
            (
              p.active,
              Some-imp _ _ (λ l q. (ap (λ x. x.id) q.0, q.1)) t.locks at_door,
              authority_lem by_group by_lock t db serves groups_ordered locks_ordered ev user groups
                  member ids lock i (ground (arith, h)),
            ))

    permitted-IsAuthorized :
        (locks : List Lock)
        → IsPermitted db ev user groups locks
        → All (IsAuthorized t ev) (
            commands
              (unlock_locks db ev user
                (keep (is_active ev.group_now) groups)
                (may_disarm (alarm_state ev) (keep (is_active ev.group_now) groups))
                locks).1)
    permitted-IsAuthorized locks p =
        let active = keep (is_active ev.group_now) groups in
        let can_disarm = may_disarm (alarm_state ev) active in
        elim (Answer-cases (group_ids db active)) [
          | inl r ↦ rw (unlock_locks-raised db ev user active can_disarm locks r) tt
          | inr (ids, i) ↦
              let accesses = accesses_of db ev user active ids in
              let chosen = reached accesses ev.attempts locks in
              rw
                (
                  unlock_locks-concludes db ev user active can_disarm locks ids i,
                  conclude-commands can_disarm user.name
                      (handle_locks accesses ev.attempts locks start_loop),
                  handle_locks-commands accesses ev.attempts locks start_loop,
                )
                (All-map (λ l. l.id) (IsAuthorized t ev) (keep (sends accesses ev.attempts) chosen)
                  (All-imp _ _ (λ l q. sent_lem ids ev.attempts locks l p i q.0 q.1)
                    (keep (sends accesses ev.attempts) chosen)
                    (All-keep (IsStored t (IsAtDoor t ev)) (sends accesses ev.attempts) chosen (
                      reached-All (IsStored t (IsAtDoor t ev)) accesses ev.attempts locks
                        (door_lem t ev by_group by_lock db serves locks p.found)))))
        ]

  -- Every command that `process_event` sends for an event has an authority in the tables: an active
  -- user has the credential; the lock is shown, its hub is there and it belongs to the location, by
  -- its own columns, by a reader or by a doorbell; and a group of the user that is in its schedule
  -- opens it, or an enabled rule of the user in its schedule does. This holds whichever queries
  -- fail, for a database whose answers come from the tables and whose order of the rows only
  -- returns rows.
  pub process_event-IsAuthorized :
      (ev : Event) → All (IsAuthorized t ev) (commands (process_event db ev).1)
  process_event-IsAuthorized ev = elim (gated db ev) [
    | stopped s ↦ rw s.silent tt
    | passed user groups locks p some_found e ↦
        rw e (permitted-IsAuthorized ev user groups p.member locks p)
  ]
