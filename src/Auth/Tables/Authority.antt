-- ===== src/Auth/Tables/Authority.antt =====
-- The authority of an unlock, read off the tables of database.py.
pub mod Rows
pub mod Door
pub mod Grounds
pub mod Commands
use hassio_access_control.Prelude.{
  ℕ, String, ◌≡◌, ◌⊎◌, Bool, true, false, not, Option, some, List, [], ◌∷◌, Some, str_eq,
}
use hassio_access_control.Schedule.{Now, check_schedule}
use hassio_access_control.Auth.Alarm.{Group, is_active}
use hassio_access_control.Auth.Database.{Answer, User, Lock, Rule}
use hassio_access_control.Auth.Locks.{protect_device_ids}
use hassio_access_control.Auth.Process.{Event, is_active_user}
use hassio_access_control.Auth.Tables.{
  UserRow, LockEntry, RuleRow, GroupRow, Member, GroupLock, EntryDevice, Tables, is_shown, is_at,
  column_is,
}

-- a device of the lock stands at the door: an access reader of the location, or a doorbell
abbrev pub IsEntry : Event → LockEntry → EntryDevice → Type 0
IsEntry ev l d =
    (d.lock_id ≡ l.lock.id)
    × (((d.device_type ≡ "access_reader") × (column_is d.device_id ev.location_id ≡ true))
        ⊎ ((d.device_type ≡ "protect_doorbell")
            × Some (λ i. column_is d.device_id i ≡ true)
                (protect_device_ids ev.location_id ev.cameras)))

-- the lock is shown, its hub is there, and it belongs to the location of the event
abbrev pub IsAtDoor : Tables → Event → LockEntry → Type 0
IsAtDoor t ev l =
    (is_shown l ≡ true) × ((is_at ev.location_id l ≡ true) ⊎ Some (IsEntry ev l) t.entry_devices)

-- a group of the user whose schedule holds at its check opens all locks, or this one
abbrev pub InGroup : Tables → (ℕ → Now) → ℕ → ℕ → Type 0
InGroup t now user_id lock_id =
    Some
      (λ g.
        Some (λ m. (m.group_id ≡ g.group.id) × (m.user_id ≡ user_id)) t.group_members
        × (is_active now g.group ≡ true)
        × ((g.group.all_locks ≡ true)
            ⊎ Some (λ k. (k.lock_id ≡ lock_id) × (k.group_id ≡ g.group.id)) t.group_locks))
      t.groups

-- an enabled rule of the user for the lock, whose schedule holds at its check if it has one
abbrev pub HasRule : Tables → Now → ℕ → ℕ → Type 0
HasRule t now user_id lock_id =
    Some
      (λ r.
        (r.user_id ≡ user_id)
        × (r.lock_id ≡ lock_id)
        × (r.rule.enabled ≡ true)
        × ((r.rule.schedule.schedule_enabled ≡ false)
            ⊎ (check_schedule now r.rule.schedule ≡ true)))
      t.access_rules

-- a row of an active user with this credential, who may open this lock at this door now
abbrev pub IsAuthorized : Tables → Event → ℕ → Type 0
IsAuthorized t ev lock_id =
    Some
      (λ u.
        (u.ulp_id ≡ ev.ulp_id)
        × (is_active_user u.user ≡ true)
        × Some (λ l. (l.lock.id ≡ lock_id) × IsAtDoor t ev l) t.locks
        × (InGroup t ev.group_now u.user.id lock_id
            ⊎ HasRule t (ev.rule_now lock_id) u.user.id lock_id))
      t.users
