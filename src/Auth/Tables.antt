-- ===== src/Auth/Tables.antt =====
-- The tables of database.py that an access event reads, and the queries of it.
pub mod Authority
mod Tests
use hassio_access_control.Prelude.{
  ℕ, String, Bool, true, false, not, ◌&&◌, ◌||◌, Option, none, some, List, [], ◌∷◌, ◌++◌, map, keep,
  any, ◌==◌, if◌then◌else◌, str_eq, ◌≡◌, ◌⊎◌,
}
use hassio_access_control.Auth.Alarm.{Group}
use hassio_access_control.Auth.Database.{
  User, Lock, LockType, access_native, ha_external, other, Rule, Answer, value, raised, Database,
}

-- a row of `users`
pub record UserRow : Type 0 where
  pub ulp_id : String
  pub user : User

-- a row of `locks`
pub record LockEntry : Type 0 where
  pub lock : Lock
  pub location_id : Option String
  pub access_location_id : Option String
  pub upstream_present : Bool

-- a row of `access_rules`
pub record RuleRow : Type 0 where
  pub user_id : ℕ
  pub lock_id : ℕ
  pub rule : Rule

-- a row of `groups`
pub record GroupRow : Type 0 where
  pub name : String
  pub group : Group

-- a row of `group_members`
pub record Member : Type 0 where
  pub group_id : ℕ
  pub user_id : ℕ

-- a row of `group_locks`
pub record GroupLock : Type 0 where
  pub group_id : ℕ
  pub lock_id : ℕ

-- a row of `entry_devices`
pub record EntryDevice : Type 0 where
  pub lock_id : ℕ
  pub device_type : String
  pub device_id : Option String

pub record Tables : Type 0 where
  pub users : List UserRow
  pub locks : List LockEntry
  pub access_rules : List RuleRow
  pub groups : List GroupRow
  pub group_members : List Member
  pub group_locks : List GroupLock
  pub entry_devices : List EntryDevice

-- `column = ?`, which NULL never satisfies
abbrev pub column_is : Option String → String → Bool
column_is none s = false
column_is (some t) s = str_eq t s

-- `fetchone`
abbrev pub first : {A : Type 0} → List A → Option A
first [] = none
first (x ∷ xs) = some x

-- `type != 'access_native' OR upstream_present = 1`
abbrev pub is_present : LockEntry → Bool
is_present l = elim l.lock.lock_type [ access_native ↦ l.upstream_present | _ ↦ true ]

-- the condition of both queries of the locks at a door
abbrev pub is_shown : LockEntry → Bool
is_shown l = is_present l && not l.lock.hidden

abbrev pub is_at : String → LockEntry → Bool
is_at location_id l =
    column_is l.location_id location_id || column_is l.access_location_id location_id

-- `order_by` is the database's `ORDER BY name`; the keys of the tables of pairs are primary, so that a
-- join with one of them gives each row once
module _ (t : Tables) where
  unfoldable pub get_user_by_ulp_id : String → Option User
  get_user_by_ulp_id ulp_id = first (map (λ u. u.user) (keep (λ u. str_eq u.ulp_id ulp_id) t.users))

  unfoldable pub get_user_groups : (List GroupRow → List GroupRow) → ℕ → List Group
  get_user_groups order_by user_id =
      map (λ g. g.group)
        (order_by (
          keep (λ g. any (λ m. m.group_id == g.group.id && m.user_id == user_id) t.group_members)
            t.groups))

  -- the ids of the rows, which is what the engine reads of them
  unfoldable pub get_group_locks : (List LockEntry → List LockEntry) → ℕ → List ℕ
  get_group_locks order_by group_id =
      map (λ l. l.lock.id)
        (order_by (
          keep (λ l. any (λ k. k.lock_id == l.lock.id && k.group_id == group_id) t.group_locks)
            t.locks))

  -- without `include_hidden`
  unfoldable pub get_locks_for_location : String → List Lock
  get_locks_for_location location_id =
      map (λ l. l.lock) (keep (λ l. is_at location_id l && is_shown l) t.locks)

  -- the join of `get_locks_by_entry_device`: a row for each device of the lock
  abbrev pub linked : String → String → LockEntry → EntryDevice → Bool
  linked device_type device_id l d =
      d.lock_id == l.lock.id && str_eq d.device_type device_type && column_is d.device_id device_id

  unfoldable pub join_devices : String → String → List LockEntry → List Lock
  join_devices device_type device_id [] = []
  join_devices device_type device_id (l ∷ locks) =
      let rest = join_devices device_type device_id locks in
      (if is_shown l
        then map (λ d. l.lock) (keep (linked device_type device_id l) t.entry_devices)
        else [])
      ++ rest

  -- without `entity_id` and `include_hidden`
  unfoldable pub get_locks_by_entry_device : String → String → List Lock
  get_locks_by_entry_device device_type device_id =
      if str_eq device_id "" then [] else join_devices device_type device_id t.locks

  unfoldable pub get_rules_for_user_and_lock : ℕ → ℕ → Option Rule
  get_rules_for_user_and_lock user_id lock_id =
      first (
        map (λ r. r.rule) (keep (λ r. r.user_id == user_id && r.lock_id == lock_id) t.access_rules))

-- a query that raises, or answers from the tables
abbrev pub IsFrom : {A : Type 0} → A → Answer A → Type 0
IsFrom a x = (x ≡ raised) ⊎ (x ≡ value a)

-- the database of an event, any query of which may fail
pub record Serves (by_group : List GroupRow → List GroupRow)
    (by_lock : List LockEntry → List LockEntry) (t : Tables) (db : Database) : Type 0 where
  pub users :
      (ulp_id : String) → IsFrom (get_user_by_ulp_id t ulp_id) (db.get_user_by_ulp_id ulp_id)
  pub groups :
      (user_id : ℕ) → IsFrom (get_user_groups t by_group user_id) (db.get_user_groups user_id)
  pub group_locks : (id : ℕ) → IsFrom (get_group_locks t by_lock id) (db.get_group_locks id)
  pub locks :
      (location_id : String)
      → IsFrom (get_locks_for_location t location_id) (db.get_locks_for_location location_id)
  pub devices :
      (device_type device_id : String)
      → IsFrom
          (get_locks_by_entry_device t device_type device_id)
          (db.get_locks_by_entry_device device_type device_id)
  pub rules :
      (user_id lock_id : ℕ)
      → IsFrom
          (get_rules_for_user_and_lock t user_id lock_id)
          (db.get_rules_for_user_and_lock user_id lock_id)
