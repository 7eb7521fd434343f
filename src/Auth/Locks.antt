-- ===== src/Auth/Locks.antt =====
-- `AuthEngine.get_locks_for_location` of auth_engine.py.
pub mod Resolution
use hassio_access_control.Prelude.{
  ℕ, String, Bool, true, false, not, ◌&&◌, Option, none, some, List, [], ◌∷◌, ◌++◌, any, keep, map,
  ◌==◌, if◌then◌else◌, str_eq,
}
use hassio_access_control.Auth.Database.{Answer, value, raised, Lock, Database}

-- `lock["id"] in seen_ids`; `seen_ids` holds the ids of the list
abbrev pub seen : ℕ → List Lock → Bool
seen id locks = any (λ l. l.id == id) locks

-- one loop over the locks of a query
unfoldable pub add_locks : List Lock → List Lock → List Lock
add_locks locks [] = locks
add_locks locks (l ∷ found) =
    add_locks (if not l.hidden && not (seen l.id locks) then locks ++ l ∷ [] else locks) found

-- `protect_device_ids`: the location, and the cameras mapped to it; none of those when the map raises.
-- Python does not fix the order of this set: here the location comes first.
unfoldable pub protect_device_ids : String → Answer (List (String × String)) → List String
protect_device_ids location_id raised = location_id ∷ []
protect_device_ids location_id (value cameras) =
    location_id
    ∷ map (λ c. c.0) (keep (λ c. str_eq c.1 location_id && not (str_eq c.0 location_id)) cameras)

-- the loop over the cameras, each of which is a query
unfoldable pub add_cameras : Database → List Lock → List String → Answer (List Lock)
add_cameras db locks [] = value locks
add_cameras db locks (device_id ∷ ids) =
    elim (db.get_locks_by_entry_device "protect_doorbell" device_id) [
      | raised ↦ raised
      | value found ↦ add_cameras db (add_locks locks found) ids
    ]

add_readers : Database → Answer (List (String × String)) → String → List Lock → Answer (List Lock)
add_readers db cameras location_id locks =
    elim (db.get_locks_by_entry_device "access_reader" location_id) [
      | raised ↦ raised
      | value found ↦
          add_cameras db (add_locks locks found) (protect_device_ids location_id cameras)
    ]

-- `cameras` is what the camera map's getter returns: no getter is the empty map
unfoldable pub get_locks_for_location :
    Database → Answer (List (String × String)) → String → Answer (List Lock)
unfolding add_readers
get_locks_for_location db cameras location_id = elim (db.get_locks_for_location location_id) [
  | raised ↦ raised
  | value native ↦ add_readers db cameras location_id (keep (λ l. not l.hidden) native)
]
