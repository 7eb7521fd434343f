-- ===== src/HubSync.antt =====
-- The ownership of persistent rules in hub_sync.py: which Access hubs the app holds open or locked,
-- in memory and in the table `hub_sync_holds` of database.py, and the commands that change them.
pub mod Drive
pub mod Apply
pub mod Release
pub mod Marker
pub mod Observe
pub mod Recover
pub mod Ownership
mod Tests
use hassio_access_control.Prelude.{
  ℕ, String, Bool, true, false, not, ◌&&◌, ◌||◌, Option, none, some, List, [], ◌∷◌, ◌++◌, any, keep,
  if◌then◌else◌, str_eq,
}
use hassio_access_control.Prelude.Map.{Map, get, insert}

-- `override_type`
pub data Override : Type 0 where
  keep_unlock keep_lock : Override

-- a row of `hub_sync_holds`; its primary key is the pair of the entity and the device
pub record HoldRow : Type 0 where
  pub entity_id : String
  pub hub_device_id : String
  pub hub_lock_id : Option ℕ
  pub hub_location_id : Option String
  pub hub_name : String
  pub override_type : Override

-- a hub as the manager keeps it, which is a row of `locks` or what a hold row says of it
pub record Hub : Type 0 where
  pub id : Option ℕ
  pub device_id : String
  pub location_id : Option String
  pub name : String

-- the rule of a door, at the Access hub
pub data AccessRule : Type 0 where
  native held_open held_locked : AccessRule

-- the manager, with the table, the failures of the next writes to it, and the rules at the hubs
pub record Sync : Type 0 where
  pub holds : List HoldRow
  pub faults : List Bool
  pub held_open : Map (List Hub)
  pub held_locked : Map (List Hub)
  pub pending_release : Map (List Hub)
  -- `_fail_safe_reset_eids`
  pub fail_safe : String → Bool
  pub rules : String → AccessRule

abbrev pub same_hold : String → String → HoldRow → Bool
same_hold entity_id device_id r = str_eq r.entity_id entity_id && str_eq r.hub_device_id device_id

-- `INSERT … ON CONFLICT DO UPDATE`
unfoldable pub upsert_hold : HoldRow → List HoldRow → List HoldRow
upsert_hold r [] = r ∷ []
upsert_hold r (h ∷ holds) =
    let rest = upsert_hold r holds in
    if same_hold r.entity_id r.hub_device_id h then r ∷ holds else h ∷ rest

unfoldable pub delete_hold : String → String → List HoldRow → List HoldRow
delete_hold entity_id device_id holds = keep (λ r. not (same_hold entity_id device_id r)) holds

abbrev pub next_fails : List Bool → Bool
next_fails [] = false
next_fails (b ∷ bs) = b

abbrev pub rest_of : List Bool → List Bool
rest_of [] = []
rest_of (b ∷ bs) = bs

-- `_write_hub_sync_hold`: a transaction that runs whole or raises; with whether it ran
unfoldable pub write_hub_sync_hold : (List HoldRow → List HoldRow) → Sync → Bool × Sync
write_hub_sync_hold statement s =
    let s' = record s { faults = rest_of s.faults } in
    if next_fails s.faults then (false, s') else (true, record s' { holds = statement s.holds })

-- `m.get(k, [])`
abbrev pub hubs_of : String → Map (List Hub) → List Hub
hubs_of k m = elim (get k m) [ none ↦ [] | some hubs ↦ hubs ]

-- `any(h.get("device_id") == device_id for h in hubs)`
abbrev pub has_hub : String → List Hub → Bool
has_hub device_id hubs = any (λ h. str_eq h.device_id device_id) hubs

abbrev pub without_hub : String → List Hub → List Hub
without_hub device_id hubs = keep (λ h. not (str_eq h.device_id device_id)) hubs

abbrev pub with_hub : Hub → List Hub → List Hub
with_hub hub hubs = if has_hub hub.device_id hubs then hubs else hubs ++ hub ∷ []

-- the three uses of `_record_hub_state`
pub data HubState : Type 0 where
  owns_open owns_lock owns_nothing : HubState

abbrev pub hold_row : String → Hub → Override → HoldRow
hold_row eid hub override_type = record {
  entity_id = eid;
  hub_device_id = hub.device_id;
  hub_lock_id = hub.id;
  hub_location_id = hub.location_id;
  hub_name = hub.name;
  override_type = override_type;
}

abbrev pub statement_of : String → Hub → HubState → List HoldRow → List HoldRow
statement_of eid hub owns_open = upsert_hold (hold_row eid hub keep_unlock)
statement_of eid hub owns_lock = upsert_hold (hold_row eid hub keep_lock)
statement_of eid hub owns_nothing = delete_hold eid hub.device_id

abbrev pub kept_open : Hub → HubState → List Hub → List Hub
kept_open hub owns_open hubs = with_hub hub hubs
kept_open hub _ hubs = without_hub hub.device_id hubs

abbrev pub kept_locked : Hub → HubState → List Hub → List Hub
kept_locked hub owns_lock hubs = with_hub hub hubs
kept_locked hub _ hubs = without_hub hub.device_id hubs

-- with whether the write ran; the maps have the entity's key in any case
unfoldable pub record_hub_state : String → Hub → HubState → Sync → Bool × Sync
record_hub_state eid hub o s =
    let s1 = record s {
      held_open = insert eid (hubs_of eid s.held_open) s.held_open;
      held_locked = insert eid (hubs_of eid s.held_locked) s.held_locked;
    } in
    let (wrote, s2) = write_hub_sync_hold (statement_of eid hub o) s1 in
    if wrote
    then (
      true,
      record s2 {
        held_open = insert eid (kept_open hub o (hubs_of eid s.held_open)) s2.held_open;
        held_locked = insert eid (kept_locked hub o (hubs_of eid s.held_locked)) s2.held_locked;
      },
    )
    else (false, s2)
