-- ===== src/HubSync/Marker.antt =====
-- The clean-shutdown marker of hub_sync.py, by which a hold outlives a graceful restart:
-- `_preserve_opted_eids`, `_preservable_holds`, `_write_clean_shutdown_marker`,
-- `_consume_clean_shutdown_marker`, `_preserve_clean_holds`, and their uses in `shutdown` and
-- `recover`. Times are seconds of the wall clock.
pub mod Restart
use hassio_access_control.Prelude.{
  ℕ, ◌+◌, ◌≤◌, String, ◌≡◌, refl, Bool, true, false, not, ◌&&◌, ◌||◌, Option, none, some, List, [],
  ◌∷◌, any, keep, arith, leb, if◌then◌else◌, str_eq, All, All-keep, All-imp,
}
use hassio_access_control.HubSync.{Hub, Sync, hubs_of}

-- the value of the key in `config`: a text that is no marker is `malformed`, and for a missing row
-- or an empty text the option that holds it is none
pub data Stored : Type 0 where
  malformed : Stored
  marker : ℕ → List String → Stored

-- how the deletion of the row ends; when it raises, the row may be gone or not
pub data Deletion : Type 0 where
  deleted : Deletion
  raised : Bool → Deletion

-- the columns of `locks` that the opt-in reads
pub record LockOption : Type 0 where
  pub entity_id : String
  pub is_external : Bool
  pub sync_hub_state : Bool
  pub preserve_hold_on_restart : Bool
  pub hidden : Bool

abbrev pub is_in : String → List String → Bool
is_in eid eids = any (λ e. str_eq e eid) eids

abbrev pub is_none : {A : Type 0} → List A → Bool
is_none [] = true
is_none (x ∷ xs) = false

-- whether some row opts the entity in
unfoldable pub is_opted : List LockOption → String → Bool
is_opted locks eid =
    any
      (λ l.
        l.is_external
        && not (str_eq l.entity_id "")
        && l.sync_hub_state
        && l.preserve_hold_on_restart
        && not l.hidden
        && str_eq l.entity_id eid)
      locks

-- the app holds the door open and nothing else
abbrev pub holds_open_only : Sync → String → Bool
holds_open_only s eid =
    not (is_none (hubs_of eid s.held_open)) && is_none (hubs_of eid s.held_locked)

abbrev pub is_preservable : List LockOption → Sync → String → Bool
is_preservable locks s eid = is_opted locks eid && holds_open_only s eid && not (s.fail_safe eid)

-- `recovered` is `_lifecycle_recovered`; a failed query of the locks is none
unfoldable pub preservable_holds :
    Bool → Bool → Option (List LockOption) → List String → Sync → List String
preservable_holds lockdown recovered none candidates s = []
preservable_holds lockdown recovered (some locks) candidates s =
    if lockdown || not recovered || is_none locks
    then []
    else keep (is_preservable locks s) candidates

-- the holds that the marker vouches for, and the row
unfoldable pub write_clean_shutdown_marker :
    Bool → ℕ → List String → Option Stored → List String × Option Stored
write_clean_shutdown_marker fails now preserved row =
    if fails then ([], row) else (preserved, some (marker now preserved))

abbrev pub clean_shutdown_max_age : ℕ
clean_shutdown_max_age = 1800

abbrev pub clean_shutdown_future_skew : ℕ
clean_shutdown_future_skew = 60

-- the contents, if they are well formed and neither stale nor future-dated
unfoldable pub vouched : ℕ → Stored → List String
vouched now malformed = []
vouched now (marker ts eids) =
    if leb ts (now + clean_shutdown_future_skew) && leb now (ts + clean_shutdown_max_age)
    then eids
    else []

-- the marker is deleted before its contents are trusted
unfoldable pub consume_clean_shutdown_marker :
    Bool → Deletion → ℕ → Option Stored → List String × Option Stored
consume_clean_shutdown_marker read_fails deletion now none = ([], none)
consume_clean_shutdown_marker true deletion now (some raw) = ([], some raw)
consume_clean_shutdown_marker false deleted now (some raw) = (vouched now raw, none)
consume_clean_shutdown_marker false (raised gone) now (some raw) =
    ([], if gone then none else some raw)

-- what is read back: whether Home Assistant is connected and says "unlocked", and, for a client that
-- can read the rules, whether a hub has the rule keep_unlock and is unlocked; an exception is false
pub record Readback : Type 0 where
  pub is_unlocked : String → Bool
  pub bidirectional : Bool
  pub is_held : Hub → Bool

abbrev pub all_held : (Hub → Bool) → List Hub → Bool
all_held test [] = true
all_held test (hub ∷ hubs) = test hub && all_held test hubs

abbrev pub is_confirmed : Readback → Sync → String → Bool
is_confirmed r s eid =
    r.is_unlocked eid && (not r.bidirectional || all_held r.is_held (hubs_of eid s.held_open))

unfoldable pub preserve_clean_holds : List LockOption → Readback → List String → Sync → List String
preserve_clean_holds locks r candidates s =
    keep (λ eid. is_opted locks eid && holds_open_only s eid && is_confirmed r s eid) candidates

-- in `recover`: the holds that are adopted again, from the contents of the marker
unfoldable pub adopted_holds :
    Bool → Option (List LockOption) → Readback → List String → List String → Sync → List String
adopted_holds lockdown none r recovered vouched_for s = []
adopted_holds lockdown (some locks) r recovered vouched_for s =
    if is_none vouched_for || lockdown
    then []
    else preserve_clean_holds locks r (keep (λ eid. is_in eid recovered) vouched_for) s

abbrev pub opted_in : Option (List LockOption) → String → Bool
opted_in none eid = false
opted_in (some locks) eid = is_opted locks eid

-- the circumstances of a `shutdown`: `recovered` is `_lifecycle_recovered`, `candidates` are the
-- entities that were not pending before, and `fails` is the write of the marker
pub record Shutdown : Type 0 where
  pub lockdown : Bool
  pub recovered : Bool
  pub locks : Option (List LockOption)
  pub candidates : List String
  pub sync : Sync
  pub fails : Bool
  pub time : ℕ

-- the circumstances of a `recover`
pub record Recovery : Type 0 where
  pub lockdown : Bool
  pub locks : Option (List LockOption)
  pub readback : Readback
  pub recovered : List String
  pub sync : Sync
  pub read_fails : Bool
  pub deletion : Deletion
  pub time : ℕ

-- the holds that a `shutdown` keeps, and the row that it leaves
unfoldable pub shutdown_marker : Shutdown → Option Stored → List String × Option Stored
shutdown_marker d row =
    write_clean_shutdown_marker d.fails d.time
      (preservable_holds d.lockdown d.recovered d.locks d.candidates d.sync) row

-- the holds that a `recover` adopts again, and the row that it leaves
unfoldable pub recover_marker : Recovery → Option Stored → List String × Option Stored
recover_marker v row =
    let (vouched_for, row') = consume_clean_shutdown_marker v.read_fails v.deletion v.time row in
    (adopted_holds v.lockdown v.locks v.readback v.recovered vouched_for v.sync, row')
