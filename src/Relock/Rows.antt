-- ===== src/Relock/Rows.antt =====
-- The table `pending_relocks` of access_control/rootfs/opt/access_control/database.py, with
-- `entity_id` as its primary key, and its statements. Each of them is one transaction.
pub mod Lookup
use hassio_access_control.Prelude.{
  ℕ, ◌+◌, String, ◌≡◌, refl, Bool, ◌&&◌, Option, none, some, List, [], ◌∷◌, arith, leb, ◌==◌,
  if◌then◌else◌, str_eq, eq_iff, eq_refl,
}

-- times are whole ticks of the clock that Python reads as a float
pub record Row : Type 0 where
  pub entity_id : String
  pub lock_id : Option ℕ
  pub lock_name : Option String
  pub source : String
  pub deadline : ℕ
  pub created_at : ℕ

abbrev pub Table : Type 0
Table = List Row

-- SELECT * WHERE entity_id = ?
unfoldable pub get_pending_relock : String → Table → Option Row
get_pending_relock e [] = none
get_pending_relock e (r ∷ rows) = if str_eq r.entity_id e then some r else get_pending_relock e rows

-- INSERT … ON CONFLICT(entity_id) DO UPDATE
unfoldable pub add_pending_relock : Row → Table → Table
add_pending_relock new [] = new ∷ []
add_pending_relock new (r ∷ rows) =
    if str_eq r.entity_id new.entity_id then new ∷ rows else r ∷ add_pending_relock new rows

-- DELETE WHERE entity_id = ?
unfoldable pub remove_pending_relock : String → Table → Table
remove_pending_relock e [] = []
remove_pending_relock e (r ∷ rows) =
    let rest = remove_pending_relock e rows in if str_eq r.entity_id e then rest else r ∷ rest

abbrev pub at_deadline : String → ℕ → Row → Bool
at_deadline e deadline r = str_eq r.entity_id e && r.deadline == deadline

-- DELETE WHERE entity_id = ? AND deadline = ?
unfoldable pub remove_pending_relock_at_deadline : String → ℕ → Table → Table
remove_pending_relock_at_deadline e deadline [] = []
remove_pending_relock_at_deadline e deadline (r ∷ rows) =
    let rest = remove_pending_relock_at_deadline e deadline rows in
    if at_deadline e deadline r then rest else r ∷ rest

-- the `rowcount` of the two statements on one entity and deadline
unfoldable pub rows_at_deadline : String → ℕ → Table → ℕ
rows_at_deadline e deadline [] = 0
rows_at_deadline e deadline (r ∷ rows) =
    (if at_deadline e deadline r then 1 else 0) + rows_at_deadline e deadline rows

-- UPDATE SET deadline = ? WHERE entity_id = ? AND deadline = ?
unfoldable pub replace_pending_relock_deadline : String → ℕ → ℕ → Table → Table
replace_pending_relock_deadline e expected deadline [] = []
replace_pending_relock_deadline e expected deadline (r ∷ rows) =
    let rest = replace_pending_relock_deadline e expected deadline rows in
    (if at_deadline e expected r then record r { deadline = deadline } else r) ∷ rest

insert_by_deadline : Row → Table → Table
insert_by_deadline new [] = new ∷ []
insert_by_deadline new (r ∷ rows) =
    if leb new.deadline r.deadline then new ∷ r ∷ rows else r ∷ insert_by_deadline new rows

-- SELECT * ORDER BY deadline
unfoldable pub get_pending_relocks : Table → Table
unfolding insert_by_deadline
get_pending_relocks [] = []
get_pending_relocks (r ∷ rows) = insert_by_deadline r (get_pending_relocks rows)

-- the primary key: no two rows of an entity
abbrev pub HasKeys : Table → Type 0
HasKeys [] = Unit
HasKeys (r ∷ rows) = (get_pending_relock r.entity_id rows ≡ none) × HasKeys rows
