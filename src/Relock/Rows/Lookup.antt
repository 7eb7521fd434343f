-- ===== src/Relock/Rows/Lookup.antt =====
-- What each statement on the table `pending_relocks` (database.py) does to the row of each entity.
use hassio_access_control.Prelude.{
  ℕ, String, ◌≡◌, refl, Option, none, some, [], ◌∷◌, arith, ◌==◌, if◌then◌else◌, str_eq, eq_iff,
  eq_refl,
}
use hassio_access_control.Relock.Rows.{
  Row, Table, get_pending_relock, add_pending_relock, remove_pending_relock,
  remove_pending_relock_at_deadline, rows_at_deadline, replace_pending_relock_deadline, HasKeys,
}

pub get-add :
    (e : String) (new : Row) (rows : Table)
    → get_pending_relock e (add_pending_relock new rows)
      ≡ (if str_eq new.entity_id e then some new else get_pending_relock e rows)
unfolding get_pending_relock add_pending_relock
get-add e new [] = refl
get-add e new (r ∷ rows) = ground (
  arith,
  eq_iff r.entity_id new.entity_id,
  eq_iff r.entity_id e,
  eq_iff new.entity_id e,
  get-add e new rows,
)

pub get-remove :
    (e k : String) (rows : Table)
    → get_pending_relock e (remove_pending_relock k rows)
      ≡ (if str_eq k e then none else get_pending_relock e rows)
unfolding get_pending_relock remove_pending_relock
get-remove e k [] = ground arith
get-remove e k (r ∷ rows) =
    ground (arith, eq_iff r.entity_id k, eq_iff r.entity_id e, eq_iff k e, get-remove e k rows)

pub get-entity_id :
    (e : String) (rows : Table) (r : Row) → get_pending_relock e rows ≡ some r → r.entity_id ≡ e
unfolding get_pending_relock
get-entity_id e [] r h = cc
get-entity_id e (s ∷ rows) r h = ground (arith, eq_iff s.entity_id e, get-entity_id e rows r)

-- what a statement on one entity and deadline finds there
abbrev pub matching : ℕ → Option Row → Option Row
matching deadline none = none
matching deadline (some r) = if r.deadline == deadline then some r else none

abbrev pub unless_at : ℕ → Option Row → Option Row
unless_at deadline none = none
unless_at deadline (some r) = if r.deadline == deadline then none else some r

abbrev pub moved : ℕ → ℕ → Option Row → Option Row
moved expected deadline none = none
moved expected deadline (some r) =
    some (if r.deadline == expected then record r { deadline = deadline } else r)

get-remove_at_absent :
    (e k : String) (d : ℕ) (rows : Table)
    → get_pending_relock e rows ≡ none
    → get_pending_relock e (remove_pending_relock_at_deadline k d rows) ≡ none
unfolding get_pending_relock remove_pending_relock_at_deadline
get-remove_at_absent e k d [] h = refl
get-remove_at_absent e k d (r ∷ rows) h = ground (arith, get-remove_at_absent e k d rows)

pub get-remove_at :
    (e k : String) (d : ℕ) (rows : Table)
    → HasKeys rows
    → get_pending_relock e (remove_pending_relock_at_deadline k d rows)
      ≡ (if str_eq k e then unless_at d (get_pending_relock e rows) else get_pending_relock e rows)
unfolding get_pending_relock remove_pending_relock_at_deadline
get-remove_at e k d [] h = ground arith
get-remove_at e k d (r ∷ rows) h = ground (
  arith,
  eq_iff r.entity_id k,
  eq_iff r.entity_id e,
  eq_iff k e,
  get-remove_at e k d rows h.1,
  get-remove_at_absent e k d rows,
)

pub get-replace :
    (e k : String) (x d : ℕ) (rows : Table)
    → get_pending_relock e (replace_pending_relock_deadline k x d rows)
      ≡ (if str_eq k e then moved x d (get_pending_relock e rows) else get_pending_relock e rows)
unfolding get_pending_relock replace_pending_relock_deadline
get-replace e k x d [] = ground arith
get-replace e k x d (r ∷ rows) =
    ground (arith, eq_iff r.entity_id k, eq_iff r.entity_id e, eq_iff k e, get-replace e k x d rows)

rows_at_deadline-absent :
    (e : String) (d : ℕ) (rows : Table)
    → get_pending_relock e rows ≡ none
    → rows_at_deadline e d rows ≡ 0
unfolding rows_at_deadline get_pending_relock
rows_at_deadline-absent e d [] h = refl
rows_at_deadline-absent e d (r ∷ rows) h = ground (arith, rows_at_deadline-absent e d rows)

-- how many rows a statement on one entity and deadline touches
pub rows_at_deadline-get :
    (e : String) (d : ℕ) (rows : Table)
    → HasKeys rows
    → rows_at_deadline e d rows
      ≡ elim (matching d (get_pending_relock e rows)) [ none ↦ 0 | some r ↦ 1 ]
unfolding rows_at_deadline get_pending_relock
rows_at_deadline-get e d [] h = refl
rows_at_deadline-get e d (r ∷ rows) h = ground (
  arith,
  eq_iff r.entity_id e,
  rows_at_deadline-get e d rows h.1,
  rows_at_deadline-absent e d rows,
)

pub add-HasKeys : (new : Row) (rows : Table) → HasKeys rows → HasKeys (add_pending_relock new rows)
unfolding add_pending_relock get_pending_relock
add-HasKeys new [] h = ground arith
add-HasKeys new (r ∷ rows) h = ground (
  arith,
  eq_iff r.entity_id new.entity_id,
  eq_iff new.entity_id r.entity_id,
  get-add r.entity_id new rows,
  add-HasKeys new rows h.1,
)

pub remove-HasKeys :
    (e : String) (rows : Table) → HasKeys rows → HasKeys (remove_pending_relock e rows)
unfolding remove_pending_relock
remove-HasKeys e [] h = ground arith
remove-HasKeys e (r ∷ rows) h =
    ground (arith, get-remove r.entity_id e rows, remove-HasKeys e rows h.1)

pub remove_at-HasKeys :
    (e : String) (d : ℕ) (rows : Table)
    → HasKeys rows
    → HasKeys (remove_pending_relock_at_deadline e d rows)
unfolding remove_pending_relock_at_deadline
remove_at-HasKeys e d [] h = ground arith
remove_at-HasKeys e d (r ∷ rows) h =
    ground (arith, get-remove_at_absent r.entity_id e d rows, remove_at-HasKeys e d rows h.1)

pub replace-HasKeys :
    (e : String) (x d : ℕ) (rows : Table)
    → HasKeys rows
    → HasKeys (replace_pending_relock_deadline e x d rows)
unfolding replace_pending_relock_deadline
replace-HasKeys e x d [] h = ground arith
replace-HasKeys e x d (r ∷ rows) h =
    ground (arith, get-replace r.entity_id e x d rows, replace-HasKeys e x d rows h.1)

-- putting back the row that an upsert replaced, or deleting the row that it made, undoes it
pub add-add :
    (old new : Row) (rows : Table)
    → get_pending_relock new.entity_id rows ≡ some old
    → add_pending_relock old (add_pending_relock new rows) ≡ rows
unfolding get_pending_relock add_pending_relock
add-add old new [] h = cc
add-add old new (r ∷ rows) h = ground (
  arith,
  get-entity_id new.entity_id (r ∷ rows) old h,
  eq_iff r.entity_id new.entity_id,
  eq_iff r.entity_id old.entity_id,
  eq_iff new.entity_id old.entity_id,
  add-add old new rows,
)

pub remove_at-add :
    (new : Row) (rows : Table)
    → get_pending_relock new.entity_id rows ≡ none
    → remove_pending_relock_at_deadline new.entity_id new.deadline (add_pending_relock new rows)
      ≡ rows
unfolding get_pending_relock add_pending_relock remove_pending_relock_at_deadline
remove_at-add new [] h = ground (arith, eq_refl new.entity_id)
remove_at-add new (r ∷ rows) h = ground (arith, remove_at-add new rows)
