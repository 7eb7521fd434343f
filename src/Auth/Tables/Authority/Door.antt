-- ===== src/Auth/Tables/Authority/Door.antt =====
-- The locks that auth_engine.py finds at a door are rows of the tables that stand there.
use hassio_access_control.Prelude.{
  String, ◌≡◌, refl, sym, inl, inr, Bool, true, false, not, ◌&&◌, List, [], ◌∷◌, ◌++◌, map, keep,
  arith, subst, if◌then◌else◌, str_eq, eq_iff, Some, All, Some-imp, All-keep, All-map, All-imp,
  All-append, All-among,
}
use hassio_access_control.Auth.Database.{Answer-cases, value, Lock, Database}
use hassio_access_control.Auth.Locks.{
  get_locks_for_location, seen, add_locks, add_cameras, protect_device_ids,
}
use hassio_access_control.Auth.Process.{Event}
use hassio_access_control.Auth.Tables.{
  LockEntry, GroupRow, EntryDevice, Tables, Serves, is_shown, column_is, linked, join_devices,
  get_locks_by_entry_device,
}
use hassio_access_control.Auth.Tables.Authority.{IsEntry, IsAtDoor}
use hassio_access_control.Auth.Tables.Authority.Rows.{answered_lem, locks_lem, IsStored}

-- if something is kept, something passes the test
keep-Some :
    {A : Type 0} (f : A → Bool) (xs : List A) → All (λ x. Some (λ y. f y ≡ true) xs) (keep f xs)
keep-Some f xs =
    All-imp _ _ (λ x h. Some-imp (λ y. x ≡ y) _ (λ y e. subst (λ z. f z ≡ true) e h.0) xs h.1)
      (keep f xs)
      (All-keep (λ x. Some (λ y. x ≡ y) xs) f xs (All-among (λ x y. x ≡ y) (λ x. refl) xs))

module _ (t : Tables) (Q : LockEntry → Type 0) where
  -- the rows of the join, for any part of the table
  join-IsStored :
      (device_type device_id : String) (rows : List LockEntry)
      → ((r : LockEntry)
          → is_shown r ≡ true
          → Some (λ d. linked t device_type device_id r d ≡ true) t.entry_devices
          → Q r)
      → All (λ l. Some (λ r. (r.lock ≡ l) × Q r) rows) (join_devices t device_type device_id rows)
  unfolding join_devices
  join-IsStored device_type device_id [] f = tt
  join-IsStored device_type device_id (r ∷ rows) f =
      All-append (λ l. Some (λ s. (s.lock ≡ l) × Q s) (r ∷ rows)) _ _ (here (is_shown r) refl)
        (All-imp _ _ (λ l h. inr h) (join_devices t device_type device_id rows)
          (join-IsStored device_type device_id rows f))
    where
      here :
          (b : Bool)
          → is_shown r ≡ b
          → All
              (λ l. Some (λ s. (s.lock ≡ l) × Q s) (r ∷ rows))
              (if b
                then map (λ d. r.lock) (keep (linked t device_type device_id r) t.entry_devices)
                else [])
      here true e =
          All-map (λ d. r.lock) (λ l. Some (λ s. (s.lock ≡ l) × Q s) (r ∷ rows))
            (keep (linked t device_type device_id r) t.entry_devices)
            (All-imp _ _ (λ d h. inl (refl, f r e h))
              (keep (linked t device_type device_id r) t.entry_devices)
              (keep-Some (linked t device_type device_id r) t.entry_devices))
      here false e = tt

  devices-IsStored :
      (device_type device_id : String)
      → ((r : LockEntry)
          → is_shown r ≡ true
          → Some (λ d. linked t device_type device_id r d ≡ true) t.entry_devices
          → Q r)
      → All (IsStored t Q) (get_locks_by_entry_device t device_type device_id)
  unfolding get_locks_by_entry_device
  devices-IsStored device_type device_id f = named (str_eq device_id "")
    where
      named :
          (b : Bool)
          → All (IsStored t Q) (if b then [] else join_devices t device_type device_id t.locks)
      named true = tt
      named false = join-IsStored device_type device_id t.locks f

-- what is added to a list is some of what was found
add_locks-All :
    (P : Lock → Type 0) (found locks : List Lock)
    → All P locks
    → All P found
    → All P (add_locks locks found)
unfolding add_locks
add_locks-All P [] locks h g = h
add_locks-All P (l ∷ found) locks h g =
    add_locks-All P found _ (added (not l.hidden && not (seen l.id locks))) g.1
  where
    added : (b : Bool) → All P (if b then locks ++ l ∷ [] else locks)
    added true = All-append P locks (l ∷ []) h (g.0, tt)
    added false = h

module _ (P : Lock → Type 0) (db : Database) where
  add_cameras-All :
      (ids : List String) (locks found : List Lock)
      → All P locks
      → All
          (λ i.
            (more : List Lock)
            → db.get_locks_by_entry_device "protect_doorbell" i ≡ value more
            → All P more)
          ids
      → add_cameras db locks ids ≡ value found
      → All P found
  unfolding add_cameras
  add_cameras-All [] locks found h hs e = subst (All P) (ground (arith, e)) h
  add_cameras-All (i ∷ ids) locks found h hs e =
      elim (Answer-cases (db.get_locks_by_entry_device "protect_doorbell" i)) [
        | inl r ↦ absurd (ground arith)
        | inr (more, r) ↦
            add_cameras-All ids (add_locks locks more) found
              (add_locks-All P more locks h (hs.0 more r)) hs.1 (ground arith)
      ]

module _ (t : Tables) (ev : Event) where
  abbrev pub StandsThere : Lock → Type 0
  StandsThere = IsStored t (IsAtDoor t ev)

  -- a link of a reader or of a doorbell is an entry
  reader-IsEntry :
      (r : LockEntry) (d : EntryDevice)
      → linked t "access_reader" ev.location_id r d ≡ true
      → IsEntry ev r d
  reader-IsEntry r d h = (
    ground (arith, h),
    inl ((eq_iff d.device_type "access_reader").0 (ground (arith, h)), ground (arith, h)),
  )

  doorbell-IsEntry :
      (i : String) (r : LockEntry) (d : EntryDevice)
      → Some (λ j. i ≡ j) (protect_device_ids ev.location_id ev.cameras)
      → linked t "protect_doorbell" i r d ≡ true
      → IsEntry ev r d
  doorbell-IsEntry i r d among h = (
    ground (arith, h),
    inr (
      (eq_iff d.device_type "protect_doorbell").0 (ground (arith, h)),
      Some-imp _ _ (λ j e. subst (λ s. column_is d.device_id s ≡ true) e (ground (arith, h)))
          (protect_device_ids ev.location_id ev.cameras) among,
    ),
  )

  module _ (by_group : List GroupRow → List GroupRow) (by_lock : List LockEntry → List LockEntry)
      (db : Database) (serves : Serves by_group by_lock t db) where
    device-StandsThere :
        (device_type device_id : String) (found : List Lock)
        → ((r : LockEntry) (d : EntryDevice)
            → linked t device_type device_id r d ≡ true
            → IsEntry ev r d)
        → db.get_locks_by_entry_device device_type device_id ≡ value found
        → All StandsThere found
    device-StandsThere device_type device_id found entry e =
        subst (All StandsThere)
          (sym (
            answered_lem _ found (db.get_locks_by_entry_device device_type device_id)
              (serves.devices device_type device_id) e))
          (devices-IsStored t (IsAtDoor t ev) device_type device_id
            (λ r shown s. (shown, inr (Some-imp _ _ (entry r) t.entry_devices s))))

    cameras-StandsThere :
        (ids : List String)
        → All (λ i. Some (λ j. i ≡ j) (protect_device_ids ev.location_id ev.cameras)) ids
        → All
            (λ i.
              (more : List Lock)
              → db.get_locks_by_entry_device "protect_doorbell" i ≡ value more
              → All StandsThere more)
            ids
    cameras-StandsThere ids h =
        All-imp _ _
          (λ i among more e.
            device-StandsThere "protect_doorbell" i more (λ r d l. doorbell-IsEntry i r d among l)
              e)
          ids h

    native-StandsThere :
        (native : List Lock)
        → db.get_locks_for_location ev.location_id ≡ value native
        → All StandsThere (keep (λ l. not l.hidden) native)
    native-StandsThere native e =
        All-imp _ _ (λ l h. h.1) (keep (λ l. not l.hidden) native)
          (All-keep StandsThere (λ l. not l.hidden) native
            (subst (All StandsThere)
              (sym (
                answered_lem _ native (db.get_locks_for_location ev.location_id)
                  (serves.locks ev.location_id) e))
              (locks_lem t (IsAtDoor t ev) ev.location_id (λ r at shown. (shown, inl at)))))

    pub door_lem :
        (locks : List Lock)
        → get_locks_for_location db ev.cameras ev.location_id ≡ value locks
        → All StandsThere locks
    unfolding get_locks_for_location
    door_lem locks e = elim (Answer-cases (db.get_locks_for_location ev.location_id)) [
      | inl n ↦ absurd (ground arith)
      | inr (native, n) ↦
          elim (Answer-cases (db.get_locks_by_entry_device "access_reader" ev.location_id)) [
            | inl r ↦ absurd (ground arith)
            | inr (found, r) ↦
                let ids = protect_device_ids ev.location_id ev.cameras in
                let visible = keep (λ l. not l.hidden) native in
                add_cameras-All StandsThere db ids (add_locks visible found) locks
                  (add_locks-All StandsThere found visible (native-StandsThere native n)
                    (device-StandsThere "access_reader" ev.location_id found reader-IsEntry r))
                  (cameras-StandsThere ids (All-among (λ i j. i ≡ j) (λ i. refl) ids))
                  (ground arith)
          ]
    ]
