-- ===== src/Auth/Locks/Resolution.antt =====
-- The locks of a location are visible ones, each once if the first query has no repeats.
use hassio_access_control.Prelude.{
  ℕ, String, ◌≡◌, refl, ap, ==_iff, Bool, true, false, not, ◌&&◌, ◌||◌, List, [], ◌∷◌, ◌++◌, any,
  keep, All, All-append, arith, ◌==◌, if◌then◌else◌, Bool-cases, inl, inr,
}
use hassio_access_control.Auth.Database.{Answer-cases, Answer, value, raised, Lock, Database}
use hassio_access_control.Auth.Locks.{
  seen, add_locks, add_cameras, get_locks_for_location, protect_device_ids,
}

abbrev pub IsVisible : List Lock → Type 0
IsVisible = All (λ l. l.hidden ≡ false)

-- no two locks with one id
abbrev pub HasDistinctIds : List Lock → Type 0
HasDistinctIds [] = Unit
HasDistinctIds (l ∷ locks) = (seen l.id locks ≡ false) × HasDistinctIds locks

seen-append : (id : ℕ) (xs ys : List Lock) → seen id (xs ++ ys) ≡ (seen id xs || seen id ys)
seen-append id [] ys = refl
seen-append id (x ∷ xs) ys = ground (arith, seen-append id xs ys)

snoc-HasDistinctIds :
    (xs : List Lock) (l : Lock)
    → HasDistinctIds xs
    → seen l.id xs ≡ false
    → HasDistinctIds (xs ++ l ∷ [])
snoc-HasDistinctIds [] l h n = ground arith
snoc-HasDistinctIds (x ∷ xs) l h n =
    ground (arith, seen-append x.id xs (l ∷ []), snoc-HasDistinctIds xs l h.1)

record IsResolved (locks : List Lock) : Type 0 where
  visible : IsVisible locks
  distinct : HasDistinctIds locks

add-IsResolved :
    (l : Lock) (locks : List Lock)
    → IsResolved locks
    → IsResolved (if not l.hidden && not (seen l.id locks) then locks ++ l ∷ [] else locks)
add-IsResolved l locks h = elim (Bool-cases (not l.hidden && not (seen l.id locks))) [
  | inl e ↦ rw e (record {
    visible = All-append (λ x. x.hidden ≡ false) locks (l ∷ []) h.visible (ground arith);
    distinct = snoc-HasDistinctIds locks l h.distinct (ground arith);
  })
  | inr e ↦ rw e h
]

add_locks-IsResolved :
    (found locks : List Lock) → IsResolved locks → IsResolved (add_locks locks found)
unfolding add_locks
add_locks-IsResolved [] locks h = h
add_locks-IsResolved (l ∷ found) locks h = add_locks-IsResolved found _ (add-IsResolved l locks h)

add_cameras-IsResolved :
    (db : Database) (ids : List String) (locks found : List Lock)
    → IsResolved locks
    → add_cameras db locks ids ≡ value found
    → IsResolved found
unfolding add_cameras
add_cameras-IsResolved db [] locks found h e = ground arith
add_cameras-IsResolved db (d ∷ ids) locks found h e =
    elim (Answer-cases (db.get_locks_by_entry_device "protect_doorbell" d)) [
      | inl r ↦ absurd (ground arith)
      | inr (more, r) ↦
          add_cameras-IsResolved db ids (add_locks locks more) found
            (add_locks-IsResolved more locks h) (ground arith)
    ]

keep-IsVisible : (locks : List Lock) → IsVisible (keep (λ l. not l.hidden) locks)
keep-IsVisible [] = tt
keep-IsVisible (l ∷ locks) = ground (arith, keep-IsVisible locks)

seen-keep :
    (id : ℕ) (locks : List Lock)
    → seen id locks ≡ false
    → seen id (keep (λ l. not l.hidden) locks) ≡ false
seen-keep id [] h = refl
seen-keep id (l ∷ locks) h = ground (arith, seen-keep id locks)

keep-HasDistinctIds :
    (locks : List Lock) → HasDistinctIds locks → HasDistinctIds (keep (λ l. not l.hidden) locks)
keep-HasDistinctIds [] h = tt
keep-HasDistinctIds (l ∷ locks) h =
    ground (arith, seen-keep l.id locks h.0, keep-HasDistinctIds locks h.1)

-- The locks that are resolved for a location are all visible and have distinct ids, if those that
-- the first query returns have distinct ids.
pub get_locks_for_location-IsResolved :
    (db : Database) (cameras : Answer (List (String × String))) (location_id : String)
    (native locks : List Lock)
    → db.get_locks_for_location location_id ≡ value native
    → HasDistinctIds native
    → get_locks_for_location db cameras location_id ≡ value locks
    → IsVisible locks × HasDistinctIds locks
unfolding get_locks_for_location
get_locks_for_location-IsResolved db cameras location_id native locks hn hd e =
    elim (Answer-cases (db.get_locks_by_entry_device "access_reader" location_id)) [
      | inl r ↦ absurd (ground arith)
      | inr (found, r) ↦
          let visible = keep (λ l. not l.hidden) native in
          let start : IsResolved visible = record {
            visible = keep-IsVisible native;
            distinct = keep-HasDistinctIds native hd;
          } in
          let all =
            add_cameras-IsResolved db (protect_device_ids location_id cameras)
              (add_locks visible found) locks (add_locks-IsResolved found visible start)
              (ground arith) in
          (all.visible, all.distinct)
    ]

-- a visible lock with the id is among them
abbrev pub shows : ℕ → List Lock → Bool
shows id locks = any (λ l. l.id == id && not l.hidden) locks

abbrev pub shows_in : ℕ → Answer (List Lock) → Bool
shows_in id raised = false
shows_in id (value locks) = shows id locks

seen-congr : (a b : ℕ) (locks : List Lock) → (a == b) ≡ true → seen a locks ≡ seen b locks
seen-congr a b locks e = ap (λ i. seen i locks) ((==_iff a b).0 e)

seen-added :
    (id : ℕ) (l : Lock) (locks : List Lock)
    → seen id (if not l.hidden && not (seen l.id locks) then locks ++ l ∷ [] else locks)
      ≡ (seen id locks || l.id == id && not l.hidden)
seen-added id l locks = elim (Bool-cases (not l.hidden && not (seen l.id locks))) [
  | inl e ↦ rw (e, seen-append id locks (l ∷ [])) (ground arith)
  | inr e ↦ rw e (ground (arith, seen-congr l.id id locks))
]

seen-add_locks :
    (id : ℕ) (found locks : List Lock)
    → seen id (add_locks locks found) ≡ (seen id locks || shows id found)
unfolding add_locks
seen-add_locks id [] locks = ground arith
seen-add_locks id (l ∷ found) locks =
    rw (seen-add_locks id found _, seen-added id l locks) (ground arith)

seen-keep_visible :
    (id : ℕ) (locks : List Lock) → seen id (keep (λ l. not l.hidden) locks) ≡ shows id locks
seen-keep_visible id [] = refl
seen-keep_visible id (l ∷ locks) = ground (arith, seen-keep_visible id locks)

seen-add_cameras :
    (db : Database) (id : ℕ) (ids : List String) (locks found : List Lock)
    → add_cameras db locks ids ≡ value found
    → seen id found ≡ (
        seen id locks
        || any (λ d. shows_in id (db.get_locks_by_entry_device "protect_doorbell" d)) ids)
unfolding add_cameras
seen-add_cameras db id [] locks found e = ground arith
seen-add_cameras db id (d ∷ ids) locks found e =
    elim (Answer-cases (db.get_locks_by_entry_device "protect_doorbell" d)) [
      | inl r ↦ absurd (ground arith)
      | inr (more, r) ↦ ground (
        arith,
        r,
        seen-add_locks id more locks,
        seen-add_cameras db id ids (add_locks locks more) found (ground arith),
      )
    ]

-- A resolution that returns finds exactly the visible locks that one of the queries returned: by
-- the location's columns, by an access reader, or by a doorbell of the location or of a camera that
-- is mapped to it.
pub seen-get_locks_for_location :
    (db : Database) (cameras : Answer (List (String × String))) (location_id : String) (id : ℕ)
    (locks : List Lock)
    → get_locks_for_location db cameras location_id ≡ value locks
    → seen id locks ≡ (
        shows_in id (db.get_locks_for_location location_id)
        || shows_in id (db.get_locks_by_entry_device "access_reader" location_id)
        || any
            (λ d. shows_in id (db.get_locks_by_entry_device "protect_doorbell" d))
            (protect_device_ids location_id cameras))
unfolding get_locks_for_location
seen-get_locks_for_location db cameras location_id id locks e =
    elim (Answer-cases (db.get_locks_for_location location_id)) [
      | inl n ↦ absurd (ground arith)
      | inr (native, n) ↦
          elim (Answer-cases (db.get_locks_by_entry_device "access_reader" location_id)) [
            | inl r ↦ absurd (ground arith)
            | inr (found, r) ↦
                let visible = keep (λ l. not l.hidden) native in
                ground (
                  arith,
                  seen-keep_visible id native,
                  seen-add_locks id found visible,
                  seen-add_cameras db id (protect_device_ids location_id cameras)
                      (add_locks visible found) locks (ground arith),
                )
          ]
    ]
