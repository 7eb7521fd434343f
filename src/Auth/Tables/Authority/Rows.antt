-- ===== src/Auth/Tables/Authority/Rows.antt =====
-- What the rows that a query of database.py returns are.
use hassio_access_control.Prelude.{
  ℕ, String, ◌≡◌, refl, sym, ap, inl, inr, true, ◌&&◌, some, List, [], ◌∷◌, map, keep, any, arith,
  subst, ◌==◌, str_eq, eq_iff, Some, All, Some-imp, Some-keep, Some-map, any-Some, All-keep,
  All-map, All-imp, All-among,
}
use hassio_access_control.Auth.Alarm.{Group}
use hassio_access_control.Auth.Database.{Answer, value, User, Lock, Rule}
use hassio_access_control.Auth.Tables.{
  LockEntry, RuleRow, GroupRow, Member, GroupLock, Tables, is_shown, is_at, first,
  get_user_by_ulp_id, get_user_groups, get_group_locks, get_locks_for_location,
  get_rules_for_user_and_lock, IsFrom,
}

-- an answer that returned is the tables'
pub answered_lem : {A : Type 0} (a b : A) (x : Answer A) → IsFrom a x → x ≡ value b → b ≡ a
answered_lem a b x (inl e) h = absurd (ground (arith, e, h))
answered_lem a b x (inr e) h = ground (arith, e, h)

first-Some :
    {A : Type 0} (P : A → Type 0) (a : A) (xs : List A) → first xs ≡ some a → P a → Some P xs
first-Some P a [] h p = absurd (ground (arith, h))
first-Some P a (x ∷ xs) h p = inl (subst P (ground (arith, h)) p)

module _ (t : Tables) where
  pub user_lem :
      (P : User → Type 0) (ulp_id : String) (u : User)
      → get_user_by_ulp_id t ulp_id ≡ some u
      → P u
      → Some (λ r. (r.ulp_id ≡ ulp_id) × P r.user) t.users
  unfolding get_user_by_ulp_id
  user_lem P ulp_id u h p =
      let rows = keep (λ r. str_eq r.ulp_id ulp_id) t.users in
      let found = Some-map (λ r. r.user) P rows (first-Some P u (map (λ r. r.user) rows) h p) in
      Some-imp _ _ (λ r q. ((eq_iff r.ulp_id ulp_id).0 q.0, q.1)) t.users
        (Some-keep (λ r. P r.user) (λ r. str_eq r.ulp_id ulp_id) t.users found)

  pub rule_lem :
      (P : Rule → Type 0) (user_id lock_id : ℕ) (r : Rule)
      → get_rules_for_user_and_lock t user_id lock_id ≡ some r
      → P r
      → Some (λ s. (s.user_id ≡ user_id) × (s.lock_id ≡ lock_id) × P s.rule) t.access_rules
  unfolding get_rules_for_user_and_lock
  rule_lem P user_id lock_id r h p =
      let test = λ (s : RuleRow). s.user_id == user_id && s.lock_id == lock_id in
      let rows = keep test t.access_rules in
      let found = Some-map (λ s. s.rule) P rows (first-Some P r (map (λ s. s.rule) rows) h p) in
      Some-imp _ _ (λ s q. (ground (arith, q.0), ground (arith, q.0), q.1)) t.access_rules
        (Some-keep (λ s. P s.rule) test t.access_rules found)

  -- for an order that returns rows of the list
  pub groups_lem :
      (order_by : List GroupRow → List GroupRow) (P : Group → Type 0) (user_id : ℕ)
      → ((Q : GroupRow → Type 0) (xs : List GroupRow) → Some Q (order_by xs) → Some Q xs)
      → Some P (get_user_groups t order_by user_id)
      → Some
          (λ g.
            Some (λ m. (m.group_id ≡ g.group.id) × (m.user_id ≡ user_id)) t.group_members
            × P g.group)
          t.groups
  unfolding get_user_groups
  groups_lem order_by P user_id ordered h =
      let test = λ (g : GroupRow) (m : Member). m.group_id == g.group.id && m.user_id == user_id in
      let joined = λ (g : GroupRow). any (test g) t.group_members in
      let found = Some-map (λ g. g.group) P (order_by (keep joined t.groups)) h in
      Some-imp _ _
        (λ g q. (
          Some-imp _ _ (λ m e. (ground (arith, e), ground (arith, e))) t.group_members
              (any-Some (test g) t.group_members q.0),
          q.1,
        ))
        t.groups
        (Some-keep (λ g. P g.group) joined t.groups
          (ordered (λ g. P g.group) (keep joined t.groups) found))

  pub group_locks_lem :
      (order_by : List LockEntry → List LockEntry) (group_id lock_id : ℕ)
      → ((Q : LockEntry → Type 0) (xs : List LockEntry) → Some Q (order_by xs) → Some Q xs)
      → Some (λ i. (i == lock_id) ≡ true) (get_group_locks t order_by group_id)
      → Some (λ k. (k.lock_id ≡ lock_id) × (k.group_id ≡ group_id)) t.group_locks
  unfolding get_group_locks
  group_locks_lem order_by group_id lock_id ordered h =
      let test =
        λ (l : LockEntry) (k : GroupLock). k.lock_id == l.lock.id && k.group_id == group_id in
      let joined = λ (l : LockEntry). any (test l) t.group_locks in
      let rows = keep joined t.locks in
      let found = Some-map (λ l. l.lock.id) (λ i. (i == lock_id) ≡ true) (order_by rows) h in
      let among =
        Some-keep _ joined t.locks (ordered (λ l. (l.lock.id == lock_id) ≡ true) rows found) in
      constant t.locks (
        Some-imp _ (λ l. Some (λ k. (k.lock_id ≡ lock_id) × (k.group_id ≡ group_id)) t.group_locks)
          (λ l q.
            Some-imp _ _ (λ k e. (ground (arith, e, q.1), ground (arith, e))) t.group_locks
              (any-Some (test l) t.group_locks q.0))
          t.locks among)
    where
      constant : {B : Type 0} {P : Type 0} (xs : List B) → Some (λ x. P) xs → P
      constant [] e = absurd e
      constant (x ∷ xs) (inl p) = p
      constant (x ∷ xs) (inr e) = constant xs e

  module _ (Q : LockEntry → Type 0) where
    -- a row of the table that satisfies `Q`
    abbrev pub IsStored : Lock → Type 0
    IsStored l = Some (λ r. (r.lock ≡ l) × Q r) t.locks

    pub locks_lem :
        (location_id : String)
        → ((r : LockEntry) → is_at location_id r ≡ true → is_shown r ≡ true → Q r)
        → All IsStored (get_locks_for_location t location_id)
    unfolding get_locks_for_location
    locks_lem location_id f =
        let test = λ (l : LockEntry). is_at location_id l && is_shown l in
        All-map (λ l. l.lock) IsStored (keep test t.locks)
          (All-imp _ _
            (λ x h.
              Some-imp (λ r. x ≡ r) _
                (λ r e. (
                  ap (λ y. y.lock) (sym e),
                  subst Q e (f x (ground (arith, h.0)) (ground (arith, h.0))),
                ))
                t.locks h.1)
            (keep test t.locks)
            (All-keep (λ x. Some (λ r. x ≡ r) t.locks) test t.locks
              (All-among (λ x r. x ≡ r) (λ x. refl) t.locks)))
