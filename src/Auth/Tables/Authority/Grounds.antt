-- ===== src/Auth/Tables/Authority/Grounds.antt =====
-- An authorized access has a group or a rule in the tables of database.py.
use hassio_access_control.Prelude.{
  ℕ, ◌≡◌, refl, sym, ◌⊎◌, inl, inr, true, false, ◌||◌, Option, none, some, List, [], ◌∷◌, ◌++◌,
  keep, any, arith, subst, ◌==◌, Some, Some-imp, Some-append, any-Some, Some-keep, Bool-cases,
}
use hassio_access_control.Schedule.{check_schedule}
use hassio_access_control.Auth.Alarm.{Group, is_active}
use hassio_access_control.Auth.Database.{
  Answer, Answer-cases, value, raised, User, Lock, Rule, Database,
}
use hassio_access_control.Auth.Round.{access, rule_access}
use hassio_access_control.Auth.Process.{Event, group_lock_ids, group_granted}
use hassio_access_control.Auth.Process.Soundness.{is_authorized}
use hassio_access_control.Auth.Process.Soundness.Decision.{group_ids, accesses_of}
use hassio_access_control.Auth.Tables.{LockEntry, GroupRow, Tables, Serves}
use hassio_access_control.Auth.Tables.Authority.{InGroup, HasRule}
use hassio_access_control.Auth.Tables.Authority.Rows.{
  answered_lem, rule_lem, groups_lem, group_locks_lem,
}

module _ (by_group : List GroupRow → List GroupRow) (by_lock : List LockEntry → List LockEntry)
    (t : Tables) (db : Database) (serves : Serves by_group by_lock t db)
    (groups_ordered : (Q : GroupRow → Type 0) (xs : List GroupRow)
      → Some Q (by_group xs)
      → Some Q xs)
    (locks_ordered : (Q : LockEntry → Type 0) (xs : List LockEntry)
      → Some Q (by_lock xs)
      → Some Q xs) where
  -- what a group's id among those of the locks comes from
  group_ids_lem :
      (id : ℕ) (active : List Group) (ids : List ℕ)
      → group_lock_ids db active ≡ value ids
      → Some (λ i. (i == id) ≡ true) ids
      → Some (λ g. Some (λ k. (k.lock_id ≡ id) × (k.group_id ≡ g.id)) t.group_locks) active
  unfolding group_lock_ids
  group_ids_lem id [] ids e h =
      let none_found : ids ≡ [] = ground (arith, e) in
      absurd (subst (Some (λ i. (i == id) ≡ true)) none_found h)
  group_ids_lem id (g ∷ active) ids e h = elim (Answer-cases (db.get_group_locks g.id)) [
    | inl r ↦ absurd (ground (arith, r, e))
    | inr (found, r) ↦ elim (Answer-cases (group_lock_ids db active)) [
      | inl r' ↦ absurd (ground (arith, r, r', e))
      | inr (more, r') ↦
          let all : ids ≡ found ++ more = ground (arith, r, r', e) in
          elim (Some-append (λ i. (i == id) ≡ true) found more
            (subst (Some (λ i. (i == id) ≡ true)) all h)) [
              | inl here ↦
                  let tables =
                    answered_lem _ found (db.get_group_locks g.id) (serves.group_locks g.id) r in
                  inl (
                    group_locks_lem t by_lock g.id id locks_ordered
                      (subst (Some (λ i. (i == id) ≡ true)) tables here))
              | inr later ↦ inr (group_ids_lem id active more r' later)
            ]
    ]
  ]

  module _ (ev : Event) (user : User) (groups : List Group)
      (member : db.get_user_groups user.id ≡ value groups) where
    -- a group of the user that is active, as a row
    member_lem :
        (P : Group → Type 0)
        → Some P (keep (is_active ev.group_now) groups)
        → Some
            (λ g.
              Some (λ m. (m.group_id ≡ g.group.id) × (m.user_id ≡ user.id)) t.group_members
              × ((is_active ev.group_now g.group ≡ true) × P g.group))
            t.groups
    member_lem P h =
        let tables =
          answered_lem _ groups (db.get_user_groups user.id) (serves.groups user.id) member in
        groups_lem t by_group (λ g. (is_active ev.group_now g ≡ true) × P g) user.id groups_ordered
          (subst (Some (λ g. (is_active ev.group_now g ≡ true) × P g)) tables
            (Some-keep P (is_active ev.group_now) groups h))

    in_group_lem :
        (ids : List ℕ) (id : ℕ)
        → group_ids db (keep (is_active ev.group_now) groups) ≡ value ids
        → (any (λ g. g.all_locks) (keep (is_active ev.group_now) groups) || any (λ i. i == id) ids)
          ≡ true
        → InGroup t ev.group_now user.id id
    in_group_lem ids id i h =
        let active = keep (is_active ev.group_now) groups in
        elim (Bool-cases (any (λ g. g.all_locks) active)) [
          | inl a ↦
              Some-imp _ _ (λ g q. (q.0, q.1.0, inl q.1.1)) t.groups
                (member_lem (λ g. g.all_locks ≡ true) (any-Some _ active a))
          | inr a ↦
              Some-imp _ _ (λ g q. (q.0, q.1.0, inr q.1.1)) t.groups
                (member_lem (λ g. Some (λ k. (k.lock_id ≡ id) × (k.group_id ≡ g.id)) t.group_locks)
                  (group_ids_lem id active ids (ground (arith, a, i))
                    (any-Some _ ids (ground (arith, a, h)))))
        ]

    allowed_lem :
        (rule : Rule) (id : ℕ)
        → is_authorized (rule_access (ev.rule_now id) id (value (some rule))) ≡ true
        → (rule.enabled ≡ true)
          × ((rule.schedule.schedule_enabled ≡ false)
              ⊎ (check_schedule (ev.rule_now id) rule.schedule ≡ true))
    unfolding rule_access
    allowed_lem rule id h = elim (Bool-cases rule.schedule.schedule_enabled) [
      | inl e ↦ (ground (arith, h), inr (ground (arith, e, h)))
      | inr e ↦ (ground (arith, h), inl e)
    ]

    has_rule_lem :
        (id : ℕ) (answer : Answer (Option Rule))
        → db.get_rules_for_user_and_lock user.id id ≡ answer
        → is_authorized (rule_access (ev.rule_now id) id answer) ≡ true
        → HasRule t (ev.rule_now id) user.id id
    unfolding rule_access
    has_rule_lem id raised e h = absurd (ground (arith, h))
    has_rule_lem id (value none) e h = absurd (ground (arith, h))
    has_rule_lem id (value (some rule)) e h =
        let tables =
          answered_lem _ (some rule) (db.get_rules_for_user_and_lock user.id id)
            (serves.rules user.id id) e in
        let allowed = allowed_lem rule id h in
        Some-imp _ _ (λ r q. (q.0, q.1, q.2.0, q.2.1)) t.access_rules
          (rule_lem t
            (λ r.
              (r.enabled ≡ true)
              × ((r.schedule.schedule_enabled ≡ false)
                  ⊎ (check_schedule (ev.rule_now id) r.schedule ≡ true)))
            user.id id rule (sym tables) allowed)

    pub authority_lem :
        (ids : List ℕ) (lock : Lock)
        → group_ids db (keep (is_active ev.group_now) groups) ≡ value ids
        → is_authorized (accesses_of db ev user (keep (is_active ev.group_now) groups) ids lock)
          ≡ true
        → InGroup t ev.group_now user.id lock.id ⊎ HasRule t (ev.rule_now lock.id) user.id lock.id
    unfolding access group_granted
    authority_lem ids lock i h =
        let active = keep (is_active ev.group_now) groups in
        elim (Bool-cases (any (λ g. g.all_locks) active || any (λ id. id == lock.id) ids)) [
          | inl g ↦ inl (in_group_lem ids lock.id i g)
          | inr g ↦ inr (
              has_rule_lem lock.id (db.get_rules_for_user_and_lock user.id lock.id) refl
                (ground (arith, g, h)))
        ]
