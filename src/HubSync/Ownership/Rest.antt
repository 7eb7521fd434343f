-- ===== src/HubSync/Ownership/Rest.antt =====
-- What `_process_pending_releases` of hub_sync.py leaves of the hubs of an entity.
use hassio_access_control.Prelude.{
  String, ◌≡◌, ◌≢◌, sym, ap, ◌∙◌, ◌⊎◌, inl, inr, Bool, true, false, not, ◌&&◌, ◌||◌, List, [], ◌∷◌,
  ◌++◌, arith, if◌then◌else◌, str_eq, eq_iff, subst, Bool-cases,
}
use hassio_access_control.HubSync.{held_open, Hub, Sync, has_hub}
use hassio_access_control.HubSync.Release.{
  Meeting, append_unique_hubs, append_hub, release_hub, release_hubs,
}
use hassio_access_control.HubSync.Ownership.Queue.{has_hub-snoc, has_hub-fill}
use hassio_access_control.HubSync.Ownership.Closing.{
  IsClosing, same-IsClosing, then-IsClosing, release_hub-IsReleasing,
}

append_hub-has :
    (d : String) (hub : Hub) (target : List Hub)
    → d ≢ ""
    → has_hub d target || str_eq hub.device_id d ≡ true
    → has_hub d (append_hub target hub) ≡ true
append_hub-has d hub target n h = elim (Bool-cases (has_hub d target)) [
  | inl e ↦ ground (arith, has_hub-snoc d target hub, has_hub-fill d hub target, e)
  | inr e ↦
      let same = (eq_iff hub.device_id d).0 (ground (arith, e, h)) in
      let named =
        elim (Bool-cases (str_eq hub.device_id "")) as (λ x. str_eq hub.device_id "" ≡ false) [
          | inl b ↦ absurd (n (sym same ∙ (eq_iff hub.device_id "").0 b))
          | inr b ↦ b
        ] in
      ground (arith, has_hub-snoc d target hub, e, h, named, ap (λ k. has_hub k target) same)
]

-- after hubs are merged into a list, the list has them and what it had
pub append-has :
    (d : String) (hubs target : List Hub)
    → d ≢ ""
    → has_hub d target || has_hub d hubs ≡ true
    → has_hub d (append_unique_hubs target hubs) ≡ true
unfolding append_unique_hubs
append-has d [] target n h = ground (arith, h)
append-has d (hub ∷ hubs) target n h =
    append-has d hubs (append_hub target hub) n
      (merged (Bool-cases (has_hub d target || str_eq hub.device_id d)))
  where
    merged :
        (has_hub d target || str_eq hub.device_id d ≡ true)
          ⊎ (has_hub d target || str_eq hub.device_id d ≡ false)
        → has_hub d (append_hub target hub) || has_hub d hubs ≡ true
    merged (inl e) = ground (arith, append_hub-has d hub target n e)
    merged (inr e) = ground (arith, e, h)

-- what is left of the hubs of an entity
pub record IsRest (hubs remaining : List Hub) (s : Sync) (x : List Hub × Sync) : Type 1 where
  pub closing : IsClosing s x.1
  pub rest :
      (d : String)
      → d ≢ ""
      → x.1.rules d ≡ held_open
      → has_hub d remaining || has_hub d hubs ≡ true
      → has_hub d x.0 ≡ true

pub release_hubs-IsRest :
    (eid : String) (enforcing : Bool) (meets : Hub → Meeting) (hubs remaining : List Hub) (s : Sync)
    → IsRest hubs remaining s (release_hubs eid enforcing meets remaining hubs s)
unfolding release_hubs
release_hubs-IsRest eid enforcing meets [] remaining s = record {
  closing = same-IsClosing s;
  rest = λ d n held h. ground (arith, h);
}
release_hubs-IsRest eid enforcing meets (hub ∷ hubs) remaining s =
    by_urgent ((meets hub).urgent && not enforcing)
      (release_hubs-IsRest eid enforcing meets hubs kept x.1)
  where
    x : Bool × Sync
    x = release_hub eid enforcing hub (meets hub).attempts s

    kept : List Hub
    kept = if x.0 then remaining else remaining ++ hub ∷ []

    stays :
        (d : String)
        → x.1.rules d ≡ held_open
        → has_hub d remaining || has_hub d (hub ∷ hubs) ≡ true
        → (x.0 ≡ true) ⊎ (x.0 ≡ false)
        → has_hub d kept || has_hub d hubs ≡ true
    stays d held h (inl e) =
        let other =
          elim (Bool-cases (str_eq hub.device_id d)) as (λ y. str_eq hub.device_id d ≡ false) [
            | inl b ↦ absurd (
                (release_hub-IsReleasing eid enforcing hub (meets hub).attempts s).released e
                  (subst (λ k. x.1.rules k ≡ held_open) (sym ((eq_iff hub.device_id d).0 b)) held))
            | inr b ↦ b
          ] in
        rw e (ground (arith, other, h))
    stays d held h (inr e) = rw e (ground (arith, has_hub-snoc d remaining hub, h))

    by_urgent :
        (b : Bool)
        → IsRest hubs kept x.1 (release_hubs eid enforcing meets kept hubs x.1)
        → IsRest (hub ∷ hubs) remaining s (
            if b
            then (append_unique_hubs remaining (hub ∷ hubs), s)
            else release_hubs eid enforcing meets kept hubs x.1)
    by_urgent true k = record {
      closing = same-IsClosing s;
      rest = λ d n held h. append-has d (hub ∷ hubs) remaining n h;
    }
    by_urgent false k = record {
      closing =
          then-IsClosing s x.1 _
            (release_hub-IsReleasing eid enforcing hub (meets hub).attempts s).closing k.closing;
      rest = λ d n held h. k.rest d n held (stays d (k.closing.closes d held) h (Bool-cases x.0));
    }
