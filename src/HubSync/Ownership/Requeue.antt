-- ===== src/HubSync/Ownership/Requeue.antt =====
-- What `recover` of hub_sync.py does to the queue before the first release: but for the preserved
-- holds, nothing leaves it.
use hassio_access_control.Prelude.{
  String, ◌≡◌, ◌≢◌, refl, sym, ◌∙◌, Bool, true, false, List, [], ◌∷◌, arith, if◌then◌else◌, str_eq,
  eq_iff, subst, ap, Some-imp, none, inl, inr, Bool-cases,
}
use hassio_access_control.Prelude.Map.{Map, erase, get-erase}
use hassio_access_control.HubSync.{held_open, Hub, Sync, hubs_of, has_hub}
use hassio_access_control.HubSync.Release.{queue_release, append_unique_hubs, add_hubs}
use hassio_access_control.HubSync.Ownership.{HasRow}
use hassio_access_control.HubSync.Ownership.Queue.{IsKept, Waits, IsQueued, hubs_of-add}
use hassio_access_control.HubSync.Ownership.Releases.{queue_release-rules}
use hassio_access_control.HubSync.Marker.{is_in}
use hassio_access_control.HubSync.Recover.{erase_all, latch_recovered, queue_all}
use hassio_access_control.HubSync.Ownership.Rest.{append-has}

erase_all-hubs_of :
    (k : String) (preserved : List String) (m : Map (List Hub))
    → is_in k preserved ≡ false
    → hubs_of k (erase_all preserved m) ≡ hubs_of k m
erase_all-hubs_of k [] m e = refl
erase_all-hubs_of k (eid ∷ preserved) m e =
    erase_all-hubs_of k preserved (erase eid m) (ground (arith, e))
    ∙ ground (arith, e, get-erase k eid m)

pub latch_recovered-IsQueued :
    (preserved : List String) (s : Sync)
    → IsQueued preserved s
    → IsQueued preserved (latch_recovered preserved s)
unfolding latch_recovered
latch_recovered-IsQueued preserved s h = record {
  at = λ d n held. Some-imp _ _ (λ r p. (p.0, kept d r.entity_id p.1)) s.holds (h.at d n held);
}
  where
    kept :
        (d k : String) → IsKept preserved d s k → IsKept preserved d (latch_recovered preserved s) k
    kept d k (inl p) = inl p
    kept d k (inr q) = elim (Bool-cases (is_in k preserved)) [
      | inl e ↦ inl e
      | inr e ↦ inr (ap (has_hub d) (erase_all-hubs_of k preserved s.pending_release e) ∙ q)
    ]

-- what was queued stays queued
Grows : Sync → Sync → Type 0
Grows s t =
    (d k : String)
    → d ≢ ""
    → has_hub d (hubs_of k s.pending_release) ≡ true
    → has_hub d (hubs_of k t.pending_release) ≡ true

queue_release-Grows :
    (eid : String) (resolved : List Hub) (s : Sync) → Grows s (queue_release eid none resolved s)
unfolding queue_release Grows
queue_release-Grows eid resolved s = by_held (
    append_unique_hubs (append_unique_hubs [] (hubs_of eid s.held_open))
      (hubs_of eid s.held_locked))
  where
    grown :
        (hubs : List Hub)
        → Grows s (record s { pending_release = add_hubs eid hubs s.pending_release })
    grown hubs d k n h = rw (hubs_of-add k eid hubs s.pending_release) (by_key (str_eq eid k) refl)
      where
        by_key :
            (b : Bool)
            → str_eq eid k ≡ b
            → has_hub d (
                if b
                then append_unique_hubs (hubs_of eid s.pending_release) hubs
                else hubs_of k s.pending_release)
              ≡ true
        by_key true e = append-has d hubs (hubs_of eid s.pending_release) n (
            ground (
              arith,
              subst (λ j. has_hub d (hubs_of j s.pending_release) ≡ true) (sym ((eq_iff eid k).0 e))
                  h,
            ))
        by_key false e = h

    queued :
        (hubs : List Hub)
        → Grows s (elim hubs as (λ x. Sync) [
          | [] ↦ s
          | hub ∷ more ↦ record s { pending_release = add_hubs eid (hub ∷ more) s.pending_release }
        ])
    queued [] = λ d k n h. h
    queued (hub ∷ more) = grown (hub ∷ more)

    by_held :
        (held : List Hub)
        → Grows s (elim held as (λ x. Sync) [
          | [] ↦ s
          | hub ∷ more ↦
              elim (append_unique_hubs
                  (append_unique_hubs
                    (append_unique_hubs [] (hub ∷ more))
                    (hubs_of eid s.pending_release))
                  resolved)
                as (λ x. Sync) [
                  | [] ↦ s
                  | h ∷ hs ↦ record s { pending_release = add_hubs eid (h ∷ hs) s.pending_release }
                ]
        ])
    by_held [] = λ d k n h. h
    by_held (hub ∷ more) = queued _

pub queue_all-IsQueued :
    (preserved : List String) (resolved : String → List Hub) (eids : List String) (s : Sync)
    → IsQueued preserved s
    → IsQueued preserved (queue_all resolved eids s)
unfolding queue_all Grows
queue_all-IsQueued preserved resolved [] s h = h
queue_all-IsQueued preserved resolved (eid ∷ eids) s h =
    queue_all-IsQueued preserved resolved eids t (record { at = waits })
  where
    t : Sync
    t = queue_release eid none (resolved eid) s

    kept : (d k : String) → d ≢ "" → IsKept preserved d s k → IsKept preserved d t k
    kept d k n (inl p) = inl p
    kept d k n (inr q) = inr (queue_release-Grows eid (resolved eid) s d k n q)

    waits : (d : String) → d ≢ "" → t.rules d ≡ held_open → Waits preserved d t
    waits d n held =
        let e = queue_release-rules eid none (resolved eid) s in
        subst (HasRow (λ k x. (x ≡ d) × IsKept preserved d t k)) (sym e.0) (
          Some-imp _ _ (λ r p. (p.0, kept d r.entity_id n p.1)) s.holds
            (h.at d n (subst (λ r. r d ≡ held_open) e.1 held)))
