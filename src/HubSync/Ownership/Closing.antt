-- ===== src/HubSync/Ownership/Closing.antt =====
-- A release in hub_sync.py opens no door, drops no row of a held door, and leaves the queue alone.
use hassio_access_control.Prelude.{
  String, ◌≡◌, ◌≢◌, refl, sym, ◌∙◌, Bool, true, false, ◌||◌, List, [], ◌∷◌, arith, if◌then◌else◌,
  str_eq, subst,
}
use hassio_access_control.HubSync.{
  keep_lock, AccessRule, held_open, held_locked, native, Hub, owns_lock, owns_nothing, Sync,
  hold_row, record_hub_state,
}
use hassio_access_control.HubSync.Drive.{
  Command, hold_unlocked, hold_locked, reset, rule_of, Attempt, given_up, no_client, given_up_late,
  raised, returned, set_rule, write_ahead, Round, go_on, ended, send, try_once, drive_hub,
  max_attempts, take,
}
use hassio_access_control.HubSync.Release.{
  release_command, own_release, end_release, drive_release, release_hub,
}
use hassio_access_control.HubSync.Ownership.{
  HasRow, upsert-HasRow, delete-HasRow, record-HasRow, record-rules, record-pending,
}
use hassio_access_control.HubSync.Ownership.Steps.{drive_hub-Sets}
use hassio_access_control.HubSync.Ownership.Releases.{release_command-closes}

-- from `s` to `t`, no door is opened, a held door keeps its rows, and the queue is the same
pub record IsClosing (s t : Sync) : Type 1 where
  pub closes : (d : String) → t.rules d ≡ held_open → s.rules d ≡ held_open
  pub keeps :
      (R : String → String → Type 0) (d : String)
      → ((k e : String) → R k e → e ≡ d)
      → t.rules d ≡ held_open
      → HasRow R s.holds
      → HasRow R t.holds
  pub pending : t.pending_release ≡ s.pending_release

pub same-IsClosing : (s : Sync) → IsClosing s s
same-IsClosing s = record { closes = λ d h. h; keeps = λ R d f e h. h; pending = refl }

pub then-IsClosing : (s t u : Sync) → IsClosing s t → IsClosing t u → IsClosing s u
then-IsClosing s t u a b = record {
  closes = λ d h. a.closes d (b.closes d h);
  keeps = λ R d f e h. b.keeps R d f e (a.keeps R d f (b.closes d e) h);
  pending = b.pending ∙ a.pending;
}

hold-IsClosing :
    (eid : String) (hub : Hub) (s : Sync) → IsClosing s (record_hub_state eid hub owns_lock s).1
hold-IsClosing eid hub s = record {
  closes = λ d h. subst (λ r. r d ≡ held_open) (record-rules eid hub owns_lock s) h;
  keeps = λ R d f e h.
      record-HasRow R eid hub owns_lock s (upsert-HasRow R (hold_row eid hub keep_lock) s.holds) h;
  pending = record-pending eid hub owns_lock s;
}

clear-IsClosing :
    (eid : String) (hub : Hub) (s : Sync)
    → s.rules hub.device_id ≢ held_open
    → IsClosing s (record_hub_state eid hub owns_nothing s).1
clear-IsClosing eid hub s n = record {
  closes = λ d h. subst (λ r. r d ≡ held_open) (record-rules eid hub owns_nothing s) h;
  keeps = λ R d f e h.
      let held = subst (λ r. r d ≡ held_open) (record-rules eid hub owns_nothing s) e in
      record-HasRow R eid hub owns_nothing s
        (delete-HasRow R eid hub.device_id s.holds
          (λ k x p same. n (subst (λ y. s.rules y ≡ held_open) (sym (same ∙ f k x p)) held)))
        h;
  pending = record-pending eid hub owns_nothing s;
}

set_rule-IsClosing :
    (device : String) (rule : AccessRule) (s : Sync)
    → rule ≢ held_open
    → IsClosing s (set_rule device rule s)
set_rule-IsClosing device rule s n = record {
  closes = λ d h. by_device d (str_eq device d) h;
  keeps = λ R d f e h. h;
  pending = refl;
}
  where
    by_device :
        (d : String) (b : Bool)
        → (if b then rule else s.rules d) ≡ held_open
        → s.rules d ≡ held_open
    by_device d true h = absurd (n h)
    by_device d false h = h

abbrev state_of : Round → Sync
state_of (go_on s) = s
state_of (ended drove s) = s

try_once-IsClosing :
    (eid : String) (hub : Hub) (command : Command) (attempt : Attempt) (s : Sync)
    → rule_of command ≢ held_open
    → IsClosing s (state_of (try_once eid hub command attempt s))
unfolding try_once send write_ahead
try_once-IsClosing eid hub hold_unlocked attempt s n = absurd (n refl)
try_once-IsClosing eid hub command given_up s n = same-IsClosing s
try_once-IsClosing eid hub command no_client s n = same-IsClosing s
try_once-IsClosing eid hub hold_locked given_up_late s n = same-IsClosing s
try_once-IsClosing eid hub hold_locked (raised false) s n = same-IsClosing s
try_once-IsClosing eid hub hold_locked (raised true) s n =
    set_rule-IsClosing hub.device_id held_locked s n
try_once-IsClosing eid hub hold_locked returned s n =
    set_rule-IsClosing hub.device_id held_locked s n
try_once-IsClosing eid hub reset given_up_late s n = same-IsClosing s
try_once-IsClosing eid hub reset (raised false) s n = same-IsClosing s
try_once-IsClosing eid hub reset (raised true) s n = set_rule-IsClosing hub.device_id native s n
try_once-IsClosing eid hub reset returned s n = set_rule-IsClosing hub.device_id native s n

drive_hub-IsClosing :
    (eid : String) (hub : Hub) (command : Command) (attempts : List Attempt) (s : Sync)
    → rule_of command ≢ held_open
    → IsClosing s (drive_hub eid hub command attempts s).1
unfolding drive_hub
drive_hub-IsClosing eid hub command [] s n = same-IsClosing s
drive_hub-IsClosing eid hub command (a ∷ attempts) s n =
    by_round (try_once eid hub command a s) (try_once-IsClosing eid hub command a s n)
      (λ t. drive_hub-IsClosing eid hub command attempts t n)
  where
    by_round :
        (r : Round)
        → IsClosing s (state_of r)
        → ((t : Sync) → IsClosing t (drive_hub eid hub command attempts t).1)
        → IsClosing s
            (elim r as (λ x. Bool × Sync) [
              | go_on s' ↦ drive_hub eid hub command attempts s'
              | ended drove s' ↦ (drove, s')
            ]).1
    by_round (go_on t) k rest = then-IsClosing s t _ k (rest t)
    by_round (ended drove t) k rest = k

-- the release of one hub, and what it says when it says that the hub is released
pub record IsReleasing (hub : Hub) (s : Sync) (x : Bool × Sync) : Type 1 where
  pub closing : IsClosing s x.1
  pub released : x.0 ≡ true → x.1.rules hub.device_id ≢ held_open

end_release-IsReleasing :
    (eid : String) (hub : Hub) (persistent recorded drove : Bool) (s t : Sync)
    → IsClosing s t
    → (drove ≡ true → t.rules hub.device_id ≢ held_open)
    → IsReleasing hub s (end_release eid hub persistent recorded (drove, t))
unfolding end_release
end_release-IsReleasing eid hub persistent false drove s t c f = record {
  closing = c;
  released = λ e. absurd (ground (arith, e));
}
end_release-IsReleasing eid hub persistent true false s t c f = record {
  closing = c;
  released = λ e. absurd (ground (arith, e));
}
end_release-IsReleasing eid hub true true true s t c f = record { closing = c; released = f }
end_release-IsReleasing eid hub false true true s t c f = record {
  closing = then-IsClosing s t _ c (clear-IsClosing eid hub t (f refl));
  released = λ e held.
      f refl (subst (λ r. r hub.device_id ≡ held_open) (record-rules eid hub owns_nothing t) held);
}

drive_release-IsReleasing :
    (eid : String) (hub : Hub) (persistent enforcing : Bool) (attempts : List Attempt) (s : Sync)
    (x : Bool × Sync)
    → IsClosing s x.1
    → IsReleasing hub s (drive_release eid hub persistent enforcing attempts x)
unfolding drive_release
drive_release-IsReleasing eid hub persistent enforcing attempts s (recorded, t) c =
    let command = release_command persistent recorded enforcing in
    let tries = take (max_attempts enforcing) attempts in
    let x = drive_hub eid hub command tries t in
    let closes = release_command-closes persistent recorded enforcing in
    end_release-IsReleasing eid hub persistent recorded x.0 s x.1
      (then-IsClosing s t x.1 c (drive_hub-IsClosing eid hub command tries t closes))
      (λ drove held. closes (sym (drive_hub-Sets eid hub command tries t drove) ∙ held))

own_release-IsClosing :
    (eid : String) (hub : Hub) (persistent : Bool) (s : Sync)
    → IsClosing s (own_release eid hub persistent s).1
unfolding own_release
own_release-IsClosing eid hub true s = hold-IsClosing eid hub s
own_release-IsClosing eid hub false s = same-IsClosing s

pub release_hub-IsReleasing :
    (eid : String) (enforcing : Bool) (hub : Hub) (attempts : List Attempt) (s : Sync)
    → IsReleasing hub s (release_hub eid enforcing hub attempts s)
unfolding release_hub
release_hub-IsReleasing eid enforcing hub attempts s =
    let persistent = enforcing || s.fail_safe eid in
    drive_release-IsReleasing eid hub persistent enforcing attempts s
      (own_release eid hub persistent s) (own_release-IsClosing eid hub persistent s)
