-- ===== src/HubSync/Marker/Restart.antt =====
-- What a hold went through that hub_sync.py adopts again after a restart.
use hassio_access_control.Prelude.{
  ℕ, ◌+◌, ◌≤◌, String, ◌≡◌, refl, sym, subst, Bool, true, false, not, ◌&&◌, ◌||◌, Option, none,
  some, List, [], ◌∷◌, keep, arith, leb, leb→le, if◌then◌else◌, All, All-keep, All-imp,
}
use hassio_access_control.HubSync.Marker.{
  Stored, marker, Deletion, deleted, raised, LockOption, is_in, is_none, is_opted, holds_open_only,
  is_preservable, preservable_holds, write_clean_shutdown_marker, vouched,
  consume_clean_shutdown_marker, is_confirmed, preserve_clean_holds, adopted_holds, opted_in,
  Shutdown, Recovery, shutdown_marker, recover_marker,
}

-- a hold that is adopted again
pub record IsVouched (d : Shutdown) (v : Recovery) (row : Option Stored) (eid : String)
    : Type 0 where
  pub peaceful : (d.lockdown ≡ false) × (v.lockdown ≡ false)
  pub opted : (opted_in d.locks eid ≡ true) × (opted_in v.locks eid ≡ true)
  pub held : (holds_open_only d.sync eid ≡ true) × (holds_open_only v.sync eid ≡ true)
  pub unlatched : d.sync.fail_safe eid ≡ false
  pub fresh : (v.time ≤ d.time + 1800) × (d.time ≤ v.time + 60)
  pub read_back : v.readback.is_unlocked eid ≡ true
  pub used_up : row ≡ none

abbrev IsPreserved : Shutdown → String → Type 0
IsPreserved d eid =
    (d.lockdown ≡ false)
    × (opted_in d.locks eid ≡ true)
    × (holds_open_only d.sync eid ≡ true)
    × (d.sync.fail_safe eid ≡ false)

every : (xs : List String) → All (λ x. Unit {0}) xs
every [] = tt
every (x ∷ xs) = (tt, every xs)

preservable-IsPreserved :
    (d : Shutdown) (locks : Option (List LockOption))
    → d.locks ≡ locks
    → All (IsPreserved d) (preservable_holds d.lockdown d.recovered locks d.candidates d.sync)
unfolding preservable_holds
preservable-IsPreserved d none e = tt
preservable-IsPreserved d (some locks) e =
    refused (d.lockdown || not d.recovered || is_none locks) refl
  where
    refused :
        (b : Bool)
        → d.lockdown || not d.recovered || is_none locks ≡ b
        → All (IsPreserved d) (if b then [] else keep (is_preservable locks d.sync) d.candidates)
    refused true h = tt
    refused false h =
        All-imp _ (IsPreserved d)
          (λ eid p. (
            ground (arith, h),
            subst (λ o. opted_in o eid ≡ true) (sym e) (ground (arith, p.0)),
            ground (arith, p.0),
            ground (arith, p.0),
          ))
          (keep (is_preservable locks d.sync) d.candidates)
          (All-keep (λ x. Unit {0}) (is_preservable locks d.sync) d.candidates (every d.candidates))

-- what the consumption trusts
consume-fresh :
    (Q : String → Type 0) (v : Recovery) (ts : ℕ) (eids : List String)
    → All Q eids
    → let x =
        consume_clean_shutdown_marker v.read_fails v.deletion v.time (some (marker ts eids)) in
      All (λ eid. Q eid × ((v.time ≤ ts + 1800) × (ts ≤ v.time + 60)) × (x.1 ≡ none)) x.0
unfolding consume_clean_shutdown_marker vouched
consume-fresh Q v ts eids h = by_answer v.read_fails v.deletion
  where
    in_window :
        (b : Bool)
        → leb ts (v.time + 60) && leb v.time (ts + 1800) ≡ b
        → All
            (λ eid.
              Q eid
              × ((v.time ≤ ts + 1800) × (ts ≤ v.time + 60))
              × (◌≡◌ {A = Option Stored} none none))
            (if b then eids else [])
    in_window true e =
        All-imp Q _
          (λ eid q. (
            q,
            (
              leb→le v.time (ts + 1800) (ground (arith, e)),
              leb→le ts (v.time + 60) (ground (arith, e)),
            ),
            refl,
          ))
          eids h
    in_window false e = tt

    by_answer :
        (fails : Bool) (deletion : Deletion)
        → let x = consume_clean_shutdown_marker fails deletion v.time (some (marker ts eids)) in
          All (λ eid. Q eid × ((v.time ≤ ts + 1800) × (ts ≤ v.time + 60)) × (x.1 ≡ none)) x.0
    by_answer true deletion = tt
    by_answer false deleted = in_window (leb ts (v.time + 60) && leb v.time (ts + 1800)) refl
    by_answer false (raised gone) = tt

-- what an adoption checks again
adopted-checked :
    (Q : String → Type 0) (v : Recovery) (vouched_for : List String)
    (locks : Option (List LockOption))
    → v.locks ≡ locks
    → All Q vouched_for
    → All
        (λ eid.
          Q eid
          × (v.lockdown ≡ false)
          × (opted_in v.locks eid ≡ true)
          × (holds_open_only v.sync eid ≡ true)
          × (v.readback.is_unlocked eid ≡ true))
        (adopted_holds v.lockdown locks v.readback v.recovered vouched_for v.sync)
unfolding adopted_holds preserve_clean_holds
adopted-checked Q v vouched_for none e h = tt
adopted-checked Q v vouched_for (some locks) e h = refused (is_none vouched_for || v.lockdown) refl
  where
    known : List String
    known = keep (λ eid. is_in eid v.recovered) vouched_for

    test : String → Bool
    test eid =
        is_opted locks eid && holds_open_only v.sync eid && is_confirmed v.readback v.sync eid

    refused :
        (b : Bool)
        → is_none vouched_for || v.lockdown ≡ b
        → All
            (λ eid.
              Q eid
              × (v.lockdown ≡ false)
              × (opted_in v.locks eid ≡ true)
              × (holds_open_only v.sync eid ≡ true)
              × (v.readback.is_unlocked eid ≡ true))
            (if b then [] else keep test known)
    refused true n = tt
    refused false n =
        All-imp _ _
          (λ eid p. (
            p.1.1,
            ground (arith, n),
            subst (λ o. opted_in o eid ≡ true) (sym e) (ground (arith, p.0)),
            ground (arith, p.0),
            ground (arith, p.0),
          ))
          (keep test known)
          (All-keep _ test known (All-keep Q (λ eid. is_in eid v.recovered) vouched_for h))

-- A clean shutdown, whose write of its marker succeeds, is followed by a recovery: every hold that
-- the recovery adopts again meets `IsVouched`. That is, no lockdown is on at either moment; a row
-- opts the entity in at both; the app holds its door open, and not locked, at both; its unlock was
-- no fail-safe one; the recovery's time is at most 1800 seconds after the shutdown's and at most 60
-- before it; Home Assistant reads it back unlocked; and the recovery left no marker, so that no
-- later one can trust it again.
pub recover_marker-IsVouched :
    (d : Shutdown) (v : Recovery) (row : Option Stored)
    → d.fails ≡ false
    → All
        (IsVouched d v (recover_marker v (shutdown_marker d row).1).1)
        (recover_marker v (shutdown_marker d row).1).0
unfolding shutdown_marker recover_marker write_clean_shutdown_marker
recover_marker-IsVouched d v row e = by_write d.fails e
  where
    preserved : List String
    preserved = preservable_holds d.lockdown d.recovered d.locks d.candidates d.sync

    by_write :
        (fails : Bool)
        → fails ≡ false
        → let x = recover_marker v (write_clean_shutdown_marker fails d.time preserved row).1 in
          All (IsVouched d v x.1) x.0
    by_write true h = absurd (ground (arith, h))
    by_write false h =
        let x =
          consume_clean_shutdown_marker v.read_fails v.deletion v.time
            (some (marker d.time preserved)) in
        All-imp _ (IsVouched d v x.1)
          (λ eid p. record {
            peaceful = (p.0.0.0, p.1);
            opted = (p.0.0.1, p.2);
            held = (p.0.0.2, p.3);
            unlatched = p.0.0.3;
            fresh = p.0.1;
            read_back = p.4;
            used_up = p.0.2;
          })
          (adopted_holds v.lockdown v.locks v.readback v.recovered x.0 v.sync)
          (adopted-checked _ v x.0 v.locks refl (
            consume-fresh (IsPreserved d) v d.time preserved
              (preservable-IsPreserved d d.locks refl)))
