-- ===== src/RateLimit/History.antt =====
-- What a pruning does to a table of rate limits that calls and prunings leave.
use hassio_access_control.Prelude.{ℕ, ◌≤◌, List, [], ◌∷◌}
use hassio_access_control.RateLimit.{Key, Table, Policy}
use hassio_access_control.RateLimit.Window.{Call, check, consume, failure, clear, time_of, perform}
use hassio_access_control.RateLimit.Prune.{
  HasDistinctKeys, prune_rate_limits, prune_rate_limits-Agrees,
}
use hassio_access_control.RateLimit.Agreement.{Agrees}
use hassio_access_control.RateLimit.Tidy.{
  IsTidy, find-IsLog, later-IsTidy, check-IsTidy, failure-IsTidy, consume-IsTidy, clear-IsTidy,
  prune-IsTidy,
}

-- what befalls the table
pub data Event : Type 0 where
  called : Call → Event
  pruned : ℕ → ℕ → Event

abbrev pub moment : Event → ℕ
moment (called c) = time_of c
moment (pruned stale_after now) = now

abbrev pub happen : (Key → Policy) → Event → Table → Table
happen policies (called c) rows = (perform policies c rows).1
happen policies (pruned stale_after now) rows = prune_rate_limits stale_after now rows

abbrev pub table_after : (Key → Policy) → List Event → Table → Table
table_after policies [] rows = rows
table_after policies (e ∷ events) rows = table_after policies events (happen policies e rows)

-- the clock does not run backwards between the events, nor up to `now`
abbrev pub IsInOrder : ℕ → List Event → ℕ → Type 0
IsInOrder last [] now = last ≤ now
IsInOrder last (e ∷ events) now = (last ≤ moment e) × IsInOrder (moment e) events now

happen-IsTidy :
    (policies : Key → Policy) (e : Event) (last : ℕ) (rows : Table)
    → last ≤ moment e
    → IsTidy last rows
    → IsTidy (moment e) (happen policies e rows)
happen-IsTidy policies (called (check k now)) last rows le h =
    check-IsTidy k now rows (later-IsTidy last now rows le h)
happen-IsTidy policies (called (consume k now)) last rows le h =
    consume-IsTidy (policies k) k last now rows le h
happen-IsTidy policies (called (failure k now)) last rows le h =
    failure-IsTidy (policies k) k last now rows le h
happen-IsTidy policies (called (clear k now)) last rows le h =
    clear-IsTidy k now rows (later-IsTidy last now rows le h)
happen-IsTidy policies (pruned stale_after now) last rows le h =
    prune-IsTidy stale_after now rows (later-IsTidy last now rows le h)

table_after-IsTidy :
    (policies : Key → Policy) (events : List Event) (last now : ℕ) (rows : Table)
    → IsInOrder last events now
    → IsTidy last rows
    → IsTidy now (table_after policies events rows)
table_after-IsTidy policies [] last now rows o h = later-IsTidy last now rows o h
table_after-IsTidy policies (e ∷ events) last now rows o h =
    table_after-IsTidy policies events (moment e) now (happen policies e rows) o.1
      (happen-IsTidy policies e last rows o.0 h)

-- After any calls and prunings on an empty table, with a clock that does not run backwards, a
-- further pruning at `now` is unobservable under every policy whose window is at most `stale_after`:
-- for each key and at each time from `now` on, `is_rate_limited`, `record_rate_limit_failure` and
-- `consume_rate_limit` answer on the pruned table as on the table before, and the latter two leave
-- the same row of the key.
pub pruning-Agrees :
    (policies : Key → Policy) (events : List Event) (p : Policy) (stale_after now later : ℕ)
    (k : Key)
    → IsInOrder 0 events now
    → p.window ≤ stale_after
    → now ≤ later
    → let rows = table_after policies events [] in
      Agrees p k later (prune_rate_limits stale_after now rows) rows
unfolding HasDistinctKeys
pruning-Agrees policies events p stale_after now later k o w le =
    let h = table_after-IsTidy policies events 0 now [] o (tt, tt) in
    let rows = table_after policies events [] in
    prune_rate_limits-Agrees p stale_after now later k rows h.0 (find-IsLog now k rows h.1).0 w le
