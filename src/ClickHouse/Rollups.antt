-- ===== src/ClickHouse/Rollups.antt =====
-- The hourly rollups (api/clickhouse_store.py, insert_events).
use Prim.Native.Nat.{◌*◌}
use shigure_edr.Base.{
  ℕ, String, ◌≡◌, ap, ◌+◌, Bool, true, false, Option, none, some, List, [], ◌∷◌, arith, eq_iff,
  if◌then◌else◌, Bool-cases, inl, inr, leb, ltb, eqb, not, ◌&&◌, ◌==◌, or_default,
}
use shigure_edr.Events.{event_type_value, Time, NormalizedEvent}
use shigure_edr.ClickHouse.{
  hour_start, RollupKey, Rollup, rollup_key, same_key, has_gap, count_event, rollups_from,
  insert_events,
}

same_key_eq : (a b : RollupKey) → same_key a b ≡ true → a ≡ b
unfolding same_key
same_key_eq a b h = ground (
  arith,
  eq_iff a.tenant_id b.tenant_id,
  eq_iff a.endpoint_id b.endpoint_id,
  eq_iff a.host b.host,
  eq_iff a.event_type b.event_type,
)

-- One hour of one type of event on one host, as the rows of the table name it: `hour` counts the
-- hours since the epoch.
pub record Hourly : Type 0 where
  pub tenant_id : String
  pub endpoint_id : String
  pub host : String
  pub hour : ℕ
  pub event_type : String

-- A row of the table is that of the hour.
abbrev pub is_row : Hourly → Rollup → Bool
is_row h r =
    r.key.tenant_id == h.tenant_id
    && (r.key.endpoint_id == h.endpoint_id
        && (r.key.host == h.host
            && (eqb r.key.bucket (h.hour * 3600000000) && r.key.event_type == h.event_type)))

-- An event of the agent falls into the hour: it is not before its start, and before its end.
abbrev pub falls : Hourly → String → NormalizedEvent → Bool
falls h agent_id e =
    e.tenant_id == h.tenant_id
    && (agent_id == h.endpoint_id
        && (or_default e.host "" == h.host
            && (leb (h.hour * 3600000000) e.timestamp
                && ltb e.timestamp (h.hour * 3600000000 + 3600000000)
                && event_type_value e.event_type == h.event_type)))

-- An event says why its parent process is missing.
abbrev pub has_reason : Option String → Bool
has_reason none = false
has_reason (some reason) = not (reason == "")

-- The counters of an hour, over all rows that are of it.
abbrev pub counted : Hourly → List Rollup → ℕ × ℕ
counted h [] = (0, 0)
counted h (r ∷ rollups) =
    let rest = counted h rollups in
    if is_row h r then (r.event_count + rest.0, r.gap_count + rest.1) else rest

-- The events of an hour, and those of them with a reason.
abbrev pub occurring : Hourly → String → List NormalizedEvent → ℕ × ℕ
occurring h agent_id [] = (0, 0)
occurring h agent_id (e ∷ events) =
    let rest = occurring h agent_id events in
    if falls h agent_id e
    then (1 + rest.0, (if has_reason e.missing_parent_reason then 1 else 0) + rest.1)
    else rest

abbrev row_of : RollupKey → ℕ → ℕ → Rollup
row_of k n gap = record { key = k; event_count = n; gap_count = gap }

counted-count_event :
    (h : Hourly) (k : RollupKey) (gap : ℕ) (rollups : List Rollup)
    → counted h (count_event k gap rollups) ≡ (
        if is_row h (row_of k 1 gap)
        then (1 + (counted h rollups).0, gap + (counted h rollups).1)
        else counted h rollups)
unfolding count_event
counted-count_event h k gap [] = ground arith
counted-count_event h k gap (r ∷ rollups) = elim (Bool-cases (same_key r.key k)) [
  | inl e ↦ ground (arith, e, ap (λ x. is_row h (row_of x 1 gap)) (same_key_eq r.key k e))
  | inr e ↦ ground (arith, e, counted-count_event h k gap rollups)
]

-- The start of the hour of an instant is that of the hour it lies in.
hour_start_lem :
    (t hour : ℕ)
    → eqb (hour_start t) (hour * 3600000000)
      ≡ (leb (hour * 3600000000) t && ltb t (hour * 3600000000 + 3600000000))
hour_start_lem t hour = ground arith

is_row-rollup_key :
    (h : Hourly) (agent_id : String) (e : NormalizedEvent) (gap : ℕ)
    → is_row h (row_of (rollup_key agent_id e) 1 gap) ≡ falls h agent_id e
is_row-rollup_key h agent_id e gap = ground (arith, hour_start_lem e.timestamp h.hour)

counted-rollups_from :
    (h : Hourly) (agent_id : String) (events : List NormalizedEvent) (rollups : List Rollup)
    → counted h (rollups_from agent_id events rollups) ≡ (
      (occurring h agent_id events).0 + (counted h rollups).0,
      (occurring h agent_id events).1 + (counted h rollups).1,
    )
unfolding rollups_from
counted-rollups_from h agent_id [] rollups = ground arith
counted-rollups_from h agent_id (e ∷ events) rollups = ground (
  arith,
  counted-rollups_from h agent_id events (count_event (rollup_key agent_id e) (has_gap e) rollups),
  counted-count_event h (rollup_key agent_id e) (has_gap e) rollups,
  is_row-rollup_key h agent_id e (has_gap e),
)

-- For every tenant, endpoint, host, hour and type of event, the rollups that a batch sends count
-- exactly the events of the batch that fall there, from the start of the hour to before its end,
-- and those of them that give a reason for a missing parent process.
pub rollups-counted :
    (now : Time) (agent_id : String) (h : Hourly) (events : List NormalizedEvent)
    → counted h (insert_events now agent_id events).1.shigure_event_rollups_hourly
      ≡ occurring h agent_id events
unfolding insert_events
rollups-counted now agent_id h events = ground (arith, counted-rollups_from h agent_id events [])
