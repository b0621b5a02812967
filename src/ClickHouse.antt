-- ===== src/ClickHouse.antt =====
-- The telemetry store over ClickHouse (api/clickhouse_store.py): the rows that it sends;
-- Queries has the texts of its queries. The HTTP client and what ClickHouse does with a query are outside.
pub mod Quote
pub mod Rollups
pub mod Queries
use shigure_edr.Base.{
  ℕ, String, ◌<>◌, Bool, ◌&&◌, Option, none, some, List, [], ◌∷◌, ◌==◌, if◌then◌else◌, is_text,
  or_default, map, length, eqb, ◌+◌, suc, contains,
}
use Prim.Native.Nat.{◌*◌, ◌/◌}
use shigure_edr.Base.Int.{ℤ, pos, negsuc}
use shigure_edr.Base.Dict
use shigure_edr.Base.Dict.{Dict}
use shigure_edr.Json.{Json, str}
use shigure_edr.Events.{Time, NormalizedEvent, event_type_value}
use shigure_edr.Control.Events.{EventFilter}
use Quote.{quote}

-- `value or ""`
abbrev filled : Option String → String
filled value = or_default value ""

-- `_ch_datetime`: the text of an instant has milliseconds.
abbrev pub ch_datetime : Time → ℕ
ch_datetime t = t / 1000

pub record TelemetryRow : Type 0 where
  pub tenant_id : String
  pub endpoint_id : String
  pub host : String
  pub event_id : String
  pub event_time : ℕ
  pub ingested_at : ℕ
  pub event_type : String
  pub source : String
  pub process_entity_id : String
  pub parent_process_entity_id : String
  pub pid : String
  pub parent_pid : String
  pub process_name : String
  pub image_path : String
  pub command_line : String
  pub user : String
  pub hash_sha256 : String
  pub remote_ip : String
  pub remote_port : ℕ
  pub domain : String
  pub severity : String
  pub confidence : String
  pub gap_reason : String
  pub raw_ref : String
  pub raw_hash : String
  pub raw_json : Dict Json
  pub event_json : NormalizedEvent

unfoldable pub telemetry_row : Time → String → NormalizedEvent → TelemetryRow
telemetry_row now agent_id e = record {
  tenant_id = e.tenant_id;
  endpoint_id = agent_id;
  host = filled e.host;
  event_id = e.id;
  event_time = ch_datetime e.timestamp;
  ingested_at = ch_datetime (or_default e.ingested_at now);
  event_type = event_type_value e.event_type;
  source = e.source;
  process_entity_id = filled e.process_entity_id;
  parent_process_entity_id = filled e.parent_process_entity_id;
  pid = filled e.process_id;
  parent_pid = filled e.parent_process_id;
  process_name = filled e.process_name;
  image_path = filled e.image_path;
  command_line = filled e.command_line;
  user = filled e.user;
  hash_sha256 = filled e.hash_sha256;
  remote_ip = filled e.remote_ip;
  remote_port = or_default e.remote_port 0;
  domain = filled e.domain;
  severity = e.severity;
  confidence = filled e.process_identity_confidence;
  gap_reason = filled e.missing_parent_reason;
  raw_ref = filled e.raw_ref;
  raw_hash = filled e.raw_hash;
  raw_json = e.raw;
  event_json = e;
}

pub record EdgeRow : Type 0 where
  pub tenant_id : String
  pub endpoint_id : String
  pub host : String
  pub parent_process_entity_id : String
  pub process_entity_id : String
  pub first_seen : ℕ
  pub last_seen : ℕ
  pub confidence : String
  pub gap_reason : String

unfoldable pub edge_row : String → NormalizedEvent → EdgeRow
edge_row agent_id e = record {
  tenant_id = e.tenant_id;
  endpoint_id = agent_id;
  host = filled e.host;
  parent_process_entity_id = filled e.parent_process_entity_id;
  process_entity_id = filled e.process_entity_id;
  first_seen = ch_datetime e.timestamp;
  last_seen = ch_datetime e.timestamp;
  confidence = filled e.process_identity_confidence;
  gap_reason = filled e.missing_parent_reason;
}

-- The key of a rollup. `bucket` is the start of the hour, in UTC.
pub record RollupKey : Type 0 where
  pub tenant_id : String
  pub endpoint_id : String
  pub host : String
  pub bucket : Time
  pub event_type : String

-- `collector_health_json` is `{}` in every row.
pub record Rollup : Type 0 where
  pub key : RollupKey
  pub event_count : ℕ
  pub gap_count : ℕ

abbrev pub hour_start : Time → Time
hour_start t = t / 3600000000 * 3600000000

abbrev pub rollup_key : String → NormalizedEvent → RollupKey
rollup_key agent_id e = record {
  tenant_id = e.tenant_id;
  endpoint_id = agent_id;
  host = filled e.host;
  bucket = hour_start e.timestamp;
  event_type = event_type_value e.event_type;
}

unfoldable pub same_key : RollupKey → RollupKey → Bool
same_key a b =
    a.tenant_id == b.tenant_id
    && (a.endpoint_id == b.endpoint_id
        && (a.host == b.host && (eqb a.bucket b.bucket && a.event_type == b.event_type)))

abbrev pub has_gap : NormalizedEvent → ℕ
has_gap e = if is_text e.missing_parent_reason then 1 else 0

-- `rollups.setdefault(key, ...)` and the two counters.
unfoldable pub count_event : RollupKey → ℕ → List Rollup → List Rollup
unfolding same_key
count_event key gap [] = record { key = key; event_count = 1; gap_count = gap } ∷ []
count_event key gap (r ∷ rollups) =
    let rest = count_event key gap rollups in
    if same_key r.key key
    then record r { event_count = r.event_count + 1; gap_count = r.gap_count + gap } ∷ rollups
    else r ∷ rest

unfoldable pub rollups_from : String → List NormalizedEvent → List Rollup → List Rollup
unfolding count_event
rollups_from agent_id [] rollups = rollups
rollups_from agent_id (e ∷ events) rollups =
    rollups_from agent_id events (count_event (rollup_key agent_id e) (has_gap e) rollups)

unfoldable pub edges_of : String → List NormalizedEvent → List EdgeRow
unfolding edge_row
edges_of agent_id [] = []
edges_of agent_id (e ∷ events) =
    let rest = edges_of agent_id events in
    if is_text e.process_entity_id then edge_row agent_id e ∷ rest else rest

-- What one call sends to the three tables; an empty batch is not sent.
pub record Sent : Type 0 where
  pub shigure_events : List TelemetryRow
  pub shigure_process_edges : List EdgeRow
  pub shigure_event_rollups_hourly : List Rollup

abbrev stamped : Time → NormalizedEvent → NormalizedEvent
stamped now e = record e { ingested_at = some (or_default e.ingested_at now) }

unfoldable pub insert_events : Time → String → List NormalizedEvent → ℕ × Sent
unfolding telemetry_row edges_of rollups_from
insert_events now agent_id events =
    let rows = map (λ e. telemetry_row now agent_id (stamped now e)) events in
    (
      length rows,
      record {
        shigure_events = rows;
        shigure_process_edges = edges_of agent_id events;
        shigure_event_rollups_hourly = rollups_from agent_id events [];
      },
    )
