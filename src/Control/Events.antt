-- ===== src/Control/Events.antt =====
-- The table of events (api/store.py, insert_events, get_event, count_events to list_events and
-- _event_query).
pub mod Batches
use mathlib.Core.Option
use shigure_edr.Base.{
  ℕ, String, ◌<>◌, Bool, true, false, ◌&&◌, Option, none, some, List, [], ◌∷◌, ◌==◌, if◌then◌else◌,
  is_text, or_default, map, length,
}
use shigure_edr.Base.Int.{ℤ}
use shigure_edr.Base.Table.{select, fetchone, rowcount}
use shigure_edr.Base.Batch.{insert_new}
use shigure_edr.Base.Sort.{descending, limit, sort_by}
use shigure_edr.Json.{str}
use shigure_edr.Text.{like}
use shigure_edr.Events.{NormalizedEvent, event_type_value}
use shigure_edr.Evidence.{Codec, LocalObjectStore, build_raw_evidence}
use shigure_edr.Control.Schema.{Time, EventRow, Store}
use shigure_edr.Control.Evidence.{insert_raw_evidence}

abbrev pub event_id_key : EventRow → String
event_id_key r = r.id

abbrev pub is_event : String → String → EventRow → Bool
is_event tenant_id id r = r.tenant_id == tenant_id && r.id == id

unfoldable pub event_row : String → NormalizedEvent → EventRow
event_row agent_id e = record {
  id = e.id;
  tenant_id = e.tenant_id;
  agent_id = agent_id;
  host = e.host;
  event_type = e.event_type;
  source = e.source;
  timestamp = e.timestamp;
  process_name = e.process_name;
  process_id = e.process_id;
  process_entity_id = e.process_entity_id;
  parent_process_entity_id = e.parent_process_entity_id;
  boot_id = e.boot_id;
  process_create_time = e.process_create_time;
  process_exit_time = e.process_exit_time;
  image_path = e.image_path;
  image_hash = e.image_hash;
  process_identity_confidence = e.process_identity_confidence;
  missing_parent_reason = e.missing_parent_reason;
  command_line = e.command_line;
  user = e.user;
  hash_sha256 = e.hash_sha256;
  remote_ip = e.remote_ip;
  domain = e.domain;
  raw_ref = e.raw_ref;
  raw_hash = e.raw_hash;
  event = e;
}

module _ (codec : Codec) (object_store : LocalObjectStore) where
  -- One round of the loop: the event with its reference to the raw evidence.
  unfoldable pub store_raw_event : Time → String → NormalizedEvent → Store → NormalizedEvent × Store
  unfolding insert_raw_evidence build_raw_evidence
  store_raw_event now agent_id e s =
      let raw = build_raw_evidence codec e.tenant_id "event" e.id e.raw none in
      let (stored, s') =
        insert_raw_evidence codec object_store now raw none "application/json"
          (("agent_id", str agent_id) ∷ ("event_id", str e.id) ∷ []) s in
      (
        record e {
          ingested_at = some (or_default e.ingested_at now);
          raw_ref = some stored.raw_ref;
          raw_hash = some raw.sha256;
        },
        s',
      )

  unfoldable pub store_raw_events :
      Time → String → List NormalizedEvent → Store → List NormalizedEvent × Store
  unfolding store_raw_event
  store_raw_events now agent_id [] s = ([], s)
  store_raw_events now agent_id (e ∷ events) s =
      let (e', s1) = store_raw_event now agent_id e s in
      let (events', s2) = store_raw_events now agent_id events s1 in (e' ∷ events', s2)

  -- The result is the number of rows with the events as the loop changed them, in place, for those
  -- that go on with them.
  unfoldable pub insert_events :
      Time → String → List NormalizedEvent → Store → (ℕ × List NormalizedEvent) × Store
  unfolding store_raw_events event_row insert_new
  insert_events now agent_id events s =
      let (events', s') = store_raw_events now agent_id events s in
      let rows = map (event_row agent_id) events' in
      ((length rows, events'), record s' { events = insert_new event_id_key rows s'.events })

unfoldable pub get_event : String → String → Store → Option NormalizedEvent
unfolding fetchone
get_event tenant_id id s =
    Option.map (λ (r : EventRow). r.event) (fetchone (is_event tenant_id id) s.events)

-- The conditions of a search, each of which may be missing.
pub record EventFilter : Type 0 where
  pub host : Option String
  pub event_type : Option String
  pub process_name : Option String
  pub user : Option String
  pub hash_sha256 : Option String
  pub process_entity_id : Option String
  pub remote_ip : Option String
  pub domain : Option String
  pub indicator : Option String

-- `if value: q += ...`
abbrev pub asked : Option String → (String → Bool) → Bool
asked value test = if is_text value then test (or_default value "") else true

-- `column = ?` and `column like ?`, which a null column does not meet.
abbrev pub column_is : Option String → String → Bool
column_is none value = false
column_is (some text) value = text == value

-- `f"%{value}%"`
abbrev pub anywhere : String → String
anywhere value = "%" <> (value <> "%")

abbrev pub column_like : Option String → String → Bool
column_like none value = false
column_like (some text) value = like (anywhere value) text

-- `dump` is pydantic's `model_dump_json`.
module _ (dump : NormalizedEvent → String) where
  unfoldable pub event_query : String → EventFilter → EventRow → Bool
  unfolding like
  event_query tenant_id f r =
      r.tenant_id == tenant_id
      && asked f.host (column_is r.host)
      && asked f.event_type (λ value. event_type_value r.event_type == value)
      && asked f.process_name (column_like r.process_name)
      && asked f.user (column_like r.user)
      && asked f.hash_sha256 (column_is r.hash_sha256)
      && asked f.process_entity_id (column_is r.process_entity_id)
      && asked f.remote_ip (column_is r.remote_ip)
      && asked f.domain (column_is r.domain)
      && asked f.indicator (λ value. like (anywhere value) (dump r.event))

  unfoldable pub count_events : String → EventFilter → Store → ℕ
  unfolding event_query rowcount
  count_events tenant_id f s = rowcount (event_query tenant_id f) s.events

  -- `order by timestamp desc limit ?` over the rows of a condition.
  unfoldable pub newest_events : (EventRow → Bool) → ℤ → Store → List NormalizedEvent
  unfolding select sort_by
  newest_events test n s =
      map (λ (r : EventRow). r.event)
        (limit n (descending (λ (r : EventRow). r.timestamp) (select test s.events)))

  unfoldable pub list_events : String → EventFilter → ℤ → Store → List NormalizedEvent
  unfolding event_query newest_events
  list_events tenant_id f n s = newest_events (event_query tenant_id f) n s

  -- The condition on the column that `field_map` names, where it names one; a parent's process
  -- identifier is looked for in the column of the process itself.
  unfoldable pub related_condition : String → String → Option (EventRow → Bool)
  unfolding like
  related_condition entity_type value =
      if entity_type == "host"
      then some (λ r. column_is r.host value)
      else if entity_type == "process_id"
      then some (λ r. column_is r.process_id value)
      else if entity_type == "parent_process_id"
      then some (λ r. column_is r.process_id value)
      else if entity_type == "process_entity_id"
      then some (λ r. column_is r.process_entity_id value)
      else if entity_type == "parent_process_entity_id"
      then some (λ r. column_is r.parent_process_entity_id value)
      else if entity_type == "process_name"
      then some (λ r. column_like r.process_name value)
      else if entity_type == "user"
      then some (λ r. column_like r.user value)
      else if entity_type == "hash_sha256"
      then some (λ r. column_is r.hash_sha256 value)
      else if entity_type == "remote_ip"
      then some (λ r. column_is r.remote_ip value)
      else if entity_type == "domain"
      then some (λ r. column_is r.domain value)
      else if entity_type == "command_line"
      then some (λ r. column_like r.command_line value)
      else if entity_type == "file_path"
      then some (λ r. like (anywhere value) (dump r.event))
      else none

  abbrev related_by : String → Option (EventRow → Bool) → ℤ → Store → List NormalizedEvent
  related_by tenant_id none n s = []
  related_by tenant_id (some test) n s = newest_events (λ r. r.tenant_id == tenant_id && test r) n s

  unfoldable pub related_events : String → String → String → ℤ → Store → List NormalizedEvent
  unfolding related_condition newest_events
  related_events tenant_id entity_type value n s =
      related_by tenant_id (related_condition entity_type value) n s
