-- ===== src/Investigation.antt =====
-- What the investigation endpoints put together (api/app.py, _source_event_for_alert,
-- _related_timeline, _hunt_summary to _raw_refs_from_case_evidence); Packages has the larger ones.
pub mod Refs
pub mod Chain
pub mod Contexts
pub mod Packages
use mathlib.Core.Option
use shigure_edr.Base.{
  ℕ, String, ◌<>◌, Bool, true, false, not, ◌&&◌, ◌||◌, Option, none, some, List, [], ◌∷◌, ◌++◌,
  ◌==◌, if◌then◌else◌, is_text, is_some, or_default, contains, map, length, take,
}
use shigure_edr.Base.Int.{ℤ, pos}
use shigure_edr.Base.Table.{select}
use shigure_edr.Base.Sort.{ascending, sort_by, sorted_set}
use shigure_edr.Base.Dict
use shigure_edr.Base.Dict.{Dict}
use shigure_edr.Json.{Json, str, truthy}
use shigure_edr.Text.{lower, has_text}
use shigure_edr.Events.{Time, NormalizedEvent, Alert}
use shigure_edr.Graph.{ProcessGraph, build_process_graph}
use shigure_edr.Evidence.{Codec, text_or_empty}
use shigure_edr.Control.Schema.{Case, CaseEvidence, Store, Task}
use shigure_edr.Control.Events.{EventFilter, get_event, list_events, related_events}
use shigure_edr.Control.Alerts.{AlertFilter, list_alerts}
use shigure_edr.Control.Credentials.{AgentRecord}
use shigure_edr.Control.Listings.{list_agents}
use shigure_edr.Control.Tasks.Admin.{list_tasks}
use shigure_edr.Control.Cases.{list_case_evidence}

-- What the endpoints ask of a telemetry store; ClickHouse answers its own queries.
pub record Telemetry : Type 0 where
  pub event_by_id : String → String → Option NormalizedEvent
  pub search : String → EventFilter → ℤ → List NormalizedEvent
  pub related : String → String → String → ℤ → List NormalizedEvent

-- pydantic's `model_dump_json` of the two models.
pub record Dumps : Type 0 where
  pub dump_event : NormalizedEvent → String
  pub dump_alert : Alert → String

-- The control-plane store as the telemetry store.
abbrev pub sqlite_telemetry : Dumps → Store → Telemetry
sqlite_telemetry dumps s = record {
  event_by_id = λ tenant_id id. get_event tenant_id id s;
  search = λ tenant_id f n. list_events dumps.dump_event tenant_id f n s;
  related = λ tenant_id entity_type value n.
      related_events dumps.dump_event tenant_id entity_type value n s;
}

abbrev pub no_filter : EventFilter
no_filter = record {
  host = none;
  event_type = none;
  process_name = none;
  user = none;
  hash_sha256 = none;
  process_entity_id = none;
  remote_ip = none;
  domain = none;
  indicator = none;
}

abbrev pub on_host : Option String → EventFilter
on_host host = record no_filter { host = host }

abbrev pub no_alert_filter : AlertFilter
no_alert_filter = record {
  severity = none;
  host = none;
  title = none;
  user = none;
  source = none;
  mitre = none;
  artifact = none;
  indicator = none;
  has_evidence = none;
}

abbrev add_some : Option String → List String → List String
add_some value rest = if is_text value then or_default value "" ∷ rest else rest

-- The values of a field that are there.
unfoldable pub values {ℓ} : {R : Type ℓ} → (R → Option String) → List R → List String
values f [] = []
values f (r ∷ rows) = let rest = values f rows in add_some (f r) rest

unfoldable pub indicators_in : List NormalizedEvent → List String
indicators_in [] = []
indicators_in (e ∷ events) =
    let rest = indicators_in events in
    add_some e.remote_ip (add_some e.domain (add_some e.hash_sha256 rest))

unfoldable pub timeline_indicators : List NormalizedEvent → List String
unfolding indicators_in sorted_set
timeline_indicators timeline = sorted_set (indicators_in timeline)

pub record HuntSummary : Type 0 where
  pub indicators : List String
  pub impacted_endpoints : List String
  pub impacted_users : List String
  pub first_seen : Option Time
  pub last_seen : Option Time
  pub event_count : ℕ
  pub related_alert_count : ℕ

abbrev pub first_of {ℓ} : {A : Type ℓ} → List A → Option A
first_of [] = none
first_of (x ∷ xs) = some x

-- `timestamps[-1]`
unfoldable pub last_of {ℓ} : {A : Type ℓ} → List A → Option A
last_of [] = none
last_of (x ∷ xs) = some (or_default (last_of xs) x)

unfoldable pub hunt_summary : List String → List NormalizedEvent → List Alert → HuntSummary
unfolding values sorted_set sort_by last_of
hunt_summary indicators events alerts =
    let timestamps =
      ascending (λ (t : Time). t) (map (λ (e : NormalizedEvent). e.timestamp) events) in
    record {
      indicators = indicators;
      impacted_endpoints = sorted_set (
          values (λ (e : NormalizedEvent). e.host) events ++ values (λ (a : Alert). a.host) alerts);
      impacted_users = sorted_set (
          values (λ (e : NormalizedEvent). e.user) events ++ values (λ (a : Alert). a.user) alerts);
      first_seen = first_of timestamps;
      last_seen = last_of timestamps;
      event_count = length events;
      related_alert_count = length alerts;
    }

-- A reference to raw evidence, with its digest where the evidence has one.
pub record RawRef : Type 0 where
  pub raw_ref : String
  pub raw_hash : Option Json

-- `d.get(a) or d.get(b)`
abbrev truthy_or : Option Json → Option Json → Option Json
truthy_or none other = other
truthy_or (some v) other = if truthy v then some v else other

abbrev hash_in : Dict Json → Option Json
hash_in facts = truthy_or (Dict.get "raw_hash" facts) (Dict.get "sha256" facts)

module _ (codec : Codec) where
  -- The references of one piece of linked evidence; a reference is a text.
  unfoldable pub refs_of : CaseEvidence → List RawRef
  unfolding Dict.get
  refs_of item =
      let inner = text_or_empty codec (Dict.get "raw_ref" item.facts) in
      let inside =
        if inner == ""
        then []
        else record { raw_ref = inner; raw_hash = hash_in item.facts } ∷ [] in
      if item.evidence_type == "raw_evidence"
      then record { raw_ref = item.ref_id; raw_hash = hash_in item.facts } ∷ inside
      else inside

  unfoldable pub all_refs : List CaseEvidence → List RawRef
  unfolding refs_of
  all_refs [] = []
  all_refs (item ∷ evidence) = refs_of item ++ all_refs evidence

-- The first of each reference.
unfoldable pub deduped : List String → List RawRef → List RawRef
deduped seen [] = []
deduped seen (ref ∷ refs) =
    let skipped = deduped seen refs in
    let kept = deduped (ref.raw_ref ∷ seen) refs in
    if contains seen ref.raw_ref then skipped else ref ∷ kept

unfoldable pub raw_refs_from_case_evidence : Codec → List CaseEvidence → List RawRef
unfolding all_refs deduped
raw_refs_from_case_evidence codec evidence = deduped [] (all_refs codec evidence)

module _ (codec : Codec) (telemetry : Telemetry) where
  abbrev event_named : String → String → Option NormalizedEvent
  event_named tenant_id event_id =
      if event_id == "" then none else telemetry.event_by_id tenant_id event_id

  unfoldable pub source_event_for_alert : String → Option Alert → Option NormalizedEvent
  unfolding Dict.get
  source_event_for_alert tenant_id none = none
  source_event_for_alert tenant_id (some alert) =
      event_named tenant_id (text_or_empty codec (Dict.get "event_id" alert.raw))

  abbrev on_host_or_none : String → Option String → List NormalizedEvent
  on_host_or_none tenant_id host =
      if is_text host then telemetry.search tenant_id (on_host host) (pos 100) else []

  unfoldable pub related_timeline :
      String → Option NormalizedEvent → Option String → List NormalizedEvent
  related_timeline tenant_id none host = on_host_or_none tenant_id host
  related_timeline tenant_id (some e) host =
      if is_text e.process_entity_id
      then telemetry.related tenant_id "process_entity_id" (or_default e.process_entity_id "")
          (pos 100)
      else if is_text e.process_id
      then telemetry.related tenant_id "process_id" (or_default e.process_id "") (pos 100)
      else on_host_or_none tenant_id host
