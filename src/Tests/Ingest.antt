-- ===== src/Tests/Ingest.antt =====
-- Uploads of events, and the health check.
use Prim.Native.Nat.{ℕ}
use mathlib.Core.Option
use shigure_edr.Base.{
  String, ◌<>◌, ◌≡◌, ◌≢◌, refl, arith, true, false, Option, none, some, List, [], ◌∷◌, eq_iff, map,
  contains, In, here, ok,
}
use shigure_edr.Base.Table.{fetchone, has_key}
use shigure_edr.Base.Keys.{IsKeyed}
use shigure_edr.Events.{NormalizedEvent}
use shigure_edr.Rules.{Python}
use shigure_edr.Control.Schema.{Agent, EventRow, Store}
use shigure_edr.Control.Enrollment.{agent_key}
use shigure_edr.Control.Alerts.{alert_key}
use shigure_edr.Control.Events.{event_id_key, event_row, get_event, insert_events}
use shigure_edr.Control.Events.Batches.{event_map, record_first, insert_events-refines}
use shigure_edr.Api.Ingest.{EventPayload, ingest}
use shigure_edr.Api.Ingest.Tenancy.{tenant_data, ingest_other_tenants}
use shigure_edr.Api.Ingest.Retry.{received, ingest_again}
use shigure_edr.Api.Ingest.Lost.{foreign_id_is_lost}
use shigure_edr.Api.Health.{run_agent_health_detection}
use shigure_edr.Api.Health.Stale.{WasSilent, health_detection_lem}
use shigure_edr.Tests.Data.{codec, object_store, agent_1, two_agents}
use shigure_edr.Tests.Graph.{first}

abbrev pub python : Python
python = record {
  print = λ v. "value";
  print_time = λ t. "1970-01-01T00:00:00+00:00";
  print_number = λ n. "443";
  print_texts = λ texts. "[]";
  print_dict = λ d. "{}";
  regex_search = λ pattern s. false;
}

-- The control-plane store is the telemetry store.
abbrev project : String → List NormalizedEvent → Unit {0} → Unit {0}
project agent_id events telemetry = telemetry

abbrev upload : Option (List NormalizedEvent)
upload = some (
    record first {
      process_name = some "powershell.exe";
      command_line = some "powershell -enc AAAA";
    }
    ∷ [])

-- Another tenant has an event with the identifier.
abbrev foreign : EventRow
foreign = event_row "agent-9" (record first { tenant_id = "other" })

abbrev crowded : Store
crowded = record two_agents { events = foreign ∷ [] }

ingest_other_tenants_example :
    tenant_data "other"
      (ingest python codec object_store project 100 [] agent_1 upload (crowded, tt)).1
    ≡ tenant_data "other" crowded
ingest_other_tenants_example =
    ingest_other_tenants python codec object_store project 100 [] agent_1 upload crowded tt "other"
      (ground (arith, eq_iff "default" "other")) (ground (arith, eq_iff "default" ""))

-- The same upload as it is sent, with identifiers and times.
abbrev sent_again : Option (List EventPayload)
sent_again =
    Option.map
      (map (λ (e : NormalizedEvent). record { id = some e.id; timestamp = some 50; rest = e }))
      upload

abbrev drawn : String → ℕ → String × ℕ
drawn id n = (id, 100)

ingest_again_example :
    let once =
      received python codec object_store project 100 agent_1
        (drawn "u-1")
        sent_again
        (two_agents, tt) in
    let twice =
      received python codec object_store project 200 agent_1
        (drawn "u-2")
        sent_again
        (once.1, once.2) in
    (twice.1.events ≡ once.1.events) × (twice.1.alerts ≡ once.1.alerts)
ingest_again_example =
    ingest_again python codec object_store project 100 200 agent_1 (drawn "u-1") (drawn "u-2")
      sent_again two_agents tt ((refl, refl), tt)

crowded_unique : IsKeyed event_id_key crowded.events
unfolding fetchone
crowded_unique = (refl, tt)

is_foreign : foreign.tenant_id ≢ agent_1.tenant_id
unfolding event_row
is_foreign = ground (arith, eq_iff "other" "default")

foreign_id_is_lost_example :
    let answered = ingest python codec object_store project 100 [] agent_1 upload (crowded, tt) in
    ((n : ℕ) × (answered.0 ≡ ok (record { accepted = 1; alerts_generated = n })))
    × (get_event "default" "event-1" answered.1 ≡ none)
unfolding event_row
foreign_id_is_lost_example =
    foreign_id_is_lost python codec object_store project 100 agent_1 upload crowded tt foreign
      crowded_unique here is_foreign

insert_events-refines_example :
    let s' = (insert_events codec object_store 100 "agent-1" (first ∷ first ∷ []) crowded).1 in
    (event_map s' ≡ record_first 100 "agent-1" (first ∷ first ∷ []) (event_map crowded))
    × ((id : String) (r : EventRow)
        → fetchone (has_key event_id_key id) crowded.events ≡ some r
        → fetchone (has_key event_id_key id) s'.events ≡ some r)
insert_events-refines_example =
    insert_events-refines codec object_store 100 "agent-1" (first ∷ first ∷ []) crowded

-- An agent that was last seen before the threshold, and one that never was.
abbrev silent : Store
silent = record two_agents {
  agents = record agent_1 { last_seen = some 500 } ∷ record agent_1 { agent_id = "agent-2" } ∷ [];
}

silent_unique : IsKeyed agent_key silent.agents
unfolding fetchone
silent_unique = (refl, (refl, tt))

health_detection_lem_example :
    let s' =
      (run_agent_health_detection python.print_time codec object_store 900 600 none silent).1 in
    (map agent_key s'.agents ≡ map agent_key silent.agents)
    × ((a : Agent) (last : ℕ)
        → In a silent.agents
        → WasSilent 600 none a last
        → In (record a { status = "offline" }) s'.agents
          × (contains
                (map alert_key s'.alerts)
                ("builtin.agent.offline:" <> (a.agent_id <> (":" <> "1970-01-01T00:00:00+00:00")))
              ≡ true))
    × ((a : Agent)
        → In a silent.agents
        → ((last : ℕ) → ¬ WasSilent 600 none a last)
        → In a s'.agents)
health_detection_lem_example =
    health_detection_lem python.print_time codec object_store 900 600 none silent silent_unique
