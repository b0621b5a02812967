-- ===== src/Api/Ingest.antt =====
-- The route that takes the events of an agent (api/app.py, ingest_events). The telemetry store is a
-- parameter: its state, and what its `insert_events` does to it, which is nothing where it is the
-- control-plane store itself.
pub mod Retry
pub mod Tenancy
pub mod Lost
use shigure_edr.Base.{
  ℕ, suc, String, Bool, Option, none, some, List, [], ◌∷◌, map, is_text, or_default, if◌then◌else◌,
}
use shigure_edr.Base.{Result, ok, err}
use shigure_edr.Base.Dict
use shigure_edr.Json.{str}
use shigure_edr.Events.{NormalizedEvent, Alert}
use shigure_edr.Rules.{Python, GenericRule}
use shigure_edr.Detection.Alerts.{detect_many}
use shigure_edr.Evidence.{Codec, LocalObjectStore}
use shigure_edr.Control.Schema.{Time, Draw, Agent, Store}
use shigure_edr.Control.Events.{insert_events}
use shigure_edr.Control.Alerts.{insert_alerts}
use shigure_edr.Api.Auth.{agent_auth}

-- api/models.py, EventIngestResponse.
pub record EventIngestResponse : Type 0 where
  pub accepted : ℕ
  pub alerts_generated : ℕ

-- An event as it is sent: the two fields for which a default is drawn, and the others. What `rest`
-- has for those two fields counts for nothing.
pub record EventPayload : Type 0 where
  pub id : Option String
  pub timestamp : Option Time
  pub rest : NormalizedEvent

-- The body of the request as pydantic parses it; `drawn` has what uuid4 and the clock give for the
-- event at each place.
unfoldable pub parsed : (ℕ → String × Time) → ℕ → List EventPayload → List NormalizedEvent
parsed drawn n [] = []
parsed drawn n (p ∷ payloads) =
    record p.rest {
      id = or_default p.id (drawn n).0;
      timestamp = or_default p.timestamp (drawn n).1;
    }
    ∷ parsed drawn (suc n) payloads

abbrev pub parsed_request :
    (ℕ → String × Time) → Option (List EventPayload) → Option (List NormalizedEvent)
parsed_request drawn none = none
parsed_request drawn (some payloads) = some (parsed drawn 0 payloads)

-- The tenant is that of the agent, whatever the event says.
abbrev pub scoped : Agent → NormalizedEvent → NormalizedEvent
scoped agent e = record e {
  tenant_id = agent.tenant_id;
  host = if is_text e.host then e.host else some agent.host;
}

unfoldable pub scoped_alert : Agent → Alert → Alert
unfolding Dict.put
scoped_alert agent a = record a {
  raw = Dict.put "agent_id" (str agent.agent_id) (Dict.put "tenant_id" (str agent.tenant_id) a.raw);
}

module _ (py : Python) (codec : Codec) (object_store : LocalObjectStore) {T : Type 0}
    (project : String → List NormalizedEvent → T → T) where
  -- What follows the detection; an exception of a custom rule ends the request, and what was
  -- committed before stays.
  unfoldable pub alerted :
      Time → Agent → ℕ → Result (List Alert) → Store → Result EventIngestResponse × Store
  unfolding insert_alerts scoped_alert
  alerted now agent accepted (err e) s = (err e, s)
  alerted now agent accepted (ok alerts) s =
      let (inserted, s') =
        insert_alerts codec object_store now (map (scoped_alert agent) alerts) s in
      (ok (record { accepted = accepted; alerts_generated = inserted }), s')

  -- The handler, with the agent and the request that it is given.
  unfoldable pub ingest :
      Time
      → List GenericRule
      → Agent
      → Option (List NormalizedEvent)
      → Store × T
      → Result EventIngestResponse × Store × T
  unfolding insert_events alerted detect_many
  ingest now custom_rules agent req (s, telemetry) =
      let normalized = map (scoped agent) (or_default req []) in
      let ((accepted, events), s1) =
        insert_events codec object_store now agent.agent_id normalized s in
      let (answer, s2) = alerted now agent accepted (detect_many py custom_rules events) s1 in
      (answer, s2, project agent.agent_id events telemetry)

  abbrev ingested :
      Time
      → List GenericRule
      → Option (List NormalizedEvent)
      → Store × T
      → Result (Agent × Store)
      → Result EventIngestResponse × Store × T
  ingested now custom_rules req (s, telemetry) (err e) = (err e, s, telemetry)
  ingested now custom_rules req (s, telemetry) (ok (agent, s')) =
      ingest now custom_rules agent req (s', telemetry)

  unfoldable pub ingest_events :
      Time
      → List GenericRule
      → Draw
      → (ℕ → String × Time)
      → String
      → Option String
      → Option (List EventPayload)
      → Store × T
      → Result EventIngestResponse × Store × T
  unfolding agent_auth ingest parsed
  ingest_events now custom_rules draw drawn agent_id authorization req (s, telemetry) =
      ingested now custom_rules (parsed_request drawn req) (s, telemetry)
        (agent_auth draw agent_id authorization s)
