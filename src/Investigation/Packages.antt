-- ===== src/Investigation/Packages.antt =====
-- The packages that an investigation opens with (api/app.py, _build_workspace_package,
-- _endpoint_context_package, _hunt_package).
use shigure_edr.Base.{
  String, Bool, not, ◌&&◌, ◌||◌, Option, none, some, List, [], ◌∷◌, ◌++◌, ◌==◌, if◌then◌else◌,
  is_text, is_some, or_default, contains, map, take,
}
use shigure_edr.Base.Int.{pos}
use shigure_edr.Base.Table.{select}
use shigure_edr.Text.{lower, has_text}
use shigure_edr.Events.{NormalizedEvent, Alert}
use shigure_edr.Graph.{ProcessGraph, build_process_graph}
use shigure_edr.Evidence.{Codec}
use shigure_edr.Control.Schema.{Case, CaseEvidence, Store, Task}
use shigure_edr.Control.Alerts.{list_alerts}
use shigure_edr.Control.Credentials.{AgentRecord}
use shigure_edr.Control.Listings.{list_agents}
use shigure_edr.Control.Tasks.Admin.{list_tasks}
use shigure_edr.Control.Cases.{list_case_evidence}
use shigure_edr.Investigation.{
  Telemetry, Dumps, no_filter, on_host, no_alert_filter, timeline_indicators, HuntSummary, first_of,
  hunt_summary, source_event_for_alert, related_timeline,
}

pub record EndpointContext : Type 0 where
  pub agents : List AgentRecord
  pub recent_events : List NormalizedEvent
  pub recent_alerts : List Alert
  pub recent_tasks : List Task

module _ (dumps : Dumps) (telemetry : Telemetry) where
  abbrev at_host : Option String → Option String → Bool
  at_host host other =
      not (is_text host) || is_some other && or_default other "" == or_default host ""

  unfoldable pub endpoint_context_package : String → Option String → Store → EndpointContext
  unfolding list_agents list_alerts list_tasks select
  endpoint_context_package tenant_id host s =
      let agents =
        select (λ (a : AgentRecord). at_host host (some a.host)) (list_agents tenant_id none s) in
      let agent_ids = map (λ (a : AgentRecord). a.agent_id) agents in
      record {
        agents = agents;
        recent_events =
            if is_text host then telemetry.search tenant_id (on_host host) (pos 50) else [];
        recent_alerts = take 20 (
            select (λ (a : Alert). at_host host a.host)
              (list_alerts dumps.dump_alert tenant_id (pos 100) no_alert_filter s));
        recent_tasks = take 20 (
            select
              (λ (t : Task). not (is_some (first_of agent_ids)) || contains agent_ids t.agent_id)
              (list_tasks tenant_id none none (pos 100) s));
      }

pub record HuntPackage : Type 0 where
  pub summary : HuntSummary
  pub events : List NormalizedEvent
  pub alerts : List Alert

-- The events and alerts that are new among those found, and those found before.
unfoldable pub add_events : List NormalizedEvent → List NormalizedEvent → List NormalizedEvent
add_events found [] = found
add_events found (e ∷ events) =
    add_events
      (if contains (map (λ (x : NormalizedEvent). x.id) found) e.id then found else found ++ e ∷ [])
      events

unfoldable pub add_alerts : (Alert → Bool) → List Alert → List Alert → List Alert
add_alerts hit found [] = found
add_alerts hit found (a ∷ alerts) =
    add_alerts hit
      (if not (contains (map (λ (x : Alert). x.alert_id) found) a.alert_id) && hit a
        then found ++ a ∷ []
        else found)
      alerts

module _ (dumps : Dumps) (telemetry : Telemetry) where
  abbrev pub mentions : String → Alert → Bool
  mentions indicator a = has_text (lower indicator) (lower (dumps.dump_alert a))

  unfoldable pub hunt_each :
      String
      → Store
      → List String
      → List NormalizedEvent × List Alert
      → List NormalizedEvent × List Alert
  unfolding add_events add_alerts has_text lower list_alerts
  hunt_each tenant_id s [] found = found
  hunt_each tenant_id s (indicator ∷ indicators) (events, alerts) =
      hunt_each tenant_id s indicators (
        add_events events (
            telemetry.search tenant_id (record no_filter { indicator = some indicator }) (pos 100)),
        add_alerts (mentions indicator) alerts
            (list_alerts dumps.dump_alert tenant_id (pos 100) no_alert_filter s),
      )

  abbrev with_source : Option Alert → List Alert → List Alert
  with_source none alerts = alerts
  with_source (some a) alerts =
      if contains (map (λ (x : Alert). x.alert_id) alerts) a.alert_id
      then alerts
      else alerts ++ a ∷ []

  unfoldable pub hunt_package : String → List NormalizedEvent → Option Alert → Store → HuntPackage
  unfolding timeline_indicators hunt_each hunt_summary
  hunt_package tenant_id timeline alert s =
      let indicators = timeline_indicators timeline in
      let (events, found) = hunt_each tenant_id s indicators ([], []) in
      let alerts = with_source alert found in
      record { summary = hunt_summary indicators events alerts; events = events; alerts = alerts }

-- The package of a workspace; its tasks are those of the endpoint's context.
pub record Workspace : Type 0 where
  pub tenant_id : String
  pub alert : Alert
  pub case : Case
  pub endpoint_context : EndpointContext
  pub process_graph : Option (Option ProcessGraph)
  pub related_timeline : List NormalizedEvent
  pub hunt : HuntPackage
  pub evidence_links : List CaseEvidence

module _ (codec : Codec) (dumps : Dumps) (telemetry : Telemetry) where
  -- `some none` where there is no process to draw.
  abbrev graph_of_source : String → Option NormalizedEvent → Option (Option ProcessGraph)
  graph_of_source tenant_id none = some none
  graph_of_source tenant_id (some e) =
      if is_text e.process_entity_id
      then build_process_graph (telemetry.search tenant_id (on_host e.host) (pos 500)) tenant_id
          (or_default e.process_entity_id "") e.host
      else some none

  unfoldable pub build_workspace_package : String → Alert → Case → Store → Workspace
  unfolding source_event_for_alert related_timeline endpoint_context_package hunt_package
      list_case_evidence build_process_graph
  build_workspace_package tenant_id alert case s =
      let source_event = source_event_for_alert codec telemetry tenant_id (some alert) in
      let timeline = related_timeline codec telemetry tenant_id source_event alert.host in
      record {
        tenant_id = tenant_id;
        alert = alert;
        case = case;
        endpoint_context = endpoint_context_package dumps telemetry tenant_id alert.host s;
        process_graph = graph_of_source tenant_id source_event;
        related_timeline = timeline;
        hunt = hunt_package dumps telemetry tenant_id timeline (some alert) s;
        evidence_links = list_case_evidence tenant_id case.case_id s;
      }
