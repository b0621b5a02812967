-- ===== src/Investigation/Contexts.antt =====
-- The views on a host and on an indicator (api/app.py, endpoint_context, hunt_indicator,
-- behavior_context, network_context), and the saved hunts (run_saved_hunt and its neighbours).
use mathlib.Core.Option
use shigure_edr.Base.{
  ℕ, suc, ◌-◌, String, ◌<>◌, Bool, false, ◌||◌, Option, none, some, List, [], ◌∷◌, ◌++◌, ◌==◌,
  if◌then◌else◌, is_text, or_default, contains, map, length, take,
}
use shigure_edr.Base.Int.{ℤ, pos, negsuc}
use shigure_edr.Base.Table.{select}
use shigure_edr.Base.Sort.{sorted_set}
use shigure_edr.Base.Dict.{Dict}
use shigure_edr.Text.{lower, has_text}
use shigure_edr.Events.{NormalizedEvent, Alert, event_type_value}
use shigure_edr.Control.Schema.{Store, Task}
use shigure_edr.Control.Alerts.{list_alerts}
use shigure_edr.Control.Credentials.{AgentRecord}
use shigure_edr.Control.Listings.{list_agents, tally}
use shigure_edr.Control.Tasks.Admin.{list_tasks}
use shigure_edr.Investigation.{
  Telemetry, Dumps, HuntSummary, hunt_summary, no_filter, no_alert_filter, on_host, values,
}
use shigure_edr.Investigation.Packages.{EndpointContext, mentions}

abbrev column : Option String → String → Bool
column none value = false
column (some text) value = text == value

-- `if value: events = [e for e in events if ...]`
abbrev narrowed :
    Option String → (String → NormalizedEvent → Bool) → List NormalizedEvent → List NormalizedEvent
narrowed value test events =
    if is_text value then select (test (or_default value "")) events else events

module _ (dumps : Dumps) (telemetry : Telemetry) where
  unfoldable pub endpoint_context : String → String → Store → EndpointContext
  unfolding list_agents list_alerts list_tasks select
  endpoint_context host tenant_id s =
      let agents = select (λ (a : AgentRecord). a.host == host) (list_agents tenant_id none s) in
      let agent_ids = map (λ (a : AgentRecord). a.agent_id) agents in
      record {
        agents = agents;
        recent_events = telemetry.search tenant_id (on_host (some host)) (pos 50);
        recent_alerts = take 20 (
            select (λ (a : Alert). column a.host host)
              (list_alerts dumps.dump_alert tenant_id (pos 100) no_alert_filter s));
        recent_tasks = take 20 (
            select (λ (t : Task). contains agent_ids t.agent_id)
              (list_tasks tenant_id none none (pos 100) s));
      }

pub record IndicatorHunt : Type 0 where
  pub hosts : List String
  pub summary : HuntSummary
  pub events : List NormalizedEvent
  pub alerts : List Alert

-- `xs[:n]`, where a negative n leaves out the last ones.
unfoldable pub drop_last {ℓ} : {A : Type ℓ} → ℕ → List A → List A
drop_last n xs = take (length xs - n) xs

abbrev pub clipped {ℓ} : {A : Type ℓ} → ℤ → List A → List A
clipped (pos n) xs = take n xs
clipped (negsuc n) xs = drop_last (suc n) xs

abbrev pub hosts_of : List NormalizedEvent → List Alert → List String
hosts_of events alerts =
    sorted_set
      (values (λ (e : NormalizedEvent). e.host) events ++ values (λ (a : Alert). a.host) alerts)

module _ (dumps : Dumps) (telemetry : Telemetry) where
  abbrev pub mentioning : String → String → ℤ → Store → List Alert
  mentioning tenant_id indicator n s =
      select (mentions dumps telemetry indicator)
        (list_alerts dumps.dump_alert tenant_id n no_alert_filter s)

  unfoldable pub hunt_indicator : String → String → ℤ → Store → IndicatorHunt
  unfolding list_alerts select hunt_summary sorted_set values drop_last has_text lower
  hunt_indicator indicator tenant_id n s =
      let events = telemetry.search tenant_id (record no_filter { indicator = some indicator }) n in
      let alerts = mentioning tenant_id indicator n s in
      record {
        hosts = hosts_of events alerts;
        summary = hunt_summary (indicator ∷ []) events (clipped n alerts);
        events = events;
        alerts = clipped n alerts;
      }

pub record BehaviorContext : Type 0 where
  pub counts_by_type : Dict ℕ
  pub events : List NormalizedEvent

unfoldable pub behavior_context :
    Telemetry
    → String
    → String
    → Option String
    → Option String
    → Option String
    → ℤ
    → BehaviorContext
unfolding select tally
behavior_context telemetry host tenant_id process_id process_entity_id indicator n =
    let found =
      telemetry.search tenant_id (record no_filter { host = some host; indicator = indicator }) n in
    let of_entity =
      narrowed process_entity_id
        (λ id e. column e.process_entity_id id || column e.parent_process_entity_id id) found in
    let events =
      narrowed process_id (λ id e. column e.process_id id || column e.parent_process_id id)
        of_entity in
    record {
      counts_by_type = tally (map (λ (e : NormalizedEvent). event_type_value e.event_type) events);
      events = events;
    }

pub record NetworkContext : Type 0 where
  pub remotes : List String
  pub events : List NormalizedEvent

-- `print_number` is the decimal text of a port.
abbrev remote_of : (ℕ → String) → NormalizedEvent → Option String
remote_of print_number e =
    if is_text e.remote_ip
    then some (
        or_default e.remote_ip ""
        <> (":" <> or_default (Option.map print_number e.remote_port) "None"))
    else none

unfoldable pub network_context :
    (ℕ → String)
    → Telemetry
    → String
    → String
    → Option String
    → Option String
    → Option String
    → ℤ
    → NetworkContext
unfolding select values sorted_set
network_context print_number telemetry host tenant_id process_id process_entity_id remote_ip n =
    let found =
      telemetry.search tenant_id
        (record no_filter {
          host = some host;
          event_type = some "network_connection";
          remote_ip = remote_ip;
        })
        n in
    let of_entity = narrowed process_entity_id (λ id e. column e.process_entity_id id) found in
    let events = narrowed process_id (λ id e. column e.process_id id) of_entity in
    record { remotes = sorted_set (values (remote_of print_number) events); events = events }
