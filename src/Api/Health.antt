-- ===== src/Api/Health.antt =====
-- The detection of agents that went silent (api/app.py, run_agent_health_detection).
pub mod Stale
use shigure_edr.Base.{ℕ, String, ◌<>◌, Option, none, some, List, [], ◌∷◌, ◌-◌, map, length}
use shigure_edr.Base.Dict.{Dict}
use shigure_edr.Json.{Json, null, str}
use shigure_edr.Events.{Time, Alert}
use shigure_edr.Evidence.{Codec, LocalObjectStore}
use shigure_edr.Control.Schema.{Agent, Store}
use shigure_edr.Control.Credentials.Heartbeats.{stale_agents, mark_agents_offline}
use shigure_edr.Control.Alerts.{insert_alerts}

pub record HealthReport : Type 0 where
  pub stale_agents : ℕ
  pub agents_marked_offline : ℕ
  pub alerts_generated : ℕ

-- `print_time` is the text of an instant in the store.
module _ (print_time : Time → String) where
  abbrev pub last_seen_text : Option Time → String
  last_seen_text none = "None"
  last_seen_text (some t) = print_time t

  abbrev last_seen_json : Option Time → Json
  last_seen_json none = null
  last_seen_json (some t) = str (print_time t)

  unfoldable pub offline_alert : Time → Agent → Alert
  offline_alert now a = record {
    alert_id = "builtin.agent.offline:" <> (a.agent_id <> (":" <> last_seen_text a.last_seen));
    title = "Agent offline or telemetry gap";
    severity = "medium";
    timestamp = now;
    created_at = none;
    host = some a.host;
    user = none;
    process_name = none;
    description =
        some ("Agent " <> (a.agent_id <> (" last seen at " <> last_seen_text a.last_seen)));
    mitre = [];
    source = "internal";
    raw_ref = none;
    raw_hash = none;
    raw =
        ("rule_id", str "builtin.agent.offline")
        ∷ ("tenant_id", str a.tenant_id)
        ∷ ("agent_id", str a.agent_id)
        ∷ ("last_seen", last_seen_json a.last_seen)
        ∷ [];
  }

  -- `threshold` is `now - timedelta(seconds=stale_after_seconds)`.
  unfoldable pub run_agent_health_detection :
      Codec → LocalObjectStore → Time → Time → Option String → Store → HealthReport × Store
  unfolding stale_agents mark_agents_offline insert_alerts offline_alert
  run_agent_health_detection codec object_store now threshold tenant_id s =
      let stale = stale_agents threshold tenant_id s in
      let alerts = map (offline_alert now) stale in
      let (marked, s1) = mark_agents_offline (map (λ (a : Agent). a.agent_id) stale) s in
      let (inserted, s2) = insert_alerts codec object_store now alerts s1 in
      (
        record {
          stale_agents = length alerts;
          agents_marked_offline = marked;
          alerts_generated = inserted;
        },
        s2,
      )
