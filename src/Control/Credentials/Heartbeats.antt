-- ===== src/Control/Credentials/Heartbeats.antt =====
-- Heartbeats, and the agents that went silent (api/store.py, update_heartbeat, stale_agents,
-- mark_agents_offline, get_agent).
use mathlib.Core.Option
use shigure_edr.Base.{
  ℕ, String, Bool, true, false, ◌&&◌, Option, none, some, List, [], ◌∷◌, length, ltb, ◌==◌,
  if◌then◌else◌, or_default, is_text,
}
use shigure_edr.Base.Table.{select, fetchone, update}
use shigure_edr.Base.Dict.{Dict}
use shigure_edr.Json.{Json, obj, fields}
use shigure_edr.Control.Schema.{Time, Agent, Store}
use shigure_edr.Control.Credentials.{is_agent, AgentRecord, agent_record}

-- What a heartbeat reports (api/models.py, HeartbeatRequest).
pub record HeartbeatRequest : Type 0 where
  pub host : String
  pub ip_address : Option String
  pub os : Option String
  pub agent_version : String
  pub uptime_seconds : Option ℕ
  pub health : Dict Json

abbrev pub beat : Time → HeartbeatRequest → Agent → Agent
beat now req a = record a {
  host = req.host;
  ip_address = req.ip_address;
  os = req.os;
  agent_version = req.agent_version;
  status = "online";
  last_seen = some now;
  metadata = ("health", obj (fields req.health)) ∷ [];
}

abbrev pub with_agent_id : String → Agent → Bool
with_agent_id agent_id a = a.agent_id == agent_id

unfoldable pub update_heartbeat : Time → String → HeartbeatRequest → Store → Store
update_heartbeat now agent_id req s = record s {
  agents = update (with_agent_id agent_id) (beat now req) s.agents;
}

-- `last_seen < ?`, which is not true of a null.
abbrev pub is_stale : Time → Option String → Agent → Bool
is_stale stale_before tenant_id a =
    elim a.last_seen [ none ↦ false | some t ↦ ltb t stale_before ]
    && (if is_text tenant_id then a.tenant_id == or_default tenant_id "" else true)

unfoldable pub stale_agents : Time → Option String → Store → List Agent
stale_agents stale_before tenant_id s = select (is_stale stale_before tenant_id) s.agents

abbrev pub go_offline : Agent → Agent
go_offline a = record a { status = "offline" }

-- The loop of `executemany`.
unfoldable pub offline_each : List String → List Agent → List Agent
offline_each [] agents = agents
offline_each (agent_id ∷ ids) agents =
    offline_each ids (update (with_agent_id agent_id) go_offline agents)

unfoldable pub mark_agents_offline : List String → Store → ℕ × Store
unfolding offline_each
mark_agents_offline agent_ids s =
    (length agent_ids, record s { agents = offline_each agent_ids s.agents })

unfoldable pub get_agent : String → String → Store → Option AgentRecord
unfolding agent_record
get_agent tenant_id agent_id s =
    Option.map agent_record (fetchone (is_agent tenant_id agent_id) s.agents)
