-- ===== src/Tests/Data.antt =====
-- The data of the runs: two agents of one tenant, their queue, and a codec.
use shigure_edr.Base.{String, ℕ, none, some, [], ◌∷◌}
use shigure_edr.Base.Int.{pos}
use shigure_edr.Evidence.{Codec, LocalObjectStore}
use shigure_edr.Control.Schema.{Draw, Agent, Task, Store, empty_store}
use shigure_edr.Control.Credentials.Heartbeats.{HeartbeatRequest}
use shigure_edr.Control.Tasks.{queued_task}

abbrev pub draw_1 : Draw
draw_1 = record { id = "event-1"; at = 100 }

abbrev pub draw_2 : Draw
draw_2 = record { id = "event-2"; at = 101 }

abbrev pub draw_3 : Draw
draw_3 = record { id = "event-3"; at = 102 }

abbrev pub agent_of : String → String → Agent
agent_of agent_id agent_token = record {
  agent_id = agent_id;
  tenant_id = "default";
  agent_token = agent_token;
  credential_version = 1;
  credential_revoked_at = none;
  credential_rotated_at = none;
  pending_agent_token = none;
  pending_credential_version = none;
  pending_credential_created_at = none;
  public_key = none;
  host = "WS-01";
  ip_address = none;
  os = none;
  agent_version = "1.0";
  status = "online";
  enrolled_at = 10;
  last_seen = none;
  metadata = [];
}

abbrev pub agent_1 : Agent
agent_1 = agent_of "agent-1" "token-1"

abbrev pub two_agents : Store
two_agents = record empty_store { agents = agent_1 ∷ agent_of "agent-2" "token-2" ∷ [] }

abbrev pub alive : HeartbeatRequest
alive = record {
  host = "WS-01";
  ip_address = none;
  os = none;
  agent_version = "1.0";
  uptime_seconds = none;
  health = [];
}

abbrev pub task_of : ℕ → String → Task
task_of created_at task_id =
    queued_task created_at task_id "default" "agent-1" "inventory" [] (pos 60) none

abbrev pub two_tasks : Store
two_tasks = record two_agents { tasks = task_of 20 "task-1" ∷ task_of 21 "task-2" ∷ [] }

abbrev pub codec : Codec
codec = record {
  canonical = λ d. "{}";
  sha256 = λ s. "ab12";
  sha256_bytes = λ content. "ab12";
  b64decode = λ s. some (1 ∷ 2 ∷ []);
  print = λ v. "value";
}

abbrev pub object_store : LocalObjectStore
object_store = record {
  bucket = "raw-evidence";
  storage_provider = "local";
  ref_scheme = "object";
  endpoint_url = none;
}
