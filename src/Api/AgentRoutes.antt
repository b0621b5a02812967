-- ===== src/Api/AgentRoutes.antt =====
-- The routes that agents call (api/app.py, enroll to upload_agent_evidence, without the events). A
-- route of an agent authenticates it first; a missing body is `none`.
use shigure_edr.Base.{ℕ, String, Bool, Option, none, some, List, [], ltb, or_default}
use shigure_edr.Base.{
  Result, ok, err, value_error, task_argument_error, evidence_error, http_exception, ◌>>=◌,
}
use shigure_edr.Base.Int.{ℤ, pos}
use shigure_edr.Base.Dict.{Dict}
use shigure_edr.Json.{Json}
use shigure_edr.Evidence.{Codec, LocalObjectStore, EvidenceUploadRequest}
use shigure_edr.Control.Schema.{Time, Draw, Agent, AgentConfig, Task, Store}
use shigure_edr.Control.Enrollment.{EnrollmentRequest, Enrolled, enroll_agent}
use shigure_edr.Control.Credentials.{activate_pending_agent_credential}
use shigure_edr.Control.Credentials.Heartbeats.{HeartbeatRequest, update_heartbeat}
use shigure_edr.Control.Config.{get_agent_config}
use shigure_edr.Control.Evidence.{EvidenceUploaded, store_agent_evidence}
use shigure_edr.Control.Tasks.{claim_tasks, complete_task}
use shigure_edr.Control.Tasks.Admin.{pending_tasks_count}
use shigure_edr.Api.Auth.{agent_auth}

-- `except ValueError as exc: raise HTTPException(status_code=code, detail=str(exc))`
abbrev pub http_error {ℓ} : {A : Type ℓ} → ℕ → Result A → Result A
http_error code (ok a) = ok a
http_error code (err (value_error m)) = err (http_exception code m)
http_error code (err (task_argument_error m)) = err (http_exception code m)
http_error code (err (evidence_error m)) = err (http_exception code m)
http_error code (err e) = err e

-- The answer to an enrollment (api/models.py, EnrollmentResponse).
pub record EnrollmentResponse : Type 0 where
  pub enrolled : Enrolled
  pub config : AgentConfig

unfoldable pub enroll :
    Time → String → String → Draw → EnrollmentRequest → Store → Result (EnrollmentResponse × Store)
unfolding enroll_agent get_agent_config
enroll now agent_id agent_token draw req s = do
  (result, s') ← http_error 401 (enroll_agent now agent_id agent_token draw req s)
  ok (record { enrolled = result; config = get_agent_config result.tenant_id s' }, s')

-- The answer to a heartbeat (api/models.py, HeartbeatResponse), its status being "ok".
pub record HeartbeatResponse : Type 0 where
  pub tasks_pending : Bool
  pub config_version : ℕ
  pub config : AgentConfig
  pub credential_update : Option (String × ℕ)

abbrev bare_heartbeat : Agent → HeartbeatRequest
bare_heartbeat agent = record {
  host = agent.host;
  ip_address = none;
  os = none;
  agent_version = "dev";
  uptime_seconds = none;
  health = [];
}

unfoldable pub heartbeat :
    Time
    → Time
    → Draw
    → Agent
    → Option HeartbeatRequest
    → Store
    → Result (HeartbeatResponse × Store)
unfolding update_heartbeat pending_tasks_count get_agent_config activate_pending_agent_credential
heartbeat now activated_at draw agent req s = do
  let s1 = update_heartbeat now agent.agent_id (or_default req (bare_heartbeat agent)) s
  let pending = ltb 0 (pending_tasks_count agent.tenant_id agent.agent_id s1)
  let config = get_agent_config agent.tenant_id s1
  (update, s2) ←
      activate_pending_agent_credential activated_at draw agent.tenant_id agent.agent_id s1
  ok (
    record {
      tasks_pending = pending;
      config_version = config.version;
      config = config;
      credential_update = update;
    },
    s2,
  )

unfoldable pub heartbeat_request :
    Time
    → Time
    → Draw
    → Draw
    → String
    → Option String
    → Option HeartbeatRequest
    → Store
    → Result (HeartbeatResponse × Store)
unfolding agent_auth heartbeat
heartbeat_request now activated_at draw draw' agent_id authorization req s = do
  (agent, s') ← agent_auth draw agent_id authorization s
  heartbeat now activated_at draw' agent req s'

-- `max_tasks` of the body; without a body it is 1.
unfoldable pub claim_request :
    Time → Draw → String → Option String → Option ℤ → Store → Result (List Task × Store)
unfolding agent_auth claim_tasks
claim_request now draw agent_id authorization max_tasks s = do
  (agent, s') ← agent_auth draw agent_id authorization s
  ok (claim_tasks now agent.tenant_id agent.agent_id (or_default max_tasks (pos 1)) s')

-- The result of a task (api/models.py, TaskResultRequest).
pub record TaskResultRequest : Type 0 where
  pub status : String
  pub result : Dict Json
  pub error : Option String

abbrev empty_result : TaskResultRequest
empty_result = record { status = "failed"; result = []; error = some "empty result" }

module _ (codec : Codec) (object_store : LocalObjectStore) where
  unfoldable pub task_result :
      Time → Time → String → Agent → Option TaskResultRequest → Store → Store
  unfolding complete_task
  task_result stored_at now task_id agent req s =
      let r = or_default req empty_result in
      complete_task codec object_store stored_at now agent.tenant_id agent.agent_id task_id r.status
        r.result r.error s

  unfoldable pub task_result_request :
      Time
      → Time
      → Draw
      → String
      → Option String
      → String
      → Option TaskResultRequest
      → Store
      → Result Store
  unfolding agent_auth task_result
  task_result_request stored_at now draw agent_id authorization task_id req s = do
    (agent, s') ← agent_auth draw agent_id authorization s
    ok (task_result stored_at now task_id agent req s')

  abbrev uploaded :
      Time → Agent → Option EvidenceUploadRequest → Store → Result (EvidenceUploaded × Store)
  uploaded now agent none s = err (http_exception 400 "empty_evidence_upload")
  uploaded now agent (some req) s =
      http_error 400
        (store_agent_evidence codec object_store now agent.tenant_id agent.agent_id req s)

  unfoldable pub evidence_request :
      Time
      → Draw
      → String
      → Option String
      → Option EvidenceUploadRequest
      → Store
      → Result (EvidenceUploaded × Store)
  unfolding agent_auth store_agent_evidence
  evidence_request now draw agent_id authorization req s = do
    (agent, s') ← agent_auth draw agent_id authorization s
    uploaded now agent req s'
