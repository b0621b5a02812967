-- ===== src/Tests/Api.antt =====
-- Runs of the application: its start, its authentication, and its routes.
use Prim.Native.Char.{Char}
use shigure_edr.Base.{
  String, ◌≡◌, refl, false, Option, none, some, [], ◌∷◌, ok, In, here, ◌==◌, if◌then◌else◌,
}
use shigure_edr.Base.Int.{pos}
use shigure_edr.Base.Table.{fetchone, insert, select, update}
use shigure_edr.Base.Sort.{sort_by, insert_by}
use shigure_edr.Base.Dict
use shigure_edr.Json.{str, bool}
use shigure_edr.Text.{lower, strip, lstrip, rstrip, drop_prefix, after_marker}
use shigure_edr.Catalog.{
  read_only_policy_block, validate_task_args, get_task_definition, definition_in, task_catalog,
  policy_audit,
}
use shigure_edr.Catalog.Spec.{validate_args}
use shigure_edr.Control.Schema.{Agent, CredentialEvent, Task, Store}
use shigure_edr.Control.Enrollment.{record_agent_credential_event}
use shigure_edr.Control.Credentials.{authenticate_agent}
use shigure_edr.Control.Tasks.{
  claim, claim_tasks, claimable, claim_each, create_task, ensure_task_agent, complete_task,
  with_task_id, queued_task,
}
use shigure_edr.Control.Tasks.Admin.{retry_task}
use shigure_edr.Control.Tasks.Requeue.{failed_result_requeues}
use shigure_edr.Api.Runtime.{
  Environment, RuntimeArguments, Runtime, App, create_app, runtime_config, resolved,
  production_checks, store_for_runtime, telemetry_store_for_runtime, postgresql_store,
  clickhouse_store, is_blank, task_policy_block,
}
use shigure_edr.Api.Runtime.Production.{IsHardened, create_app_lem}
use shigure_edr.Api.Auth.{bearer_token, agent_auth}
use shigure_edr.Api.AgentRoutes.{claim_request}
use shigure_edr.Api.Claims.{claim_request_lem}
use shigure_edr.Api.TaskRoutes.{TaskCreateRequest, create_task_request}
use shigure_edr.Api.Safety.{IsAllowed}
use shigure_edr.Api.Safety.Enforcement.{begin, after, requested, claim_tasks-IsAllowed}
use shigure_edr.Tests.Data.{draw_1, two_agents, task_of, two_tasks, codec, object_store}

abbrev environment : Environment
environment name =
    if name == "OPEN_EDR_MDR_POSTGRES_DSN"
    then some "postgresql://db"
    else if name == "OPEN_EDR_MDR_CLICKHOUSE_DSN"
    then some "http://clickhouse"
    else none

abbrev production : RuntimeArguments
production = record {
  profile = some "Production";
  admin_token = some "long-admin-secret";
  enrollment_token = some "long-enrollment-secret";
  server_trust = some "ca.pem";
}

abbrev runtime : Runtime
runtime = record {
  profile = "production";
  response_mode = "read_only";
  admin_token = "long-admin-secret";
  enrollment_token = "long-enrollment-secret";
  server_trust = "ca.pem";
  control_plane_store = "postgresql";
  postgres_dsn = "postgresql://db";
  telemetry_projection = "clickhouse";
  clickhouse_dsn = "http://clickhouse";
}

abbrev application : App
application = record {
  runtime = runtime;
  store = postgresql_store "postgresql://db" "/data/db.sqlite3";
  telemetry_store = clickhouse_store "http://clickhouse";
  dev_token = false;
}

built : create_app environment environment "/data/db.sqlite3" none production ≡ ok application
unfolding create_app runtime_config resolved production_checks store_for_runtime
    telemetry_store_for_runtime lower strip lstrip rstrip
built = refl

create_app_lem_example :
    ◌≡◌ {A = String} "read_only" "read_only"
    × (◌≡◌ {A = String} "production" "production"
        → IsHardened runtime
          × (application.store ≡ postgresql_store "postgresql://db" "/data/db.sqlite3")
          × (is_blank "postgresql://db" ≡ false)
          × (application.telemetry_store ≡ clickhouse_store "http://clickhouse")
          × (is_blank "http://clickhouse" ≡ false)
          × (application.dev_token ≡ false))
create_app_lem_example =
    create_app_lem environment environment production "/data/db.sqlite3" none application built

abbrev guess : Option String
guess = some "guess"

abbrev cons_char : Char → String → String
cons_char c rest = Prim.Native.String.◌∷◌ c rest

abbrev authenticated_event : CredentialEvent
authenticated_event = record {
  event_id = "event-1";
  tenant_id = "default";
  agent_id = "agent-1";
  event_type = "authenticated";
  credential_version = 1;
  created_at = 100;
  metadata = ("status", str "ok") ∷ [];
}

abbrev polled_store : Store
polled_store = record two_tasks {
  tasks = claim 30 (task_of 20 "task-1") ∷ task_of 21 "task-2" ∷ [];
  agent_credential_events = authenticated_event ∷ [];
}

polled :
    claim_request 30 draw_1 "agent-1" (some "Bearer token-1") none two_tasks
    ≡ ok (claim 30 (task_of 20 "task-1") ∷ [], polled_store)
unfolding claim_request agent_auth bearer_token lower drop_prefix after_marker authenticate_agent
    record_agent_credential_event fetchone insert claim_tasks claimable claim_each select sort_by
    insert_by update
polled = refl

claim_request_lem_example :
    (agent : Agent) × (row : Task) × In agent two_tasks.agents
    × (agent.agent_id ≡ "agent-1")
    × In row two_tasks.tasks
    × (row.agent_id ≡ "agent-1")
    × (row.tenant_id ≡ agent.tenant_id)
    × (row.status ≡ "queued")
    × (claim 30 (task_of 20 "task-1") ≡ claim 30 row)
claim_request_lem_example =
    claim_request_lem 30 draw_1 "agent-1" (some "Bearer token-1") none two_tasks polled_store
      (claim 30 (task_of 20 "task-1") ∷ []) (claim 30 (task_of 20 "task-1")) polled here

abbrev kill_request : TaskCreateRequest
kill_request = record {
  tenant_id = "default";
  agent_id = "agent-1";
  task_type = "kill_process";
  args = [];
  timeout_seconds = pos 300;
  requested_by = "admin_api";
}

abbrev inventory_request : TaskCreateRequest
inventory_request = record kill_request { task_type = "inventory" }

abbrev inventory_task : Task
inventory_task = queued_task 20 "task-3" "default" "agent-1" "inventory" [] (pos 300) (
    some (
      ("policy_version", str "read_only_v1")
      ∷ ("response_mode", str "read_only")
      ∷ ("task_type", str "inventory")
      ∷ ("risk", str "low")
      ∷ ("destructive", bool false)
      ∷ ("requested_by", str "admin_api")
      ∷ []))

abbrev requested_store : Store
requested_store = record two_agents { tasks = inventory_task ∷ [] }

inventory_requested :
    create_task_request runtime 20 "task-3" inventory_request two_agents
    ≡ ok (inventory_task, requested_store)
unfolding create_task_request task_policy_block read_only_policy_block get_task_definition
    definition_in task_catalog fetchone validate_task_args validate_args create_task
    ensure_task_agent insert policy_audit Dict.get Dict.put
inventory_requested = refl

handed : In (claim 30 inventory_task) (claim_tasks 30 "default" "agent-1" (pos 1) requested_store).0
unfolding claim_tasks claimable claim_each select sort_by insert_by update
handed = here

claim_tasks-IsAllowed_example : IsAllowed (claim 30 inventory_task)
claim_tasks-IsAllowed_example =
    claim_tasks-IsAllowed runtime refl codec object_store 30 "default" "agent-1" (pos 1)
      (claim 30 inventory_task) (tt, tt)
      (after begin (requested 20 "task-3" inventory_request inventory_task inventory_requested))
      handed

found_first : fetchone (with_task_id "task-1") two_tasks.tasks ≡ some (task_of 20 "task-1")
unfolding fetchone
found_first = refl

failed_result_requeues_example :
    (u : Task) × (fetchone
        (with_task_id "task-1")
        (retry_task "default" "task-1" (
          complete_task codec object_store 40 41 "default" "agent-1" "task-1" "failed" [] none
            two_tasks)).1.tasks
      ≡ some u)
    × (u.status ≡ "queued")
    × (u.task_type ≡ "inventory")
    × (u.args ≡ [])
failed_result_requeues_example =
    failed_result_requeues codec object_store two_tasks 40 41 "default" "agent-1" "task-1" [] none
      (task_of 20 "task-1") found_first refl refl
