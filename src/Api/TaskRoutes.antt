-- ===== src/Api/TaskRoutes.antt =====
-- The routes of the administrators on tasks and credentials (api/app.py, create_task,
-- revoke_agent_credential, rotate_agent_credential, expire_stale_tasks to retry_task); the caller has
-- passed `admin_auth`.
use shigure_edr.Base.{String, Option, none, some}
use shigure_edr.Base.{Result, ok, err, type_error, http_exception, ◌>>=◌, ◌>>◌, guard}
use shigure_edr.Base.Int.{ℤ}
use shigure_edr.Base.Table.{fetchone}
use shigure_edr.Base.Dict
use shigure_edr.Base.Dict.{Dict}
use shigure_edr.Json.{Json, str, text_at}
use shigure_edr.Catalog.{validate_task_args, policy_audit}
use shigure_edr.Control.Schema.{Time, Draw, Task, Store}
use shigure_edr.Control.Credentials.{AgentRecord, revoke_agent_credential, rotate_agent_credential}
use shigure_edr.Control.Tasks.{create_task, create_blocked_task, with_task_id}
use shigure_edr.Control.Tasks.Admin.{cancel_task, retry_task, get_task}
use shigure_edr.Api.Runtime.{Runtime, task_policy_block}
use shigure_edr.Api.AgentRoutes.{http_error}

-- api/models.py, TaskCreateRequest.
pub record TaskCreateRequest : Type 0 where
  pub tenant_id : String
  pub agent_id : String
  pub task_type : String
  pub args : Dict Json
  pub timeout_seconds : ℤ
  pub requested_by : String

abbrev pub dispatched :
    Time → String → TaskCreateRequest → Store → Option (Dict Json) → Result (String × Store)
dispatched now task_id req s (some block) =
    let block' = Dict.put "requested_by" (str req.requested_by) block in
    create_blocked_task now task_id req.tenant_id req.agent_id req.task_type req.args
      (text_at "reason" block') block' s
dispatched now task_id req s none = do
  validate_task_args req.task_type req.args
  create_task now task_id req.tenant_id req.agent_id req.task_type req.args req.timeout_seconds
      (some (policy_audit req.task_type req.args req.requested_by)) s

-- `store._task_record(dict(row))`
abbrev pub task_row : Store → Option Task → Result (Task × Store)
task_row s none = err type_error
task_row s (some row) = ok (row, s)

unfoldable pub create_task_request :
    Runtime → Time → String → TaskCreateRequest → Store → Result (Task × Store)
unfolding task_policy_block validate_task_args create_task create_blocked_task policy_audit
create_task_request r now task_id req s = do
  (id, s') ← http_error 400 (dispatched now task_id req s (task_policy_block r req.task_type))
  task_row s' (fetchone (with_task_id id) s'.tasks)

unfoldable pub cancel_task_request : Time → String → String → Store → Result Store
unfolding cancel_task
cancel_task_request now tenant_id task_id s = do
  let (done, s') = cancel_task now tenant_id task_id s
  guard done (http_exception 400 "task_not_cancellable")
  ok s'

unfoldable pub retry_task_request : String → String → Store → Result Store
unfolding retry_task
retry_task_request tenant_id task_id s = do
  let (done, s') = retry_task tenant_id task_id s
  guard done (http_exception 400 "task_not_retryable")
  ok s'

unfoldable pub get_task_request : String → String → Store → Result Task
unfolding get_task
get_task_request tenant_id task_id s = elim (get_task tenant_id task_id s) [
  | none ↦ err (http_exception 404 "task_not_found")
  | some task ↦ ok task
]

abbrev agent_or_404 : Option AgentRecord × Store → Result (AgentRecord × Store)
agent_or_404 (none, s) = err (http_exception 404 "agent_not_found")
agent_or_404 (some agent, s) = ok (agent, s)

unfoldable pub revoke_request :
    Time → Draw → String → String → Option String → Store → Result (AgentRecord × Store)
unfolding revoke_agent_credential
revoke_request now draw tenant_id agent_id reason s =
    revoke_agent_credential now draw tenant_id agent_id reason s >>= agent_or_404

unfoldable pub rotate_request :
    Time → String → Draw → String → String → Option String → Store → Result (AgentRecord × Store)
unfolding rotate_agent_credential
rotate_request now new_token draw tenant_id agent_id reason s =
    http_error 400 (rotate_agent_credential now new_token draw tenant_id agent_id reason s)
    >>= agent_or_404
