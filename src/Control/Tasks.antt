-- ===== src/Control/Tasks.antt =====
-- The queue of endpoint tasks (api/store.py, _ensure_task_agent to complete_task); what administrators
-- do with it is in Admin.
pub mod Queue
pub mod Drain
pub mod Order
pub mod Requeue
pub mod Rewrites
pub mod Steps
pub mod Admin
use Prim.Native.Nat.{◌*◌}
use mathlib.Core.Option
use shigure_edr.Base.{
  ℕ, ◌+◌, ◌-◌, String, Bool, true, false, not, ◌&&◌, ◌||◌, Option, none, some, List, [], ◌∷◌, map,
  length, ltb, leb, ◌==◌, if◌then◌else◌, is_text, or_default, contains,
}
use shigure_edr.Base.{Result, ok, err, value_error, ◌>>=◌, ◌>>◌, guard}
use shigure_edr.Base.Int.{ℤ, pos, lez}
use shigure_edr.Base.Table.{select, fetchone, update, rowcount, insert}
use shigure_edr.Base.Sort.{ascending, descending, limit, sort_by}
use shigure_edr.Base.Dict
use shigure_edr.Base.Dict.{Dict}
use shigure_edr.Json.{Json, null, str, obj, fields}
use shigure_edr.Evidence.{Codec, LocalObjectStore, build_raw_evidence}
use shigure_edr.Control.Schema.{Time, Agent, Task, Store}
use shigure_edr.Control.Credentials.Heartbeats.{with_agent_id}
use shigure_edr.Control.Evidence.{insert_raw_evidence}

abbrev pub task_key : Task → String
task_key t = t.task_id

abbrev ensure_agent : String → Option Agent → Result (Unit {0})
ensure_agent tenant_id none = err (value_error "target_agent_not_found")
ensure_agent tenant_id (some a) =
    guard (a.tenant_id == tenant_id) (value_error "target_agent_tenant_mismatch")

unfoldable pub ensure_task_agent : String → String → Store → Result (Unit {0})
ensure_task_agent tenant_id agent_id s =
    ensure_agent tenant_id (fetchone (with_agent_id agent_id) s.agents)

-- `json.dumps(audit_result) if audit_result else None`: an empty dict is none.
abbrev pub some_filled : Option (Dict Json) → Option (Dict Json)
some_filled none = none
some_filled (some []) = none
some_filled (some (e ∷ d)) = some (e ∷ d)

abbrev pub queued_task :
    Time → String → String → String → String → Dict Json → ℤ → Option (Dict Json) → Task
queued_task now task_id tenant_id agent_id task_type args timeout_seconds audit_result = record {
  task_id = task_id;
  tenant_id = tenant_id;
  agent_id = agent_id;
  task_type = task_type;
  args = args;
  status = "queued";
  created_at = now;
  claimed_at = none;
  completed_at = none;
  timeout_seconds = timeout_seconds;
  result = some_filled audit_result;
  error = none;
  raw_ref = none;
  raw_hash = none;
}

unfoldable pub create_task :
    Time
    → String
    → String
    → String
    → String
    → Dict Json
    → ℤ
    → Option (Dict Json)
    → Store
    → Result (String × Store)
unfolding ensure_task_agent
create_task now task_id tenant_id agent_id task_type args timeout_seconds audit_result s = do
  ensure_task_agent tenant_id agent_id s
  tasks ←
      insert task_key
        (queued_task now task_id tenant_id agent_id task_type args timeout_seconds audit_result)
        s.tasks
  ok (task_id, record s { tasks = tasks })

abbrev pub blocked_task :
    Time → String → String → String → String → Dict Json → String → Dict Json → Task
blocked_task now task_id tenant_id agent_id task_type args reason result = record {
  task_id = task_id;
  tenant_id = tenant_id;
  agent_id = agent_id;
  task_type = task_type;
  args = args;
  status = "blocked_by_policy";
  created_at = now;
  claimed_at = none;
  completed_at = some now;
  timeout_seconds = pos 0;
  result = some result;
  error = some reason;
  raw_ref = none;
  raw_hash = none;
}

unfoldable pub create_blocked_task :
    Time
    → String
    → String
    → String
    → String
    → Dict Json
    → String
    → Dict Json
    → Store
    → Result (String × Store)
unfolding ensure_task_agent
create_blocked_task now task_id tenant_id agent_id task_type args reason result s = do
  ensure_task_agent tenant_id agent_id s
  tasks ←
      insert task_key (blocked_task now task_id tenant_id agent_id task_type args reason result)
        s.tasks
  ok (task_id, record s { tasks = tasks })

abbrev pub is_queued_for : String → String → Task → Bool
is_queued_for tenant_id agent_id t =
    t.tenant_id == tenant_id && t.agent_id == agent_id && t.status == "queued"

abbrev pub with_task_id : String → Task → Bool
with_task_id task_id t = t.task_id == task_id

abbrev pub claim : Time → Task → Task
claim now t = record t { status = "claimed"; claimed_at = some now }

-- The rows of the `select` in `claim_tasks`.
unfoldable pub claimable : String → String → ℤ → List Task → List Task
claimable tenant_id agent_id max_tasks tasks =
    limit max_tasks
      (ascending (λ (t : Task). t.created_at) (select (is_queued_for tenant_id agent_id) tasks))

-- The loop of `update`s over those rows.
unfoldable pub claim_each : Time → List Task → List Task → List Task
claim_each now [] tasks = tasks
claim_each now (row ∷ rows) tasks =
    claim_each now rows (update (with_task_id row.task_id) (claim now) tasks)

unfoldable pub claim_tasks : Time → String → String → ℤ → Store → List Task × Store
unfolding claimable claim_each
claim_tasks now tenant_id agent_id max_tasks s =
    let rows = claimable tenant_id agent_id max_tasks s.tasks in
    (map (claim now) rows, record s { tasks = claim_each now rows s.tasks })

abbrev pub is_task_of : String → String → String → Task → Bool
is_task_of tenant_id agent_id task_id t =
    t.tenant_id == tenant_id && t.agent_id == agent_id && t.task_id == task_id

abbrev pub existing_result : Option Task → Dict Json
existing_result none = []
existing_result (some t) = or_default t.result []

abbrev text_or_null : Option String → Json
text_or_null none = null
text_or_null (some s) = str s

abbrev pub complete : Time → String → Dict Json → Option String → String → String → Task → Task
complete now status merged_result error raw_ref raw_hash t = record t {
  status = status;
  completed_at = some now;
  result = some merged_result;
  error = error;
  raw_ref = some raw_ref;
  raw_hash = some raw_hash;
}

module _ (codec : Codec) (object_store : LocalObjectStore) where
  unfoldable pub complete_task :
      Time → Time → String → String → String → String → Dict Json → Option String → Store → Store
  complete_task stored_at now tenant_id agent_id task_id status result error s =
      let existing = existing_result (fetchone (is_task_of tenant_id agent_id task_id) s.tasks) in
      let merged_result = Dict.merge result existing in
      let raw_payload : Dict Json =
        ("task_id", str task_id)
        ∷ ("agent_id", str agent_id)
        ∷ ("status", str status)
        ∷ ("result", obj (fields merged_result))
        ∷ ("error", text_or_null error)
        ∷ [] in
      let raw = build_raw_evidence codec tenant_id "task_result" task_id raw_payload none in
      let (stored, s') =
        insert_raw_evidence codec object_store stored_at raw none "application/json"
          (Dict.merge (("task_id", str task_id) ∷ ("agent_id", str agent_id) ∷ []) merged_result)
          s in
      record s' {
        tasks =
            update (is_task_of tenant_id agent_id task_id)
              (complete now status merged_result error stored.raw_ref raw.sha256) s'.tasks;
      }
