-- ===== src/Catalog.antt =====
-- The task catalogue and the read-only policy (api/task_catalog.py).
pub mod Spec
pub mod Host
mod Files
mod Response
pub mod Args
pub mod Policy
use Host.{
  inventory, process_list, network_connections, service_list, scheduled_tasks, windows_event_logs,
  agent_identity, listening_ports, registry_query, autoruns_collect, process_tree, process_detail,
}
use Files.{file_exists, file_hash, list_directory, read_file_chunk, copy_file, collect_file}
use Response.{quarantine_file, delete_file, kill_process, service_control}
use shigure_edr.Base.{
  String, Bool, true, false, not, ◌&&◌, ◌||◌, Option, none, some, List, [], ◌∷◌, contains, map,
  ◌==◌, if◌then◌else◌,
}
use shigure_edr.Base.{Result, err, task_argument_error}
use shigure_edr.Base.Table.{fetchone, select}
use shigure_edr.Base.Dict
use shigure_edr.Base.Dict.{Dict}
use shigure_edr.Json.{Json, bool, str, put_some}
use Spec.{TaskDefinition, task_definition_as_dict, validate_args}

abbrev pub read_only_policy_version : String
read_only_policy_version = "read_only_v1"

-- In the order of `TASK_CATALOG`.
unfoldable pub task_catalog : List TaskDefinition
task_catalog =
    inventory ∷ process_list ∷ network_connections ∷ service_list ∷ scheduled_tasks
    ∷ windows_event_logs ∷ file_exists ∷ file_hash ∷ agent_identity ∷ list_directory
    ∷ read_file_chunk ∷ copy_file ∷ listening_ports ∷ registry_query ∷ autoruns_collect
    ∷ process_tree ∷ process_detail ∷ collect_file ∷ quarantine_file ∷ delete_file ∷ kill_process
    ∷ service_control ∷ []

-- `TASK_CATALOG_BY_TYPE.get(task_type)`, over any catalogue.
abbrev pub has_type : String → TaskDefinition → Bool
has_type task_type d = d.task_type == task_type

unfoldable pub definition_in : List TaskDefinition → String → Option TaskDefinition
definition_in catalog task_type = fetchone (has_type task_type) catalog

unfoldable pub get_task_definition : String → Option TaskDefinition
unfolding definition_in
get_task_definition = definition_in task_catalog

abbrev pub is_offered : TaskDefinition → Bool
is_offered item =
    not item.destructive
    && contains ("low" ∷ "medium" ∷ []) item.risk
    && not (item.task_type == "copy_file")

-- The items behind `catalog_for_response_mode`, before they are written as dicts.
unfoldable pub offered_items : String → List TaskDefinition
unfolding select
offered_items response_mode =
    if response_mode == "read_only" then select is_offered task_catalog else task_catalog

unfoldable pub catalog_for_response_mode : String → List (Dict Json)
unfolding offered_items task_definition_as_dict
catalog_for_response_mode response_mode = map task_definition_as_dict (offered_items response_mode)

abbrev blocked : String → String → String → Bool → Dict Json
blocked task_type reason risk destructive =
    ("blocked", bool true)
    ∷ ("policy_version", str read_only_policy_version)
    ∷ ("response_mode", str "read_only")
    ∷ ("task_type", str task_type)
    ∷ ("reason", str reason)
    ∷ ("risk", str risk)
    ∷ ("destructive", bool destructive)
    ∷ []

abbrev block_of : String → Option TaskDefinition → Option (Dict Json)
block_of task_type none = some (blocked task_type "task_not_allowlisted" "unknown" false)
block_of task_type (some d) =
    if d.destructive
    then some (blocked task_type "destructive_task_blocked" d.risk true)
    else if d.requires_explicit_dispatch || d.task_type == "copy_file"
    then some (blocked task_type "mutating_task_blocked" d.risk d.destructive)
    else none

unfoldable pub read_only_policy_block : String → Option (Dict Json)
unfolding get_task_definition
read_only_policy_block task_type = block_of task_type (get_task_definition task_type)

abbrev risk_of : Option TaskDefinition → String
risk_of none = "unknown"
risk_of (some d) = d.risk

abbrev destructive_of : Option TaskDefinition → Bool
destructive_of none = false
destructive_of (some d) = d.destructive

unfoldable pub policy_audit : String → Dict Json → String → Dict Json
unfolding get_task_definition Dict.get Dict.put
policy_audit task_type args requested_by =
    let definition = get_task_definition task_type in
    let out : Dict Json =
      ("policy_version", str read_only_policy_version)
      ∷ ("response_mode", str "read_only")
      ∷ ("task_type", str task_type)
      ∷ ("risk", str (risk_of definition))
      ∷ ("destructive", bool (destructive_of definition))
      ∷ ("requested_by", str requested_by)
      ∷ [] in
    put_some "case_id" (Dict.get "case_id" args) (put_some "reason" (Dict.get "reason" args) out)

abbrev pub validate_with : Option TaskDefinition → Dict Json → Result (Unit {0})
validate_with none args = err (task_argument_error "task_not_allowlisted")
validate_with (some d) args = validate_args d args

unfoldable pub validate_task_args : String → Dict Json → Result (Unit {0})
unfolding get_task_definition validate_args
validate_task_args task_type args = validate_with (get_task_definition task_type) args
