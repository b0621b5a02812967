-- ===== src/Catalog/Host.antt =====
-- The tasks that report on a host, as `TaskDefinition.from_dict` reads them from
-- `_TASK_CATALOG_SOURCE` (api/task_catalog.py).
use shigure_edr.Base.{true, false, none, some, [], ◌∷◌}
use shigure_edr.Base.Int.{pos}
use shigure_edr.Json.{bool, int, str}
use shigure_edr.Catalog.Spec.{TaskDefinition}

abbrev pub inventory : TaskDefinition
inventory = record {
  task_type = "inventory";
  title = "Host inventory";
  description = "Return basic host, OS, IP, and agent runtime inventory.";
  platforms = "windows" ∷ "linux" ∷ [];
  risk = "low";
  destructive = false;
  args_schema = [];
  requires_explicit_dispatch = false;
}

abbrev pub process_list : TaskDefinition
process_list = record {
  task_type = "process_list";
  title = "Process list";
  description = "Return a bounded snapshot of running processes.";
  platforms = "windows" ∷ "linux" ∷ [];
  risk = "low";
  destructive = false;
  args_schema = [];
  requires_explicit_dispatch = false;
}

abbrev pub network_connections : TaskDefinition
network_connections = record {
  task_type = "network_connections";
  title = "Network connections";
  description = "Return a bounded read-only network/interface or connection snapshot.";
  platforms = "windows" ∷ "linux" ∷ [];
  risk = "low";
  destructive = false;
  args_schema = [];
  requires_explicit_dispatch = false;
}

abbrev pub service_list : TaskDefinition
service_list = record {
  task_type = "service_list";
  title = "Services";
  description = "Return installed services or service definitions where supported.";
  platforms = "windows" ∷ "linux" ∷ [];
  risk = "low";
  destructive = false;
  args_schema = [];
  requires_explicit_dispatch = false;
}

abbrev pub scheduled_tasks : TaskDefinition
scheduled_tasks = record {
  task_type = "scheduled_tasks";
  title = "Scheduled tasks";
  description = "Return scheduled tasks / cron-style persistence entries where supported.";
  platforms = "windows" ∷ "linux" ∷ [];
  risk = "low";
  destructive = false;
  args_schema = [];
  requires_explicit_dispatch = false;
}

abbrev pub windows_event_logs : TaskDefinition
windows_event_logs = record {
  task_type = "windows_event_logs";
  title = "Windows Event Logs";
  description = "Collect recent events from allowlisted Windows log profiles.";
  platforms = "windows" ∷ [];
  risk = "low";
  destructive = false;
  args_schema =
      (
        "profile",
        record {
          type = "string";
          required = false;
          enum = some ("powershell" ∷ "auth" ∷ "service" ∷ "task" ∷ []);
          minimum = none;
          maximum = none;
          default = some (str "powershell");
        },
      )
      ∷ (
        "max_events",
        record {
          type = "integer";
          required = false;
          enum = none;
          minimum = some (pos 1);
          maximum = some (pos 100);
          default = some (int (pos 25));
        },
      )
      ∷ [];
  requires_explicit_dispatch = false;
}

abbrev pub agent_identity : TaskDefinition
agent_identity = record {
  task_type = "agent_identity";
  title = "Agent execution identity";
  description =
      "Return the account/security context the endpoint agent is running as (used to confirm LocalSystem/root deployment).";
  platforms = "windows" ∷ "linux" ∷ [];
  risk = "low";
  destructive = false;
  args_schema = [];
  requires_explicit_dispatch = false;
}

abbrev pub listening_ports : TaskDefinition
listening_ports = record {
  task_type = "listening_ports";
  title = "Listening ports";
  description = "Return listening TCP ports and owning PID where available.";
  platforms = "windows" ∷ "linux" ∷ [];
  risk = "low";
  destructive = false;
  args_schema = [];
  requires_explicit_dispatch = false;
}

abbrev pub registry_query : TaskDefinition
registry_query = record {
  task_type = "registry_query";
  title = "Registry query";
  description =
      "Read a Windows registry key using reg.exe query; unsupported on non-Windows platforms.";
  platforms = "windows" ∷ [];
  risk = "low";
  destructive = false;
  args_schema =
      (
        "key",
        record {
          type = "string";
          required = true;
          enum = none;
          minimum = none;
          maximum = none;
          default = none;
        },
      )
      ∷ (
        "recursive",
        record {
          type = "boolean";
          required = false;
          enum = none;
          minimum = none;
          maximum = none;
          default = some (bool false);
        },
      )
      ∷ [];
  requires_explicit_dispatch = false;
}

abbrev pub autoruns_collect : TaskDefinition
autoruns_collect = record {
  task_type = "autoruns_collect";
  title = "Autoruns collection";
  description =
      "Collect common persistence locations such as Run keys, services, scheduled tasks, startup folders, systemd and cron.";
  platforms = "windows" ∷ "linux" ∷ [];
  risk = "low";
  destructive = false;
  args_schema = [];
  requires_explicit_dispatch = false;
}

abbrev pub process_tree : TaskDefinition
process_tree = record {
  task_type = "process_tree";
  title = "Process tree";
  description = "Return bounded parent/child process context for a PID.";
  platforms = "windows" ∷ "linux" ∷ [];
  risk = "low";
  destructive = false;
  args_schema =
      (
        "pid",
        record {
          type = "integer";
          required = true;
          enum = none;
          minimum = some (pos 1);
          maximum = some (pos 2147483647);
          default = none;
        },
      )
      ∷ [];
  requires_explicit_dispatch = false;
}

abbrev pub process_detail : TaskDefinition
process_detail = record {
  task_type = "process_detail";
  title = "Process detail";
  description =
      "Return details for a specific process ID, including command line and executable hash when available.";
  platforms = "windows" ∷ "linux" ∷ [];
  risk = "low";
  destructive = false;
  args_schema =
      (
        "pid",
        record {
          type = "integer";
          required = true;
          enum = none;
          minimum = some (pos 1);
          maximum = some (pos 2147483647);
          default = none;
        },
      )
      ∷ [];
  requires_explicit_dispatch = false;
}
