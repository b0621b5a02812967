-- ===== src/Catalog/Response.antt =====
-- The tasks that change the endpoint, as `TaskDefinition.from_dict` reads them from
-- `_TASK_CATALOG_SOURCE` (api/task_catalog.py).
use shigure_edr.Base.{true, none, some, [], ◌∷◌}
use shigure_edr.Base.Int.{pos}
use shigure_edr.Catalog.Spec.{TaskDefinition}

abbrev pub quarantine_file : TaskDefinition
quarantine_file = record {
  task_type = "quarantine_file";
  title = "Quarantine file";
  description = "Move a file into an analyst-specified quarantine directory on the endpoint.";
  platforms = "windows" ∷ "linux" ∷ [];
  risk = "high";
  destructive = true;
  args_schema =
      (
        "source_path",
        record {
          type = "string";
          required = true;
          enum = none;
          minimum = none;
          maximum = none;
          default = none;
        },
      )
      ∷ (
        "quarantine_dir",
        record {
          type = "string";
          required = true;
          enum = none;
          minimum = none;
          maximum = none;
          default = none;
        },
      )
      ∷ [];
  requires_explicit_dispatch = true;
}

abbrev pub delete_file : TaskDefinition
delete_file = record {
  task_type = "delete_file";
  title = "Delete file";
  description =
      "Delete a specific file. Requires confirm_sha256 to reduce accidental destructive actions.";
  platforms = "windows" ∷ "linux" ∷ [];
  risk = "high";
  destructive = true;
  args_schema =
      (
        "path",
        record {
          type = "string";
          required = true;
          enum = none;
          minimum = none;
          maximum = none;
          default = none;
        },
      )
      ∷ (
        "confirm_sha256",
        record {
          type = "string";
          required = true;
          enum = none;
          minimum = none;
          maximum = none;
          default = none;
        },
      )
      ∷ [];
  requires_explicit_dispatch = true;
}

abbrev pub kill_process : TaskDefinition
kill_process = record {
  task_type = "kill_process";
  title = "Kill process";
  description = "Terminate a process by PID.";
  platforms = "windows" ∷ "linux" ∷ [];
  risk = "high";
  destructive = true;
  args_schema =
      (
        "pid",
        record {
          type = "integer";
          required = true;
          enum = none;
          minimum = some (pos 1);
          maximum = some (pos 2147483647);
          default = none;
        },
      )
      ∷ [];
  requires_explicit_dispatch = true;
}

abbrev pub service_control : TaskDefinition
service_control = record {
  task_type = "service_control";
  title = "Service control";
  description = "Query, start, or stop a named service using the platform service manager.";
  platforms = "windows" ∷ "linux" ∷ [];
  risk = "high";
  destructive = true;
  args_schema =
      (
        "service_name",
        record {
          type = "string";
          required = true;
          enum = none;
          minimum = none;
          maximum = none;
          default = none;
        },
      )
      ∷ (
        "action",
        record {
          type = "string";
          required = true;
          enum = some ("status" ∷ "start" ∷ "stop" ∷ []);
          minimum = none;
          maximum = none;
          default = none;
        },
      )
      ∷ [];
  requires_explicit_dispatch = true;
}
