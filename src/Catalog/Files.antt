-- ===== src/Catalog/Files.antt =====
-- The tasks that read or copy files, as `TaskDefinition.from_dict` reads them from
-- `_TASK_CATALOG_SOURCE` (api/task_catalog.py).
use shigure_edr.Base.{true, false, none, some, [], ◌∷◌}
use shigure_edr.Base.Int.{pos}
use shigure_edr.Json.{int}
use shigure_edr.Catalog.Spec.{TaskDefinition}

abbrev pub file_exists : TaskDefinition
file_exists = record {
  task_type = "file_exists";
  title = "File exists";
  description = "Check whether a path exists without reading file contents.";
  platforms = "windows" ∷ "linux" ∷ [];
  risk = "low";
  destructive = false;
  args_schema =
      (
        "path",
        record {
          type = "string";
          required = true;
          enum = none;
          minimum = none;
          maximum = none;
          default = none;
        },
      )
      ∷ [];
  requires_explicit_dispatch = false;
}

abbrev pub file_hash : TaskDefinition
file_hash = record {
  task_type = "file_hash";
  title = "File SHA256";
  description = "Hash a specific file path for evidence and IOC comparison.";
  platforms = "windows" ∷ "linux" ∷ [];
  risk = "low";
  destructive = false;
  args_schema =
      (
        "path",
        record {
          type = "string";
          required = true;
          enum = none;
          minimum = none;
          maximum = none;
          default = none;
        },
      )
      ∷ [];
  requires_explicit_dispatch = false;
}

abbrev pub list_directory : TaskDefinition
list_directory = record {
  task_type = "list_directory";
  title = "List directory";
  description = "List bounded directory entries for triage and evidence discovery.";
  platforms = "windows" ∷ "linux" ∷ [];
  risk = "low";
  destructive = false;
  args_schema =
      (
        "path",
        record {
          type = "string";
          required = true;
          enum = none;
          minimum = none;
          maximum = none;
          default = none;
        },
      )
      ∷ (
        "max_entries",
        record {
          type = "integer";
          required = false;
          enum = none;
          minimum = some (pos 1);
          maximum = some (pos 500);
          default = some (int (pos 100));
        },
      )
      ∷ [];
  requires_explicit_dispatch = false;
}

abbrev pub read_file_chunk : TaskDefinition
read_file_chunk = record {
  task_type = "read_file_chunk";
  title = "Read file chunk";
  description = "Read a bounded byte range from a file for analyst inspection.";
  platforms = "windows" ∷ "linux" ∷ [];
  risk = "medium";
  destructive = false;
  args_schema =
      (
        "path",
        record {
          type = "string";
          required = true;
          enum = none;
          minimum = none;
          maximum = none;
          default = none;
        },
      )
      ∷ (
        "offset",
        record {
          type = "integer";
          required = false;
          enum = none;
          minimum = some (pos 0);
          maximum = some (pos 104857600);
          default = some (int (pos 0));
        },
      )
      ∷ (
        "max_bytes",
        record {
          type = "integer";
          required = true;
          enum = none;
          minimum = some (pos 1);
          maximum = some (pos 65536);
          default = none;
        },
      )
      ∷ (
        "reason",
        record {
          type = "string";
          required = true;
          enum = none;
          minimum = none;
          maximum = none;
          default = none;
        },
      )
      ∷ (
        "case_id",
        record {
          type = "string";
          required = true;
          enum = none;
          minimum = none;
          maximum = none;
          default = none;
        },
      )
      ∷ [];
  requires_explicit_dispatch = false;
}

abbrev pub copy_file : TaskDefinition
copy_file = record {
  task_type = "copy_file";
  title = "Copy file";
  description = "Copy a file on the endpoint to another local path for evidence preservation.";
  platforms = "windows" ∷ "linux" ∷ [];
  risk = "medium";
  destructive = false;
  args_schema =
      (
        "source_path",
        record {
          type = "string";
          required = true;
          enum = none;
          minimum = none;
          maximum = none;
          default = none;
        },
      )
      ∷ (
        "destination_path",
        record {
          type = "string";
          required = true;
          enum = none;
          minimum = none;
          maximum = none;
          default = none;
        },
      )
      ∷ [];
  requires_explicit_dispatch = false;
}

abbrev pub collect_file : TaskDefinition
collect_file = record {
  task_type = "collect_file";
  title = "Collect file evidence";
  description = "Upload a bounded file from the endpoint to server raw evidence storage.";
  platforms = "windows" ∷ "linux" ∷ [];
  risk = "medium";
  destructive = false;
  args_schema =
      (
        "path",
        record {
          type = "string";
          required = true;
          enum = none;
          minimum = none;
          maximum = none;
          default = none;
        },
      )
      ∷ (
        "max_bytes",
        record {
          type = "integer";
          required = true;
          enum = none;
          minimum = some (pos 1);
          maximum = some (pos 10485760);
          default = none;
        },
      )
      ∷ (
        "reason",
        record {
          type = "string";
          required = true;
          enum = none;
          minimum = none;
          maximum = none;
          default = none;
        },
      )
      ∷ (
        "case_id",
        record {
          type = "string";
          required = true;
          enum = none;
          minimum = none;
          maximum = none;
          default = none;
        },
      )
      ∷ [];
  requires_explicit_dispatch = false;
}
