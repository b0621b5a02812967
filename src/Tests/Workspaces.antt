-- ===== src/Tests/Workspaces.antt =====
-- A workspace that is started twice.
use shigure_edr.Base.{◌≡◌, refl, none, some, [], ◌∷◌, ok, map, In}
use shigure_edr.Base.Table.{fetchone, insert, update}
use shigure_edr.Base.Sort.{sort_by, insert_by}
use shigure_edr.Control.Schema.{Case, Store}
use shigure_edr.Control.Alerts.{get_alert}
use shigure_edr.Control.Cases.{
  case_key, edit, create_case, get_case_by_alert, get_case, update_case, new_case,
}
use shigure_edr.Investigation.{Dumps, sqlite_telemetry}
use shigure_edr.Investigation.Packages.{Workspace, build_workspace_package}
use shigure_edr.Api.CaseRoutes.{
  WorkspaceStartRequest, CaseDraw, case_for_alert, investigating, start_workspace,
}
use shigure_edr.Api.CaseRoutes.Workspaces.{start_workspace_again}
use shigure_edr.Tests.Data.{codec}
use shigure_edr.Tests.Cases.{alert, alerted, opened_store}

abbrev dumps : Dumps
dumps = record { dump_event = λ e. "{}"; dump_alert = λ a. "{}" }

abbrev request : WorkspaceStartRequest
request = record {
  tenant_id = "default";
  alert_id = "alert-1";
  assignee = some "analyst";
  priority = none;
}

abbrev draw : CaseDraw
draw = record { at = 60; case_id = "case-1"; alert_link = "link-1"; raw_link = "link-2" }

abbrev draw' : CaseDraw
draw' = record { at = 90; case_id = "case-2"; alert_link = "link-3"; raw_link = "link-4" }

abbrev opened : Case
opened =
    new_case 60 "case-1" "default" "Investigate: Suspicious encoded PowerShell command" "high"
      (some "alert-1") none (some "high") (some "unclassified")

abbrev taken : Case
taken = edit 61 (investigating request opened) opened

-- What the first start leaves.
abbrev started : Store
started = record alerted { cases = taken ∷ []; case_evidence = opened_store.case_evidence }

abbrev first_start : Case × Workspace
first_start = (
  taken,
  build_workspace_package codec dumps (sqlite_telemetry dumps started) "default" alert.alert taken
      started,
)

started_once :
    start_workspace codec dumps (sqlite_telemetry dumps) 61 draw request alerted
    ≡ ok (first_start, started)
unfolding start_workspace get_alert get_case_by_alert case_for_alert create_case update_case
    get_case fetchone insert update sort_by insert_by
started_once = refl

start_workspace_again_example :
    (second : Case × Workspace) × (s2 : Store) × (start_workspace codec dumps
        (sqlite_telemetry dumps)
        91
        draw'
        request
        started
      ≡ ok (second, s2))
    × (map case_key s2.cases ≡ map case_key started.cases)
    × (c : Case) × In c started.cases
    × (c.tenant_id ≡ "default")
    × (c.alert_id ≡ some "alert-1")
    × (second.0.case_id ≡ c.case_id)
start_workspace_again_example =
    start_workspace_again codec dumps (sqlite_telemetry dumps) 61 draw request alerted started
      first_start 91 draw' (some "analyst") none started_once
