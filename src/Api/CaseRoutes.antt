-- ===== src/Api/CaseRoutes.antt =====
-- The routes of cases and of the investigation workspace (api/app.py, start_investigation_workspace
-- to case_handoff); the caller has passed `admin_auth`.
pub mod Workspaces
use mathlib.Core.Option
use shigure_edr.Base.{
  ℕ, String, ◌<>◌, Bool, true, false, not, ◌&&◌, Option, none, some, List, [], ◌∷◌, ◌==◌,
  if◌then◌else◌, is_text, is_some, or_default,
}
use shigure_edr.Base.{Result, ok, err, http_exception, ◌>>=◌, ◌>>◌, guard}
use shigure_edr.Base.Int.{ℤ}
use shigure_edr.Base.Dict
use shigure_edr.Base.Dict.{Dict}
use shigure_edr.Json.{Json, null, str, obj, fields, truthy}
use shigure_edr.Events.{NormalizedEvent, Alert}
use shigure_edr.Evidence.{Codec}
use shigure_edr.Control.Schema.{Time, Case, CaseEvidence, Store, Task}
use shigure_edr.Control.Alerts.{get_alert}
use shigure_edr.Control.Tasks.Admin.{get_task}
use shigure_edr.Control.Cases.{
  CaseUpdate, create_case, get_case, get_case_by_alert, update_case, add_case_evidence,
  list_case_evidence, text_or_null,
}
use shigure_edr.Investigation.{
  Telemetry, Dumps, RawRef, source_event_for_alert, related_timeline, raw_refs_from_case_evidence,
}
use shigure_edr.Investigation.Packages.{
  Workspace, HuntPackage, build_workspace_package, hunt_package,
}
use shigure_edr.Api.AgentRoutes.{http_error}

-- What is asked for and not there.
abbrev pub or_404 {ℓ} : {A : Type ℓ} → String → Option A → Result A
or_404 detail none = err (http_exception 404 detail)
or_404 detail (some a) = ok a

-- api/cases.py, WorkspaceStartRequest.
pub record WorkspaceStartRequest : Type 0 where
  pub tenant_id : String
  pub alert_id : String
  pub assignee : Option String
  pub priority : Option String

-- `a or b`
abbrev pub text_or : Option String → Option String → Option String
text_or a b = if is_text a then a else b

-- The identifiers and the instant that the creation of a case draws.
pub record CaseDraw : Type 0 where
  pub at : Time
  pub case_id : String
  pub alert_link : String
  pub raw_link : String

-- The case of the alert, which is opened where there is none.
unfoldable pub case_for_alert :
    CaseDraw → WorkspaceStartRequest → Alert → Option Case → Store → Result (Case × Store)
unfolding create_case
case_for_alert draw req alert (some case) s = ok (case, s)
case_for_alert draw req alert none s =
    create_case draw.at draw.case_id draw.alert_link draw.raw_link req.tenant_id
      ("Investigate: " <> alert.title) alert.severity (some req.alert_id) alert.description
      (text_or req.priority (some alert.severity)) (some "unclassified") s

abbrev pub investigating : WorkspaceStartRequest → Case → CaseUpdate
investigating req case = record {
  status = some "investigating";
  assignee = req.assignee;
  summary = none;
  priority = text_or req.priority case.priority;
  classification = none;
}

module _ (codec : Codec) (dumps : Dumps) (telemetry : Store → Telemetry) where
  -- The case as it is after the request, with its package; the other fields of `workflow` are those
  -- of the case, and its links spell the case's identifier.
  unfoldable pub start_workspace :
      Time → CaseDraw → WorkspaceStartRequest → Store → Result ((Case × Workspace) × Store)
  unfolding get_alert get_case_by_alert case_for_alert update_case build_workspace_package
  start_workspace now draw req s = do
    alert ← or_404 "alert_not_found" (get_alert req.tenant_id req.alert_id s)
    (case, s1) ← case_for_alert draw req alert (get_case_by_alert req.tenant_id req.alert_id s) s
    let (changed, s2) = update_case now req.tenant_id case.case_id (investigating req case) s1
    let shown = or_default changed case
    ok (
      (shown, build_workspace_package codec dumps (telemetry s2) req.tenant_id alert shown s2),
      s2,
    )

-- api/cases.py, TaskEvidenceAttachRequest.
pub record TaskEvidenceAttachRequest : Type 0 where
  pub tenant_id : String
  pub case_id : String
  pub task_id : String
  pub summary : Option String

abbrev json_or_null : Option Json → Json
json_or_null none = null
json_or_null (some v) = v

abbrev is_truthy : Option Json → Bool
is_truthy none = false
is_truthy (some v) = truthy v

-- `task.args.get("case_id") and task.args.get("case_id") != req.case_id`
abbrev is_other_case : String → Option Json → Bool
is_other_case case_id none = false
is_other_case case_id (some (str s)) = not (s == "") && not (s == case_id)
is_other_case case_id (some v) = truthy v

-- What the link to the task's evidence says.
unfoldable pub attached_facts : Task → Dict Json
unfolding Dict.get
attached_facts task =
    let result = or_default task.result [] in
    let path = Dict.get "path" result in
    ("raw_ref", text_or_null task.raw_ref)
    ∷ ("raw_hash", text_or_null task.raw_hash)
    ∷ ("size", json_or_null (Dict.get "size" result))
    ∷ ("path", json_or_null (if is_truthy path then path else Dict.get "path" task.args))
    ∷ ("task_type", str task.task_type)
    ∷ ("status", str task.status)
    ∷ (
      "audit",
      obj (
          fields (
            ("reason", json_or_null (Dict.get "reason" task.args))
            ∷ ("case_id", json_or_null (Dict.get "case_id" task.args))
            ∷ ("requested_by", json_or_null (Dict.get "requested_by" result))
            ∷ [])),
    )
    ∷ []

unfoldable pub attach_task_evidence :
    Time → String → TaskEvidenceAttachRequest → Store → Result (CaseEvidence × Store)
unfolding get_task attached_facts add_case_evidence Dict.get
attach_task_evidence now evidence_id req s = do
  task ← or_404 "task_not_found" (get_task req.tenant_id req.task_id s)
  guard (is_text task.raw_ref) (http_exception 400 "task_has_no_raw_evidence")
  guard (not (is_other_case req.case_id (Dict.get "case_id" task.args)))
      (http_exception 400 "task_case_mismatch")
  http_error 404 (
      add_case_evidence now evidence_id req.tenant_id req.case_id "task_result" req.task_id
        req.summary (attached_facts task) s)

-- api/cases.py, CaseCreateRequest.
pub record CaseCreateRequest : Type 0 where
  pub tenant_id : String
  pub title : String
  pub severity : String
  pub alert_id : Option String
  pub description : Option String

unfoldable pub create_case_request : CaseDraw → CaseCreateRequest → Store → Result (Case × Store)
unfolding create_case
create_case_request draw req s = http_error 400 (
    create_case draw.at draw.case_id draw.alert_link draw.raw_link req.tenant_id req.title
      req.severity req.alert_id req.description none none s)

unfoldable pub get_case_request : String → String → Store → Result (Case × List CaseEvidence)
unfolding get_case list_case_evidence
get_case_request tenant_id case_id s = do
  case ← or_404 "case_not_found" (get_case tenant_id case_id s)
  ok (case, list_case_evidence tenant_id case_id s)

unfoldable pub update_case_request :
    Time → String → String → CaseUpdate → Store → Result (Case × Store)
unfolding update_case
update_case_request now tenant_id case_id req s = do
  let (changed, s') = update_case now tenant_id case_id req s
  case ← or_404 "case_not_found" changed
  ok (case, s')

-- api/cases.py, CaseEvidenceRequest; `facts` is its `data`.
pub record CaseEvidenceRequest : Type 0 where
  pub evidence_type : String
  pub ref_id : String
  pub summary : Option String
  pub facts : Dict Json

unfoldable pub add_case_evidence_request :
    Time → String → String → String → CaseEvidenceRequest → Store → Result (CaseEvidence × Store)
unfolding add_case_evidence
add_case_evidence_request now evidence_id tenant_id case_id req s = http_error 404 (
    add_case_evidence now evidence_id tenant_id case_id req.evidence_type req.ref_id req.summary
      req.facts s)

pub record Handoff : Type 0 where
  pub case : Case
  pub alert : Option Alert
  pub timeline : List NormalizedEvent
  pub evidence : List CaseEvidence
  pub raw_evidence_refs : List RawRef
  pub hunt : HuntPackage

abbrev host_of : Option Alert → Option String
host_of none = none
host_of (some alert) = alert.host

module _ (codec : Codec) (dumps : Dumps) (telemetry : Store → Telemetry) where
  unfoldable pub case_handoff : String → String → Store → Result Handoff
  unfolding get_case get_alert list_case_evidence source_event_for_alert related_timeline
      hunt_package raw_refs_from_case_evidence
  case_handoff tenant_id case_id s = do
    case ← or_404 "case_not_found" (get_case tenant_id case_id s)
    let evidence = list_case_evidence tenant_id case_id s
    let alert =
        if is_text case.alert_id then get_alert tenant_id (or_default case.alert_id "") s else none
    let source_event = source_event_for_alert codec (telemetry s) tenant_id alert
    let timeline = related_timeline codec (telemetry s) tenant_id source_event (host_of alert)
    ok (record {
      case = case;
      alert = alert;
      timeline = timeline;
      evidence = evidence;
      raw_evidence_refs = raw_refs_from_case_evidence codec evidence;
      hunt = hunt_package dumps (telemetry s) tenant_id timeline alert s;
    })
