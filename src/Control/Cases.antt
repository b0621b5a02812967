-- ===== src/Control/Cases.antt =====
-- Cases and the evidence that is linked to them (api/store.py, create_case, get_case_by_alert,
-- get_case to list_case_evidence).
pub mod Linked
use mathlib.Core.Option
use shigure_edr.Base.{
  ℕ, String, Bool, true, false, ◌&&◌, Option, none, some, List, [], ◌∷◌, ◌==◌, if◌then◌else◌,
  is_text, or_default, coalesce, is_some,
}
use shigure_edr.Base.{Result, ok, err, value_error, type_error, ◌>>=◌, ◌>>◌, guard}
use shigure_edr.Base.Int.{pos}
use shigure_edr.Base.Table.{select, fetchone, update, insert, has_key}
use shigure_edr.Base.Sort.{ascending, descending, sort_by}
use shigure_edr.Base.Dict
use shigure_edr.Base.Dict.{Dict}
use shigure_edr.Json.{Json, null, int, str, obj, fields}
use shigure_edr.Control.Alerts.{is_alert}
use shigure_edr.Control.Schema.{Time, Case, CaseEvidence, AlertRow, RawEvidence, Store}
use shigure_edr.Control.Evidence.{is_raw_ref}

abbrev pub case_key : Case → String
case_key c = c.case_id

abbrev pub evidence_key : CaseEvidence → String
evidence_key e = e.evidence_id

abbrev pub is_case : String → String → Case → Bool
is_case tenant_id case_id c = c.tenant_id == tenant_id && c.case_id == case_id

abbrev pub text_or_null : Option String → Json
text_or_null none = null
text_or_null (some s) = str s

-- `_raw_evidence_metadata`, the columns of a row without the payload; an instant is a number here.
unfoldable pub raw_evidence_metadata : RawEvidence → Dict Json
raw_evidence_metadata row =
    ("raw_ref", str row.raw_ref)
    ∷ ("tenant_id", str row.tenant_id)
    ∷ ("kind", str row.kind)
    ∷ ("sha256", str row.sha256)
    ∷ ("size", int (pos row.size))
    ∷ ("mime_type", str row.mime_type)
    ∷ ("storage_provider", str row.storage_provider)
    ∷ ("object_key", str row.object_key)
    ∷ ("created_at", int (pos row.created_at))
    ∷ ("metadata", obj (fields row.metadata))
    ∷ []

-- `raw_link_data`
abbrev raw_link_base : AlertRow → Dict Json
raw_link_base alert =
    ("kind", str "alert")
    ∷ ("sha256", text_or_null alert.raw_hash)
    ∷ ("raw_hash", text_or_null alert.raw_hash)
    ∷ []

abbrev raw_link_data : AlertRow → Option RawEvidence → Dict Json
raw_link_data alert none = raw_link_base alert
raw_link_data alert (some row) = Dict.put "raw_hash" (text_or_null alert.raw_hash) (
    Dict.put "sha256" (text_or_null alert.raw_hash)
      (Dict.merge (raw_link_base alert) (raw_evidence_metadata row)))

abbrev pub linked :
    String → String → String → Time → String → String → Option String → Dict Json → CaseEvidence
linked evidence_id case_id tenant_id now evidence_type ref_id summary facts = record {
  evidence_id = evidence_id;
  case_id = case_id;
  tenant_id = tenant_id;
  evidence_type = evidence_type;
  ref_id = ref_id;
  summary = summary;
  facts = facts;
  created_at = now;
}

abbrev alert_of : Option AlertRow → Result (Option AlertRow)
alert_of none = err (value_error "alert_not_found_in_tenant")
alert_of (some alert) = ok (some alert)

-- The alert that a case is opened for: none is asked for, it is there, or it is an error.
abbrev pub asked_alert : String → Option String → Store → Result (Option AlertRow)
asked_alert tenant_id alert_id s =
    if is_text alert_id
    then alert_of (fetchone (is_alert tenant_id (or_default alert_id "")) s.alerts)
    else ok none

-- The rows that link the alert and its raw evidence to the case.
abbrev pub link_raw :
    String
    → String
    → String
    → Time
    → AlertRow
    → Store
    → List CaseEvidence
    → Result (List CaseEvidence)
link_raw evidence_id case_id tenant_id now alert s rows =
    if is_text alert.raw_ref
    then insert evidence_key
        (linked evidence_id case_id tenant_id now "raw_evidence" (or_default alert.raw_ref "")
          (some "Source alert raw evidence")
          (raw_link_data alert
            (fetchone (is_raw_ref tenant_id (or_default alert.raw_ref "")) s.raw_evidence)))
        rows
    else ok rows

abbrev pub link_alert :
    String → String → String → String → Time → Store → Option AlertRow → Result (List CaseEvidence)
link_alert alert_link raw_link case_id tenant_id now s none = ok s.case_evidence
link_alert alert_link raw_link case_id tenant_id now s (some alert) = do
  rows ←
      insert evidence_key
        (linked alert_link case_id tenant_id now "alert" alert.alert_id (some "Source alert") (
          ("raw_ref", text_or_null alert.raw_ref) ∷ ("raw_hash", text_or_null alert.raw_hash) ∷ []))
        s.case_evidence
  link_raw raw_link case_id tenant_id now alert s rows

abbrev pub new_case :
    Time
    → String
    → String
    → String
    → String
    → Option String
    → Option String
    → Option String
    → Option String
    → Case
new_case now case_id tenant_id title severity alert_id description priority classification =
    record {
      case_id = case_id;
      tenant_id = tenant_id;
      title = title;
      severity = severity;
      status = "open";
      alert_id = alert_id;
      assignee = none;
      priority = priority;
      classification =
          some (if is_text classification then or_default classification "" else "unclassified");
      description = description;
      summary = none;
      created_at = now;
      updated_at = now;
    }

-- `dict(row)` of the row that is read back.
abbrev pub row_read {ℓ} : {R : Type ℓ} → Option R → Result R
row_read none = err type_error
row_read (some row) = ok row

-- `case_id`, `alert_link` and `raw_link` are drawn.
unfoldable pub create_case :
    Time
    → String
    → String
    → String
    → String
    → String
    → String
    → Option String
    → Option String
    → Option String
    → Option String
    → Store
    → Result (Case × Store)
unfolding raw_evidence_metadata Dict.put Dict.merge
create_case now case_id alert_link raw_link tenant_id title severity alert_id description priority
      classification s =
    do
      alert ← asked_alert tenant_id alert_id s
      let made =
          new_case now case_id tenant_id title severity alert_id description priority classification
      cases ← insert case_key made s.cases
      rows ← link_alert alert_link raw_link case_id tenant_id now s alert
      row ← row_read (fetchone (has_key case_key case_id) cases)
      ok (row, record s { cases = cases; case_evidence = rows })

unfoldable pub get_case : String → String → Store → Option Case
get_case tenant_id case_id s = fetchone (is_case tenant_id case_id) s.cases

abbrev pub of_alert : String → String → Case → Bool
of_alert tenant_id alert_id c =
    c.tenant_id == tenant_id && or_default c.alert_id "" == alert_id && is_some c.alert_id

unfoldable pub get_case_by_alert : String → String → Store → Option Case
unfolding sort_by
get_case_by_alert tenant_id alert_id s =
    fetchone (of_alert tenant_id alert_id) (descending (λ (c : Case). c.updated_at) s.cases)

-- The changes that a caller asks for (api/cases.py, CaseUpdateRequest).
pub record CaseUpdate : Type 0 where
  pub status : Option String
  pub assignee : Option String
  pub summary : Option String
  pub priority : Option String
  pub classification : Option String

abbrev pub edit : Time → CaseUpdate → Case → Case
edit now req c = record c {
  status = or_default req.status c.status;
  assignee = coalesce req.assignee c.assignee;
  summary = coalesce req.summary c.summary;
  priority = coalesce req.priority c.priority;
  classification = coalesce req.classification c.classification;
  updated_at = now;
}

abbrev pub edited : Time → String → String → CaseUpdate → Store → Option Case → Option Case × Store
edited now tenant_id case_id req s none = (none, s)
edited now tenant_id case_id req s (some current) =
    let cases = update (is_case tenant_id case_id) (edit now req) s.cases in
    (fetchone (is_case tenant_id case_id) cases, record s { cases = cases })

unfoldable pub update_case : Time → String → String → CaseUpdate → Store → Option Case × Store
unfolding get_case
update_case now tenant_id case_id req s =
    edited now tenant_id case_id req s (get_case tenant_id case_id s)

unfoldable pub add_case_evidence :
    Time
    → String
    → String
    → String
    → String
    → String
    → Option String
    → Dict Json
    → Store
    → Result (CaseEvidence × Store)
unfolding get_case
add_case_evidence now evidence_id tenant_id case_id evidence_type ref_id summary facts s = do
  guard (is_some (get_case tenant_id case_id s)) (value_error "case_not_found_in_tenant")
  let row = linked evidence_id case_id tenant_id now evidence_type ref_id summary facts
  rows ← insert evidence_key row s.case_evidence
  shown ← row_read (fetchone (has_key evidence_key evidence_id) rows)
  ok (shown, record s { case_evidence = rows })

abbrev is_evidence_of : String → String → CaseEvidence → Bool
is_evidence_of tenant_id case_id e = e.tenant_id == tenant_id && e.case_id == case_id

unfoldable pub list_case_evidence : String → String → Store → List CaseEvidence
unfolding sort_by select
list_case_evidence tenant_id case_id s =
    ascending (λ (e : CaseEvidence). e.created_at)
      (select (is_evidence_of tenant_id case_id) s.case_evidence)
