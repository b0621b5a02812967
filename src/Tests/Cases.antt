-- ===== src/Tests/Cases.antt =====
-- A case that is opened for an alert.
use shigure_edr.Base.{◌≡◌, refl, none, some, [], ◌∷◌, ok}
use shigure_edr.Base.Table.{fetchone, insert}
use shigure_edr.Json.{str}
use shigure_edr.Control.Schema.{Case, AlertRow, Store}
use shigure_edr.Control.Cases.{create_case, new_case, linked}
use shigure_edr.Control.Cases.Linked.{AreLinked, start, next, created, CaseRun-AreLinked}
use shigure_edr.Tests.Data.{two_agents}

abbrev pub alert : AlertRow
alert = record {
  alert_id = "alert-1";
  tenant_id = "default";
  title = "Suspicious encoded PowerShell command";
  severity = "high";
  timestamp = 10;
  host = some "WS-01";
  user = none;
  process_name = some "powershell.exe";
  raw_ref = some "object://raw-evidence/default/alert/alert-1/ab12.json";
  raw_hash = some "ab12";
  alert = record {
    alert_id = "alert-1";
    title = "Suspicious encoded PowerShell command";
    severity = "high";
    timestamp = 10;
    created_at = some 11;
    host = some "WS-01";
    user = none;
    process_name = some "powershell.exe";
    description = none;
    mitre = "T1059.001" ∷ [];
    source = "internal";
    raw_ref = some "object://raw-evidence/default/alert/alert-1/ab12.json";
    raw_hash = some "ab12";
    raw = ("tenant_id", str "default") ∷ [];
  };
}

abbrev pub alerted : Store
alerted = record two_agents { alerts = alert ∷ [] }

abbrev opened : Case
opened = new_case 60 "case-1" "default" "Encoded PowerShell" "high" (some "alert-1") none none none

abbrev pub opened_store : Store
opened_store = record alerted {
  cases = opened ∷ [];
  case_evidence =
      linked "link-1" "case-1" "default" 60 "alert" "alert-1" (some "Source alert") (
        ("raw_ref", str "object://raw-evidence/default/alert/alert-1/ab12.json")
        ∷ ("raw_hash", str "ab12")
        ∷ [])
      ∷ linked "link-2" "case-1" "default" 60 "raw_evidence"
          "object://raw-evidence/default/alert/alert-1/ab12.json" (some "Source alert raw evidence")
          (("kind", str "alert") ∷ ("sha256", str "ab12") ∷ ("raw_hash", str "ab12") ∷ [])
      ∷ [];
}

opened_once :
    create_case 60 "case-1" "link-1" "link-2" "default" "Encoded PowerShell" "high"
      (some "alert-1")
      none
      none
      none
      alerted
    ≡ ok (opened, opened_store)
unfolding create_case fetchone insert
opened_once = refl

CaseRun-AreLinked_example : AreLinked opened_store
CaseRun-AreLinked_example =
    CaseRun-AreLinked
      (next start (
        created 60 "case-1" "link-1" "link-2" "default" "Encoded PowerShell" "high" (some "alert-1")
          none none none opened opened_once))
      tt
