-- ===== src/Detection.antt =====
-- The built-in detections (core/detection.py): the rules and their patterns. Alerts has what an event
-- raises.
pub mod Alerts
use shigure_edr.Base.{
  ℕ, String, ◌<>◌, Bool, ◌&&◌, ◌||◌, Option, none, some, List, [], ◌∷◌, ◌++◌, ◌==◌, if◌then◌else◌,
  is_text, or_default, contains,
}
use shigure_edr.Base.{Result, ok, ◌>>=◌}
use shigure_edr.Base.Dict
use shigure_edr.Json.{Json, str, truthy}
use shigure_edr.Text.{lower, last_part, clip}
use shigure_edr.Regex.{Matcher, lit, one_of, boundary, spaces, search, then_}
use shigure_edr.Events.{NormalizedEvent, Alert, event_type_value}
use shigure_edr.Rules.{Python, text, GenericRule}
use shigure_edr.Rules.Matching.{detect_with_rules}

pub record DetectionRule : Type 0 where
  pub rule_id : String
  pub title : String
  pub severity : String
  pub mitre : List String

abbrev pub powershell_encoded : DetectionRule
powershell_encoded = record {
  rule_id = "builtin.windows.powershell.encoded_command";
  title = "Suspicious encoded PowerShell command";
  severity = "high";
  mitre = "T1059.001" ∷ [];
}

abbrev pub script_network : DetectionRule
script_network = record {
  rule_id = "builtin.windows.script_interpreter_network";
  title = "Script interpreter network connection";
  severity = "medium";
  mitre = "T1059" ∷ "T1105" ∷ [];
}

abbrev pub suspicious_service_task : DetectionRule
suspicious_service_task = record {
  rule_id = "builtin.windows.persistence.service_or_task_change";
  title = "Suspicious service or scheduled task change";
  severity = "medium";
  mitre = "T1053" ∷ "T1543" ∷ [];
}

abbrev pub powershell_scriptblock : DetectionRule
powershell_scriptblock = record {
  rule_id = "builtin.windows.powershell.scriptblock_suspicious";
  title = "Suspicious PowerShell script block";
  severity = "high";
  mitre = "T1059.001" ∷ [];
}

abbrev pub windows_service_installed : DetectionRule
windows_service_installed = record {
  rule_id = "builtin.windows.service.installed";
  title = "Windows service installed";
  severity = "medium";
  mitre = "T1543.003" ∷ [];
}

abbrev pub windows_scheduled_task_change : DetectionRule
windows_scheduled_task_change = record {
  rule_id = "builtin.windows.scheduled_task.changed";
  title = "Windows scheduled task changed";
  severity = "medium";
  mitre = "T1053.005" ∷ [];
}

abbrev pub ioc_match : DetectionRule
ioc_match = record {
  rule_id = "builtin.ioc.match";
  title = "Known bad indicator match";
  severity = "high";
  mitre = "T1204" ∷ [];
}

abbrev pub script_names : List String
script_names =
    "powershell.exe" ∷ "pwsh.exe" ∷ "cmd.exe" ∷ "wscript.exe" ∷ "cscript.exe" ∷ "mshta.exe"
    ∷ "rundll32.exe" ∷ "regsvr32.exe" ∷ []

-- (-|/)(enc|encodedcommand|e)\b
abbrev pub encoded_re : Matcher
encoded_re =
    then_ (one_of (lit "-" ∷ lit "/" ∷ []))
      (then_ (one_of (lit "enc" ∷ lit "encodedcommand" ∷ lit "e" ∷ [])) boundary)

-- \b(schtasks|new-scheduledtask|create-service|new-service|sc\.exe\s+create)\b
abbrev pub service_task_re : Matcher
service_task_re = then_ boundary (
    then_
      (one_of (
        lit "schtasks"
        ∷ lit "new-scheduledtask"
        ∷ lit "create-service"
        ∷ lit "new-service"
        ∷ then_ (lit "sc.exe") (then_ spaces (lit "create"))
        ∷ []))
      boundary)

abbrev pub ps_scriptblock_re : Matcher
ps_scriptblock_re = then_ boundary (
    then_
      (one_of (
        lit "frombase64string"
        ∷ lit "downloadstring"
        ∷ lit "downloadfile"
        ∷ lit "invoke-webrequest"
        ∷ then_ (lit "iwr") boundary
        ∷ lit "invoke-expression"
        ∷ then_ (lit "iex") boundary
        ∷ then_ (lit "new-object") (then_ spaces (lit "net.webclient"))
        ∷ lit "add-mppreference"
        ∷ lit "set-mppreference"
        ∷ lit "amsiutils"
        ∷ lit "bypass"
        ∷ []))
      boundary)

abbrev pub builtin_bad_ips : List String
builtin_bad_ips = "203.0.113.10" ∷ []

abbrev pub builtin_bad_domains : List String
builtin_bad_domains = "malicious.example" ∷ []

abbrev pub builtin_bad_hashes : List String
builtin_bad_hashes = "0000000000000000000000000000000000000000000000000000000000000000" ∷ []
