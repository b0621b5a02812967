-- ===== src/Detection/Alerts.antt =====
-- The alerts that an event raises (core/detection.py, detect_event to _alert_from_event).
use shigure_edr.Base.{
  ℕ, String, ◌<>◌, Bool, ◌&&◌, ◌||◌, Option, none, some, List, [], ◌∷◌, ◌++◌, ◌==◌, if◌then◌else◌,
  is_text, or_default, contains,
}
use shigure_edr.Base.{Result, ok, ◌>>=◌}
use shigure_edr.Base.Dict
use shigure_edr.Json.{Json, str, truthy}
use shigure_edr.Text.{lower, last_part, clip}
use shigure_edr.Regex.{lit, one_of, boundary, spaces, search}
use shigure_edr.Events.{NormalizedEvent, Alert, event_type_value}
use shigure_edr.Rules.{Python, text, GenericRule}
use shigure_edr.Rules.Matching.{detect_with_rules}
use shigure_edr.Detection.{
  DetectionRule, powershell_encoded, script_network, suspicious_service_task,
  powershell_scriptblock, windows_service_installed, windows_scheduled_task_change, ioc_match,
  script_names, encoded_re, service_task_re, ps_scriptblock_re, builtin_bad_ips,
  builtin_bad_domains, builtin_bad_hashes,
}

abbrev text_value : Option Json → String
text_value none = ""
text_value (some (str s)) = s
text_value (some _) = ""

-- `raw.get("collector") == "windows_event_log" and raw.get("query") == query`
unfoldable pub is_windows_event_log : NormalizedEvent → String → Bool
unfolding Dict.get
is_windows_event_log e query =
    text_value (Dict.get "collector" e.raw) == "windows_event_log"
    && text_value (Dict.get "query" e.raw) == query

-- `_truncate(value)`, 500 being the default of `limit`.
unfoldable pub truncate : String → String
unfolding clip
truncate value = clip 500 value

abbrev is_bad : Option String → List String → Bool
is_bad value bad = is_text value && contains bad (lower (or_default value ""))

unfoldable pub ioc_hit : NormalizedEvent → Bool
unfolding lower
ioc_hit e =
    is_text e.remote_ip && contains builtin_bad_ips (or_default e.remote_ip "")
    || is_bad e.domain builtin_bad_domains
    || is_bad e.hash_sha256 builtin_bad_hashes
    || is_bad e.hash_md5 builtin_bad_hashes

unfoldable pub alert_from_event : NormalizedEvent → DetectionRule → String → Alert
alert_from_event e rule description = record {
  alert_id = rule.rule_id <> (":" <> e.id);
  title = rule.title;
  severity = rule.severity;
  timestamp = e.timestamp;
  created_at = none;
  host = e.host;
  user = e.user;
  process_name = e.process_name;
  description = some description;
  mitre = rule.mitre;
  source = "internal";
  raw_ref = none;
  raw_hash = none;
  raw =
      ("rule_id", str rule.rule_id) ∷ ("event_id", str e.id) ∷ ("tenant_id", str e.tenant_id) ∷ [];
}

abbrev raised : Bool → Alert → List Alert
raised hit a = if hit then a ∷ [] else []

abbrev pub cmd : NormalizedEvent → String
cmd e = or_default e.command_line ""

-- `(event.process_name or "").split("\\")[-1].lower()`
unfoldable pub proc : NormalizedEvent → String
unfolding last_part lower
proc e = lower (last_part "\\" (or_default e.process_name ""))

abbrev is_process_start : NormalizedEvent → Bool
is_process_start e = event_type_value e.event_type == "process_start"

module _ (py : Python) where
  -- `str((event.raw or {}).get("message") or missing)`
  abbrev message_or : String → Option Json → String
  message_or missing none = missing
  message_or missing (some v) = if truthy v then text py v else missing

  abbrev pub message : NormalizedEvent → String → String
  message e missing = message_or missing (Dict.get "message" e.raw)

  -- The text that Python writes for a value that may be missing.
  abbrev shown : Option String → String
  shown value = or_default value "None"

  abbrev port : Option ℕ → String
  port none = "None"
  port (some n) = py.print_number n

  unfoldable pub builtin_alerts : NormalizedEvent → List Alert
  unfolding alert_from_event proc is_windows_event_log truncate ioc_hit search lit one_of boundary
      spaces Dict.get
  builtin_alerts e =
      raised
        (is_process_start e
          && (proc e == "powershell.exe" || proc e == "pwsh.exe")
          && search encoded_re (cmd e))
        (alert_from_event e powershell_encoded (cmd e))
      ++ (raised (is_process_start e && search service_task_re (cmd e))
            (alert_from_event e suspicious_service_task (cmd e))
          ++ (raised
                (event_type_value e.event_type == "network_connection"
                  && contains script_names (proc e))
                (alert_from_event e script_network (
                  shown e.process_name
                  <> (" connected to " <> (shown e.remote_ip <> (":" <> port e.remote_port)))))
              ++ (raised
                    (is_windows_event_log e "powershell_operational"
                      && search ps_scriptblock_re (cmd e <> (" " <> message e "")))
                    (alert_from_event e powershell_scriptblock
                      (truncate (if cmd e == "" then message e "" else cmd e)))
                  ++ (raised (is_windows_event_log e "service_control_manager") (
                        alert_from_event e windows_service_installed
                          (truncate (message e "Windows service install event")))
                      ++ (raised (is_windows_event_log e "task_scheduler") (
                            alert_from_event e windows_scheduled_task_change
                              (truncate (message e "Windows scheduled task event")))
                          ++ raised (ioc_hit e)
                              (alert_from_event e ioc_match ("IOC match in event " <> e.id)))))))

  -- An exception of a custom rule is one of the whole call.
  unfoldable pub detect_event : List GenericRule → NormalizedEvent → Result (List Alert)
  unfolding builtin_alerts detect_with_rules
  detect_event custom_rules e = do
    custom ← detect_with_rules py e custom_rules
    ok (builtin_alerts e ++ custom)

  unfoldable pub detect_many : List GenericRule → List NormalizedEvent → Result (List Alert)
  unfolding detect_event
  detect_many custom_rules [] = ok []
  detect_many custom_rules (e ∷ events) = do
    alerts ← detect_event custom_rules e
    rest ← detect_many custom_rules events
    ok (alerts ++ rest)
