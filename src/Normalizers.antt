-- ===== src/Normalizers.antt =====
-- Events and alerts of other sensors (core/normalizers.py), and what pydantic makes of their fields:
-- a text, none for a missing one, and an error for any other value.
use shigure_edr.Base.{
  ℕ, String, Option, none, some, List, [], ◌∷◌, ◌==◌, if◌then◌else◌, leb, or_default, map, contains,
}
use shigure_edr.Base.{Result, ok, err, value_error, type_error, ◌>>=◌}
use shigure_edr.Base.Dict
use shigure_edr.Base.Dict.{Dict}
use shigure_edr.Json.{Json, null, str, obj, end, truthy, entries}
use shigure_edr.Text.{lower, replace_by, is_number, number}
use shigure_edr.Events.{
  Time, NormalizedEvent, Alert, EventType, process_start, network_connection, file_event,
  registry_event, dns_query, generic,
}
use shigure_edr.Rules.{each_of}

-- What the normalizers take from Python: `str` of values that are no text, and `fromisoformat`.
pub record Reader : Type 0 where
  pub print : Json → String
  pub read_time : String → Option Time

abbrev value_at : String → Dict Json → Json
value_at k d = or_default (Dict.get k d) null

-- `d.get(k) or d.get(l) or ...`
abbrev pub first_of : List String → Dict Json → Json
first_of [] d = null
first_of (k ∷ []) d = value_at k d
first_of (k ∷ l ∷ ks) d =
    let rest = first_of (l ∷ ks) d in if truthy (value_at k d) then value_at k d else rest

abbrev pub text_field : Json → Result (Option String)
text_field null = ok none
text_field (str s) = ok (some s)
text_field _ = err (value_error "validation_error")

-- `raw.get(key) or {}`, on which `get` is called.
abbrev mapping_or_empty : Json → Result (Dict Json)
mapping_or_empty (obj d) = ok (entries d)
mapping_or_empty v = if truthy v then err type_error else ok []

abbrev mapping : Json → Result (Dict Json)
mapping (obj d) = ok (entries d)
mapping _ = err type_error

-- The severity of a numeric level.
unfoldable pub level_severity : ℕ → String
level_severity level =
    if leb 14 level
    then "critical"
    else if leb 10 level
    then "high"
    else if leb 7 level
    then "medium"
    else if leb 3 level
    then "low"
    else "info"

abbrev named_severity : String → String
named_severity text =
    if contains ("critical" ∷ "crit" ∷ "fatal" ∷ []) text
    then "critical"
    else if contains ("high" ∷ "error" ∷ []) text
    then "high"
    else if contains ("medium" ∷ "med" ∷ "warning" ∷ []) text
    then "medium"
    else if contains ("low" ∷ []) text
    then "low"
    else "info"

-- An event in which every field has its default.
unfoldable pub bare_event :
    String → String → String → EventType → Time → Dict Json → NormalizedEvent
bare_event id source tenant_id event_type timestamp raw = record {
  id = id;
  source = source;
  event_type = event_type;
  timestamp = timestamp;
  ingested_at = none;
  tenant_id = tenant_id;
  source_event_id = none;
  host = none;
  ip_address = none;
  user = none;
  process_name = none;
  process_id = none;
  process_entity_id = none;
  parent_process_name = none;
  parent_process_id = none;
  parent_process_entity_id = none;
  boot_id = none;
  process_create_time = none;
  process_exit_time = none;
  image_path = none;
  image_hash = none;
  process_identity_confidence = none;
  missing_parent_reason = none;
  command_line = none;
  file_path = none;
  hash_sha256 = none;
  hash_md5 = none;
  remote_ip = none;
  remote_port = none;
  domain = none;
  registry_key = none;
  alert_title = none;
  severity = "info";
  mitre = [];
  raw_ref = none;
  raw_hash = none;
  raw = raw;
}

abbrev sysmon_type : String → EventType
sysmon_type event_id =
    if event_id == "1"
    then process_start
    else if event_id == "3"
    then network_connection
    else if event_id == "11"
    then file_event
    else if event_id == "12"
    then registry_event
    else if event_id == "13"
    then registry_event
    else if event_id == "22"
    then dns_query
    else generic

module _ (reader : Reader) where
  -- `str(value)`
  abbrev text : Json → String
  text (str s) = s
  text v = reader.print v

  -- `str(value or "")`
  abbrev text_or_empty : Json → String
  text_or_empty v = if truthy v then text v else ""

  -- `str(value or "") or None`
  abbrev text_or_none : Json → Option String
  text_or_none v = if text_or_empty v == "" then none else some (text_or_empty v)

  -- A value that is no text, or a text that is no instant, gives the time of the call.
  unfoldable pub parse_ts : Time → Json → Time
  unfolding replace_by
  parse_ts now (str s) =
      if s == "" then now else or_default (reader.read_time (replace_by "Z" "+00:00" s)) now
  parse_ts now _ = now

  unfoldable pub severity : Json → String
  unfolding lower is_number number level_severity
  severity v =
      let text = lower (if truthy v then text v else "info") in
      if is_number text then level_severity (number text) else named_severity text

  abbrev port_of : Option Json → Option ℕ
  port_of none = none
  port_of (some v) = if is_number (text v) then some (number (text v)) else none

  -- `id` is the identifier that the event draws.
  unfoldable pub sysmon_to_event : Time → String → Dict Json → String → Result NormalizedEvent
  unfolding parse_ts bare_event is_number number Dict.get
  sysmon_to_event now id raw tenant_id = do
    host ← text_field (first_of ("Computer" ∷ "host" ∷ "host.name" ∷ []) raw)
    user ← text_field (first_of ("User" ∷ "user.name" ∷ []) raw)
    process_name ← text_field (first_of ("Image" ∷ "process.name" ∷ []) raw)
    parent_process_name ← text_field (first_of ("ParentImage" ∷ "process.parent.name" ∷ []) raw)
    command_line ← text_field (first_of ("CommandLine" ∷ "process.command_line" ∷ []) raw)
    file_path ← text_field (first_of ("TargetFilename" ∷ "file.path" ∷ []) raw)
    hash_sha256 ← text_field (first_of ("SHA256" ∷ "hash.sha256" ∷ []) raw)
    remote_ip ← text_field (first_of ("DestinationIp" ∷ "destination.ip" ∷ []) raw)
    domain ← text_field (first_of ("QueryName" ∷ "dns.question.name" ∷ []) raw)
    registry_key ← text_field (first_of ("TargetObject" ∷ "registry.path" ∷ []) raw)
    let event_id = text_or_empty (first_of ("EventID" ∷ "event_id" ∷ "event.code" ∷ []) raw)
    let timestamp = parse_ts now (first_of ("UtcTime" ∷ "@timestamp" ∷ "timestamp" ∷ []) raw)
    ok (record (bare_event id "sysmon" tenant_id (sysmon_type event_id) timestamp raw) {
      host = host;
      user = user;
      process_name = process_name;
      process_id = text_or_none (first_of ("ProcessId" ∷ "process.pid" ∷ []) raw);
      parent_process_name = parent_process_name;
      parent_process_id =
          text_or_none (first_of ("ParentProcessId" ∷ "process.parent.pid" ∷ []) raw);
      command_line = command_line;
      file_path = file_path;
      hash_sha256 = hash_sha256;
      remote_ip = remote_ip;
      remote_port = port_of (Dict.get "DestinationPort" raw);
      domain = domain;
      registry_key = registry_key;
    })

  abbrev title_field : Json → Result String
  title_field (str s) = ok (if s == "" then "Wazuh alert" else s)
  title_field v = if truthy v then err (value_error "validation_error") else ok "Wazuh alert"

  -- `a or b` of two values.
  abbrev either : Json → Json → Json
  either a b = if truthy a then a else b

  unfoldable pub wazuh_to_alert : Time → Dict Json → String → Result Alert
  unfolding parse_ts severity Dict.get Dict.put
  wazuh_to_alert now raw tenant_id = do
    rule ← mapping_or_empty (value_at "rule" raw)
    agent ← mapping_or_empty (value_at "agent" raw)
    title ← title_field (either (value_at "description" rule) (value_at "title" raw))
    host ← text_field (either (value_at "name" agent) (value_at "host" raw))
    description ← text_field (either (value_at "full_log" raw) (value_at "description" raw))
    mitre ← mapping (or_default (Dict.get "mitre" rule) (obj end))
    techniques ← each_of (value_at "id" mitre)
    ok (record {
      alert_id =
          text
            (either (either (value_at "id" raw) (value_at "timestamp" raw)) (value_at "id" rule));
      title = title;
      severity = severity (value_at "level" rule);
      timestamp = parse_ts now (first_of ("timestamp" ∷ "@timestamp" ∷ []) raw);
      created_at = none;
      host = host;
      user = none;
      process_name = none;
      description = description;
      mitre = map text techniques;
      source = "wazuh";
      raw_ref = none;
      raw_hash = none;
      raw = Dict.put "tenant_id" (str tenant_id) raw;
    })

  unfoldable pub falco_to_event : Time → String → Dict Json → String → Result NormalizedEvent
  unfolding parse_ts severity bare_event Dict.get
  falco_to_event now id raw tenant_id = do
    output ← mapping_or_empty (value_at "output_fields" raw)
    host ← text_field (either (value_at "host.hostname" output) (value_at "hostname" raw))
    user ← text_field (value_at "user.name" output)
    process_name ← text_field (value_at "proc.name" output)
    command_line ← text_field (value_at "proc.cmdline" output)
    alert_title ← text_field (value_at "rule" raw)
    let event_type = if truthy (value_at "proc.name" output) then process_start else generic
    let timestamp = parse_ts now (first_of ("time" ∷ "timestamp" ∷ []) raw)
    ok (record (bare_event id "falco" tenant_id event_type timestamp raw) {
      host = host;
      user = user;
      process_name = process_name;
      process_id = text_or_none (value_at "proc.pid" output);
      command_line = command_line;
      alert_title = alert_title;
      severity = severity (value_at "priority" raw);
    })
