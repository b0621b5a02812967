-- ===== src/Rules/Matching.antt =====
-- Which events meet a rule (core/rules.py, detect_with_rules and _match).
use mathlib.Core.Option
use shigure_edr.Base.{
  String, ◌<>◌, Bool, true, false, not, ◌&&◌, Option, none, some, List, [], ◌∷◌, ◌==◌,
  if◌then◌else◌,
}
use shigure_edr.Base.{Result, ok, err, value_error, ◌>>=◌}
use shigure_edr.Json.{Json, str, truthy}
use shigure_edr.Text.{lower, upper, has_text}
use shigure_edr.Events.{NormalizedEvent, Alert, event_type_value}
use shigure_edr.Rules.{Python, RuleCondition, GenericRule, text}

module _ (py : Python) where
  -- `str(getattr(event, name, None))` of a field of the event; other names are taken as absent. The
  -- text of a member of an enumeration is the name of the member.
  abbrev member : String → String → Option String
  member kind value = some (kind <> ("." <> upper value))

  unfoldable pub attribute_text : String → NormalizedEvent → Option String
  unfolding upper
  attribute_text name e =
      if name == "id"
      then some e.id
      else if name == "source"
      then member "Source" e.source
      else if name == "event_type"
      then member "EventType" (event_type_value e.event_type)
      else if name == "timestamp"
      then some (py.print_time e.timestamp)
      else if name == "ingested_at"
      then Option.map py.print_time e.ingested_at
      else if name == "tenant_id"
      then some e.tenant_id
      else if name == "source_event_id"
      then e.source_event_id
      else if name == "host"
      then e.host
      else if name == "ip_address"
      then e.ip_address
      else if name == "user"
      then e.user
      else if name == "process_name"
      then e.process_name
      else if name == "process_id"
      then e.process_id
      else if name == "process_entity_id"
      then e.process_entity_id
      else if name == "parent_process_name"
      then e.parent_process_name
      else if name == "parent_process_id"
      then e.parent_process_id
      else if name == "parent_process_entity_id"
      then e.parent_process_entity_id
      else if name == "boot_id"
      then e.boot_id
      else if name == "process_create_time"
      then e.process_create_time
      else if name == "process_exit_time"
      then e.process_exit_time
      else if name == "image_path"
      then e.image_path
      else if name == "image_hash"
      then e.image_hash
      else if name == "process_identity_confidence"
      then e.process_identity_confidence
      else if name == "missing_parent_reason"
      then e.missing_parent_reason
      else if name == "command_line"
      then e.command_line
      else if name == "file_path"
      then e.file_path
      else if name == "hash_sha256"
      then e.hash_sha256
      else if name == "hash_md5"
      then e.hash_md5
      else if name == "remote_ip"
      then e.remote_ip
      else if name == "remote_port"
      then Option.map py.print_number e.remote_port
      else if name == "domain"
      then e.domain
      else if name == "registry_key"
      then e.registry_key
      else if name == "alert_title"
      then e.alert_title
      else if name == "severity"
      then member "Severity" e.severity
      else if name == "mitre"
      then some (py.print_texts e.mitre)
      else if name == "raw_ref"
      then e.raw_ref
      else if name == "raw_hash"
      then e.raw_hash
      else if name == "raw"
      then some (py.print_dict e.raw)
      else none

  abbrev compared : String → String → String → String → Result Bool
  compared op given actual expected =
      if op == "equals"
      then ok (actual == expected)
      else if op == "iequals"
      then ok (lower actual == lower expected)
      else if op == "contains"
      then ok (has_text expected actual)
      else if op == "icontains"
      then ok (has_text (lower expected) (lower actual))
      else if op == "regex"
      then ok (py.regex_search expected actual)
      else err (value_error ("unsupported rule condition op: " <> given))

  -- `exists` comes first, and an absent value meets no other operation, known or not.
  abbrev matched : String → RuleCondition → Option String → Result Bool
  matched op c none = ok false
  matched op c (some actual) =
      if op == "exists" then ok (not (actual == "")) else compared op c.op actual (text py c.value)

  unfoldable pub match : NormalizedEvent → RuleCondition → Result Bool
  unfolding attribute_text lower has_text
  match e c = matched (lower c.op) c (attribute_text c.attribute e)

  -- `all(_match(event, cond) for cond in conditions)`
  unfoldable pub match_all : NormalizedEvent → List RuleCondition → Result Bool
  unfolding match
  match_all e [] = ok true
  match_all e (c ∷ cs) = match e c >>= λ met. elim met [ true ↦ match_all e cs | false ↦ ok false ]

  unfoldable pub rule_alert : NormalizedEvent → GenericRule → Alert
  rule_alert e rule = record {
    alert_id = rule.rule_id <> (":" <> e.id);
    title = rule.title;
    severity = rule.severity;
    timestamp = e.timestamp;
    created_at = none;
    host = e.host;
    user = e.user;
    process_name = e.process_name;
    description = some (
        if rule.description == ""
        then "Rule " <> (rule.rule_id <> (" matched event " <> e.id))
        else rule.description);
    mitre = rule.mitre;
    source = "internal";
    raw_ref = none;
    raw_hash = none;
    raw =
        ("rule_id", str rule.rule_id)
        ∷ ("event_id", str e.id)
        ∷ ("tenant_id", str e.tenant_id)
        ∷ [];
  }

  abbrev is_value : String → Json → Bool
  is_value value (str s) = s == value
  is_value value _ = false

  -- `rule.event_type and event.event_type.value != rule.event_type`
  abbrev pub is_passed_over : NormalizedEvent → GenericRule → Bool
  is_passed_over e rule =
      truthy rule.event_type && not (is_value (event_type_value e.event_type) rule.event_type)

  unfoldable pub rule_met : NormalizedEvent → GenericRule → Result Bool
  unfolding match_all
  rule_met e rule = if is_passed_over e rule then ok false else match_all e rule.conditions

  unfoldable pub detect_with_rules : NormalizedEvent → List GenericRule → Result (List Alert)
  unfolding rule_met rule_alert
  detect_with_rules e [] = ok []
  detect_with_rules e (rule ∷ rules) = do
    met ← rule_met e rule
    rest ← detect_with_rules e rules
    ok (if met then rule_alert e rule ∷ rest else rest)
