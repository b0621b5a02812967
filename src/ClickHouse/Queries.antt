-- ===== src/ClickHouse/Queries.antt =====
-- The texts of the queries (api/clickhouse_store.py, get_event to list_events and _event_where).
use shigure_edr.Base.{
  String, ◌<>◌, Option, none, some, List, [], ◌∷◌, ◌==◌, if◌then◌else◌, is_text, or_default,
  contains,
}
use shigure_edr.Control.Events.{EventFilter}
use shigure_edr.ClickHouse.Quote.{quote}

-- `f"{field} = {_quote(value)}"` and `f"positionCaseInsensitive({field}, {_quote(value)}) > 0"`
abbrev pub equals : String → String → String
equals field value = field <> (" = " <> quote value)

abbrev pub position : String → String → String
position field value = "positionCaseInsensitive(" <> (field <> (", " <> (quote value <> ") > 0")))

-- The clause of a value that is given, before the others.
abbrev clause : (String → String) → Option String → List String → List String
clause write value rest = if is_text value then write (or_default value "") ∷ rest else rest

unfoldable pub where_clauses : String → EventFilter → List String
unfolding quote
where_clauses tenant_id f =
    equals "tenant_id" tenant_id
    ∷ clause (equals "host") f.host (
        clause (equals "event_type") f.event_type (
          clause (equals "hash_sha256") f.hash_sha256 (
            clause (equals "process_entity_id") f.process_entity_id (
              clause (equals "remote_ip") f.remote_ip (
                clause (equals "domain") f.domain (
                  clause (position "process_name") f.process_name (
                    clause (position "user") f.user
                      (clause (position "event_json") f.indicator []))))))))

-- `separator.join(texts)`
unfoldable pub join : String → List String → String
join separator [] = ""
join separator (s ∷ []) = s
join separator (s ∷ t ∷ texts) = s <> (separator <> join separator (t ∷ texts))

unfoldable pub event_where : String → EventFilter → String
unfolding where_clauses join
event_where tenant_id f = join " AND " (where_clauses tenant_id f)

unfoldable pub get_event_query : String → String → String
unfolding quote
get_event_query tenant_id event_id =
    "SELECT event_json FROM shigure_events WHERE "
    <> (equals "tenant_id" tenant_id <> (" AND " <> (equals "event_id" event_id <> " LIMIT 1")))

unfoldable pub count_events_query : String → EventFilter → String
unfolding event_where
count_events_query tenant_id f =
    "SELECT count() AS count FROM shigure_events WHERE " <> event_where tenant_id f

-- `number` is the decimal text of the limit.
abbrev newest : String → String → String
newest condition number =
    "SELECT event_json FROM shigure_events WHERE "
    <> (condition <> (" ORDER BY event_time DESC LIMIT " <> number))

unfoldable pub list_events_query : String → EventFilter → String → String
unfolding event_where
list_events_query tenant_id f number = newest (event_where tenant_id f) number

unfoldable pub related_predicate : String → String → Option String
unfolding quote
related_predicate entity_type value =
    if entity_type == "file_path"
    then some (position "event_json" value)
    else if contains ("process_name" ∷ "command_line" ∷ "user" ∷ []) entity_type
    then some (position entity_type value)
    else if entity_type == "process_id"
    then some (equals "pid" value)
    else if entity_type == "parent_process_id"
    then some (equals "parent_pid" value)
    else if contains
        ("host" ∷ "process_entity_id" ∷ "parent_process_entity_id" ∷ "hash_sha256" ∷ "remote_ip"
          ∷ "domain" ∷ [])
        entity_type
    then some (equals entity_type value)
    else none

-- No query is made for an entity that `field_map` does not name.
abbrev related_with : String → Option String → String → Option String
related_with tenant_id none number = none
related_with tenant_id (some predicate) number =
    some (newest (equals "tenant_id" tenant_id <> (" AND " <> predicate)) number)

unfoldable pub related_events_query : String → String → String → String → Option String
unfolding related_predicate
related_events_query tenant_id entity_type value number =
    related_with tenant_id (related_predicate entity_type value) number
