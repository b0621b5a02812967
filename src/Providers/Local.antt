-- ===== src/Providers/Local.antt =====
-- The provider over JSONL files (adapters/local_json.py). The lines come as the values that `json`
-- reads; a value of the wrong kind is an exception.
use mathlib.Core.Option
use mathlib.Core.List.{reverse}
use shigure_edr.Base.{
  ℕ, suc, ◌+◌, String, Bool, false, not, ◌&&◌, ◌||◌, Option, none, some, List, [], ◌∷◌, ◌++◌, ◌==◌,
  if◌then◌else◌, leb, is_text, or_default, is_some, contains, length,
}
use shigure_edr.Base.{Result, ok, err, value_error, ◌>>=◌, type_error}
use shigure_edr.Base.Int.{ℤ, pos}
use shigure_edr.Base.Table.{select, fetchone}
use shigure_edr.Base.Sort.{sort_by}
use shigure_edr.Base.Dict
use shigure_edr.Base.Dict.{Dict}
use shigure_edr.Json.{Json, null, str, arr, nil, obj, fields, bool}
use shigure_edr.Text.{lower, has_text}
use shigure_edr.Events.{
  Time, NormalizedEvent, Alert, EventType, endpoint_state, script_result, event_type_value,
}
use shigure_edr.Normalizers.{
  Reader, sysmon_to_event, falco_to_event, wazuh_to_alert, bare_event, text_field,
}
use shigure_edr.Rules.{each}
use shigure_edr.Investigation.Chain.{index_by, pid_of, follow}
use shigure_edr.Investigation.Contexts.{drop_last}
use shigure_edr.Providers.{
  newest, event_time, alert_time, Script, ScriptResult, EventQuery, EndpointContext,
}

-- The rows of the files of one directory; a file that is not there has none.
pub record Files : Type 0 where
  pub sysmon : List (Dict Json)
  pub falco : List (Dict Json)
  pub osquery : List (Dict Json)
  pub velociraptor : List (Dict Json)
  pub wazuh_alerts : List (Dict Json)
  pub endpoints : List (Dict Json)

-- The values of a call for each row, or its first exception; the call is given the place of the row.
unfoldable pub each_row {ℓ} :
    {A : Type ℓ} → (ℕ → Dict Json → Result A) → ℕ → List (Dict Json) → Result (List A)
each_row f place [] = ok []
each_row f place (row ∷ rows) = do
  a ← f place row
  rest ← each_row f (suc place) rows
  ok (a ∷ rest)

abbrev value_at : String → Dict Json → Json
value_at k d = or_default (Dict.get k d) null

-- An event of a sensor that has a host only.
abbrev state_event :
    String → EventType → Time → String → String → Dict Json → Result NormalizedEvent
state_event source event_type now id tenant_id row = do
  host ← text_field (value_at "host" row)
  ok (record (bare_event id source tenant_id event_type now row) { host = host })

-- `if wanted and row.get(...) != wanted: continue`
abbrev is_same : Option String → Json → Bool
is_same wanted (str s) = not (is_text wanted) || s == or_default wanted ""
is_same wanted _ = not (is_text wanted)

abbrev flag : Json → Result (Option Bool)
flag null = ok none
flag (bool b) = ok (some b)
flag _ = err (value_error "validation_error")

abbrev known_sources : List String
known_sources =
    "sysmon" ∷ "wazuh" ∷ "osquery" ∷ "velociraptor" ∷ "falco" ∷ "tetragon" ∷ "windows_etw"
    ∷ "windows_event_log" ∷ "internal" ∷ []

-- The members of `sources` that are names of sources; a list or an object is not hashed.
abbrev add_source : String → List String → List String
add_source s rest = if contains known_sources s then s ∷ rest else rest

unfoldable pub sources_in : List Json → Result (List String)
sources_in [] = ok []
sources_in (str s ∷ vs) = do rest ← sources_in vs; ok (add_source s rest)
sources_in (arr _ ∷ vs) = err type_error
sources_in (obj _ ∷ vs) = err type_error
sources_in (v ∷ vs) = sources_in vs

-- `row.get("host") or hostname or "unknown"`
abbrev host_or : Option String → Option String → String
host_or host hostname =
    if is_text host
    then or_default host ""
    else if is_text hostname
    then or_default hostname ""
    else "unknown"

-- The rows that the two conditions leave; a condition compares with the value of the row.
abbrev is_match : Option String → Option String → Dict Json → Bool
is_match hostname ip_address row =
    is_same hostname (value_at "host" row) && is_same ip_address (value_at "ip_address" row)

unfoldable pub endpoint_of : Option String → Dict Json → Result EndpointContext
unfolding Dict.get sources_in
endpoint_of hostname row = do
  host ← text_field (value_at "host" row)
  ip_address ← text_field (value_at "ip_address" row)
  os ← text_field (value_at "os" row)
  agent_connected ← flag (value_at "agent_connected" row)
  agent_version ← text_field (value_at "agent_version" row)
  isolated ← flag (value_at "isolated" row)
  listed ← each (or_default (Dict.get "sources" row) (arr nil))
  sources ← sources_in listed
  ok (record {
    host = host_or host hostname;
    ip_address = ip_address;
    os = os;
    agent_connected = agent_connected;
    agent_version = agent_version;
    last_seen = none;
    isolated = isolated;
    sources = sources;
    raw = row;
  })

unfoldable pub get_endpoint_context :
    Option String → Option String → Files → Result (List EndpointContext)
unfolding endpoint_of each_row select Dict.get
get_endpoint_context hostname ip_address files =
    each_row (λ place row. endpoint_of hostname row) 0
      (select (is_match hostname ip_address) files.endpoints)

-- `if value: events = [e for e in events if ...]`
abbrev kept :
    Option String → (String → NormalizedEvent → Bool) → List NormalizedEvent → List NormalizedEvent
kept value test events =
    if is_text value then select (test (or_default value "")) events else events

abbrev kept_from :
    {A : Type 0}
    → Option A
    → (A → NormalizedEvent → Bool)
    → List NormalizedEvent
    → List NormalizedEvent
kept_from none test events = events
kept_from (some a) test events = select (test a) events

abbrev is_column : Option String → String → Bool
is_column none value = false
is_column (some text) value = text == value

abbrev starts_on : String → NormalizedEvent → Bool
starts_on host e = is_column e.host host && event_type_value e.event_type == "process_start"

-- The process that the trace starts at.
abbrev start_of : Option String → Option String → List NormalizedEvent → Option NormalizedEvent
start_of process_id event_id found =
    let by_pid = index_by pid_of [] found in
    let named = if is_text process_id then Dict.get (or_default process_id "") by_pid else none in
    if is_some named
    then named
    else if is_text event_id
    then fetchone (λ (e : NormalizedEvent). e.id == or_default event_id "") found
    else none

-- `none` is a loop that is cut off; its fuel is more than there are events.
abbrev pub traced : List NormalizedEvent → Option NormalizedEvent → Option (List NormalizedEvent)
traced found none = some []
traced found (some e) =
    Option.map (λ ancestors. reverse (e ∷ ancestors))
      (follow (λ x. x.parent_process_id) (index_by pid_of [] found) (suc (length found))
        (or_default e.process_id "" ∷ []) e.parent_process_id)

-- `fresh` draws the identifiers of the events, in their order; `dump` is `model_dump_json`.
module _ (reader : Reader) (dump : NormalizedEvent → String) (now : Time) (fresh : ℕ → String)
    (tenant_id : String) (files : Files) where
  unfoldable pub events : Result (List NormalizedEvent)
  unfolding each_row sysmon_to_event falco_to_event bare_event Dict.get
  events = do
    let n1 = length files.sysmon
    let n2 = n1 + length files.falco
    let n3 = n2 + length files.osquery
    sysmon ← each_row (λ n row. sysmon_to_event reader now (fresh n) row tenant_id) 0 files.sysmon
    falco ← each_row (λ n row. falco_to_event reader now (fresh n) row tenant_id) n1 files.falco
    osquery ←
        each_row (λ n row. state_event "osquery" endpoint_state now (fresh n) tenant_id row) n2
          files.osquery
    velociraptor ←
        each_row (λ n row. state_event "velociraptor" script_result now (fresh n) tenant_id row) n3
          files.velociraptor
    ok (sysmon ++ (falco ++ (osquery ++ velociraptor)))

  unfoldable pub list_alerts : ℤ → Result (List Alert)
  unfolding each_row wazuh_to_alert sort_by drop_last
  list_alerts n = do
    alerts ← each_row (λ place row. wazuh_to_alert reader now row tenant_id) 0 files.wazuh_alerts
    ok (newest alert_time n alerts)

  unfoldable pub get_alert_by_id : String → Result (Option Alert)
  unfolding list_alerts fetchone
  get_alert_by_id alert_id = do
    alerts ← list_alerts (pos 10000)
    ok (fetchone (λ (a : Alert). a.alert_id == alert_id) alerts)

  unfoldable pub query_events : EventQuery → Result (List NormalizedEvent)
  unfolding events select sort_by drop_last has_text lower
  query_events q = do
    found ← events
    let on_host = kept q.host (λ host e. is_column e.host host) found
    let of_type = kept q.event_type (λ t e. event_type_value e.event_type == t) on_host
    let naming = kept q.indicator (λ i e. has_text (lower i) (lower (dump e))) of_type
    let later = kept_from q.start_time (λ t e. leb t e.timestamp) naming
    ok (newest event_time q.at_most (kept_from q.end_time (λ t e. leb e.timestamp t) later))

  unfoldable pub hunt_indicator : String → ℤ → Result (List NormalizedEvent)
  unfolding query_events
  hunt_indicator indicator n = query_events (record {
    host = none;
    event_type = none;
    indicator = some indicator;
    start_time = none;
    end_time = none;
    at_most = n;
  })

  unfoldable pub trace_process_chain :
      String → Option String → Option String → Result (Option (List NormalizedEvent))
  unfolding events select index_by follow fetchone Dict.get
  trace_process_chain host process_id event_id = do
    found ← events
    let starts = select (starts_on host) found
    ok (traced starts (start_of process_id event_id starts))

abbrev list_readonly_scripts : List Script
list_readonly_scripts =
    record { name = "process_list"; source = "osquery"; description = "List running processes." }
    ∷ record {
      name = "autoruns";
      source = "osquery/velociraptor";
      description = "List persistence/autorun locations.";
    }
    ∷ record { name = "dns_cache"; source = "velociraptor"; description = "Collect DNS cache." }
    ∷ record { name = "file_hash"; source = "velociraptor"; description = "Hash a file path." }
    ∷ []

-- `job_id` is the identifier that the result draws.
unfoldable pub run_readonly_script : String → String → String → Dict Json → ScriptResult
run_readonly_script job_id helper_name host kwargs = record {
  job_id = job_id;
  source = "internal";
  helper_name = helper_name;
  host = host;
  status = "simulated";
  result =
      ("kwargs", obj (fields kwargs))
      ∷ ("note", str "LocalJsonProvider is a development stub.")
      ∷ [];
}
