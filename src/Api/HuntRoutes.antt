-- ===== src/Api/HuntRoutes.antt =====
-- The routes of saved hunts (api/app.py, update_saved_hunt to list_saved_hunt_runs); the caller has
-- passed `admin_auth`.
use shigure_edr.Base.{
  String, Option, none, some, List, [], ◌∷◌, if◌then◌else◌, is_text, is_some, or_default, map,
  length,
}
use shigure_edr.Base.{Result, ok, http_exception, ◌>>=◌, ◌>>◌, guard}
use shigure_edr.Base.Int.{ℤ, pos}
use shigure_edr.Base.Dict
use shigure_edr.Base.Dict.{Dict}
use shigure_edr.Json.{Json, null, int, str, arr, obj, fields, items, strings, truthy}
use shigure_edr.Events.{Time, NormalizedEvent, Alert}
use shigure_edr.Control.Schema.{Hunt, HuntRun, Store}
use shigure_edr.Control.Events.{EventFilter}
use shigure_edr.Control.Hunts.{
  HuntUpdateRequest, get_hunt, update_hunt, record_hunt_run, list_hunt_runs,
}
use shigure_edr.Investigation.{Telemetry, Dumps, HuntSummary, hunt_summary}
use shigure_edr.Investigation.Contexts.{mentioning, clipped, hosts_of}
use shigure_edr.Api.AgentRoutes.{http_error}
use shigure_edr.Api.CaseRoutes.{or_404}

-- How values are written: `str` of what is no text, `isoformat`, and pydantic's `model_dump`.
pub record Writer : Type 0 where
  pub print : Json → String
  pub print_time : Time → String
  pub event_json : NormalizedEvent → Json
  pub alert_json : Alert → Json

unfoldable pub update_saved_hunt :
    Time → String → String → HuntUpdateRequest → Store → Result (Hunt × Store)
unfolding update_hunt
update_saved_hunt now tenant_id hunt_id req s = do
  (changed, s') ← http_error 400 (update_hunt now tenant_id hunt_id req s)
  hunt ← or_404 "hunt_not_found" changed
  ok (hunt, s')

module _ (w : Writer) where
  -- A condition of a saved query as it is bound to a column; lists and objects are not bound by
  -- sqlite3, and are outside.
  abbrev bound : Option Json → Option String
  bound none = none
  bound (some null) = none
  bound (some (str s)) = some s
  bound (some v) = if truthy v then some (w.print v) else none

  -- `hunt.indicator or query.get("indicator")`
  abbrev indicator_of : Hunt → Option String
  indicator_of hunt =
      if is_text hunt.indicator then hunt.indicator else bound (Dict.get "indicator" hunt.query)

  abbrev condition_of : Hunt → EventFilter
  condition_of hunt = record {
    host = bound (Dict.get "host" hunt.query);
    event_type = bound (Dict.get "event_type" hunt.query);
    process_name = bound (Dict.get "process_name" hunt.query);
    user = bound (Dict.get "user" hunt.query);
    hash_sha256 = bound (Dict.get "hash_sha256" hunt.query);
    process_entity_id = none;
    remote_ip = bound (Dict.get "remote_ip" hunt.query);
    domain = bound (Dict.get "domain" hunt.query);
    indicator = indicator_of hunt;
  }

  abbrev text_json : Option String → Json
  text_json none = null
  text_json (some s) = str s

  abbrev time_json : Option Time → Json
  time_json none = null
  time_json (some t) = str (w.print_time t)

  abbrev summary_json : HuntSummary → Json
  summary_json summary = obj (
      fields (
        ("indicators", arr (strings summary.indicators))
        ∷ ("impacted_endpoints", arr (strings summary.impacted_endpoints))
        ∷ ("impacted_users", arr (strings summary.impacted_users))
        ∷ ("first_seen", time_json summary.first_seen)
        ∷ ("last_seen", time_json summary.last_seen)
        ∷ ("event_count", int (pos summary.event_count))
        ∷ ("related_alert_count", int (pos summary.related_alert_count))
        ∷ []))

  abbrev listed_indicator : Option String → List String
  listed_indicator indicator = if is_text indicator then or_default indicator "" ∷ [] else []

  unfoldable pub run_result : Hunt → ℤ → List NormalizedEvent → List Alert → Dict Json
  unfolding hunt_summary
  run_result hunt n events alerts =
      ("hunt_id", str hunt.hunt_id)
      ∷ ("name", str hunt.name)
      ∷ ("indicator", text_json (indicator_of hunt))
      ∷ ("query", obj (fields hunt.query))
      ∷ ("hosts", arr (strings (hosts_of events alerts)))
      ∷ ("event_count", int (pos (length events)))
      ∷ ("alert_count", int (pos (length alerts)))
      ∷ (
        "summary",
        summary_json
            (hunt_summary (listed_indicator (indicator_of hunt)) events (clipped n alerts)),
      )
      ∷ ("events", arr (items (map w.event_json (clipped n events))))
      ∷ ("alerts", arr (items (map w.alert_json (clipped n alerts))))
      ∷ []

  unfoldable pub run_saved_hunt :
      Dumps
      → (Store → Telemetry)
      → Time
      → String
      → String
      → String
      → ℤ
      → Store
      → Result (HuntRun × Store)
  unfolding get_hunt run_result record_hunt_run Dict.get
  run_saved_hunt dumps telemetry now run_id tenant_id hunt_id n s = do
    hunt ← or_404 "hunt_not_found" (get_hunt tenant_id hunt_id s)
    guard hunt.enabled (http_exception 400 "hunt_disabled")
    let events = (telemetry s).search tenant_id (condition_of hunt) n
    let indicator = indicator_of hunt
    let alerts =
        if is_text indicator
        then mentioning dumps (telemetry s) tenant_id (or_default indicator "") n s
        else []
    record_hunt_run now run_id tenant_id hunt_id "succeeded" (run_result hunt n events alerts) s

unfoldable pub list_saved_hunt_runs : String → String → ℤ → Store → Result (List HuntRun)
unfolding get_hunt list_hunt_runs
list_saved_hunt_runs tenant_id hunt_id n s = do
  guard (is_some (get_hunt tenant_id hunt_id s)) (http_exception 404 "hunt_not_found")
  ok (list_hunt_runs tenant_id (some hunt_id) n s)
