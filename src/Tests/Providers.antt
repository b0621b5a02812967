-- ===== src/Tests/Providers.antt =====
-- Two providers behind one.
use shigure_edr.Base.{ℕ, ◌≡◌, none, some, List, [], ◌∷◌}
use shigure_edr.Base.Int.{pos}
use shigure_edr.Events.{NormalizedEvent}
use shigure_edr.Providers.{EventQuery, EndpointProvider}
use shigure_edr.Providers.Composite.{query_events}
use shigure_edr.Providers.Newest.{IsNewest, HoldsUpTo, wanted, total, query_events_lem}
use shigure_edr.Tests.Graph.{first, second}

abbrev over : List NormalizedEvent → EndpointProvider
over events = record {
  list_alerts = λ n. [];
  get_alert_by_id = λ id. none;
  get_endpoint_context = λ hostname ip_address. [];
  query_events = λ q. events;
  trace_process_chain = λ host process_id event_id. [];
  hunt_indicator = λ indicator n. [];
  list_readonly_scripts = [];
  run_readonly_script = λ helper_name host kwargs. record {
    job_id = "job-1";
    source = "internal";
    helper_name = helper_name;
    host = host;
    status = "simulated";
    result = [];
  };
}

abbrev query : EventQuery
query = record {
  host = some "WS-01";
  event_type = none;
  indicator = none;
  start_time = none;
  end_time = none;
  at_most = pos 1;
}

abbrev providers : List EndpointProvider
providers = over (first ∷ []) ∷ over (record second { timestamp = 20 } ∷ []) ∷ []

query_events_lem_example :
    IsNewest providers query (query_events providers query)
    × ((n : ℕ)
        → query.at_most ≡ pos n
        → HoldsUpTo (wanted n) (total query providers) (query_events providers query))
query_events_lem_example = query_events_lem providers query
