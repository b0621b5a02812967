-- ===== src/Providers/Composite.antt =====
-- The composite of several providers (core/provider.py, CompositeEndpointProvider).
use shigure_edr.Base.{
  String, ◌<>◌, Option, none, some, List, [], ◌∷◌, ◌++◌, if◌then◌else◌, map, contains, eqb,
}
use shigure_edr.Base.{Result, ok, err, value_error}
use shigure_edr.Base.Int.{ℤ, pos}
use shigure_edr.Base.Sort.{ascending, sort_by}
use shigure_edr.Base.Dict.{Dict}
use shigure_edr.Json.{Json}
use shigure_edr.Events.{NormalizedEvent, Alert}
use shigure_edr.Investigation.Contexts.{drop_last}
use shigure_edr.Providers.{
  EndpointContext, ScriptResult, EventQuery, Script, EndpointProvider, newest, event_time,
  alert_time,
}

-- `for provider in providers: xs.extend(f(provider))`
unfoldable pub gather {ℓ} :
    {A : Type ℓ} → (EndpointProvider → List A) → List EndpointProvider → List A
gather f [] = []
gather f (p ∷ providers) = f p ++ gather f providers

unfoldable pub first_alert : String → List EndpointProvider → Option Alert
first_alert alert_id [] = none
first_alert alert_id (p ∷ providers) =
    let rest = first_alert alert_id providers in
    elim (p.get_alert_by_id alert_id) [ none ↦ rest | some found ↦ some found ]

unfoldable pub run_by_first :
    String → String → Dict Json → List EndpointProvider → Result ScriptResult
run_by_first helper_name host kwargs [] =
    err (value_error ("No provider can run read-only helper: " <> helper_name))
run_by_first helper_name host kwargs (p ∷ providers) =
    let rest = run_by_first helper_name host kwargs providers in
    if contains (map (λ (s : Script). s.name) p.list_readonly_scripts) helper_name
    then ok (p.run_readonly_script helper_name host kwargs)
    else rest

-- `int(kwargs.get("limit") or 500)`
abbrev pub limit_or_500 : ℤ → ℤ
limit_or_500 (pos n) = if eqb n 0 then pos 500 else pos n
limit_or_500 n = n

unfoldable pub list_alerts : List EndpointProvider → ℤ → List Alert
unfolding gather sort_by drop_last
list_alerts providers n = newest alert_time n (gather (λ p. p.list_alerts n) providers)

unfoldable pub get_alert_by_id : List EndpointProvider → String → Option Alert
unfolding first_alert
get_alert_by_id providers alert_id = first_alert alert_id providers

unfoldable pub get_endpoint_context :
    List EndpointProvider → Option String → Option String → List EndpointContext
unfolding gather
get_endpoint_context providers hostname ip_address =
    gather (λ p. p.get_endpoint_context hostname ip_address) providers

unfoldable pub query_events : List EndpointProvider → EventQuery → List NormalizedEvent
unfolding gather sort_by drop_last
query_events providers q =
    newest event_time (limit_or_500 q.at_most) (gather (λ p. p.query_events q) providers)

unfoldable pub trace_process_chain :
    List EndpointProvider → String → Option String → Option String → List NormalizedEvent
unfolding gather sort_by
trace_process_chain providers host process_id event_id =
    ascending event_time (gather (λ p. p.trace_process_chain host process_id event_id) providers)

unfoldable pub hunt_indicator : List EndpointProvider → String → ℤ → List NormalizedEvent
unfolding gather sort_by drop_last
hunt_indicator providers indicator n =
    newest event_time n (gather (λ p. p.hunt_indicator indicator n) providers)

unfoldable pub list_readonly_scripts : List EndpointProvider → List Script
unfolding gather
list_readonly_scripts providers = gather (λ p. p.list_readonly_scripts) providers

unfoldable pub run_readonly_script :
    List EndpointProvider → String → String → Dict Json → Result ScriptResult
unfolding run_by_first
run_readonly_script providers helper_name host kwargs =
    run_by_first helper_name host kwargs providers
