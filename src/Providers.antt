-- ===== src/Providers.antt =====
-- Endpoint providers (core/provider.py): the contract, as a record of operations, and the composite
-- that merges several (Composite). `Local` is the provider over files.
pub mod Local
pub mod Composite
pub mod Newest
pub mod Traces
use shigure_edr.Base.{
  ℕ, String, ◌<>◌, Bool, Option, none, some, List, [], ◌∷◌, ◌++◌, ◌==◌, if◌then◌else◌, or_default,
  is_some, map, contains, eqb,
}
use shigure_edr.Base.{Result, ok, err, value_error}
use shigure_edr.Base.Int.{ℤ, pos}
use shigure_edr.Base.Sort.{ascending, descending, sort_by}
use shigure_edr.Base.Dict.{Dict}
use shigure_edr.Json.{Json}
use shigure_edr.Events.{Time, NormalizedEvent, Alert}
use shigure_edr.Investigation.Contexts.{clipped, drop_last}

-- core/schemas.py, EndpointContext and ScriptResult.
pub record EndpointContext : Type 0 where
  pub host : String
  pub ip_address : Option String
  pub os : Option String
  pub agent_connected : Option Bool
  pub agent_version : Option String
  pub last_seen : Option Time
  pub isolated : Option Bool
  pub sources : List String
  pub raw : Dict Json

pub record ScriptResult : Type 0 where
  pub job_id : String
  pub helper_name : String
  pub host : String
  pub status : String
  pub result : Dict Json
  pub source : String

-- The arguments of `query_events`.
pub record EventQuery : Type 0 where
  pub host : Option String
  pub event_type : Option String
  pub indicator : Option String
  pub start_time : Option Time
  pub end_time : Option Time
  pub at_most : ℤ

-- A script that a provider offers.
pub record Script : Type 0 where
  pub name : String
  pub source : String
  pub description : String

pub record EndpointProvider : Type 0 where
  pub list_alerts : ℤ → List Alert
  pub get_alert_by_id : String → Option Alert
  pub get_endpoint_context : Option String → Option String → List EndpointContext
  pub query_events : EventQuery → List NormalizedEvent
  pub trace_process_chain : String → Option String → Option String → List NormalizedEvent
  pub hunt_indicator : String → ℤ → List NormalizedEvent
  pub list_readonly_scripts : List Script
  pub run_readonly_script : String → String → Dict Json → ScriptResult

-- `sorted(xs, key=lambda x: x.timestamp, reverse=True)[:limit]`
abbrev pub newest {ℓ} : {A : Type ℓ} → (A → Time) → ℤ → List A → List A
newest time n xs = clipped n (descending time xs)

abbrev pub event_time : NormalizedEvent → Time
event_time e = e.timestamp

abbrev pub alert_time : Alert → Time
alert_time a = a.timestamp
