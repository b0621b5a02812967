-- ===== src/Events.antt =====
-- Normalized events, alerts and the instants in them (core/schemas.py).
use shigure_edr.Base.{String, ℕ, Option, List}
use shigure_edr.Base.Dict.{Dict}
use shigure_edr.Json.{Json}

-- An instant as a count of microseconds. The store keeps the text of `isoformat` in UTC, which is
-- in the order of the instants and which `fromisoformat` reads back.
abbrev pub Time : Type 0
Time = ℕ

pub data EventType : Type 0 where
  alert process_start process_stop process_end network_connection dns_query : EventType
  file_event registry_event auth_event endpoint_state script_result generic : EventType

-- `event_type.value`
abbrev pub event_type_value : EventType → String
event_type_value alert = "alert"
event_type_value process_start = "process_start"
event_type_value process_stop = "process_stop"
event_type_value process_end = "process_end"
event_type_value network_connection = "network_connection"
event_type_value dns_query = "dns_query"
event_type_value file_event = "file_event"
event_type_value registry_event = "registry_event"
event_type_value auth_event = "auth_event"
event_type_value endpoint_state = "endpoint_state"
event_type_value script_result = "script_result"
event_type_value generic = "generic"

-- The values of the other two enumerations are texts here.
pub record NormalizedEvent : Type 0 where
  pub id : String
  pub source : String
  pub event_type : EventType
  pub timestamp : Time
  pub ingested_at : Option Time
  pub tenant_id : String
  pub source_event_id : Option String
  pub host : Option String
  pub ip_address : Option String
  pub user : Option String
  pub process_name : Option String
  pub process_id : Option String
  pub process_entity_id : Option String
  pub parent_process_name : Option String
  pub parent_process_id : Option String
  pub parent_process_entity_id : Option String
  pub boot_id : Option String
  pub process_create_time : Option String
  pub process_exit_time : Option String
  pub image_path : Option String
  pub image_hash : Option String
  pub process_identity_confidence : Option String
  pub missing_parent_reason : Option String
  pub command_line : Option String
  pub file_path : Option String
  pub hash_sha256 : Option String
  pub hash_md5 : Option String
  pub remote_ip : Option String
  pub remote_port : Option ℕ
  pub domain : Option String
  pub registry_key : Option String
  pub alert_title : Option String
  pub severity : String
  pub mitre : List String
  pub raw_ref : Option String
  pub raw_hash : Option String
  pub raw : Dict Json

pub record Alert : Type 0 where
  pub alert_id : String
  pub title : String
  pub severity : String
  pub timestamp : Time
  pub created_at : Option Time
  pub host : Option String
  pub user : Option String
  pub process_name : Option String
  pub description : Option String
  pub mitre : List String
  pub source : String
  pub raw_ref : Option String
  pub raw_hash : Option String
  pub raw : Dict Json
