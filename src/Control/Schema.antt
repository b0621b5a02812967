-- ===== src/Control/Schema.antt =====
-- The rows of the store's tables (api/store.py, SQLiteStore.init_schema), and the whole state.
use shigure_edr.Base.{ℕ, String, Bool, Option, List, []}
use shigure_edr.Base.Int.{ℤ}
use shigure_edr.Base.Dict.{Dict}
use shigure_edr.Json.{Json}
use shigure_edr.Events.{NormalizedEvent, Alert, EventType}
pub use shigure_edr.Events.{Time}

-- The identifier and the instant that one insert draws.
pub record Draw : Type 0 where
  pub id : String
  pub at : Time

pub record EnrollmentToken : Type 0 where
  pub token : String
  pub tenant_id : String
  pub expires_at : Option Time
  pub max_uses : Option ℤ
  pub uses : ℕ
  pub revoked : Bool
  pub created_at : Time

pub record Tenant : Type 0 where
  pub tenant_id : String
  pub created_at : Time

pub record Agent : Type 0 where
  pub agent_id : String
  pub tenant_id : String
  pub agent_token : String
  pub credential_version : ℕ
  pub credential_revoked_at : Option Time
  pub credential_rotated_at : Option Time
  pub pending_agent_token : Option String
  pub pending_credential_version : Option ℕ
  pub pending_credential_created_at : Option Time
  pub public_key : Option String
  pub host : String
  pub ip_address : Option String
  pub os : Option String
  pub agent_version : String
  pub status : String
  pub enrolled_at : Time
  pub last_seen : Option Time
  pub metadata : Dict Json

pub record CredentialEvent : Type 0 where
  pub event_id : String
  pub tenant_id : String
  pub agent_id : String
  pub event_type : String
  pub credential_version : ℕ
  pub created_at : Time
  pub metadata : Dict Json

-- The stored configuration of a tenant (api/models.py, AgentConfig).
pub record AgentConfig : Type 0 where
  pub version : ℕ
  pub task_poll_seconds : ℕ
  pub heartbeat_seconds : ℕ
  pub upload_interval_seconds : ℕ
  pub max_snapshot_events : ℕ
  pub collect_snapshot : Bool
  pub collect_process_snapshot : Bool
  pub collect_network_snapshot : Bool
  pub collect_windows_event_logs : Bool
  pub demo_suspicious_event : Bool
  pub features : Dict Json

pub record TenantConfig : Type 0 where
  pub tenant_id : String
  pub version : ℕ
  pub config : AgentConfig
  pub updated_at : Time

pub record Task : Type 0 where
  pub task_id : String
  pub tenant_id : String
  pub agent_id : String
  pub task_type : String
  pub args : Dict Json
  pub status : String
  pub created_at : Time
  pub claimed_at : Option Time
  pub completed_at : Option Time
  pub timeout_seconds : ℤ
  pub result : Option (Dict Json)
  pub error : Option String
  pub raw_ref : Option String
  pub raw_hash : Option String

pub record Case : Type 0 where
  pub case_id : String
  pub tenant_id : String
  pub title : String
  pub severity : String
  pub status : String
  pub alert_id : Option String
  pub assignee : Option String
  pub priority : Option String
  pub classification : Option String
  pub description : Option String
  pub summary : Option String
  pub created_at : Time
  pub updated_at : Time

pub record CaseEvidence : Type 0 where
  pub evidence_id : String
  pub case_id : String
  pub tenant_id : String
  pub evidence_type : String
  pub ref_id : String
  pub summary : Option String
  pub facts : Dict Json
  pub created_at : Time

pub record Hunt : Type 0 where
  pub hunt_id : String
  pub tenant_id : String
  pub name : String
  pub description : Option String
  pub indicator : Option String
  pub query : Dict Json
  pub enabled : Bool
  pub created_at : Time
  pub updated_at : Time

pub record HuntRun : Type 0 where
  pub run_id : String
  pub hunt_id : String
  pub tenant_id : String
  pub status : String
  pub result : Dict Json
  pub created_at : Time

pub record RawEvidence : Type 0 where
  pub raw_ref : String
  pub tenant_id : String
  pub kind : String
  pub sha256 : String
  pub size : ℕ
  pub mime_type : String
  pub storage_provider : String
  pub object_key : String
  pub metadata : Dict Json
  pub created_at : Time

pub record EventRow : Type 0 where
  pub id : String
  pub tenant_id : String
  pub agent_id : String
  pub host : Option String
  pub event_type : EventType
  pub source : String
  pub timestamp : Time
  pub process_name : Option String
  pub process_id : Option String
  pub process_entity_id : Option String
  pub parent_process_entity_id : Option String
  pub boot_id : Option String
  pub process_create_time : Option String
  pub process_exit_time : Option String
  pub image_path : Option String
  pub image_hash : Option String
  pub process_identity_confidence : Option String
  pub missing_parent_reason : Option String
  pub command_line : Option String
  pub user : Option String
  pub hash_sha256 : Option String
  pub remote_ip : Option String
  pub domain : Option String
  pub raw_ref : Option String
  pub raw_hash : Option String
  -- the column event_json
  pub event : NormalizedEvent

pub record AlertRow : Type 0 where
  pub alert_id : String
  pub tenant_id : String
  pub title : String
  pub severity : String
  pub timestamp : Time
  pub host : Option String
  pub user : Option String
  pub process_name : Option String
  pub raw_ref : Option String
  pub raw_hash : Option String
  -- the column alert_json
  pub alert : Alert

pub record Store : Type 0 where
  pub enrollment_tokens : List EnrollmentToken
  pub tenants : List Tenant
  pub agents : List Agent
  pub agent_credential_events : List CredentialEvent
  pub raw_evidence : List RawEvidence
  pub events : List EventRow
  pub alerts : List AlertRow
  pub cases : List Case
  pub case_evidence : List CaseEvidence
  pub hunts : List Hunt
  pub hunt_runs : List HuntRun
  pub tenant_configs : List TenantConfig
  pub tasks : List Task
  -- the files of the object store, by their paths below its root
  pub objects : Dict (Dict Json)

-- The tables right after `init_schema` on a new database.
abbrev pub empty_store : Store
empty_store = record {
  enrollment_tokens = [];
  tenants = [];
  agents = [];
  agent_credential_events = [];
  raw_evidence = [];
  events = [];
  alerts = [];
  cases = [];
  case_evidence = [];
  hunts = [];
  hunt_runs = [];
  tenant_configs = [];
  tasks = [];
  objects = [];
}
