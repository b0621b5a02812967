-- ===== src/Control/Credentials.antt =====
-- The credentials of agents and their life cycle (api/store.py, authenticate_agent to
-- activate_pending_agent_credential, _agent_record); heartbeats are in Heartbeats.
pub mod Effects
pub mod Revocation
pub mod Rotation
pub mod Heartbeats
use mathlib.Core.Option
use shigure_edr.Base.{
  ℕ, zero, suc, ◌+◌, String, Bool, true, false, not, ◌&&◌, ◌||◌, Option, none, some, List, [], ◌∷◌,
  map, length, ltb, ◌==◌, if◌then◌else◌, or_default, is_some, is_text,
}
use shigure_edr.Base.{Result, ok, err, Error, value_error, ◌>>=◌, ◌>>◌, guard}
use shigure_edr.Base.Table.{select, fetchone, update}
use shigure_edr.Base.Dict
use shigure_edr.Base.Dict.{Dict}
use shigure_edr.Json.{Json, str, obj, end, fields}
use shigure_edr.Control.Schema.{Time, Draw, Agent, CredentialEvent, Store}
use shigure_edr.Control.Enrollment.{record_agent_credential_event}

-- `int(row["credential_version"] or 1)`
abbrev pub version_or_one : ℕ → ℕ
version_or_one zero = 1
version_or_one (suc n) = suc n

abbrev pub is_agent : String → String → Agent → Bool
is_agent tenant_id agent_id a = a.tenant_id == tenant_id && a.agent_id == agent_id

abbrev pub has_credential : String → String → Agent → Bool
has_credential agent_id agent_token a =
    a.agent_id == agent_id
    && a.agent_token == agent_token
    && not (is_some a.credential_revoked_at)
    && not (a.status == "revoked")

-- Every authentication is recorded; the row is what the caller gets.
abbrev pub authenticated : Draw → Store → Option Agent → Result (Option Agent × Store)
authenticated draw s none = ok (none, s)
authenticated draw s (some a) = do
  s' ←
      record_agent_credential_event draw a.tenant_id a.agent_id "authenticated"
        (version_or_one a.credential_version) (("status", str "ok") ∷ []) s
  ok (some a, s')

unfoldable pub authenticate_agent : Draw → String → String → Store → Result (Option Agent × Store)
authenticate_agent draw agent_id agent_token s =
    authenticated draw s (fetchone (has_credential agent_id agent_token) s.agents)

-- What `_agent_record` makes of a row; the two tokens are dropped.
pub record AgentRecord : Type 0 where
  pub tenant_id : String
  pub agent_id : String
  pub host : String
  pub ip_address : Option String
  pub os : Option String
  pub agent_version : String
  pub status : String
  pub credential_version : ℕ
  pub credential_status : String
  pub credential_revoked_at : Option Time
  pub credential_rotated_at : Option Time
  pub health : Json
  pub enrolled_at : Time
  pub last_seen : Option Time

-- A version that is there and not 0, as the tests on it in Python have it.
abbrev pub nonzero : Option ℕ → Option ℕ
nonzero none = none
nonzero (some zero) = none
nonzero (some (suc n)) = some (suc n)

abbrev record_status : Option Time → Option ℕ → String
record_status (some t) pending = "revoked"
record_status none (some v) = "pending_rotation"
record_status none none = "active"

abbrev record_version : Option Time → Option ℕ → ℕ → ℕ
record_version none (some v) version = v
record_version _ _ version = version

unfoldable pub agent_record : Agent → AgentRecord
unfolding Dict.get
agent_record a = record {
  tenant_id = a.tenant_id;
  agent_id = a.agent_id;
  host = a.host;
  ip_address = a.ip_address;
  os = a.os;
  agent_version = a.agent_version;
  status = a.status;
  credential_version =
      record_version a.credential_revoked_at (nonzero a.pending_credential_version)
        (version_or_one a.credential_version);
  credential_status = record_status a.credential_revoked_at (nonzero a.pending_credential_version);
  credential_revoked_at = a.credential_revoked_at;
  credential_rotated_at = a.credential_rotated_at;
  health = or_default (Dict.get "health" a.metadata) (obj end);
  enrolled_at = a.enrolled_at;
  last_seen = a.last_seen;
}

abbrev pub revoke : Time → Agent → Agent
revoke now a = record a { status = "revoked"; credential_revoked_at = some now }

abbrev pub revoked :
    Time
    → Draw
    → String
    → String
    → Option String
    → Store
    → Option Agent
    → Result (Option AgentRecord × Store)
revoked now draw tenant_id agent_id reason s none = ok (none, s)
revoked now draw tenant_id agent_id reason s (some row) = do
  s' ←
      record_agent_credential_event draw tenant_id agent_id "revoked"
        (version_or_one row.credential_version) (("reason", str (or_default reason "")) ∷ [])
        (record s { agents = update (is_agent tenant_id agent_id) (revoke now) s.agents })
  ok (Option.map agent_record (fetchone (is_agent tenant_id agent_id) s'.agents), s')

unfoldable pub revoke_agent_credential :
    Time → Draw → String → String → Option String → Store → Result (Option AgentRecord × Store)
revoke_agent_credential now draw tenant_id agent_id reason s =
    revoked now draw tenant_id agent_id reason s (fetchone (is_agent tenant_id agent_id) s.agents)

abbrev pub schedule : Time → String → ℕ → Agent → Agent
schedule now new_token next_version a = record a {
  pending_agent_token = some new_token;
  pending_credential_version = some next_version;
  pending_credential_created_at = some now;
}

abbrev pub pending_record : ℕ → AgentRecord → AgentRecord
pending_record next_version r = record r {
  credential_version = next_version;
  credential_status = "pending_rotation";
}

abbrev pub rotated :
    Time
    → String
    → Draw
    → String
    → String
    → Option String
    → Store
    → Option Agent
    → Result (Option AgentRecord × Store)
rotated now new_token draw tenant_id agent_id reason s none = ok (none, s)
rotated now new_token draw tenant_id agent_id reason s (some row) = do
  guard (not (is_some row.credential_revoked_at || row.status == "revoked"))
      (value_error "agent_credential_revoked")
  let next_version = version_or_one row.credential_version + 1
  s' ←
      record_agent_credential_event draw tenant_id agent_id "rotation_scheduled" next_version
        (("reason", str (or_default reason "")) ∷ [])
        (record s {
          agents =
              update (is_agent tenant_id agent_id) (schedule now new_token next_version) s.agents;
        })
  ok (
    Option.map (λ a. pending_record next_version (agent_record a))
        (fetchone (is_agent tenant_id agent_id) s'.agents),
    s',
  )

unfoldable pub rotate_agent_credential :
    Time
    → String
    → Draw
    → String
    → String
    → Option String
    → Store
    → Result (Option AgentRecord × Store)
rotate_agent_credential now new_token draw tenant_id agent_id reason s =
    rotated now new_token draw tenant_id agent_id reason s
      (fetchone (is_agent tenant_id agent_id) s.agents)

-- The pending pair of a row, if both are set (an empty token or the version 0 is not).
abbrev pub pending_of : Option Agent → Option (String × ℕ)
pending_of none = none
pending_of (some a) = elim a.pending_agent_token [
  | none ↦ none
  | some token ↦ elim (nonzero a.pending_credential_version) [
    | none ↦ none
    | some version ↦ if token == "" then none else some (token, version)
  ]
]

abbrev pub activate : Time → String → ℕ → Agent → Agent
activate now token version a = record a {
  agent_token = token;
  credential_version = version;
  credential_rotated_at = some now;
  pending_agent_token = none;
  pending_credential_version = none;
  pending_credential_created_at = none;
}

abbrev pub activated :
    Time
    → Draw
    → String
    → String
    → Store
    → Option (String × ℕ)
    → Result (Option (String × ℕ) × Store)
activated now draw tenant_id agent_id s none = ok (none, s)
activated now draw tenant_id agent_id s (some (token, version)) = do
  s' ←
      record_agent_credential_event draw tenant_id agent_id "rotated" version
        (("delivery", str "heartbeat") ∷ [])
        (record s {
          agents = update (is_agent tenant_id agent_id) (activate now token version) s.agents;
        })
  ok (some (token, version), s')

unfoldable pub activate_pending_agent_credential :
    Time → Draw → String → String → Store → Result (Option (String × ℕ) × Store)
activate_pending_agent_credential now draw tenant_id agent_id s =
    activated now draw tenant_id agent_id s
      (pending_of (fetchone (is_agent tenant_id agent_id) s.agents))
