-- ===== src/Control/Enrollment.antt =====
-- Tenants and enrollment tokens, and the enrollment of an agent (api/store.py, _ensure_tenant to
-- enroll_agent).
pub mod Uses
pub mod Limits
use Prim.Native.String
use shigure_edr.Base.{
  ℕ, zero, suc, ◌+◌, String, ◌<>◌, Bool, true, false, not, ◌&&◌, Option, none, some, List, [], ◌∷◌,
  ltb, ◌==◌, if◌then◌else◌,
}
use shigure_edr.Base.{Result, ok, err, Error, value_error, ◌>>=◌, ◌>>◌, guard}
use shigure_edr.Base.Int.{ℤ, pos, lez}
use shigure_edr.Base.Table.{
  select, fetchone, update, rowcount, insert, insert_or_ignore, insert_or_replace, has_key,
}
use shigure_edr.Base.Dict.{Dict}
use shigure_edr.Json.{Json, str}
use shigure_edr.Control.Schema.{Time, Draw, EnrollmentToken, Tenant, Agent, CredentialEvent, Store}

abbrev pub token_key : EnrollmentToken → String
token_key t = t.token

abbrev pub agent_key : Agent → String
agent_key a = a.agent_id

abbrev pub event_key : CredentialEvent → String
event_key e = e.event_id

abbrev tenant_key : Tenant → String
tenant_key t = t.tenant_id

unfoldable pub ensure_tenant : Time → String → Store → Store
unfolding insert_or_ignore
ensure_tenant now tenant_id s = record s {
  tenants =
      insert_or_ignore tenant_key (record { tenant_id = tenant_id; created_at = now }) s.tenants;
}

-- `token or secrets.token_urlsafe(32)`
abbrev given_token : Option String → String → String
given_token none drawn = drawn
given_token (some t) drawn = if t == "" then drawn else t

unfoldable pub create_enrollment_token :
    Time → String → String → Option String → Option ℤ → Option Time → Store → String × Store
unfolding ensure_tenant
create_enrollment_token now drawn tenant_id token max_uses expires_at s =
    let t = given_token token drawn in
    let s' = ensure_tenant now tenant_id s in
    (
      t,
      record s' {
        enrollment_tokens =
            insert_or_replace token_key
              (record {
                token = t;
                tenant_id = tenant_id;
                expires_at = expires_at;
                max_uses = max_uses;
                uses = 0;
                revoked = false;
                created_at = now;
              })
              s'.enrollment_tokens;
      },
    )

-- `text[:n]`
abbrev pub prefix_of : ℕ → String → String
prefix_of zero t = ""
prefix_of (suc n) String.[] = ""
prefix_of (suc n) (String.◌∷◌ c t) = String.◌∷◌ c (prefix_of n t)

abbrev is_token_of : String → String → EnrollmentToken → Bool
is_token_of tenant_id token t = t.tenant_id == tenant_id && t.token == token

unfoldable pub revoke_enrollment_token : String → String → Store → Bool × Store
revoke_enrollment_token tenant_id token s = (
  ltb 0 (rowcount (is_token_of tenant_id token) s.enrollment_tokens),
  record s {
    enrollment_tokens =
        update (is_token_of tenant_id token) (λ t. record t { revoked = true }) s.enrollment_tokens;
  },
)

-- `_record_agent_credential_event`
unfoldable pub record_agent_credential_event :
    Draw → String → String → String → ℕ → Dict Json → Store → Result Store
record_agent_credential_event draw tenant_id agent_id event_type version metadata s = do
  events ←
      insert event_key
        (record {
          event_id = draw.id;
          tenant_id = tenant_id;
          agent_id = agent_id;
          event_type = event_type;
          credential_version = version;
          created_at = draw.at;
          metadata = metadata;
        })
        s.agent_credential_events
  ok (record s { agent_credential_events = events })

-- What an agent sends to enroll (api/models.py, EnrollmentRequest).
pub record EnrollmentRequest : Type 0 where
  pub enrollment_token : String
  pub public_key : Option String
  pub host : String
  pub ip_address : Option String
  pub os : Option String
  pub agent_version : String
  pub metadata : Dict Json

-- What it is answered.
pub record Enrolled : Type 0 where
  pub tenant_id : String
  pub agent_id : String
  pub agent_token : String
  pub credential_version : ℕ

abbrev pub is_expired : Time → Option Time → Bool
is_expired now none = false
is_expired now (some t) = ltb t now

abbrev pub is_used_up : ℕ → Option ℤ → Bool
is_used_up uses none = false
is_used_up uses (some m) = lez m (pos uses)

-- The checks on the token, in the order of the code.
unfoldable pub usable_token : Time → Option EnrollmentToken → Result EnrollmentToken
usable_token now none = err (value_error "invalid_or_revoked_enrollment_token")
usable_token now (some t) = do
  guard (not t.revoked) (value_error "invalid_or_revoked_enrollment_token")
  guard (not (is_expired now t.expires_at)) (value_error "expired_enrollment_token")
  guard (not (is_used_up t.uses t.max_uses)) (value_error "enrollment_token_use_limit_reached")
  ok t

abbrev pub use_once : EnrollmentToken → EnrollmentToken
use_once t = record t { uses = t.uses + 1 }

abbrev pub new_agent : Time → String → String → String → EnrollmentRequest → Agent
new_agent now agent_id agent_token tenant_id req = record {
  agent_id = agent_id;
  tenant_id = tenant_id;
  agent_token = agent_token;
  credential_version = 1;
  credential_revoked_at = none;
  credential_rotated_at = none;
  pending_agent_token = none;
  pending_credential_version = none;
  pending_credential_created_at = none;
  public_key = req.public_key;
  host = req.host;
  ip_address = req.ip_address;
  os = req.os;
  agent_version = req.agent_version;
  status = "online";
  enrolled_at = now;
  last_seen = some now;
  metadata = req.metadata;
}

unfoldable pub enroll_agent :
    Time → String → String → Draw → EnrollmentRequest → Store → Result (Enrolled × Store)
unfolding usable_token
enroll_agent now agent_id agent_token draw req s = do
  t ← usable_token now (fetchone (has_key token_key req.enrollment_token) s.enrollment_tokens)
  agents ← insert agent_key (new_agent now agent_id agent_token t.tenant_id req) s.agents
  s' ←
      record_agent_credential_event draw t.tenant_id agent_id "enrolled" 1
        (("enrollment_token_prefix", str (prefix_of 6 req.enrollment_token <> "...")) ∷ [])
        (record s {
          enrollment_tokens =
              update (has_key token_key req.enrollment_token) use_once s.enrollment_tokens;
          agents = agents;
        })
  ok (
    record {
      tenant_id = t.tenant_id;
      agent_id = agent_id;
      agent_token = agent_token;
      credential_version = 1;
    },
    s',
  )
