-- ===== src/Tests/Enrollment.antt =====
-- Runs on enrollment tokens and on the configuration of a tenant.
use shigure_edr.Base.{String, ◌<◌, ◌≡◌, refl, ◌≢◌, true, false, none, some, [], ◌∷◌, ◌++◌, ok}
use shigure_edr.Base.Int.{pos}
use shigure_edr.Base.Table.{fetchone, insert, update, has_key}
use shigure_edr.Json.{str}
use shigure_edr.Control.Schema.{EnrollmentToken, Store}
use shigure_edr.Control.Enrollment.{
  token_key, EnrollmentRequest, Enrolled, enroll_agent, usable_token, use_once, new_agent,
  record_agent_credential_event,
}
use shigure_edr.Control.Enrollment.Uses.{
  IsUsable, IsLimited, TokenRun, within, enrollments, start, next, used,
}
use shigure_edr.Control.Enrollment.Limits.{uses_within_limit, enroll_agent_lem}
use shigure_edr.Control.Credentials.{has_credential}
use shigure_edr.Control.Config.{
  default_config, get_agent_config, set_agent_config, set_agent_config_lem,
}
use shigure_edr.Tests.Data.{draw_1, two_agents}

abbrev token : EnrollmentToken
token = record {
  token = "enroll-me";
  tenant_id = "default";
  expires_at = some 500;
  max_uses = some (pos 1);
  uses = 0;
  revoked = false;
  created_at = 1;
}

abbrev offered : Store
offered = record two_agents { enrollment_tokens = token ∷ [] }

abbrev request : EnrollmentRequest
request = record {
  enrollment_token = "enroll-me";
  public_key = none;
  host = "WS-03";
  ip_address = none;
  os = none;
  agent_version = "1.0";
  metadata = [];
}

abbrev answer : Enrolled
answer = record {
  tenant_id = "default";
  agent_id = "agent-3";
  agent_token = "token-3";
  credential_version = 1;
}

abbrev joined : Store
joined = record two_agents {
  enrollment_tokens = use_once token ∷ [];
  agents = two_agents.agents ++ new_agent 40 "agent-3" "token-3" "default" request ∷ [];
  agent_credential_events =
      record {
        event_id = "event-1";
        tenant_id = "default";
        agent_id = "agent-3";
        event_type = "enrolled";
        credential_version = 1;
        created_at = 100;
        metadata = ("enrollment_token_prefix", str "enroll...") ∷ [];
      }
      ∷ [];
}

enrolled_once : enroll_agent 40 "agent-3" "token-3" draw_1 request offered ≡ ok (answer, joined)
unfolding enroll_agent usable_token record_agent_credential_event fetchone insert update
enrolled_once = refl

enroll_agent_lem_example :
    (t : EnrollmentToken) × (fetchone (has_key token_key "enroll-me") offered.enrollment_tokens
      ≡ some t)
    × IsUsable 40 t
    × (fetchone (has_key token_key "enroll-me") joined.enrollment_tokens ≡ some (use_once t))
    × (fetchone (has_credential "agent-3" "token-3") joined.agents
        ≡ some (new_agent 40 "agent-3" "token-3" t.tenant_id request))
enroll_agent_lem_example =
    enroll_agent_lem 40 "agent-3" "token-3" draw_1 request offered joined answer enrolled_once

limited : IsLimited offered
unfolding fetchone
limited = ((refl, tt), (refl, tt))

abbrev enrolled_run : TokenRun offered joined
enrolled_run = next start (used 40 "agent-3" "token-3" draw_1 request answer enrolled_once)

uses_within_limit_example :
    IsLimited joined
    × ((k : String) (t : EnrollmentToken)
        → fetchone (has_key token_key k) joined.enrollment_tokens ≡ some t
        → within (enrollments k enrolled_run) t.max_uses ≡ true)
uses_within_limit_example = uses_within_limit enrolled_run limited

set_agent_config_lem_example :
    let (stored, s') = set_agent_config 50 "default" default_config two_agents in
    (get_agent_config "default" s' ≡ stored)
    × ((get_agent_config "default" two_agents).version < stored.version)
    × ((other : String)
        → other ≢ "default"
        → get_agent_config other s' ≡ get_agent_config other two_agents)
set_agent_config_lem_example = set_agent_config_lem 50 "default" default_config two_agents
