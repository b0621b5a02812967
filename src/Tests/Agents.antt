-- ===== src/Tests/Agents.antt =====
-- Runs on the agents and their credentials.
use shigure_edr.Base.{
  String, ℕ, ◌≡◌, refl, Option, none, some, [], ◌∷◌, ok, arith, ◌==◌, eq_iff, is_some,
}
use shigure_edr.Base.Dict.{Dict}
use shigure_edr.Base.Table.{fetchone, update, insert}
use shigure_edr.Base.Keys.{IsKeyed}
use shigure_edr.Json.{Json, str}
use shigure_edr.Control.Schema.{Agent, CredentialEvent, Store}
use shigure_edr.Control.Enrollment.{agent_key, record_agent_credential_event}
use shigure_edr.Control.Credentials.{
  agent_record, authenticate_agent, revoke_agent_credential, rotate_agent_credential, schedule,
  activate, activate_pending_agent_credential, revoke, pending_record,
}
use shigure_edr.Control.Credentials.Heartbeats.{update_heartbeat}
use shigure_edr.Control.Credentials.Revocation.{start, next, heartbeat, revocation_is_permanent}
use shigure_edr.Control.Credentials.Rotation.{rotation_hands_over}
use shigure_edr.Tests.Data.{draw_1, draw_2, draw_3, agent_of, agent_1, two_agents, alive}

abbrev revoked_store : Store
revoked_store = record two_agents {
  agents = revoke 50 agent_1 ∷ agent_of "agent-2" "token-2" ∷ [];
  agent_credential_events =
      (record {
        event_id = "event-1";
        tenant_id = "default";
        agent_id = "agent-1";
        event_type = "revoked";
        credential_version = 1;
        created_at = 100;
        metadata = ("reason", str "lost") ∷ [];
      })
      ∷ [];
}

revoked_once :
    revoke_agent_credential 50 draw_1 "default" "agent-1" (some "lost") two_agents
    ≡ ok (some (agent_record (revoke 50 agent_1)), revoked_store)
unfolding revoke_agent_credential record_agent_credential_event fetchone update insert
revoked_once = refl

keyed : IsKeyed agent_key two_agents.agents
unfolding fetchone
keyed = (refl, (refl, tt))

revocation_is_permanent_example :
    authenticate_agent draw_2 "agent-1" "token-1"
      (update_heartbeat 60 "agent-1" alive revoked_store)
    ≡ ok (none, update_heartbeat 60 "agent-1" alive revoked_store)
revocation_is_permanent_example =
    revocation_is_permanent two_agents revoked_store
      (update_heartbeat 60 "agent-1" alive revoked_store) 50 "default" "agent-1" (some "lost")
      draw_1 draw_2 (agent_record (revoke 50 agent_1)) "token-1" keyed revoked_once
      (next start (heartbeat 60 "agent-1" alive))

abbrev event : String → ℕ → String → ℕ → Dict Json → CredentialEvent
event event_id created_at event_type credential_version metadata = record {
  event_id = event_id;
  tenant_id = "default";
  agent_id = "agent-1";
  event_type = event_type;
  credential_version = credential_version;
  created_at = created_at;
  metadata = metadata;
}

abbrev scheduled : Agent
scheduled = schedule 50 "token-3" 2 agent_1

abbrev scheduled_store : Store
scheduled_store = record two_agents {
  agents = scheduled ∷ agent_of "agent-2" "token-2" ∷ [];
  agent_credential_events =
      event "event-1" 100 "rotation_scheduled" 2 (("reason", str "") ∷ []) ∷ [];
}

abbrev rotated_store : Store
rotated_store = record scheduled_store {
  agents = activate 60 "token-3" 2 scheduled ∷ agent_of "agent-2" "token-2" ∷ [];
  agent_credential_events =
      event "event-1" 100 "rotation_scheduled" 2 (("reason", str "") ∷ [])
      ∷ event "event-2" 101 "rotated" 2 (("delivery", str "heartbeat") ∷ [])
      ∷ [];
}

rotated_once :
    rotate_agent_credential 50 "token-3" draw_1 "default" "agent-1" none two_agents
    ≡ ok (some (pending_record 2 (agent_record scheduled)), scheduled_store)
unfolding rotate_agent_credential record_agent_credential_event fetchone update insert
rotated_once = refl

activated_once :
    activate_pending_agent_credential 60 draw_2 "default" "agent-1" scheduled_store
    ≡ ok (some ("token-3", 2), rotated_store)
unfolding activate_pending_agent_credential record_agent_credential_event fetchone update insert
activated_once = refl

old_token : authenticate_agent draw_3 "agent-1" "token-1" rotated_store ≡ ok (none, rotated_store)
unfolding authenticate_agent fetchone
old_token = refl

rotation_hands_over_example :
    ◌≡◌ {A = Option (String × ℕ)} (some ("token-3", 2)) (some ("token-3", 2))
    × (is_some {A = Agent} none ≡ ("token-3" == "token-1"))
rotation_hands_over_example =
    rotation_hands_over two_agents scheduled_store rotated_store rotated_store "default" "agent-1"
      "token-3" 50 60 draw_1 draw_2 draw_3 none (pending_record 2 (agent_record scheduled))
      (some ("token-3", 2)) "token-1" none keyed (ground (arith, eq_iff "token-3" "")) rotated_once
      activated_once old_token
