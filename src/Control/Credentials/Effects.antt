-- ===== src/Control/Credentials/Effects.antt =====
-- What the credential operations do to the table of agents when they return (api/store.py).
use mathlib.Core.Option
use mathlib.Core.Option.{some-injective}
use shigure_edr.Base.{
  ℕ, ◌+◌, String, ◌≡◌, refl, false, Option, none, some, [], ◌∷◌, ◌++◌, arith, ok, Option-cases, inl,
  inr, ap, sym, ◌⊎◌, ◌==◌,
}
use shigure_edr.Base.Table.{fetchone, update, has_key, insert}
use shigure_edr.Base.Dict.{Dict}
use shigure_edr.Json.{Json}
use shigure_edr.Control.Schema.{Time, Draw, EnrollmentToken, Agent, Store}
use shigure_edr.Control.Enrollment.{
  token_key, agent_key, record_agent_credential_event, EnrollmentRequest, Enrolled, usable_token,
  new_agent, enroll_agent, use_once,
}
use shigure_edr.Control.Credentials.{
  AgentRecord, is_agent, has_credential, authenticate_agent, revoke, revoke_agent_credential,
  schedule, rotate_agent_credential, activate, activate_pending_agent_credential, pending_of,
  version_or_one, activated, pending_record, agent_record,
}

-- Recording an event changes no other table.
pub record_event_tables :
    (draw : Draw) (tenant_id agent_id event_type : String) (version : ℕ) (metadata : Dict Json)
    (s s' : Store)
    → record_agent_credential_event draw tenant_id agent_id event_type version metadata s ≡ ok s'
    → s' ≡ record s { agent_credential_events = s'.agent_credential_events }
unfolding record_agent_credential_event
record_event_tables draw tenant_id agent_id event_type version metadata s s' h = ground arith

module _ (draw : Draw) (s s' : Store) where
  pub authenticate_tables :
      (agent_id agent_token : String) (o : Option Agent)
      → authenticate_agent draw agent_id agent_token s ≡ ok (o, s')
      → (o ≡ fetchone (has_credential agent_id agent_token) s.agents)
        × (s' ≡ record s { agent_credential_events = s'.agent_credential_events })
  unfolding authenticate_agent record_agent_credential_event
  authenticate_tables agent_id agent_token o h = ground arith

  pub revoke_tables :
      (now : Time) (tenant_id agent_id : String) (reason : Option String) (o : Option AgentRecord)
      → revoke_agent_credential now draw tenant_id agent_id reason s ≡ ok (o, s')
      → (o ≡ none) × (s' ≡ s)
        ⊎ (row : Agent) × (fetchone (is_agent tenant_id agent_id) s.agents ≡ some row)
          × (s' ≡ record s {
            agents = update (is_agent tenant_id agent_id) (revoke now) s.agents;
            agent_credential_events = s'.agent_credential_events;
          })
  unfolding revoke_agent_credential record_agent_credential_event
  revoke_tables now tenant_id agent_id reason o h =
      elim (Option-cases (fetchone (is_agent tenant_id agent_id) s.agents)) [
        | inl e ↦ inl (ground arith)
        | inr (row, e) ↦ inr (row, e, ground arith)
      ]

  pub rotate_tables :
      (now : Time) (new_token tenant_id agent_id : String) (reason : Option String)
      (o : Option AgentRecord)
      → rotate_agent_credential now new_token draw tenant_id agent_id reason s ≡ ok (o, s')
      → (o ≡ none) × (s' ≡ s)
        ⊎ (row : Agent) × (fetchone (is_agent tenant_id agent_id) s.agents ≡ some row)
          × (row.credential_revoked_at ≡ none)
          × ((row.status == "revoked") ≡ false)
          × (s' ≡ record s {
            agents =
                update
                  (is_agent tenant_id agent_id)
                  (schedule now new_token (version_or_one row.credential_version + 1))
                  s.agents;
            agent_credential_events = s'.agent_credential_events;
          })
  unfolding rotate_agent_credential record_agent_credential_event
  rotate_tables now new_token tenant_id agent_id reason o h =
      elim (Option-cases (fetchone (is_agent tenant_id agent_id) s.agents)) [
        | inl e ↦ inl (ground arith)
        | inr (row, e) ↦ inr (row, e, ground arith, ground arith, ground arith)
      ]

  mapped_version :
      (next_version : ℕ) (o : Option Agent) (r : AgentRecord)
      → Option.map (λ a. pending_record next_version (agent_record a)) o ≡ some r
      → r.credential_version ≡ next_version
  mapped_version next_version none r h = cc
  mapped_version next_version (some a) r h =
      sym (ap (λ (x : AgentRecord). x.credential_version) (some-injective _ r h))

  -- The record that is returned shows the version to come.
  pub rotate_version :
      (now : Time) (new_token tenant_id agent_id : String) (reason : Option String)
      (r : AgentRecord) (row : Agent)
      → rotate_agent_credential now new_token draw tenant_id agent_id reason s ≡ ok (some r, s')
      → fetchone (is_agent tenant_id agent_id) s.agents ≡ some row
      → r.credential_version ≡ version_or_one row.credential_version + 1
  unfolding rotate_agent_credential record_agent_credential_event
  rotate_version now new_token tenant_id agent_id reason r row h e =
      mapped_version (version_or_one row.credential_version + 1)
        (fetchone (is_agent tenant_id agent_id) s'.agents) r (ground arith)

  activated_tables :
      (now : Time) (tenant_id agent_id : String) (o p : Option (String × ℕ))
      → activated now draw tenant_id agent_id s p ≡ ok (o, s')
      → (o ≡ none) × (p ≡ none) × (s' ≡ s)
        ⊎ (token : String) × (version : ℕ) × (o ≡ some (token, version))
          × (p ≡ some (token, version))
          × (s' ≡ record s {
            agents = update (is_agent tenant_id agent_id) (activate now token version) s.agents;
            agent_credential_events = s'.agent_credential_events;
          })
  unfolding record_agent_credential_event
  activated_tables now tenant_id agent_id o none h = inl (ground arith, refl, ground arith)
  activated_tables now tenant_id agent_id o (some (token, version)) h =
      inr (token, version, ground arith, refl, ground arith)

  pub activate_tables :
      (now : Time) (tenant_id agent_id : String) (o : Option (String × ℕ))
      → activate_pending_agent_credential now draw tenant_id agent_id s ≡ ok (o, s')
      → (o ≡ none)
          × (pending_of (fetchone (is_agent tenant_id agent_id) s.agents) ≡ none)
          × (s' ≡ s)
        ⊎ (token : String) × (version : ℕ) × (o ≡ some (token, version))
          × (pending_of (fetchone (is_agent tenant_id agent_id) s.agents) ≡ some (token, version))
          × (s' ≡ record s {
            agents = update (is_agent tenant_id agent_id) (activate now token version) s.agents;
            agent_credential_events = s'.agent_credential_events;
          })
  unfolding activate_pending_agent_credential
  activate_tables now tenant_id agent_id o h =
      activated_tables now tenant_id agent_id o
        (pending_of (fetchone (is_agent tenant_id agent_id) s.agents)) h

  pub enroll_tables :
      (now : Time) (agent_id agent_token : String) (req : EnrollmentRequest) (r : Enrolled)
      → enroll_agent now agent_id agent_token draw req s ≡ ok (r, s')
      → (t : EnrollmentToken) × (fetchone
            (has_key token_key req.enrollment_token)
            s.enrollment_tokens
          ≡ some t)
        × (usable_token now (some t) ≡ ok t)
        × (fetchone (has_key agent_key agent_id) s.agents ≡ none)
        × (r ≡ record {
          tenant_id = t.tenant_id;
          agent_id = agent_id;
          agent_token = agent_token;
          credential_version = 1;
        })
        × (s' ≡ record s {
          enrollment_tokens =
              update (has_key token_key req.enrollment_token) use_once s.enrollment_tokens;
          agents = s.agents ++ new_agent now agent_id agent_token t.tenant_id req ∷ [];
          agent_credential_events = s'.agent_credential_events;
        })
  unfolding enroll_agent record_agent_credential_event insert
  enroll_tables now agent_id agent_token req r h =
      elim (Option-cases (fetchone (has_key token_key req.enrollment_token) s.enrollment_tokens)) [
        | inl e ↦ absurd (ground arith)
        | inr (t, e) ↦ (t, e, ground arith, ground arith, ground arith, ground arith)
      ]
