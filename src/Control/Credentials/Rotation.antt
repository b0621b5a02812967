-- ===== src/Control/Credentials/Rotation.antt =====
-- The rotation of an agent's credential and its delivery by a heartbeat (api/store.py,
-- rotate_agent_credential and activate_pending_agent_credential).
use mathlib.Core.Option.{some-ne-none, some-injective}
use mathlib.Core.Path.{subst}
use shigure_edr.Base.{
  ℕ, suc, ◌+◌, String, ◌≡◌, refl, sym, ap, ◌∙◌, ◌≢◌, false, Option, none, some, List, arith, ok,
  ◌==◌, eq_iff, test_of_ne, is_some, inl, inr, Option-cases,
}
use shigure_edr.Base.Table.{
  fetchone, update, fetchone-update_at, fetchone_test, In-fetchone, fetchone_absent,
}
use shigure_edr.Base.Keys.{IsKeyed, IsKeyed-In, IsKeyed-update, fetchone-key}
use shigure_edr.Control.Schema.{Time, Draw, Agent, Store}
use shigure_edr.Control.Enrollment.{agent_key}
use shigure_edr.Control.Credentials.{
  AgentRecord, is_agent, has_credential, authenticate_agent, schedule, rotate_agent_credential,
  activate, activate_pending_agent_credential, version_or_one, pending_of,
}
use shigure_edr.Control.Credentials.Heartbeats.{with_agent_id}
use shigure_edr.Control.Credentials.Effects.{
  authenticate_tables, rotate_tables, rotate_version, activate_tables,
}

-- In a keyed table the credential is tested against the one row of the agent.
pub fetchone_credential :
    (agents : List Agent) (agent_id agent_token : String) (row : Agent)
    → IsKeyed agent_key agents
    → fetchone (with_agent_id agent_id) agents ≡ some row
    → is_some (fetchone (has_credential agent_id agent_token) agents)
      ≡ has_credential agent_id agent_token row
fetchone_credential agents agent_id agent_token row u found =
    let inside = In-fetchone (with_agent_id agent_id) agents found in
    let id =
      (eq_iff row.agent_id agent_id).0 (fetchone_test (with_agent_id agent_id) agents row found) in
    elim (Option-cases (fetchone (has_credential agent_id agent_token) agents)) [
      | inl e ↦
          rw e (sym (fetchone_absent (has_credential agent_id agent_token) agents row e inside))
      | inr (a, e) ↦
          let test = fetchone_test (has_credential agent_id agent_token) agents a e in
          let same =
            IsKeyed-In agent_key agents a row u
              (In-fetchone (has_credential agent_id agent_token) agents e) inside
              (id ∙ sym ((eq_iff a.agent_id agent_id).0 (ground (arith, test)))) in
          rw e (sym (ap (has_credential agent_id agent_token) same ∙ test))
    ]

-- The row of an agent in a tenant is the one under its identifier.
row_by_id :
    (agents : List Agent) (tenant_id agent_id : String) (row : Agent)
    → IsKeyed agent_key agents
    → fetchone (is_agent tenant_id agent_id) agents ≡ some row
    → fetchone (with_agent_id agent_id) agents ≡ some row
row_by_id agents tenant_id agent_id row u found =
    let test = fetchone_test (is_agent tenant_id agent_id) agents row found in
    fetchone-key agent_key agents row agent_id u
      (In-fetchone (is_agent tenant_id agent_id) agents found)
      ((eq_iff row.agent_id agent_id).0 (ground (arith, test)))

suc_add : (v : ℕ) → suc v ≡ v + 1
suc_add v = omega arith

-- The pending pair of a row that a rotation has just scheduled.
pending_of-schedule :
    (now : Time) (new_token : String) (v : ℕ) (row : Agent)
    → new_token ≢ ""
    → pending_of (some (schedule now new_token (v + 1) row)) ≡ some (new_token, v + 1)
pending_of-schedule now new_token v row ne =
    subst (λ n. pending_of (some (schedule now new_token n row)) ≡ some (new_token, n)) (suc_add v)
      (rw (test_of_ne new_token "" ne))

handed_over :
    (now now' : Time) (new_token tenant_id agent_id agent_token : String) (version : ℕ)
    (agents : List Agent) (row : Agent)
    → IsKeyed agent_key agents
    → fetchone (is_agent tenant_id agent_id) agents ≡ some row
    → row.credential_revoked_at ≡ none
    → (row.status == "revoked") ≡ false
    → is_some (
        fetchone (has_credential agent_id agent_token) (
          update
            (is_agent tenant_id agent_id)
            (activate now' new_token version)
            (update (is_agent tenant_id agent_id) (schedule now new_token version) agents)))
      ≡ (new_token == agent_token)
handed_over now now' new_token tenant_id agent_id agent_token version agents row u at fresh status =
    let p = is_agent tenant_id agent_id in
    let f = schedule now new_token version in
    let g = activate now' new_token version in
    let test = fetchone_test p agents row at in
    let once = fetchone-update_at p p f agents row (λ a. refl) at test in
    let after = update p g (update p f agents) in
    let keyed =
      IsKeyed-update agent_key p g (update p f agents) (λ a. refl)
        (IsKeyed-update agent_key p f agents (λ a. refl) u) in
    fetchone_credential after agent_id agent_token (g (f row)) keyed (
      row_by_id after tenant_id agent_id (g (f row)) keyed
        (fetchone-update_at p p g (update p f agents) (f row) (λ a. refl) once test))
    ∙ ground (arith, test, fresh, status)

module _ (s1 s2 s3 : Store) (tenant_id agent_id new_token : String) where
  handover :
      (agents : List Agent) (now now' : Time) (draw' draw'' : Draw) (o : Option (String × ℕ))
      (agent_token : String) (found : Option Agent) (v : ℕ) (row : Agent)
      → IsKeyed agent_key agents
      → new_token ≢ ""
      → fetchone (is_agent tenant_id agent_id) agents ≡ some row
      → row.credential_revoked_at ≡ none
      → (row.status == "revoked") ≡ false
      → s1.agents ≡ update (is_agent tenant_id agent_id) (schedule now new_token (v + 1)) agents
      → activate_pending_agent_credential now' draw' tenant_id agent_id s1 ≡ ok (o, s2)
      → authenticate_agent draw'' agent_id agent_token s2 ≡ ok (found, s3)
      → (o ≡ some (new_token, v + 1)) × (is_some found ≡ (new_token == agent_token))
  handover agents now now' draw' draw'' o agent_token found v row u ne at fresh status e activated
        asked =
      let p = is_agent tenant_id agent_id in
      let found_in =
        λ (x : List Agent). is_some (fetchone (has_credential agent_id agent_token) x) in
      let once =
        fetchone-update_at p p (schedule now new_token (v + 1)) agents row (λ a. refl) at
          (fetchone_test p agents row at) in
      let pending =
        ap (λ x. pending_of (fetchone p x)) e
        ∙ ap pending_of once
        ∙ pending_of-schedule now new_token v row ne in
      elim (activate_tables draw' s1 s2 now' tenant_id agent_id o activated) [
        | inl (_, nothing, _) ↦ absurd (some-ne-none (new_token, v + 1) (sym pending ∙ nothing))
        | inr (token, version, given, was, after) ↦
            let pair = some-injective _ _ (sym was ∙ pending) in
            (
              given ∙ ap some pair,
              ap is_some (authenticate_tables draw'' s2 s3 agent_id agent_token found asked).0
                  ∙ ap found_in (
                      ap (λ (x : Store). x.agents) after
                      ∙ ap (λ (pair : String × ℕ). update p (activate now' pair.0 pair.1) s1.agents)
                          pair
                      ∙ ap (update p (activate now' new_token (v + 1))) e)
                  ∙ handed_over now now' new_token tenant_id agent_id agent_token (v + 1) agents row
                      u at fresh status,
            )
      ]

module _ (s s1 s2 s3 : Store) (tenant_id agent_id new_token : String) where
  -- When a rotation that was scheduled is activated next, and both calls succeed, the agent gets
  -- the new token and the version that the rotation announced, and an authentication right after
  -- that finds the agent with the new token and with no other, where the identifiers of agents are
  -- unique and the new token is not empty.
  pub rotation_hands_over :
      (now now' : Time) (draw draw' draw'' : Draw) (reason : Option String) (r : AgentRecord)
      (o : Option (String × ℕ)) (agent_token : String) (found : Option Agent)
      → IsKeyed agent_key s.agents
      → new_token ≢ ""
      → rotate_agent_credential now new_token draw tenant_id agent_id reason s ≡ ok (some r, s1)
      → activate_pending_agent_credential now' draw' tenant_id agent_id s1 ≡ ok (o, s2)
      → authenticate_agent draw'' agent_id agent_token s2 ≡ ok (found, s3)
      → (o ≡ some (new_token, r.credential_version)) × (is_some found ≡ (new_token == agent_token))
  rotation_hands_over now now' draw draw' draw'' reason r o agent_token found u ne rotated activated
        asked =
      elim (rotate_tables draw s s1 now new_token tenant_id agent_id reason (some r) rotated) [
        | inl (e, _) ↦ absurd (some-ne-none r e)
        | inr (row, at, fresh, status, e) ↦
            let (given, only) =
              handover s1 s2 s3 tenant_id agent_id new_token s.agents now now' draw' draw'' o
                agent_token found (version_or_one row.credential_version) row u ne at fresh status
                (ap (λ (x : Store). x.agents) e) activated asked in
            (
              given
                  ∙ ap (λ v. some (new_token, v))
                      (sym (
                        rotate_version draw s s1 now new_token tenant_id agent_id reason r row
                          rotated at)),
              only,
            )
      ]
