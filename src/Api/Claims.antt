-- ===== src/Api/Claims.antt =====
-- What a request for tasks is given (api/app.py, claim_tasks with _make_agent_auth).
use mathlib.Core.Path.{subst}
use shigure_edr.Base.{
  String, ◌≡◌, sym, ap, ◌∙◌, Option, some, List, arith, eq_iff, In, ok, >>=-eq-ok, ok_injective,
  or_default,
}
use shigure_edr.Base.Int.{ℤ, pos}
use shigure_edr.Base.Table.{fetchone_test, In-fetchone}
use shigure_edr.Control.Schema.{Time, Draw, Agent, Task, Store}
use shigure_edr.Control.Credentials.{has_credential}
use shigure_edr.Control.Credentials.Effects.{authenticate_tables}
use shigure_edr.Control.Tasks.{claim}
use shigure_edr.Control.Tasks.Queue.{claimed_was_queued}
use shigure_edr.Api.Auth.{agent_auth, agent_auth_iff}
use shigure_edr.Api.AgentRoutes.{claim_request}

module _ (draw : Draw) (agent_id : String) (authorization : Option String) (s s' : Store) where
  -- The agent that a request authenticates is a row under the identifier of the path, and the
  -- tasks are as they were.
  pub agent_auth_tables :
      (agent : Agent)
      → agent_auth draw agent_id authorization s ≡ ok (agent, s')
      → In agent s.agents × (agent.agent_id ≡ agent_id) × (s'.tasks ≡ s.tasks)
  agent_auth_tables agent h =
      let (token, _, given) = (agent_auth_iff draw agent_id authorization s s' agent).0 h in
      let (found, after) = authenticate_tables draw s s' agent_id token (some agent) given in
      (
        In-fetchone (has_credential agent_id token) s.agents (sym found),
        (eq_iff agent.agent_id agent_id).0 (
            ground
              (arith, fetchone_test (has_credential agent_id token) s.agents agent (sym found))),
        ap (λ (x : Store). x.tasks) after,
      )

module _ (now : Time) (draw : Draw) (agent_id : String) (authorization : Option String)
    (max_tasks : Option ℤ) (s s' : Store) where
  -- A request for tasks gets none but tasks that were queued for the agent that its path names, in
  -- the tenant of that agent's row, and each is marked as claimed.
  pub claim_request_lem :
      (tasks : List Task) (t : Task)
      → claim_request now draw agent_id authorization max_tasks s ≡ ok (tasks, s')
      → In t tasks
      → (agent : Agent) × (row : Task) × In agent s.agents
        × (agent.agent_id ≡ agent_id)
        × In row s.tasks
        × (row.agent_id ≡ agent_id)
        × (row.tenant_id ≡ agent.tenant_id)
        × (row.status ≡ "queued")
        × (t ≡ claim now row)
  unfolding claim_request
  claim_request_lem tasks t h m =
      let ((agent, s1), authed, given) = >>=-eq-ok (agent_auth draw agent_id authorization s) _ h in
      let (inside, id, same) = agent_auth_tables draw agent_id authorization s s1 agent authed in
      let (row, listed, tenant, owner, status, e) =
        claimed_was_queued now agent.tenant_id agent.agent_id (or_default max_tasks (pos 1)) s1 t
          (subst (In t) (sym (ap (λ (x : List Task × Store). x.0) (ok_injective given))) m) in
      (agent, row, inside, id, subst (In row) same listed, owner ∙ id, tenant, status, e)
