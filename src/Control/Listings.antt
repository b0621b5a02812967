-- ===== src/Control/Listings.antt =====
-- The lists and counts that the console shows (api/store.py, list_enrollment_tokens,
-- list_agent_credential_events, list_agents, tenant_summary, list_cases).
use shigure_edr.Base.{
  ℕ, String, ◌<>◌, Bool, true, ◌&&◌, Option, List, [], ◌∷◌, ◌==◌, ◌+◌, if◌then◌else◌, is_text,
  or_default, map, length,
}
use shigure_edr.Base.Int.{ℤ}
use shigure_edr.Base.Table.{select}
use shigure_edr.Base.Sort.{ascending, descending, limit, sort_by, text_le}
use shigure_edr.Base.Dict
use shigure_edr.Base.Dict.{Dict}
use shigure_edr.Events.{Time}
use shigure_edr.Control.Schema.{
  Agent, AlertRow, Case, CredentialEvent, EnrollmentToken, EventRow, RawEvidence, Store, Task,
}
use shigure_edr.Control.Enrollment.{prefix_of}
use shigure_edr.Control.Credentials.{AgentRecord, agent_record}

-- A token as it is shown: its first six characters.
pub record TokenItem : Type 0 where
  pub tenant_id : String
  pub token_prefix : String
  pub expires_at : Option Time
  pub max_uses : Option ℤ
  pub uses : ℕ
  pub revoked : Bool
  pub created_at : Time

abbrev token_item : EnrollmentToken → TokenItem
token_item t = record {
  tenant_id = t.tenant_id;
  token_prefix = prefix_of 6 t.token <> "...";
  expires_at = t.expires_at;
  max_uses = t.max_uses;
  uses = t.uses;
  revoked = t.revoked;
  created_at = t.created_at;
}

unfoldable pub list_enrollment_tokens : String → Store → List TokenItem
unfolding select sort_by
list_enrollment_tokens tenant_id s = map token_item (
    descending (λ (t : EnrollmentToken). t.created_at)
      (select (λ (t : EnrollmentToken). t.tenant_id == tenant_id) s.enrollment_tokens))

unfoldable pub list_agent_credential_events : String → String → Store → List CredentialEvent
unfolding select sort_by
list_agent_credential_events tenant_id agent_id s =
    ascending (λ (e : CredentialEvent). e.created_at)
      (select (λ (e : CredentialEvent). e.tenant_id == tenant_id && e.agent_id == agent_id)
        s.agent_credential_events)

-- `if value: q += " and column=?"`
abbrev given : Option String → String → Bool
given value column = if is_text value then column == or_default value "" else true

abbrev is_listed : String → Option String → Agent → Bool
is_listed tenant_id status a = a.tenant_id == tenant_id && given status a.status

unfoldable pub list_agents : String → Option String → Store → List AgentRecord
unfolding select sort_by agent_record
list_agents tenant_id status s = map agent_record (
    sort_by (λ (a b : Agent). text_le a.host b.host) (select (is_listed tenant_id status) s.agents))

abbrev assignee_is : Option String → Option String → Bool
assignee_is wanted assignee =
    if is_text wanted
    then is_text assignee && or_default assignee "" == or_default wanted ""
    else true

abbrev is_wanted : String → Option String → Option String → Option String → Case → Bool
is_wanted tenant_id status severity assignee c =
    c.tenant_id == tenant_id
    && given status c.status
    && given severity c.severity
    && assignee_is assignee c.assignee

unfoldable pub list_cases :
    String → Option String → Option String → Option String → ℤ → Store → List Case
unfolding select sort_by
list_cases tenant_id status severity assignee n s = limit n (
    descending (λ (c : Case). c.updated_at)
      (select (is_wanted tenant_id status severity assignee) s.cases))

-- How often each text occurs.
unfoldable pub tally : List String → Dict ℕ
unfolding Dict.get Dict.put
tally [] = []
tally (k ∷ ks) = let counts = tally ks in Dict.put k (or_default (Dict.get k counts) 0 + 1) counts

pub record TenantSummary : Type 0 where
  pub tenant_id : String
  pub agents : ℕ
  pub events : ℕ
  pub alerts : ℕ
  pub cases : ℕ
  pub tasks : ℕ
  pub raw_evidence : ℕ
  pub agent_status : Dict ℕ
  pub task_status : Dict ℕ
  pub case_status : Dict ℕ
  pub alert_severity : Dict ℕ

unfoldable pub tenant_summary : String → Store → TenantSummary
unfolding select tally
tenant_summary tenant_id s =
    let agents = select (λ (a : Agent). a.tenant_id == tenant_id) s.agents in
    let tasks = select (λ (t : Task). t.tenant_id == tenant_id) s.tasks in
    let cases = select (λ (c : Case). c.tenant_id == tenant_id) s.cases in
    let alerts = select (λ (a : AlertRow). a.tenant_id == tenant_id) s.alerts in
    record {
      tenant_id = tenant_id;
      agents = length agents;
      events = length (select (λ (e : EventRow). e.tenant_id == tenant_id) s.events);
      alerts = length alerts;
      cases = length cases;
      tasks = length tasks;
      raw_evidence = length (select (λ (r : RawEvidence). r.tenant_id == tenant_id) s.raw_evidence);
      agent_status = tally (map (λ (a : Agent). a.status) agents);
      task_status = tally (map (λ (t : Task). t.status) tasks);
      case_status = tally (map (λ (c : Case). c.status) cases);
      alert_severity = tally (map (λ (a : AlertRow). a.severity) alerts);
    }
