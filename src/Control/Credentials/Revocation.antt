-- ===== src/Control/Credentials/Revocation.antt =====
-- Revoked agents, over every operation on the table of agents (api/store.py).
use mathlib.Core.Path.{subst}
use mathlib.Core.Option.{some-ne-none}
use shigure_edr.Base.{
  ℕ, ◌+◌, String, ◌≡◌, refl, sym, ap, ◌∙◌, Bool, true, false, Option, none, some, List, [], ◌∷◌,
  ◌++◌, arith, ok, eq_iff, if◌then◌else◌, is_some, inl, inr, Option-cases,
}
use shigure_edr.Base.Table.{
  fetchone, update, has_key, fetchone-append, fetchone-update, fetchone_test, In-fetchone,
}
use shigure_edr.Base.Keys.{IsKeyed, IsKeyed-In, IsKeyed-update, IsKeyed-append, fetchone-key}
use shigure_edr.Control.Schema.{Time, Draw, Agent, Store}
use shigure_edr.Control.Enrollment.{agent_key, EnrollmentRequest, Enrolled, new_agent, enroll_agent}
use shigure_edr.Control.Credentials.{
  AgentRecord, is_agent, has_credential, authenticate_agent, revoke, revoke_agent_credential,
  schedule, rotate_agent_credential, activate, activate_pending_agent_credential, version_or_one,
}
use shigure_edr.Control.Credentials.Heartbeats.{
  with_agent_id, HeartbeatRequest, beat, update_heartbeat, go_offline, offline_each,
  mark_agents_offline,
}
use shigure_edr.Control.Credentials.Effects.{
  authenticate_tables, revoke_tables, rotate_tables, activate_tables, enroll_tables,
}

-- One operation on the agents, by any caller.
pub data AgentStep (s : Store) : Store → Type 0 where
  enrolled :
      {s' : Store} (now : Time) (agent_id agent_token : String) (draw : Draw)
      (req : EnrollmentRequest) (r : Enrolled)
      → enroll_agent now agent_id agent_token draw req s ≡ ok (r, s')
      → AgentStep s s'
  authenticated :
      {s' : Store} (draw : Draw) (agent_id agent_token : String) (o : Option Agent)
      → authenticate_agent draw agent_id agent_token s ≡ ok (o, s')
      → AgentStep s s'
  revoked :
      {s' : Store} (now : Time) (draw : Draw) (tenant_id agent_id : String) (reason : Option String)
      (o : Option AgentRecord)
      → revoke_agent_credential now draw tenant_id agent_id reason s ≡ ok (o, s')
      → AgentStep s s'
  rotated :
      {s' : Store} (now : Time) (new_token : String) (draw : Draw) (tenant_id agent_id : String)
      (reason : Option String) (o : Option AgentRecord)
      → rotate_agent_credential now new_token draw tenant_id agent_id reason s ≡ ok (o, s')
      → AgentStep s s'
  activated :
      {s' : Store} (now : Time) (draw : Draw) (tenant_id agent_id : String)
      (o : Option (String × ℕ))
      → activate_pending_agent_credential now draw tenant_id agent_id s ≡ ok (o, s')
      → AgentStep s s'
  heartbeat :
      (now : Time) (agent_id : String) (req : HeartbeatRequest)
      → AgentStep s (update_heartbeat now agent_id req s)
  offline : (agent_ids : List String) → AgentStep s (mark_agents_offline agent_ids s).1

-- An update of agents that neither renames one nor lifts a revocation.
pub record KeepsRevoked (f : Agent → Agent) : Type 0 where
  pub id : (a : Agent) → (f a).agent_id ≡ a.agent_id
  pub held :
      (a : Agent)
      → is_some a.credential_revoked_at ≡ true
      → is_some (f a).credential_revoked_at ≡ true

pub data AgentChange (agents : List Agent) : List Agent → Type 0 where
  same : AgentChange agents agents
  updated :
      {between : List Agent} (p : Agent → Bool) (f : Agent → Agent)
      → KeepsRevoked f
      → AgentChange agents between
      → AgentChange agents (update p f between)
  joined :
      (a : Agent)
      → fetchone (has_key agent_key a.agent_id) agents ≡ none
      → AgentChange agents (agents ++ a ∷ [])

offline_each-change :
    (ids : List String) {agents between : List Agent}
    → AgentChange agents between
    → AgentChange agents (offline_each ids between)
unfolding offline_each
offline_each-change [] c = c
offline_each-change (id ∷ ids) c =
    offline_each-change ids
      (updated (with_agent_id id) go_offline (record { id = λ a. refl; held = λ a h. h }) c)

change_by :
    (s s' t : Store) → s' ≡ t → AgentChange s.agents t.agents → AgentChange s.agents s'.agents
change_by s s' t e c = subst (λ (x : Store). AgentChange s.agents x.agents) (sym e) c

module _ (s : Store) where
  AgentStep-change : {s' : Store} → AgentStep s s' → AgentChange s.agents s'.agents
  unfolding update_heartbeat mark_agents_offline
  AgentStep-change (enrolled {s' = s'} now agent_id agent_token draw req r h) =
      let (t, _, _, fresh, _, e) = enroll_tables draw s s' now agent_id agent_token req r h in
      change_by s s' _ e (joined (new_agent now agent_id agent_token t.tenant_id req) fresh)
  AgentStep-change (authenticated {s' = s'} draw agent_id agent_token o h) =
      change_by s s' _ (authenticate_tables draw s s' agent_id agent_token o h).1 same
  AgentStep-change (revoked {s' = s'} now draw tenant_id agent_id reason o h) =
      elim (revoke_tables draw s s' now tenant_id agent_id reason o h) [
        | inl (_, e) ↦ change_by s s' s e same
        | inr (row, _, e) ↦ change_by s s' _ e (
            updated (is_agent tenant_id agent_id) (revoke now)
              (record { id = λ a. refl; held = λ a h. refl }) same)
      ]
  AgentStep-change (rotated {s' = s'} now new_token draw tenant_id agent_id reason o h) =
      elim (rotate_tables draw s s' now new_token tenant_id agent_id reason o h) [
        | inl (_, e) ↦ change_by s s' s e same
        | inr (row, _, _, _, e) ↦ change_by s s' _ e (
            updated (is_agent tenant_id agent_id)
              (schedule now new_token (version_or_one row.credential_version + 1))
              (record { id = λ a. refl; held = λ a h. h }) same)
      ]
  AgentStep-change (activated {s' = s'} now draw tenant_id agent_id o h) =
      elim (activate_tables draw s s' now tenant_id agent_id o h) [
        | inl (_, _, e) ↦ change_by s s' s e same
        | inr (token, version, _, _, e) ↦ change_by s s' _ e (
            updated (is_agent tenant_id agent_id) (activate now token version)
              (record { id = λ a. refl; held = λ a h. h }) same)
      ]
  AgentStep-change (heartbeat now agent_id req) =
      updated (with_agent_id agent_id) (beat now req) (record { id = λ a. refl; held = λ a h. h })
        same
  AgentStep-change (offline agent_ids) = offline_each-change agent_ids same

-- Operations one after the other.
pub data AgentRun (s : Store) : Store → Type 0 where
  start : AgentRun s s
  next : {t u : Store} → AgentRun s t → AgentStep t u → AgentRun s u

abbrev IsRevoked : List Agent → String → Type 0
IsRevoked agents agent_id =
    (row : Agent) × (fetchone (with_agent_id agent_id) agents ≡ some row)
    × (is_some row.credential_revoked_at ≡ true)

held_if :
    (b : Bool) (f : Agent → Agent) (a : Agent)
    → KeepsRevoked f
    → is_some a.credential_revoked_at ≡ true
    → is_some (if b then f a else a).credential_revoked_at ≡ true
held_if true f a k h = k.held a h
held_if false f a k h = h

module _ {agents : List Agent} where
  AgentChange-IsKeyed :
      {after : List Agent}
      → AgentChange agents after
      → IsKeyed agent_key agents
      → IsKeyed agent_key after
  AgentChange-IsKeyed same u = u
  AgentChange-IsKeyed (updated {between = between} p f k c) u =
      IsKeyed-update agent_key p f between k.id (AgentChange-IsKeyed c u)
  AgentChange-IsKeyed (joined a fresh) u = IsKeyed-append agent_key a agents fresh u

  IsRevoked-change :
      {after : List Agent} (agent_id : String)
      → AgentChange agents after
      → IsRevoked agents agent_id
      → IsRevoked after agent_id
  IsRevoked-change agent_id same h = h
  IsRevoked-change agent_id (updated {between = between} p f k c) h =
      let (row, found, held) = IsRevoked-change agent_id c h in
      (
        if p row then f row else row,
        fetchone-update (with_agent_id agent_id) p f between (λ a. rw k.id) ∙ rw found,
        held_if (p row) f row k held,
      )
  IsRevoked-change agent_id (joined a fresh) (row, found, held) =
      (row, rw (fetchone-append, found), held)

-- A revoked agent is refused, whatever token it shows.
has_credential_of_IsRevoked :
    (agents : List Agent) (agent_id agent_token : String)
    → IsKeyed agent_key agents
    → IsRevoked agents agent_id
    → fetchone (has_credential agent_id agent_token) agents ≡ none
has_credential_of_IsRevoked agents agent_id agent_token u (row, found, held) =
    elim (Option-cases (fetchone (has_credential agent_id agent_token) agents)) [
      | inl e ↦ e
      | inr (a, e) ↦
          let test = fetchone_test (has_credential agent_id agent_token) agents a e in
          let one =
            IsKeyed-In agent_key agents a row u
              (In-fetchone (has_credential agent_id agent_token) agents e)
              (In-fetchone (with_agent_id agent_id) agents found)
              (ground (
                arith,
                test,
                fetchone_test (with_agent_id agent_id) agents row found,
                eq_iff row.agent_id agent_id,
                eq_iff a.agent_id agent_id,
              )) in
          absurd (ground (arith, test, held, ap (λ (x : Agent). x.credential_revoked_at) one))
    ]

IsRevoked-revoke :
    (now : Time) (tenant_id agent_id : String) (agents : List Agent) (row : Agent)
    → IsKeyed agent_key agents
    → fetchone (is_agent tenant_id agent_id) agents ≡ some row
    → IsRevoked (update (is_agent tenant_id agent_id) (revoke now) agents) agent_id
IsRevoked-revoke now tenant_id agent_id agents row u found =
    let test = fetchone_test (is_agent tenant_id agent_id) agents row found in
    let inside = In-fetchone (is_agent tenant_id agent_id) agents found in
    let id = (eq_iff row.agent_id agent_id).0 (ground (arith, test)) in
    (
      revoke now row,
      rw (
        fetchone-update (with_agent_id agent_id) (is_agent tenant_id agent_id) (revoke now) agents
            (λ a. refl),
        fetchone-key agent_key agents row agent_id u inside id,
        test,
      ),
      refl,
    )

AgentRun-keeps :
    {s t : Store} (agent_id : String)
    → AgentRun s t
    → IsKeyed agent_key s.agents
    → IsRevoked s.agents agent_id
    → IsKeyed agent_key t.agents × IsRevoked t.agents agent_id
AgentRun-keeps agent_id start u h = (u, h)
AgentRun-keeps agent_id (next {t = t} run step) u h =
    let (keyed, held) = AgentRun-keeps agent_id run u h in
    let change = AgentStep-change t step in
    (AgentChange-IsKeyed change keyed, IsRevoked-change agent_id change held)

module _ (s s1 : Store) where
  IsRevoked-state :
      (now : Time) (draw : Draw) (tenant_id agent_id : String) (reason : Option String)
      (r : AgentRecord)
      → IsKeyed agent_key s.agents
      → revoke_agent_credential now draw tenant_id agent_id reason s ≡ ok (some r, s1)
      → IsRevoked s1.agents agent_id × IsKeyed agent_key s1.agents
  IsRevoked-state now draw tenant_id agent_id reason r u given =
      elim (revoke_tables draw s s1 now tenant_id agent_id reason (some r) given) [
        | inl (e, _) ↦ absurd (some-ne-none r e)
        | inr (row, found, e) ↦ (
          subst (λ (x : Store). IsRevoked x.agents agent_id) (sym e)
              (IsRevoked-revoke now tenant_id agent_id s.agents row u found),
          AgentChange-IsKeyed
              (AgentStep-change s (revoked now draw tenant_id agent_id reason (some r) given)) u,
        )
      ]

-- Where no row has the credential, nothing is written.
refused :
    (draw : Draw) (agent_id agent_token : String) (s : Store)
    → fetchone (has_credential agent_id agent_token) s.agents ≡ none
    → authenticate_agent draw agent_id agent_token s ≡ ok (none, s)
unfolding authenticate_agent
refused draw agent_id agent_token s h = rw h

module _ (s s1 s2 : Store) (now : Time) (tenant_id agent_id : String) (reason : Option String) where
  -- Once an agent's credential is revoked, no enrollments, authentications, revocations,
  -- rotations, activations, heartbeats and offline marks let it authenticate again: any token is
  -- refused, and nothing is recorded, where the identifiers of agents are unique.
  pub revocation_is_permanent :
      (draw draw' : Draw) (r : AgentRecord) (agent_token : String)
      → IsKeyed agent_key s.agents
      → revoke_agent_credential now draw tenant_id agent_id reason s ≡ ok (some r, s1)
      → AgentRun s1 s2
      → authenticate_agent draw' agent_id agent_token s2 ≡ ok (none, s2)
  revocation_is_permanent draw draw' r agent_token u given run =
      let (held, keyed) = IsRevoked-state s s1 now draw tenant_id agent_id reason r u given in
      let later = AgentRun-keeps agent_id run keyed held in
      refused draw' agent_id agent_token s2
        (has_credential_of_IsRevoked s2.agents agent_id agent_token later.0 later.1)
