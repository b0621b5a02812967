-- ===== src/Control/Enrollment/Limits.antt =====
-- When an enrollment is let through, and how often (api/store.py, enroll_agent and
-- create_enrollment_token).
use shigure_edr.Base.{
  All-In, String, ◌≡◌, refl, ap, ◌∙◌, true, none, some, List, [], ◌∷◌, ◌++◌, arith, eq_iff,
  Option-cases, inl, inr, ok,
}
use shigure_edr.Base.Table.{
  fetchone, has_key, fetchone-append, fetchone_absent, In-fetchone, fetchone-update_at,
  fetchone_test,
}
use shigure_edr.Control.Schema.{Time, Draw, EnrollmentToken, Agent, Store}
use shigure_edr.Control.Enrollment.{
  token_key, agent_key, use_once, EnrollmentRequest, Enrolled, enroll_agent, new_agent,
}
use shigure_edr.Control.Credentials.{has_credential}
use shigure_edr.Control.Credentials.Effects.{enroll_tables}
use shigure_edr.Control.Enrollment.Uses.{
  IsUsable, IsUsable-iff, within, IsWithinLimit, TokenRun, IsLimited, TokenRun-IsLimited,
  enrollments, enrollments-AreCounted, within-fewer,
}

-- However tokens are made, revoked and used, no more agents enroll with a token, since it was last
-- made, than its limit allows (a negative limit allows none), and its row never counts more uses
-- than that; from tables in which the latter holds and tokens are unique.
pub uses_within_limit :
    {s s' : Store} (run : TokenRun s s')
    → IsLimited s
    → IsLimited s'
      × ((k : String) (t : EnrollmentToken)
          → fetchone (has_key token_key k) s'.enrollment_tokens ≡ some t
          → within (enrollments k run) t.max_uses ≡ true)
uses_within_limit {s' = s'} run h =
    let (u, g) = TokenRun-IsLimited run h in
    (
      (u, g),
      λ k t found.
          within-fewer (enrollments k run) t.uses t.max_uses (enrollments-AreCounted k run t found)
            (All-In IsWithinLimit s'.enrollment_tokens g
              (In-fetchone (has_key token_key k) s'.enrollment_tokens found)),
    )

module _ (now : Time) (agent_id agent_token : String) (draw : Draw) (req : EnrollmentRequest)
    (s s' : Store) where
  no_credential :
      (agents : List Agent)
      → fetchone (has_key agent_key agent_id) agents ≡ none
      → fetchone (has_credential agent_id agent_token) agents ≡ none
  no_credential agents h =
      elim (Option-cases (fetchone (has_credential agent_id agent_token) agents)) [
        | inl e ↦ e
        | inr (a, e) ↦
            let out =
              fetchone_absent (has_key agent_key agent_id) agents a h
                (In-fetchone (has_credential agent_id agent_token) agents e) in
            absurd
              (ground (arith, out, fetchone_test (has_credential agent_id agent_token) agents a e))
      ]

  joined :
      (agents : List Agent) (tenant_id : String)
      → fetchone (has_key agent_key agent_id) agents ≡ none
      → fetchone
          (has_credential agent_id agent_token)
          (agents ++ new_agent now agent_id agent_token tenant_id req ∷ [])
        ≡ some (new_agent now agent_id agent_token tenant_id req)
  joined agents tenant_id h = ground (
    arith,
    fetchone-append (has_credential agent_id agent_token)
        (new_agent now agent_id agent_token tenant_id req) agents,
    no_credential agents h,
    eq_iff agent_id agent_id,
    eq_iff agent_token agent_token,
    eq_iff "online" "revoked",
  )

  -- An enrollment that succeeds had a token that is neither revoked, nor expired, nor used up; it
  -- counts the use, and the new agent is the one that its credential finds.
  pub enroll_agent_lem :
      (r : Enrolled)
      → enroll_agent now agent_id agent_token draw req s ≡ ok (r, s')
      → (t : EnrollmentToken) × (fetchone
            (has_key token_key req.enrollment_token)
            s.enrollment_tokens
          ≡ some t)
        × IsUsable now t
        × (fetchone (has_key token_key req.enrollment_token) s'.enrollment_tokens
            ≡ some (use_once t))
        × (fetchone (has_credential r.agent_id r.agent_token) s'.agents
            ≡ some (new_agent now agent_id agent_token t.tenant_id req))
  enroll_agent_lem r h =
      let (t, found, usable, fresh, answer, e) =
        enroll_tables draw s s' now agent_id agent_token req r h in
      let key = has_key token_key req.enrollment_token in
      (
        t,
        found,
        (IsUsable-iff now t).0 usable,
        ap (λ (x : Store). fetchone key x.enrollment_tokens) e
            ∙ fetchone-update_at key key use_once s.enrollment_tokens t (λ x. refl) found
                (fetchone_test key s.enrollment_tokens t found),
        ap (λ (x : Enrolled). fetchone (has_credential x.agent_id x.agent_token) s'.agents) answer
            ∙ ap (λ (x : Store). fetchone (has_credential agent_id agent_token) x.agents) e
            ∙ joined s.agents t.tenant_id fresh,
      )
