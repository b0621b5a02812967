-- ===== src/Api/Auth.antt =====
-- Who may call the application (api/app.py, _make_admin_auth and _make_agent_auth).
use Prim.Native.Char.{Char}
use Prim.Native.String.{◌∷◌}
use text.Mathlib.TextLemmas.{cons-append, nil-append}
use shigure_edr.Base.{
  String, ◌<>◌, ◌≡◌, refl, ◌↔◌, Bool, false, Option, none, some, arith, ◌==◌, if◌then◌else◌,
  is_some, Result, ok, err, http_exception, ◌>>=◌, guard, Option-cases, inl, inr,
}
use shigure_edr.Text.{lower, drop_prefix, after_marker}
use shigure_edr.Control.Schema.{Draw, Agent, Store}
use shigure_edr.Control.Credentials.{authenticate_agent}
use shigure_edr.Api.Runtime.{Runtime}

-- `authorization.split(" ", 1)[1]` where the header is there and starts with "bearer " in any case.
unfoldable pub bearer_token : Option String → Option String
unfolding lower drop_prefix after_marker
bearer_token none = none
bearer_token (some authorization) =
    if is_some (drop_prefix "bearer " (lower authorization))
    then after_marker " " authorization
    else none

-- The token of the request: a bearer token goes before the header `X-Admin-Token`.
abbrev pub supplied : Option String → Option String → Option String
supplied authorization x_admin_token = elim (bearer_token authorization) [
  | none ↦ x_admin_token
  | some token ↦ some token
]

abbrev pub is_token : Option String → String → Bool
is_token none expected = false
is_token (some token) expected = token == expected

unfoldable pub admin_auth : Runtime → Option String → Option String → Result (Unit {0})
unfolding bearer_token
admin_auth r authorization x_admin_token =
    guard (is_token (supplied authorization x_admin_token) r.admin_token)
      (http_exception 401 "invalid admin token")

abbrev authenticated_or_401 : Option Agent × Store → Result (Agent × Store)
authenticated_or_401 (none, s) = err (http_exception 401 "invalid agent credential")
authenticated_or_401 (some agent, s) = ok (agent, s)

abbrev with_token : Draw → String → Store → Option String → Result (Agent × Store)
with_token draw agent_id s none = err (http_exception 401 "missing bearer token")
with_token draw agent_id s (some token) =
    authenticate_agent draw agent_id token s >>= authenticated_or_401

unfoldable pub agent_auth : Draw → String → Option String → Store → Result (Agent × Store)
unfolding bearer_token authenticate_agent
agent_auth draw agent_id authorization s = with_token draw agent_id s (bearer_token authorization)

spelled : (t : String) → "Bearer " <> t ≡ "B" ∷ ("e" ∷ ("a" ∷ ("r" ∷ ("e" ∷ ("r" ∷ (" " ∷ t))))))
spelled t =
    rw
      (
        cons-append "B" "earer " t,
        cons-append "e" "arer " t,
        cons-append "a" "rer " t,
        cons-append "r" "er " t,
        cons-append "e" "r " t,
        cons-append "r" " " t,
        cons-append " " "" t,
        nil-append t,
      )
      refl

-- A header "Bearer t" gives the token t, whatever text t is.
pub bearer_token_lem : (t : String) → bearer_token (some ("Bearer " <> t)) ≡ some t
unfolding bearer_token lower drop_prefix after_marker
bearer_token_lem t = rw (spelled t) refl

authenticated_or_401-ok :
    (m : Result (Option Agent × Store)) (agent : Agent) (s' : Store)
    → (m >>= authenticated_or_401) ≡ ok (agent, s')
    → m ≡ ok (some agent, s')
authenticated_or_401-ok (ok (none, s)) agent s' h = cc
authenticated_or_401-ok (ok (some a, s)) agent s' h = ground arith
authenticated_or_401-ok (err e) agent s' h = cc

module _ (draw : Draw) (agent_id : String) (authorization : Option String) (s s' : Store) where
  -- A request of an agent passes exactly when its bearer token authenticates the agent of the path.
  pub agent_auth_iff :
      (agent : Agent)
      → (agent_auth draw agent_id authorization s ≡ ok (agent, s')) ↔ (
          (token : String) × (bearer_token authorization ≡ some token)
          × (authenticate_agent draw agent_id token s ≡ ok (some agent, s')))
  unfolding agent_auth
  agent_auth_iff agent = (
    λ h. elim (Option-cases (bearer_token authorization)) [
      | inl e ↦ absurd (ground arith)
      | inr (token, e) ↦ (
        token,
        e,
        authenticated_or_401-ok (authenticate_agent draw agent_id token s) agent s' (rw e at h),
      )
    ],
    λ (token, e, h). rw (e, h) refl,
  )
