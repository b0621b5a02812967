-- ===== src/Api/Runtime/Production.antt =====
-- What a production deployment is sure of once the application is built (api/app.py).
use mathlib.Core.Path.{subst}
use shigure_edr.Base.{
  String, ◌≡◌, refl, sym, ap, ◌∙◌, Bool, false, not, Option, arith, contains, ◌==◌, eq_iff, ok, err,
  ◌>>◌, >>=-eq-ok, guard, value_error, ◌<>◌, Result,
}
use shigure_edr.Api.Runtime.{
  Environment, RuntimeArguments, Runtime, runtime_config, dev_admin_tokens, dev_enrollment_tokens,
  plain, is_blank, ControlStore, postgresql_store, TelemetryStore, clickhouse_store,
  store_for_runtime, telemetry_store_for_runtime, App, started, create_app, production_checks,
  resolved, profile_checks, raw_profile, profiles,
}

-- A configuration that the production checks let through.
pub record IsHardened (r : Runtime) : Type 0 where
  pub admin : contains dev_admin_tokens (plain r.admin_token) ≡ false
  pub enrollment : contains dev_enrollment_tokens (plain r.enrollment_token) ≡ false
  pub trust : is_blank r.server_trust ≡ false

hardened : (r : Runtime) → production_checks r ≡ ok tt → IsHardened r
unfolding production_checks
hardened r h = ground arith

in_production :
    (r : Runtime)
    → r.profile ≡ "production"
    → profile_checks r ≡ ok tt
    → production_checks r ≡ ok tt
in_production r production h = ground (arith, eq_iff r.profile "production")

passed {ℓ} :
    {A : Type ℓ} (l m k : Result (Unit {0})) (a : A) {r : A}
    → (l >> (m >> (k >> ok a))) ≡ ok r
    → (k ≡ ok tt) × (a ≡ r)
passed (ok u) (ok v) (ok w) a h = (refl, ground arith)
passed (ok u) (ok v) (err e) a h = cc
passed (ok u) (err e) k a h = cc
passed (err e) m k a h = cc

module _ (imported env : Environment) (args : RuntimeArguments) where
  mode_of :
      (profile : String) (r : Runtime)
      → resolved imported env args profile ≡ r
      → r.response_mode ≡ "read_only"
  unfolding resolved
  mode_of profile r same = sym (ap (λ (x : Runtime). x.response_mode) same)

  runtime_config_lem :
      (r : Runtime)
      → runtime_config imported env args ≡ ok r
      → (r.response_mode ≡ "read_only") × (r.profile ≡ "production" → production_checks r ≡ ok tt)
  unfolding runtime_config
  runtime_config_lem r h =
      let (checked, same) =
        passed (guard (not (raw_profile env args == "")) (value_error "profile_required"))
          (guard (contains profiles (plain (raw_profile env args)))
            (value_error ("invalid_profile:" <> plain (raw_profile env args))))
          (profile_checks (resolved imported env args (plain (raw_profile env args))))
          (resolved imported env args (plain (raw_profile env args))) h in
      (
        mode_of (plain (raw_profile env args)) r same,
        λ production.
            (in_production r production
              (subst (λ (x : Runtime). profile_checks x ≡ ok tt) same checked)),
      )

module _ (db_path : String) (r : Runtime) (production : r.profile ≡ "production") where
  store_lem :
      (store : ControlStore)
      → store_for_runtime db_path r ≡ ok store
      → (store ≡ postgresql_store r.postgres_dsn db_path) × (is_blank r.postgres_dsn ≡ false)
  unfolding store_for_runtime
  store_lem store h = ground (
    arith,
    eq_iff r.profile "production",
    eq_iff r.control_plane_store "sqlite",
    eq_iff r.control_plane_store "postgresql",
    eq_iff "sqlite" "postgresql",
  )

  telemetry_lem :
      (store : TelemetryStore)
      → telemetry_store_for_runtime r ≡ ok store
      → (store ≡ clickhouse_store r.clickhouse_dsn) × (is_blank r.clickhouse_dsn ≡ false)
  unfolding telemetry_store_for_runtime
  telemetry_lem store h = ground (
    arith,
    eq_iff r.profile "production",
    eq_iff r.telemetry_projection "sqlite",
    eq_iff r.telemetry_projection "clickhouse",
    eq_iff "sqlite" "clickhouse",
  )

module _ (db_path : String) (create_dev_token : Option Bool) where
  started_lem :
      (r : Runtime) (app : App)
      → started db_path create_dev_token r ≡ ok app
      → (r ≡ app.runtime)
        × (store_for_runtime db_path r ≡ ok app.store)
        × (telemetry_store_for_runtime r ≡ ok app.telemetry_store)
        × (r.profile ≡ "production" → app.dev_token ≡ false)
  started_lem r app h = (
    ground arith,
    ground arith,
    ground arith,
    λ production. ground (arith, eq_iff r.profile "production"),
  )

module _ (imported env : Environment) (args : RuntimeArguments) where
  -- An application that is built in production, with stores of its own, has an admin and an
  -- enrollment token that are no development defaults, a server trust, PostgreSQL and ClickHouse
  -- with their DSNs, and makes no development token; in every profile its tasks are under the
  -- read-only policy.
  pub create_app_lem :
      (db_path : String) (create_dev_token : Option Bool) (app : App)
      → create_app imported env db_path create_dev_token args ≡ ok app
      → (app.runtime.response_mode ≡ "read_only")
        × (app.runtime.profile ≡ "production"
            → IsHardened app.runtime
              × (app.store ≡ postgresql_store app.runtime.postgres_dsn db_path)
              × (is_blank app.runtime.postgres_dsn ≡ false)
              × (app.telemetry_store ≡ clickhouse_store app.runtime.clickhouse_dsn)
              × (is_blank app.runtime.clickhouse_dsn ≡ false)
              × (app.dev_token ≡ false))
  unfolding create_app
  create_app_lem db_path create_dev_token app h =
      let (r, configured, begun) =
        >>=-eq-ok (runtime_config imported env args) (started db_path create_dev_token) h in
      let (policy, checks) = runtime_config_lem imported env args r configured in
      let (same, stored, observed, dev) = started_lem db_path create_dev_token r app begun in
      let store = subst (λ (x : Runtime). store_for_runtime db_path x ≡ ok app.store) same stored in
      let telemetry =
        subst (λ (x : Runtime). telemetry_store_for_runtime x ≡ ok app.telemetry_store) same
          observed in
      let of =
        λ (p : app.runtime.profile ≡ "production"). ap (λ (x : Runtime). x.profile) same ∙ p in
      (
        sym (ap (λ (x : Runtime). x.response_mode) same) ∙ policy,
        λ p. (
          hardened app.runtime
              (subst (λ (x : Runtime). production_checks x ≡ ok tt) same (checks (of p))),
          (store_lem db_path app.runtime p app.store store).0,
          (store_lem db_path app.runtime p app.store store).1,
          (telemetry_lem db_path app.runtime p app.telemetry_store telemetry).0,
          (telemetry_lem db_path app.runtime p app.telemetry_store telemetry).1,
          dev (of p),
        ),
      )
