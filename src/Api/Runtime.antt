-- ===== src/Api/Runtime.antt =====
-- The configuration of the application and the stores it picks (api/app.py, _runtime_config to
-- _task_policy_block, and the start of create_app).
pub mod Production
use shigure_edr.Base.{
  String, ◌<>◌, Bool, true, false, not, ◌&&◌, ◌||◌, Option, none, some, List, [], ◌∷◌, contains,
  ◌==◌, if◌then◌else◌, or_default,
}
use shigure_edr.Base.{Result, ok, err, value_error, http_exception, ◌>>=◌, ◌>>◌, guard}
use shigure_edr.Base.Dict.{Dict}
use shigure_edr.Json.{Json}
use shigure_edr.Text.{lower, strip}
use shigure_edr.Catalog.{catalog_for_response_mode, read_only_policy_block}

-- `os.environ.get(name)`
abbrev pub Environment : Type 0
Environment = String → Option String

-- The keyword arguments of `create_app` that the configuration reads.
pub record RuntimeArguments : Type 0 where
  pub profile : Option String
  pub admin_token : Option String
  pub enrollment_token : Option String
  pub server_trust : Option String

pub record Runtime : Type 0 where
  pub profile : String
  pub response_mode : String
  pub admin_token : String
  pub enrollment_token : String
  pub server_trust : String
  pub control_plane_store : String
  pub postgres_dsn : String
  pub telemetry_projection : String
  pub clickhouse_dsn : String

abbrev pub profiles : List String
profiles = "dev" ∷ "demo" ∷ "production" ∷ []

abbrev pub dev_admin_tokens : List String
dev_admin_tokens = "" ∷ "dev-admin-token" ∷ "admin" ∷ "changeme" ∷ "change-me" ∷ []

abbrev pub dev_enrollment_tokens : List String
dev_enrollment_tokens = "" ∷ "dev-token" ∷ "enroll-token" ∷ "changeme" ∷ "change-me" ∷ []

-- `a or b` of a text that may be `None`.
abbrev or_text : Option String → String → String
or_text none b = b
or_text (some a) b = if a == "" then b else a

-- `a if a is not None else env.get(name, default)`
abbrev given_or : Option String → Option String → String → String
given_or (some a) read default = a
given_or none read default = or_default read default

-- `strip().lower()`
abbrev pub plain : String → String
plain s = lower (strip s)

abbrev pub is_blank : String → Bool
is_blank s = strip s == ""

-- The name of a store: what the environment says, or the one of the profile.
abbrev chosen : String → Bool → String → String → String
chosen configured production at_production otherwise =
    if configured == "" then if production then at_production else otherwise else configured

-- The checks of the profile "production".
unfoldable pub production_checks : Runtime → Result (Unit {0})
production_checks r = do
  guard (not (contains dev_admin_tokens (plain r.admin_token)))
      (value_error "production_admin_token_rejected")
  guard (not (contains dev_enrollment_tokens (plain r.enrollment_token)))
      (value_error "production_enrollment_token_rejected")
  guard (not (is_blank r.server_trust)) (value_error "production_server_trust_required")

-- The dict that is returned. `imported` is the environment when the module was loaded, which the
-- `DEFAULT_` constants read.
unfoldable pub resolved : Environment → Environment → RuntimeArguments → String → Runtime
unfolding lower strip
resolved imported env args profile =
    let default_admin_token = or_default (imported "OPEN_EDR_MDR_ADMIN_TOKEN") "dev-admin-token" in
    let default_dev_token = or_default (imported "OPEN_EDR_MDR_DEV_ENROLLMENT_TOKEN") "dev-token" in
    let read = λ (name : String). or_default (env name) (or_text (imported name) "") in
    let production = profile == "production" in
    record {
      profile = profile;
      response_mode = "read_only";
      admin_token = given_or args.admin_token (env "OPEN_EDR_MDR_ADMIN_TOKEN") default_admin_token;
      enrollment_token =
          given_or args.enrollment_token (env "OPEN_EDR_MDR_DEV_ENROLLMENT_TOKEN")
            default_dev_token;
      server_trust = or_default args.server_trust (read "OPEN_EDR_MDR_SERVER_TRUST");
      control_plane_store =
          chosen (plain (read "OPEN_EDR_MDR_CONTROL_PLANE_STORE")) production "postgresql" "sqlite";
      postgres_dsn = read "OPEN_EDR_MDR_POSTGRES_DSN";
      telemetry_projection =
          chosen (plain (read "OPEN_EDR_MDR_TELEMETRY_PROJECTION")) production "clickhouse"
            "sqlite";
      clickhouse_dsn = read "OPEN_EDR_MDR_CLICKHOUSE_DSN";
    }

abbrev pub profile_checks : Runtime → Result (Unit {0})
profile_checks r = if r.profile == "production" then production_checks r else ok tt

-- `profile or os.environ.get("OPEN_EDR_MDR_PROFILE") or ""`
abbrev pub raw_profile : Environment → RuntimeArguments → String
raw_profile env args = or_text args.profile (or_text (env "OPEN_EDR_MDR_PROFILE") "")

unfoldable pub runtime_config : Environment → Environment → RuntimeArguments → Result Runtime
unfolding resolved production_checks
runtime_config imported env args = do
  let raw = raw_profile env args
  guard (not (raw == "")) (value_error "profile_required")
  let profile = plain raw
  guard (contains profiles profile) (value_error ("invalid_profile:" <> profile))
  let r = resolved imported env args profile
  profile_checks r
  ok r

-- The stores that can be built: SQLite on a file, PostgreSQL with its raw objects beside that file.
pub data ControlStore : Type 0 where
  sqlite_store : String → ControlStore
  postgresql_store : String → String → ControlStore

pub data TelemetryStore : Type 0 where
  control_store : TelemetryStore
  clickhouse_store : String → TelemetryStore

abbrev store_named : String → Runtime → Result ControlStore
store_named db_path r =
    if r.control_plane_store == "sqlite"
    then ok (sqlite_store db_path)
    else if r.control_plane_store == "postgresql"
    then ok (postgresql_store r.postgres_dsn db_path)
    else err (value_error ("unsupported_control_plane_store:" <> r.control_plane_store))

unfoldable pub store_for_runtime : String → Runtime → Result ControlStore
store_for_runtime db_path r = do
  guard
      (not (
        r.profile == "production"
        && (not (r.control_plane_store == "postgresql") || is_blank r.postgres_dsn)))
      (value_error "production_postgresql_dsn_required")
  store_named db_path r

abbrev telemetry_named : Runtime → Result TelemetryStore
telemetry_named r =
    if r.telemetry_projection == "sqlite"
    then ok control_store
    else if r.telemetry_projection == "clickhouse"
    then if is_blank r.clickhouse_dsn
      then err (value_error "clickhouse_dsn_required")
      else ok (clickhouse_store r.clickhouse_dsn)
    else err (value_error ("unsupported_telemetry_projection:" <> r.telemetry_projection))

unfoldable pub telemetry_store_for_runtime : Runtime → Result TelemetryStore
telemetry_store_for_runtime r = do
  guard
      (not (
        r.profile == "production"
        && (not (r.telemetry_projection == "clickhouse") || is_blank r.clickhouse_dsn)))
      (value_error "production_clickhouse_dsn_required")
  telemetry_named r

-- What `create_app` has decided when no stores are handed to it: `dev_token` is whether it creates
-- the enrollment token of the configuration.
pub record App : Type 0 where
  pub runtime : Runtime
  pub store : ControlStore
  pub telemetry_store : TelemetryStore
  pub dev_token : Bool

abbrev pub started : String → Option Bool → Runtime → Result App
started db_path create_dev_token runtime = do
  let dev_token = or_default create_dev_token (not (runtime.profile == "production"))
  guard (not (dev_token && runtime.profile == "production"))
      (value_error "production_create_dev_token_disabled")
  store ← store_for_runtime db_path runtime
  telemetry_store ← telemetry_store_for_runtime runtime
  ok (record {
    runtime = runtime;
    store = store;
    telemetry_store = telemetry_store;
    dev_token = dev_token;
  })

unfoldable pub create_app :
    Environment → Environment → String → Option Bool → RuntimeArguments → Result App
unfolding runtime_config store_for_runtime telemetry_store_for_runtime
create_app imported env db_path create_dev_token args = do
  runtime ← runtime_config imported env args
  started db_path create_dev_token runtime

-- `urlparse` is the scheme of a URL here.
unfoldable pub validate_deployment_server_url :
    (String → String) → Runtime → String → Result (Unit {0})
validate_deployment_server_url scheme r server_url =
    guard (not (r.profile == "production") || scheme server_url == "https")
      (http_exception 400 "production_requires_https_server_url")

unfoldable pub task_catalog_for_runtime : Runtime → List (Dict Json)
unfolding catalog_for_response_mode
task_catalog_for_runtime r = catalog_for_response_mode r.response_mode

unfoldable pub task_policy_block : Runtime → String → Option (Dict Json)
unfolding read_only_policy_block
task_policy_block r task_type =
    if r.response_mode == "read_only" then read_only_policy_block task_type else none
