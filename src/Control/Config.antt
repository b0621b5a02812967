-- ===== src/Control/Config.antt =====
-- The configuration of a tenant's agents (api/store.py, get_agent_config and set_agent_config;
-- api/models.py, AgentConfig).
use mathlib.Core.Option
use shigure_edr.Base.{
  ℕ, ◌+◌, ◌<◌, String, ◌≡◌, refl, sym, ap, ◌≢◌, true, false, [], ◌∷◌, arith, leb, if◌then◌else◌,
  or_default, test_of_ne,
}
use shigure_edr.Base.Table.{fetchone, insert_or_replace, has_key}
use shigure_edr.Base.Keys.{fetchone-insert_or_replace, fetchone-insert_or_replace_other}
use shigure_edr.Base.Dict
use shigure_edr.Base.Dict.{Dict}
use shigure_edr.Json.{bool}
use shigure_edr.Control.Schema.{Time, AgentConfig, TenantConfig, Store}
use shigure_edr.Control.Enrollment.{ensure_tenant}

abbrev pub config_key : TenantConfig → String
config_key c = c.tenant_id

-- `AgentConfig()`
abbrev pub default_config : AgentConfig
default_config = record {
  version = 1;
  task_poll_seconds = 15;
  heartbeat_seconds = 30;
  upload_interval_seconds = 15;
  max_snapshot_events = 25;
  collect_snapshot = true;
  collect_process_snapshot = true;
  collect_network_snapshot = true;
  collect_windows_event_logs = true;
  demo_suspicious_event = false;
  features = ("collector_gates_explicit", bool true) ∷ [];
}

abbrev config_of : TenantConfig → AgentConfig
config_of c = c.config

unfoldable pub get_agent_config : String → Store → AgentConfig
get_agent_config tenant_id s =
    or_default (Option.map config_of (fetchone (has_key config_key tenant_id) s.tenant_configs))
      default_config

-- The configuration as `set_agent_config` changes it before it is stored.
abbrev accepted : AgentConfig → AgentConfig → AgentConfig
accepted current config = record config {
  features = Dict.merge (("collector_gates_explicit", bool true) ∷ []) config.features;
  version = if leb config.version current.version then current.version + 1 else config.version;
}

unfoldable pub set_agent_config : Time → String → AgentConfig → Store → AgentConfig × Store
unfolding get_agent_config ensure_tenant
set_agent_config now tenant_id config s =
    let stored = accepted (get_agent_config tenant_id s) config in
    let s' = ensure_tenant now tenant_id s in
    (
      stored,
      record s' {
        tenant_configs =
            insert_or_replace config_key
              (record {
                tenant_id = tenant_id;
                version = stored.version;
                config = stored;
                updated_at = now;
              })
              s'.tenant_configs;
      },
    )

newer : (a b : ℕ) → a < (if leb b a then a + 1 else b)
newer a b = ground arith

module _ (now : Time) (tenant_id : String) (config : AgentConfig) (s : Store) where
  read_back :
      get_agent_config tenant_id (set_agent_config now tenant_id config s).1
      ≡ (set_agent_config now tenant_id config s).0
  unfolding set_agent_config get_agent_config ensure_tenant
  read_back = rw fetchone-insert_or_replace refl

  kept :
      (other : String)
      → other ≢ tenant_id
      → get_agent_config other (set_agent_config now tenant_id config s).1
        ≡ get_agent_config other s
  unfolding set_agent_config get_agent_config ensure_tenant
  kept other ne =
      ap (λ o. or_default (Option.map config_of o) default_config)
        (fetchone-insert_or_replace_other config_key other _ s.tenant_configs
          (test_of_ne tenant_id other (λ e. ne (sym e))))

  -- Whatever version is sent, the stored one is newer than the one before, it is what agents are
  -- given from then on, and no other tenant is given anything else than before.
  pub set_agent_config_lem :
      let (stored, s') = set_agent_config now tenant_id config s in
      (get_agent_config tenant_id s' ≡ stored)
      × ((get_agent_config tenant_id s).version < stored.version)
      × ((other : String)
          → other ≢ tenant_id
          → get_agent_config other s' ≡ get_agent_config other s)
  unfolding set_agent_config
  set_agent_config_lem =
      (read_back, newer (get_agent_config tenant_id s).version config.version, kept)
