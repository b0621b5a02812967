-- ===== src/Api/Ingest/Tenancy.antt =====
-- An agent reaches the data of its own tenant only (api/app.py, ingest_events).
use shigure_edr.Base.{
  ℕ, String, ◌≡◌, ◌≢◌, refl, ◌∙◌, false, Option, List, [], ◌∷◌, ◌==◌, map, All, or_default, ap,
  Result, ok, err, test_of_ne,
}
use shigure_edr.Base.Dict.{put, get-put}
use shigure_edr.Base.Table.{select}
use shigure_edr.Base.Batch.{select-insert_new}
use shigure_edr.Json.{str}
use shigure_edr.Events.{NormalizedEvent, Alert}
use shigure_edr.Rules.{Python, GenericRule}
use shigure_edr.Detection.Alerts.{detect_many}
use shigure_edr.Evidence.{Codec, LocalObjectStore}
use shigure_edr.Control.Schema.{Time, Agent, EventRow, AlertRow, RawEvidence, Store}
use shigure_edr.Control.Events.{event_id_key, event_row, store_raw_events, insert_events}
use shigure_edr.Control.Events.Batches.{
  store_raw_events-events, store_raw_events-alerts, store_raw_events-All, store_raw_events-raw,
}
use shigure_edr.Control.Alerts.{alert_key, alert_row, alert_tenant, store_raw_alerts, insert_alerts}
use shigure_edr.Control.Alerts.Batches.{
  store_raw_alerts-events, store_raw_alerts-alerts, store_raw_alerts-All, store_raw_alerts-raw,
}
use shigure_edr.Api.Ingest.{scoped, scoped_alert, alerted, ingest}

-- The rows of one tenant: its events, alerts and raw evidence.
abbrev pub tenant_data : String → Store → List EventRow × List AlertRow × List RawEvidence
tenant_data t s = (
  select (λ (r : EventRow). r.tenant_id == t) s.events,
  select (λ (r : AlertRow). r.tenant_id == t) s.alerts,
  select (λ (r : RawEvidence). r.tenant_id == t) s.raw_evidence,
)

scoped-All :
    (agent : Agent) (t : String)
    → agent.tenant_id ≢ t
    → (events : List NormalizedEvent)
    → All (λ (e : NormalizedEvent). (e.tenant_id == t) ≡ false) (map (scoped agent) events)
scoped-All agent t h [] = tt
scoped-All agent t h (e ∷ events) = (test_of_ne agent.tenant_id t h, scoped-All agent t h events)

module _ (codec : Codec) where
  scoped_alert-tenant :
      (agent : Agent) (a : Alert)
      → agent.tenant_id ≢ ""
      → alert_tenant codec (scoped_alert agent a) ≡ agent.tenant_id
  unfolding alert_tenant scoped_alert
  scoped_alert-tenant agent a h =
      rw
        (
          get-put "agent_id" "tenant_id" (str agent.agent_id)
              (put "tenant_id" (str agent.tenant_id) a.raw),
          get-put "tenant_id" "tenant_id" (str agent.tenant_id) a.raw,
          test_of_ne agent.tenant_id "" h,
        )
        refl

  scoped_alerts-All :
      (agent : Agent) (t : String)
      → agent.tenant_id ≢ t
      → agent.tenant_id ≢ ""
      → (alerts : List Alert)
      → All (λ a. (alert_tenant codec a == t) ≡ false) (map (scoped_alert agent) alerts)
  scoped_alerts-All agent t h named [] = tt
  scoped_alerts-All agent t h named (a ∷ alerts) = (
    rw (scoped_alert-tenant agent a named) (test_of_ne agent.tenant_id t h),
    scoped_alerts-All agent t h named alerts,
  )

module _ (py : Python) (codec : Codec) (object_store : LocalObjectStore) {T : Type 0}
    (project : String → List NormalizedEvent → T → T) where
  alerted_others :
      (now : Time) (agent : Agent) (accepted : ℕ) (found : Result (List Alert)) (s : Store)
      (t : String)
      → agent.tenant_id ≢ t
      → agent.tenant_id ≢ ""
      → tenant_data t (alerted py codec object_store project now agent accepted found s).1
        ≡ tenant_data t s
  unfolding alerted insert_alerts
  alerted_others now agent accepted (err e) s t h named = refl
  alerted_others now agent accepted (ok alerts) s t h named =
      let sent = map (scoped_alert agent) alerts in
      let of_agent = scoped_alerts-All codec agent t h named alerts in
      let (alerts', s') = store_raw_alerts codec object_store now sent s in
      let events : select (λ (r : EventRow). r.tenant_id == t) s'.events
          ≡ select (λ (r : EventRow). r.tenant_id == t) s.events =
        ap (select (λ (r : EventRow). r.tenant_id == t))
          (store_raw_alerts-events codec object_store now sent s) in
      let kept =
        select-insert_new alert_key (λ (r : AlertRow). r.tenant_id == t)
          (map (alert_row codec) alerts') s'.alerts
          (store_raw_alerts-All codec object_store now (λ u. u == t) sent s of_agent)
        ∙ ap (select (λ (r : AlertRow). r.tenant_id == t))
            (store_raw_alerts-alerts codec object_store now sent s) in
      let raw = store_raw_alerts-raw codec object_store now (λ u. u == t) sent s of_agent in
      λ i. (events i, kept i, raw i)

  inserted_others :
      (now : Time) (agent_id : String) (events : List NormalizedEvent) (s : Store) (t : String)
      → All (λ (e : NormalizedEvent). (e.tenant_id == t) ≡ false) events
      → tenant_data t (insert_events codec object_store now agent_id events s).1 ≡ tenant_data t s
  unfolding insert_events
  inserted_others now agent_id events s t others =
      let (events', s') = store_raw_events codec object_store now agent_id events s in
      let kept =
        select-insert_new event_id_key (λ (r : EventRow). r.tenant_id == t)
          (map (event_row agent_id) events') s'.events
          (store_raw_events-All codec object_store now agent_id (λ u. u == t) events s others)
        ∙ ap (select (λ (r : EventRow). r.tenant_id == t))
            (store_raw_events-events codec object_store now agent_id events s) in
      let alerts : select (λ (r : AlertRow). r.tenant_id == t) s'.alerts
          ≡ select (λ (r : AlertRow). r.tenant_id == t) s.alerts =
        ap (select (λ (r : AlertRow). r.tenant_id == t))
          (store_raw_events-alerts codec object_store now agent_id events s) in
      let raw =
        store_raw_events-raw codec object_store now agent_id (λ u. u == t) events s others in
      λ i. (kept i, alerts i, raw i)

  -- Whatever an agent sends, and whatever rules are loaded, the events, alerts and raw evidence of
  -- every other tenant stay as they were, also where the request fails half-way; the agent has a
  -- tenant that is not the empty text.
  pub ingest_other_tenants :
      (now : Time) (custom_rules : List GenericRule) (agent : Agent)
      (req : Option (List NormalizedEvent)) (s : Store) (telemetry : T) (t : String)
      → agent.tenant_id ≢ t
      → agent.tenant_id ≢ ""
      → tenant_data t
          (ingest py codec object_store project now custom_rules agent req (s, telemetry)).1
        ≡ tenant_data t s
  unfolding ingest
  ingest_other_tenants now custom_rules agent req s telemetry t h named =
      let sent = map (scoped agent) (or_default req []) in
      let ((accepted, events), s1) = insert_events codec object_store now agent.agent_id sent s in
      alerted_others now agent accepted (detect_many py custom_rules events) s1 t h named
      ∙ inserted_others now agent.agent_id sent s t (scoped-All agent t h (or_default req []))
