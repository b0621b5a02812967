-- ===== src/Control/Alerts/Batches.antt =====
-- What a batch of alerts changes in the store (api/store.py, insert_alerts).
use shigure_edr.Base.{
  String, ◌≡◌, refl, ◌∙◌, ap, Bool, false, List, [], ◌∷◌, map, All, contains, ◌||◌,
}
use shigure_edr.Base.Table.{select}
use shigure_edr.Base.Batch.{select-insert_or_ignore, contains-insert_new}
use shigure_edr.Events.{Alert}
use shigure_edr.Evidence.{Codec, LocalObjectStore}
use shigure_edr.Control.Schema.{Time, AlertRow, RawEvidence, Store}
use shigure_edr.Control.Evidence.{raw_evidence_key}
use shigure_edr.Control.Alerts.{
  alert_key, alert_row, alert_tenant, store_raw_alert, store_raw_alerts, insert_alerts,
}

module _ (codec : Codec) (object_store : LocalObjectStore) (now : Time) where
  pub store_raw_alerts-events :
      (alerts : List Alert) (s : Store)
      → (store_raw_alerts codec object_store now alerts s).1.events ≡ s.events
  unfolding store_raw_alerts
  store_raw_alerts-events [] s = refl
  store_raw_alerts-events (a ∷ alerts) s =
      store_raw_alerts-events alerts (store_raw_alert codec object_store now a s).1 ∙ kept
    where
      kept : (store_raw_alert codec object_store now a s).1.events ≡ s.events
      kept = refl

  pub store_raw_alerts-agents :
      (alerts : List Alert) (s : Store)
      → (store_raw_alerts codec object_store now alerts s).1.agents ≡ s.agents
  unfolding store_raw_alerts
  store_raw_alerts-agents [] s = refl
  store_raw_alerts-agents (a ∷ alerts) s =
      store_raw_alerts-agents alerts (store_raw_alert codec object_store now a s).1 ∙ kept
    where
      kept : (store_raw_alert codec object_store now a s).1.agents ≡ s.agents
      kept = refl

  pub store_raw_alerts-alerts :
      (alerts : List Alert) (s : Store)
      → (store_raw_alerts codec object_store now alerts s).1.alerts ≡ s.alerts
  unfolding store_raw_alerts
  store_raw_alerts-alerts [] s = refl
  store_raw_alerts-alerts (a ∷ alerts) s =
      store_raw_alerts-alerts alerts (store_raw_alert codec object_store now a s).1 ∙ kept
    where
      kept : (store_raw_alert codec object_store now a s).1.alerts ≡ s.alerts
      kept = refl

  -- The rows of the batch have the identifiers of its alerts.
  pub store_raw_alerts-ids :
      (alerts : List Alert) (s : Store)
      → map alert_key (map (alert_row codec) (store_raw_alerts codec object_store now alerts s).0)
        ≡ map (λ (a : Alert). a.alert_id) alerts
  unfolding store_raw_alerts alert_row
  store_raw_alerts-ids [] s = refl
  store_raw_alerts-ids (a ∷ alerts) s =
      ap (λ ids. a.alert_id ∷ ids)
        (store_raw_alerts-ids alerts (store_raw_alert codec object_store now a s).1)

  -- And their tenants.
  pub store_raw_alerts-All :
      (q : String → Bool) (alerts : List Alert) (s : Store)
      → All (λ a. q (alert_tenant codec a) ≡ false) alerts
      → All
          (λ (r : AlertRow). q r.tenant_id ≡ false)
          (map (alert_row codec) (store_raw_alerts codec object_store now alerts s).0)
  unfolding store_raw_alerts alert_row
  store_raw_alerts-All q [] s h = tt
  store_raw_alerts-All q (a ∷ alerts) s h =
      (h.0, store_raw_alerts-All q alerts (store_raw_alert codec object_store now a s).1 h.1)

  -- The raw evidence of the batch is that of the tenants of its alerts.
  pub store_raw_alerts-raw :
      (q : String → Bool) (alerts : List Alert) (s : Store)
      → All (λ a. q (alert_tenant codec a) ≡ false) alerts
      → select
          (λ (r : RawEvidence). q r.tenant_id)
          (store_raw_alerts codec object_store now alerts s).1.raw_evidence
        ≡ select (λ (r : RawEvidence). q r.tenant_id) s.raw_evidence
  unfolding store_raw_alerts
  store_raw_alerts-raw q [] s h = refl
  store_raw_alerts-raw q (a ∷ alerts) s h =
      store_raw_alerts-raw q alerts (store_raw_alert codec object_store now a s).1 h.1
      ∙ select-insert_or_ignore raw_evidence_key (λ (r : RawEvidence). q r.tenant_id) _
          s.raw_evidence h.0

  -- The identifiers that are there after a batch.
  pub insert_alerts-ids :
      (alerts : List Alert) (s : Store) (k : String)
      → contains (map alert_key (insert_alerts codec object_store now alerts s).1.alerts) k ≡ (
          contains (map alert_key s.alerts) k
          || contains (map (λ (a : Alert). a.alert_id) alerts) k)
  unfolding insert_alerts
  insert_alerts-ids alerts s k =
      let (alerts', s') = store_raw_alerts codec object_store now alerts s in
      let rows = map (alert_row codec) alerts' in
      contains-insert_new alert_key k rows s'.alerts
      ∙ ap (λ table. contains (map alert_key table) k || contains (map alert_key rows) k)
          (store_raw_alerts-alerts alerts s)
      ∙ ap (λ ids. contains (map alert_key s.alerts) k || contains ids k)
          (store_raw_alerts-ids alerts s)
