-- ===== src/Api/Ingest/Retry.antt =====
-- An upload of events that an agent sends again (api/app.py, ingest_events).
use shigure_edr.Base.{
  ℕ, suc, String, ◌≡◌, refl, subst, true, none, some, All, is_some, sym, ◌∙◌, ap, Option, List, [],
  ◌∷◌, ◌++◌, map, or_default, Result, ok, err, append-nil,
}
use shigure_edr.Base.Batch.{insert_new, insert_new_twice}
use shigure_edr.Events.{NormalizedEvent, Alert}
use shigure_edr.Rules.{Python}
use shigure_edr.Detection.Alerts.{builtin_alerts, detect_many}
use shigure_edr.Evidence.{Codec, LocalObjectStore}
use shigure_edr.Control.Schema.{Time, Agent, EventRow, AlertRow, Store}
use shigure_edr.Control.Events.{
  event_id_key, event_row, store_raw_event, store_raw_events, insert_events,
}
use shigure_edr.Control.Events.Batches.{
  store_raw_events-events, store_raw_events-alerts, store_raw_events-ids,
}
use shigure_edr.Control.Alerts.{alert_key, alert_row, store_raw_alerts, insert_alerts}
use shigure_edr.Control.Alerts.Batches.{
  store_raw_alerts-events, store_raw_alerts-alerts, store_raw_alerts-ids,
}
use shigure_edr.Api.Ingest.{
  EventPayload, EventIngestResponse, parsed, parsed_request, scoped, scoped_alert, alerted, ingest,
}

-- An event carries its identifier and its timestamp.
abbrev pub IsIdentified : EventPayload → Type 0
IsIdentified p = (is_some p.id ≡ true) × (is_some p.timestamp ≡ true)

or_default_any {ℓ} :
    {A : Type ℓ} (o : Option A) (x y : A) → is_some o ≡ true → or_default o x ≡ or_default o y
or_default_any none x y h = cc
or_default_any (some a) x y h = refl

-- What is drawn is used for no event that carries both.
parsed-drawn :
    (drawn drawn_later : ℕ → String × Time) (n : ℕ) (payloads : List EventPayload)
    → All IsIdentified payloads
    → parsed drawn n payloads ≡ parsed drawn_later n payloads
unfolding parsed
parsed-drawn drawn drawn_later n [] h = refl
parsed-drawn drawn drawn_later n (p ∷ payloads) h =
    let rest = parsed-drawn drawn drawn_later (suc n) payloads h.1 in
    let ids = or_default_any p.id (drawn n).0 (drawn_later n).0 h.0.0 in
    let times = or_default_any p.timestamp (drawn n).1 (drawn_later n).1 h.0.1 in
    λ i. record p.rest { id = ids i; timestamp = times i } ∷ rest i

parsed_request_lem :
    (drawn drawn_later : ℕ → String × Time) (req : Option (List EventPayload))
    → All IsIdentified (or_default req [])
    → parsed_request drawn req ≡ parsed_request drawn_later req
parsed_request_lem drawn drawn_later none h = refl
parsed_request_lem drawn drawn_later (some payloads) h =
    ap some (parsed-drawn drawn drawn_later 0 payloads h)

scoped_alerts-ids :
    (agent : Agent) (alerts : List Alert)
    → map (λ (a : Alert). a.alert_id) (map (scoped_alert agent) alerts)
      ≡ map (λ (a : Alert). a.alert_id) alerts
unfolding scoped_alert
scoped_alerts-ids agent [] = refl
scoped_alerts-ids agent (a ∷ alerts) = ap (λ ids. a.alert_id ∷ ids) (scoped_alerts-ids agent alerts)

module _ (py : Python) where
  pub all_alerts : List NormalizedEvent → List Alert
  all_alerts [] = []
  all_alerts (e ∷ events) = builtin_alerts py e ++ all_alerts events

  pub detect_many-all :
      (events : List NormalizedEvent) → detect_many py [] events ≡ ok (all_alerts events)
  unfolding detect_many all_alerts
  detect_many-all [] = refl
  detect_many-all (e ∷ events) = rw (detect_many-all events, append-nil (builtin_alerts py e)) refl

module _ (py : Python) (codec : Codec) (object_store : LocalObjectStore) where
  -- Detection does not look at what the store adds to an event.
  all_alerts-stored :
      (now : Time) (agent_id : String) (events : List NormalizedEvent) (s : Store)
      → all_alerts py (store_raw_events codec object_store now agent_id events s).0
        ≡ all_alerts py events
  unfolding all_alerts store_raw_events builtin_alerts
  all_alerts-stored now agent_id [] s = refl
  all_alerts-stored now agent_id (e ∷ events) s =
      let rest =
        all_alerts-stored now agent_id events
          (store_raw_event codec object_store now agent_id e s).1 in
      ap (λ alerts. builtin_alerts py e ++ alerts) rest

module _ (py : Python) (codec : Codec) (object_store : LocalObjectStore) {T : Type 0}
    (project : String → List NormalizedEvent → T → T) where
  abbrev pub after : Time → Agent → Option (List NormalizedEvent) → Store × T → Store
  after now agent req state = (ingest py codec object_store project now [] agent req state).1

  pub alerted-events :
      (now : Time) (agent : Agent) (accepted : ℕ) (found : Result (List Alert)) (s : Store)
      → (alerted py codec object_store project now agent accepted found s).1.events ≡ s.events
  unfolding alerted insert_alerts
  alerted-events now agent accepted (err e) s = refl
  alerted-events now agent accepted (ok alerts) s =
      store_raw_alerts-events codec object_store now (map (scoped_alert agent) alerts) s

  pub sent : Agent → Option (List NormalizedEvent) → List NormalizedEvent
  sent agent req = map (scoped agent) (or_default req [])

  -- The rows of the two tables that the request brings.
  pub event_rows : Time → Agent → Option (List NormalizedEvent) → Store → List EventRow
  event_rows now agent req s =
      map (event_row agent.agent_id)
        (store_raw_events codec object_store now agent.agent_id (sent agent req) s).0

  inserted : Time → Agent → Option (List NormalizedEvent) → Store → Store
  inserted now agent req s =
      (insert_events codec object_store now agent.agent_id (sent agent req) s).1

  alert_rows : Time → Agent → Option (List NormalizedEvent) → Store → List AlertRow
  alert_rows now agent req s =
      map (alert_row codec)
        (store_raw_alerts codec object_store now
          (map (scoped_alert agent) (all_alerts py (sent agent req))) (inserted now agent req s)).0

  pub after-events :
      (now : Time) (agent : Agent) (req : Option (List NormalizedEvent)) (s : Store) (telemetry : T)
      → (after now agent req (s, telemetry)).events
        ≡ insert_new event_id_key (event_rows now agent req s) s.events
  unfolding ingest insert_events event_rows sent
  after-events now agent req s telemetry =
      let events = map (scoped agent) (or_default req []) in
      let ((accepted, events'), s1) =
        insert_events codec object_store now agent.agent_id events s in
      alerted-events now agent accepted (detect_many py [] events') s1
      ∙ ap (insert_new event_id_key (event_rows now agent req s))
          (store_raw_events-events codec object_store now agent.agent_id events s)

  alerted-alerts :
      (now : Time) (agent : Agent) (accepted : ℕ) (alerts : List Alert) (s : Store)
      → (alerted py codec object_store project now agent accepted (ok alerts) s).1.alerts
        ≡ insert_new alert_key
            (map
              (alert_row codec)
              (store_raw_alerts codec object_store now (map (scoped_alert agent) alerts) s).0)
            s.alerts
  unfolding alerted insert_alerts
  alerted-alerts now agent accepted alerts s =
      let sent = map (scoped_alert agent) alerts in
      ap
        (insert_new alert_key
          (map (alert_row codec) (store_raw_alerts codec object_store now sent s).0))
        (store_raw_alerts-alerts codec object_store now sent s)

  after-alerts :
      (now : Time) (agent : Agent) (req : Option (List NormalizedEvent)) (s : Store) (telemetry : T)
      → (after now agent req (s, telemetry)).alerts
        ≡ insert_new alert_key (alert_rows now agent req s) s.alerts
  unfolding ingest insert_events alert_rows sent inserted
  after-alerts now agent req s telemetry =
      let events = map (scoped agent) (or_default req []) in
      let ((accepted, events'), s1) =
        insert_events codec object_store now agent.agent_id events s in
      let found =
        detect_many-all py events'
        ∙ ap ok (all_alerts-stored py codec object_store now agent.agent_id events s) in
      ap (λ answer. (alerted py codec object_store project now agent accepted answer s1).1.alerts)
        found
      ∙ alerted-alerts now agent accepted (all_alerts py events) s1
      ∙ ap (insert_new alert_key (alert_rows now agent req s))
          (store_raw_events-alerts codec object_store now agent.agent_id events s)

  parsed_again :
      (now later : Time) (agent : Agent) (req : Option (List NormalizedEvent)) (s : Store)
      (telemetry : T)
      → let once = ingest py codec object_store project now [] agent req (s, telemetry) in
        let twice = ingest py codec object_store project later [] agent req (once.1, once.2) in
        (twice.1.events ≡ once.1.events) × (twice.1.alerts ≡ once.1.alerts)
  unfolding event_rows alert_rows
  parsed_again now later agent req s telemetry =
      let once = ingest py codec object_store project now [] agent req (s, telemetry) in
      let s1 = once.1 in
      let again_events = event_rows later agent req s1 in
      let events = event_rows now agent req s in
      let event_ids =
        store_raw_events-ids codec object_store later agent.agent_id (sent agent req) s1
        ∙ sym (store_raw_events-ids codec object_store now agent.agent_id (sent agent req) s) in
      let again_alerts = alert_rows later agent req s1 in
      let alerts = alert_rows now agent req s in
      let detected = map (scoped_alert agent) (all_alerts py (sent agent req)) in
      let alert_ids =
        store_raw_alerts-ids codec object_store later detected (inserted later agent req s1)
        ∙ sym (store_raw_alerts-ids codec object_store now detected (inserted now agent req s)) in
      (
        after-events later agent req s1 once.2
            ∙ ap (insert_new event_id_key again_events) (after-events now agent req s telemetry)
            ∙ insert_new_twice event_id_key events again_events s.events event_ids
            ∙ sym (after-events now agent req s telemetry),
        after-alerts later agent req s1 once.2
            ∙ ap (insert_new alert_key again_alerts) (after-alerts now agent req s telemetry)
            ∙ insert_new_twice alert_key alerts again_alerts s.alerts alert_ids
            ∙ sym (after-alerts now agent req s telemetry),
      )

  -- The answer to the events that an agent sends, and the state afterwards.
  abbrev pub received :
      Time
      → Agent
      → (ℕ → String × Time)
      → Option (List EventPayload)
      → Store × T
      → Result EventIngestResponse × Store × T
  received now agent drawn req state =
      ingest py codec object_store project now [] agent (parsed_request drawn req) state

  -- An upload that an agent sends again, at any later time and whatever identifiers and times are
  -- drawn then, adds neither an event nor an alert to those that it brought the first time, where
  -- each of its events carries an identifier and a timestamp and no custom rules are loaded.
  pub ingest_again :
      (now later : Time) (agent : Agent) (drawn drawn_later : ℕ → String × Time)
      (req : Option (List EventPayload)) (s : Store) (telemetry : T)
      → All IsIdentified (or_default req [])
      → let once = received now agent drawn req (s, telemetry) in
        let twice = received later agent drawn_later req (once.1, once.2) in
        (twice.1.events ≡ once.1.events) × (twice.1.alerts ≡ once.1.alerts)
  ingest_again now later agent drawn drawn_later req s telemetry h =
      let once = received now agent drawn req (s, telemetry) in
      subst
        (λ again.
          let twice = ingest py codec object_store project later [] agent again (once.1, once.2) in
          (twice.1.events ≡ once.1.events) × (twice.1.alerts ≡ once.1.alerts))
        (parsed_request_lem drawn drawn_later req h)
        (parsed_again now later agent (parsed_request drawn req) s telemetry)
