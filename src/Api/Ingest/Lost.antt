-- ===== src/Api/Ingest/Lost.antt =====
-- Events whose identifier another tenant has used (api/app.py, ingest_events; api/store.py,
-- insert_events, whose primary key is the identifier alone).
use mathlib.Core.Option
use shigure_edr.Base.{
  ℕ, String, ◌≡◌, ◌≢◌, refl, sym, subst, ◌∙◌, ap, Option, none, some, List, [], map, or_default, ok,
  Option-cases, inl, inr, In, eq_iff, arith, length, length-map,
}
use shigure_edr.Base.Table.{fetchone, has_key, In-fetchone, fetchone_test}
use shigure_edr.Base.Batch.{insert_new, or_else, found-insert_new}
use shigure_edr.Base.Keys.{IsKeyed, IsKeyed-In, fetchone-key, insert_new-IsKeyed}
use shigure_edr.Events.{NormalizedEvent}
use shigure_edr.Rules.{Python}
use shigure_edr.Evidence.{Codec, LocalObjectStore}
use shigure_edr.Control.Schema.{Time, Agent, EventRow, Store}
use shigure_edr.Control.Events.{event_id_key, is_event, get_event, insert_events}
use shigure_edr.Control.Events.{event_row}
use shigure_edr.Control.Events.Batches.{store_raw_events-ids}
use shigure_edr.Control.Alerts.{insert_alerts}
use shigure_edr.Api.Ingest.{scoped, scoped_alert, alerted, ingest}
use shigure_edr.Api.Ingest.Retry.{after-events, event_rows, after, detect_many-all, all_alerts}

-- In a table with unique identifiers, a row of another tenant hides its identifier from the tenant.
hidden :
    (tenant_id : String) (rows : List EventRow) (r : EventRow)
    → IsKeyed event_id_key rows
    → fetchone (has_key event_id_key r.id) rows ≡ some r
    → r.tenant_id ≢ tenant_id
    → fetchone (is_event tenant_id r.id) rows ≡ none
hidden tenant_id rows r u found foreign =
    elim (Option-cases (fetchone (is_event tenant_id r.id) rows)) [
      | inl e ↦ e
      | inr (x, e) ↦
          let test = fetchone_test (is_event tenant_id r.id) rows x e in
          let same =
            IsKeyed-In event_id_key rows r x u (In-fetchone (has_key event_id_key r.id) rows found)
              (In-fetchone (is_event tenant_id r.id) rows e) (ground (arith, eq_iff x.id r.id)) in
          absurd (
            foreign (
              ap (λ (y : EventRow). y.tenant_id) (sym same)
              ∙ ground (arith, eq_iff x.tenant_id tenant_id)))
    ]

module _ (py : Python) (codec : Codec) (object_store : LocalObjectStore) {T : Type 0}
    (project : String → List NormalizedEvent → T → T) where
  answers :
      (now : Time) (agent : Agent) (req : Option (List NormalizedEvent)) (s : Store) (telemetry : T)
      → (n : ℕ) × ((ingest py codec object_store project now [] agent req (s, telemetry)).0
          ≡ ok (record { accepted = length (or_default req []); alerts_generated = n }))
  unfolding ingest insert_events alerted
  answers now agent req s telemetry =
      let events = map (scoped agent) (or_default req []) in
      let ((accepted, events'), s1) =
        insert_events codec object_store now agent.agent_id events s in
      let n =
        (insert_alerts codec object_store now (map (scoped_alert agent) (all_alerts py events'))
          s1).0 in
      let rows = map (event_row agent.agent_id) events' in
      let counted : length rows ≡ length (or_default req []) =
        sym (length-map event_id_key rows)
        ∙ ap length (store_raw_events-ids codec object_store now agent.agent_id events s)
        ∙ length-map (λ (e : NormalizedEvent). e.id) events
        ∙ length-map (scoped agent) (or_default req []) in
      (
        n,
        ap (λ found. (alerted py codec object_store project now agent accepted found s1).0)
              (detect_many-all py events')
            ∙ ap (λ k. ok (record { accepted = k; alerts_generated = n })) counted,
      )

  -- An upload counts all of its events as accepted, but one whose identifier a row of another tenant
  -- has is not there for the agent's tenant afterwards; identifiers are unique and no custom rules
  -- are loaded.
  pub foreign_id_is_lost :
      (now : Time) (agent : Agent) (req : Option (List NormalizedEvent)) (s : Store) (telemetry : T)
      (r : EventRow)
      → IsKeyed event_id_key s.events
      → In r s.events
      → r.tenant_id ≢ agent.tenant_id
      → let answered = ingest py codec object_store project now [] agent req (s, telemetry) in
        ((n : ℕ) × (answered.0
            ≡ ok (record { accepted = length (or_default req []); alerts_generated = n })))
        × (get_event agent.tenant_id r.id answered.1 ≡ none)
  unfolding get_event
  foreign_id_is_lost now agent req s telemetry r u m foreign =
      let s' = after py codec object_store project now agent req (s, telemetry) in
      let rows = event_rows py codec object_store project now agent req s in
      let table : s'.events ≡ insert_new event_id_key rows s.events =
        after-events py codec object_store project now agent req s telemetry in
      let kept =
        ap (fetchone (has_key event_id_key r.id)) table
        ∙ found-insert_new event_id_key r.id rows s.events
        ∙ ap (λ (o : Option EventRow). or_else o (fetchone (has_key event_id_key r.id) rows))
            (fetchone-key event_id_key s.events r r.id u m refl) in
      let keyed =
        subst (IsKeyed event_id_key) (sym table)
          (insert_new-IsKeyed event_id_key rows s.events u) in
      (
        answers now agent req s telemetry,
        ap (Option.map (λ (x : EventRow). x.event))
            (hidden agent.tenant_id s'.events r keyed kept foreign),
      )
