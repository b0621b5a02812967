-- ===== src/Control/Events/Batches.antt =====
-- What a batch of events changes in the store (api/store.py, insert_events).
use mathlib.Core.Option
use mathlib.Core.Path.{fun_ext}
use shigure_edr.Base.{
  String, ◌≡◌, refl, sym, ◌∙◌, ap, Bool, false, Option, none, some, List, [], ◌∷◌, ◌==◌, arith, map,
  All, or_default, if◌then◌else◌, Option-cases,
}
use shigure_edr.Base.Table.{select, fetchone, has_key}
use shigure_edr.Base.Batch.{or_else, select-insert_or_ignore, found-insert_new}
use shigure_edr.Events.{NormalizedEvent}
use shigure_edr.Evidence.{Codec, LocalObjectStore}
use shigure_edr.Control.Schema.{Time, EventRow, RawEvidence, Store}
use shigure_edr.Control.Evidence.{raw_evidence_key}
use shigure_edr.Control.Events.{
  event_id_key, event_row, store_raw_event, store_raw_events, insert_events,
}

-- The table of events as a map from identifiers, without the references to the raw evidence that
-- were given out, and what a batch does to it: an identifier keeps its row, or gets that of the
-- first event of the batch with it.
abbrev pub EventMap : Type 0
EventMap = String → Option EventRow

abbrev pub without_raw : EventRow → EventRow
without_raw r = record r {
  raw_ref = none;
  raw_hash = none;
  event = record r.event { raw_ref = none; raw_hash = none };
}

abbrev pub event_map : Store → EventMap
event_map s id = Option.map without_raw (fetchone (has_key event_id_key id) s.events)

-- What is recorded of an event that an agent sends: each column, and the event with the time of its
-- ingestion.
abbrev pub recorded : Time → String → NormalizedEvent → EventRow
recorded now agent_id e = record {
  id = e.id;
  tenant_id = e.tenant_id;
  agent_id = agent_id;
  host = e.host;
  event_type = e.event_type;
  source = e.source;
  timestamp = e.timestamp;
  process_name = e.process_name;
  process_id = e.process_id;
  process_entity_id = e.process_entity_id;
  parent_process_entity_id = e.parent_process_entity_id;
  boot_id = e.boot_id;
  process_create_time = e.process_create_time;
  process_exit_time = e.process_exit_time;
  image_path = e.image_path;
  image_hash = e.image_hash;
  process_identity_confidence = e.process_identity_confidence;
  missing_parent_reason = e.missing_parent_reason;
  command_line = e.command_line;
  user = e.user;
  hash_sha256 = e.hash_sha256;
  remote_ip = e.remote_ip;
  domain = e.domain;
  raw_ref = none;
  raw_hash = none;
  event = record e {
    ingested_at = some (or_default e.ingested_at now);
    raw_ref = none;
    raw_hash = none;
  };
}

abbrev pub record_first : Time → String → List NormalizedEvent → EventMap → EventMap
record_first now agent_id [] m = m
record_first now agent_id (e ∷ events) m =
    record_first now agent_id events
      (λ id. or_else (m id) (if e.id == id then some (recorded now agent_id e) else none))

map-or_else :
    (f : EventRow → EventRow) (a b : Option EventRow)
    → Option.map f (or_else a b) ≡ or_else (Option.map f a) (Option.map f b)
map-or_else f none b = refl
map-or_else f (some a) b = refl

module _ (codec : Codec) (object_store : LocalObjectStore) (now : Time) (agent_id : String) where
  pub store_raw_events-events :
      (events : List NormalizedEvent) (s : Store)
      → (store_raw_events codec object_store now agent_id events s).1.events ≡ s.events
  unfolding store_raw_events
  store_raw_events-events [] s = refl
  store_raw_events-events (e ∷ events) s =
      store_raw_events-events events (store_raw_event codec object_store now agent_id e s).1 ∙ kept
    where
      kept : (store_raw_event codec object_store now agent_id e s).1.events ≡ s.events
      kept = refl

  -- The rows that the loop makes of the events.
  abbrev rows_of : List NormalizedEvent → Store → List EventRow
  rows_of events s =
      map (event_row agent_id) (store_raw_events codec object_store now agent_id events s).0

  first_of :
      (events : List NormalizedEvent) (s : Store) (m : EventMap) (id : String)
      → record_first now agent_id events m id
        ≡ or_else
            (m id)
            (Option.map without_raw (fetchone (has_key event_id_key id) (rows_of events s)))
  unfolding event_row fetchone store_raw_events store_raw_event
  first_of [] s m id = ground (arith, Option-cases (m id))
  first_of (e ∷ events) s m id = ground (
    arith,
    first_of events (store_raw_event codec object_store now agent_id e s).1
        (λ j. or_else (m j) (if e.id == j then some (recorded now agent_id e) else none)) id,
    Option-cases (m id),
  )

  found_after :
      (events : List NormalizedEvent) (s : Store) (id : String)
      → fetchone
          (has_key event_id_key id)
          (insert_events codec object_store now agent_id events s).1.events
        ≡ or_else
            (fetchone (has_key event_id_key id) s.events)
            (fetchone (has_key event_id_key id) (rows_of events s))
  unfolding insert_events
  found_after events s id =
      let (events', s') = store_raw_events codec object_store now agent_id events s in
      let rows = map (event_row agent_id) events' in
      rw (found-insert_new event_id_key id rows s'.events, store_raw_events-events events s) refl

  -- After `insert_events` each identifier that had an event has the very same row, and each other
  -- identifier in the batch has the columns of the first event that was sent with it, under the
  -- agent that sent it and with the time of its ingestion; what refers to the raw evidence is left
  -- open.
  pub insert_events-refines :
      (events : List NormalizedEvent) (s : Store)
      → let s' = (insert_events codec object_store now agent_id events s).1 in
        (event_map s' ≡ record_first now agent_id events (event_map s))
        × ((id : String) (r : EventRow)
            → fetchone (has_key event_id_key id) s.events ≡ some r
            → fetchone (has_key event_id_key id) s'.events ≡ some r)
  insert_events-refines events s = (
    fun_ext λ id.
        ap (Option.map without_raw) (found_after events s id)
        ∙ map-or_else without_raw (fetchone (has_key event_id_key id) s.events) _
        ∙ sym (first_of events s (event_map s) id),
    λ id r h. found_after events s id ∙ rw h refl,
  )

  pub store_raw_events-alerts :
      (events : List NormalizedEvent) (s : Store)
      → (store_raw_events codec object_store now agent_id events s).1.alerts ≡ s.alerts
  unfolding store_raw_events
  store_raw_events-alerts [] s = refl
  store_raw_events-alerts (e ∷ events) s =
      store_raw_events-alerts events (store_raw_event codec object_store now agent_id e s).1 ∙ kept
    where
      kept : (store_raw_event codec object_store now agent_id e s).1.alerts ≡ s.alerts
      kept = refl

  -- The rows of the batch have the identifiers of its events.
  pub store_raw_events-ids :
      (events : List NormalizedEvent) (s : Store)
      → map event_id_key
          (map (event_row agent_id) (store_raw_events codec object_store now agent_id events s).0)
        ≡ map (λ (e : NormalizedEvent). e.id) events
  unfolding store_raw_events event_row
  store_raw_events-ids [] s = refl
  store_raw_events-ids (e ∷ events) s =
      ap (λ ids. e.id ∷ ids)
        (store_raw_events-ids events (store_raw_event codec object_store now agent_id e s).1)

  -- And their tenants.
  pub store_raw_events-All :
      (q : String → Bool) (events : List NormalizedEvent) (s : Store)
      → All (λ (e : NormalizedEvent). q e.tenant_id ≡ false) events
      → All
          (λ (r : EventRow). q r.tenant_id ≡ false)
          (map (event_row agent_id) (store_raw_events codec object_store now agent_id events s).0)
  unfolding store_raw_events event_row
  store_raw_events-All q [] s h = tt
  store_raw_events-All q (e ∷ events) s h = (
    h.0,
    store_raw_events-All q events (store_raw_event codec object_store now agent_id e s).1 h.1,
  )

  -- The raw evidence of the batch is that of the tenants of its events.
  pub store_raw_events-raw :
      (q : String → Bool) (events : List NormalizedEvent) (s : Store)
      → All (λ (e : NormalizedEvent). q e.tenant_id ≡ false) events
      → select
          (λ (r : RawEvidence). q r.tenant_id)
          (store_raw_events codec object_store now agent_id events s).1.raw_evidence
        ≡ select (λ (r : RawEvidence). q r.tenant_id) s.raw_evidence
  unfolding store_raw_events
  store_raw_events-raw q [] s h = refl
  store_raw_events-raw q (e ∷ events) s h =
      store_raw_events-raw q events (store_raw_event codec object_store now agent_id e s).1 h.1
      ∙ select-insert_or_ignore raw_evidence_key (λ (r : RawEvidence). q r.tenant_id) _
          s.raw_evidence h.0
