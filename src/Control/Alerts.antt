-- ===== src/Control/Alerts.antt =====
-- The table of alerts (api/store.py, insert_alerts, get_alert and list_alerts).
pub mod Batches
use mathlib.Core.Option
use shigure_edr.Base.{
  ℕ, String, ◌<>◌, Bool, true, false, not, ◌&&◌, Option, none, some, List, [], ◌∷◌, ◌==◌,
  if◌then◌else◌, is_some, or_default, map, length,
}
use shigure_edr.Base.Int.{ℤ}
use shigure_edr.Base.Table.{select, fetchone}
use shigure_edr.Base.Batch.{insert_new}
use shigure_edr.Base.Sort.{descending, limit, sort_by}
use shigure_edr.Base.Dict
use shigure_edr.Json.{Json, str}
use shigure_edr.Text.{like}
use shigure_edr.Events.{Alert}
use shigure_edr.Evidence.{Codec, LocalObjectStore, build_raw_evidence, text_or_empty}
use shigure_edr.Control.Schema.{Time, AlertRow, Store}
use shigure_edr.Control.Evidence.{insert_raw_evidence}
use shigure_edr.Control.Events.{asked, column_is, anywhere}

abbrev pub alert_key : AlertRow → String
alert_key r = r.alert_id

abbrev pub is_alert : String → String → AlertRow → Bool
is_alert tenant_id alert_id r = r.tenant_id == tenant_id && r.alert_id == alert_id

module _ (codec : Codec) where
  -- `str((alert.raw or {}).get("tenant_id") or "default")`
  unfoldable pub alert_tenant : Alert → String
  unfolding Dict.get
  alert_tenant a =
      let given = text_or_empty codec (Dict.get "tenant_id" a.raw) in
      if given == "" then "default" else given

  unfoldable pub alert_row : Alert → AlertRow
  unfolding alert_tenant
  alert_row a = record {
    alert_id = a.alert_id;
    tenant_id = alert_tenant a;
    title = a.title;
    severity = a.severity;
    timestamp = a.timestamp;
    host = a.host;
    user = a.user;
    process_name = a.process_name;
    raw_ref = a.raw_ref;
    raw_hash = a.raw_hash;
    alert = a;
  }

module _ (codec : Codec) (object_store : LocalObjectStore) where
  -- One round of the loop: the alert with its reference to the raw evidence.
  unfoldable pub store_raw_alert : Time → Alert → Store → Alert × Store
  unfolding insert_raw_evidence build_raw_evidence alert_tenant
  store_raw_alert now a s =
      let raw = build_raw_evidence codec (alert_tenant codec a) "alert" a.alert_id a.raw none in
      let (stored, s') =
        insert_raw_evidence codec object_store now raw none "application/json"
          (("alert_id", str a.alert_id) ∷ []) s in
      (
        record a {
          created_at = some (or_default a.created_at now);
          raw_ref = some stored.raw_ref;
          raw_hash = some raw.sha256;
        },
        s',
      )

  unfoldable pub store_raw_alerts : Time → List Alert → Store → List Alert × Store
  unfolding store_raw_alert
  store_raw_alerts now [] s = ([], s)
  store_raw_alerts now (a ∷ alerts) s =
      let (a', s1) = store_raw_alert now a s in
      let (alerts', s2) = store_raw_alerts now alerts s1 in (a' ∷ alerts', s2)

  unfoldable pub insert_alerts : Time → List Alert → Store → ℕ × Store
  unfolding store_raw_alerts alert_row insert_new
  insert_alerts now alerts s =
      let (alerts', s') = store_raw_alerts now alerts s in
      let rows = map (alert_row codec) alerts' in
      (length rows, record s' { alerts = insert_new alert_key rows s'.alerts })

unfoldable pub get_alert : String → String → Store → Option Alert
unfolding fetchone
get_alert tenant_id alert_id s =
    Option.map (λ (r : AlertRow). r.alert) (fetchone (is_alert tenant_id alert_id) s.alerts)

pub record AlertFilter : Type 0 where
  pub severity : Option String
  pub host : Option String
  pub title : Option String
  pub user : Option String
  pub source : Option String
  pub mitre : Option String
  pub artifact : Option String
  pub indicator : Option String
  pub has_evidence : Option Bool

abbrev evidence_asked : Option Bool → AlertRow → Bool
evidence_asked none r = true
evidence_asked (some true) r = is_some r.raw_ref
evidence_asked (some false) r = not (is_some r.raw_ref)

-- `dump` is pydantic's `model_dump_json`.
module _ (dump : Alert → String) where
  abbrev mentions : AlertRow → String → Bool
  mentions r value = like (anywhere value) (dump r.alert)

  unfoldable pub alert_query : String → AlertFilter → AlertRow → Bool
  unfolding like
  alert_query tenant_id f r =
      r.tenant_id == tenant_id
      && asked f.severity (λ value. r.severity == value)
      && asked f.host (column_is r.host)
      && asked f.title (λ value. like (anywhere value) r.title)
      && asked f.user (mentions r)
      && asked f.source (λ value. mentions r ("\"" <> (value <> "\"")))
      && asked f.mitre (mentions r)
      && asked f.artifact (mentions r)
      && asked f.indicator (mentions r)
      && evidence_asked f.has_evidence r

  unfoldable pub list_alerts : String → ℤ → AlertFilter → Store → List Alert
  unfolding alert_query select sort_by
  list_alerts tenant_id n f s =
      map (λ (r : AlertRow). r.alert)
        (limit n
          (descending (λ (r : AlertRow). r.timestamp) (select (alert_query tenant_id f) s.alerts)))
