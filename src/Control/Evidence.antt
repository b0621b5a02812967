-- ===== src/Control/Evidence.antt =====
-- The table of raw evidence over the object store (api/store.py, _insert_raw_evidence,
-- store_agent_evidence, get_raw_evidence to _raw_evidence_payload).
use mathlib.Core.Option
use shigure_edr.Base.{
  ℕ, String, Bool, true, ◌&&◌, Option, some, List, [], ◌∷◌, ◌==◌, if◌then◌else◌, is_text,
  or_default,
}
use shigure_edr.Base.{Result, ok, ◌>>=◌}
use shigure_edr.Base.Int.{ℤ}
use shigure_edr.Base.Table.{select, fetchone, insert_or_ignore}
use shigure_edr.Base.Sort.{descending, limit, sort_by}
use shigure_edr.Base.Dict
use shigure_edr.Base.Dict.{Dict}
use shigure_edr.Json.{Json, str}
use shigure_edr.Evidence.{
  Codec, LocalObjectStore, RawEvidenceRecord, StoredRawObject, EvidenceUploadRequest, put_json,
  get_json, build_agent_evidence,
}
use shigure_edr.Control.Schema.{Time, RawEvidence, Store}

abbrev pub raw_evidence_key : RawEvidence → String
raw_evidence_key r = r.raw_ref

-- The query conditions of this table.
abbrev pub is_raw_ref : String → String → RawEvidence → Bool
is_raw_ref tenant_id raw_ref r = r.tenant_id == tenant_id && r.raw_ref == raw_ref

abbrev has_sha256 : String → String → RawEvidence → Bool
has_sha256 tenant_id sha256 r = r.tenant_id == tenant_id && r.sha256 == sha256

abbrev of_kind : String → Option String → RawEvidence → Bool
of_kind tenant_id kind r =
    r.tenant_id == tenant_id && (if is_text kind then r.kind == or_default kind "" else true)

-- The answer to an upload (api/models.py, EvidenceUploadResponse).
pub record EvidenceUploaded : Type 0 where
  pub raw_ref : String
  pub sha256 : String
  pub size : ℕ

module _ (codec : Codec) (object_store : LocalObjectStore) where
  unfoldable pub insert_raw_evidence :
      Time → RawEvidenceRecord → Option ℕ → String → Dict Json → Store → StoredRawObject × Store
  unfolding put_json insert_or_ignore
  insert_raw_evidence now raw size mime_type metadata s =
      let (stored, objects) =
        put_json codec object_store raw.tenant_id raw.kind raw.object_id raw.payload raw.sha256 size
          mime_type metadata s.objects in
      (
        stored,
        record s {
          objects = objects;
          raw_evidence =
              insert_or_ignore raw_evidence_key
                (record {
                  raw_ref = stored.raw_ref;
                  tenant_id = raw.tenant_id;
                  kind = raw.kind;
                  sha256 = raw.sha256;
                  size = stored.size;
                  mime_type = stored.mime_type;
                  storage_provider = stored.storage_provider;
                  object_key = stored.object_key;
                  metadata = stored.metadata;
                  created_at = now;
                })
                s.raw_evidence;
        },
      )

  unfoldable pub store_agent_evidence :
      Time → String → String → EvidenceUploadRequest → Store → Result (EvidenceUploaded × Store)
  unfolding insert_raw_evidence build_agent_evidence
  store_agent_evidence now tenant_id agent_id req s = do
    raw ← build_agent_evidence codec tenant_id agent_id req
    let (stored, s') =
        insert_raw_evidence now raw (some req.size) "application/json"
          (Dict.merge (("agent_id", str agent_id) ∷ []) req.metadata) s
    ok (record { raw_ref = stored.raw_ref; sha256 = raw.sha256; size = req.size }, s')

  -- `_raw_evidence_payload`: a row of `_insert_raw_evidence` has its payload in the object store.
  -- `none` is the exception of a payload that is not there.
  unfoldable pub raw_evidence_payload : RawEvidence → Store → Option (Dict Json)
  unfolding get_json
  raw_evidence_payload row s = get_json codec object_store row.raw_ref s.objects

  unfoldable pub get_raw_evidence :
      String → String → Store → Option (RawEvidence × Option (Dict Json))
  unfolding raw_evidence_payload fetchone
  get_raw_evidence tenant_id raw_ref s =
      Option.map (λ row. (row, raw_evidence_payload row s))
        (fetchone (is_raw_ref tenant_id raw_ref) s.raw_evidence)

  unfoldable pub get_raw_evidence_by_hash :
      String → String → Store → Option (RawEvidence × Option (Dict Json))
  unfolding raw_evidence_payload
  get_raw_evidence_by_hash tenant_id sha256 s =
      Option.map (λ row. (row, raw_evidence_payload row s))
        (fetchone (has_sha256 tenant_id sha256)
          (descending (λ (r : RawEvidence). r.created_at) s.raw_evidence))

unfoldable pub list_raw_evidence : String → Option String → ℤ → Store → List RawEvidence
unfolding select sort_by
list_raw_evidence tenant_id kind n s = limit n (
    descending (λ (r : RawEvidence). r.created_at) (select (of_kind tenant_id kind) s.raw_evidence))
