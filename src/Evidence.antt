-- ===== src/Evidence.antt =====
-- Raw evidence: the records that are built from payloads (api/evidence.py), and the object store
-- that keeps the payloads (api/object_storage.py).
pub mod Keys
pub mod Laws
use Prim.Native.String.{len}
use Prim.Native.Char.{Char}
use mathlib.Core.Option
use shigure_edr.Base.{
  ℕ, String, ◌<>◌, Bool, true, false, not, ◌&&◌, ◌||◌, Option, none, some, List, [], ◌∷◌, ◌==◌, eqb,
  if◌then◌else◌, or_default, is_text, length,
}
use shigure_edr.Base.{Result, ok, err, evidence_error, ◌>>=◌, ◌>>◌, guard}
use shigure_edr.Base.Int.{pos}
use shigure_edr.Base.Dict
use shigure_edr.Base.Dict.{Dict}
use shigure_edr.Json.{Json, null, int, str, obj, fields, truthy}
use shigure_edr.Text.{lower, strip, replace_char}
use shigure_edr.Control.Enrollment.{prefix_of}
use Keys.{object_key, object_key_from_ref}

-- What the program takes from `json`, `hashlib` and `base64`: the canonical text of a payload, the
-- digests of a text and of bytes in hex, and the decoding that fails on what is no base64.
pub record Codec : Type 0 where
  pub canonical : Dict Json → String
  pub sha256 : String → String
  pub sha256_bytes : List ℕ → String
  pub b64decode : String → Option (List ℕ)
  -- `str(value)` of a value that is no text
  pub print : Json → String

pub record RawEvidenceRecord : Type 0 where
  pub raw_ref : String
  pub tenant_id : String
  pub kind : String
  pub object_id : String
  pub sha256 : String
  pub payload : Dict Json

-- An upload of an agent (api/models.py, EvidenceUploadRequest).
pub record EvidenceUploadRequest : Type 0 where
  pub kind : String
  pub path : Option String
  pub sha256 : String
  pub size : ℕ
  pub content_base64 : String
  pub metadata : Dict Json

pub record StoredRawObject : Type 0 where
  pub raw_ref : String
  pub storage_provider : String
  pub bucket : String
  pub object_key : String
  pub size : ℕ
  pub mime_type : String
  pub metadata : Dict Json

-- The configuration of `LocalObjectStore`; its files are the objects by their keys.
pub record LocalObjectStore : Type 0 where
  pub bucket : String
  pub storage_provider : String
  pub ref_scheme : String
  pub endpoint_url : Option String

-- `str(object_id).replace("/", "_").replace(":", "_")`
unfoldable pub safe_object_id : String → String
unfolding replace_char
safe_object_id id = replace_char ":" "_" (replace_char "/" "_" id)

-- `(sha256 or payload_hash).lower()`
abbrev pub declared_or : Option String → String → String
declared_or none payload_hash = payload_hash
declared_or (some sha) payload_hash = if sha == "" then payload_hash else sha

module _ (codec : Codec) where
  open codec use {canonical, sha256, sha256_bytes, b64decode, print}

  unfoldable pub build_raw_evidence :
      String → String → String → Dict Json → Option String → RawEvidenceRecord
  unfolding safe_object_id lower
  build_raw_evidence tenant_id kind object_id payload declared =
      let payload_hash = sha256 (canonical payload) in
      let safe = safe_object_id object_id in
      record {
        raw_ref =
            "sqlite://raw_evidence/"
            <> (tenant_id
                <> ("/" <> (kind <> ("/" <> (safe <> ("/" <> prefix_of 16 payload_hash))))));
        tenant_id = tenant_id;
        kind = kind;
        object_id = safe;
        sha256 = lower (declared_or declared payload_hash);
        payload = payload;
      }

  -- `str(value or "")`
  abbrev pub text_or_empty : Option Json → String
  text_or_empty none = ""
  text_or_empty (some (str s)) = s
  text_or_empty (some v) = if truthy v then print v else ""

  -- `str(metadata.get(key) or "").strip()` is not empty.
  unfoldable pub is_filled : String → Dict Json → Bool
  unfolding strip Dict.get
  is_filled key metadata = not (strip (text_or_empty (Dict.get key metadata)) == "")

  abbrev decoded : Option (List ℕ) → Result (List ℕ)
  decoded none = err (evidence_error "evidence_content_base64_invalid")
  decoded (some content) = ok content

  abbrev text_or_null : Option String → Json
  text_or_null none = null
  text_or_null (some s) = str s

  -- The record of an upload that has passed the checks.
  unfoldable pub upload_record : String → String → EvidenceUploadRequest → RawEvidenceRecord
  unfolding build_raw_evidence
  upload_record tenant_id agent_id req =
      let declared_sha = lower req.sha256 in
      let payload : Dict Json =
        ("agent_id", str agent_id)
        ∷ ("kind", str req.kind)
        ∷ ("path", text_or_null req.path)
        ∷ ("sha256", str declared_sha)
        ∷ ("size", int (pos req.size))
        ∷ ("content_base64", str req.content_base64)
        ∷ ("metadata", obj (fields req.metadata))
        ∷ [] in
      let place = if is_text req.path then or_default req.path "" else declared_sha in
      build_raw_evidence tenant_id ("agent_" <> req.kind)
        (agent_id <> (":" <> (req.kind <> (":" <> (place <> (":" <> prefix_of 16 declared_sha))))))
        payload (some declared_sha)

  unfoldable pub build_agent_evidence :
      String → String → EvidenceUploadRequest → Result RawEvidenceRecord
  build_agent_evidence tenant_id agent_id req = do
    guard (not (req.kind == "file") || is_filled "reason" req.metadata)
        (evidence_error "evidence_reason_required")
    guard (not (req.kind == "file") || is_filled "case_id" req.metadata)
        (evidence_error "evidence_case_id_required")
    content ← decoded (b64decode req.content_base64)
    guard (sha256_bytes content == lower req.sha256) (evidence_error "evidence_sha256_mismatch")
    guard (eqb (length content) req.size) (evidence_error "evidence_size_mismatch")
    ok (upload_record tenant_id agent_id req)

  -- The path of an object below the root of the store.
  abbrev pub object_path : LocalObjectStore → String → String
  object_path store key = store.bucket <> ("/" <> key)

  unfoldable pub put_json :
      LocalObjectStore
      → String
      → String
      → String
      → Dict Json
      → String
      → Option ℕ
      → String
      → Dict Json
      → Dict (Dict Json)
      → StoredRawObject × Dict (Dict Json)
  unfolding object_key Dict.put
  put_json store tenant_id kind object_id payload sha256 size mime_type metadata objects =
      let key = object_key tenant_id kind object_id sha256 in
      (
        record {
          raw_ref = store.ref_scheme <> ("://" <> (store.bucket <> ("/" <> key)));
          storage_provider = store.storage_provider;
          bucket = store.bucket;
          object_key = key;
          size = or_default size (len (canonical payload));
          mime_type = mime_type;
          metadata = metadata;
        },
        Dict.put (object_path store key) payload objects,
      )

  abbrev read_key : LocalObjectStore → Dict (Dict Json) → Option String → Option (Dict Json)
  read_key store objects none = none
  read_key store objects (some key) = Dict.get (object_path store key) objects

  -- `none` stands for the `KeyError` of a foreign reference and for a missing file.
  unfoldable pub get_json : LocalObjectStore → String → Dict (Dict Json) → Option (Dict Json)
  unfolding object_key_from_ref Dict.get
  get_json store raw_ref objects = read_key store objects (object_key_from_ref raw_ref store.bucket)
