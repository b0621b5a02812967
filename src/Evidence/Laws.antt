-- ===== src/Evidence/Laws.antt =====
-- When an upload is accepted, and that stored payloads are read back (api/evidence.py,
-- api/object_storage.py).
use Prim.Native.Char.{code}
use text.Mathlib.TextLemmas.{append_assoc}
use shigure_edr.Base.{
  ℕ, String, ◌<>◌, ◌≡◌, refl, ap, ◌∙◌, ◌↔◌, true, false, not, Option, some, List, arith, eqb, ◌==◌,
  eq_iff, eq_refl, Option-cases, inl, inr, ok, length,
}
use shigure_edr.Base.Dict.{Dict, get-put}
use shigure_edr.Json.{Json}
use shigure_edr.Text.{lower, all_chars}
use shigure_edr.Evidence.Keys.{marker_of, object_key, object_key_from_ref_lem}
use shigure_edr.Evidence.{
  Codec, RawEvidenceRecord, EvidenceUploadRequest, LocalObjectStore, declared_or, is_filled,
  build_agent_evidence, upload_record, object_path, put_json, get_json,
}

-- The scheme of the references holds no colon, as `object` and `s3` do not.
abbrev pub HasPlainScheme : LocalObjectStore → Type 0
HasPlainScheme store = all_chars (λ c. not (eqb (code ":") (code c))) store.ref_scheme ≡ true

ref-eq-marker :
    (scheme bucket key : String)
    → scheme <> ("://" <> (bucket <> ("/" <> key))) ≡ scheme <> (marker_of bucket <> key)
ref-eq-marker scheme bucket key = rw (append_assoc, append_assoc)

module _ (codec : Codec) where
  -- The payload that `put_json` stored is what `get_json` gives for the reference it returned, in
  -- a store whose scheme has no colon.
  pub get_json-put_json :
      (store : LocalObjectStore) (tenant_id kind object_id : String) (payload : Dict Json)
      (sha256 : String) (size : Option ℕ) (mime_type : String) (metadata : Dict Json)
      (objects : Dict (Dict Json))
      → HasPlainScheme store
      → let (stored, objects') =
          put_json codec store tenant_id kind object_id payload sha256 size mime_type metadata
            objects in
        get_json codec store stored.raw_ref objects' ≡ some payload
  unfolding put_json get_json
  get_json-put_json store tenant_id kind object_id payload sha256 size mime_type metadata objects
        h =
      let key = object_key tenant_id kind object_id sha256 in
      rw
        (
          ref-eq-marker store.ref_scheme store.bucket key,
          object_key_from_ref_lem store.ref_scheme store.bucket key h,
        )
        (rw (get-put, eq_refl (object_path codec store key)))

  -- What `build_agent_evidence` asks of an upload.
  pub record IsUpload (req : EvidenceUploadRequest) : Type 0 where
    pub audited :
        req.kind ≡ "file"
        → (is_filled codec "reason" req.metadata ≡ true)
          × (is_filled codec "case_id" req.metadata ≡ true)
    pub content : List ℕ
    pub encoded : codec.b64decode req.content_base64 ≡ some content
    pub digest : codec.sha256_bytes content ≡ lower req.sha256
    pub size : length content ≡ req.size

  module _ (tenant_id agent_id : String) (req : EvidenceUploadRequest) where
    IsUpload-of_ok :
        (r : RawEvidenceRecord)
        → build_agent_evidence codec tenant_id agent_id req ≡ ok r
        → IsUpload req
    unfolding build_agent_evidence
    IsUpload-of_ok r h = elim (Option-cases (codec.b64decode req.content_base64)) [
      | inl e ↦ absurd (ground arith)
      | inr (content, e) ↦ record {
        audited = λ k. ground (arith, eq_iff req.kind "file");
        content = content;
        encoded = e;
        digest = ground (arith, eq_iff (codec.sha256_bytes content) (lower req.sha256));
        size = ground arith;
      }
    ]

    r-eq-record :
        (r : RawEvidenceRecord)
        → build_agent_evidence codec tenant_id agent_id req ≡ ok r
        → r ≡ upload_record codec tenant_id agent_id req
    unfolding build_agent_evidence
    r-eq-record r h = elim (Option-cases (codec.b64decode req.content_base64)) [
      | inl e ↦ absurd (ground arith)
      | inr (content, e) ↦ ground arith
    ]

    sha256-upload_record :
        (upload_record codec tenant_id agent_id req).sha256
        ≡ lower (
            declared_or
              (some (lower req.sha256))
              (codec.sha256 (codec.canonical (upload_record codec tenant_id agent_id req).payload)))
    unfolding upload_record
    sha256-upload_record = refl

    ok_of_IsUpload :
        IsUpload req
        → build_agent_evidence codec tenant_id agent_id req
          ≡ ok (upload_record codec tenant_id agent_id req)
    unfolding build_agent_evidence
    ok_of_IsUpload u = rw u.encoded (
        ground (
          arith,
          u,
          eq_iff req.kind "file",
          eq_iff (codec.sha256_bytes u.content) (lower req.sha256),
        ))

    -- An upload is accepted exactly when a file comes with a reason and a case, its content is
    -- base64, and the declared digest and size are those of the content.
    pub build_agent_evidence_iff :
        ((r : RawEvidenceRecord) × (build_agent_evidence codec tenant_id agent_id req ≡ ok r))
        ↔ IsUpload req
    build_agent_evidence_iff = (
      λ (r, h). IsUpload-of_ok r h,
      λ u. (upload_record codec tenant_id agent_id req, ok_of_IsUpload u),
    )

    -- `hexdigest` gives a text that is not empty and has no upper-case letters.
    pub record IsHex (content : List ℕ) : Type 0 where
      pub lowered : lower (codec.sha256_bytes content) ≡ codec.sha256_bytes content
      pub filled : (codec.sha256_bytes content == "") ≡ false

    -- The record of an accepted upload carries the digest of its content, whatever case the agent
    -- wrote it in, for digests in lower-case hex.
    pub upload_digest :
        ((content : List ℕ) → IsHex content)
        → (r : RawEvidenceRecord) → build_agent_evidence codec tenant_id agent_id req ≡ ok r
        → (content : List ℕ) × (codec.b64decode req.content_base64 ≡ some content)
          × (r.sha256 ≡ codec.sha256_bytes content)
    upload_digest hex r h =
        let u = IsUpload-of_ok r h in
        let same = r-eq-record r h in
        (
          u.content,
          u.encoded,
          ap (λ (q : RawEvidenceRecord). q.sha256) same
              ∙ rw (
                sha256-upload_record,
                ← u.digest,
                (hex u.content).filled,
                (hex u.content).lowered,
              ),
        )
