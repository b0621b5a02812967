-- ===== src/Tests/Evidence.antt =====
-- Runs on raw evidence and its object store.
use shigure_edr.Base.{ℕ, ◌≡◌, refl, ◌↔◌, none, some, List, [], ◌∷◌, ok}
use shigure_edr.Base.Dict.{Dict}
use shigure_edr.Base.Dict
use shigure_edr.Json.{str}
use shigure_edr.Text.{lower, strip}
use shigure_edr.Evidence.{
  RawEvidenceRecord, EvidenceUploadRequest, put_json, get_json, build_agent_evidence, is_filled,
  upload_record,
}
use shigure_edr.Evidence.Keys.{safe_segment, IsSegment, safe_segment-IsSegment}
use shigure_edr.Evidence.Laws.{IsUpload, get_json-put_json, build_agent_evidence_iff, upload_digest}
use shigure_edr.Tests.Data.{codec, object_store}

safe_segment-IsSegment_example : IsSegment (safe_segment "../etc/passwd")
safe_segment-IsSegment_example = safe_segment-IsSegment "../etc/passwd"

get_json-put_json_example :
    let (stored, objects') =
      put_json codec object_store "default" "task_result" "task-1"
        (("status", str "completed") ∷ [])
        "ab12"
        none
        "application/json"
        []
        [] in
    get_json codec object_store stored.raw_ref objects' ≡ some (("status", str "completed") ∷ [])
get_json-put_json_example =
    get_json-put_json codec object_store "default" "task_result" "task-1"
      (("status", str "completed") ∷ []) "ab12" none "application/json" [] [] refl

abbrev collected : EvidenceUploadRequest
collected = record {
  kind = "file";
  path = some "C:\\tmp\\a.txt";
  sha256 = "AB12";
  size = 2;
  content_base64 = "AQI=";
  metadata = ("reason", str "triage") ∷ ("case_id", str "case-1") ∷ [];
}

accepted :
    build_agent_evidence codec "default" "agent-1" collected
    ≡ ok (upload_record codec "default" "agent-1" collected)
unfolding build_agent_evidence is_filled Dict.get strip lower
accepted = refl

build_agent_evidence_iff_example :
    ((r : RawEvidenceRecord) × (build_agent_evidence codec "default" "agent-1" collected ≡ ok r))
    ↔ IsUpload codec collected
build_agent_evidence_iff_example = build_agent_evidence_iff codec "default" "agent-1" collected

upload_digest_example :
    (content : List ℕ) × (codec.b64decode "AQI=" ≡ some content)
    × ((upload_record codec "default" "agent-1" collected).sha256 ≡ codec.sha256_bytes content)
unfolding lower
upload_digest_example =
    upload_digest codec "default" "agent-1" collected
      (λ content. record { lowered = refl; filled = refl })
      (upload_record codec "default" "agent-1" collected) accepted
