-- ===== src/Release.antt =====
-- The gate of a release (api/release_validation.py). A report is what `json.loads` makes of it, each
-- key being there once.
pub mod Report
pub mod Failures
pub mod Parts
pub mod Gate
use shigure_edr.Base.{
  String, ◌<>◌, Bool, true, false, not, ◌&&◌, Option, none, some, List, [], ◌∷◌, ◌++◌, contains,
  ◌==◌, if◌then◌else◌, is_some,
}
use shigure_edr.Base.Dict
use shigure_edr.Base.Dict.{Dict}
use shigure_edr.Json.{
  Json, obj, arr, null, bool, int, float, str, entries, elements, truthy, Items, nil, cons,
}
use shigure_edr.Text.{lower, strip}
use shigure_edr.Evidence.{Codec, text_or_empty}

-- The required names, as `sorted` gives them.
abbrev pub required_automated_gates : List String
required_automated_gates =
    "detection_replay" ∷ "go_tests" ∷ "golden_dataset_replay" ∷ "m0_smoke" ∷ "mdr_workspace_loop"
    ∷ "python_tests" ∷ "safe_response_evidence" ∷ []

abbrev pub required_lab_gates : List String
required_lab_gates =
    "storage_load_retention" ∷ "windows_etw_process" ∷ "windows_event_log_subscription"
    ∷ "windows_service_runtime" ∷ []

abbrev pub required_load_scenarios : List String
required_load_scenarios =
    "alert_queue" ∷ "case_evidence" ∷ "endpoint_timeline" ∷ "indicator_hunt" ∷ "process_graph" ∷ []

abbrev pub release_blockers : List String
release_blockers =
    "destructive_task_exposure" ∷ "missing_windows_runtime_validation" ∷ "missing_workflow_steps"
    ∷ "production_dev_token_shortcuts" ∷ "silent_graph_uncertainty" ∷ "unaudited_evidence"
    ∷ "unbounded_spool" ∷ []

abbrev pub required_documents : List String
required_documents =
    "docs/LOAD_TESTING.md" ∷ "docs/RELEASE_VALIDATION.md" ∷ "docs/WINDOWS_ETW_PROCESS_LAB.md"
    ∷ "docs/WINDOWS_EVENT_LOG_SUBSCRIPTION_LAB.md" ∷ "docs/WINDOWS_RELEASE_LAB.md" ∷ []

-- What a loop over names appends to the list of failures.
unfoldable pub each {ℓ} : {A : Type ℓ} → (A → List String) → List A → List String
each f [] = []
each f (x ∷ xs) = f x ++ each f xs

-- `status or 'missing'`
abbrev or_missing : String → String
or_missing status = if status == "" then "missing" else status

abbrev pub fail_unless : Bool → String → List String
fail_unless b message = if b then [] else message ∷ []

-- `isinstance(value, Mapping)` and `isinstance(value, list)`, with what the value then holds.
abbrev pub mapping : Option Json → Option (Dict Json)
mapping (some (obj d)) = some (entries d)
mapping _ = none

abbrev pub listing : Option Json → Option (List Json)
listing (some (arr vs)) = some (elements vs)
listing _ = none

abbrev pub is_truthy : Option Json → Bool
is_truthy none = false
is_truthy (some v) = truthy v

-- `isinstance(targets, list) and targets`
abbrev pub has_targets : Option Json → Bool
has_targets (some (arr (cons v vs))) = true
has_targets _ = false

module _ (codec : Codec) where
  -- `str(d.get("status") or "").lower()`, and whether `evidence` has text in it.
  abbrev pub status_of : Dict Json → String
  status_of d = lower (text_or_empty codec (Dict.get "status" d))

  abbrev pub has_evidence : Dict Json → Bool
  has_evidence d = not (strip (text_or_empty codec (Dict.get "evidence" d)) == "")

  abbrev pub gate_failures : String → Option (Dict Json) → List String
  gate_failures gate_id none = ("missing_gate:" <> gate_id) ∷ []
  gate_failures gate_id (some gate) =
      fail_unless (status_of gate == "passed")
        ("gate_not_passed:" <> (gate_id <> (":" <> or_missing (status_of gate))))
      ++ fail_unless (has_evidence gate) ("gate_missing_evidence:" <> gate_id)

  abbrev pub gate_map_failures : String → Option (Dict Json) → List String → List String
  gate_map_failures gate_group none required = ("missing_" <> (gate_group <> "_gates")) ∷ []
  gate_map_failures gate_group (some gates) required =
      each (λ id. gate_failures id (mapping (Dict.get id gates))) required

  unfoldable pub validate_gate_map : String → Option Json → List String → List String
  unfolding lower strip Dict.get each
  validate_gate_map gate_group raw_gates required =
      gate_map_failures gate_group (mapping raw_gates) required

  -- `str(item.get("id"))` of the mappings that have one; the last of them stays in the dict.
  abbrev pub scenarios_from : Dict Json → List Json → Dict Json
  scenarios_from found [] = found
  scenarios_from found (obj d ∷ items) =
      let id = Dict.get "id" (entries d) in
      let kept = scenarios_from found items in
      let added = scenarios_from (Dict.put (text_or_empty codec id) (obj d) found) items in
      if is_truthy id then added else kept
  scenarios_from found (_ ∷ items) = scenarios_from found items

  abbrev pub scenario_failures : String → Option (Dict Json) → List String
  scenario_failures id none = ("missing_load_scenario:" <> id) ∷ []
  scenario_failures id (some scenario) =
      fail_unless (has_targets (Dict.get "metric_targets" scenario))
        ("load_scenario_missing_metric:" <> id)

  abbrev pub load_failures : Option (List Json) → List String
  load_failures none = "missing_load_scenarios" ∷ []
  load_failures (some items) =
      let scenarios = scenarios_from [] items in
      each (λ id. scenario_failures id (mapping (Dict.get id scenarios))) required_load_scenarios

  unfoldable pub validate_load_scenarios : Option Json → List String
  unfolding Dict.get Dict.put each
  validate_load_scenarios raw_scenarios = load_failures (listing raw_scenarios)

  abbrev pub blocker_failures : String → Option Json → List String
  blocker_failures id none = []
  blocker_failures id (some v) = fail_unless (not (truthy v)) ("release_blocker:" <> id)

  abbrev pub blocker_warnings : Dict Json → String → List String
  blocker_warnings blockers id =
      fail_unless (Dict.has id blockers) ("release_blocker_not_reviewed:" <> id)

  -- The failures and the warnings on the blockers.
  abbrev pub blocker_review : Option (Dict Json) → List String × List String
  blocker_review none = ("missing_release_blocker_review" ∷ [], [])
  blocker_review (some blockers) = (
    each (λ id. blocker_failures id (Dict.get id blockers)) release_blockers,
    each (blocker_warnings blockers) release_blockers,
  )

  abbrev pub review_failures : Option (Dict Json) → List String × List String
  review_failures none = ("missing_known_gap_review" ∷ [], [])
  review_failures (some review) =
      let (failures, warnings) = blocker_review (mapping (Dict.get "blockers" review)) in
      (
        fail_unless (status_of review == "passed")
              ("known_gap_review_not_passed:" <> or_missing (status_of review))
            ++ fail_unless (has_evidence review) "known_gap_review_missing_evidence"
            ++ failures,
        warnings,
      )

  unfoldable pub validate_known_gap_review : Option Json → List String × List String
  unfolding lower strip Dict.get each
  validate_known_gap_review raw_review = review_failures (mapping raw_review)

  -- `{str(item) for item in raw_docs}`
  abbrev pub printed : List Json → List String
  printed [] = []
  printed (str s ∷ items) = s ∷ printed items
  printed (v ∷ items) = codec.print v ∷ printed items

  abbrev pub doc_failure : List Json → String → List String
  doc_failure items doc = fail_unless (contains (printed items) doc) ("missing_doc:" <> doc)

  abbrev pub doc_failures : Option (List Json) → List String
  doc_failures none = "missing_release_documents" ∷ []
  doc_failures (some items) = each (doc_failure items) required_documents

  unfoldable pub validate_docs : Option Json → List String
  unfolding each
  validate_docs raw_docs = doc_failures (listing raw_docs)

-- The dict that is returned, without the constant lists under "required".
pub record ReleaseVerdict : Type 0 where
  pub status : String
  pub failures : List String
  pub warnings : List String

abbrev pub verdict_on : List String → String
verdict_on [] = "passed"
verdict_on (f ∷ fs) = "failed"

module _ (codec : Codec) where
  unfoldable pub release_failures : Dict Json → List String
  unfolding validate_gate_map validate_load_scenarios validate_known_gap_review validate_docs
      Dict.get
  release_failures report =
      validate_gate_map codec "automated" (Dict.get "automated_gates" report)
        required_automated_gates
      ++ validate_gate_map codec "lab" (Dict.get "lab_gates" report) required_lab_gates
      ++ validate_load_scenarios codec (Dict.get "load_scenarios" report)
      ++ (validate_known_gap_review codec (Dict.get "known_gap_review" report)).0
      ++ validate_docs codec (Dict.get "documents" report)

  unfoldable pub validate_release_report : Dict Json → ReleaseVerdict
  unfolding release_failures validate_known_gap_review Dict.get
  validate_release_report report = record {
    status = verdict_on (release_failures report);
    failures = release_failures report;
    warnings = (validate_known_gap_review codec (Dict.get "known_gap_review" report)).1;
  }
