-- ===== src/Release/Report.antt =====
-- A good report of a release, in the words of docs/RELEASE_VALIDATION.md and of
-- api/release_validation.py.
use shigure_edr.Base.{
  ◌≢◌, ◌&&◌, ◌||◌, ◌==◌, if◌then◌else◌, String, ◌≡◌, Bool, true, false, Option, none, some, List,
  [], ◌∷◌, In,
}
use shigure_edr.Base.Dict
use shigure_edr.Base.Dict.{Dict}
use shigure_edr.Json.{Json, str, arr, obj, Items, nil, cons, Fields, entries, truthy}
use shigure_edr.Evidence.{Codec, text_or_empty}
use shigure_edr.Text.{lower, strip}

-- The names that a report must have, in the order of the alphabet.
abbrev pub automated_names : List String
automated_names =
    "detection_replay" ∷ "go_tests" ∷ "golden_dataset_replay" ∷ "m0_smoke" ∷ "mdr_workspace_loop"
    ∷ "python_tests" ∷ "safe_response_evidence" ∷ []

abbrev pub lab_names : List String
lab_names =
    "storage_load_retention" ∷ "windows_etw_process" ∷ "windows_event_log_subscription"
    ∷ "windows_service_runtime" ∷ []

abbrev pub scenario_names : List String
scenario_names =
    "alert_queue" ∷ "case_evidence" ∷ "endpoint_timeline" ∷ "indicator_hunt" ∷ "process_graph" ∷ []

abbrev pub blocker_names : List String
blocker_names =
    "destructive_task_exposure" ∷ "missing_windows_runtime_validation" ∷ "missing_workflow_steps"
    ∷ "production_dev_token_shortcuts" ∷ "silent_graph_uncertainty" ∷ "unaudited_evidence"
    ∷ "unbounded_spool" ∷ []

abbrev pub document_names : List String
document_names =
    "docs/LOAD_TESTING.md" ∷ "docs/RELEASE_VALIDATION.md" ∷ "docs/WINDOWS_ETW_PROCESS_LAB.md"
    ∷ "docs/WINDOWS_EVENT_LOG_SUBSCRIPTION_LAB.md" ∷ "docs/WINDOWS_RELEASE_LAB.md" ∷ []

module _ (codec : Codec) where
  -- What `str` makes of a value.
  abbrev pub as_text : Json → String
  as_text (str s) = s
  as_text v = codec.print v

  -- An array has a value with the text, and an object has the identifier.
  abbrev pub has_text : String → Items → Bool
  has_text doc nil = false
  has_text doc (cons v vs) = as_text v == doc || has_text doc vs

  abbrev pub is_named : String → Option Json → Bool
  is_named id none = false
  is_named id (some v) = truthy v && as_text v == id

  abbrev pub has_id : String → Json → Bool
  has_id id (obj d) = is_named id (Dict.get "id" (entries d))
  has_id id v = false

  -- The last of the objects with the identifier, behind one that was found before.
  abbrev pub last_with : String → Option Json → Items → Option Json
  last_with id found nil = found
  last_with id found (cons v vs) = last_with id (if has_id id v then some v else found) vs

  -- The status says "passed" in any case of letters, and there is evidence that is not blank.
  pub record HasPassed (d : Dict Json) : Type 0 where
    pub passed : lower (text_or_empty codec (Dict.get "status" d)) ≡ "passed"
    pub evidence : strip (text_or_empty codec (Dict.get "evidence" d)) ≢ ""

  pub record IsPassedGate (raw : Option Json) : Type 0 where
    pub gate : Fields
    pub shape : raw ≡ some (obj gate)
    pub passed : HasPassed (entries gate)

  pub record ArePassedGates (raw : Option Json) (required : List String) : Type 0 where
    pub gates : Fields
    pub shape : raw ≡ some (obj gates)
    pub each_gate : (id : String) → In id required → IsPassedGate (Dict.get id (entries gates))

  -- An object whose `metric_targets` are an array with an element.
  pub record IsMeasured (raw : Option Json) : Type 0 where
    pub scenario : Fields
    pub shape : raw ≡ some (obj scenario)
    pub target : Json
    pub targets : Items
    pub measured : Dict.get "metric_targets" (entries scenario) ≡ some (arr (cons target targets))

  pub record AreMeasured (raw : Option Json) : Type 0 where
    pub scenarios : Items
    pub shape : raw ≡ some (arr scenarios)
    pub each_scenario :
        (id : String) → In id scenario_names → IsMeasured (last_with id none scenarios)

  -- A review that passed, in which no blocker is set.
  pub record IsClearReview (raw : Option Json) : Type 0 where
    pub review : Fields
    pub shape : raw ≡ some (obj review)
    pub passed : HasPassed (entries review)
    pub blockers : Fields
    pub reviewed : Dict.get "blockers" (entries review) ≡ some (obj blockers)
    pub clear :
        (id : String)
        → In id blocker_names
        → (v : Json) → Dict.get id (entries blockers) ≡ some v
        → truthy v ≡ false

  pub record AreDocumented (raw : Option Json) : Type 0 where
    pub documents : Items
    pub shape : raw ≡ some (arr documents)
    pub each_document : (doc : String) → In doc document_names → has_text doc documents ≡ true

  pub record IsReleasable (report : Dict Json) : Type 0 where
    pub automated : ArePassedGates (Dict.get "automated_gates" report) automated_names
    pub lab : ArePassedGates (Dict.get "lab_gates" report) lab_names
    pub load : AreMeasured (Dict.get "load_scenarios" report)
    pub review : IsClearReview (Dict.get "known_gap_review" report)
    pub documents : AreDocumented (Dict.get "documents" report)
