-- ===== src/Release/Gate.antt =====
-- When a release passes (api/release_validation.py), against a description of a good report.
use shigure_edr.Base.{String, ◌≡◌, refl, ◌↔◌, List, [], ◌∷◌, ◌++◌, arith, eq_iff}
use shigure_edr.Base.Dict
use shigure_edr.Base.Dict.{Dict}
use shigure_edr.Json.{Json}
use shigure_edr.Evidence.{Codec}
use shigure_edr.Release.{verdict_on, release_failures, validate_release_report}
use shigure_edr.Release.Report.{automated_names, lab_names, IsReleasable}
use shigure_edr.Release.Parts.{gates_iff, load_iff, review_iff, docs_iff}

module _ (codec : Codec) where
  all_nil :
      (a b c d e : List String)
      → a ++ b ++ c ++ d ++ e ≡ []
      → (a ≡ []) × (b ≡ []) × (c ≡ []) × (d ≡ []) × (e ≡ [])
  all_nil [] [] [] [] [] h = (refl, refl, refl, refl, refl)
  all_nil [] [] [] [] (x ∷ e) h = cc
  all_nil [] [] [] (x ∷ d) e h = cc
  all_nil [] [] (x ∷ c) d e h = cc
  all_nil [] (x ∷ b) c d e h = cc
  all_nil (x ∷ a) b c d e h = cc

  verdict_on-nil : (failures : List String) → verdict_on failures ≡ "passed" → failures ≡ []
  verdict_on-nil [] h = refl
  verdict_on-nil (f ∷ fs) h = absurd (ground (arith, h, eq_iff "failed" "passed"))

  -- A report passes exactly when every required gate passed with evidence, every load scenario has
  -- metric targets, the review of the known gaps passed with evidence and no blocker set, and every
  -- required document is listed.
  pub validate_release_report_iff :
      (report : Dict Json)
      → ((validate_release_report codec report).status ≡ "passed") ↔ IsReleasable codec report
  unfolding validate_release_report release_failures
  validate_release_report_iff report = (
    λ h.
        let (a, b, c, d, e) = all_nil _ _ _ _ _ (verdict_on-nil _ h) in
        record {
          automated =
              (gates_iff codec "automated" (Dict.get "automated_gates" report) automated_names).0 a;
          lab = (gates_iff codec "lab" (Dict.get "lab_gates" report) lab_names).0 b;
          load = (load_iff codec (Dict.get "load_scenarios" report)).0 c;
          review = (review_iff codec (Dict.get "known_gap_review" report)).0 d;
          documents = (docs_iff codec (Dict.get "documents" report)).0 e;
        },
    λ r.
        rw
          (
            (gates_iff codec "automated" (Dict.get "automated_gates" report) automated_names).1
                r.automated,
            (gates_iff codec "lab" (Dict.get "lab_gates" report) lab_names).1 r.lab,
            (load_iff codec (Dict.get "load_scenarios" report)).1 r.load,
            (review_iff codec (Dict.get "known_gap_review" report)).1 r.review,
            (docs_iff codec (Dict.get "documents" report)).1 r.documents,
          )
          refl,
  )
