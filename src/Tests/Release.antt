-- ===== src/Tests/Release.antt =====
-- A run of the release gate.
use shigure_edr.Base.{◌≡◌, ◌↔◌, [], ◌∷◌}
use shigure_edr.Json.{obj, end}
use shigure_edr.Release.{validate_release_report}
use shigure_edr.Release.Report.{IsReleasable}
use shigure_edr.Release.Gate.{validate_release_report_iff}
use shigure_edr.Tests.Data.{codec}

validate_release_report_iff_example :
    ((validate_release_report codec (("automated_gates", obj end) ∷ [])).status ≡ "passed")
    ↔ IsReleasable codec (("automated_gates", obj end) ∷ [])
validate_release_report_iff_example =
    validate_release_report_iff codec (("automated_gates", obj end) ∷ [])
