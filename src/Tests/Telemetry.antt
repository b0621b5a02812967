-- ===== src/Tests/Telemetry.antt =====
-- Runs of the telemetry store's texts and counts, of references and of process chains.
use shigure_edr.Base.{
  String, ◌<>◌, ◌≡◌, refl, true, false, none, some, List, [], ◌∷◌, contains, is_text,
}
use shigure_edr.Json.{str}
use shigure_edr.Control.Schema.{CaseEvidence}
use shigure_edr.Control.Cases.{linked}
use shigure_edr.ClickHouse.{insert_events}
use shigure_edr.ClickHouse.Quote.{escaped, quote, read_literal, read_literal-quote}
use shigure_edr.ClickHouse.Rollups.{Hourly, counted, occurring, rollups-counted}
use shigure_edr.Investigation.{raw_refs_from_case_evidence}
use shigure_edr.Investigation.Refs.{names, AreDistinct, mentioned, raw_refs_lem}
use shigure_edr.Investigation.Chain.{ProcessChain, chain_in, entity_of, pid_of}
use shigure_edr.Investigation.Chain.Ends.{StartsAt, IsLineage, chain_in_lem}
use shigure_edr.Text.{replace_by}
use shigure_edr.Tests.Data.{codec}
use shigure_edr.Tests.Graph.{first, second}

quoted : quote "O'Neil\\" ≡ "'O\\'Neil\\\\'"
unfolding quote escaped replace_by
quoted = refl

read_literal-quote_example :
    read_literal (quote "x' OR 1=1 --" <> " AND host = 'a'")
    ≡ some ("x' OR 1=1 --", " AND host = 'a'")
read_literal-quote_example = read_literal-quote "x' OR 1=1 --" " AND host = 'a'" refl

-- The first hour of the epoch on one host.
abbrev first_hour : Hourly
first_hour = record {
  tenant_id = "default";
  endpoint_id = "agent-1";
  host = "WS-01";
  hour = 0;
  event_type = "process_start";
}

rollups-counted_example :
    counted first_hour
      (insert_events 100 "agent-1" (first ∷ second ∷ [])).1.shigure_event_rollups_hourly
    ≡ occurring first_hour "agent-1" (first ∷ second ∷ [])
rollups-counted_example = rollups-counted 100 "agent-1" first_hour (first ∷ second ∷ [])

abbrev link : String → String → CaseEvidence
link evidence_id ref =
    linked evidence_id "case-1" "default" 60 "raw_evidence" ref none (("sha256", str "ab12") ∷ [])

abbrev evidence : List CaseEvidence
evidence = link "link-1" "object://a" ∷ link "link-2" "object://a" ∷ link "link-3" "object://b" ∷ []

raw_refs_lem_example :
    let listed = names (raw_refs_from_case_evidence codec evidence) in
    AreDistinct listed × ((ref : String) → contains listed ref ≡ mentioned codec evidence ref)
raw_refs_lem_example = raw_refs_lem codec evidence

-- The two processes are each other's parent.
chain_in_lem_example :
    (found : ProcessChain) × (chain_in (first ∷ second ∷ []) none (some "process-1") ≡ some found)
    × (is_text (some "process-1") ≡ true
        → StartsAt entity_of (λ e. e.parent_process_entity_id) (some "process-1") found.chain
          × IsLineage entity_of (λ e. e.parent_process_entity_id) found.chain)
    × (is_text (some "process-1") ≡ false
        → StartsAt pid_of (λ e. e.parent_process_id) none found.chain
          × IsLineage pid_of (λ e. e.parent_process_id) found.chain)
chain_in_lem_example = chain_in_lem (first ∷ second ∷ []) none (some "process-1")
