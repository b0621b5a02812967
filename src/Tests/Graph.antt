-- ===== src/Tests/Graph.antt =====
-- A graph of two processes that are each other's parent.
use shigure_edr.Base.{String, ◌≡◌, refl, true, none, some, [], ◌∷◌, is_some}
use shigure_edr.Base.Table.{select}
use shigure_edr.Base.Sort.{sort_by, insert_by}
use shigure_edr.Base.Dict
use shigure_edr.Text.{drop_prefix}
use shigure_edr.Events.{NormalizedEvent, process_start}
use shigure_edr.Graph.{
  ProcessGraph, build_process_graph, index_entities, climb, append_process_gap, append_gaps,
  visit_children, visit_descendants, descend_from, graph_from,
}
use shigure_edr.Graph.Terminates.{build_process_graph_ends}
use shigure_edr.Graph.Descendants.{IsDistinct, build_process_graph-IsDistinct}

abbrev pub started : String → String → String → NormalizedEvent
started id process parent = record {
  id = id;
  source = "windows_etw";
  event_type = process_start;
  timestamp = 10;
  ingested_at = none;
  tenant_id = "default";
  source_event_id = none;
  host = some "WS-01";
  ip_address = none;
  user = none;
  process_name = some "cmd.exe";
  process_id = none;
  process_entity_id = some process;
  parent_process_name = none;
  parent_process_id = none;
  parent_process_entity_id = some parent;
  boot_id = none;
  process_create_time = none;
  process_exit_time = none;
  image_path = none;
  image_hash = none;
  process_identity_confidence = none;
  missing_parent_reason = none;
  command_line = none;
  file_path = none;
  hash_sha256 = none;
  hash_md5 = none;
  remote_ip = none;
  remote_port = none;
  domain = none;
  registry_key = none;
  alert_title = none;
  severity = "info";
  mitre = [];
  raw_ref = none;
  raw_hash = none;
  raw = [];
}

abbrev pub first : NormalizedEvent
first = started "event-1" "process-1" "process-2"

abbrev pub second : NormalizedEvent
second = started "event-2" "process-2" "process-1"

abbrev cyclic : ProcessGraph
cyclic = record {
  tenant_id = "default";
  host = some "WS-01";
  process_entity_id = "process-1";
  process = first;
  ancestors = second ∷ [];
  descendants = second ∷ first ∷ [];
  timeline = first ∷ second ∷ [];
  evidence = [];
  gaps = [];
}

built : build_process_graph (first ∷ second ∷ []) "default" "process-1" none ≡ some (some cyclic)
unfolding build_process_graph index_entities climb append_process_gap append_gaps visit_children
    visit_descendants descend_from graph_from select sort_by insert_by drop_prefix Dict.get Dict.put
built = refl

build_process_graph_ends_example :
    is_some (build_process_graph (first ∷ second ∷ []) "default" "process-1" none) ≡ true
build_process_graph_ends_example =
    build_process_graph_ends "default" "process-1" none (first ∷ second ∷ [])

build_process_graph-IsDistinct_example : IsDistinct (second ∷ first ∷ [])
build_process_graph-IsDistinct_example =
    build_process_graph-IsDistinct "default" "process-1" none cyclic (first ∷ second ∷ []) built
