-- ===== src/Graph.antt =====
-- The graph around a process (api/app.py, _build_process_graph and _append_process_gap), over the
-- events that the telemetry store lists. Loops that follow parents and children run on fuel.
pub mod Seen
pub mod Terminates
pub mod Descendants
use mathlib.Core.Option
use shigure_edr.Base.{
  ℕ, zero, suc, String, Bool, true, false, not, ◌&&◌, ◌||◌, Option, none, some, List, [], ◌∷◌, ◌++◌,
  contains, map, length, is_some, is_text, or_default, ◌==◌, if◌then◌else◌,
}
use shigure_edr.Base.Table.{select}
use shigure_edr.Base.Sort.{ascending, sort_by}
use shigure_edr.Base.Dict
use shigure_edr.Base.Dict.{Dict}
use shigure_edr.Text.{drop_prefix}
use shigure_edr.Events.{EventType, event_type_value, NormalizedEvent}

pub record Gap : Type 0 where
  pub process_entity_id : Option String
  pub parent_process_entity_id : Option String
  pub missing_parent_reason : Option String
  pub process_identity_confidence : Option String

pub record EvidenceEntry : Type 0 where
  pub event_id : String
  pub event_type : String
  pub process_entity_id : Option String
  pub raw_ref : Option String
  pub raw_hash : Option String

pub record ProcessGraph : Type 0 where
  pub tenant_id : String
  pub host : Option String
  pub process_entity_id : String
  pub process : NormalizedEvent
  pub ancestors : List NormalizedEvent
  pub descendants : List NormalizedEvent
  pub timeline : List NormalizedEvent
  pub evidence : List EvidenceEntry
  pub gaps : List Gap

-- An identifier; an absent one is the empty text, which the code treats alike.
abbrev pub entity : NormalizedEvent → String
entity e = or_default e.process_entity_id ""

abbrev pub parent_entity : NormalizedEvent → String
parent_entity e = or_default e.parent_process_entity_id ""

abbrev pub is_start : NormalizedEvent → Bool
is_start e = event_type_value e.event_type == "process_start"

abbrev pub is_process_event : NormalizedEvent → Bool
is_process_event e =
    is_text e.process_entity_id && is_some (drop_prefix "process_" (event_type_value e.event_type))

-- The loop that fills `by_entity`: a start event goes before what is there.
unfoldable pub index_entities : Dict NormalizedEvent → List NormalizedEvent → Dict NormalizedEvent
unfolding Dict.put
index_entities by_entity [] = by_entity
index_entities by_entity (e ∷ events) =
    let indexed = index_entities (Dict.put (entity e) e by_entity) events in
    let kept = index_entities by_entity events in
    if is_start e || not (Dict.has (entity e) by_entity) then indexed else kept

-- The parent that the loop goes on with: known, and not seen before.
abbrev pub next_parent :
    Dict NormalizedEvent → List String → NormalizedEvent → Option (String × NormalizedEvent)
next_parent by_entity seen current =
    if not (is_text current.parent_process_entity_id) || contains seen (parent_entity current)
    then none
    else Option.map (λ e. (parent_entity current, e)) (Dict.get (parent_entity current) by_entity)

-- `none` is a loop that is cut off.
unfoldable pub climb :
    ℕ
    → Dict NormalizedEvent
    → List String
    → Option (String × NormalizedEvent)
    → Option (List NormalizedEvent)
climb fuel by_entity seen none = some []
climb zero by_entity seen (some (id, parent)) = none
climb (suc fuel) by_entity seen (some (id, parent)) =
    Option.map (λ rest. parent ∷ rest)
      (climb fuel by_entity (id ∷ seen) (next_parent by_entity (id ∷ seen) parent))

abbrev same_text : Option String → Option String → Bool
same_text none none = true
same_text none (some b) = false
same_text (some a) none = false
same_text (some a) (some b) = a == b

abbrev same_gap : Gap → Gap → Bool
same_gap a b =
    same_text a.process_entity_id b.process_entity_id
    && same_text a.parent_process_entity_id b.parent_process_entity_id
    && same_text a.missing_parent_reason b.missing_parent_reason
    && same_text a.process_identity_confidence b.process_identity_confidence

abbrev has_gap : List Gap → Gap → Bool
has_gap [] g = false
has_gap (x ∷ gaps) g = same_gap x g || has_gap gaps g

abbrev pub gap_of : NormalizedEvent → Gap
gap_of e = record {
  process_entity_id = e.process_entity_id;
  parent_process_entity_id = e.parent_process_entity_id;
  missing_parent_reason = e.missing_parent_reason;
  process_identity_confidence = e.process_identity_confidence;
}

unfoldable pub append_process_gap : Dict NormalizedEvent → List Gap → NormalizedEvent → List Gap
append_process_gap by_entity gaps e =
    if not (is_text e.missing_parent_reason)
    then gaps
    else if is_text e.parent_process_entity_id && Dict.has (parent_entity e) by_entity
    then gaps
    else if has_gap gaps (gap_of e)
    then gaps
    else gaps ++ gap_of e ∷ []

unfoldable pub append_gaps : Dict NormalizedEvent → List Gap → List NormalizedEvent → List Gap
unfolding append_process_gap
append_gaps by_entity gaps [] = gaps
append_gaps by_entity gaps (e ∷ events) =
    append_gaps by_entity (append_process_gap by_entity gaps e) events

-- `children_by_parent.get(entity_id, [])`
abbrev pub children : List NormalizedEvent → String → List NormalizedEvent
children process_events id =
    select (λ e. is_text e.parent_process_entity_id && parent_entity e == id) process_events

-- `descendant_seen`, `descendants` and `gaps`.
pub record Visit : Type 0 where
  pub seen : List String
  pub descendants : List NormalizedEvent
  pub gaps : List Gap

abbrev pub is_skipped : Visit → NormalizedEvent → Bool
is_skipped v child = not (is_text child.process_entity_id) || contains v.seen (entity child)

abbrev pub visited : Dict NormalizedEvent → Visit → NormalizedEvent → Visit
visited by_entity v child = record {
  seen = entity child ∷ v.seen;
  descendants = v.descendants ++ child ∷ [];
  gaps = append_process_gap by_entity v.gaps child;
}

-- The loop over the children; `visit` is the call of `visit_descendants` in it.
unfoldable pub visit_children :
    Dict NormalizedEvent
    → (String → Visit → Option Visit)
    → List NormalizedEvent
    → Visit
    → Option Visit
visit_children by_entity visit [] v = some v
visit_children by_entity visit (child ∷ rest) v = elim (is_skipped v child) [
  | true ↦ visit_children by_entity visit rest v
  | false ↦ elim (visit (entity child) (visited by_entity v child)) [
    | none ↦ none
    | some v' ↦ visit_children by_entity visit rest v'
  ]
]

unfoldable pub visit_descendants :
    Dict NormalizedEvent → List NormalizedEvent → ℕ → String → Visit → Option Visit
unfolding visit_children
visit_descendants by_entity process_events zero id v = none
visit_descendants by_entity process_events (suc fuel) id v =
    visit_children by_entity (visit_descendants by_entity process_events fuel)
      (children process_events id) v

abbrev evidence_of : NormalizedEvent → EvidenceEntry
evidence_of e = record {
  event_id = e.id;
  event_type = event_type_value e.event_type;
  process_entity_id = e.process_entity_id;
  raw_ref = e.raw_ref;
  raw_hash = e.raw_hash;
}

abbrev is_near : List String → NormalizedEvent → Bool
is_near ids e =
    is_some e.process_entity_id && contains ids (entity e)
    || is_some e.parent_process_entity_id && contains ids (parent_entity e)

-- The answer, from the two walks.
abbrev pub graph_of :
    String
    → String
    → Option String
    → List NormalizedEvent
    → NormalizedEvent
    → List NormalizedEvent
    → Visit
    → ProcessGraph
graph_of tenant_id process_entity_id host ordered target ancestors v =
    let ids = process_entity_id ∷ map entity v.descendants in
    let timeline = select (is_near ids) ordered in
    record {
      tenant_id = tenant_id;
      host = if is_text host then host else target.host;
      process_entity_id = process_entity_id;
      process = target;
      ancestors = ancestors;
      descendants = v.descendants;
      timeline = timeline;
      evidence = map evidence_of (select (λ e. is_text e.raw_ref) timeline);
      gaps = v.gaps;
    }

-- The walk to the descendants, after the one to the ancestors; the fuel of each is more than there
-- are process events.
unfoldable pub descend_from :
    String
    → String
    → Option String
    → List NormalizedEvent
    → List NormalizedEvent
    → Dict NormalizedEvent
    → NormalizedEvent
    → Option (List NormalizedEvent)
    → Option ProcessGraph
unfolding append_gaps visit_descendants
descend_from tenant_id process_entity_id host ordered process_events by_entity target none = none
descend_from tenant_id process_entity_id host ordered process_events by_entity target
      (some ancestors) =
    Option.map (graph_of tenant_id process_entity_id host ordered target ancestors) (
      visit_descendants by_entity process_events (suc (length process_events)) process_entity_id
        (record {
          seen = [];
          descendants = [];
          gaps = append_gaps by_entity [] (target ∷ ancestors);
        }))

unfoldable pub graph_from :
    String
    → String
    → Option String
    → List NormalizedEvent
    → List NormalizedEvent
    → Dict NormalizedEvent
    → Option NormalizedEvent
    → Option (Option ProcessGraph)
unfolding climb descend_from
graph_from tenant_id process_entity_id host ordered process_events by_entity none = some none
graph_from tenant_id process_entity_id host ordered process_events by_entity (some target) =
    let seen = process_entity_id ∷ [] in
    Option.map some (
      descend_from tenant_id process_entity_id host ordered process_events by_entity target
        (climb (suc (length process_events)) by_entity seen (next_parent by_entity seen target)))

-- `some none` is the `None` of an unknown process; `none` would be a loop that is cut off.
unfoldable pub build_process_graph :
    List NormalizedEvent → String → String → Option String → Option (Option ProcessGraph)
unfolding index_entities graph_from Dict.get select sort_by drop_prefix
build_process_graph events tenant_id process_entity_id host =
    let ordered = ascending (λ e. e.timestamp) events in
    let process_events = select is_process_event ordered in
    let by_entity = index_entities [] process_events in
    graph_from tenant_id process_entity_id host ordered process_events by_entity
      (Dict.get process_entity_id by_entity)
