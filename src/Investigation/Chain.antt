-- ===== src/Investigation/Chain.antt =====
-- The chain from a process up to its ancestors (api/app.py, process_chain), by the entity or by the
-- process identifier. The loop runs on fuel.
pub mod Ends
use mathlib.Core.Option
use mathlib.Core.Option.{some-injective}
use shigure_edr.Base.{
  ℕ, zero, suc, String, ◌≡◌, ◌≤◌, ◌<◌, refl, sym, subst, ◌∙◌, ap, Bool, true, false, not, ◌&&◌,
  ◌||◌, Option, none, some, List, [], ◌∷◌, ◌==◌, arith, map, length, contains, is_some, is_text,
  or_default, if◌then◌else◌, Option-cases, Bool-cases, inl, inr, ◌⊎◌, In, here, there, In-cons,
  length-map, eq_iff, Result, ok, err, http_exception, ◌>>=◌, ◌>>◌, guard, take,
}
use shigure_edr.Base.Int.{pos, ℤ}
use shigure_edr.Base.Table.{select}
use shigure_edr.Base.Dict
use shigure_edr.Base.Dict.{Dict, get-put}
use shigure_edr.Events.{NormalizedEvent}
use shigure_edr.Graph.{Gap, gap_of}
use shigure_edr.Graph.Seen.{unseen, unseen-le-length, unseen-cons-lt}
use shigure_edr.Investigation.{Telemetry, on_host}

-- `{key(e): e for e in events if key(e)}`: the last event of a key.
unfoldable pub index_by :
    (NormalizedEvent → Option String)
    → Dict NormalizedEvent
    → List NormalizedEvent
    → Dict NormalizedEvent
unfolding Dict.put
index_by key d [] = d
index_by key d (e ∷ events) =
    index_by key (if is_text (key e) then Dict.put (or_default (key e) "") e d else d) events

-- `current and current not in seen and current in index`
abbrev pub next_in : Dict NormalizedEvent → List String → Option String → Option NormalizedEvent
next_in index seen current =
    if is_text current && not (contains seen (or_default current ""))
    then Dict.get (or_default current "") index
    else none

-- `none` is a loop that is cut off.
unfoldable pub follow :
    (NormalizedEvent → Option String)
    → Dict NormalizedEvent
    → ℕ
    → List String
    → Option String
    → Option (List NormalizedEvent)
unfolding Dict.get
follow parent index zero seen current = none
follow parent index (suc fuel) seen current = elim (next_in index seen current) [
  | none ↦ some []
  | some e ↦
      Option.map (λ chain. e ∷ chain)
        (follow parent index fuel (or_default current "" ∷ seen) (parent e))
]

-- The fields of the answer that the two ways of following differ in.
pub record ProcessChain : Type 0 where
  pub process_entity_id : Option String
  pub process_id : Option String
  pub chain : List NormalizedEvent
  pub children : List NormalizedEvent
  pub gaps : List Gap

abbrev is_column : Option String → String → Bool
is_column none value = false
is_column (some text) value = text == value

abbrev pub entity_of : NormalizedEvent → Option String
entity_of e = e.process_entity_id

abbrev pub pid_of : NormalizedEvent → Option String
pid_of e = e.process_id

abbrev has_no_parent : Dict NormalizedEvent → NormalizedEvent → Bool
has_no_parent by_entity e =
    is_text e.missing_parent_reason
    && (not (is_text e.parent_process_entity_id)
        || not (Dict.has (or_default e.parent_process_entity_id "") by_entity))

abbrev first_pid : Option String → List NormalizedEvent → Option String
first_pid process_id [] = process_id
first_pid process_id (e ∷ chain) = e.process_id

abbrev pub entity_answer :
    Option String
    → Option String
    → List NormalizedEvent
    → Dict NormalizedEvent
    → List NormalizedEvent
    → ProcessChain
entity_answer process_id process_entity_id events by_entity chain = record {
  process_entity_id = process_entity_id;
  process_id = first_pid process_id chain;
  chain = chain;
  children = take 100 (
      select
        (λ (e : NormalizedEvent).
          is_column e.parent_process_entity_id (or_default process_entity_id ""))
        events);
  gaps = map gap_of (select (has_no_parent by_entity) chain);
}

abbrev pub pid_answer : Option String → List NormalizedEvent → List NormalizedEvent → ProcessChain
pid_answer process_id events chain = record {
  process_entity_id = none;
  process_id = process_id;
  chain = chain;
  children = take 100 (
      select (λ (e : NormalizedEvent). is_column e.parent_process_id (or_default process_id ""))
        events);
  gaps = [];
}

-- The walk over the events that were found; its fuel is more than there are events.
unfoldable pub chain_in : List NormalizedEvent → Option String → Option String → Option ProcessChain
unfolding index_by follow select Dict.get
chain_in events process_id process_entity_id =
    let fuel = suc (length events) in
    let by_entity = index_by entity_of [] events in
    if is_text process_entity_id
    then Option.map (entity_answer process_id process_entity_id events by_entity)
        (follow (λ e. e.parent_process_entity_id) by_entity fuel [] process_entity_id)
    else Option.map (pid_answer process_id events)
        (follow (λ e. e.parent_process_id) (index_by pid_of [] events) fuel [] process_id)

unfoldable pub process_chain :
    Telemetry → String → String → Option String → Option String → ℤ → Result (Option ProcessChain)
unfolding chain_in
process_chain telemetry tenant_id host process_id process_entity_id n = do
  guard (is_text process_id || is_text process_entity_id)
      (http_exception 400 "process_id_or_process_entity_id_required")
  ok (chain_in (telemetry.search tenant_id (on_host (some host)) n) process_id process_entity_id)
