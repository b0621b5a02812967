-- ===== src/Graph/Terminates.antt =====
-- That the walks of the process graph end (api/app.py, _build_process_graph), on cyclic parents too.
use mathlib.Core.Option
use mathlib.Core.Option.{some-injective, some-ne-none}
use mathlib.Core.Path.{subst}
use shigure_edr.Base.{
  ℕ, zero, suc, String, ◌≡◌, ◌≤◌, ◌<◌, refl, sym, ap, ◌∙◌, ◌⊎◌, true, false, not, ◌||◌, Option,
  none, some, List, [], ◌∷◌, arith, contains, length, length-map, map, is_some, is_text, ◌==◌,
  eq_iff, Option-cases, Bool-cases, inl, inr, In, here, there, In-cons,
}
use shigure_edr.Base.Table.{select, In-select}
use shigure_edr.Base.Sort.{ascending}
use shigure_edr.Base.Dict
use shigure_edr.Base.Dict.{Dict, get-put}
use shigure_edr.Events.{NormalizedEvent}
use shigure_edr.Graph.{
  is_start, entity, parent_entity, is_process_event, index_entities, next_parent, climb, children,
  Visit, is_skipped, visited, visit_children, visit_descendants, descend_from, graph_from, graph_of,
  append_gaps, build_process_graph,
}
use shigure_edr.Graph.Seen.{unseen, unseen-le-length, unseen-cons-lt}

In-map-entity :
    (events : List NormalizedEvent) (e : NormalizedEvent)
    → In e events
    → In (entity e) (map entity events)
In-map-entity [] e m = elim m [ ]
In-map-entity (x ∷ events) e m = elim (In-cons m) [
  | inl same ↦ subst (λ k. In k (map entity (x ∷ events))) (ap entity same) here
  | inr later ↦ there (In-map-entity events e later)
]

has-put :
    (k : String) (e : NormalizedEvent) (d : Dict NormalizedEvent)
    → Dict.has k (Dict.put (entity e) e d) ≡ true
    → (Dict.has k d ≡ true) ⊎ (entity e ≡ k)
has-put k e d p = elim (Bool-cases (entity e == k)) [
  | inl same ↦ inr ((eq_iff (entity e) k).0 same)
  | inr other ↦ inl (ground (arith, get-put (entity e) k e d, other, p))
]

-- A key of `by_entity` is one of the dict before, or of an event.
index_entities_key :
    (by_entity : Dict NormalizedEvent) (events : List NormalizedEvent) (k : String)
    → Dict.has k (index_entities by_entity events) ≡ true
    → (Dict.has k by_entity ≡ true) ⊎ In k (map entity events)
unfolding index_entities
index_entities_key by_entity [] k p = inl p
index_entities_key by_entity (e ∷ events) k p =
    elim (Bool-cases (is_start e || not (Dict.has (entity e) by_entity))) [
      | inl c ↦ elim (index_entities_key (Dict.put (entity e) e by_entity) events k (rw c at p)) [
        | inl q ↦ elim (has-put k e by_entity q) [
          | inl old ↦ inl old
          | inr same ↦ inr (subst (λ j. In j (map entity (e ∷ events))) same here)
        ]
        | inr m ↦ inr (there m)
      ]
      | inr c ↦ elim (index_entities_key by_entity events k (rw c at p)) [
        | inl old ↦ inl old
        | inr m ↦ inr (there m)
      ]
    ]

nothing : (k : String) → Dict.has {V = NormalizedEvent} k [] ≡ true → ⊥
unfolding Dict.get
nothing k h = cc

is_some-map {ℓ κ} :
    {A : Type ℓ} {B : Type κ} (f : A → B) (o : Option A) → is_some (Option.map f o) ≡ is_some o
is_some-map f none = refl
is_some-map f (some a) = refl

module _ (by_entity : Dict NormalizedEvent) (ids : List String)
    (keys : (k : String) → Dict.has k by_entity ≡ true → In k ids) where
  next_parent_lem :
      (seen : List String) (current : NormalizedEvent) (id : String) (parent : NormalizedEvent)
      → next_parent by_entity seen current ≡ some (id, parent)
      → In id ids × (contains seen id ≡ false)
  next_parent_lem seen current id parent h =
      elim (Bool-cases
        (not (is_text current.parent_process_entity_id) || contains seen (parent_entity current))) [
          | inl stop ↦ absurd (some-ne-none (id, parent) (sym (rw stop at h)))
          | inr go ↦ elim (Option-cases (Dict.get (parent_entity current) by_entity)) [
            | inl e ↦ absurd (some-ne-none (id, parent) (sym (rw (go, e) at h)))
            | inr (found, e) ↦
                let same =
                  ap (λ (x : String × NormalizedEvent). x.0)
                    (some-injective _ _ (rw (go, e) at h)) in
                (
                  subst (λ k. In k ids) same (keys (parent_entity current) (ap is_some e)),
                  rw (← same) (ground (arith, go)),
                )
          ]
        ]

  climb_ends :
      (fuel : ℕ) (seen : List String) (o : Option (String × NormalizedEvent))
      → ((id : String) (parent : NormalizedEvent)
          → o ≡ some (id, parent)
          → In id ids × (contains seen id ≡ false))
      → unseen seen ids < fuel
      → is_some (climb fuel by_entity seen o) ≡ true
  unfolding climb
  climb_ends fuel seen none next h = refl
  climb_ends zero seen (some (id, parent)) next h = absurd (ground arith)
  climb_ends (suc fuel) seen (some (id, parent)) next h =
      let (m, fresh) = next id parent refl in
      is_some-map (λ rest. parent ∷ rest)
        (climb fuel by_entity (id ∷ seen) (next_parent by_entity (id ∷ seen) parent))
      ∙ climb_ends fuel (id ∷ seen) (next_parent by_entity (id ∷ seen) parent)
          (λ k p e. next_parent_lem (id ∷ seen) parent k p e)
          (ground (arith, unseen-cons-lt id seen ids m fresh, h))

-- A visit that ends, and leaves no more unseen than there were.
record Ends (ids : List String) (v : Visit) (o : Option Visit) : Type 0 where
  result : Visit
  given : o ≡ some result
  fewer : unseen result.seen ids ≤ unseen v.seen ids

module _ (by_entity : Dict NormalizedEvent) (ids : List String)
    (visit : String → Visit → Option Visit) (fuel : ℕ) where
  visit_children-Ends :
      ((id : String) (v : Visit) → unseen v.seen ids < fuel → Ends ids v (visit id v))
      → (events : List NormalizedEvent) (v : Visit)
      → ((e : NormalizedEvent) → In e events → In (entity e) ids)
      → unseen v.seen ids < suc fuel
      → Ends ids v (visit_children by_entity visit events v)
  unfolding visit_children
  visit_children-Ends each [] v known h = record { result = v; given = refl; fewer = omega arith }
  visit_children-Ends each (child ∷ rest) v known h = elim (Bool-cases (is_skipped v child)) [
    | inl skip ↦
        rw (skip, visit_children) (visit_children-Ends each rest v (λ e m. known e (there m)) h)
    | inr go ↦
        let less =
          unseen-cons-lt (entity child) v.seen ids (known child here) (ground (arith, go)) in
        let inner = each (entity child) (visited by_entity v child) (ground (arith, less, h)) in
        let outer =
          visit_children-Ends each rest inner.result (λ e m. known e (there m))
            (ground (arith, less, h, inner.fewer)) in
        record {
          result = outer.result;
          given = rw (go, visit_children, inner.given) outer.given;
          fewer = ground (arith, outer.fewer, inner.fewer, less);
        }
  ]

module _ (by_entity : Dict NormalizedEvent) (process_events : List NormalizedEvent) where
  visit_descendants-Ends :
      (fuel : ℕ) (id : String) (v : Visit)
      → unseen v.seen (map entity process_events) < fuel
      → Ends (map entity process_events) v (visit_descendants by_entity process_events fuel id v)
  unfolding visit_descendants
  visit_descendants-Ends zero id v h = absurd (ground arith)
  visit_descendants-Ends (suc fuel) id v h =
      visit_children-Ends by_entity (map entity process_events)
        (visit_descendants by_entity process_events fuel) fuel (visit_descendants-Ends fuel)
        (children process_events id) v
        (λ e m. In-map-entity process_events e (In-select _ process_events e m).0) h

-- There is fuel for every process event.
enough :
    (seen : List String) (events : List NormalizedEvent)
    → unseen seen (map entity events) < suc (length events)
enough seen events =
    ground (arith, unseen-le-length seen (map entity events), length-map entity events)

module _ (tenant_id process_entity_id : String) (host : Option String) where
  module _ (ordered process_events : List NormalizedEvent) (by_entity : Dict NormalizedEvent) where
    descend_from_ends :
        (target : NormalizedEvent) (o : Option (List NormalizedEvent))
        → is_some o ≡ true
        → is_some (
            descend_from tenant_id process_entity_id host ordered process_events by_entity target o)
          ≡ true
    unfolding descend_from
    descend_from_ends target none h = absurd (ground (arith, h))
    descend_from_ends target (some ancestors) h =
        let v : Visit = record {
          seen = [];
          descendants = [];
          gaps = append_gaps by_entity [] (target ∷ ancestors);
        } in
        let fuel = suc (length process_events) in
        is_some-map (graph_of tenant_id process_entity_id host ordered target ancestors)
          (visit_descendants by_entity process_events fuel process_entity_id v)
        ∙ ap is_some
            (visit_descendants-Ends by_entity process_events fuel process_entity_id v
              (enough [] process_events)).given

    graph_from_ends :
        (o : Option NormalizedEvent)
        → ((k : String) → Dict.has k by_entity ≡ true → In k (map entity process_events))
        → is_some (graph_from tenant_id process_entity_id host ordered process_events by_entity o)
          ≡ true
    unfolding graph_from
    graph_from_ends none keys = refl
    graph_from_ends (some target) keys =
        let fuel = suc (length process_events) in
        let ids = map entity process_events in
        let seen = process_entity_id ∷ [] in
        let up = climb fuel by_entity seen (next_parent by_entity seen target) in
        let climbs =
          climb_ends by_entity ids keys fuel seen (next_parent by_entity seen target)
            (λ k p e. next_parent_lem by_entity ids keys seen target k p e)
            (enough seen process_events) in
        is_some-map some
          (descend_from tenant_id process_entity_id host ordered process_events by_entity target up)
        ∙ descend_from_ends target up climbs

  -- The graph of a process is built whatever the events are: the walk to the ancestors and the walk
  -- to the descendants both end, where parents form a cycle too.
  pub build_process_graph_ends :
      (events : List NormalizedEvent)
      → is_some (build_process_graph events tenant_id process_entity_id host) ≡ true
  unfolding build_process_graph
  build_process_graph_ends events =
      let ordered = ascending (λ (e : NormalizedEvent). e.timestamp) events in
      let process_events = select is_process_event ordered in
      let by_entity = index_entities [] process_events in
      graph_from_ends ordered process_events by_entity (Dict.get process_entity_id by_entity)
        (λ k p. elim (index_entities_key [] process_events k p) [
          | inl none_yet ↦ absurd (nothing k none_yet)
          | inr m ↦ m
        ])
