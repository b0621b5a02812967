-- ===== src/Graph/Descendants.antt =====
-- What the walk to the descendants collects (api/app.py, visit_descendants).
use mathlib.Core.Option
use mathlib.Core.Option.{some-injective, some-ne-none}
use mathlib.Core.Path.{subst}
use shigure_edr.Base.{
  ℕ, zero, suc, String, ◌≡◌, refl, sym, ap, ◌∙◌, ◌≢◌, ◌⊎◌, true, false, Option, none, some, List,
  [], ◌∷◌, ◌++◌, arith, contains, length, eq_iff, Option-cases, Bool-cases, inl, inr, In, here,
  there, In-cons,
}
use shigure_edr.Base.Table.{select}
use shigure_edr.Base.Sort.{ascending}
use shigure_edr.Base.Dict
use shigure_edr.Base.Dict.{Dict}
use shigure_edr.Events.{NormalizedEvent}
use shigure_edr.Graph.{
  entity, is_skipped, visited, Visit, visit_children, visit_descendants, children, descend_from,
  graph_from, graph_of, ProcessGraph, build_process_graph, append_gaps, is_process_event,
  index_entities,
}

-- No two events of the list are of one process.
abbrev pub IsDistinct : List NormalizedEvent → Type 0
IsDistinct [] = Unit
IsDistinct (e ∷ events) =
    ((x : NormalizedEvent) → In x events → entity x ≢ entity e) × IsDistinct events

In-append_one :
    (events : List NormalizedEvent) (c x : NormalizedEvent)
    → In x (events ++ c ∷ [])
    → In x events ⊎ (c ≡ x)
In-append_one [] c x m = elim (In-cons m) [ inl e ↦ inr e | inr later ↦ elim later [ ] ]
In-append_one (e ∷ events) c x m = elim (In-cons m) [
  | inl same ↦ inl (subst (λ y. In y (e ∷ events)) same here)
  | inr later ↦ elim (In-append_one events c x later) [
    | inl n ↦ inl (there n)
    | inr same ↦ inr same
  ]
]

IsDistinct-append :
    (events : List NormalizedEvent) (c : NormalizedEvent)
    → IsDistinct events
    → ((x : NormalizedEvent) → In x events → entity x ≢ entity c)
    → IsDistinct (events ++ c ∷ [])
IsDistinct-append [] c d new = ((λ x m. elim m [ ]), tt)
IsDistinct-append (e ∷ events) c d new = (
  (λ x m. elim (In-append_one events c x m) [
    | inl n ↦ d.0 x n
    | inr same ↦ λ eq. new e here (sym (ap entity same ∙ eq))
  ]),
  IsDistinct-append events c d.1 (λ x m. new x (there m)),
)

-- What is collected was seen, and is there once.
record IsRecorded (v : Visit) : Type 0 where
  listed : (x : NormalizedEvent) → In x v.descendants → contains v.seen (entity x) ≡ true
  distinct : IsDistinct v.descendants

seen_clash :
    (seen : List String) (a b : String)
    → a ≡ b
    → contains seen a ≡ true
    → contains seen b ≡ false
    → ⊥
seen_clash seen a b same h k =
    absurd (ground (arith, subst (λ y. contains seen y ≡ true) same h, k))

module _ (by_entity : Dict NormalizedEvent) where
  visited-IsRecorded :
      (v : Visit) (child : NormalizedEvent)
      → is_skipped v child ≡ false
      → IsRecorded v
      → IsRecorded (visited by_entity v child)
  visited-IsRecorded v child go r = record {
    listed = λ x m. elim (In-append_one v.descendants child x m) [
      | inl n ↦ ground (arith, r.listed x n)
      | inr same ↦ ground (arith, ap entity same, eq_iff (entity child) (entity x))
    ];
    distinct = IsDistinct-append v.descendants child r.distinct (λ x m same.
        seen_clash v.seen (entity x) (entity child) same (r.listed x m) (ground (arith, go)));
  }

  visit_children-IsRecorded :
      (visit : String → Visit → Option Visit)
      → ((id : String) (v v' : Visit) → visit id v ≡ some v' → IsRecorded v → IsRecorded v')
      → (events : List NormalizedEvent) (v v' : Visit)
      → visit_children by_entity visit events v ≡ some v'
      → IsRecorded v
      → IsRecorded v'
  unfolding visit_children
  visit_children-IsRecorded visit keeps [] v v' h r = subst IsRecorded (some-injective v v' h) r
  visit_children-IsRecorded visit keeps (child ∷ rest) v v' h r =
      elim (Bool-cases (is_skipped v child)) [
        | inl skip ↦
            visit_children-IsRecorded visit keeps rest v v' (rw (skip, visit_children) at h) r
        | inr go ↦ elim (Option-cases (visit (entity child) (visited by_entity v child))) [
          | inl e ↦ absurd (some-ne-none v' (sym (rw (go, visit_children, e) at h)))
          | inr (w, e) ↦
              visit_children-IsRecorded visit keeps rest w v' (rw (go, visit_children, e) at h) (
                keeps (entity child) (visited by_entity v child) w e
                  (visited-IsRecorded v child go r))
        ]
      ]

  visit_descendants-IsRecorded :
      (process_events : List NormalizedEvent) (fuel : ℕ) (id : String) (v v' : Visit)
      → visit_descendants by_entity process_events fuel id v ≡ some v'
      → IsRecorded v
      → IsRecorded v'
  unfolding visit_descendants
  visit_descendants-IsRecorded process_events zero id v v' h r = absurd (some-ne-none v' (sym h))
  visit_descendants-IsRecorded process_events (suc fuel) id v v' h r =
      visit_children-IsRecorded (visit_descendants by_entity process_events fuel)
        (visit_descendants-IsRecorded process_events fuel) (children process_events id) v v' h r

mapped {ℓ κ} :
    {A : Type ℓ} {B : Type κ} (f : A → B) (o : Option A) (b : B)
    → Option.map f o ≡ some b
    → (a : A) × (o ≡ some a) × (f a ≡ b)
mapped f none b h = absurd (some-ne-none b (sym h))
mapped f (some a) b h = (a, refl, some-injective (f a) b h)

module _ (tenant_id process_entity_id : String) (host : Option String) (g : ProcessGraph) where
  descend_from-IsDistinct :
      (ordered process_events : List NormalizedEvent) (by_entity : Dict NormalizedEvent)
      (target : NormalizedEvent) (o : Option (List NormalizedEvent))
      → descend_from tenant_id process_entity_id host ordered process_events by_entity target o
        ≡ some g
      → IsDistinct g.descendants
  unfolding descend_from
  descend_from-IsDistinct ordered process_events by_entity target none h =
      absurd (some-ne-none g (sym h))
  descend_from-IsDistinct ordered process_events by_entity target (some ancestors) h =
      let start : Visit = record {
        seen = [];
        descendants = [];
        gaps = append_gaps by_entity [] (target ∷ ancestors);
      } in
      let fuel = suc (length process_events) in
      let (v, walked, made) =
        mapped (graph_of tenant_id process_entity_id host ordered target ancestors)
          (visit_descendants by_entity process_events fuel process_entity_id start) g h in
      let r =
        visit_descendants-IsRecorded by_entity process_events fuel process_entity_id start v walked
          (record { listed = λ x m. elim m [ ]; distinct = tt }) in
      subst IsDistinct (ap (λ (x : ProcessGraph). x.descendants) made) r.distinct

  graph_from-IsDistinct :
      (ordered process_events : List NormalizedEvent) (by_entity : Dict NormalizedEvent)
      (o : Option NormalizedEvent)
      → graph_from tenant_id process_entity_id host ordered process_events by_entity o
        ≡ some (some g)
      → IsDistinct g.descendants
  unfolding graph_from
  graph_from-IsDistinct ordered process_events by_entity none h =
      absurd (some-ne-none g (sym (some-injective _ _ h)))
  graph_from-IsDistinct ordered process_events by_entity (some target) h =
      let (x, found, same) = mapped some _ (some g) h in
      descend_from-IsDistinct ordered process_events by_entity target _
        (found ∙ ap some (some-injective x g same))

  -- However the parents of the events are connected, the graph lists no process twice among the
  -- descendants.
  pub build_process_graph-IsDistinct :
      (events : List NormalizedEvent)
      → build_process_graph events tenant_id process_entity_id host ≡ some (some g)
      → IsDistinct g.descendants
  unfolding build_process_graph
  build_process_graph-IsDistinct events h =
      let ordered = ascending (λ (e : NormalizedEvent). e.timestamp) events in
      let process_events = select is_process_event ordered in
      let by_entity = index_entities [] process_events in
      graph_from-IsDistinct ordered process_events by_entity (Dict.get process_entity_id by_entity)
        h
