-- ===== src/Investigation/Chain/Ends.antt =====
-- That the chain of a process ends, and what stands in it (api/app.py, process_chain).
use mathlib.Core.Option
use mathlib.Core.Option.{some-injective, some-ne-none}
use shigure_edr.Base.{
  ℕ, zero, suc, String, ◌≡◌, ◌<◌, refl, sym, subst, ◌∙◌, ap, true, false, not, ◌&&◌, Option, none,
  some, List, [], ◌∷◌, ◌==◌, arith, map, length, contains, is_text, or_default, if◌then◌else◌,
  Option-cases, Bool-cases, inl, inr, ◌⊎◌, In, here, there, length-map, eq_iff,
}
use shigure_edr.Base.Dict
use shigure_edr.Base.Dict.{Dict, get-put}
use shigure_edr.Events.{NormalizedEvent}
use shigure_edr.Graph.Seen.{unseen, unseen-le-length, unseen-cons-lt}
use shigure_edr.Investigation.Chain.{
  index_by, next_in, follow, chain_in, ProcessChain, entity_of, pid_of, entity_answer, pid_answer,
}

module _ (key : NormalizedEvent → Option String) where
  abbrev pub keys : List NormalizedEvent → List String
  keys events = map (λ e. or_default (key e) "") events

  -- An entry of the index is an event with that key, or was there before.
  index_by_entry :
      (d : Dict NormalizedEvent) (events : List NormalizedEvent) (k : String) (e : NormalizedEvent)
      → Dict.get k (index_by key d events) ≡ some e
      → (Dict.get k d ≡ some e) ⊎ (In k (keys events) × (or_default (key e) "" ≡ k))
  unfolding index_by
  index_by_entry d [] k e h = inl h
  index_by_entry d (x ∷ events) k e h =
      elim (index_by_entry (if is_text (key x) then Dict.put (or_default (key x) "") x d else d)
        events k e h) [
          | inr (m, same) ↦ inr (there m, same)
          | inl g ↦ elim (Bool-cases (is_text (key x))) [
            | inr t ↦ inl (rw t at g)
            | inl t ↦ elim (Bool-cases (or_default (key x) "" == k)) [
              | inr other ↦ inl (ground (arith, get-put (or_default (key x) "") k x d, other, t, g))
              | inl same ↦
                  let at = (eq_iff (or_default (key x) "") k).0 same in
                  let found : some x ≡ some e =
                    ground (arith, get-put (or_default (key x) "") k x d, same, t, g) in
                  let is_x = some-injective x e found in
                  inr (
                    subst (λ j. In j (keys (x ∷ events))) at here,
                    ap (λ y. or_default (key y) "") (sym is_x) ∙ at,
                  )
            ]
          ]
        ]

module _ (key parent : NormalizedEvent → Option String) where
  -- The head of a chain has the identifier that was asked for.
  abbrev pub StartsAt : Option String → List NormalizedEvent → Type 0
  StartsAt current [] = Unit
  StartsAt current (e ∷ chain) = or_default (key e) "" ≡ or_default current ""

  -- Each event is followed by one of its parent.
  abbrev pub IsLineage : List NormalizedEvent → Type 0
  IsLineage [] = Unit
  IsLineage (e ∷ chain) = StartsAt (parent e) chain × IsLineage chain

module _ (key parent : NormalizedEvent → Option String) (events : List NormalizedEvent) where
  unfoldable pub index : Dict NormalizedEvent
  index = index_by key [] events

  next_in_lem :
      (seen : List String) (current : Option String) (e : NormalizedEvent)
      → next_in index seen current ≡ some e
      → In (or_default current "") (keys key events)
        × (or_default (key e) "" ≡ or_default current "")
        × (contains seen (or_default current "") ≡ false)
  unfolding index Dict.get
  next_in_lem seen current e h =
      elim (Bool-cases (is_text current && not (contains seen (or_default current "")))) [
        | inr stop ↦ absurd (some-ne-none e (sym (rw stop at h)))
        | inl go ↦ elim (index_by_entry key [] events (or_default current "") e (rw go at h)) [
          | inl old ↦ absurd (some-ne-none e (sym (nothing (or_default current "") old)))
          | inr (m, same) ↦ (m, same, ground (arith, go))
        ]
      ]
    where
      nothing : (k : String) → Dict.get {V = NormalizedEvent} k [] ≡ some e → none ≡ some e
      nothing k q = q

  followed :
      (fuel : ℕ) (seen : List String) (current : Option String) (e : NormalizedEvent)
      → next_in index seen current ≡ some e
      → follow parent index (suc fuel) seen current
        ≡ Option.map
            (λ chain. e ∷ chain)
            (follow parent index fuel (or_default current "" ∷ seen) (parent e))
  unfolding follow
  followed fuel seen current e h = rw (h, follow) refl

  pub follow_lem :
      (fuel : ℕ) (seen : List String) (current : Option String)
      → unseen seen (keys key events) < fuel
      → (chain : List NormalizedEvent) × (follow parent index fuel seen current ≡ some chain)
        × StartsAt key parent current chain
        × IsLineage key parent chain
  unfolding follow
  follow_lem zero seen current h = absurd (ground arith)
  follow_lem (suc fuel) seen current h = elim (Option-cases (next_in index seen current)) [
    | inl e ↦ ([], rw (e, follow) refl, tt, tt)
    | inr (e, found) ↦
        let (m, same, fresh) = next_in_lem seen current e found in
        let seen' = or_default current "" ∷ seen in
        let (chain, ended, starts, lineage) = follow_lem fuel seen' (parent e) (
          ground
            (arith, unseen-cons-lt (or_default current "") seen (keys key events) m fresh, h)) in
        (
          e ∷ chain,
          followed fuel seen current e found ∙ ap (Option.map (λ rest. e ∷ rest)) ended,
          same,
          (starts, lineage),
        )
  ]

enough :
    (key : NormalizedEvent → Option String) (events : List NormalizedEvent)
    → unseen [] (keys key events) < suc (length events)
enough key events = omega (
  arith,
  unseen-le-length [] (keys key events),
  length-map (λ (e : NormalizedEvent). or_default (key e) "") events,
)

both : (o : Option String) → is_text o ≡ true → is_text o ≡ false → ⊥
both o t f = cc

-- The chain of a process is found whatever the events are: the walk ends, also where parents form a
-- cycle; the chain starts at the process that was asked for, and each event in it is followed by
-- one of its parent.
pub chain_in_lem :
    (events : List NormalizedEvent) (process_id process_entity_id : Option String)
    → (found : ProcessChain) × (chain_in events process_id process_entity_id ≡ some found)
      × (is_text process_entity_id ≡ true
          → StartsAt entity_of (λ e. e.parent_process_entity_id) process_entity_id found.chain
            × IsLineage entity_of (λ e. e.parent_process_entity_id) found.chain)
      × (is_text process_entity_id ≡ false
          → StartsAt pid_of (λ e. e.parent_process_id) process_id found.chain
            × IsLineage pid_of (λ e. e.parent_process_id) found.chain)
unfolding chain_in index
chain_in_lem events process_id process_entity_id = elim (Bool-cases (is_text process_entity_id)) [
  | inl t ↦
      let (chain, ended, starts, lineage) =
        follow_lem entity_of (λ e. e.parent_process_entity_id) events (suc (length events)) []
          process_entity_id (enough entity_of events) in
      let answer =
        entity_answer process_id process_entity_id events (index_by entity_of [] events) in
      (
        answer chain,
        rw t (ap (Option.map answer) ended),
        λ _. (starts, lineage),
        λ f. absurd (both process_entity_id t f),
      )
  | inr f ↦
      let (chain, ended, starts, lineage) =
        follow_lem pid_of (λ e. e.parent_process_id) events (suc (length events)) [] process_id
          (enough pid_of events) in
      (
        pid_answer process_id events chain,
        rw f (ap (Option.map (pid_answer process_id events)) ended),
        λ t. absurd (both process_entity_id t f),
        λ _. (starts, lineage),
      )
]
