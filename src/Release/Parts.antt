-- ===== src/Release/Parts.antt =====
-- When each part of a report gives no failure (api/release_validation.py).
use mathlib.Core.Option.{some-injective, some-ne-none}
use shigure_edr.Base.{
  ◌&&◌, ◌==◌, if◌then◌else◌, subst, test_of_ne, Bool-cases, String, ◌≡◌, refl, sym, ap, ◌∙◌, ◌↔◌,
  true, false, not, Option, none, some, List, [], ◌∷◌, ◌++◌, arith, contains, eq_iff, In, inl, inr,
}
use shigure_edr.Base.Dict
use shigure_edr.Base.Dict.{Dict}
use shigure_edr.Json.{
  Json, null, bool, int, float, str, arr, obj, Items, nil, cons, Fields, entries, elements, truthy,
}
use shigure_edr.Evidence.{Codec, text_or_empty}
use shigure_edr.Release.{
  is_truthy, mapping, fail_unless, status_of, has_evidence, gate_failures, validate_gate_map,
  scenarios_from, scenario_failures, validate_load_scenarios, blocker_failures, blocker_review,
  validate_known_gap_review, printed, doc_failure, validate_docs,
}
use shigure_edr.Release.Report.{
  scenario_names, blocker_names, document_names, as_text, has_text, is_named, last_with, HasPassed,
  IsPassedGate, ArePassedGates, IsMeasured, AreMeasured, IsClearReview, AreDocumented,
}
use shigure_edr.Release.Failures.{
  nil_parts, nil_whole, each-nil, nil-each, fail_unless-nil, nil-fail_unless, cons-ne-nil, not-true,
  object_cases, array_cases, target_cases,
}

module _ (codec : Codec) where
  HasPassed-iff :
      (d : Dict Json) (a b : String)
      → (fail_unless (status_of codec d == "passed") a ++ fail_unless (has_evidence codec d) b ≡ [])
        ↔ HasPassed codec d
  HasPassed-iff d a b = (
    λ h.
        let (status, evidence) = nil_parts _ _ h in
        record {
          passed = (eq_iff (status_of codec d) "passed").0 (fail_unless-nil _ _ status);
          evidence = λ blank. absurd (blank_ne _ (fail_unless-nil _ _ evidence) blank);
        },
    λ p.
        nil_whole _ _ (nil-fail_unless _ _ ((eq_iff (status_of codec d) "passed").1 p.passed))
          (nil-fail_unless _ _ (ap not (test_of_ne _ "" p.evidence))),
  )
    where
      blank_ne : (t : String) → not (t == "") ≡ true → t ≡ "" → ⊥
      blank_ne t h e = ground (arith, (eq_iff t "").1 e, h)

  gate_of_nil :
      (id : String) (raw : Option Json)
      → gate_failures codec id (mapping raw) ≡ []
      → IsPassedGate codec raw
  gate_of_nil id raw h = elim (object_cases raw) [
    | inl e ↦ absurd (cons-ne-nil (rw e at h))
    | inr (gate, e) ↦ record {
      gate = gate;
      shape = e;
      passed = (HasPassed-iff (entries gate) _ _).0 (rw e at h);
    }
  ]

  nil_of_gate :
      (id : String) (raw : Option Json)
      → IsPassedGate codec raw
      → gate_failures codec id (mapping raw) ≡ []
  nil_of_gate id raw g = rw g.shape ((HasPassed-iff (entries g.gate) _ _).1 g.passed)

  pub gates_iff :
      (gate_group : String) (raw : Option Json) (required : List String)
      → (validate_gate_map codec gate_group raw required ≡ []) ↔ ArePassedGates codec raw required
  unfolding validate_gate_map
  gates_iff gate_group raw required = (
    λ h. elim (object_cases raw) [
      | inl e ↦ absurd (cons-ne-nil (rw e at h))
      | inr (gates, e) ↦ record {
        gates = gates;
        shape = e;
        each_gate = λ id m.
            gate_of_nil id (Dict.get id (entries gates)) (each-nil _ required (rw e at h) id m);
      }
    ],
    λ g. rw g.shape (
        nil-each _ required
          (λ id m. nil_of_gate id (Dict.get id (entries g.gates)) (g.each_gate id m))),
  )

  is_named_lem :
      (id : String) (o : Option Json)
      → is_named codec id o ≡ (is_truthy o && text_or_empty codec o == id)
  is_named_lem id none = refl
  is_named_lem id (some null) = refl
  is_named_lem id (some (bool b)) = ground arith
  is_named_lem id (some (int n)) = ground arith
  is_named_lem id (some (float r)) = ground arith
  is_named_lem id (some (str s)) = refl
  is_named_lem id (some (arr vs)) = ground arith
  is_named_lem id (some (obj d)) = ground arith

  scenarios_from_lem :
      (id : String) (found : Dict Json) (vs : Items)
      → Dict.get id (scenarios_from codec found (elements vs))
        ≡ last_with codec id (Dict.get id found) vs
  scenarios_from_lem id found nil = refl
  scenarios_from_lem id found (cons null vs) = scenarios_from_lem id found vs
  scenarios_from_lem id found (cons (bool b) vs) = scenarios_from_lem id found vs
  scenarios_from_lem id found (cons (int n) vs) = scenarios_from_lem id found vs
  scenarios_from_lem id found (cons (float r) vs) = scenarios_from_lem id found vs
  scenarios_from_lem id found (cons (str s) vs) = scenarios_from_lem id found vs
  scenarios_from_lem id found (cons (arr ws) vs) = scenarios_from_lem id found vs
  scenarios_from_lem id found (cons (obj d) vs) =
      let o = Dict.get "id" (entries d) in
      let k = text_or_empty codec o in
      elim (Bool-cases (is_truthy o)) [
        | inl e ↦
            let named = is_named_lem id o ∙ ap (λ b. b && k == id) e in
            rw e (scenarios_from_lem id (Dict.put k (obj d) found) vs)
            ∙ ap (λ x. last_with codec id x vs)
                (Dict.get-put k id (obj d) found
                  ∙ ap (λ b. if b then some (obj d) else Dict.get id found) (sym named))
        | inr e ↦
            let named = is_named_lem id o ∙ ap (λ b. b && k == id) e in
            rw e (scenarios_from_lem id found vs)
            ∙ ap (λ x. last_with codec id x vs)
                (ap (λ b. if b then some (obj d) else Dict.get id found) (sym named))
      ]

  scenario_of_nil :
      (id : String) (raw : Option Json)
      → scenario_failures codec id (mapping raw) ≡ []
      → IsMeasured codec raw
  scenario_of_nil id raw h = elim (object_cases raw) [
    | inl e ↦ absurd (cons-ne-nil (rw e at h))
    | inr (scenario, e) ↦
        let (v, vs, targets) = target_cases _ (fail_unless-nil _ _ (rw e at h)) in
        record { scenario = scenario; shape = e; target = v; targets = vs; measured = targets }
  ]

  nil_of_scenario :
      (id : String) (raw : Option Json)
      → IsMeasured codec raw
      → scenario_failures codec id (mapping raw) ≡ []
  nil_of_scenario id raw g = rw (g.shape, g.measured) refl

  pub load_iff :
      (raw : Option Json) → (validate_load_scenarios codec raw ≡ []) ↔ AreMeasured codec raw
  unfolding validate_load_scenarios
  load_iff raw =
      let failures = λ (vs : Items) (id : String).
        scenario_failures codec id
          (mapping (Dict.get id (scenarios_from codec [] (elements vs)))) in
      (
        λ h. elim (array_cases raw) [
          | inl e ↦ absurd (cons-ne-nil (rw e at h))
          | inr (vs, e) ↦ record {
            scenarios = vs;
            shape = e;
            each_scenario = λ id m.
                subst (IsMeasured codec) (scenarios_from_lem id [] vs)
                  (scenario_of_nil id _ (each-nil (failures vs) scenario_names (rw e at h) id m));
          }
        ],
        λ g. rw g.shape (
            nil-each (failures g.scenarios) scenario_names (λ id m. nil_of_scenario id _ (
              subst (IsMeasured codec) (sym (scenarios_from_lem id [] g.scenarios))
                (g.each_scenario id m)))),
      )

  clear_of_nil :
      (id : String) (o : Option Json) (v : Json)
      → blocker_failures codec id o ≡ []
      → o ≡ some v
      → truthy v ≡ false
  clear_of_nil id none v h e = absurd (some-ne-none v (sym e))
  clear_of_nil id (some w) v h e =
      ap truthy (sym (some-injective w v e)) ∙ not-true (truthy w) (fail_unless-nil _ _ h)

  nil_of_clear :
      (id : String) (o : Option Json)
      → ((v : Json) → o ≡ some v → truthy v ≡ false)
      → blocker_failures codec id o ≡ []
  nil_of_clear id none clear = refl
  nil_of_clear id (some v) clear = rw (clear v refl) refl

  blockers_of_nil :
      (raw : Option Json)
      → (blocker_review codec (mapping raw)).0 ≡ []
      → (blockers : Fields) × (raw ≡ some (obj blockers))
        × ((id : String)
            → In id blocker_names
            → (v : Json) → Dict.get id (entries blockers) ≡ some v
            → truthy v ≡ false)
  blockers_of_nil raw h = elim (object_cases raw) [
    | inl e ↦ absurd (cons-ne-nil (rw e at h))
    | inr (blockers, e) ↦ (
      blockers,
      e,
      λ id m v.
          clear_of_nil id (Dict.get id (entries blockers)) v
            (each-nil _ blocker_names (rw e at h) id m),
    )
  ]

  pub review_iff :
      (raw : Option Json) → ((validate_known_gap_review codec raw).0 ≡ []) ↔ IsClearReview codec raw
  unfolding validate_known_gap_review
  review_iff raw = (
    λ h. elim (object_cases raw) [
      | inl e ↦ absurd (cons-ne-nil (rw e at h))
      | inr (review, e) ↦
          let (both, blocked) = nil_parts _ _ (rw e at h) in
          let (blockers, reviewed, clear) =
            blockers_of_nil (Dict.get "blockers" (entries review)) blocked in
          record {
            review = review;
            shape = e;
            passed = (HasPassed-iff (entries review) _ _).0 both;
            blockers = blockers;
            reviewed = reviewed;
            clear = clear;
          }
    ],
    λ g. rw g.shape (
        nil_whole _ _ ((HasPassed-iff (entries g.review) _ _).1 g.passed) (
          rw g.reviewed (
            nil-each _ blocker_names
              (λ id m. nil_of_clear id (Dict.get id (entries g.blockers)) (g.clear id m))))),
  )

  printed-as_text :
      (v : Json) (vs : List Json) → printed codec (v ∷ vs) ≡ as_text codec v ∷ printed codec vs
  printed-as_text null vs = refl
  printed-as_text (bool b) vs = refl
  printed-as_text (int n) vs = refl
  printed-as_text (float r) vs = refl
  printed-as_text (str s) vs = refl
  printed-as_text (arr ws) vs = refl
  printed-as_text (obj d) vs = refl

  printed_lem :
      (doc : String) (vs : Items)
      → contains (printed codec (elements vs)) doc ≡ has_text codec doc vs
  printed_lem doc nil = refl
  printed_lem doc (cons v vs) =
      ap (λ texts. contains texts doc) (printed-as_text v (elements vs))
      ∙ ground (arith, printed_lem doc vs)

  pub docs_iff : (raw : Option Json) → (validate_docs codec raw ≡ []) ↔ AreDocumented codec raw
  unfolding validate_docs
  docs_iff raw = (
    λ h. elim (array_cases raw) [
      | inl e ↦ absurd (cons-ne-nil (rw e at h))
      | inr (documents, e) ↦ record {
        documents = documents;
        shape = e;
        each_document = λ doc m.
            sym (printed_lem doc documents)
            ∙ fail_unless-nil _ _ (
                each-nil (doc_failure codec (elements documents)) document_names (rw e at h) doc m);
      }
    ],
    λ g. rw g.shape (
        nil-each (doc_failure codec (elements g.documents)) document_names
          (λ doc m. nil-fail_unless _ _ (printed_lem doc g.documents ∙ g.each_document doc m))),
  )
