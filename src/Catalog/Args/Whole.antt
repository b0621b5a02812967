-- ===== src/Catalog/Args/Whole.antt =====
-- When the arguments of a task are accepted as a whole (api/task_catalog.py,
-- TaskDefinition.validate_args): both loops against a description of the accepted dicts.
use mathlib.Core.Path.{subst}
use mathlib.Core.Option.{some-injective}
use shigure_edr.Base.{
  String, ◌≡◌, refl, ◌≢◌, ◌↔◌, true, false, not, ◌&&◌, Option, none, some, [], ◌∷◌, arith, ◌==◌,
  eq_iff, ok, In, here, there, In-cons, inl, inr, Bool-cases, >>-eq-ok, guard-eq-ok,
  task_argument_error, ◌<>◌,
}
use shigure_edr.Base.Dict
use shigure_edr.Base.Dict.{Dict}
use shigure_edr.Json.{Json, null, str}
use shigure_edr.Catalog.Spec.{
  ArgumentSpec, TaskDefinition, is_missing, validate_some, check_known, check_specs, validate_args,
}
use shigure_edr.Catalog.Args.{Fits, Fits-validate, validate-Fits}

-- The arguments that a task of this definition takes.
pub record Accepts (d : TaskDefinition) (args : Dict Json) : Type 0 where
  pub known :
      (name : String) (value : Json) → In (name, value) args → Dict.has name d.args_schema ≡ true
  pub required :
      (name : String) (spec : ArgumentSpec)
      → In (name, spec) d.args_schema
      → spec.required ≡ true
      → (value : Json) × (Dict.get name args ≡ some value) × (value ≢ null) × (value ≢ str "")
  pub fitting :
      (name : String) (spec : ArgumentSpec)
      → In (name, spec) d.args_schema
      → (value : Json) → Dict.get name args ≡ some value
      → Fits spec value

IsGiven : Option Json → Type 0
IsGiven o = (value : Json) × (o ≡ some value) × (value ≢ null) × (value ≢ str "")

IsGiven-of_test : (o : Option Json) → is_missing o ≡ false → IsGiven o
unfolding IsGiven
IsGiven-of_test none h = cc
IsGiven-of_test (some null) h = cc
IsGiven-of_test (some (str s)) h = (str s, refl, λ e. cc, λ e. ground (arith, eq_iff s ""))
IsGiven-of_test (some v) h = (v, refl, λ e. cc, λ e. cc)

test_of_IsGiven : (o : Option Json) → IsGiven o → is_missing o ≡ false
unfolding IsGiven
test_of_IsGiven none (v, e, a, b) = cc
test_of_IsGiven (some null) (v, e, a, b) = absurd (a (cc))
test_of_IsGiven (some (str s)) (v, e, a, b) = elim (Bool-cases (s == "")) [
  | inl t ↦ absurd (b (ground (arith, eq_iff s "")))
  | inr t ↦ t
]
test_of_IsGiven (some v) h = refl

known_of_ok :
    (schema : Dict ArgumentSpec) (args : Dict Json)
    → check_known schema args ≡ ok tt
    → (name : String) (value : Json) → In (name, value) args
    → Dict.has name schema ≡ true
unfolding check_known
known_of_ok schema [] h name value m = elim m [ ]
known_of_ok schema ((k, v) ∷ args) h name value m = elim (In-cons m) [
  | inl same ↦ subst (λ (e : String × Json). Dict.has e.0 schema ≡ true) same (ground arith)
  | inr later ↦ known_of_ok schema args (ground arith) name value later
]

ok_of_known :
    (schema : Dict ArgumentSpec) (args : Dict Json)
    → ((name : String) (value : Json) → In (name, value) args → Dict.has name schema ≡ true)
    → check_known schema args ≡ ok tt
unfolding check_known
ok_of_known schema [] h = refl
ok_of_known schema ((k, v) ∷ args) h =
    rw (h k v here) (ok_of_known schema args (λ name value m. h name value (there m)))

-- What the second loop asks of one entry of the schema.
record EntryFits (args : Dict Json) (name : String) (spec : ArgumentSpec) : Type 0 where
  given : spec.required ≡ true → IsGiven (Dict.get name args)
  fitting : (value : Json) → Dict.get name args ≡ some value → Fits spec value

validate_some-ok :
    (spec : ArgumentSpec) (name : String) (o : Option Json)
    → validate_some spec name o ≡ ok tt
    → (value : Json) → o ≡ some value
    → Fits spec value
validate_some-ok spec name none h value e = cc
validate_some-ok spec name (some v) h value e =
    subst (Fits spec) (some-injective v value e) (Fits-validate spec name v h)

ok-validate_some :
    (spec : ArgumentSpec) (name : String) (o : Option Json)
    → ((value : Json) → o ≡ some value → Fits spec value)
    → validate_some spec name o ≡ ok tt
ok-validate_some spec name none h = refl
ok-validate_some spec name (some v) h = validate-Fits spec v (h v refl) name

module _ (args : Dict Json) where
  EntryFits-of_ok :
      (name : String) (spec : ArgumentSpec) (schema : Dict ArgumentSpec)
      → check_specs ((name, spec) ∷ schema) args ≡ ok tt
      → EntryFits args name spec × (check_specs schema args ≡ ok tt)
  unfolding check_specs
  EntryFits-of_ok name spec schema h =
      let e = >>-eq-ok _ _ h in
      let f = >>-eq-ok _ _ e.1 in
      let present =
        guard-eq-ok (not (spec.required && is_missing (Dict.get name args)))
          (task_argument_error ("task_arg_" <> name <> "_required")) e.0 in
      (
        record {
          given = λ r. IsGiven-of_test (Dict.get name args) (ground (arith, present, r));
          fitting = validate_some-ok spec name (Dict.get name args) f.0;
        },
        f.1,
      )

  first_of_fits :
      (name : String) (spec : ArgumentSpec)
      → EntryFits args name spec
      → not (spec.required && is_missing (Dict.get name args)) ≡ true
  first_of_fits name spec h = elim (Bool-cases spec.required) [
    | inl r ↦ rw (r, test_of_IsGiven _ (h.given r))
    | inr r ↦ rw r
  ]

  fits_of_ok :
      (schema : Dict ArgumentSpec)
      → check_specs schema args ≡ ok tt
      → (name : String) (spec : ArgumentSpec) → In (name, spec) schema
      → EntryFits args name spec
  fits_of_ok [] h name spec m = elim m [ ]
  fits_of_ok ((k, s) ∷ schema) h name spec m =
      let (first, rest) = EntryFits-of_ok k s schema h in
      elim (In-cons m) [
        | inl same ↦ subst (λ (e : String × ArgumentSpec). EntryFits args e.0 e.1) same first
        | inr later ↦ fits_of_ok schema rest name spec later
      ]

  ok_of_fits :
      (schema : Dict ArgumentSpec)
      → ((name : String) (spec : ArgumentSpec) → In (name, spec) schema → EntryFits args name spec)
      → check_specs schema args ≡ ok tt
  unfolding check_specs
  ok_of_fits [] h = refl
  ok_of_fits ((k, s) ∷ schema) h =
      let first = h k s here in
      rw (first_of_fits k s first, ok-validate_some s k (Dict.get k args) first.fitting)
        (ok_of_fits schema (λ name spec m. h name spec (there m)))

Accepts-of_ok :
    (d : TaskDefinition) (args : Dict Json) → validate_args d args ≡ ok tt → Accepts d args
unfolding validate_args IsGiven
Accepts-of_ok d args h =
    let e = >>-eq-ok (check_known d.args_schema args) (check_specs d.args_schema args) h in
    record {
      known = known_of_ok d.args_schema args e.0;
      required = λ name spec m. (fits_of_ok args d.args_schema e.1 name spec m).given;
      fitting = λ name spec m. (fits_of_ok args d.args_schema e.1 name spec m).fitting;
    }

ok_of_Accepts :
    (d : TaskDefinition) (args : Dict Json) → Accepts d args → validate_args d args ≡ ok tt
unfolding validate_args IsGiven
ok_of_Accepts d args h = rw (ok_of_known d.args_schema args h.known) (
    ok_of_fits args d.args_schema
      (λ name spec m. record { given = h.required name spec m; fitting = h.fitting name spec m }))

-- `validate_args` accepts exactly the arguments of which every name is in the schema, every
-- required one is given (neither `None` nor the empty text), and every one that is given fits its
-- spec.
pub validate_args_iff :
    (d : TaskDefinition) (args : Dict Json) → (validate_args d args ≡ ok tt) ↔ Accepts d args
validate_args_iff d args = (Accepts-of_ok d args, ok_of_Accepts d args)
