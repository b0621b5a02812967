-- ===== src/Catalog/Spec.antt =====
-- The schema vocabulary and the definitions of endpoint tasks, with their validation
-- (api/task_catalog.py, classes ArgumentSpec and TaskDefinition).
use mathlib.Core.Option
use shigure_edr.Base.{
  String, ◌<>◌, Bool, true, false, not, ◌&&◌, ◌||◌, Option, none, some, List, [], ◌∷◌, contains,
  ◌==◌, if◌then◌else◌,
}
use shigure_edr.Base.{Result, ok, task_argument_error, ◌>>◌, guard}
use shigure_edr.Base.Int.{ℤ, ltz}
use shigure_edr.Base.Dict
use shigure_edr.Base.Dict.{Dict}
use shigure_edr.Json.{
  Json, null, bool, int, str, arr, obj, fields, strings, is_str, is_bool, is_int, put_some,
}

pub record ArgumentSpec : Type 0 where
  pub type : String
  pub required : Bool
  pub enum : Option (List String)
  pub minimum : Option ℤ
  pub maximum : Option ℤ
  pub default : Option Json

unfoldable pub argument_spec_as_dict : ArgumentSpec → Dict Json
unfolding Dict.put
argument_spec_as_dict spec =
    let out = Dict.put "type" (str spec.type) [] in
    let out = put_some "enum" (Option.map (λ names. arr (strings names)) spec.enum) out in
    let out = put_some "minimum" (Option.map int spec.minimum) out in
    let out = put_some "maximum" (Option.map int spec.maximum) out in
    let out = put_some "default" spec.default out in
    if spec.required then Dict.put "required" (bool true) out else out

-- `value < bound` and `value > bound` where the value is an `int` that is no `bool`.
abbrev pub below : Json → Option ℤ → Bool
below (int n) (some m) = ltz n m
below _ _ = false

abbrev pub above : Json → Option ℤ → Bool
above (int n) (some m) = ltz m n
above _ _ = false

-- `value in self.enum`, for an enumeration of texts.
abbrev pub in_enum : Json → List String → Bool
in_enum (str s) names = contains names s
in_enum _ names = false

abbrev pub enum_ok : Json → Option (List String) → Bool
enum_ok v none = true
enum_ok v (some names) = in_enum v names

unfoldable pub validate : ArgumentSpec → String → Json → Result (Unit {0})
validate spec name value =
    let invalid = task_argument_error ("task_arg_" <> name <> "_invalid") in
    do
      guard (not (spec.type == "string" && not (is_str value))) invalid
      guard (not (spec.type == "boolean" && not (is_bool value))) invalid
      guard (not (spec.type == "integer" && (not (is_int value) || is_bool value))) invalid
      guard (not (spec.type == "integer" && below value spec.minimum)) invalid
      guard (not (spec.type == "integer" && above value spec.maximum)) invalid
      guard (enum_ok value spec.enum) invalid

pub record TaskDefinition : Type 0 where
  pub task_type : String
  pub title : String
  pub description : String
  pub platforms : List String
  pub risk : String
  pub destructive : Bool
  pub args_schema : Dict ArgumentSpec
  pub requires_explicit_dispatch : Bool

abbrev specs_as_dict : Dict ArgumentSpec → Dict Json
specs_as_dict [] = []
specs_as_dict ((name, spec) ∷ rest) =
    (name, obj (fields (argument_spec_as_dict spec))) ∷ specs_as_dict rest

unfoldable pub task_definition_as_dict : TaskDefinition → Dict Json
task_definition_as_dict d =
    let out : Dict Json =
      ("task_type", str d.task_type)
      ∷ ("title", str d.title)
      ∷ ("description", str d.description)
      ∷ ("platforms", arr (strings d.platforms))
      ∷ ("risk", str d.risk)
      ∷ ("destructive", bool d.destructive)
      ∷ ("args_schema", obj (fields (specs_as_dict d.args_schema)))
      ∷ [] in
    if d.requires_explicit_dispatch
    then Dict.put "requires_explicit_dispatch" (bool true) out
    else out

-- The first loop of `validate_args`: every argument is in the schema.
unfoldable pub check_known : Dict ArgumentSpec → Dict Json → Result (Unit {0})
unfolding Dict.get
check_known schema [] = ok tt
check_known schema ((name, value) ∷ args) = do
  guard (Dict.has name schema) (task_argument_error ("task_arg_" <> name <> "_unknown"))
  check_known schema args

-- `name not in args or args.get(name) in (None, "")`
abbrev pub is_missing : Option Json → Bool
is_missing none = true
is_missing (some null) = true
is_missing (some (str s)) = s == ""
is_missing (some _) = false

abbrev pub validate_some : ArgumentSpec → String → Option Json → Result (Unit {0})
validate_some spec name none = ok tt
validate_some spec name (some value) = validate spec name value

-- The second loop: required arguments are there, and those that are there fit their spec.
unfoldable pub check_specs : Dict ArgumentSpec → Dict Json → Result (Unit {0})
unfolding Dict.get
check_specs [] args = ok tt
check_specs ((name, spec) ∷ schema) args = do
  guard (not (spec.required && is_missing (Dict.get name args)))
      (task_argument_error ("task_arg_" <> name <> "_required"))
  validate_some spec name (Dict.get name args)
  check_specs schema args

unfoldable pub validate_args : TaskDefinition → Dict Json → Result (Unit {0})
unfolding check_known check_specs
validate_args d args = do check_known d.args_schema args; check_specs d.args_schema args
