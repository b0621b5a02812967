-- ===== src/Rules.antt =====
-- Custom detection rules (core/rules.py) and how they are loaded; Matching has how they are met. The file of rules comes as the value that `yaml` reads.
pub mod Matching
use mathlib.Core.Option
use shigure_edr.Base.{
  ℕ, String, ◌<>◌, Bool, true, false, not, ◌&&◌, Option, none, some, List, [], ◌∷◌, ◌==◌,
  if◌then◌else◌, or_default, map, contains,
}
use shigure_edr.Base.{Result, ok, err, value_error, type_error, key_error, ◌>>=◌, ◌>>◌, guard}
use shigure_edr.Base.Dict
use shigure_edr.Base.Dict.{Dict}
use shigure_edr.Json.{Json, null, str, arr, obj, nil, truthy, entries, elements}
use shigure_edr.Text.{lower, upper, has_text}
use shigure_edr.Events.{Time, NormalizedEvent, Alert, event_type_value}

-- What the rules take from Python: `str` of values that are no text, and `re.search` of a pattern
-- that a rule gives.
pub record Python : Type 0 where
  pub print : Json → String
  pub print_time : Time → String
  pub print_number : ℕ → String
  pub print_texts : List String → String
  pub print_dict : Dict Json → String
  pub regex_search : String → String → Bool

-- `field`, `op` and `value` of the source.
pub record RuleCondition : Type 0 where
  pub attribute : String
  pub op : String
  pub value : Json

pub record GenericRule : Type 0 where
  pub rule_id : String
  pub title : String
  pub severity : String
  pub mitre : List String
  pub event_type : Json
  pub conditions : List RuleCondition
  pub description : String

abbrev severities : List String
severities = "info" ∷ "low" ∷ "medium" ∷ "high" ∷ "critical" ∷ []

-- `d[k]`
abbrev item_at : String → Dict Json → Result Json
item_at k d = elim (Dict.get k d) [ none ↦ err (key_error k) | some v ↦ ok v ]

-- A value on which `get` is called.
abbrev mapping : Json → Result (Dict Json)
mapping (obj d) = ok (entries d)
mapping _ = err type_error

-- `for x in value`
unfoldable pub chars : String → List Json
chars String.[] = []
chars (String.◌∷◌ c s) = str (String.◌∷◌ c String.[]) ∷ chars s

abbrev keys : Dict Json → List Json
keys [] = []
keys ((k, v) ∷ d) = str k ∷ keys d

abbrev pub each : Json → Result (List Json)
each (arr vs) = ok (elements vs)
each (obj d) = ok (keys (entries d))
each (str s) = ok (chars s)
each _ = err type_error

-- `for x in value or []`
abbrev pub each_of : Json → Result (List Json)
each_of v = if truthy v then each v else ok []

abbrev get_or_null : String → Dict Json → Json
get_or_null k d = or_default (Dict.get k d) null

module _ (py : Python) where
  -- `str(value)`
  abbrev pub text : Json → String
  text (str s) = s
  text v = py.print v

  unfoldable pub condition_of : Json → Result RuleCondition
  unfolding Dict.get
  condition_of c = do
    d ← mapping c
    attribute ← item_at "field" d
    ok (record {
      attribute = text attribute;
      op = text (or_default (Dict.get "op" d) (str "equals"));
      value = get_or_null "value" d;
    })

  unfoldable pub conditions_of : List Json → Result (List RuleCondition)
  unfolding condition_of
  conditions_of [] = ok []
  conditions_of (c ∷ cs) = do
    condition ← condition_of c
    conditions ← conditions_of cs
    ok (condition ∷ conditions)

  unfoldable pub rule_of : Json → Result GenericRule
  unfolding conditions_of lower Dict.get chars
  rule_of item = do
    d ← mapping item
    rule_id ← item_at "rule_id" d
    title ← item_at "title" d
    let severity = lower (text (or_default (Dict.get "severity" d) (str "medium")))
    guard (contains severities severity) (value_error "not a valid Severity")
    mitre ← each_of (get_or_null "mitre" d)
    cs ← each_of (get_or_null "conditions" d)
    conditions ← conditions_of cs
    ok (record {
      rule_id = text rule_id;
      title = text title;
      severity = severity;
      mitre = map text mitre;
      event_type = get_or_null "event_type" d;
      conditions = conditions;
      description =
          let given = get_or_null "description" d in if truthy given then text given else "";
    })

  unfoldable pub rules_of : List Json → Result (List GenericRule)
  unfolding rule_of
  rules_of [] = ok []
  rules_of (item ∷ items) = do rule ← rule_of item; rules ← rules_of items; ok (rule ∷ rules)

  -- `none` is a path that is empty or where no file is.
  unfoldable pub load_rules : Option Json → Result (List GenericRule)
  unfolding rules_of Dict.get chars
  load_rules none = ok []
  load_rules (some loaded) = do
    d ← if truthy loaded then mapping loaded else ok []
    items ← each (or_default (Dict.get "rules" d) (arr nil))
    rules_of items
