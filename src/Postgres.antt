-- ===== src/Postgres.antt =====
-- The statements of the control-plane store as PostgreSQL takes them (api/postgres_store.py,
-- _split_sql_script to _translate_insert_or_replace). The case of letters does not count in the
-- patterns; the driver is outside.
pub mod Scripts
use Prim.Native.Char.{Char, code}
use Prim.Native.String.{[], ◌∷◌}
use mathlib.Core.Option
use shigure_edr.Base.{
  ℕ, zero, suc, ◌+◌, ◌-◌, String, ◌<>◌, Bool, true, false, not, ◌&&◌, ◌||◌, Option, none, some, eqb,
  ◌==◌, if◌then◌else◌, map, List, [], ◌∷◌, leb,
}
use shigure_edr.Base.Table.{select}
use shigure_edr.Base.Dict
use shigure_edr.Base.Dict.{Dict}
use shigure_edr.Text.{lower_char, is_space, is_char, lstrip, strip, replace_by}
use shigure_edr.Regex.{word_before, word_after}

abbrev onto_first : Char → List String → List String
onto_first c [] = (c ∷ []) ∷ []
onto_first c (w ∷ ws) = (c ∷ w) ∷ ws

-- `s.split(separator)` for a single character.
unfoldable pub split_on : Char → String → List String
split_on separator [] = "" ∷ []
split_on separator (c ∷ s) =
    let rest = split_on separator s in if is_char separator c then "" ∷ rest else onto_first c rest

unfoldable pub stripped : List String → List String
unfolding strip
stripped [] = []
stripped (part ∷ parts) =
    let rest = stripped parts in if strip part == "" then rest else strip part ∷ rest

unfoldable pub split_sql_script : String → List String
unfolding split_on stripped
split_sql_script script = stripped (split_on ";" script)

-- A pattern at a place of a text: it is given the character before, and gives the rest behind what
-- it matches.
abbrev Pattern : Type 0
Pattern = Option Char → String → Option String

unfoldable size : String → ℕ
size [] = 0
size (c ∷ s) = suc (size s)

-- `re.sub(pattern, new, s)`; `skip` characters are part of a match before them.
unfoldable pub substitute : Pattern → String → ℕ → Option Char → String → String
unfolding size
substitute pattern new skip before [] = []
substitute pattern new (suc skip) before (c ∷ s) = substitute pattern new skip (some c) s
substitute pattern new zero before (c ∷ s) = elim (pattern before (c ∷ s)) [
  | none ↦ c ∷ substitute pattern new 0 (some c) s
  | some rest ↦ new <> substitute pattern new (size s - size rest) (some c) s
]

-- A literal text, and one or more spaces.
unfoldable pub literal : String → String → Option String
literal [] s = some s
literal (x ∷ p) [] = none
literal (x ∷ p) (c ∷ s) =
    let rest = literal p s in if eqb (code (lower_char x)) (code (lower_char c)) then rest else none

abbrev spaced : String → Option String
spaced [] = none
spaced (c ∷ s) = if is_space c then some (lstrip is_space s) else none

abbrev behind_word : Option String → Option String
behind_word none = none
behind_word (some rest) = if word_after rest then none else some rest

-- \border by created_at,\s*rowid\b
unfoldable pub order_by_rowid : Pattern
unfolding literal lstrip
order_by_rowid before s =
    if word_before before
    then none
    else behind_word (
        Option.bind (literal "order by created_at," s)
          (λ rest. literal "rowid" (lstrip is_space rest)))

-- \buser\s+text\b
unfoldable pub user_text : Pattern
unfolding literal lstrip
user_text before s =
    if word_before before
    then none
    else behind_word (Option.bind (Option.bind (literal "user" s) spaced) (literal "text"))

abbrev starts_quote : String → Bool
starts_quote [] = false
starts_quote (c ∷ s) = is_char "\"" c

abbrev is_quote : Option Char → Bool
is_quote none = false
is_quote (some c) = is_char "\"" c

abbrev unquoted : Option String → Option String
unquoted none = none
unquoted (some rest) = if starts_quote rest then none else some rest

-- (?<!")\buser\b(?!")
unfoldable pub user_name : Pattern
unfolding literal
user_name before s =
    if word_before before || is_quote before
    then none
    else unquoted (behind_word (literal "user" s))

unfoldable pub quote_reserved_columns : String → String
unfolding substitute user_text user_name
quote_reserved_columns sql =
    substitute user_name "\"user\"" 0 none (substitute user_text "\"user\" text" 0 none sql)

abbrev words_then : String → Option String → Option String
words_then word none = none
words_then word (some s) = Option.bind (literal word s) spaced

abbrev nonempty : Option String → Option String
nonempty none = none
nonempty (some s) = if s == "" then none else some s

-- What follows `insert or ... into`; the text does not end with spaces.
abbrev inserted_into : String → String → Option String
inserted_into how sql =
    words_then "into" (words_then how (words_then "or" (words_then "insert" (some sql))))

unfoldable pub translate_insert_or_ignore : String → String
unfolding literal lstrip
translate_insert_or_ignore sql = elim (nonempty (inserted_into "ignore" sql)) [
  | none ↦ sql
  | some rest ↦ "insert into " <> (rest <> " on conflict do nothing")
]

-- The longest beginning whose characters pass a test, with the rest.
unfoldable pub span : (Char → Bool) → String → String × String
span p [] = ("", "")
span p (c ∷ s) = let (taken, rest) = span p s in if p c then (c ∷ taken, rest) else ("", c ∷ s)

abbrev is_name_char : Char → Bool
is_name_char c =
    leb 65 (code c) && leb (code c) 90 || leb 97 (code c) && leb (code c) 122 || is_char "_" c

-- The text before its last closing parenthesis.
unfoldable pub before_last : String → Option String
before_last [] = none
before_last (c ∷ s) = elim (before_last s) [
  | some taken ↦ some (c ∷ taken)
  | none ↦ if is_char ")" c then some "" else none
]

-- The three groups of the pattern: the table, its columns, the values.
pub record Upsert : Type 0 where
  pub table : String
  pub columns : String
  pub given : String

abbrev group : String × String → Option (String × String)
group (taken, rest) = if taken == "" then none else some (taken, rest)

unfoldable pub parsed_upsert : String → Option Upsert
unfolding literal lstrip span before_last
parsed_upsert sql = Option.bind (inserted_into "replace" sql) λ named.
    Option.bind (group (span is_name_char named)) λ table.
      Option.bind (literal "(" table.1) λ listed.
        Option.bind (group (span (λ c. not (is_char ")" c)) listed)) λ columns.
          Option.bind (Option.bind (literal ")" columns.1) spaced) λ behind.
            Option.bind (literal "values" behind) λ valued.
              Option.bind (literal "(" (lstrip is_space valued)) λ opened.
                Option.bind (nonempty (before_last opened))
                  λ given. some (record { table = table.0; columns = columns.0; given = given })

abbrev conflict_columns : Dict String
conflict_columns = ("tenant_configs", "tenant_id") ∷ ("enrollment_tokens", "token") ∷ []

-- `", ".join(texts)`
unfoldable pub joined : List String → String
joined [] = ""
joined (x ∷ []) = x
joined (x ∷ (y ∷ xs)) = let rest = joined (y ∷ xs) in x <> (", " <> rest)

abbrev upserted : Upsert → String → String
upserted u key =
    let columns = map strip (split_on "," u.columns) in
    let assignments =
      map (λ column. column <> ("=excluded." <> column))
        (select (λ column. not (column == key)) columns) in
    "insert into "
    <> (u.table
        <> ("("
            <> (joined columns
                <> (") values ("
                    <> (u.given
                        <> (") on conflict ("
                            <> (key <> (") do update set " <> joined assignments))))))))

abbrev replaced : String → Option Upsert → String
replaced sql none = sql
replaced sql (some u) = elim (Dict.get u.table conflict_columns) [
  | none ↦ sql
  | some key ↦ upserted u key
]

unfoldable pub translate_insert_or_replace : String → String
unfolding parsed_upsert Dict.get split_on strip joined select
translate_insert_or_replace sql = replaced sql (parsed_upsert sql)

unfoldable pub translate_sql : String → String
unfolding strip substitute order_by_rowid quote_reserved_columns translate_insert_or_ignore
    translate_insert_or_replace replace_by
translate_sql sql =
    let ordered = substitute order_by_rowid "order by created_at" 0 none (strip sql) in
    replace_by "?" "%s"
      (translate_insert_or_ignore (translate_insert_or_replace (quote_reserved_columns ordered)))
