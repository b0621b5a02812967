-- ===== src/Json.antt =====
-- The values of `json`: what task arguments, results and metadata are made of. A column
-- `..._json` holds the value that `json.loads` gives back for its text.
use shigure_edr.Base.{
  zero, String, Bool, true, false, not, ◌||◌, Option, none, some, List, [], ◌∷◌, ◌==◌,
}
use shigure_edr.Base.Int.{ℤ, pos}
use shigure_edr.Base.Dict
use shigure_edr.Base.Dict.{Dict}

-- `float` holds the text that Python prints for the number.
mutual
  pub data Json : Type 0 where
    null : Json
    bool : Bool → Json
    int : ℤ → Json
    float : String → Json
    str : String → Json
    arr : Items → Json
    obj : Fields → Json

  pub data Items : Type 0 where
    nil : Items
    cons : Json → Items → Items

  pub data Fields : Type 0 where
    end : Fields
    field : String → Json → Fields → Fields

abbrev pub items : List Json → Items
items [] = nil
items (v ∷ vs) = cons v (items vs)

abbrev pub fields : Dict Json → Fields
fields [] = end
fields ((k, v) ∷ d) = field k v (fields d)

abbrev pub strings : List String → Items
strings [] = nil
strings (s ∷ ss) = cons (str s) (strings ss)

abbrev is_zero : ℤ → Bool
is_zero (pos zero) = true
is_zero _ = false

-- `bool(value)`
abbrev pub truthy : Json → Bool
truthy null = false
truthy (bool b) = b
truthy (int n) = not (is_zero n)
truthy (float r) = not (r == "0.0" || r == "-0.0")
truthy (str s) = not (s == "")
truthy (arr nil) = false
truthy (arr (cons v vs)) = true
truthy (obj end) = false
truthy (obj (field k v d)) = true

-- `isinstance(value, str)`, `bool` and `int`; a Python `bool` is an `int`.
abbrev pub is_str : Json → Bool
is_str (str s) = true
is_str _ = false

abbrev pub is_bool : Json → Bool
is_bool (bool b) = true
is_bool _ = false

abbrev pub is_int : Json → Bool
is_int (int n) = true
is_int (bool b) = true
is_int _ = false

-- `d[k] = v` where the value is there.
abbrev pub put_some : String → Option Json → Dict Json → Dict Json
put_some k none d = d
put_some k (some v) d = Dict.put k v d

-- The text under a key.
abbrev pub text_at : String → Dict Json → String
text_at k d = elim (Dict.get k d) [ none ↦ "" | some v ↦ elim v [ str s ↦ s | _ ↦ "" ] ]

-- The entries of an object and the elements of an array.
abbrev pub entries : Fields → Dict Json
entries end = []
entries (field k v d) = (k, v) ∷ entries d

abbrev pub elements : Items → List Json
elements nil = []
elements (cons v vs) = v ∷ elements vs
